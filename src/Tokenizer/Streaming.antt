-- ===== src/Tokenizer/Streaming.antt =====
-- The contract of `create_decoder`: the pieces of text that a decoder gives out for the tokens of a
-- request, put together, are the text that the tokens decode to at once.
use hetero_paged_infer.Config.{simple, hugging_face, TokenizerKind, EngineConfig}
use Prim.Native.String.{String}
use Prim.Native.String
use text.Mathlib.TextLemmas.{nil-append, cons-append}
use hetero_paged_infer.Prelude.{
  ap, ℕ, ◌≡◌, ◌≢◌, refl, ◌∙◌, Option, none, some, List, [], ◌∷◌, ◌++◌, arith, inl, inr,
}
use mathlib.Core.List.{append_assoc, append-nil}
use hetero_paged_infer.Prelude.Tests.{Option-cases}
use hetero_paged_infer.Prelude.Results.{Result, ok, err, ◌>>=◌}
use hetero_paged_infer.SeqMap.{lookup}
use hetero_paged_infer.Tokenizer.{Tokenizer}
use hetero_paged_infer.Tokenizer.Simple.{
  with_special_tokens, SimpleTokenizer, decode_text, decode_tokens, simple_decoder_of, push_simple,
}
use hetero_paged_infer.Tokenizer.HuggingFace.{
  Library, HuggingFaceTokenizer, BufferedDecoder, decode_with_library, push_buffered,
  finish_buffered,
}
use hetero_paged_infer.Tokenizer.Decoders.{
  tokenizer_of_kind, load_hugging_face, build_tokenizer, boxed, Decoder, simple_decoder,
  buffered_decoder, push_decoder, finish_decoder, simple_tokenizer, hugging_face_tokenizer,
}

abbrev pub piece : Option String → String
piece none = String.[]
piece (some text) = text

-- What a client receives: each piece that `push` gives out, and then the piece of `finish`.
module _ {D : Type 0} (t : Tokenizer D) where
  unfoldable pub stream_from : D → List ℕ → Result String String
  stream_from d [] = do p ← (t.finish d).0; ok (piece p)
  stream_from d (token ∷ tokens) = do
    p ← (t.push d token).0
    rest ← stream_from (t.push d token).1 tokens
    ok (String.◌++◌ (piece p) rest)

  unfoldable pub stream : List ℕ → Result String String
  stream tokens = stream_from t.create_decoder tokens

simple_stream :
    (t : SimpleTokenizer) (tokens : List ℕ)
    → stream_from (simple_tokenizer t) (simple_decoder (simple_decoder_of t)) tokens
      ≡ ok (decode_tokens t tokens)
unfolding stream_from finish_decoder push_decoder push_simple decode_tokens simple_decoder_of
simple_stream t [] = refl
simple_stream t (token ∷ tokens) =
    let ih = simple_stream t tokens in
    let rest = decode_tokens t tokens in
    elim (Option-cases (lookup token t.id_to_char)) [
      | inl e ↦ ground (arith, ih, nil-append rest, e)
      | inr (c, e) ↦ ground (arith, ih, nil-append rest, cons-append c String.[] rest, e)
    ]

nothing_before : (r : Result String String) → (r >>= λ rest. ok (String.◌++◌ String.[] rest)) ≡ r
nothing_before (ok text) = ap ok (nil-append text)
nothing_before (err message) = refl

buffered_stream :
    (t : HuggingFaceTokenizer) (d : BufferedDecoder) (tokens : List ℕ)
    → stream_from (hugging_face_tokenizer t) (buffered_decoder d) tokens
      ≡ (finish_buffered (record d { tokens = d.tokens ++ tokens }) >>= λ p. ok (piece p))
unfolding stream_from finish_decoder push_decoder push_buffered
buffered_stream t d [] = rw (append-nil d.tokens) refl
buffered_stream t d (token ∷ tokens) =
    nothing_before _
    ∙ buffered_stream t (push_buffered d token) tokens
    ∙ rw (append_assoc d.tokens (token ∷ []) tokens) refl

-- Every text that some tokens decode to is what their stream gives out.
abbrev pub Streams : {D : Type 0} → Tokenizer D → Type 0
Streams t =
    (tokens : List ℕ) (text : String)
    → tokens ≢ []
    → t.try_decode tokens ≡ ok text
    → stream t tokens ≡ ok text

pub simple-Streams : (t : SimpleTokenizer) → Streams (simple_tokenizer t)
unfolding stream decode_text
simple-Streams t tokens text h e = simple_stream t tokens ∙ e

pub hugging_face-Streams : (t : HuggingFaceTokenizer) → Streams (hugging_face_tokenizer t)
unfolding stream decode_with_library finish_buffered
hugging_face-Streams t [] text h e = absurd (h refl)
hugging_face-Streams t (token ∷ tokens) text h e =
    buffered_stream t (record { inner = t.inner; tokens = [] }) (token ∷ tokens) ∙ rw e refl

boxed-Streams :
    (r : Result String HuggingFaceTokenizer) (t : Tokenizer Decoder) → boxed r ≡ ok t → Streams t
boxed-Streams (ok u) t e =
    let f : hugging_face_tokenizer u ≡ t = cc in rw (← f) (hugging_face-Streams u)
boxed-Streams (err message) t e = cc

load-Streams :
    (from_file : String → Result String Library) (c : EngineConfig) (path : Option String)
    (t : Tokenizer Decoder)
    → load_hugging_face from_file c path ≡ ok t
    → Streams t
unfolding load_hugging_face
load-Streams from_file c none t e = cc
load-Streams from_file c (some path) t e = boxed-Streams _ t e

kind-Streams :
    (from_file : String → Result String Library) (c : EngineConfig) (k : TokenizerKind)
    (t : Tokenizer Decoder)
    → tokenizer_of_kind from_file c k ≡ ok t
    → Streams t
unfolding tokenizer_of_kind
kind-Streams from_file c simple t e =
    let u = with_special_tokens c.special_tokens in
    let f : simple_tokenizer u ≡ t = cc in rw (← f) (simple-Streams u)
kind-Streams from_file c hugging_face t e = load-Streams from_file c c.tokenizer.path t e

-- Whatever tokenizer a configuration asks for: where `try_decode` makes a text of a list of tokens
-- that is not empty, the pieces of text that a fresh decoder gives out for these tokens one by one,
-- put together with the piece of `finish`, are exactly this text.
pub stream-try_decode :
    (from_file : String → Result String Library) (c : EngineConfig) (t : Tokenizer Decoder)
    → build_tokenizer from_file c ≡ ok t
    → (tokens : List ℕ) (text : String) → tokens ≢ []
    → t.try_decode tokens ≡ ok text
    → stream t tokens ≡ ok text
unfolding build_tokenizer
stream-try_decode from_file c t e = kind-Streams from_file c c.tokenizer.kind t e
