-- ===== src/Tokenizer/HuggingFace.antt =====
-- src/tokenizer.rs, `HuggingFaceTokenizer` and `BufferedDecoder`. The `Tokenizer` of the crate
-- `tokenizers` is a parameter: the operations of it that are called.
use Prim.Native.String.{String}
use hetero_paged_infer.Prelude.{ℕ, Bool, true, false, Option, none, some, List, [], ◌∷◌, ◌++◌}
use hetero_paged_infer.Prelude.Tests.{if◌then◌else◌}
use hetero_paged_infer.Prelude.Words.{to_u32}
use hetero_paged_infer.Prelude.Lists.{is_empty}
use hetero_paged_infer.Prelude.Results.{Result, ok, err, ◌>>=◌}
use hetero_paged_infer.Config.{SpecialTokenIds}

pub record Library : Type 0 where
  pub encode : String → Bool → Result String (List ℕ)
  pub decode : List ℕ → Bool → Result String String
  pub token_to_id : String → Option ℕ
  pub get_vocab_size : Bool → ℕ

pub record HuggingFaceTokenizer : Type 0 where
  pub inner : Library
  pub special_tokens : SpecialTokenIds

abbrev pub bos_token_names : List String
bos_token_names = "<|endoftext|>" ∷ "<s>" ∷ "<bos>" ∷ "<BOS>" ∷ []

abbrev pub eos_token_names : List String
eos_token_names = "<|im_end|>" ∷ "</s>" ∷ "<eos>" ∷ "<EOS>" ∷ "<|endoftext|>" ∷ []

abbrev pub pad_token_names : List String
pad_token_names = "<|endoftext|>" ∷ "<pad>" ∷ "<PAD>" ∷ []

abbrev pub first_of : Option ℕ → Option ℕ → Option ℕ
first_of none later = later
first_of (some id) later = some id

-- `names.iter().find_map(..)`
unfoldable pub first_token_id : Library → List String → Option ℕ
first_token_id inner [] = none
first_token_id inner (name ∷ names) = first_of (inner.token_to_id name) (first_token_id inner names)

abbrev pub or_configured : Option ℕ → ℕ → ℕ
or_configured none configured = configured
or_configured (some id) configured = id

unfoldable pub detect_special_tokens : Library → SpecialTokenIds → SpecialTokenIds
detect_special_tokens inner special = record special {
  bos = or_configured (first_token_id inner bos_token_names) special.bos;
  eos = or_configured (first_token_id inner eos_token_names) special.eos;
  pad = or_configured (first_token_id inner pad_token_names) special.pad;
}

-- `from_file` is `Tokenizer::from_file` of the crate.
unfoldable pub with_special_tokens_from_file :
    (String → Result String Library) → String → SpecialTokenIds → Result String HuggingFaceTokenizer
with_special_tokens_from_file from_file path special_tokens = do
  inner ← from_file path
  ok (record { inner = inner; special_tokens = detect_special_tokens inner special_tokens })

unfoldable pub encode_with_library : HuggingFaceTokenizer → String → Result String (List ℕ)
encode_with_library t text = t.inner.encode text false

unfoldable pub decode_with_library : HuggingFaceTokenizer → List ℕ → Result String String
decode_with_library t tokens = t.inner.decode tokens true

unfoldable pub library_vocab_size : HuggingFaceTokenizer → ℕ
library_vocab_size t = to_u32 (t.inner.get_vocab_size true)

pub record BufferedDecoder : Type 0 where
  pub inner : Library
  pub tokens : List ℕ

unfoldable pub push_buffered : BufferedDecoder → ℕ → BufferedDecoder
push_buffered d token = record d { tokens = d.tokens ++ token ∷ [] }

abbrev pub map_some : Result String String → Result String (Option String)
map_some (ok text) = ok (some text)
map_some (err message) = err message

unfoldable pub finish_buffered : BufferedDecoder → Result String (Option String)
finish_buffered d = if is_empty d.tokens then ok none else map_some (d.inner.decode d.tokens true)
