-- ===== src/Server/Offsets.antt =====
-- src/server.rs and src/engine.rs: the byte offsets of the logprobs, and the cut at a stop sequence.
use hetero_paged_infer.Engine.Collection.{text_or_empty}
use hetero_paged_infer.Types.Request.{TokenLogprobs}
use hetero_paged_infer.Engine.Text.{decoded_len, tokens_before_from, tokens_before_char, byte_len}
use hetero_paged_infer.Server.Generation.{
  token_text, LogprobsOutput, logprobs_output, logprobs_from,
}
use Prim.Native.String.{String}
use hetero_paged_infer.Prelude.{
  ap, ℕ, zero, suc, ◌+◌, ◌≤◌, ◌≡◌, ◌∙◌, refl, some, List, [], ◌∷◌, map, arith,
}
use hetero_paged_infer.Prelude.Lists.{length, get_elem?}
use hetero_paged_infer.Prelude.Results.{Result, ok, err}

-- The four lists of a response block stand in step.
pub record InStep (n : ℕ) (o : LogprobsOutput) : Type 0 where
  pub tokens : length o.tokens ≡ n
  pub token_logprobs : length o.token_logprobs ≡ n
  pub top_logprobs : length o.top_logprobs ≡ n
  pub text_offset : length o.text_offset ≡ n

decoded_len_lem : (r : Result String String) → decoded_len r ≡ byte_len (text_or_empty r)
unfolding byte_len
decoded_len_lem (ok s) = refl
decoded_len_lem (err m) = refl

module _ (try_decode : List ℕ → Result String String) (k : ℕ) where
  abbrev pub AllVisible : List TokenLogprobs → Type 0
  AllVisible [] = Unit {0}
  AllVisible (lp ∷ lps) = (1 ≤ byte_len (token_text try_decode k lp.token)) × AllVisible lps

  pub logprobs_from-InStep :
      (offset : ℕ) (lps : List TokenLogprobs)
      → InStep (length lps) (logprobs_from try_decode k offset lps)
  unfolding logprobs_from
  logprobs_from-InStep offset [] = record {
    tokens = refl;
    token_logprobs = refl;
    top_logprobs = refl;
    text_offset = refl;
  }
  logprobs_from-InStep offset (lp ∷ lps) =
      let ih = logprobs_from-InStep (offset + byte_len (token_text try_decode k lp.token)) lps in
      record {
        tokens = ap suc ih.tokens;
        token_logprobs = ap suc ih.token_logprobs;
        top_logprobs = ap suc ih.top_logprobs;
        text_offset = ap suc ih.text_offset;
      }

  offset_from :
      (offset i o : ℕ) (lps : List TokenLogprobs)
      → get_elem? (logprobs_from try_decode k offset lps).text_offset i ≡ some o
      → offset ≤ o
  unfolding logprobs_from
  offset_from offset i o [] h = cc
  offset_from offset zero o (lp ∷ lps) h = ground arith
  offset_from offset (suc i) o (lp ∷ lps) h =
      omega (arith, offset_from (offset + byte_len (token_text try_decode k lp.token)) i o lps h)

  cut_from :
      (offset j i o : ℕ) (lps : List TokenLogprobs)
      → AllVisible lps
      → get_elem? (logprobs_from try_decode k offset lps).text_offset i ≡ some o
      → tokens_before_from try_decode o j offset (map (λ lp. lp.token) lps) ≡ j + i
  unfolding logprobs_from tokens_before_from
  cut_from offset j i o [] v h = cc
  cut_from offset j zero o (lp ∷ lps) v h = ground arith
  cut_from offset j (suc i) o (lp ∷ lps) (v, vs) h =
      let len = byte_len (token_text try_decode k lp.token) in
      ground (
        arith,
        cut_from (offset + len) (j + 1) i o lps vs h,
        offset_from (offset + len) i o lps h,
        decoded_len_lem (try_decode (lp.token ∷ [])),
      )

  -- The offset that the response reports for the token at index `i` is the one at which the engine's
  -- cut keeps exactly the `i` tokens before it, where no token decodes to the empty text.
  pub tokens_before_char-text_offset :
      (lps : List TokenLogprobs) (i o : ℕ)
      → AllVisible lps
      → get_elem? (logprobs_output try_decode k lps).text_offset i ≡ some o
      → tokens_before_char try_decode (map (λ lp. lp.token) lps) o ≡ i
  unfolding logprobs_output tokens_before_char
  tokens_before_char-text_offset lps i o v h = cut_from 0 0 i o lps v h ∙ omega arith
