-- ===== src/Server/Generation.antt =====
-- src/server.rs: the result of a generation, its usage and its logprobs.
use Prim.Native.String.{String}
use hetero_paged_infer.Prelude.{ℕ, ◌+◌, Option, List, [], ◌∷◌, map}
use hetero_paged_infer.Prelude.Tests.{if◌then◌else◌}
use hetero_paged_infer.Prelude.Lists.{length, take}
use hetero_paged_infer.Prelude.Float.{F32}
use hetero_paged_infer.Prelude.Results.{Result, ok, err}
use mathlib.Core.Option
use hetero_paged_infer.Error
use hetero_paged_infer.Types.Request.{
  TokenLogprobs, CompletedRequest, FinishReason, stop, length_limit,
}
use hetero_paged_infer.Engine.Text.{is_empty_text, byte_len}
use hetero_paged_infer.Engine.Collection.{text_or_empty}
use hetero_paged_infer.Server.Errors.{ApiError, internal}
use hetero_paged_infer.Server.Prepare.{unwrap_or}

-- src/types/request.rs
abbrev pub as_str : FinishReason → String
as_str stop = "stop"
as_str length_limit = "length"

pub record GenerationResult : Type 0 where
  pub text : String
  pub prompt_tokens : ℕ
  pub completion_tokens : ℕ
  pub finish_reason : String
  pub logprobs : Option (List TokenLogprobs)

unfoldable pub generation_result : ℕ → CompletedRequest → Result ApiError GenerationResult
generation_result prompt_tokens c =
    if c.success
    then ok (record {
      text = c.output_text;
      prompt_tokens = prompt_tokens;
      completion_tokens = length c.output_tokens;
      finish_reason = as_str (unwrap_or c.finish_reason stop);
      logprobs = c.logprobs;
    })
    else err (internal (unwrap_or c.error (hetero_paged_infer.Error.text "generation failed")))

pub record Usage : Type 0 where
  pub prompt_tokens : ℕ
  pub completion_tokens : ℕ
  pub total_tokens : ℕ

abbrev pub usage_of : ℕ → ℕ → Usage
usage_of prompt completion = record {
  prompt_tokens = prompt;
  completion_tokens = completion;
  total_tokens = prompt + completion;
}

unfoldable pub usage : GenerationResult → Usage
usage g = usage_of g.prompt_tokens g.completion_tokens

unfoldable pub sum : List ℕ → ℕ
sum [] = 0
sum (n ∷ ns) = n + sum ns

abbrev pub first_prompt_tokens : List GenerationResult → ℕ
first_prompt_tokens [] = 0
first_prompt_tokens (g ∷ gs) = g.prompt_tokens

unfoldable pub usage_multi : List GenerationResult → Usage
usage_multi results =
    usage_of (first_prompt_tokens results) (sum (map (λ g. g.completion_tokens) results))

-- A label is the token's text, or `<token_id=N>` where that is empty.
pub data Label : Type 0 where
  decoded : String → Label
  token_id : ℕ → Label

-- The pairs of `top_logprobs` stand as they are collected into the map.
pub record LogprobsOutput : Type 0 where
  pub tokens : List Label
  pub token_logprobs : List F32
  pub top_logprobs : List (List (Label × F32))
  pub text_offset : List ℕ

module _ (try_decode : List ℕ → Result String String) (k : ℕ) where
  -- `tokenizer.try_decode(&[token]).unwrap_or_default()`
  abbrev pub token_text : ℕ → String
  token_text token = text_or_empty (try_decode (token ∷ []))

  unfoldable pub label_of : ℕ → Label
  label_of token =
      if is_empty_text (token_text token) then token_id token else decoded (token_text token)

  unfoldable pub labelled : List (ℕ × F32) → List (Label × F32)
  labelled top = map (λ t. (label_of t.0, t.1)) (take k top)

  -- The loop over the logprobs, from the offset reached.
  unfoldable pub logprobs_from : ℕ → List TokenLogprobs → LogprobsOutput
  logprobs_from offset [] = record {
    tokens = [];
    token_logprobs = [];
    top_logprobs = [];
    text_offset = [];
  }
  logprobs_from offset (lp ∷ lps) =
      let rest = logprobs_from (offset + byte_len (token_text lp.token)) lps in
      record {
        tokens = label_of lp.token ∷ rest.tokens;
        token_logprobs = lp.logprob ∷ rest.token_logprobs;
        top_logprobs = labelled lp.top_logprobs ∷ rest.top_logprobs;
        text_offset = offset ∷ rest.text_offset;
      }

  unfoldable pub logprobs_output : List TokenLogprobs → LogprobsOutput
  logprobs_output lps = logprobs_from 0 lps

  unfoldable pub choice_logprobs : GenerationResult → Option LogprobsOutput
  choice_logprobs g = Option.map logprobs_output g.logprobs
