-- ===== src/Types/Request.antt =====
-- src/types/request.rs and the identifiers and states of src/types/mod.rs
use Prim.Native.String.{String}
use hetero_paged_infer.Prelude.{ℕ, ◌+◌, Bool, false, not, ◌&&◌, ◌||◌, Option, none, some, List, []}
use hetero_paged_infer.Prelude.Tests.{ltb, leb, ◌==◌}
use hetero_paged_infer.Prelude.Lists.{length, last?}
use hetero_paged_infer.Prelude.Float.{F32, FloatOps, f32_zero, f32_one, f32_two}
use hetero_paged_infer.Prelude.Results.{Result, ok, fail_if, ◌>>◌}
use hetero_paged_infer.Error.{
  EngineError, Message, invalid_max_tokens, invalid_temperature, invalid_top_p,
  too_many_stop_sequences, invalid_logprobs,
}

pub data RequestState : Type 0 where
  pending prefill decode completed : RequestState
  failed : Message → RequestState

pub record TokenLogprobs : Type 0 where
  pub token : ℕ
  pub logprob : F32
  pub top_logprobs : List (ℕ × F32)

pub record GenerationParams : Type 0 where
  pub max_tokens : ℕ
  pub temperature : F32
  pub top_p : F32
  pub stop : List String
  pub logprobs : Option ℕ
  pub priority : ℕ

abbrev pub default_params : GenerationParams
default_params = record {
  max_tokens = 100;
  temperature = f32_zero;
  top_p = f32_one;
  stop = [];
  logprobs = none;
  priority = 0;
}

-- `self.logprobs.is_some_and(|k| k > 5)`, with the error that carries `k`
check_logprobs : Option ℕ → Result EngineError (Unit {0})
check_logprobs none = ok tt
check_logprobs (some k) = fail_if (ltb 5 k) (invalid_logprobs k)

unfoldable pub validate : FloatOps → GenerationParams → Result EngineError (Unit {0})
unfolding check_logprobs
validate ops p = do
  fail_if (p.max_tokens == 0) (invalid_max_tokens p.max_tokens)
  fail_if
      (not (ops.is_finite p.temperature)
        || not (ops.le f32_zero p.temperature && ops.le p.temperature f32_two))
      (invalid_temperature p.temperature)
  fail_if (not (ops.is_finite p.top_p) || ops.le p.top_p f32_zero || ops.lt f32_one p.top_p)
      (invalid_top_p p.top_p)
  fail_if (ltb 4 (length p.stop)) (too_many_stop_sequences (length p.stop))
  check_logprobs p.logprobs

unfoldable pub is_greedy : FloatOps → GenerationParams → Bool
is_greedy ops p = ops.eq p.temperature f32_zero && ops.eq p.top_p f32_one

pub record Request : Type 0 where
  pub id : ℕ
  pub input_tokens : List ℕ
  pub output_tokens : List ℕ
  pub params : GenerationParams
  pub stop_sequence_hit : Bool
  pub logprobs : List TokenLogprobs
  pub state : RequestState

unfoldable pub new_request : ℕ → List ℕ → GenerationParams → Request
new_request id input_tokens params = record {
  id = id;
  input_tokens = input_tokens;
  output_tokens = [];
  params = params;
  stop_sequence_hit = false;
  logprobs = [];
  state = pending;
}

unfoldable pub request_tokens : Request → ℕ
request_tokens r = length r.input_tokens + length r.output_tokens

ends_with_eos : ℕ → Option ℕ → Bool
ends_with_eos eos none = false
ends_with_eos eos (some last_token) = last_token == eos

unfoldable pub is_complete : Request → ℕ → Bool
unfolding ends_with_eos
is_complete r eos_token_id =
    leb r.params.max_tokens (length r.output_tokens)
    || ends_with_eos eos_token_id (last? r.output_tokens)

pub data FinishReason : Type 0 where
  stop length_limit : FinishReason

pub record CompletedRequest : Type 0 where
  pub request_id : ℕ
  pub input_text : Option String
  pub output_text : String
  pub output_tokens : List ℕ
  pub success : Bool
  pub error : Option Message
  pub finish_reason : Option FinishReason
  pub logprobs : Option (List TokenLogprobs)
