-- ===== src/Server/Params.antt =====
-- src/server.rs: the optional parameters of a request. `serde_json::Value` is a parameter `J`, with
-- the length that `Value::Array` gives.
use Prim.Native.String.{String}
use hetero_paged_infer.Prelude.{ℕ, Bool, true, false, not, Option, none, some, List, [], ◌∷◌}
use hetero_paged_infer.Prelude.Tests.{◌==◌, leb, is_some, if◌then◌else◌}
use hetero_paged_infer.Prelude.Lists.{is_empty}
use hetero_paged_infer.Prelude.Float.{F32, FloatOps, f32_zero}
use hetero_paged_infer.Prelude.Results.{Result, ok, err, fail_if, ◌>>◌}
use hetero_paged_infer.Error.{text, parameter_not_supported, logprobs_out_of_range}
use hetero_paged_infer.Engine.Text.{is_empty_text}
use hetero_paged_infer.Server.Errors.{ApiError, bad_request}

pub data StopSequence : Type 0 where
  single : String → StopSequence
  multiple : List String → StopSequence

unfoldable pub stop_is_empty : StopSequence → Bool
stop_is_empty (single s) = is_empty_text s
stop_is_empty (multiple v) = is_empty v

unfoldable pub to_vec : StopSequence → List String
to_vec (single s) = s ∷ []
to_vec (multiple v) = v

unfoldable pub stop_sequences : Option StopSequence → List String
stop_sequences none = []
stop_sequences (some s) = if stop_is_empty s then [] else to_vec s

pub data LogprobsParam : Type 0 where
  switch : Bool → LogprobsParam
  count : ℕ → LogprobsParam

unfoldable pub logprobs_param : Option LogprobsParam → Result ApiError (Option ℕ)
logprobs_param none = ok none
logprobs_param (some (switch false)) = ok none
logprobs_param (some (switch true)) = ok (some 1)
logprobs_param (some (count k)) =
    if k == 0
    then ok none
    else if leb k 5
    then ok (some k)
    else err (bad_request (logprobs_out_of_range k))

-- A `seed` is the bit pattern of its `i64`.
pub record UnsupportedParams (J : Type 0) : Type 0 where
  pub seed : Option ℕ
  pub echo : Option Bool
  pub suffix : Option String
  pub frequency_penalty : Option F32
  pub presence_penalty : Option F32
  pub best_of : Option ℕ
  pub stream_options : Option J
  pub tools : Option J
  pub tool_choice : Option J
  pub response_format : Option J
  pub function_call : Option J
  pub functions : Option J

abbrev pub is_some_and : {A : Type 0} → (A → Bool) → Option A → Bool
is_some_and p none = false
is_some_and p (some a) = p a

abbrev pub unsupported : String → ApiError
unsupported name = bad_request (parameter_not_supported name)

module _ {J : Type 0} (array_len : J → Option ℕ) (ops : FloatOps) where
  unfoldable pub is_empty_array : J → Bool
  is_empty_array v = is_some_and (λ n. n == 0) (array_len v)

  unfoldable pub reject_unsupported_params : UnsupportedParams J → Result ApiError (Unit {0})
  reject_unsupported_params p = do
    fail_if (is_some p.seed) (unsupported "seed")
    fail_if (is_some_and (λ b. b) p.echo) (unsupported "echo")
    fail_if (is_some_and (λ s. not (is_empty_text s)) p.suffix) (unsupported "suffix")
    fail_if (is_some_and (λ v. not (ops.is_finite v)) p.frequency_penalty)
        (bad_request (text "frequency_penalty must be a finite number"))
    fail_if (is_some_and (λ v. not (ops.is_finite v)) p.presence_penalty)
        (bad_request (text "presence_penalty must be a finite number"))
    fail_if (is_some_and (λ v. not (ops.eq v f32_zero)) p.frequency_penalty)
        (unsupported "frequency_penalty")
    fail_if (is_some_and (λ v. not (ops.eq v f32_zero)) p.presence_penalty)
        (unsupported "presence_penalty")
    fail_if (is_some_and (λ v. not (v == 1)) p.best_of) (unsupported "best_of")
    fail_if (is_some p.stream_options) (unsupported "stream_options")
    fail_if (is_some_and (λ v. not (is_empty_array v)) p.tools) (unsupported "tools")
    fail_if (is_some p.tool_choice) (unsupported "tool_choice")
    fail_if (is_some p.response_format) (unsupported "response_format")
    fail_if (is_some p.function_call) (unsupported "function_call")
    fail_if (is_some_and (λ v. not (is_empty_array v)) p.functions) (unsupported "functions")
