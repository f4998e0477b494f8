-- ===== src/Server/Prepare.antt =====
-- src/server.rs: from the body of a request to the prompt and the parameters of its generation.
use Prim.Native.String.{String}
use Prim.Native.String
use package.text.Mathlib.Text
use hetero_paged_infer.Prelude.{ℕ, Bool, false, not, ◌&&◌, ◌||◌, Option, none, some, List, [], ◌∷◌}
use hetero_paged_infer.Prelude.Tests.{◌==◌, ltb, if◌then◌else◌}
use hetero_paged_infer.Prelude.Lists.{is_empty}
use hetero_paged_infer.Prelude.Float.{F32, FloatOps, f32_zero, f32_one}
use hetero_paged_infer.Prelude.Results.{Result, ok, err, fail_if, ◌>>=◌, ◌>>◌}
use hetero_paged_infer.Error.{
  EngineError, error_text, text, invalid_role, model_not_found, too_many_candidates,
}
use hetero_paged_infer.Config.{EngineConfig, TokenizerKind, simple, hugging_face, is_blank}
use hetero_paged_infer.Types.Request.{GenerationParams, validate}
use hetero_paged_infer.Server.Errors.{ApiError, bad_request, not_found}
use hetero_paged_infer.Server.Params.{
  StopSequence, stop_sequences, LogprobsParam, logprobs_param, UnsupportedParams,
  reject_unsupported_params,
}

pub record ChatMessage : Type 0 where
  pub role : String
  pub content : String

pub record CompletionRequest (J : Type 0) : Type 0 where
  pub model : Option String
  pub prompt : String
  pub max_tokens : Option ℕ
  pub temperature : Option F32
  pub top_p : Option F32
  pub stream : Option Bool
  pub stop : Option StopSequence
  pub n : Option ℕ
  pub logprobs : Option LogprobsParam
  pub priority : Option ℕ
  pub unsupported : UnsupportedParams J

pub record ChatCompletionRequest (J : Type 0) : Type 0 where
  pub model : Option String
  pub messages : List ChatMessage
  pub max_tokens : Option ℕ
  pub temperature : Option F32
  pub top_p : Option F32
  pub stream : Option Bool
  pub stop : Option StopSequence
  pub n : Option ℕ
  pub logprobs : Option LogprobsParam
  pub priority : Option ℕ
  pub unsupported : UnsupportedParams J

pub record PreparedGenerationRequest : Type 0 where
  pub model : String
  pub prompt : String
  pub params : GenerationParams
  pub stream : Bool
  pub n : ℕ

abbrev pub unwrap_or : {A : Type 0} → Option A → A → A
unwrap_or none default = default
unwrap_or (some a) default = a

-- `parts.join("\n")`
unfoldable pub join_lines : List String → String
join_lines [] = String.[]
join_lines (part ∷ []) = part
join_lines (part ∷ next ∷ parts) = String.◌++◌ part (String.◌++◌ "\n" (join_lines (next ∷ parts)))

unfoldable pub simple_parts : List ChatMessage → List String
simple_parts [] = []
simple_parts (m ∷ messages) =
    String.◌++◌ m.role (String.◌++◌ ": " m.content) ∷ simple_parts messages

-- The first branch of the loop, which the second one repeats for the role `system`.
abbrev pub system_part : ChatMessage → String
system_part m = String.◌++◌ "<|im_start|>system\n" (String.◌++◌ m.content "<|im_end|>")

abbrev pub message_part : ChatMessage → String
message_part m =
    String.◌++◌ "<|im_start|>"
      (String.◌++◌ m.role (String.◌++◌ "\n" (String.◌++◌ m.content "<|im_end|>")))

unfoldable pub qwen2_parts : ℕ → List ChatMessage → List String
qwen2_parts i [] = "<|im_start|>assistant" ∷ []
qwen2_parts i (m ∷ messages) =
    (if i == 0 && Text.◌==◌ m.role "system" then system_part m else message_part m)
    ∷ qwen2_parts (ℕ.suc i) messages

unfoldable pub qwen2_chat_prompt : List ChatMessage → String
qwen2_chat_prompt messages = join_lines (qwen2_parts 0 messages)

unfoldable pub build_chat_prompt : TokenizerKind → List ChatMessage → String
build_chat_prompt hugging_face messages = qwen2_chat_prompt messages
build_chat_prompt simple messages = join_lines (simple_parts messages)

unfoldable pub resolve_model : EngineConfig → Option String → Result ApiError String
resolve_model c none = ok c.serving.model_name
resolve_model c (some name) =
    if Text.◌==◌ name c.serving.model_name then ok name else err (not_found (model_not_found name))

-- `.map_err(|err| ApiError::BadRequest(err.to_string()))`
abbrev pub or_bad_request : Result EngineError (Unit {0}) → Result ApiError (Unit {0})
or_bad_request (ok t) = ok t
or_bad_request (err e) = err (bad_request (error_text e))

unfoldable pub validate_prompt : String → Result ApiError String
validate_prompt prompt =
    if is_blank prompt then err (bad_request (text "prompt must not be empty")) else ok prompt

abbrev pub max_candidates : ℕ
max_candidates = 16

unfoldable pub candidate_count : Option ℕ → Result ApiError ℕ
candidate_count requested = do
  fail_if (unwrap_or requested 1 == 0) (bad_request (text "n must be at least 1"))
  fail_if (ltb max_candidates (unwrap_or requested 1))
      (bad_request (too_many_candidates max_candidates))
  ok (unwrap_or requested 1)

abbrev pub is_role : String → Bool
is_role role = Text.◌==◌ role "system" || Text.◌==◌ role "user" || Text.◌==◌ role "assistant"

-- The loop over the messages stops at the first invalid role.
unfoldable pub check_roles : List ChatMessage → Result ApiError (Unit {0})
check_roles [] = ok tt
check_roles (m ∷ messages) =
    fail_if (not (is_role m.role)) (bad_request (invalid_role m.role)) >> check_roles messages

unfoldable pub check_messages : List ChatMessage → Result ApiError (Unit {0})
check_messages messages = do
  fail_if (is_empty messages) (bad_request (text "messages must not be empty"))
  check_roles messages

-- The parameters with their defaults.
abbrev pub requested_params :
    Option ℕ → Option F32 → Option F32 → List String → Option ℕ → Option ℕ → GenerationParams
requested_params max_tokens temperature top_p stop logprobs priority = record {
  max_tokens = unwrap_or max_tokens 16;
  temperature = unwrap_or temperature f32_zero;
  top_p = unwrap_or top_p f32_one;
  stop = stop;
  logprobs = logprobs;
  priority = unwrap_or priority 0;
}

module _ (ops : FloatOps) where
  unfoldable pub generation_params :
      Option ℕ
      → Option F32
      → Option F32
      → List String
      → Option ℕ
      → Option ℕ
      → Result ApiError GenerationParams
  generation_params max_tokens temperature top_p stop logprobs priority =
      let params = requested_params max_tokens temperature top_p stop logprobs priority in
      or_bad_request (validate ops params) >> ok params

  -- What both kinds of request end with: the fields of `PreparedGenerationRequest`, in order.
  unfoldable pub prepared :
      EngineConfig
      → Option String
      → String
      → Option ℕ
      → Option F32
      → Option F32
      → Option StopSequence
      → Option LogprobsParam
      → Option ℕ
      → Option Bool
      → Option ℕ
      → Result ApiError PreparedGenerationRequest
  prepared c requested prompt max_tokens temperature top_p stop logprobs priority stream n = do
    model ← resolve_model c requested
    k ← logprobs_param logprobs
    params ← generation_params max_tokens temperature top_p (stop_sequences stop) k priority
    candidates ← candidate_count n
    ok (record {
      model = model;
      prompt = prompt;
      params = params;
      stream = unwrap_or stream false;
      n = candidates;
    })

module _ {J : Type 0} (array_len : J → Option ℕ) (ops : FloatOps) (c : EngineConfig) where
  unfoldable pub prepare_completion_request :
      CompletionRequest J → Result ApiError PreparedGenerationRequest
  prepare_completion_request r = do
    reject_unsupported_params array_len ops r.unsupported
    prompt ← validate_prompt r.prompt
    prepared ops c r.model prompt r.max_tokens r.temperature r.top_p r.stop r.logprobs r.priority
        r.stream r.n

  unfoldable pub prepare_chat_request :
      ChatCompletionRequest J → Result ApiError PreparedGenerationRequest
  prepare_chat_request r = do
    reject_unsupported_params array_len ops r.unsupported
    check_messages r.messages
    prompt ← validate_prompt (build_chat_prompt c.tokenizer.kind r.messages)
    prepared ops c r.model prompt r.max_tokens r.temperature r.top_p r.stop r.logprobs r.priority
        r.stream r.n
