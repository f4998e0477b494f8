-- ===== src/Server/HandlerExamples.antt =====
-- Requests and handlers of the HTTP layer at concrete inputs.
use hetero_paged_infer.Prelude.Results.{ok}
use hetero_paged_infer.Server.Replies.{respond_generation-Answer, Answer}
use hetero_paged_infer.Server.Handlers.{
  choice_of, choices_from, respond_generation, GenerationResponse, Answered,
}
use hetero_paged_infer.Server.Answers.{
  answered, next_id, generate_many, spawn_candidates, join_candidates, AppState,
}
use hetero_paged_infer.Engine.{check_lengths, check_params, check_submission, submit_request}
use hetero_paged_infer.Config.{is_blank, default_config}
use hetero_paged_infer.Engine.Samples.{engine, dots}
use hetero_paged_infer.Pipeline.Mock.{mock}
use hetero_paged_infer.Server.Generation.{choice_logprobs, sum, usage_multi, GenerationResult}
use hetero_paged_infer.Error.{total_length_too_long}
use hetero_paged_infer.Server.Acceptance.{
  prepare_completion_request-Outcome, prepare_chat_request-Outcome, Acceptable, ClientError,
}
use hetero_paged_infer.Engine.Text.{is_empty_text}
use hetero_paged_infer.Server.Streams.{completion}
use hetero_paged_infer.Types.Request.{is_greedy}
use hetero_paged_infer.Server.Admission.{prepared-Refused, Refused}
use hetero_paged_infer.Server.Outcomes.{Outcome}
use hetero_paged_infer.Server.Prepare.{
  candidate_count, generation_params, resolve_model, prepared, validate_prompt,
  prepare_completion_request, prepare_chat_request, CompletionRequest, PreparedGenerationRequest,
  ChatCompletionRequest,
}
use hetero_paged_infer.Server.Params.{
  stop_sequences, logprobs_param, reject_unsupported_params, count, single, UnsupportedParams,
}
use hetero_paged_infer.Types.Request.{validate}
use hetero_paged_infer.Prelude.{ℕ, refl, false, Option, none, some, [], ◌∷◌}
use hetero_paged_infer.Prelude.Float.{fixed_point, f32_zero, f32_one}

no_array : Unit {0} → Option ℕ
no_array v = none

abbrev plain : UnsupportedParams (Unit {0})
plain = record {
  seed = none;
  echo = some false;
  suffix = none;
  frequency_penalty = some 0;
  presence_penalty = none;
  best_of = some 1;
  stream_options = none;
  tools = none;
  tool_choice = none;
  response_format = none;
  function_call = none;
  functions = none;
}

abbrev long_request : CompletionRequest (Unit {0})
long_request = record {
  model = none;
  prompt = "hi";
  max_tokens = some 5000;
  temperature = none;
  top_p = none;
  stream = none;
  stop = none;
  n = some 2;
  logprobs = some (count 3);
  priority = none;
  unsupported = plain;
}

abbrev long_prepared : PreparedGenerationRequest
long_prepared = record {
  model = "paged-serving";
  prompt = "hi";
  params = record {
    max_tokens = 5000;
    temperature = f32_zero;
    top_p = f32_one;
    stop = [];
    logprobs = some 3;
    priority = 0;
  };
  stream = false;
  n = 2;
}

chat_request : ChatCompletionRequest (Unit {0})
chat_request = record {
  model = some "paged-serving";
  messages = record { role = "user"; content = "hi" } ∷ [];
  max_tokens = none;
  temperature = none;
  top_p = none;
  stream = none;
  stop = some (single "");
  n = none;
  logprobs = none;
  priority = none;
  unsupported = plain;
}

prepare_completion_request-Outcome_example :
    Outcome ClientError
      (Acceptable fixed_point default_config)
      (prepare_completion_request no_array fixed_point default_config long_request)
prepare_completion_request-Outcome_example =
    prepare_completion_request-Outcome no_array fixed_point default_config long_request

prepare_chat_request-Outcome_example :
    Outcome ClientError
      (Acceptable fixed_point default_config)
      (prepare_chat_request no_array fixed_point default_config chat_request)
prepare_chat_request-Outcome_example =
    prepare_chat_request-Outcome no_array fixed_point default_config chat_request

prepared-Refused_example : Refused (total_length_too_long 5002 2048)
unfolding prepare_completion_request reject_unsupported_params validate_prompt is_blank prepared
    resolve_model logprobs_param generation_params validate stop_sequences candidate_count
    submit_request check_submission check_params is_greedy is_empty_text check_lengths no_array
prepared-Refused_example =
    prepared-Refused fixed_point dots mock no_array default_config long_request long_prepared refl
      engine (104 ∷ 105 ∷ []) refl (total_length_too_long 5002 2048) refl

abbrev counters : AppState
counters = record {
  metrics = record {
    requests_total = 4;
    errors_total = 1;
    inflight_requests = 2;
    streaming_requests_total = 0;
  };
  response_counter = 9;
}

abbrev result : GenerationResult
result = record {
  text = "hello";
  prompt_tokens = 2;
  completion_tokens = 2;
  finish_reason = "stop";
  logprobs = none;
}

abbrev two_results : Answered
two_results = record { outcomes = λ i. answered (ok (7, 2)); results = λ i. ok result }

abbrev two_choices : GenerationResponse
two_choices = record {
  id = ("cmpl", 9);
  object = "text_completion";
  model = "paged-serving";
  choices =
      record { index = 0; role = none; content = "hello"; finish_reason = "stop"; logprobs = none }
      ∷ record {
        index = 1;
        role = none;
        content = "hello";
        finish_reason = "stop";
        logprobs = none;
      }
      ∷ [];
  usage = record { prompt_tokens = 2; completion_tokens = 4; total_tokens = 6 };
}

respond_generation-Answer_example : Answer two_results.results 0 2 two_choices.choices
unfolding respond_generation generate_many spawn_candidates join_candidates next_id choices_from
    usage_multi choice_of sum choice_logprobs
respond_generation-Answer_example =
    respond_generation-Answer dots.try_decode completion "cmpl" long_prepared two_results counters
      two_choices refl
