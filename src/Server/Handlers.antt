-- ===== src/Server/Handlers.antt =====
-- src/server.rs: `completions`, `chat_completions` and what they share.
use hetero_paged_infer.Server.Prepare.{
  unwrap_or, prepare_completion_request, prepare_chat_request, CompletionRequest,
  ChatCompletionRequest, PreparedGenerationRequest,
}
use hetero_paged_infer.Server.Answers.{
  guard_drop, generate_many, guard_new, meter_stream, meter_request, meter_error, next_id,
  submit_candidates, AppState, SubmitOutcome,
}
use Prim.Native.String.{String}
use hetero_paged_infer.Prelude.{ℕ, ◌+◌, Option, none, some, List, [], ◌∷◌}
use hetero_paged_infer.Prelude.Tests.{◌==◌, if◌then◌else◌}
use hetero_paged_infer.Prelude.Words.{to_u32}
use hetero_paged_infer.Prelude.Float.{FloatOps}
use hetero_paged_infer.Prelude.Results.{Result, ok, err}
use hetero_paged_infer.Error.{text}
use hetero_paged_infer.Config.{EngineConfig}
use hetero_paged_infer.Server.Errors.{ApiError, bad_request, ErrorResponse, into_response}
use hetero_paged_infer.Server.Generation.{
  GenerationResult, LogprobsOutput, Usage, usage, usage_multi, choice_logprobs,
}
use hetero_paged_infer.Server.Streams.{StreamKind, completion, chat}

-- A choice of either kind; `role` is that of a chat message.
pub record Choice : Type 0 where
  pub index : ℕ
  pub role : Option String
  pub content : String
  pub finish_reason : String
  pub logprobs : Option LogprobsOutput

-- `CompletionResponse` and `ChatCompletionResponse`
pub record GenerationResponse : Type 0 where
  pub id : String × ℕ
  pub object : String
  pub model : String
  pub choices : List Choice
  pub usage : Usage

-- A stream is that of `n` candidates with `k` logprobs.
pub data Reply : Type 0 where
  failure : ErrorResponse → Reply
  response : GenerationResponse → Reply
  event_stream : String × ℕ → StreamKind → String → ℕ → ℕ → ℕ → Reply

abbrev pub role_of : StreamKind → Option String
role_of completion = none
role_of chat = some "assistant"

abbrev pub object_of : StreamKind → String
object_of completion = "text_completion"
object_of chat = "chat.completion"

-- What the engine's loop does for a request, which is not known to the handler: its answer to each
-- submission of a stream, and the result of each candidate in the order in which they end. How many
-- of them the handler asks for is up to its loops.
pub record Answered : Type 0 where
  pub outcomes : ℕ → SubmitOutcome
  pub results : ℕ → Result ApiError GenerationResult

unfoldable pub error_reply : ApiError → AppState → Reply × AppState
error_reply e s = (failure (into_response e), meter_error s)

module _ (try_decode : List ℕ → Result String String) where
  unfoldable pub choice_of : StreamKind → ℕ → ℕ → GenerationResult → Choice
  choice_of kind k i g = record {
    index = i;
    role = role_of kind;
    content = g.text;
    finish_reason = g.finish_reason;
    logprobs = choice_logprobs try_decode k g;
  }

  -- `.enumerate()`, with `i as u32`
  unfoldable pub choices_from : StreamKind → ℕ → ℕ → List GenerationResult → List Choice
  choices_from kind k i [] = []
  choices_from kind k i (g ∷ gs) = choice_of kind k (to_u32 i) g ∷ choices_from kind k (i + 1) gs

  abbrev pub respond_stream :
      StreamKind
      → String
      → PreparedGenerationRequest
      → Result ApiError ℕ
      → AppState
      → Reply × AppState
  respond_stream kind prefix p (err e) s = error_reply e s
  respond_stream kind prefix p (ok prompt_tokens) s =
      let (id, s') = next_id prefix (meter_stream s) in
      (event_stream id kind p.model prompt_tokens p.n (unwrap_or p.params.logprobs 1), s')

  abbrev pub respond_one :
      StreamKind
      → String
      → PreparedGenerationRequest
      → Result ApiError GenerationResult
      → AppState
      → Reply × AppState
  respond_one kind prefix p (err e) s = error_reply e s
  respond_one kind prefix p (ok g) s =
      let (id, s') = next_id prefix s in
      (
        response (record {
          id = id;
          object = object_of kind;
          model = p.model;
          choices = choice_of kind (unwrap_or p.params.logprobs 1) 0 g ∷ [];
          usage = usage g;
        }),
        s',
      )

  abbrev pub respond_many :
      StreamKind
      → String
      → PreparedGenerationRequest
      → Result ApiError (List GenerationResult)
      → AppState
      → Reply × AppState
  respond_many kind prefix p (err e) s = error_reply e s
  respond_many kind prefix p (ok gs) s =
      let (id, s') = next_id prefix s in
      (
        response (record {
          id = id;
          object = object_of kind;
          model = p.model;
          choices = choices_from kind (unwrap_or p.params.logprobs 1) 0 gs;
          usage = usage_multi gs;
        }),
        s',
      )

  unfoldable pub respond_generation :
      StreamKind → String → PreparedGenerationRequest → Answered → AppState → Reply × AppState
  respond_generation kind prefix p a s =
      if p.stream
      then respond_stream kind prefix p (submit_candidates p.n a.outcomes) s
      else if p.n == 1
      then respond_one kind prefix p (a.results 0) s
      else respond_many kind prefix p (generate_many p.n a.results) s

  abbrev pub respond_prepared :
      StreamKind
      → String
      → Result ApiError PreparedGenerationRequest
      → Answered
      → AppState
      → Reply × AppState
  respond_prepared kind prefix (err e) a s = error_reply e s
  respond_prepared kind prefix (ok p) a s = respond_generation kind prefix p a s

  -- A body that JSON does not read is refused before any error is counted.
  abbrev pub respond_body :
      {R : Type 0}
      → StreamKind
      → String
      → (R → Result ApiError PreparedGenerationRequest)
      → Result String R
      → Answered
      → AppState
      → Reply × AppState
  respond_body kind prefix prepare (err rejection) a s =
      (failure (into_response (bad_request (text rejection))), s)
  respond_body kind prefix prepare (ok request) a s =
      respond_prepared kind prefix (prepare request) a s

  -- The handler; the guard is dropped when it returns.
  abbrev pub handle :
      {R : Type 0}
      → StreamKind
      → String
      → (R → Result ApiError PreparedGenerationRequest)
      → Result String R
      → Answered
      → AppState
      → Reply × AppState
  handle kind prefix prepare body a s =
      let (reply, s') = respond_body kind prefix prepare body a (meter_request (guard_new s)) in
      (reply, guard_drop s')

module _ {J : Type 0} (try_decode : List ℕ → Result String String) (array_len : J → Option ℕ)
    (ops : FloatOps) (c : EngineConfig) where
  unfoldable pub completions :
      Result String (CompletionRequest J) → Answered → AppState → Reply × AppState
  completions body a s =
      handle try_decode completion "cmpl" (prepare_completion_request array_len ops c) body a s

  unfoldable pub chat_completions :
      Result String (ChatCompletionRequest J) → Answered → AppState → Reply × AppState
  chat_completions body a s =
      handle try_decode chat "chatcmpl" (prepare_chat_request array_len ops c) body a s
