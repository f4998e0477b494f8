-- ===== src/Server/Admission.antt =====
-- src/server.rs and src/engine.rs: a prepared request at the engine.
use hetero_paged_infer.Server.Acceptance.{prepare_completion_request-Outcome}
use hetero_paged_infer.Server.Prepare.{
  prepare_completion_request, PreparedGenerationRequest, CompletionRequest,
}
use hetero_paged_infer.Pipeline.Retries.{Result-cases}
use hetero_paged_infer.Scheduler.{Scheduler, add_request}
use hetero_paged_infer.Types.Request.{Request, GenerationParams}
use hetero_paged_infer.Pipeline.Executor.{Executor}
use hetero_paged_infer.Config.{EngineConfig}
use hetero_paged_infer.Tokenizer.{Tokenizer}
use hetero_paged_infer.Engine.{
  InferenceEngine, submit_request, check_params, check_submission, submitted, check_lengths,
}
use hetero_paged_infer.Prelude.Float.{FloatOps}
use hetero_paged_infer.Server.Errors.{status_of, of_engine_error}
use hetero_paged_infer.Error.{EngineError}
use hetero_paged_infer.Types.Request.{validate}
use Prim.Native.String.{String}
use hetero_paged_infer.Prelude.{Option, ℕ, ◌≡◌, ◌⊎◌, inl, inr, refl, List, arith}
use hetero_paged_infer.Prelude.Results.{Result, ok, err}
use hetero_paged_infer.Server.Outcomes.{
  value_of_outcome, Outcome, gives, fails, Anything, Outcome-bind, of_error, error_of_outcome,
}

-- The client may change its request, or try again later.
abbrev pub Refused : EngineError → Type 0
Refused y = (status_of (of_engine_error y) ≡ 400) ⊎ (status_of (of_engine_error y) ≡ 429)

check_lengths-Outcome :
    (c : EngineConfig) (params : GenerationParams) (tokens : List ℕ)
    → Outcome Refused Anything (check_lengths c params tokens)
unfolding of_engine_error check_lengths
check_lengths-Outcome c params tokens = of_error (λ x h. ground arith)

module _ {D S : Type 0} (ops : FloatOps) (tokenizer : Tokenizer D) (executor : Executor S) where
  check_params-Outcome :
      (e : InferenceEngine D S) (text : String) (params : GenerationParams)
      → validate ops params ≡ ok tt
      → Outcome Refused Anything (check_params ops tokenizer executor e text params)
  unfolding of_engine_error check_params
  check_params-Outcome e text params h = of_error (λ x g. ground arith)

  check_submission-Outcome :
      (e : InferenceEngine D S) (text : String) (params : GenerationParams) (tokens : List ℕ)
      → validate ops params ≡ ok tt
      → tokenizer.try_encode text ≡ ok tokens
      → Outcome Refused Anything (check_submission ops tokenizer executor e text params)
  unfolding check_submission
  check_submission-Outcome e text params tokens h g =
      Outcome-bind Refused Anything Anything _ _ (check_params-Outcome e text params h)
        (λ t u. rw g (check_lengths-Outcome e.config params tokens))

  submitted-Outcome :
      (e : InferenceEngine D S) (n : ℕ) (r : Result EngineError ℕ × Scheduler)
      → Outcome Refused Anything r.0
      → Outcome Refused Anything (submitted ops tokenizer executor e n r).0
  unfolding submitted
  submitted-Outcome e n (ok i, s) h = gives tt
  submitted-Outcome e n (err x, s) h = fails (error_of_outcome h refl)

  add_request-Outcome :
      (s : Scheduler) (r : Request) → Outcome Refused Anything (add_request ops s r).0
  unfolding add_request of_engine_error
  add_request-Outcome s r = of_error (λ x h. ground arith)

  submit_request-Outcome :
      (e : InferenceEngine D S) (text : String) (params : GenerationParams) (tokens : List ℕ)
      → validate ops params ≡ ok tt
      → tokenizer.try_encode text ≡ ok tokens
      → Outcome Refused Anything (submit_request ops tokenizer executor e text params).0
  unfolding submit_request
  submit_request-Outcome e text params tokens h g =
      let k = check_submission-Outcome e text params tokens h g in
      elim (Result-cases (check_submission ops tokenizer executor e text params)) [
        | inr (y, q) ↦ rw (q, submit_request) (fails (error_of_outcome k q))
        | inl (ts, q) ↦ rw (q, submit_request) (submitted-Outcome e _ _ (add_request-Outcome _ _))
      ]

  -- Where the tokenizer encodes the prompt of a prepared completion request, an error of
  -- `submit_request` on that prompt and its parameters has status 400 or 429, whatever the state of
  -- the engine.
  pub prepared-Refused :
      {J : Type 0} (array_len : J → Option ℕ) (c : EngineConfig) (r : CompletionRequest J)
      (p : PreparedGenerationRequest)
      → prepare_completion_request array_len ops c r ≡ ok p
      → (e : InferenceEngine D S) (tokens : List ℕ) → tokenizer.try_encode p.prompt ≡ ok tokens
      → (y : EngineError) → (submit_request ops tokenizer executor e p.prompt p.params).0 ≡ err y
      → Refused y
  prepared-Refused array_len c r p h e tokens g y q =
      let a = value_of_outcome (prepare_completion_request-Outcome array_len ops c r) h in
      error_of_outcome (submit_request-Outcome e p.prompt p.params tokens a.params g) q
