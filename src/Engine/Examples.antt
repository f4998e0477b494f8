-- ===== src/Engine/Examples.antt =====
-- The engine at concrete inputs, with a tokenizer of one token for each character and the backend
-- of the tests.
use hetero_paged_infer.Prelude.{ℕ, ◌+◌, ◌≤◌, ◌≡◌, List, [], ◌∷◌, ◌⊎◌, arith}
use hetero_paged_infer.Prelude.Lists.{length}
use hetero_paged_infer.Prelude.Float.{fixed_point}
use hetero_paged_infer.Prelude.Results.{ok, err}
use hetero_paged_infer.Error.{EngineError}
use hetero_paged_infer.Config.{default_config}
use hetero_paged_infer.Types.Request.{new_request, default_params}
use hetero_paged_infer.Scheduler.Invariant.{Valid}
use hetero_paged_infer.Scheduler.Traces.{scheduler-Valid}
use hetero_paged_infer.Pipeline.Mock.{MockGpuExecutor, mock}
use hetero_paged_infer.Engine.Samples.{dots, engine, one_cancelled}
use hetero_paged_infer.Engine.{InferenceEngine, submit_request}
use hetero_paged_infer.Engine.Collection.{collect_completed_requests}
use hetero_paged_infer.Engine.Steps.{step_events}
use hetero_paged_infer.Engine.Accounts.{Drained, step_events-Drained}
use hetero_paged_infer.Engine.Submission.{Rejected, Accepted, submit_request_cases}
use hetero_paged_infer.Engine.Counts.{Counted, collect_completed_requests-Counted}

engine-Valid : Valid engine.scheduler
engine-Valid = scheduler-Valid fixed_point default_config one_cancelled (omega arith) (omega arith)

step_events-Drained_example :
    Drained dots mock engine.eos_token_id engine.scheduler
      (step_events fixed_point dots mock engine)
step_events-Drained_example = step_events-Drained fixed_point dots mock engine engine-Valid

submit_request_cases_example :
    ((y : EngineError) × ((submit_request fixed_point dots mock engine "hello" default_params).0
        ≡ err y)
      × Rejected engine (submit_request fixed_point dots mock engine "hello" default_params).1)
    ⊎ ((tokens : List ℕ) × (dots.try_encode "hello" ≡ ok tokens)
        × (length tokens + default_params.max_tokens ≤ engine.config.max_model_len)
        × ((submit_request fixed_point dots mock engine "hello" default_params).0
            ≡ ok (engine.next_request_id, length tokens))
        × Accepted engine
            (submit_request fixed_point dots mock engine "hello" default_params).1
            (new_request engine.next_request_id tokens default_params))
submit_request_cases_example =
    submit_request_cases fixed_point dots mock engine "hello" default_params

-- An engine with one request to hand out.
abbrev finished : InferenceEngine (Unit {0}) MockGpuExecutor
finished = record engine {
  scheduler = record engine.scheduler {
    completed_requests = (1, new_request 1 (5 ∷ 6 ∷ []) default_params) ∷ [];
  };
}

collect_completed_requests-Counted_example :
    Counted finished
      (collect_completed_requests dots mock finished).1
      (length finished.scheduler.completed_requests)
      (collect_completed_requests dots mock finished).0.0
collect_completed_requests-Counted_example =
    collect_completed_requests-Counted dots mock finished (omega arith) (omega arith)
