-- ===== src/Engine/Api.antt =====
-- src/engine.rs: the engine's other methods, as its callers see them.
use hetero_paged_infer.KvCache.{get_memory_stats}
use hetero_paged_infer.Types.Request.{CompletedRequest}
use hetero_paged_infer.Types.Memory.{utilization}
use hetero_paged_infer.Scheduler.{num_active_sequences, has_pending_work}
use hetero_paged_infer.Scheduler.Requests.{fail_pending_requests, cancel_by_request_id}
use hetero_paged_infer.Engine.Steps.{step_events, StepEvents}
use hetero_paged_infer.Tokenizer.{Tokenizer}
use hetero_paged_infer.Engine.{Executor, InferenceEngine}
use hetero_paged_infer.Error.{Message, EngineError}
use hetero_paged_infer.Prelude.{ℕ, Bool, List}
use hetero_paged_infer.Prelude.Words.{to_u32}
use hetero_paged_infer.Prelude.Float.{F32, FloatOps}
use hetero_paged_infer.Prelude.Results.{Result, ok, err}

abbrev pub completed_of : Result EngineError StepEvents → Result EngineError (List CompletedRequest)
completed_of (ok events) = ok events.completed_requests
completed_of (err e) = err e

pub record EngineMetrics : Type 0 where
  pub total_requests : ℕ
  pub completed_requests : ℕ
  pub failed_requests : ℕ
  pub total_tokens_generated : ℕ
  pub memory_utilization : F32
  pub active_sequences : ℕ

module _ {D S : Type 0} where
  unfoldable pub cancel_request : InferenceEngine D S → ℕ → Bool × InferenceEngine D S
  cancel_request e request_id =
      let (found, s) = cancel_by_request_id e.scheduler request_id in
      (found, record e { scheduler = s })

  unfoldable pub engine_has_pending_work : InferenceEngine D S → Bool
  engine_has_pending_work e = has_pending_work e.scheduler

  unfoldable pub fail_queued : InferenceEngine D S → Message → ℕ × InferenceEngine D S
  fail_queued e reason =
      let (n, s) = fail_pending_requests e.scheduler reason in (n, record e { scheduler = s })

  unfoldable pub get_metrics : FloatOps → InferenceEngine D S → EngineMetrics
  get_metrics ops e = record {
    total_requests = e.total_requests;
    completed_requests = e.completed_requests_count;
    failed_requests = e.failed_requests_count;
    total_tokens_generated = e.total_tokens_generated;
    memory_utilization = utilization ops (get_memory_stats e.scheduler.kv_cache);
    active_sequences = to_u32 (num_active_sequences e.scheduler);
  }

module _ {D S : Type 0} (ops : FloatOps) (tokenizer : Tokenizer D) (executor : Executor S) where
  unfoldable pub step :
      InferenceEngine D S → Result EngineError (List CompletedRequest) × InferenceEngine D S
  step e = let (r, e') = step_events ops tokenizer executor e in (completed_of r, e')
