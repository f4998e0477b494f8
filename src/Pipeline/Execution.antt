-- ===== src/Pipeline/Execution.antt =====
-- src/execution_pipeline.rs, `BatchExecutionPipeline`: execution with the retry of a timeout.
use hetero_paged_infer.Prelude.{ℕ, zero, suc, Bool, true, false, ◌&&◌}
use hetero_paged_infer.Prelude.Tests.{if◌then◌else◌}
use hetero_paged_infer.Prelude.Results.{Result, ok, err, ◌>>◌}
use hetero_paged_infer.Error.{EngineError, gpu_timeout}
use hetero_paged_infer.Types.Sequences.{SchedulerOutput, output_is_empty}
use hetero_paged_infer.Types.Execution.{ExecutionBatch, ExecutionOutput, empty_execution_output}
use hetero_paged_infer.Pipeline.Executor.{Executor}
use hetero_paged_infer.Pipeline.Batches.{build_execution_batch}
use hetero_paged_infer.Pipeline.Checks.{validate_batch_shape, validate_execution_output}

unfoldable pub is_timeout : EngineError → Bool
is_timeout gpu_timeout = true
is_timeout _ = false

-- `validate_execution_output(&execution_batch, &output)?; return Ok(output);`
unfoldable pub checked : ExecutionBatch → ExecutionOutput → Result EngineError ExecutionOutput
checked b out = do validate_execution_output b out; ok out

module _ {S : Type 0} (executor : Executor S) where
  -- The loop with `retries_left = max_retry_attempts - retries`; `retry_safe` is read before it.
  unfoldable pub attempt : ExecutionBatch → Bool → ℕ → S → Result EngineError ExecutionOutput × S
  attempt b retry_safe zero s =
      let (r, s') = executor.execute b s in
      elim r [ ok out ↦ (checked b out, s') | err e ↦ (err e, s') ]
  attempt b retry_safe (suc retries_left) s =
      let (r, s') = executor.execute b s in
      elim r [
        | ok out ↦ (checked b out, s')
        | err e ↦
            let again = attempt b retry_safe retries_left s' in
            if is_timeout e && retry_safe then again else (err e, s')
      ]

  -- After the batch is built and its shape is checked.
  unfoldable pub execute_batch :
      ℕ → Result EngineError ExecutionBatch → S → Result EngineError ExecutionOutput × S
  execute_batch max_retry_attempts (err e) s = (err e, s)
  execute_batch max_retry_attempts (ok b) s = elim (validate_batch_shape b) [
    | err e ↦ (err e, s)
    | ok _ ↦ attempt b (executor.capabilities s).retry_safe max_retry_attempts s
  ]

  unfoldable pub execute : ℕ → SchedulerOutput → S → Result EngineError ExecutionOutput × S
  execute max_retry_attempts o s =
      if output_is_empty o
      then (ok empty_execution_output, s)
      else execute_batch max_retry_attempts (build_execution_batch o) s
