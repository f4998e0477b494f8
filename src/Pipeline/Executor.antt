-- ===== src/Pipeline/Executor.antt =====
-- src/gpu_executor.rs: `ExecutorCapabilities` and `GPUExecutorTrait`, with the backend's own state
-- `S` passed on explicitly. What a backend computes is not modelled here.
use hetero_paged_infer.Prelude.{ℕ, Bool, List}
use hetero_paged_infer.Prelude.Results.{Result}
use hetero_paged_infer.Error.{EngineError}
use hetero_paged_infer.Types.Execution.{ExecutionBatch, ExecutionOutput}

pub record ExecutorCapabilities : Type 0 where
  pub sampling : Bool
  pub retry_safe : Bool

pub record Executor (S : Type 0) : Type 0 where
  pub execute : ExecutionBatch → S → Result EngineError ExecutionOutput × S
  pub capabilities : S → ExecutorCapabilities
  pub sequences_finished : List ℕ → S → S
