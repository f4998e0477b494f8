-- ===== src/Pipeline/Mock.antt =====
-- src/gpu_executor.rs, `MockGPUExecutor`: the backend of the tests, and `validate_execution_batch`.
use hetero_paged_infer.Prelude.{ℕ, ◌%◌, false, List, [], ◌∷◌}
use hetero_paged_infer.Prelude.Tests.{ltb, ◌==◌, if◌then◌else◌}
use hetero_paged_infer.Prelude.Words.{succ_u32}
use hetero_paged_infer.Prelude.Lists.{length}
use hetero_paged_infer.Prelude.Results.{Result, ok, err, fail_if, ◌>>◌}
use hetero_paged_infer.Error.{
  EngineError, kernel_launch_failed, backend_error, batch_size_exceeds, total_tokens_exceed,
  empty_vocabulary,
}
use hetero_paged_infer.Config.{EngineConfig}
use hetero_paged_infer.Types.Execution.{
  ExecutionBatch, ExecutionOutput, batch_is_empty, empty_execution_output,
}
use hetero_paged_infer.Pipeline.Executor.{Executor, ExecutorCapabilities}

unfoldable pub validate_execution_batch :
    EngineConfig → ExecutionBatch → Result EngineError (Unit {0})
validate_execution_batch c b = if batch_is_empty b then ok tt else do
  fail_if (ltb c.max_batch_size (length b.seq_ids))
      (kernel_launch_failed (batch_size_exceeds (length b.seq_ids) c.max_batch_size))
  fail_if (ltb c.max_total_tokens (length b.input_tokens))
      (kernel_launch_failed (total_tokens_exceed (length b.input_tokens) c.max_total_tokens))

pub record MockGpuExecutor : Type 0 where
  pub config : EngineConfig
  pub vocab_size : ℕ
  pub token_counter : ℕ

unfoldable pub new_mock : EngineConfig → ℕ → MockGpuExecutor
new_mock c vocab_size = record { config = c; vocab_size = vocab_size; token_counter = 100 }

unfoldable pub generate_token : MockGpuExecutor → ℕ × MockGpuExecutor
generate_token m =
    (m.token_counter % m.vocab_size, record m { token_counter = succ_u32 m.token_counter })

-- `for _ in &batch.seq_ids { next_tokens.push(self.generate_token()) }`
unfoldable pub generate_tokens : List ℕ → MockGpuExecutor → List ℕ × MockGpuExecutor
generate_tokens [] m = ([], m)
generate_tokens (i ∷ ids) m =
    let (t, m') = generate_token m in let (ts, m'') = generate_tokens ids m' in (t ∷ ts, m'')

unfoldable pub generate_output : List ℕ → MockGpuExecutor → ExecutionOutput × MockGpuExecutor
generate_output ids m =
    let (ts, m') = generate_tokens ids m in
    (record { next_tokens = ts; seq_ids = ids; logprobs = [] }, m')

unfoldable pub mock_execute :
    ExecutionBatch → MockGpuExecutor → Result EngineError ExecutionOutput × MockGpuExecutor
mock_execute b m = elim (validate_execution_batch m.config b) [
  | err e ↦ (err e, m)
  | ok _ ↦
      let (out, m') = generate_output b.seq_ids m in
      if batch_is_empty b
      then (ok empty_execution_output, m)
      else if m.vocab_size == 0
      then (err (backend_error empty_vocabulary), m)
      else (ok out, m')
]

-- `ExecutorCapabilities::GREEDY_ONLY`
abbrev pub greedy_only_capabilities : ExecutorCapabilities
greedy_only_capabilities = record { sampling = false; retry_safe = false }

abbrev pub mock : Executor MockGpuExecutor
mock = record {
  execute = mock_execute;
  capabilities = λ m. greedy_only_capabilities;
  sequences_finished = λ ids m. m;
}
