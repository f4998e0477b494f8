-- ===== src/Pipeline/Batches.antt =====
-- src/execution_pipeline.rs, `build_execution_batch`: sequences flattened into a batch.
use hetero_paged_infer.Prelude.{
  ℕ, zero, suc, ◌+◌, true, false, Option, some, none, List, [], ◌∷◌, ◌++◌,
}
use hetero_paged_infer.Prelude.Words.{to_u32}
use hetero_paged_infer.Prelude.Lists.{length}
use hetero_paged_infer.Prelude.Results.{Result, ok, err, ◌>>=◌}
use hetero_paged_infer.Error.{
  EngineError, invalid_state_transition, no_input_token, zero_context_length,
}
use hetero_paged_infer.Types.Sequences.{
  Sequence, SchedulerOutput, context_len, decode_input_token, decode_position, sequence_block_table,
}
use hetero_paged_infer.Types.Execution.{ExecutionBatch, empty_batch}

-- `for i in start..start + n { batch.positions.push(i as u32) }`
unfoldable pub positions_from : ℕ → ℕ → List ℕ
positions_from start zero = []
positions_from start (suc n) = to_u32 start ∷ positions_from (start + 1) n

unfoldable pub add_prefill : ExecutionBatch → Sequence → ExecutionBatch
add_prefill b q =
    let tokens = q.request.input_tokens in
    record {
      input_tokens = b.input_tokens ++ tokens;
      positions = b.positions ++ positions_from 0 (length tokens);
      seq_lens = b.seq_lens ++ to_u32 (length tokens) ∷ [];
      block_tables = b.block_tables ++ sequence_block_table q ∷ [];
      is_prefill = b.is_prefill ++ true ∷ [];
      seq_ids = b.seq_ids ++ q.seq_id ∷ [];
      context_lens = b.context_lens ++ context_len q ∷ [];
    }

unfoldable pub add_prefills : ExecutionBatch → List Sequence → ExecutionBatch
add_prefills b [] = b
add_prefills b (q ∷ qs) = add_prefills (add_prefill b q) qs

-- `option.ok_or_else(|| error)?`
abbrev pub ok_or {ℓ} : {A : Type ℓ} → Option A → EngineError → Result EngineError A
ok_or none e = err e
ok_or (some a) e = ok a

unfoldable pub push_decode : ExecutionBatch → Sequence → ℕ → ℕ → ExecutionBatch
push_decode b q input_token position = record {
  input_tokens = b.input_tokens ++ input_token ∷ [];
  positions = b.positions ++ position ∷ [];
  seq_lens = b.seq_lens ++ 1 ∷ [];
  block_tables = b.block_tables ++ sequence_block_table q ∷ [];
  is_prefill = b.is_prefill ++ false ∷ [];
  seq_ids = b.seq_ids ++ q.seq_id ∷ [];
  context_lens = b.context_lens ++ context_len q ∷ [];
}

unfoldable pub add_decode : ExecutionBatch → Sequence → Result EngineError ExecutionBatch
add_decode b q = do
  input_token ← ok_or (decode_input_token q) (invalid_state_transition (no_input_token q.seq_id))
  position ← ok_or (decode_position q) (invalid_state_transition (zero_context_length q.seq_id))
  ok (push_decode b q input_token position)

unfoldable pub add_decodes : ExecutionBatch → List Sequence → Result EngineError ExecutionBatch
add_decodes b [] = ok b
add_decodes b (q ∷ qs) = elim (add_decode b q) [ ok b' ↦ add_decodes b' qs | err e ↦ err e ]

unfoldable pub build_execution_batch : SchedulerOutput → Result EngineError ExecutionBatch
build_execution_batch o =
    add_decodes (add_prefills empty_batch o.prefill_sequences) o.decode_sequences
