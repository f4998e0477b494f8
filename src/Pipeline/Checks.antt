-- ===== src/Pipeline/Checks.antt =====
-- src/execution_pipeline.rs: `validate_batch_shape` and `validate_execution_output`, and
-- src/gpu_executor.rs, `validate_execution_batch`.
use hetero_paged_infer.Prelude.{ℕ, ◌+◌, ◌%◌, Bool, true, false, not, ◌&&◌, ◌||◌, List, [], ◌∷◌}
use hetero_paged_infer.Prelude.Tests.{◌==◌, if◌then◌else◌}
use hetero_paged_infer.Prelude.Words.{u32_mod}
use hetero_paged_infer.Prelude.Lists.{length, is_empty}
use hetero_paged_infer.Prelude.Results.{Result, ok, err, fail_if, ◌>>◌}
use hetero_paged_infer.Error.{
  EngineError, backend_error, positions_mismatch, batch_lengths_mismatch, seq_lens_mismatch,
  zero_length_sequence, empty_block_table, output_lengths_mismatch, output_size_mismatch,
  duplicate_seq_ids, seq_ids_mismatch, logprobs_mismatch,
}
use hetero_paged_infer.Types.Execution.{ExecutionBatch, ExecutionOutput, batch_is_empty}

-- `iter().sum::<u32>()`, with the wrap-around of a release build
unfoldable pub sum_u32 : List ℕ → ℕ
sum_u32 [] = 0
sum_u32 (x ∷ xs) = (x + sum_u32 xs) % u32_mod

-- `for (i, (&seq_len, block_table)) in seq_lens.iter().zip(block_tables.iter()).enumerate()`; the
-- id at `i` is found in step, since the lists have been checked to have one length.
unfoldable pub check_sequences : List ℕ → List ℕ → List (List ℕ) → Result EngineError (Unit {0})
check_sequences (i ∷ ids) (n ∷ lens) (t ∷ tables) =
    let rest = check_sequences ids lens tables in
    if n == 0
    then err (backend_error (zero_length_sequence i))
    else if is_empty t
    then err (backend_error (empty_block_table i))
    else rest
check_sequences ids lens tables = ok tt

unfoldable pub lengths_differ : ExecutionBatch → Bool
lengths_differ b =
    let n = length b.seq_ids in
    not (length b.seq_lens == n)
    || not (length b.is_prefill == n)
    || not (length b.context_lens == n)
    || not (length b.block_tables == n)

unfoldable pub validate_batch_shape : ExecutionBatch → Result EngineError (Unit {0})
validate_batch_shape b = if batch_is_empty b then ok tt else do
  fail_if (not (length b.input_tokens == length b.positions))
      (backend_error (positions_mismatch (length b.input_tokens) (length b.positions)))
  fail_if (lengths_differ b) (
      backend_error (
        batch_lengths_mismatch (length b.seq_ids) (length b.seq_lens) (length b.is_prefill)
          (length b.context_lens) (length b.block_tables)))
  fail_if (not (sum_u32 b.seq_lens == length b.input_tokens))
      (backend_error (seq_lens_mismatch (sum_u32 b.seq_lens) (length b.input_tokens)))
  check_sequences b.seq_ids b.seq_lens b.block_tables

unfoldable pub member : ℕ → List ℕ → Bool
member i [] = false
member i (x ∷ xs) = x == i || member i xs

-- A `HashSet` of ids, as a list with no repetition.
unfoldable pub to_set : List ℕ → List ℕ
to_set [] = []
to_set (x ∷ xs) = let rest = to_set xs in if member x rest then rest else x ∷ rest

unfoldable pub all_in : List ℕ → List ℕ → Bool
all_in [] ys = true
all_in (x ∷ xs) ys = member x ys && all_in xs ys

-- `a == b` on sets: each has the elements of the other
unfoldable pub same_set : List ℕ → List ℕ → Bool
same_set a b = all_in a b && all_in b a

unfoldable pub validate_execution_output :
    ExecutionBatch → ExecutionOutput → Result EngineError (Unit {0})
validate_execution_output b out = do
  fail_if (not (length out.next_tokens == length out.seq_ids))
      (backend_error (output_lengths_mismatch (length out.next_tokens) (length out.seq_ids)))
  fail_if (not (length out.seq_ids == length b.seq_ids))
      (backend_error (output_size_mismatch (length out.seq_ids) (length b.seq_ids)))
  fail_if (not (length (to_set out.seq_ids) == length out.seq_ids))
      (backend_error duplicate_seq_ids)
  fail_if (not (same_set (to_set out.seq_ids) (to_set b.seq_ids))) (backend_error seq_ids_mismatch)
  fail_if (not (is_empty out.logprobs) && not (length out.logprobs == length out.seq_ids))
      (backend_error (logprobs_mismatch (length out.logprobs) (length out.seq_ids)))
