-- ===== src/TinyLlm/Examples.antt =====
-- The tiny-llm backend at concrete inputs, with a library that counts its calls.
use hetero_paged_infer.SeqMap.{insert, lookup}
use hetero_paged_infer.TinyLlm.Backend.{
  written, flatten, alloc_tokens_for, ensure_allocated, allocate_each, tiny_execute,
}
use hetero_paged_infer.TinyLlm.Capacity.{Extends, AllCovered, allocate_each-AllCovered}
use hetero_paged_infer.TinyLlm.Contract.{tiny_execute-valid}
use hetero_paged_infer.Pipeline.Checks.{member, to_set, validate_execution_output}
use hetero_paged_infer.Types.Execution.{batch_is_empty, ExecutionBatch, ExecutionOutput}
use hetero_paged_infer.TinyLlm.{Library, TinyLlmExecutor}
use hetero_paged_infer.Prelude.{arith, false, ℕ, ◌+◌, ◌≡◌, refl, true, [], ◌∷◌}
use hetero_paged_infer.Prelude.Results.{ok}

abbrev counting : Library ℕ
counting = record {
  load = λ path c. ok 0;
  step = λ a h. ((0, λ i. 7), h + 1);
  allocate_sequence = λ id tokens h. (0, h + 1);
  free_sequence = λ id h. (0, h + 1);
}

abbrev backend : TinyLlmExecutor ℕ
backend = record {
  handle = 0;
  allocated = (4, 100) ∷ [];
  paged = true;
  max_batch_size = 4;
  decode_reserve = 512;
}

abbrev two_sequences : ExecutionBatch
two_sequences = record {
  input_tokens = 5 ∷ 6 ∷ 7 ∷ [];
  positions = 20 ∷ 0 ∷ 1 ∷ [];
  seq_lens = 1 ∷ 2 ∷ [];
  block_tables = (0 ∷ 1 ∷ []) ∷ (2 ∷ []) ∷ [];
  is_prefill = false ∷ true ∷ [];
  seq_ids = 4 ∷ 5 ∷ [];
  context_lens = 21 ∷ 2 ∷ [];
}

allocate_each-AllCovered_example :
    Extends backend.allocated ((4, 100) ∷ (5, 514) ∷ [])
    × AllCovered (4 ∷ 5 ∷ []) (21 ∷ 2 ∷ []) ((4, 100) ∷ (5, 514) ∷ [])
unfolding allocate_each ensure_allocated lookup insert alloc_tokens_for
allocate_each-AllCovered_example =
    allocate_each-AllCovered counting (4 ∷ 5 ∷ []) (21 ∷ 2 ∷ []) backend
      (record backend { handle = 1; allocated = (4, 100) ∷ (5, 514) ∷ [] })
      (omega arith, (omega arith, tt)) refl

abbrev two_tokens : ExecutionOutput
two_tokens = record { next_tokens = 7 ∷ 7 ∷ []; seq_ids = 4 ∷ 5 ∷ []; logprobs = [] }

tiny_execute-valid_example : validate_execution_output two_sequences two_tokens ≡ ok tt
unfolding to_set member tiny_execute batch_is_empty allocate_each ensure_allocated lookup insert
    alloc_tokens_for flatten written
tiny_execute-valid_example = tiny_execute-valid counting two_sequences backend two_tokens refl refl
