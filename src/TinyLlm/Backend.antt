-- ===== src/TinyLlm/Backend.antt =====
-- src/tiny_llm_executor.rs: the methods of `TinyLlmExecutor`, and its backend trait.
use hetero_paged_infer.Error.{
  batch_size_exceeds, capacity_exceeded, text, allocation_failed, step_failed, kernel_launch_failed,
}
use hetero_paged_infer.Pipeline.Mock.{greedy_only_capabilities}
use hetero_paged_infer.Prelude.{
  ℕ, suc, zero, ◌+◌, Bool, false, not, Option, none, some, List, [], ◌∷◌, ◌++◌, map,
}
use hetero_paged_infer.Prelude.Tests.{◌==◌, ltb, if◌then◌else◌}
use hetero_paged_infer.Prelude.Words.{to_u32}
use hetero_paged_infer.Prelude.Lists.{length, is_empty}
use hetero_paged_infer.Prelude.Results.{Result, ok, err}
use hetero_paged_infer.SeqMap.{lookup, insert, remove, contains_key}
use hetero_paged_infer.Types.Execution.{
  ExecutionBatch, ExecutionOutput, batch_is_empty, empty_execution_output,
}
use hetero_paged_infer.Pipeline.Executor.{Executor}
use hetero_paged_infer.TinyLlm.{
  backend_error, EngineError, Library, TinyLlmExecutor, StepArguments, i32_max, i32_add, i32_leb,
  i32_as_usize,
}

unfoldable pub alloc_tokens_for : ℕ → ℕ → ℕ
alloc_tokens_for context_len decode_reserve =
    i32_max (i32_add (to_u32 context_len) decode_reserve) 64

-- The length of the context at an index, 0 where there is none; and what is left of the list.
abbrev pub first_len : List ℕ → ℕ
first_len [] = 0
first_len (n ∷ ns) = n

abbrev pub rest_lens : List ℕ → List ℕ
rest_lens [] = []
rest_lens (n ∷ ns) = ns

-- `block_tables_flat`, and `num_blocks`; `none` where a table is empty.
unfoldable pub flatten : List (List ℕ) → Option (List ℕ × List ℕ)
flatten [] = some ([], [])
flatten (t ∷ ts) = if is_empty t then none else elim (flatten ts) [
  | none ↦ none
  | some r ↦ some (map to_u32 t ++ r.0, to_u32 (length t) ∷ r.1)
]

-- What `step` writes at `i`, `i + 1`, ..., for `n` sequences; `t as TokenId` keeps the bits.
unfoldable pub written : (ℕ → ℕ) → ℕ → ℕ → List ℕ
written write i zero = []
written write i (suc n) = to_u32 (write i) ∷ written write (i + 1) n

module _ {H : Type 0} (library : Library H) where
  abbrev pub allocated_as :
      ℕ → ℕ → ℕ × H → TinyLlmExecutor H → Result EngineError (Unit {0}) × TinyLlmExecutor H
  allocated_as id tokens (rc, h) x =
      if rc == 0
      then (ok tt, record x { handle = h; allocated = insert id tokens x.allocated })
      else (err (backend_error (allocation_failed id)), record x { handle = h })

  unfoldable pub ensure_allocated :
      ℕ → ℕ → TinyLlmExecutor H → Result EngineError (Unit {0}) × TinyLlmExecutor H
  ensure_allocated id context_len x =
      let tokens = alloc_tokens_for context_len x.decode_reserve in
      if contains_key id x.allocated
      then (ok tt, x)
      else allocated_as id tokens (library.allocate_sequence id tokens x.handle) x

  -- `ctx as i32 + 1 > capacity`
  abbrev pub overruns : ℕ → Option ℕ → Bool
  overruns context_len none = false
  overruns context_len (some capacity) = not (i32_leb (i32_add (to_u32 context_len) 1) capacity)

  abbrev pub capacity_of : Option ℕ → ℕ
  capacity_of none = 0
  capacity_of (some capacity) = capacity

  -- The loop over the sequences; their ids as `c_int`.
  abbrev pub checked_capacity :
      ℕ
      → ℕ
      → Result EngineError (Unit {0}) × TinyLlmExecutor H
      → Result EngineError (Unit {0}) × TinyLlmExecutor H
  checked_capacity seq_id context_len (err e, x) = (err e, x)
  checked_capacity seq_id context_len (ok t, x) =
      let capacity = lookup (to_u32 seq_id) x.allocated in
      if overruns context_len capacity
      then (
        err (backend_error (capacity_exceeded seq_id x.decode_reserve (capacity_of capacity))),
        x,
      )
      else (ok tt, x)

  abbrev pub and_then :
      (TinyLlmExecutor H → Result EngineError (Unit {0}) × TinyLlmExecutor H)
      → Result EngineError (Unit {0}) × TinyLlmExecutor H
      → Result EngineError (Unit {0}) × TinyLlmExecutor H
  and_then k (err e, x) = (err e, x)
  and_then k (ok t, x) = k x

  unfoldable pub allocate_each :
      List ℕ → List ℕ → TinyLlmExecutor H → Result EngineError (Unit {0}) × TinyLlmExecutor H
  allocate_each [] lens x = (ok tt, x)
  allocate_each (seq_id ∷ ids) lens x =
      and_then (λ y. allocate_each ids (rest_lens lens) y)
        (checked_capacity seq_id (first_len lens)
          (ensure_allocated (to_u32 seq_id) (first_len lens) x))

  abbrev pub stepped :
      ExecutionBatch
      → (ℕ × (ℕ → ℕ)) × H
      → TinyLlmExecutor H
      → Result EngineError ExecutionOutput × TinyLlmExecutor H
  stepped b ((rc, write), h) x =
      if rc == 0
      then (
        ok (record {
          next_tokens = written write 0 (length b.seq_ids);
          seq_ids = b.seq_ids;
          logprobs = [];
        }),
        record x { handle = h },
      )
      else (err (backend_error (step_failed rc)), record x { handle = h })

  abbrev pub arguments : ExecutionBatch → Option (List ℕ) → Option (List ℕ) → StepArguments
  arguments b tables counts = record {
    seq_ids = map to_u32 b.seq_ids;
    input_tokens = map to_u32 b.input_tokens;
    positions = map to_u32 b.positions;
    seq_lens = map to_u32 b.seq_lens;
    block_tables = tables;
    num_blocks = counts;
    is_prefill = b.is_prefill;
  }

  abbrev pub run_step :
      ExecutionBatch
      → StepArguments
      → TinyLlmExecutor H
      → Result EngineError ExecutionOutput × TinyLlmExecutor H
  run_step b a x = stepped b (library.step a x.handle) x

  abbrev pub run_paged :
      ExecutionBatch
      → Option (List ℕ × List ℕ)
      → TinyLlmExecutor H
      → Result EngineError ExecutionOutput × TinyLlmExecutor H
  run_paged b none x = (err (backend_error (text "empty block table")), x)
  run_paged b (some (tables, counts)) x = run_step b (arguments b (some tables) (some counts)) x

  abbrev pub run_allocated :
      ExecutionBatch
      → Result EngineError (Unit {0}) × TinyLlmExecutor H
      → Result EngineError ExecutionOutput × TinyLlmExecutor H
  run_allocated b (err e, x) = (err e, x)
  run_allocated b (ok t, x) =
      if x.paged
      then run_paged b (flatten b.block_tables) x
      else run_step b (arguments b none none) x

  unfoldable pub tiny_execute :
      ExecutionBatch → TinyLlmExecutor H → Result EngineError ExecutionOutput × TinyLlmExecutor H
  tiny_execute b x =
      if batch_is_empty b
      then (ok empty_execution_output, x)
      else if ltb (i32_as_usize x.max_batch_size) (length b.seq_ids)
      then (err (kernel_launch_failed (batch_size_exceeds (length b.seq_ids) x.max_batch_size)), x)
      else run_allocated b (allocate_each b.seq_ids b.context_lens x)

  -- A return code other than 0 is only logged.
  unfoldable pub tiny_sequences_finished : List ℕ → TinyLlmExecutor H → TinyLlmExecutor H
  tiny_sequences_finished [] x = x
  tiny_sequences_finished (seq_id ∷ ids) x =
      let id = to_u32 seq_id in
      tiny_sequences_finished ids (
        if contains_key id x.allocated
        then record x {
          handle = (library.free_sequence id x.handle).1;
          allocated = remove id x.allocated;
        }
        else x)

  abbrev pub tiny_llm : Executor (TinyLlmExecutor H)
  tiny_llm = record {
    execute = tiny_execute;
    capabilities = λ x. greedy_only_capabilities;
    sequences_finished = tiny_sequences_finished;
  }
