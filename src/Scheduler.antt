-- ===== src/Scheduler.antt =====
-- src/scheduler.rs, `Scheduler`: its state, and the methods that move one sequence between the
-- pending queue, the prefill map, the decode map and the completed requests.
pub mod Schedule
pub mod Update
pub mod Requests
pub mod Invariant
pub mod Leaving
pub mod Endings
pub mod Starting
pub mod Growth
pub mod Conservation
pub mod Waiting
pub mod Admission
pub mod Bounds
pub mod Limits
pub mod Progress
pub mod Order
pub mod Failure
pub mod Accounts
pub mod Traces
mod Examples
use hetero_paged_infer.Prelude.{
  ℕ, zero, suc, ◌+◌, Bool, true, false, not, ◌&&◌, ◌||◌, Option, none, some, List, [], ◌∷◌, ◌++◌,
  map,
}
use hetero_paged_infer.Prelude.Tests.{ltb, leb, ◌==◌, if◌then◌else◌}
use hetero_paged_infer.Prelude.Words.{to_u32, succ_u64, saturating_add, saturating_sub}
use hetero_paged_infer.Prelude.Lists.{length, is_empty}
use hetero_paged_infer.Prelude.Float.{F32, FloatOps}
use hetero_paged_infer.Prelude.Results.{Result, ok, err, is_ok}
use hetero_paged_infer.SeqMap.{SeqMap, lookup, contains_key, insert, remove, modify, values}
use hetero_paged_infer.Error.{
  EngineError, Message, memory_pressure, max_concurrent_sequences_reached,
  decode_sequence_not_found, block_allocation_failed,
}
use hetero_paged_infer.Types.Memory.{PhysicalBlockRef, MemoryStats, utilization}
use hetero_paged_infer.Types.Request.{Request, RequestState, prefill, decode, completed, failed}
use hetero_paged_infer.Types.Sequences.{Sequence, new_sequence, context_len}
use hetero_paged_infer.Config.{EngineConfig, blocks_for_tokens}
use hetero_paged_infer.KvCache.{
  KvCacheManager, new_manager, get_memory_stats, can_allocate, allocate_sequence, allocate_block,
  free_sequence, get_block_table,
}

pub record PendingRequest : Type 0 where
  pub seq_id : ℕ
  pub request : Request

pub record Scheduler : Type 0 where
  pub config : EngineConfig
  pub kv_cache : KvCacheManager
  pub pending_queue : List PendingRequest
  pub prefill_sequences : SeqMap Sequence
  pub decode_sequences : SeqMap Sequence
  pub completed_requests : List (ℕ × Request)
  pub next_seq_id : ℕ
  pub under_memory_pressure : Bool

unfoldable pub new_scheduler : EngineConfig → Scheduler
new_scheduler c = record {
  config = c;
  kv_cache = new_manager c.max_num_blocks c.block_size;
  pending_queue = [];
  prefill_sequences = [];
  decode_sequences = [];
  completed_requests = [];
  next_seq_id = 1;
  under_memory_pressure = false;
}

unfoldable pub update_memory_pressure : FloatOps → Scheduler → Scheduler
update_memory_pressure ops s = record s {
  under_memory_pressure =
      ops.le s.config.memory_threshold (utilization ops (get_memory_stats s.kv_cache));
}

unfoldable pub num_active_sequences : Scheduler → ℕ
num_active_sequences s = length s.prefill_sequences + length s.decode_sequences

unfoldable pub has_pending_work : Scheduler → Bool
has_pending_work s =
    not (is_empty s.pending_queue)
    || not (is_empty s.prefill_sequences)
    || not (is_empty s.decode_sequences)

unfoldable pub push_pending : ℕ → Request → Scheduler → Scheduler
push_pending seq_id request s = record s {
  pending_queue = s.pending_queue ++ record { seq_id = seq_id; request = request } ∷ [];
}

unfoldable pub add_request : FloatOps → Scheduler → Request → Result EngineError ℕ × Scheduler
add_request ops s0 request =
    let s = update_memory_pressure ops s0 in
    if s.under_memory_pressure
    then (err memory_pressure, s)
    else if leb s.config.max_num_seqs (length s.pending_queue + num_active_sequences s)
    then (err (max_concurrent_sequences_reached s.config.max_num_seqs), s)
    else (
      ok s.next_seq_id,
      push_pending s.next_seq_id request (record s { next_seq_id = succ_u64 s.next_seq_id }),
    )

abbrev pub with_state : RequestState → Request → Request
with_state st r = record r { state = st }

-- `self.completed_requests.push((seq_id, request))`
abbrev pub push_completed : ℕ → Request → Scheduler → Scheduler
push_completed seq_id r s = record s {
  completed_requests = s.completed_requests ++ (seq_id, r) ∷ [];
}

-- An active sequence ends: it leaves its map, its blocks are freed, its request is completed.
unfoldable pub end_decode : Scheduler → ℕ → RequestState → Sequence → Scheduler
end_decode s seq_id st q = push_completed seq_id (with_state st q.request) (record s {
  decode_sequences = remove seq_id s.decode_sequences;
  kv_cache = free_sequence s.kv_cache seq_id;
})

unfoldable pub end_prefill : Scheduler → ℕ → RequestState → Sequence → Scheduler
end_prefill s seq_id st q = push_completed seq_id (with_state st q.request) (record s {
  prefill_sequences = remove seq_id s.prefill_sequences;
  kv_cache = free_sequence s.kv_cache seq_id;
})

-- `iter().position(..)` and `remove(index)`: the first entry with the id
unfoldable pub find_pending : ℕ → List PendingRequest → Option PendingRequest
find_pending seq_id [] = none
find_pending seq_id (p ∷ ps) = if p.seq_id == seq_id then some p else find_pending seq_id ps

unfoldable pub remove_pending : ℕ → List PendingRequest → List PendingRequest
remove_pending seq_id [] = []
remove_pending seq_id (p ∷ ps) = if p.seq_id == seq_id then ps else p ∷ remove_pending seq_id ps

unfoldable pub complete_sequence : Scheduler → ℕ → Scheduler
complete_sequence s seq_id = elim (lookup seq_id s.decode_sequences) [
  | some q ↦ end_decode s seq_id completed q
  | none ↦ elim (lookup seq_id s.prefill_sequences) [
    | some q ↦ end_prefill s seq_id completed q
    | none ↦ s
  ]
]

-- The last part of `fail_sequence`: a request that has not started.
unfoldable pub fail_pending : Scheduler → ℕ → Message → Scheduler
fail_pending s seq_id reason = elim (find_pending seq_id s.pending_queue) [
  | some p ↦
      push_completed seq_id (with_state (failed reason) p.request)
        (record s { pending_queue = remove_pending seq_id s.pending_queue })
  | none ↦ s
]

unfoldable pub fail_sequence : Scheduler → ℕ → Message → Scheduler
fail_sequence s seq_id reason = elim (lookup seq_id s.decode_sequences) [
  | some q ↦ end_decode s seq_id (failed reason) q
  | none ↦ elim (lookup seq_id s.prefill_sequences) [
    | some q ↦ end_prefill s seq_id (failed reason) q
    | none ↦ fail_pending s seq_id reason
  ]
]

unfoldable pub fail_sequences : Scheduler → List ℕ → Message → Scheduler
fail_sequences s [] reason = s
fail_sequences s (seq_id ∷ ids) reason = fail_sequences (fail_sequence s seq_id reason) ids reason

unfoldable pub transition_prefill_to_decode : Scheduler → ℕ → Scheduler
transition_prefill_to_decode s seq_id = elim (lookup seq_id s.prefill_sequences) [
  | none ↦ s
  | some q ↦ record s {
    prefill_sequences = remove seq_id s.prefill_sequences;
    decode_sequences =
        insert seq_id (record q { request = with_state decode q.request }) s.decode_sequences;
  }
]

unfoldable pub prefill_needs_decode_reserve : Scheduler → ℕ → Bool
prefill_needs_decode_reserve s prompt_tokens =
    ltb (blocks_for_tokens s.config prompt_tokens)
      (blocks_for_tokens s.config (saturating_add prompt_tokens 2))

-- Whether a sequence needs one more block two tokens from now.
unfoldable pub needs_growth : EngineConfig → Sequence → Bool
needs_growth c q =
    ltb (to_u32 (length q.logical_blocks))
      (blocks_for_tokens c (saturating_add (saturating_add (context_len q) 1) 1))

unfoldable pub count_growth : EngineConfig → List Sequence → ℕ
count_growth c [] = 0
count_growth c (q ∷ qs) = (if needs_growth c q then 1 else 0) + count_growth c qs

unfoldable pub next_step_growth_reserve : Scheduler → ℕ
next_step_growth_reserve s =
    to_u32 (count_growth s.config (values s.prefill_sequences ++ values s.decode_sequences))

-- `(stats.total_blocks as f32 * self.config.memory_threshold).floor()`
unfoldable pub watermark : FloatOps → Scheduler → F32
watermark ops s =
    ops.floor
      (ops.mul (ops.of_u32 (get_memory_stats s.kv_cache).total_blocks) s.config.memory_threshold)

unfoldable pub has_prefill_budget : FloatOps → Scheduler → ℕ → ℕ → Bool
has_prefill_budget ops s blocks_needed prompt_tokens =
    let stats = get_memory_stats s.kv_cache in
    let used_after = saturating_add stats.used_blocks blocks_needed in
    let free_after = saturating_sub stats.free_blocks blocks_needed in
    let reserve =
      saturating_add (next_step_growth_reserve s)
        (if prefill_needs_decode_reserve s prompt_tokens then 1 else 0) in
    ops.le (ops.of_u32 used_after) (watermark ops s) && leb reserve free_after

-- `block_table.iter().map(|&block_idx| PhysicalBlockRef { block_idx }).collect()`, if there is one
unfoldable pub blocks_of_table : Option (List ℕ) → List PhysicalBlockRef → List PhysicalBlockRef
blocks_of_table none old = old
blocks_of_table (some table) old = map (λ i. record { block_idx = i }) table

-- The sequence that `try_start_prefill` stores, once its blocks are allocated.
unfoldable pub started_sequence : KvCacheManager → ℕ → Request → Sequence
started_sequence kv seq_id request =
    let q = new_sequence seq_id request in
    record q {
      request = with_state prefill q.request;
      logical_blocks = blocks_of_table (get_block_table kv seq_id) q.logical_blocks;
    }

unfoldable pub try_start_prefill : Scheduler → ℕ → Request → Result (ℕ × Request) ℕ × Scheduler
try_start_prefill s seq_id request =
    let num_tokens = to_u32 (length request.input_tokens) in
    if not (can_allocate s.kv_cache (blocks_for_tokens s.config num_tokens))
    then (err (seq_id, request), s)
    else let (r, kv) = allocate_sequence s.kv_cache seq_id num_tokens in
      if not (is_ok r) then (err (seq_id, request), record s { kv_cache = kv }) else (
        ok seq_id,
        record s {
          kv_cache = kv;
          prefill_sequences =
              insert seq_id (started_sequence kv seq_id request) s.prefill_sequences;
        },
      )

-- `sequence.logical_blocks.push(physical_ref)`
abbrev pub push_block : PhysicalBlockRef → Sequence → Sequence
push_block b q = record q { logical_blocks = q.logical_blocks ++ b ∷ [] }

-- The end of `grow_decode_sequence`, after `allocate_block`.
unfoldable pub store_block :
    Scheduler
    → ℕ
    → Result EngineError PhysicalBlockRef
    → KvCacheManager
    → Result Message (Unit {0}) × Scheduler
store_block s seq_id (ok b) kv = (
  ok tt,
  record s { kv_cache = kv; decode_sequences = modify seq_id (push_block b) s.decode_sequences },
)
store_block s seq_id (err e) kv = (err (block_allocation_failed e), record s { kv_cache = kv })

unfoldable pub grow_decode_sequence : Scheduler → ℕ → Result Message (Unit {0}) × Scheduler
grow_decode_sequence s seq_id = elim (lookup seq_id s.decode_sequences) [
  | none ↦ (err (decode_sequence_not_found seq_id), s)
  | some q ↦
      if ltb (to_u32 (length q.logical_blocks))
        (blocks_for_tokens s.config (saturating_add (context_len q) 1))
      then (let (r, kv) = allocate_block s.kv_cache seq_id in store_block s seq_id r kv)
      else (ok tt, s)
]
