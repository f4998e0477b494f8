-- ===== src/Scheduler/Invariant.antt =====
-- The invariant of the scheduler: where each sequence id stands, and that the KV cache holds
-- exactly the blocks of the active sequences.
use hetero_paged_infer.Prelude.{ℕ, ◌+◌, ◌≤◌, ◌≡◌, Option, none, some, List, map}
use hetero_paged_infer.Prelude.Lists.{length, count}
use hetero_paged_infer.SeqMap.{lookup}
use hetero_paged_infer.SeqMap.Sums.{IsMap}
use hetero_paged_infer.Types.Memory.{PhysicalBlockRef}
use hetero_paged_infer.Types.Request.{Request}
use hetero_paged_infer.Types.Sequences.{Sequence}
use hetero_paged_infer.KvCache.{PageTable}
use hetero_paged_infer.KvCache.Invariant.{KvValid}
use hetero_paged_infer.Scheduler.{Scheduler, PendingRequest}

abbrev pub present {ℓ} : {A : Type ℓ} → Option A → ℕ
present none = 0
present (some a) = 1

abbrev pub pending_count : ℕ → List PendingRequest → ℕ
pending_count i ps = count i (map (λ p. p.seq_id) ps)

abbrev pub completed_count : ℕ → List (ℕ × Request) → ℕ
completed_count i rs = count i (map (λ r. r.0) rs)

-- In how many places the id `i` stands.
abbrev pub places : ℕ → Scheduler → ℕ
places i s =
    pending_count i s.pending_queue
    + present (lookup i s.prefill_sequences)
    + present (lookup i s.decode_sequences)
    + completed_count i s.completed_requests

abbrev pub table_blocks : Option PageTable → Option (List PhysicalBlockRef)
table_blocks none = none
table_blocks (some t) = some t.logical_blocks

-- The blocks of an active sequence, decode or prefill.
abbrev pub active_blocks : Option Sequence → Option Sequence → Option (List PhysicalBlockRef)
active_blocks (some q) p = some q.logical_blocks
active_blocks none (some q) = some q.logical_blocks
active_blocks none none = none

-- A stored sequence carries the id under which it is stored.
abbrev pub Named : ℕ → Option Sequence → Type 0
Named i none = Unit
Named i (some q) = q.seq_id ≡ i

pub record Valid (s : Scheduler) : Type 0 where
  pub unique : (i : ℕ) → places i s ≤ 1
  pub fresh : (i : ℕ) → s.next_seq_id ≤ i → places i s ≡ 0
  pub tables :
      (i : ℕ)
      → table_blocks (lookup i s.kv_cache.page_tables)
        ≡ active_blocks (lookup i s.decode_sequences) (lookup i s.prefill_sequences)
  pub prefill_named : (i : ℕ) → Named i (lookup i s.prefill_sequences)
  pub decode_named : (i : ℕ) → Named i (lookup i s.decode_sequences)
  pub prefill_map : IsMap s.prefill_sequences
  pub decode_map : IsMap s.decode_sequences
  pub kv : KvValid s.kv_cache
  pub num_blocks : length s.kv_cache.block_pool.blocks ≡ s.config.max_num_blocks
  pub block_size : s.kv_cache.block_pool.block_size ≡ s.config.block_size
