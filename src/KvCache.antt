-- ===== src/KvCache.antt =====
-- src/kv_cache.rs, `KVCacheManager`: the page table of each sequence over the block pool.
-- An operation returns its result and the new manager.
pub mod Pool
pub mod PoolLaws
pub mod Invariant
pub mod Allocation
pub mod Release
pub mod Stats
pub mod Traces
pub mod Shape
mod Examples
use mathlib.Core.Option
use hetero_paged_infer.Prelude.{
  ℕ, zero, suc, ◌+◌, ◌/◌, ◌%◌, Bool, not, Option, none, some, List, [], ◌∷◌, ◌++◌,
}
use hetero_paged_infer.Prelude.Tests.{leb, ◌==◌, if◌then◌else◌}
use hetero_paged_infer.Prelude.Words.{to_u32}
use hetero_paged_infer.Prelude.Lists.{length}
use hetero_paged_infer.Prelude.Results.{Result, ok, err}
use hetero_paged_infer.SeqMap.{SeqMap, lookup, contains_key, insert, remove, modify}
use hetero_paged_infer.Error.{EngineError, out_of_blocks, sequence_not_found}
use hetero_paged_infer.Types.Memory.{PhysicalBlockRef, MemoryStats}
use hetero_paged_infer.Types.Sequences.{block_indices}
use Pool.{
  BlockPool, new_pool, allocate, free, pool_can_allocate, num_free_blocks, total_blocks,
  num_used_blocks,
}

pub record PageTable : Type 0 where
  pub seq_id : ℕ
  pub logical_blocks : List PhysicalBlockRef

unfoldable pub new_page_table : ℕ → PageTable
new_page_table seq_id = record { seq_id = seq_id; logical_blocks = [] }

unfoldable pub add_block : PhysicalBlockRef → PageTable → PageTable
add_block r t = record t { logical_blocks = t.logical_blocks ++ r ∷ [] }

unfoldable pub page_block_table : PageTable → List ℕ
page_block_table t = block_indices t.logical_blocks

unfoldable pub num_blocks : PageTable → ℕ
num_blocks t = to_u32 (length t.logical_blocks)

-- `num_tokens.div_ceil(block_size)`. The source panics where `block_size` is 0.
unfoldable pub blocks_for_tokens : ℕ → ℕ → ℕ
blocks_for_tokens num_tokens block_size =
    if num_tokens % block_size == 0 then num_tokens / block_size else num_tokens / block_size + 1

pub record KvCacheManager : Type 0 where
  pub block_pool : BlockPool
  pub page_tables : SeqMap PageTable

unfoldable pub new_manager : ℕ → ℕ → KvCacheManager
new_manager num_blocks block_size = record {
  block_pool = new_pool num_blocks block_size;
  page_tables = [];
}

unfoldable pub get_sequence_blocks : KvCacheManager → ℕ → ℕ
get_sequence_blocks kv seq_id = elim (lookup seq_id kv.page_tables) [
  | none ↦ 0
  | some t ↦ num_blocks t
]

-- `for _ in 0..n { page_table.add_block(self.block_pool.allocate()?) }`
unfoldable pub allocate_blocks :
    ℕ → PageTable → BlockPool → Result EngineError PageTable × BlockPool
allocate_blocks zero t p = (ok t, p)
allocate_blocks (suc n) t p =
    let (r, p') = allocate p in
    elim r [ ok b ↦ allocate_blocks n (add_block b t) p' | err e ↦ (err e, p') ]

-- The end of `allocate_sequence`: the page table is stored only if every block was allocated.
store_table :
    KvCacheManager
    → ℕ
    → Result EngineError PageTable
    → BlockPool
    → Result EngineError (Unit {0}) × KvCacheManager
store_table kv seq_id (ok t) p =
    (ok tt, record { block_pool = p; page_tables = insert seq_id t kv.page_tables })
store_table kv seq_id (err e) p = (err e, record kv { block_pool = p })

unfoldable pub allocate_sequence :
    KvCacheManager → ℕ → ℕ → Result EngineError (Unit {0}) × KvCacheManager
unfolding store_table
allocate_sequence kv seq_id num_tokens =
    let n = blocks_for_tokens num_tokens kv.block_pool.block_size in
    if contains_key seq_id kv.page_tables
    then (ok tt, kv)
    else if not (pool_can_allocate kv.block_pool n)
    then (err out_of_blocks, kv)
    else let (r, p) = allocate_blocks n (new_page_table seq_id) kv.block_pool in
      store_table kv seq_id r p

-- The end of `allocate_block`.
extend_table :
    KvCacheManager
    → ℕ
    → Result EngineError PhysicalBlockRef
    → BlockPool
    → Result EngineError PhysicalBlockRef × KvCacheManager
extend_table kv seq_id (ok b) p =
    (ok b, record { block_pool = p; page_tables = modify seq_id (add_block b) kv.page_tables })
extend_table kv seq_id (err e) p = (err e, record kv { block_pool = p })

unfoldable pub allocate_block :
    KvCacheManager → ℕ → Result EngineError PhysicalBlockRef × KvCacheManager
unfolding extend_table
allocate_block kv seq_id =
    if not (contains_key seq_id kv.page_tables)
    then (err (sequence_not_found seq_id), kv)
    else let (r, p) = allocate kv.block_pool in extend_table kv seq_id r p

-- An error of `free` is only logged.
unfoldable pub free_blocks : List PhysicalBlockRef → BlockPool → BlockPool
free_blocks [] p = p
free_blocks (r ∷ rs) p = free_blocks rs (free p r).1

unfoldable pub free_sequence : KvCacheManager → ℕ → KvCacheManager
free_sequence kv seq_id = elim (lookup seq_id kv.page_tables) [
  | none ↦ kv
  | some t ↦ record {
    block_pool = free_blocks t.logical_blocks kv.block_pool;
    page_tables = remove seq_id kv.page_tables;
  }
]

unfoldable pub get_block_table : KvCacheManager → ℕ → Option (List ℕ)
get_block_table kv seq_id = Option.map page_block_table (lookup seq_id kv.page_tables)

unfoldable pub get_memory_stats : KvCacheManager → MemoryStats
get_memory_stats kv = record {
  total_blocks = total_blocks kv.block_pool;
  used_blocks = num_used_blocks kv.block_pool;
  free_blocks = num_free_blocks kv.block_pool;
  num_sequences = to_u32 (length kv.page_tables);
}

unfoldable pub can_allocate : KvCacheManager → ℕ → Bool
can_allocate kv n = pool_can_allocate kv.block_pool n
