-- ===== src/KvCache/Release.antt =====
-- src/kv_cache.rs: `free_sequence` and `KVCacheManager::new`.
use hetero_paged_infer.Prelude.{◌≡◌, none, ℕ, ◌+◌, ◌<◌, ap, inl, inr, List, [], ◌∷◌, arith}
use hetero_paged_infer.Prelude.Tests.{◌==◌, if◌then◌else◌, Option-cases}
use hetero_paged_infer.Prelude.Words.{u32_mod}
use hetero_paged_infer.Prelude.Lists.{length, count}
use hetero_paged_infer.SeqMap.{lookup}
use hetero_paged_infer.SeqMap.Laws.{lookup-remove}
use hetero_paged_infer.SeqMap.Sums.{IsMap-remove, at_key, sum_map-remove}
use hetero_paged_infer.Types.Memory.{PhysicalBlockRef}
use hetero_paged_infer.Types.Sequences.{block_indices}
use hetero_paged_infer.KvCache.Pool.{BlockPool}
use hetero_paged_infer.KvCache.PoolLaws.{PoolValid, PoolValid-new, free-PoolValid}
use hetero_paged_infer.KvCache.Invariant.{block_count, table_size, KvValid, PoolValid-resp}
use hetero_paged_infer.KvCache.{KvCacheManager, new_manager, free_blocks, free_sequence}

-- Freeing the blocks of a table, one by one.
free_blocks-PoolValid :
    (rs : List PhysicalBlockRef) (o : ℕ → ℕ) (k : ℕ) (p : BlockPool)
    → PoolValid (λ i. count i (block_indices rs) + o i) (length rs + k) p
    → PoolValid o k (free_blocks rs p)
unfolding free_blocks
free_blocks-PoolValid [] o k p v = PoolValid-resp _ _ _ _ p (λ i. omega arith) (omega arith) v
free_blocks-PoolValid (r ∷ rs) o k p v =
    free_blocks-PoolValid rs o k _
      (free-PoolValid _ _ p r (PoolValid-resp _ _ _ _ p (λ i. omega arith) (omega arith) v))

-- `free_sequence` keeps the cache valid: every block of the sequence goes back to the free list.
pub free_sequence-KvValid :
    (kv : KvCacheManager) (seq_id : ℕ) → KvValid kv → KvValid (free_sequence kv seq_id)
unfolding free_sequence
free_sequence-KvValid kv seq_id v = elim (Option-cases (lookup seq_id kv.page_tables)) [
  | inl e ↦ rw (e, free_sequence) v
  | inr (t, e) ↦
      rw (e, free_sequence)
        (record {
          pool = free_blocks-PoolValid t.logical_blocks _ _ kv.block_pool (
              PoolValid-resp _ _ _ _ _
                (λ i. omega (
                  arith,
                  sum_map-remove (block_count i) seq_id kv.page_tables v.keys,
                  ap (at_key (block_count i)) e,
                ))
                (omega (
                  arith,
                  sum_map-remove table_size seq_id kv.page_tables v.keys,
                  ap (at_key table_size) e,
                ))
                v.pool);
          keys = IsMap-remove seq_id kv.page_tables v.keys;
        })
]

pub KvValid-new :
    (num_blocks block_size : ℕ) → num_blocks < u32_mod → KvValid (new_manager num_blocks block_size)
unfolding new_manager
KvValid-new n b h = record { pool = PoolValid-new n b h; keys = tt }

pub lookup-freed :
    (kv : KvCacheManager) (seq_id j : ℕ)
    → lookup j (free_sequence kv seq_id).page_tables
      ≡ (if seq_id == j then none else lookup j kv.page_tables)
unfolding free_sequence
lookup-freed kv seq_id j = ground (arith, lookup-remove j seq_id kv.page_tables)
