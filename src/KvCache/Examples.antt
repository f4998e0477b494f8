-- ===== src/KvCache/Examples.antt =====
-- The KV cache at concrete inputs: four blocks of 16 tokens, for the sequences 1 and 2.
use hetero_paged_infer.Prelude.{
  ℕ, ◌+◌, ◌*◌, ◌≤◌, ◌<◌, ◌≡◌, refl, ◌⊎◌, none, some, List, [], ◌∷◌, arith,
}
use hetero_paged_infer.Prelude.Tests.{◌==◌, if◌then◌else◌}
use hetero_paged_infer.Prelude.Lists.{length}
use hetero_paged_infer.Prelude.Results.{ok, err}
use hetero_paged_infer.SeqMap.{lookup}
use hetero_paged_infer.SeqMap.Sums.{sum_map}
use hetero_paged_infer.Error.{out_of_blocks}
use hetero_paged_infer.KvCache.{
  PageTable, KvCacheManager, new_manager, allocate_sequence, free_sequence, get_memory_stats,
  blocks_for_tokens,
}
use hetero_paged_infer.KvCache.PoolLaws.{PoolValid}
use hetero_paged_infer.KvCache.Invariant.{KvValid, block_count, table_size}
use hetero_paged_infer.KvCache.Release.{KvValid-new}
use hetero_paged_infer.KvCache.Stats.{blocks_for_tokens_ceil, get_memory_stats_exact}
use hetero_paged_infer.KvCache.Traces.{
  KvCall, allocates_sequence, allocates_block, frees_sequence, run_calls, SameContents,
  no_block_shared, allocate_sequence_cases, free_sequence-allocate_sequence,
}

abbrev small_cache : KvCacheManager
small_cache = new_manager 4 16

small_cache-KvValid : KvValid small_cache
small_cache-KvValid = KvValid-new 4 16 (omega arith)

abbrev some_calls : List KvCall
some_calls =
    allocates_sequence 1 20
    ∷ allocates_sequence 2 40
    ∷ allocates_block 1
    ∷ frees_sequence 1
    ∷ allocates_sequence 2 40
    ∷ []

no_block_shared_example :
    PoolValid
      (λ i. sum_map (block_count i) (run_calls small_cache some_calls).page_tables)
      (sum_map table_size (run_calls small_cache some_calls).page_tables)
      (run_calls small_cache some_calls).block_pool
no_block_shared_example = no_block_shared 4 16 some_calls (omega arith)

allocate_sequence_cases_example :
    ((t : PageTable) × (lookup 1 small_cache.page_tables ≡ some t)
      × (allocate_sequence small_cache 1 20 ≡ (ok tt, small_cache)))
    ⊎ ((lookup 1 small_cache.page_tables ≡ none)
        × (length small_cache.block_pool.free_list
            < blocks_for_tokens 20 small_cache.block_pool.block_size)
        × (allocate_sequence small_cache 1 20 ≡ (err out_of_blocks, small_cache)))
    ⊎ ((t : PageTable) × (lookup 1 small_cache.page_tables ≡ none)
        × (blocks_for_tokens 20 small_cache.block_pool.block_size
            ≤ length small_cache.block_pool.free_list)
        × ((allocate_sequence small_cache 1 20).0 ≡ ok tt)
        × (table_size t ≡ blocks_for_tokens 20 small_cache.block_pool.block_size)
        × ((j : ℕ)
            → lookup j (allocate_sequence small_cache 1 20).1.page_tables
              ≡ (if 1 == j then some t else lookup j small_cache.page_tables)))
allocate_sequence_cases_example = allocate_sequence_cases small_cache 1 20 small_cache-KvValid

nothing_known : lookup 1 small_cache.page_tables ≡ none
unfolding new_manager lookup
nothing_known = refl

free_sequence-allocate_sequence_example :
    SameContents small_cache (free_sequence (allocate_sequence small_cache 1 20).1 1)
free_sequence-allocate_sequence_example =
    free_sequence-allocate_sequence small_cache 1 20 small_cache-KvValid nothing_known

blocks_for_tokens_ceil_example :
    (20 ≤ blocks_for_tokens 20 16 * 16) × (blocks_for_tokens 20 16 * 16 < 20 + 16)
blocks_for_tokens_ceil_example = blocks_for_tokens_ceil 20 16 (omega arith)

get_memory_stats_exact_example :
    ((get_memory_stats small_cache).used_blocks ≡ sum_map table_size small_cache.page_tables)
    × ((get_memory_stats small_cache).free_blocks ≡ length small_cache.block_pool.free_list)
    × ((get_memory_stats small_cache).total_blocks ≡ length small_cache.block_pool.blocks)
    × ((get_memory_stats small_cache).used_blocks + (get_memory_stats small_cache).free_blocks
        ≡ (get_memory_stats small_cache).total_blocks)
get_memory_stats_exact_example = get_memory_stats_exact small_cache small_cache-KvValid
