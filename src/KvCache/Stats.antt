-- ===== src/KvCache/Stats.antt =====
-- The block arithmetic and the memory statistics of a valid cache.
use native.Mathlib.Nat.{div-add-mod, mod-lt}
use hetero_paged_infer.Prelude.{ℕ, ◌+◌, ◌*◌, ◌≤◌, ◌<◌, ◌≡◌, arith}
use hetero_paged_infer.Prelude.Lists.{length}
use hetero_paged_infer.SeqMap.Sums.{sum_map}
use hetero_paged_infer.KvCache.Pool.{total_blocks, num_free_blocks, num_used_blocks}
use hetero_paged_infer.KvCache.Invariant.{KvValid, table_size}
use hetero_paged_infer.KvCache.{KvCacheManager, blocks_for_tokens, get_memory_stats}

-- For a block size that is not 0, `blocks_for_tokens` is the least number of blocks whose
-- capacity is at least the number of tokens.
pub blocks_for_tokens_ceil :
    (num_tokens block_size : ℕ)
    → 0 < block_size
    → (num_tokens ≤ blocks_for_tokens num_tokens block_size * block_size)
      × (blocks_for_tokens num_tokens block_size * block_size < num_tokens + block_size)
unfolding blocks_for_tokens
blocks_for_tokens_ceil n b h = grind (arith, div-add-mod n b, mod-lt)

-- In a valid cache the statistics never wrap: the used blocks are exactly those of the page
-- tables, the free blocks are the length of the free list, and the two add up to the total.
pub get_memory_stats_exact :
    (kv : KvCacheManager)
    → KvValid kv
    → ((get_memory_stats kv).used_blocks ≡ sum_map table_size kv.page_tables)
      × ((get_memory_stats kv).free_blocks ≡ length kv.block_pool.free_list)
      × ((get_memory_stats kv).total_blocks ≡ length kv.block_pool.blocks)
      × ((get_memory_stats kv).used_blocks + (get_memory_stats kv).free_blocks
          ≡ (get_memory_stats kv).total_blocks)
unfolding get_memory_stats total_blocks num_free_blocks num_used_blocks
get_memory_stats_exact kv v = (
  omega (arith, v.pool.total, v.pool.small),
  omega (arith, v.pool.total, v.pool.small),
  omega (arith, v.pool.total, v.pool.small),
  omega (arith, v.pool.total, v.pool.small),
)
