-- ===== src/KvCache/Traces.antt =====
-- Any sequence of operations on a new cache.
use native.Mathlib.Decide.{dec_le}
use hetero_paged_infer.Prelude.{
  ℕ, ◌≤◌, ◌<◌, ◌≡◌, refl, ◌⊎◌, inl, inr, none, some, List, [], ◌∷◌, arith,
}
use hetero_paged_infer.Prelude.Tests.{◌==◌, if◌then◌else◌, Option-cases}
use hetero_paged_infer.Prelude.Words.{u32_mod}
use hetero_paged_infer.Prelude.Lists.{length, count}
use hetero_paged_infer.Prelude.Results.{ok, err}
use hetero_paged_infer.SeqMap.{lookup, insert}
use hetero_paged_infer.SeqMap.Laws.{lookup-insert}
use hetero_paged_infer.SeqMap.Sums.{sum_map, sum_map-insert, sum_map-remove}
use hetero_paged_infer.Error.{out_of_blocks}
use hetero_paged_infer.KvCache.{
  PageTable, KvCacheManager, new_manager, allocate_sequence, allocate_block, free_sequence,
  blocks_for_tokens,
}
use hetero_paged_infer.KvCache.Invariant.{KvValid, block_count, table_size}
use hetero_paged_infer.KvCache.Shape.{
  SameShape, allocate_sequence-SameShape, free_sequence-SameShape,
}
use hetero_paged_infer.KvCache.PoolLaws.{PoolValid}
use hetero_paged_infer.KvCache.Allocation.{
  allocate_sequence_lem, allocate_sequence_known, allocate_sequence_full, allocate_sequence-KvValid,
  allocate_block-KvValid,
}
use hetero_paged_infer.KvCache.Release.{free_sequence-KvValid, KvValid-new, lookup-freed}

pub data KvCall : Type 0 where
  allocates_sequence : ℕ → ℕ → KvCall
  allocates_block : ℕ → KvCall
  frees_sequence : ℕ → KvCall

unfoldable pub run_call : KvCacheManager → KvCall → KvCacheManager
run_call kv (allocates_sequence seq_id num_tokens) = (allocate_sequence kv seq_id num_tokens).1
run_call kv (allocates_block seq_id) = (allocate_block kv seq_id).1
run_call kv (frees_sequence seq_id) = free_sequence kv seq_id

unfoldable pub run_calls : KvCacheManager → List KvCall → KvCacheManager
run_calls kv [] = kv
run_calls kv (c ∷ cs) = run_calls (run_call kv c) cs

run_call-KvValid : (kv : KvCacheManager) (c : KvCall) → KvValid kv → KvValid (run_call kv c)
unfolding run_call
run_call-KvValid kv (allocates_sequence i n) v = allocate_sequence-KvValid kv i n v
run_call-KvValid kv (allocates_block i) v = allocate_block-KvValid kv i v
run_call-KvValid kv (frees_sequence i) v = free_sequence-KvValid kv i v

run_calls-KvValid :
    (kv : KvCacheManager) (cs : List KvCall) → KvValid kv → KvValid (run_calls kv cs)
unfolding run_calls
run_calls-KvValid kv [] v = v
run_calls-KvValid kv (c ∷ cs) v = run_calls-KvValid (run_call kv c) cs (run_call-KvValid kv c v)

-- From a new cache of fewer than 2 ^ 32 blocks, after any calls of `allocate_sequence`,
-- `allocate_block` and `free_sequence`, whether they succeed or not: each physical block stands
-- once in the free list or once in one page table, never in both and never twice; its reference
-- count says which; and the two together hold all blocks.
pub no_block_shared :
    (num_blocks block_size : ℕ) (cs : List KvCall)
    → num_blocks < u32_mod
    → let kv = run_calls (new_manager num_blocks block_size) cs in
      PoolValid
        (λ i. sum_map (block_count i) kv.page_tables)
        (sum_map table_size kv.page_tables)
        kv.block_pool
no_block_shared n b cs h = (run_calls-KvValid (new_manager n b) cs (KvValid-new n b h)).pool

-- On a valid cache `allocate_sequence` does one of three things: a sequence that has a page table
-- keeps it and the cache is unchanged; a pool with too few free blocks is left unchanged with
-- `OutOfBlocks`; otherwise the sequence gets a new table of exactly `blocks_for_tokens` blocks,
-- the tables of all others are unchanged. It never panics.
pub allocate_sequence_cases :
    (kv : KvCacheManager) (seq_id num_tokens : ℕ)
    → KvValid kv
    → let n = blocks_for_tokens num_tokens kv.block_pool.block_size in
      let r = allocate_sequence kv seq_id num_tokens in
      ((t : PageTable) × (lookup seq_id kv.page_tables ≡ some t) × (r ≡ (ok tt, kv)))
      ⊎ ((lookup seq_id kv.page_tables ≡ none)
          × (length kv.block_pool.free_list < n)
          × (r ≡ (err out_of_blocks, kv)))
      ⊎ ((t : PageTable) × (lookup seq_id kv.page_tables ≡ none)
          × (n ≤ length kv.block_pool.free_list)
          × (r.0 ≡ ok tt)
          × (table_size t ≡ n)
          × ((j : ℕ)
              → lookup j r.1.page_tables
                ≡ (if seq_id == j then some t else lookup j kv.page_tables)))
allocate_sequence_cases kv i m v = elim (Option-cases (lookup i kv.page_tables)) [
  | inr (t, e) ↦ inl (t, e, allocate_sequence_known kv i m t e)
  | inl e ↦
      let n = blocks_for_tokens m kv.block_pool.block_size in
      elim (dec_le n (length kv.block_pool.free_list)) [
        | no h ↦ inr (inl (e, omega arith, allocate_sequence_full kv i m e (omega arith)))
        | yes h ↦
            let x = allocate_sequence_lem kv i m v e h in
            inr (
              inr (
                x.table,
                e,
                h,
                x.result,
                x.covers,
                λ j. rw x.tables (lookup-insert j i x.table kv.page_tables),
              ))
      ]
]

-- The same page table for every sequence, and each block free as often.
abbrev pub SameContents : KvCacheManager → KvCacheManager → Type 0
SameContents kv kv' =
    ((j : ℕ) → lookup j kv'.page_tables ≡ lookup j kv.page_tables)
    × ((i : ℕ) → count i kv'.block_pool.free_list ≡ count i kv.block_pool.free_list)

free_unknown :
    (kv : KvCacheManager) (seq_id : ℕ)
    → lookup seq_id kv.page_tables ≡ none
    → SameContents kv (free_sequence kv seq_id)
unfolding free_sequence
free_unknown kv seq_id e = rw (e, free_sequence) (λ j. refl, λ i. refl)

-- A cache `kv'` with one more table than `kv`, which is freed.
module _ (kv : KvCacheManager) (seq_id : ℕ) (t : PageTable) (kv' : KvCacheManager) (v : KvValid kv)
    (e : lookup seq_id kv.page_tables ≡ none) (f : kv'.page_tables ≡ insert seq_id t kv.page_tables)
    (v' : KvValid kv') (s : SameShape kv.block_pool kv'.block_pool) where
  held_again :
      (g : PageTable → ℕ)
      → sum_map g (free_sequence kv' seq_id).page_tables ≡ sum_map g kv.page_tables
  unfolding free_sequence
  held_again g = ground (
    arith,
    sum_map-insert g seq_id t kv.page_tables e,
    sum_map-remove g seq_id kv'.page_tables v'.keys,
    lookup-insert seq_id seq_id t kv.page_tables,
  )

  freed_table : SameContents kv (free_sequence kv' seq_id)
  freed_table =
      let w = free_sequence-KvValid kv' seq_id v' in
      let z = free_sequence-SameShape kv' seq_id in
      (
        λ j.
            rw (lookup-freed kv' seq_id j)
              (ground (arith, lookup-insert j seq_id t kv.page_tables)),
        λ i. ground (
          arith,
          w.pool.partition i,
          v.pool.partition i,
          held_again (block_count i),
          z.size,
          s.size,
        ),
      )

-- Freeing a sequence that was just allocated gives back exactly its blocks: the page tables are
-- as before for every sequence, and each block is free as often as before.
pub free_sequence-allocate_sequence :
    (kv : KvCacheManager) (seq_id num_tokens : ℕ)
    → KvValid kv
    → lookup seq_id kv.page_tables ≡ none
    → SameContents kv (free_sequence (allocate_sequence kv seq_id num_tokens).1 seq_id)
free_sequence-allocate_sequence kv seq_id num_tokens v e =
    let n = blocks_for_tokens num_tokens kv.block_pool.block_size in
    elim (dec_le n (length kv.block_pool.free_list)) [
      | yes h ↦
          let x = allocate_sequence_lem kv seq_id num_tokens v e h in
          freed_table kv seq_id x.table (allocate_sequence kv seq_id num_tokens).1 v e x.tables
            x.valid (allocate_sequence-SameShape kv seq_id num_tokens)
      | no h ↦
          rw (allocate_sequence_full kv seq_id num_tokens e (omega arith))
            (free_unknown kv seq_id e)
    ]
