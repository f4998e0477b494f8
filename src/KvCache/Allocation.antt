-- ===== src/KvCache/Allocation.antt =====
-- src/kv_cache.rs: the branches of `allocate_sequence` and `allocate_block`.
use native.Mathlib.Decide.{dec_le, dec_lt}
use hetero_paged_infer.Prelude.{
  ℕ, ◌≤◌, ◌<◌, ◌≡◌, refl, sym, ◌∙◌, inl, inr, none, some, List, [], ◌∷◌, arith,
}
use hetero_paged_infer.Prelude.Tests.{Option-cases}
use hetero_paged_infer.Prelude.Lists.{length}
use hetero_paged_infer.Prelude.Results.{ok, err}
use hetero_paged_infer.SeqMap.{lookup, insert, modify}
use hetero_paged_infer.SeqMap.Sums.{IsMap-insert, IsMap-modify, sum_map, sum_map-modify}
use hetero_paged_infer.Error.{out_of_blocks, sequence_not_found}
use hetero_paged_infer.Types.Memory.{PhysicalBlockRef}
use hetero_paged_infer.KvCache.Pool.{allocate, pool_can_allocate}
use hetero_paged_infer.KvCache.PoolLaws.{allocate_lem}
use hetero_paged_infer.KvCache.Invariant.{
  block_count, table_size, KvValid, PoolValid-resp, Extends, allocate_blocks-Extends,
  block_count-add_block, table_size-add_block, sum_map-table,
}
use hetero_paged_infer.KvCache.{
  PageTable, KvCacheManager, new_page_table, add_block, blocks_for_tokens, allocate_blocks,
  store_table, allocate_sequence, extend_table, allocate_block,
}

-- The two branches of `allocate_sequence` that change nothing: a known sequence, and a full pool.
pub allocate_sequence_known :
    (kv : KvCacheManager) (seq_id num_tokens : ℕ) (t : PageTable)
    → lookup seq_id kv.page_tables ≡ some t
    → allocate_sequence kv seq_id num_tokens ≡ (ok tt, kv)
unfolding allocate_sequence
allocate_sequence_known kv seq_id num_tokens t e = ground arith

pub allocate_sequence_full :
    (kv : KvCacheManager) (seq_id num_tokens : ℕ)
    → lookup seq_id kv.page_tables ≡ none
    → length kv.block_pool.free_list < blocks_for_tokens num_tokens kv.block_pool.block_size
    → allocate_sequence kv seq_id num_tokens ≡ (err out_of_blocks, kv)
unfolding allocate_sequence pool_can_allocate
allocate_sequence_full kv seq_id num_tokens e h = ground arith

-- Success of `allocate_sequence`, its state written out.
allocate_sequence_ok :
    (kv : KvCacheManager) (seq_id num_tokens : ℕ) (t : PageTable)
    → lookup seq_id kv.page_tables ≡ none
    → let n = blocks_for_tokens num_tokens kv.block_pool.block_size in
      let r = allocate_blocks n (new_page_table seq_id) kv.block_pool in
      n ≤ length kv.block_pool.free_list
      → r.0 ≡ ok t
      → allocate_sequence kv seq_id num_tokens
        ≡ (ok tt, record { block_pool = r.1; page_tables = insert seq_id t kv.page_tables })
unfolding allocate_sequence pool_can_allocate store_table
allocate_sequence_ok kv seq_id num_tokens t fresh h e = ground arith

-- What `allocate_sequence` gives a new sequence where the pool has blocks enough.
pub record NewTable (kv : KvCacheManager) (seq_id num_tokens : ℕ) : Type 0 where
  pub table : PageTable
  pub result : (allocate_sequence kv seq_id num_tokens).0 ≡ ok tt
  pub tables :
      (allocate_sequence kv seq_id num_tokens).1.page_tables ≡ insert seq_id table kv.page_tables
  pub covers : table_size table ≡ blocks_for_tokens num_tokens kv.block_pool.block_size
  pub same_id : table.seq_id ≡ seq_id
  pub valid : KvValid (allocate_sequence kv seq_id num_tokens).1

pub allocate_sequence_lem :
    (kv : KvCacheManager) (seq_id num_tokens : ℕ)
    → KvValid kv
    → lookup seq_id kv.page_tables ≡ none
    → blocks_for_tokens num_tokens kv.block_pool.block_size ≤ length kv.block_pool.free_list
    → NewTable kv seq_id num_tokens
allocate_sequence_lem kv seq_id num_tokens v fresh h =
    let n = blocks_for_tokens num_tokens kv.block_pool.block_size in
    let x : Extends n (λ i. sum_map (block_count i) kv.page_tables)
        (sum_map table_size kv.page_tables) (new_page_table seq_id) kv.block_pool =
      allocate_blocks-Extends n _ _ (new_page_table seq_id) kv.block_pool h (
        unfold new_page_table in
        PoolValid-resp _ _ _ _ _ (λ i. omega arith) (omega arith) v.pool) in
    let e = allocate_sequence_ok kv seq_id num_tokens x.table fresh h x.result in
    record {
      table = x.table;
      result = rw e;
      tables = rw e;
      covers = x.grown ∙ (unfold new_page_table in omega arith);
      same_id = x.same_id ∙ (unfold new_page_table in refl);
      valid = rw e (record {
        pool =
            PoolValid-resp _ _ _ _ _
              (λ i. sym (sum_map-table (block_count i) kv seq_id x.table fresh))
              (sym (sum_map-table table_size kv seq_id x.table fresh)) x.valid;
        keys = IsMap-insert seq_id x.table kv.page_tables v.keys;
      });
    }

-- `allocate_sequence` keeps the cache valid on every branch.
pub allocate_sequence-KvValid :
    (kv : KvCacheManager) (seq_id num_tokens : ℕ)
    → KvValid kv
    → KvValid (allocate_sequence kv seq_id num_tokens).1
allocate_sequence-KvValid kv seq_id num_tokens v =
    elim (Option-cases (lookup seq_id kv.page_tables)) [
      | inr (t, e) ↦ rw (allocate_sequence_known kv seq_id num_tokens t e) v
      | inl e ↦
          let n = blocks_for_tokens num_tokens kv.block_pool.block_size in
          elim (dec_le n (length kv.block_pool.free_list)) [
            | yes h ↦ (allocate_sequence_lem kv seq_id num_tokens v e h).valid
            | no h ↦ rw (allocate_sequence_full kv seq_id num_tokens e (omega arith)) v
          ]
    ]

-- `allocate_block` on a sequence that has a table, where the pool has a free block.
pub record OneMore (kv : KvCacheManager) (seq_id : ℕ) (t : PageTable) : Type 0 where
  pub block : PhysicalBlockRef
  pub result : (allocate_block kv seq_id).0 ≡ ok block
  pub tables :
      (allocate_block kv seq_id).1.page_tables ≡ modify seq_id (add_block block) kv.page_tables
  pub valid : KvValid (allocate_block kv seq_id).1

allocate_block_ok :
    (kv : KvCacheManager) (seq_id : ℕ) (t : PageTable) (b : PhysicalBlockRef)
    → lookup seq_id kv.page_tables ≡ some t
    → (allocate kv.block_pool).0 ≡ ok b
    → allocate_block kv seq_id ≡ (
      ok b,
      record {
        block_pool = (allocate kv.block_pool).1;
        page_tables = modify seq_id (add_block b) kv.page_tables;
      },
    )
unfolding allocate_block extend_table
allocate_block_ok kv seq_id t b e f = ground arith

pub allocate_block_lem :
    (kv : KvCacheManager) (seq_id : ℕ) (t : PageTable)
    → KvValid kv
    → lookup seq_id kv.page_tables ≡ some t
    → 0 < length kv.block_pool.free_list
    → OneMore kv seq_id t
allocate_block_lem kv seq_id t v e h =
    let (b, a) = allocate_lem _ _ kv.block_pool kv.block_pool.free_list v.pool refl h in
    let step = allocate_block_ok kv seq_id t b e a.result in
    record {
      block = b;
      result = rw step;
      tables = rw step;
      valid = rw step (record {
        pool =
            PoolValid-resp _ _ _ _ _
              (λ i. omega (
                arith,
                sum_map-modify (block_count i) seq_id (add_block b) t kv.page_tables e,
                block_count-add_block i b t,
              ))
              (omega (
                arith,
                sum_map-modify table_size seq_id (add_block b) t kv.page_tables e,
                table_size-add_block b t,
              ))
              a.valid;
        keys = IsMap-modify seq_id (add_block b) kv.page_tables v.keys;
      });
    }

-- The branches of `allocate_block` that change nothing: an unknown sequence, and a full pool.
pub allocate_block_unknown :
    (kv : KvCacheManager) (seq_id : ℕ)
    → lookup seq_id kv.page_tables ≡ none
    → allocate_block kv seq_id ≡ (err (sequence_not_found seq_id), kv)
unfolding allocate_block
allocate_block_unknown kv seq_id e = ground arith

pub allocate_block_full :
    (kv : KvCacheManager) (seq_id : ℕ) (t : PageTable)
    → lookup seq_id kv.page_tables ≡ some t
    → kv.block_pool.free_list ≡ []
    → allocate_block kv seq_id ≡ (err out_of_blocks, kv)
unfolding allocate_block allocate extend_table
allocate_block_full kv seq_id t e h = ground arith

pub length_zero {ℓ} : {A : Type ℓ} (xs : List A) → ¬ (0 < length xs) → xs ≡ []
length_zero [] h = refl
length_zero (x ∷ xs) h = absurd (omega arith)

-- `allocate_block` keeps the cache valid on every branch.
pub allocate_block-KvValid :
    (kv : KvCacheManager) (seq_id : ℕ) → KvValid kv → KvValid (allocate_block kv seq_id).1
allocate_block-KvValid kv seq_id v = elim (Option-cases (lookup seq_id kv.page_tables)) [
  | inl e ↦ rw (allocate_block_unknown kv seq_id e) v
  | inr (t, e) ↦ elim (dec_lt 0 (length kv.block_pool.free_list)) [
    | yes h ↦ (allocate_block_lem kv seq_id t v e h).valid
    | no h ↦ rw (allocate_block_full kv seq_id t e (length_zero kv.block_pool.free_list h)) v
  ]
]
