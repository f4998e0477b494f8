-- ===== src/KvCache/Shape.antt =====
-- src/kv_cache.rs: the number of blocks and the block size under each operation.
use hetero_paged_infer.Prelude.{ℕ, zero, suc, ◌-◌, ◌≡◌, refl, ◌∙◌, inl, inr, List, [], ◌∷◌, arith}
use hetero_paged_infer.Prelude.Tests.{Option-cases}
use hetero_paged_infer.Prelude.Lists.{length, get_elem?, length-set}
use hetero_paged_infer.Prelude.Results.{Result, ok, err}
use hetero_paged_infer.SeqMap.{lookup}
use hetero_paged_infer.Types.Memory.{PhysicalBlockRef}
use hetero_paged_infer.Error.{EngineError}
use hetero_paged_infer.KvCache.Pool.{BlockPool, allocate, free, release_block}
use hetero_paged_infer.KvCache.{
  PageTable, KvCacheManager, allocate_blocks, add_block, new_page_table, allocate_sequence,
  store_table, allocate_block, extend_table, free_blocks, free_sequence, blocks_for_tokens,
}

pub record SameShape (p q : BlockPool) : Type 0 where
  pub size : length q.blocks ≡ length p.blocks
  pub block_size : q.block_size ≡ p.block_size

SameShape-refl : (p : BlockPool) → SameShape p p
SameShape-refl p = record { size = refl; block_size = refl }

SameShape-trans : (p q r : BlockPool) → SameShape p q → SameShape q r → SameShape p r
SameShape-trans p q r s t = record {
  size = t.size ∙ s.size;
  block_size = t.block_size ∙ s.block_size;
}

allocate-SameShape : (p : BlockPool) → SameShape p (allocate p).1
unfolding allocate
allocate-SameShape p = go p.free_list refl
  where
    go : (free : List ℕ) → p.free_list ≡ free → SameShape p (allocate p).1
    go [] e = record { size = ground arith; block_size = ground arith }
    go (i ∷ rest) e = elim (Option-cases (get_elem? p.blocks i)) [
      | inl h ↦ record { size = ground arith; block_size = ground arith }
      | inr (b, h) ↦ record {
        size = ground (arith, length-set p.blocks i (record b { ref_count = 1 }));
        block_size = ground arith;
      }
    ]

free-SameShape : (p : BlockPool) (r : PhysicalBlockRef) → SameShape p (free p r).1
unfolding free release_block
free-SameShape p r = elim (Option-cases (get_elem? p.blocks r.block_idx)) [
  | inl h ↦ record { size = ground arith; block_size = ground arith }
  | inr (b, h) ↦ record {
    size =
        ground (arith, length-set p.blocks r.block_idx (record b { ref_count = b.ref_count - 1 }));
    block_size = ground arith;
  }
]

allocate_blocks-SameShape :
    (n : ℕ) (t : PageTable) (p : BlockPool) → SameShape p (allocate_blocks n t p).1
unfolding allocate_blocks
allocate_blocks-SameShape zero t p = SameShape-refl p
allocate_blocks-SameShape (suc n) t p =
    let a = allocate-SameShape p in
    let ih = λ (b : PhysicalBlockRef). allocate_blocks-SameShape n (add_block b t) (allocate p).1 in
    go (allocate p).0 refl ih
  where
    go :
        (r : Result EngineError PhysicalBlockRef)
        → (allocate p).0 ≡ r
        → ((b : PhysicalBlockRef)
            → SameShape (allocate p).1 (allocate_blocks n (add_block b t) (allocate p).1).1)
        → SameShape p (allocate_blocks (suc n) t p).1
    go (ok b) e ih =
        rw (e, allocate_blocks) (SameShape-trans p (allocate p).1 _ (allocate-SameShape p) (ih b))
    go (err x) e ih = rw (e, allocate_blocks) (allocate-SameShape p)

free_blocks-SameShape :
    (rs : List PhysicalBlockRef) (p : BlockPool) → SameShape p (free_blocks rs p)
unfolding free_blocks
free_blocks-SameShape [] p = SameShape-refl p
free_blocks-SameShape (r ∷ rs) p =
    SameShape-trans p (free p r).1 _ (free-SameShape p r) (free_blocks-SameShape rs (free p r).1)

module _ (kv : KvCacheManager) (seq_id : ℕ) where
  pub allocate_sequence-SameShape :
      (num_tokens : ℕ)
      → SameShape kv.block_pool (allocate_sequence kv seq_id num_tokens).1.block_pool
  unfolding allocate_sequence store_table
  allocate_sequence-SameShape m =
      let n = blocks_for_tokens m kv.block_pool.block_size in
      let s = allocate_blocks-SameShape n (new_page_table seq_id) kv.block_pool in
      record { size = ground (arith, s.size); block_size = ground (arith, s.block_size) }

  pub allocate_block-SameShape : SameShape kv.block_pool (allocate_block kv seq_id).1.block_pool
  unfolding allocate_block extend_table
  allocate_block-SameShape =
      let s = allocate-SameShape kv.block_pool in
      record { size = ground (arith, s.size); block_size = ground (arith, s.block_size) }

  pub free_sequence-SameShape : SameShape kv.block_pool (free_sequence kv seq_id).block_pool
  unfolding free_sequence
  free_sequence-SameShape = elim (Option-cases (lookup seq_id kv.page_tables)) [
    | inl e ↦ rw (e, free_sequence) (SameShape-refl kv.block_pool)
    | inr (t, e) ↦ rw (e, free_sequence) (free_blocks-SameShape t.logical_blocks kv.block_pool)
  ]
