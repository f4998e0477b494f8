-- ===== src/KvCache/PoolLaws.antt =====
-- The block pool against a ledger: `o i` is how often block `i` is held outside of the pool, and
-- `k` is how many blocks are held in all.
use hetero_paged_infer.Prelude.{
  ℕ, zero, suc, ◌+◌, ◌-◌, ◌<◌, ◌≡◌, refl, inl, inr, Option, none, some, List, [], ◌∷◌, ap, arith,
}
use hetero_paged_infer.Prelude.Tests.{leb, ltb, ◌==◌, if◌then◌else◌, Option-cases}
use hetero_paged_infer.Prelude.Words.{u32_mod}
use hetero_paged_infer.Prelude.Lists.{
  length, get_elem?, set, count, length-append, count-append, length-set, get_elem?-some,
  get_elem?-none,
}
use hetero_paged_infer.Prelude.Results.{ok}
use hetero_paged_infer.Types.Memory.{PhysicalBlockRef}
use hetero_paged_infer.KvCache.Pool.{
  PhysicalBlock, BlockPool, fresh_blocks, fresh_free_list, new_pool, allocate, free, release_block,
}

abbrev pub refs_of : Option PhysicalBlock → ℕ
refs_of none = 0
refs_of (some b) = b.ref_count

-- The reference count of block `i`; 0 out of range.
abbrev pub ref_count : ℕ → List PhysicalBlock → ℕ
ref_count i blocks = refs_of (get_elem? blocks i)

pub record PoolValid (o : ℕ → ℕ) (k : ℕ) (p : BlockPool) : Type 0 where
  -- a block is free once or held once
  pub partition : (i : ℕ) → count i p.free_list + o i ≡ (if ltb i (length p.blocks) then 1 else 0)
  -- its reference count says which
  pub counted : (i : ℕ) → ref_count i p.blocks ≡ o i
  pub total : length p.free_list + k ≡ length p.blocks
  pub small : length p.blocks < u32_mod

-- The reference count after a write in range.
ref_count-set :
    (i j : ℕ) (b : PhysicalBlock) (blocks : List PhysicalBlock)
    → i < length blocks
    → ref_count j (set blocks i b) ≡ (if i == j then b.ref_count else ref_count j blocks)
ref_count-set i j b [] h = elim h [ ]
ref_count-set zero zero b (x ∷ xs) h = refl
ref_count-set zero (suc j) b (x ∷ xs) h = ground arith
ref_count-set (suc i) zero b (x ∷ xs) h = ground arith
ref_count-set (suc i) (suc j) b (x ∷ xs) h = ground (arith, ref_count-set i j b xs)

length-fresh_blocks : (i n : ℕ) → length (fresh_blocks i n) ≡ n
unfolding fresh_blocks
length-fresh_blocks i zero = refl
length-fresh_blocks i (suc n) = omega (arith, length-fresh_blocks (i + 1) n)

pub length-new_pool : (n b : ℕ) → length (new_pool n b).blocks ≡ n
unfolding new_pool
length-new_pool n b = length-fresh_blocks 0 n

length-fresh_free_list : (i n : ℕ) → length (fresh_free_list i n) ≡ n
unfolding fresh_free_list
length-fresh_free_list i zero = refl
length-fresh_free_list i (suc n) = omega (arith, length-fresh_free_list (i + 1) n)

count-fresh_free_list :
    (j i n : ℕ)
    → count j (fresh_free_list i n) ≡ (if leb i j then (if ltb j (i + n) then 1 else 0) else 0)
unfolding fresh_free_list
count-fresh_free_list j i zero = ground arith
count-fresh_free_list j i (suc n) = ground (arith, count-fresh_free_list j (i + 1) n)

ref_count-fresh_blocks : (j i n : ℕ) → ref_count j (fresh_blocks i n) ≡ 0
unfolding fresh_blocks
ref_count-fresh_blocks j i zero = refl
ref_count-fresh_blocks zero i (suc n) = refl
ref_count-fresh_blocks (suc j) i (suc n) = ref_count-fresh_blocks j (i + 1) n

pub PoolValid-new : (n b : ℕ) → n < u32_mod → PoolValid (λ i. 0) 0 (new_pool n b)
unfolding new_pool
PoolValid-new n b h = record {
  partition = λ i. ground (arith, count-fresh_free_list i 0 n, length-fresh_blocks 0 n);
  counted = λ i. ref_count-fresh_blocks i 0 n;
  total = omega (arith, length-fresh_blocks 0 n, length-fresh_free_list 0 n);
  small = omega (arith, length-fresh_blocks 0 n);
}

-- One more reference to block `i` in the ledger, and one less.
abbrev pub held : ℕ → (ℕ → ℕ) → ℕ → ℕ
held i o j = (if i == j then 1 else 0) + o j

-- What `allocate` does to a valid pool with a free block: it hands out the front of the free list.
pub record Allocates (o : ℕ → ℕ) (k : ℕ) (p : BlockPool) (b : PhysicalBlockRef) : Type 0 where
  pub result : (allocate p).0 ≡ ok b
  pub valid : PoolValid (held b.block_idx o) (suc k) (allocate p).1
  pub one_less : length (allocate p).1.free_list + 1 ≡ length p.free_list
  pub same_size : length (allocate p).1.blocks ≡ length p.blocks
  pub same_block_size : (allocate p).1.block_size ≡ p.block_size
  pub unheld : o b.block_idx ≡ 0

-- `allocate` on a pool whose free list is not empty: the index at the front is in range.
allocate_front :
    (o : ℕ → ℕ) (k : ℕ) (p : BlockPool) (i : ℕ) (rest : List ℕ) (b : PhysicalBlock)
    → PoolValid o k p
    → p.free_list ≡ i ∷ rest
    → get_elem? p.blocks i ≡ some b
    → Allocates o k p (record { block_idx = i })
unfolding allocate
allocate_front o k p i rest b v e f = record {
  result = ground arith;
  valid = record {
    partition =
        λ j. ground (arith, v.partition j, length-set p.blocks i (record b { ref_count = 1 }));
    counted = λ j. ground (
      arith,
      v.counted j,
      v.counted i,
      v.partition i,
      ref_count-set i j (record b { ref_count = 1 }) p.blocks,
      get_elem?-some p.blocks i b f,
    );
    total = ground (arith, v.total, length-set p.blocks i (record b { ref_count = 1 }));
    small = ground (arith, v.small, length-set p.blocks i (record b { ref_count = 1 }));
  };
  one_less = ground arith;
  same_size = ground (arith, length-set p.blocks i (record b { ref_count = 1 }));
  same_block_size = ground arith;
  unheld = ground (arith, v.partition i, get_elem?-some p.blocks i b f);
}

allocate_cons :
    (o : ℕ → ℕ) (k : ℕ) (p : BlockPool) (i : ℕ) (rest : List ℕ)
    → PoolValid o k p
    → p.free_list ≡ i ∷ rest
    → Allocates o k p (record { block_idx = i })
allocate_cons o k p i rest v e = elim (Option-cases (get_elem? p.blocks i)) [
  | inl h ↦ absurd (ground (arith, v.partition i, get_elem?-none p.blocks i h, ap (count i) e))
  | inr (b, h) ↦ allocate_front o k p i rest b v e h
]

-- Allocation succeeds on every valid pool with a free block, and never panics.
pub allocate_lem :
    (o : ℕ → ℕ) (k : ℕ) (p : BlockPool) (free : List ℕ)
    → PoolValid o k p
    → p.free_list ≡ free
    → 0 < length free
    → (b : PhysicalBlockRef) × Allocates o k p b
allocate_lem o k p [] v e h = absurd (omega arith)
allocate_lem o k p (i ∷ rest) v e h = (record { block_idx = i }, allocate_cons o k p i rest v e)

-- A block that is held once becomes free.
free-held :
    (o : ℕ → ℕ) (k : ℕ) (p : BlockPool) (r : PhysicalBlockRef) (b : PhysicalBlock)
    → PoolValid (held r.block_idx o) (suc k) p
    → get_elem? p.blocks r.block_idx ≡ some b
    → PoolValid o k (free p r).1
unfolding free release_block
free-held o k p r b v f =
    let i = r.block_idx in
    let b' : PhysicalBlock = record b { ref_count = b.ref_count - 1 } in
    record {
      partition = λ j. ground (
        arith,
        v.partition j,
        v.partition i,
        v.counted i,
        v.small,
        length-set p.blocks i b',
        count-append j p.free_list (i ∷ []),
        get_elem?-some p.blocks i b f,
      );
      counted = λ j. ground (
        arith,
        v.counted j,
        v.counted i,
        v.partition i,
        v.small,
        ref_count-set i j b' p.blocks,
        get_elem?-some p.blocks i b f,
      );
      total = ground (
        arith,
        v.total,
        v.counted i,
        v.partition i,
        v.small,
        length-set p.blocks i b',
        length-append p.free_list (i ∷ []),
        get_elem?-some p.blocks i b f,
      );
      small = ground (
        arith,
        v.counted i,
        v.partition i,
        v.small,
        length-set p.blocks i b',
        get_elem?-some p.blocks i b f,
      );
    }

-- Freeing a held block keeps the pool valid; its index is always in range.
pub free-PoolValid :
    (o : ℕ → ℕ) (k : ℕ) (p : BlockPool) (r : PhysicalBlockRef)
    → PoolValid (held r.block_idx o) (suc k) p
    → PoolValid o k (free p r).1
free-PoolValid o k p r v = elim (Option-cases (get_elem? p.blocks r.block_idx)) [
  | inl h ↦ absurd (ground (arith, v.partition r.block_idx, get_elem?-none p.blocks r.block_idx h))
  | inr (b, h) ↦ free-held o k p r b v h
]
