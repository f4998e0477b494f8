-- ===== src/KvCache/Invariant.antt =====
-- The KV cache keeps every physical block in exactly one place: once in the free list, or once
-- in the page table of one sequence.
use hetero_paged_infer.Prelude.{
  ℕ, zero, suc, ◌+◌, ◌≤◌, ◌≡◌, refl, ◌∙◌, none, List, [], ◌∷◌, ◌++◌, arith,
}
use hetero_paged_infer.Prelude.Tests.{◌==◌, if◌then◌else◌}
use hetero_paged_infer.Prelude.Lists.{length, count, length-append}
use hetero_paged_infer.Prelude.Results.{ok}
use hetero_paged_infer.SeqMap.{lookup, insert}
use hetero_paged_infer.SeqMap.Sums.{IsMap, sum_map, sum_map-insert}
use hetero_paged_infer.Types.Memory.{PhysicalBlockRef}
use hetero_paged_infer.Types.Sequences.{block_indices}
use hetero_paged_infer.KvCache.Pool.{BlockPool, allocate}
use hetero_paged_infer.KvCache.PoolLaws.{PoolValid, allocate_lem}
use hetero_paged_infer.KvCache.{PageTable, KvCacheManager, add_block, allocate_blocks}

-- How often the page tables hold block `i`, and how many blocks they hold.
abbrev pub block_count : ℕ → PageTable → ℕ
block_count i t = count i (block_indices t.logical_blocks)

abbrev pub table_size : PageTable → ℕ
table_size t = length t.logical_blocks

pub record KvValid (kv : KvCacheManager) : Type 0 where
  pub pool :
      PoolValid
        (λ i. sum_map (block_count i) kv.page_tables)
        (sum_map table_size kv.page_tables)
        kv.block_pool
  pub keys : IsMap kv.page_tables

-- The ledger may be replaced by one with the same counts.
pub PoolValid-resp :
    (o o' : ℕ → ℕ) (k k' : ℕ) (p : BlockPool)
    → ((i : ℕ) → o i ≡ o' i)
    → k ≡ k'
    → PoolValid o k p
    → PoolValid o' k' p
PoolValid-resp o o' k k' p e f v = record {
  partition = λ i. omega (arith, e i, v.partition i);
  counted = λ i. omega (arith, e i, v.counted i);
  total = omega (arith, v.total);
  small = v.small;
}

-- What the allocation of `n` blocks for the table `t` gives, where the pool has as many.
pub record Extends (n : ℕ) (o : ℕ → ℕ) (k : ℕ) (t : PageTable) (p : BlockPool) : Type 0 where
  pub table : PageTable
  pub result : (allocate_blocks n t p).0 ≡ ok table
  pub grown : table_size table ≡ table_size t + n
  pub same_id : table.seq_id ≡ t.seq_id
  pub valid :
      PoolValid (λ i. block_count i table + o i) (table_size table + k) (allocate_blocks n t p).1

pub block_count-add_block :
    (i : ℕ) (b : PhysicalBlockRef) (t : PageTable)
    → block_count i (add_block b t) ≡ (if b.block_idx == i then 1 else 0) + block_count i t
unfolding add_block
block_count-add_block i b t = go t.logical_blocks
  where
    go :
        (bs : List PhysicalBlockRef)
        → count i (block_indices (bs ++ b ∷ []))
          ≡ (if b.block_idx == i then 1 else 0) + count i (block_indices bs)
    go [] = refl
    go (c ∷ bs) = omega (arith, go bs)

pub table_size-add_block :
    (b : PhysicalBlockRef) (t : PageTable) → table_size (add_block b t) ≡ table_size t + 1
unfolding add_block
table_size-add_block b t = length-append t.logical_blocks (b ∷ [])

allocate_blocks-suc :
    (n : ℕ) (t : PageTable) (p : BlockPool) (b : PhysicalBlockRef)
    → (allocate p).0 ≡ ok b
    → allocate_blocks (suc n) t p ≡ allocate_blocks n (add_block b t) (allocate p).1
unfolding allocate_blocks
allocate_blocks-suc n t p b e = rw (e, allocate_blocks)

Extends-suc :
    (n : ℕ) (o : ℕ → ℕ) (k : ℕ) (t : PageTable) (p : BlockPool) (b : PhysicalBlockRef)
    → (allocate p).0 ≡ ok b
    → Extends n o k (add_block b t) (allocate p).1
    → Extends (suc n) o k t p
Extends-suc n o k t p b e x =
    let step = allocate_blocks-suc n t p b e in
    record {
      table = x.table;
      result = rw step x.result;
      grown = omega (arith, x.grown, table_size-add_block b t);
      same_id = x.same_id ∙ unfold add_block in refl;
      valid = rw step x.valid;
    }

pub allocate_blocks-Extends :
    (n : ℕ) (o : ℕ → ℕ) (k : ℕ) (t : PageTable) (p : BlockPool)
    → n ≤ length p.free_list
    → PoolValid (λ i. block_count i t + o i) (table_size t + k) p
    → Extends n o k t p
allocate_blocks-Extends zero o k t p h v =
    unfold allocate_blocks in
    record { table = t; result = refl; grown = omega arith; same_id = refl; valid = v }
allocate_blocks-Extends (suc n) o k t p h v =
    let (b, a) = allocate_lem _ _ p p.free_list v refl (omega arith) in
    Extends-suc n o k t p b a.result (
      allocate_blocks-Extends n o k (add_block b t) (allocate p).1 (omega (arith, a.one_less)) (
        PoolValid-resp _ _ _ _ _ (λ i. omega (arith, block_count-add_block i b t))
          (omega (arith, table_size-add_block b t)) a.valid))

pub sum_map-table :
    (f : PageTable → ℕ) (kv : KvCacheManager) (seq_id : ℕ) (t : PageTable)
    → lookup seq_id kv.page_tables ≡ none
    → sum_map f (insert seq_id t kv.page_tables) ≡ f t + sum_map f kv.page_tables
sum_map-table f kv seq_id t = sum_map-insert f seq_id t kv.page_tables
