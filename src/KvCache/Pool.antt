-- ===== src/KvCache/Pool.antt =====
-- src/kv_cache.rs, `BlockPool`: the physical blocks and the queue of the free ones.
use hetero_paged_infer.Prelude.{ℕ, zero, suc, ◌+◌, ◌-◌, Bool, none, some, List, [], ◌∷◌, ◌++◌}
use hetero_paged_infer.Prelude.Tests.{leb, ◌==◌, if◌then◌else◌}
use hetero_paged_infer.Prelude.Words.{to_u32, sub_u32}
use hetero_paged_infer.Prelude.Lists.{length, get_elem?, set}
use hetero_paged_infer.Prelude.Results.{Result, ok, err}
use hetero_paged_infer.Error.{EngineError, out_of_blocks, invalid_block_index, index_panic}
use hetero_paged_infer.Types.Memory.{PhysicalBlockRef}

pub record PhysicalBlock : Type 0 where
  pub block_idx : ℕ
  pub ref_count : ℕ

pub record BlockPool : Type 0 where
  pub blocks : List PhysicalBlock
  -- the head is the front of the deque
  pub free_list : List ℕ
  pub block_size : ℕ

-- `for i in start..start + n { blocks.push(PhysicalBlock::new(i)) }`
unfoldable pub fresh_blocks : ℕ → ℕ → List PhysicalBlock
fresh_blocks start zero = []
fresh_blocks start (suc n) =
    record { block_idx = start; ref_count = 0 } ∷ fresh_blocks (start + 1) n

-- `for i in start..start + n { free_list.push_back(i) }`
unfoldable pub fresh_free_list : ℕ → ℕ → List ℕ
fresh_free_list start zero = []
fresh_free_list start (suc n) = start ∷ fresh_free_list (start + 1) n

unfoldable pub new_pool : ℕ → ℕ → BlockPool
unfolding fresh_blocks fresh_free_list
new_pool num_blocks block_size = record {
  blocks = fresh_blocks 0 num_blocks;
  free_list = fresh_free_list 0 num_blocks;
  block_size = block_size;
}

-- `self.blocks[i]` panics out of range.
unfoldable pub allocate : BlockPool → Result EngineError PhysicalBlockRef × BlockPool
allocate p = elim p.free_list [
  | [] ↦ (err out_of_blocks, p)
  | i ∷ rest ↦ elim (get_elem? p.blocks i) [
    | none ↦ (err (index_panic i), record p { free_list = rest })
    | some b ↦ (
      ok (record { block_idx = i }),
      record p { blocks = set p.blocks i (record b { ref_count = 1 }); free_list = rest },
    )
  ]
]

-- The effect on a block that is in range. A block with no reference is left alone.
unfoldable pub release_block : BlockPool → ℕ → PhysicalBlock → BlockPool
release_block p i b = if b.ref_count == 0 then p else record p {
  blocks = set p.blocks i (record b { ref_count = b.ref_count - 1 });
  free_list = if b.ref_count - 1 == 0 then p.free_list ++ i ∷ [] else p.free_list;
}

unfoldable pub free : BlockPool → PhysicalBlockRef → Result EngineError (Unit {0}) × BlockPool
unfolding release_block
free p r =
    if leb (to_u32 (length p.blocks)) r.block_idx
    then (err (invalid_block_index r.block_idx), p)
    else elim (get_elem? p.blocks r.block_idx) [
      | none ↦ (err (index_panic r.block_idx), p)
      | some b ↦ (ok tt, release_block p r.block_idx b)
    ]

unfoldable pub pool_can_allocate : BlockPool → ℕ → Bool
pool_can_allocate p num_blocks = leb num_blocks (length p.free_list)

unfoldable pub num_free_blocks : BlockPool → ℕ
num_free_blocks p = to_u32 (length p.free_list)

unfoldable pub total_blocks : BlockPool → ℕ
total_blocks p = to_u32 (length p.blocks)

unfoldable pub num_used_blocks : BlockPool → ℕ
unfolding total_blocks num_free_blocks
num_used_blocks p = sub_u32 (total_blocks p) (num_free_blocks p)
