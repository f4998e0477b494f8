-- ===== src/Types/Memory.antt =====
-- src/types/memory.rs: a physical block and the statistics of the memory.
use hetero_paged_infer.Prelude.{ℕ}
use hetero_paged_infer.Prelude.Tests.{◌==◌, if◌then◌else◌}
use hetero_paged_infer.Prelude.Float.{F32, FloatOps, f32_zero}

pub record PhysicalBlockRef : Type 0 where
  pub block_idx : ℕ

pub record MemoryStats : Type 0 where
  pub total_blocks : ℕ
  pub used_blocks : ℕ
  pub free_blocks : ℕ
  pub num_sequences : ℕ

unfoldable pub utilization : FloatOps → MemoryStats → F32
utilization ops s =
    if s.total_blocks == 0
    then f32_zero
    else ops.div (ops.of_u32 s.used_blocks) (ops.of_u32 s.total_blocks)
