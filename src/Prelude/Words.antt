-- ===== src/Prelude/Words.antt =====
-- Rust's fixed-width unsigned arithmetic on the native numbers. Values stay plain numbers.
use Prim.Native.Nat.{ℕ, ◌+◌, ◌-◌, ◌%◌}
use hetero_paged_infer.Prelude.Tests.{leb, if◌then◌else◌}

-- 2 ^ 32 and 2 ^ 64
abbrev pub u32_mod : ℕ
u32_mod = 4294967296

abbrev pub u32_max : ℕ
u32_max = 4294967295

abbrev pub u64_mod : ℕ
u64_mod = 18446744073709551616

-- `x as u32`
abbrev pub to_u32 : ℕ → ℕ
to_u32 n = n % u32_mod

-- `a + 1` on u32 and u64, with the wrap-around of a release build
abbrev pub succ_u32 : ℕ → ℕ
succ_u32 n = (n + 1) % u32_mod

abbrev pub succ_u64 : ℕ → ℕ
succ_u64 n = (n + 1) % u64_mod

-- `a - b` on u32, with the wrap-around of a release build
abbrev pub sub_u32 : ℕ → ℕ → ℕ
sub_u32 a b = (a + u32_mod - b) % u32_mod

-- `a.saturating_add(b)`
abbrev pub saturating_add : ℕ → ℕ → ℕ
saturating_add a b = if leb (a + b) u32_max then a + b else u32_max

-- `a.saturating_sub(b)`, which is the subtraction of ℕ
abbrev pub saturating_sub : ℕ → ℕ → ℕ
saturating_sub a b = a - b
