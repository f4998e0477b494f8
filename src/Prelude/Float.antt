-- ===== src/Prelude/Float.antt =====
-- `f32`. A value is its bit pattern, `f32::to_bits`; the arithmetic is a parameter of the model.
-- The comparisons are IEEE's, so that each is false where a side is not a number.
use Prim.Native.Nat.{ℕ, ◌*◌, ◌/◌, min}
use mathlib.Core.Bool.{Bool, true}
use hetero_paged_infer.Prelude.Tests.{ltb, leb, ◌==◌}

abbrev pub F32 : Type 0
F32 = ℕ

-- 0.0, 0.9, 1.0 and 2.0
abbrev pub f32_zero : F32
f32_zero = 0

abbrev pub f32_nine_tenths : F32
f32_nine_tenths = 0x3f666666

abbrev pub f32_one : F32
f32_one = 0x3f800000

abbrev pub f32_two : F32
f32_two = 0x40000000

pub record FloatOps : Type 0 where
  -- `n as f32`, `x as u32`
  pub of_u32 : ℕ → F32
  pub as_u32 : F32 → ℕ
  pub div : F32 → F32 → F32
  pub mul : F32 → F32 → F32
  pub floor : F32 → F32
  pub is_finite : F32 → Bool
  -- `<`, `<=` and `==`
  pub lt : F32 → F32 → Bool
  pub le : F32 → F32 → Bool
  pub eq : F32 → F32 → Bool

-- An instance for runs: fixed-point numbers in units of 1 / 0x3f800000.
abbrev pub fixed_point : FloatOps
fixed_point = record {
  of_u32 = λ n. n * 0x3f800000;
  as_u32 = λ x. min (x / 0x3f800000) 4294967295;
  div = λ x y. x * 0x3f800000 / y;
  mul = λ x y. x * y / 0x3f800000;
  floor = λ x. x / 0x3f800000 * 0x3f800000;
  is_finite = λ x. true;
  lt = ltb;
  le = leb;
  eq = ◌==◌;
}
