-- ===== src/Prelude/Sort.antt =====
-- Rust's stable `sort_by_key`, as an insertion sort: elements with equal keys keep their order.
use Prim.Native.Nat.{ℕ, ◌+◌}
use mathlib.Core.Path.{◌≡◌, refl}
use mathlib.Core.Bool.{Bool, true, false}
use mathlib.Core.List.{List, [], ◌∷◌, map, Perm}
use mathlib.Core.List.Perm
use mathlib.Core.Logic.{inl, inr}
use native.Mathlib.Omega.{arith}
use hetero_paged_infer.Prelude.Tests.{if◌then◌else◌, ◌==◌, Bool-cases}
use hetero_paged_infer.Prelude.Lists.{count}

-- `le x y`: the key of `x` is at most the key of `y`.
module _ {ℓ} {A : Type ℓ} (le : A → A → Bool) where
  unfoldable pub insert_sorted : A → List A → List A
  insert_sorted x [] = x ∷ []
  insert_sorted x (y ∷ ys) = if le x y then x ∷ y ∷ ys else y ∷ insert_sorted x ys

  unfoldable pub sort_by : List A → List A
  unfolding insert_sorted
  sort_by [] = []
  sort_by (x ∷ xs) = insert_sorted x (sort_by xs)

  -- The first element is at most every later one.
  abbrev pub AllLe : A → List A → Type 0
  AllLe x [] = Unit
  AllLe x (y ∷ ys) = (le x y ≡ true) × AllLe x ys

  abbrev pub IsSorted : List A → Type 0
  IsSorted [] = Unit
  IsSorted (x ∷ xs) = AllLe x xs × IsSorted xs

module _ {ℓ} {A : Type ℓ} (le : A → A → Bool) (key : A → ℕ) (a : ℕ) where
  count-insert_sorted :
      (x : A) (ys : List A)
      → count a (map key (insert_sorted le x ys))
        ≡ (if key x == a then 1 else 0) + count a (map key ys)
  unfolding insert_sorted
  count-insert_sorted x [] = refl
  count-insert_sorted x (y ∷ ys) = ground (arith, count-insert_sorted x ys)

  -- Sorting loses no element and adds none.
  pub count-sort_by : (xs : List A) → count a (map key (sort_by le xs)) ≡ count a (map key xs)
  unfolding sort_by
  count-sort_by [] = refl
  count-sort_by (x ∷ xs) = omega (arith, count-insert_sorted x (sort_by le xs), count-sort_by xs)

module _ {ℓ} {A : Type ℓ} (le : A → A → Bool) where
  insert_sorted-perm : (x : A) (ys : List A) → Perm (insert_sorted le x ys) (x ∷ ys)
  unfolding insert_sorted
  insert_sorted-perm x [] = Perm.refl (x ∷ [])
  insert_sorted-perm x (y ∷ ys) = elim (Bool-cases (le x y)) [
    | inl f ↦ rw f (Perm.refl (x ∷ y ∷ ys))
    | inr f ↦ rw f (Perm.trans (Perm.cons y (insert_sorted-perm x ys)) (Perm.swap x y ys))
  ]

  -- A sorted list is a permutation of the list that was sorted.
  pub sort_by-perm : (xs : List A) → Perm (sort_by le xs) xs
  unfolding sort_by
  sort_by-perm [] = Perm.refl []
  sort_by-perm (x ∷ xs) =
      Perm.trans (insert_sorted-perm x (sort_by le xs)) (Perm.cons x (sort_by-perm xs))

module _ {ℓ} {A : Type ℓ} (le : A → A → Bool)
    (trans : (x y z : A) → le x y ≡ true → le y z ≡ true → le x z ≡ true)
    (total : (x y : A) → le x y ≡ false → le y x ≡ true) where
  AllLe-trans : (x y : A) (zs : List A) → le x y ≡ true → AllLe le y zs → AllLe le x zs
  AllLe-trans x y [] h a = tt
  AllLe-trans x y (z ∷ zs) h a = (trans x y z h a.0, AllLe-trans x y zs h a.1)

  AllLe-insert_sorted :
      (y x : A) (zs : List A) → le y x ≡ true → AllLe le y zs → AllLe le y (insert_sorted le x zs)
  unfolding insert_sorted
  AllLe-insert_sorted y x [] h a = (h, tt)
  AllLe-insert_sorted y x (z ∷ zs) h a = ground (arith, AllLe-insert_sorted y x zs h a.1)

  IsSorted-insert_sorted :
      (x : A) (ys : List A) → IsSorted le ys → IsSorted le (insert_sorted le x ys)
  unfolding insert_sorted
  IsSorted-insert_sorted x [] s = (tt, tt)
  IsSorted-insert_sorted x (y ∷ ys) s = ground (
    arith,
    total x y,
    IsSorted-insert_sorted x ys s.1,
    λ (h : le x y ≡ true). AllLe-trans x y ys h s.0,
    λ (h : le y x ≡ true). AllLe-insert_sorted y x ys h s.0,
  )

  pub IsSorted-sort_by : (xs : List A) → IsSorted le (sort_by le xs)
  unfolding sort_by
  IsSorted-sort_by [] = tt
  IsSorted-sort_by (x ∷ xs) = IsSorted-insert_sorted x (sort_by le xs) (IsSorted-sort_by xs)
