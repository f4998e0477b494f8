-- ===== src/TinyLlm/Capacity.antt =====
-- src/tiny_llm_executor.rs: the capacities that are allocated before a step.
use hetero_paged_infer.SeqMap.Laws.{lookup-insert}
use hetero_paged_infer.TinyLlm.Backend.{
  checked_capacity, allocated_as, and_then, rest_lens, first_len, allocate_each, ensure_allocated,
}
use hetero_paged_infer.TinyLlm.{i32_add, i32_leb, to_u32, EngineError, TinyLlmExecutor, Library}
use hetero_paged_infer.SeqMap.{lookup, SeqMap}
use hetero_paged_infer.Prelude.{ℕ, ◌<◌, ◌≡◌, ap, true, none, some, List, [], ◌∷◌, arith, inl, inr}
use hetero_paged_infer.Prelude.Tests.{◌==◌, Bool-cases, Option-cases}
use hetero_paged_infer.Prelude.Results.{Result, ok, err}

-- Each key of `m` has the same value in `m'`.
abbrev pub Extends : SeqMap ℕ → SeqMap ℕ → Type 0
Extends m m' = (k c : ℕ) → lookup k m ≡ some c → lookup k m' ≡ some c

-- A capacity has been allocated for the sequence, and it passes the check of the code.
abbrev Passed : ℕ → ℕ → SeqMap ℕ → Type 0
Passed seq_id context_len m =
    (capacity : ℕ) × (lookup (to_u32 seq_id) m ≡ some capacity)
    × (i32_leb (i32_add (to_u32 context_len) 1) capacity ≡ true)

abbrev AllPassed : List ℕ → List ℕ → SeqMap ℕ → Type 0
AllPassed [] lens m = Unit {0}
AllPassed (seq_id ∷ ids) lens m =
    Passed seq_id (first_len lens) m × AllPassed ids (rest_lens lens) m

-- A capacity has been allocated for the sequence: more than its context, and not negative as an i32.
abbrev pub Covered : ℕ → ℕ → SeqMap ℕ → Type 0
Covered seq_id context_len m =
    (capacity : ℕ) × (lookup (to_u32 seq_id) m ≡ some capacity)
    × (context_len < capacity)
    × (i32_leb 0 capacity ≡ true)

abbrev pub AllCovered : List ℕ → List ℕ → SeqMap ℕ → Type 0
AllCovered [] lens m = Unit {0}
AllCovered (seq_id ∷ ids) lens m =
    Covered seq_id (first_len lens) m × AllCovered ids (rest_lens lens) m

-- The contexts of these sequences are below `i32::MAX`, so that one more token is an i32.
abbrev pub AllBelow : List ℕ → List ℕ → Type 0
AllBelow [] lens = Unit {0}
AllBelow (seq_id ∷ ids) lens = (first_len lens < 2147483647) × AllBelow ids (rest_lens lens)

-- Where one more token is an i32, the check compares the numbers themselves.
below_capacity : (n c : ℕ) → n < 2147483647 → i32_leb (i32_add (to_u32 n) 1) c ≡ true → n < c
below_capacity n c small h = ground (arith, small, h)

capacity_not_negative :
    (n c : ℕ) → n < 2147483647 → i32_leb (i32_add (to_u32 n) 1) c ≡ true → i32_leb 0 c ≡ true
capacity_not_negative n c small h = ground (arith, small, h)

AllPassed-AllCovered :
    (ids lens : List ℕ) (m : SeqMap ℕ)
    → AllBelow ids lens
    → AllPassed ids lens m
    → AllCovered ids lens m
AllPassed-AllCovered [] lens m b h = tt
AllPassed-AllCovered (i ∷ ids) lens m (b, bs) ((c, g, q), h) =
    let n = first_len lens in
    (
      (c, g, below_capacity n c b q, capacity_not_negative n c b q),
      AllPassed-AllCovered ids (rest_lens lens) m bs h,
    )

module _ {H : Type 0} (library : Library H) where
  abbrev Checked : Type 0
  Checked = Result EngineError (Unit {0}) × TinyLlmExecutor H

  abbrev Ensured : ℕ → SeqMap ℕ → Checked → Type 0
  Ensured id m (err e, y) = Unit {0}
  Ensured id m (ok t, y) =
      Extends m y.allocated × ((capacity : ℕ) × (lookup id y.allocated ≡ some capacity))

  abbrev First : ℕ → ℕ → SeqMap ℕ → Checked → Type 0
  First seq_id n m (err e, y) = Unit {0}
  First seq_id n m (ok t, y) = Extends m y.allocated × Passed seq_id n y.allocated

  abbrev Covers : List ℕ → List ℕ → SeqMap ℕ → Checked → Type 0
  Covers ids lens m (err e, y) = Unit {0}
  Covers ids lens m (ok t, y) = Extends m y.allocated × AllPassed ids lens y.allocated

  allocated_as-Ensured :
      (id tokens : ℕ) (r : ℕ × H) (x : TinyLlmExecutor H)
      → lookup id x.allocated ≡ none
      → Ensured id x.allocated (allocated_as library id tokens r x)
  allocated_as-Ensured id tokens (rc, h) x e = elim (Bool-cases (rc == 0)) [
    | inl f ↦ rw f (
      (λ k c g. ground (arith, lookup-insert k id tokens x.allocated)),
      (tokens, ground (arith, lookup-insert id id tokens x.allocated)),
    )
    | inr f ↦ rw f tt
  ]

  ensure_allocated-Ensured :
      (id n : ℕ) (x : TinyLlmExecutor H) → Ensured id x.allocated (ensure_allocated library id n x)
  unfolding ensure_allocated
  ensure_allocated-Ensured id n x = elim (Option-cases (lookup id x.allocated)) [
    | inl e ↦ rw e (allocated_as-Ensured id _ _ x e)
    | inr (c, e) ↦ rw e ((λ k d g. g), (c, e))
  ]

  checked_capacity-First :
      (seq_id n : ℕ) (m : SeqMap ℕ) (r : Checked)
      → Ensured (to_u32 seq_id) m r
      → First seq_id n m (checked_capacity library seq_id n r)
  checked_capacity-First seq_id n m (err e, y) h = tt
  checked_capacity-First seq_id n m (ok t, y) (f, (c, g)) =
      elim (Bool-cases (i32_leb (i32_add (to_u32 n) 1) c)) [
        | inl q ↦ rw (g, q) (f, (c, g, q))
        | inr q ↦ rw (g, q) tt
      ]

  AllPassed-Extends :
      (ids lens : List ℕ) (m m' : SeqMap ℕ)
      → Extends m m'
      → AllPassed ids lens m
      → AllPassed ids lens m'
  AllPassed-Extends [] lens m m' f h = tt
  AllPassed-Extends (i ∷ ids) lens m m' f ((c, g, q), h) =
      ((c, f _ c g, q), AllPassed-Extends ids (rest_lens lens) m m' f h)

  then-Covers :
      (seq_id : ℕ) (ids lens : List ℕ) (m m1 : SeqMap ℕ) (s : Checked)
      → Extends m m1
      → Passed seq_id (first_len lens) m1
      → Covers ids (rest_lens lens) m1 s
      → Covers (seq_id ∷ ids) lens m s
  then-Covers seq_id ids lens m m1 (err e, z) f g h = tt
  then-Covers seq_id ids lens m m1 (ok t, z) f (c, g, q) (k, h) =
      ((λ i d e. k i d (f i d e)), ((c, k _ c g, q), h))

  and_then-Covers :
      (seq_id : ℕ) (ids lens : List ℕ) (m : SeqMap ℕ) (k : TinyLlmExecutor H → Checked)
      (r : Checked)
      → First seq_id (first_len lens) m r
      → ((y : TinyLlmExecutor H) → Covers ids (rest_lens lens) y.allocated (k y))
      → Covers (seq_id ∷ ids) lens m (and_then library k r)
  and_then-Covers seq_id ids lens m k (err e, y) f h = tt
  and_then-Covers seq_id ids lens m k (ok t, y) (f, g) h =
      then-Covers seq_id ids lens m y.allocated (k y) f g (h y)

  allocate_each-Covers :
      (ids lens : List ℕ) (x : TinyLlmExecutor H)
      → Covers ids lens x.allocated (allocate_each library ids lens x)
  unfolding allocate_each
  allocate_each-Covers [] lens x = ((λ k c g. g), tt)
  allocate_each-Covers (i ∷ ids) lens x =
      and_then-Covers i ids lens x.allocated _ _
        (checked_capacity-First i (first_len lens) x.allocated _
          (ensure_allocated-Ensured (to_u32 i) (first_len lens) x))
        (λ y. allocate_each-Covers ids (rest_lens lens) y)

  of_Covers :
      (ids lens : List ℕ) (m : SeqMap ℕ) (r : Checked) (y : TinyLlmExecutor H)
      → Covers ids lens m r
      → r ≡ (ok tt, y)
      → Extends m y.allocated × AllPassed ids lens y.allocated
  of_Covers ids lens m (ok t, z) y h e =
      let same : z ≡ y = ap (λ (q : Checked). q.1) e in rw (← same) h
  of_Covers ids lens m (err x, z) y h e = let f : err x ≡ ok tt = ap (λ (q : Checked). q.0) e in cc

  -- Where the checks before a step pass and each context is below `i32::MAX`, each sequence of the
  -- batch has a capacity allocated that is larger than its context and not negative as an i32, and
  -- every capacity that was allocated before is unchanged.
  pub allocate_each-AllCovered :
      (ids lens : List ℕ) (x y : TinyLlmExecutor H)
      → AllBelow ids lens
      → allocate_each library ids lens x ≡ (ok tt, y)
      → Extends x.allocated y.allocated × AllCovered ids lens y.allocated
  allocate_each-AllCovered ids lens x y b e =
      let (f, h) = of_Covers ids lens x.allocated _ y (allocate_each-Covers ids lens x) e in
      (f, AllPassed-AllCovered ids lens y.allocated b h)
