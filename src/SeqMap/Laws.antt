-- ===== src/SeqMap/Laws.antt =====
-- What a lookup sees after each change of a map.
use mathlib.Core.Option
use hetero_paged_infer.Prelude.{ℕ, ◌+◌, ◌≡◌, refl, none, some, [], ◌∷◌, arith}
use hetero_paged_infer.Prelude.Tests.{◌==◌, if◌then◌else◌}
use hetero_paged_infer.Prelude.Lists.{length}
use hetero_paged_infer.SeqMap.{SeqMap, lookup, insert, remove, modify}

module _ {ℓ} {V : Type ℓ} where
  pub lookup-insert :
      (j k : ℕ) (v : V) (m : SeqMap V)
      → lookup j (insert k v m) ≡ (if k == j then some v else lookup j m)
  unfolding lookup insert
  lookup-insert j k v [] = refl
  lookup-insert j k v ((i, w) ∷ m) = ground (arith, lookup-insert j k v m)

  pub lookup-remove :
      (j k : ℕ) (m : SeqMap V) → lookup j (remove k m) ≡ (if k == j then none else lookup j m)
  unfolding lookup remove
  lookup-remove j k [] = ground arith
  lookup-remove j k ((i, w) ∷ m) = ground (arith, lookup-remove j k m)

  pub lookup-modify :
      (j k : ℕ) (f : V → V) (m : SeqMap V)
      → lookup j (modify k f m) ≡ (if k == j then Option.map f (lookup j m) else lookup j m)
  unfolding lookup modify
  lookup-modify j k f [] = ground arith
  lookup-modify j k f ((i, w) ∷ m) = ground (arith, lookup-modify j k f m)

  -- The size of a map after the insertion of a new key, and after the removal of none.
  pub length-insert :
      (k : ℕ) (v : V) (m : SeqMap V) → lookup k m ≡ none → length (insert k v m) ≡ length m + 1
  unfolding lookup insert
  length-insert k v [] h = refl
  length-insert k v ((i, w) ∷ m) h = ground (arith, length-insert k v m)
