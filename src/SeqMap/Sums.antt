-- ===== src/SeqMap/Sums.antt =====
-- Sums over the values of a map, and the order of its keys, on which the sum of a removal rests.
use hetero_paged_infer.Prelude.{ℕ, ◌+◌, ◌≤◌, ◌<◌, ◌≡◌, refl, Option, none, some, [], ◌∷◌, arith}
use hetero_paged_infer.SeqMap.{SeqMap, lookup, insert, remove, modify}

module _ {ℓ} {V : Type ℓ} where
  -- Every key lies above `k`.
  abbrev pub Above : ℕ → SeqMap V → Type 0
  Above k [] = Unit
  Above k ((j, v) ∷ m) = (k < j) × Above k m

  -- The keys rise.
  abbrev pub IsMap : SeqMap V → Type 0
  IsMap [] = Unit
  IsMap ((k, v) ∷ m) = Above k m × IsMap m

  Above-trans : (i k : ℕ) (m : SeqMap V) → i < k → Above k m → Above i m
  Above-trans i k [] h a = tt
  Above-trans i k ((j, v) ∷ m) h a = (omega arith, Above-trans i k m h a.1)

  Above-insert : (i k : ℕ) (v : V) (m : SeqMap V) → i < k → Above i m → Above i (insert k v m)
  unfolding insert
  Above-insert i k v [] h a = (h, tt)
  Above-insert i k v ((j, w) ∷ m) h a = ground (arith, Above-insert i k v m h a.1)

  Above-remove : (i k : ℕ) (m : SeqMap V) → Above i m → Above i (remove k m)
  unfolding remove
  Above-remove i k [] a = tt
  Above-remove i k ((j, w) ∷ m) a = ground (arith, Above-remove i k m a.1)

  Above-modify : (i k : ℕ) (f : V → V) (m : SeqMap V) → Above i m → Above i (modify k f m)
  unfolding modify
  Above-modify i k f [] a = tt
  Above-modify i k f ((j, w) ∷ m) a = ground (arith, Above-modify i k f m a.1)

  pub IsMap-insert : (k : ℕ) (v : V) (m : SeqMap V) → IsMap m → IsMap (insert k v m)
  unfolding insert
  IsMap-insert k v [] s = (tt, tt)
  IsMap-insert k v ((j, w) ∷ m) s = ground (
    arith,
    IsMap-insert k v m s.1,
    λ (h : k < j). Above-trans k j m h s.0,
    λ (h : j < k). Above-insert j k v m h s.0,
  )

  pub IsMap-remove : (k : ℕ) (m : SeqMap V) → IsMap m → IsMap (remove k m)
  unfolding remove
  IsMap-remove k [] s = tt
  IsMap-remove k ((j, w) ∷ m) s = ground (arith, IsMap-remove k m s.1, Above-remove j k m s.0)

  pub IsMap-modify : (k : ℕ) (f : V → V) (m : SeqMap V) → IsMap m → IsMap (modify k f m)
  unfolding modify
  IsMap-modify k f [] s = tt
  IsMap-modify k f ((j, w) ∷ m) s = ground (arith, IsMap-modify k f m s.1, Above-modify j k f m s.0)

module _ {ℓ} {V : Type ℓ} (f : V → ℕ) where
  abbrev pub sum_map : SeqMap V → ℕ
  sum_map [] = 0
  sum_map ((k, v) ∷ m) = f v + sum_map m

  abbrev pub at_key : Option V → ℕ
  at_key none = 0
  at_key (some v) = f v

  pub sum_map-insert :
      (k : ℕ) (v : V) (m : SeqMap V) → lookup k m ≡ none → sum_map (insert k v m) ≡ f v + sum_map m
  unfolding lookup insert
  sum_map-insert k v [] h = refl
  sum_map-insert k v ((j, w) ∷ m) h = ground (arith, sum_map-insert k v m)

  pub lookup-Above : (i k : ℕ) (m : SeqMap V) → Above k m → i ≤ k → lookup i m ≡ none
  unfolding lookup
  lookup-Above i k [] a h = refl
  lookup-Above i k ((j, v) ∷ m) a h = ground (arith, lookup-Above i k m a.1 h)

  pub sum_map-remove :
      (k : ℕ) (m : SeqMap V) → IsMap m → sum_map (remove k m) + at_key (lookup k m) ≡ sum_map m
  unfolding lookup remove
  sum_map-remove k [] s = refl
  sum_map-remove k ((j, w) ∷ m) s =
      ground (arith, sum_map-remove k m s.1, λ (h : k ≤ j). lookup-Above k j m s.0 h)

  pub sum_map-modify :
      (k : ℕ) (g : V → V) (v : V) (m : SeqMap V)
      → lookup k m ≡ some v
      → sum_map (modify k g m) + f v ≡ sum_map m + f (g v)
  unfolding lookup modify
  sum_map-modify k g v [] h = cc
  sum_map-modify k g v ((j, w) ∷ m) h = ground (arith, sum_map-modify k g v m)
