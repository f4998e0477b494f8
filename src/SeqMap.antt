-- ===== src/SeqMap.antt =====
-- The maps keyed by sequence ids: `HashMap<SeqId, _>` (src/kv_cache.rs) and
-- `BTreeMap<SeqId, _>` (src/scheduler.rs), as association lists in the order of their keys.
-- A BTreeMap iterates in that order; the code never iterates over the HashMap.
pub mod Laws
pub mod Sums
use hetero_paged_infer.Prelude.{ℕ, Bool, Option, none, some, List, [], ◌∷◌, map}
use hetero_paged_infer.Prelude.Tests.{ltb, ◌==◌, if◌then◌else◌, is_some}
use hetero_paged_infer.Prelude.Lists.{length}

abbrev pub SeqMap {ℓ} : Type ℓ → Type ℓ
SeqMap V = List (ℕ × V)

module _ {ℓ} {V : Type ℓ} where
  -- `map.get(&k)`
  unfoldable pub lookup : ℕ → SeqMap V → Option V
  lookup k [] = none
  lookup k ((j, v) ∷ m) = if j == k then some v else lookup k m

  -- `map.contains_key(&k)`
  abbrev pub contains_key : ℕ → SeqMap V → Bool
  contains_key k m = is_some (lookup k m)

  -- `map.insert(k, v)`
  unfoldable pub insert : ℕ → V → SeqMap V → SeqMap V
  insert k v [] = (k, v) ∷ []
  insert k v ((j, w) ∷ m) =
      if ltb k j then (k, v) ∷ (j, w) ∷ m else if j == k then (k, v) ∷ m else (j, w) ∷ insert k v m

  -- `map.remove(&k)`; the removed value is `lookup k m`
  unfoldable pub remove : ℕ → SeqMap V → SeqMap V
  remove k [] = []
  remove k ((j, v) ∷ m) = let rest = remove k m in if j == k then rest else (j, v) ∷ rest

  -- `map.get_mut(&k)` with an update of the value found
  unfoldable pub modify : ℕ → (V → V) → SeqMap V → SeqMap V
  modify k f [] = []
  modify k f ((j, v) ∷ m) =
      let rest = modify k f m in if j == k then (j, f v) ∷ m else (j, v) ∷ rest

  -- `map.keys()` and `map.values()`
  abbrev pub keys : SeqMap V → List ℕ
  keys = map (λ e. e.0)

  abbrev pub values : SeqMap V → List V
  values = map (λ e. e.1)
