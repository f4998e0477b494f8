-- ===== src/Scheduler/Order.antt =====
-- The order in which `schedule` looks at the sequences and the pending requests.
use mathlib.Core.List.{Perm}
use hetero_paged_infer.Prelude.Tests.{Bool-cases, ltb}
use hetero_paged_infer.Prelude.{
  refl, ℕ, ◌≡◌, ◌<◌, ◌≤◌, ◌⊎◌, inl, inr, ◌∙◌, [], ◌∷◌, Bool, none, some, true, false, List, arith,
}
use hetero_paged_infer.Prelude.Sort.{sort_by, IsSorted, AllLe, sort_by-perm, IsSorted-sort_by}
use hetero_paged_infer.SeqMap.{SeqMap, keys, lookup}
use hetero_paged_infer.Types.Sequences.{Sequence}
use hetero_paged_infer.Scheduler.{Scheduler, PendingRequest}
use hetero_paged_infer.Scheduler.Schedule.{
  Batch, key_le, priority_of, id_le, pending_le, decode_seq_ids, prefill_candidates, sort_pending,
}

key_le_trans : (a b c : ℕ × ℕ) → key_le a b ≡ true → key_le b c ≡ true → key_le a c ≡ true
unfolding key_le
key_le_trans a b c h k = ground arith

key_le_total : (a b : ℕ × ℕ) → key_le a b ≡ false → key_le b a ≡ true
unfolding key_le
key_le_total a b h = ground arith

-- Each element is related to every later one.
abbrev pub AllAfter : {A : Type 0} → (A → A → Type 0) → A → List A → Type 0
AllAfter R x [] = Unit {0}
AllAfter R x (y ∷ ys) = R x y × AllAfter R x ys

abbrev pub Pairwise : {A : Type 0} → (A → A → Type 0) → List A → Type 0
Pairwise R [] = Unit {0}
Pairwise R (x ∷ xs) = AllAfter R x xs × Pairwise R xs

-- `(priority, id)` may stand before another: its priority is higher, or the same and its id is not
-- larger.
abbrev pub Ahead : ℕ × ℕ → ℕ × ℕ → Type 0
Ahead (p, i) (q, j) = (q < p) ⊎ ((p ≡ q) × (i ≤ j))

-- The priority and the id of the sequence that `m` has at `i`.
abbrev pub rank_in : SeqMap Sequence → ℕ → ℕ × ℕ
rank_in m i = (elim (lookup i m) [ none ↦ 0 | some q ↦ q.request.params.priority ], i)

abbrev pub rank : PendingRequest → ℕ × ℕ
rank p = (p.request.params.priority, p.seq_id)

-- `ids` holds the keys of `m`, by the priority of their sequences from the highest and then by id.
pub record InOrder (m : SeqMap Sequence) (ids : List ℕ) : Type 0 where
  pub ordered : Pairwise (λ i j. Ahead (rank_in m i) (rank_in m j)) ids
  pub same_ids : Perm ids (keys m)

key_le-Ahead : (a b : ℕ × ℕ) → key_le a b ≡ true → Ahead a b
unfolding key_le
key_le-Ahead (p, i) (q, j) h = elim (Bool-cases (ltb q p)) [
  | inl f ↦ inl (ground (arith, f))
  | inr f ↦ inr (ground (arith, f, h), ground (arith, f, h))
]

AllLe-AllAfter :
    {A : Type 0} (le : A → A → Bool) (R : A → A → Type 0)
    → ((x y : A) → le x y ≡ true → R x y)
    → (x : A) (ys : List A) → AllLe le x ys
    → AllAfter R x ys
AllLe-AllAfter le R f x [] h = tt
AllLe-AllAfter le R f x (y ∷ ys) (h, hs) = (f x y h, AllLe-AllAfter le R f x ys hs)

IsSorted-Pairwise :
    {A : Type 0} (le : A → A → Bool) (R : A → A → Type 0)
    → ((x y : A) → le x y ≡ true → R x y)
    → (xs : List A) → IsSorted le xs
    → Pairwise R xs
IsSorted-Pairwise le R f [] h = tt
IsSorted-Pairwise le R f (x ∷ xs) (h, hs) =
    (AllLe-AllAfter le R f x xs h, IsSorted-Pairwise le R f xs hs)

-- A list sorted by keys that `key_le` compares.
sorted_by_key :
    {A : Type 0} (key : A → ℕ × ℕ) (le : A → A → Bool) (xs : List A)
    → ((x y : A) → le x y ≡ key_le (key x) (key y))
    → Pairwise (λ x y. Ahead (key x) (key y)) (sort_by le xs)
sorted_by_key key le xs same =
    IsSorted-Pairwise le _ (λ x y h. key_le-Ahead (key x) (key y) (cc (h, same x y))) _
      (IsSorted-sort_by le
        (λ x y z h k.
          same x z ∙ key_le_trans (key x) (key y) (key z) (cc (h, same x y)) (cc (k, same y z)))
        (λ x y h. same y x ∙ key_le_total (key x) (key y) (cc (h, same x y))) xs)

sorted_keys : (m : SeqMap Sequence) → InOrder m (sort_by (id_le m) (keys m))
unfolding id_le priority_of
sorted_keys m = record {
  ordered = sorted_by_key (rank_in m) (id_le m) (keys m) (λ i j. refl);
  same_ids = sort_by-perm (id_le m) (keys m);
}

-- The list of the decode sequences that `schedule` goes through, and that of the running prompts,
-- each hold every id of their map as often as the map does: a sequence of a higher priority stands
-- before one of a lower, and at the same priority the smaller id stands first. The pending queue is
-- put into the same order before it is scanned, and is a permutation of the requests that it held,
-- each with its id.
pub schedule_order :
    (s : Scheduler) (b : Batch)
    → InOrder s.decode_sequences (decode_seq_ids s)
      × InOrder s.prefill_sequences (prefill_candidates s)
      × Pairwise (λ p q. Ahead (rank p) (rank q)) (sort_pending b).scheduler.pending_queue
      × Perm (sort_pending b).scheduler.pending_queue b.scheduler.pending_queue
unfolding decode_seq_ids prefill_candidates sort_pending pending_le
schedule_order s b = (
  sorted_keys s.decode_sequences,
  sorted_keys s.prefill_sequences,
  sorted_by_key rank pending_le b.scheduler.pending_queue (λ p q. refl),
  sort_by-perm pending_le b.scheduler.pending_queue,
)
