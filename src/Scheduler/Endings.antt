-- ===== src/Scheduler/Endings.antt =====
-- src/scheduler.rs: the cases of `fail_sequence` and `complete_sequence`.
use hetero_paged_infer.Prelude.{none, ℕ, ◌≡◌, refl, inl, inr, some, arith}
use hetero_paged_infer.Prelude.Tests.{Option-cases}
use hetero_paged_infer.SeqMap.{lookup}
use hetero_paged_infer.Error.{Message}
use hetero_paged_infer.Types.Request.{completed, failed}
use hetero_paged_infer.Types.Sequences.{Sequence}
use hetero_paged_infer.Scheduler.{
  Scheduler, PendingRequest, with_state, push_completed, end_decode, end_prefill, find_pending,
  remove_pending, complete_sequence, fail_pending, fail_sequence,
}
use hetero_paged_infer.Scheduler.Invariant.{places, Valid}
use hetero_paged_infer.Scheduler.Leaving.{
  completed_count-push, places-end_decode, places-end_prefill, end_decode-Valid, end_prefill-Valid,
  pending_count-remove, Valid-resp,
}

-- A failed request that has not started leaves the queue for the completed requests.
abbrev pub drop_pending : Scheduler → ℕ → Message → PendingRequest → Scheduler
drop_pending s seq_id reason p =
    push_completed seq_id (with_state (failed reason) p.request)
      (record s { pending_queue = remove_pending seq_id s.pending_queue })

module _ {ℓ} (P : Scheduler → Type ℓ) (s : Scheduler) (seq_id : ℕ) where
  -- The four cases of `fail_sequence`.
  pub fail_sequence_cases :
      (reason : Message)
      → ((q : Sequence)
          → lookup seq_id s.decode_sequences ≡ some q
          → P (end_decode s seq_id (failed reason) q))
      → ((q : Sequence)
          → lookup seq_id s.prefill_sequences ≡ some q
          → P (end_prefill s seq_id (failed reason) q))
      → ((p : PendingRequest)
          → find_pending seq_id s.pending_queue ≡ some p
          → P (drop_pending s seq_id reason p))
      → (lookup seq_id s.decode_sequences ≡ none
          → lookup seq_id s.prefill_sequences ≡ none
          → find_pending seq_id s.pending_queue ≡ none
          → P s)
      → P (fail_sequence s seq_id reason)
  unfolding fail_sequence fail_pending
  fail_sequence_cases reason d f w n = elim (Option-cases (lookup seq_id s.decode_sequences)) [
    | inr (q, e) ↦ rw (e, fail_sequence) (d q e)
    | inl e ↦ elim (Option-cases (lookup seq_id s.prefill_sequences)) [
      | inr (q, g) ↦ rw (e, fail_sequence) (rw g (f q g))
      | inl g ↦ elim (Option-cases (find_pending seq_id s.pending_queue)) [
        | inr (p, h) ↦ rw (e, fail_sequence) (rw g (rw (h, fail_pending) (w p h)))
        | inl h ↦ rw (e, fail_sequence) (rw g (rw (h, fail_pending) (n e g h)))
      ]
    ]
  ]

  -- The three cases of `complete_sequence`.
  pub complete_sequence_cases :
      ((q : Sequence)
        → lookup seq_id s.decode_sequences ≡ some q
        → P (end_decode s seq_id completed q))
      → ((q : Sequence)
          → lookup seq_id s.prefill_sequences ≡ some q
          → P (end_prefill s seq_id completed q))
      → P s
      → P (complete_sequence s seq_id)
  unfolding complete_sequence
  complete_sequence_cases d f n = elim (Option-cases (lookup seq_id s.decode_sequences)) [
    | inr (q, e) ↦ rw (e, complete_sequence) (d q e)
    | inl e ↦ elim (Option-cases (lookup seq_id s.prefill_sequences)) [
      | inr (q, g) ↦ rw (e, complete_sequence) (rw g (f q g))
      | inl g ↦ rw (e, complete_sequence) (rw g n)
    ]
  ]

places-drop_pending :
    (s : Scheduler) (seq_id : ℕ) (reason : Message) (p : PendingRequest)
    → find_pending seq_id s.pending_queue ≡ some p
    → (i : ℕ) → places i (drop_pending s seq_id reason p) ≡ places i s
places-drop_pending s seq_id reason p e i = omega (
  arith,
  pending_count-remove i seq_id s.pending_queue p e,
  completed_count-push i seq_id (with_state (failed reason) p.request) s.completed_requests,
)

module _ (s : Scheduler) (seq_id : ℕ) where
  pub places-fail_sequence :
      (reason : Message) (i : ℕ) → places i (fail_sequence s seq_id reason) ≡ places i s
  places-fail_sequence reason i =
      fail_sequence_cases (λ s'. places i s' ≡ places i s) s seq_id reason
        (λ q e. places-end_decode s seq_id (failed reason) q e i)
        (λ q e. places-end_prefill s seq_id (failed reason) q e i)
        (λ p e. places-drop_pending s seq_id reason p e i) (λ e g h. refl)

  pub fail_sequence-Valid : (reason : Message) → Valid s → Valid (fail_sequence s seq_id reason)
  fail_sequence-Valid reason v =
      fail_sequence_cases Valid s seq_id reason
        (λ q e. end_decode-Valid s seq_id (failed reason) q e v)
        (λ q e. end_prefill-Valid s seq_id (failed reason) q e v)
        (λ p e. Valid-resp s _ (places-drop_pending s seq_id reason p e) refl refl refl refl refl v)
        (λ e g h. v)

  pub places-complete_sequence : (i : ℕ) → places i (complete_sequence s seq_id) ≡ places i s
  places-complete_sequence i =
      complete_sequence_cases (λ s'. places i s' ≡ places i s) s seq_id
        (λ q e. places-end_decode s seq_id completed q e i)
        (λ q e. places-end_prefill s seq_id completed q e i) refl

  pub complete_sequence-Valid : Valid s → Valid (complete_sequence s seq_id)
  complete_sequence-Valid v =
      complete_sequence_cases Valid s seq_id (λ q e. end_decode-Valid s seq_id completed q e v)
        (λ q e. end_prefill-Valid s seq_id completed q e v) v
