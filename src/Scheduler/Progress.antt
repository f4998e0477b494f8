-- ===== src/Scheduler/Progress.antt =====
-- src/scheduler.rs: `update_sequences` and the methods on request ids, and where the ids stand
-- after them.
use hetero_paged_infer.Prelude.Lists.{get_elem?}
use hetero_paged_infer.Scheduler.Leaving.{Valid-resp}
use hetero_paged_infer.Scheduler.Endings.{
  complete_sequence_cases, places-complete_sequence, complete_sequence-Valid,
}
use hetero_paged_infer.SeqMap.Laws.{lookup-modify}
use hetero_paged_infer.Prelude.Tests.{Option-cases}
use hetero_paged_infer.Scheduler.Invariant.{pending_count, completed_count, Valid}
use hetero_paged_infer.Error.{Message}
use hetero_paged_infer.Types.Execution.{ExecutionOutput}
use hetero_paged_infer.Types.Request.{TokenLogprobs}
use hetero_paged_infer.Scheduler.{
  PendingRequest, fail_sequence, transition_prefill_to_decode, modify, complete_sequence,
  end_prefill, Request, Scheduler, end_decode,
}
use hetero_paged_infer.Prelude.{ℕ, ◌+◌, ◌≡◌, refl, inl, inr, Option, List, [], ◌∷◌, ◌++◌, arith}
use hetero_paged_infer.Scheduler.Conservation.{Keeps, Keeps-refl, Keeps-trans, fail_sequence-Keeps}
use hetero_paged_infer.Scheduler.Growth.{
  transition-Valid, places-transition, modify_decode-Valid, modify_prefill-Valid,
}
use hetero_paged_infer.Scheduler.Update.{
  Updates, push_token, to_decode, record_token, update_step, update_loop, fail_all, complete_all,
  update_sequences,
}
use hetero_paged_infer.Scheduler.Requests.{
  active_values, stop_at, stop_sequence, fail_by_request_id, complete_by_stop_sequence,
  failed_pending, fail_pending_requests, find_sequence, live_seq_id,
}

pub complete_sequence-Keeps :
    (s : Scheduler) (seq_id : ℕ) → Valid s → Keeps s (complete_sequence s seq_id)
unfolding end_decode end_prefill
complete_sequence-Keeps s seq_id v = record {
  valid = complete_sequence-Valid s seq_id v;
  same_places = places-complete_sequence s seq_id;
  config =
      complete_sequence_cases (λ s'. s'.config ≡ s.config) s seq_id (λ q e. refl) (λ q e. refl)
        refl;
  next_seq_id =
      complete_sequence_cases (λ s'. s'.next_seq_id ≡ s.next_seq_id) s seq_id (λ q e. refl)
        (λ q e. refl) refl;
}

transition-Keeps :
    (s : Scheduler) (seq_id : ℕ) → Valid s → Keeps s (transition_prefill_to_decode s seq_id)
transition-Keeps s seq_id v = record {
  valid = transition-Valid s seq_id v;
  same_places = places-transition s seq_id v;
  config = unfold transition_prefill_to_decode in ground arith;
  next_seq_id = unfold transition_prefill_to_decode in ground arith;
}

to_decode-Keeps : (s : Scheduler) (seq_id : ℕ) → Valid s → Keeps s (to_decode s seq_id)
unfolding to_decode
to_decode-Keeps s seq_id v = ground (arith, transition-Keeps s seq_id v, Keeps-refl s v)

push_token-Keeps :
    (s : Scheduler) (seq_id token : ℕ) (lp : Option (Option TokenLogprobs))
    → Valid s
    → Keeps s
        (record s { decode_sequences = modify seq_id (push_token token lp) s.decode_sequences })
push_token-Keeps s seq_id token lp v = record {
  valid =
      modify_decode-Valid s seq_id (push_token token lp) (λ q. unfold push_token in refl)
        (λ q. unfold push_token in refl) v;
  same_places =
      λ i. ground (arith, lookup-modify i seq_id (push_token token lp) s.decode_sequences);
  config = refl;
  next_seq_id = refl;
}

record_token-Keeps :
    (eos seq_id token : ℕ) (lp : Option (Option TokenLogprobs)) (u : Updates) (s : Scheduler)
    → Valid s
    → Keeps s (record_token eos seq_id token lp u s).scheduler
unfolding record_token
record_token-Keeps eos seq_id token lp u s v =
    ground (arith, push_token-Keeps s seq_id token lp v, Keeps-refl s v)

update_step-Keeps :
    (out : ExecutionOutput) (eos i seq_id : ℕ) (u : Updates)
    → Valid u.scheduler
    → Keeps u.scheduler (update_step out eos i seq_id u).scheduler
update_step-Keeps out eos i seq_id u v = elim (Option-cases (get_elem? out.next_tokens i)) [
  | inl e ↦ unfold update_step in rw (e, update_step) (Keeps-refl u.scheduler v)
  | inr (token, e) ↦
      let k = to_decode-Keeps u.scheduler seq_id v in
      unfold update_step in
      rw (e, update_step)
        (Keeps-trans u.scheduler (to_decode u.scheduler seq_id) _ k (
          record_token-Keeps eos seq_id token (get_elem? out.logprobs i) u
            (to_decode u.scheduler seq_id) k.valid))
]

update_loop-Keeps :
    (out : ExecutionOutput) (eos i : ℕ) (ids : List ℕ) (u : Updates)
    → Valid u.scheduler
    → Keeps u.scheduler (update_loop out eos i ids u).scheduler
unfolding update_loop
update_loop-Keeps out eos i [] u v = Keeps-refl u.scheduler v
update_loop-Keeps out eos i (seq_id ∷ ids) u v =
    let k = update_step-Keeps out eos i seq_id u v in
    Keeps-trans u.scheduler _ _ k
      (update_loop-Keeps out eos (i + 1) ids (update_step out eos i seq_id u) k.valid)

fail_all-Keeps : (s : Scheduler) (fs : List (ℕ × Message)) → Valid s → Keeps s (fail_all s fs)
unfolding fail_all
fail_all-Keeps s [] v = Keeps-refl s v
fail_all-Keeps s ((seq_id, reason) ∷ fs) v =
    let k = fail_sequence-Keeps s seq_id reason v in
    Keeps-trans s _ _ k (fail_all-Keeps (fail_sequence s seq_id reason) fs k.valid)

complete_all-Keeps : (s : Scheduler) (ids : List ℕ) → Valid s → Keeps s (complete_all s ids)
unfolding complete_all
complete_all-Keeps s [] v = Keeps-refl s v
complete_all-Keeps s (seq_id ∷ ids) v =
    let k = complete_sequence-Keeps s seq_id v in
    Keeps-trans s _ _ k (complete_all-Keeps (complete_sequence s seq_id) ids k.valid)

-- Whatever a backend returns, also a malformed output, `update_sequences` keeps a valid scheduler
-- valid, with its configuration and its next id, and every sequence id stands in as many places
-- as before.
pub update_sequences-Keeps :
    (s : Scheduler) (out : ExecutionOutput) (eos : ℕ)
    → Valid s
    → Keeps s (update_sequences s out eos)
unfolding update_sequences
update_sequences-Keeps s out eos v =
    let u0 : Updates = record { scheduler = s; to_complete = []; to_fail = [] } in
    let u = update_loop out eos 0 out.seq_ids u0 in
    let k = update_loop-Keeps out eos 0 out.seq_ids u0 v in
    let k1 = fail_all-Keeps u.scheduler u.to_fail k.valid in
    Keeps-trans s u.scheduler _ k (
      Keeps-trans u.scheduler _ _ k1
        (complete_all-Keeps (fail_all u.scheduler u.to_fail) u.to_complete k1.valid))

pub fail_by_request_id-Keeps :
    (s : Scheduler) (id : ℕ) (reason : Message)
    → Valid s
    → Keeps s (fail_by_request_id s id reason).1
unfolding fail_by_request_id
fail_by_request_id-Keeps s id reason v = elim (Option-cases (live_seq_id s id)) [
  | inl e ↦ rw (e, fail_by_request_id) (Keeps-refl s v)
  | inr (seq_id, e) ↦ rw (e, fail_by_request_id) (fail_sequence-Keeps s seq_id reason v)
]

stop_sequence-Keeps :
    (s : Scheduler) (seq_id keep : ℕ) → Valid s → Keeps s (stop_sequence s seq_id keep)
unfolding stop_sequence
stop_sequence-Keeps s seq_id keep v = record {
  valid = ground (
    arith,
    modify_prefill-Valid s seq_id (stop_at keep) (λ q. unfold stop_at in refl)
        (λ q. unfold stop_at in refl) v,
    modify_decode-Valid s seq_id (stop_at keep) (λ q. unfold stop_at in refl)
        (λ q. unfold stop_at in refl) v,
  );
  same_places = λ i. ground (
    arith,
    lookup-modify i seq_id (stop_at keep) s.prefill_sequences,
    lookup-modify i seq_id (stop_at keep) s.decode_sequences,
  );
  config = ground arith;
  next_seq_id = ground arith;
}

pub complete_by_stop_sequence-Keeps :
    (s : Scheduler) (id keep : ℕ) → Valid s → Keeps s (complete_by_stop_sequence s id keep).1
unfolding complete_by_stop_sequence
complete_by_stop_sequence-Keeps s id keep v =
    elim (Option-cases (find_sequence id (active_values s))) [
      | inl e ↦ rw (e, complete_by_stop_sequence) (Keeps-refl s v)
      | inr (q, e) ↦
          let k = stop_sequence-Keeps s q.seq_id keep v in
          rw (e, complete_by_stop_sequence)
            (Keeps-trans s _ _ k
              (complete_sequence-Keeps (stop_sequence s q.seq_id keep) q.seq_id k.valid))
    ]

completed_count-failed_pending :
    (i : ℕ) (reason : Message) (rs : List (ℕ × Request)) (ps : List PendingRequest)
    → completed_count i (rs ++ failed_pending reason ps) ≡ completed_count i rs + pending_count i ps
unfolding failed_pending
completed_count-failed_pending i reason [] [] = refl
completed_count-failed_pending i reason [] (p ∷ ps) =
    omega (arith, completed_count-failed_pending i reason [] ps)
completed_count-failed_pending i reason (r ∷ rs) ps =
    omega (arith, completed_count-failed_pending i reason rs ps)

pub fail_pending_requests-Keeps :
    (s : Scheduler) (reason : Message) → Valid s → Keeps s (fail_pending_requests s reason).1
unfolding fail_pending_requests
fail_pending_requests-Keeps s reason v =
    let same =
      λ (i : ℕ). completed_count-failed_pending i reason s.completed_requests s.pending_queue in
    record {
      valid = Valid-resp s _ (λ i. omega (arith, same i)) refl refl refl refl refl v;
      same_places = λ i. omega (arith, same i);
      config = refl;
      next_seq_id = refl;
    }
