-- ===== src/Server/Stall.antt =====
-- src/server.rs, `engine_loop`: the rounds without progress, and the requests that can never start.
use hetero_paged_infer.Engine.Accounts.{collect-scheduler}
use hetero_paged_infer.Prelude.Lists.{is_empty}
use hetero_paged_infer.SeqMap.Laws.{lookup-remove}
use hetero_paged_infer.Engine.{InferenceEngine}
use hetero_paged_infer.Server.Delivery.{dones_to-append, dones_to}
use hetero_paged_infer.Server.Loop.{stall_reason, stall_limit, Loop, give_up, watch}
use hetero_paged_infer.Engine.Collection.{
  completed_request, collect_each, collect_completed_requests,
}
use hetero_paged_infer.Error.{text, Message}
use hetero_paged_infer.Pipeline.Executor.{Executor}
use hetero_paged_infer.SeqMap.{remove, lookup, SeqMap}
use hetero_paged_infer.Prelude.Float.{FloatOps}
use hetero_paged_infer.Tokenizer.{Tokenizer}
use hetero_paged_infer.Server.Waiters.{Sent, send_done, dispatch_completed}
use hetero_paged_infer.Scheduler.Requests.{
  fail_pending_requests, take_completed_with_seq_ids, failed_pending,
}
use hetero_paged_infer.Scheduler.{Scheduler, PendingRequest}
use hetero_paged_infer.Types.Request.{Request, CompletedRequest}
use hetero_paged_infer.Prelude.{
  ap, ◌∙◌, refl, ℕ, ◌+◌, ◌≤◌, ◌≡◌, ◌∙◌, Bool, true, false, ◌||◌, some, List, [], ◌∷◌, ◌++◌, arith,
  inl, inr,
}
use hetero_paged_infer.Prelude.Tests.{◌==◌, leb, if◌then◌else◌, Bool-cases}

-- A result for the request is among these.
unfoldable pub reports : ℕ → List CompletedRequest → Bool
reports id [] = false
reports id (c ∷ cs) = c.request_id == id || reports id cs

unfoldable pub has_request : ℕ → List (ℕ × Request) → Bool
has_request id [] = false
has_request id ((i, r) ∷ rs) = r.id == id || has_request id rs

unfoldable pub is_pending : ℕ → List PendingRequest → Bool
is_pending id [] = false
is_pending id (p ∷ ps) = p.request.id == id || is_pending id ps

has_request-failed :
    (id : ℕ) (m : Message) (ps : List PendingRequest)
    → has_request id (failed_pending m ps) ≡ is_pending id ps
unfolding has_request failed_pending is_pending
has_request-failed id m [] = refl
has_request-failed id m (p ∷ ps) = rw (has_request-failed id m ps) refl

has_request-append :
    (id : ℕ) (rs qs : List (ℕ × Request))
    → has_request id qs ≡ true
    → has_request id (rs ++ qs) ≡ true
unfolding has_request
has_request-append id [] qs h = h
has_request-append id ((i, r) ∷ rs) qs h = ground (arith, has_request-append id rs qs h)

-- A result that is reported for a request with a waiter is sent to it.
dispatch-reports :
    (id channel : ℕ) (w : SeqMap ℕ) (cs : List CompletedRequest)
    → lookup id w ≡ some channel
    → reports id cs ≡ true
    → 1 ≤ dones_to channel (dispatch_completed w cs).0
unfolding dispatch_completed reports dones_to
dispatch-reports id channel w [] h r = cc
dispatch-reports id channel w (c ∷ cs) h r =
    let more =
      dones_to-append channel (send_done c (lookup c.request_id w))
        (dispatch_completed (remove c.request_id w) cs).0 in
    elim (Bool-cases (c.request_id == id)) [
      | inl e ↦
          let g : lookup c.request_id w ≡ some channel = ground arith in
          let d : dones_to channel (send_done c (lookup c.request_id w)) ≡ 1 =
            rw g (ground arith) in
          omega (arith, more, d)
      | inr e ↦
          let g : lookup id (remove c.request_id w) ≡ some channel =
            ground (arith, lookup-remove id c.request_id w) in
          omega
            (arith, more, dispatch-reports id channel (remove c.request_id w) cs g (ground arith))
    ]

module _ {D S : Type 0} (tokenizer : Tokenizer D) (executor : Executor S) where
  collect_each-reports :
      (id : ℕ) (rs : List (ℕ × Request)) (e : InferenceEngine D S)
      → reports id (collect_each tokenizer executor rs e).0.0 ≡ has_request id rs
  unfolding collect_each reports has_request completed_request
  collect_each-reports id [] e = refl
  collect_each-reports id ((i, r) ∷ rs) e = rw (collect_each-reports id rs _) refl

  done_reports :
      (id : ℕ) (done : List (ℕ × Request)) (e0 e1 : InferenceEngine D S)
      → has_request id done ≡ true
      → reports id
          (if is_empty done then (([], []), e0) else collect_each tokenizer executor done e1).0.0
        ≡ true
  unfolding has_request
  done_reports id [] e0 e1 h = cc
  done_reports id (d ∷ ds) e0 e1 h = collect_each-reports id (d ∷ ds) e1 ∙ h

  collect-reports :
      (id : ℕ) (e : InferenceEngine D S)
      → has_request id e.scheduler.completed_requests ≡ true
      → reports id (collect_completed_requests tokenizer executor e).0.0 ≡ true
  unfolding collect_completed_requests take_completed_with_seq_ids has_request
  collect-reports id e h = done_reports id e.scheduler.completed_requests _ _ h

-- The pending requests of `l` have been failed, and the clients that wait for them have been told.
pub record Stalled {D S : Type 0} (l : Loop D S) (x : Sent × Loop D S) : Type 0 where
  pub pending_queue : x.1.engine.scheduler.pending_queue ≡ []
  pub completed_requests : x.1.engine.scheduler.completed_requests ≡ []
  pub idle_steps : x.1.idle_steps ≡ 0
  pub informed :
      (id channel : ℕ)
      → lookup id l.waiters ≡ some channel
      → is_pending id l.engine.scheduler.pending_queue ≡ true
      → 1 ≤ dones_to channel x.0

module _ {D S : Type 0} (ops : FloatOps) (tokenizer : Tokenizer D) (executor : Executor S) where
  give_up-reports :
      (l : Loop D S) (id channel : ℕ)
      → lookup id l.waiters ≡ some channel
      → is_pending id l.engine.scheduler.pending_queue ≡ true
      → 1 ≤ dones_to channel (give_up ops tokenizer executor l).0
  unfolding give_up fail_pending_requests
  give_up-reports l id channel h p =
      let ps = l.engine.scheduler.pending_queue in
      let m = text stall_reason in
      let q =
        has_request-append id l.engine.scheduler.completed_requests (failed_pending m ps)
          (has_request-failed id m ps ∙ p) in
      dispatch-reports id channel l.waiters _ h (collect-reports tokenizer executor id _ q)

  give_up-Stalled : (l : Loop D S) → Stalled l (give_up ops tokenizer executor l)
  unfolding give_up fail_pending_requests take_completed_with_seq_ids
  give_up-Stalled l =
      let c = collect-scheduler tokenizer executor in
      record {
        pending_queue = ap (λ (s : Scheduler). s.pending_queue) (c _);
        completed_requests = ap (λ (s : Scheduler). s.completed_requests) (c _);
        idle_steps = refl;
        informed = give_up-reports l;
      }

  -- In the hundredth round in a row without progress, the pending queue is emptied, the requests that
  -- stood in it have their results sent to the clients that wait for them, no request that
  -- has come to an end is left in the scheduler, and the count starts again.
  pub watch-Stalled :
      (l : Loop D S)
      → stall_limit ≤ l.idle_steps + 1
      → let x = watch ops tokenizer executor false l in Stalled l x
  unfolding watch give_up
  watch-Stalled l h =
      let e : leb stall_limit (l.idle_steps + 1) ≡ true = ground arith in rw e (give_up-Stalled _)
