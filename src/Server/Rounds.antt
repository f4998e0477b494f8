-- ===== src/Server/Rounds.antt =====
-- src/server.rs, `engine_loop`: the rounds of the loop, one after another.
use hetero_paged_infer.Scheduler.{has_pending_work}
use hetero_paged_infer.Engine.Steps.{StepEvents}
use hetero_paged_infer.Engine.{InferenceEngine}
use hetero_paged_infer.SeqMap.{remove}
use hetero_paged_infer.Engine.Accounts.{both_branches}
use hetero_paged_infer.Error.{EngineError}
use hetero_paged_infer.Prelude.Results.{ok, err, Result}
use hetero_paged_infer.Pipeline.Executor.{Executor}
use hetero_paged_infer.Server.Delivery.{
  events_to, SilentAfterDone, dones_to, holders, Bounded-weaken, send_chunks-silent, chunks_then,
  more_submissions, inserted, removed, dispatch-Bounded, Bounded-append, Bounded-refl, Bounded,
}
use hetero_paged_infer.Server.Waiters.{send_chunks, Sent}
use hetero_paged_infer.Tokenizer.{Tokenizer}
use hetero_paged_infer.Prelude.Float.{FloatOps}
use hetero_paged_infer.Server.Loop.{
  await_first, admitted, stall_limit, admit_submission, deliver, round, watch, admit_each,
  step_round, give_up, cancel_each, Submission, Loop, Inputs,
}
use hetero_paged_infer.Prelude.{
  refl, ◌≤◌, arith, ◌≡◌, ℕ, ◌+◌, Bool, Option, none, some, List, [], ◌∷◌, ◌++◌,
}
use hetero_paged_infer.Prelude.Tests.{◌==◌, leb, if◌then◌else◌}

-- How many of the submissions come with the channel.
unfoldable pub submissions_of : ℕ → List Submission → ℕ
submissions_of channel [] = 0
submissions_of channel (s ∷ queue) =
    (if s.events == channel then 1 else 0) + submissions_of channel queue

abbrev pub awaited_of : ℕ → Option Submission → ℕ
awaited_of channel none = 0
awaited_of channel (some s) = if s.events == channel then 1 else 0

unfoldable pub inputs_of : ℕ → List Inputs → ℕ
inputs_of channel [] = 0
inputs_of channel (i ∷ is) =
    awaited_of channel i.awaited + submissions_of channel i.queued + inputs_of channel is

module _ {D S : Type 0} (ops : FloatOps) (tokenizer : Tokenizer D) (executor : Executor S) where
  -- The rounds until the inputs are used up, or the loop returns.
  abbrev pub next_rounds :
      (Loop D S → Sent × Loop D S) → Loop D S → Option (Sent × Loop D S) → Sent × Loop D S
  next_rounds k l none = ([], l)
  next_rounds k l (some (sent, l')) = let (more, l'') = k l' in (sent ++ more, l'')

  unfoldable pub rounds : List Inputs → Loop D S → Sent × Loop D S
  rounds [] l = ([], l)
  rounds (i ∷ is) l = next_rounds (λ l'. rounds is l') l (round ops tokenizer executor i l)

module _ (channel : ℕ) {D S : Type 0} where
  abbrev pub Writes : ℕ → Loop D S → Sent × Loop D S → Type 0
  Writes n l x = Bounded channel n l.waiters x.0 x.1.waiters

  cancel_each-Bounded :
      (ids : List ℕ) (l : Loop D S) → Bounded channel 0 l.waiters [] (cancel_each ids l).waiters
  unfolding cancel_each
  cancel_each-Bounded [] l = Bounded-refl channel l.waiters
  cancel_each-Bounded (id ∷ ids) l =
      Bounded-append channel 0 0 l.waiters (remove id l.waiters) _ [] []
        (removed channel l.waiters id) (cancel_each-Bounded ids _)

module _ {D S : Type 0} (channel : ℕ) (ops : FloatOps) (tokenizer : Tokenizer D)
    (executor : Executor S) where
  admitted-Bounded :
      (c : ℕ) (l : Loop D S) (r : Result EngineError (ℕ × ℕ) × InferenceEngine D S)
      → Bounded channel (if c == channel then 1 else 0) l.waiters [] (admitted c l r).waiters
  admitted-Bounded c l (ok (id, n), e) = inserted channel l.waiters id c
  admitted-Bounded c l (err x, e) = more_submissions channel l.waiters _

  admit_each-Bounded :
      (queue : List Submission) (l : Loop D S)
      → Bounded channel
          (submissions_of channel queue)
          l.waiters
          []
          (admit_each ops tokenizer executor queue l).waiters
  unfolding admit_each submissions_of admit_submission
  admit_each-Bounded [] l = Bounded-refl channel l.waiters
  admit_each-Bounded (s ∷ queue) l =
      Bounded-append channel _ _ l.waiters _ _ [] [] (admitted-Bounded s.events l _)
        (admit_each-Bounded queue _)

  deliver-Bounded :
      (is_open : ℕ → Bool) (r : Result EngineError StepEvents) (l : Loop D S)
      → let x = deliver ops tokenizer executor is_open r l in
        Bounded channel 0 l.waiters x.1 x.2.waiters
  unfolding deliver
  deliver-Bounded is_open (err x) l = Bounded-refl channel l.waiters
  deliver-Bounded is_open (ok events) l =
      let x = send_chunks is_open l.waiters 0 events.chunks in
      let l1 = cancel_each x.0 l in
      Bounded-append channel 0 0 l.waiters l1.waiters _ x.1 _
        (chunks_then channel l.waiters l1.waiters x.1
          (send_chunks-silent channel is_open l.waiters 0 events.chunks)
          (cancel_each-Bounded channel x.0 l))
        (dispatch-Bounded channel l1.waiters events.completed_requests)

  give_up-Bounded : (l : Loop D S) → Writes channel 0 l (give_up ops tokenizer executor l)
  unfolding give_up
  give_up-Bounded l = dispatch-Bounded channel l.waiters _

  watch-Bounded :
      (progressed : Bool) (l : Loop D S)
      → Writes channel 0 l (watch ops tokenizer executor progressed l)
  unfolding watch
  watch-Bounded progressed l =
      both_branches (Writes channel 0 l) progressed _ _ (Bounded-refl channel l.waiters) (
        both_branches (Writes channel 0 l) (leb stall_limit (l.idle_steps + 1)) _ _
          (give_up-Bounded _) (Bounded-refl channel l.waiters))

  step_round-Bounded :
      (is_open : ℕ → Bool) (l : Loop D S)
      → Writes channel 0 l (step_round ops tokenizer executor is_open l)
  unfolding step_round
  step_round-Bounded is_open l =
      Bounded-append channel 0 0 l.waiters _ _ _ _ (deliver-Bounded is_open _ _) (watch-Bounded _ _)

  abbrev Goes : ℕ → Loop D S → Option (Sent × Loop D S) → Type 0
  Goes n l none = Unit {0}
  Goes n l (some x) = Writes channel n l x

  queue-Bounded :
      (i : Inputs) (l : Loop D S)
      → let l1 = admit_each ops tokenizer executor i.queued l in
        Writes channel
          (submissions_of channel i.queued)
          l
          (step_round ops tokenizer executor i.is_open l1)
  queue-Bounded i l =
      let l1 = admit_each ops tokenizer executor i.queued l in
      let y = step_round ops tokenizer executor i.is_open l1 in
      Bounded-weaken channel (submissions_of channel i.queued + 0) _ l.waiters y.0 y.1.waiters
        (omega arith)
        (Bounded-append channel _ 0 l.waiters l1.waiters _ [] y.0 (admit_each-Bounded i.queued l)
          (step_round-Bounded i.is_open l1))

  await-Bounded :
      (i : Inputs) (l : Loop D S) (a : Option Submission)
      → Goes
          (awaited_of channel a + submissions_of channel i.queued)
          l
          (await_first ops tokenizer executor i l a)
  unfolding admit_submission
  await-Bounded i l none = tt
  await-Bounded i l (some s) =
      let l1 = admit_submission ops tokenizer executor s l in
      Bounded-append channel _ _ l.waiters l1.waiters _ [] _ (admitted-Bounded s.events l _)
        (queue-Bounded i l1)

  round-Bounded :
      (i : Inputs) (l : Loop D S)
      → Goes
          (awaited_of channel i.awaited + submissions_of channel i.queued)
          l
          (round ops tokenizer executor i l)
  unfolding round
  round-Bounded i l =
      let n = awaited_of channel i.awaited + submissions_of channel i.queued in
      both_branches (Goes n l) (has_pending_work l.engine.scheduler) _ _
        (Bounded-weaken channel (submissions_of channel i.queued) n l.waiters _ _ (omega arith)
          (queue-Bounded i l))
        (await-Bounded i l i.awaited)

  next-Bounded :
      (k : Loop D S → Sent × Loop D S) (n m : ℕ) (l : Loop D S) (o : Option (Sent × Loop D S))
      → Goes n l o
      → ((l' : Loop D S) → Writes channel m l' (k l'))
      → Writes channel (n + m) l (next_rounds ops tokenizer executor k l o)
  next-Bounded k n m l none g h = more_submissions channel l.waiters (n + m)
  next-Bounded k n m l (some (sent, l')) g h =
      Bounded-append channel n m l.waiters l'.waiters _ sent _ g (h l')

  rounds-Bounded :
      (is : List Inputs) (l : Loop D S)
      → Writes channel (inputs_of channel is) l (rounds ops tokenizer executor is l)
  unfolding rounds inputs_of
  rounds-Bounded [] l = Bounded-refl channel l.waiters
  rounds-Bounded (i ∷ is) l =
      next-Bounded _ _ (inputs_of channel is) l (round ops tokenizer executor i l)
        (round-Bounded i l) (rounds-Bounded is)

  -- From a loop without waiters, in any number of rounds, whatever is submitted and whichever clients
  -- go away: a channel that comes with at most one submission gets at most one result, and nothing
  -- after it; a channel that comes with none gets nothing.
  pub rounds-channel :
      (is : List Inputs) (l : Loop D S)
      → l.waiters ≡ []
      → inputs_of channel is ≤ 1
      → let sent = (rounds ops tokenizer executor is l).0 in
        (dones_to channel sent ≤ inputs_of channel is)
        × SilentAfterDone channel sent
        × (inputs_of channel is ≡ 0 → events_to channel sent ≡ 0)
  unfolding holders
  rounds-channel is l e h =
      let b = rounds-Bounded is l in
      let none_held : holders channel l.waiters ≡ 0 = rw e refl in
      (omega (arith, b.dones), b.last (omega (arith, h, none_held)), λ z. b.silent (omega arith))
