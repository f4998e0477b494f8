-- ===== src/Server/Loop.antt =====
-- src/server.rs, `engine_loop`: one round of the loop as a function of what it receives. The copy of
-- the engine's metrics that a round leaves for `/metrics` is left out.
use Prim.Native.String.{String}
use hetero_paged_infer.Prelude.{ℕ, ◌+◌, Bool, false, ◌||◌, Option, none, some, List, [], ◌∷◌, ◌++◌}
use hetero_paged_infer.Prelude.Tests.{ltb, leb, if◌then◌else◌}
use hetero_paged_infer.Prelude.Words.{to_u32}
use hetero_paged_infer.Prelude.Lists.{length}
use hetero_paged_infer.Prelude.Float.{FloatOps}
use hetero_paged_infer.Prelude.Results.{Result, ok, err}
use hetero_paged_infer.SeqMap.{SeqMap, insert, remove}
use hetero_paged_infer.Error.{EngineError, text}
use hetero_paged_infer.Types.Request.{GenerationParams, CompletedRequest}
use hetero_paged_infer.Scheduler.{has_pending_work, num_active_sequences}
use hetero_paged_infer.Scheduler.Requests.{cancel_by_request_id, fail_pending_requests}
use hetero_paged_infer.Pipeline.Executor.{Executor}
use hetero_paged_infer.Tokenizer.{Tokenizer}
use hetero_paged_infer.Engine.{InferenceEngine, submit_request}
use hetero_paged_infer.Engine.Collection.{collect_completed_requests}
use hetero_paged_infer.Engine.Steps.{StepEvents, step_events}
use hetero_paged_infer.Server.Waiters.{Sent, send_chunks, dispatch_completed}

-- `events` is the channel of the sender that comes with the submission.
pub record Submission : Type 0 where
  pub prompt : String
  pub params : GenerationParams
  pub events : ℕ

-- The variables of the loop.
pub record Loop (D S : Type 0) : Type 0 where
  pub engine : InferenceEngine D S
  pub waiters : SeqMap ℕ
  pub idle_steps : ℕ

-- What a round receives: the submission it waits for, those that are queued, and for each send of a
-- chunk whether the client is still there.
pub record Inputs : Type 0 where
  pub awaited : Option Submission
  pub queued : List Submission
  pub is_open : ℕ → Bool

abbrev pub stall_limit : ℕ
stall_limit = 100

abbrev pub stall_reason : String
stall_reason = "request 因 KV 预算/块不足永远无法启动"

module _ {D S : Type 0} where
  -- The waiters after an answer of the engine.
  abbrev pub admitted : ℕ → Loop D S → Result EngineError (ℕ × ℕ) × InferenceEngine D S → Loop D S
  admitted channel l (ok (request_id, prompt_tokens), e) = record l {
    engine = e;
    waiters = insert request_id channel l.waiters;
  }
  admitted channel l (err x, e) = record l { engine = e }

  -- The loop over `disconnected`.
  unfoldable pub cancel_each : List ℕ → Loop D S → Loop D S
  cancel_each [] l = l
  cancel_each (request_id ∷ ids) l = cancel_each ids (record l {
    waiters = remove request_id l.waiters;
    engine = record l.engine { scheduler = (cancel_by_request_id l.engine.scheduler request_id).1 };
  })

  abbrev pub dispatched : List CompletedRequest → Loop D S → Sent × Loop D S
  dispatched completed l =
      let (sent, waiters) = dispatch_completed l.waiters completed in
      (sent, record l { waiters = waiters })

module _ {D S : Type 0} (ops : FloatOps) (tokenizer : Tokenizer D) (executor : Executor S) where
  unfoldable pub admit_submission : Submission → Loop D S → Loop D S
  admit_submission s l =
      admitted s.events l (submit_request ops tokenizer executor l.engine s.prompt s.params)

  unfoldable pub admit_each : List Submission → Loop D S → Loop D S
  admit_each [] l = l
  admit_each (s ∷ queue) l = admit_each queue (admit_submission s l)

  -- `progressed`, what is sent, and the state after the events of a step.
  unfoldable pub deliver :
      (ℕ → Bool) → Result EngineError StepEvents → Loop D S → Bool × Sent × Loop D S
  deliver is_open (err x) l = (false, [], l)
  deliver is_open (ok events) l =
      let (gone, chunks) = send_chunks is_open l.waiters 0 events.chunks in
      let (results, l') = dispatched events.completed_requests (cancel_each gone l) in
      (
        ltb 0 (length events.completed_requests)
            || ltb 0 (length events.chunks)
            || ltb 0 (to_u32 (num_active_sequences l'.engine.scheduler)),
        chunks ++ results,
        l',
      )

  -- The pending requests that can never start are failed, and handed out.
  unfoldable pub give_up : Loop D S → Sent × Loop D S
  give_up l =
      let s = (fail_pending_requests l.engine.scheduler (text stall_reason)).1 in
      let ((stalled, tails), e) =
        collect_completed_requests tokenizer executor (record l.engine { scheduler = s }) in
      dispatched stalled (record l { engine = e; idle_steps = 0 })

  unfoldable pub watch : Bool → Loop D S → Sent × Loop D S
  watch progressed l =
      let idle = l.idle_steps + 1 in
      if progressed
      then ([], record l { idle_steps = 0 })
      else if leb stall_limit idle
      then give_up (record l { idle_steps = idle })
      else ([], record l { idle_steps = idle })

  unfoldable pub step_round : (ℕ → Bool) → Loop D S → Sent × Loop D S
  step_round is_open l =
      let (r, e) = step_events ops tokenizer executor l.engine in
      let (progressed, sent, l') = deliver is_open r (record l { engine = e }) in
      let (more, l'') = watch progressed l' in (sent ++ more, l'')

  -- `submit_rx.recv()`; `none` where every submitter is gone, and the loop returns.
  abbrev pub await_first : Inputs → Loop D S → Option Submission → Option (Sent × Loop D S)
  await_first i l none = none
  await_first i l (some s) =
      some (step_round i.is_open (admit_each i.queued (admit_submission s l)))

  unfoldable pub round : Inputs → Loop D S → Option (Sent × Loop D S)
  round i l =
      if has_pending_work l.engine.scheduler
      then some (step_round i.is_open (admit_each i.queued l))
      else await_first i l i.awaited
