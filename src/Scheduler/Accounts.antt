-- ===== src/Scheduler/Accounts.antt =====
-- The calls of the scheduler's methods, and where the ids that were given out stand.
use hetero_paged_infer.Scheduler.Admission.{pressure-Keeps}
use hetero_paged_infer.Scheduler.Update.{update_sequences}
use hetero_paged_infer.Scheduler.Leaving.{pending_count-push, completed_count-append}
use hetero_paged_infer.Scheduler.Schedule.{schedule}
use hetero_paged_infer.Types.Execution.{ExecutionOutput}
use hetero_paged_infer.Scheduler.Requests.{
  fail_pending_requests, complete_by_stop_sequence, fail_by_request_id, cancel_by_request_id,
  take_completed_with_seq_ids, get_completed,
}
use hetero_paged_infer.Config.{EngineConfig}
use hetero_paged_infer.Prelude.Float.{FloatOps}
use hetero_paged_infer.Scheduler.{
  Message, update_memory_pressure, fail_sequences, push_pending, new_scheduler, Scheduler,
  add_request,
}
use hetero_paged_infer.Types.Request.{Request}
use hetero_paged_infer.Prelude.{ℕ, ◌+◌, ◌≤◌, ◌<◌, ◌≡◌, List, [], ◌∷◌, ◌++◌, arith, ◌&&◌}
use hetero_paged_infer.Scheduler.Conservation.{Keeps}
use hetero_paged_infer.Scheduler.Invariant.{Valid, places, completed_count}
use hetero_paged_infer.Prelude.Words.{succ_u64, u64_mod}
use hetero_paged_infer.Prelude.Tests.{leb, ltb, if◌then◌else◌}

-- The methods that change a scheduler, with their arguments.
pub data SchedulerCall : Type 0 where
  adds : Request → SchedulerCall
  schedules : SchedulerCall
  updates : ExecutionOutput → ℕ → SchedulerCall
  cancels : ℕ → SchedulerCall
  fails : ℕ → Message → SchedulerCall
  fails_all : List ℕ → Message → SchedulerCall
  stops : ℕ → ℕ → SchedulerCall
  fails_pending : Message → SchedulerCall
  takes_completed : SchedulerCall
  gets_completed : SchedulerCall

-- A scheduler, and the requests that have been taken from it.
pub record History : Type 0 where
  pub scheduler : Scheduler
  pub taken : List (ℕ × Request)

abbrev pub after : History → Scheduler → History
after h s = record h { scheduler = s }

unfoldable pub call : FloatOps → History → SchedulerCall → History
call ops h (adds r) = after h (add_request ops h.scheduler r).1
call ops h schedules = after h (schedule ops h.scheduler).1
call ops h (updates out eos) = after h (update_sequences h.scheduler out eos)
call ops h (cancels id) = after h (cancel_by_request_id h.scheduler id).1
call ops h (fails id reason) = after h (fail_by_request_id h.scheduler id reason).1
call ops h (fails_all ids reason) = after h (fail_sequences h.scheduler ids reason)
call ops h (stops id keep) = after h (complete_by_stop_sequence h.scheduler id keep).1
call ops h (fails_pending reason) = after h (fail_pending_requests h.scheduler reason).1
call ops h takes_completed =
    let (done, s) = take_completed_with_seq_ids h.scheduler in
    record { scheduler = s; taken = h.taken ++ done }
-- `get_completed` returns the requests without their ids; the account keeps the ids.
call ops h gets_completed =
    let (requests, s) = get_completed h.scheduler in
    record { scheduler = s; taken = h.taken ++ h.scheduler.completed_requests }

unfoldable pub calls : FloatOps → History → List SchedulerCall → History
calls ops h [] = h
calls ops h (c ∷ cs) = calls ops (call ops h c) cs

abbrev pub start : EngineConfig → History
start c = record { scheduler = new_scheduler c; taken = [] }

-- Every id that was given out stands in one place: in the scheduler, or among the taken requests.
pub record Accounted (h : History) : Type 0 where
  pub valid : Valid h.scheduler
  pub once :
      (i : ℕ)
      → places i h.scheduler + completed_count i h.taken
        ≡ (if leb 1 i && ltb i h.scheduler.next_seq_id then 1 else 0)

pub Keeps-Accounted :
    (h : History) (s : Scheduler) → Keeps h.scheduler s → Accounted h → Accounted (after h s)
Keeps-Accounted h s k a = record {
  valid = k.valid;
  once = λ i. rw k.next_seq_id (omega (arith, k.same_places i, a.once i));
}

-- A new request: its id is fresh.
push_pending-Valid :
    (s : Scheduler) (r : Request)
    → Valid s
    → s.next_seq_id + 1 < u64_mod
    → Valid (push_pending s.next_seq_id r (record s { next_seq_id = succ_u64 s.next_seq_id }))
unfolding push_pending
push_pending-Valid s r v small =
    let more = λ (i : ℕ).
      pending_count-push i (record { seq_id = s.next_seq_id; request = r }) s.pending_queue in
    record {
      unique = λ i. ground (arith, more i, v.unique i, v.fresh i);
      fresh = λ i h. ground (arith, more i, v.fresh i);
      tables = v.tables;
      prefill_named = v.prefill_named;
      decode_named = v.decode_named;
      prefill_map = v.prefill_map;
      decode_map = v.decode_map;
      kv = v.kv;
      num_blocks = v.num_blocks;
      block_size = v.block_size;
    }

push_pending-Accounted :
    (h : History) (s : Scheduler) (r : Request)
    → Accounted (after h s)
    → 1 ≤ s.next_seq_id
    → s.next_seq_id + 1 < u64_mod
    → Accounted
        (after h (push_pending s.next_seq_id r (record s { next_seq_id = succ_u64 s.next_seq_id })))
push_pending-Accounted h s r a pos small = record {
  valid = push_pending-Valid s r a.valid small;
  once = λ i.
      unfold push_pending in
      ground (
        arith,
        pending_count-push i (record { seq_id = s.next_seq_id; request = r }) s.pending_queue,
        a.once i,
      );
}

pub add_request-Accounted :
    (ops : FloatOps) (h : History) (r : Request)
    → Accounted h
    → 1 ≤ h.scheduler.next_seq_id
    → h.scheduler.next_seq_id + 1 < u64_mod
    → Accounted (after h (add_request ops h.scheduler r).1)
unfolding add_request update_memory_pressure
add_request-Accounted ops h r a pos small =
    let s = update_memory_pressure ops h.scheduler in
    let a' = Keeps-Accounted h s (pressure-Keeps ops h.scheduler a.valid) a in
    ground (arith, a', push_pending-Accounted h s r a' pos small)

pub take-Valid : (s : Scheduler) → Valid s → Valid (take_completed_with_seq_ids s).1
unfolding take_completed_with_seq_ids
take-Valid s v = record {
  unique = λ i. omega (arith, v.unique i);
  fresh = λ i g. omega (arith, v.fresh i g);
  tables = v.tables;
  prefill_named = v.prefill_named;
  decode_named = v.decode_named;
  prefill_map = v.prefill_map;
  decode_map = v.decode_map;
  kv = v.kv;
  num_blocks = v.num_blocks;
  block_size = v.block_size;
}

pub take-Accounted :
    (ops : FloatOps) (h : History) → Accounted h → Accounted (call ops h takes_completed)
unfolding call take_completed_with_seq_ids
take-Accounted ops h a = record {
  valid = take-Valid h.scheduler a.valid;
  once =
      λ i. omega (arith, a.once i, completed_count-append i h.taken h.scheduler.completed_requests);
}

pub get-Accounted :
    (ops : FloatOps) (h : History) → Accounted h → Accounted (call ops h gets_completed)
unfolding call get_completed
get-Accounted ops h a = record {
  valid = unfold take_completed_with_seq_ids in take-Valid h.scheduler a.valid;
  once =
      λ i. omega (arith, a.once i, completed_count-append i h.taken h.scheduler.completed_requests);
}
