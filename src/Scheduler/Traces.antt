-- ===== src/Scheduler/Traces.antt =====
-- Any sequence of calls of the scheduler's methods, from a new scheduler.
use hetero_paged_infer.KvCache.PoolLaws.{length-new_pool}
use hetero_paged_infer.KvCache.Release.{KvValid-new}
use hetero_paged_infer.Error.{client_disconnected}
use hetero_paged_infer.Scheduler.Progress.{
  fail_pending_requests-Keeps, complete_by_stop_sequence-Keeps, fail_by_request_id-Keeps,
  update_sequences-Keeps,
}
use hetero_paged_infer.KvCache.Pool.{new_pool}
use hetero_paged_infer.Scheduler.Admission.{schedule-Keeps}
use hetero_paged_infer.Scheduler.Requests.{
  cancel_by_request_id, take_completed_with_seq_ids, get_completed,
}
use hetero_paged_infer.Config.{EngineConfig}
use hetero_paged_infer.Prelude.Float.{FloatOps}
use hetero_paged_infer.Scheduler.{
  fail_sequence, Message, update_memory_pressure, length, fail_sequences, push_pending,
  new_scheduler, Scheduler, add_request,
}
use hetero_paged_infer.KvCache.{new_manager}
use hetero_paged_infer.KvCache.Pool.{new_pool}
use hetero_paged_infer.SeqMap.{lookup}
use hetero_paged_infer.Prelude.{ℕ, ◌+◌, ◌≤◌, ◌<◌, ◌≡◌, refl, List, [], ◌∷◌, arith, ◌&&◌}
use hetero_paged_infer.Scheduler.Conservation.{fail_sequence-Keeps, Keeps, Keeps-refl, Keeps-trans}
use hetero_paged_infer.Scheduler.Invariant.{Valid, places, completed_count}
use hetero_paged_infer.Prelude.Words.{u64_mod, u32_mod}
use hetero_paged_infer.Prelude.Tests.{leb, ltb, if◌then◌else◌}
use hetero_paged_infer.Scheduler.Accounts.{
  adds, schedules, updates, cancels, fails, fails_all, stops, fails_pending, takes_completed,
  gets_completed, get-Accounted, fails_pending, stops, fails_all, fails, cancels, updates, adds,
  SchedulerCall, History, after, call, calls, start, Accounted, Keeps-Accounted,
  add_request-Accounted, take-Accounted,
}

-- What one call does: the ids stay accounted for, and at most one new id is given out.
record Called (h h' : History) : Type 0 where
  accounted : Accounted h'
  next_le : h'.scheduler.next_seq_id ≤ h.scheduler.next_seq_id + 1
  next_ge : h.scheduler.next_seq_id ≤ h'.scheduler.next_seq_id

Keeps-Called :
    (h : History) (s : Scheduler) → Keeps h.scheduler s → Accounted h → Called h (after h s)
Keeps-Called h s k a = record {
  accounted = Keeps-Accounted h s k a;
  next_le = omega (arith, k.next_seq_id);
  next_ge = omega (arith, k.next_seq_id);
}

pub fail_sequences-Keeps :
    (s : Scheduler) (ids : List ℕ) (reason : Message)
    → Valid s
    → Keeps s (fail_sequences s ids reason)
unfolding fail_sequences
fail_sequences-Keeps s [] reason v = Keeps-refl s v
fail_sequences-Keeps s (i ∷ ids) reason v =
    let k = fail_sequence-Keeps s i reason v in
    Keeps-trans s _ _ k (fail_sequences-Keeps (fail_sequence s i reason) ids reason k.valid)

call-Called :
    (ops : FloatOps) (h : History) (c : SchedulerCall)
    → Accounted h
    → 1 ≤ h.scheduler.next_seq_id
    → h.scheduler.next_seq_id + 1 < u64_mod
    → Called h (call ops h c)
call-Called ops h (adds r) a pos small =
    unfold call in
    record {
      accounted = add_request-Accounted ops h r a pos small;
      next_le = unfold add_request update_memory_pressure push_pending in ground arith;
      next_ge = unfold add_request update_memory_pressure push_pending in ground arith;
    }
call-Called ops h schedules a pos small =
    unfold call in Keeps-Called h _ (schedule-Keeps ops h.scheduler a.valid) a
call-Called ops h (updates out eos) a pos small =
    unfold call in Keeps-Called h _ (update_sequences-Keeps h.scheduler out eos a.valid) a
call-Called ops h (cancels id) a pos small =
    unfold call cancel_by_request_id in
    Keeps-Called h _ (fail_by_request_id-Keeps h.scheduler id client_disconnected a.valid) a
call-Called ops h (fails id reason) a pos small =
    unfold call in Keeps-Called h _ (fail_by_request_id-Keeps h.scheduler id reason a.valid) a
call-Called ops h (fails_all ids reason) a pos small =
    unfold call in Keeps-Called h _ (fail_sequences-Keeps h.scheduler ids reason a.valid) a
call-Called ops h (stops id keep) a pos small =
    unfold call in Keeps-Called h _ (complete_by_stop_sequence-Keeps h.scheduler id keep a.valid) a
call-Called ops h (fails_pending reason) a pos small =
    unfold call in Keeps-Called h _ (fail_pending_requests-Keeps h.scheduler reason a.valid) a
call-Called ops h takes_completed a pos small = record {
  accounted = take-Accounted ops h a;
  next_le = unfold call take_completed_with_seq_ids in omega arith;
  next_ge = unfold call take_completed_with_seq_ids in omega arith;
}
call-Called ops h gets_completed a pos small = record {
  accounted = get-Accounted ops h a;
  next_le = unfold call get_completed in omega arith;
  next_ge = unfold call get_completed in omega arith;
}

calls-Accounted :
    (ops : FloatOps) (h : History) (cs : List SchedulerCall)
    → Accounted h
    → 1 ≤ h.scheduler.next_seq_id
    → h.scheduler.next_seq_id + length cs < u64_mod
    → Accounted (calls ops h cs)
unfolding calls
calls-Accounted ops h [] a pos small = a
calls-Accounted ops h (c ∷ cs) a pos small =
    let x = call-Called ops h c a pos (omega arith) in
    calls-Accounted ops (call ops h c) cs x.accounted (omega (arith, x.next_ge))
      (omega (arith, x.next_le))

new-Accounted : (c : EngineConfig) → c.max_num_blocks < u32_mod → Accounted (start c)
unfolding new_scheduler new_manager new_pool lookup
new-Accounted c small = record {
  valid = record {
    unique = λ i. omega arith;
    fresh = λ i h. refl;
    tables = λ i. refl;
    prefill_named = λ i. tt;
    decode_named = λ i. tt;
    prefill_map = tt;
    decode_map = tt;
    kv = KvValid-new c.max_num_blocks c.block_size small;
    num_blocks = length-new_pool c.max_num_blocks c.block_size;
    block_size = refl;
  };
  once = λ i. ground arith;
}

-- From a new scheduler of fewer than 2 ^ 32 blocks, after any calls of its methods in any order
-- (fewer than 2 ^ 64 - 1 of them), and whatever the backend returned: each sequence id that was given out stands in exactly
-- one of the pending queue, the prefill map, the decode map, the completed requests and the
-- requests already taken, and no other id stands anywhere. No request is lost, duplicated or made
-- up.
pub every_request_once :
    (ops : FloatOps) (c : EngineConfig) (cs : List SchedulerCall) (i : ℕ)
    → c.max_num_blocks < u32_mod
    → 1 + length cs < u64_mod
    → let h = calls ops (start c) cs in
      places i h.scheduler + completed_count i h.taken
      ≡ (if leb 1 i && ltb i h.scheduler.next_seq_id then 1 else 0)
every_request_once ops c cs i small short =
    (calls-Accounted ops (start c) cs (new-Accounted c small) (unfold new_scheduler in omega arith)
        (unfold new_scheduler in omega arith)).once
      i

-- After any such calls the scheduler is valid: the page tables of the KV cache are exactly those of
-- the active sequences, with the same blocks, so that a finished sequence holds no block, and each
-- physical block is free or held by one sequence, never both.
pub scheduler-Valid :
    (ops : FloatOps) (c : EngineConfig) (cs : List SchedulerCall)
    → c.max_num_blocks < u32_mod
    → 1 + length cs < u64_mod
    → Valid (calls ops (start c) cs).scheduler
scheduler-Valid ops c cs small short =
    (calls-Accounted ops (start c) cs (new-Accounted c small) (unfold new_scheduler in omega arith)
      (unfold new_scheduler in omega arith)).valid
