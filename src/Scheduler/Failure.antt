-- ===== src/Scheduler/Failure.antt =====
-- src/scheduler.rs, `fail_sequence`: the failure of a sequence that is waiting or running.
use hetero_paged_infer.Prelude.{ℕ, ◌+◌, ◌≤◌, ◌≡◌, refl, Option, none, some, List, [], ◌∷◌, arith}
use hetero_paged_infer.SeqMap.{lookup}
use hetero_paged_infer.Error.{Message}
use hetero_paged_infer.Types.Request.{failed}
use hetero_paged_infer.Scheduler.{
  Scheduler, PendingRequest, find_pending, end_decode, end_prefill, fail_sequence, with_state,
}
use hetero_paged_infer.Scheduler.Invariant.{
  Valid, present, pending_count, completed_count, table_blocks,
}
use hetero_paged_infer.KvCache.{PageTable}
use hetero_paged_infer.Scheduler.Leaving.{completed_count-push}
use hetero_paged_infer.Scheduler.Endings.{
  fail_sequence_cases, fail_sequence-Valid, places-fail_sequence,
}

find_pending-none :
    (seq_id : ℕ) (ps : List PendingRequest)
    → find_pending seq_id ps ≡ none
    → pending_count seq_id ps ≡ 0
unfolding find_pending
find_pending-none seq_id [] h = refl
find_pending-none seq_id (p ∷ ps) h = ground (arith, find_pending-none seq_id ps)

-- The places of a sequence that has not come to an end.
abbrev pub live : ℕ → Scheduler → ℕ
live i s =
    pending_count i s.pending_queue
    + present (lookup i s.prefill_sequences)
    + present (lookup i s.decode_sequences)

completed_once_more :
    (s : Scheduler) (seq_id : ℕ) (reason : Message)
    → 1 ≤ live seq_id s
    → completed_count seq_id (fail_sequence s seq_id reason).completed_requests
      ≡ completed_count seq_id s.completed_requests + 1
unfolding end_decode end_prefill
completed_once_more s i reason h =
    fail_sequence_cases
      (λ s'. completed_count i s'.completed_requests ≡ completed_count i s.completed_requests + 1) s
      i reason
      (λ q e. ground (
        arith,
        completed_count-push i i (with_state (failed reason) q.request) s.completed_requests,
      ))
      (λ q e. ground (
        arith,
        completed_count-push i i (with_state (failed reason) q.request) s.completed_requests,
      ))
      (λ p e. ground (
        arith,
        completed_count-push i i (with_state (failed reason) p.request) s.completed_requests,
      ))
      (λ e g f. absurd (ground (arith, find_pending-none i s.pending_queue f)))

no_table : (t : Option PageTable) → table_blocks t ≡ none → t ≡ none
no_table none h = refl
no_table (some t) h = cc

-- What is left of a sequence that failed: one completed request, and no block.
pub record Ended (seq_id : ℕ) (s : Scheduler) : Type 0 where
  pub completed_once : completed_count seq_id s.completed_requests ≡ 1
  pub nowhere_else : live seq_id s ≡ 0
  pub no_blocks : lookup seq_id s.kv_cache.page_tables ≡ none

-- In a valid scheduler, a sequence that is pending, in the prefill map or in the decode map, and is
-- made to fail, is completed exactly once, stands nowhere else, and holds no block of the KV cache.
pub fail_sequence-Ended :
    (s : Scheduler) (seq_id : ℕ) (reason : Message)
    → Valid s
    → 1 ≤ live seq_id s
    → Ended seq_id (fail_sequence s seq_id reason)
fail_sequence-Ended s i reason v h =
    let s' = fail_sequence s i reason in
    let v' = fail_sequence-Valid s i reason v in
    let once = completed_once_more s i reason h in
    let same = places-fail_sequence s i reason i in
    let gone : live i s' ≡ 0 = omega (arith, once, same, v.unique i, h) in
    record {
      completed_once = omega (arith, once, same, v.unique i, h);
      nowhere_else = gone;
      no_blocks = no_table (lookup i s'.kv_cache.page_tables) (ground (arith, v'.tables i, gone));
    }
