-- ===== src/Scheduler/Admission.antt =====
-- The third part of `schedule`, over the pending queue, and the whole of `schedule`.
use mathlib.Core.Path.{subst}
use hetero_paged_infer.Prelude.{ℕ, zero, suc, ◌≡◌, refl, sym, List, [], ◌∷◌, arith}
use hetero_paged_infer.Prelude.Lists.{length}
use hetero_paged_infer.Prelude.Sort.{count-sort_by}
use hetero_paged_infer.Prelude.Float.{FloatOps}
use hetero_paged_infer.Scheduler.{update_memory_pressure, Scheduler, PendingRequest}
use hetero_paged_infer.Scheduler.Schedule.{
  prefill_candidates, pending_le, schedule_prefills, decode_seq_ids, empty_batch, schedule_decodes,
  schedule_batch, sort_pending, start_prefills, schedule, Batch, pending_step, pop_pending,
  schedule_pending,
}
use hetero_paged_infer.Scheduler.Invariant.{Valid}
use hetero_paged_infer.Scheduler.Leaving.{Valid-resp}
use hetero_paged_infer.Scheduler.Conservation.{
  schedule_prefills-Keeps, schedule_decodes-Keeps, Keeps, Keeps-refl, Keeps-trans,
}
use hetero_paged_infer.Scheduler.Waiting.{pending_step-Keeps}

pub schedule_pending-suc :
    (ops : FloatOps) (n : ℕ) (b : Batch) (p : PendingRequest) (rest : List PendingRequest)
    → b.scheduler.pending_queue ≡ p ∷ rest
    → schedule_pending ops (suc n) b
      ≡ schedule_pending ops n (pending_step ops (pop_pending b rest) p)
unfolding schedule_pending
schedule_pending-suc ops n b p rest e = ground arith

pub schedule_pending-nil :
    (ops : FloatOps) (n : ℕ) (b : Batch)
    → b.scheduler.pending_queue ≡ []
    → schedule_pending ops (suc n) b ≡ b
unfolding schedule_pending
schedule_pending-nil ops n b e = ground arith

schedule_pending-Keeps :
    (ops : FloatOps) (n : ℕ) (b : Batch)
    → Valid b.scheduler
    → Keeps b.scheduler (schedule_pending ops n b).scheduler
schedule_pending-Keeps ops zero b v = unfold schedule_pending in Keeps-refl b.scheduler v
schedule_pending-Keeps ops (suc n) b v =
    go b.scheduler.pending_queue refl (λ b' v'. schedule_pending-Keeps ops n b' v')
  where
    go :
        (queue : List PendingRequest)
        → b.scheduler.pending_queue ≡ queue
        → ((b' : Batch)
            → Valid b'.scheduler
            → Keeps b'.scheduler (schedule_pending ops n b').scheduler)
        → Keeps b.scheduler (schedule_pending ops (suc n) b).scheduler
    go [] e ih = rw (schedule_pending-nil ops n b e) (Keeps-refl b.scheduler v)
    go (p ∷ rest) e ih =
        let k = pending_step-Keeps b p rest v e ops in
        subst (λ r. Keeps b.scheduler r.scheduler) (sym (schedule_pending-suc ops n b p rest e))
          (Keeps-trans b.scheduler _ _ k (ih (pending_step ops (pop_pending b rest) p) k.valid))

pub sort_pending-Keeps :
    (b : Batch) → Valid b.scheduler → Keeps b.scheduler (sort_pending b).scheduler
unfolding sort_pending
sort_pending-Keeps b v =
    let same = λ (i : ℕ).
      count-sort_by pending_le (λ (p : PendingRequest). p.seq_id) i b.scheduler.pending_queue in
    record {
      valid = Valid-resp b.scheduler _ (λ i. omega (arith, same i)) refl refl refl refl refl v;
      same_places = λ i. omega (arith, same i);
      config = refl;
      next_seq_id = refl;
    }

start_prefills-Keeps :
    (ops : FloatOps) (b : Batch)
    → Valid b.scheduler
    → Keeps b.scheduler (start_prefills ops b).scheduler
unfolding start_prefills
start_prefills-Keeps ops b v =
    let k = sort_pending-Keeps b v in
    let n = length b.scheduler.pending_queue in
    ground (
      arith,
      Keeps-refl b.scheduler v,
      Keeps-trans b.scheduler _ _ k (schedule_pending-Keeps ops n (sort_pending b) k.valid),
    )

pub pressure-Keeps :
    (ops : FloatOps) (s : Scheduler) → Valid s → Keeps s (update_memory_pressure ops s)
unfolding update_memory_pressure
pressure-Keeps ops s v = record {
  valid = Valid-resp s _ (λ i. refl) refl refl refl refl refl v;
  same_places = λ i. refl;
  config = refl;
  next_seq_id = refl;
}

-- From a valid scheduler `schedule` gives a valid scheduler, with the same configuration and the
-- same next id, in which every sequence id stands in as many places (pending, prefill, decode,
-- completed) as before: no request is lost and none is duplicated.
pub schedule-Keeps : (ops : FloatOps) (s : Scheduler) → Valid s → Keeps s (schedule ops s).1
unfolding schedule schedule_batch
schedule-Keeps ops s v =
    let k = pressure-Keeps ops s v in
    let s1 = update_memory_pressure ops s in
    let b1 = schedule_decodes (empty_batch s1) (decode_seq_ids s1) in
    let k1 = schedule_decodes-Keeps (empty_batch s1) (decode_seq_ids s1) k.valid in
    let b2 = schedule_prefills b1 (prefill_candidates b1.scheduler) in
    let k2 = schedule_prefills-Keeps b1 (prefill_candidates b1.scheduler) k1.valid in
    Keeps-trans s s1 _ k (
      Keeps-trans s1 b1.scheduler _ k1
        (Keeps-trans b1.scheduler b2.scheduler _ k2 (start_prefills-Keeps ops b2 k2.valid)))
