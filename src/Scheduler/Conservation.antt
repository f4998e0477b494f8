-- ===== src/Scheduler/Conservation.antt =====
-- src/scheduler.rs: the decode and prefill loops of `schedule`, and where the ids stand after
-- them.
use hetero_paged_infer.Prelude.{
  ℕ, ◌≡◌, refl, ◌∙◌, inl, inr, Bool, true, false, List, [], ◌∷◌, arith,
}
use hetero_paged_infer.Prelude.Tests.{if◌then◌else◌, Option-cases}
use hetero_paged_infer.Prelude.Results.{Result, ok, err}
use hetero_paged_infer.SeqMap.{lookup}
use hetero_paged_infer.Error.{Message, input_tokens_exceed, required_blocks_exceed}
use hetero_paged_infer.Config.{blocks_for_tokens}
use hetero_paged_infer.Scheduler.{
  Scheduler, end_decode, end_prefill, fail_sequence, grow_decode_sequence,
}
use hetero_paged_infer.Scheduler.Schedule.{
  Batch, with_scheduler, push_decode, push_prefill, decode_grown, decode_step, schedule_decodes,
  prefill_found, prefill_step, schedule_prefills,
}
use hetero_paged_infer.Scheduler.Invariant.{places, Valid}
use hetero_paged_infer.Scheduler.Endings.{
  fail_sequence_cases, places-fail_sequence, fail_sequence-Valid,
}
use hetero_paged_infer.Scheduler.Growth.{grow_cases, grow_unknown, places-grown}

-- The scheduler `s'` is valid, and holds the ids of `s` under the configuration of `s`.
pub record Keeps (s s' : Scheduler) : Type 0 where
  pub valid : Valid s'
  pub same_places : (i : ℕ) → places i s' ≡ places i s
  pub config : s'.config ≡ s.config
  pub next_seq_id : s'.next_seq_id ≡ s.next_seq_id

pub Keeps-refl : (s : Scheduler) → Valid s → Keeps s s
Keeps-refl s v = record { valid = v; same_places = λ i. refl; config = refl; next_seq_id = refl }

pub Keeps-trans : (s t u : Scheduler) → Keeps s t → Keeps t u → Keeps s u
Keeps-trans s t u h k = record {
  valid = k.valid;
  same_places = λ i. k.same_places i ∙ h.same_places i;
  config = k.config ∙ h.config;
  next_seq_id = k.next_seq_id ∙ h.next_seq_id;
}

pub fail_sequence-Keeps :
    (s : Scheduler) (seq_id : ℕ) (reason : Message)
    → Valid s
    → Keeps s (fail_sequence s seq_id reason)
unfolding end_decode end_prefill
fail_sequence-Keeps s seq_id reason v = record {
  valid = fail_sequence-Valid s seq_id reason v;
  same_places = places-fail_sequence s seq_id reason;
  config =
      fail_sequence_cases (λ s'. s'.config ≡ s.config) s seq_id reason (λ q e. refl) (λ q e. refl)
        (λ p e. refl) (λ e g h. refl);
  next_seq_id =
      fail_sequence_cases (λ s'. s'.next_seq_id ≡ s.next_seq_id) s seq_id reason (λ q e. refl)
        (λ q e. refl) (λ p e. refl) (λ e g h. refl);
}

push_decode-scheduler : (b : Batch) (seq_id : ℕ) → (push_decode b seq_id).scheduler ≡ b.scheduler
unfolding push_decode
push_decode-scheduler b seq_id = ground arith

pub push_prefill-scheduler :
    (b : Batch) (seq_id tokens : ℕ) → (push_prefill b seq_id tokens).scheduler ≡ b.scheduler
unfolding push_prefill
push_prefill-scheduler b seq_id tokens = ground arith

-- The decode loop.
grow-Keeps : (s : Scheduler) (seq_id : ℕ) → Valid s → Keeps s (grow_decode_sequence s seq_id).1
grow-Keeps s seq_id v = elim (Option-cases (lookup seq_id s.decode_sequences)) [
  | inl e ↦ rw (grow_unknown s seq_id e) (Keeps-refl s v)
  | inr (q, e) ↦
      grow_cases s seq_id q v e (λ r s'. Keeps s s') (Keeps-refl s v)
        (λ b w. record {
          valid = w;
          same_places = places-grown s seq_id q v e b;
          config = refl;
          next_seq_id = refl;
        })
        (Keeps-refl s v)
]

decode_grown-Keeps :
    (b : Batch) (seq_id : ℕ) (r : Result Message (Unit {0})) (s : Scheduler)
    → Valid s
    → Keeps s (decode_grown b seq_id r s).scheduler
unfolding decode_grown
decode_grown-Keeps b seq_id (ok _) s v =
    rw (push_decode-scheduler (with_scheduler b s) seq_id) (Keeps-refl s v)
decode_grown-Keeps b seq_id (err reason) s v = fail_sequence-Keeps s seq_id reason v

pub decode_step-Keeps :
    (b : Batch) (seq_id : ℕ)
    → Valid b.scheduler
    → Keeps b.scheduler (decode_step b seq_id).scheduler
unfolding decode_step
decode_step-Keeps b seq_id v =
    let g = grow-Keeps b.scheduler seq_id v in
    Keeps-trans b.scheduler (grow_decode_sequence b.scheduler seq_id).1 _ g
      (decode_grown-Keeps b seq_id (grow_decode_sequence b.scheduler seq_id).0 _ g.valid)

pub if-Keeps :
    (s : Scheduler) (t : Bool) (x y : Batch)
    → Keeps s x.scheduler
    → Keeps s y.scheduler
    → Keeps s (if t then x else y).scheduler
if-Keeps s true x y h k = h
if-Keeps s false x y h k = k

pub schedule_decodes-Keeps :
    (b : Batch) (ids : List ℕ)
    → Valid b.scheduler
    → Keeps b.scheduler (schedule_decodes b ids).scheduler
unfolding schedule_decodes
schedule_decodes-Keeps b [] v = Keeps-refl b.scheduler v
schedule_decodes-Keeps b (seq_id ∷ ids) v =
    let k = decode_step-Keeps b seq_id v in
    let rest =
      Keeps-trans b.scheduler _ _ k (schedule_decodes-Keeps (decode_step b seq_id) ids k.valid) in
    if-Keeps b.scheduler _ b _ (Keeps-refl b.scheduler v)
      (if-Keeps b.scheduler _ b _ (Keeps-refl b.scheduler v) rest)

-- The prefill loop.
prefill_found-Keeps :
    (b : Batch) (seq_id tokens : ℕ)
    → Valid b.scheduler
    → Keeps b.scheduler (prefill_found b seq_id tokens).scheduler
unfolding prefill_found
prefill_found-Keeps b seq_id tokens v =
    let c = b.scheduler.config in
    ground (
      arith,
      Keeps-refl b.scheduler v,
      push_prefill-scheduler b seq_id tokens,
      fail_sequence-Keeps b.scheduler seq_id (input_tokens_exceed tokens c.max_total_tokens) v,
      fail_sequence-Keeps b.scheduler seq_id
          (required_blocks_exceed (blocks_for_tokens c tokens) c.max_num_blocks) v,
    )

pub prefill_step-Keeps :
    (b : Batch) (seq_id : ℕ)
    → Valid b.scheduler
    → Keeps b.scheduler (prefill_step b seq_id).scheduler
unfolding prefill_step
prefill_step-Keeps b seq_id v = elim (Option-cases (lookup seq_id b.scheduler.prefill_sequences)) [
  | inl e ↦ rw (e, prefill_step) (Keeps-refl b.scheduler v)
  | inr (q, e) ↦ rw (e, prefill_step) (prefill_found-Keeps b seq_id _ v)
]

pub schedule_prefills-Keeps :
    (b : Batch) (ids : List ℕ)
    → Valid b.scheduler
    → Keeps b.scheduler (schedule_prefills b ids).scheduler
unfolding schedule_prefills
schedule_prefills-Keeps b [] v = Keeps-refl b.scheduler v
schedule_prefills-Keeps b (seq_id ∷ ids) v =
    let k = prefill_step-Keeps b seq_id v in
    if-Keeps b.scheduler _ b _ (Keeps-refl b.scheduler v)
      (Keeps-trans b.scheduler _ _ k (schedule_prefills-Keeps (prefill_step b seq_id) ids k.valid))
