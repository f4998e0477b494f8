-- ===== src/Scheduler/Bounds.antt =====
-- src/scheduler.rs, `schedule`: the limits of a batch in the decode loop.
use hetero_paged_infer.Scheduler.Conservation.{decode_step-Keeps}
use hetero_paged_infer.Scheduler.Invariant.{Valid}
use hetero_paged_infer.Prelude.Tests.{Option-cases}
use hetero_paged_infer.Prelude.{
  inr, inl, some, ℕ, ◌+◌, ◌≤◌, ◌<◌, ◌≡◌, ◌∙◌, List, [], ◌∷◌, ◌++◌, arith,
}
use hetero_paged_infer.Prelude.Words.{u32_mod, u32_max, to_u32, saturating_add}
use hetero_paged_infer.Prelude.Lists.{length, length-append}
use hetero_paged_infer.Types.Sequences.{Sequence, num_sequences}
use hetero_paged_infer.Config.{EngineConfig}
use hetero_paged_infer.Scheduler.{grow_decode_sequence, err, ok, Message, lookup, Result, Scheduler}
use hetero_paged_infer.Scheduler.Schedule.{
  Batch, with_scheduler, push_decode, push_prefill, decode_grown, decode_step, schedule_decodes,
}

-- The prompt tokens of the prefills.
abbrev pub prefill_tokens : List Sequence → ℕ
prefill_tokens [] = 0
prefill_tokens (q ∷ qs) = to_u32 (length q.request.input_tokens) + prefill_tokens qs

-- The counters of a batch are exact and within the limits of the configuration `c`.
pub record InLimits (c : EngineConfig) (b : Batch) : Type 0 where
  pub sequences : b.num_sequences ≡ num_sequences b.output
  pub sequences_le : b.num_sequences ≤ c.max_batch_size
  pub tokens :
      b.total_tokens ≡ length b.output.decode_sequences + prefill_tokens b.output.prefill_sequences
  pub tokens_le : b.total_tokens ≤ c.max_total_tokens

prefill_tokens-append :
    (qs : List Sequence) (q : Sequence)
    → prefill_tokens (qs ++ q ∷ []) ≡ prefill_tokens qs + to_u32 (length q.request.input_tokens)
prefill_tokens-append [] q = omega arith
prefill_tokens-append (x ∷ qs) q = omega (arith, prefill_tokens-append qs q)

module _ (c : EngineConfig) (small : c.max_batch_size < u32_mod)
    (small' : c.max_total_tokens < u32_max) where
  push_decode-InLimits :
      (b : Batch) (seq_id : ℕ)
      → b.num_sequences < c.max_batch_size
      → saturating_add b.total_tokens 1 ≤ c.max_total_tokens
      → InLimits c b
      → InLimits c (push_decode b seq_id)
  unfolding push_decode num_sequences
  push_decode-InLimits b seq_id h k l =
      elim (Option-cases (lookup seq_id b.scheduler.decode_sequences)) [
        | inl e ↦ rw (e, push_decode) l
        | inr (q, e) ↦
            rw (e, push_decode)
              (record {
                sequences = ground (arith, length-append b.output.decode_sequences (q ∷ []));
                sequences_le = ground arith;
                tokens = ground (arith, length-append b.output.decode_sequences (q ∷ []));
                tokens_le = ground arith;
              })
      ]

  pub push_prefill-InLimits :
      (b : Batch) (seq_id tokens : ℕ)
      → ((q : Sequence)
          → lookup seq_id b.scheduler.prefill_sequences ≡ some q
          → to_u32 (length q.request.input_tokens) ≡ tokens)
      → b.num_sequences < c.max_batch_size
      → saturating_add b.total_tokens tokens ≤ c.max_total_tokens
      → InLimits c b
      → InLimits c (push_prefill b seq_id tokens)
  unfolding push_prefill num_sequences
  push_prefill-InLimits b seq_id tokens exact h k l =
      elim (Option-cases (lookup seq_id b.scheduler.prefill_sequences)) [
        | inl e ↦ rw (e, push_prefill) l
        | inr (q, e) ↦
            rw (e, push_prefill)
              (record {
                sequences = ground (arith, length-append b.output.prefill_sequences (q ∷ []));
                sequences_le = ground arith;
                tokens =
                    ground (arith, exact q e, prefill_tokens-append b.output.prefill_sequences q);
                tokens_le = ground arith;
              })
      ]

  decode_grown-InLimits :
      (b : Batch) (seq_id : ℕ) (r : Result Message (Unit {0})) (s : Scheduler)
      → b.num_sequences < c.max_batch_size
      → saturating_add b.total_tokens 1 ≤ c.max_total_tokens
      → InLimits c b
      → InLimits c (decode_grown b seq_id r s)
  unfolding decode_grown
  decode_grown-InLimits b seq_id (ok _) s h k l =
      push_decode-InLimits (with_scheduler b s) seq_id h k (record {
        sequences = l.sequences;
        sequences_le = l.sequences_le;
        tokens = l.tokens;
        tokens_le = l.tokens_le;
      })
  decode_grown-InLimits b seq_id (err reason) s h k l = record {
    sequences = l.sequences;
    sequences_le = l.sequences_le;
    tokens = l.tokens;
    tokens_le = l.tokens_le;
  }

  pub schedule_decodes-InLimits :
      (b : Batch) (ids : List ℕ)
      → b.scheduler.config ≡ c
      → Valid b.scheduler
      → InLimits c b
      → InLimits c (schedule_decodes b ids)
  unfolding schedule_decodes
  schedule_decodes-InLimits b [] e v l = l
  schedule_decodes-InLimits b (seq_id ∷ ids) e v l =
      let k = decode_step-Keeps b seq_id v in
      ground (
        arith,
        λ (h : b.num_sequences < c.max_batch_size)
              (h' : saturating_add b.total_tokens 1 ≤ c.max_total_tokens).
            schedule_decodes-InLimits (decode_step b seq_id) ids (k.config ∙ e) k.valid (
              unfold decode_step in
              decode_grown-InLimits b seq_id (grow_decode_sequence b.scheduler seq_id).0
                (grow_decode_sequence b.scheduler seq_id).1 h h' l),
      )
