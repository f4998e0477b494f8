-- ===== src/Scheduler/Limits.antt =====
-- src/scheduler.rs, `schedule`: the limits in the prefill and pending loops.
use hetero_paged_infer.SeqMap.Laws.{lookup-insert}
use hetero_paged_infer.Error.{exceed_watermark, required_blocks_exceed, input_tokens_exceed}
use hetero_paged_infer.Scheduler.Starting.{
  started_sequence_request, started, try_start_prefill_fits, try_start_prefill_full, prompt_tokens,
}
use hetero_paged_infer.Scheduler.Waiting.{popped_taken, popped-Valid, pending_step-Keeps}
use hetero_paged_infer.Scheduler.Admission.{
  schedule_pending-suc, pressure-Keeps, schedule_pending-nil, sort_pending-Keeps,
}
use hetero_paged_infer.Scheduler.Conservation.{
  schedule_prefills-Keeps, schedule_decodes-Keeps, prefill_step-Keeps,
}
use hetero_paged_infer.Scheduler.Invariant.{places, Valid}
use hetero_paged_infer.Prelude.Tests.{Option-cases}
use hetero_paged_infer.Prelude.Words.{saturating_add, to_u32, u32_max, u32_mod}
use hetero_paged_infer.Scheduler.{
  watermark, Sequence, Request, failed, with_state, push_completed, Message, try_start_prefill,
  fail_sequence, push_pending, lookup, length, update_memory_pressure, FloatOps, PendingRequest,
  Scheduler, started_sequence,
}
use hetero_paged_infer.Prelude.{
  ℕ, zero, suc, ◌+◌, ◌≤◌, ◌<◌, ◌≡◌, refl, sym, ◌∙◌, inl, inr, some, List, [], ◌∷◌, arith,
}
use mathlib.Core.Path.{subst}
use native.Mathlib.Decide.{dec_le}
use hetero_paged_infer.Types.Sequences.{num_sequences}
use hetero_paged_infer.KvCache
use hetero_paged_infer.Scheduler.Schedule.{
  prefill_candidates, pop_pending, decode_seq_ids, schedule_decodes, prefill_found, start_pending,
  sort_pending, prefill_started, pending_step, schedule_pending, start_prefills, schedule_prefills,
  prefill_step, schedule_batch, schedule, Batch, empty_batch, with_scheduler,
}
use hetero_paged_infer.Config.{EngineConfig, blocks_for_tokens}
use hetero_paged_infer.KvCache.{allocate_sequence}
use hetero_paged_infer.Scheduler.Bounds.{
  prefill_tokens, InLimits, push_prefill-InLimits, schedule_decodes-InLimits,
}

-- The counters of a batch whose scheduler alone differs.
abbrev pub same_counters :
    (c : EngineConfig) (b : Batch) (s : Scheduler) → InLimits c b → InLimits c (with_scheduler b s)
same_counters c b s l = record {
  sequences = l.sequences;
  sequences_le = l.sequences_le;
  tokens = l.tokens;
  tokens_le = l.tokens_le;
}

lookup-started :
    (s : Scheduler) (seq_id : ℕ) (r : Request) (q : Sequence)
    → lookup seq_id (started s seq_id r).prefill_sequences ≡ some q
    → to_u32 (length q.request.input_tokens) ≡ prompt_tokens r
lookup-started s seq_id r q e =
    let kv = (allocate_sequence s.kv_cache seq_id (prompt_tokens r)).1 in
    ground (
      arith,
      lookup-insert seq_id seq_id (started_sequence kv seq_id r) s.prefill_sequences,
      started_sequence_request kv seq_id r,
    )

module _ (c : EngineConfig) (small : c.max_batch_size < u32_mod)
    (small' : c.max_total_tokens < u32_max) where
  prefill_step-InLimits :
      (b : Batch) (seq_id : ℕ)
      → b.scheduler.config ≡ c
      → b.num_sequences < c.max_batch_size
      → InLimits c b
      → InLimits c (prefill_step b seq_id)
  prefill_step-InLimits b seq_id e h l =
      elim (Option-cases (lookup seq_id b.scheduler.prefill_sequences)) [
        | inl f ↦ unfold prefill_step in rw (f, prefill_step) l
        | inr (q, f) ↦
            let tokens = to_u32 (length q.request.input_tokens) in
            unfold prefill_step prefill_found in
            rw (f, prefill_step)
              (ground (
                arith,
                l,
                same_counters c b
                    (fail_sequence b.scheduler seq_id
                      (input_tokens_exceed tokens b.scheduler.config.max_total_tokens))
                    l,
                same_counters c b
                    (fail_sequence b.scheduler seq_id (
                      required_blocks_exceed (blocks_for_tokens b.scheduler.config tokens)
                        b.scheduler.config.max_num_blocks))
                    l,
                λ (k : saturating_add b.total_tokens tokens ≤ c.max_total_tokens).
                    push_prefill-InLimits c small small' b seq_id tokens
                      (λ q' g. ground (arith, f, g)) h k l,
              ))
      ]

  pub schedule_prefills-InLimits :
      (b : Batch) (ids : List ℕ)
      → b.scheduler.config ≡ c
      → Valid b.scheduler
      → InLimits c b
      → InLimits c (schedule_prefills b ids)
  unfolding schedule_prefills
  schedule_prefills-InLimits b [] e v l = l
  schedule_prefills-InLimits b (seq_id ∷ ids) e v l =
      let k = prefill_step-Keeps b seq_id v in
      ground (
        arith,
        λ (h : b.num_sequences < c.max_batch_size).
            schedule_prefills-InLimits (prefill_step b seq_id) ids (k.config ∙ e) k.valid
              (prefill_step-InLimits b seq_id e h l),
      )

  module _ (b : Batch) (p : PendingRequest) (e : b.scheduler.config ≡ c) (v : Valid b.scheduler)
      (taken : places p.seq_id b.scheduler ≡ 0) (l : InLimits c b) where
    prefill_started-InLimits :
        (tokens : ℕ)
        → tokens ≡ prompt_tokens p.request
        → b.num_sequences < c.max_batch_size
        → saturating_add b.total_tokens tokens ≤ c.max_total_tokens
        → let r = try_start_prefill b.scheduler p.seq_id p.request in
          InLimits c (prefill_started b tokens r.0 r.1)
    unfolding prefill_started
    prefill_started-InLimits tokens same h k =
        let s = b.scheduler in
        elim (dec_le (KvCache.blocks_for_tokens (prompt_tokens p.request) s.config.block_size)
          (length s.kv_cache.block_pool.free_list)) [
            | no g ↦
                rw (try_start_prefill_full s p.seq_id p.request v taken g) (same_counters c b _ l)
            | yes g ↦ rw (try_start_prefill_fits s p.seq_id p.request v taken g) (
                push_prefill-InLimits c small small'
                  (with_scheduler b (started s p.seq_id p.request)) p.seq_id tokens
                  (λ q f. lookup-started s p.seq_id p.request q f ∙ sym same) h k
                  (same_counters c b _ l))
          ]

    pending_step-InLimits : (ops : FloatOps) → InLimits c (pending_step ops b p)
    unfolding pending_step start_pending
    pending_step-InLimits ops =
        let tokens = prompt_tokens p.request in
        let s = b.scheduler in
        let blocks = blocks_for_tokens s.config tokens in
        let put_back = same_counters c b (push_pending p.seq_id p.request s) l in
        let ended = λ (m : Message).
          same_counters c b (push_completed p.seq_id (with_state (failed m) p.request) s) l in
        ground (
          arith,
          put_back,
          ended (input_tokens_exceed tokens s.config.max_total_tokens),
          ended (required_blocks_exceed blocks s.config.max_num_blocks),
          ended (
              exceed_watermark blocks (ops.as_u32 (watermark ops s)) s.config.max_num_blocks
                s.config.memory_threshold),
          λ (h : b.num_sequences < c.max_batch_size)
                (k : saturating_add b.total_tokens tokens ≤ c.max_total_tokens).
              prefill_started-InLimits tokens refl h k,
        )

  schedule_pending-InLimits :
      (ops : FloatOps) (n : ℕ) (b : Batch)
      → b.scheduler.config ≡ c
      → Valid b.scheduler
      → InLimits c b
      → InLimits c (schedule_pending ops n b)
  schedule_pending-InLimits ops zero b e v l = unfold schedule_pending in l
  schedule_pending-InLimits ops (suc n) b e v l =
      go b.scheduler.pending_queue refl (λ b' e' v' l'. schedule_pending-InLimits ops n b' e' v' l')
    where
      go :
          (queue : List PendingRequest)
          → b.scheduler.pending_queue ≡ queue
          → ((b' : Batch)
              → b'.scheduler.config ≡ c
              → Valid b'.scheduler
              → InLimits c b'
              → InLimits c (schedule_pending ops n b'))
          → InLimits c (schedule_pending ops (suc n) b)
      go [] f ih = rw (schedule_pending-nil ops n b f) l
      go (p ∷ rest) f ih =
          let k = pending_step-Keeps b p rest v f ops in
          subst (InLimits c) (sym (schedule_pending-suc ops n b p rest f)) (
            ih (pending_step ops (pop_pending b rest) p) (k.config ∙ e) k.valid (
              pending_step-InLimits (pop_pending b rest) p e (popped-Valid b p rest v f)
                (popped_taken b p rest v f) (same_counters c b _ l) ops))

  start_prefills-InLimits :
      (ops : FloatOps) (b : Batch)
      → b.scheduler.config ≡ c
      → Valid b.scheduler
      → InLimits c b
      → InLimits c (start_prefills ops b)
  unfolding start_prefills
  start_prefills-InLimits ops b e v l =
      let k = sort_pending-Keeps b v in
      ground (
        arith,
        l,
        schedule_pending-InLimits ops (length b.scheduler.pending_queue) (sort_pending b)
            (k.config ∙ e) k.valid (unfold sort_pending in same_counters c b _ l),
      )

-- From a valid scheduler whose `max_batch_size` is a u32 and whose `max_total_tokens` is below
-- `u32::MAX`, the output of `schedule` has at most `max_batch_size` sequences and at most
-- `max_total_tokens` tokens, where its `total_tokens` is exactly one token for each decode sequence
-- and the lengths of the prompts of the prefills, each as a u32.
pub schedule_limits :
    (ops : FloatOps) (s : Scheduler)
    → Valid s
    → s.config.max_batch_size < u32_mod
    → s.config.max_total_tokens < u32_max
    → let o = (schedule ops s).0 in
      (num_sequences o ≤ s.config.max_batch_size)
      × (o.total_tokens ≡ length o.decode_sequences + prefill_tokens o.prefill_sequences)
      × (o.total_tokens ≤ s.config.max_total_tokens)
unfolding schedule schedule_batch update_memory_pressure num_sequences
schedule_limits ops s v small small' =
    let k = pressure-Keeps ops s v in
    let s1 = update_memory_pressure ops s in
    let b0 = empty_batch s1 in
    let l0 : InLimits s.config b0 = record {
      sequences = refl;
      sequences_le = omega arith;
      tokens = refl;
      tokens_le = omega arith;
    } in
    let b1 = schedule_decodes b0 (decode_seq_ids s1) in
    let l1 =
      schedule_decodes-InLimits s.config small small' b0 (decode_seq_ids s1) k.config k.valid l0 in
    let k1 = schedule_decodes-Keeps b0 (decode_seq_ids s1) k.valid in
    let ids = prefill_candidates b1.scheduler in
    let l2 =
      schedule_prefills-InLimits s.config small small' b1 ids (k1.config ∙ k.config) k1.valid l1 in
    let k2 = schedule_prefills-Keeps b1 ids k1.valid in
    let l3 =
      start_prefills-InLimits s.config small small' ops (schedule_prefills b1 ids)
        (k2.config ∙ k1.config ∙ k.config) k2.valid l2 in
    (omega (arith, l3.sequences, l3.sequences_le), l3.tokens, l3.tokens_le)
