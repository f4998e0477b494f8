-- ===== src/Scheduler/Waiting.antt =====
-- src/scheduler.rs, `schedule`: one round of the scan of the pending queue.
use native.Mathlib.Decide.{dec_le}
use hetero_paged_infer.Prelude.{ℕ, ◌+◌, ◌<◌, ◌≡◌, refl, ap, List, ◌∷◌, arith}
use hetero_paged_infer.Prelude.Tests.{◌==◌, if◌then◌else◌}
use hetero_paged_infer.Prelude.Lists.{length}
use hetero_paged_infer.Prelude.Float.{FloatOps}
use hetero_paged_infer.Error.{
  Message, input_tokens_exceed, required_blocks_exceed, exceed_watermark,
}
use hetero_paged_infer.Types.Request.{failed}
use hetero_paged_infer.Config.{blocks_for_tokens}
use hetero_paged_infer.KvCache
use hetero_paged_infer.Scheduler.{
  Scheduler, PendingRequest, with_state, push_pending, watermark, try_start_prefill,
}
use hetero_paged_infer.Scheduler.Schedule.{
  Batch, with_scheduler, requeue, reject, prefill_started, start_pending, pending_step, pop_pending,
}
use hetero_paged_infer.Scheduler.Invariant.{places, pending_count, Valid}
use hetero_paged_infer.Scheduler.Leaving.{completed_count-push, pending_count-push}
use hetero_paged_infer.Scheduler.Starting.{
  prompt_tokens, started, try_start_prefill_fits, try_start_prefill_full, places-started,
  started-Valid,
}
use hetero_paged_infer.Scheduler.Conservation.{Keeps, push_prefill-scheduler}

-- The scheduler `s'` is `s` with the id `k` in one more place.
record Puts (k : ℕ) (s s' : Scheduler) : Type 0 where
  valid : Valid s'
  one_more : (i : ℕ) → places i s' ≡ places i s + (if k == i then 1 else 0)
  config : s'.config ≡ s.config
  next_seq_id : s'.next_seq_id ≡ s.next_seq_id

-- The pending request `p` has been taken from the queue of a scheduler that is valid with it.
module _ (b : Batch) (p : PendingRequest) (v : Valid b.scheduler)
    (taken : places p.seq_id b.scheduler ≡ 0) (lt : p.seq_id < b.scheduler.next_seq_id) where
  more-Valid :
      (s' : Scheduler)
      → ((i : ℕ) → places i s' ≡ places i b.scheduler + (if p.seq_id == i then 1 else 0))
      → s'.config ≡ b.scheduler.config
      → s'.kv_cache ≡ b.scheduler.kv_cache
      → s'.prefill_sequences ≡ b.scheduler.prefill_sequences
      → s'.decode_sequences ≡ b.scheduler.decode_sequences
      → s'.next_seq_id ≡ b.scheduler.next_seq_id
      → Puts p.seq_id b.scheduler s'
  more-Valid s' e c k f d n = record {
    valid = record {
      unique = λ i. ground (arith, e i, v.unique i);
      fresh = λ i h. ground (arith, e i, v.fresh i);
      tables = λ i. rw (k, d, f) (v.tables i);
      prefill_named = λ i. rw f (v.prefill_named i);
      decode_named = λ i. rw d (v.decode_named i);
      prefill_map = rw f v.prefill_map;
      decode_map = rw d v.decode_map;
      kv = rw k v.kv;
      num_blocks = rw (k, c) v.num_blocks;
      block_size = rw (k, c) v.block_size;
    };
    one_more = e;
    config = c;
    next_seq_id = n;
  }

  requeue-Puts : Puts p.seq_id b.scheduler (requeue b p).scheduler
  unfolding push_pending
  requeue-Puts =
      more-Valid _
        (λ i. omega (
          arith,
          pending_count-push i (record { seq_id = p.seq_id; request = p.request })
              b.scheduler.pending_queue,
        ))
        refl refl refl refl refl

  reject-Puts : (reason : Message) → Puts p.seq_id b.scheduler (reject b p reason).scheduler
  reject-Puts reason =
      more-Valid _
        (λ i. omega (
          arith,
          completed_count-push i p.seq_id (with_state (failed reason) p.request)
              b.scheduler.completed_requests,
        ))
        refl refl refl refl refl

  try_start-Puts :
      (tokens : ℕ)
      → let r = try_start_prefill b.scheduler p.seq_id p.request in
        Puts p.seq_id b.scheduler (prefill_started b tokens r.0 r.1).scheduler
  unfolding prefill_started
  try_start-Puts tokens =
      let s = b.scheduler in
      elim (dec_le (KvCache.blocks_for_tokens (prompt_tokens p.request) s.config.block_size)
        (length s.kv_cache.block_pool.free_list)) [
          | no h ↦ rw (try_start_prefill_full s p.seq_id p.request v taken h) requeue-Puts
          | yes h ↦ rw (try_start_prefill_fits s p.seq_id p.request v taken h) (
              rw
                (push_prefill-scheduler (with_scheduler b (started s p.seq_id p.request)) p.seq_id
                  tokens)
                (record {
                  valid = started-Valid s p.seq_id p.request v taken h lt;
                  one_more = places-started s p.seq_id p.request v taken;
                  config = refl;
                  next_seq_id = refl;
                }))
        ]

  start_pending-Puts :
      (ops : FloatOps) (tokens blocks : ℕ)
      → Puts p.seq_id b.scheduler (start_pending ops b p tokens blocks).scheduler
  unfolding start_pending
  start_pending-Puts ops tokens blocks =
      let r = try_start_prefill b.scheduler p.seq_id p.request in
      let s = b.scheduler in
      ground (
        arith,
        requeue-Puts,
        reject-Puts (
            exceed_watermark blocks (ops.as_u32 (watermark ops s)) s.config.max_num_blocks
              s.config.memory_threshold),
        try_start-Puts tokens,
      )

  -- A round of the pending loop puts the request back, ends it or starts it.
  pending_step-Puts : (ops : FloatOps) → Puts p.seq_id b.scheduler (pending_step ops b p).scheduler
  unfolding pending_step
  pending_step-Puts ops =
      let tokens = prompt_tokens p.request in
      let blocks = blocks_for_tokens b.scheduler.config tokens in
      let c = b.scheduler.config in
      ground (
        arith,
        requeue-Puts,
        reject-Puts (input_tokens_exceed tokens c.max_total_tokens),
        reject-Puts (required_blocks_exceed blocks c.max_num_blocks),
        start_pending-Puts ops tokens blocks,
      )

-- Fewer pending requests.
module _ (b : Batch) (p : PendingRequest) (rest : List PendingRequest) (v : Valid b.scheduler)
    (e : b.scheduler.pending_queue ≡ p ∷ rest) where
  places-pop :
      (i : ℕ)
      → places i b.scheduler
        ≡ places i (pop_pending b rest).scheduler + (if p.seq_id == i then 1 else 0)
  places-pop i = ground (arith, ap (pending_count i) e)

  pub popped-Valid : Valid (pop_pending b rest).scheduler
  popped-Valid = record {
    unique = λ i. omega (arith, places-pop i, v.unique i);
    fresh = λ i h. omega (arith, places-pop i, v.fresh i h);
    tables = v.tables;
    prefill_named = v.prefill_named;
    decode_named = v.decode_named;
    prefill_map = v.prefill_map;
    decode_map = v.decode_map;
    kv = v.kv;
    num_blocks = v.num_blocks;
    block_size = v.block_size;
  }

  pub popped_taken : places p.seq_id (pop_pending b rest).scheduler ≡ 0
  popped_taken = ground (arith, places-pop p.seq_id, v.unique p.seq_id)

  popped_lt : p.seq_id < b.scheduler.next_seq_id
  popped_lt = ground (arith, places-pop p.seq_id, v.fresh p.seq_id)

  pub pending_step-Keeps :
      (ops : FloatOps) → Keeps b.scheduler (pending_step ops (pop_pending b rest) p).scheduler
  pending_step-Keeps ops =
      let x = pending_step-Puts (pop_pending b rest) p popped-Valid popped_taken popped_lt ops in
      record {
        valid = x.valid;
        same_places = λ i. omega (arith, places-pop i, x.one_more i);
        config = x.config;
        next_seq_id = x.next_seq_id;
      }
