-- ===== src/Scheduler/Schedule.antt =====
-- src/scheduler.rs, `Scheduler::schedule`: one batch from the decode sequences, the prefill
-- sequences and the pending queue, in this order.
use hetero_paged_infer.Prelude.{
  ℕ, zero, suc, Bool, not, ◌&&◌, ◌||◌, none, some, List, [], ◌∷◌, ◌++◌,
}
use hetero_paged_infer.Prelude.Tests.{ltb, leb, ◌==◌, if◌then◌else◌}
use hetero_paged_infer.Prelude.Words.{to_u32, succ_u32, saturating_add}
use hetero_paged_infer.Prelude.Lists.{length}
use hetero_paged_infer.Prelude.Sort.{sort_by}
use hetero_paged_infer.Prelude.Float.{FloatOps}
use hetero_paged_infer.Prelude.Results.{Result, ok, err}
use hetero_paged_infer.SeqMap.{SeqMap, lookup, keys}
use hetero_paged_infer.Error.{
  Message, input_tokens_exceed, required_blocks_exceed, exceed_watermark,
}
use hetero_paged_infer.Types.Request.{Request, failed}
use hetero_paged_infer.Types.Sequences.{Sequence, SchedulerOutput, empty_output}
use hetero_paged_infer.Config.{blocks_for_tokens}
use hetero_paged_infer.Scheduler.{
  Scheduler, PendingRequest, update_memory_pressure, push_pending, with_state, push_completed,
  fail_sequence, watermark, has_prefill_budget, try_start_prefill, grow_decode_sequence,
}

-- The key `(Reverse(priority), seq_id)`: at most means a higher priority, or the same and an id
-- that is not larger.
unfoldable pub key_le : ℕ × ℕ → ℕ × ℕ → Bool
key_le (p, i) (q, j) = ltb q p || (p == q && leb i j)

-- `map.get(&sid).map(|sq| sq.request.params.priority).unwrap_or(0)`
unfoldable pub priority_of : SeqMap Sequence → ℕ → ℕ
priority_of m seq_id = elim (lookup seq_id m) [ none ↦ 0 | some q ↦ q.request.params.priority ]

unfoldable pub id_le : SeqMap Sequence → ℕ → ℕ → Bool
id_le m i j = key_le (priority_of m i, i) (priority_of m j, j)

unfoldable pub decode_seq_ids : Scheduler → List ℕ
decode_seq_ids s = sort_by (id_le s.decode_sequences) (keys s.decode_sequences)

-- `prefill_seq_ids`, then sorted in `schedule`
unfoldable pub prefill_candidates : Scheduler → List ℕ
prefill_candidates s = sort_by (id_le s.prefill_sequences) (keys s.prefill_sequences)

unfoldable pub pending_le : PendingRequest → PendingRequest → Bool
pending_le p q = key_le (p.request.params.priority, p.seq_id) (q.request.params.priority, q.seq_id)

-- The variables of `schedule`.
pub record Batch : Type 0 where
  pub scheduler : Scheduler
  pub output : SchedulerOutput
  pub total_tokens : ℕ
  pub num_sequences : ℕ

abbrev pub with_scheduler : Batch → Scheduler → Batch
with_scheduler b s = record b { scheduler = s }

-- A sequence joins the batch with the tokens that it adds.
abbrev pub add_decode : Batch → Sequence → Batch
add_decode b q = record b {
  output = record b.output { decode_sequences = b.output.decode_sequences ++ q ∷ [] };
  total_tokens = saturating_add b.total_tokens 1;
  num_sequences = succ_u32 b.num_sequences;
}

abbrev pub add_prefill : Batch → ℕ → Sequence → Batch
add_prefill b tokens q = record b {
  output = record b.output { prefill_sequences = b.output.prefill_sequences ++ q ∷ [] };
  total_tokens = saturating_add b.total_tokens tokens;
  num_sequences = succ_u32 b.num_sequences;
}

unfoldable pub push_decode : Batch → ℕ → Batch
push_decode b seq_id = elim (lookup seq_id b.scheduler.decode_sequences) [
  | none ↦ b
  | some q ↦ add_decode b q
]

unfoldable pub push_prefill : Batch → ℕ → ℕ → Batch
push_prefill b seq_id tokens = elim (lookup seq_id b.scheduler.prefill_sequences) [
  | none ↦ b
  | some q ↦ add_prefill b tokens q
]

-- One round of the decode loop, after the tests that end it.
unfoldable pub decode_grown : Batch → ℕ → Result Message (Unit {0}) → Scheduler → Batch
decode_grown b seq_id (ok _) s = push_decode (with_scheduler b s) seq_id
decode_grown b seq_id (err reason) s = with_scheduler b (fail_sequence s seq_id reason)

unfoldable pub decode_step : Batch → ℕ → Batch
decode_step b seq_id =
    let (r, s) = grow_decode_sequence b.scheduler seq_id in decode_grown b seq_id r s

unfoldable pub schedule_decodes : Batch → List ℕ → Batch
schedule_decodes b [] = b
schedule_decodes b (seq_id ∷ ids) =
    let rest = schedule_decodes (decode_step b seq_id) ids in
    if leb b.scheduler.config.max_batch_size b.num_sequences
    then b
    else if ltb b.scheduler.config.max_total_tokens (saturating_add b.total_tokens 1)
    then b
    else rest

-- One round of the prefill loop for a sequence of `tokens` input tokens.
unfoldable pub prefill_found : Batch → ℕ → ℕ → Batch
prefill_found b seq_id tokens =
    let c = b.scheduler.config in
    let blocks = blocks_for_tokens c tokens in
    if ltb c.max_total_tokens tokens
    then with_scheduler b
        (fail_sequence b.scheduler seq_id (input_tokens_exceed tokens c.max_total_tokens))
    else if ltb c.max_num_blocks blocks
    then with_scheduler b
        (fail_sequence b.scheduler seq_id (required_blocks_exceed blocks c.max_num_blocks))
    else if ltb c.max_total_tokens (saturating_add b.total_tokens tokens)
    then b
    else push_prefill b seq_id tokens

unfoldable pub prefill_step : Batch → ℕ → Batch
prefill_step b seq_id = elim (lookup seq_id b.scheduler.prefill_sequences) [
  | none ↦ b
  | some q ↦ prefill_found b seq_id (to_u32 (length q.request.input_tokens))
]

unfoldable pub schedule_prefills : Batch → List ℕ → Batch
schedule_prefills b [] = b
schedule_prefills b (seq_id ∷ ids) =
    let rest = schedule_prefills (prefill_step b seq_id) ids in
    if leb b.scheduler.config.max_batch_size b.num_sequences then b else rest

-- A pending request goes back to the end of the queue.
abbrev pub requeue : Batch → PendingRequest → Batch
requeue b p = with_scheduler b (push_pending p.seq_id p.request b.scheduler)

-- A pending request fails before it has started.
abbrev pub reject : Batch → PendingRequest → Message → Batch
reject b p reason =
    with_scheduler b (push_completed p.seq_id (with_state (failed reason) p.request) b.scheduler)

-- The end of a round: `match self.try_start_prefill(seq_id, request)`.
unfoldable pub prefill_started : Batch → ℕ → Result (ℕ × Request) ℕ → Scheduler → Batch
prefill_started b tokens (ok seq_id) s = push_prefill (with_scheduler b s) seq_id tokens
prefill_started b tokens (err (seq_id, request)) s =
    with_scheduler b (push_pending seq_id request s)

-- A round for a pending request that fits the limits: the memory watermark, the budget, the start.
unfoldable pub start_pending : FloatOps → Batch → PendingRequest → ℕ → ℕ → Batch
start_pending ops b p tokens blocks =
    let s = b.scheduler in
    let watermark_blocks = ops.as_u32 (watermark ops s) in
    if ltb watermark_blocks blocks
    then reject b p
        (exceed_watermark blocks watermark_blocks s.config.max_num_blocks s.config.memory_threshold)
    else if not (has_prefill_budget ops s blocks tokens)
    then requeue b p
    else let (r, s') = try_start_prefill s p.seq_id p.request in prefill_started b tokens r s'

-- One round of the pending loop; `p` has been taken from the queue.
unfoldable pub pending_step : FloatOps → Batch → PendingRequest → Batch
pending_step ops b p =
    let c = b.scheduler.config in
    let tokens = to_u32 (length p.request.input_tokens) in
    let blocks = blocks_for_tokens c tokens in
    if leb c.max_batch_size b.num_sequences
    then requeue b p
    else if ltb c.max_total_tokens tokens
    then reject b p (input_tokens_exceed tokens c.max_total_tokens)
    else if ltb c.max_num_blocks blocks
    then reject b p (required_blocks_exceed blocks c.max_num_blocks)
    else if ltb c.max_total_tokens (saturating_add b.total_tokens tokens)
    then requeue b p
    else start_pending ops b p tokens blocks

-- `pop_front`
abbrev pub pop_pending : Batch → List PendingRequest → Batch
pop_pending b rest = with_scheduler b (record b.scheduler { pending_queue = rest })

unfoldable pub schedule_pending : FloatOps → ℕ → Batch → Batch
schedule_pending ops zero b = b
schedule_pending ops (suc n) b = elim b.scheduler.pending_queue [
  | [] ↦ b
  | p ∷ rest ↦ schedule_pending ops n (pending_step ops (pop_pending b rest) p)
]

unfoldable pub sort_pending : Batch → Batch
sort_pending b = pop_pending b (sort_by pending_le b.scheduler.pending_queue)

-- The third part of `schedule`, which memory pressure leaves out.
unfoldable pub start_prefills : FloatOps → Batch → Batch
start_prefills ops b =
    if b.scheduler.under_memory_pressure
    then b
    else schedule_pending ops (length b.scheduler.pending_queue) (sort_pending b)

abbrev pub empty_batch : Scheduler → Batch
empty_batch s = record { scheduler = s; output = empty_output; total_tokens = 0; num_sequences = 0 }

-- The three parts of `schedule` in order.
unfoldable pub schedule_batch : FloatOps → Scheduler → Batch
schedule_batch ops s0 =
    let s = update_memory_pressure ops s0 in
    let b = schedule_decodes (empty_batch s) (decode_seq_ids s) in
    start_prefills ops (schedule_prefills b (prefill_candidates b.scheduler))

unfoldable pub schedule : FloatOps → Scheduler → SchedulerOutput × Scheduler
schedule ops s =
    let b = schedule_batch ops s in (record b.output { total_tokens = b.total_tokens }, b.scheduler)
