-- ===== src/Scheduler/Starting.antt =====
-- src/scheduler.rs: the outcomes of `try_start_prefill`.
use hetero_paged_infer.Prelude.{
  ℕ, ◌+◌, ◌≤◌, ◌<◌, ◌≡◌, refl, ◌∙◌, ap, none, some, List, [], ◌∷◌, map, arith,
}
use hetero_paged_infer.Prelude.Tests.{◌==◌, if◌then◌else◌}
use hetero_paged_infer.Prelude.Words.{to_u32}
use hetero_paged_infer.Prelude.Lists.{length}
use hetero_paged_infer.Prelude.Results.{ok, err}
use hetero_paged_infer.SeqMap.{lookup, insert}
use hetero_paged_infer.SeqMap.Laws.{lookup-insert}
use hetero_paged_infer.SeqMap.Sums.{IsMap-insert}
use hetero_paged_infer.Types.Memory.{PhysicalBlockRef}
use hetero_paged_infer.Types.Request.{Request, prefill}
use hetero_paged_infer.Types.Sequences.{new_sequence, block_indices}
use hetero_paged_infer.Config
use hetero_paged_infer.KvCache
use hetero_paged_infer.KvCache.Pool.{pool_can_allocate}
use hetero_paged_infer.KvCache.{
  PageTable, KvCacheManager, allocate_sequence, get_block_table, page_block_table, can_allocate,
}
use hetero_paged_infer.KvCache.Allocation.{NewTable, allocate_sequence_lem}
use hetero_paged_infer.KvCache.Shape.{allocate_sequence-SameShape}
use hetero_paged_infer.Scheduler.{
  Scheduler, with_state, blocks_of_table, started_sequence, try_start_prefill,
}
use hetero_paged_infer.Scheduler.Invariant.{places, Valid}

-- The tokens that a prefill of the request needs room for.
abbrev pub prompt_tokens : Request → ℕ
prompt_tokens r = to_u32 (length r.input_tokens)

refs-block_indices :
    (bs : List PhysicalBlockRef) → map (λ i. record { block_idx = i }) (block_indices bs) ≡ bs
refs-block_indices [] = refl
refs-block_indices (b ∷ bs) = ap (◌∷◌ b) (refs-block_indices bs)

-- The started sequence has the blocks of its page table, in order.
pub started_sequence_blocks :
    (kv : KvCacheManager) (seq_id : ℕ) (r : Request) (t : PageTable)
    → lookup seq_id kv.page_tables ≡ some t
    → (started_sequence kv seq_id r).logical_blocks ≡ t.logical_blocks
unfolding started_sequence get_block_table page_block_table blocks_of_table
started_sequence_blocks kv seq_id r t e = rw e (refs-block_indices t.logical_blocks)

pub started_sequence_id :
    (kv : KvCacheManager) (seq_id : ℕ) (r : Request)
    → (started_sequence kv seq_id r).seq_id ≡ seq_id
unfolding started_sequence new_sequence
started_sequence_id kv seq_id r = refl

pub started_sequence_request :
    (kv : KvCacheManager) (seq_id : ℕ) (r : Request)
    → (started_sequence kv seq_id r).request ≡ with_state prefill r
unfolding started_sequence new_sequence
started_sequence_request kv seq_id r = refl

-- The state after a start.
abbrev pub started : Scheduler → ℕ → Request → Scheduler
started s seq_id r =
    let kv = (allocate_sequence s.kv_cache seq_id (prompt_tokens r)).1 in
    record s {
      kv_cache = kv;
      prefill_sequences = insert seq_id (started_sequence kv seq_id r) s.prefill_sequences;
    }

module _ (s : Scheduler) (seq_id : ℕ) (r : Request) (v : Valid s) (new : places seq_id s ≡ 0) where
  no_table : lookup seq_id s.kv_cache.page_tables ≡ none
  no_table = ground (arith, v.tables seq_id)

  abbrev Fits : Type 0
  Fits =
      KvCache.blocks_for_tokens (prompt_tokens r) s.config.block_size
      ≤ length s.kv_cache.block_pool.free_list

  new_table : Fits → NewTable s.kv_cache seq_id (prompt_tokens r)
  new_table h =
      allocate_sequence_lem s.kv_cache seq_id (prompt_tokens r) v.kv no_table (rw v.block_size h)

  -- A start succeeds exactly where the pool has the blocks for the prompt.
  pub try_start_prefill_fits : Fits → try_start_prefill s seq_id r ≡ (ok seq_id, started s seq_id r)
  unfolding try_start_prefill can_allocate pool_can_allocate Config.blocks_for_tokens
  try_start_prefill_fits h = ground (arith, (new_table h).result)

  pub try_start_prefill_full : ¬ Fits → try_start_prefill s seq_id r ≡ (err (seq_id, r), s)
  unfolding try_start_prefill can_allocate pool_can_allocate Config.blocks_for_tokens
  try_start_prefill_full h = ground arith

  pub places-started :
      (i : ℕ) → places i (started s seq_id r) ≡ places i s + (if seq_id == i then 1 else 0)
  places-started i =
      let kv = (allocate_sequence s.kv_cache seq_id (prompt_tokens r)).1 in
      ground (arith, lookup-insert i seq_id (started_sequence kv seq_id r) s.prefill_sequences)

  pub started-Valid : Fits → seq_id < s.next_seq_id → Valid (started s seq_id r)
  started-Valid h lt =
      let kv = (allocate_sequence s.kv_cache seq_id (prompt_tokens r)).1 in
      let q = started_sequence kv seq_id r in
      let x = new_table h in
      let own : lookup seq_id kv.page_tables ≡ some x.table =
        rw x.tables (ground (arith, lookup-insert seq_id seq_id x.table s.kv_cache.page_tables)) in
      record {
        unique = λ i. ground (arith, places-started i, v.unique i);
        fresh = λ i g. ground (arith, places-started i, v.fresh i g);
        tables = λ i. rw (x.tables) (
            ground (
              arith,
              v.tables i,
              lookup-insert i seq_id x.table s.kv_cache.page_tables,
              lookup-insert i seq_id q s.prefill_sequences,
              started_sequence_blocks kv seq_id r x.table own,
            ));
        prefill_named = λ i. ground (
          arith,
          v.prefill_named i,
          lookup-insert i seq_id q s.prefill_sequences,
          started_sequence_id kv seq_id r,
        );
        decode_named = v.decode_named;
        prefill_map = IsMap-insert seq_id q s.prefill_sequences v.prefill_map;
        decode_map = v.decode_map;
        kv = x.valid;
        num_blocks =
            (allocate_sequence-SameShape s.kv_cache seq_id (prompt_tokens r)).size ∙ v.num_blocks;
        block_size =
            (allocate_sequence-SameShape s.kv_cache seq_id (prompt_tokens r)).block_size
            ∙ v.block_size;
      }
