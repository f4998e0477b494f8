-- ===== src/Scheduler/Growth.antt =====
-- `grow_decode_sequence`, the move from prefill to decode, and the updates of a stored sequence.
use native.Mathlib.Decide.{dec_lt}
use hetero_paged_infer.Prelude.{ℕ, ◌≡◌, refl, sym, ◌∙◌, inl, inr, Option, none, some, arith}
use hetero_paged_infer.Prelude.Tests.{ltb, Option-cases, Bool-cases}
use hetero_paged_infer.Prelude.Words.{to_u32, saturating_add}
use hetero_paged_infer.Prelude.Lists.{length}
use hetero_paged_infer.Prelude.Results.{Result, ok, err}
use hetero_paged_infer.SeqMap.{SeqMap, lookup, modify}
use hetero_paged_infer.SeqMap.Laws.{lookup-insert, lookup-remove, lookup-modify}
use hetero_paged_infer.SeqMap.Sums.{IsMap-insert, IsMap-remove, IsMap-modify}
use hetero_paged_infer.Error.{
  Message, decode_sequence_not_found, block_allocation_failed, out_of_blocks,
}
use hetero_paged_infer.Types.Memory.{PhysicalBlockRef}
use hetero_paged_infer.Types.Request.{decode}
use hetero_paged_infer.Types.Sequences.{Sequence, context_len}
use hetero_paged_infer.Config.{blocks_for_tokens}
use hetero_paged_infer.KvCache.{PageTable, add_block, allocate_block}
use hetero_paged_infer.KvCache.Allocation.{
  OneMore, allocate_block_lem, allocate_block_full, length_zero,
}
use hetero_paged_infer.KvCache.Shape.{allocate_block-SameShape}
use hetero_paged_infer.Scheduler.{
  Scheduler, with_state, push_block, store_block, grow_decode_sequence,
  transition_prefill_to_decode,
}
use hetero_paged_infer.Scheduler.Invariant.{places, Valid, Named, active_blocks}

-- The state after the growth of a decode sequence by the block `b`.
abbrev pub grown : Scheduler → ℕ → PhysicalBlockRef → Scheduler
grown s seq_id b = record s {
  kv_cache = (allocate_block s.kv_cache seq_id).1;
  decode_sequences = modify seq_id (push_block b) s.decode_sequences;
}

module _ (s : Scheduler) (seq_id : ℕ) (q : Sequence) (v : Valid s)
    (e : lookup seq_id s.decode_sequences ≡ some q) where
  has_table : (t : PageTable) × (lookup seq_id s.kv_cache.page_tables ≡ some t)
  has_table = ground (arith, v.tables seq_id)

  pub places-grown : (b : PhysicalBlockRef) (i : ℕ) → places i (grown s seq_id b) ≡ places i s
  places-grown b i = ground (arith, lookup-modify i seq_id (push_block b) s.decode_sequences)

  grown-Valid : (t : PageTable) (x : OneMore s.kv_cache seq_id t) → Valid (grown s seq_id x.block)
  grown-Valid t x = record {
    unique = λ i. omega (arith, places-grown x.block i, v.unique i);
    fresh = λ i h. omega (arith, places-grown x.block i, v.fresh i h);
    tables = λ i. rw x.tables (
        unfold add_block in
        ground (
          arith,
          v.tables i,
          v.unique i,
          lookup-modify i seq_id (add_block x.block) s.kv_cache.page_tables,
          lookup-modify i seq_id (push_block x.block) s.decode_sequences,
        ));
    prefill_named = v.prefill_named;
    decode_named = λ i.
        ground
          (arith, v.decode_named i, lookup-modify i seq_id (push_block x.block) s.decode_sequences);
    prefill_map = v.prefill_map;
    decode_map = IsMap-modify seq_id (push_block x.block) s.decode_sequences v.decode_map;
    kv = x.valid;
    num_blocks = (allocate_block-SameShape s.kv_cache seq_id).size ∙ v.num_blocks;
    block_size = (allocate_block-SameShape s.kv_cache seq_id).block_size ∙ v.block_size;
  }

  -- `grow_decode_sequence` on a decode sequence: it has its blocks, or gets one more, or the pool
  -- is full and nothing changes.
  pub grow_cases {ℓ} :
      (P : Result Message (Unit {0}) → Scheduler → Type ℓ)
      → P (ok tt) s
      → ((b : PhysicalBlockRef) → Valid (grown s seq_id b) → P (ok tt) (grown s seq_id b))
      → P (err (block_allocation_failed out_of_blocks)) s
      → P (grow_decode_sequence s seq_id).0 (grow_decode_sequence s seq_id).1
  unfolding grow_decode_sequence store_block
  grow_cases P kept more full =
      elim (Bool-cases (
        ltb (to_u32 (length q.logical_blocks))
          (blocks_for_tokens s.config (saturating_add (context_len q) 1)))) [
            | inr done ↦ rw (e, grow_decode_sequence) (rw done kept)
            | inl need ↦
                let (t, f) = has_table in
                elim (dec_lt 0 (length s.kv_cache.block_pool.free_list)) [
                  | no h ↦
                      rw (e, grow_decode_sequence)
                        (rw need (
                          rw
                            (allocate_block_full s.kv_cache seq_id t f
                              (length_zero s.kv_cache.block_pool.free_list h))
                            full))
                  | yes h ↦
                      let x = allocate_block_lem s.kv_cache seq_id t v.kv f h in
                      rw (e, grow_decode_sequence)
                        (rw need (rw (x.result, store_block) (more x.block (grown-Valid t x))))
                ]
          ]

pub grow_unknown :
    (s : Scheduler) (seq_id : ℕ)
    → lookup seq_id s.decode_sequences ≡ none
    → grow_decode_sequence s seq_id ≡ (err (decode_sequence_not_found seq_id), s)
unfolding grow_decode_sequence
grow_unknown s seq_id e = rw (e, grow_decode_sequence)

-- An update of a decode sequence that keeps its id and its blocks.
module _ (s : Scheduler) (seq_id : ℕ) (f : Sequence → Sequence)
    (same_id : (q : Sequence) → (f q).seq_id ≡ q.seq_id)
    (same_blocks : (q : Sequence) → (f q).logical_blocks ≡ q.logical_blocks) where
  Named-after :
      (m : SeqMap Sequence)
      → ((i : ℕ) → Named i (lookup i m))
      → (i : ℕ) → Named i (lookup i (modify seq_id f m))
  Named-after m h i = go (lookup i m) refl
    where
      go : (o : Option Sequence) → lookup i m ≡ o → Named i (lookup i (modify seq_id f m))
      go none e = ground (arith, lookup-modify i seq_id f m)
      go (some q) e = ground (arith, lookup-modify i seq_id f m, h i, same_id q)

  blocks_after :
      (m : SeqMap Sequence) (i : ℕ) (o : Option Sequence)
      → (active_blocks (lookup i (modify seq_id f m)) o ≡ active_blocks (lookup i m) o)
        × (active_blocks o (lookup i (modify seq_id f m)) ≡ active_blocks o (lookup i m))
  blocks_after m i o = go (lookup i m) refl
    where
      go :
          (l : Option Sequence)
          → lookup i m ≡ l
          → (active_blocks (lookup i (modify seq_id f m)) o ≡ active_blocks (lookup i m) o)
            × (active_blocks o (lookup i (modify seq_id f m)) ≡ active_blocks o (lookup i m))
      go none e = ground (arith, lookup-modify i seq_id f m)
      go (some q) e = ground (arith, lookup-modify i seq_id f m, same_blocks q)

  pub modify_decode-Valid :
      Valid s → Valid (record s { decode_sequences = modify seq_id f s.decode_sequences })
  modify_decode-Valid v = record {
    unique = λ i. ground (arith, v.unique i, lookup-modify i seq_id f s.decode_sequences);
    fresh = λ i h. ground (arith, v.fresh i h, lookup-modify i seq_id f s.decode_sequences);
    tables = λ i. v.tables i ∙ sym (blocks_after s.decode_sequences i _).0;
    prefill_named = v.prefill_named;
    decode_named = Named-after s.decode_sequences v.decode_named;
    prefill_map = v.prefill_map;
    decode_map = IsMap-modify seq_id f s.decode_sequences v.decode_map;
    kv = v.kv;
    num_blocks = v.num_blocks;
    block_size = v.block_size;
  }

  pub modify_prefill-Valid :
      Valid s → Valid (record s { prefill_sequences = modify seq_id f s.prefill_sequences })
  modify_prefill-Valid v = record {
    unique = λ i. ground (arith, v.unique i, lookup-modify i seq_id f s.prefill_sequences);
    fresh = λ i h. ground (arith, v.fresh i h, lookup-modify i seq_id f s.prefill_sequences);
    tables = λ i. v.tables i ∙ sym (blocks_after s.prefill_sequences i _).1;
    prefill_named = Named-after s.prefill_sequences v.prefill_named;
    decode_named = v.decode_named;
    prefill_map = IsMap-modify seq_id f s.prefill_sequences v.prefill_map;
    decode_map = v.decode_map;
    kv = v.kv;
    num_blocks = v.num_blocks;
    block_size = v.block_size;
  }

-- The move from prefill to decode.
module _ (s : Scheduler) (seq_id : ℕ) (v : Valid s) where
  pub places-transition : (i : ℕ) → places i (transition_prefill_to_decode s seq_id) ≡ places i s
  unfolding transition_prefill_to_decode
  places-transition i = elim (Option-cases (lookup seq_id s.prefill_sequences)) [
    | inl e ↦ rw (e, transition_prefill_to_decode) refl
    | inr (q, e) ↦
        let q' : Sequence = record q { request = with_state decode q.request } in
        rw (e, transition_prefill_to_decode)
          (ground (
            arith,
            v.unique seq_id,
            lookup-remove i seq_id s.prefill_sequences,
            lookup-insert i seq_id q' s.decode_sequences,
          ))
  ]

  moved-Valid :
      (q : Sequence)
      → lookup seq_id s.prefill_sequences ≡ some q
      → Valid (transition_prefill_to_decode s seq_id)
  unfolding transition_prefill_to_decode
  moved-Valid q e =
      let q' : Sequence = record q { request = with_state decode q.request } in
      let same = places-transition in
      rw (e, transition_prefill_to_decode)
        (record {
          unique = λ i. ground (arith, v.unique i, same i);
          fresh = λ i h. ground (arith, v.fresh i h, same i);
          tables = λ i. ground (
            arith,
            v.tables i,
            v.unique seq_id,
            lookup-remove i seq_id s.prefill_sequences,
            lookup-insert i seq_id q' s.decode_sequences,
          );
          prefill_named =
              λ i. ground (arith, v.prefill_named i, lookup-remove i seq_id s.prefill_sequences);
          decode_named = λ i. ground (
            arith,
            v.decode_named i,
            v.prefill_named seq_id,
            lookup-insert i seq_id q' s.decode_sequences,
          );
          prefill_map = IsMap-remove seq_id s.prefill_sequences v.prefill_map;
          decode_map = IsMap-insert seq_id q' s.decode_sequences v.decode_map;
          kv = v.kv;
          num_blocks = v.num_blocks;
          block_size = v.block_size;
        })

  pub transition-Valid : Valid (transition_prefill_to_decode s seq_id)
  transition-Valid = elim (Option-cases (lookup seq_id s.prefill_sequences)) [
    | inl e ↦ unfold transition_prefill_to_decode in rw (e, transition_prefill_to_decode) v
    | inr (q, e) ↦ moved-Valid q e
  ]
