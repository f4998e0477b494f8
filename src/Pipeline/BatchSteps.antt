-- ===== src/Pipeline/BatchSteps.antt =====
-- src/execution_pipeline.rs: what adding one sequence does to the shape of a batch.
use hetero_paged_infer.Prelude.{
  ◌-◌, ◌%◌, ℕ, zero, suc, ◌+◌, ◌<◌, ◌≡◌, refl, inl, inr, true, false, some, List, [], ◌∷◌, ◌++◌,
  arith,
}
use hetero_paged_infer.Prelude.Tests.{Option-cases}
use hetero_paged_infer.Prelude.Words.{u32_mod, to_u32}
use hetero_paged_infer.Prelude.Lists.{length, is_empty, last?, length-append}
use hetero_paged_infer.Prelude.Results.{ok}
use hetero_paged_infer.Types.Sequences.{
  Sequence, context_len, decode_input_token, decode_position, sequence_block_table,
}
use hetero_paged_infer.Types.Execution.{ExecutionBatch}
use hetero_paged_infer.Pipeline.Batches.{positions_from, add_prefill, push_decode, add_decode}
use hetero_paged_infer.Pipeline.Checks.{sum_u32, check_sequences}

-- A sequence that a scheduling step may put out: it has input tokens, fewer than 2 ^ 32, and blocks.
pub record Ready (q : Sequence) : Type 0 where
  pub has_input : 0 < length q.request.input_tokens
  pub small_input : length q.request.input_tokens < u32_mod
  pub has_blocks : is_empty q.logical_blocks ≡ false

abbrev pub AllReady : List Sequence → Type 0
AllReady [] = Unit
AllReady (q ∷ qs) = Ready q × AllReady qs

abbrev pub input_size : List Sequence → ℕ
input_size [] = 0
input_size (q ∷ qs) = length q.request.input_tokens + input_size qs

abbrev total : List ℕ → ℕ
total [] = 0
total (x ∷ xs) = x + total xs

pub sum_u32-total : (xs : List ℕ) → sum_u32 xs ≡ total xs % u32_mod
unfolding sum_u32
sum_u32-total [] = refl
sum_u32-total (x ∷ xs) = omega (arith, sum_u32-total xs)

total-append : (xs : List ℕ) (x : ℕ) → total (xs ++ x ∷ []) ≡ total xs + x
total-append [] x = omega arith
total-append (y ∷ xs) x = omega (arith, total-append xs x)

length-positions_from : (i n : ℕ) → length (positions_from i n) ≡ n
unfolding positions_from
length-positions_from i zero = refl
length-positions_from i (suc n) = omega (arith, length-positions_from (i + 1) n)

-- A batch of `n` sequences and `t` tokens that passes the shape check.
pub record Shaped (n t : ℕ) (b : ExecutionBatch) : Type 0 where
  pub tokens : length b.input_tokens ≡ t
  pub positions : length b.positions ≡ t
  pub ids : length b.seq_ids ≡ n
  pub lens : length b.seq_lens ≡ n
  pub prefills : length b.is_prefill ≡ n
  pub contexts : length b.context_lens ≡ n
  pub tables : length b.block_tables ≡ n
  pub sum : total b.seq_lens ≡ t
  pub sequences : check_sequences b.seq_ids b.seq_lens b.block_tables ≡ ok tt

check_sequences-append :
    (ids lens : List ℕ) (tables : List (List ℕ)) (i n : ℕ) (t : List ℕ)
    → length lens ≡ length ids
    → length tables ≡ length ids
    → 0 < n
    → is_empty t ≡ false
    → check_sequences ids lens tables ≡ ok tt
    → check_sequences (ids ++ i ∷ []) (lens ++ n ∷ []) (tables ++ t ∷ []) ≡ ok tt
unfolding check_sequences
check_sequences-append [] [] [] i n t hl ht p e h = ground arith
check_sequences-append [] [] (y ∷ tables) i n t hl ht p e h = absurd (omega arith)
check_sequences-append [] (x ∷ lens) tables i n t hl ht p e h = absurd (omega arith)
check_sequences-append (j ∷ ids) [] tables i n t hl ht p e h = absurd (omega arith)
check_sequences-append (j ∷ ids) (x ∷ lens) [] i n t hl ht p e h = absurd (omega arith)
check_sequences-append (j ∷ ids) (x ∷ lens) (y ∷ tables) i n t hl ht p e h =
    ground (arith, check_sequences-append ids lens tables i n t)

block_table_not_empty : (q : Sequence) → Ready q → is_empty (sequence_block_table q) ≡ false
unfolding sequence_block_table
block_table_not_empty q r = ground (arith, r.has_blocks)

module _ (n t : ℕ) (b : ExecutionBatch) (q : Sequence) (r : Ready q) (s : Shaped n t b) where
  pub add_prefill-Shaped : Shaped (n + 1) (t + length q.request.input_tokens) (add_prefill b q)
  unfolding add_prefill
  add_prefill-Shaped =
      let tokens = q.request.input_tokens in
      record {
        tokens = omega (arith, length-append b.input_tokens tokens, s.tokens);
        positions = omega (
          arith,
          length-append b.positions (positions_from 0 (length tokens)),
          length-positions_from 0 (length tokens),
          s.positions,
        );
        ids = omega (arith, length-append b.seq_ids (q.seq_id ∷ []), s.ids);
        lens = omega (arith, length-append b.seq_lens (to_u32 (length tokens) ∷ []), s.lens);
        prefills = omega (arith, length-append b.is_prefill (true ∷ []), s.prefills);
        contexts = omega (arith, length-append b.context_lens (context_len q ∷ []), s.contexts);
        tables =
            omega (arith, length-append b.block_tables (sequence_block_table q ∷ []), s.tables);
        sum = omega (arith, total-append b.seq_lens (to_u32 (length tokens)), s.sum, r.small_input);
        sequences =
            check_sequences-append b.seq_ids b.seq_lens b.block_tables q.seq_id
              (to_u32 (length tokens)) (sequence_block_table q) (omega (arith, s.lens, s.ids))
              (omega (arith, s.tables, s.ids)) (omega (arith, r.has_input, r.small_input))
              (block_table_not_empty q r) s.sequences;
      }

  pub push_decode-Shaped :
      (token position : ℕ) → Shaped (n + 1) (t + 1) (push_decode b q token position)
  unfolding push_decode
  push_decode-Shaped token position = record {
    tokens = omega (arith, length-append b.input_tokens (token ∷ []), s.tokens);
    positions = omega (arith, length-append b.positions (position ∷ []), s.positions);
    ids = omega (arith, length-append b.seq_ids (q.seq_id ∷ []), s.ids);
    lens = omega (arith, length-append b.seq_lens (1 ∷ []), s.lens);
    prefills = omega (arith, length-append b.is_prefill (false ∷ []), s.prefills);
    contexts = omega (arith, length-append b.context_lens (context_len q ∷ []), s.contexts);
    tables = omega (arith, length-append b.block_tables (sequence_block_table q ∷ []), s.tables);
    sum = omega (arith, total-append b.seq_lens 1, s.sum);
    sequences =
        check_sequences-append b.seq_ids b.seq_lens b.block_tables q.seq_id 1
          (sequence_block_table q) (omega (arith, s.lens, s.ids)) (omega (arith, s.tables, s.ids))
          (omega arith) (block_table_not_empty q r) s.sequences;
  }

last?-some : (x : ℕ) (xs : List ℕ) → (y : ℕ) × (last? (x ∷ xs) ≡ some y)
last?-some x [] = (x, refl)
last?-some x (y ∷ xs) = last?-some y xs

has_last : (xs : List ℕ) → 0 < length xs → (y : ℕ) × (last? xs ≡ some y)
has_last [] h = absurd (omega arith)
has_last (x ∷ xs) h = last?-some x xs

-- A decode sequence with input tokens has a token to feed and a position.
pub add_decode_ok :
    (b : ExecutionBatch) (q : Sequence)
    → Ready q
    → (token : ℕ) × (position : ℕ) × (add_decode b q ≡ ok (push_decode b q token position))
      × (decode_input_token q ≡ some token)
      × (position ≡ context_len q - 1)
unfolding add_decode decode_input_token decode_position context_len
add_decode_ok b q r =
    let (y, e) = has_last q.request.input_tokens r.has_input in
    let p = context_len q - 1 in
    elim (Option-cases (last? q.request.output_tokens)) [
      | inl f ↦ (y, p, ground (arith, r.has_input, r.small_input), ground (arith, e, f), refl)
      | inr (z, f) ↦ (z, p, ground (arith, r.has_input, r.small_input), ground (arith, f), refl)
    ]
