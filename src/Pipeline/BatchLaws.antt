-- ===== src/Pipeline/BatchLaws.antt =====
-- src/execution_pipeline.rs: `build_execution_batch` against `validate_batch_shape`.
use hetero_paged_infer.Prelude.{
  ◌-◌, ℕ, ◌+◌, ◌<◌, ◌≡◌, refl, sym, ◌∙◌, ap, List, [], ◌∷◌, ◌++◌, map, arith,
}
use mathlib.Core.List.{append-nil, append_assoc, map-append}
use hetero_paged_infer.Prelude.Words.{u32_mod}
use hetero_paged_infer.Prelude.Lists.{length}
use hetero_paged_infer.Prelude.Results.{ok}
use hetero_paged_infer.Types.Sequences.{context_len, Sequence, SchedulerOutput, output_seq_ids}
use hetero_paged_infer.Types.Execution.{ExecutionBatch, empty_batch, batch_is_empty}
use hetero_paged_infer.Pipeline.Batches.{
  positions_from, add_prefill, add_prefills, push_decode, add_decode, add_decodes,
  build_execution_batch,
}
use hetero_paged_infer.Pipeline.Checks.{check_sequences, lengths_differ, validate_batch_shape}
use hetero_paged_infer.Pipeline.BatchTokens.{
  range, prompt_positions, last_positions, positions_from-range, prompts, last_token, last_tokens,
  decode_input_token-last_token,
}
use hetero_paged_infer.Pipeline.BatchSteps.{
  AllReady, input_size, sum_u32-total, Shaped, add_prefill-Shaped, push_decode-Shaped,
  add_decode_ok,
}

abbrev ids_of : List Sequence → List ℕ
ids_of = map (λ q. q.seq_id)

-- The batch after all sequences: its ids are those of the sequences, in order.
record Built (n t : ℕ) (ids tokens places : List ℕ) (b : ExecutionBatch) : Type 0 where
  shaped : Shaped n t b
  same_ids : b.seq_ids ≡ ids
  same_tokens : b.input_tokens ≡ tokens
  same_positions : b.positions ≡ places

Built-resp :
    (n n' t t' : ℕ) (ids ids' tokens tokens' places places' : List ℕ) (b : ExecutionBatch)
    → n ≡ n'
    → t ≡ t'
    → ids ≡ ids'
    → tokens ≡ tokens'
    → places ≡ places'
    → Built n t ids tokens places b
    → Built n' t' ids' tokens' places' b
Built-resp n n' t t' ids ids' tokens tokens' places places' b e f g h i x = rw (← e) (
    rw (← f) (record {
      shaped = x.shaped;
      same_ids = x.same_ids ∙ g;
      same_tokens = x.same_tokens ∙ h;
      same_positions = x.same_positions ∙ i;
    }))

add_prefills-Built :
    (qs : List Sequence) (n t : ℕ) (ids tokens places : List ℕ) (b : ExecutionBatch)
    → AllReady qs
    → Built n t ids tokens places b
    → Built
        (n + length qs)
        (t + input_size qs)
        (ids ++ ids_of qs)
        (tokens ++ prompts qs)
        (places ++ prompt_positions qs)
        (add_prefills b qs)
unfolding add_prefills
add_prefills-Built [] n t ids tokens places b r x =
    Built-resp n _ t _ ids _ tokens _ places _ b (omega arith) (omega arith) (sym (append-nil ids))
      (sym (append-nil tokens)) (sym (append-nil places)) x
add_prefills-Built (q ∷ qs) n t ids tokens places b r x =
    let prompt = q.request.input_tokens in
    let numbers = range 0 (length prompt) in
    let counted = positions_from-range 0 (length prompt) (omega (arith, r.0.small_input)) in
    Built-resp (n + 1 + length qs) _ (t + length prompt + input_size qs) _
      ((ids ++ q.seq_id ∷ []) ++ ids_of qs) _ ((tokens ++ prompt) ++ prompts qs) _
      ((places ++ numbers) ++ prompt_positions qs) _ _ (omega arith) (omega arith)
      (append_assoc ids (q.seq_id ∷ []) (ids_of qs)) (append_assoc tokens prompt (prompts qs))
      (append_assoc places numbers (prompt_positions qs))
      (add_prefills-Built qs (n + 1) (t + length prompt) (ids ++ q.seq_id ∷ []) (tokens ++ prompt)
        (places ++ numbers) (add_prefill b q) r.1
        (record {
          shaped = add_prefill-Shaped n t b q r.0 x.shaped;
          same_ids = unfold add_prefill in ap (λ l. l ++ q.seq_id ∷ []) x.same_ids;
          same_tokens = unfold add_prefill in ap (λ l. l ++ prompt) x.same_tokens;
          same_positions =
              unfold add_prefill in
              ap (λ l. l ++ positions_from 0 (length prompt)) x.same_positions
              ∙ ap (λ l. places ++ l) counted;
        }))

add_decodes_step :
    (b b' : ExecutionBatch) (q : Sequence) (qs : List Sequence)
    → add_decode b q ≡ ok b'
    → add_decodes b (q ∷ qs) ≡ add_decodes b' qs
unfolding add_decodes
add_decodes_step b b' q qs e = rw (e, add_decodes)

add_decodes-Built :
    (qs : List Sequence) (n t : ℕ) (ids tokens places : List ℕ) (b : ExecutionBatch)
    → AllReady qs
    → Built n t ids tokens places b
    → (b' : ExecutionBatch) × (add_decodes b qs ≡ ok b')
      × Built
          (n + length qs)
          (t + length qs)
          (ids ++ ids_of qs)
          (tokens ++ last_tokens qs)
          (places ++ last_positions qs)
          b'
unfolding add_decodes
add_decodes-Built [] n t ids tokens places b r x = (
  b,
  refl,
  Built-resp n _ t _ ids _ tokens _ places _ b (omega arith) (omega arith) (sym (append-nil ids))
      (sym (append-nil tokens)) (sym (append-nil places)) x,
)
add_decodes-Built (q ∷ qs) n t ids tokens places b r x =
    let (token, position, e, f, last) = add_decode_ok b q r.0 in
    let b' = push_decode b q token position in
    let fed = last_token (q.request.input_tokens ++ q.request.output_tokens) in
    let place = context_len q - 1 in
    let same = decode_input_token-last_token q q.request.input_tokens token refl r.0.has_input f in
    let (b'', g, y) =
      add_decodes-Built qs (n + 1) (t + 1) (ids ++ q.seq_id ∷ []) (tokens ++ fed ∷ [])
        (places ++ place ∷ []) b' r.1
        (record {
          shaped = push_decode-Shaped n t b q r.0 x.shaped token position;
          same_ids = unfold push_decode in ap (λ l. l ++ q.seq_id ∷ []) x.same_ids;
          same_tokens =
              unfold push_decode in
              ap (λ l. l ++ token ∷ []) x.same_tokens ∙ ap (λ i. tokens ++ i ∷ []) same;
          same_positions =
              unfold push_decode in
              ap (λ l. l ++ position ∷ []) x.same_positions ∙ ap (λ i. places ++ i ∷ []) last;
        }) in
    (
      b'',
      add_decodes_step b b' q qs e ∙ g,
      Built-resp (n + 1 + length qs) _ (t + 1 + length qs) _ ((ids ++ q.seq_id ∷ []) ++ ids_of qs) _
          ((tokens ++ fed ∷ []) ++ last_tokens qs) _ ((places ++ place ∷ []) ++ last_positions qs) _
          b'' (omega arith) (omega arith) (append_assoc ids (q.seq_id ∷ []) (ids_of qs))
          (append_assoc tokens (fed ∷ []) (last_tokens qs))
          (append_assoc places (place ∷ []) (last_positions qs)) y,
    )

Shaped-validates :
    (n t : ℕ) (b : ExecutionBatch) → t < u32_mod → Shaped n t b → validate_batch_shape b ≡ ok tt
unfolding validate_batch_shape lengths_differ batch_is_empty
Shaped-validates n t b small s = ground (
  arith,
  s.tokens,
  s.positions,
  s.ids,
  s.lens,
  s.prefills,
  s.contexts,
  s.tables,
  s.sum,
  s.sequences,
  sum_u32-total b.seq_lens,
)

-- From sequences that have input tokens and blocks, fewer than 2 ^ 32 tokens in all, the batch is
-- built without an error and passes `validate_batch_shape`: its ids are those of the prefill and
-- then the decode sequences, it has a block table for each, and its tokens are the prompts of the
-- prefills, one after the other, followed by the last token (of the prompt and the output) of each
-- decode sequence. The positions of a prompt are counted from 0, and the position of a decode token
-- is the length of its sequence's context less one.
pub build_execution_batch_ok :
    (o : SchedulerOutput)
    → AllReady o.prefill_sequences
    → AllReady o.decode_sequences
    → input_size o.prefill_sequences + length o.decode_sequences < u32_mod
    → (b : ExecutionBatch) × (build_execution_batch o ≡ ok b)
      × (validate_batch_shape b ≡ ok tt)
      × (b.seq_ids ≡ output_seq_ids o)
      × (b.input_tokens ≡ prompts o.prefill_sequences ++ last_tokens o.decode_sequences)
      × (b.positions ≡ prompt_positions o.prefill_sequences ++ last_positions o.decode_sequences)
      × (length b.block_tables ≡ length o.prefill_sequences + length o.decode_sequences)
unfolding build_execution_batch output_seq_ids
build_execution_batch_ok o p d small =
    let empty : Built 0 0 [] [] [] empty_batch = record {
      shaped = record {
        tokens = refl;
        positions = refl;
        ids = refl;
        lens = refl;
        prefills = refl;
        contexts = refl;
        tables = refl;
        sum = refl;
        sequences = unfold check_sequences in refl;
      };
      same_ids = refl;
      same_tokens = refl;
      same_positions = refl;
    } in
    let x = add_prefills-Built o.prefill_sequences 0 0 [] [] [] empty_batch p empty in
    let (b, e, y) = add_decodes-Built o.decode_sequences _ _ _ _ _ _ d x in
    (
      b,
      e,
      Shaped-validates _ _ b (omega arith) y.shaped,
      y.same_ids
          ∙ sym (map-append (λ (q : Sequence). q.seq_id) o.prefill_sequences o.decode_sequences),
      y.same_tokens,
      y.same_positions,
      omega (arith, y.shaped.tables),
    )
