-- ===== src/Engine/Submission.antt =====
-- src/engine.rs, `submit_request`: its two outcomes.
use Prim.Native.String.{String}
use hetero_paged_infer.Prelude.{
  ℕ, ◌+◌, ◌≤◌, ◌≡◌, refl, Bool, List, [], ◌∷◌, ◌++◌, ◌⊎◌, inl, inr, arith,
}
use hetero_paged_infer.Prelude.Tests.{leb}
use hetero_paged_infer.Prelude.Lists.{length}
use hetero_paged_infer.Prelude.Words.{succ_u64}
use hetero_paged_infer.Prelude.Float.{FloatOps}
use hetero_paged_infer.Prelude.Results.{Result, ok, err, ◌>>=◌}
use hetero_paged_infer.Error.{EngineError, memory_pressure, max_concurrent_sequences_reached}
use hetero_paged_infer.Config.{EngineConfig}
use hetero_paged_infer.Types.Request.{Request, GenerationParams, new_request}
use hetero_paged_infer.Scheduler.{
  Scheduler, num_active_sequences, add_request, push_pending, update_memory_pressure,
}
use hetero_paged_infer.Pipeline.Executor.{Executor}
use hetero_paged_infer.Pipeline.Retries.{Result-cases}
use hetero_paged_infer.Engine.Accounts.{both_branches}
use hetero_paged_infer.Tokenizer.{Tokenizer}
use hetero_paged_infer.Engine.{
  InferenceEngine, tokenization_error, check_lengths, check_params, check_submission, submitted,
  submit_request,
}

bind_ok :
    {E A B : Type 0} (m : Result E A) (f : A → Result E B) (b : B)
    → (m >>= f) ≡ ok b
    → (a : A) × (m ≡ ok a) × (f a ≡ ok b)
bind_ok (ok a) f b h = (a, refl, h)
bind_ok (err e) f b h = cc

tokenization_ok :
    (r : Result String (List ℕ)) (tokens : List ℕ)
    → tokenization_error r ≡ ok tokens
    → r ≡ ok tokens
tokenization_ok (ok ts) tokens h = ground arith
tokenization_ok (err m) tokens h = cc

check_lengths_ok :
    (c : EngineConfig) (params : GenerationParams) (ts tokens : List ℕ)
    → check_lengths c params ts ≡ ok tokens
    → (ts ≡ tokens) × (length ts + params.max_tokens ≤ c.max_model_len)
unfolding check_lengths
check_lengths_ok c params ts tokens h = (ground arith, ground arith)

module _ {D S : Type 0} (ops : FloatOps) (tokenizer : Tokenizer D) (executor : Executor S) where
  check_submission_ok :
      (e : InferenceEngine D S) (text : String) (params : GenerationParams) (tokens : List ℕ)
      → check_submission ops tokenizer executor e text params ≡ ok tokens
      → (tokenizer.try_encode text ≡ ok tokens)
        × (length tokens + params.max_tokens ≤ e.config.max_model_len)
  unfolding check_submission
  check_submission_ok e text params tokens h =
      let encoded = tokenization_error (tokenizer.try_encode text) in
      let lengths = check_lengths e.config params in
      let x =
        bind_ok (check_params ops tokenizer executor e text params) (λ _. encoded >>= lengths)
          tokens h in
      let y = bind_ok encoded lengths tokens x.2 in
      let l = check_lengths_ok e.config params y.0 tokens y.2 in
      (tokenization_ok (tokenizer.try_encode text) tokens (rw (← l.0) y.1), rw (← l.0) l.1)

module _ {D S : Type 0} where
  -- A rejected request leaves the engine as it was, but for the scheduler's view of the memory
  -- pressure.
  pub record Rejected (e e' : InferenceEngine D S) : Type 0 where
    pub pressure : Bool
    pub unchanged :
        e' ≡ record e { scheduler = record e.scheduler { under_memory_pressure = pressure } }

  -- An accepted request stands last in the pending queue, under the next ids of both.
  pub record Accepted (e e' : InferenceEngine D S) (r : Request) : Type 0 where
    pub pending_queue :
        e'.scheduler.pending_queue
        ≡ e.scheduler.pending_queue ++ record { seq_id = e.scheduler.next_seq_id; request = r } ∷ []
    pub next_request_id : e'.next_request_id ≡ succ_u64 e.next_request_id
    pub total_requests : e'.total_requests ≡ succ_u64 e.total_requests
    pub next_seq_id : e'.scheduler.next_seq_id ≡ succ_u64 e.scheduler.next_seq_id
    pub completed_requests_count : e'.completed_requests_count ≡ e.completed_requests_count
    pub failed_requests_count : e'.failed_requests_count ≡ e.failed_requests_count
    pub total_tokens_generated : e'.total_tokens_generated ≡ e.total_tokens_generated
    pub prefill_sequences : e'.scheduler.prefill_sequences ≡ e.scheduler.prefill_sequences
    pub decode_sequences : e'.scheduler.decode_sequences ≡ e.scheduler.decode_sequences
    pub completed_requests : e'.scheduler.completed_requests ≡ e.scheduler.completed_requests
    pub kv_cache : e'.scheduler.kv_cache ≡ e.scheduler.kv_cache

module _ {D S : Type 0} (ops : FloatOps) (tokenizer : Tokenizer D) (executor : Executor S) where
  abbrev Added : InferenceEngine D S → ℕ → Request → Result EngineError ℕ × Scheduler → Type 0
  Added e n r added =
      let x = submitted ops tokenizer executor e n added in
      ((y : EngineError) × (x.0 ≡ err y) × Rejected e x.1)
      ⊎ ((x.0 ≡ ok (e.next_request_id, n)) × Accepted e x.1 r)

  rejected :
      (e : InferenceEngine D S) (n : ℕ) (r : Request) (y : EngineError) (b : Bool)
      → Added e n r (err y, record e.scheduler { under_memory_pressure = b })
  unfolding submitted
  rejected e n r y b = inl (y, refl, record { pressure = b; unchanged = refl })

  accepted :
      (e : InferenceEngine D S) (n : ℕ) (r : Request) (b : Bool)
      → let i = e.scheduler.next_seq_id in
        let s = record e.scheduler { under_memory_pressure = b; next_seq_id = succ_u64 i } in
        Added e n r (ok i, push_pending i r s)
  unfolding submitted push_pending
  accepted e n r b = inr (
    refl,
    record {
      pending_queue = refl;
      next_request_id = refl;
      total_requests = refl;
      next_seq_id = refl;
      completed_requests_count = refl;
      failed_requests_count = refl;
      total_tokens_generated = refl;
      prefill_sequences = refl;
      decode_sequences = refl;
      completed_requests = refl;
      kv_cache = refl;
    },
  )

  -- What follows the checks.
  add_cases :
      (e : InferenceEngine D S) (n : ℕ) (r : Request) → Added e n r (add_request ops e.scheduler r)
  unfolding add_request update_memory_pressure
  add_cases e n r =
      let s = update_memory_pressure ops e.scheduler in
      let full = leb s.config.max_num_seqs (length s.pending_queue + num_active_sequences s) in
      let b = s.under_memory_pressure in
      let most = max_concurrent_sequences_reached s.config.max_num_seqs in
      both_branches (Added e n r) b _ _ (rejected e n r memory_pressure b)
        (both_branches (Added e n r) full _ _ (rejected e n r most b) (accepted e n r b))

  -- `submit_request` either fails and leaves the whole engine as it was, but for the scheduler's flag
  -- of memory pressure, or it encodes the whole text, the prompt and the tokens asked for fit in
  -- `max_model_len`, and the request is the last of the pending queue under the next request id,
  -- which it returns with the length of the prompt; both ids and `total_requests` go up by one, and
  -- the other counters, the active sequences, the completed requests and the KV cache are as before.
  pub submit_request_cases :
      (e : InferenceEngine D S) (text : String) (params : GenerationParams)
      → let x = submit_request ops tokenizer executor e text params in
        ((y : EngineError) × (x.0 ≡ err y) × Rejected e x.1)
        ⊎ ((tokens : List ℕ) × (tokenizer.try_encode text ≡ ok tokens)
            × (length tokens + params.max_tokens ≤ e.config.max_model_len)
            × (x.0 ≡ ok (e.next_request_id, length tokens))
            × Accepted e x.1 (new_request e.next_request_id tokens params))
  unfolding submit_request
  submit_request_cases e text params =
      elim (Result-cases (check_submission ops tokenizer executor e text params)) [
        | inr (y, h) ↦
            rw (h, submit_request)
              (inl (
                y,
                refl,
                record { pressure = e.scheduler.under_memory_pressure; unchanged = refl },
              ))
        | inl (tokens, h) ↦
            let c = check_submission_ok ops tokenizer executor e text params tokens h in
            rw (h, submit_request)
              (elim (add_cases e (length tokens) (new_request e.next_request_id tokens params)) [
                | inl x ↦ inl x
                | inr (x, a) ↦ inr (tokens, c.0, c.1, x, a)
              ])
      ]
