-- ===== src/Engine/Steps.antt =====
-- src/engine.rs: `step_events` with `apply_stop_sequences`.
use Prim.Native.String.{String}
use hetero_paged_infer.Prelude.{ℕ, Option, none, some, List, [], ◌∷◌, ◌++◌}
use hetero_paged_infer.Prelude.Tests.{if◌then◌else◌, is_some}
use hetero_paged_infer.Prelude.Lists.{is_empty, last?}
use hetero_paged_infer.Prelude.Float.{FloatOps}
use hetero_paged_infer.Prelude.Results.{Result, ok, err}
use hetero_paged_infer.SeqMap.{SeqMap, lookup, insert, remove}
use hetero_paged_infer.Error.{EngineError, error_text, decode_failed}
use hetero_paged_infer.Types.Request.{Request, TokenLogprobs, CompletedRequest}
use hetero_paged_infer.Types.Sequences.{Sequence, SchedulerOutput, output_is_empty, output_seq_ids}
use hetero_paged_infer.Types.Execution.{ExecutionOutput}
use hetero_paged_infer.Scheduler.{Scheduler, fail_sequences}
use hetero_paged_infer.Scheduler.Schedule.{schedule}
use hetero_paged_infer.Scheduler.Update.{update_sequences}
use hetero_paged_infer.Scheduler.Requests.{
  get_request_by_id, fail_by_request_id, complete_by_stop_sequence,
}
use hetero_paged_infer.Pipeline.Executor.{Executor}
use hetero_paged_infer.Pipeline.Execution.{execute}
use hetero_paged_infer.Tokenizer.{Tokenizer}
use hetero_paged_infer.Engine.{InferenceEngine}
use hetero_paged_infer.Engine.Text.{is_empty_text, find_stop_sequence, tokens_before_char}
use hetero_paged_infer.Engine.Collection.{StepChunk, collect_completed_requests}

pub record StepEvents : Type 0 where
  pub completed_requests : List CompletedRequest
  pub chunks : List StepChunk

-- `request_id_by_seq`: a later sequence of the same id overwrites an earlier one.
unfoldable pub request_id_by_seq : List Sequence → SeqMap ℕ → SeqMap ℕ
request_id_by_seq [] ids = ids
request_id_by_seq (q ∷ qs) ids = request_id_by_seq qs (insert q.seq_id q.request.id ids)

-- The tokens of the output, by request: the loop over `seq_ids.zip(next_tokens)`.
unfoldable pub generated_tokens : SeqMap ℕ → List ℕ → List ℕ → List (ℕ × ℕ)
generated_tokens ids [] tokens = []
generated_tokens ids (seq_id ∷ seq_ids) [] = []
generated_tokens ids (seq_id ∷ seq_ids) (token ∷ tokens) =
    let rest = generated_tokens ids seq_ids tokens in
    elim (lookup seq_id ids) [ some request_id ↦ (request_id, token) ∷ rest | none ↦ rest ]

-- The logprob that goes out with a token.
abbrev pub token_logprobs : Option Request → Option TokenLogprobs
token_logprobs none = none
token_logprobs (some r) = if is_some r.params.logprobs then last? r.logprobs else none

module _ {D : Type 0} (tokenizer : Tokenizer D) where
  -- Where the output of a request is to be cut, by the text that it decodes to.
  unfoldable pub stop_offset : Request → Result String String → Option ℕ
  stop_offset r (err message) = none
  stop_offset r (ok decoded) = elim (find_stop_sequence decoded r.params.stop) [
    | none ↦ none
    | some start ↦ some (tokens_before_char tokenizer.try_decode r.output_tokens start)
  ]

  abbrev pub keep_of : Option Request → Option ℕ
  keep_of none = none
  keep_of (some r) =
      if is_empty r.params.stop then none else stop_offset r (tokenizer.try_decode r.output_tokens)

  -- `to_stop`: the requests that hit a stop sequence, and how many tokens each keeps.
  unfoldable pub requests_to_stop : Scheduler → List (ℕ × ℕ) → List (ℕ × ℕ)
  requests_to_stop s [] = []
  requests_to_stop s ((request_id, token) ∷ generated) =
      let rest = requests_to_stop s generated in
      elim (keep_of (get_request_by_id s request_id)) [
        | none ↦ rest
        | some keep ↦ (request_id, keep) ∷ rest
      ]

unfoldable pub stop_each : {D S : Type 0} → List (ℕ × ℕ) → InferenceEngine D S → InferenceEngine D S
stop_each [] e = e
stop_each ((request_id, keep) ∷ stops) e = stop_each stops (record e {
  scheduler = (complete_by_stop_sequence e.scheduler request_id keep).1;
  decoders = remove request_id e.decoders;
})

-- What a pushed token gives: a chunk, nothing, or the failure of the request.
unfoldable pub pushed :
    {D S : Type 0}
    → ℕ
    → Option TokenLogprobs
    → Result String (Option String)
    → InferenceEngine D S
    → List StepChunk × InferenceEngine D S
pushed request_id lp (ok none) e = ([], e)
pushed request_id lp (ok (some chunk)) e =
    (if is_empty_text chunk then [] else (request_id, chunk, lp) ∷ [], e)
pushed request_id lp (err message) e = (
  [],
  record e { scheduler = (fail_by_request_id e.scheduler request_id (decode_failed message)).1 },
)

module _ {D S : Type 0} (tokenizer : Tokenizer D) where
  unfoldable pub apply_stop_sequences : List (ℕ × ℕ) → InferenceEngine D S → InferenceEngine D S
  apply_stop_sequences generated e = stop_each (requests_to_stop tokenizer e.scheduler generated) e

  unfoldable pub push_token_of :
      ℕ → ℕ → Option D → InferenceEngine D S → List StepChunk × InferenceEngine D S
  push_token_of request_id token none e = ([], e)
  push_token_of request_id token (some decoder) e =
      let (r, decoder') = tokenizer.push decoder token in
      pushed request_id (token_logprobs (get_request_by_id e.scheduler request_id)) r
        (record e { decoders = insert request_id decoder' e.decoders })

  unfoldable pub push_tokens :
      List (ℕ × ℕ) → InferenceEngine D S → List StepChunk × InferenceEngine D S
  push_tokens [] e = ([], e)
  push_tokens ((request_id, token) ∷ generated) e =
      let (chunk, e1) = push_token_of request_id token (lookup request_id e.decoders) e in
      let (chunks, e2) = push_tokens generated e1 in (chunk ++ chunks, e2)

module _ {D S : Type 0} (ops : FloatOps) (tokenizer : Tokenizer D) (executor : Executor S) where
  -- The step after the batch has run.
  unfoldable pub finish_step :
      List (ℕ × ℕ) → InferenceEngine D S → Result EngineError StepEvents × InferenceEngine D S
  finish_step generated e =
      let (chunks, e1) =
        push_tokens tokenizer generated (apply_stop_sequences tokenizer generated e) in
      let ((done, tails), e2) = collect_completed_requests tokenizer executor e1 in
      (ok (record { completed_requests = done; chunks = chunks ++ tails }), e2)

  -- The step after the batch has failed.
  unfoldable pub fail_step :
      SchedulerOutput
      → EngineError
      → InferenceEngine D S
      → Result EngineError StepEvents × InferenceEngine D S
  fail_step o x e =
      let s = fail_sequences e.scheduler (output_seq_ids o) (error_text x) in
      let ((done, tails), e1) =
        collect_completed_requests tokenizer executor (record e { scheduler = s }) in
      (
        if is_empty done then err x else ok (record { completed_requests = done; chunks = tails }),
        e1,
      )

  unfoldable pub executed :
      SchedulerOutput
      → Result EngineError ExecutionOutput
      → InferenceEngine D S
      → Result EngineError StepEvents × InferenceEngine D S
  executed o (err x) e = fail_step o x e
  executed o (ok out) e =
      let ids = request_id_by_seq (o.prefill_sequences ++ o.decode_sequences) [] in
      finish_step (generated_tokens ids out.seq_ids out.next_tokens)
        (record e { scheduler = update_sequences e.scheduler out e.eos_token_id })

  unfoldable pub step_events :
      InferenceEngine D S → Result EngineError StepEvents × InferenceEngine D S
  step_events e0 =
      let (o, s) = schedule ops e0.scheduler in
      let e = record e0 { scheduler = s } in
      let (r, b) = execute executor e.max_retry_attempts o e.backend in
      if output_is_empty o then finish_step [] e else executed o r (record e { backend = b })
