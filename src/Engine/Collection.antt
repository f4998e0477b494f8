-- ===== src/Engine/Collection.antt =====
-- src/engine.rs, `collect_completed_requests`: requests in a final state leave the scheduler.
use Prim.Native.String.{String}
use hetero_paged_infer.Prelude.{
  ℕ, ◌+◌, ◌%◌, Bool, true, false, not, ◌&&◌, ◌||◌, Option, none, some, List, [], ◌∷◌, ◌++◌, map,
}
use hetero_paged_infer.Prelude.Tests.{◌==◌, if◌then◌else◌, is_some}
use hetero_paged_infer.Prelude.Words.{succ_u64, u64_mod}
use hetero_paged_infer.Prelude.Lists.{length, is_empty, last?}
use hetero_paged_infer.Prelude.Results.{Result, ok, err, is_ok}
use hetero_paged_infer.SeqMap.{lookup, remove}
use hetero_paged_infer.Error.{Message, decode_failed}
use hetero_paged_infer.Types.Request.{
  Request, RequestState, completed, failed, TokenLogprobs, FinishReason, stop, length_limit,
  CompletedRequest,
}
use hetero_paged_infer.Scheduler.Requests.{take_completed_with_seq_ids}
use hetero_paged_infer.Pipeline.Executor.{Executor}
use hetero_paged_infer.Tokenizer.{Tokenizer}
use hetero_paged_infer.Engine.{InferenceEngine}
use hetero_paged_infer.Engine.Text.{is_empty_text}

-- `(request_id, text, logprob)`
abbrev pub StepChunk : Type 0
StepChunk = ℕ × String × Option TokenLogprobs

abbrev pub is_completed : RequestState → Bool
is_completed completed = true
is_completed _ = false

abbrev pub last_is : ℕ → Option ℕ → Bool
last_is eos none = false
last_is eos (some token) = token == eos

unfoldable pub succeeds : Request → Result String String → Bool
succeeds r decoded = is_completed r.state && is_ok decoded

unfoldable pub finish_reason_of : ℕ → Request → Bool → Option FinishReason
finish_reason_of eos r success =
    if success
    then some
        (if r.stop_sequence_hit || last_is eos (last? r.output_tokens) then stop else length_limit)
    else none

unfoldable pub error_of : RequestState → Result String String → Option Message
error_of (failed message) _ = some message
error_of _ (err message) = some (decode_failed message)
error_of _ (ok text) = none

abbrev pub text_or_empty : Result String String → String
text_or_empty (ok text) = text
text_or_empty (err message) = String.[]

abbrev pub text_if_ok : Result String String → Option String
text_if_ok (ok text) = some text
text_if_ok (err message) = none

-- `decoder.finish()`: the chunk of the text that is left, if there is any.
abbrev pub tail_chunk : ℕ → Result String (Option String) → List StepChunk
tail_chunk request_id (ok (some tail)) =
    if is_empty_text tail then [] else (request_id, tail, none) ∷ []
tail_chunk request_id (ok none) = []
tail_chunk request_id (err message) = []

module _ {D S : Type 0} (tokenizer : Tokenizer D) (executor : Executor S) where
  abbrev pub tail_of : ℕ → Option D → List StepChunk
  tail_of request_id none = []
  tail_of request_id (some decoder) = tail_chunk request_id (tokenizer.finish decoder).0

  unfoldable pub completed_request : ℕ → Request → CompletedRequest
  completed_request eos r =
      let decoded = tokenizer.try_decode r.output_tokens in
      let success = succeeds r decoded in
      record {
        request_id = r.id;
        input_text = text_if_ok (tokenizer.try_decode r.input_tokens);
        output_text = text_or_empty decoded;
        output_tokens = r.output_tokens;
        success = success;
        error = error_of r.state decoded;
        finish_reason = finish_reason_of eos r success;
        logprobs =
            if is_some r.params.logprobs && not (is_empty r.logprobs)
            then some r.logprobs
            else none;
      }

  -- The counters and the decoders after one request.
  unfoldable pub count_request : Request → Bool → InferenceEngine D S → InferenceEngine D S
  count_request r success e = record e {
    decoders = remove r.id e.decoders;
    total_tokens_generated = (e.total_tokens_generated + length r.output_tokens) % u64_mod;
    completed_requests_count =
        if success then succ_u64 e.completed_requests_count else e.completed_requests_count;
    failed_requests_count =
        if success then e.failed_requests_count else succ_u64 e.failed_requests_count;
  }

  -- The closure of `.map(|(_, req)| ..)` over the requests, in order.
  unfoldable pub collect_each :
      List (ℕ × Request)
      → InferenceEngine D S
      → (List CompletedRequest × List StepChunk) × InferenceEngine D S
  collect_each [] e = (([], []), e)
  collect_each ((seq_id, r) ∷ rs) e =
      let c = completed_request e.eos_token_id r in
      let tail = if c.success then tail_of r.id (lookup r.id e.decoders) else [] in
      let ((cs, tails), e') = collect_each rs (count_request r c.success e) in
      ((c ∷ cs, tail ++ tails), e')

  unfoldable pub collect_completed_requests :
      InferenceEngine D S → (List CompletedRequest × List StepChunk) × InferenceEngine D S
  collect_completed_requests e =
      let (done, s) = take_completed_with_seq_ids e.scheduler in
      let emptied = record e { scheduler = s } in
      if is_empty done
      then (([], []), emptied)
      else collect_each done
          (record emptied { backend = executor.sequences_finished (map (λ d. d.0) done) e.backend })
