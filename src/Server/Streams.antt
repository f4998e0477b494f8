-- ===== src/Server/Streams.antt =====
-- src/server.rs: the events of a streamed response, as functions of what the engine's loop sends
-- before it closes the channel. JSON and the id, the time and the model of a payload are left out.
use Prim.Native.String.{String}
use hetero_paged_infer.Prelude.{ℕ, suc, zero, ◌+◌, ◌-◌, not, Option, none, some, List, [], ◌∷◌, map}
use hetero_paged_infer.Prelude.Tests.{◌==◌, if◌then◌else◌}
use hetero_paged_infer.Prelude.Lists.{length, set}
use hetero_paged_infer.Error.{Message, text}
use hetero_paged_infer.Types.Request.{TokenLogprobs, CompletedRequest, stop}
use hetero_paged_infer.Server.Prepare.{unwrap_or}
use hetero_paged_infer.Server.Generation.{LogprobsOutput, Usage, usage_of, sum, as_str}

pub data RequestEvent : Type 0 where
  chunk : String → Option TokenLogprobs → RequestEvent
  done : CompletedRequest → RequestEvent

pub data StreamKind : Type 0 where
  completion chat : StreamKind

-- A choice of a chunk: its text, `content`, is missing in an empty `delta`.
pub record ChunkChoice : Type 0 where
  pub index : ℕ
  pub content : Option String
  pub logprobs : Option LogprobsOutput

pub record FinalChoice : Type 0 where
  pub index : ℕ
  pub content : Option String
  pub finish_reason : String

-- The data of an event: `data: ...`.
pub data SseEvent : Type 0 where
  chunk_payload : StreamKind → List ChunkChoice → SseEvent
  final_payload : StreamKind → List FinalChoice → Usage → SseEvent
  error_payload : Message → SseEvent
  done_marker : SseEvent

abbrev pub no_content : StreamKind → Option String
no_content completion = some ""
no_content chat = none

-- `(0..n).map(..)`, from `i` on
unfoldable pub chunk_choices :
    StreamKind → ℕ → ℕ → ℕ → String → Option LogprobsOutput → List ChunkChoice
chunk_choices kind i zero index s lp = []
chunk_choices kind i (suc n) index s lp =
    (if i == index
      then record { index = i; content = some s; logprobs = lp }
      else record { index = i; content = no_content kind; logprobs = none })
    ∷ chunk_choices kind (i + 1) n index s lp

unfoldable pub multi_chunk_payload : StreamKind → ℕ → ℕ → String → Option LogprobsOutput → SseEvent
multi_chunk_payload kind n index s lp = chunk_payload kind (chunk_choices kind 0 n index s lp)

unfoldable pub single_chunk_payload : StreamKind → String → Option LogprobsOutput → SseEvent
single_chunk_payload kind s lp = multi_chunk_payload kind 1 0 s lp

unfoldable pub final_choices : StreamKind → ℕ → List String → List FinalChoice
final_choices kind i [] = []
final_choices kind i (reason ∷ reasons) =
    record { index = i; content = no_content kind; finish_reason = reason }
    ∷ final_choices kind (i + 1) reasons

unfoldable pub multi_final_payload : StreamKind → List String → Usage → SseEvent
multi_final_payload kind reasons u = final_payload kind (final_choices kind 0 reasons) u

unfoldable pub single_final_payload : StreamKind → Usage → String → SseEvent
single_final_payload kind u reason = multi_final_payload kind (reason ∷ []) u

abbrev pub reason_of : CompletedRequest → String
reason_of c = as_str (unwrap_or c.finish_reason stop)

-- What follows the loop: `if let Some(message) = failure`, and the end marker.
unfoldable pub closing : Option Message → List SseEvent
closing none = done_marker ∷ []
closing (some message) = error_payload message ∷ done_marker ∷ []

-- The variables of the loop over the merged events of `n` candidates.
pub record Merge : Type 0 where
  pub remaining : ℕ
  pub finish_reasons : List (Option String)
  pub completion_tokens : List ℕ

abbrev pub after_success : ℕ → CompletedRequest → Merge → Merge
after_success i c m = record {
  remaining = m.remaining - 1;
  finish_reasons = set m.finish_reasons i (some (reason_of c));
  completion_tokens = set m.completion_tokens i (length c.output_tokens);
}

-- `vec![a; n]`
unfoldable pub repeated : {A : Type 0} → ℕ → A → List A
repeated zero a = []
repeated (suc n) a = a ∷ repeated n a

-- `logprobs` makes the response block of one token.
module _ (logprobs : TokenLogprobs → LogprobsOutput) (kind : StreamKind) (prompt_tokens : ℕ) where
  abbrev pub block_of : Option TokenLogprobs → Option LogprobsOutput
  block_of none = none
  block_of (some lp) = some (logprobs lp)

  unfoldable pub stream_response : List RequestEvent → List SseEvent
  stream_response [] =
      error_payload (text "engine loop ended before request completed") ∷ closing none
  stream_response (chunk s lp ∷ events) =
      single_chunk_payload kind s (block_of lp) ∷ stream_response events
  stream_response (done c ∷ events) =
      if c.success
      then single_final_payload kind (usage_of prompt_tokens (length c.output_tokens)) (reason_of c)
        ∷ closing none
      else closing c.error

  unfoldable pub all_done : Merge → SseEvent
  all_done m =
      multi_final_payload kind (map (λ r. unwrap_or r "stop") m.finish_reasons)
        (usage_of prompt_tokens (sum m.completion_tokens))

  abbrev pub ended_early : SseEvent
  ended_early = error_payload (text "engine loop ended before all candidates completed")

  -- After a failure: without a message, the stream counts as ended early.
  unfoldable pub failed_candidate : Option Message → List SseEvent
  failed_candidate none = ended_early ∷ closing none
  failed_candidate (some message) = closing (some message)

  unfoldable pub merge_events : ℕ → Merge → List (ℕ × RequestEvent) → List SseEvent
  merge_events n m [] = ended_early ∷ closing none
  merge_events n m ((i, chunk s lp) ∷ events) =
      multi_chunk_payload kind n i s (block_of lp) ∷ merge_events n m events
  merge_events n m ((i, done c) ∷ events) =
      let rest = merge_events n (after_success i c m) events in
      if not c.success
      then failed_candidate c.error
      else if m.remaining - 1 == 0
      then all_done (after_success i c m) ∷ closing none
      else rest

  unfoldable pub stream_response_multi : ℕ → List (ℕ × RequestEvent) → List SseEvent
  stream_response_multi n events =
      let start : Merge = record {
        remaining = n;
        finish_reasons = repeated n none;
        completion_tokens = repeated n 0;
      } in
      merge_events n start events
