-- ===== src/Server/Protocol.antt =====
-- src/server.rs: what a client may rely on in a stream.
use Prim.Native.String.{String}
use hetero_paged_infer.Prelude.{◌∙◌}
use hetero_paged_infer.Prelude.Lists.{length-map, length-set}
use hetero_paged_infer.Engine.Accounts.{both_branches}
use hetero_paged_infer.Server.Prepare.{unwrap_or}
use hetero_paged_infer.Server.Generation.{usage_of, sum, Usage, LogprobsOutput}
use hetero_paged_infer.Error.{Message}
use hetero_paged_infer.Types.Request.{CompletedRequest, TokenLogprobs}
use hetero_paged_infer.Server.Streams.{
  chunk_payload, ChunkChoice, reason_of, error_payload, done_marker, after_success,
  single_chunk_payload, final_payload, Merge, multi_final_payload, multi_chunk_payload,
  single_final_payload, stream_response, failed_candidate, all_done, stream_response_multi,
  FinalChoice, done, merge_events, chunk, StreamKind, chunk_choices, RequestEvent, final_choices,
  SseEvent, repeated, closing,
}
use hetero_paged_infer.Prelude.{
  ◌∙◌, ℕ, suc, zero, ◌+◌, ◌-◌, ◌≡◌, ◌≢◌, refl, ap, false, not, Option, none, some, List, [], ◌∷◌,
  map, arith, inl, inr,
}
use hetero_paged_infer.Prelude.Tests.{◌==◌, Bool-cases}
use hetero_paged_infer.Prelude.Lists.{length-set, length}

-- Chunks of `n` choices each, then one final payload of `n` choices or one error, and the end marker.
pub data WellFormed (n : ℕ) : List SseEvent → Type 0 where
  ends :
      {kind : StreamKind} {choices : List FinalChoice} {u : Usage}
      → length choices ≡ n
      → WellFormed n (final_payload kind choices u ∷ done_marker ∷ [])
  fails : {m : Message} → WellFormed n (error_payload m ∷ done_marker ∷ [])
  next :
      {kind : StreamKind} {choices : List ChunkChoice} {events : List SseEvent}
      → length choices ≡ n
      → WellFormed n events
      → WellFormed n (chunk_payload kind choices ∷ events)

-- A request that failed says why.
abbrev pub Reported : RequestEvent → Type 0
Reported (chunk s lp) = Unit {0}
Reported (done c) = c.success ≡ false → c.error ≢ none

abbrev pub AllReported : List RequestEvent → Type 0
AllReported [] = Unit {0}
AllReported (e ∷ es) = Reported e × AllReported es

length-chunk_choices :
    (kind : StreamKind) (i n index : ℕ) (s : String) (lp : Option LogprobsOutput)
    → length (chunk_choices kind i n index s lp) ≡ n
unfolding chunk_choices
length-chunk_choices kind i zero index s lp = refl
length-chunk_choices kind i (suc n) index s lp =
    ap suc (length-chunk_choices kind (i + 1) n index s lp)

length-final_choices :
    (kind : StreamKind) (i : ℕ) (reasons : List String)
    → length (final_choices kind i reasons) ≡ length reasons
unfolding final_choices
length-final_choices kind i [] = refl
length-final_choices kind i (r ∷ rs) = ap suc (length-final_choices kind (i + 1) rs)

closing-WellFormed : (n : ℕ) (o : Option Message) → o ≢ none → WellFormed n (closing o)
unfolding closing
closing-WellFormed n none h = absurd (h refl)
closing-WellFormed n (some m) h = fails

length-repeated : {A : Type 0} (n : ℕ) (a : A) → length (repeated n a) ≡ n
unfolding repeated
length-repeated zero a = refl
length-repeated (suc n) a = ap suc (length-repeated n a)

-- The loop that owns the engine has sent the result.
abbrev pub HasResult : List RequestEvent → Type 0
HasResult [] = ¬ Unit {0}
HasResult (chunk s lp ∷ es) = HasResult es
HasResult (done c ∷ es) = Unit {0}

abbrev alone : Merge
alone = record { remaining = 1; finish_reasons = none ∷ []; completion_tokens = 0 ∷ [] }

module _ (logprobs : TokenLogprobs → LogprobsOutput) (kind : StreamKind) (prompt_tokens : ℕ) where
  -- Where every request that failed says why, a stream of one candidate is a list of chunks of one
  -- choice, then either one final payload with one choice or one error, then the end marker.
  pub stream_response-WellFormed :
      (events : List RequestEvent)
      → AllReported events
      → WellFormed 1 (stream_response logprobs kind prompt_tokens events)
  unfolding stream_response single_final_payload multi_final_payload final_choices closing
      single_chunk_payload multi_chunk_payload chunk_choices
  stream_response-WellFormed [] h = fails
  stream_response-WellFormed (chunk s lp ∷ events) (t, h) =
      next refl (stream_response-WellFormed events h)
  stream_response-WellFormed (done c ∷ events) (r, h) = elim (Bool-cases c.success) [
    | inl e ↦ rw e (ends refl)
    | inr e ↦ rw e (closing-WellFormed 1 c.error (r e))
  ]

  all_done-WellFormed :
      (m : Merge)
      → WellFormed (length m.finish_reasons) (all_done logprobs kind prompt_tokens m ∷ closing none)
  unfolding all_done closing multi_final_payload
  all_done-WellFormed m =
      let reasons = map (λ r. unwrap_or r "stop") m.finish_reasons in
      ends (length-final_choices kind 0 reasons ∙ length-map _ m.finish_reasons)

  failed_candidate-WellFormed :
      (n : ℕ) (o : Option Message) → WellFormed n (failed_candidate logprobs kind prompt_tokens o)
  unfolding failed_candidate closing
  failed_candidate-WellFormed n none = fails
  failed_candidate-WellFormed n (some m) = fails

  merge_events-WellFormed :
      (n : ℕ) (m : Merge) (events : List (ℕ × RequestEvent))
      → length m.finish_reasons ≡ n
      → WellFormed n (merge_events logprobs kind prompt_tokens n m events)
  unfolding merge_events multi_chunk_payload closing
  merge_events-WellFormed n m [] h = fails
  merge_events-WellFormed n m ((i, chunk s lp) ∷ events) h =
      next (length-chunk_choices kind 0 n i s _) (merge_events-WellFormed n m events h)
  merge_events-WellFormed n m ((i, done c) ∷ events) h =
      let m' = after_success i c m in
      let l : length m'.finish_reasons ≡ n =
        length-set m.finish_reasons i (some (reason_of c)) ∙ h in
      both_branches (WellFormed n) (not c.success) _ _ (failed_candidate-WellFormed n c.error) (
        both_branches (WellFormed n) (m.remaining - 1 == 0) _ _ (rw (← l) (all_done-WellFormed m'))
          (merge_events-WellFormed n m' events l))

  -- Whatever events the `n` candidates send, in whatever order they arrive, the merged stream is a
  -- list of chunks of `n` choices, then either one final payload of `n` choices or one error, then the end
  -- marker.
  pub stream_response_multi-WellFormed :
      (n : ℕ) (events : List (ℕ × RequestEvent))
      → WellFormed n (stream_response_multi logprobs kind prompt_tokens n events)
  unfolding stream_response_multi
  stream_response_multi-WellFormed n events =
      merge_events-WellFormed n _ events (length-repeated n none)

  failed_alone :
      (o : Option Message) → o ≢ none → closing o ≡ failed_candidate logprobs kind prompt_tokens o
  unfolding failed_candidate
  failed_alone none h = absurd (h refl)
  failed_alone (some m) h = refl

  done_alone :
      (c : CompletedRequest)
      → single_final_payload kind (usage_of prompt_tokens (length c.output_tokens)) (reason_of c)
        ≡ all_done logprobs kind prompt_tokens (after_success 0 c alone)
  unfolding all_done single_final_payload sum
  done_alone c =
      let same : length c.output_tokens + 0 ≡ length c.output_tokens = omega arith in rw same refl

  one_candidate :
      (events : List RequestEvent)
      → AllReported events
      → HasResult events
      → stream_response logprobs kind prompt_tokens events
        ≡ merge_events logprobs kind prompt_tokens 1 alone (map (λ e. (0, e)) events)
  unfolding stream_response merge_events single_chunk_payload
  one_candidate [] h t = absurd (t tt)
  one_candidate (chunk s lp ∷ events) (r, h) t = rw (one_candidate events h t) refl
  one_candidate (done c ∷ events) (r, h) t = elim (Bool-cases c.success) [
    | inl e ↦ rw (e, done_alone c) refl
    | inr e ↦ rw (e, failed_alone c.error (r e)) refl
  ]

  -- A stream of one candidate that ends with a result, and says why where that is a failure, is the
  -- merged stream of this candidate alone.
  pub stream_response-multi :
      (events : List RequestEvent)
      → AllReported events
      → HasResult events
      → stream_response logprobs kind prompt_tokens events
        ≡ stream_response_multi logprobs kind prompt_tokens 1 (map (λ e. (0, e)) events)
  unfolding stream_response_multi repeated
  stream_response-multi events h t = one_candidate events h t
