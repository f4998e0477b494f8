-- ===== src/Server/Examples.antt =====
-- The streams and the loop of the HTTP layer at concrete inputs.
use hetero_paged_infer.Server.Delivery.{events_to, SilentAfterDone, dones_to}
use hetero_paged_infer.Server.Offsets.{tokens_before_char-text_offset}
use hetero_paged_infer.Engine.Samples.{engine, dots}
use hetero_paged_infer.Pipeline.Mock.{mock, MockGpuExecutor}
use hetero_paged_infer.Server.Generation.{logprobs_from, logprobs_output, LogprobsOutput}
use hetero_paged_infer.Server.Stall.{watch-Stalled, Stalled}
use hetero_paged_infer.Server.Rounds.{submissions_of, inputs_of, rounds-channel, rounds}
use hetero_paged_infer.Server.Loop.{watch, Inputs, Loop}
use hetero_paged_infer.Engine.Text.{utf8_len, byte_len, tokens_before_char}
use hetero_paged_infer.Server.Protocol.{
  stream_response_multi-WellFormed, stream_response-multi, stream_response-WellFormed, WellFormed,
}
use hetero_paged_infer.Server.Streams.{
  completion, done, stream_response_multi, chat, chunk, RequestEvent, stream_response,
}
use hetero_paged_infer.Types.Request.{default_params, TokenLogprobs, CompletedRequest}
use hetero_paged_infer.Prelude.{◌≤◌, ◌≡◌, refl, true, false, none, List, [], ◌∷◌, map, arith}
use hetero_paged_infer.Prelude.Float.{fixed_point}

no_block : TokenLogprobs → LogprobsOutput
no_block lp = record { tokens = []; token_logprobs = []; top_logprobs = []; text_offset = [] }

abbrev hello : CompletedRequest
hello = record {
  request_id = 1;
  input_text = none;
  output_text = "hello";
  output_tokens = 5 ∷ 6 ∷ [];
  success = true;
  error = none;
  finish_reason = none;
  logprobs = none;
}

abbrev events : List RequestEvent
events = chunk "hel" none ∷ chunk "lo" none ∷ done hello ∷ []

stream_response-WellFormed_example : WellFormed 1 (stream_response no_block chat 3 events)
stream_response-WellFormed_example =
    stream_response-WellFormed no_block chat 3 events (tt, (tt, ((λ e. cc), tt)))

stream_response_multi-WellFormed_example :
    WellFormed 2
      (stream_response_multi no_block completion 3 2 ((1, done hello) ∷ (0, chunk "x" none) ∷ []))
stream_response_multi-WellFormed_example =
    stream_response_multi-WellFormed no_block completion 3 2
      ((1, done hello) ∷ (0, chunk "x" none) ∷ [])

stream_response-multi_example :
    stream_response no_block chat 3 events
    ≡ stream_response_multi no_block chat 3 1 (map (λ e. (0, e)) events)
stream_response-multi_example =
    stream_response-multi no_block chat 3 events (tt, (tt, ((λ e. cc), tt))) tt

abbrev two_tokens : List TokenLogprobs
two_tokens =
    record { token = 5; logprob = 0; top_logprobs = [] }
    ∷ record { token = 6; logprob = 0; top_logprobs = [] }
    ∷ []

tokens_before_char-text_offset_example :
    tokens_before_char dots.try_decode (map (λ (lp : TokenLogprobs). lp.token) two_tokens) 3 ≡ 1
unfolding byte_len utf8_len logprobs_output logprobs_from
tokens_before_char-text_offset_example =
    tokens_before_char-text_offset dots.try_decode 1 two_tokens 1 3 (omega arith, (omega arith, tt))
      refl

abbrev empty_loop : Loop (Unit {0}) MockGpuExecutor
empty_loop = record { engine = engine; waiters = []; idle_steps = 0 }

abbrev one_input : Inputs
one_input = record {
  awaited = none;
  queued = record { prompt = "hi"; params = default_params; events = 7 } ∷ [];
  is_open = λ i. true;
}

rounds-channel_example :
    let sent = (rounds fixed_point dots mock (one_input ∷ []) empty_loop).0 in
    (dones_to 7 sent ≤ inputs_of 7 (one_input ∷ []))
    × SilentAfterDone 7 sent
    × (inputs_of 7 (one_input ∷ []) ≡ 0 → events_to 7 sent ≡ 0)
unfolding inputs_of submissions_of
rounds-channel_example =
    rounds-channel 7 fixed_point dots mock (one_input ∷ []) empty_loop refl (omega arith)

abbrev stalled_loop : Loop (Unit {0}) MockGpuExecutor
stalled_loop = record { engine = engine; waiters = (2, 7) ∷ []; idle_steps = 99 }

watch-Stalled_example : Stalled stalled_loop (watch fixed_point dots mock false stalled_loop)
watch-Stalled_example = watch-Stalled fixed_point dots mock stalled_loop (omega arith)
