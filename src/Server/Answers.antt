-- ===== src/Server/Answers.antt =====
-- src/server.rs: the state that the handlers share, and what a handler makes of the answers of the
-- engine's loop. An id is its prefix and its number; the time of a response is left out.
use Prim.Native.String.{String}
use hetero_paged_infer.Prelude.Tests.{if◌then◌else◌, ◌==◌}
use hetero_paged_infer.Prelude.{zero, suc, suc, ◌-◌, ℕ, ◌+◌, ◌%◌, List, [], ◌∷◌}
use hetero_paged_infer.Prelude.Words.{u64_mod, succ_u64}
use hetero_paged_infer.Prelude.Results.{Result, ok, err, ◌>>=◌}
use hetero_paged_infer.Error.{EngineError, text, ended_before_completion}
use hetero_paged_infer.Server.Errors.{ApiError, internal, of_engine_error}
use hetero_paged_infer.Server.Generation.{GenerationResult, generation_result}
use hetero_paged_infer.Server.Streams.{RequestEvent, chunk, done}

pub record ServerMetrics : Type 0 where
  pub requests_total : ℕ
  pub errors_total : ℕ
  pub inflight_requests : ℕ
  pub streaming_requests_total : ℕ

pub record AppState : Type 0 where
  pub metrics : ServerMetrics
  pub response_counter : ℕ

-- `InflightGuard::new`, and its `drop`; the counters wrap around
unfoldable pub guard_new : AppState → AppState
guard_new s = record s {
  metrics = record s.metrics { inflight_requests = succ_u64 s.metrics.inflight_requests };
}

unfoldable pub guard_drop : AppState → AppState
guard_drop s = record s {
  metrics = record s.metrics {
    inflight_requests = (s.metrics.inflight_requests + (u64_mod - 1)) % u64_mod;
  };
}

abbrev pub meter_request : AppState → AppState
meter_request s = record s {
  metrics = record s.metrics { requests_total = succ_u64 s.metrics.requests_total };
}

abbrev pub meter_error : AppState → AppState
meter_error s = record s {
  metrics = record s.metrics { errors_total = succ_u64 s.metrics.errors_total };
}

abbrev pub meter_stream : AppState → AppState
meter_stream s = record s {
  metrics = record s.metrics {
    streaming_requests_total = succ_u64 s.metrics.streaming_requests_total;
  };
}

unfoldable pub next_id : String → AppState → (String × ℕ) × AppState
next_id prefix s =
    ((prefix, s.response_counter), record s { response_counter = succ_u64 s.response_counter })

-- What becomes of a submission: the loop is gone, it drops the request, or it answers.
pub data SubmitOutcome : Type 0 where
  not_running dropped : SubmitOutcome
  answered : Result EngineError (ℕ × ℕ) → SubmitOutcome

-- The request's id and the length of its prompt.
unfoldable pub submit : SubmitOutcome → Result ApiError (ℕ × ℕ)
submit not_running = err (internal (text "engine loop is not running"))
submit dropped = err (internal (text "engine loop dropped the request"))
submit (answered (ok admission)) = ok admission
submit (answered (err e)) = err (of_engine_error e)

unfoldable pub await_done : ℕ → ℕ → List RequestEvent → Result ApiError GenerationResult
await_done request_id prompt_tokens [] = err (internal (ended_before_completion request_id))
await_done request_id prompt_tokens (chunk s lp ∷ events) =
    await_done request_id prompt_tokens events
await_done request_id prompt_tokens (done c ∷ events) = generation_result prompt_tokens c

abbrev pub await_admitted :
    List RequestEvent → Result ApiError (ℕ × ℕ) → Result ApiError GenerationResult
await_admitted events (err e) = err e
await_admitted events (ok (request_id, prompt_tokens)) = await_done request_id prompt_tokens events

unfoldable pub generate : SubmitOutcome → List RequestEvent → Result ApiError GenerationResult
generate outcome events = await_admitted events (submit outcome)

abbrev pub map_cons :
    GenerationResult
    → Result ApiError (List GenerationResult)
    → Result ApiError (List GenerationResult)
map_cons g (ok gs) = ok (g ∷ gs)
map_cons g (err e) = err e

-- The loop `for _ in 0..prepared.n` that spawns a task for each candidate: the set of the tasks, by
-- the results that they will have, the i-th to end with `results i`. A task that panics has an error.
unfoldable pub spawn_candidates :
    ℕ → ℕ → (ℕ → Result ApiError GenerationResult) → List (Result ApiError GenerationResult)
spawn_candidates i zero results = []
spawn_candidates i (suc n) results = results i ∷ spawn_candidates (i + 1) n results

-- The loop over `set.join_next()`: the tasks in the order in which they end.
unfoldable pub join_candidates :
    List (Result ApiError GenerationResult) → Result ApiError (List GenerationResult)
join_candidates [] = ok []
join_candidates (err e ∷ rest) = err e
join_candidates (ok g ∷ rest) = map_cons g (join_candidates rest)

unfoldable pub generate_many :
    ℕ → (ℕ → Result ApiError GenerationResult) → Result ApiError (List GenerationResult)
generate_many n results = join_candidates (spawn_candidates 0 n results)

-- The loop `for _ in 0..prepared.n` over the candidates of a stream, with `streams` of them accepted
-- so far and `n` left: the length of the prompt, from the first admission.
unfoldable pub submit_each : (ℕ → SubmitOutcome) → ℕ → ℕ → ℕ → Result ApiError ℕ
submit_each outcomes streams zero prompt_tokens = ok prompt_tokens
submit_each outcomes streams (suc n) prompt_tokens = do
  admission ← submit (outcomes streams)
  submit_each outcomes (streams + 1) n (if streams == 0 then admission.1 else prompt_tokens)

unfoldable pub submit_candidates : ℕ → (ℕ → SubmitOutcome) → Result ApiError ℕ
submit_candidates n outcomes = submit_each outcomes 0 n 0
