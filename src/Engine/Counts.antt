-- ===== src/Engine/Counts.antt =====
-- src/engine.rs, `collect_completed_requests`: its results and the counters of the engine.
use hetero_paged_infer.Prelude.{ℕ, ◌+◌, ◌<◌, ◌≡◌, refl, List, [], map, ◌∷◌, arith}
use hetero_paged_infer.Prelude.Tests.{if◌then◌else◌}
use hetero_paged_infer.Prelude.Lists.{length, is_empty}
use hetero_paged_infer.Prelude.Words.{u64_mod}
use hetero_paged_infer.Types.Request.{Request, CompletedRequest}
use hetero_paged_infer.Scheduler.Requests.{take_completed_with_seq_ids}
use hetero_paged_infer.Pipeline.Executor.{Executor}
use hetero_paged_infer.Tokenizer.{Tokenizer}
use hetero_paged_infer.Engine.{InferenceEngine}
use hetero_paged_infer.Engine.Collection.{
  collect_each, collect_completed_requests, count_request, completed_request,
}

abbrev pub successes : List CompletedRequest → ℕ
successes [] = 0
successes (c ∷ cs) = (if c.success then 1 else 0) + successes cs

-- The results `cs` of `n` requests are counted in `e'`, from the counters of `e`.
pub record Counted {D S : Type 0} (e e' : InferenceEngine D S) (n : ℕ) (cs : List CompletedRequest)
    : Type 0 where
  pub one_each : length cs ≡ n
  pub completed : e'.completed_requests_count ≡ e.completed_requests_count + successes cs
  pub failed : e'.failed_requests_count + successes cs ≡ e.failed_requests_count + n

module _ {D S : Type 0} (tokenizer : Tokenizer D) (executor : Executor S) where
  collect_each-Counted :
      (rs : List (ℕ × Request)) (e : InferenceEngine D S)
      → e.completed_requests_count + length rs < u64_mod
      → e.failed_requests_count + length rs < u64_mod
      → let x = collect_each tokenizer executor rs e in Counted e x.1 (length rs) x.0.0
  unfolding collect_each count_request
  collect_each-Counted [] e h h' = record {
    one_each = refl;
    completed = omega arith;
    failed = omega arith;
  }
  collect_each-Counted ((seq_id, r) ∷ rs) e h h' =
      let c = completed_request tokenizer executor e.eos_token_id r in
      let e1 = count_request tokenizer executor r c.success e in
      let x = collect_each-Counted rs e1 (ground arith) (ground arith) in
      record {
        one_each = ground (arith, x.one_each);
        completed = ground (arith, x.completed);
        failed = ground (arith, x.failed);
      }

  -- The list of requests that came to an end, empty or not.
  done_cases :
      (done : List (ℕ × Request)) (e e0 e1 : InferenceEngine D S)
      → e0.completed_requests_count ≡ e.completed_requests_count
      → e0.failed_requests_count ≡ e.failed_requests_count
      → Counted e
          (collect_each tokenizer executor done e1).1
          (length done)
          (collect_each tokenizer executor done e1).0.0
      → let x = if is_empty done then (([], []), e0) else collect_each tokenizer executor done e1 in
        Counted e x.1 (length done) x.0.0
  done_cases [] e e0 e1 h k c = record {
    one_each = refl;
    completed = omega (arith, h);
    failed = omega (arith, k);
  }
  done_cases (d ∷ ds) e e0 e1 h k c = c

  -- As long as the counters do not reach 2 ^ 64, `collect_completed_requests` gives one result for
  -- each request that came to an end; the completed counter goes up by the number of successful
  -- results and the failed counter by the number of the others.
  pub collect_completed_requests-Counted :
      (e : InferenceEngine D S)
      → e.completed_requests_count + length e.scheduler.completed_requests < u64_mod
      → e.failed_requests_count + length e.scheduler.completed_requests < u64_mod
      → let x = collect_completed_requests tokenizer executor e in
        Counted e x.1 (length e.scheduler.completed_requests) x.0.0
  unfolding collect_completed_requests take_completed_with_seq_ids
  collect_completed_requests-Counted e h h' =
      let done = e.scheduler.completed_requests in
      let emptied = record e { scheduler = (take_completed_with_seq_ids e.scheduler).1 } in
      let e1 = record emptied {
        backend = executor.sequences_finished (map (λ d. d.0) done) e.backend;
      } in
      let x = collect_each-Counted done e1 h h' in
      done_cases done e emptied e1 refl refl
        (record { one_each = x.one_each; completed = x.completed; failed = x.failed })
