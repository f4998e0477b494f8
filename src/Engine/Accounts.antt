-- ===== src/Engine/Accounts.antt =====
-- src/engine.rs, `step_events`: what becomes of the scheduler of the engine.
use hetero_paged_infer.Prelude.{
  map, ap, ◌∙◌, ◌+◌, arith, ℕ, ◌≡◌, refl, List, [], ◌∷◌, Bool, true, false,
}
use hetero_paged_infer.Prelude.Tests.{if◌then◌else◌}
use hetero_paged_infer.Prelude.Float.{FloatOps}
use hetero_paged_infer.Prelude.Results.{Result, ok, err}
use hetero_paged_infer.Prelude.Lists.{is_empty}
use hetero_paged_infer.Error.{EngineError, error_text}
use hetero_paged_infer.Types.Request.{Request, CompletedRequest}
use hetero_paged_infer.Types.Sequences.{SchedulerOutput, output_seq_ids}
use hetero_paged_infer.Types.Execution.{ExecutionOutput}
use hetero_paged_infer.Scheduler.{Scheduler}
use hetero_paged_infer.Scheduler.Invariant.{Valid, places, completed_count}
use hetero_paged_infer.Scheduler.Conservation.{Keeps, Keeps-trans}
use hetero_paged_infer.Scheduler.Progress.{update_sequences-Keeps}
use hetero_paged_infer.Scheduler.Admission.{schedule-Keeps}
use hetero_paged_infer.Scheduler.Requests.{take_completed_with_seq_ids}
use hetero_paged_infer.Scheduler.Accounts.{take-Valid}
use hetero_paged_infer.Scheduler.Traces.{fail_sequences-Keeps}
use hetero_paged_infer.Engine.Tokens.{
  stop_each-Keeps, push_tokens-Keeps, stop_each-eos, push_tokens-eos,
}
use hetero_paged_infer.Pipeline.Executor.{Executor}
use hetero_paged_infer.Tokenizer.{Tokenizer}
use hetero_paged_infer.Engine.{InferenceEngine}
use hetero_paged_infer.Engine.Collection.{
  collect_each, collect_completed_requests, count_request, StepChunk, completed_request,
}
use hetero_paged_infer.Engine.Steps.{
  StepEvents, stop_each, apply_stop_sequences, push_tokens, finish_step, requests_to_stop,
  fail_step, executed, step_events,
}

-- What holds of both branches of a test.
pub both_branches :
    {A : Type 0} (P : A → Type 0) (b : Bool) (x y : A) → P x → P y → P (if b then x else y)
both_branches P true x y p q = p
both_branches P false x y p q = q

-- The results that a step returns.
abbrev pub results_of : Result EngineError StepEvents → List CompletedRequest
results_of (ok events) = events.completed_requests
results_of (err x) = []

module _ {D S : Type 0} (tokenizer : Tokenizer D) (executor : Executor S) where
  -- A step from the scheduler `s`: the scheduler that it leaves is valid and has nothing completed,
  -- and the requests `taken` out of it are those that the step returns a result for.
  pub record Drained (eos : ℕ) (s : Scheduler)
      (x : Result EngineError StepEvents × InferenceEngine D S) : Type 0 where
    pub valid : Valid x.1.scheduler
    pub nothing_completed : x.1.scheduler.completed_requests ≡ []
    pub config : x.1.scheduler.config ≡ s.config
    pub next_seq_id : x.1.scheduler.next_seq_id ≡ s.next_seq_id
    pub taken : List (ℕ × Request)
    pub results : results_of x.0 ≡ map (λ d. completed_request tokenizer executor eos d.1) taken
    pub same_places : (i : ℕ) → places i x.1.scheduler + completed_count i taken ≡ places i s

module _ {D S : Type 0} (tokenizer : Tokenizer D) (executor : Executor S) where
  collect_each-scheduler :
      (rs : List (ℕ × Request)) (e : InferenceEngine D S)
      → (collect_each tokenizer executor rs e).1.scheduler ≡ e.scheduler
  unfolding collect_each count_request
  collect_each-scheduler [] e = refl
  collect_each-scheduler ((seq_id, r) ∷ rs) e = collect_each-scheduler rs _

  pub collect-scheduler :
      (e : InferenceEngine D S)
      → (collect_completed_requests tokenizer executor e).1.scheduler
        ≡ (take_completed_with_seq_ids e.scheduler).1
  unfolding collect_completed_requests
  collect-scheduler e =
      both_branches
        (λ (r : (List CompletedRequest × List StepChunk) × InferenceEngine D S).
          r.1.scheduler ≡ (take_completed_with_seq_ids e.scheduler).1)
        _ _ _ refl (collect_each-scheduler _ _)

  collect_each-results :
      (rs : List (ℕ × Request)) (e : InferenceEngine D S)
      → (collect_each tokenizer executor rs e).0.0
        ≡ map (λ d. completed_request tokenizer executor e.eos_token_id d.1) rs
  unfolding collect_each count_request
  collect_each-results [] e = refl
  collect_each-results ((seq_id, r) ∷ rs) e =
      let c = completed_request tokenizer executor e.eos_token_id r in
      ap (λ cs. c ∷ cs) (collect_each-results rs (count_request tokenizer executor r c.success e))

  collected-results :
      (done : List (ℕ × Request)) (emptied e : InferenceEngine D S)
      → (if is_empty done then (([], []), emptied) else collect_each tokenizer executor done e).0.0
        ≡ map (λ d. completed_request tokenizer executor e.eos_token_id d.1) done
  collected-results [] emptied e = refl
  collected-results (d ∷ ds) emptied e = collect_each-results (d ∷ ds) e

  collect-results :
      (e : InferenceEngine D S)
      → (collect_completed_requests tokenizer executor e).0.0
        ≡ map
            (λ d. completed_request tokenizer executor e.eos_token_id d.1)
            e.scheduler.completed_requests
  unfolding collect_completed_requests take_completed_with_seq_ids
  collect-results e = collected-results e.scheduler.completed_requests _ _

  -- What a step that collects the results, and returns them, does.
  collect-Drained :
      (s : Scheduler) (e : InferenceEngine D S) (eos : ℕ) (r : Result EngineError StepEvents)
      → Keeps s e.scheduler
      → e.eos_token_id ≡ eos
      → results_of r ≡ (collect_completed_requests tokenizer executor e).0.0
      → Drained tokenizer executor eos s (r, (collect_completed_requests tokenizer executor e).1)
  collect-Drained s e eos r k eos_kept returned =
      let same = collect-scheduler e in
      let result_under : ℕ → ℕ × Request → CompletedRequest =
        λ x d. completed_request tokenizer executor x d.1 in
      let done = e.scheduler.completed_requests in
      record {
        valid = rw same (take-Valid e.scheduler k.valid);
        nothing_completed = rw same (unfold take_completed_with_seq_ids in refl);
        config = rw same (unfold take_completed_with_seq_ids in k.config);
        next_seq_id = rw same (unfold take_completed_with_seq_ids in k.next_seq_id);
        taken = done;
        results = returned ∙ collect-results e ∙ ap (λ x. map (result_under x) done) eos_kept;
        same_places =
            λ i. rw same (unfold take_completed_with_seq_ids in omega (arith, k.same_places i));
      }

-- A step that fails returns an error only if there is no result.
failed-results :
    (x : EngineError) (done : List CompletedRequest) (tails : List StepChunk)
    → results_of
        (if is_empty done then err x else ok (record { completed_requests = done; chunks = tails }))
      ≡ done
failed-results x [] tails = refl
failed-results x (d ∷ ds) tails = refl

module _ {D S : Type 0} (ops : FloatOps) (tokenizer : Tokenizer D) (executor : Executor S) where
  finish_step-Drained :
      (s : Scheduler) (generated : List (ℕ × ℕ)) (e : InferenceEngine D S)
      → Keeps s e.scheduler
      → Drained tokenizer executor e.eos_token_id s (finish_step ops tokenizer executor generated e)
  unfolding finish_step apply_stop_sequences
  finish_step-Drained s generated e k =
      let stops = requests_to_stop tokenizer e.scheduler generated in
      let e1 = stop_each stops e in
      let e2 = (push_tokens tokenizer generated e1).1 in
      let k1 = stop_each-Keeps tokenizer stops e k.valid in
      let k2 = push_tokens-Keeps tokenizer generated e1 k1.valid in
      let eos : e2.eos_token_id ≡ e.eos_token_id =
        push_tokens-eos tokenizer generated e1 ∙ stop_each-eos stops e in
      let kept = Keeps-trans s e.scheduler _ k (Keeps-trans e.scheduler _ _ k1 k2) in
      collect-Drained tokenizer executor s e2 e.eos_token_id _ kept eos refl

  fail_step-Drained :
      (s : Scheduler) (o : SchedulerOutput) (x : EngineError) (e : InferenceEngine D S)
      → Keeps s e.scheduler
      → Drained tokenizer executor e.eos_token_id s (fail_step ops tokenizer executor o x e)
  unfolding fail_step
  fail_step-Drained s o x e k =
      let failed = fail_sequences-Keeps e.scheduler (output_seq_ids o) (error_text x) k.valid in
      collect-Drained tokenizer executor s _ e.eos_token_id _ (Keeps-trans s e.scheduler _ k failed)
        refl (failed-results x _ _)

  executed-Drained :
      (s : Scheduler) (o : SchedulerOutput) (r : Result EngineError ExecutionOutput)
      (e : InferenceEngine D S)
      → Keeps s e.scheduler
      → Drained tokenizer executor e.eos_token_id s (executed ops tokenizer executor o r e)
  unfolding executed
  executed-Drained s o (err x) e k = fail_step-Drained s o x e k
  executed-Drained s o (ok out) e k = finish_step-Drained s _ _ (
      Keeps-trans s e.scheduler _ k (update_sequences-Keeps e.scheduler out e.eos_token_id k.valid))

  -- From a valid scheduler, whatever the backend and the tokenizer return and whether the step
  -- succeeds or fails, there is a list of requests, each with its sequence id, such that the step
  -- returns the result of each of them, in order, and no other (none if it returns an error), and
  -- each sequence id stands as often in the old scheduler as in the new one and the list together.
  -- The new scheduler is valid, has no completed request left, and keeps the configuration and the
  -- next id.
  pub step_events-Drained :
      (e : InferenceEngine D S)
      → Valid e.scheduler
      → Drained tokenizer executor e.eos_token_id e.scheduler (step_events ops tokenizer executor e)
  unfolding step_events
  step_events-Drained e v =
      let k = schedule-Keeps ops e.scheduler v in
      both_branches (Drained tokenizer executor e.eos_token_id e.scheduler) _ _ _
        (finish_step-Drained e.scheduler [] _ k) (executed-Drained e.scheduler _ _ _ k)
