-- ===== src/Pipeline/Retries.antt =====
-- src/execution_pipeline.rs: the calls that `BatchExecutionPipeline::execute` makes of its
-- backend.
use hetero_paged_infer.Prelude.{
  ◌≢◌, ℕ, zero, suc, ◌≤◌, ◌≡◌, refl, ◌∙◌, inl, inr, ◌⊎◌, Bool, true, false, ◌&&◌, arith,
}
use hetero_paged_infer.Prelude.Tests.{if◌then◌else◌, Bool-cases}
use hetero_paged_infer.Prelude.Results.{Result, ok, err}
use hetero_paged_infer.Error.{EngineError, gpu_timeout}
use hetero_paged_infer.Types.Sequences.{SchedulerOutput, output_is_empty}
use hetero_paged_infer.Types.Execution.{ExecutionBatch, ExecutionOutput}
use hetero_paged_infer.Pipeline.Executor.{Executor}
use hetero_paged_infer.Pipeline.Batches.{build_execution_batch}
use hetero_paged_infer.Pipeline.Checks.{validate_batch_shape}
use hetero_paged_infer.Pipeline.Execution.{is_timeout, checked, attempt, execute_batch, execute}
use hetero_paged_infer.Pipeline.Contract.{Answers, checked-Answers}

pub Result-cases {ℓ κ} :
    {E : Type ℓ} {A : Type κ} (r : Result E A) → ((a : A) × (r ≡ ok a)) ⊎ ((e : E) × (r ≡ err e))
Result-cases (ok a) = inl (a, refl)
Result-cases (err e) = inr (e, refl)

-- What the loop makes of the last answer of the backend.
abbrev pub conclude :
    ExecutionBatch → Result EngineError ExecutionOutput → Result EngineError ExecutionOutput
conclude b (ok out) = checked b out
conclude b (err e) = err e

module _ {S : Type 0} (executor : Executor S) (b : ExecutionBatch) where
  -- The backend's state before its call number `n`, from 0.
  abbrev pub before_call : ℕ → S → S
  before_call zero s = s
  before_call (suc n) s = before_call n (executor.execute b s).1

  -- Each of the first `n` calls times out.
  abbrev pub TimesOut : ℕ → S → Type 0
  TimesOut zero s = Unit
  TimesOut (suc n) s =
      ((executor.execute b s).0 ≡ err gpu_timeout) × TimesOut n (executor.execute b s).1

  -- The loop ends with the call number `n`.
  pub record EndsAfter (retry_safe : Bool) (retries_left : ℕ) (s : S) : Type 0 where
    pub n : ℕ
    pub bounded : n ≤ retries_left
    pub once_if_unsafe : retry_safe ≡ false → n ≡ 0
    pub timeouts : TimesOut n s
    pub result :
        (attempt executor b retry_safe retries_left s).0
        ≡ conclude b (executor.execute b (before_call n s)).0
    pub state : (attempt executor b retry_safe retries_left s).1 ≡ before_call (suc n) s
    -- the loop stops only at an answer that may not be retried, or with no retry left
    pub last :
        ((executor.execute b (before_call n s)).0 ≢ err gpu_timeout)
        ⊎ (retry_safe ≡ false)
        ⊎ (n ≡ retries_left)

  timeout_of : (e : EngineError) → is_timeout e ≡ true → e ≡ gpu_timeout
  unfolding is_timeout
  timeout_of gpu_timeout h = refl
  timeout_of _ h = cc

  ends_now :
      (retry_safe : Bool) (left : ℕ) (s : S)
      → attempt executor b retry_safe left s
        ≡ (conclude b (executor.execute b s).0, (executor.execute b s).1)
      → (((executor.execute b s).0 ≢ err gpu_timeout) ⊎ (retry_safe ≡ false) ⊎ (0 ≡ left))
      → EndsAfter retry_safe left s
  ends_now retry_safe left s e l = record {
    n = 0;
    bounded = omega arith;
    once_if_unsafe = λ _. refl;
    timeouts = tt;
    result = rw e;
    state = rw e;
    last = l;
  }

  ends_later :
      (left : ℕ) (s : S)
      → (executor.execute b s).0 ≡ err gpu_timeout
      → attempt executor b true (suc left) s ≡ attempt executor b true left (executor.execute b s).1
      → EndsAfter true left (executor.execute b s).1
      → EndsAfter true (suc left) s
  ends_later left s t e x = record {
    n = suc x.n;
    bounded = omega (arith, x.bounded);
    once_if_unsafe = λ h. cc;
    timeouts = (t, x.timeouts);
    result = rw e x.result;
    state = rw e x.state;
    last = ground (arith, x.last);
  }

  attempt_err :
      (retry_safe : Bool) (left : ℕ) (s : S) (e : EngineError)
      → (executor.execute b s).0 ≡ err e
      → attempt executor b retry_safe (suc left) s ≡ (
          if is_timeout e && retry_safe
          then attempt executor b retry_safe left (executor.execute b s).1
          else (err e, (executor.execute b s).1))
  unfolding attempt
  attempt_err retry_safe left s e h = rw (h, attempt)

  attempt_ok :
      (retry_safe : Bool) (left : ℕ) (s : S) (out : ExecutionOutput)
      → (executor.execute b s).0 ≡ ok out
      → attempt executor b retry_safe (suc left) s ≡ (checked b out, (executor.execute b s).1)
  unfolding attempt
  attempt_ok retry_safe left s out h = rw (h, attempt)

  attempt-zero :
      (retry_safe : Bool) (s : S)
      → attempt executor b retry_safe zero s
        ≡ (conclude b (executor.execute b s).0, (executor.execute b s).1)
  unfolding attempt
  attempt-zero retry_safe s = elim (Result-cases (executor.execute b s).0) [
    | inl (out, h) ↦ rw (h, attempt) (ground arith)
    | inr (e, h) ↦ rw (h, attempt) (ground arith)
  ]

  -- However the backend behaves, the loop ends: it makes at most `max_retry_attempts` further calls,
  -- each after a timeout, and only of a backend that is safe to retry; and it gives up on a timeout
  -- only if the backend is not safe to retry or no retry is left.
  pub attempt-EndsAfter :
      (retry_safe : Bool) (retries_left : ℕ) (s : S) → EndsAfter retry_safe retries_left s
  attempt-EndsAfter retry_safe zero s =
      ends_now retry_safe zero s (attempt-zero retry_safe s) (inr (inr refl))
  attempt-EndsAfter false (suc left) s = elim (Result-cases (executor.execute b s).0) [
    | inl (out, h) ↦
        ends_now false (suc left) s (attempt_ok false left s out h ∙ rw h refl) (inr (inl refl))
    | inr (e, h) ↦
        ends_now false (suc left) s (attempt_err false left s e h ∙ ground arith) (inr (inl refl))
  ]
  attempt-EndsAfter true (suc left) s =
      let ih = attempt-EndsAfter true left (executor.execute b s).1 in
      elim (Result-cases (executor.execute b s).0) [
        | inl (out, h) ↦
            ends_now true (suc left) s (attempt_ok true left s out h ∙ rw h refl)
              (inl (λ t. ground arith))
        | inr (e, h) ↦ elim (Bool-cases (is_timeout e)) [
          | inl t ↦
              ends_later left s (ground (arith, timeout_of e t))
                (attempt_err true left s e h ∙ ground arith) ih
          | inr t ↦
              ends_now true (suc left) s (attempt_err true left s e h ∙ ground arith)
                (inl (λ x. unfold is_timeout in ground arith))
        ]
      ]

-- An output that `execute` returns for a scheduling step with sequences answers the batch that was
-- built from them: one token for each sequence of the batch, each sequence exactly once.
pub execute-Answers :
    {S : Type 0} (executor : Executor S) (max_retry_attempts : ℕ) (o : SchedulerOutput) (s : S)
    (out : ExecutionOutput)
    → output_is_empty o ≡ false
    → (execute executor max_retry_attempts o s).0 ≡ ok out
    → (b : ExecutionBatch) × (build_execution_batch o ≡ ok b) × Answers b out
unfolding execute execute_batch
execute-Answers executor m o s out h e = elim (Result-cases (build_execution_batch o)) [
  | inr (x, f) ↦ absurd (ground arith)
  | inl (b, f) ↦ elim (Result-cases (validate_batch_shape b)) [
    | inr (x, g) ↦ absurd (ground arith)
    | inl (t, g) ↦
        let x = attempt-EndsAfter executor b (executor.capabilities s).retry_safe m s in
        elim (Result-cases (executor.execute b (before_call executor b x.n s)).0) [
          | inl (out', k) ↦ (b, f, checked-Answers b out' out (ground (arith, x.result)))
          | inr (y, k) ↦ absurd (ground (arith, x.result))
        ]
  ]
]
