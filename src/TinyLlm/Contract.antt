-- ===== src/TinyLlm/Contract.antt =====
-- src/tiny_llm_executor.rs: the output of a step.
use hetero_paged_infer.Error.{batch_size_exceeds, kernel_launch_failed}
use hetero_paged_infer.Engine.Accounts.{both_branches}
use hetero_paged_infer.Types.Execution.{
  empty_execution_output, batch_is_empty, ExecutionOutput, ExecutionBatch,
}
use hetero_paged_infer.Pipeline.Checks.{member, same_set, to_set, all_in, validate_execution_output}
use hetero_paged_infer.TinyLlm.Backend.{
  stepped, run_paged, run_allocated, written, tiny_execute, allocate_each,
}
use hetero_paged_infer.TinyLlm.{i32_as_usize, EngineError, TinyLlmExecutor, Library}
use hetero_paged_infer.Prelude.{
  ℕ, suc, zero, ◌+◌, ◌≡◌, refl, ap, true, Option, none, some, List, [], ◌∷◌, arith, inl, inr,
}
use hetero_paged_infer.Prelude.Tests.{ltb, ◌==◌, Bool-cases}
use hetero_paged_infer.Prelude.Lists.{is_empty, length}
use hetero_paged_infer.Prelude.Results.{Result, ok, err}

all_in-cons : (y : ℕ) (xs ys : List ℕ) → all_in xs ys ≡ true → all_in xs (y ∷ ys) ≡ true
unfolding all_in member
all_in-cons y [] ys h = refl
all_in-cons y (x ∷ xs) ys h = ground (arith, all_in-cons y xs ys)

all_in-same : (xs : List ℕ) → all_in xs xs ≡ true
unfolding all_in member
all_in-same [] = refl
all_in-same (x ∷ xs) = ground (arith, all_in-cons x xs xs (all_in-same xs))

length-written : (write : ℕ → ℕ) (i n : ℕ) → length (written write i n) ≡ n
unfolding written
length-written write i zero = refl
length-written write i (suc n) = ap suc (length-written write (i + 1) n)

no_ids : (ids : List ℕ) → is_empty ids ≡ true → ids ≡ []
no_ids [] h = refl
no_ids (i ∷ ids) h = cc

module _ {H : Type 0} (library : Library H) where
  abbrev Answer : Type 0
  Answer = Result EngineError ExecutionOutput × TinyLlmExecutor H

  -- An output that the pipeline's check accepts.
  abbrev Accepted : ExecutionBatch → Answer → Type 0
  Accepted b (err e, x) = Unit {0}
  Accepted b (ok out, x) = validate_execution_output b out ≡ ok tt

  same_ids :
      (b : ExecutionBatch) (tokens : List ℕ)
      → length (to_set b.seq_ids) ≡ length b.seq_ids
      → length tokens ≡ length b.seq_ids
      → validate_execution_output b
          (record { next_tokens = tokens; seq_ids = b.seq_ids; logprobs = [] })
        ≡ ok tt
  unfolding validate_execution_output same_set
  same_ids b tokens h l = ground (arith, all_in-same (to_set b.seq_ids))

  stepped-Accepted :
      (b : ExecutionBatch) (r : (ℕ × (ℕ → ℕ)) × H) (x : TinyLlmExecutor H)
      → length (to_set b.seq_ids) ≡ length b.seq_ids
      → Accepted b (stepped library b r x)
  stepped-Accepted b ((rc, write), h) x d =
      both_branches (Accepted b) (rc == 0) _ _
        (same_ids b _ d (length-written write 0 (length b.seq_ids))) tt

  run_paged-Accepted :
      (b : ExecutionBatch) (o : Option (List ℕ × List ℕ)) (x : TinyLlmExecutor H)
      → length (to_set b.seq_ids) ≡ length b.seq_ids
      → Accepted b (run_paged library b o x)
  run_paged-Accepted b none x d = tt
  run_paged-Accepted b (some (tables, counts)) x d = stepped-Accepted b _ x d

  run_allocated-Accepted :
      (b : ExecutionBatch) (r : Result EngineError (Unit {0}) × TinyLlmExecutor H)
      → length (to_set b.seq_ids) ≡ length b.seq_ids
      → Accepted b (run_allocated library b r)
  run_allocated-Accepted b (err e, x) d = tt
  run_allocated-Accepted b (ok t, x) d =
      both_branches (Accepted b) x.paged _ _ (run_paged-Accepted b _ x d) (stepped-Accepted b _ x d)

  of_empty :
      (b : ExecutionBatch)
      → batch_is_empty b ≡ true
      → validate_execution_output b empty_execution_output ≡ ok tt
  unfolding validate_execution_output batch_is_empty to_set same_set all_in
  of_empty b h = rw (no_ids b.seq_ids h) refl

  tiny_execute-Accepted :
      (b : ExecutionBatch) (x : TinyLlmExecutor H)
      → length (to_set b.seq_ids) ≡ length b.seq_ids
      → Accepted b (tiny_execute library b x)
  unfolding tiny_execute
  tiny_execute-Accepted b x d = elim (Bool-cases (batch_is_empty b)) [
    | inl e ↦ rw e (of_empty b e)
    | inr e ↦
        let n = length b.seq_ids in
        let r = allocate_each library b.seq_ids b.context_lens x in
        let large = kernel_launch_failed (batch_size_exceeds n x.max_batch_size) in
        rw e (
          both_branches (Accepted b) (ltb (i32_as_usize x.max_batch_size) n) (err large, x)
            (run_allocated library b r) tt (run_allocated-Accepted b r d))
  ]

  of_Accepted :
      (b : ExecutionBatch) (r : Answer) (out : ExecutionOutput)
      → Accepted b r
      → r.0 ≡ ok out
      → validate_execution_output b out ≡ ok tt
  of_Accepted b (ok o, x) out h e = let same : o ≡ out = cc in rw (← same) h
  of_Accepted b (err y, x) out h e = cc

  -- Whatever the library writes and returns: an output of the tiny-llm backend for a batch in which no
  -- sequence stands twice passes the pipeline's check of outputs.
  pub tiny_execute-valid :
      (b : ExecutionBatch) (x : TinyLlmExecutor H) (out : ExecutionOutput)
      → length (to_set b.seq_ids) ≡ length b.seq_ids
      → (tiny_execute library b x).0 ≡ ok out
      → validate_execution_output b out ≡ ok tt
  tiny_execute-valid b x out d e = of_Accepted b _ out (tiny_execute-Accepted b x d) e
