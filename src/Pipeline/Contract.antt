-- ===== src/Pipeline/Contract.antt =====
-- src/execution_pipeline.rs: the contract that `validate_execution_output` checks.
use hetero_paged_infer.Prelude.{ℕ, ◌≤◌, ◌≡◌, refl, true, List, [], ◌∷◌, arith}
use hetero_paged_infer.Prelude.Tests.{if◌then◌else◌}
use hetero_paged_infer.Prelude.Lists.{length, count}
use hetero_paged_infer.Prelude.Results.{ok}
use hetero_paged_infer.Types.Execution.{ExecutionBatch, ExecutionOutput}
use hetero_paged_infer.Pipeline.Checks.{member, to_set, all_in, same_set, validate_execution_output}
use hetero_paged_infer.Pipeline.Execution.{checked}

length-to_set : (xs : List ℕ) → length (to_set xs) ≤ length xs
unfolding to_set
length-to_set [] = omega arith
length-to_set (x ∷ xs) = ground (arith, length-to_set xs)

member-to_set : (i : ℕ) (xs : List ℕ) → member i (to_set xs) ≡ member i xs
unfolding to_set member
member-to_set i [] = refl
member-to_set i (x ∷ xs) = ground (arith, member-to_set i xs, member-to_set x xs)

-- A list as long as its set has no repetition.
count-no_repetition :
    (i : ℕ) (xs : List ℕ)
    → length (to_set xs) ≡ length xs
    → count i xs ≡ (if member i xs then 1 else 0)
unfolding to_set member
count-no_repetition i [] h = refl
count-no_repetition i (x ∷ xs) h =
    ground (arith, length-to_set xs, count-no_repetition i xs, member-to_set x xs)

member-all_in :
    (i : ℕ) (xs ys : List ℕ) → all_in xs ys ≡ true → member i xs ≡ true → member i ys ≡ true
unfolding all_in member
member-all_in i [] ys h m = cc
member-all_in i (x ∷ xs) ys h m = ground (arith, member-all_in i xs ys)

same_set-member : (i : ℕ) (xs ys : List ℕ) → same_set xs ys ≡ true → member i xs ≡ member i ys
unfolding same_set
same_set-member i xs ys h = ground (arith, member-all_in i xs ys, member-all_in i ys xs)

-- The contract of an output for a batch: a token for each sequence, and each sequence of the batch
-- exactly once.
pub record Answers (b : ExecutionBatch) (out : ExecutionOutput) : Type 0 where
  pub tokens : length out.next_tokens ≡ length out.seq_ids
  pub sequences : length out.seq_ids ≡ length b.seq_ids
  pub each_once : (i : ℕ) → count i out.seq_ids ≡ (if member i b.seq_ids then 1 else 0)

-- An output passes the check only if it answers its batch.
pub validate_execution_output-Answers :
    (b : ExecutionBatch) (out : ExecutionOutput)
    → validate_execution_output b out ≡ ok tt
    → Answers b out
unfolding validate_execution_output
validate_execution_output-Answers b out h = record {
  tokens = ground arith;
  sequences = ground arith;
  each_once = λ i. ground (
    arith,
    count-no_repetition i out.seq_ids,
    same_set-member i (to_set out.seq_ids) (to_set b.seq_ids),
    member-to_set i out.seq_ids,
    member-to_set i b.seq_ids,
  );
}

pub checked-Answers :
    (b : ExecutionBatch) (out out' : ExecutionOutput) → checked b out ≡ ok out' → Answers b out'
unfolding checked
checked-Answers b out out' h =
    let e : out ≡ out' = ground arith in
    rw (← e) (validate_execution_output-Answers b out (ground arith))
