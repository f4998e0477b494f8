-- ===== src/Types/Execution.antt =====
-- src/types/execution.rs: the batch handed to a backend, and what it returns
use hetero_paged_infer.Prelude.{ℕ, Bool, Option, List, []}
use hetero_paged_infer.Prelude.Lists.{is_empty}
use hetero_paged_infer.Types.Request.{TokenLogprobs}

pub record ExecutionBatch : Type 0 where
  pub input_tokens : List ℕ
  pub positions : List ℕ
  pub seq_lens : List ℕ
  pub block_tables : List (List ℕ)
  pub is_prefill : List Bool
  pub seq_ids : List ℕ
  pub context_lens : List ℕ

abbrev pub empty_batch : ExecutionBatch
empty_batch = record {
  input_tokens = [];
  positions = [];
  seq_lens = [];
  block_tables = [];
  is_prefill = [];
  seq_ids = [];
  context_lens = [];
}

unfoldable pub batch_is_empty : ExecutionBatch → Bool
batch_is_empty b = is_empty b.seq_ids

pub record ExecutionOutput : Type 0 where
  pub next_tokens : List ℕ
  pub seq_ids : List ℕ
  pub logprobs : List (Option TokenLogprobs)

abbrev pub empty_execution_output : ExecutionOutput
empty_execution_output = record { next_tokens = []; seq_ids = []; logprobs = [] }
