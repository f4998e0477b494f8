-- ===== src/Config/Limits.antt =====
-- src/config.rs: what `validate` asks of a configuration.
use hetero_paged_infer.Prelude.{◌≤◌, ◌<◌, ◌≡◌, ◌≢◌, true, false, none, arith}
use hetero_paged_infer.Prelude.Results.{ok}
use hetero_paged_infer.Prelude.Float.{FloatOps, f32_zero, f32_one}
use hetero_paged_infer.Config.{EngineConfig, hugging_face, validate, is_hugging_face}

-- Sizes that the other components rely on.
pub record Usable (ops : FloatOps) (c : EngineConfig) : Type 0 where
  pub block_size : 0 < c.block_size
  pub max_num_blocks : 0 < c.max_num_blocks
  pub max_batch_size : 0 < c.max_batch_size
  pub max_model_len : 0 < c.max_model_len
  pub max_total_tokens : 0 < c.max_total_tokens
  pub batch_le_seqs : c.max_batch_size ≤ c.max_num_seqs
  pub threshold_finite : ops.is_finite c.memory_threshold ≡ true
  pub threshold_positive : ops.le c.memory_threshold f32_zero ≡ false
  pub threshold_le_one : ops.lt f32_one c.memory_threshold ≡ false
  pub tokenizer_path : c.tokenizer.kind ≡ hugging_face → c.tokenizer.path ≢ none

-- A configuration that passes `validate` has sizes that are not 0, a batch that is not larger than
-- the number of sequences, a finite memory threshold that is positive and at most one, and a path
-- for a Hugging Face tokenizer.
pub validate-Usable : (ops : FloatOps) (c : EngineConfig) → validate ops c ≡ ok tt → Usable ops c
unfolding validate is_hugging_face
validate-Usable ops c h = record {
  block_size = ground arith;
  max_num_blocks = ground arith;
  max_batch_size = ground arith;
  max_model_len = ground arith;
  max_total_tokens = ground arith;
  batch_le_seqs = ground arith;
  threshold_finite = ground arith;
  threshold_positive = ground arith;
  threshold_le_one = ground arith;
  tokenizer_path = λ e f. ground arith;
}
