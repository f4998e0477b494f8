-- ===== src/Config.antt =====
-- src/config.rs: the engine's configuration and its validation. Reading and writing JSON files is
-- not modelled. A path is its text; the host and the special tokens are kept as plain data.
pub mod Limits
mod Examples
use Prim.Native.String.{String}
use Prim.Native.Char.{code}
use hetero_paged_infer.Prelude.{ℕ, Bool, true, false, not, ◌&&◌, ◌||◌, ◌*◌, ◌%◌, Option, none}
use hetero_paged_infer.Prelude.Tests.{ltb, leb, ◌==◌, is_some}
use hetero_paged_infer.Prelude.Words.{u32_mod}
use hetero_paged_infer.Prelude.Float.{F32, FloatOps, f32_zero, f32_nine_tenths, f32_one}
use hetero_paged_infer.Prelude.Results.{Result, fail_if, ◌>>◌}
use hetero_paged_infer.Error.{
  ConfigError, invalid_block_size, invalid_max_num_blocks, invalid_max_batch_size,
  invalid_max_num_seqs, invalid_max_model_len, invalid_max_total_tokens, invalid_memory_threshold,
  missing_tokenizer_path, invalid_server_port, invalid_model_name, batch_size_exceed_num_seqs,
}
use hetero_paged_infer.KvCache

pub record SpecialTokenIds : Type 0 where
  pub bos : ℕ
  pub eos : ℕ
  pub pad : ℕ
  pub unk : ℕ

pub data TokenizerKind : Type 0 where
  simple hugging_face : TokenizerKind

pub record TokenizerConfig : Type 0 where
  pub kind : TokenizerKind
  pub path : Option String

pub record ServingConfig : Type 0 where
  pub host : String
  pub port : ℕ
  pub model_name : String

pub record EngineConfig : Type 0 where
  pub block_size : ℕ
  pub max_num_blocks : ℕ
  pub max_batch_size : ℕ
  pub max_num_seqs : ℕ
  pub max_model_len : ℕ
  pub max_total_tokens : ℕ
  pub memory_threshold : F32
  pub max_retry_attempts : ℕ
  pub special_tokens : SpecialTokenIds
  pub tokenizer : TokenizerConfig
  pub serving : ServingConfig

abbrev pub default_special_tokens : SpecialTokenIds
default_special_tokens = record { bos = 1; eos = 2; pad = 0; unk = 3 }

abbrev pub default_tokenizer : TokenizerConfig
default_tokenizer = record { kind = simple; path = none }

abbrev pub default_serving : ServingConfig
default_serving = record { host = "127.0.0.1"; port = 3000; model_name = "paged-serving" }

abbrev pub default_config : EngineConfig
default_config = record {
  block_size = 16;
  max_num_blocks = 1024;
  max_batch_size = 32;
  max_num_seqs = 256;
  max_model_len = 2048;
  max_total_tokens = 4096;
  memory_threshold = f32_nine_tenths;
  max_retry_attempts = 2;
  special_tokens = default_special_tokens;
  tokenizer = default_tokenizer;
  serving = default_serving;
}

-- Unicode's White_Space, which `str::trim` removes.
unfoldable pub is_white_space : ℕ → Bool
is_white_space c =
    (leb 9 c && leb c 13)
    || c == 32
    || c == 0x85
    || c == 0xa0
    || c == 0x1680
    || (leb 0x2000 c && leb c 0x200a)
    || c == 0x2028
    || c == 0x2029
    || c == 0x202f
    || c == 0x205f
    || c == 0x3000

-- `s.trim().is_empty()`
unfoldable pub is_blank : String → Bool
unfolding is_white_space
is_blank String.[] = true
is_blank (String.◌∷◌ c s) = is_white_space (code c) && is_blank s

unfoldable pub is_hugging_face : TokenizerKind → Bool
is_hugging_face simple = false
is_hugging_face hugging_face = true

unfoldable pub validate : FloatOps → EngineConfig → Result ConfigError (Unit {0})
unfolding is_hugging_face
validate ops c = do
  fail_if (c.block_size == 0) (invalid_block_size c.block_size)
  fail_if (c.max_num_blocks == 0) (invalid_max_num_blocks c.max_num_blocks)
  fail_if (c.max_batch_size == 0) (invalid_max_batch_size c.max_batch_size)
  fail_if (c.max_num_seqs == 0) (invalid_max_num_seqs c.max_num_seqs)
  fail_if (c.max_model_len == 0) (invalid_max_model_len c.max_model_len)
  fail_if (c.max_total_tokens == 0) (invalid_max_total_tokens c.max_total_tokens)
  fail_if
      (not (ops.is_finite c.memory_threshold)
        || ops.le c.memory_threshold f32_zero
        || ops.lt f32_one c.memory_threshold)
      (invalid_memory_threshold c.memory_threshold)
  fail_if (is_hugging_face c.tokenizer.kind && not (is_some c.tokenizer.path))
      missing_tokenizer_path
  fail_if (c.serving.port == 0) (invalid_server_port c.serving.port)
  fail_if (is_blank c.serving.model_name) invalid_model_name
  fail_if (ltb c.max_num_seqs c.max_batch_size)
      (batch_size_exceed_num_seqs c.max_batch_size c.max_num_seqs)

unfoldable pub blocks_for_tokens : EngineConfig → ℕ → ℕ
blocks_for_tokens c num_tokens = KvCache.blocks_for_tokens num_tokens c.block_size

-- `num_blocks * self.block_size` on u32, with the wrap-around of a release build
unfoldable pub tokens_in_blocks : EngineConfig → ℕ → ℕ
tokens_in_blocks c num_blocks = num_blocks * c.block_size % u32_mod
