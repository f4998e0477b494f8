-- ===== src/TinyLlm.antt =====
-- src/tiny_llm_executor.rs: the backend over the C library tiny-llm. The library is a parameter: its
-- functions, over a state `H` behind the handle. A `c_int` is the bit pattern of its 32 bits.
pub mod Backend
pub mod Capacity
pub mod Contract
mod Examples
use Prim.Native.String.{String}
use Prim.Native.Char.{code}
use hetero_paged_infer.Prelude.{
  ℕ, ◌+◌, ◌-◌, ◌%◌, Bool, true, false, not, ◌||◌, Option, none, some, List, [],
}
use hetero_paged_infer.Prelude.Tests.{◌==◌, ltb, leb, if◌then◌else◌}
use hetero_paged_infer.Prelude.Words.{to_u32, u32_mod, u64_mod}
use hetero_paged_infer.Prelude.Results.{Result, ok, err}
use hetero_paged_infer.SeqMap.{SeqMap}
use package.text.Mathlib.Text
use hetero_paged_infer.Error.{EngineError, backend_error, load_failed, text}
use hetero_paged_infer.Config.{EngineConfig}

-- `a <= b` on i32, and the larger of the two
abbrev pub i32_leb : ℕ → ℕ → Bool
i32_leb a b = leb ((a + 2147483648) % u32_mod) ((b + 2147483648) % u32_mod)

abbrev pub i32_max : ℕ → ℕ → ℕ
i32_max a b = if i32_leb a b then b else a

abbrev pub i32_min : ℕ → ℕ → ℕ
i32_min a b = if i32_leb a b then a else b

-- `a + b` on i32, with the wrap-around of a release build
abbrev pub i32_add : ℕ → ℕ → ℕ
i32_add a b = (a + b) % u32_mod

-- `x as usize` of an i32, which extends the sign
abbrev pub i32_as_usize : ℕ → ℕ
i32_as_usize x = if ltb x 2147483648 then x else x + (u64_mod - u32_mod)

-- `TinyLlmConfig`; its six dimensions are 0.
pub record TinyLlmConfig : Type 0 where
  pub block_size : ℕ
  pub max_batch_size : ℕ
  pub max_num_blocks : ℕ

-- What `tinyllm_step` is handed; no tables and counts where they are null.
pub record StepArguments : Type 0 where
  pub seq_ids : List ℕ
  pub input_tokens : List ℕ
  pub positions : List ℕ
  pub seq_lens : List ℕ
  pub block_tables : Option (List ℕ)
  pub num_blocks : Option (List ℕ)
  pub is_prefill : List Bool

-- `step` gives its return code and what it writes at each index of `next_tokens`.
pub record Library (H : Type 0) : Type 0 where
  pub load : String → TinyLlmConfig → Result String H
  pub step : StepArguments → H → (ℕ × (ℕ → ℕ)) × H
  pub allocate_sequence : ℕ → ℕ → H → ℕ × H
  pub free_sequence : ℕ → H → ℕ × H

pub record TinyLlmExecutor (H : Type 0) : Type 0 where
  pub handle : H
  pub allocated : SeqMap ℕ
  pub paged : Bool
  pub max_batch_size : ℕ
  pub decode_reserve : ℕ

abbrev pub or_default : ℕ → Option ℕ → ℕ
or_default default none = default
or_default default (some n) = n

-- `CString::new` refuses a path with a NUL.
unfoldable pub has_nul : String → Bool
has_nul String.[] = false
has_nul (String.◌∷◌ c s) = code c == 0 || has_nul s

-- `std::env::var(name)` where it is set, and `v.trim().parse::<i32>()`
module _ (env : String → Option String) (parse_i32 : String → Option ℕ) where
  abbrev pub parsed : ℕ → Option String → ℕ
  parsed default none = default
  parsed default (some v) = or_default default (parse_i32 v)

  unfoldable pub env_i32_or : String → ℕ → ℕ
  env_i32_or name default = parsed default (env name)

  abbrev pub is_strategy2 : Option String → Bool
  is_strategy2 none = false
  is_strategy2 (some v) = Text.◌==◌ v "2"

  unfoldable pub is_paged : Bool
  is_paged = not (is_strategy2 (env "PAGED_SERVING_TINY_LLM_STRATEGY"))

  unfoldable pub batch_limit : EngineConfig → ℕ
  batch_limit c =
      i32_min (to_u32 c.max_batch_size) (i32_max (env_i32_or "PAGED_SERVING_TINY_LLM_MAX_SEQS" 4) 1)

  unfoldable pub tiny_config : EngineConfig → TinyLlmConfig
  tiny_config c = record {
    block_size = to_u32 c.block_size;
    max_batch_size = batch_limit c;
    max_num_blocks = if is_paged then to_u32 c.max_num_blocks else 0;
  }

module _ (env : String → Option String) (parse_i32 : String → Option ℕ) {H : Type 0}
    (library : Library H) where
  abbrev pub loaded : EngineConfig → Result String H → Result EngineError (TinyLlmExecutor H)
  loaded c (err message) = err (backend_error (load_failed message))
  loaded c (ok handle) = ok (record {
    handle = handle;
    allocated = [];
    paged = is_paged env parse_i32;
    max_batch_size = batch_limit env parse_i32 c;
    decode_reserve =
        i32_max (env_i32_or env parse_i32 "PAGED_SERVING_TINY_LLM_DECODE_RESERVE" 512) 0;
  })

  unfoldable pub new_tiny_llm : String → EngineConfig → Result EngineError (TinyLlmExecutor H)
  new_tiny_llm model_path c =
      if has_nul model_path
      then err (backend_error (text "model path contains NUL"))
      else loaded c (library.load model_path (tiny_config env parse_i32 c))
