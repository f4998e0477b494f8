-- ===== src/Tokenizer.antt =====
-- src/tokenizer.rs: `TokenizerTrait` and `IncrementalDecoder`, as a record of operations over the
-- state of a decoder. `encode`, `decode`, `bos_token_id` and `pad_token_id`, which no other part
-- calls, are left out.
pub mod Simple
pub mod HuggingFace
pub mod Decoders
pub mod Streaming
pub mod RoundTrip
mod Examples
use Prim.Native.String.{String}
use hetero_paged_infer.Prelude.{ℕ, Option, List}
use hetero_paged_infer.Prelude.Results.{Result}

pub record Tokenizer (D : Type 0) : Type 0 where
  pub try_encode : String → Result String (List ℕ)
  pub try_decode : List ℕ → Result String String
  pub vocab_size : ℕ
  pub eos_token_id : ℕ
  pub create_decoder : D
  pub push : D → ℕ → Result String (Option String) × D
  pub finish : D → Result String (Option String) × D
