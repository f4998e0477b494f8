-- ===== src/Engine.antt =====
-- src/engine.rs: the state of `InferenceEngine` and `submit_request`. The tokenizer and the backend
-- stand behind traits: they are records of operations, over a decoder state `D` and a backend state
-- `S` of their own.
pub mod Text
pub mod Collection
pub mod Steps
pub mod Api
pub mod Tokens
pub mod Accounts
pub mod Submission
pub mod Counts
pub mod Samples
mod Examples
use Prim.Native.String.{String}
use hetero_paged_infer.Prelude.{ℕ, ◌+◌, Bool, not, ◌&&◌, Option, List, [], ◌∷◌}
use hetero_paged_infer.Prelude.Tests.{ltb}
use hetero_paged_infer.Prelude.Words.{succ_u64}
use hetero_paged_infer.Prelude.Lists.{length}
use hetero_paged_infer.Prelude.Float.{FloatOps}
use hetero_paged_infer.Prelude.Results.{Result, ok, err, ◌>>=◌, ◌>>◌, fail_if}
use hetero_paged_infer.SeqMap.{SeqMap, insert}
use hetero_paged_infer.Error.{
  ConfigError, EngineError, config, tokenization, empty_input, input_too_long,
  total_length_too_long, unsupported_generation_mode, greedy_only,
}
use hetero_paged_infer.Config.{EngineConfig}
use hetero_paged_infer.Config
use hetero_paged_infer.Tokenizer.{Tokenizer}
use hetero_paged_infer.Types.Request.{GenerationParams, Request, new_request, validate, is_greedy}
use hetero_paged_infer.Scheduler.{Scheduler, add_request}
use hetero_paged_infer.Pipeline.Executor.{Executor}

pub record InferenceEngine (D S : Type 0) : Type 0 where
  pub config : EngineConfig
  pub scheduler : Scheduler
  pub backend : S
  pub max_retry_attempts : ℕ
  pub decoders : SeqMap D
  pub eos_token_id : ℕ
  pub total_requests : ℕ
  pub completed_requests_count : ℕ
  pub failed_requests_count : ℕ
  pub total_tokens_generated : ℕ
  pub next_request_id : ℕ

-- `.map_err(EngineError::Tokenization)`
abbrev pub tokenization_error : Result String (List ℕ) → Result EngineError (List ℕ)
tokenization_error (ok tokens) = ok tokens
tokenization_error (err message) = err (tokenization message)

-- `.map_err(EngineError::Config)`
abbrev pub config_error : Result ConfigError (Unit {0}) → Result EngineError (Unit {0})
config_error (ok t) = ok t
config_error (err e) = err (config e)

-- The length checks on the tokens of the prompt.
unfoldable pub check_lengths :
    EngineConfig → GenerationParams → List ℕ → Result EngineError (List ℕ)
check_lengths c params tokens = do
  fail_if (ltb c.max_model_len (length tokens)) (input_too_long (length tokens) c.max_model_len)
  fail_if (ltb c.max_model_len (length tokens + params.max_tokens))
      (total_length_too_long (length tokens + params.max_tokens) c.max_model_len)
  ok tokens

module _ {D S : Type 0} (ops : FloatOps) (tokenizer : Tokenizer D) (executor : Executor S) where
  unfoldable pub with_components :
      EngineConfig → Scheduler → S → Result EngineError (InferenceEngine D S)
  with_components c scheduler backend = do
    config_error (Config.validate ops c)
    ok (record {
      config = c;
      scheduler = scheduler;
      backend = backend;
      max_retry_attempts = c.max_retry_attempts;
      decoders = [];
      eos_token_id = tokenizer.eos_token_id;
      total_requests = 0;
      completed_requests_count = 0;
      failed_requests_count = 0;
      total_tokens_generated = 0;
      next_request_id = 1;
    })

  -- The checks before the text is encoded, in the order of the source.
  unfoldable pub check_params :
      InferenceEngine D S → String → GenerationParams → Result EngineError (Unit {0})
  check_params e text params = do
    validate ops params
    fail_if (not (executor.capabilities e.backend).sampling && not (is_greedy ops params))
        (unsupported_generation_mode (greedy_only params.temperature params.top_p))
    fail_if (Text.is_empty_text text) empty_input

  -- All checks before the request is created; the prompt's tokens.
  unfoldable pub check_submission :
      InferenceEngine D S → String → GenerationParams → Result EngineError (List ℕ)
  check_submission e text params = do
    check_params e text params
    tokens ← tokenization_error (tokenizer.try_encode text)
    check_lengths e.config params tokens

  -- `self.scheduler.add_request(request)?`, and what follows it.
  unfoldable pub submitted :
      InferenceEngine D S
      → ℕ
      → Result EngineError ℕ × Scheduler
      → Result EngineError (ℕ × ℕ) × InferenceEngine D S
  submitted e prompt_tokens (err x, s) = (err x, record e { scheduler = s })
  submitted e prompt_tokens (ok seq_id, s) = (
    ok (e.next_request_id, prompt_tokens),
    record e {
      scheduler = s;
      next_request_id = succ_u64 e.next_request_id;
      total_requests = succ_u64 e.total_requests;
      decoders = insert e.next_request_id tokenizer.create_decoder e.decoders;
    },
  )

  unfoldable pub submit_request :
      InferenceEngine D S
      → String
      → GenerationParams
      → Result EngineError (ℕ × ℕ) × InferenceEngine D S
  submit_request e text params = elim (check_submission e text params) [
    | err x ↦ (err x, e)
    | ok tokens ↦
        submitted e (length tokens)
          (add_request ops e.scheduler (new_request e.next_request_id tokens params))
  ]
