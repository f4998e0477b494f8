-- ===== src/Error.antt =====
-- src/error.rs: the error types. A text made by `format!` is a `Message`, with a constructor for
-- each template and its arguments; how a template is spelled out is not modelled.
use Prim.Native.String.{String}
use hetero_paged_infer.Prelude.{ℕ}
use hetero_paged_infer.Prelude.Float.{F32}

pub data ConfigError : Type 0 where
  invalid_block_size : ℕ → ConfigError
  invalid_max_num_blocks : ℕ → ConfigError
  invalid_max_batch_size : ℕ → ConfigError
  invalid_max_num_seqs : ℕ → ConfigError
  invalid_max_model_len : ℕ → ConfigError
  invalid_max_total_tokens : ℕ → ConfigError
  invalid_memory_threshold : F32 → ConfigError
  file_load_error : String → ConfigError
  file_save_error : String → ConfigError
  parse_error : String → ConfigError
  missing_tokenizer_path : ConfigError
  invalid_server_port : ℕ → ConfigError
  invalid_model_name : ConfigError
  batch_size_exceed_num_seqs : ℕ → ℕ → ConfigError

mutual
  pub data EngineError : Type 0 where
    config : ConfigError → EngineError
    out_of_blocks : EngineError
    sequence_not_found : ℕ → EngineError
    invalid_block_index : ℕ → EngineError
    invalid_max_tokens : ℕ → EngineError
    invalid_temperature : F32 → EngineError
    invalid_top_p : F32 → EngineError
    unsupported_generation_mode : Message → EngineError
    too_many_stop_sequences : ℕ → EngineError
    invalid_logprobs : ℕ → EngineError
    empty_input : EngineError
    input_too_long : ℕ → ℕ → EngineError
    total_length_too_long : ℕ → ℕ → EngineError
    backend_error : Message → EngineError
    gpu_timeout : EngineError
    invalid_output : EngineError
    kernel_launch_failed : Message → EngineError
    memory_pressure : EngineError
    max_concurrent_sequences_reached : ℕ → EngineError
    request_not_found : ℕ → EngineError
    invalid_state_transition : Message → EngineError
    tokenization : String → EngineError
    -- A panic of the indexing `self.blocks[i]`. It unwinds; no value of the source stands for it.
    index_panic : ℕ → EngineError

  pub data Message : Type 0 where
    -- src/scheduler.rs
    input_tokens_exceed : ℕ → ℕ → Message
    required_blocks_exceed : ℕ → ℕ → Message
    exceed_watermark : ℕ → ℕ → ℕ → F32 → Message
    missing_next_token : ℕ → Message
    unknown_seq_id : ℕ → Message
    decode_sequence_not_found : ℕ → Message
    block_allocation_failed : EngineError → Message
    client_disconnected : Message
    for_request : Message → ℕ → Message
    -- src/execution_pipeline.rs
    positions_mismatch : ℕ → ℕ → Message
    batch_lengths_mismatch : ℕ → ℕ → ℕ → ℕ → ℕ → Message
    seq_lens_mismatch : ℕ → ℕ → Message
    zero_length_sequence : ℕ → Message
    empty_block_table : ℕ → Message
    output_lengths_mismatch : ℕ → ℕ → Message
    output_size_mismatch : ℕ → ℕ → Message
    duplicate_seq_ids : Message
    seq_ids_mismatch : Message
    logprobs_mismatch : ℕ → ℕ → Message
    no_input_token : ℕ → Message
    zero_context_length : ℕ → Message
    -- src/gpu_executor.rs
    batch_size_exceeds : ℕ → ℕ → Message
    total_tokens_exceed : ℕ → ℕ → Message
    empty_vocabulary : Message
    -- src/engine.rs
    greedy_only : F32 → F32 → Message
    error_text : EngineError → Message
    decode_failed : String → Message
    -- src/server.rs
    logprobs_out_of_range : ℕ → Message
    parameter_not_supported : String → Message
    invalid_role : String → Message
    model_not_found : String → Message
    too_many_candidates : ℕ → Message
    ended_before_completion : ℕ → Message
    -- src/tiny_llm_executor.rs
    load_failed : String → Message
    allocation_failed : ℕ → Message
    capacity_exceeded : ℕ → ℕ → ℕ → Message
    step_failed : ℕ → Message
    -- any other text
    text : String → Message
