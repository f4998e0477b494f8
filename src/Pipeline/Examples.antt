-- ===== src/Pipeline/Examples.antt =====
-- The pipeline at concrete inputs: a prefill and a decode sequence, with the backend of the tests.
use hetero_paged_infer.Prelude.{◌++◌, true, ◌+◌, ◌≡◌, refl, false, [], ◌∷◌, arith}
use hetero_paged_infer.Prelude.Lists.{length}
use hetero_paged_infer.Prelude.Results.{ok}
use hetero_paged_infer.Config.{default_config}
use hetero_paged_infer.Types.Request.{prefill, decode, default_params}
use hetero_paged_infer.Types.Sequences.{
  Sequence, SchedulerOutput, output_is_empty, output_seq_ids, decode_input_token, decode_position,
  sequence_block_table, context_len,
}
use hetero_paged_infer.Types.Execution.{ExecutionBatch, ExecutionOutput, batch_is_empty}
use hetero_paged_infer.Pipeline.Batches.{
  build_execution_batch, add_decodes, add_decode, push_decode, add_prefills, add_prefill,
  positions_from,
}
use hetero_paged_infer.Pipeline.Checks.{
  validate_batch_shape, validate_execution_output, all_in, member, same_set, to_set, lengths_differ,
  sum_u32, check_sequences,
}
use hetero_paged_infer.Pipeline.Execution.{execute, execute_batch, attempt, checked, is_timeout}
use hetero_paged_infer.Pipeline.Mock.{
  MockGpuExecutor, mock, mock_execute, validate_execution_batch, generate_output, generate_tokens,
  generate_token,
}
use hetero_paged_infer.Pipeline.Contract.{Answers, validate_execution_output-Answers}
use hetero_paged_infer.Pipeline.Retries.{EndsAfter, attempt-EndsAfter, execute-Answers}
use hetero_paged_infer.Pipeline.BatchSteps.{Ready}
use hetero_paged_infer.Pipeline.BatchLaws.{build_execution_batch_ok}
use hetero_paged_infer.Pipeline.BatchTokens.{prompts, last_tokens, prompt_positions, last_positions}

abbrev first_sequence : Sequence
first_sequence = record {
  seq_id = 1;
  request = record {
    id = 1;
    input_tokens = 5 ∷ 6 ∷ 7 ∷ [];
    output_tokens = [];
    params = default_params;
    stop_sequence_hit = false;
    logprobs = [];
    state = prefill;
  };
  logical_blocks = record { block_idx = 0 } ∷ [];
  num_generated_tokens = 0;
}

abbrev second_sequence : Sequence
second_sequence = record {
  seq_id = 2;
  request = record {
    id = 2;
    input_tokens = 8 ∷ [];
    output_tokens = 9 ∷ [];
    params = default_params;
    stop_sequence_hit = false;
    logprobs = [];
    state = decode;
  };
  logical_blocks = record { block_idx = 1 } ∷ [];
  num_generated_tokens = 1;
}

abbrev one_step : SchedulerOutput
one_step = record {
  prefill_sequences = first_sequence ∷ [];
  decode_sequences = second_sequence ∷ [];
  total_tokens = 4;
}

abbrev backend : MockGpuExecutor
backend = record { config = default_config; vocab_size = 1000; token_counter = 100 }

abbrev one_batch : ExecutionBatch
one_batch = record {
  input_tokens = 5 ∷ 6 ∷ 7 ∷ 9 ∷ [];
  positions = 0 ∷ 1 ∷ 2 ∷ 1 ∷ [];
  seq_lens = 3 ∷ 1 ∷ [];
  block_tables = (0 ∷ []) ∷ (1 ∷ []) ∷ [];
  is_prefill = true ∷ false ∷ [];
  seq_ids = 1 ∷ 2 ∷ [];
  context_lens = 3 ∷ 2 ∷ [];
}

abbrev one_output : ExecutionOutput
one_output = record { next_tokens = 100 ∷ 101 ∷ []; seq_ids = 1 ∷ 2 ∷ []; logprobs = [] }

output_accepted : validate_execution_output one_batch one_output ≡ ok tt
unfolding validate_execution_output to_set member same_set all_in
output_accepted = refl

validate_execution_output-Answers_example : Answers one_batch one_output
validate_execution_output-Answers_example =
    validate_execution_output-Answers one_batch one_output output_accepted

step_not_empty : output_is_empty one_step ≡ false
unfolding output_is_empty
step_not_empty = refl

step_executed : (execute mock 3 one_step backend).0 ≡ ok one_output
unfolding execute output_is_empty execute_batch build_execution_batch add_decodes add_decode
    decode_input_token decode_position validate_batch_shape batch_is_empty push_decode add_prefills
    add_prefill positions_from lengths_differ sum_u32 check_sequences sequence_block_table
    context_len attempt checked is_timeout all_in member same_set to_set validate_execution_output
    mock_execute validate_execution_batch generate_output generate_tokens generate_token
step_executed = refl

execute-Answers_example :
    (b : ExecutionBatch) × (build_execution_batch one_step ≡ ok b) × Answers b one_output
execute-Answers_example =
    execute-Answers mock 3 one_step backend one_output step_not_empty step_executed

attempt-EndsAfter_example : EndsAfter mock one_batch true 3 backend
attempt-EndsAfter_example = attempt-EndsAfter mock one_batch true 3 backend

first_sequence-Ready : Ready first_sequence
first_sequence-Ready = record {
  has_input = omega arith;
  small_input = omega arith;
  has_blocks = refl;
}

second_sequence-Ready : Ready second_sequence
second_sequence-Ready = record {
  has_input = omega arith;
  small_input = omega arith;
  has_blocks = refl;
}

build_execution_batch_ok_example :
    (b : ExecutionBatch) × (build_execution_batch one_step ≡ ok b)
    × (validate_batch_shape b ≡ ok tt)
    × (b.seq_ids ≡ output_seq_ids one_step)
    × (b.input_tokens ≡ prompts one_step.prefill_sequences ++ last_tokens one_step.decode_sequences)
    × (b.positions
        ≡ prompt_positions one_step.prefill_sequences ++ last_positions one_step.decode_sequences)
    × (length b.block_tables ≡ length one_step.prefill_sequences + length one_step.decode_sequences)
build_execution_batch_ok_example =
    build_execution_batch_ok one_step (first_sequence-Ready, tt) (second_sequence-Ready, tt)
      (omega arith)
