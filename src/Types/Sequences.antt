-- ===== src/Types/Sequences.antt =====
-- src/types/scheduler.rs: sequences and the output of a scheduling step
use hetero_paged_infer.Prelude.{ℕ, ◌+◌, ◌-◌, Bool, ◌&&◌, Option, none, some, List, [], ◌++◌, map}
use hetero_paged_infer.Prelude.Tests.{leb, ◌==◌, if◌then◌else◌}
use hetero_paged_infer.Prelude.Words.{u32_max, saturating_add}
use hetero_paged_infer.Prelude.Lists.{length, last?, is_empty}
use hetero_paged_infer.Types.Memory.{PhysicalBlockRef}
use hetero_paged_infer.Types.Request.{Request}

pub record Sequence : Type 0 where
  pub seq_id : ℕ
  pub request : Request
  pub logical_blocks : List PhysicalBlockRef
  pub num_generated_tokens : ℕ

unfoldable pub new_sequence : ℕ → Request → Sequence
new_sequence seq_id request = record {
  seq_id = seq_id;
  request = request;
  logical_blocks = [];
  num_generated_tokens = 0;
}

abbrev pub block_indices : List PhysicalBlockRef → List ℕ
block_indices = map (λ b. b.block_idx)

unfoldable pub sequence_block_table : Sequence → List ℕ
sequence_block_table s = block_indices s.logical_blocks

-- `u32::try_from(len).unwrap_or(u32::MAX)`, then a saturating sum
unfoldable pub context_len : Sequence → ℕ
context_len s =
    let n = length s.request.input_tokens in
    saturating_add (if leb n u32_max then n else u32_max) s.num_generated_tokens

unfoldable pub decode_input_token : Sequence → Option ℕ
decode_input_token s = elim (last? s.request.output_tokens) [
  | some t ↦ some t
  | none ↦ last? s.request.input_tokens
]

unfoldable pub decode_position : Sequence → Option ℕ
unfolding context_len
decode_position s = if context_len s == 0 then none else some (context_len s - 1)

pub record SchedulerOutput : Type 0 where
  pub prefill_sequences : List Sequence
  pub decode_sequences : List Sequence
  pub total_tokens : ℕ

abbrev pub empty_output : SchedulerOutput
empty_output = record { prefill_sequences = []; decode_sequences = []; total_tokens = 0 }

unfoldable pub output_is_empty : SchedulerOutput → Bool
output_is_empty o = is_empty o.prefill_sequences && is_empty o.decode_sequences

unfoldable pub num_sequences : SchedulerOutput → ℕ
num_sequences o = length o.prefill_sequences + length o.decode_sequences

unfoldable pub output_seq_ids : SchedulerOutput → List ℕ
output_seq_ids o = map (λ s. s.seq_id) (o.prefill_sequences ++ o.decode_sequences)
