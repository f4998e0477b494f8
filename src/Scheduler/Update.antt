-- ===== src/Scheduler/Update.antt =====
-- src/scheduler.rs, `Scheduler::update_sequences`: the tokens of an executed batch.
use hetero_paged_infer.Prelude.{ℕ, ◌+◌, Bool, ◌||◌, Option, none, some, List, [], ◌∷◌, ◌++◌}
use hetero_paged_infer.Prelude.Tests.{leb, if◌then◌else◌, is_some}
use hetero_paged_infer.Prelude.Words.{succ_u32}
use hetero_paged_infer.Prelude.Lists.{get_elem?}
use hetero_paged_infer.SeqMap.{lookup, contains_key, modify}
use hetero_paged_infer.Error.{Message, missing_next_token, unknown_seq_id}
use hetero_paged_infer.Types.Request.{TokenLogprobs, Request, request_tokens, is_complete}
use hetero_paged_infer.Types.Sequences.{Sequence}
use hetero_paged_infer.Types.Execution.{ExecutionOutput}
use hetero_paged_infer.Scheduler.{
  Scheduler, transition_prefill_to_decode, complete_sequence, fail_sequence,
}

-- `if let Some(Some(lp)) = outputs.logprobs.get(i)`, where the request asks for them
unfoldable pub logprobs_to_add : Request → Option (Option TokenLogprobs) → List TokenLogprobs
logprobs_to_add r none = []
logprobs_to_add r (some none) = []
logprobs_to_add r (some (some lp)) = if is_some r.params.logprobs then lp ∷ [] else []

unfoldable pub push_token : ℕ → Option (Option TokenLogprobs) → Sequence → Sequence
push_token token lp q = record q {
  request = record q.request {
    output_tokens = q.request.output_tokens ++ token ∷ [];
    logprobs = q.request.logprobs ++ logprobs_to_add q.request lp;
  };
  num_generated_tokens = succ_u32 q.num_generated_tokens;
}

-- The variables of `update_sequences`.
pub record Updates : Type 0 where
  pub scheduler : Scheduler
  pub to_complete : List ℕ
  pub to_fail : List (ℕ × Message)

abbrev pub note_failure : Updates → ℕ → Message → Updates
note_failure u seq_id reason = record u { to_fail = u.to_fail ++ (seq_id, reason) ∷ [] }

-- `if self.prefill_sequences.contains_key(&seq_id) { self.transition_prefill_to_decode(seq_id); }`
unfoldable pub to_decode : Scheduler → ℕ → Scheduler
to_decode s seq_id =
    if contains_key seq_id s.prefill_sequences then transition_prefill_to_decode s seq_id else s

unfoldable pub is_finished : Scheduler → Request → ℕ → Bool
is_finished s r eos = leb s.config.max_model_len (request_tokens r) || is_complete r eos

-- A token for a sequence that is, or now becomes, a decode sequence.
unfoldable pub record_token :
    ℕ → ℕ → ℕ → Option (Option TokenLogprobs) → Updates → Scheduler → Updates
record_token eos seq_id token lp u s = elim (lookup seq_id s.decode_sequences) [
  | none ↦ note_failure (record u { scheduler = s }) seq_id (unknown_seq_id seq_id)
  | some q ↦ record u {
    scheduler = record s {
      decode_sequences = modify seq_id (push_token token lp) s.decode_sequences;
    };
    to_complete =
        if is_finished s (push_token token lp q).request eos
        then u.to_complete ++ seq_id ∷ []
        else u.to_complete;
  }
]

unfoldable pub update_step : ExecutionOutput → ℕ → ℕ → ℕ → Updates → Updates
update_step out eos i seq_id u = elim (get_elem? out.next_tokens i) [
  | none ↦ note_failure u seq_id (missing_next_token seq_id)
  | some token ↦
      record_token eos seq_id token (get_elem? out.logprobs i) u (to_decode u.scheduler seq_id)
]

-- `for (i, &seq_id) in outputs.seq_ids.iter().enumerate()`
unfoldable pub update_loop : ExecutionOutput → ℕ → ℕ → List ℕ → Updates → Updates
update_loop out eos i [] u = u
update_loop out eos i (seq_id ∷ ids) u =
    update_loop out eos (i + 1) ids (update_step out eos i seq_id u)

unfoldable pub fail_all : Scheduler → List (ℕ × Message) → Scheduler
fail_all s [] = s
fail_all s ((seq_id, reason) ∷ fs) = fail_all (fail_sequence s seq_id reason) fs

unfoldable pub complete_all : Scheduler → List ℕ → Scheduler
complete_all s [] = s
complete_all s (seq_id ∷ ids) = complete_all (complete_sequence s seq_id) ids

unfoldable pub update_sequences : Scheduler → ExecutionOutput → ℕ → Scheduler
update_sequences s out eos =
    let u =
      update_loop out eos 0 out.seq_ids
        (record { scheduler = s; to_complete = []; to_fail = [] }) in
    complete_all (fail_all u.scheduler u.to_fail) u.to_complete
