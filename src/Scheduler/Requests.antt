-- ===== src/Scheduler/Requests.antt =====
-- src/scheduler.rs: the methods that find a request by its id, and those that drain requests.
use hetero_paged_infer.Prelude.{ℕ, Bool, true, false, Option, none, some, List, [], ◌∷◌, ◌++◌, map}
use hetero_paged_infer.Prelude.Tests.{◌==◌, if◌then◌else◌}
use hetero_paged_infer.Prelude.Lists.{length, take}
use hetero_paged_infer.SeqMap.{contains_key, modify, values}
use hetero_paged_infer.Error.{Message, client_disconnected, for_request}
use hetero_paged_infer.Types.Request.{Request, failed}
use hetero_paged_infer.Types.Sequences.{Sequence}
use hetero_paged_infer.Scheduler.{
  Scheduler, PendingRequest, with_state, complete_sequence, fail_sequence,
}

unfoldable pub find_pending_request : ℕ → List PendingRequest → Option PendingRequest
find_pending_request request_id [] = none
find_pending_request request_id (p ∷ ps) =
    if p.request.id == request_id then some p else find_pending_request request_id ps

unfoldable pub find_sequence : ℕ → List Sequence → Option Sequence
find_sequence request_id [] = none
find_sequence request_id (q ∷ qs) =
    if q.request.id == request_id then some q else find_sequence request_id qs

unfoldable pub find_completed : ℕ → List (ℕ × Request) → Option Request
find_completed request_id [] = none
find_completed request_id ((i, r) ∷ rs) =
    if r.id == request_id then some r else find_completed request_id rs

abbrev pub active_values : Scheduler → List Sequence
active_values s = values s.prefill_sequences ++ values s.decode_sequences

unfoldable pub get_request_by_id : Scheduler → ℕ → Option Request
get_request_by_id s request_id = elim (find_pending_request request_id s.pending_queue) [
  | some p ↦ some p.request
  | none ↦ elim (find_sequence request_id (active_values s)) [
    | some q ↦ some q.request
    | none ↦ find_completed request_id s.completed_requests
  ]
]

-- The `seq_id` that `fail_by_request_id` looks up.
unfoldable pub live_seq_id : Scheduler → ℕ → Option ℕ
live_seq_id s request_id = elim (find_pending_request request_id s.pending_queue) [
  | some p ↦ some p.seq_id
  | none ↦ elim (find_sequence request_id (active_values s)) [
    | some q ↦ some q.seq_id
    | none ↦ none
  ]
]

unfoldable pub fail_by_request_id : Scheduler → ℕ → Message → Bool × Scheduler
fail_by_request_id s request_id reason = elim (live_seq_id s request_id) [
  | some seq_id ↦ (true, fail_sequence s seq_id reason)
  | none ↦ (false, s)
]

unfoldable pub cancel_by_request_id : Scheduler → ℕ → Bool × Scheduler
cancel_by_request_id s request_id = fail_by_request_id s request_id client_disconnected

-- `truncate(keep_tokens)` on the tokens and on the logprobs, and the stop mark
unfoldable pub stop_at : ℕ → Sequence → Sequence
stop_at keep_tokens q = record q {
  request = record q.request {
    output_tokens = take keep_tokens q.request.output_tokens;
    logprobs = take keep_tokens q.request.logprobs;
    stop_sequence_hit = true;
  };
}

-- `prefill_sequences.get_mut(&id).or_else(|| decode_sequences.get_mut(&id))`
unfoldable pub stop_sequence : Scheduler → ℕ → ℕ → Scheduler
stop_sequence s seq_id keep_tokens =
    if contains_key seq_id s.prefill_sequences
    then record s { prefill_sequences = modify seq_id (stop_at keep_tokens) s.prefill_sequences }
    else record s { decode_sequences = modify seq_id (stop_at keep_tokens) s.decode_sequences }

unfoldable pub complete_by_stop_sequence : Scheduler → ℕ → ℕ → Bool × Scheduler
complete_by_stop_sequence s request_id keep_tokens =
    elim (find_sequence request_id (active_values s)) [
      | some q ↦ (true, complete_sequence (stop_sequence s q.seq_id keep_tokens) q.seq_id)
      | none ↦ (false, s)
    ]

-- The requests that `fail_pending_requests` pushes, in the order of the queue.
unfoldable pub failed_pending : Message → List PendingRequest → List (ℕ × Request)
failed_pending reason [] = []
failed_pending reason (p ∷ ps) =
    (p.seq_id, with_state (failed (for_request reason p.request.id)) p.request)
    ∷ failed_pending reason ps

unfoldable pub fail_pending_requests : Scheduler → Message → ℕ × Scheduler
fail_pending_requests s reason = (
  length s.pending_queue,
  record s {
    pending_queue = [];
    completed_requests = s.completed_requests ++ failed_pending reason s.pending_queue;
  },
)

unfoldable pub take_completed_with_seq_ids : Scheduler → List (ℕ × Request) × Scheduler
take_completed_with_seq_ids s = (s.completed_requests, record s { completed_requests = [] })

unfoldable pub get_completed : Scheduler → List Request × Scheduler
get_completed s = (map (λ e. e.1) s.completed_requests, record s { completed_requests = [] })
