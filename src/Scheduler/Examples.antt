-- ===== src/Scheduler/Examples.antt =====
-- The scheduler at concrete inputs: two requests are added and scheduled, one gets a token, the
-- other is cancelled, and what is completed is taken.
use hetero_paged_infer.Prelude.{◌+◌, ◌≤◌, ◌≡◌, ◌&&◌, List, [], ◌∷◌, arith}
use hetero_paged_infer.Prelude.Tests.{leb, ltb, if◌then◌else◌}
use hetero_paged_infer.Prelude.Lists.{length}
use hetero_paged_infer.Prelude.Float.{fixed_point}
use hetero_paged_infer.Config.{EngineConfig, default_config}
use hetero_paged_infer.Types.Request.{Request, new_request, default_params}
use hetero_paged_infer.Types.Sequences.{num_sequences}
use hetero_paged_infer.Types.Execution.{ExecutionOutput}
use hetero_paged_infer.Scheduler.{
  Scheduler, new_scheduler, add_request, push_pending, update_memory_pressure,
}
use hetero_paged_infer.Scheduler.Schedule.{
  schedule, empty_batch, sort_pending, decode_seq_ids, prefill_candidates,
}
use hetero_paged_infer.Scheduler.Update.{update_sequences}
use hetero_paged_infer.Scheduler.Invariant.{Valid, places, completed_count}
use hetero_paged_infer.Scheduler.Conservation.{Keeps}
use hetero_paged_infer.Scheduler.Admission.{schedule-Keeps}
use hetero_paged_infer.Scheduler.Progress.{update_sequences-Keeps}
use hetero_paged_infer.Scheduler.Bounds.{prefill_tokens}
use hetero_paged_infer.Scheduler.Limits.{schedule_limits}
use hetero_paged_infer.Error.{client_disconnected}
use hetero_paged_infer.Scheduler.{fail_sequence, num_active_sequences}
use hetero_paged_infer.Scheduler.Failure.{live, Ended, fail_sequence-Ended}
use hetero_paged_infer.SeqMap.{lookup}
use hetero_paged_infer.Types.Memory.{utilization}
use hetero_paged_infer.KvCache.{new_manager, get_memory_stats}
use hetero_paged_infer.KvCache.Pool.{
  new_pool, fresh_blocks, fresh_free_list, total_blocks, num_free_blocks, num_used_blocks,
}
use hetero_paged_infer.Scheduler.Order.{InOrder, schedule_order, Pairwise, Ahead, rank}
use mathlib.Core.List.{Perm}
use hetero_paged_infer.Scheduler.Accounts.{
  adds, schedules, updates, cancels, takes_completed, SchedulerCall, call, calls, start,
}
use hetero_paged_infer.Scheduler.Traces.{every_request_once, scheduler-Valid}

abbrev first_request : Request
first_request = new_request 1 (5 ∷ 6 ∷ 7 ∷ []) default_params

abbrev second_request : Request
second_request = new_request 2 (8 ∷ []) (record default_params { priority = 3 })

abbrev one_token : ExecutionOutput
one_token = record { next_tokens = 9 ∷ []; seq_ids = 1 ∷ []; logprobs = [] }

abbrev small_config : EngineConfig
small_config = record default_config { max_num_blocks = 8 }

abbrev some_calls : List SchedulerCall
some_calls =
    adds first_request
    ∷ adds second_request
    ∷ schedules
    ∷ updates one_token 2
    ∷ cancels 2
    ∷ takes_completed
    ∷ []

abbrev two_added : List SchedulerCall
two_added = adds first_request ∷ adds second_request ∷ []

every_request_once_example :
    places 2 (calls fixed_point (start small_config) some_calls).scheduler
      + completed_count 2 (calls fixed_point (start small_config) some_calls).taken
    ≡ (if leb 1 2 && ltb 2 (calls fixed_point (start small_config) some_calls).scheduler.next_seq_id
        then 1
        else 0)
every_request_once_example =
    every_request_once fixed_point small_config some_calls 2 (omega arith) (omega arith)

scheduler-Valid_example : Valid (calls fixed_point (start small_config) some_calls).scheduler
scheduler-Valid_example =
    scheduler-Valid fixed_point small_config some_calls (omega arith) (omega arith)

-- The scheduler that the next examples start from.
abbrev waiting : Scheduler
waiting = (calls fixed_point (start small_config) two_added).scheduler

waiting-Valid : Valid waiting
waiting-Valid = scheduler-Valid fixed_point small_config two_added (omega arith) (omega arith)

waiting_config : waiting.config ≡ small_config
unfolding calls call add_request push_pending update_memory_pressure new_scheduler
waiting_config = ground arith

schedule-Keeps_example : Keeps waiting (schedule fixed_point waiting).1
schedule-Keeps_example = schedule-Keeps fixed_point waiting waiting-Valid

update_sequences-Keeps_example : Keeps waiting (update_sequences waiting one_token 2)
update_sequences-Keeps_example = update_sequences-Keeps waiting one_token 2 waiting-Valid

schedule_limits_example :
    (num_sequences (schedule fixed_point waiting).0 ≤ waiting.config.max_batch_size)
    × ((schedule fixed_point waiting).0.total_tokens
        ≡ length (schedule fixed_point waiting).0.decode_sequences
          + prefill_tokens (schedule fixed_point waiting).0.prefill_sequences)
    × ((schedule fixed_point waiting).0.total_tokens ≤ waiting.config.max_total_tokens)
schedule_limits_example =
    schedule_limits fixed_point waiting waiting-Valid (rw waiting_config (omega arith))
      (rw waiting_config (omega arith))

schedule_order_example :
    InOrder waiting.decode_sequences (decode_seq_ids waiting)
    × InOrder waiting.prefill_sequences (prefill_candidates waiting)
    × Pairwise
        (λ p q. Ahead (rank p) (rank q))
        (sort_pending (empty_batch waiting)).scheduler.pending_queue
    × Perm
        (sort_pending (empty_batch waiting)).scheduler.pending_queue
        (empty_batch waiting).scheduler.pending_queue
schedule_order_example = schedule_order waiting (empty_batch waiting)

waiting-live : 1 ≤ live 1 waiting
unfolding calls call add_request push_pending update_memory_pressure new_scheduler new_manager
    new_pool fresh_blocks fresh_free_list get_memory_stats total_blocks num_free_blocks
    num_used_blocks utilization num_active_sequences lookup
waiting-live = ground arith

fail_sequence-Ended_example : Ended 1 (fail_sequence waiting 1 client_disconnected)
fail_sequence-Ended_example =
    fail_sequence-Ended waiting 1 client_disconnected waiting-Valid waiting-live
