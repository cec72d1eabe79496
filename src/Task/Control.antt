-- ===== src/Task/Control.antt =====
-- TaskQueueInfo and TaskControlBlock of aruntime/core/models.py. Times are microseconds, so that
-- the rounded milliseconds of the code are exact; a method that raises keeps what it wrote before.
use agent_runtime.Prelude.Int.{ℤ, sub_ℕ}
use agent_runtime.Prelude.Result.{◌>>=◌, Exec, ok, err, ◌>>◌, modify}
use agent_runtime.Prelude.{
  ℕ, Bool, Option, if◌then◌else◌, some, ◌||◌, ◌&&◌, ◌∷◌, is_none, get_or, [],
}
use agent_runtime.Task.Status.{
  TaskStatus, Reason, allowed, one_of, same_status, running, success, is_text, failed, cancelled,
  timeout, blocked, resource_blocked, no_reason, ready,
}

pub data TaskError : Type 0 where
  invalid_transition : TaskStatus → TaskStatus → TaskError

pub record TaskQueueInfo : Type 0 where
  pub scheduler_decision_reason : Reason
  pub resource_block_reason : Reason
  pub queue_wait : Option ℤ

pub record TaskControlBlock : Type 0 where
  pub task_id : ℕ
  pub state : TaskStatus
  pub queue_info : TaskQueueInfo
  pub resource_lease : Option ℕ
  pub trace_id : ℕ
  pub current_attempt : ℕ
  pub created_at : ℕ
  pub started_at : Option ℕ
  pub completed_at : Option ℕ
  pub agent_runtime : Option ℤ

-- `state == RUNNING and self.started_at is None`
unfoldable pub start : ℕ → TaskStatus → TaskControlBlock → TaskControlBlock
start now state tcb =
    if same_status state running && is_none tcb.started_at
    then record tcb {
      started_at = some now;
      queue_info = record tcb.queue_info { queue_wait = some (sub_ℕ now tcb.created_at) };
    }
    else tcb

-- the states that set `completed_at`
abbrev pub ends : TaskStatus → Bool
ends s = one_of s (success ∷ failed ∷ cancelled ∷ timeout ∷ [])

unfoldable pub complete : ℕ → TaskStatus → TaskControlBlock → TaskControlBlock
complete now state tcb =
    if ends state
    then record tcb {
      completed_at = some now;
      agent_runtime = some (sub_ℕ now (get_or tcb.started_at tcb.created_at));
    }
    else tcb

unfoldable pub note_reason : Reason → TaskControlBlock → TaskControlBlock
note_reason reason tcb =
    if is_text reason
    then record tcb { queue_info = record tcb.queue_info { scheduler_decision_reason = reason } }
    else tcb

unfoldable pub may_move : TaskStatus → TaskStatus → Bool
unfolding allowed
may_move from to = same_status to from || one_of to (allowed from)

unfoldable pub transition_to : ℕ → TaskStatus → Reason → Exec TaskError TaskControlBlock (Unit {0})
unfolding start complete note_reason may_move
transition_to now state reason tcb =
    if may_move tcb.state state
    then (
      ok tt,
      note_reason reason (complete now state (start now state (record tcb { state = state }))),
    )
    else (err (invalid_transition tcb.state state), tcb)

unfoldable pub set_block_reason : Reason → TaskControlBlock → TaskControlBlock
set_block_reason reason tcb = record tcb {
  queue_info = record tcb.queue_info { resource_block_reason = reason };
}

unfoldable pub block : ℕ → Reason → Exec TaskError TaskControlBlock (Unit {0})
unfolding transition_to set_block_reason ◌>>=◌
block now reason = do transition_to now blocked resource_blocked; modify (set_block_reason reason)

unfoldable pub unblock : ℕ → Reason → Exec TaskError TaskControlBlock (Unit {0})
unfolding transition_to set_block_reason ◌>>=◌
unblock now reason = do modify (set_block_reason no_reason); transition_to now ready reason
