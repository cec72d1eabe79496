-- ===== src/Task/Spec.antt =====
-- TaskSpec and TaskAttempt of aruntime/core/models.py. A task repeats the fields of its control
-- block, and `_sync_from_tcb` copies them. The constructor always makes a control block and no code
-- takes it away, so the tests `self.tcb is None` have no counterpart.
use agent_runtime.Prelude.Dict.{Dict}
use agent_runtime.Prelude.Int.{ℤ}
use agent_runtime.Task.Control.{TaskError, TaskControlBlock}
use agent_runtime.Prelude.Result.{Result, Exec, ok, err}
use agent_runtime.Prelude.{
  Option, Bool, ℕ, List, some, ◌+◌, none, ◌∷◌, get_or, ◌++◌, if◌then◌else◌, [], is_some, ltb, ◌==◌,
  is_none,
}
use agent_runtime.Task.Status.{TaskStatus, Reason, FailureMode}
use agent_runtime.Task.Control

-- Numbers of a request that the scheduler reads; an entry that is absent or no number is `none`. They are
-- whole and not negative here: the ranking of requests for other amounts is not modelled.
pub record ResourceRequest : Type 0 where
  pub memory_max_bytes : Option ℕ
  pub token_budget : Option ℕ
  pub llm_max_concurrent : Option ℕ

-- `required_capability`: whether the dictionary has an entry at all, and the entries that are read.
pub record RequiredCapability : Type 0 where
  pub nonempty : Bool
  pub can_plan : Bool
  pub can_code : Bool
  pub can_test : Bool
  pub can_review : Bool
  pub language : Option ℕ
  pub languages : List ℕ
  pub tool : Option ℕ

pub record WorkspaceSpec : Type 0 where
  pub workspace_id : Option ℕ
  pub workspace_path : Option ℕ
  pub base_commit : Option ℕ

pub data AttemptStatus : Type 0 where
  attempt_running attempt_success attempt_failed : AttemptStatus

-- `attempt_id` is the text "<task id>:attempt:<number>".
pub record TaskAttempt : Type 0 where
  pub attempt_task : ℕ
  pub attempt_number : ℕ
  pub worker_pid : Option ℕ
  pub agent_name : ℕ
  pub status : AttemptStatus
  pub failure_reason : ℕ
  pub token_usage : ℕ
  pub result : Option ℕ
  pub started_at : ℕ
  pub completed_at : Option ℕ
  pub backend_type : ℕ
  pub workspace_id : Option ℕ
  pub workspace_path : Option ℕ
  pub base_commit : Option ℕ

pub record Task : Type 0 where
  pub task_id : ℕ
  pub agent_name : Option ℕ
  pub priority : ℤ
  pub deadline : Option ℕ
  pub resource_request : ResourceRequest
  pub token_budget : Option ℕ
  pub dependencies : List ℕ
  pub dependency_failure_policies : Dict FailureMode
  pub failure_mode : FailureMode
  pub failure_policy_set : Bool
  pub required_capability : RequiredCapability
  pub required_backend : Option ℕ
  pub workspace : Option WorkspaceSpec
  pub status : TaskStatus
  pub trace_id : ℕ
  pub created_at : ℕ
  pub started_at : Option ℕ
  pub completed_at : Option ℕ
  pub resource_lease : Option ℕ
  pub agent_runtime : Option ℤ
  pub queue_wait : Option ℤ
  pub scheduler_decision_reason : Reason
  pub resource_block_reason : Reason
  pub tcb : TaskControlBlock
  pub attempts : List TaskAttempt

unfoldable pub sync_from_tcb : Task → Task
sync_from_tcb task = record task {
  status = task.tcb.state;
  trace_id = task.tcb.trace_id;
  created_at = task.tcb.created_at;
  started_at = task.tcb.started_at;
  completed_at = task.tcb.completed_at;
  resource_lease = task.tcb.resource_lease;
  agent_runtime = task.tcb.agent_runtime;
  queue_wait = task.tcb.queue_info.queue_wait;
  scheduler_decision_reason = task.tcb.queue_info.scheduler_decision_reason;
  resource_block_reason = task.tcb.queue_info.resource_block_reason;
}

-- the control block that a task without one gets
unfoldable pub own_tcb : Task → TaskControlBlock
own_tcb task = record {
  task_id = task.task_id;
  state = task.status;
  queue_info = record {
    scheduler_decision_reason = task.scheduler_decision_reason;
    resource_block_reason = task.resource_block_reason;
    queue_wait = task.queue_wait;
  };
  resource_lease = task.resource_lease;
  trace_id = task.trace_id;
  current_attempt = 0;
  created_at = task.created_at;
  started_at = task.started_at;
  completed_at = task.completed_at;
  agent_runtime = task.agent_runtime;
}

-- `model_post_init` of a task made with a control block, or with none; the task's definition and its
-- root are not among the fields here
unfoldable pub model_post_init : Option TaskControlBlock → Task → Task
unfolding own_tcb sync_from_tcb
model_post_init given task = sync_from_tcb (record task { tcb = get_or given (own_tcb task) })

-- A method of the control block, and the copy back unless it raises.
synced : Result TaskError (Unit {0}) × TaskControlBlock → Task → Result TaskError (Unit {0}) × Task
unfolding sync_from_tcb
synced (ok u, tcb) task = (ok u, sync_from_tcb (record task { tcb = tcb }))
synced (err e, tcb) task = (err e, record task { tcb = tcb })

unfoldable pub transition_to : ℕ → TaskStatus → Reason → Exec TaskError Task (Unit {0})
unfolding synced Control.transition_to
transition_to now status reason task =
    synced (Control.transition_to now status reason task.tcb) task

unfoldable pub block : ℕ → Reason → Exec TaskError Task (Unit {0})
unfolding synced Control.block
block now reason task = synced (Control.block now reason task.tcb) task

unfoldable pub unblock : ℕ → Reason → Exec TaskError Task (Unit {0})
unfolding synced Control.unblock
unblock now reason task = synced (Control.unblock now reason task.tcb) task

unfoldable pub set_resource_lease : Option ℕ → Task → Task
set_resource_lease lease task = record task {
  tcb = record task.tcb { resource_lease = lease };
  resource_lease = lease;
}

abbrev workspace_field : (WorkspaceSpec → Option ℕ) → Option WorkspaceSpec → Option ℕ
workspace_field f none = none
workspace_field f (some w) = f w

unfoldable pub new_attempt : ℕ → ℕ → Option ℕ → Task → TaskAttempt
new_attempt now agent_name worker_pid task = record {
  attempt_task = task.task_id;
  attempt_number = task.tcb.current_attempt + 1;
  worker_pid = worker_pid;
  agent_name = agent_name;
  status = attempt_running;
  failure_reason = 0;
  token_usage = 0;
  result = none;
  started_at = now;
  completed_at = none;
  backend_type = get_or task.required_backend 0;
  workspace_id = workspace_field (λ w. w.workspace_id) task.workspace;
  workspace_path = workspace_field (λ w. w.workspace_path) task.workspace;
  base_commit = workspace_field (λ w. w.base_commit) task.workspace;
}

unfoldable pub create_attempt : ℕ → ℕ → Option ℕ → Task → TaskAttempt × Task
unfolding new_attempt
create_attempt now agent_name worker_pid task =
    let attempt = new_attempt now agent_name worker_pid task in
    (
      attempt,
      record task {
        tcb = record task.tcb { current_attempt = task.tcb.current_attempt + 1 };
        attempts = task.attempts ++ attempt ∷ [];
      },
    )

-- the last attempt that has no end: `reversed(self.attempts)`, and the first such
unfoldable pub last_open : List TaskAttempt → Option TaskAttempt
last_open [] = none
last_open (a ∷ as') =
    let rest = last_open as' in
    if is_some rest then rest else if is_none a.completed_at then some a else none

unfoldable pub active_attempt : Task → Option TaskAttempt
unfolding last_open
active_attempt task = last_open task.attempts

close_attempt : ℕ → Option ℕ → ℕ → ℕ → TaskAttempt → TaskAttempt
close_attempt now result failure_reason token_usage a = record a {
  completed_at = some now;
  result = result;
  failure_reason = failure_reason;
  token_usage = token_usage;
  status = if ltb 0 failure_reason then attempt_failed else attempt_success;
}

-- The caller's attempt is the object of that number in the task's list.
unfoldable pub close_numbered : ℕ → ℕ → Option ℕ → ℕ → ℕ → List TaskAttempt → List TaskAttempt
unfolding close_attempt
close_numbered n now result failure_reason token_usage [] = []
close_numbered n now result failure_reason token_usage (a ∷ as') =
    (if a.attempt_number == n then close_attempt now result failure_reason token_usage a else a)
    ∷ close_numbered n now result failure_reason token_usage as'

unfoldable pub finish_attempt : ℕ → ℕ → Option ℕ → ℕ → ℕ → Task → Task
unfolding close_numbered
finish_attempt n now result failure_reason token_usage task = record task {
  attempts = close_numbered n now result failure_reason token_usage task.attempts;
}
