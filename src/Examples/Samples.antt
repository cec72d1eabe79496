-- ===== src/Examples/Samples.antt =====
-- Sample data for the tests.
use agent_runtime.Prelude.{ℕ, List, [], some, none, false, refl}
use agent_runtime.Prelude.Int.{pos}
use agent_runtime.Task.Status.{TaskStatus, no_reason, retry}
use agent_runtime.Task.Control.{TaskControlBlock}
use agent_runtime.Task.Spec.{Task}
use agent_runtime.Task.Mirror.{IsMirror}
use agent_runtime.Kernel.Defs.{Setting, priority}

abbrev pub tcb_in : ℕ → TaskStatus → TaskControlBlock
tcb_in id status = record {
  task_id = id;
  state = status;
  queue_info = record {
    scheduler_decision_reason = no_reason;
    resource_block_reason = no_reason;
    queue_wait = none;
  };
  resource_lease = none;
  trace_id = 5;
  current_attempt = 0;
  created_at = 100;
  started_at = none;
  completed_at = none;
  agent_runtime = none;
}

abbrev pub task_in : ℕ → List ℕ → TaskStatus → Task
task_in id deps status = record {
  task_id = id;
  agent_name = some 1;
  priority = pos 3;
  deadline = none;
  resource_request = record {
    memory_max_bytes = none;
    token_budget = none;
    llm_max_concurrent = none;
  };
  token_budget = none;
  dependencies = deps;
  dependency_failure_policies = [];
  failure_mode = retry;
  failure_policy_set = false;
  required_capability = record {
    nonempty = false;
    can_plan = false;
    can_code = false;
    can_test = false;
    can_review = false;
    language = none;
    languages = [];
    tool = none;
  };
  required_backend = none;
  workspace = none;
  status = status;
  trace_id = 5;
  created_at = 100;
  started_at = none;
  completed_at = none;
  resource_lease = none;
  agent_runtime = none;
  queue_wait = none;
  scheduler_decision_reason = no_reason;
  resource_block_reason = no_reason;
  tcb = tcb_in id status;
  attempts = [];
}

abbrev pub setting_at : ℕ → Setting
setting_at now = record {
  policy = priority;
  resource_checker = none;
  agent_provider = none;
  now = now;
}

pub task_in-IsMirror : (id : ℕ) (deps : List ℕ) (s : TaskStatus) → IsMirror (task_in id deps s)
task_in-IsMirror id deps s = record {
  status = refl;
  trace_id = refl;
  created_at = refl;
  started_at = refl;
  completed_at = refl;
  resource_lease = refl;
  agent_runtime = refl;
  queue_wait = refl;
  decision = refl;
  block_reason = refl;
}
