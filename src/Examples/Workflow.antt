-- ===== src/Examples/Workflow.antt =====
-- A plan, the recovery of stored tasks, and a worker that fails.
use agent_runtime.Prelude.{ℕ, List, [], ◌∷◌, some, none, true, false, ◌≡◌, ◌≤◌, All, refl, arith}
use agent_runtime.Prelude.Result.{ok}
use agent_runtime.Prelude.Int.{pos}
use agent_runtime.Prelude.Sets.{member}
use agent_runtime.Task.Status.{pending, running, success, ready}
use agent_runtime.Task.Spec.{Task}
use agent_runtime.Planning.Coders.{
  PlannedTask, RepairState, coder, workflow_running, choose_next_coder_task, ready_coder_tasks,
  is_coder, subset,
}
use agent_runtime.Planning.Choice.{In, chosen_ready}
use agent_runtime.Faults.Worker.{WorkerFaultState, can_restart}
use agent_runtime.Faults.Budget.{
  restarts, restarts_bounded, spent_forever, apply_all, restart, beat,
}
use agent_runtime.Faults.Recovery.{recover_tasks}
use agent_runtime.Faults.Recovered.{recovered_ready}
use agent_runtime.Examples.Samples.{task_in, task_in-IsMirror}

abbrev planned : ℕ → List ℕ → PlannedTask
planned id deps = record { local_id = id; role = coder; dependencies = deps }

abbrev repair_state : RepairState
repair_state = record {
  planned_tasks = planned 3 (1 ∷ []) ∷ planned 1 [] ∷ planned 2 (1 ∷ []) ∷ [];
  completed_coder_task_ids = 1 ∷ [];
  test_returncode = some (pos 1);
  review_approved = none;
  repair_round = 1;
  workflow_status = workflow_running;
}

chosen_ready_example :
    In (planned 2 (1 ∷ [])) repair_state.planned_tasks
    × (is_coder coder ≡ true)
    × (member 2 repair_state.completed_coder_task_ids ≡ false)
    × (subset (1 ∷ []) repair_state.completed_coder_task_ids ≡ true)
    × All (λ u. 2 ≤ u.local_id) (ready_coder_tasks repair_state)
unfolding choose_next_coder_task member
chosen_ready_example = chosen_ready repair_state (planned 2 (1 ∷ [])) refl

abbrev rows : List Task
rows =
    task_in 1 [] running
    ∷ task_in 2 (1 ∷ []) pending
    ∷ task_in 3 [] pending
    ∷ task_in 4 [] success
    ∷ []

recovered_ready_example :
    ((recover_tasks 900 rows).0 ≡ ok tt)
    × All (λ t. t.status ≡ ready) (recover_tasks 900 rows).1.recovered
recovered_ready_example = recovered_ready 900 rows (
  task_in-IsMirror 1 [] running,
  (
    task_in-IsMirror 2 (1 ∷ []) pending,
    (task_in-IsMirror 3 [] pending, (task_in-IsMirror 4 [] success, tt)),
  ),
)

abbrev worker : ℕ → WorkerFaultState
worker restarted = record {
  agent_name = 1;
  max_restarts = 3;
  restart_budget = pos 3;
  restart_count = restarted;
  circuit_open_until = none;
  last_heartbeat = none;
  fault_domain = 0;
  fallback_attempts = [];
}

restarts_bounded_example :
    ((restarts (10 ∷ 20 ∷ 30 ∷ 40 ∷ []) (worker 1)).restart_count ≤ 3)
    × ((restarts (10 ∷ 20 ∷ 30 ∷ 40 ∷ []) (worker 1)).max_restarts ≡ 3)
restarts_bounded_example = restarts_bounded (10 ∷ 20 ∷ 30 ∷ 40 ∷ []) (worker 1) (omega arith)

spent_forever_example :
    can_restart 90000000
      (apply_all (restart 10 ∷ beat 15 ∷ restart 20 ∷ beat 80000000 ∷ []) (worker 1))
    ≡ false
spent_forever_example =
    spent_forever (restart 10 ∷ beat 15 ∷ restart 20 ∷ beat 80000000 ∷ []) (worker 1) 90000000
      (omega arith)
