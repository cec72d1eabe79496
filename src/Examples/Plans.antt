-- ===== src/Examples/Plans.antt =====
-- A plan of two coders, a tester and a reviewer, and the same coders for the repair workflow.
use agent_runtime.Prelude.Sets.{member}
use agent_runtime.Plans.Coders.{validate_coder_plan}
use agent_runtime.Plans.Acyclic.{RankedBy, assert_acyclic-ranks}
use agent_runtime.Plans.Accepted.{IsRanked}
use agent_runtime.Plans.Progress.{coder_progress}
use agent_runtime.Plans.Children.{IsSound, child_ids, materialize_plan-IsSound}
use agent_runtime.Plans.Search.{has_cycle, entry, assert_acyclic, Marks}
use agent_runtime.Plans.Settled.{Answered}
use agent_runtime.Prelude.{
  ℕ, none, some, List, [], ◌∷◌, ◌≡◌, refl, true, All, is_some, map, ◌*◌, ◌+◌, ◌↔◌,
}
use agent_runtime.Prelude.Dict.{Dict, keys, lookup}
use agent_runtime.Prelude.Result.{ok, err}
use agent_runtime.Task.Status.{fail_open}
use agent_runtime.Planning.Coders.{
  Role, coder, tester, reviewer, RepairState, workflow_running, choose_next_coder_task,
  remaining_coder_tasks,
}
use agent_runtime.Plans.Validator.{PlanTask, PlanSpec, FailurePolicy, validate_plan, halted}
use agent_runtime.Plans.Materializer.{ParentTask, materialize_plan, ChildTask, child_task}

abbrev policy : FailurePolicy
policy = record { mode = fail_open; max_retries = 0; fallback_agent = none; timeout_ms = 120000 }

abbrev plan_task : ℕ → Role → List ℕ → PlanTask
plan_task id role deps = record {
  local_id = id;
  role = role;
  goal = 0;
  dependencies = deps;
  required_capability = [];
  resource_request = [];
  timeout_ms = 300000;
  failure_policy = policy;
}

abbrev plan : PlanSpec
plan = record {
  summary = 0;
  tasks =
      plan_task 4 reviewer (3 ∷ [])
      ∷ plan_task 2 coder (1 ∷ [])
      ∷ plan_task 1 coder []
      ∷ plan_task 3 tester (2 ∷ 1 ∷ [])
      ∷ [];
}

abbrev parent : ParentTask
parent = record {
  task_id = 7;
  context_id = none;
  root_task_id = none;
  workspace = none;
  trace_id = 0;
  result = some ((0, 5) ∷ (9, 9) ∷ []);
}

-- a plan of which two tasks depend on each other
abbrev circular : PlanSpec
circular = record {
  summary = 0;
  tasks =
      plan_task 4 reviewer (3 ∷ []) ∷ plan_task 1 coder (3 ∷ []) ∷ plan_task 3 tester (1 ∷ []) ∷ [];
}

circular_refused : validate_plan circular ≡ err (halted has_cycle)
unfolding validate_plan
circular_refused = refl

abbrev links : Dict (List ℕ)
links = (1, 2 ∷ []) ∷ (2, []) ∷ []

assert_acyclic-ranks_example :
    Answered (entry links) (keys links) (assert_acyclic links)
    × (((m : Marks) × (assert_acyclic links ≡ ok m)) ↔ ((r : ℕ → ℕ) × RankedBy r links))
assert_acyclic-ranks_example =
    assert_acyclic-ranks links (unfold keys lookup member in ((refl, tt), (tt, tt)))

abbrev children : List ChildTask
children = map (child_task (λ a b. 100 * a + b) parent) plan.tasks

materialize_plan-IsSound_example :
    All (IsSound (λ a b. 100 * a + b) parent (child_ids children)) children
    × ((r : ℕ → ℕ) × IsRanked r plan.tasks)
materialize_plan-IsSound_example =
    materialize_plan-IsSound (λ a b. 100 * a + b) parent plan children
      (unfold materialize_plan in refl)

abbrev repair_state : RepairState
repair_state = record {
  planned_tasks =
      record { local_id = 2; role = coder; dependencies = 1 ∷ [] }
      ∷ record { local_id = 1; role = coder; dependencies = [] }
      ∷ record { local_id = 3; role = tester; dependencies = 2 ∷ [] }
      ∷ [];
  completed_coder_task_ids = [];
  test_returncode = none;
  review_approved = none;
  repair_round = 0;
  workflow_status = workflow_running;
}

coder_progress_example : is_some (choose_next_coder_task repair_state) ≡ true
coder_progress_example =
    coder_progress repair_state (unfold validate_coder_plan in refl)
      (unfold member in (refl, (refl, tt))) (unfold remaining_coder_tasks member in refl)
