-- ===== src/Plans/Materializer.antt =====
-- `materialize_plan` (aruntime/planner/materializer.py): the tasks made of a valid plan. The text
-- f"{parent.task_id}:{local_id}" is a function of its two parts.
use agent_runtime.Prelude.{
  ℕ, Bool, true, false, Option, none, some, List, [], ◌∷◌, if◌then◌else◌, map, get_or, ◌==◌, ◌||◌,
}
use agent_runtime.Prelude.Dict.{Dict}
use agent_runtime.Prelude.Result.{Result, ok, err}
use agent_runtime.Task.Status.{FailureMode, fail_open, fail_closed}
use agent_runtime.Task.Spec.{WorkspaceSpec}
use agent_runtime.Planning.Coders.{Role, coder, tester, reviewer}
use agent_runtime.Plans.Validator.{
  Attributes, FailurePolicy, PlanTask, PlanSpec, PlanError, validate_plan, Check,
}

pub data BackendType : Type 0 where
  codex_cli direct_tool : BackendType

-- The fields of the planner's task that its children take over; `result` holds opaque values.
pub record ParentTask : Type 0 where
  pub task_id : ℕ
  pub context_id : Option ℕ
  pub root_task_id : Option ℕ
  pub workspace : Option WorkspaceSpec
  pub trace_id : ℕ
  pub result : Option (Dict ℕ)

-- "inspection" and "plan_summary", the keys of the result that are passed on
abbrev pub passed_on : ℕ → Bool
passed_on key = key == 0 || key == 1

-- The tool call that a tester's input carries.
pub data Tool : Type 0 where
  run_pytest_on_tests : Tool

pub record TaskInput : Type 0 where
  pub goal : ℕ
  pub planner_context : Dict ℕ
  pub tool : Option Tool

pub record ChildTask : Type 0 where
  pub task_id : ℕ
  pub agent_name : Option ℕ
  pub task_input : TaskInput
  pub context_id : Option ℕ
  pub parent_task_id : ℕ
  pub root_task_id : ℕ
  pub task_role : Role
  pub required_backend : BackendType
  pub workspace : Option WorkspaceSpec
  pub trace_id : ℕ
  pub dependencies : List ℕ
  pub required_capability : Attributes
  pub resource_request : Attributes
  pub timeout_ms : ℕ
  pub failure_policy : FailurePolicy

-- ROLE_BACKEND
abbrev pub role_backend : Role → BackendType
role_backend coder = codex_cli
role_backend tester = direct_tool
role_backend reviewer = codex_cli

abbrev pub is_fail_open : FailureMode → Bool
is_fail_open fail_open = true
is_fail_open _ = false

-- role in {"coder", "repair", "tester"}, for the roles of a plan
abbrev pub may_not_fail_open : Role → Bool
may_not_fail_open coder = true
may_not_fail_open tester = true
may_not_fail_open reviewer = false

unfoldable pub role_failure_policy : Role → FailurePolicy → FailurePolicy
role_failure_policy role policy =
    if is_fail_open policy.mode
    then (if may_not_fail_open role then record policy { mode = fail_closed } else policy)
    else policy

-- the entries of the planner's result that are passed on
unfoldable pub planner_context : Dict ℕ → Dict ℕ
planner_context [] = []
planner_context ((key, value) ∷ d) =
    let rest = planner_context d in if passed_on key then (key, value) ∷ rest else rest

module _ (child_id : ℕ → ℕ → ℕ) (parent : ParentTask) where
  -- id_map[local_id], for an identifier of the plan
  abbrev pub mapped_id : ℕ → ℕ
  mapped_id local_id = child_id parent.task_id local_id

  unfoldable pub task_input : PlanTask → TaskInput
  unfolding planner_context
  task_input item = record {
    goal = item.goal;
    planner_context = planner_context (get_or parent.result []);
    tool = elim item.role [ coder ↦ none | tester ↦ some run_pytest_on_tests | reviewer ↦ none ];
  }

  unfoldable pub child_task : PlanTask → ChildTask
  unfolding task_input role_failure_policy
  child_task item = record {
    task_id = mapped_id item.local_id;
    agent_name = none;
    task_input = task_input item;
    context_id = parent.context_id;
    parent_task_id = parent.task_id;
    root_task_id = get_or parent.root_task_id parent.task_id;
    task_role = item.role;
    required_backend = role_backend item.role;
    workspace = parent.workspace;
    trace_id = parent.trace_id;
    dependencies = map mapped_id item.dependencies;
    required_capability = item.required_capability;
    resource_request = item.resource_request;
    timeout_ms = item.timeout_ms;
    failure_policy = role_failure_policy item.role item.failure_policy;
  }

  abbrev pub children_of : Check → PlanSpec → Result PlanError (List ChildTask)
  children_of (err e) plan = err e
  children_of (ok u) plan = ok (map child_task plan.tasks)

  unfoldable pub materialize_plan : PlanSpec → Result PlanError (List ChildTask)
  unfolding validate_plan child_task
  materialize_plan plan = children_of (validate_plan plan) plan
