-- ===== src/Plans/Coders.antt =====
-- `validate_coder_plan` (applications/incident_repair/routing.py).
use agent_runtime.Prelude.{ℕ, none, some, List, [], ◌∷◌, if◌then◌else◌, filter, is_empty}
use agent_runtime.Prelude.Dict.{Dict, lookup, insert}
use agent_runtime.Prelude.Result.{Result, ok, err}
use agent_runtime.Planning.Coders.{PlannedTask, is_coder}
use agent_runtime.Plans.Search.{Halt, Marks, assert_coder_tasks_acyclic}

pub data CoderPlanError : Type 0 where
  no_coder_tasks : CoderPlanError
  unknown_dependency non_coder_dependency : ℕ → ℕ → CoderPlanError
  coder_cycle : Halt → CoderPlanError

abbrev pub CoderCheck : Type 0
CoderCheck = Result CoderPlanError (Unit {0})

-- by_id = {task["local_id"]: task for task in planned_tasks}
unfoldable pub by_id : List PlannedTask → Dict PlannedTask → Dict PlannedTask
unfolding insert
by_id [] d = d
by_id (t ∷ ts) d = by_id ts (insert t.local_id t d)

unfoldable pub check_dependencies : Dict PlannedTask → ℕ → List ℕ → CoderCheck
unfolding lookup
check_dependencies table id [] = ok tt
check_dependencies table id (d ∷ ds) =
    let rest = check_dependencies table id ds in
    elim (lookup d table) [
      | none ↦ err (unknown_dependency id d)
      | some t ↦ if is_coder t.role then rest else err (non_coder_dependency id d)
    ]

unfoldable pub check_coders : Dict PlannedTask → List PlannedTask → CoderCheck
unfolding check_dependencies
check_coders table [] = ok tt
check_coders table (t ∷ ts) =
    let rest = check_coders table ts in
    elim (check_dependencies table t.local_id t.dependencies) [ err e ↦ err e | ok u ↦ rest ]

-- {task["local_id"]: list(task["dependencies"]) for task in coder_items}
unfoldable pub coder_map : List PlannedTask → Dict (List ℕ) → Dict (List ℕ)
unfolding insert
coder_map [] d = d
coder_map (t ∷ ts) d = coder_map ts (insert t.local_id t.dependencies d)

abbrev pub coder_items : List PlannedTask → List PlannedTask
coder_items tasks = filter (λ t. is_coder t.role) tasks

abbrev pub coder_searched : Result Halt Marks → CoderCheck
coder_searched (ok m) = ok tt
coder_searched (err e) = err (coder_cycle e)

unfoldable pub validate_coder_plan : List PlannedTask → CoderCheck
unfolding by_id check_coders coder_map assert_coder_tasks_acyclic
validate_coder_plan tasks =
    if is_empty (coder_items tasks)
    then err no_coder_tasks
    else elim (check_coders (by_id tasks []) (coder_items tasks)) [
      | err e ↦ err e
      | ok u ↦ coder_searched (assert_coder_tasks_acyclic (coder_map (coder_items tasks) []))
    ]
