-- ===== src/Planning/Coders.antt =====
-- The choice of coder tasks in the incident repair workflow, and its routing
-- (applications/incident_repair/routing.py).
use agent_runtime.Prelude.{
  ℕ, Bool, true, false, List, [], ◌∷◌, Option, some, none, filter, all, if◌then◌else◌, leb, ltb,
  ◌&&◌, not, get_or,
}
use agent_runtime.Prelude.Sets.{member}
use agent_runtime.Prelude.Int.{ℤ, pos, leb_ℤ}

pub data Role : Type 0 where
  coder tester reviewer : Role

pub record PlannedTask : Type 0 where
  pub local_id : ℕ
  pub role : Role
  pub dependencies : List ℕ

pub data WorkflowStatus : Type 0 where
  workflow_running workflow_failed workflow_success : WorkflowStatus

-- The entries of the state that routing reads: `returncode` of the test summary, 1 when absent, and
-- `approved` of the review summary, false when absent.
pub record RepairState : Type 0 where
  pub planned_tasks : List PlannedTask
  pub completed_coder_task_ids : List ℕ
  pub test_returncode : Option ℤ
  pub review_approved : Option Bool
  pub repair_round : ℕ
  pub workflow_status : WorkflowStatus

abbrev pub is_coder : Role → Bool
is_coder coder = true
is_coder tester = false
is_coder reviewer = false

unfoldable pub remaining_coder_tasks : RepairState → List PlannedTask
remaining_coder_tasks s =
    filter (λ t. is_coder t.role && not (member t.local_id s.completed_coder_task_ids))
      s.planned_tasks

-- `set(dependencies) <= completed`
abbrev pub subset : List ℕ → List ℕ → Bool
subset xs ys = all (λ x. member x ys) xs

unfoldable pub ready_coder_tasks : RepairState → List PlannedTask
unfolding remaining_coder_tasks
ready_coder_tasks s =
    filter (λ t. subset t.dependencies s.completed_coder_task_ids) (remaining_coder_tasks s)

-- `sorted(ready, key=...)[0]`: the first task of least identifier
unfoldable pub least_task : PlannedTask → List PlannedTask → PlannedTask
least_task t [] = t
least_task t (u ∷ us) = least_task (if ltb u.local_id t.local_id then u else t) us

unfoldable pub choose_from : List PlannedTask → Option PlannedTask
unfolding least_task
choose_from [] = none
choose_from (t ∷ ts) = some (least_task t ts)

unfoldable pub choose_next_coder_task : RepairState → Option PlannedTask
unfolding choose_from ready_coder_tasks
choose_next_coder_task s = choose_from (ready_coder_tasks s)

pub data Route : Type 0 where
  to_reviewer to_repair to_failed to_success : Route

abbrev pub is_zero : ℤ → Bool
is_zero z = leb_ℤ z (pos 0) && leb_ℤ (pos 0) z

unfoldable pub by_returncode : ℕ → ℕ → Option ℤ → Route
by_returncode round max_rounds none = to_failed
by_returncode round max_rounds (some code) =
    if is_zero code then to_reviewer else (if leb max_rounds round then to_failed else to_repair)

unfoldable pub route_after_test : ℕ → RepairState → Route
unfolding by_returncode
route_after_test max_rounds s = by_returncode s.repair_round max_rounds s.test_returncode

abbrev pub has_failed : WorkflowStatus → Bool
has_failed workflow_failed = true
has_failed workflow_running = false
has_failed workflow_success = false

unfoldable pub route_after_review : ℕ → RepairState → Route
route_after_review max_rounds s =
    if has_failed s.workflow_status
    then to_failed
    else (if get_or s.review_approved false
        then to_success
        else (if leb max_rounds s.repair_round then to_failed else to_repair))
