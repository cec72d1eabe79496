-- ===== src/Plans/Validator.antt =====
-- `validate_plan` (aruntime/planner/validator.py) on the models of aruntime/planner/models.py.
use agent_runtime.Prelude.{
  ℕ, Bool, true, false, Option, none, some, List, [], ◌∷◌, if◌then◌else◌, length, any, leb, not,
  ◌&&◌, ◌||◌, ◌==◌,
}
use agent_runtime.Prelude.Dict.{Dict, lookup, insert, has}
use agent_runtime.Prelude.Sets.{member, dedup}
use agent_runtime.Prelude.Result.{Result, ok, err}
use agent_runtime.Task.Status.{FailureMode}
use agent_runtime.Planning.Coders.{Role, coder, tester, reviewer}
use agent_runtime.Plans.Search.{Halt, Marks, assert_acyclic}

-- A dictionary that a plan gives: a value is a number, 0 for one that counts as false.
abbrev pub Attributes : Type 0
Attributes = Dict ℕ

-- The keys that the validator names.
abbrev pub can_code : ℕ
can_code = 0

abbrev pub can_test : ℕ
can_test = 1

-- ("agent_name", "workspace_path", "api_key", "env")
abbrev pub forbidden_keys : List ℕ
forbidden_keys = 2 ∷ 3 ∷ 4 ∷ 5 ∷ []

pub record FailurePolicy : Type 0 where
  pub mode : FailureMode
  pub max_retries : ℕ
  pub fallback_agent : Option ℕ
  pub timeout_ms : ℕ

pub record PlanTask : Type 0 where
  pub local_id : ℕ
  pub role : Role
  pub goal : ℕ
  pub dependencies : List ℕ
  pub required_capability : Attributes
  pub resource_request : Attributes
  pub timeout_ms : ℕ
  pub failure_policy : FailurePolicy

pub record PlanSpec : Type 0 where
  pub summary : ℕ
  pub tasks : List PlanTask

pub data PlanError : Type 0 where
  wrong_size duplicate_id no_coder no_tester no_reviewer : PlanError
  dependency_not_found : ℕ → PlanError
  tester_on_reviewer reviewer_capability : PlanError
  forbidden : ℕ → PlanError
  halted : Halt → PlanError

abbrev pub Check : Type 0
Check = Result PlanError (Unit {0})

-- one check, and those after it
unfoldable pub also : Check → Check → Check
also (ok u) k = k
also (err e) k = err e

-- if not b: raise e
abbrev pub require : Bool → PlanError → Check
require b e = if b then ok tt else err e

unfoldable pub each {ℓ} : {A : Type ℓ} → (A → Check) → List A → Check
unfolding also
each f [] = ok tt
each f (x ∷ xs) = also (f x) (each f xs)

abbrev pub same_role : Role → Role → Bool
same_role coder coder = true
same_role tester tester = true
same_role reviewer reviewer = true
same_role _ _ = false

abbrev pub ids : List PlanTask → List ℕ
ids [] = []
ids (t ∷ ts) = t.local_id ∷ ids ts

unfoldable pub has_role : Role → List PlanTask → Bool
has_role r ts = any (λ t. same_role t.role r) ts

-- next(item for item in plan.tasks if item.local_id == dep)
unfoldable pub find_task : ℕ → List PlanTask → Option PlanTask
find_task dep [] = none
find_task dep (t ∷ ts) = if t.local_id == dep then some t else find_task dep ts

abbrev pub is_reviewer : Option PlanTask → Bool
is_reviewer none = false
is_reviewer (some t) = same_role t.role reviewer

-- cap.get(key)
abbrev pub requests : ℕ → Attributes → Bool
requests key cap = elim (lookup key cap) [ none ↦ false | some v ↦ not (v == 0) ]

-- the body of the loop over the tasks
unfoldable pub check_task : List PlanTask → PlanTask → Check
unfolding also each find_task lookup has member
check_task tasks t =
    also (each (λ dep. require (member dep (ids tasks)) (dependency_not_found dep)) t.dependencies)
      (also
        (if same_role t.role tester
          then each (λ dep. require (not (is_reviewer (find_task dep tasks))) tester_on_reviewer)
              t.dependencies
          else ok tt)
        (also
          (if same_role t.role reviewer
            then require
                (not (
                  requests can_code t.required_capability
                  || requests can_test t.required_capability))
                reviewer_capability
            else ok tt)
          (each
            (λ key.
              require (not (has key t.required_capability || has key t.resource_request))
                (forbidden key))
            forbidden_keys)))

-- {task.local_id: list(task.dependencies) for task in plan.tasks}
unfoldable pub dependency_map : List PlanTask → Dict (List ℕ) → Dict (List ℕ)
unfolding insert
dependency_map [] d = d
dependency_map (t ∷ ts) d = dependency_map ts (insert t.local_id t.dependencies d)

abbrev pub searched : Result Halt Marks → Check
searched (ok m) = ok tt
searched (err e) = err (halted e)

unfoldable pub validate_plan : PlanSpec → Check
unfolding also each has_role check_task dependency_map assert_acyclic dedup
validate_plan plan =
    let ts = plan.tasks in
    also (require (leb 2 (length ts) && leb (length ts) 12) wrong_size) (
      also (require (length (ids ts) == length (dedup (ids ts))) duplicate_id) (
        also (require (has_role coder ts) no_coder) (
          also (require (has_role tester ts) no_tester) (
            also (require (has_role reviewer ts) no_reviewer) (
              also (each (check_task ts) ts) (searched (assert_acyclic (dependency_map ts []))))))))
