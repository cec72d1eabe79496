-- ===== src/Kernel/Order.antt =====
-- The ordering policies of KernelScheduler: `_sort_key` and what it reads. The code's floats are
-- exact numbers here: times are microseconds, a priority and its ageing by 1/30 a second are counted
-- in units of 1/30000000, and a resource score is in ten-thousandths, the code's four decimals.
use agent_runtime.Prelude.Sets.{member}
use agent_runtime.Prelude.Dict.{Dict, lookup}
use agent_runtime.Prelude.Int.{◌+ℤ◌, ℤ, scale, pos, neg, leb_ℤ}
use agent_runtime.Prelude.{
  none, true, some, false, ◌∷◌, [], ◌++◌, ℕ, Bool, List, Option, get_or, if◌then◌else◌, max, ◌*◌,
  ◌+◌, ◌-◌, ◌&&◌, ◌==◌, ◌/◌, min,
}
use agent_runtime.Kernel.Defs.{
  Kernel, Setting, Policy, Agent, given_text, name_key, fifo, priority, deadline, fair_share,
  resource_aware, capability_aware, cost_aware_policy, reliability_aware_policy, other_policy,
}
use agent_runtime.Task.Spec.{Task}

-- `_aged_priority`: priority + seconds waited / 30; a clock that went back counts as no wait
unfoldable pub aged_priority : ℕ → Task → ℤ
unfolding ◌+ℤ◌
aged_priority now task = scale 30000000 task.priority +ℤ pos (now - task.created_at)

pub data RequestName : Type 0 where
  memory_max_bytes token_budget llm_max_concurrent : RequestName

-- `_requested_number`: 0 for an entry that is absent or no number; negative amounts are left out
abbrev pub requested_number : RequestName → Task → ℕ
requested_number memory_max_bytes task = get_or task.resource_request.memory_max_bytes 0
requested_number token_budget task = get_or task.resource_request.token_budget 0
requested_number llm_max_concurrent task = get_or task.resource_request.llm_max_concurrent 0

-- the number, or the task's own budget where it is wanted and the request has none
abbrev pub with_budget : Bool → RequestName → Task → ℕ
with_budget include name task =
    if include && requested_number name task == 0
    then get_or task.token_budget (requested_number name task)
    else requested_number name task

-- `_max_requested`
unfoldable pub max_requested : List Task → RequestName → Bool → ℕ
max_requested [] name include = 0
max_requested (t ∷ ts) name include =
    max (with_budget include name t) (max_requested ts name include)

-- `_ratio`, as a fraction: the value is at most the denominator for each candidate, and capped at 1
pub record Ratio : Type 0 where
  pub over : ℕ
  pub under : ℕ

abbrev pub ratio : ℕ → ℕ → Ratio
ratio value denominator =
    if denominator == 0
    then record { over = 0; under = 1 }
    else record { over = min value denominator; under = denominator }

-- the mean of three fractions in ten-thousandths, rounded
abbrev pub mean_score : Ratio → Ratio → Ratio → ℕ
mean_score a b c =
    let over =
      a.over * b.under * c.under + b.over * a.under * c.under + c.over * a.under * b.under in
    let under = 3 * (a.under * b.under * c.under) in (20000 * over + under) / (2 * under)

abbrev pub tasks_of : List ℕ → Dict Task → List Task
tasks_of [] d = []
tasks_of (id ∷ ids) d = elim (lookup id d) [ none ↦ tasks_of ids d | some t ↦ t ∷ tasks_of ids d ]

abbrev pub candidates : Task → Kernel → List Task
candidates task k =
    if member task.task_id k.ready_queue
    then tasks_of k.ready_queue k.tasks
    else tasks_of k.ready_queue k.tasks ++ task ∷ []

-- `_resource_weight`, the final score of `_resource_score_details`
unfoldable pub resource_weight : Task → Kernel → ℕ
unfolding max_requested
resource_weight task k =
    mean_score
      (ratio (requested_number memory_max_bytes task)
        (max_requested (candidates task k) memory_max_bytes false))
      (ratio (with_budget true token_budget task)
        (max_requested (candidates task k) token_budget true))
      (ratio (requested_number llm_max_concurrent task)
        (max_requested (candidates task k) llm_max_concurrent false))

abbrev bit : Bool → ℕ
bit true = 1
bit false = 0

-- `_capability_score`
abbrev pub capability_score : Task → ℕ
capability_score task =
    let req = task.required_capability in
    bit req.can_plan
    + bit req.can_code
    + bit req.can_test
    + bit req.can_review
    + bit (given_text req.language)

find_agent_in : ℕ → List Agent → Option Agent
find_agent_in name [] = none
find_agent_in name (a ∷ as') = if a.agent_name == name then some a else find_agent_in name as'

-- `_find_agent`
unfoldable pub find_agent : Setting → Option ℕ → Option Agent
unfolding find_agent_in
find_agent s none = none
find_agent s (some name) =
    if name == 0 then none else find_agent_in name (get_or s.agent_provider [])

abbrev score_of : (Agent → ℤ) → Option Agent → ℤ
score_of f none = pos 0
score_of f (some a) = f a

-- `_cost_score` and `_reliability_score`
abbrev pub cost_score : Setting → Task → ℤ
cost_score s task = score_of (λ a. a.cost_level) (find_agent s task.agent_name)

abbrev pub reliability_score : Setting → Task → ℤ
reliability_score s task = score_of (λ a. a.reliability_score) (find_agent s task.agent_name)

-- `_deadline_value`: no deadline counts as infinitely late, hence the leading 1
abbrev pub deadline_value : Option ℕ → List ℤ
deadline_value none = pos 1 ∷ pos 0 ∷ []
deadline_value (some t) = pos 0 ∷ pos t ∷ []

abbrev pub dispatch_count : Option ℕ → Kernel → ℕ
dispatch_count name k = get_or (lookup (name_key name) k.agent_dispatch_count) 0

unfoldable pub policy_key : Policy → Setting → Kernel → Task → List ℤ
policy_key fifo s k task = []
policy_key priority s k task = neg (aged_priority s.now task) ∷ []
policy_key deadline s k task = deadline_value task.deadline ++ neg (aged_priority s.now task) ∷ []
policy_key fair_share s k task =
    pos (dispatch_count task.agent_name k) ∷ neg (aged_priority s.now task) ∷ []
policy_key resource_aware s k task =
    pos (resource_weight task k) ∷ neg (aged_priority s.now task) ∷ []
policy_key capability_aware s k task =
    neg (pos (capability_score task)) ∷ neg (aged_priority s.now task) ∷ []
policy_key cost_aware_policy s k task = cost_score s task ∷ neg (aged_priority s.now task) ∷ []
policy_key reliability_aware_policy s k task =
    neg (reliability_score s task) ∷ neg (aged_priority s.now task) ∷ []
policy_key other_policy s k task = neg (aged_priority s.now task) ∷ []

-- `_sort_key`: every policy ends with the time of creation
unfoldable pub sort_key : Setting → Kernel → Task → List ℤ
unfolding policy_key aged_priority resource_weight find_agent
sort_key s k task = policy_key s.policy s k task ++ pos task.created_at ∷ []

-- `<=` of tuples
unfoldable pub lex_leb : List ℤ → List ℤ → Bool
lex_leb [] ys = true
lex_leb (x ∷ xs) [] = false
lex_leb (x ∷ xs) (y ∷ ys) =
    let rest = lex_leb xs ys in if leb_ℤ x y then (if leb_ℤ y x then rest else true) else false

-- A stable sort by a key: `list.sort(key=...)`.
module _ (key : ℕ → List ℤ) where
  unfoldable pub place : ℕ → List ℕ → List ℕ
  unfolding lex_leb
  place x [] = x ∷ []
  place x (y ∷ ys) =
      let rest = place x ys in if lex_leb (key x) (key y) then x ∷ y ∷ ys else y ∷ rest

  unfoldable pub sort_by : List ℕ → List ℕ
  unfolding place
  sort_by [] = []
  sort_by (x ∷ xs) = place x (sort_by xs)

abbrev pub key_found : Setting → Kernel → Option Task → List ℤ
key_found s k none = []
key_found s k (some task) = sort_key s k task

abbrev pub key_of : Setting → Kernel → ℕ → List ℤ
key_of s k id = key_found s k (lookup id k.tasks)

-- `_sort_ready`. While a Python list is being sorted it is empty for whoever looks at it, so the
-- keys are computed with no ready queue.
unfoldable pub sort_ready : Setting → Kernel → Kernel
unfolding sort_by sort_key
sort_ready s k = record k {
  ready_queue = sort_by (key_of s (record k { ready_queue = [] })) k.ready_queue;
}
