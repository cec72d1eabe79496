-- ===== src/Plans/Children.antt =====
-- The tasks that a planner's plan becomes (aruntime/planner/materializer.py).
use agent_runtime.Planning.Coders.{Role}
use agent_runtime.Prelude.{
  ℕ, true, false, List, [], ◌∷◌, ◌≡◌, refl, arith, map, All, ap, ◌&&◌, ◌==◌, Bool-cases, inl, inr,
  ==_iff, ==_refl, sym,
}
use agent_runtime.Prelude.Sets.{member}
use agent_runtime.Prelude.Result.{Result, ok, err}
use agent_runtime.Plans.Validator.{
  PlanTask, PlanSpec, FailurePolicy, validate_plan, ids, Check, PlanError,
}
use agent_runtime.Plans.Materializer.{
  ParentTask, ChildTask, child_task, mapped_id, materialize_plan, children_of, role_failure_policy,
  is_fail_open, may_not_fail_open,
}
use agent_runtime.Plans.Accepted.{Knows, IsRanked, validate_plan-IsRanked}

abbrev pub child_ids : List ChildTask → List ℕ
child_ids [] = []
child_ids (c ∷ cs) = c.task_id ∷ child_ids cs

member-map : (f : ℕ → ℕ) (x : ℕ) (xs : List ℕ) → member x xs ≡ true → member (f x) (map f xs) ≡ true
unfolding member
member-map f x [] h = absurd (ground (arith, h))
member-map f x (y ∷ xs) h = elim (Bool-cases (y == x)) [
  | inl e ↦ rw ((==_iff y x).0 e, ==_refl (f x)) refl
  | inr e ↦ ground (arith, member-map f x xs (ground (arith, h, e)))
]

Knows-map : (f : ℕ → ℕ) (known ds : List ℕ) → Knows known ds → Knows (map f known) (map f ds)
Knows-map f known [] h = tt
Knows-map f known (d ∷ ds) h = (member-map f d known h.0, Knows-map f known ds h.1)

closed_mode :
    (role : Role) (policy : FailurePolicy)
    → (may_not_fail_open role && is_fail_open (role_failure_policy role policy).mode) ≡ false
unfolding role_failure_policy
closed_mode role policy = elim (Bool-cases (is_fail_open policy.mode)) [
  | inl e ↦ elim (Bool-cases (may_not_fail_open role)) [
    | inl i ↦ rw (role_failure_policy, e, i) refl
    | inr i ↦ rw (role_failure_policy, e, i) refl
  ]
  | inr e ↦ rw (role_failure_policy, e) (ground (arith, e))
]

ok_inj :
    (xs ys : List ChildTask) → Path (Result PlanError (List ChildTask)) (ok xs) (ok ys) → xs ≡ ys
ok_inj xs ys h = cc

module _ (child_id : ℕ → ℕ → ℕ) (parent : ParentTask) where
  -- The child's dependencies are known, and it does not fail open where it codes or tests.
  abbrev pub IsSound : List ℕ → ChildTask → Type 0
  IsSound known c =
      Knows known c.dependencies
      × ((may_not_fail_open c.task_role && is_fail_open c.failure_policy.mode) ≡ false)

  ids-children :
      (ts : List PlanTask)
      → child_ids (map (child_task child_id parent) ts) ≡ map (mapped_id child_id parent) (ids ts)
  unfolding child_task
  ids-children [] = refl
  ids-children (t ∷ ts) = ap (λ l. mapped_id child_id parent t.local_id ∷ l) (ids-children ts)

  All-IsSound :
      (known : List ℕ) (ts : List PlanTask)
      → All (λ t. Knows known t.dependencies) ts
      → All (IsSound (map (mapped_id child_id parent) known)) (map (child_task child_id parent) ts)
  unfolding child_task
  All-IsSound known [] h = tt
  All-IsSound known (t ∷ ts) h = (
    (
      Knows-map (mapped_id child_id parent) known t.dependencies h.0,
      closed_mode t.role t.failure_policy,
    ),
    All-IsSound known ts h.1,
  )

  children_of-cases :
      (r : Check) (plan : PlanSpec) (cs : List ChildTask)
      → children_of child_id parent r plan ≡ ok cs
      → (r ≡ ok tt) × (cs ≡ map (child_task child_id parent) plan.tasks)
  children_of-cases (err e) plan cs h = absurd (ground (arith, h))
  children_of-cases (ok u) plan cs h = (refl, sym (ok_inj _ cs h))

  -- The children that a plan is turned into depend on one another only, in the order that some rank of
  -- the plan's tasks gives, and none of them that codes or tests may fail open.
  pub materialize_plan-IsSound :
      (plan : PlanSpec) (cs : List ChildTask)
      → materialize_plan child_id parent plan ≡ ok cs
      → All (IsSound (child_ids cs)) cs × ((r : ℕ → ℕ) × IsRanked r plan.tasks)
  unfolding materialize_plan
  materialize_plan-IsSound plan cs h =
      let (valid, same) = children_of-cases (validate_plan plan) plan cs h in
      let facts = validate_plan-IsRanked plan valid in
      (
        rw (same, ids-children plan.tasks) (All-IsSound (ids plan.tasks) plan.tasks facts.6),
        facts.7,
      )
