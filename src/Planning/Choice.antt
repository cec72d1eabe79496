-- ===== src/Planning/Choice.antt =====
-- What the incident repair workflow chooses (applications/incident_repair/routing.py).
use agent_runtime.Prelude.Int.{ℤ}
use agent_runtime.Prelude.{
  ℕ, Bool, true, false, List, [], ◌∷◌, Option, some, none, ◌≡◌, ◌≤◌, ◌<◌, ◌⊎◌, inl, inr, filter,
  if◌then◌else◌, ltb, ◌&&◌, not, arith, refl, some_inj, Bool-cases, All, subst, ap, ◌∙◌,
}
use agent_runtime.Prelude.Sets.{member}
use agent_runtime.Planning.Coders.{
  PlannedTask, RepairState, to_repair, is_coder, subset, remaining_coder_tasks, ready_coder_tasks,
  least_task, choose_from, choose_next_coder_task, route_after_test, route_after_review,
  by_returncode,
}

-- `t` stands in the list
abbrev pub In : PlannedTask → List PlannedTask → Type 0
In t [] = ⊥
In t (u ∷ us) = (t ≡ u) ⊎ In t us

In-pick :
    (b : Bool) (x t u : PlannedTask) (us : List PlannedTask)
    → In x ((if b then u else t) ∷ us)
    → In x (t ∷ u ∷ us)
In-pick true x t u us h = inr h
In-pick false x t u us (inl e) = inl e
In-pick false x t u us (inr e) = inr (inr e)

least_task-In : (t : PlannedTask) (us : List PlannedTask) → In (least_task t us) (t ∷ us)
unfolding least_task
least_task-In t [] = inl refl
least_task-In t (u ∷ us) =
    let b = ltb u.local_id t.local_id in
    In-pick b (least_task (if b then u else t) us) t u us (least_task-In (if b then u else t) us)

picked_least :
    (t u : PlannedTask) (n : ℕ)
    → n ≤ (if ltb u.local_id t.local_id then u else t).local_id
    → (n ≤ t.local_id) × (n ≤ u.local_id)
picked_least t u n h = elim (Bool-cases (ltb u.local_id t.local_id)) [
  | inl e ↦ (ground (arith, e, h), ground (arith, e, h))
  | inr e ↦ (ground (arith, e, h), ground (arith, e, h))
]

least_task_least :
    (t : PlannedTask) (us : List PlannedTask)
    → All (λ u. (least_task t us).local_id ≤ u.local_id) (t ∷ us)
unfolding least_task
least_task_least t [] = (omega arith, tt)
least_task_least t (u ∷ us) =
    let b = ltb u.local_id t.local_id in
    let (le, rest) = least_task_least (if b then u else t) us in
    let (le_t, le_u) = picked_least t u (least_task (if b then u else t) us).local_id le in
    (le_t, (le_u, rest))

pub In-filter :
    (p : PlannedTask → Bool) (t : PlannedTask) (ts : List PlannedTask)
    → In t (filter p ts)
    → In t ts × (p t ≡ true)
In-filter p t [] h = absurd h
In-filter p t (u ∷ ts) h = by_test (λ f. In-filter p t ts f) (p u) refl h
  where
    by_test :
        (In t (filter p ts) → In t ts × (p t ≡ true))
        → (b : Bool) → p u ≡ b
        → In t (if b then u ∷ filter p ts else filter p ts)
        → In t (u ∷ ts) × (p t ≡ true)
    by_test rest true e (inl f) = (inl f, ap p f ∙ e)
    by_test rest true e (inr f) = let (inside, good) = rest f in (inr inside, good)
    by_test rest false e f = let (inside, good) = rest f in (inr inside, good)

choose-In :
    (t : PlannedTask) (ts : List PlannedTask)
    → choose_from ts ≡ some t
    → In t ts × All (λ u. t.local_id ≤ u.local_id) ts
unfolding choose_from
choose-In t [] h = absurd (cc)
choose-In t (u ∷ ts) h =
    subst (λ x. In x (u ∷ ts) × All (λ y. x.local_id ≤ y.local_id) (u ∷ ts)) (some_inj h)
      (least_task-In u ts, least_task_least u ts)

-- The coder task that is chosen next is a planned coder task, not completed, all of whose
-- dependencies are completed; and no task that is ready has a smaller identifier.
pub chosen_ready :
    (s : RepairState) (t : PlannedTask)
    → choose_next_coder_task s ≡ some t
    → In t s.planned_tasks
      × (is_coder t.role ≡ true)
      × (member t.local_id s.completed_coder_task_ids ≡ false)
      × (subset t.dependencies s.completed_coder_task_ids ≡ true)
      × All (λ u. t.local_id ≤ u.local_id) (ready_coder_tasks s)
unfolding choose_next_coder_task remaining_coder_tasks ready_coder_tasks
chosen_ready s t h =
    let (inside, least) = choose-In t (ready_coder_tasks s) h in
    let (remaining, deps) =
      In-filter (λ t. subset t.dependencies s.completed_coder_task_ids) t (remaining_coder_tasks s)
        inside in
    let (planned, left) =
      In-filter (λ t. is_coder t.role && not (member t.local_id s.completed_coder_task_ids)) t
        s.planned_tasks remaining in
    (planned, ground (arith, left), ground (arith, left), deps, least)

-- A workflow is sent to repair only while it has rounds left, from the tests and from the review
-- alike.
pub repair_bounded :
    (max_rounds : ℕ) (s : RepairState)
    → (route_after_test max_rounds s ≡ to_repair) ⊎ (route_after_review max_rounds s ≡ to_repair)
    → s.repair_round < max_rounds
unfolding route_after_test route_after_review by_returncode
repair_bounded max_rounds s (inl h) = by_rounds s.test_returncode h
  where
    by_rounds :
        (o : Option ℤ)
        → by_returncode s.repair_round max_rounds o ≡ to_repair
        → s.repair_round < max_rounds
    by_rounds none e = absurd (cc)
    by_rounds (some code) e = ground (arith, e)
repair_bounded max_rounds s (inr h) = ground (arith, h)
