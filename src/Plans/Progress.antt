-- ===== src/Plans/Progress.antt =====
-- A coder plan that validate_coder_plan accepts never gets stuck: the composition of the validation with
-- the choice of the next coder task (applications/incident_repair/routing.py).
use agent_runtime.Plans.Search.{inner_entry, assert_coder_tasks_acyclic}
use agent_runtime.Plans.Maps.{map_of, lookup-map_of}
use agent_runtime.Prelude.Sets.{member}
use agent_runtime.Plans.Ranks.{index, visit_all-ranks}
use agent_runtime.Plans.CoderChecks.{
  local_ids, validate-parts, check_coders-All, map-coder_pairs, pair_at, check_dependencies-coder,
  In-filter_intro, All-In, coder_pairs, by_id-Holds, self-In, missing, ids-coder_pairs,
  member-filter,
}
use agent_runtime.Context.Lists.{IsDistinct, lookup-member}
use agent_runtime.Prelude.Result.{ok}
use agent_runtime.Planning.Choice.{In, In-filter}
use agent_runtime.Plans.Coders.{validate_coder_plan, coder_items, coder_map, by_id}
use agent_runtime.Planning.Coders.{
  PlannedTask, choose_from, RepairState, remaining_coder_tasks, choose_next_coder_task, is_coder,
  ready_coder_tasks, subset,
}
use agent_runtime.Prelude.{
  ℕ, suc, zero, List, ◌≡◌, arith, false, [], refl, ◌∷◌, some, true, inr, inl, is_empty, is_some,
  Bool, ◌<◌, subst, ◌&&◌, not, Bool-cases, sym, filter, ◌∙◌,
}
use agent_runtime.Prelude.Dict.{Dict, lookup, keys}

module _ (ts : List PlannedTask) (valid : validate_coder_plan ts ≡ ok tt)
    (distinct : IsDistinct (local_ids (coder_items ts))) where
  abbrev items : List PlannedTask
  items = coder_items ts

  abbrev deps : Dict (List ℕ)
  deps = coder_map items []

  abbrev height : ℕ → ℕ
  height n = index n (validate-parts ts valid).1.0.visited

  -- a dependency of a coder task is a coder task of the plan
  dependency-In :
      (t : PlannedTask) (d : ℕ)
      → In t items
      → member d t.dependencies ≡ true
      → (u : PlannedTask) × In u items × (u.local_id ≡ d)
  dependency-In t d i j =
      let checks = check_coders-All (by_id ts []) items (validate-parts ts valid).0 in
      let (u, found, codes) =
        check_dependencies-coder (by_id ts []) t.local_id t.dependencies d
          (All-In _ t items checks i) j in
      let (inside, same) =
        by_id-Holds ts ts [] (λ d t e. absurd (unfold lookup in ground (arith, e)))
          (self-In ts ts (λ t h. h)) d u found in
      (u, In-filter_intro (λ t. is_coder t.role) u ts inside codes, same)

  found_deps : (t : PlannedTask) → In t items → lookup t.local_id deps ≡ some t.dependencies
  found_deps t i = rw (map-coder_pairs items []) (
      pair_at t items (map_of (coder_pairs items) []) i (
        lookup-map_of (coder_pairs items) []
          (subst IsDistinct (sym (ids-coder_pairs items)) distinct)))

  is_key : (u : PlannedTask) → In u items → is_some (lookup u.local_id deps) ≡ true
  is_key u i = rw (found_deps u i) refl

  -- ... and comes before it
  dependency-lower :
      (t : PlannedTask) (d : ℕ)
      → In t items
      → member d t.dependencies ≡ true
      → height d < height t.local_id
  dependency-lower t d i j =
      let (u, inside, same) = dependency-In t d i j in
      let known : is_some (lookup d deps) ≡ true =
        subst (λ n. is_some (lookup n deps) ≡ true) same (is_key u inside) in
      visit_all-ranks (inner_entry deps) (keys deps) (validate-parts ts valid).1.0
        (unfold assert_coder_tasks_acyclic in (validate-parts ts valid).1.1) t.local_id d
        (filter (λ d. is_some (lookup d deps)) t.dependencies)
        (sym (lookup-member t.local_id deps) ∙ is_key t i) (rw (found_deps t i) refl)
        (member-filter (λ d. is_some (lookup d deps)) d t.dependencies j known)

some_left : (ts : List PlannedTask) → is_empty ts ≡ false → (t : PlannedTask) × In t ts
some_left [] h = absurd (ground (arith, h))
some_left (t ∷ ts) h = (t, inl refl)

chosen : (u : PlannedTask) (ts : List PlannedTask) → In u ts → is_some (choose_from ts) ≡ true
unfolding choose_from
chosen u [] h = absurd h
chosen u (t ∷ ts) h = refl

module _ (s : RepairState) (valid : validate_coder_plan s.planned_tasks ≡ ok tt)
    (distinct : IsDistinct (local_ids (coder_items s.planned_tasks))) where
  abbrev is_left : PlannedTask → Bool
  is_left t = is_coder t.role && not (member t.local_id s.completed_coder_task_ids)

  -- From a remaining task, going down to a dependency that is not completed, there is one that is ready.
  descend :
      (n : ℕ) (t : PlannedTask)
      → height s.planned_tasks valid distinct t.local_id < n
      → In t (remaining_coder_tasks s)
      → (u : PlannedTask) × In u (ready_coder_tasks s)
  unfolding remaining_coder_tasks ready_coder_tasks
  descend zero t h i = absurd (omega (arith, h))
  descend (suc n) t h i =
      let (planned, left) = In-filter is_left t s.planned_tasks i in
      let item : In t (coder_items s.planned_tasks) =
        In-filter_intro (λ t. is_coder t.role) t s.planned_tasks planned (ground (arith, left)) in
      elim (Bool-cases (subset t.dependencies s.completed_coder_task_ids)) [
        | inl e ↦ (
          t,
          In-filter_intro (λ t. subset t.dependencies s.completed_coder_task_ids) t
              (remaining_coder_tasks s) i e,
        )
        | inr e ↦
            let (d, wanted, unmet) = missing t.dependencies s.completed_coder_task_ids e in
            let (u, inside, same) = dependency-In s.planned_tasks valid distinct t d item wanted in
            let (there, codes) = In-filter (λ t. is_coder t.role) u s.planned_tasks inside in
            let lower = dependency-lower s.planned_tasks valid distinct t d item wanted in
            let undone : member u.local_id s.completed_coder_task_ids ≡ false = rw same unmet in
            descend n u (rw same (omega (arith, h, lower)))
              (In-filter_intro is_left u s.planned_tasks there (ground (arith, codes, undone)))
      ]

  -- While a coder task of an accepted plan remains, one is chosen: the workflow does not get stuck, where
  -- no two coder tasks have the same identifier.
  pub coder_progress :
      is_empty (remaining_coder_tasks s) ≡ false → is_some (choose_next_coder_task s) ≡ true
  unfolding choose_next_coder_task
  coder_progress h =
      let (t, i) = some_left (remaining_coder_tasks s) h in
      let (u, j) =
        descend (suc (height s.planned_tasks valid distinct t.local_id)) t (omega arith) i in
      chosen u (ready_coder_tasks s) j
