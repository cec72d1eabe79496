-- ===== src/Schedulers/Answered.antt =====
-- That `fail_task` of DAGScheduler (aruntime/scheduler/dag.py) comes to an end, and what has failed
-- after it.
use agent_runtime.Prelude.{
  ℕ, ◌≤◌, zero, suc, true, false, List, [], ◌∷◌, Option, some, none, ◌≡◌, ◌≢◌, arith, ◌&&◌, not,
  Bool-cases, inl, inr, ap, sym, ◌∙◌,
}
use agent_runtime.Prelude.Result.{Result, ok, err}
use agent_runtime.Prelude.Dict.{lookup, has}
use agent_runtime.Prelude.Sets.{member, member-add}
use agent_runtime.Task.Status.{
  FailureMode, fail_closed, fail_open, degrade, fall_back, retry, dependency_mode,
  dependency_fail_closed,
}
use agent_runtime.Task.Status
use agent_runtime.Task.Spec.{Task}
use agent_runtime.Task.Spec
use agent_runtime.Kernel.Defs.{node_ready, discard_dependency}
use agent_runtime.Kernel.Search.{dependents_of}
use agent_runtime.Kernel.Finish.{failure_mode_of}
use agent_runtime.Schedulers.Dag.{Dag, DagError, Act, out_of_fuel, on_task, edit_node}
use agent_runtime.Schedulers.Failing.{
  free_dependent, fail_by, fail_dependent, fail_dependents, add_failed, fail_with, fail_fueled,
  fail_task,
}
use agent_runtime.Schedulers.Unfailed.{
  unfailed-add_le, unfailed-add, left, Answered, answered_after, done, bind-Answered,
  on_task-Answered, edit_node-Later, on_task-kept,
}

free_dependent-Answered :
    (now id dep : ℕ) (mode : FailureMode) (d : Dag) → Answered d (free_dependent now id dep mode d)
unfolding free_dependent
free_dependent-Answered now id dep mode d =
    let d' = edit_node dep (discard_dependency id) d in
    let m = Spec.transition_to now Status.ready (dependency_mode mode) in
    let l = edit_node-Later dep (discard_dependency id) d in
    elim (Bool-cases (node_ready (lookup dep d'.nodes))) [
      | inl e ↦ rw e (answered_after d d' (on_task dep m d') l (on_task-Answered dep m d'))
      | inr e ↦ rw e (answered_after d d' (ok tt, d') l (done d'))
    ]

-- the nodes for which `recur` is called, and what it is for them
abbrev Fresh : ℕ → Dag → Type 0
Fresh dep d = (has dep d.nodes ≡ true) × (member dep d.failed_tasks ≡ false)

abbrev Answers : ℕ → (ℕ → Act (Unit {0})) → Type 0
Answers n recur = (dep : ℕ) (d : Dag) → Fresh dep d → left d ≤ n → Answered d (recur dep d)

close-Answered :
    (n : ℕ) (recur : ℕ → Act (Unit {0})) (now id dep : ℕ) (d : Dag)
    → Answers n recur
    → Fresh dep d
    → left d ≤ n
    → Answered d (fail_by recur now id dep (some fail_closed) d)
unfolding fail_by
close-Answered n recur now id dep d a (h, new) b =
    let m = Spec.transition_to now Status.failed dependency_fail_closed in
    bind-Answered (on_task dep m) (λ u. recur dep) d (on_task-Answered dep m d)
      (λ u d' l e.
        let kept = on_task-kept dep m d in
        let nodes = sym (ap (λ x. x.nodes) e) ∙ kept.0 in
        let failed = sym (ap (λ x. x.failed_tasks) e) ∙ kept.1 in
        a dep d' (rw nodes h, rw failed new) (omega (arith, l.0, b)))

fail_by-Answered :
    (n : ℕ) (recur : ℕ → Act (Unit {0})) (now id dep : ℕ) (mode : Option FailureMode) (d : Dag)
    → Answers n recur
    → Fresh dep d
    → left d ≤ n
    → Answered d (fail_by recur now id dep mode d)
unfolding fail_by
fail_by-Answered n recur now id dep none d a h b = done d
fail_by-Answered n recur now id dep (some retry) d a h b = done d
fail_by-Answered n recur now id dep (some fail_closed) d a h b =
    close-Answered n recur now id dep d a h b
fail_by-Answered n recur now id dep (some fail_open) d a h b =
    free_dependent-Answered now id dep fail_open d
fail_by-Answered n recur now id dep (some degrade) d a h b =
    free_dependent-Answered now id dep degrade d
fail_by-Answered n recur now id dep (some fall_back) d a h b =
    free_dependent-Answered now id dep fall_back d

fail_dependent-Answered :
    (n : ℕ) (recur : ℕ → Act (Unit {0})) (now id dep : ℕ) (d : Dag)
    → Answers n recur
    → left d ≤ n
    → Answered d (fail_dependent recur now id dep d)
unfolding fail_dependent
fail_dependent-Answered n recur now id dep d a b =
    elim (Bool-cases (has dep d.nodes && not (member dep d.failed_tasks))) [
      | inl e ↦
          let mode = failure_mode_of id (lookup dep d.tasks) (lookup id d.tasks) in
          rw e
            (fail_by-Answered n recur now id dep mode d a (ground (arith, e), ground (arith, e)) b)
      | inr e ↦ rw e (done d)
    ]

fail_dependents-Answered :
    (n : ℕ) (recur : ℕ → Act (Unit {0})) (now id : ℕ) (deps : List ℕ) (d : Dag)
    → Answers n recur
    → left d ≤ n
    → Answered d (fail_dependents recur now id deps d)
unfolding fail_dependents
fail_dependents-Answered n recur now id [] d a b = done d
fail_dependents-Answered n recur now id (dep ∷ deps) d a b =
    bind-Answered (fail_dependent recur now id dep) (λ u. fail_dependents recur now id deps) d
      (fail_dependent-Answered n recur now id dep d a b)
      (λ u d' l e. fail_dependents-Answered n recur now id deps d' a (omega (arith, l.0, b)))

-- the failed task counts as failed at once, and stays so over the loop
failed_then :
    (id : ℕ) (d : Dag) (x : Result DagError (Unit {0}) × Dag)
    → Answered (add_failed id d) x
    → Answered d x × (member id x.1.failed_tasks ≡ true)
unfolding add_failed
failed_then id d (r, d') (n, (l, k)) = (
  (
    n,
    (
      omega (arith, l, unfailed-add_le id d.failed_tasks d.nodes),
      λ y h. k y (ground (arith, h, member-add id y d.failed_tasks)),
    ),
  ),
  k id (ground (arith, member-add id id d.failed_tasks)),
)

fail_with-Answered :
    (n : ℕ) (recur : ℕ → Act (Unit {0})) (now id : ℕ) (d : Dag)
    → Answers n recur
    → has id d.nodes ≡ true
    → left (add_failed id d) ≤ n
    → Answered d (fail_with recur now id d)
      × (member id (fail_with recur now id d).1.failed_tasks ≡ true)
unfolding fail_with
fail_with-Answered n recur now id d a h b =
    let deps = dependents_of (lookup id d.nodes) in
    rw h (
      failed_then id d (fail_dependents recur now id deps (add_failed id d))
        (fail_dependents-Answered n recur now id deps (add_failed id d) a b))

fail_fueled-Answers : (fuel now : ℕ) → Answers fuel (fail_fueled fuel now)
unfolding fail_fueled add_failed
fail_fueled-Answers zero now dep d (h, new) b =
    absurd (omega (arith, b, unfailed-add dep d.failed_tasks d.nodes h new))
fail_fueled-Answers (suc fuel) now dep d (h, new) b =
    (fail_with-Answered fuel (fail_fueled fuel now) now dep d (fail_fueled-Answers fuel now) h
      (omega (arith, b, unfailed-add dep d.failed_tasks d.nodes h new))).0

-- `fail_task` of the DAG scheduler comes to an end for every task of the graph, whatever the graph,
-- cycles included, also where a refused transition of a dependent stops it: the task counts as
-- failed then, and so does every task that did before.
pub fail_task-answers :
    (now id : ℕ) (d : Dag)
    → has id d.nodes ≡ true
    → ((fail_task now id d).0 ≢ err out_of_fuel)
      × ((member id (fail_task now id d).1.failed_tasks ≡ true)
          × ((y : ℕ)
              → member y d.failed_tasks ≡ true
              → member y (fail_task now id d).1.failed_tasks ≡ true))
unfolding fail_task fail_fueled add_failed
fail_task-answers now id d h =
    let n = left d in
    let r =
      fail_with-Answered n (fail_fueled n now) now id d (fail_fueled-Answers n now) h
        (unfailed-add_le id d.failed_tasks d.nodes) in
    (r.0.0, (r.1, r.0.1.1))
