-- ===== src/Schedulers/Unfailed.antt =====
-- The nodes that have not failed yet under the steps of `fail_task` of DAGScheduler
-- (aruntime/scheduler/dag.py).
use agent_runtime.Prelude.{
  ℕ, ◌≤◌, ◌<◌, true, false, List, [], ◌∷◌, Option, some, none, ◌≡◌, ◌≢◌, refl, arith,
}
use agent_runtime.Prelude.Result.{Result, Exec, ok, err, ◌>>=◌, continue}
use agent_runtime.Prelude.Dict.{lookup, has, insert}
use agent_runtime.Prelude.Sets.{member, add, member-add}
use agent_runtime.Task.Spec.{Task}
use agent_runtime.Task.Control.{TaskError}
use agent_runtime.Kernel.Defs.{KernelTaskNode}
use agent_runtime.Kernel.Search.{Nodes}
use agent_runtime.Schedulers.Dag.{
  Dag, DagError, Act, out_of_fuel, on_task, run_found, lift_result, edit_node, edit_node_found,
}
use agent_runtime.Schedulers.Failing.{unfailed}

pub unfailed-add_le :
    (x : ℕ) (failed : List ℕ) (d : Nodes) → unfailed (add x failed) d ≤ unfailed failed d
unfolding unfailed
unfailed-add_le x failed [] = omega arith
unfailed-add_le x failed ((k, n) ∷ d) =
    ground (arith, unfailed-add_le x failed d, member-add x k failed)

pub unfailed-add :
    (x : ℕ) (failed : List ℕ) (d : Nodes)
    → has x d ≡ true
    → member x failed ≡ false
    → unfailed (add x failed) d < unfailed failed d
unfolding unfailed has lookup
unfailed-add x failed [] h new = absurd (cc)
unfailed-add x failed ((k, n) ∷ d) h new =
    ground
      (arith, unfailed-add x failed d, member-add x k failed, unfailed-add_le x failed d, h, new)

unfailed-insert :
    (x : ℕ) (node old : KernelTaskNode) (failed : List ℕ) (d : Nodes)
    → lookup x d ≡ some old
    → unfailed failed (insert x node d) ≡ unfailed failed d
unfolding unfailed insert lookup
unfailed-insert x node old failed [] h = absurd (cc)
unfailed-insert x node old failed ((k, n) ∷ d) h =
    ground (arith, unfailed-insert x node old failed d, h)

abbrev pub left : Dag → ℕ
left d = unfailed d.failed_tasks d.nodes

-- no node is new to `d'`, and what had failed still has
abbrev Later : Dag → Dag → Type 0
Later d d' =
    (left d' ≤ left d)
    × ((y : ℕ) → member y d.failed_tasks ≡ true → member y d'.failed_tasks ≡ true)

abbrev pub Answered : Dag → Result DagError (Unit {0}) × Dag → Type 0
Answered d (r, d') = (r ≢ err out_of_fuel) × Later d d'

Later-trans : (a b c : Dag) → Later a b → Later b c → Later a c
Later-trans a b c (p, q) (u, v) = (omega (arith, p, u), λ y h. v y (q y h))

pub answered_after :
    (a b : Dag) (x : Result DagError (Unit {0}) × Dag) → Later a b → Answered b x → Answered a x
answered_after a b (r, c) h (n, l) = (n, Later-trans a b c h l)

pub done : (d : Dag) → Answered d (ok tt, d)
done d = (λ e. cc, (omega arith, λ y h. h))

continue-Answered :
    (d : Dag) (x : Result DagError (Unit {0}) × Dag) (f : Unit {0} → Act (Unit {0}))
    → Answered d x
    → ((u : Unit {0}) (d' : Dag) → Later d d' → x.1 ≡ d' → Answered d' (f u d'))
    → Answered d (continue x.0 f x.1)
continue-Answered d (ok u, d') f (n, l) go = answered_after d d' (f u d') l (go u d' l refl)
continue-Answered d (err e, d') f (n, l) go = (λ p. n (cc), l)

pub bind-Answered :
    (m : Act (Unit {0})) (f : Unit {0} → Act (Unit {0})) (d : Dag)
    → Answered d (m d)
    → ((u : Unit {0}) (d' : Dag) → Later d d' → (m d).1 ≡ d' → Answered d' (f u d'))
    → Answered d ((m >>= f) d)
unfolding ◌>>=◌
bind-Answered m f d h go = continue-Answered d (m d) f h go

lift_result-answers : (r : Result TaskError (Unit {0})) → lift_result r ≢ err out_of_fuel
unfolding lift_result
lift_result-answers (ok u) = λ e. cc
lift_result-answers (err x) = λ e. cc

run_found-Answered :
    (id : ℕ) (m : Exec TaskError Task (Unit {0})) (o : Option Task) (d : Dag)
    → Answered d (run_found id m o d)
unfolding run_found
run_found-Answered id m none d = (λ e. cc, (omega arith, λ y h. h))
run_found-Answered id m (some t) d =
    let (r, t') = m t in (lift_result-answers r, (omega arith, λ y h. h))

pub on_task-Answered :
    (id : ℕ) (m : Exec TaskError Task (Unit {0})) (d : Dag) → Answered d (on_task id m d)
unfolding on_task
on_task-Answered id m d = run_found-Answered id m (lookup id d.tasks) d

edit_node_found-Later :
    (id : ℕ) (f : KernelTaskNode → KernelTaskNode) (o : Option KernelTaskNode) (d : Dag)
    → lookup id d.nodes ≡ o
    → Later d (edit_node_found id f o d)
unfolding edit_node_found
edit_node_found-Later id f none d h = (omega arith, λ y p. p)
edit_node_found-Later id f (some n) d h =
    (omega (arith, unfailed-insert id (f n) n d.failed_tasks d.nodes h), λ y p. p)

pub edit_node-Later :
    (id : ℕ) (f : KernelTaskNode → KernelTaskNode) (d : Dag) → Later d (edit_node id f d)
unfolding edit_node
edit_node-Later id f d = edit_node_found-Later id f (lookup id d.nodes) d refl

run_found-kept :
    (id : ℕ) (m : Exec TaskError Task (Unit {0})) (o : Option Task) (d : Dag)
    → ((run_found id m o d).1.nodes ≡ d.nodes)
      × ((run_found id m o d).1.failed_tasks ≡ d.failed_tasks)
unfolding run_found
run_found-kept id m none d = (refl, refl)
run_found-kept id m (some t) d = (refl, refl)

pub on_task-kept :
    (id : ℕ) (m : Exec TaskError Task (Unit {0})) (d : Dag)
    → ((on_task id m d).1.nodes ≡ d.nodes) × ((on_task id m d).1.failed_tasks ≡ d.failed_tasks)
unfolding on_task
on_task-kept id m d = run_found-kept id m (lookup id d.tasks) d
