-- ===== src/Schedulers/Failing.antt =====
-- `fail_task` of DAGScheduler (aruntime/scheduler/dag.py), which calls itself for a dependent that
-- fails closed. The recursion takes fuel: each nested call adds a node to `failed_tasks`.
use agent_runtime.Prelude.{
  ℕ, ◌+◌, zero, suc, List, [], ◌∷◌, Option, some, none, if◌then◌else◌, ◌&&◌, not,
}
use agent_runtime.Prelude.Result.{ok, ◌>>=◌, ◌>>◌, pure, raise}
use agent_runtime.Prelude.Dict.{lookup, has}
use agent_runtime.Prelude.Sets.{member, add}
use agent_runtime.Task.Status.{
  FailureMode, fail_closed, fail_open, degrade, fall_back, retry, dependency_fail_closed,
  dependency_mode,
}
use agent_runtime.Task.Status
use agent_runtime.Task.Spec
use agent_runtime.Kernel.Defs.{node_ready, discard_dependency}
use agent_runtime.Kernel.Search.{Nodes, dependents_of}
use agent_runtime.Kernel.Finish.{failure_mode_of}
use agent_runtime.Schedulers.Dag.{Dag, Act, out_of_fuel, on_task, edit_node}

-- the dependent no longer waits for the failed task, and is ready if it waited for that alone
unfoldable pub free_dependent : ℕ → ℕ → ℕ → FailureMode → Act (Unit {0})
unfolding edit_node on_task
free_dependent now id dep mode d =
    let d' = edit_node dep (discard_dependency id) d in
    if node_ready (lookup dep d'.nodes)
    then on_task dep (Spec.transition_to now Status.ready (dependency_mode mode)) d'
    else (ok tt, d')

-- a dependent by the mode; `recur` is the call of `fail_task` for it
unfoldable pub fail_by : (ℕ → Act (Unit {0})) → ℕ → ℕ → ℕ → Option FailureMode → Act (Unit {0})
unfolding free_dependent on_task ◌>>=◌
fail_by recur now id dep none = pure tt
fail_by recur now id dep (some retry) = pure tt
fail_by recur now id dep (some fail_closed) = do
  on_task dep (Spec.transition_to now Status.failed dependency_fail_closed)
  recur dep
fail_by recur now id dep (some fail_open) = free_dependent now id dep fail_open
fail_by recur now id dep (some degrade) = free_dependent now id dep degrade
fail_by recur now id dep (some fall_back) = free_dependent now id dep fall_back

-- one turn of the loop
unfoldable pub fail_dependent : (ℕ → Act (Unit {0})) → ℕ → ℕ → ℕ → Act (Unit {0})
unfolding fail_by failure_mode_of
fail_dependent recur now id dep d =
    if has dep d.nodes && not (member dep d.failed_tasks)
    then fail_by recur now id dep (failure_mode_of id (lookup dep d.tasks) (lookup id d.tasks)) d
    else (ok tt, d)

unfoldable pub fail_dependents : (ℕ → Act (Unit {0})) → ℕ → ℕ → List ℕ → Act (Unit {0})
unfolding fail_dependent ◌>>=◌
fail_dependents recur now id [] = pure tt
fail_dependents recur now id (dep ∷ deps) = do
  fail_dependent recur now id dep
  fail_dependents recur now id deps

unfoldable pub add_failed : ℕ → Dag → Dag
add_failed id d = record d { failed_tasks = add id d.failed_tasks }

-- `fail_task` with the call for a dependent as an argument
unfoldable pub fail_with : (ℕ → Act (Unit {0})) → ℕ → ℕ → Act (Unit {0})
unfolding fail_dependents add_failed
fail_with recur now id d =
    if has id d.nodes
    then fail_dependents recur now id (dependents_of (lookup id d.nodes)) (add_failed id d)
    else (ok tt, d)

unfoldable pub fail_fueled : ℕ → ℕ → ℕ → Act (Unit {0})
unfolding fail_with
fail_fueled zero now id = raise out_of_fuel
fail_fueled (suc fuel) now id = fail_with (fail_fueled fuel now) now id

-- the nodes that have not failed
unfoldable pub unfailed : List ℕ → Nodes → ℕ
unfailed failed [] = 0
unfailed failed ((k, n) ∷ d) = (if member k failed then 0 else 1) + unfailed failed d

unfoldable pub fail_task : ℕ → ℕ → Act (Unit {0})
unfolding fail_fueled unfailed
fail_task now id d = fail_fueled (suc (unfailed d.failed_tasks d.nodes)) now id d
