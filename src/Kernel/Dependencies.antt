-- ===== src/Kernel/Dependencies.antt =====
-- `add_dependencies` of KernelScheduler (aruntime/scheduler/kernel.py).
use agent_runtime.Prelude.Sets.{dedup, member, add, remove_first}
use agent_runtime.Prelude.Dict.{lookup, has}
use agent_runtime.Prelude.Result.{ok, err, ◌>>=◌, ◌>>◌, modify, Result}
use agent_runtime.Prelude.{[], ◌∷◌, none, false, some, ℕ, Option, Bool, List, if◌then◌else◌}
use agent_runtime.Kernel.Defs.{
  Kernel, KernelTaskNode, Setting, Act, KernelError, key_error, bad_status, self_dependency,
  cyclic_dependency, edit_task, edit_node, add_dependent, discard_dependency,
}
use agent_runtime.Kernel.Queues.{settle}
use agent_runtime.Kernel.Search.{has_dependent_path}
use agent_runtime.Task.Spec.{Task}
use agent_runtime.Task.Status.{TaskStatus, one_of}
use agent_runtime.Task.Status

-- The statuses that do not take new dependencies.
abbrev pub is_fixed : TaskStatus → Bool
is_fixed s = one_of s (Status.running ∷ Status.success ∷ Status.failed ∷ Status.cancelled ∷ [])

-- the answer of `_has_dependent_path`, which is there
abbrev pub answer : Option Bool → Bool
answer none = false
answer (some b) = b

-- the checks of the new dependencies, in their order
unfoldable pub check_dependencies : Kernel → ℕ → List ℕ → Result KernelError (Unit {0})
unfolding has_dependent_path
check_dependencies k id [] = ok tt
check_dependencies k id (dep ∷ deps) =
    let rest = check_dependencies k id deps in
    if has dep k.nodes
    then (if answer (has_dependent_path k.nodes id dep) then err cyclic_dependency else rest)
    else err (key_error dep)

abbrev pub add_to_task : ℕ → Task → Task
add_to_task dep task = record task { dependencies = add dep task.dependencies }

abbrev pub add_dependency : ℕ → KernelTaskNode → KernelTaskNode
add_dependency dep node = record node { dependencies = add dep node.dependencies }

unfoldable pub depends_on : ℕ → Option KernelTaskNode → Bool
depends_on dep none = false
depends_on dep (some node) = member dep node.dependencies

-- one turn of the second loop
unfoldable pub take_dependency : ℕ → ℕ → Kernel → Kernel
unfolding edit_task edit_node depends_on
take_dependency id dep k =
    if depends_on dep (lookup id k.nodes)
    then k
    else (let k' =
          edit_node dep (add_dependent id)
            (edit_node id (add_dependency dep) (edit_task id (add_to_task dep) k)) in
        if member dep k.completed_tasks then edit_node id (discard_dependency dep) k' else k')

unfoldable pub take_dependencies : ℕ → List ℕ → Kernel → Kernel
unfolding take_dependency
take_dependencies id [] k = k
take_dependencies id (dep ∷ deps) k = take_dependencies id deps (take_dependency id dep k)

abbrev pub leave_queues : ℕ → Kernel → Kernel
leave_queues id k = record k {
  ready_queue = remove_first id k.ready_queue;
  waiting_queue = remove_first id k.waiting_queue;
}

unfoldable pub requeue : Setting → ℕ → List ℕ → Result KernelError (Unit {0}) → Act (Unit {0})
unfolding take_dependencies settle ◌>>=◌
requeue s id deps (err e) k = (err e, k)
requeue s id deps (ok u) k =
    (do modify (take_dependencies id deps); modify (leave_queues id); settle s id) k

unfoldable pub add_found : Setting → ℕ → List ℕ → Option Task → Act (Unit {0})
unfolding requeue check_dependencies
add_found s id deps none k = (err (key_error id), k)
add_found s id deps (some task) k =
    if is_fixed task.status
    then (err bad_status, k)
    else (if member id deps
        then (err self_dependency, k)
        else requeue s id deps (check_dependencies k id deps) k)

-- a node and its task object are there together
unfoldable pub add_dependencies : Setting → ℕ → List ℕ → Act (Unit {0})
unfolding add_found
add_dependencies s id dependency_ids k =
    if has id k.nodes
    then add_found s id (dedup dependency_ids) (lookup id k.tasks) k
    else (err (key_error id), k)
