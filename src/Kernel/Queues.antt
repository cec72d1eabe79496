-- ===== src/Kernel/Queues.antt =====
-- The operations of KernelScheduler on its queues: enqueueing, waiting and waking, dispatch,
-- completion and failure (aruntime/scheduler/kernel.py).
use agent_runtime.Kernel.Agents.{or_reason}
use agent_runtime.Prelude.Sets.{remove_first, dedup, member, add}
use agent_runtime.Task.Status.{
  Reason, no_reason, resource_not_checked, dependencies_satisfied, waiting_dependencies, is_text,
}
use agent_runtime.Prelude.Dict.{insert, lookup}
use agent_runtime.Prelude.Result.{ok, ◌>>=◌, ◌>>◌, modify}
use agent_runtime.Prelude.{
  [], ◌∷◌, none, ◌++◌, true, false, some, ℕ, Option, Bool, List, if◌then◌else◌, get_or, ◌&&◌, ◌+◌,
}
use agent_runtime.Kernel.Defs.{
  Kernel, Setting, Act, on_task, edit_task, edit_node, for_each, add_dependent, name_key, deps_met,
  discard_dependency,
}
use agent_runtime.Kernel.Order.{sort_ready, dispatch_count}
use agent_runtime.Kernel.Agents
use agent_runtime.Task.Spec.{Task}
use agent_runtime.Task.Spec
use agent_runtime.Task.Status

-- `_append_ready`
unfoldable pub append_ready : Setting → ℕ → Kernel → Kernel
append_ready s id k = sort_ready s (record k { ready_queue = k.ready_queue ++ id ∷ [] })

abbrev pub append_waiting : ℕ → Kernel → Kernel
append_waiting id k = record k { waiting_queue = k.waiting_queue ++ id ∷ [] }

abbrev pub remove_waiting : ℕ → Kernel → Kernel
remove_waiting id k = record k { waiting_queue = remove_first id k.waiting_queue }

-- `_remove_from_queues`
unfoldable pub remove_from_queues : ℕ → Kernel → Kernel
remove_from_queues id k = record k {
  ready_queue = remove_first id k.ready_queue;
  waiting_queue = remove_first id k.waiting_queue;
  failed_queue = remove_first id k.failed_queue;
  completed_queue = remove_first id k.completed_queue;
}

-- one turn of the loop of `enqueue` over the dependencies
unfoldable pub link_dependency : ℕ → ℕ → Kernel → Kernel
unfolding edit_node
link_dependency id dep k =
    let k' = edit_node dep (add_dependent id) k in
    if member dep k.completed_tasks then edit_node id (discard_dependency dep) k' else k'

unfoldable pub link_dependencies : ℕ → List ℕ → Kernel → Kernel
unfolding link_dependency
link_dependencies id [] k = k
link_dependencies id (dep ∷ deps) k = link_dependencies id deps (link_dependency id dep k)

-- `agent_queues.setdefault(name, []).append(id)`
abbrev pub push_agent_queue : Option ℕ → ℕ → Kernel → Kernel
push_agent_queue name id k = record k {
  agent_queues =
      insert (name_key name) (get_or (lookup (name_key name) k.agent_queues) [] ++ id ∷ [])
        k.agent_queues;
}

-- the task is ready or waits, as its node says
unfoldable pub settle : Setting → ℕ → Act (Unit {0})
unfolding on_task ◌>>=◌
settle s id k =
    if deps_met id k
    then (do
      on_task id (Spec.transition_to s.now Status.ready dependencies_satisfied)
      modify (append_ready s id))
        k
    else (do
      on_task id (Spec.transition_to s.now Status.pending waiting_dependencies)
      modify (append_waiting id))
        k

-- the new task object and its node
abbrev pub admit : Task → Kernel → Kernel
admit task k = record k {
  tasks = insert task.task_id task k.tasks;
  nodes =
      insert task.task_id (record { dependencies = dedup task.dependencies; dependents = [] })
        k.nodes;
}

unfoldable pub enqueue : Setting → Task → Act (Unit {0})
unfolding link_dependencies settle ◌>>=◌
enqueue s task = do
  modify (admit task)
  modify (link_dependencies task.task_id task.dependencies)
  modify (push_agent_queue task.agent_name task.task_id)
  settle s task.task_id

-- `resource_available`
unfoldable pub resource_available : Setting → Kernel → Task → Bool × Reason
resource_available s k task = elim s.resource_checker [
  | none ↦ (true, resource_not_checked)
  | some check ↦ check k task
]

unfoldable pub move_to_waiting : Setting → ℕ → Reason → Act (Unit {0})
unfolding remove_from_queues on_task ◌>>=◌
move_to_waiting s id reason = do
  modify (remove_from_queues id)
  on_task id (Spec.block s.now reason)
  modify (append_waiting id)

-- one turn of the loop of `wake_waiting`
unfoldable pub wake_with : Setting → ℕ → Bool × Reason → Act (Unit {0})
unfolding edit_task on_task append_ready ◌>>=◌
wake_with s id (false, reason) =
    modify (edit_task id (λ t. record t { resource_block_reason = reason }))
wake_with s id (true, reason) = do
  modify (remove_waiting id)
  on_task id (Spec.unblock s.now (or_reason reason Status.resource_available))
  modify (append_ready s id)

unfoldable pub wake_found : Setting → ℕ → Option Task → Act (Unit {0})
unfolding wake_with resource_available
wake_found s id none k = (ok tt, k)
wake_found s id (some task) k =
    if deps_met id k && is_text task.resource_block_reason
    then wake_with s id (resource_available s k task) k
    else (ok tt, k)

unfoldable pub wake_one : Setting → ℕ → Act (Unit {0})
unfolding wake_found
wake_one s id k = wake_found s id (lookup id k.tasks) k

unfoldable pub wake_waiting : Setting → Act (Unit {0})
unfolding wake_one for_each
wake_waiting s k = for_each k.waiting_queue (wake_one s) k

-- `_mark_running`
unfoldable pub mark_fields : Option ℕ → ℕ → Kernel → Kernel
unfolding edit_task
mark_fields name id k =
    let k' = edit_task id (λ t. record t { resource_block_reason = no_reason }) k in
    record k' {
      running_table = add id k'.running_table;
      agent_dispatch_count =
          insert (name_key name) (dispatch_count name k' + 1) k'.agent_dispatch_count;
    }

unfoldable pub mark_running : Setting → ℕ → Task → Reason → Act (Unit {0})
unfolding mark_fields on_task ◌>>=◌
mark_running s id task reason k =
    (do
      on_task id
          (Spec.transition_to s.now Status.running (Agents.decision_reason s.policy k task reason))
      modify (mark_fields task.agent_name id))
      k
