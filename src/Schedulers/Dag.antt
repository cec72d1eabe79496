-- ===== src/Schedulers/Dag.antt =====
-- DAGScheduler (aruntime/scheduler/dag.py) and the dequeue of ResourceAwareScheduler
-- (aruntime/scheduler/resource_aware.py). Queues and nodes hold identifiers, `tasks` the task
-- objects. `_has_dependent_path` is, word for word, the one of the kernel scheduler.
use agent_runtime.Prelude.{
  ℕ, Bool, false, List, [], ◌∷◌, ◌++◌, Option, some, none, if◌then◌else◌, ◌&&◌, not, ltb, length,
  filter,
}
use agent_runtime.Prelude.Result.{Result, Exec, ok, err, ◌>>=◌, ◌>>◌, modify, pure}
use agent_runtime.Prelude.Dict.{Dict, lookup, insert, has}
use agent_runtime.Prelude.Sets.{member, add, remove_first, dedup}
use agent_runtime.Task.Control.{TaskError}
use agent_runtime.Task.Status.{
  TaskStatus, Reason, FailureMode, fail_closed, fail_open, degrade, fall_back, retry,
  dependencies_satisfied, waiting_dependencies, dag_ready, resource_available,
  dependency_fail_closed, dependency_mode,
}
use agent_runtime.Task.Status
use agent_runtime.Task.Spec.{Task}
use agent_runtime.Task.Spec
use agent_runtime.Kernel.Defs.{
  KernelTaskNode, node_ready, is_ready, discard_dependency, add_dependent,
}
use agent_runtime.Kernel.Search.{has_dependent_path, dependents_of}
use agent_runtime.Kernel.Dependencies.{is_fixed, add_to_task, add_dependency, depends_on, answer}

pub record Dag : Type 0 where
  pub tasks : Dict Task
  pub nodes : Dict KernelTaskNode
  pub task_queue : List ℕ
  pub waiting_queue : List ℕ
  pub completed_tasks : List ℕ
  pub failed_tasks : List ℕ

pub data DagError : Type 0 where
  key_error : ℕ → DagError
  bad_status self_dependency cyclic_dependency : DagError
  task_error : TaskError → DagError
  out_of_fuel : DagError

abbrev pub Act : Type 0 → Type 0
Act A = Exec DagError Dag A

unfoldable pub lift_result : Result TaskError (Unit {0}) → Result DagError (Unit {0})
lift_result (ok u) = ok u
lift_result (err e) = err (task_error e)

unfoldable pub run_found : ℕ → Exec TaskError Task (Unit {0}) → Option Task → Act (Unit {0})
unfolding lift_result
run_found id m none d = (err (key_error id), d)
run_found id m (some task) d =
    let (r, task') = m task in (lift_result r, record d { tasks = insert id task' d.tasks })

-- a method of the task object `id`
unfoldable pub on_task : ℕ → Exec TaskError Task (Unit {0}) → Act (Unit {0})
unfolding run_found
on_task id m d = run_found id m (lookup id d.tasks) d

unfoldable pub edit_task_found : ℕ → (Task → Task) → Option Task → Dag → Dag
edit_task_found id f none d = d
edit_task_found id f (some t) d = record d { tasks = insert id (f t) d.tasks }

unfoldable pub edit_node_found :
    ℕ → (KernelTaskNode → KernelTaskNode) → Option KernelTaskNode → Dag → Dag
edit_node_found id f none d = d
edit_node_found id f (some node) d = record d { nodes = insert id (f node) d.nodes }

unfoldable pub edit_node : ℕ → (KernelTaskNode → KernelTaskNode) → Dag → Dag
unfolding edit_node_found
edit_node id f d = edit_node_found id f (lookup id d.nodes) d

unfoldable pub push_waiting : ℕ → Dag → Dag
push_waiting id d = record d { waiting_queue = d.waiting_queue ++ id ∷ [] }

unfoldable pub push_queue : ℕ → Dag → Dag
push_queue id d = record d { task_queue = d.task_queue ++ id ∷ [] }

-- one turn of the loop of `enqueue` over the dependencies
unfoldable pub link_dependency : ℕ → ℕ → Dag → Dag
unfolding edit_node
link_dependency id dep d =
    let d' = edit_node dep (add_dependent id) d in
    if member dep d.completed_tasks then edit_node id (discard_dependency dep) d' else d'

unfoldable pub link_dependencies : ℕ → List ℕ → Dag → Dag
unfolding link_dependency
link_dependencies id [] d = d
link_dependencies id (dep ∷ deps) d = link_dependencies id deps (link_dependency id dep d)

unfoldable pub admit : Task → Dag → Dag
admit task d = record d {
  tasks = insert task.task_id task d.tasks;
  nodes =
      insert task.task_id (record { dependencies = dedup task.dependencies; dependents = [] })
        d.nodes;
}

unfoldable pub settle : ℕ → ℕ → Act (Unit {0})
unfolding on_task push_waiting ◌>>=◌
settle now id d =
    if node_ready (lookup id d.nodes)
    then on_task id (Spec.transition_to now Status.ready dependencies_satisfied) d
    else (do
      on_task id (Spec.transition_to now Status.pending waiting_dependencies)
      modify (push_waiting id))
        d

unfoldable pub enqueue : ℕ → Task → Act (Unit {0})
unfolding admit link_dependencies settle push_queue ◌>>=◌
enqueue now task = do
  modify (admit task)
  modify (link_dependencies task.task_id task.dependencies)
  settle now task.task_id
  modify (push_queue task.task_id)

-- `node and node.is_ready`
abbrev pub dequeues : Option KernelTaskNode → Bool
dequeues none = false
dequeues (some node) = is_ready node

unfoldable pub first_ready : Dict KernelTaskNode → List ℕ → Option ℕ
first_ready nodes [] = none
first_ready nodes (id ∷ ids) =
    let rest = first_ready nodes ids in if dequeues (lookup id nodes) then some id else rest

unfoldable pub drop_task : ℕ → Dag → Dag
drop_task id d = record d {
  task_queue = remove_first id d.task_queue;
  waiting_queue = remove_first id d.waiting_queue;
}

unfoldable pub hand_out : ℕ → Option ℕ → Act (Option ℕ)
unfolding drop_task on_task ◌>>=◌
hand_out now none = pure none
hand_out now (some id) = do
  modify (drop_task id)
  on_task id (Spec.transition_to now Status.running dag_ready)
  pure (some id)

unfoldable pub dequeue : ℕ → Act (Option ℕ)
unfolding first_ready hand_out
dequeue now d = hand_out now (first_ready d.nodes d.task_queue) d

-- a dependent that waited for the completed task alone becomes ready
unfoldable pub complete_dependent : ℕ → ℕ → ℕ → Act (Unit {0})
unfolding on_task edit_node ◌>>=◌
complete_dependent now id dep d =
    if depends_on id (lookup dep d.nodes)
    then (let d' = edit_node dep (discard_dependency id) d in
        if node_ready (lookup dep d'.nodes)
        then (do
          on_task dep (Spec.transition_to now Status.ready dependencies_satisfied)
          modify (λ x. record x { waiting_queue = remove_first dep x.waiting_queue }))
            d'
        else (ok tt, d'))
    else (ok tt, d)

unfoldable pub complete_each : ℕ → ℕ → List ℕ → Act (Unit {0})
unfolding complete_dependent ◌>>=◌
complete_each now id [] = pure tt
complete_each now id (dep ∷ deps) = do complete_dependent now id dep; complete_each now id deps

unfoldable pub complete_task : ℕ → ℕ → Act (Unit {0})
unfolding complete_each
complete_task now id d =
    if has id d.nodes
    then complete_each now id (dependents_of (lookup id d.nodes))
        (record d { completed_tasks = add id d.completed_tasks })
    else (ok tt, d)

unfoldable pub check_dependencies : Dag → ℕ → List ℕ → Result DagError (Unit {0})
check_dependencies d id [] = ok tt
check_dependencies d id (dep ∷ deps) =
    let rest = check_dependencies d id deps in
    if has dep d.nodes
    then (if answer (has_dependent_path d.nodes id dep) then err cyclic_dependency else rest)
    else err (key_error dep)

unfoldable pub take_dependency : ℕ → ℕ → Dag → Dag
unfolding edit_task_found edit_node
take_dependency id dep d =
    if depends_on dep (lookup id d.nodes)
    then d
    else (let d' = edit_node dep (add_dependent id) (
          edit_node id (add_dependency dep)
            (edit_task_found id (add_to_task dep) (lookup id d.tasks) d)) in
        if member dep d.completed_tasks then edit_node id (discard_dependency dep) d' else d')

unfoldable pub take_dependencies : ℕ → List ℕ → Dag → Dag
unfolding take_dependency
take_dependencies id [] d = d
take_dependencies id (dep ∷ deps) d = take_dependencies id deps (take_dependency id dep d)

-- the task goes back to waiting, if it has open dependencies now
unfoldable pub suspend : ℕ → ℕ → Act (Unit {0})
unfolding on_task ◌>>=◌
suspend now id d =
    if member id d.task_queue && not (node_ready (lookup id d.nodes))
    then (do
      on_task id (Spec.transition_to now Status.pending waiting_dependencies)
      modify (λ x. record x { waiting_queue = add id x.waiting_queue }))
        d
    else (ok tt, d)

unfoldable pub add_checked : ℕ → ℕ → List ℕ → Result DagError (Unit {0}) → Act (Unit {0})
unfolding take_dependencies suspend
add_checked now id deps (err e) d = (err e, d)
add_checked now id deps (ok u) d = suspend now id (take_dependencies id deps d)

unfoldable pub add_found : ℕ → ℕ → List ℕ → Option Task → Act (Unit {0})
unfolding add_checked check_dependencies
add_found now id deps none d = (err (key_error id), d)
add_found now id deps (some task) d =
    if is_fixed task.status
    then (err bad_status, d)
    else (if member id deps
        then (err self_dependency, d)
        else add_checked now id deps (check_dependencies d id deps) d)

unfoldable pub add_dependencies : ℕ → ℕ → List ℕ → Act (Unit {0})
unfolding add_found
add_dependencies now id ids d =
    if has id d.nodes
    then add_found now id (dedup ids) (lookup id d.tasks) d
    else (err (key_error id), d)

-- the new task waits for the one that made it, if that is known; 0 is the empty text
unfoldable pub add_dynamic_task : ℕ → Task → Option ℕ → Act (Unit {0})
add_dynamic_task now task none d = enqueue now task d
add_dynamic_task now task (some parent) d =
    if ltb 0 parent && has parent d.nodes
    then enqueue now (record task { dependencies = task.dependencies ++ parent ∷ [] }) d
    else enqueue now task d

unfoldable pub pending_count : Dag → ℕ
pending_count d = length d.task_queue

unfoldable pub ready_count : Dag → ℕ
ready_count d = length (filter (λ id. dequeues (lookup id d.nodes)) d.task_queue)
