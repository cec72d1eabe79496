-- ===== src/Kernel/Finish.antt =====
-- How KernelScheduler completes, fails, blocks and wakes a task, and the snapshot of its queues
-- (aruntime/scheduler/kernel.py).
use agent_runtime.Prelude.Sets.{add, discard, member, remove_first}
use agent_runtime.Prelude.Dict.{lookup, has, Dict, insert}
use agent_runtime.Task.Status.{
  Reason, TaskStatus, FailureMode, no_capability_match, no_reason, task_success,
  dependency_fail_closed, task_failed, is_text, capability_match_none, dependencies_satisfied,
  dependency_mode, blocked_reason, blocked_wake,
}
use agent_runtime.Prelude.Result.{ok, ◌>>=◌, pure, ◌>>◌, modify}
use agent_runtime.Prelude.{
  length, ◌+◌, none, true, false, some, Option, ℕ, if◌then◌else◌, List, filter, Bool, is_none, ◌&&◌,
}
use agent_runtime.Kernel.Defs.{
  Kernel, Setting, Act, on_task, edit_node, for_each, name_key, discard_dependency, deps_met,
}
use agent_runtime.Kernel.Queues.{append_ready, remove_waiting, remove_from_queues, append_waiting}
use agent_runtime.Task.Spec.{Task}
use agent_runtime.Task.Spec
use agent_runtime.Task.Status
use agent_runtime.Task.Status.{fail_closed, fail_open, degrade, fall_back, retry}
use agent_runtime.Kernel.Dispatch.{name_of}
use agent_runtime.Kernel.Search.{dependents_of}

-- `_remove_agent_queue_task`: by the name that the task has now
unfoldable pub remove_agent_queue_task : ℕ → Kernel → Kernel
unfolding name_of
remove_agent_queue_task id k =
    let name = name_key (name_of (lookup id k.tasks)) in
    elim (lookup name k.agent_queues) [
      | none ↦ k
      | some queue ↦ record k { agent_queues = insert name (remove_first id queue) k.agent_queues }
    ]

unfoldable pub add_completed : ℕ → Kernel → Kernel
add_completed id k = record k { completed_queue = add id k.completed_queue }

unfoldable pub add_failed : ℕ → Kernel → Kernel
add_failed id k = record k { failed_queue = add id k.failed_queue }

abbrev pub note_failed : ℕ → Kernel → Kernel
note_failed id k = record k { failed_tasks = add id k.failed_tasks }

abbrev pub take_running : ℕ → Kernel → Kernel
take_running id k = record k { running_table = discard id k.running_table }

-- a task that leaves the table of running tasks for a status and a queue
unfoldable pub leave_running :
    Setting → ℕ → TaskStatus → Reason → (Kernel → Kernel) → Act (Unit {0})
unfolding on_task ◌>>=◌
leave_running s id status reason put k =
    if member id k.running_table
    then (do
      modify (take_running id)
      on_task id (Spec.transition_to s.now status reason)
      modify put
      modify (remove_agent_queue_task id))
        k
    else (ok tt, k)

-- a dependent is free of `id`, and becomes ready if that was the last
abbrev pub free_of : ℕ → ℕ → Kernel → Kernel
free_of id dependent k = edit_node dependent (discard_dependency id) k

unfoldable pub wake_dependent : Setting → ℕ → Reason → Act (Unit {0})
unfolding on_task append_ready ◌>>=◌
wake_dependent s dependent reason k =
    if deps_met dependent k && member dependent k.waiting_queue
    then (do
      modify (remove_waiting dependent)
      on_task dependent (Spec.unblock s.now reason)
      modify (append_ready s dependent))
        k
    else (ok tt, k)

-- one turn of the loop of `complete_task`
unfoldable pub complete_dependent : Setting → ℕ → ℕ → Act (Unit {0})
unfolding edit_node wake_dependent ◌>>=◌
complete_dependent s id dependent k =
    if has dependent k.nodes
    then (do modify (free_of id dependent); wake_dependent s dependent dependencies_satisfied) k
    else (ok tt, k)

abbrev pub note_completed : ℕ → Kernel → Kernel
note_completed id k = record k { completed_tasks = add id k.completed_tasks }

unfoldable pub complete_dependents : Setting → ℕ → Act (Unit {0})
unfolding complete_dependent for_each ◌>>=◌
complete_dependents s id k =
    if has id k.nodes
    then (do
      modify (note_completed id)
      for_each (dependents_of (lookup id k.nodes)) (complete_dependent s id))
        k
    else (ok tt, k)

unfoldable pub complete_task : Setting → ℕ → Act (Unit {0})
unfolding leave_running complete_dependents add_completed ◌>>=◌
complete_task s id = do
  leave_running s id Status.success task_success (add_completed id)
  complete_dependents s id

-- The mode of a failed dependency: that of the edge, or the failed task's own if it was set.
unfoldable pub failure_mode_of : ℕ → Option Task → Option Task → Option FailureMode
failure_mode_of id none failed = none
failure_mode_of id (some dependent) none = lookup id dependent.dependency_failure_policies
failure_mode_of id (some dependent) (some failed) =
    let edge = lookup id dependent.dependency_failure_policies in
    if is_none edge && failed.failure_policy_set then some failed.failure_mode else edge

-- a dependent of a failed task, by the mode
unfoldable pub fail_dependent_by : Option FailureMode → Setting → ℕ → ℕ → Act (Unit {0})
unfolding wake_dependent remove_from_queues on_task add_failed edit_node ◌>>=◌
fail_dependent_by (some fail_closed) s id dependent = do
  on_task dependent (Spec.transition_to s.now Status.failed dependency_fail_closed)
  modify (add_failed dependent)
  modify (note_failed dependent)
  modify (remove_from_queues dependent)
fail_dependent_by (some fail_open) s id dependent = do
  modify (free_of id dependent)
  wake_dependent s dependent (dependency_mode fail_open)
fail_dependent_by (some degrade) s id dependent = do
  modify (free_of id dependent)
  wake_dependent s dependent (dependency_mode degrade)
fail_dependent_by (some fall_back) s id dependent = do
  modify (free_of id dependent)
  wake_dependent s dependent (dependency_mode fall_back)
fail_dependent_by (some retry) s id dependent = pure tt
fail_dependent_by none s id dependent = pure tt

-- one turn of the loop of `fail_task`
unfoldable pub fail_dependent : Setting → ℕ → ℕ → Act (Unit {0})
unfolding fail_dependent_by failure_mode_of
fail_dependent s id dependent k =
    if has dependent k.nodes
    then fail_dependent_by (failure_mode_of id (lookup dependent k.tasks) (lookup id k.tasks)) s id
        dependent k
    else (ok tt, k)

unfoldable pub fail_dependents : Setting → ℕ → Act (Unit {0})
unfolding fail_dependent for_each
fail_dependents s id k = for_each (dependents_of (lookup id k.nodes)) (fail_dependent s id) k

unfoldable pub fail_task : Setting → ℕ → Act (Unit {0})
unfolding leave_running fail_dependents add_failed ◌>>=◌
fail_task s id = do
  leave_running s id Status.failed task_failed (add_failed id)
  modify (note_failed id)
  fail_dependents s id

unfoldable pub block_task : Setting → ℕ → Act (Unit {0})
unfolding remove_from_queues on_task ◌>>=◌
block_task s id = do
  modify (take_running id)
  modify (remove_from_queues id)
  on_task id (Spec.block s.now blocked_reason)
  modify (append_waiting id)

unfoldable pub wake_blocked : Setting → ℕ → Act Bool
unfolding on_task append_ready ◌>>=◌
wake_blocked s id k =
    if member id k.waiting_queue
    then (do
      modify (remove_waiting id)
      on_task id (Spec.unblock s.now blocked_wake)
      modify (append_ready s id)
      pure true)
        k
    else (ok false, k)

unfoldable pub is_blocked : Option Task → Bool
is_blocked none = false
is_blocked (some t) = is_text t.resource_block_reason

pub record QueueSnapshot : Type 0 where
  pub ready : List ℕ
  pub running : List ℕ
  pub waiting : List ℕ
  pub failed : List ℕ
  pub completed : List ℕ
  pub blocked : List ℕ
  pub agent_queues : Dict (List ℕ)

unfoldable pub queue_snapshot : Kernel → QueueSnapshot
unfolding is_blocked
queue_snapshot k = record {
  ready = k.ready_queue;
  running = k.running_table;
  waiting = k.waiting_queue;
  failed = k.failed_queue;
  completed = k.completed_queue;
  blocked = filter (λ id. is_blocked (lookup id k.tasks)) k.waiting_queue;
  agent_queues = k.agent_queues;
}

unfoldable pub pending_count : Kernel → ℕ
pending_count k = length k.ready_queue + length k.waiting_queue

unfoldable pub ready_count : Kernel → ℕ
ready_count k = length k.ready_queue

unfoldable pub running_count : Kernel → ℕ
running_count k = length k.running_table

unfoldable pub waiting_count : Kernel → ℕ
waiting_count k = length k.waiting_queue

unfoldable pub blocked_count : Kernel → ℕ
unfolding is_blocked
blocked_count k = length (filter (λ id. is_blocked (lookup id k.tasks)) k.waiting_queue)
