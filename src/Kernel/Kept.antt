-- ===== src/Kernel/Kept.antt =====
-- Completion, failure and blocking keep the queues of KernelScheduler safe
-- (aruntime/scheduler/kernel.py).
use agent_runtime.Kernel.Finish.{free_of, wake_dependent, complete_dependent}
use agent_runtime.Prelude.{ℕ, List, ◌≡◌, ◌&&◌, refl, arith, Option, some, none}
use agent_runtime.Prelude.Result.{Exec, Keeps, Keeps-bind, modify, ◌>>◌}
use agent_runtime.Prelude.Dict.{lookup, has, insert}
use agent_runtime.Prelude.Sets.{member, remove_first}
use agent_runtime.Task.Status.{
  Reason, FailureMode, fail_closed, fail_open, degrade, fall_back, retry, is_text,
  dependencies_satisfied, TaskStatus, blocked_reason, dependency_fail_closed, task_success,
  task_failed,
}
use agent_runtime.Task.Spec.{Task}
use agent_runtime.Task.Spec
use agent_runtime.Task.Control.{TaskError}
use agent_runtime.Kernel.Defs.{
  Kernel, Setting, Act, KernelTaskNode, edit_node_found, on_task, edit_node, deps_met,
  discard_dependency, name_key,
}
use agent_runtime.Kernel.Queues.{append_waiting, remove_from_queues}
use agent_runtime.Kernel.Dispatch.{name_of}
use agent_runtime.Kernel.Finish.{
  free_of, wake_dependent, complete_dependent, remove_agent_queue_task, leave_running, take_running,
  complete_dependents, note_completed, note_failed, complete_task, add_completed, fail_dependent_by,
  add_failed, fail_dependent, fail_dependents, fail_task, block_task,
}
use agent_runtime.Kernel.Search.{dependents_of}
use agent_runtime.Task.Status
use agent_runtime.Kernel.Counts.{count-member}
use agent_runtime.Kernel.Safety.{IsSafe, looser-IsSafe, edit_node-Looser, discard-Looser}
use agent_runtime.Kernel.Moves.{
  on_task-IsSafe, wake-IsSafe, wait-IsSafe, for_each-IsSafe, if-IsSafe, remove_from_queues-IsSafe,
}

abbrev pub Safely : {A : Type 0} → Act A → Type 0
Safely m = Keeps IsSafe m

pub edit_node-ready :
    (id : ℕ) (f : KernelTaskNode → KernelTaskNode) (k : Kernel)
    → (edit_node id f k).ready_queue ≡ k.ready_queue
unfolding edit_node
edit_node-ready id f k = go (lookup id k.nodes)
  where
    go : (o : Option KernelTaskNode) → (edit_node_found id f o k).ready_queue ≡ k.ready_queue
    go none = refl
    go (some n) = refl

pub edit_node-waiting :
    (id : ℕ) (f : KernelTaskNode → KernelTaskNode) (k : Kernel)
    → (edit_node id f k).waiting_queue ≡ k.waiting_queue
unfolding edit_node
edit_node-waiting id f k = go (lookup id k.nodes)
  where
    go : (o : Option KernelTaskNode) → (edit_node_found id f o k).waiting_queue ≡ k.waiting_queue
    go none = refl
    go (some n) = refl

pub free_of-IsSafe : (id dep : ℕ) (k : Kernel) → IsSafe k → IsSafe (free_of id dep k)
free_of-IsSafe id dep k h =
    looser-IsSafe k (free_of id dep k) (edit_node-ready dep (discard_dependency id) k)
      (edit_node-waiting dep (discard_dependency id) k)
      (λ x. edit_node-Looser x dep (discard_dependency id) k (discard-Looser id)) h

wake_dependent-IsSafe :
    (s : Setting) (id : ℕ) (reason : Reason) → Safely (wake_dependent s id reason)
unfolding wake_dependent
wake_dependent-IsSafe s id reason k h =
    if-IsSafe (deps_met id k && member id k.waiting_queue) _ _
      (λ e.
        wake-IsSafe s id _ k h (count-member id k.waiting_queue (ground (arith, e)))
          (ground (arith, e)))
      (λ e. h)

complete_dependent-IsSafe : (s : Setting) (id dep : ℕ) → Safely (complete_dependent s id dep)
unfolding complete_dependent
complete_dependent-IsSafe s id dep k h =
    if-IsSafe (has dep k.nodes) _ _
      (λ e.
        wake_dependent-IsSafe s dep dependencies_satisfied (free_of id dep k)
          (free_of-IsSafe id dep k h))
      (λ e. h)

remove_agent_queue_task-IsSafe :
    (id : ℕ) (k : Kernel) → IsSafe k → IsSafe (remove_agent_queue_task id k)
unfolding remove_agent_queue_task
remove_agent_queue_task-IsSafe id k h =
    go (lookup (name_key (name_of (lookup id k.tasks))) k.agent_queues)
  where
    go :
        (o : Option (List ℕ))
        → IsSafe (elim o [
          | none ↦ k
          | some queue ↦ record k {
            agent_queues =
                insert
                  (name_key (name_of (lookup id k.tasks)))
                  (remove_first id queue)
                  k.agent_queues;
          }
        ])
    go none = h
    go (some queue) = record { once = h.once; met = h.met }

-- a change that safety does not read
modify-IsSafe : (f : Kernel → Kernel) → ((k : Kernel) → IsSafe k → IsSafe (f k)) → Safely (modify f)
modify-IsSafe f hf = hf

after_running-IsSafe :
    (id : ℕ) (m : Exec TaskError Task (Unit {0})) (put : Kernel → Kernel)
    → ((k : Kernel) → IsSafe k → IsSafe (put k))
    → Safely (
        modify (take_running id)
        >> (on_task id m >> (modify put >> modify (remove_agent_queue_task id))))
after_running-IsSafe id m put hp =
    Keeps-bind (modify (take_running id))
      (λ u. on_task id m >> (modify put >> modify (remove_agent_queue_task id)))
      (λ k h. record { once = h.once; met = h.met })
      (λ u.
        Keeps-bind (on_task id m) (λ u. modify put >> modify (remove_agent_queue_task id))
          (on_task-IsSafe id m)
          (λ u.
            Keeps-bind (modify put) (λ u. modify (remove_agent_queue_task id)) hp
              (λ u. remove_agent_queue_task-IsSafe id)))

leave_running-IsSafe :
    (s : Setting) (id : ℕ) (status : TaskStatus) (reason : Reason) (put : Kernel → Kernel)
    → ((k : Kernel) → IsSafe k → IsSafe (put k))
    → Safely (leave_running s id status reason put)
unfolding leave_running
leave_running-IsSafe s id status reason put hp k h =
    if-IsSafe (member id k.running_table) _ _
      (λ e. after_running-IsSafe id (Spec.transition_to s.now status reason) put hp k h) (λ e. h)

complete_dependents-IsSafe : (s : Setting) (id : ℕ) → Safely (complete_dependents s id)
unfolding complete_dependents
complete_dependents-IsSafe s id k h =
    if-IsSafe (has id k.nodes) _ _
      (λ e.
        for_each-IsSafe (dependents_of (lookup id k.nodes)) (complete_dependent s id)
          (complete_dependent-IsSafe s id) (note_completed id k)
          (record { once = h.once; met = h.met }))
      (λ e. h)

-- Completing a task keeps the queues safe, whether it returns or raises.
pub complete_task-IsSafe : (s : Setting) (id : ℕ) → Safely (complete_task s id)
unfolding complete_task add_completed
complete_task-IsSafe s id =
    Keeps-bind (leave_running s id Status.success task_success (add_completed id))
      (λ u. complete_dependents s id)
      (leave_running-IsSafe s id Status.success task_success (add_completed id)
        (λ k h. record { once = h.once; met = h.met }))
      (λ u. complete_dependents-IsSafe s id)

free_and_wake-IsSafe :
    (s : Setting) (id dep : ℕ) (reason : Reason)
    → Safely (modify (free_of id dep) >> wake_dependent s dep reason)
free_and_wake-IsSafe s id dep reason =
    Keeps-bind (modify (free_of id dep)) (λ u. wake_dependent s dep reason) (free_of-IsSafe id dep)
      (λ u. wake_dependent-IsSafe s dep reason)

fail_closed-IsSafe :
    (dep : ℕ) (m : Exec TaskError Task (Unit {0}))
    → Safely (
        on_task dep m
        >> (modify (add_failed dep)
            >> (modify (note_failed dep) >> modify (remove_from_queues dep))))
unfolding add_failed
fail_closed-IsSafe dep m =
    Keeps-bind (on_task dep m)
      (λ u.
        modify (add_failed dep) >> (modify (note_failed dep) >> modify (remove_from_queues dep)))
      (on_task-IsSafe dep m)
      (λ u.
        Keeps-bind (modify (add_failed dep))
          (λ u. modify (note_failed dep) >> modify (remove_from_queues dep))
          (λ k h. record { once = h.once; met = h.met })
          (λ u.
            Keeps-bind (modify (note_failed dep)) (λ u. modify (remove_from_queues dep))
              (λ k h. record { once = h.once; met = h.met })
              (λ u k h. (remove_from_queues-IsSafe dep k h).0)))

fail_dependent_by-IsSafe :
    (mode : Option FailureMode) (s : Setting) (id dep : ℕ)
    → Safely (fail_dependent_by mode s id dep)
unfolding fail_dependent_by add_failed
fail_dependent_by-IsSafe (some fail_closed) s id dep =
    fail_closed-IsSafe dep (Spec.transition_to s.now Status.failed dependency_fail_closed)
fail_dependent_by-IsSafe (some fail_open) s id dep = free_and_wake-IsSafe s id dep _
fail_dependent_by-IsSafe (some degrade) s id dep = free_and_wake-IsSafe s id dep _
fail_dependent_by-IsSafe (some fall_back) s id dep = free_and_wake-IsSafe s id dep _
fail_dependent_by-IsSafe (some retry) s id dep = λ k h. h
fail_dependent_by-IsSafe none s id dep = λ k h. h

fail_dependent-IsSafe : (s : Setting) (id dep : ℕ) → Safely (fail_dependent s id dep)
unfolding fail_dependent
fail_dependent-IsSafe s id dep k h =
    if-IsSafe (has dep k.nodes) _ _ (λ e. fail_dependent_by-IsSafe _ s id dep k h) (λ e. h)

-- Failing a task keeps the queues safe, whether it returns or raises.
pub fail_task-IsSafe : (s : Setting) (id : ℕ) → Safely (fail_task s id)
unfolding fail_task add_failed fail_dependents
fail_task-IsSafe s id =
    Keeps-bind (leave_running s id Status.failed task_failed (add_failed id))
      (λ u. modify (note_failed id) >> fail_dependents s id)
      (leave_running-IsSafe s id Status.failed task_failed (add_failed id)
        (λ k h. record { once = h.once; met = h.met }))
      (λ u.
        Keeps-bind (modify (note_failed id)) (λ u. fail_dependents s id)
          (λ k h. record { once = h.once; met = h.met })
          (λ u k h.
            for_each-IsSafe (dependents_of (lookup id k.nodes)) (fail_dependent s id)
              (fail_dependent-IsSafe s id) k h))

-- Blocking a task keeps the queues safe, whether it returns or raises.
pub block_task-IsSafe : (s : Setting) (id : ℕ) → Safely (block_task s id)
unfolding block_task
block_task-IsSafe s id =
    Keeps-bind (modify (take_running id))
      (λ u.
        modify (remove_from_queues id)
        >> (on_task id (Spec.block s.now blocked_reason) >> modify (append_waiting id)))
      (λ k h. record { once = h.once; met = h.met })
      (λ u. wait-IsSafe id (Spec.block s.now blocked_reason))
