-- ===== src/Kernel/History.antt =====
-- The histories of KernelScheduler (aruntime/scheduler/kernel.py): the operations that its callers
-- make, in any order, each at its own time and with its own answers of the checker.
use agent_runtime.Prelude.{ℕ, List, [], Option, arith}
use agent_runtime.Task.Spec.{Task}
use agent_runtime.Kernel.Defs.{Kernel, Setting}
use agent_runtime.Kernel.Queues.{enqueue}
use agent_runtime.Kernel.Dispatch.{dispatch_ready}
use agent_runtime.Kernel.Dependencies.{add_dependencies}
use agent_runtime.Kernel.Finish.{complete_task, fail_task, block_task}
use agent_runtime.Kernel.Counts.{count}
use agent_runtime.Kernel.Safety.{IsSafe, Out}
use agent_runtime.Kernel.Kept.{complete_task-IsSafe, fail_task-IsSafe, block_task-IsSafe}
use agent_runtime.Kernel.Dispatched.{dispatch_ready-IsSafe}
use agent_runtime.Kernel.Links.{enqueue-IsSafe, add_dependencies-IsSafe}

-- The scheduler of `KernelScheduler()`.
unfoldable pub new_kernel : Kernel
new_kernel = record {
  tasks = [];
  nodes = [];
  ready_queue = [];
  waiting_queue = [];
  running_table = [];
  failed_queue = [];
  completed_queue = [];
  completed_tasks = [];
  failed_tasks = [];
  agent_dispatch_count = [];
  agent_queues = [];
  selection_log = [];
}

-- An operation of the scheduler. `wake_blocked` is not among them: it makes a task ready whatever
-- its dependencies.
pub data Op : Type 0 where
  enqueues : Task → Op
  adds : ℕ → List ℕ → Op
  dispatches : Option ℕ → Op
  completes fails blocks : ℕ → Op

unfoldable pub apply : Setting → Op → Kernel → Kernel
unfolding enqueue add_dependencies dispatch_ready complete_task fail_task block_task
apply s (enqueues task) k = (enqueue s task k).1
apply s (adds id ids) k = (add_dependencies s id ids k).1
apply s (dispatches limit) k = (dispatch_ready s limit k).1
apply s (completes id) k = (complete_task s id k).1
apply s (fails id) k = (fail_task s id k).1
apply s (blocks id) k = (block_task s id k).1

-- A task that is enqueued is in neither queue yet.
abbrev pub IsNew : Op → Kernel → Type 0
IsNew (enqueues task) k = Out task.task_id k
IsNew _ k = Unit

pub data Reach : Kernel → Type 0 where
  start : Reach new_kernel
  next : {k : Kernel} (s : Setting) (o : Op) → Reach k → IsNew o k → Reach (apply s o k)

apply-IsSafe : (s : Setting) (o : Op) (k : Kernel) → IsSafe k → IsNew o k → IsSafe (apply s o k)
unfolding apply
apply-IsSafe s (enqueues task) k h new = enqueue-IsSafe s task k h new
apply-IsSafe s (adds id ids) k h new = add_dependencies-IsSafe s id ids k h
apply-IsSafe s (dispatches limit) k h new = dispatch_ready-IsSafe s limit k h
apply-IsSafe s (completes id) k h new = complete_task-IsSafe s id k h
apply-IsSafe s (fails id) k h new = fail_task-IsSafe s id k h
apply-IsSafe s (blocks id) k h new = block_task-IsSafe s id k h

-- After every history of enqueueing new tasks, adding dependencies, dispatching, completing,
-- failing and blocking, errors included: a task stands at most once in the ready queue and the
-- waiting queue together, and a task in the ready queue has no open dependency.
pub queues-IsSafe : {k : Kernel} → Reach k → IsSafe k
unfolding new_kernel count
queues-IsSafe start = record { once = λ x. omega arith; met = λ x p. elim p [ ] }
queues-IsSafe (next {k = k} s o r new) = apply-IsSafe s o k (queues-IsSafe r) new
