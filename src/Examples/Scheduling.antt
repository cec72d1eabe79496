-- ===== src/Examples/Scheduling.antt =====
-- Two tasks, the second of which depends on the first, in the kernel scheduler and the DAG scheduler.
use agent_runtime.Kernel.Finish.{remove_agent_queue_task}
use agent_runtime.Prelude.{List, All, ◌≢◌, [], ◌∷◌, some, none, true, false, ◌≡◌, refl, ◌⊎◌, ℕ}
use agent_runtime.Task.Status.{pending, fail_closed}
use agent_runtime.Task.Spec.{Task}
use agent_runtime.Task.Spec
use agent_runtime.Prelude.Dict.{keys, lookup, insert, has}
use agent_runtime.Prelude.Sets.{add, member, dedup, discard, remove_first}
use agent_runtime.Kernel.Defs.{Kernel, KernelTaskNode}
use agent_runtime.Kernel.Dispatch.{dispatch_ready}
use agent_runtime.Kernel.Counts.{count}
use agent_runtime.Kernel.Safety.{IsSafe}
use agent_runtime.Kernel.History.{
  Reach, start, next, apply, new_kernel, enqueues, dispatches, completes, queues-IsSafe,
}
use agent_runtime.Kernel.Dependencies.{depends_on}
use agent_runtime.Kernel.Search.{has_dependent_path}
use agent_runtime.Kernel.Paths.{Leads, path_decided}
use agent_runtime.Kernel.Limits.{Filled, dispatch_fills}
use agent_runtime.Schedulers.Dag.{Dag, cyclic_dependency, out_of_fuel}
use agent_runtime.Schedulers.Dag
use agent_runtime.Resource.Monitor.{Monitor, Probe, new_monitor}
use agent_runtime.Kernel.Order.{sort_ready}
use agent_runtime.Kernel.Finish.{pending_count, waiting_count, blocked_count}
use agent_runtime.Kernel.Served.{IsServed, sort_ready-IsServed}
use agent_runtime.Schedulers.Handout.{IsFirstFree, IsFree, dequeue_first}
use agent_runtime.Schedulers.Sorting.{topological_sort}
use agent_runtime.Schedulers.Listed.{Listed, topological_sort-Listed}
use agent_runtime.Schedulers.Failing.{fail_task}
use agent_runtime.Schedulers.Answered.{fail_task-answers}
use agent_runtime.Prelude.Result.{err, ok}
use agent_runtime.Examples.Samples.{task_in, setting_at}

with_first : Kernel
unfolding apply new_kernel
with_first = apply (setting_at 200) (enqueues (task_in 1 [] pending)) new_kernel

with_both : Kernel
unfolding apply with_first
with_both = apply (setting_at 300) (enqueues (task_in 2 (1 ∷ []) pending)) with_first

first_running : Kernel
unfolding apply with_both
first_running = apply (setting_at 400) (dispatches none) with_both

first_done : Kernel
unfolding apply first_running
first_done = apply (setting_at 500) (completes 1) first_running

queued_test : (with_both.ready_queue ≡ 1 ∷ []) × (with_both.waiting_queue ≡ 2 ∷ [])
unfolding with_both lookup member insert dedup Spec.transition_to
queued_test = (refl, refl)

dispatched_test : (first_running.ready_queue ≡ []) × (first_running.running_table ≡ 1 ∷ [])
unfolding first_running lookup member insert dedup Spec.transition_to
dispatched_test = (refl, refl)

completed_test : (first_done.ready_queue ≡ 2 ∷ []) × (first_done.waiting_queue ≡ [])
unfolding first_done lookup member insert dedup Spec.transition_to has remove_agent_queue_task
    discard Spec.unblock remove_first
completed_test = (refl, refl)

abbrev history : Reach first_done
unfolding first_done first_running with_both with_first apply count lookup member insert dedup
    Spec.transition_to
history =
    next (setting_at 500) (completes 1)
      (next (setting_at 400) (dispatches none)
        (next (setting_at 300) (enqueues (task_in 2 (1 ∷ []) pending))
          (next (setting_at 200) (enqueues (task_in 1 [] pending)) start refl) refl)
        tt)
      tt

queues-IsSafe_example : IsSafe first_done
queues-IsSafe_example = queues-IsSafe history

path_decided_example :
    (has_dependent_path with_both.nodes 1 2 ≡ some true × Leads with_both.nodes 1 2)
    ⊎ (has_dependent_path with_both.nodes 1 2 ≡ some false × ¬ Leads with_both.nodes 1 2)
path_decided_example = path_decided with_both.nodes 1 2

dispatch_fills_example : Filled (some 1) (dispatch_ready (setting_at 400) (some 1) with_both)
dispatch_fills_example = dispatch_fills (setting_at 400) (some 1) with_both

new_dag : Dag
new_dag = record {
  tasks = [];
  nodes = [];
  task_queue = [];
  waiting_queue = [];
  completed_tasks = [];
  failed_tasks = [];
}

dag : Dag
unfolding Dag.enqueue new_dag
dag =
    (Dag.enqueue 300 (task_in 1 [] pending)
      (Dag.enqueue 200 (task_in 2 (1 ∷ []) pending) new_dag).1).1

dequeue_first_example :
    ((id : ℕ) → (Dag.dequeue 400 dag).0 ≡ ok (some id) → IsFirstFree dag.nodes dag.task_queue id)
    × ((Dag.dequeue 400 dag).0 ≡ ok none → All (λ x. ¬ IsFree dag.nodes x) dag.task_queue)
dequeue_first_example = dequeue_first 400 dag

handed_test : (Dag.dequeue 400 dag).0 ≡ ok (some 1)
unfolding dag Dag.dequeue lookup member insert dedup Spec.transition_to
handed_test = refl

-- Two tasks that wait for each other, each failing closed with the other.
abbrev tied : ℕ → ℕ → Task
tied id other = record (task_in id (other ∷ []) pending) {
  dependency_failure_policies = (other, fail_closed) ∷ [];
}

abbrev node_of : ℕ → KernelTaskNode
node_of other = record { dependencies = other ∷ []; dependents = other ∷ [] }

abbrev tied_dag : Dag
tied_dag = record {
  tasks = (1, tied 1 2) ∷ (2, tied 2 1) ∷ [];
  nodes = (1, node_of 2) ∷ (2, node_of 1) ∷ [];
  task_queue = 1 ∷ 2 ∷ [];
  waiting_queue = 1 ∷ 2 ∷ [];
  completed_tasks = [];
  failed_tasks = [];
}

cascade_test : (fail_task 400 1 tied_dag).1.failed_tasks ≡ 1 ∷ 2 ∷ []
unfolding fail_task has lookup insert member Spec.transition_to add
cascade_test = refl

fail_task-answers_example :
    ((fail_task 400 1 tied_dag).0 ≢ err out_of_fuel)
    × ((member 1 (fail_task 400 1 tied_dag).1.failed_tasks ≡ true)
        × ((y : ℕ)
            → member y tied_dag.failed_tasks ≡ true
            → member y (fail_task 400 1 tied_dag).1.failed_tasks ≡ true))
fail_task-answers_example = fail_task-answers 400 1 tied_dag (unfold has in unfold lookup in refl)

in_order : Dag
unfolding Dag.enqueue new_dag
in_order =
    (Dag.enqueue 300 (task_in 2 (1 ∷ []) pending)
      (Dag.enqueue 200 (task_in 1 [] pending) new_dag).1).1

topological_sort-Listed_example :
    (topological_sort in_order ≢ err out_of_fuel)
    × ((xs : List ℕ) → topological_sort in_order ≡ ok xs → Listed in_order xs)
unfolding in_order Dag.enqueue keys lookup member insert dedup Spec.transition_to
topological_sort-Listed_example = topological_sort-Listed in_order (refl, (refl, tt))

sorted_test : topological_sort in_order ≡ ok (1 ∷ 2 ∷ [])
unfolding in_order Dag.enqueue keys lookup member insert dedup Spec.transition_to topological_sort
    add
sorted_test = refl

-- A task that is enqueued before its dependency is not linked to it: the sort finds a cycle.
unlinked_test : topological_sort dag ≡ err cyclic_dependency
unfolding dag Dag.enqueue keys lookup member insert dedup Spec.transition_to topological_sort add
unlinked_test = refl

-- A completed dependency no longer counts: the degree of the second task falls below 0.
after_first : Dag
unfolding in_order Dag.complete_task
after_first = (Dag.complete_task 400 1 in_order).1

sorted_after_test : topological_sort after_first ≡ ok (1 ∷ 2 ∷ [])
unfolding after_first in_order Dag.enqueue keys lookup member insert dedup Spec.transition_to
    topological_sort add discard has remove_first depends_on
sorted_after_test = refl

hot : Probe
hot = record { cpu_percent = 95; mem_percent = 10 }

small_monitor : Monitor
unfolding new_monitor
small_monitor =
    new_monitor 90 90 2
      (record { memory_bytes = 0; token = 0; tool = 0; kv_cache = 0; network = 0 })

abbrev both_ready : Kernel
both_ready = record with_both { ready_queue = 2 ∷ 1 ∷ [] }

sort_ready-IsServed_example :
    IsServed
      (setting_at 400)
      (record both_ready { ready_queue = [] })
      (sort_ready (setting_at 400) both_ready).ready_queue
    × ((x : ℕ)
        → count x (sort_ready (setting_at 400) both_ready).ready_queue
          ≡ count x both_ready.ready_queue)
sort_ready-IsServed_example = sort_ready-IsServed (setting_at 400) both_ready

counts_test :
    (pending_count both_ready ≡ 3) × (waiting_count both_ready ≡ 1) × (blocked_count both_ready ≡ 0)
unfolding with_both lookup member insert dedup Spec.transition_to pending_count waiting_count
    blocked_count
counts_test = (refl, refl, refl)
