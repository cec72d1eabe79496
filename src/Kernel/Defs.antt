-- ===== src/Kernel/Defs.antt =====
-- The state of KernelScheduler (aruntime/scheduler/kernel.py). A queue, a node and the table of
-- running tasks hold the task objects of the code; here they hold their identifiers, and `tasks`
-- holds the objects, one under each identifier.
use agent_runtime.Prelude.Sets.{discard, add}
use agent_runtime.Task.Status.{Reason}
use agent_runtime.Prelude.Int.{ℤ}
use agent_runtime.Prelude.Result.{ok, err, Exec, Result, ◌>>=◌, pure, ◌>>◌}
use agent_runtime.Prelude.{
  false, [], some, ◌∷◌, none, true, List, Bool, ℕ, Option, is_empty, ◌+◌, ltb,
}
use agent_runtime.Prelude.Dict.{Dict, insert, lookup}
use agent_runtime.Task.Spec.{Task}
use agent_runtime.Task.Control.{TaskError}

pub record KernelTaskNode : Type 0 where
  pub dependencies : List ℕ
  pub dependents : List ℕ

-- KernelTaskNode.is_ready
abbrev pub is_ready : KernelTaskNode → Bool
is_ready node = is_empty node.dependencies

pub data Policy : Type 0 where
  fifo priority deadline fair_share resource_aware capability_aware : Policy
  cost_aware_policy reliability_aware_policy other_policy : Policy

-- The parts of an `AgentSpec` that matching reads; the reliability score is in fixed point.
pub record Agent : Type 0 where
  pub agent_name : ℕ
  pub can_plan : Bool
  pub can_code : Bool
  pub can_test : Bool
  pub can_review : Bool
  pub languages : List ℕ
  pub tools : List ℕ
  pub cost_level : ℤ
  pub reliability_score : ℤ

-- An entry of `selection_log`, without its time.
pub record Selection : Type 0 where
  pub task_id : ℕ
  pub agent_name : Option ℕ
  pub selected : Bool
  pub reason : Reason

pub record Kernel : Type 0 where
  pub tasks : Dict Task
  pub nodes : Dict KernelTaskNode
  pub ready_queue : List ℕ
  pub waiting_queue : List ℕ
  pub running_table : List ℕ
  pub failed_queue : List ℕ
  pub completed_queue : List ℕ
  pub completed_tasks : List ℕ
  pub failed_tasks : List ℕ
  pub agent_dispatch_count : Dict ℕ
  pub agent_queues : Dict (List ℕ)
  pub selection_log : List Selection

-- What the scheduler is made with, and the time of the call. The checker is the daemon's: it may
-- look at what the scheduler runs already.
pub record Setting : Type 0 where
  pub policy : Policy
  pub resource_checker : Option (Kernel → Task → Bool × Reason)
  pub agent_provider : Option (List Agent)
  pub now : ℕ

pub data KernelError : Type 0 where
  key_error : ℕ → KernelError
  bad_status self_dependency cyclic_dependency : KernelError
  task_error : TaskError → KernelError

abbrev pub Act : Type 0 → Type 0
Act A = Exec KernelError Kernel A

-- An agent's name as a key, None included.
abbrev pub name_key : Option ℕ → ℕ
name_key none = 0
name_key (some n) = n + 1

-- `bool(task.agent_name)`: neither None nor the empty text
abbrev pub has_name : Option ℕ → Bool
has_name none = false
has_name (some n) = ltb 0 n

-- `bool(text)` of an optional text
abbrev pub given_text : Option ℕ → Bool
given_text none = false
given_text (some n) = ltb 0 n

abbrev lift_result : Result TaskError (Unit {0}) → Result KernelError (Unit {0})
lift_result (ok u) = ok u
lift_result (err e) = err (task_error e)

-- A method of the task object `id`. A queue holds no other object than those of `tasks`, so the
-- first case is for an identifier that no queue holds.
unfoldable pub run_found : ℕ → Exec TaskError Task (Unit {0}) → Option Task → Act (Unit {0})
run_found id m none k = (err (key_error id), k)
run_found id m (some task) k =
    let (r, task') = m task in (lift_result r, record k { tasks = insert id task' k.tasks })

unfoldable pub on_task : ℕ → Exec TaskError Task (Unit {0}) → Act (Unit {0})
unfolding run_found
on_task id m k = run_found id m (lookup id k.tasks) k

unfoldable pub edit_found : ℕ → (Task → Task) → Option Task → Kernel → Kernel
edit_found id f none k = k
edit_found id f (some task) k = record k { tasks = insert id (f task) k.tasks }

-- A field of the task object `id` is written.
unfoldable pub edit_task : ℕ → (Task → Task) → Kernel → Kernel
unfolding edit_found
edit_task id f k = edit_found id f (lookup id k.tasks) k

abbrev pub edit_node_found :
    ℕ → (KernelTaskNode → KernelTaskNode) → Option KernelTaskNode → Kernel → Kernel
edit_node_found id f none k = k
edit_node_found id f (some node) k = record k { nodes = insert id (f node) k.nodes }

-- The node of `id` is written, if there is one.
unfoldable pub edit_node : ℕ → (KernelTaskNode → KernelTaskNode) → Kernel → Kernel
edit_node id f k = edit_node_found id f (lookup id k.nodes) k

abbrev pub discard_dependency : ℕ → KernelTaskNode → KernelTaskNode
discard_dependency dep node = record node { dependencies = discard dep node.dependencies }

abbrev pub add_dependent : ℕ → KernelTaskNode → KernelTaskNode
add_dependent id node = record node { dependents = add id node.dependents }

-- `node is None or node.is_ready`
abbrev pub node_ready : Option KernelTaskNode → Bool
node_ready none = true
node_ready (some node) = is_ready node

abbrev pub deps_met : ℕ → Kernel → Bool
deps_met id k = node_ready (lookup id k.nodes)

-- `for x in xs: body(x)`; what raises ends the loop
unfoldable pub for_each : List ℕ → (ℕ → Act (Unit {0})) → Act (Unit {0})
unfolding ◌>>=◌
for_each [] body = pure tt
for_each (x ∷ xs) body = do body x; for_each xs body
