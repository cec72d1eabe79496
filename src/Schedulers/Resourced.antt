-- ===== src/Schedulers/Resourced.antt =====
-- ResourceAwareScheduler (aruntime/scheduler/resource_aware.py) round a DAG scheduler: `dequeue` takes
-- the first task that has a known agent and is ready, if the monitor has enough. The readings of the
-- machine are the same for the whole call, and `agents` has the names of the known agents.
use agent_runtime.Prelude.{
  ℕ, Bool, false, List, [], ◌∷◌, Option, some, none, ◌≡◌, if◌then◌else◌, ◌&&◌, refl, arith, ap, ◌∙◌,
}
use agent_runtime.Prelude.Result.{ok, ◌>>=◌, ◌>>◌, modify, pure, Exec}
use agent_runtime.Prelude.Dict.{lookup}
use agent_runtime.Prelude.Sets.{member, remove_first}
use agent_runtime.Resource.Monitor.{Monitor, Probe, has_enough}
use agent_runtime.Task.Status.{resource_available}
use agent_runtime.Task.Status
use agent_runtime.Task.Spec.{Task}
use agent_runtime.Task.Spec
use agent_runtime.Schedulers.Dag.{Dag, DagError, on_task, dequeues}

agent_known : List ℕ → Option ℕ → Bool
agent_known agents none = false
agent_known agents (some name) = member name agents

task_known : List ℕ → Option Task → Bool
unfolding agent_known
task_known agents none = false
task_known agents (some task) = agent_known agents task.agent_name

usable : List ℕ → Dag → ℕ → Bool
unfolding task_known
usable agents d id = task_known agents (lookup id d.tasks) && dequeues (lookup id d.nodes)

-- the first task of the queue that may run, if there is enough for one
first_usable : Bool → List ℕ → Dag → List ℕ → Option ℕ
unfolding usable
first_usable enough agents d [] = none
first_usable enough agents d (id ∷ ids) =
    let rest = first_usable enough agents d ids in
    if usable agents d id && enough then some id else rest

-- the queue alone loses the task; it stays in the waiting queue of the inner scheduler, if there
unfoldable pub take_from_queue : ℕ → Dag → Dag
take_from_queue id d = record d { task_queue = remove_first id d.task_queue }

hand_over : ℕ → Option ℕ → Exec DagError Dag (Option ℕ)
unfolding take_from_queue on_task ◌>>=◌
hand_over now none = pure none
hand_over now (some id) = do
  modify (take_from_queue id)
  on_task id (Spec.transition_to now Status.running resource_available)
  pure (some id)

unfoldable pub dequeue : ℕ → Probe → Monitor → List ℕ → Exec DagError Dag (Option ℕ)
unfolding first_usable hand_over has_enough
dequeue now p m agents d = hand_over now (first_usable (has_enough p m) agents d d.task_queue) d

first_usable_scarce :
    (agents : List ℕ) (d : Dag) (ids : List ℕ) → first_usable false agents d ids ≡ none
unfolding first_usable
first_usable_scarce agents d [] = refl
first_usable_scarce agents d (id ∷ ids) = ground (arith, first_usable_scarce agents d ids)

-- While the monitor has not enough, nothing is handed out and the inner scheduler is as it was,
-- whatever its queue holds.
pub dequeue_scarce :
    (now : ℕ) (p : Probe) (m : Monitor) (agents : List ℕ) (d : Dag)
    → has_enough p m ≡ false
    → dequeue now p m agents d ≡ (ok none, d)
unfolding dequeue hand_over
dequeue_scarce now p m agents d h =
    ap (λ o. hand_over now o d)
      (ap (λ b. first_usable b agents d d.task_queue) h ∙ first_usable_scarce agents d d.task_queue)
