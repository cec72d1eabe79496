-- ===== src/Schedulers/Fifo.antt =====
-- FIFOScheduler (aruntime/scheduler/fifo.py). Its queue holds the task objects.
use agent_runtime.Prelude.{ℕ, List, [], ◌∷◌, ◌++◌, Option, some, none, length}
use agent_runtime.Prelude.Result.{Result, Exec, ok, err}
use agent_runtime.Task.Control.{TaskError}
use agent_runtime.Task.Status.{fifo_enqueue, fifo_order}
use agent_runtime.Task.Status
use agent_runtime.Task.Spec.{Task}
use agent_runtime.Task.Spec

pub record Fifo : Type 0 where
  pub task_queue : List Task

-- what `enqueue` does after the transition: nothing if it raises
push : Result TaskError (Unit {0}) × Task → Exec TaskError Fifo (Unit {0})
push (ok u, task) q = (ok tt, record q { task_queue = q.task_queue ++ task ∷ [] })
push (err e, task) q = (err e, q)

unfoldable pub enqueue : ℕ → Task → Exec TaskError Fifo (Unit {0})
unfolding push
enqueue now task q = push (Spec.transition_to now Status.ready fifo_enqueue task) q

handed : Result TaskError (Unit {0}) × Task → Result TaskError (Option Task)
handed (ok u, task) = ok (some task)
handed (err e, task) = err e

take_first : ℕ → List Task → Exec TaskError Fifo (Option Task)
unfolding handed
take_first now [] q = (ok none, q)
take_first now (task ∷ rest) q =
    (handed (Spec.transition_to now Status.running fifo_order task), record q { task_queue = rest })

unfoldable pub dequeue : ℕ → Exec TaskError Fifo (Option Task)
unfolding take_first
dequeue now q = take_first now q.task_queue q

unfoldable pub pending_count : Fifo → ℕ
pending_count q = length q.task_queue
