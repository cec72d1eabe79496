-- ===== src/Faults/Recovery.antt =====
-- `recover_tasks` (aruntime/daemon/recovery_service.py): what a daemon that starts again does with the
-- stored tasks. The store is the list of its rows; what the code writes to it is collected.
use agent_runtime.Prelude.{ℕ, Bool, true, false, List, [], ◌∷◌, ◌++◌, if◌then◌else◌, is_empty}
use agent_runtime.Prelude.Result.{Result, Exec, ok, err, ◌>>=◌, ◌>>◌}
use agent_runtime.Prelude.Dict.{Dict, insert}
use agent_runtime.Task.Control.{TaskError}
use agent_runtime.Task.Status.{
  TaskStatus, Reason, same_status, recovery_orphaned, recovery_retry, recovery_pending_ready,
}
use agent_runtime.Task.Status
use agent_runtime.Task.Spec.{Task}
use agent_runtime.Task.Spec

pub data Decision : Type 0 where
  running_orphaned_ready ready_ready pending_pending pending_ready : Decision

-- the result, and what is written to the store: leases released by task, and tasks saved
pub record Recovery : Type 0 where
  pub recovered : List Task
  pub decisions : Dict Decision
  pub released : List ℕ
  pub saved : List Task
  pub all_released : Bool

abbrev pub Act : Type 0 → Type 0
Act A = Exec TaskError Recovery A

abbrev pub take_task : Decision → Task → Recovery → Recovery
take_task decision task r = record r {
  recovered = r.recovered ++ task ∷ [];
  decisions = insert task.task_id decision r.decisions;
}

abbrev pub save_task : Task → Recovery → Recovery
save_task task r = record r { saved = r.saved ++ task ∷ [] }

abbrev pub release_leases : ℕ → Recovery → Recovery
release_leases id r = record r { released = r.released ++ id ∷ [] }

-- a running task after its second transition
unfoldable pub recover_running : Result TaskError (Unit {0}) × Task → Act (Unit {0})
recover_running (ok u, task) r = (ok tt, save_task task (take_task running_orphaned_ready task r))
recover_running (err e, task) r = (err e, r)

-- and after its first: its leases are released, then it becomes READY
unfoldable pub orphan : ℕ → Result TaskError (Unit {0}) × Task → Act (Unit {0})
unfolding recover_running
orphan now (ok u, task) r =
    recover_running (Spec.transition_to now Status.ready recovery_retry task)
      (release_leases task.task_id r)
orphan now (err e, task) r = (err e, r)

unfoldable pub recover_pending : Result TaskError (Unit {0}) × Task → Act (Unit {0})
recover_pending (ok u, task) r = (ok tt, save_task task (take_task pending_ready task r))
recover_pending (err e, task) r =
    (err e, record r { decisions = insert task.task_id pending_ready r.decisions })

-- one row
unfoldable pub recover_one : ℕ → Task → Act (Unit {0})
unfolding recover_pending orphan
recover_one now task r =
    if same_status task.status Status.running
    then orphan now (Spec.transition_to now Status.orphaned recovery_orphaned task) r
    else (if same_status task.status Status.ready
        then (ok tt, take_task ready_ready task r)
        else (if same_status task.status Status.pending
            then (if is_empty task.dependencies
                then recover_pending
                    (Spec.transition_to now Status.ready recovery_pending_ready task) r
                else (
                  ok tt,
                  save_task task
                      (record r { decisions = insert task.task_id pending_pending r.decisions }),
                ))
            else (ok tt, r)))

unfoldable pub recover_each : ℕ → List Task → Act (Unit {0})
unfolding recover_one ◌>>=◌
recover_each now [] r = (ok tt, record r { all_released = true })
recover_each now (task ∷ tasks) r = (do recover_one now task; recover_each now tasks) r

unfoldable pub recover_tasks : ℕ → List Task → Result TaskError (Unit {0}) × Recovery
unfolding recover_each
recover_tasks now rows =
    recover_each now rows
      (record { recovered = []; decisions = []; released = []; saved = []; all_released = false })
