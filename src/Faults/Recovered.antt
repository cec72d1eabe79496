-- ===== src/Faults/Recovered.antt =====
-- The outcome of `recover_tasks` (aruntime/daemon/recovery_service.py).
use agent_runtime.Task.Control.{TaskError, TaskControlBlock}
use agent_runtime.Prelude.{
  ℕ, Bool, true, false, List, [], ◌∷◌, ◌≡◌, All, All-append, if◌then◌else◌, arith, refl, is_empty,
  ap, ◌∙◌, ◌==◌, sym, zero, suc,
}
use agent_runtime.Prelude.Result.{Result, ok, err, ◌>>=◌, continue}
use agent_runtime.Task.Spec
use agent_runtime.Task.Status.{
  pending, ready, running, blocked, orphaned, timeout, retrying, fallback, success, failed,
  cancelled, status_index, TaskStatus, same_status, recovery_pending_ready, Reason, recovery_retry,
  recovery_orphaned,
}
use agent_runtime.Task.Status
use agent_runtime.Task.Control
use agent_runtime.Task.Times.{state-moved}
use agent_runtime.Task.Control.{note_reason, complete, start}
use agent_runtime.Task.Spec.{Task, sync_from_tcb}
use agent_runtime.Task.Mirror.{IsMirror}
use agent_runtime.Faults.Recovery.{
  Recovery, recover_one, recover_each, recover_tasks, orphan, release_leases, recover_running,
  recover_pending,
}

-- the statuses in the order of their numbers
abbrev all_statuses : List TaskStatus
all_statuses =
    pending ∷ ready ∷ running ∷ blocked ∷ orphaned ∷ timeout ∷ retrying ∷ fallback ∷ success
    ∷ failed ∷ cancelled ∷ []

abbrev nth : List TaskStatus → ℕ → TaskStatus
nth [] n = pending
nth (s ∷ ss) zero = s
nth (s ∷ ss) (suc n) = nth ss n

nth-index : (s : TaskStatus) → nth all_statuses (status_index s) ≡ s
nth-index pending = refl
nth-index ready = refl
nth-index running = refl
nth-index blocked = refl
nth-index orphaned = refl
nth-index timeout = refl
nth-index retrying = refl
nth-index fallback = refl
nth-index success = refl
nth-index failed = refl
nth-index cancelled = refl

same_number : (m n : ℕ) → (m == n) ≡ true → m ≡ n
same_number m n h = ground (arith, h)

status_of : (s t : TaskStatus) → same_status s t ≡ true → s ≡ t
status_of s t h =
    sym (nth-index s)
    ∙ ap (nth all_statuses) (same_number (status_index s) (status_index t) h)
    ∙ nth-index t

state_of :
    (task : Task) (s : TaskStatus)
    → IsMirror task
    → same_status task.status s ≡ true
    → task.tcb.state ≡ s
state_of task s m h = sym m.status ∙ status_of task.status s h

abbrev IsReady : Task → Type 0
IsReady t = t.status ≡ Status.ready

-- no error so far, and what is recovered is ready
abbrev Fine : Result TaskError (Unit {0}) × Recovery → Type 0
Fine x = (x.0 ≡ ok tt) × All IsReady x.1.recovered

-- An allowed transition of the task succeeds, and the task has the new status.
moved :
    (now : ℕ) (status : TaskStatus) (reason : Reason) (task : Task)
    → Control.may_move task.tcb.state status ≡ true
    → ((Spec.transition_to now status reason task).0 ≡ ok tt)
      × ((Spec.transition_to now status reason task).1.status ≡ status)
      × ((Spec.transition_to now status reason task).1.tcb.state ≡ status)
unfolding Spec.transition_to sync_from_tcb
moved now status reason task h = let e = state-moved now status reason task.tcb in rw h (refl, e, e)

to_ready :
    (now : ℕ) (task : Task) (reason : Reason)
    → Control.may_move task.tcb.state Status.ready ≡ true
    → ((Spec.transition_to now Status.ready reason task).0 ≡ ok tt)
      × IsReady (Spec.transition_to now Status.ready reason task).1
to_ready now task reason h = let (a, b, c) = moved now Status.ready reason task h in (a, b)

recover_running-Fine :
    (x : Result TaskError (Unit {0}) × Task) (r : Recovery)
    → (x.0 ≡ ok tt) × IsReady x.1
    → All IsReady r.recovered
    → Fine (recover_running x r)
unfolding recover_running
recover_running-Fine (ok u, t) r e h = (refl, All-append IsReady r.recovered (t ∷ []) h (e.1, tt))
recover_running-Fine (err e', t) r e h = absurd (cc)

orphan-Fine :
    (now : ℕ) (x : Result TaskError (Unit {0}) × Task) (r : Recovery)
    → x.0 ≡ ok tt
    → x.1.tcb.state ≡ Status.orphaned
    → All IsReady r.recovered
    → Fine (orphan now x r)
unfolding orphan Control.may_move
orphan-Fine now (ok u, t) r e h a =
    recover_running-Fine (Spec.transition_to now Status.ready recovery_retry t)
      (release_leases t.task_id r)
      (to_ready now t recovery_retry (ap (λ s. Control.may_move s Status.ready) h)) a
orphan-Fine now (err e', t) r e h a = absurd (cc)

recover_pending-Fine :
    (x : Result TaskError (Unit {0}) × Task) (r : Recovery)
    → (x.0 ≡ ok tt) × IsReady x.1
    → All IsReady r.recovered
    → Fine (recover_pending x r)
unfolding recover_pending
recover_pending-Fine (ok u, t) r e h = (refl, All-append IsReady r.recovered (t ∷ []) h (e.1, tt))
recover_pending-Fine (err e', t) r e h = absurd (cc)

if-Fine :
    (b : Bool) (x y : Result TaskError (Unit {0}) × Recovery)
    → (b ≡ true → Fine x)
    → Fine y
    → Fine (if b then x else y)
if-Fine true x y h z = h refl
if-Fine false x y h z = z

recover_one-Fine :
    (now : ℕ) (task : Task) (r : Recovery)
    → IsMirror task
    → All IsReady r.recovered
    → Fine (recover_one now task r)
unfolding recover_one Control.may_move
recover_one-Fine now task r m h =
    if-Fine (same_status task.status Status.running) _ _
      (λ e.
        let (a, b, c) =
          moved now Status.orphaned recovery_orphaned task
            (ap (λ s. Control.may_move s Status.orphaned) (state_of task Status.running m e)) in
        orphan-Fine now (Spec.transition_to now Status.orphaned recovery_orphaned task) r a c h)
      (if-Fine (same_status task.status Status.ready) _ _
        (λ e. (
          refl,
          All-append IsReady r.recovered (task ∷ []) h (status_of task.status Status.ready e, tt),
        ))
        (if-Fine (same_status task.status Status.pending) _ _
          (λ e.
            if-Fine (is_empty task.dependencies) _ _
              (λ d.
                recover_pending-Fine _ r
                  (to_ready now task recovery_pending_ready
                    (ap (λ s. Control.may_move s Status.ready) (state_of task Status.pending m e)))
                  h)
              (refl, h))
          (refl, h)))

recover_each-Fine :
    (now : ℕ) (rows : List Task) (r : Recovery)
    → All IsMirror rows
    → All IsReady r.recovered
    → Fine (recover_each now rows r)
unfolding recover_each ◌>>=◌
recover_each-Fine now [] r ms h = (refl, h)
recover_each-Fine now (task ∷ rows) r ms h =
    go_on (λ r'. recover_each-Fine now rows r' ms.1) (recover_one now task r)
      (recover_one-Fine now task r ms.0 h)
  where
    go_on :
        ((r' : Recovery) → All IsReady r'.recovered → Fine (recover_each now rows r'))
        → (x : Result TaskError (Unit {0}) × Recovery) → Fine x
        → Fine (continue x.0 (λ u. recover_each now rows) x.1)
    go_on rest (ok u, r') f = rest r' f.1
    go_on rest (err e, r') f = absurd (cc)

-- Recovery of stored tasks that show their control blocks never raises, whatever their statuses, and
-- every task that it hands back to the scheduler is READY.
pub recovered_ready :
    (now : ℕ) (rows : List Task)
    → All IsMirror rows
    → ((recover_tasks now rows).0 ≡ ok tt)
      × All (λ t. t.status ≡ Status.ready) (recover_tasks now rows).1.recovered
unfolding recover_tasks
recovered_ready now rows ms = recover_each-Fine now rows _ ms tt
