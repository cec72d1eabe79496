-- ===== src/Task/Mirror.antt =====
-- The fields that a task repeats, and its attempts (TaskSpec of aruntime/core/models.py).
use agent_runtime.Task.Control.{TaskControlBlock}
use agent_runtime.Task.Status.{TaskStatus, Reason, blocked, ready, no_reason}
use agent_runtime.Prelude.{
  inr, inl, ◌≡◌, refl, ◌⊎◌, ◌↔◌, sym, ◌∙◌, true, subst, ℕ, Bool-cases, some, ◌∷◌, ◌++◌, [], List,
  length, Option, ◌+◌, arith, if◌then◌else◌, length-append, ◌<◌, is_none, ==_refl, none,
}
use agent_runtime.Task.Spec.{
  Task, TaskAttempt, sync_from_tcb, transition_to, block, unblock, create_attempt, last_open,
  active_attempt, close_numbered, new_attempt, finish_attempt, model_post_init, own_tcb,
}
use agent_runtime.Task.Control

-- The task shows what its control block holds, field by field.
pub record IsMirror (task : Task) : Type 0 where
  pub status : task.status ≡ task.tcb.state
  pub trace_id : task.trace_id ≡ task.tcb.trace_id
  pub created_at : task.created_at ≡ task.tcb.created_at
  pub started_at : task.started_at ≡ task.tcb.started_at
  pub completed_at : task.completed_at ≡ task.tcb.completed_at
  pub resource_lease : task.resource_lease ≡ task.tcb.resource_lease
  pub agent_runtime : task.agent_runtime ≡ task.tcb.agent_runtime
  pub queue_wait : task.queue_wait ≡ task.tcb.queue_info.queue_wait
  pub decision : task.scheduler_decision_reason ≡ task.tcb.queue_info.scheduler_decision_reason
  pub block_reason : task.resource_block_reason ≡ task.tcb.queue_info.resource_block_reason

sync_from_tcb-IsMirror : (task : Task) → IsMirror (sync_from_tcb task)
unfolding sync_from_tcb
sync_from_tcb-IsMirror task = record {
  status = refl;
  trace_id = refl;
  created_at = refl;
  started_at = refl;
  completed_at = refl;
  resource_lease = refl;
  agent_runtime = refl;
  queue_wait = refl;
  decision = refl;
  block_reason = refl;
}

synced-IsMirror : (task : Task) → sync_from_tcb task ≡ task → IsMirror task
synced-IsMirror task h = subst IsMirror h (sync_from_tcb-IsMirror task)

-- A transition, accepted or refused, leaves the task's fields showing its control block, if they did.
pub transition_to-IsMirror :
    (now : ℕ) (status : TaskStatus) (reason : Reason) (task : Task)
    → IsMirror task
    → IsMirror (transition_to now status reason task).1
unfolding transition_to sync_from_tcb
transition_to-IsMirror now status reason task h =
    elim (Bool-cases (Control.may_move task.tcb.state status)) [
      | inl e ↦ rw e (synced-IsMirror _ refl)
      | inr e ↦ rw e h
    ]

-- A task that is constructed, with a control block or without, shows what its control block holds;
-- without one it keeps the status that it was given.
pub model_post_init-IsMirror :
    (given : Option TaskControlBlock) (task : Task)
    → IsMirror (model_post_init given task) × ((model_post_init none task).status ≡ task.status)
unfolding model_post_init own_tcb sync_from_tcb
model_post_init-IsMirror given task = (synced-IsMirror _ refl, refl)

pub block-IsMirror :
    (now : ℕ) (reason : Reason) (task : Task) → IsMirror task → IsMirror (block now reason task).1
unfolding block sync_from_tcb
block-IsMirror now reason task h = elim (Bool-cases (Control.may_move task.tcb.state blocked)) [
  | inl e ↦ rw e (synced-IsMirror _ refl)
  | inr e ↦ rw e h
]

-- An unblock leaves a task that showed its control block showing it exactly if the control block may
-- become READY or had no reason for the block.
pub unblock-IsMirror :
    (now : ℕ) (reason : Reason) (task : Task)
    → IsMirror task
    → IsMirror (unblock now reason task).1 ↔ (
        (Control.may_move task.tcb.state ready ≡ true)
        ⊎ (task.tcb.queue_info.resource_block_reason ≡ no_reason))
unfolding unblock sync_from_tcb
unblock-IsMirror now reason task h = elim (Bool-cases (Control.may_move task.tcb.state ready)) [
  | inl e ↦ (λ m. inl e, λ c. rw e (synced-IsMirror _ refl))
  | inr e ↦ rw e (
    λ m. inr (sym h.block_reason ∙ m.block_reason),
    λ c. elim c [
      | inl a ↦ absurd (cc)
      | inr a ↦ record {
        status = h.status;
        trace_id = h.trace_id;
        created_at = h.created_at;
        started_at = h.started_at;
        completed_at = h.completed_at;
        resource_lease = h.resource_lease;
        agent_runtime = h.agent_runtime;
        queue_wait = h.queue_wait;
        decision = h.decision;
        block_reason = h.block_reason ∙ a;
      }
    ],
  )
]

-- The attempts carry the numbers from `k + 1` on.
abbrev pub Numbered : ℕ → List TaskAttempt → Type 0
Numbered k [] = Unit
Numbered k (a ∷ as') = (a.attempt_number ≡ k + 1) × Numbered (k + 1) as'

-- The attempts are numbered from 1 to the block's count, so no two have one id.
pub record IsCounted (task : Task) : Type 0 where
  pub counted : task.tcb.current_attempt ≡ length task.attempts
  pub numbered : Numbered 0 task.attempts

Numbered-append :
    (k : ℕ) (as' : List TaskAttempt) (a : TaskAttempt)
    → Numbered k as'
    → a.attempt_number ≡ k + length as' + 1
    → Numbered k (as' ++ a ∷ [])
Numbered-append k [] a h e = (omega arith, tt)
Numbered-append k (b ∷ as') a h e = (h.0, Numbered-append (k + 1) as' a h.1 (omega arith))

pub create_attempt-IsCounted :
    (now agent : ℕ) (pid : Option ℕ) (task : Task)
    → IsCounted task
    → IsCounted (create_attempt now agent pid task).1
unfolding create_attempt new_attempt
create_attempt-IsCounted now agent pid task h = record {
  counted =
      omega
        (arith, length-append {0} task.attempts (new_attempt now agent pid task ∷ []), h.counted);
  numbered =
      Numbered-append 0 task.attempts (new_attempt now agent pid task) h.numbered
        (omega (arith, h.counted));
}

module _ (n now : ℕ) (result : Option ℕ) (failure usage : ℕ) where
  abbrev close : List TaskAttempt → List TaskAttempt
  close as' = close_numbered n now result failure usage as'

  length-close : (as' : List TaskAttempt) → length (close as') ≡ length as'
  unfolding close_numbered
  length-close [] = refl
  length-close (a ∷ as') = omega (arith, length-close as')

  Numbered-close : (k : ℕ) (as' : List TaskAttempt) → Numbered k as' → Numbered k (close as')
  unfolding close_numbered
  Numbered-close k [] h = tt
  Numbered-close k (a ∷ as') h = (ground (arith, h.0), Numbered-close (k + 1) as' h.1)

  pub finish_attempt-IsCounted :
      (task : Task) → IsCounted task → IsCounted (finish_attempt n now result failure usage task)
  unfolding finish_attempt
  finish_attempt-IsCounted task h = record {
    counted = omega (arith, length-close task.attempts, h.counted);
    numbered = Numbered-close 0 task.attempts h.numbered;
  }

  -- closing a number past those of a list changes nothing
  close-above :
      (k : ℕ) (as' : List TaskAttempt) → Numbered k as' → k + length as' < n → close as' ≡ as'
  unfolding close_numbered
  close-above k [] h l = refl
  close-above k (a ∷ as') h l = ground (arith, h.0, close-above (k + 1) as' h.1)

last_open-append :
    (as' : List TaskAttempt) (a : TaskAttempt)
    → last_open (as' ++ a ∷ []) ≡ (if is_none a.completed_at then some a else last_open as')
unfolding last_open
last_open-append [] a = ground arith
last_open-append (b ∷ as') a = ground (arith, last_open-append as' a)

-- A new attempt is the active one.
pub active-create :
    (now agent : ℕ) (pid : Option ℕ) (task : Task)
    → active_attempt (create_attempt now agent pid task).1
      ≡ some (create_attempt now agent pid task).0
unfolding active_attempt create_attempt new_attempt
active-create now agent pid task = rw last_open-append

close_numbered-append :
    (n now : ℕ) (result : Option ℕ) (failure usage : ℕ) (as' bs : List TaskAttempt)
    → close_numbered n now result failure usage (as' ++ bs)
      ≡ close_numbered n now result failure usage as'
        ++ close_numbered n now result failure usage bs
unfolding close_numbered
close_numbered-append n now result failure usage [] bs = refl
close_numbered-append n now result failure usage (a ∷ as') bs =
    rw (close_numbered-append n now result failure usage as' bs)

-- Creating an attempt and finishing it gives back the active attempt that there was before.
pub finish-create :
    (now agent : ℕ) (pid : Option ℕ) (later : ℕ) (result : Option ℕ) (failure usage : ℕ)
    (task : Task)
    → IsCounted task
    → let (attempt, task') = create_attempt now agent pid task in
      active_attempt (finish_attempt attempt.attempt_number later result failure usage task')
      ≡ active_attempt task
unfolding active_attempt create_attempt new_attempt finish_attempt
finish-create now agent pid later result failure usage task h =
    rw
      (close_numbered-append (task.tcb.current_attempt + 1) later result failure usage task.attempts
        (new_attempt now agent pid task ∷ []))
      (rw
        (close-above (task.tcb.current_attempt + 1) later result failure usage 0 task.attempts
          h.numbered (omega (arith, h.counted)))
        (rw (last_open-append, ==_refl (task.tcb.current_attempt + 1)) refl))
