-- ===== src/Task/Times.antt =====
-- What the control block records of its times, over every history of transitions, blocks and
-- unblocks, the refused ones included (TaskControlBlock of aruntime/core/models.py).
use agent_runtime.Prelude.Result.{◌>>=◌}
use agent_runtime.Prelude.Int.{sub_ℕ}
use agent_runtime.Task.Status.{
  TaskStatus, Reason, running, blocked, resource_blocked, ready, no_reason, success, cancelled,
  allowed,
}
use agent_runtime.Prelude.{
  ℕ, List, ◌≡◌, ◌∷◌, is_some, true, some, get_or, inl, inr, [], Bool-cases, arith, ◌⊎◌, ◌∙◌,
}
use agent_runtime.Task.Control.{
  TaskControlBlock, transition_to, block, unblock, ends, may_move, set_block_reason, note_reason,
  complete, start,
}

pub data Op : Type 0 where
  move : ℕ → TaskStatus → Reason → Op
  hold : ℕ → Reason → Op
  free : ℕ → Reason → Op

pub apply : Op → TaskControlBlock → TaskControlBlock
apply (move now state reason) tcb = (transition_to now state reason tcb).1
apply (hold now reason) tcb = (block now reason tcb).1
apply (free now reason) tcb = (unblock now reason tcb).1

pub apply_all : List Op → TaskControlBlock → TaskControlBlock
apply_all [] tcb = tcb
apply_all (o ∷ os) tcb = apply_all os (apply o tcb)

-- A running task has a start; a task in an ending state has an end, and its run time is the time
-- from its start to that end, or from its creation if it never started.
pub record IsTimed (tcb : TaskControlBlock) : Type 0 where
  pub started : tcb.state ≡ running → is_some tcb.started_at ≡ true
  pub ended : ends tcb.state ≡ true → is_some tcb.completed_at ≡ true
  pub measured :
      ends tcb.state ≡ true
      → tcb.agent_runtime
        ≡ some (sub_ℕ (get_or tcb.completed_at 0) (get_or tcb.started_at tcb.created_at))

module _ {P : TaskControlBlock → Type 0}
    (moved : (now : ℕ) (state : TaskStatus) (reason : Reason) (tcb : TaskControlBlock)
      → P tcb
      → P (transition_to now state reason tcb).1)
    (noted : (reason : Reason) (tcb : TaskControlBlock)
      → P tcb
      → P (set_block_reason reason tcb)) where
  apply_keeps : (o : Op) (tcb : TaskControlBlock) → P tcb → P (apply o tcb)
  unfolding apply block unblock ◌>>=◌
  apply_keeps (move now state reason) tcb h = moved now state reason tcb h
  apply_keeps (hold now reason) tcb h = ground (
    arith,
    moved now blocked resource_blocked tcb h,
    noted reason (transition_to now blocked resource_blocked tcb).1,
  )
  apply_keeps (free now reason) tcb h =
      moved now ready reason (set_block_reason no_reason tcb) (noted no_reason tcb h)

  pub apply_all_keeps : (os : List Op) (tcb : TaskControlBlock) → P tcb → P (apply_all os tcb)
  unfolding apply_all
  apply_all_keeps [] tcb h = h
  apply_all_keeps (o ∷ os) tcb h = apply_all_keeps os (apply o tcb) (apply_keeps o tcb h)

moved-IsTimed :
    (now : ℕ) (state : TaskStatus) (reason : Reason) (tcb : TaskControlBlock)
    → IsTimed
        (note_reason reason (complete now state (start now state (record tcb { state = state }))))
unfolding note_reason complete start
moved-IsTimed now state reason tcb = ground arith

transition_to-IsTimed :
    (now : ℕ) (state : TaskStatus) (reason : Reason) (tcb : TaskControlBlock)
    → IsTimed tcb
    → IsTimed (transition_to now state reason tcb).1
unfolding transition_to
transition_to-IsTimed now state reason tcb h = elim (Bool-cases (may_move tcb.state state)) [
  | inl e ↦ rw e (moved-IsTimed now state reason tcb)
  | inr e ↦ rw e h
]

set_block_reason-IsTimed :
    (reason : Reason) (tcb : TaskControlBlock) → IsTimed tcb → IsTimed (set_block_reason reason tcb)
unfolding set_block_reason
set_block_reason-IsTimed reason tcb h = ground arith

-- From a control block whose times fit its state, every history of transitions, blocks and unblocks,
-- refused ones included, leads to one whose times fit its state: a running task has a start, a task
-- that ended has an end, and its run time is the time between, or from its creation if it never
-- started.
pub times_fit : (os : List Op) (tcb : TaskControlBlock) → IsTimed tcb → IsTimed (apply_all os tcb)
times_fit os tcb h = apply_all_keeps transition_to-IsTimed set_block_reason-IsTimed os tcb h

module _ (t : ℕ) where
  abbrev StartedAt : TaskControlBlock → Type 0
  StartedAt tcb = tcb.started_at ≡ some t

  transition_to-StartedAt :
      (now : ℕ) (state : TaskStatus) (reason : Reason) (tcb : TaskControlBlock)
      → StartedAt tcb
      → StartedAt (transition_to now state reason tcb).1
  unfolding transition_to note_reason complete start
  transition_to-StartedAt now state reason tcb h = ground arith

  -- The first start of a task is never overwritten, however often the task is run again.
  pub start_kept :
      (os : List Op) (tcb : TaskControlBlock)
      → tcb.started_at ≡ some t
      → (apply_all os tcb).started_at ≡ some t
  start_kept os tcb h =
      apply_all_keeps {P = StartedAt} transition_to-StartedAt
        (λ reason tcb h. unfold set_block_reason in h) os tcb h

pub state-moved :
    (now : ℕ) (state : TaskStatus) (reason : Reason) (tcb : TaskControlBlock)
    → (note_reason reason
        (complete now state (start now state (record tcb { state = state })))).state
      ≡ state
unfolding note_reason complete start
state-moved now state reason tcb = ground arith

stuck_final : (s t : TaskStatus) → (s ≡ success) ⊎ (s ≡ cancelled) → may_move s t ≡ true → t ≡ s
unfolding allowed may_move
stuck_final s t f h = ground arith

module _ (s : TaskStatus) (final : (s ≡ success) ⊎ (s ≡ cancelled)) where
  abbrev InState : TaskControlBlock → Type 0
  InState tcb = tcb.state ≡ s

  transition_to-InState :
      (now : ℕ) (state : TaskStatus) (reason : Reason) (tcb : TaskControlBlock)
      → InState tcb
      → InState (transition_to now state reason tcb).1
  unfolding transition_to
  transition_to-InState now state reason tcb h = elim (Bool-cases (may_move tcb.state state)) [
    | inl e ↦ rw e (state-moved now state reason tcb ∙ stuck_final s state final (rw h at e))
    | inr e ↦ rw e h
  ]

  -- A task that succeeded or was cancelled stays so under every history.
  pub final_kept :
      (os : List Op) (tcb : TaskControlBlock) → tcb.state ≡ s → (apply_all os tcb).state ≡ s
  final_kept os tcb h =
      apply_all_keeps {P = InState} transition_to-InState
        (λ reason tcb h. unfold set_block_reason in h) os tcb h
