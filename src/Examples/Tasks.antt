-- ===== src/Examples/Tasks.antt =====
-- Tasks and their control blocks.
use agent_runtime.Prelude.{[], ◌∷◌, none, ◌≡◌, refl, inl, true, ◌⊎◌, ◌↔◌}
use agent_runtime.Task.Status.{
  pending, ready, running, success, blocked_wake, no_reason, cancelled, no_capability_match,
}
use agent_runtime.Task.Control.{may_move}
use agent_runtime.Task.Spec.{
  transition_to, unblock, create_attempt, finish_attempt, active_attempt, block, Task,
}
use agent_runtime.Task.Times.{IsTimed, apply_all, move, hold, times_fit, final_kept}
use agent_runtime.Task.Mirror.{
  IsMirror, transition_to-IsMirror, block-IsMirror, unblock-IsMirror, finish-create,
}
use agent_runtime.Examples.Samples.{tcb_in, task_in, task_in-IsMirror}

times_fit_example : IsTimed (
    apply_all
      (move 200 ready no_reason ∷ move 300 running no_reason ∷ move 400 success no_reason ∷ [])
      (tcb_in 1 pending))
times_fit_example =
    times_fit
      (move 200 ready no_reason ∷ move 300 running no_reason ∷ move 400 success no_reason ∷ [])
      (tcb_in 1 pending)
      (record { started = λ e. absurd (cc); ended = λ e. absurd (cc); measured = λ e. absurd (cc) })

final_kept_example :
    (apply_all (move 500 ready no_reason ∷ hold 600 no_reason ∷ []) (tcb_in 1 success)).state
    ≡ success
final_kept_example =
    final_kept success (inl refl) (move 500 ready no_reason ∷ hold 600 no_reason ∷ [])
      (tcb_in 1 success) refl

transition_to-IsMirror_example :
    IsMirror (transition_to 200 ready no_reason (task_in 1 [] pending)).1
transition_to-IsMirror_example =
    transition_to-IsMirror 200 ready no_reason (task_in 1 [] pending)
      (task_in-IsMirror 1 [] pending)

-- Blocked for want of an agent, then cancelled: the reason stayed.
abbrev given_up : Task
given_up =
    (transition_to 300 cancelled no_reason (block 200 no_capability_match (task_in 1 [] ready)).1).1

given_up_mirrored : IsMirror given_up
given_up_mirrored =
    transition_to-IsMirror 300 cancelled no_reason
      (block 200 no_capability_match (task_in 1 [] ready)).1
      (block-IsMirror 200 no_capability_match (task_in 1 [] ready) (task_in-IsMirror 1 [] ready))

unblock-IsMirror_example : IsMirror (unblock 400 blocked_wake given_up).1 ↔ (
    (may_move given_up.tcb.state ready ≡ true)
    ⊎ (given_up.tcb.queue_info.resource_block_reason ≡ no_reason))
unblock-IsMirror_example = unblock-IsMirror 400 blocked_wake given_up given_up_mirrored

-- The control block lost the reason, and the task shows it still.
stale_test :
    ((unblock 400 blocked_wake given_up).1.tcb.queue_info.resource_block_reason ≡ no_reason)
    × ((unblock 400 blocked_wake given_up).1.resource_block_reason ≡ no_capability_match)
unfolding transition_to block unblock may_move
stale_test = (refl, refl)

finish-create_example :
    let (attempt, task') = create_attempt 200 1 none (task_in 1 [] running) in
    active_attempt (finish_attempt attempt.attempt_number 300 none 0 12 task')
    ≡ active_attempt (task_in 1 [] running)
finish-create_example =
    finish-create 200 1 none 300 none 0 12 (task_in 1 [] running)
      (record { counted = refl; numbered = tt })
