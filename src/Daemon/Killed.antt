-- ===== src/Daemon/Killed.antt =====
-- What follows for an agent that the daemon killed (aruntime/daemon/main.py).
use agent_runtime.Daemon.Outcomes.{status_of, shown_as, block_status}
use agent_runtime.Prelude.{
  ℕ, Option, none, some, List, [], ◌∷◌, ◌≡◌, refl, arith, subst, sym, some_inj,
}
use agent_runtime.Agent.{AgentStatus, created, killed, AgentControlBlock}
use agent_runtime.Daemon.Agents.{
  Listed, Entry, prepare_agent_for_task, restart_agent, kill_agent, isolate_failed_worker, set_task,
  recover_agent,
}
use agent_runtime.Daemon.Rounds.{
  submit_task, task_succeeded, task_failed, task_raised, dispatch_fallback, worker_lost,
  register_again,
}

-- What the daemon does with an agent in one run, its handlers run one after the other.
pub data Op : Type 0 where
  prepare : ℕ → ℕ → Option ℕ → ℕ → Op
  restart : ℕ → ℕ → ℕ → Op
  kill : ℕ → ℕ → Op
  isolate : ℕ → ℕ → ℕ → ℕ → Op
  recover : ℕ → Option ℕ → ℕ → Op
  hand_task : ℕ → Option ℕ → Op
  submit : ℕ → ℕ → Op
  succeed fail raise_in : ℕ → Option ℕ → ℕ → Op
  fall_back : ℕ → Option ℕ → ℕ → Option ℕ → Op
  lose_worker : ℕ → ℕ → Option ℕ → Op
  register : ℕ → ℕ → Op

abbrev pub IsKilled : Entry → Type 0
IsKilled e = (status_of e ≡ some killed) × (block_status e ≡ some killed)

-- An agent that is killed is in the list and has a block, both in that status.
killed_parts :
    (P : Entry → Type 0) (l : Option Listed) (c : Option AgentControlBlock)
    (saved : List AgentStatus)
    → ((a : Listed) (acb : AgentControlBlock) (saved : List AgentStatus)
        → P (shown_as killed a acb saved))
    → IsKilled (record { listed = l; control = c; saved = saved })
    → P (record { listed = l; control = c; saved = saved })
killed_parts P none c saved f h = absurd (ground (arith, h.0))
killed_parts P (some a) none saved f h = absurd (ground (arith, h.1))
killed_parts P (some a) (some acb) saved f h =
    subst
      (λ s.
        P (record { listed = some (record a { status = s }); control = some acb; saved = saved }))
      (sym (some_inj h.0))
      (subst
        (λ s. P (record {
          listed = some (record a { status = killed });
          control = some (record acb { status = s });
          saved = saved;
        }))
        (sym (some_inj h.1)) (f a acb saved))

module _ (dotted : ℕ → ℕ → ℕ) where
  unfoldable pub apply : Op → Entry → Entry
  unfolding prepare_agent_for_task restart_agent kill_agent isolate_failed_worker recover_agent
      set_task submit_task task_succeeded task_failed task_raised dispatch_fallback worker_lost
      register_again
  apply (prepare now task context reason) e =
      (prepare_agent_for_task dotted now task context reason e).1
  apply (restart now reason pid) e = (restart_agent now reason pid e).1
  apply (kill now reason) e = (kill_agent now reason e).1
  apply (isolate now task reason error) e = isolate_failed_worker now task reason error e
  apply (recover now task reason) e = (recover_agent dotted now task reason e).1
  apply (hand_task now task) e = (set_task dotted now task e).1
  apply (submit now reason) e = (submit_task dotted now reason e).1
  apply (succeed now task reason) e = (task_succeeded dotted now task reason e).1
  apply (fail now task reason) e = (task_failed now task reason e).1
  apply (raise_in now task reason) e = (task_raised now task reason e).1
  apply (fall_back now task reason process) e = dispatch_fallback now task reason process e
  apply (lose_worker now reason process) e = worker_lost now reason process e
  apply (register now reason) e = (register_again now reason e).1

  unfoldable pub apply_all : List Op → Entry → Entry
  unfolding apply
  apply_all [] e = e
  apply_all (o ∷ os) e = apply_all os (apply o e)

  apply_shown :
      (o : Op) (a : Listed) (acb : AgentControlBlock) (saved : List AgentStatus)
      → IsKilled (apply o (shown_as killed a acb saved))
  unfolding apply
  apply_shown (prepare now task context reason) a acb saved = (refl, refl)
  apply_shown (restart now reason pid) a acb saved = (refl, refl)
  apply_shown (kill now reason) a acb saved = (refl, refl)
  apply_shown (isolate now task reason error) a acb saved = (refl, refl)
  apply_shown (recover now task reason) a acb saved = (refl, refl)
  apply_shown (hand_task now task) a acb saved = (refl, refl)
  apply_shown (fall_back now task reason none) a acb saved = (refl, refl)
  apply_shown (fall_back now task reason (some pid)) a acb saved = (refl, refl)
  apply_shown _ a acb saved = (refl, refl)

  apply_all-IsKilled : (os : List Op) (e : Entry) → IsKilled e → IsKilled (apply_all os e)
  unfolding apply_all
  apply_all-IsKilled [] e h = h
  apply_all-IsKilled (o ∷ os) e h =
      apply_all-IsKilled os (apply o e)
        (killed_parts (λ x. IsKilled (apply o x)) e.listed e.control e.saved (apply_shown o) h)

  kill-IsKilled :
      (s : AgentStatus) (a : Listed) (acb : AgentControlBlock) (saved : List AgentStatus)
      (now reason : ℕ)
      → IsKilled (apply (kill now reason) (shown_as s a acb saved))
  unfolding apply
  kill-IsKilled created a acb saved now reason = (refl, refl)
  kill-IsKilled _ a acb saved now reason = (refl, refl)

  -- An agent that is killed, in whatever status it was, stays KILLED in the list and in its block as long as
  -- the daemon runs: over every sequence of submissions, dispatches, fallback dispatches, ends of tasks,
  -- restarts, kills, isolations, recoveries, registrations, losses of its worker and changes of its
  -- task, those that raise included. (A start of the daemon, which reads the stored agents, is not among them.)
  pub IsKilled-forever :
      (s : AgentStatus) (a : Listed) (acb : AgentControlBlock) (saved : List AgentStatus)
      (now reason : ℕ) (os : List Op)
      → IsKilled (apply_all os (apply (kill now reason) (shown_as s a acb saved)))
  IsKilled-forever s a acb saved now reason os =
      apply_all-IsKilled os _ (kill-IsKilled s a acb saved now reason)
