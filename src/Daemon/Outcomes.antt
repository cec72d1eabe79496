-- ===== src/Daemon/Outcomes.antt =====
-- What the daemon's handlers make of an agent in each status (aruntime/daemon/main.py).
use agent_runtime.Prelude.{
  ℕ, [], ◌∷◌, ◌++◌, ◌==◌, arith, ap, ◌∙◌, Option, none, some, List, ◌≡◌, refl, if◌then◌else◌, false,
  true, Bool,
}
use agent_runtime.Prelude.Result.{Result, ok, err, succeeds}
use agent_runtime.Agent.{
  AgentStatus, created, ready, running, waiting, failed, completed, killed, AgentControlBlock,
  invalid_transition, lost, TimelineEvent,
}
use agent_runtime.Daemon.Agents.{
  Listed, Entry, AgentError, transition, conflict, prepare_agent_for_task, restart_agent,
  isolate_failed_worker, same_status, worker_started,
}

-- An agent that the list and its control block show in the same status.
abbrev pub shown_as : AgentStatus → Listed → AgentControlBlock → List AgentStatus → Entry
shown_as s a acb saved = record {
  listed = some (record a { status = s });
  control = some (record acb { status = s });
  saved = saved;
}

abbrev pub may_start : AgentStatus → Bool
may_start ready = true
may_start failed = true
may_start completed = true
may_start _ = false

abbrev pub status_of : Entry → Option AgentStatus
status_of e = elim e.listed [ none ↦ none | some a ↦ some a.status ]

abbrev pub block_status : Entry → Option AgentStatus
block_status e = elim e.control [ none ↦ none | some acb ↦ some acb.status ]

abbrev pub restart_result : AgentStatus → Result AgentError (Unit {0})
restart_result killed = err conflict
restart_result completed = err (transition (invalid_transition completed ready))
restart_result failed = err (transition (invalid_transition failed ready))
restart_result _ = ok tt

-- The processes of the workers that were started for the agent, by the events of its block's timeline.
abbrev pub starts_in : List TimelineEvent → List ℕ
starts_in [] = []
starts_in (x ∷ xs) = if x.event == worker_started then x.detail ∷ starts_in xs else starts_in xs

abbrev pub workers_of : Entry → List ℕ
workers_of e = elim e.control [ none ↦ [] | some acb ↦ starts_in acb.timeline ]

starts_in-append :
    (xs ys : List TimelineEvent) → starts_in (xs ++ ys) ≡ starts_in xs ++ starts_in ys
starts_in-append [] ys = refl
starts_in-append (x ∷ xs) ys = ground (arith, starts_in-append xs ys)

append_nil : (xs : List ℕ) → xs ++ [] ≡ xs
append_nil [] = refl
append_nil (x ∷ xs) = ap (λ t. x ∷ t) (append_nil xs)

-- A restart starts the worker, unless the agent was killed.
restart_workers :
    (s : AgentStatus) (a : Listed) (acb : AgentControlBlock) (saved : List AgentStatus)
    (now reason pid : ℕ)
    → workers_of (restart_agent now reason pid (shown_as s a acb saved)).1 ≡ (
        if same_status s killed then starts_in acb.timeline else starts_in acb.timeline ++ pid ∷ [])
unfolding restart_agent
restart_workers killed a acb saved now reason pid = refl
restart_workers waiting a acb saved now reason pid =
    starts_in-append (acb.timeline ++ _ ∷ []) (_ ∷ [])
    ∙ append_nil (starts_in (acb.timeline ++ _ ∷ []))
    ∙ starts_in-append acb.timeline (_ ∷ [])
restart_workers _ a acb saved now reason pid = starts_in-append acb.timeline (_ ∷ [])

dispatch_outcome :
    (dotted : ℕ → ℕ → ℕ) (s : AgentStatus) (a : Listed) (acb : AgentControlBlock)
    (saved : List AgentStatus) (now task : ℕ) (context : Option ℕ) (reason pid : ℕ)
    → let (r, e) = prepare_agent_for_task dotted now task context reason (shown_as s a acb saved) in
      (r ≡ (if may_start s then ok tt else err (transition (invalid_transition s running))))
      × (status_of e ≡ some (if may_start s then running else s))
      × (block_status e ≡ some (if may_start s then running else s))
      × ((restart_agent now reason pid (shown_as s a acb saved)).0 ≡ restart_result s)
unfolding prepare_agent_for_task restart_agent
dispatch_outcome dotted ready a acb saved now task context reason pid = (refl, refl, refl, refl)
dispatch_outcome dotted _ a acb saved now task context reason pid = (refl, refl, refl, refl)

-- A task is dispatched to an agent that is READY, FAILED or COMPLETED, and to no other: then the list and
-- the block show it RUNNING; otherwise the attempt raises, and both show the status as it was. A
-- restart starts a worker unless the agent is KILLED, and raises for an agent that is FAILED or COMPLETED,
-- its new worker started all the same, and for a KILLED one.
pub prepare_outcome :
    (dotted : ℕ → ℕ → ℕ) (s : AgentStatus) (a : Listed) (acb : AgentControlBlock)
    (saved : List AgentStatus) (now task : ℕ) (context : Option ℕ) (reason pid : ℕ)
    → let (r, e) = prepare_agent_for_task dotted now task context reason (shown_as s a acb saved) in
      let (r', e') = restart_agent now reason pid (shown_as s a acb saved) in
      (r ≡ (if may_start s then ok tt else err (transition (invalid_transition s running))))
      × (status_of e ≡ some (if may_start s then running else s))
      × (block_status e ≡ some (if may_start s then running else s))
      × (r' ≡ restart_result s)
      × (workers_of e' ≡ (
          if same_status s killed
          then starts_in acb.timeline
          else starts_in acb.timeline ++ pid ∷ []))
prepare_outcome dotted s a acb saved now task context reason pid =
    let d = dispatch_outcome dotted s a acb saved now task context reason pid in
    (d.0, d.1, d.2, d.3, restart_workers s a acb saved now reason pid)

abbrev pub follows_failure : AgentStatus → Bool
follows_failure created = true
follows_failure running = true
follows_failure waiting = true
follows_failure failed = true
follows_failure _ = false

abbrev pub recovers : AgentStatus → Bool
recovers lost = true
recovers s = follows_failure s

-- An agent that is isolated, and was not KILLED, is FAILED in the list. Its block is FAILED too if the
-- table has that edge, and otherwise keeps its status. A task can be dispatched to the agent afterwards if
-- the block is FAILED or LOST; in every other status the dispatch raises.
pub isolate_outcome :
    (dotted : ℕ → ℕ → ℕ) (s : AgentStatus) (a : Listed) (acb : AgentControlBlock)
    (saved : List AgentStatus) (now task : ℕ) (context : Option ℕ) (reason error : ℕ)
    → let e = isolate_failed_worker now task reason error (shown_as s a acb saved) in
      (status_of e ≡ some (if same_status s killed then killed else failed))
      × (block_status e ≡ some (if follows_failure s then failed else s))
      × (succeeds (prepare_agent_for_task dotted now task context reason e).0 ≡ recovers s)
unfolding isolate_failed_worker prepare_agent_for_task
isolate_outcome dotted created a acb saved now task context reason error = (refl, refl, refl)
isolate_outcome dotted _ a acb saved now task context reason error = (refl, refl, refl)
