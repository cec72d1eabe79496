-- ===== src/Daemon/Agents.antt =====
-- The daemon's writes of one agent (aruntime/daemon/main.py): what `agents`, `agent_controls` and the store
-- hold under its name. Starting and stopping a worker is outside; the event that a start records is not.
-- A reason f"{reason}.start" is a function of its two parts.
use agent_runtime.Prelude.{
  ℕ, Bool, Option, none, some, List, [], ◌∷◌, ◌++◌, if◌then◌else◌, ◌==◌, ◌||◌,
}
use agent_runtime.Prelude.Result.{Result, Exec, ok, err, ◌>>=◌, ◌>>◌}
use agent_runtime.Agent.{
  AgentStatus, ready, running, waiting, failed, completed, recovering, killed, index, contains,
  AgentControlBlock, TransitionError, invalid_transition, lifecycle_transition_to, record_event,
  set_current_task, set_context, allowed_transitions,
}

-- The fields of an `AgentSpec` that the daemon writes.
pub record Listed : Type 0 where
  pub status : AgentStatus
  pub current_task_id : Option ℕ
  pub updated_at : ℕ

pub record Entry : Type 0 where
  pub listed : Option Listed
  pub control : Option AgentControlBlock
  -- the status of each row that was saved
  pub saved : List AgentStatus

pub data AgentError : Type 0 where
  transition : TransitionError → AgentError
  missing_agent conflict : AgentError

abbrev pub Act : Type 0
Act = Exec AgentError Entry (Unit {0})

abbrev pub skip : Act
skip e = (ok tt, e)

abbrev pub same_status : AgentStatus → AgentStatus → Bool
same_status a b = index a == index b

-- _persist_agent
unfoldable pub persist_agent : Entry → Entry
persist_agent e = elim e.listed [
  | none ↦ e
  | some a ↦ record e { saved = e.saved ++ a.status ∷ [] }
]

abbrev pub synced : Option AgentControlBlock → Option Listed → Option Listed
synced (some acb) (some a) = some (record {
  status = acb.status;
  current_task_id = acb.current_task_id;
  updated_at = acb.updated_at;
})
synced none a = a
synced (some acb) none = none

-- _sync_agent_from_acb
unfoldable pub sync_agent_from_acb : Entry → Entry
sync_agent_from_acb e = record e { listed = synced e.control e.listed }

abbrev pub block_moved : Result TransitionError AgentControlBlock → Act
block_moved (err x) e = (err (transition x), e)
block_moved (ok acb) e =
    (ok tt, persist_agent (sync_agent_from_acb (record e { control = some acb })))

-- lifecycle.transition_to on an agent that has no control block
abbrev pub listed_moved : ℕ → AgentStatus → Option Listed → Act
listed_moved now s none e = (err missing_agent, e)
listed_moved now s (some a) e =
    if contains s (allowed_transitions a.status)
    then (
      ok tt,
      persist_agent (record e { listed = some (record a { status = s; updated_at = now }) }),
    )
    else (err (transition (invalid_transition a.status s)), e)

-- _transition_agent
unfoldable pub transition_agent : ℕ → AgentStatus → Option ℕ → ℕ → Act
unfolding persist_agent sync_agent_from_acb lifecycle_transition_to allowed_transitions
transition_agent now s task reason e = elim e.control [
  | none ↦ listed_moved now s e.listed e
  | some acb ↦ block_moved (lifecycle_transition_to now s task reason 0 acb) e
]

-- what is done for a status, where the agent is listed
abbrev pub when_listed : (AgentStatus → Act) → Act
when_listed f e = elim e.listed [ none ↦ (ok tt, e) | some a ↦ f a.status e ]

module _ (dotted : ℕ → ℕ → ℕ) where
  -- _recover_agent; the two suffixes are numbered
  unfoldable pub recover_agent : ℕ → Option ℕ → ℕ → Act
  unfolding transition_agent ◌>>=◌
  recover_agent now task reason = when_listed (λ s.
      if same_status s failed
      then (do
        transition_agent now recovering task (dotted reason 0)
        transition_agent now ready task (dotted reason 1))
      else skip)

  -- the event name "agent.reused"
  abbrev pub agent_reused : ℕ
  agent_reused = 2

  abbrev pub reused_block : ℕ → Option ℕ → ℕ → AgentControlBlock → AgentControlBlock
  reused_block now task reason acb =
      record_event now agent_reused task reason 0
        (record acb { status = ready; current_task_id = none })

  abbrev pub reused_control : ℕ → Option ℕ → ℕ → Option AgentControlBlock → Option AgentControlBlock
  reused_control now task reason none = none
  reused_control now task reason (some acb) = some (reused_block now task reason acb)

  -- _mark_agent_ready_for_reuse
  unfoldable pub mark_agent_ready_for_reuse : ℕ → Option ℕ → ℕ → Act
  unfolding persist_agent sync_agent_from_acb record_event
  mark_agent_ready_for_reuse now task reason e = elim e.listed [
    | none ↦ (ok tt, e)
    | some a ↦ (
      ok tt,
      persist_agent (
          sync_agent_from_acb (record e {
            listed = some (record a { status = ready; current_task_id = none });
            control = reused_control now task reason e.control;
          })),
    )
  ]

  abbrev pub control_task : ℕ → Option ℕ → Option AgentControlBlock → Option AgentControlBlock
  control_task now task none = none
  control_task now task (some acb) = some (set_current_task now task acb)

  abbrev pub listed_task : Option ℕ → Option Listed → Option Listed
  listed_task task none = none
  listed_task task (some a) = some (record a { current_task_id = task })

  -- _set_current_task
  unfoldable pub set_task : ℕ → Option ℕ → Act
  unfolding persist_agent set_current_task
  set_task now task e = (
    ok tt,
    persist_agent (record e {
      control = control_task now task e.control;
      listed = listed_task task e.listed;
    }),
  )

  abbrev pub control_context : ℕ → Option ℕ → Option AgentControlBlock → Option AgentControlBlock
  control_context now context none = none
  control_context now context (some acb) = some (set_context now context acb)

  -- _set_context_handle
  unfoldable pub set_context_handle : ℕ → Option ℕ → Act
  unfolding set_context
  set_context_handle now context e =
      (ok tt, record e { control = control_context now context e.control })

  -- _prepare_agent_for_task, after it found the agent
  unfoldable pub prepare_listed : ℕ → ℕ → Option ℕ → ℕ → AgentStatus → Act
  unfolding recover_agent mark_agent_ready_for_reuse set_context_handle transition_agent set_task
      ◌>>=◌
  prepare_listed now task context reason s = do
    (if same_status s failed
        then recover_agent now (some task) (dotted reason 2)
        else (if same_status s completed
            then mark_agent_ready_for_reuse now (some task) reason
            else skip))
    set_context_handle now context
    transition_agent now running (some task) reason
    set_task now (some task)

  unfoldable pub prepare_agent_for_task : ℕ → ℕ → Option ℕ → ℕ → Act
  unfolding prepare_listed
  prepare_agent_for_task now task context reason =
      when_listed (prepare_listed now task context reason)

-- The statuses and event that a handler forces where the table does not allow them.
abbrev pub forced : AgentStatus → Option Listed → Option Listed
forced s none = none
forced s (some a) = some (record a { status = s })

-- the agent.status = FAILED of _isolate_failed_worker, on an InvalidTransitionError
abbrev pub or_mark_failed : Result AgentError (Unit {0}) × Entry → Entry
or_mark_failed (ok u, e) = e
or_mark_failed (err x, e) = record e { listed = forced failed e.listed }

-- the event name "worker.isolated"
abbrev pub worker_isolated : ℕ
worker_isolated = 3

abbrev pub noted : ℕ → Option ℕ → ℕ → ℕ → ℕ → Option AgentControlBlock → Option AgentControlBlock
noted now task event reason detail none = none
noted now task event reason detail (some acb) = some (record_event now event task reason detail acb)

-- _isolate_failed_worker: the agent, before its leases are reclaimed and its worker is restarted
unfoldable pub isolate_failed_worker : ℕ → ℕ → ℕ → ℕ → Entry → Entry
unfolding transition_agent record_event
isolate_failed_worker now task reason error e = elim e.listed [
  | none ↦ e
  | some a ↦
      let e' =
        if same_status a.status failed || same_status a.status killed
        then e
        else or_mark_failed (transition_agent now failed (some task) reason e) in
      record e' { control = noted now (some task) worker_isolated reason error e'.control }
]

-- the event name "agent.force_killed"
abbrev pub agent_force_killed : ℕ
agent_force_killed = 4

abbrev pub killed_control : ℕ → Option AgentControlBlock → Option AgentControlBlock
killed_control now none = none
killed_control now (some acb) =
    some (record_event now agent_force_killed none 0 0 (record acb { status = killed }))

abbrev pub or_force_kill : ℕ → Result AgentError (Unit {0}) × Entry → Entry
or_force_kill now (ok u, e) = e
or_force_kill now (err x, e) = record e {
  listed = forced killed e.listed;
  control = killed_control now e.control;
}

-- kill_agent; stopping the worker saves the agent
unfoldable pub kill_agent : ℕ → ℕ → Act
unfolding transition_agent record_event persist_agent
kill_agent now reason e = elim e.listed [
  | none ↦ (err missing_agent, e)
  | some a ↦ (
    ok tt,
    if same_status a.status killed
        then persist_agent e
        else or_force_kill now (transition_agent now killed none reason (persist_agent e)),
  )
]

-- the event name "worker.started", which a restart records
abbrev pub worker_started : ℕ
worker_started = 5

-- restart_agent; stopping and starting the worker each save the agent
unfoldable pub restart_agent : ℕ → ℕ → ℕ → Act
unfolding transition_agent record_event persist_agent
restart_agent now reason pid e = elim e.listed [
  | none ↦ (err missing_agent, e)
  | some a ↦
      if same_status a.status killed
      then (err conflict, e)
      else (let e' = persist_agent (record (persist_agent e) {
        control = noted now none worker_started 0 pid e.control;
      }) in
          if same_status a.status completed
            || same_status a.status failed
            || same_status a.status waiting
          then transition_agent now ready none reason e'
          else (ok tt, e'))
]
