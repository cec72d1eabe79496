-- ===== src/Daemon/Rounds.antt =====
-- What else the daemon writes of an agent in one run (aruntime/daemon/main.py): when a task is submitted, when
-- it ends, when it falls back to another agent, and when the monitor finds a worker dead. The handlers come
-- after those of Agents; starting and stopping a worker save the agent.
use agent_runtime.Prelude.{ℕ, Option, none, some, if◌then◌else◌, ◌||◌}
use agent_runtime.Prelude.Result.{Result, ok, err, ◌>>=◌, ◌>>◌}
use agent_runtime.Agent.{
  AgentStatus, created, ready, running, failed, completed, killed, suspended, isolated,
  record_event,
}
use agent_runtime.Daemon.Agents.{
  Entry, AgentError, Act, missing_agent, conflict, skip, same_status, persist_agent,
  transition_agent, when_listed, recover_agent, mark_agent_ready_for_reuse, or_mark_failed, noted,
  worker_started,
}

-- an InvalidTransitionError that is caught and passed over
abbrev pub passed_over : Result AgentError (Unit {0}) × Entry → Entry
passed_over (r, e) = e

-- _start_worker, after the process was started
unfoldable pub start_worker : ℕ → ℕ → Entry → Entry
unfolding persist_agent record_event
start_worker now pid e =
    persist_agent (record e { control = noted now none worker_started 0 pid e.control })

-- _ensure_demo_agents_registered, for an agent that is there
unfoldable pub register_again : ℕ → ℕ → Act
unfolding transition_agent
register_again now reason =
    when_listed
      (λ s. if same_status s created then transition_agent now ready none reason else skip)

module _ (dotted : ℕ → ℕ → ℕ) where
  -- what a submission does with the agent that it found in a status
  unfoldable pub submit_to : ℕ → ℕ → AgentStatus → Act
  unfolding recover_agent mark_agent_ready_for_reuse
  submit_to now reason s =
      if same_status s killed || same_status s suspended || same_status s isolated
      then (λ e. (err conflict, e))
      else if same_status s failed
      then recover_agent dotted now none reason
      else if same_status s completed
      then mark_agent_ready_for_reuse dotted now none reason
      else skip

  -- the agent in `submit_task` and in `submit_dynamic_task`
  unfoldable pub submit_task : ℕ → ℕ → Act
  unfolding submit_to
  submit_task now reason e = elim e.listed [
    | none ↦ (err missing_agent, e)
    | some a ↦ submit_to now reason a.status e
  ]

  abbrev pub complete_if_running : ℕ → Option ℕ → ℕ → AgentStatus → Act
  complete_if_running now task reason s =
      if same_status s running then transition_agent now completed task reason else skip

  -- _execute_task, where the task succeeded
  unfoldable pub task_succeeded : ℕ → Option ℕ → ℕ → Act
  unfolding recover_agent transition_agent ◌>>=◌
  task_succeeded now task reason = when_listed (λ s. if same_status s killed then skip else (do
    (if same_status s failed then recover_agent dotted now task reason else skip)
    when_listed (complete_if_running now task reason)))

-- _execute_task, where the task failed
unfoldable pub task_failed : ℕ → Option ℕ → ℕ → Act
unfolding transition_agent
task_failed now task reason = when_listed (λ s.
    if same_status s failed || same_status s killed
    then skip
    else transition_agent now failed task reason)

-- _execute_task, where it raised
unfoldable pub task_raised : ℕ → Option ℕ → ℕ → Act
unfolding transition_agent
task_raised now task reason = when_listed (λ s e.
    if same_status s failed || same_status s killed
    then (ok tt, e)
    else (ok tt, or_mark_failed (transition_agent now failed task reason e)))

-- The fallback dispatch of _run_task_with_policy; a process is started where none runs, and its stop before
-- saves the agent.
unfoldable pub dispatch_fallback : ℕ → Option ℕ → ℕ → Option ℕ → Entry → Entry
unfolding transition_agent start_worker persist_agent
dispatch_fallback now task reason process e =
    let e' = passed_over (transition_agent now running task reason e) in
    elim process [ none ↦ e' | some pid ↦ start_worker now pid (persist_agent e') ]

abbrev pub replaced : ℕ → ℕ → Option ℕ → Entry → Entry
replaced now reason (some pid) e = start_worker now pid e
replaced now reason none e = passed_over (transition_agent now isolated none reason e)

-- worker_monitor_loop, for an agent whose worker is dead or stale: the process that replaces it, where a
-- restart is allowed
unfoldable pub worker_lost : ℕ → ℕ → Option ℕ → Entry → Entry
unfolding transition_agent start_worker persist_agent
worker_lost now reason process e = elim e.listed [
  | none ↦ e
  | some a ↦
      if same_status a.status killed then e else replaced now reason process (persist_agent e)
]
