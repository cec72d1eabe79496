-- ===== src/Examples/Dispatch.antt =====
-- An agent that completed a task, and one that is ready, in the hands of the daemon.
use agent_runtime.Prelude.Result.{ok, succeeds, err}
use agent_runtime.Daemon.Outcomes.{
  shown_as, status_of, block_status, workers_of, isolate_outcome, prepare_outcome,
}
use agent_runtime.Daemon.Killed.{
  IsKilled, apply_all, prepare, isolate, restart, apply, kill, IsKilled-forever, Op, submit,
  fall_back, lose_worker,
}
use agent_runtime.Prelude.{List, refl, ℕ, ◌+◌, ◌*◌, none, some, [], ◌∷◌, ◌≡◌, false}
use agent_runtime.Agent.{AgentControlBlock, completed, ready, failed, running, invalid_transition}
use agent_runtime.Daemon.Agents.{
  Listed, prepare_agent_for_task, isolate_failed_worker, restart_agent, transition,
}

abbrev listed : Listed
listed = record { status = completed; current_task_id = none; updated_at = 3 }

abbrev block : AgentControlBlock
block = record {
  agent_name = 1;
  status = completed;
  current_task_id = none;
  resource_quota = record {
    memory_max_bytes = none;
    memory_high_bytes = none;
    cpu_max = none;
    pids_max = none;
    llm_max_concurrent = 1;
  };
  context_id = none;
  fault_domain = 1;
  created_at = 0;
  updated_at = 3;
  timeline = [];
}

abbrev dotted : ℕ → ℕ → ℕ
dotted a b = 10 * a + b

prepare_outcome_example :
    let (r, e) = prepare_agent_for_task dotted 5 7 none 9 (shown_as completed listed block []) in
    let (r', e') = restart_agent 5 9 77 (shown_as completed listed block []) in
    (r ≡ ok tt)
    × (status_of e ≡ some running)
    × (block_status e ≡ some running)
    × (r' ≡ err (transition (invalid_transition completed ready)))
    × (workers_of e' ≡ 77 ∷ [])
prepare_outcome_example = prepare_outcome dotted completed listed block [] 5 7 none 9 77

isolate_outcome_example :
    let e = isolate_failed_worker 5 7 9 0 (shown_as ready listed block []) in
    (status_of e ≡ some failed)
    × (block_status e ≡ some ready)
    × (succeeds (prepare_agent_for_task dotted 5 7 none 9 e).0 ≡ false)
isolate_outcome_example = isolate_outcome dotted ready listed block [] 5 7 none 9 0

abbrev later : List Op
later =
    prepare 6 7 none 9
    ∷ submit 6 9
    ∷ isolate 7 7 9 0
    ∷ restart 8 9 77
    ∷ fall_back 9 (some 7) 9 (some 78)
    ∷ lose_worker 10 9 none
    ∷ []

IsKilled-forever_example :
    IsKilled (apply_all dotted later (apply dotted (kill 5 9) (shown_as completed listed block [])))
IsKilled-forever_example = IsKilled-forever dotted completed listed block [] 5 9 later

-- A killed agent that had COMPLETED is saved as COMPLETED, and a fallback starts a worker for it.
saved_test : (apply dotted (kill 5 9) (shown_as completed listed block [])).saved ≡ completed ∷ []
unfolding apply
saved_test = refl

revived_test :
    workers_of (
      apply dotted
        (fall_back 9 (some 7) 9 (some 78))
        (apply dotted (kill 5 9) (shown_as completed listed block [])))
    ≡ 78 ∷ []
unfolding apply
revived_test = refl
