-- ===== src/Examples/Agents.antt =====
-- An agent and its control block.
use agent_runtime.Prelude.{[], ◌∷◌, some, none, ◌≡◌}
use agent_runtime.Agent.{
  AgentSpec, created, ready, completed, from_agent_spec, block_transition_to,
  lifecycle_transition_to,
}
use agent_runtime.Agent.Traces.{
  transition, apply_all, replay, timeline_replays, SameAnswer, lifecycle-agrees,
}

agent : AgentSpec
agent = record {
  agent_name = 1;
  status = created;
  quota = record {
    memory_max_bytes = none;
    memory_high_bytes = none;
    cpu_max = none;
    pids_max = none;
    llm_max_concurrent = 1;
  };
  updated_at = 100;
}

timeline_replays_example :
    replay
      (some agent.status)
      (apply_all
        (transition 200 ready none 0 0 ∷ transition 300 completed none 0 0 ∷ [])
        (from_agent_spec 100 agent)).timeline
    ≡ some
        (apply_all
          (transition 200 ready none 0 0 ∷ transition 300 completed none 0 0 ∷ [])
          (from_agent_spec 100 agent)).status
timeline_replays_example =
    timeline_replays 100 agent
      (transition 200 ready none 0 0 ∷ transition 300 completed none 0 0 ∷ [])

lifecycle-agrees_example :
    SameAnswer
      (block_transition_to 200 ready none 0 0 (from_agent_spec 100 agent))
      (lifecycle_transition_to 200 ready none 0 0 (from_agent_spec 100 agent))
lifecycle-agrees_example = lifecycle-agrees 200 ready none 0 0 (from_agent_spec 100 agent)
