-- ===== src/Context/Runs.antt =====
-- Runs of the manager's operations.
use agent_runtime.Prelude.{ℕ, List, [], ◌∷◌}
use agent_runtime.Context.Data.{Texts}
use agent_runtime.Context.Recording.{Patch}
use agent_runtime.Context.Manager.{Manager, record_task_context, rollback_context}
use agent_runtime.Context.Building.{build_agent_context}

pub data Op : Type 0 where
  record_context : ℕ → ℕ → ℕ → Patch → Op
  build_context : ℕ → ℕ → ℕ → ℕ → Op
  roll_back : ℕ → Op

module _ (t : Texts) where
  unfoldable pub apply : Op → Manager → Manager
  unfolding record_task_context build_agent_context rollback_context
  apply (record_context now later id p) m = (record_task_context t now later id p m).1
  apply (build_context now elapsed id agent) m = (build_agent_context t now elapsed id agent m).1
  apply (roll_back id) m = (rollback_context t id m).1

  unfoldable pub run : List Op → Manager → Manager
  unfolding apply
  run [] m = m
  run (o ∷ os) m = run os (apply o m)
