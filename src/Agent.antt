-- ===== src/Agent.antt =====
-- Agents: aruntime/core/acb.py, aruntime/core/lifecycle.py and the agent types of
-- aruntime/core/models.py. Texts (names, reasons, ids) are numbered, 0 for the empty text: the code
-- only stores and compares them. `datetime.now()` is an argument, a number of microseconds.
mod Tables
pub mod Traces
pub mod Graph
unfoldable pub use Tables.*
use agent_runtime.Prelude.{ℕ, Option, none, some, List, [], ◌∷◌, ◌++◌, Bool, if◌then◌else◌}
use agent_runtime.Prelude.Result.{Result, ok, err}

pub record ResourceQuota : Type 0 where
  pub memory_max_bytes : Option ℕ
  pub memory_high_bytes : Option ℕ
  pub cpu_max : Option ℕ
  pub pids_max : Option ℕ
  pub llm_max_concurrent : ℕ

-- `detail`, a free dictionary that is only stored, stands as its number.
pub record TimelineEvent : Type 0 where
  pub timestamp : ℕ
  pub event : ℕ
  pub from_status : Option AgentStatus
  pub to_status : Option AgentStatus
  pub task_id : Option ℕ
  pub reason : ℕ
  pub detail : ℕ

-- the event name "agent.transition"
abbrev pub agent_transition : ℕ
agent_transition = 1

pub record AgentControlBlock : Type 0 where
  pub agent_name : ℕ
  pub status : AgentStatus
  pub current_task_id : Option ℕ
  pub resource_quota : ResourceQuota
  pub context_id : Option ℕ
  pub fault_domain : ℕ
  pub created_at : ℕ
  pub updated_at : ℕ
  pub timeline : List TimelineEvent

-- The fields of `AgentSpec` that a control block is made from, and those a transition writes.
pub record AgentSpec : Type 0 where
  pub agent_name : ℕ
  pub status : AgentStatus
  pub quota : ResourceQuota
  pub updated_at : ℕ

pub data TransitionError : Type 0 where
  value_error : AgentStatus → AgentStatus → TransitionError
  invalid_transition : AgentStatus → AgentStatus → TransitionError

-- AgentControlBlock.from_agent_spec
unfoldable pub from_agent_spec : ℕ → AgentSpec → AgentControlBlock
from_agent_spec now agent = record {
  agent_name = agent.agent_name;
  status = agent.status;
  resource_quota = agent.quota;
  current_task_id = none;
  context_id = none;
  fault_domain = agent.agent_name;
  created_at = now;
  updated_at = now;
  timeline = [];
}

unfoldable pub record_event : ℕ → ℕ → Option ℕ → ℕ → ℕ → AgentControlBlock → AgentControlBlock
record_event now event task_id reason detail acb = record acb {
  timeline =
      acb.timeline
      ++ record {
        timestamp = now;
        event = event;
        from_status = none;
        to_status = none;
        task_id = task_id;
        reason = reason;
        detail = detail;
      }
        ∷ [];
  updated_at = now;
}

unfoldable pub record_transition :
    ℕ → AgentStatus → AgentStatus → Option ℕ → ℕ → ℕ → AgentControlBlock → AgentControlBlock
record_transition now from_status to_status task_id reason detail acb = record acb {
  timeline =
      acb.timeline
      ++ record {
        timestamp = now;
        event = agent_transition;
        from_status = some from_status;
        to_status = some to_status;
        task_id = task_id;
        reason = reason;
        detail = detail;
      }
        ∷ [];
  updated_at = now;
}

-- AgentControlBlock.transition_to; `ValueError` leaves the block as it was
unfoldable pub block_transition_to :
    ℕ
    → AgentStatus
    → Option ℕ
    → ℕ
    → ℕ
    → AgentControlBlock
    → Result TransitionError AgentControlBlock
unfolding allowed_block record_transition
block_transition_to now target task_id reason detail acb =
    if contains target (allowed_block acb.status)
    then ok (
        record_transition now acb.status target task_id reason detail
          (record acb { status = target }))
    else err (value_error acb.status target)

unfoldable pub set_current_task : ℕ → Option ℕ → AgentControlBlock → AgentControlBlock
set_current_task now task_id acb = record acb { current_task_id = task_id; updated_at = now }

unfoldable pub set_context : ℕ → Option ℕ → AgentControlBlock → AgentControlBlock
set_context now context_id acb = record acb { context_id = context_id; updated_at = now }

-- lifecycle.can_transition_to
unfoldable pub can_transition_to : AgentStatus → AgentStatus → Bool
unfolding allowed_transitions
can_transition_to current new_status = contains new_status (allowed_transitions current)

-- lifecycle.transition_to on a control block, which has `record_transition`
unfoldable pub lifecycle_transition_to :
    ℕ
    → AgentStatus
    → Option ℕ
    → ℕ
    → ℕ
    → AgentControlBlock
    → Result TransitionError AgentControlBlock
unfolding allowed_transitions record_transition
lifecycle_transition_to now new_status task_id reason detail acb =
    if contains new_status (allowed_transitions acb.status)
    then ok (record (record_transition now acb.status new_status task_id reason detail acb) {
      status = new_status;
      updated_at = now;
    })
    else err (invalid_transition acb.status new_status)

-- lifecycle.transition_to on an `AgentSpec`, which has no `record_transition`
unfoldable pub spec_transition_to : ℕ → AgentStatus → AgentSpec → Result TransitionError AgentSpec
unfolding allowed_transitions
spec_transition_to now new_status agent =
    if contains new_status (allowed_transitions agent.status)
    then ok (record agent { status = new_status; updated_at = now })
    else err (invalid_transition agent.status new_status)
