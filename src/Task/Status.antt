-- ===== src/Task/Status.antt =====
-- The enumerations of aruntime/core/models.py that tasks use, and the texts that the runtime gives
-- as reasons.
use agent_runtime.Prelude.{ℕ, Bool, List, ◌==◌, false, ◌∷◌, ltb, if◌then◌else◌, [], true}
use agent_runtime.Prelude.Int.{ℤ}

pub data TaskStatus : Type 0 where
  pending ready running blocked orphaned timeout retrying fallback success failed cancelled :
      TaskStatus

abbrev pub status_index : TaskStatus → ℕ
status_index pending = 0
status_index ready = 1
status_index running = 2
status_index blocked = 3
status_index orphaned = 4
status_index timeout = 5
status_index retrying = 6
status_index fallback = 7
status_index success = 8
status_index failed = 9
status_index cancelled = 10

abbrev pub same_status : TaskStatus → TaskStatus → Bool
same_status s t = status_index s == status_index t

-- `s in statuses`
abbrev pub one_of : TaskStatus → List TaskStatus → Bool
one_of s [] = false
one_of s (t ∷ ts) = if same_status s t then true else one_of s ts

-- TaskControlBlock._ALLOWED
unfoldable pub allowed : TaskStatus → List TaskStatus
allowed pending = ready ∷ blocked ∷ failed ∷ cancelled ∷ []
allowed ready = pending ∷ running ∷ blocked ∷ failed ∷ cancelled ∷ []
allowed running =
    pending ∷ orphaned ∷ timeout ∷ retrying ∷ fallback ∷ success ∷ failed ∷ cancelled ∷ []
allowed blocked = pending ∷ ready ∷ failed ∷ cancelled ∷ []
allowed orphaned = ready ∷ retrying ∷ failed ∷ cancelled ∷ []
allowed timeout = retrying ∷ fallback ∷ failed ∷ cancelled ∷ []
allowed retrying = ready ∷ running ∷ failed ∷ cancelled ∷ []
allowed fallback = ready ∷ running ∷ failed ∷ cancelled ∷ []
allowed success = []
allowed failed = ready ∷ []
allowed cancelled = []

pub data FailureMode : Type 0 where
  retry fall_back degrade fail_open fail_closed : FailureMode

-- The texts of the runtime's reasons. `given` is a text from outside, 0 for the empty one.
pub data Reason : Type 0 where
  given : ℕ → Reason
  dependencies_satisfied waiting_dependencies resource_blocked blocked_reason blocked_wake : Reason
  no_capability_match capability_match_none capability_match : Reason
  resource_not_checked resource_available : Reason
  fifo_order earliest_deadline cost_aware reliability_aware policy_name : Reason
  dependency_fail_closed task_success task_failed fifo_enqueue dag_ready : Reason
  recovery_orphaned recovery_retry recovery_pending_ready : Reason
  priority_eq : ℤ → Reason
  fair_share_count : ℕ → Reason
  selected_agent : ℕ → ℕ → Reason
  resource_score : Reason → Reason
  dependency_mode : FailureMode → Reason

-- `bool(reason)`
abbrev pub is_text : Reason → Bool
is_text (given n) = ltb 0 n
is_text _ = true

-- `""`
abbrev pub no_reason : Reason
no_reason = given 0
