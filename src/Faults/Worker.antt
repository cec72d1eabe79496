-- ===== src/Faults/Worker.antt =====
-- WorkerFaultState (aruntime/daemon/fault_service.py): the restarts that a worker is allowed. Times
-- are microseconds; the budget is an integer, as a budget may be overdrawn.
use agent_runtime.Prelude.{
  ℕ, Bool, false, List, [], ◌∷◌, ◌++◌, Option, some, none, ◌+◌, ◌*◌, ◌-◌, if◌then◌else◌, ltb, leb,
  ◌&&◌, ◌||◌, not,
}
use agent_runtime.Prelude.Int.{ℤ, pos, neg, ◌+ℤ◌, leb_ℤ}

pub record Fallback : Type 0 where
  pub task_id : ℕ
  pub from_agent : ℕ
  pub to_agent : ℕ
  pub attempt_id : ℕ
  pub created_at : ℕ

pub record WorkerFaultState : Type 0 where
  pub agent_name : ℕ
  pub max_restarts : ℕ
  pub restart_budget : ℤ
  pub restart_count : ℕ
  pub circuit_open_until : Option ℕ
  pub last_heartbeat : Option ℕ
  pub fault_domain : ℕ
  pub fallback_attempts : List Fallback

unfoldable pub heartbeat : ℕ → WorkerFaultState → WorkerFaultState
heartbeat now w = record w { last_heartbeat = some now }

unfoldable pub stale_since : ℕ → ℕ → Option ℕ → Bool
stale_since now timeout none = false
stale_since now timeout (some at) = ltb timeout (now - at)

-- the timeout is in microseconds too
unfoldable pub heartbeat_stale : ℕ → ℕ → WorkerFaultState → Bool
unfolding stale_since
heartbeat_stale now timeout w = stale_since now timeout w.last_heartbeat

unfoldable pub circuit_open : ℕ → Option ℕ → Bool
circuit_open now none = false
circuit_open now (some until) = ltb now until

unfoldable pub can_restart : ℕ → WorkerFaultState → Bool
unfolding circuit_open
can_restart now w =
    if circuit_open now w.circuit_open_until
    then false
    else ltb w.restart_count w.max_restarts && not (leb_ℤ w.restart_budget (pos 0))

unfoldable pub record_restart : ℕ → WorkerFaultState → WorkerFaultState
record_restart now w =
    let count = w.restart_count + 1 in
    let budget = w.restart_budget +ℤ neg (pos 1) in
    record w {
      restart_count = count;
      restart_budget = budget;
      circuit_open_until =
          if leb w.max_restarts count || leb_ℤ budget (pos 0)
          then some (now + 30 * 1000000)
          else w.circuit_open_until;
    }

unfoldable pub record_fallback : ℕ → ℕ → ℕ → ℕ → ℕ → WorkerFaultState → WorkerFaultState
record_fallback now task_id from_agent to_agent attempt_id w = record w {
  fallback_attempts =
      w.fallback_attempts
      ++ record {
        task_id = task_id;
        from_agent = from_agent;
        to_agent = to_agent;
        attempt_id = attempt_id;
        created_at = now;
      }
        ∷ [];
}
