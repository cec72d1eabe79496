-- ===== src/Faults/Budget.antt =====
-- The restarts of a worker stay within its budget (aruntime/daemon/fault_service.py).
use agent_runtime.Prelude.{
  ℕ, ◌+◌, Bool, true, false, List, [], ◌∷◌, ◌≡◌, ◌≤◌, ◌<◌, if◌then◌else◌, arith, refl, ◌∙◌,
}
use agent_runtime.Faults.Worker.{
  WorkerFaultState, can_restart, record_restart, heartbeat, record_fallback,
}

-- the supervisor's attempts at the given times: a restart where it is allowed
pub restarts : List ℕ → WorkerFaultState → WorkerFaultState
unfolding can_restart record_restart
restarts [] w = w
restarts (now ∷ times) w = restarts times (if can_restart now w then record_restart now w else w)

may_restart :
    (now : ℕ) (w : WorkerFaultState) → can_restart now w ≡ true → w.restart_count < w.max_restarts
unfolding can_restart
may_restart now w h = ground (arith, h)

next_restart :
    (now : ℕ) (b : Bool) (w : WorkerFaultState)
    → (b ≡ true → w.restart_count < w.max_restarts)
    → w.restart_count ≤ w.max_restarts
    → ((if b then record_restart now w else w).restart_count ≤ w.max_restarts)
      × ((if b then record_restart now w else w).max_restarts ≡ w.max_restarts)
unfolding record_restart
next_restart now true w may h = (omega (arith, may refl), refl)
next_restart now false w may h = (h, refl)

-- Whenever the supervisor asks, a worker that has restarted no more often than its maximum is never
-- restarted beyond it, and the maximum does not change.
pub restarts_bounded :
    (times : List ℕ) (w : WorkerFaultState)
    → w.restart_count ≤ w.max_restarts
    → ((restarts times w).restart_count ≤ w.max_restarts)
      × ((restarts times w).max_restarts ≡ w.max_restarts)
unfolding restarts
restarts_bounded [] w h = (h, refl)
restarts_bounded (now ∷ times) w h =
    let w' = if can_restart now w then record_restart now w else w in
    let (le, same) = next_restart now (can_restart now w) w (may_restart now w) h in
    let (le', same') = restarts_bounded times w' (omega (arith, le, same)) in
    (omega (arith, le', same), same' ∙ same)

-- What happens to a worker's state, at the given times. It is recorded whether the state allowed it or not.
pub data Op : Type 0 where
  beat restart : ℕ → Op
  fall_back : ℕ → ℕ → ℕ → ℕ → ℕ → Op

pub apply : Op → WorkerFaultState → WorkerFaultState
unfolding heartbeat record_restart record_fallback
apply (beat now) w = heartbeat now w
apply (restart now) w = record_restart now w
apply (fall_back now task from to attempt) w = record_fallback now task from to attempt w

pub apply_all : List Op → WorkerFaultState → WorkerFaultState
unfolding apply
apply_all [] w = w
apply_all (o ∷ os) w = apply_all os (apply o w)

abbrev pub restarts_in : List Op → ℕ
restarts_in [] = 0
restarts_in (restart now ∷ os) = 1 + restarts_in os
restarts_in (beat now ∷ os) = restarts_in os
restarts_in (fall_back now task from to attempt ∷ os) = restarts_in os

-- every restart counts, and nothing takes one back
apply_all-counts :
    (os : List Op) (w : WorkerFaultState)
    → ((apply_all os w).restart_count ≡ w.restart_count + restarts_in os)
      × ((apply_all os w).max_restarts ≡ w.max_restarts)
unfolding apply_all
apply_all-counts [] w = (omega arith, refl)
apply_all-counts (beat now ∷ os) w = apply_all-counts os (apply (beat now) w)
apply_all-counts (restart now ∷ os) w =
    let (count, same) = apply_all-counts os (apply (restart now) w) in (count ∙ omega arith, same)
apply_all-counts (fall_back now task from to attempt ∷ os) w =
    apply_all-counts os (apply (fall_back now task from to attempt) w)

-- Once the restarts recorded, before and during any sequence of heartbeats, restarts and fallbacks, are as
-- many as the maximum, the worker is not allowed to restart, at whatever time, however long ago its circuit
-- closed: since the sequence may be as long as one likes, never again.
pub spent_forever :
    (os : List Op) (w : WorkerFaultState) (now : ℕ)
    → w.max_restarts ≤ w.restart_count + restarts_in os
    → can_restart now (apply_all os w) ≡ false
unfolding can_restart
spent_forever os w now h =
    let (count, same) = apply_all-counts os w in ground (arith, h, count, same)
