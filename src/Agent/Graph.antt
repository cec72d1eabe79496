-- ===== src/Agent/Graph.antt =====
-- The transition graph of an agent: which states can be reached, and through which.
use agent_runtime.Prelude.{Bool, ◌≢◌, ◌≡◌, true, false, ◌⊎◌, arith, refl}
use agent_runtime.Agent.Tables.{
  AgentStatus, created, ready, running, failed, completed, isolated, recovering, lost, killed,
  contains, allowed_block,
}

-- A walk over edges of the table that meets no status for which `avoid` is true after its start.
pub data Walk (avoid : AgentStatus → Bool) (s : AgentStatus) : AgentStatus → Type 0 where
  here : Walk avoid s s
  move :
      {t : AgentStatus} (u : AgentStatus)
      → Walk avoid s t
      → contains u (allowed_block t) ≡ true
      → avoid u ≡ false
      → Walk avoid s u

abbrev pub nowhere : AgentStatus → Bool
nowhere s = false

abbrev pub mended : AgentStatus → Bool
mended recovering = true
mended isolated = true
mended _ = false

-- Every agent but a completed one can be killed, over legal transitions.
pub kill_reachable : (s : AgentStatus) → s ≢ completed → Walk nowhere s killed
unfolding allowed_block
kill_reachable completed h = absurd (h refl)
kill_reachable killed h = here
kill_reachable created h = move killed (move ready here refl refl) refl refl
kill_reachable _ h = move killed here refl refl

abbrev is_down : AgentStatus → Bool
is_down failed = true
is_down lost = true
is_down killed = true
is_down _ = false

step_down :
    (t u : AgentStatus)
    → is_down t ≡ true
    → contains u (allowed_block t) ≡ true
    → mended u ≡ false
    → is_down u ≡ true
unfolding allowed_block
step_down t u h k m = ground arith

stays_down : {s t : AgentStatus} → Walk mended s t → is_down s ≡ true → is_down t ≡ true
stays_down here h = h
stays_down (move {t = t} u w k m) h = step_down t u (stays_down w h) k m

-- A failed or lost agent comes back to READY or RUNNING only through RECOVERING or ISOLATED: no
-- walk that avoids these two leads from it to one of those.
pub recovery_needs_mending :
    (s t : AgentStatus)
    → (s ≡ failed) ⊎ (s ≡ lost)
    → (t ≡ ready) ⊎ (t ≡ running)
    → ¬ Walk mended s t
recovery_needs_mending s t h k w = ground (arith, stays_down w)
