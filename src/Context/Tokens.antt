-- ===== src/Context/Tokens.antt =====
-- The token accounts of the context manager.
use agent_runtime.Context.Compress.{rollback}
use agent_runtime.Context.Recording.{Patch}
use agent_runtime.Prelude.{
  ℕ, suc, ◌+◌, ◌≤◌, Bool, true, false, List, [], ◌∷◌, ◌≡◌, refl, arith, if◌then◌else◌, Option-cases,
  Bool-cases, inl, inr, is_some, ◌==◌,
}
use agent_runtime.Prelude.Dict.{lookup, insert}
use agent_runtime.Context.Data.{Texts}
use agent_runtime.Context.Manager.{
  Manager, new_manager, record_task_context, rollback_context, open_context, evict_lru,
  evict_expired, recorded, touch,
}
use agent_runtime.Context.Building.{
  build_agent_context, account, Usage, count_if, get_metrics, usage,
}
use agent_runtime.Context.Runs.{Op, record_context, build_context, roll_back, apply, run}

-- What the counters owe one another.
abbrev pub IsBalanced : Manager → Type 0
IsBalanced m =
    (m.original_tokens ≡ m.saved_tokens + m.input_tokens_after)
    × (m.cache_hits ≤ m.build_hits)
    × (m.shared_prefix_hits ≤ m.build_hits)

count_if-le : (b : Bool) (n k : ℕ) → n ≤ k → count_if b n ≤ suc k
count_if-le b n k h = ground (arith, h)

account-IsBalanced :
    (u : Usage) (elapsed : ℕ) (m : Manager) → IsBalanced m → IsBalanced (account u elapsed m)
unfolding account
account-IsBalanced u elapsed m h = (
  omega (arith, h.0),
  count_if-le (is_some u.previous_full) m.cache_hits m.build_hits h.1,
  count_if-le (is_some u.previous_prefix) m.shared_prefix_hits m.build_hits h.2,
)

open_context-IsBalanced :
    (now id : ℕ) (m : Manager) → IsBalanced m → IsBalanced (open_context now id m).1
unfolding open_context
open_context-IsBalanced now id m h = elim (Option-cases (lookup id m.contexts)) [
  | inl e ↦ rw (open_context, e) h
  | inr (c, e) ↦ rw (open_context, e) h
]

evict_expired-IsBalanced : (now : ℕ) (m : Manager) → IsBalanced m → IsBalanced (evict_expired now m)
unfolding evict_expired
evict_expired-IsBalanced now m h = elim (Bool-cases (m.ttl_seconds == 0)) [
  | inl e ↦ rw (evict_expired, e) h
  | inr e ↦ rw (evict_expired, e) h
]

module _ (t : Texts) where
  record-IsBalanced :
      (now later id : ℕ) (p : Patch) (m : Manager)
      → IsBalanced m
      → IsBalanced (record_task_context t now later id p m).1
  unfolding record_task_context evict_lru
  record-IsBalanced now later id p m h =
      let m' : Manager = (open_context now id m).1 in
      let (compressed, c) =
        recorded t m'.compress_threshold_chars now p (open_context now id m).0 in
      evict_expired-IsBalanced later
        (record m' {
          contexts = touch id c m'.contexts;
          compression_count = if compressed then suc m'.compression_count else m'.compression_count;
        })
        (open_context-IsBalanced now id m h)

  build-IsBalanced :
      (now elapsed id agent : ℕ) (m : Manager)
      → IsBalanced m
      → IsBalanced (build_agent_context t now elapsed id agent m).1
  unfolding build_agent_context
  build-IsBalanced now elapsed id agent m h = elim (Option-cases (lookup id m.contexts)) [
    | inl e ↦ rw (build_agent_context, e) h
    | inr (c, e) ↦
        rw (build_agent_context, e)
          (account-IsBalanced (usage t agent (record c { updated_at = now }) m) elapsed m h)
  ]

  either-IsBalanced :
      (b : Bool) (m m' : Manager) → IsBalanced m → IsBalanced m' → IsBalanced (if b then m else m')
  either-IsBalanced true m m' h k = h
  either-IsBalanced false m m' h k = k

  rollback-IsBalanced :
      (id : ℕ) (m : Manager) → IsBalanced m → IsBalanced (rollback_context t id m).1
  unfolding rollback_context
  rollback-IsBalanced id m h = elim (Option-cases (lookup id m.contexts)) [
    | inl e ↦ rw (rollback_context, e) h
    | inr (c, e) ↦
        rw (rollback_context, e)
          (either-IsBalanced (rollback t c).0
            (record m { contexts = insert id (rollback t c).1 m.contexts }) m h h)
  ]

  run-IsBalanced : (os : List Op) (m : Manager) → IsBalanced m → IsBalanced (run t os m)
  unfolding run apply
  run-IsBalanced [] m h = h
  run-IsBalanced (record_context now later id p ∷ os) m h =
      run-IsBalanced os _ (record-IsBalanced now later id p m h)
  run-IsBalanced (build_context now elapsed id agent ∷ os) m h =
      run-IsBalanced os _ (build-IsBalanced now elapsed id agent m h)
  run-IsBalanced (roll_back id ∷ os) m h = run-IsBalanced os _ (rollback-IsBalanced id m h)

-- After any run of a new manager, its metrics add up: the tokens of all builds are those saved and
-- those still sent, and there are no more hits of either cache than builds.
pub get_metrics-balance :
    (t : Texts) (threshold most ttl : ℕ) (os : List Op)
    → let r = get_metrics (run t os (new_manager threshold most ttl)) in
      (r.original_tokens ≡ r.saved_tokens + r.input_token_after)
      × (r.cache_hits ≤ r.build_hits)
      × (r.shared_prefix_hits ≤ r.build_hits)
unfolding get_metrics
get_metrics-balance t threshold most ttl os =
    run-IsBalanced t os (new_manager threshold most ttl) (refl, omega arith, omega arith)
