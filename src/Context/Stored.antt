-- ===== src/Context/Stored.antt =====
-- What holds of every stored context, over the operations of the manager.
use agent_runtime.Prelude.{
  ℕ, suc, ◌+◌, Bool, true, false, some, List, [], ◌∷◌, ◌≡◌, arith, if◌then◌else◌, Option-cases, inl,
  inr, length, ltb, ◌==◌, Bool-cases, subst, some_inj,
}
use agent_runtime.Prelude.Dict.{Dict, lookup, insert, remove}
use agent_runtime.Context.Data.{Texts, RuntimeContext, new_context}
use agent_runtime.Context.Manager.{
  Manager, drop_oldest, drop_expired, touch, record_task_context, open_context, evict_lru,
  evict_expired, rollback_context, recorded,
}
use agent_runtime.Context.Compress.{rollback}
use agent_runtime.Context.Recording.{Patch}
use agent_runtime.Context.Building.{build_agent_context, account, account_context, Usage, usage}
use agent_runtime.Context.Runs.{Op, record_context, build_context, roll_back, apply, run}

module _ {κ} (P : RuntimeContext → Type κ) where
  unfoldable pub Stored : Dict RuntimeContext → Type κ
  Stored [] = Unit
  Stored ((id, c) ∷ d) = P c × Stored d

  pub Stored-lookup :
      (id : ℕ) (c : RuntimeContext) (d : Dict RuntimeContext)
      → Stored d
      → lookup id d ≡ some c
      → P c
  unfolding lookup Stored
  Stored-lookup id c [] h e = absurd (ground (arith, e))
  Stored-lookup id c ((j, v) ∷ d) h e = elim (Bool-cases (j == id)) [
    | inl s ↦ subst P (some_inj (ground (arith, e, s))) h.0
    | inr s ↦ Stored-lookup id c d h.1 (ground (arith, e, s))
  ]

  Stored-if :
      (b : Bool) (d d' : Dict RuntimeContext) → Stored d → Stored d' → Stored (if b then d else d')
  Stored-if true d d' h k = h
  Stored-if false d d' h k = k

  Stored-either :
      (b : Bool) (m m' : Manager)
      → Stored m.contexts
      → Stored m'.contexts
      → Stored (if b then m else m').contexts
  Stored-either true m m' h k = h
  Stored-either false m m' h k = k

  pub Stored-remove : (id : ℕ) (d : Dict RuntimeContext) → Stored d → Stored (remove id d)
  unfolding remove Stored
  Stored-remove id [] h = tt
  Stored-remove id ((j, v) ∷ d) h =
      Stored-if (j == id) _ _ (Stored-remove id d h.1) (h.0, Stored-remove id d h.1)

  pub Stored-insert :
      (id : ℕ) (c : RuntimeContext) (d : Dict RuntimeContext)
      → P c
      → Stored d
      → Stored (insert id c d)
  unfolding insert Stored
  Stored-insert id c [] p h = (p, tt)
  Stored-insert id c ((j, v) ∷ d) p h =
      Stored-if (j == id) _ _ (p, h.1) (h.0, Stored-insert id c d p h.1)

  pub Stored-touch :
      (id : ℕ) (c : RuntimeContext) (d : Dict RuntimeContext)
      → P c
      → Stored d
      → Stored (touch id c d)
  unfolding touch
  Stored-touch id c d p h = Stored-insert id c (remove id d) p (Stored-remove id d h)

  pub Stored-drop_oldest : (n : ℕ) (d : Dict RuntimeContext) → Stored d → Stored (drop_oldest n d)
  unfolding drop_oldest Stored
  Stored-drop_oldest n [] h = tt
  Stored-drop_oldest n ((j, v) ∷ d) h =
      Stored-if (ltb n (length ((j, v) ∷ d))) _ _ (Stored-drop_oldest n d h.1) h

  pub Stored-drop_expired :
      (ttl now : ℕ) (d : Dict RuntimeContext) → Stored d → Stored (drop_expired ttl now d)
  unfolding drop_expired Stored
  Stored-drop_expired ttl now [] h = tt
  Stored-drop_expired ttl now ((j, v) ∷ d) h =
      Stored-if (ltb (v.updated_at + ttl) now) _ _ (Stored-drop_expired ttl now d h.1)
        (h.0, Stored-drop_expired ttl now d h.1)

  Stored-evict_expired :
      (now : ℕ) (m : Manager) → Stored m.contexts → Stored (evict_expired now m).contexts
  unfolding evict_expired
  Stored-evict_expired now m h = elim (Bool-cases (m.ttl_seconds == 0)) [
    | inl e ↦ rw (evict_expired, e) h
    | inr e ↦ rw (evict_expired, e) (Stored-drop_expired m.ttl_seconds now m.contexts h)
  ]

-- A property of a context that every operation of the manager keeps.
pub record IsKept {κ} (t : Texts) (P : RuntimeContext → Type κ) : Type κ where
  pub fresh : (now id : ℕ) → P (new_context now id)
  pub reopened :
      (now : ℕ) (c : RuntimeContext)
      → P c
      → P (record c { updated_at = now; reuse_count = suc c.reuse_count })
  pub record_kept :
      (threshold now : ℕ) (p : Patch) (c : RuntimeContext)
      → P c
      → P (recorded t threshold now p c).1
  pub build_kept :
      (u : Usage) (now elapsed : ℕ) (c : RuntimeContext)
      → P c
      → P (account_context u elapsed (record c { updated_at = now }))
  pub rollback_kept : (c : RuntimeContext) → P c → P (rollback t c).1

module _ {κ} (t : Texts) (P : RuntimeContext → Type κ) (k : IsKept t P) where
  open_context-Stored :
      (now id : ℕ) (m : Manager)
      → Stored P m.contexts
      → P (open_context now id m).0 × Stored P (open_context now id m).1.contexts
  unfolding open_context
  open_context-Stored now id m h = elim (Option-cases (lookup id m.contexts)) [
    | inl e ↦ rw (open_context, e) (k.fresh now id, h)
    | inr (c, e) ↦ rw (open_context, e) (k.reopened now c (Stored-lookup P id c m.contexts h e), h)
  ]

  record-Stored :
      (now later id : ℕ) (p : Patch) (m : Manager)
      → Stored P m.contexts
      → Stored P (record_task_context t now later id p m).1.contexts
  unfolding record_task_context evict_lru
  record-Stored now later id p m h =
      let opened = open_context-Stored now id m h in
      Stored-drop_oldest P _ _ (
        Stored-evict_expired P later _
          (Stored-touch P id _ _ (k.record_kept _ now p _ opened.0) opened.1))

  build-Stored :
      (now elapsed id agent : ℕ) (m : Manager)
      → Stored P m.contexts
      → Stored P (build_agent_context t now elapsed id agent m).1.contexts
  unfolding build_agent_context account
  build-Stored now elapsed id agent m h = elim (Option-cases (lookup id m.contexts)) [
    | inl e ↦ rw (build_agent_context, e) h
    | inr (c, e) ↦
        rw (build_agent_context, e)
          (Stored-touch P id _ m.contexts
            (k.build_kept (usage t agent (record c { updated_at = now }) m) now elapsed c
              (Stored-lookup P id c m.contexts h e))
            h)
  ]

  rollback-Stored :
      (id : ℕ) (m : Manager) → Stored P m.contexts → Stored P (rollback_context t id m).1.contexts
  unfolding rollback_context
  rollback-Stored id m h = elim (Option-cases (lookup id m.contexts)) [
    | inl e ↦ rw (rollback_context, e) h
    | inr (c, e) ↦
        rw (rollback_context, e)
          (Stored-either P (rollback t c).0 _ m
            (Stored-insert P id _ m.contexts
              (k.rollback_kept c (Stored-lookup P id c m.contexts h e)) h)
            h)
  ]

  apply-Stored : (o : Op) (m : Manager) → Stored P m.contexts → Stored P (apply t o m).contexts
  unfolding apply
  apply-Stored (record_context now later id p) m h = record-Stored now later id p m h
  apply-Stored (build_context now elapsed id agent) m h = build-Stored now elapsed id agent m h
  apply-Stored (roll_back id) m h = rollback-Stored id m h

  pub run-Stored :
      (os : List Op) (m : Manager) → Stored P m.contexts → Stored P (run t os m).contexts
  unfolding run
  run-Stored [] m h = h
  run-Stored (o ∷ os) m h = run-Stored os (apply t o m) (apply-Stored o m h)
