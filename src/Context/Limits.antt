-- ===== src/Context/Limits.antt =====
-- What is in the store after a record: how many contexts, how old, and the one just recorded.
use agent_runtime.Context.Window.{open_context-SameStore}
use agent_runtime.Prelude.{
  ℕ, ◌+◌, ◌≤◌, ◌<◌, Bool, true, false, some, [], ◌∷◌, ◌≡◌, ◌⊎◌, refl, arith, ◌∙◌, if◌then◌else◌,
  Bool-cases, Option-cases, inl, inr, ◌==◌, ltb, leb, length, ==_refl,
}
use agent_runtime.Prelude.Dict.{Dict, lookup, insert, remove}
use agent_runtime.Context.Data.{RuntimeContext, Texts}
use agent_runtime.Context.Recording.{Patch, write}
use agent_runtime.Context.Compress.{compress, compress_if_needed, content_size}
use agent_runtime.Context.Manager.{
  Manager, touch, drop_oldest, drop_expired, is_expired, evict_expired, evict_lru, open_context,
  recorded, record_task_context, summarised,
}
use agent_runtime.Context.Lists.{length-drop_oldest}
use agent_runtime.Context.Layers.{updated_at-write}
use agent_runtime.Context.Stored.{Stored, Stored-drop_oldest}

-- The context stands last, under a key that no other context has.
IsLast : ℕ → RuntimeContext → Dict RuntimeContext → Type 0
IsLast id c [] = ⊥
IsLast id c ((j, v) ∷ d) = ((d ≡ []) × (j ≡ id) × (v ≡ c)) ⊎ (((j == id) ≡ false) × IsLast id c d)

module _ (id : ℕ) (c : RuntimeContext) where
  lookup-IsLast : (d : Dict RuntimeContext) → IsLast id c d → lookup id d ≡ some c
  unfolding lookup IsLast
  lookup-IsLast [] h = absurd h
  lookup-IsLast ((j, v) ∷ d) (inl h) = rw (h.1, h.2, ==_refl id) refl
  lookup-IsLast ((j, v) ∷ d) (inr h) = rw h.0 (lookup-IsLast d h.1)

  touch-IsLast : (d : Dict RuntimeContext) → IsLast id c (touch id c d)
  unfolding touch insert remove IsLast
  touch-IsLast [] = inl (refl, refl, refl)
  touch-IsLast ((j, v) ∷ d) = elim (Bool-cases (j == id)) [
    | inl e ↦ rw e (touch-IsLast d)
    | inr e ↦ rw (e, e) (inr (e, touch-IsLast d))
  ]

  if-IsLast :
      (b : Bool) (d d' : Dict RuntimeContext)
      → (b ≡ true → IsLast id c d)
      → (b ≡ false → IsLast id c d')
      → IsLast id c (if b then d else d')
  if-IsLast true d d' h k = h refl
  if-IsLast false d d' h k = k refl

  drop_expired-IsLast :
      (ttl now : ℕ) (d : Dict RuntimeContext)
      → is_expired ttl now c ≡ false
      → IsLast id c d
      → IsLast id c (drop_expired ttl now d)
  unfolding drop_expired IsLast
  drop_expired-IsLast ttl now [] x h = h
  drop_expired-IsLast ttl now ((j, v) ∷ d) x (inl h) =
      rw (h.0, h.1, h.2, x) (inl (refl, refl, refl))
  drop_expired-IsLast ttl now ((j, v) ∷ d) x (inr h) =
      let rest = drop_expired-IsLast ttl now d x h.1 in
      if-IsLast (is_expired ttl now v) _ _ (λ e. rest) (λ e. inr (h.0, rest))

  drop_oldest-IsLast :
      (n : ℕ) (d : Dict RuntimeContext) → 1 ≤ n → IsLast id c d → IsLast id c (drop_oldest n d)
  unfolding drop_oldest IsLast
  drop_oldest-IsLast n [] x h = h
  drop_oldest-IsLast n ((j, v) ∷ d) x (inl h) =
      rw (h.0)
        (if-IsLast (ltb n 1) _ _ (λ e. absurd (ground (arith, e, x))) (λ e. inl (refl, h.1, h.2)))
  drop_oldest-IsLast n ((j, v) ∷ d) x (inr h) =
      let rest = drop_oldest-IsLast n d x h.1 in
      if-IsLast (ltb n (length ((j, v) ∷ d))) _ _ (λ e. rest) (λ e. inr h)

updated_at-open_context : (now id : ℕ) (m : Manager) → (open_context now id m).0.updated_at ≡ now
unfolding open_context
updated_at-open_context now id m = elim (Option-cases (lookup id m.contexts)) [
  | inl e ↦ rw (open_context, e) refl
  | inr (c, e) ↦ rw (open_context, e) refl
]

updated_at-recorded :
    (t : Texts) (threshold now : ℕ) (p : Patch) (c : RuntimeContext)
    → (recorded t threshold now p c).1.updated_at ≡ c.updated_at
unfolding recorded compress_if_needed compress
updated_at-recorded t threshold now p c =
    elim (Bool-cases (leb (content_size t (summarised (write now p c))) threshold)) [
      | inl e ↦ rw (recorded, compress_if_needed, e) (updated_at-write now p c)
      | inr e ↦ rw (recorded, compress_if_needed, e) (updated_at-write now p c)
    ]

drop_expired-fresh :
    (ttl now : ℕ) (d : Dict RuntimeContext)
    → Stored (λ c. is_expired ttl now c ≡ false) (drop_expired ttl now d)
unfolding drop_expired Stored
drop_expired-fresh ttl now [] = tt
drop_expired-fresh ttl now ((id, c) ∷ d) = elim (Bool-cases (is_expired ttl now c)) [
  | inl e ↦ rw e (drop_expired-fresh ttl now d)
  | inr e ↦ rw e (e, drop_expired-fresh ttl now d)
]

module _ (t : Texts) (now later id : ℕ) (p : Patch) (m : Manager) where
  abbrev opened : Manager
  opened = (open_context now id m).1

  abbrev written : RuntimeContext
  written = (recorded t opened.compress_threshold_chars now p (open_context now id m).0).1

  updated_at-written : written.updated_at ≡ now
  updated_at-written =
      updated_at-recorded t opened.compress_threshold_chars now p (open_context now id m).0
      ∙ updated_at-open_context now id m

  -- With a time to live, a record leaves no more contexts than the manager may keep, and none of them
  -- has expired.
  pub record-limits :
      0 < m.ttl_seconds
      → let m' = (record_task_context t now later id p m).1 in
        (length m'.contexts ≤ m.max_contexts)
        × Stored (λ c. is_expired m.ttl_seconds later c ≡ false) m'.contexts
  unfolding record_task_context evict_lru evict_expired
  record-limits h =
      let same = open_context-SameStore now id m in
      let on : (opened.ttl_seconds == 0) ≡ false = rw same.0 (ground (arith, h)) in
      rw (on, same.0, same.1)
        (
          length-drop_oldest m.max_contexts _,
          Stored-drop_oldest (λ c. is_expired m.ttl_seconds later c ≡ false) m.max_contexts _
              (drop_expired-fresh m.ttl_seconds later _),
        )

  -- What was just recorded can be read: where the manager may keep a context and the time to live
  -- has not passed meanwhile, the context returned is the one that its identifier is bound to.
  pub record-readable :
      1 ≤ m.max_contexts
      → later ≤ now + m.ttl_seconds
      → let (c, m') = record_task_context t now later id p m in lookup id m'.contexts ≡ some c
  unfolding record_task_context evict_lru evict_expired
  record-readable h k =
      let same = open_context-SameStore now id m in
      let fresh : is_expired m.ttl_seconds later written ≡ false =
        rw updated_at-written (ground (arith, k)) in
      let last = touch-IsLast id written opened.contexts in
      lookup-IsLast id written _ (elim (Bool-cases (opened.ttl_seconds == 0)) [
        | inl e ↦ rw (e, same.1) (drop_oldest-IsLast id written m.max_contexts _ h last)
        | inr e ↦
            rw (e, same.0, same.1)
              (drop_oldest-IsLast id written m.max_contexts _ h
                (drop_expired-IsLast id written m.ttl_seconds later _ fresh last))
      ])
