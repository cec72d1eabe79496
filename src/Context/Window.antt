-- ===== src/Context/Window.antt =====
-- Which contexts the manager keeps, against an ideal one that evicts nothing.
use agent_runtime.Context.Compress.{rollback}
use agent_runtime.Context.Recording.{Patch}
use agent_runtime.Prelude.{
  ℕ, Bool, true, false, none, some, List, [], ◌∷◌, ◌≡◌, refl, if◌then◌else◌, Option-cases, inl, inr,
  suc, ◌∙◌, is_some, ap,
}
use agent_runtime.Prelude.Dict.{lookup, keys}
use agent_runtime.Prelude.Sets.{member}
use agent_runtime.Context.Data.{Texts, RuntimeContext, new_context}
use agent_runtime.Context.Manager.{
  Manager, new_manager, drop_oldest, record_task_context, open_context, evict_lru, evict_expired,
  rollback_context,
}
use agent_runtime.Context.Building.{build_agent_context, account}
use agent_runtime.Context.Runs.{Op, record_context, build_context, roll_back, apply, run}
use agent_runtime.Context.Lists.{
  touch_key, IsDistinct, keys-touch, keys-drop_oldest, keys-insert_present, lookup-member,
  drop_oldest-touch_key, touch_key-IsDistinct, drop_oldest-touch_key_present, length-drop_oldest,
}

-- The ideal order holds every context ever recorded, the least recently used first. A build is a use
-- if its context is among the last `most`, and a rollback never is.
unfoldable pub note : ℕ → List ℕ → Op → List ℕ
unfolding member drop_oldest
note most h (record_context now later id p) = touch_key id h
note most h (build_context now elapsed id agent) =
    if member id (drop_oldest most h) then touch_key id h else h
note most h (roll_back id) = h

unfoldable pub note_all : ℕ → List ℕ → List Op → List ℕ
unfolding note
note_all most h [] = h
note_all most h (o ∷ os) = note_all most (note most h o) os

record Tracks (most : ℕ) (m : Manager) (h : List ℕ) : Type 0 where
  pub forever : m.ttl_seconds ≡ 0
  pub capacity : m.max_contexts ≡ most
  pub distinct : IsDistinct h
  pub window : keys m.contexts ≡ drop_oldest most h

if-IsDistinct :
    (b : Bool) (h k : List ℕ) → IsDistinct h → IsDistinct k → IsDistinct (if b then h else k)
if-IsDistinct true h k p q = p
if-IsDistinct false h k p q = q

-- Opening a context changes no more than a counter of the manager.
abbrev pub SameStore : Manager → Manager → Type 0
SameStore m m' =
    (m'.ttl_seconds ≡ m.ttl_seconds)
    × (m'.max_contexts ≡ m.max_contexts)
    × (m'.contexts ≡ m.contexts)

pub open_context-SameStore : (now id : ℕ) (m : Manager) → SameStore m (open_context now id m).1
unfolding open_context
open_context-SameStore now id m =
    elim (lookup id m.contexts)
      as (λ o.
        SameStore m
          (elim o as (λ _. RuntimeContext × Manager) [
            | none ↦ (new_context now id, m)
            | some c ↦ (
              record c { updated_at = now; reuse_count = suc c.reuse_count },
              record m { reuse_hits = suc m.reuse_hits },
            )
          ]).1) [ none ↦ (refl, refl, refl) | some c ↦ (refl, refl, refl) ]

Tracks-if :
    {most : ℕ} {m m' : Manager} {h : List ℕ} (b : Bool)
    → Tracks most m h
    → Tracks most m' h
    → Tracks most (if b then m' else m) h
Tracks-if true r r' = r'
Tracks-if false r r' = r

module _ (t : Texts) (most : ℕ) where
  note-IsDistinct : (h : List ℕ) (o : Op) → IsDistinct h → IsDistinct (note most h o)
  unfolding note
  note-IsDistinct h (record_context now later id p) d = touch_key-IsDistinct id h d
  note-IsDistinct h (build_context now elapsed id agent) d =
      if-IsDistinct _ _ _ (touch_key-IsDistinct id h d) d
  note-IsDistinct h (roll_back id) d = d

  Tracks-record :
      (now later id : ℕ) (p : Patch) (m : Manager) (h : List ℕ)
      → Tracks most m h
      → Tracks most (record_task_context t now later id p m).1 (touch_key id h)
  unfolding record_task_context evict_lru evict_expired
  Tracks-record now later id p m h r =
      let same = open_context-SameStore now id m in
      let still : (open_context now id m).1.ttl_seconds ≡ 0 = same.0 ∙ r.forever in
      record {
        forever = rw still refl;
        capacity = rw still (same.1 ∙ r.capacity);
        distinct = touch_key-IsDistinct id h r.distinct;
        window =
            rw (still, keys-drop_oldest, keys-touch, same.1, same.2, r.capacity, r.window)
              (drop_oldest-touch_key most id h r.distinct);
      }

  Tracks-build :
      (now elapsed id agent : ℕ) (m : Manager) (h : List ℕ)
      → Tracks most m h
      → Tracks most
          (build_agent_context t now elapsed id agent m).1
          (note most h (build_context now elapsed id agent))
  unfolding build_agent_context account note
  Tracks-build now elapsed id agent m h r =
      let present : is_some (lookup id m.contexts) ≡ member id (drop_oldest most h) =
        lookup-member id m.contexts ∙ ap (member id) r.window in
      let shown : (c : RuntimeContext)
          → lookup id m.contexts ≡ some c
          → member id (drop_oldest most h) ≡ true =
        λ c e. rw (← present, e) refl in
      elim (Option-cases (lookup id m.contexts)) [
        | inl e ↦ rw (← present, build_agent_context, e) r
        | inr (c, e) ↦
            rw (← present, build_agent_context, e)
              (record {
                forever = r.forever;
                capacity = r.capacity;
                distinct = touch_key-IsDistinct id h r.distinct;
                window =
                    rw
                      (
                        keys-touch,
                        r.window,
                        ← drop_oldest-touch_key_present most id _ (shown c e)
                            (length-drop_oldest most h),
                      )
                      (drop_oldest-touch_key most id h r.distinct);
              })
      ]

  Tracks-roll_back :
      (id : ℕ) (m : Manager) (h : List ℕ)
      → Tracks most m h
      → Tracks most (rollback_context t id m).1 h
  unfolding rollback_context
  Tracks-roll_back id m h r = elim (Option-cases (lookup id m.contexts)) [
    | inl e ↦ rw (rollback_context, e) r
    | inr (c, e) ↦
        rw (rollback_context, e)
          (Tracks-if (rollback t c).0 r (record {
            forever = r.forever;
            capacity = r.capacity;
            distinct = r.distinct;
            window =
                keys-insert_present id _ m.contexts (rw (← lookup-member id m.contexts, e) refl)
                ∙ r.window;
          }))
  ]

  Tracks-apply :
      (o : Op) (m : Manager) (h : List ℕ)
      → Tracks most m h
      → Tracks most (apply t o m) (note most h o)
  unfolding apply note
  Tracks-apply (record_context now later id p) m h r = Tracks-record now later id p m h r
  Tracks-apply (build_context now elapsed id agent) m h r = Tracks-build now elapsed id agent m h r
  Tracks-apply (roll_back id) m h r = Tracks-roll_back id m h r

  Tracks-run :
      (os : List Op) (m : Manager) (h : List ℕ)
      → Tracks most m h
      → Tracks most (run t os m) (note_all most h os)
  unfolding run note_all
  Tracks-run [] m h r = r
  Tracks-run (o ∷ os) m h r = Tracks-run os _ _ (Tracks-apply o m h r)

-- With no time to live, whatever operations are run on a new manager, the contexts it keeps are the
-- `most` used last, in the order of their last use: what is evicted is always the least recently used.
pub run-window :
    (t : Texts) (threshold most : ℕ) (os : List Op)
    → keys (run t os (new_manager threshold most 0)).contexts
      ≡ drop_oldest most (note_all most [] os)
run-window t threshold most os =
    (Tracks-run t most os (new_manager threshold most 0) [] (record {
      forever = refl;
      capacity = refl;
      distinct = tt;
      window = unfold keys drop_oldest in refl;
    })).window
