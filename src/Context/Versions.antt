-- ===== src/Context/Versions.antt =====
-- The readonly versions of a context: over every operation they are numbered from 1, each has another
-- value than the one before, and the last is the value that is shown.
use agent_runtime.Context.Snapshots.{Popped, pop_last-Popped}
use agent_runtime.Prelude.{
  ℕ, suc, ◌+◌, Bool, true, false, Option, none, some, List, [], ◌∷◌, ◌++◌, ◌≡◌, refl, arith, ◌==◌,
  Bool-cases, Option-cases, inl, inr, length, not, get_or, All, All-append, ==_iff, leb, subst,
}
use agent_runtime.Prelude.Dict.{Dict, lookup, insert, lookup-insert}
use agent_runtime.Context.Data.{Texts, RuntimeContext, ContextObject, Snapshot, Payload, Change}
use agent_runtime.Context.Recording.{
  Patch, write, write_shared, write_private, write_readonly, write_entries, write_entry, holds,
  versions_of, context_object, content,
}
use agent_runtime.Context.Manager.{Manager, new_manager, readonly_history, recorded, summarised}
use agent_runtime.Context.Compress.{
  rollback, compress_if_needed, compress, pop_last, snapshot, content_size,
}
use agent_runtime.Context.Stored.{Stored, IsKept, run-Stored, Stored-lookup}
use agent_runtime.Context.Runs.{Op, run}

abbrev pub differs : Option ℕ → ℕ → Bool
differs none v = true
differs (some u) v = not (u == v)

-- Versions of a key that continue `n - 1` earlier ones, the last of which has the value `prev`.
unfoldable pub IsChain : ℕ → ℕ → Option ℕ → List ContextObject → Type 0
IsChain key n prev [] = Unit
IsChain key n prev (o ∷ os) =
    (o.version ≡ n)
    × (o.key ≡ key)
    × (differs prev o.value ≡ true)
    × IsChain key (suc n) (some o.value) os

unfoldable pub last_value : Option ℕ → List ContextObject → Option ℕ
last_value prev [] = prev
last_value prev (o ∷ os) = last_value (some o.value) os

IsChain-append :
    (key n : ℕ) (prev : Option ℕ) (os : List ContextObject) (o : ContextObject)
    → IsChain key n prev os
    → o.version ≡ n + length os
    → o.key ≡ key
    → differs (last_value prev os) o.value ≡ true
    → IsChain key n prev (os ++ o ∷ [])
unfolding IsChain last_value
IsChain-append key n prev [] o h v k d = (omega (arith, v), k, d, tt)
IsChain-append key n prev (x ∷ os) o h v k d =
    (h.0, h.1, h.2, IsChain-append key (suc n) (some x.value) os o h.3 (omega (arith, v)) k d)

last_value-append :
    (prev : Option ℕ) (os : List ContextObject) (o : ContextObject)
    → last_value prev (os ++ o ∷ []) ≡ some o.value
unfolding last_value
last_value-append prev [] o = refl
last_value-append prev (x ∷ os) o = last_value-append (some x.value) os o

-- Of the values shown and the versions kept.
abbrev pub Agree : Dict ℕ → Dict (List ContextObject) → Type 0
Agree shown kept =
    (key : ℕ)
    → let os = get_or (lookup key kept) [] in
      IsChain key 1 none os × (last_value none os ≡ lookup key shown)

abbrev pub SnapshotAgrees : Snapshot → Type 0
SnapshotAgrees s = Agree s.readonly_data s.readonly_versions

pub record IsNumbered (c : RuntimeContext) : Type 0 where
  pub current : Agree c.readonly_data c.readonly_versions
  pub earlier : All SnapshotAgrees c.previous_versions

-- the readonly part of a context
abbrev pub Same : RuntimeContext → RuntimeContext → Type 0
Same c c' =
    (c'.readonly_data ≡ c.readonly_data)
    × (c'.readonly_versions ≡ c.readonly_versions)
    × (c'.previous_versions ≡ c.previous_versions)
    × (c'.updated_at ≡ c.updated_at)

IsNumbered-Same : (c c' : RuntimeContext) → Same c c' → IsNumbered c → IsNumbered c'
IsNumbered-Same c c' s h = record { current = rw (s.0, s.1) h.current; earlier = rw s.2 h.earlier }

pub Same-shared : (d : Option Payload) (c : RuntimeContext) → Same c (write_shared d c)
unfolding write_shared
Same-shared none c = (refl, refl, refl, refl)
Same-shared (some d) c = elim (Bool-cases c.compressed) [
  | inl e ↦ rw (write_shared, e) (refl, refl, refl, refl)
  | inr e ↦ rw (write_shared, e) (refl, refl, refl, refl)
]

pub Same-private :
    (agent : ℕ) (d : Option Payload) (c : RuntimeContext) → Same c (write_private agent d c)
unfolding write_private
Same-private agent none c = (refl, refl, refl, refl)
Same-private agent (some d) c = elim (Bool-cases c.compressed) [
  | inl e ↦ rw (write_private, e) (refl, refl, refl, refl)
  | inr e ↦ rw (write_private, e) (refl, refl, refl, refl)
]

differs-holds :
    (key value : ℕ) (d : Dict ℕ) → holds key value d ≡ false → differs (lookup key d) value ≡ true
differs-holds key value d h = elim (Option-cases (lookup key d)) [
  | inl e ↦ rw e refl
  | inr (v, e) ↦ rw e (ground (arith, e, h))
]

-- Writing what is there already changes nothing.
Agree-kept :
    (key : ℕ) (shown : Dict ℕ) (kept : Dict (List ContextObject))
    → Agree shown kept
    → Agree shown (insert key (get_or (lookup key kept) []) kept)
Agree-kept key shown kept h j = elim (Bool-cases (key == j)) [
  | inl e ↦ rw (lookup-insert key j, e) (rw ((==_iff key j).0 e) (h j))
  | inr e ↦ rw (lookup-insert key j, e) (h j)
]

Agree-new :
    (key : ℕ) (o : ContextObject) (shown : Dict ℕ) (kept : Dict (List ContextObject))
    → Agree shown kept
    → o.version ≡ length (get_or (lookup key kept) []) + 1
    → o.key ≡ key
    → differs (lookup key shown) o.value ≡ true
    → Agree (insert key o.value shown) (insert key (get_or (lookup key kept) [] ++ o ∷ []) kept)
Agree-new key o shown kept h v k d j = elim (Bool-cases (key == j)) [
  | inl e ↦
      rw (lookup-insert key j _ kept, lookup-insert key j _ shown, e)
        (rw (← (==_iff key j).0 e) (
          IsChain-append key 1 none _ o (h key).0 (omega (arith, v)) k (rw (h key).1 d),
          last_value-append none _ o,
        ))
  | inr e ↦ rw (lookup-insert key j _ kept, lookup-insert key j _ shown, e) (h j)
]

write_entry-IsNumbered :
    (now agent key value : ℕ) (c : RuntimeContext) (changes : Dict Change)
    → IsNumbered c
    → IsNumbered (write_entry now agent key value (c, changes)).0
unfolding write_entry
write_entry-IsNumbered now agent key value c changes h =
    elim (Bool-cases (holds key value c.readonly_data)) [
      | inl e ↦
          rw (write_entry, e)
            (record { current = Agree-kept key _ _ h.current; earlier = h.earlier })
      | inr e ↦
          rw (write_entry, e)
            (record {
              current =
                  Agree-new key
                    (context_object now agent key value (length (versions_of key c) + 1)) _ _
                    h.current refl refl (differs-holds key value c.readonly_data e);
              earlier = h.earlier;
            })
    ]

write_entries-IsNumbered :
    (now agent : ℕ) (d : Dict ℕ) (r : RuntimeContext × Dict Change)
    → IsNumbered r.0
    → IsNumbered (write_entries now agent d r).0
unfolding write_entries
write_entries-IsNumbered now agent [] r h = h
write_entries-IsNumbered now agent ((key, value) ∷ d) r h =
    write_entries-IsNumbered now agent d _ (write_entry-IsNumbered now agent key value r.0 r.1 h)

write_readonly-IsNumbered :
    (now agent : ℕ) (d : Option (Dict ℕ)) (c : RuntimeContext)
    → IsNumbered c
    → IsNumbered (write_readonly now agent d c).0
unfolding write_readonly
write_readonly-IsNumbered now agent none c h = h
write_readonly-IsNumbered now agent (some d) c h =
    let h' = write_entries-IsNumbered now agent d (c, []) h in
    record { current = h'.current; earlier = h'.earlier }

write-IsNumbered :
    (now : ℕ) (p : Patch) (c : RuntimeContext) → IsNumbered c → IsNumbered (write now p c)
unfolding write
write-IsNumbered now p c h =
    let c1 : RuntimeContext = write_shared (content p.shared_data) c in
    let h1 : IsNumbered c1 = IsNumbered-Same c c1 (Same-shared (content p.shared_data) c) h in
    let c2 : RuntimeContext = write_private p.agent_name p.private_data c1 in
    let h2 : IsNumbered c2 =
      IsNumbered-Same c1 c2 (Same-private p.agent_name p.private_data c1) h1 in
    let h3 = write_readonly-IsNumbered now p.agent_name (content p.readonly_data) c2 h2 in
    record { current = h3.current; earlier = h3.earlier }

compress-IsNumbered : (t : Texts) (c : RuntimeContext) → IsNumbered c → IsNumbered (compress t c)
unfolding compress
compress-IsNumbered t c h = record {
  current = h.current;
  earlier =
      All-append SnapshotAgrees c.previous_versions (snapshot c ∷ []) h.earlier (h.current, tt);
}

recorded-IsNumbered :
    (t : Texts) (threshold now : ℕ) (p : Patch) (c : RuntimeContext)
    → IsNumbered c
    → IsNumbered (recorded t threshold now p c).1
unfolding recorded compress_if_needed
recorded-IsNumbered t threshold now p c h =
    let c' : RuntimeContext = summarised (write now p c) in
    let w = write-IsNumbered now p c h in
    let h' : IsNumbered c' = record { current = w.current; earlier = w.earlier } in
    let z = compress-IsNumbered t c' h' in
    elim (Bool-cases (leb (content_size t c') threshold)) [
      | inl e ↦
          rw (recorded, compress_if_needed, e) (record { current = w.current; earlier = w.earlier })
      | inr e ↦
          rw (recorded, compress_if_needed, e) (record { current = z.current; earlier = z.earlier })
    ]

rollback-IsNumbered : (t : Texts) (c : RuntimeContext) → IsNumbered c → IsNumbered (rollback t c).1
unfolding rollback
rollback-IsNumbered t c h = elim (Option-cases (pop_last c.previous_versions)) [
  | inl e ↦ rw (rollback, e) h
  | inr ((earlier, s), e) ↦
      let both : Popped SnapshotAgrees (some (earlier, s)) =
        subst (Popped SnapshotAgrees) e
          (pop_last-Popped SnapshotAgrees c.previous_versions h.earlier) in
      rw (rollback, e) (record { current = both.1; earlier = both.0 })
]

empty-Agree : Agree [] []
unfolding lookup IsChain last_value
empty-Agree key = (tt, refl)

IsNumbered-IsKept : (t : Texts) → IsKept t IsNumbered
IsNumbered-IsKept t = record {
  fresh = λ now id. record { current = empty-Agree; earlier = tt };
  reopened = λ now c h. record { current = h.current; earlier = h.earlier };
  record_kept = recorded-IsNumbered t;
  build_kept = λ u now elapsed c h. record { current = h.current; earlier = h.earlier };
  rollback_kept = rollback-IsNumbered t;
}

-- Whatever operations are run on a new manager, evictions, compressions and rollbacks included, the
-- history of a readonly key is numbered 1, 2, ... without a gap, each entry is of that key, and its
-- value differs from the one before.
pub readonly_history-IsChain :
    (t : Texts) (threshold most ttl : ℕ) (os : List Op) (id key : ℕ)
    → IsChain key 1 none (readonly_history id key (run t os (new_manager threshold most ttl)))
unfolding readonly_history
readonly_history-IsChain t threshold most ttl os id key =
    let m : Manager = run t os (new_manager threshold most ttl) in
    let all : Stored IsNumbered m.contexts =
      run-Stored t IsNumbered (IsNumbered-IsKept t) os (new_manager threshold most ttl)
        (unfold Stored in tt) in
    elim (Option-cases (lookup id m.contexts)) [
      | inl e ↦ rw (readonly_history, e) (unfold IsChain in tt)
      | inr (c, e) ↦
          rw (readonly_history, e) ((Stored-lookup IsNumbered id c m.contexts all e).current key).0
    ]
