-- ===== src/Context/Merging.antt =====
-- What an agent is shown after a record, before any compression of it.
use agent_runtime.Context.Lists.{IsDistinct, lookup-member, update-IsDistinct}
use agent_runtime.Prelude.{
  ℕ, false, Option, none, some, [], ◌∷◌, ◌≡◌, refl, arith, ◌∙◌, Bool-cases, inl, inr, ◌==◌, ==_iff,
  is_some, sym,
}
use agent_runtime.Prelude.Dict.{Dict, lookup, insert, lookup-insert, keys, lookup-insert_self}
use agent_runtime.Context.Data.{RuntimeContext, Payload, Change}
use agent_runtime.Context.Views.{update, merged_shared, private_view, payload_of}
use agent_runtime.Context.Recording.{
  write_shared, write_private, write_readonly, write_entries, write_entry, holds,
}

abbrev pub or_else {ℓ} : {A : Type ℓ} → Option A → Option A → Option A
or_else none o = o
or_else (some a) o = some a

is_some-none {ℓ} : {A : Type ℓ} (o : Option A) → is_some o ≡ false → o ≡ none
is_some-none none h = refl
is_some-none (some a) h = absurd (ground (arith, h))

or_else_assoc {ℓ} :
    {A : Type ℓ} (a b c : Option A) → or_else a (or_else b c) ≡ or_else (or_else a b) c
or_else_assoc none b c = refl
or_else_assoc (some x) b c = refl

-- The dictionary that is laid over another has no key twice.
lookup-update {ℓ} :
    {V : Type ℓ} (k : ℕ) (d e : Dict V)
    → IsDistinct (keys e)
    → lookup k (update d e) ≡ or_else (lookup k e) (lookup k d)
unfolding lookup update keys
lookup-update k d [] h = refl
lookup-update k d ((j, v) ∷ e) h =
    rw (lookup-update k (insert j v d) e h.1, lookup-insert j k v d)
      (elim (Bool-cases (j == k)) [
        | inl s ↦
            let gone : is_some (lookup k e) ≡ false =
              rw (lookup-member k e, ← (==_iff j k).0 s) h.0 in
            rw (s, is_some-none (lookup k e) gone) refl
        | inr s ↦ rw s refl
      ])

pub lookup-update_last {ℓ} :
    {V : Type ℓ} (k : ℕ) (d e : Dict V)
    → lookup k (update d e) ≡ or_else (lookup k (update [] e)) (lookup k d)
unfolding lookup update
lookup-update_last k d [] = refl
lookup-update_last k d ((j, v) ∷ e) =
    rw
      (lookup-update_last k (insert j v d) e, lookup-update_last k (insert j v []) e, lookup-insert)
      (ground arith)

-- A dictionary that is written on top of a merged one, and one that is merged after it was written.
lookup-update-update {ℓ} :
    {V : Type ℓ} (k : ℕ) (base delta d : Dict V)
    → IsDistinct (keys delta)
    → lookup k (update base (update delta d))
      ≡ or_else (lookup k (update [] d)) (lookup k (update base delta))
lookup-update-update k base delta d h =
    rw
      (
        lookup-update k base (update delta d) (update-IsDistinct delta d h),
        lookup-update_last k delta d,
        lookup-update k base delta h,
      )
      (sym (or_else_assoc (lookup k (update [] d)) (lookup k delta) (lookup k base)))

-- Nothing is laid over a context before its first compression, and no key stands twice in what is laid
-- over it afterwards.
pub record IsLayered (c : RuntimeContext) : Type 0 where
  pub bare_shared : c.compressed ≡ false → c.delta_shared_data ≡ []
  pub bare_private : c.compressed ≡ false → c.delta_private_data ≡ []
  pub distinct_shared : IsDistinct (keys c.delta_shared_data)
  pub distinct_private : (agent : ℕ) → IsDistinct (keys (payload_of agent c.delta_private_data))

-- the parts of a context that agents share or keep to themselves
abbrev pub SameParts : RuntimeContext → RuntimeContext → Type 0
SameParts c c' =
    (c'.shared_data ≡ c.shared_data)
    × (c'.delta_shared_data ≡ c.delta_shared_data)
    × (c'.private_data ≡ c.private_data)
    × (c'.delta_private_data ≡ c.delta_private_data)
    × (c'.compressed ≡ c.compressed)
    × (c'.previous_versions ≡ c.previous_versions)
    × (c'.updated_at ≡ c.updated_at)

write_entry-SameParts :
    (now agent key value : ℕ) (c : RuntimeContext) (changes : Dict Change)
    → SameParts c (write_entry now agent key value (c, changes)).0
unfolding write_entry
write_entry-SameParts now agent key value c changes =
    elim (Bool-cases (holds key value c.readonly_data)) [
      | inl e ↦ rw (write_entry, e) (refl, refl, refl, refl, refl, refl, refl)
      | inr e ↦ rw (write_entry, e) (refl, refl, refl, refl, refl, refl, refl)
    ]

write_entries-SameParts :
    (now agent : ℕ) (d : Dict ℕ) (c : RuntimeContext) (changes : Dict Change)
    → SameParts c (write_entries now agent d (c, changes)).0
unfolding write_entries
write_entries-SameParts now agent [] c changes = (refl, refl, refl, refl, refl, refl, refl)
write_entries-SameParts now agent ((key, value) ∷ d) c changes =
    let first = write_entry-SameParts now agent key value c changes in
    let w = write_entry now agent key value (c, changes) in
    let rest = write_entries-SameParts now agent d w.0 w.1 in
    (
      rest.0 ∙ first.0,
      rest.1 ∙ first.1,
      rest.2 ∙ first.2,
      rest.3 ∙ first.3,
      rest.4 ∙ first.4,
      rest.5 ∙ first.5,
      rest.6 ∙ first.6,
    )

pub write_readonly-SameParts :
    (now agent : ℕ) (d : Option (Dict ℕ)) (c : RuntimeContext)
    → SameParts c (write_readonly now agent d c).0
unfolding write_readonly
write_readonly-SameParts now agent none c = (refl, refl, refl, refl, refl, refl, refl)
write_readonly-SameParts now agent (some d) c = write_entries-SameParts now agent d c []

pub shared-SameParts : (c c' : RuntimeContext) → SameParts c c' → merged_shared c' ≡ merged_shared c
unfolding merged_shared
shared-SameParts c c' s = rw (s.0, s.1) refl

pub view-SameParts :
    (agent : ℕ) (c c' : RuntimeContext)
    → SameParts c c'
    → private_view agent c' ≡ private_view agent c
unfolding private_view
view-SameParts agent c c' s = rw (s.2, s.3) refl

pub shared-write_private :
    (agent : ℕ) (d : Option Payload) (c : RuntimeContext)
    → merged_shared (write_private agent d c) ≡ merged_shared c
unfolding merged_shared write_private
shared-write_private agent none c = refl
shared-write_private agent (some d) c = elim (Bool-cases c.compressed) [
  | inl e ↦ rw (write_private, e) refl
  | inr e ↦ rw (write_private, e) refl
]

-- the shared part that a record writes, as a dictionary
abbrev pub patched : Option Payload → Payload
patched none = []
patched (some d) = update [] d

pub lookup-write_shared :
    (k : ℕ) (d : Option Payload) (c : RuntimeContext)
    → IsLayered c
    → lookup k (merged_shared (write_shared d c))
      ≡ or_else (lookup k (patched d)) (lookup k (merged_shared c))
unfolding merged_shared write_shared lookup
lookup-write_shared k none c h = refl
lookup-write_shared k (some d) c h = elim (Bool-cases c.compressed) [
  | inl e ↦
      rw (write_shared, e)
        (lookup-update-update k c.shared_data c.delta_shared_data d h.distinct_shared)
  | inr e ↦ rw (write_shared, e, h.bare_shared e) (lookup-update_last k c.shared_data d)
]

-- A write of one agent, as each agent is shown it.
pub lookup-write_private :
    (k agent : ℕ) (d : Option Payload) (c : RuntimeContext)
    → IsLayered c
    → lookup k (private_view agent (write_private agent d c))
      ≡ or_else (lookup k (patched d)) (lookup k (private_view agent c))
unfolding private_view write_private lookup
lookup-write_private k agent none c h = refl
lookup-write_private k agent (some d) c h = elim (Bool-cases c.compressed) [
  | inl e ↦
      rw (write_private, e, lookup-insert_self)
        (lookup-update-update k _ _ d (h.distinct_private agent))
  | inr e ↦
      rw (write_private, e, h.bare_private e, lookup-insert_self)
        (lookup-update_last k (payload_of agent c.private_data) d)
]

pub view-write_private_other :
    (agent other : ℕ) (d : Option Payload) (c : RuntimeContext)
    → (agent == other) ≡ false
    → private_view other (write_private agent d c) ≡ private_view other c
unfolding private_view write_private
view-write_private_other agent other none c n = refl
view-write_private_other agent other (some d) c n = elim (Bool-cases c.compressed) [
  | inl e ↦ rw (write_private, e, lookup-insert agent other, n) refl
  | inr e ↦ rw (write_private, e, lookup-insert agent other, n) refl
]

pub view-write_shared :
    (agent : ℕ) (d : Option Payload) (c : RuntimeContext)
    → private_view agent (write_shared d c) ≡ private_view agent c
unfolding private_view write_shared
view-write_shared agent none c = refl
view-write_shared agent (some d) c = elim (Bool-cases c.compressed) [
  | inl e ↦ rw (write_shared, e) refl
  | inr e ↦ rw (write_shared, e) refl
]
