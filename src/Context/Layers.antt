-- ===== src/Context/Layers.antt =====
-- What an agent is shown after a record that does not compress, and that the layers of a context stay
-- in order over every operation.
use agent_runtime.Context.Runs.{run, Op}
use agent_runtime.Context.Stored.{IsKept, Stored, run-Stored, Stored-lookup}
use agent_runtime.Context.Snapshots.{Popped, pop_last-Popped}
use agent_runtime.Context.Versions.{Same-private, Same-shared}
use agent_runtime.Prelude.{
  ℕ, true, false, Option, none, some, List, [], ◌∷◌, ◌≡◌, refl, arith, ◌∙◌, ap, Bool-cases,
  Option-cases, inl, inr, ◌==◌, leb, All, All-append, subst,
}
use agent_runtime.Prelude.Dict.{Dict, lookup, lookup-insert, keys}
use agent_runtime.Context.Data.{RuntimeContext, Payload, Texts, Snapshot, new_context}
use agent_runtime.Context.Views.{merged_shared, private_view, payload_of}
use agent_runtime.Context.Recording.{
  Patch, write, write_shared, write_private, write_readonly, content, write_payload,
}
use agent_runtime.Context.Compress.{
  compress, compress_if_needed, content_size, rollback, pop_last, snapshot,
}
use agent_runtime.Context.Manager.{recorded, summarised, new_manager, Manager}
use agent_runtime.Context.Merging.{
  IsLayered, or_else, patched, SameParts, view-SameParts, shared-SameParts,
  write_readonly-SameParts, shared-write_private, lookup-write_shared, lookup-write_private,
  view-write_shared, view-write_private_other,
}
use agent_runtime.Context.Lists.{IsDistinct, update-IsDistinct}

module _ (c c' : RuntimeContext) where
  IsLayered-Same :
      (c'.compressed ≡ c.compressed)
      → (c'.delta_shared_data ≡ c.delta_shared_data)
      → (c'.delta_private_data ≡ c.delta_private_data)
      → IsLayered c
      → IsLayered c'
  IsLayered-Same k s p h = record {
    bare_shared = rw (k, s) h.bare_shared;
    bare_private = rw (k, p) h.bare_private;
    distinct_shared = rw s h.distinct_shared;
    distinct_private = rw p h.distinct_private;
  }

write_shared-IsLayered :
    (d : Option Payload) (c : RuntimeContext) → IsLayered c → IsLayered (write_shared d c)
unfolding write_shared
write_shared-IsLayered none c h = h
write_shared-IsLayered (some d) c h = elim (Bool-cases c.compressed) [
  | inl e ↦
      rw (write_shared, e)
        (record {
          bare_shared = λ n. absurd (ground (arith, n));
          bare_private = λ n. absurd (ground (arith, n));
          distinct_shared = update-IsDistinct c.delta_shared_data d h.distinct_shared;
          distinct_private = h.distinct_private;
        })
  | inr e ↦
      rw (write_shared, e)
        (record {
          bare_shared = λ n. h.bare_shared e;
          bare_private = λ n. h.bare_private e;
          distinct_shared = h.distinct_shared;
          distinct_private = h.distinct_private;
        })
]

write_payload-IsDistinct :
    (agent : ℕ) (d : Payload) (table : Dict Payload)
    → ((other : ℕ) → IsDistinct (keys (payload_of other table)))
    → (other : ℕ) → IsDistinct (keys (payload_of other (write_payload agent d table)))
write_payload-IsDistinct agent d table h other = elim (Bool-cases (agent == other)) [
  | inl e ↦ rw (lookup-insert agent other, e) (update-IsDistinct _ d (h agent))
  | inr e ↦ rw (lookup-insert agent other, e) (h other)
]

write_private-IsLayered :
    (agent : ℕ) (d : Option Payload) (c : RuntimeContext)
    → IsLayered c
    → IsLayered (write_private agent d c)
unfolding write_private
write_private-IsLayered agent none c h = h
write_private-IsLayered agent (some d) c h = elim (Bool-cases c.compressed) [
  | inl e ↦
      rw (write_private, e)
        (record {
          bare_shared = λ n. absurd (ground (arith, n));
          bare_private = λ n. absurd (ground (arith, n));
          distinct_shared = h.distinct_shared;
          distinct_private =
              write_payload-IsDistinct agent d c.delta_private_data h.distinct_private;
        })
  | inr e ↦
      rw (write_private, e)
        (record {
          bare_shared = λ n. h.bare_shared e;
          bare_private = λ n. h.bare_private e;
          distinct_shared = h.distinct_shared;
          distinct_private = h.distinct_private;
        })
]

-- The three writes of a record, one after the other.
module _ (now : ℕ) (p : Patch) (c : RuntimeContext) where
  abbrev after_shared : RuntimeContext
  after_shared = write_shared (content p.shared_data) c

  abbrev after_private : RuntimeContext
  after_private = write_private p.agent_name p.private_data after_shared

  after_private-IsLayered : IsLayered c → IsLayered after_private
  after_private-IsLayered h =
      write_private-IsLayered p.agent_name p.private_data after_shared
        (write_shared-IsLayered (content p.shared_data) c h)

  readonly_same :
      SameParts after_private
        (write_readonly now p.agent_name (content p.readonly_data) after_private).0
  readonly_same = write_readonly-SameParts now p.agent_name (content p.readonly_data) after_private

  write-IsLayered : IsLayered c → IsLayered (write now p c)
  unfolding write
  write-IsLayered h =
      IsLayered-Same after_private (write now p c) readonly_same.4 readonly_same.1 readonly_same.3
        (after_private-IsLayered h)

  -- What is shown after the writes: the shared part with the patch laid over it, the agent's own part
  -- with its patch laid over it, and the part of every other agent as it was.
  abbrev pub Shown : RuntimeContext → Type 0
  Shown c' =
      ((k : ℕ)
        → lookup k (merged_shared c')
          ≡ or_else (lookup k (patched (content p.shared_data))) (lookup k (merged_shared c)))
      × ((k : ℕ)
          → lookup k (private_view p.agent_name c')
            ≡ or_else (lookup k (patched p.private_data)) (lookup k (private_view p.agent_name c)))
      × ((other : ℕ)
          → (p.agent_name == other) ≡ false
          → private_view other c' ≡ private_view other c)

  unwritten : SameParts after_private (write now p c)
  unfolding write
  unwritten = readonly_same

  view-write : (agent : ℕ) → private_view agent (write now p c) ≡ private_view agent after_private
  view-write agent = view-SameParts agent after_private (write now p c) unwritten

  previous-write : (write now p c).previous_versions ≡ c.previous_versions
  previous-write =
      unwritten.5
      ∙ (Same-private p.agent_name p.private_data after_shared).2
      ∙ (Same-shared (content p.shared_data) c).2

  pub updated_at-write : (write now p c).updated_at ≡ c.updated_at
  updated_at-write =
      unwritten.6
      ∙ (Same-private p.agent_name p.private_data after_shared).3
      ∙ (Same-shared (content p.shared_data) c).3

  write-Shown : IsLayered c → Shown (write now p c)
  write-Shown h = (
    λ k.
        ap (lookup k) (
          shared-SameParts after_private (write now p c) unwritten
          ∙ shared-write_private p.agent_name p.private_data after_shared)
        ∙ lookup-write_shared k (content p.shared_data) c h,
    λ k.
        ap (lookup k) (view-write p.agent_name)
        ∙ lookup-write_private k p.agent_name p.private_data after_shared
            (write_shared-IsLayered (content p.shared_data) c h)
        ∙ ap (λ v. or_else (lookup k (patched p.private_data)) (lookup k v))
            (view-write_shared p.agent_name (content p.shared_data) c),
    λ other n.
        view-write other
        ∙ view-write_private_other p.agent_name other p.private_data after_shared n
        ∙ view-write_shared other (content p.shared_data) c,
  )

pub compress-IsLayered : (t : Texts) (c : RuntimeContext) → IsLayered (compress t c)
unfolding compress
compress-IsLayered t c = record {
  bare_shared = λ n. refl;
  bare_private = λ n. refl;
  distinct_shared = unfold keys in tt;
  distinct_private = λ agent. unfold keys lookup in tt;
}

abbrev SnapshotLayered : Snapshot → Type 0
SnapshotLayered s =
    (s.compressed ≡ false → s.delta_shared_data ≡ [])
    × (s.compressed ≡ false → s.delta_private_data ≡ [])
    × IsDistinct (keys s.delta_shared_data)
    × ((agent : ℕ) → IsDistinct (keys (payload_of agent s.delta_private_data)))

abbrev pub IsWell : RuntimeContext → Type 0
IsWell c = IsLayered c × All SnapshotLayered c.previous_versions

module _ (t : Texts) (threshold now : ℕ) (p : Patch) (c : RuntimeContext) where
  recorded-Shown :
      IsLayered c
      → (recorded t threshold now p c).0 ≡ false
      → Shown now p c (recorded t threshold now p c).1
  unfolding recorded compress_if_needed merged_shared private_view
  recorded-Shown h kept =
      elim (Bool-cases (leb (content_size t (summarised (write now p c))) threshold)) [
        | inl e ↦ rw (recorded, compress_if_needed, e) (write-Shown now p c h)
        | inr e ↦
            let done : (recorded t threshold now p c).0 ≡ true =
              rw (recorded, compress_if_needed, e) refl in
            absurd (ground (arith, kept, done))
      ]

  recorded-IsWell : IsWell c → IsWell (recorded t threshold now p c).1
  unfolding recorded compress_if_needed
  recorded-IsWell h =
      let c' : RuntimeContext = summarised (write now p c) in
      let layered = write-IsLayered now p c h.0 in
      let earlier : All SnapshotLayered c'.previous_versions = rw (previous-write now p c) h.1 in
      let snap : SnapshotLayered (snapshot c') = (
        layered.bare_shared, layered.bare_private, layered.distinct_shared,
        layered.distinct_private,
      ) in
      let packed = compress-IsLayered t c' in
      elim (Bool-cases (leb (content_size t c') threshold)) [
        | inl e ↦
            rw (recorded, compress_if_needed, e)
              (IsLayered-Same (write now p c) _ refl refl refl layered, earlier)
        | inr e ↦
            rw (recorded, compress_if_needed, e)
              (
                IsLayered-Same (compress t c') _ refl refl refl packed,
                All-append SnapshotLayered c'.previous_versions (snapshot c' ∷ []) earlier
                    (snap, tt),
              )
      ]

rollback-IsWell : (t : Texts) (c : RuntimeContext) → IsWell c → IsWell (rollback t c).1
unfolding rollback
rollback-IsWell t c h = elim (Option-cases (pop_last c.previous_versions)) [
  | inl e ↦ rw (rollback, e) h
  | inr ((earlier, s), e) ↦
      let both : Popped SnapshotLayered (some (earlier, s)) =
        subst (Popped SnapshotLayered) e
          (pop_last-Popped SnapshotLayered c.previous_versions h.1) in
      rw (rollback, e)
        (
          record {
            bare_shared = both.1.0;
            bare_private = both.1.1;
            distinct_shared = both.1.2;
            distinct_private = both.1.3;
          },
          both.0,
        )
]

new-IsLayered : (now id : ℕ) → IsLayered (new_context now id)
new-IsLayered now id = record {
  bare_shared = λ n. refl;
  bare_private = λ n. refl;
  distinct_shared = unfold keys in tt;
  distinct_private = λ agent. unfold keys lookup in tt;
}

IsWell-IsKept : (t : Texts) → IsKept t IsWell
IsWell-IsKept t = record {
  fresh = λ now id. (new-IsLayered now id, tt);
  reopened = λ now c h. (IsLayered-Same c _ refl refl refl h.0, h.1);
  record_kept = recorded-IsWell t;
  build_kept = λ u now elapsed c h. (IsLayered-Same c _ refl refl refl h.0, h.1);
  rollback_kept = rollback-IsWell t;
}

run-IsLayered :
    (t : Texts) (threshold most ttl : ℕ) (os : List Op) (id : ℕ) (c : RuntimeContext)
    → lookup id (run t os (new_manager threshold most ttl)).contexts ≡ some c
    → IsLayered c
run-IsLayered t threshold most ttl os id c h =
    let m : Manager = run t os (new_manager threshold most ttl) in
    let all : Stored IsWell m.contexts =
      run-Stored t IsWell (IsWell-IsKept t) os (new_manager threshold most ttl)
        (unfold Stored in tt) in
    (Stored-lookup IsWell id c m.contexts all h).0

-- For a context that any run of a new manager left: a record that does not compress shows its shared
-- values over the earlier ones, its private values over the agent's earlier ones, and leaves the
-- private part of every other agent as it was.
pub run-Shown :
    (t : Texts) (threshold most ttl : ℕ) (os : List Op) (id : ℕ) (c : RuntimeContext) (now : ℕ)
    (p : Patch)
    → lookup id (run t os (new_manager threshold most ttl)).contexts ≡ some c
    → (recorded t threshold now p c).0 ≡ false
    → Shown now p c (recorded t threshold now p c).1
run-Shown t threshold most ttl os id c now p h kept =
    recorded-Shown t threshold now p c (run-IsLayered t threshold most ttl os id c h) kept
