-- ===== src/Resource/Books.antt =====
-- Every operation of the monitor keeps its books balanced, and a denied request changes nothing.
use agent_runtime.Resource.Sums.{sum, sum-insert, get_index-free}
use agent_runtime.Resource.Slots.{Took, take_slots-Took, release_llm_times-Gave}
use agent_runtime.Prelude.Dict.{lookup, insert}
use agent_runtime.Resource.Balance.{
  IsBalanced, granted-IsBalanced, empty-IsBalanced, keyed-insert, slots_of, slots, uses,
}
use agent_runtime.Prelude.{
  inl, some, inr, ◌≡◌, none, ℕ, Option, arith, Bool, ◌+◌, max, ◌≤◌, Bool-cases, ltb, [], refl, ◌∷◌,
  Option-cases,
}
use agent_runtime.Resource.Types.{
  Amounts, ResourceLease, get, llm_concurrency, Distinct, release_lease, active,
}
use agent_runtime.Resource.Monitor.{
  Monitor, Probe, acquire, can_allocate, acquire_slots, first_over, new_lease, llm_count,
  store_lease, use_amounts, take_slots, release_active, free_amounts,
}

pub under_quota :
    (p : Probe) (amounts : Amounts) (m : Monitor)
    → can_allocate p amounts m ≡ none
    → first_over amounts m ≡ none
unfolding can_allocate
under_quota p amounts m h = ground arith

-- What `acquire` answers past the quota: a lease, with the slots taken, or nothing and no change.
pub data Answer (now fresh task agent : ℕ) (amounts : Amounts) (m : Monitor)
    : Option ResourceLease × Monitor → Type 0 where
  denied : Answer now fresh task agent amounts m (none, m)
  granted :
      (r : Bool × Monitor)
      → m.llm_total_concurrent + get llm_concurrency amounts ≤ m.llm_max_concurrent
      → Took (get llm_concurrency amounts) agent m r
      → Answer now fresh task agent amounts m (
        some (new_lease now fresh task agent amounts),
        record (store_lease (new_lease now fresh task agent amounts) r.1) {
          usage = use_amounts amounts r.1.usage;
        },
      )

pub acquire_slots-Answer :
    (now fresh task agent : ℕ) (amounts : Amounts) (m : Monitor)
    → Answer now fresh task agent amounts m (acquire_slots now fresh task agent amounts m)
unfolding acquire_slots
acquire_slots-Answer now fresh task agent amounts m =
    let n = get llm_concurrency amounts in
    let limit = max n 1 in
    elim (Bool-cases (ltb limit (llm_count agent m + n))) [
      | inl e ↦ rw e denied
      | inr e ↦ elim (Bool-cases (ltb m.llm_max_concurrent (m.llm_total_concurrent + n))) [
        | inl f ↦ rw (e, f) denied
        | inr f ↦
            let fits : m.llm_total_concurrent + n ≤ m.llm_max_concurrent = ground arith in
            let took = take_slots-Took n 0 agent limit m (ground arith) fits in
            rw (e, f, took.taken) (granted (take_slots n 0 agent limit m) fits took)
      ]
    ]

module _ {now fresh task agent : ℕ} {amounts : Amounts} {m : Monitor} where
  Answer-denied :
      {r : Option ResourceLease × Monitor}
      → Answer now fresh task agent amounts m r
      → r.0 ≡ none
      → r.1 ≡ m
  Answer-denied denied h = refl
  Answer-denied (granted r fits took) h = absurd (cc)

  Answer-IsBalanced :
      {r : Option ResourceLease × Monitor}
      → Answer now fresh task agent amounts m r
      → IsBalanced m
      → lookup fresh m.leases ≡ none
      → Distinct amounts
      → first_over amounts m ≡ none
      → IsBalanced r.1
  Answer-IsBalanced denied h new d under = h
  Answer-IsBalanced (granted r fits took) h new d under =
      granted-IsBalanced now fresh task agent amounts m r h new d fits under took

-- A request that is denied leaves the monitor as it was: the slots taken before a refusal never
-- have to be given back, since the two tests before the loop rule a refusal out.
pub acquire_denied :
    (p : Probe) (now fresh task agent : ℕ) (amounts : Amounts) (m : Monitor)
    → (acquire p now fresh task agent amounts m).0 ≡ none
    → (acquire p now fresh task agent amounts m).1 ≡ m
unfolding acquire
acquire_denied p now fresh task agent [] m h = absurd (cc)
acquire_denied p now fresh task agent (a ∷ amounts) m h =
    elim (Option-cases (can_allocate p (a ∷ amounts) m)) [
      | inl e ↦
          rw e
            (Answer-denied (acquire_slots-Answer now fresh task agent (a ∷ amounts) m) (rw e at h))
      | inr (d, e) ↦ rw e refl
    ]

pub acquire-IsBalanced :
    (p : Probe) (now fresh task agent : ℕ) (amounts : Amounts) (m : Monitor)
    → IsBalanced m
    → lookup fresh m.leases ≡ none
    → Distinct amounts
    → IsBalanced (acquire p now fresh task agent amounts m).1
unfolding acquire
acquire-IsBalanced p now fresh task agent [] m h new d =
    empty-IsBalanced now fresh task agent m h new
acquire-IsBalanced p now fresh task agent (a ∷ amounts) m h new d =
    elim (Option-cases (can_allocate p (a ∷ amounts) m)) [
      | inl e ↦ rw e (
          Answer-IsBalanced (acquire_slots-Answer now fresh task agent (a ∷ amounts) m) h new d
            (under_quota p (a ∷ amounts) m e))
      | inr (d, e) ↦ rw e h
    ]

pub replaced :
    (f : ResourceLease → ℕ) (l l' : ResourceLease) (m : Monitor)
    → lookup l.lease_id m.leases ≡ some l
    → sum f (insert l.lease_id l' m.leases) + f l ≡ sum f m.leases + f l'
replaced f l l' m e = ground (arith, sum-insert f l.lease_id l' m.leases)

pub release_active-IsBalanced :
    (now : ℕ) (l : ResourceLease) (m : Monitor)
    → IsBalanced m
    → lookup l.lease_id m.leases ≡ some l
    → l.status ≡ active
    → IsBalanced (release_active now l m)
unfolding release_active release_lease
release_active-IsBalanced now l m h e on =
    let n = get llm_concurrency l.request in
    let m' : Monitor = record m { usage = free_amounts l.request m.usage } in
    let gave = release_llm_times-Gave n l.agent_name m' in
    let d = (h.keyed l.lease_id l e).1 in
    let l' = release_lease now l in
    record {
      keyed = rw gave.same.leases (keyed-insert m l' h d);
      counts = λ a.
          rw gave.same.leases
            (ground (arith, gave.count a, h.counts a, replaced (slots_of a) l l' m e));
      total = rw gave.same.leases (ground (arith, gave.total, h.total, replaced slots l l' m e));
      used = λ c.
          rw (gave.same.leases, gave.same.usage)
            (ground
              (arith, get_index-free c l.request m.usage d, h.used c, replaced (uses c) l l' m e));
      slots_bound = omega (arith, gave.total, gave.same.most, h.slots_bound);
      quota_bound = λ c.
          rw (gave.same.quota, gave.same.usage, get_index-free c l.request m.usage d)
            (ground (arith, h.quota_bound c));
    }
