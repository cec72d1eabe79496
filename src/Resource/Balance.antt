-- ===== src/Resource/Balance.antt =====
-- The books of the monitor balance: slots and usage are those of the active leases, and within
-- their limits.
use agent_runtime.Resource.Slots.{Took}
use agent_runtime.Resource.Sums.{sum, sum-insert, get_index-use, first_over-fits, absent}
use agent_runtime.Prelude.Dict.{lookup, Dict, insert, lookup-insert, has}
use agent_runtime.Prelude.{
  [], none, inr, some, ◌≡◌, inl, ℕ, if◌then◌else◌, ◌==◌, arith, ◌≤◌, ◌+◌, Bool-cases, ◌⊎◌, ==_iff,
  some_inj, Bool, refl,
}
use agent_runtime.Resource.Types.{
  Amounts, ResourceLease, LeaseStatus, Distinct, get, get_index, active, llm_concurrency, released,
}
use agent_runtime.Resource.Monitor.{
  Monitor, new_monitor, store_lease, llm_count, new_lease, QuotaSettings, first_over, use_amounts,
}

abbrev if_active : LeaseStatus → ℕ → ℕ
if_active active n = n
if_active released n = 0

-- the slots, and the amount of a class, that a lease holds while it is active
abbrev pub slots : ResourceLease → ℕ
slots l = if_active l.status (get llm_concurrency l.request)

abbrev pub slots_of : ℕ → ResourceLease → ℕ
slots_of a l = if l.agent_name == a then slots l else 0

abbrev pub uses : ℕ → ResourceLease → ℕ
uses c l = if_active l.status (get_index c l.request)

pub record IsBalanced (m : Monitor) : Type 0 where
  pub keyed :
      (id : ℕ) (l : ResourceLease)
      → lookup id m.leases ≡ some l
      → (l.lease_id ≡ id) × Distinct l.request
  pub counts : (a : ℕ) → llm_count a m ≡ sum (slots_of a) m.leases
  pub total : m.llm_total_concurrent ≡ sum slots m.leases
  pub used : (c : ℕ) → get_index c m.usage ≡ sum (uses c) m.leases
  pub slots_bound : m.llm_total_concurrent ≤ m.llm_max_concurrent
  pub quota_bound :
      (c : ℕ) → (get_index c m.quota ≡ 0) ⊎ (get_index c m.usage ≤ get_index c m.quota)

-- A monitor that has given no lease is balanced.
pub new-IsBalanced :
    (cpu mem most : ℕ) (settings : QuotaSettings) → IsBalanced (new_monitor cpu mem most settings)
unfolding new_monitor llm_count lookup sum get_index
new-IsBalanced cpu mem most settings = record {
  keyed = λ id l e. absurd (cc);
  counts = λ a. refl;
  total = refl;
  used = λ c. refl;
  slots_bound = omega arith;
  quota_bound = λ c. inr (omega arith);
}

sum-fresh :
    (f : ResourceLease → ℕ) (id : ℕ) (l : ResourceLease) (d : Dict ResourceLease)
    → lookup id d ≡ none
    → sum f (insert id l d) ≡ sum f d + f l
sum-fresh f id l d h = ground (arith, sum-insert f id l d)

pub keyed-insert :
    (m : Monitor) (l : ResourceLease)
    → IsBalanced m
    → Distinct l.request
    → (id : ℕ) (k : ResourceLease) → lookup id (insert l.lease_id l m.leases) ≡ some k
    → (k.lease_id ≡ id) × Distinct k.request
keyed-insert m l h d id k e = elim (Bool-cases (l.lease_id == id)) [
  | inl same ↦
      let e' : some l ≡ some k = rw (lookup-insert l.lease_id id l m.leases, same) at e in
      let p : l ≡ k = some_inj e' in (rw (← p) ((==_iff l.lease_id id).0 same), rw (← p) d)
  | inr other ↦ h.keyed id k (rw (lookup-insert l.lease_id id l m.leases, other) at e)
]

-- A lease of an empty request holds nothing.
pub empty-IsBalanced :
    (now fresh task agent : ℕ) (m : Monitor)
    → IsBalanced m
    → lookup fresh m.leases ≡ none
    → IsBalanced (store_lease (new_lease now fresh task agent []) m)
unfolding store_lease new_lease get get_index lookup llm_count
empty-IsBalanced now fresh task agent m h new =
    let l = new_lease now fresh task agent [] in
    record {
      keyed = keyed-insert m l h tt;
      counts = λ a. ground (arith, h.counts a, sum-fresh (slots_of a) fresh l m.leases new);
      total = omega (arith, h.total, sum-fresh slots fresh l m.leases new);
      used = λ c. omega (arith, h.used c, sum-fresh (uses c) fresh l m.leases new);
      slots_bound = h.slots_bound;
      quota_bound = h.quota_bound;
    }

-- A lease that fits the limits on slots and the quotas.
pub granted-IsBalanced :
    (now fresh task agent : ℕ) (amounts : Amounts) (m : Monitor) (r : Bool × Monitor)
    → IsBalanced m
    → lookup fresh m.leases ≡ none
    → Distinct amounts
    → m.llm_total_concurrent + get llm_concurrency amounts ≤ m.llm_max_concurrent
    → first_over amounts m ≡ none
    → Took (get llm_concurrency amounts) agent m r
    → IsBalanced (record (store_lease (new_lease now fresh task agent amounts) r.1) {
      usage = use_amounts amounts r.1.usage;
    })
unfolding store_lease new_lease llm_count
granted-IsBalanced now fresh task agent amounts m r h new d fits under took =
    let l = new_lease now fresh task agent amounts in
    let usage : (c : ℕ)
        → get_index c (use_amounts amounts r.1.usage) ≡ get_index c m.usage + get_index c amounts =
      λ c. rw took.same.usage (get_index-use c amounts m.usage d) in
    record {
      keyed = rw took.same.leases (keyed-insert m l h d);
      counts = λ a.
          rw took.same.leases
            (ground (arith, took.count a, h.counts a, sum-fresh (slots_of a) fresh l m.leases new));
      total =
          rw took.same.leases
            (omega (arith, took.total, h.total, sum-fresh slots fresh l m.leases new));
      used = λ c.
          rw took.same.leases
            (omega (arith, usage c, h.used c, sum-fresh (uses c) fresh l m.leases new));
      slots_bound = omega (arith, took.total, took.same.most);
      quota_bound = λ c.
          rw (took.same.quota, usage c)
            (elim (Bool-cases (has c amounts)) [
              | inl there ↦ first_over-fits c amounts m under there d
              | inr missing ↦ ground (arith, absent c amounts missing, h.quota_bound c)
            ]);
    }
