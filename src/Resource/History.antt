-- ===== src/Resource/History.antt =====
-- The books over every history of requests, releases and reclaims.
use agent_runtime.Resource.Sums.{sum-insert}
use agent_runtime.Resource.Books.{acquire-IsBalanced, release_active-IsBalanced}
use agent_runtime.Resource.Balance.{IsBalanced, keyed-insert, slots_of, slots, uses}
use agent_runtime.Prelude.Dict.{lookup, lookup-insert_self}
use agent_runtime.Prelude.{◌≡◌, none, refl, some, ℕ, Option, List, get_or, some_inj, arith, ap, ◌∙◌}
use agent_runtime.Resource.Types.{
  Amounts, ResourceLease, active, from_dict, released, reclaim_lease, LeaseStatus, RequestKey,
  from_dict-Distinct, Distinct, RequestValue, release_lease,
}
use agent_runtime.Resource.Monitor.{
  Monitor, Probe, Handle, acquire, release, reclaim, release_found, reclaim_found, lease_object,
  text, llm_count, lease_of_task, nothing, release_active, release_by,
}

release_found-IsBalanced :
    (now : ℕ) (o : Option ResourceLease) (m : Monitor)
    → IsBalanced m
    → ((l : ResourceLease) → o ≡ some l → lookup l.lease_id m.leases ≡ some l)
    → IsBalanced (release_found now o m)
unfolding release_found
release_found-IsBalanced now none m h there = h
release_found-IsBalanced now (some l) m h there = go l.status refl
  where
    go : (s : LeaseStatus) → l.status ≡ s → IsBalanced (release_by s now l m)
    go active e = release_active-IsBalanced now l m h (there l refl) e
    go released e = h

found_own :
    (m : Monitor) (id : ℕ)
    → IsBalanced m
    → (l : ResourceLease) → lookup id m.leases ≡ some l
    → lookup l.lease_id m.leases ≡ some l
found_own m id h l e = ap (λ k. lookup k m.leases) (h.keyed id l e).0 ∙ e

pub release-IsBalanced :
    (now : ℕ) (handle : Handle) (m : Monitor) → IsBalanced m → IsBalanced (release now handle m)
unfolding release
release-IsBalanced now nothing m h = h
release-IsBalanced now (lease_object id) m h =
    release_found-IsBalanced now (lookup id m.leases) m h (found_own m id h)
release-IsBalanced now (text id) m h =
    release_found-IsBalanced now (lookup (get_or (lookup id m.task_leases) id) m.leases) m h
      (found_own m (get_or (lookup id m.task_leases) id) h)

-- The lease that a release found is in the table afterwards, released.
release_found-lookup :
    (now : ℕ) (l : ResourceLease) (m : Monitor)
    → lookup l.lease_id m.leases ≡ some l
    → (l' : ResourceLease) × (lookup l.lease_id (release_found now (some l) m).leases ≡ some l')
      × (l'.status ≡ released)
unfolding release_found
release_found-lookup now l m e = go l.status refl
  where
    go :
        (s : LeaseStatus)
        → l.status ≡ s
        → (l' : ResourceLease) × (lookup l.lease_id (release_by s now l m).leases ≡ some l')
          × (l'.status ≡ released)
    go active on = (
      release_lease now l,
      unfold release_active in lookup-insert_self l.lease_id (release_lease now l) _,
      unfold release_lease in refl,
    )
    go released off = (l, e, off)

reclaim_found-IsBalanced :
    (now reason : ℕ) (l l' : ResourceLease) (m : Monitor)
    → IsBalanced m
    → lookup l.lease_id m.leases ≡ some l'
    → l'.status ≡ released
    → Distinct l.request
    → IsBalanced (reclaim_found now reason (some l) m)
unfolding reclaim_found reclaim_lease llm_count
reclaim_found-IsBalanced now reason l l' m h e off d =
    let k = reclaim_lease now reason l in
    record {
      keyed = keyed-insert m k h d;
      counts = λ a. ground (arith, h.counts a, sum-insert (slots_of a) l.lease_id k m.leases);
      total = ground (arith, h.total, sum-insert slots l.lease_id k m.leases);
      used = λ c. ground (arith, h.used c, sum-insert (uses c) l.lease_id k m.leases);
      slots_bound = h.slots_bound;
      quota_bound = h.quota_bound;
    }

pub reclaim-IsBalanced :
    (now task reason : ℕ) (m : Monitor) → IsBalanced m → IsBalanced (reclaim now task reason m)
unfolding reclaim
reclaim-IsBalanced now task reason m h = go (lease_of_task task m) refl
  where
    go :
        (o : Option ResourceLease)
        → lease_of_task task m ≡ o
        → IsBalanced (reclaim_found now reason o (release_found now o m))
    go none e = unfold reclaim_found release_found in h
    go (some l) e =
        let own = found_own m (get_or (lookup task m.task_leases) 0) h l e in
        let (l', there, off) = release_found-lookup now l m own in
        reclaim_found-IsBalanced now reason l l' (release_found now (some l) m)
          (release_found-IsBalanced now (some l) m h (λ k p. rw (← some_inj p) own)) there off
          (h.keyed l.lease_id l own).1

-- An operation of the monitor, the readings and the new identifier included.
pub data Op : Type 0 where
  ask : Probe → ℕ → ℕ → ℕ → ℕ → Amounts → Op
  give_back : ℕ → Handle → Op
  take_back : ℕ → ℕ → ℕ → Op

pub apply : Op → Monitor → Monitor
apply (ask p now fresh task agent amounts) m = (acquire p now fresh task agent amounts m).1
apply (give_back now handle) m = release now handle m
apply (take_back now task reason) m = reclaim now task reason m

-- A request is made from a dictionary, whose numbers are whole and not negative.
abbrev pub IsRequest : Amounts → Type 0
IsRequest amounts = (items : List (RequestKey × RequestValue)) × (from_dict items ≡ some amounts)

-- The identifier of a new lease is in no use (`uuid4`), and what is asked for is a request.
abbrev pub IsFresh : Op → Monitor → Type 0
IsFresh (ask p now fresh task agent amounts) m = (lookup fresh m.leases ≡ none) × IsRequest amounts
IsFresh _ m = Unit

-- The monitors that histories with fresh identifiers lead to.
pub data Reach (m : Monitor) : Monitor → Type 0 where
  here : Reach m m
  next : {m' : Monitor} (o : Op) → Reach m m' → IsFresh o m' → Reach m (apply o m')

apply-IsBalanced : (o : Op) (m : Monitor) → IsBalanced m → IsFresh o m → IsBalanced (apply o m)
unfolding apply
apply-IsBalanced (ask p now fresh task agent amounts) m h (new, (items, e)) =
    acquire-IsBalanced p now fresh task agent amounts m h new (from_dict-Distinct items amounts e)
apply-IsBalanced (give_back now handle) m h new = release-IsBalanced now handle m h
apply-IsBalanced (take_back now task reason) m h new = reclaim-IsBalanced now task reason m h

-- In every monitor that a history leads to from a balanced one, of requests for amounts that are whole
-- numbers and not negative, releases (of the same lease twice, of unknown identifiers) and reclaims, with
-- fresh identifiers for new leases:
-- each agent's slots and their total are those of the active leases, the usage of each class is
-- the sum of what the active leases asked for, the total of slots is within the limit, and the
-- usage of each class with a quota is within it.
pub books_balance : {m m' : Monitor} → Reach m m' → IsBalanced m → IsBalanced m'
books_balance here h = h
books_balance (next {m' = m'} o r new) h = apply-IsBalanced o m' (books_balance r h) new
