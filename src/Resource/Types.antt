-- ===== src/Resource/Types.antt =====
-- aruntime/resource/types.py. A dictionary over the resource classes has the class's index for a key. Amounts
-- are whole numbers that are not negative (bytes, tokens, slots): the code takes any number, and `from_dict`
-- has no answer here for a request that asks for a negative or fractional amount.
use agent_runtime.Prelude.{
  true, none, ◌≡◌, inr, refl, inl, some, false, [], ◌∷◌, ℕ, Option, List, get_or, ◌+◌, ◌-◌,
  if◌then◌else◌, Bool-cases, Option-cases, subst, some_inj, ◌==◌, arith,
}
use agent_runtime.Prelude.Dict.{Dict, lookup, insert, has, lookup-insert}

pub data ResourceClass : Type 0 where
  cpu memory llm_concurrency token tool kv_cache network : ResourceClass

abbrev pub class_index : ResourceClass → ℕ
class_index cpu = 0
class_index memory = 1
class_index llm_concurrency = 2
class_index token = 3
class_index tool = 4
class_index kv_cache = 5
class_index network = 6

abbrev pub Amounts : Type 0
Amounts = Dict ℕ

-- `get` of ResourceQuota, ResourceRequest and ResourceUsage
unfoldable pub get : ResourceClass → Amounts → ℕ
get c amounts = get_or (lookup (class_index c) amounts) 0

unfoldable pub get_index : ℕ → Amounts → ℕ
get_index c amounts = get_or (lookup c amounts) 0

-- The keys of the dictionary that a request is made from: the aliases, the names of the classes,
-- and any other.
pub data RequestKey : Type 0 where
  memory_max_bytes cpu_max llm_max_concurrent token_budget : RequestKey
  class_name : ResourceClass → RequestKey
  other_key : ℕ → RequestKey

-- A value of that dictionary: a whole number not below 0, a negative or fractional number, anything else.
pub data RequestValue : Type 0 where
  number : ℕ → RequestValue
  other_number not_number : RequestValue

abbrev class_of : RequestKey → Option ResourceClass
class_of memory_max_bytes = some memory
class_of cpu_max = some cpu
class_of llm_max_concurrent = some llm_concurrency
class_of token_budget = some token
class_of (class_name c) = some c
class_of (other_key k) = none

-- amounts[resource_class] = float(value)
put_number : RequestValue → Option ResourceClass → Amounts → Option Amounts
put_number (number n) (some c) amounts = some (insert (class_index c) n amounts)
put_number other_number (some c) amounts = none
put_number (number n) none amounts = some amounts
put_number other_number none amounts = some amounts
put_number not_number c amounts = some amounts

from_items : List (RequestKey × RequestValue) → Amounts → Option Amounts
from_items [] amounts = some amounts
from_items ((k, v) ∷ rest) amounts = elim (put_number v (class_of k) amounts) [
  | none ↦ none
  | some a ↦ from_items rest a
]

-- ResourceRequest.from_dict; `none` is a request with an amount that is not counted here
unfoldable pub from_dict : List (RequestKey × RequestValue) → Option Amounts
unfolding from_items put_number
from_dict data_items = from_items data_items []

-- ResourceUsage.add
unfoldable pub usage_add : ℕ → ℕ → Amounts → Amounts
unfolding get_index
usage_add c amount used = insert c (get_index c used + amount) used

-- ResourceUsage.sub: never below 0
unfoldable pub usage_sub : ℕ → ℕ → Amounts → Amounts
unfolding get_index
usage_sub c amount used = insert c (get_index c used - amount) used

pub data LeaseStatus : Type 0 where
  active released : LeaseStatus

pub record ResourceLease : Type 0 where
  pub lease_id : ℕ
  pub task_id : ℕ
  pub agent_name : ℕ
  pub request : Amounts
  pub created_at : ℕ
  pub released_at : Option ℕ
  pub status : LeaseStatus
  pub reason : ℕ

-- ResourceLease.release
unfoldable pub release_lease : ℕ → ResourceLease → ResourceLease
release_lease now lease = record lease { status = released; released_at = some now }

-- ResourceReclaimer.reclaim, on the lease
unfoldable pub reclaim_lease : ℕ → ℕ → ResourceLease → ResourceLease
unfolding release_lease
reclaim_lease now reason lease = release_lease now (record lease { reason = reason })

-- The keys of a dictionary are distinct.
abbrev pub Distinct : Amounts → Type 0
Distinct [] = Unit
Distinct ((k, v) ∷ d) = (has k d ≡ false) × Distinct d

has-insert : (k j v : ℕ) (d : Amounts) → has j (insert k v d) ≡ (if k == j then true else has j d)
unfolding has
has-insert k j v d = ground (arith, lookup-insert k j v d)

insert-Distinct : (k v : ℕ) (d : Amounts) → Distinct d → Distinct (insert k v d)
unfolding insert
insert-Distinct k v [] h = (unfold has lookup in refl, tt)
insert-Distinct k v ((j, w) ∷ d) h = elim (Bool-cases (j == k)) [
  | inl e ↦ rw e h
  | inr e ↦ rw e (ground (arith, has-insert k j v d), insert-Distinct k v d h.1)
]

put_number-Distinct :
    (v : RequestValue) (o : Option ResourceClass) (d d' : Amounts)
    → Distinct d
    → put_number v o d ≡ some d'
    → Distinct d'
unfolding put_number
put_number-Distinct (number n) (some c) d d' h e =
    subst Distinct (some_inj e) (insert-Distinct (class_index c) n d h)
put_number-Distinct (number n) none d d' h e = subst Distinct (some_inj e) h
put_number-Distinct other_number (some c) d d' h e = absurd (cc)
put_number-Distinct other_number none d d' h e = subst Distinct (some_inj e) h
put_number-Distinct not_number o d d' h e = subst Distinct (some_inj e) h

from_items-Distinct :
    (l : List (RequestKey × RequestValue)) (d d' : Amounts)
    → Distinct d
    → from_items l d ≡ some d'
    → Distinct d'
unfolding from_items
from_items-Distinct [] d d' h e = subst Distinct (some_inj e) h
from_items-Distinct ((k, v) ∷ l) d d' h e = elim (Option-cases (put_number v (class_of k) d)) [
  | inl p ↦ absurd (let q = rw (from_items, p) at e in cc)
  | inr (a, p) ↦
      from_items-Distinct l a d' (put_number-Distinct v (class_of k) d a h p)
        (rw (from_items, p) at e)
]

-- A request made from a dictionary names no class twice.
pub from_dict-Distinct :
    (l : List (RequestKey × RequestValue)) (amounts : Amounts)
    → from_dict l ≡ some amounts
    → Distinct amounts
unfolding from_dict
from_dict-Distinct l amounts e = from_items-Distinct l [] amounts tt e
