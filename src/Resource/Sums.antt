-- ===== src/Resource/Sums.antt =====
-- Sums over the leases, and what using and freeing a request does to the usage of a class.
use agent_runtime.Resource.Monitor.{use_amounts, free_amounts, first_over, Monitor}
use agent_runtime.Prelude.Dict.{insert, lookup, has, Dict, lookup-insert}
use agent_runtime.Prelude.{
  [], ◌∷◌, ◌≡◌, refl, some, false, none, true, ℕ, Option, if◌then◌else◌, arith, ◌+◌, ◌≤◌, ◌==◌, ◌-◌,
  ◌⊎◌,
}
use agent_runtime.Resource.Types.{Amounts, ResourceLease, get_index, usage_add, usage_sub, Distinct}

unfoldable pub sum : (ResourceLease → ℕ) → Dict ResourceLease → ℕ
sum f [] = 0
sum f ((k, l) ∷ d) = f l + sum f d

abbrev pub of_found : (ResourceLease → ℕ) → Option ResourceLease → ℕ
of_found f none = 0
of_found f (some l) = f l

pub sum-insert :
    (f : ResourceLease → ℕ) (id : ℕ) (l : ResourceLease) (d : Dict ResourceLease)
    → sum f (insert id l d) + of_found f (lookup id d) ≡ sum f d + f l
unfolding sum insert lookup
sum-insert f id l [] = omega arith
sum-insert f id l ((k, m) ∷ d) = ground (arith, sum-insert f id l d)

pub le-sum :
    (f : ResourceLease → ℕ) (id : ℕ) (d : Dict ResourceLease) → of_found f (lookup id d) ≤ sum f d
unfolding sum lookup
le-sum f id [] = omega arith
le-sum f id ((k, m) ∷ d) = ground (arith, le-sum f id d)

pub sum-nil : (f : ResourceLease → ℕ) → sum f [] ≡ 0
unfolding sum
sum-nil f = refl

get_index-insert :
    (k j v : ℕ) (d : Amounts) → get_index j (insert k v d) ≡ (if k == j then v else get_index j d)
unfolding get_index
get_index-insert k j v d = ground (arith, lookup-insert k j v d)

pub absent : (k : ℕ) (d : Amounts) → has k d ≡ false → get_index k d ≡ 0
unfolding has get_index
absent k d h = ground arith

get_index-cons :
    (k j v : ℕ) (d : Amounts) → get_index j ((k, v) ∷ d) ≡ (if k == j then v else get_index j d)
unfolding get_index lookup
get_index-cons k j v d = ground arith

pub get_index-nil : (j : ℕ) → get_index j [] ≡ 0
unfolding get_index lookup
get_index-nil j = refl

-- Using a request raises the usage of each class by the request's amount.
pub get_index-use :
    (c : ℕ) (r u : Amounts)
    → Distinct r
    → get_index c (use_amounts r u) ≡ get_index c u + get_index c r
unfolding use_amounts usage_add
get_index-use c [] u h = omega (arith, get_index-nil c)
get_index-use c ((k, v) ∷ r) u h = ground (
  arith,
  get_index-use c r (insert k (get_index k u + v) u) h.1,
  get_index-insert k c (get_index k u + v) u,
  get_index-cons k c v r,
  absent k r h.0,
)

-- Freeing it takes the amount off, and stops at 0.
pub get_index-free :
    (c : ℕ) (r u : Amounts)
    → Distinct r
    → get_index c (free_amounts r u) ≡ get_index c u - get_index c r
unfolding free_amounts usage_sub
get_index-free c [] u h = omega (arith, get_index-nil c)
get_index-free c ((k, v) ∷ r) u h = ground (
  arith,
  get_index-free c r (insert k (get_index k u - v) u) h.1,
  get_index-insert k c (get_index k u - v) u,
  get_index-cons k c v r,
  absent k r h.0,
)

-- A request that passes the loop of `can_allocate` fits every quota that is set.
pub first_over-fits :
    (c : ℕ) (r : Amounts) (m : Monitor)
    → first_over r m ≡ none
    → has c r ≡ true
    → Distinct r
    → (get_index c m.quota ≡ 0) ⊎ (get_index c m.usage + get_index c r ≤ get_index c m.quota)
unfolding first_over has lookup
first_over-fits c [] m h p d = absurd (cc)
first_over-fits c ((k, v) ∷ r) m h p d =
    ground (arith, first_over-fits c r m, get_index-cons k c v r)
