-- ===== src/Schedulers/Sorted.antt =====
-- That `topological_sort` of DAGScheduler (aruntime/scheduler/dag.py) comes to an end, and which tasks
-- it lists.
use agent_runtime.Prelude.{
  ℕ, ◌+◌, ◌≤◌, zero, suc, Bool, true, false, List, [], ◌∷◌, ◌++◌, Option, some, none, ◌≡◌, refl,
  arith, if◌then◌else◌, length, length-append, Bool-cases, inl, inr, ◌==◌, ==_iff, ap, sym, subst,
  some_inj, ◌∙◌,
}
use agent_runtime.Prelude.Int.{ℤ, pos, negsuc}
use agent_runtime.Prelude.Dict.{Dict, lookup, has, insert, lookup-insert}
use agent_runtime.Prelude.Sets.{member, member-append}
use agent_runtime.Kernel.Search.{Nodes}
use agent_runtime.Context.Lists.{IsDistinct}
use agent_runtime.Schedulers.Sorting.{Sorting, pred, is_zero, lower_found}

abbrev pub is_positive : ℤ → Bool
is_positive (pos zero) = false
is_positive (pos (suc n)) = true
is_positive (negsuc n) = false

abbrev pub waits : Option ℤ → Bool
waits none = false
waits (some n) = is_positive n

abbrev pub one_if : Bool → ℕ
one_if true = 1
one_if false = 0

-- the tasks that wait for others
unfoldable pub positives : Dict ℤ → ℕ
positives [] = 0
positives ((k, n) ∷ d) = one_if (is_positive n) + positives d

positives-insert :
    (k : ℕ) (v n : ℤ) (d : Dict ℤ)
    → lookup k d ≡ some n
    → positives (insert k v d) + one_if (is_positive n) ≡ positives d + one_if (is_positive v)
unfolding positives insert lookup
positives-insert k v n [] h = absurd (cc)
positives-insert k v n ((j, w) ∷ d) h = elim (Bool-cases (j == k)) [
  | inl e ↦ let s : w ≡ n = some_inj (ground (arith, h, e)) in rw (e, s) (omega arith)
  | inr e ↦ rw e (omega (arith, positives-insert k v n d (ground (arith, h, e))))
]

pred-zero : (n : ℤ) → is_zero (pred n) ≡ true → is_positive n ≡ true
pred-zero (pos zero) h = absurd (cc)
pred-zero (pos (suc n)) h = refl
pred-zero (negsuc n) h = absurd (cc)

pub zero-positive : (n : ℤ) → is_zero n ≡ true → is_positive n ≡ false
zero-positive (pos zero) h = refl
zero-positive (pos (suc n)) h = absurd (cc)
zero-positive (negsuc n) h = refl

pred-positive : (n : ℤ) → is_positive n ≡ false → is_positive (pred n) ≡ false
pred-positive (pos zero) h = refl
pred-positive (pos (suc n)) h = absurd (cc)
pred-positive (negsuc n) h = refl

pred-one_if : (n : ℤ) → one_if (is_positive (pred n)) ≤ one_if (is_positive n)
pred-one_if (pos zero) = omega arith
pred-one_if (pos (suc zero)) = omega arith
pred-one_if (pos (suc (suc n))) = omega arith
pred-one_if (negsuc n) = omega arith

-- falls with each turn
abbrev pub weight : Sorting → ℕ
weight s = positives s.in_degree + length s.queue

abbrev pub order : Sorting → List ℕ
order s = s.result ++ s.queue

pub record IsFine (nodes : Nodes) (deg : Dict ℤ) (xs : List ℕ) : Type 0 where
  pub distinct : IsDistinct xs
  pub settled : (x : ℕ) → member x xs ≡ true → waits (lookup x deg) ≡ false
  pub known : (x : ℕ) → member x xs ≡ true → has x nodes ≡ true
  pub degrees : (x : ℕ) → has x deg ≡ has x nodes

pub IsDistinct-push :
    (x : ℕ) (xs : List ℕ) → member x xs ≡ false → IsDistinct xs → IsDistinct (xs ++ x ∷ [])
unfolding member
IsDistinct-push x [] h d = (refl, tt)
IsDistinct-push x (y ∷ ys) h (new, d) = (
  ground (arith, new, h, member-append y ys (x ∷ [])),
  IsDistinct-push x ys (ground (arith, h)) d,
)

pub lower_found-weight :
    (dep : ℕ) (o : Option ℤ) (s : Sorting)
    → lookup dep s.in_degree ≡ o
    → weight (lower_found dep o s).1 ≤ weight s
unfolding lower_found
lower_found-weight dep none s h = omega arith
lower_found-weight dep (some n) s h =
    let p = positives-insert dep (pred n) n s.in_degree h in
    elim (Bool-cases (is_zero (pred n))) [
      | inl e ↦
          let a : one_if (is_positive n) ≡ 1 = rw (pred-zero n e) refl in
          let b : one_if (is_positive (pred n)) ≡ 0 = rw (zero-positive (pred n) e) refl in
          rw e (omega (arith, p, a, b, length-append s.queue (dep ∷ [])))
      | inr e ↦ rw e (omega (arith, p, pred-one_if n))
    ]

pub append_assoc : (xs ys zs : List ℕ) → (xs ++ ys) ++ zs ≡ xs ++ (ys ++ zs)
append_assoc [] ys zs = refl
append_assoc (x ∷ xs) ys zs = ap (λ t. x ∷ t) (append_assoc xs ys zs)

has-insert :
    (k x : ℕ) (v : ℤ) (d : Dict ℤ) → has x (insert k v d) ≡ (if k == x then true else has x d)
unfolding has
has-insert k x v d = ground (arith, lookup-insert k x v d)

module _ (nodes : Nodes) (deg : Dict ℤ) (xs : List ℕ) (dep : ℕ) (n : ℤ)
    (found : lookup dep deg ≡ some n) (h : IsFine nodes deg xs) where
  here : has dep nodes ≡ true
  here = sym (h.degrees dep) ∙ (unfold has in rw found refl)

  degrees_kept : (x : ℕ) → has x (insert dep (pred n) deg) ≡ has x nodes
  degrees_kept x = elim (Bool-cases (dep == x)) [
    | inl e ↦
        let same = ap (λ y. has y nodes) ((==_iff dep x).0 e) in
        rw (has-insert dep x (pred n) deg, e) (sym here ∙ same)
    | inr e ↦ rw (has-insert dep x (pred n) deg, e) (h.degrees x)
  ]

  waits_kept :
      (x : ℕ) → waits (lookup x deg) ≡ false → waits (lookup x (insert dep (pred n) deg)) ≡ false
  waits_kept x w = elim (Bool-cases (dep == x)) [
    | inl e ↦
        let same : lookup x deg ≡ some n =
          subst (λ y. lookup y deg ≡ some n) ((==_iff dep x).0 e) found in
        rw (lookup-insert dep x (pred n) deg, e) (pred-positive n (sym (ap waits same) ∙ w))
    | inr e ↦ rw (lookup-insert dep x (pred n) deg, e) w
  ]

  lowered-IsFine : IsFine nodes (insert dep (pred n) deg) xs
  lowered-IsFine = record {
    distinct = h.distinct;
    settled = λ x m. waits_kept x (h.settled x m);
    known = h.known;
    degrees = degrees_kept;
  }

  module _ (zero : is_zero (pred n) ≡ true) where
    new : member dep xs ≡ false
    new = elim (Bool-cases (member dep xs)) [
      | inl m ↦
          let w : waits (lookup dep deg) ≡ true = rw found (pred-zero n zero) in
          let v = h.settled dep m in absurd (cc)
      | inr m ↦ m
    ]

    freed-IsFine : IsFine nodes (insert dep (pred n) deg) (xs ++ dep ∷ [])
    freed-IsFine = record {
      distinct = IsDistinct-push dep xs new h.distinct;
      settled = λ x m. elim (Bool-cases (dep == x)) [
        | inl e ↦ rw (lookup-insert dep x (pred n) deg, e) (zero-positive (pred n) zero)
        | inr e ↦
            waits_kept x
              (h.settled x (unfold member in ground (arith, m, e, member-append x xs (dep ∷ []))))
      ];
      known = λ x m. elim (Bool-cases (dep == x)) [
        | inl e ↦ subst (λ y. has y nodes ≡ true) ((==_iff dep x).0 e) here
        | inr e ↦ h.known x (unfold member in ground (arith, m, e, member-append x xs (dep ∷ [])))
      ];
      degrees = degrees_kept;
    }

pub lower_found-IsFine :
    (nodes : Nodes) (dep : ℕ) (o : Option ℤ) (s : Sorting)
    → lookup dep s.in_degree ≡ o
    → IsFine nodes s.in_degree (order s)
    → let s' = (lower_found dep o s).1 in IsFine nodes s'.in_degree (order s')
unfolding lower_found
lower_found-IsFine nodes dep none s f h = h
lower_found-IsFine nodes dep (some n) s f h =
    let deg = insert dep (pred n) s.in_degree in
    elim (Bool-cases (is_zero (pred n))) [
      | inl e ↦ rw e (
          subst (IsFine nodes deg) (append_assoc s.result s.queue (dep ∷ []))
            (freed-IsFine nodes s.in_degree (order s) dep n f h e))
      | inr e ↦ rw e (lowered-IsFine nodes s.in_degree (order s) dep n f h)
    ]
