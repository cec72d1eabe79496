-- ===== src/Plans/CoderChecks.antt =====
-- What the checks of an accepted coder plan show (validate_coder_plan of
-- applications/incident_repair/routing.py).
use agent_runtime.Prelude.{
  ℕ, Bool, true, false, some, List, [], ◌∷◌, ◌≡◌, refl, sym, arith, filter, All, ap, ◌∙◌, ◌==◌,
  Bool-cases, Option-cases, inl, inr, ==_iff, ==_refl, if◌then◌else◌, is_empty, subst, some_inj,
}
use agent_runtime.Prelude.Dict.{Dict, lookup, insert, lookup-insert}
use agent_runtime.Prelude.Sets.{member}
use agent_runtime.Prelude.Result.{Result, ok, err}
use agent_runtime.Planning.Coders.{PlannedTask, is_coder, subset}
use agent_runtime.Planning.Choice.{In}
use agent_runtime.Plans.Search.{Marks, Halt, assert_coder_tasks_acyclic}
use agent_runtime.Plans.Maps.{Item, map_of, item_ids}
use agent_runtime.Plans.Coders.{
  CoderCheck, by_id, check_dependencies, check_coders, coder_map, coder_items, coder_searched,
  validate_coder_plan, unknown_dependency, non_coder_dependency, no_coder_tasks,
}

pub In-filter_intro :
    (p : PlannedTask → Bool) (t : PlannedTask) (ts : List PlannedTask)
    → In t ts
    → p t ≡ true
    → In t (filter p ts)
In-filter_intro p t [] h e = h
In-filter_intro p t (u ∷ ts) (inl h) e = let q : p u ≡ true = rw (← h) e in rw q (inl h)
In-filter_intro p t (u ∷ ts) (inr h) e = elim (Bool-cases (p u)) [
  | inl s ↦ rw s (inr (In-filter_intro p t ts h e))
  | inr s ↦ rw s (In-filter_intro p t ts h e)
]

-- A list that is not wholly in another has an element that is not there.
pub missing :
    (xs ys : List ℕ) → subset xs ys ≡ false → (d : ℕ) × (member d xs ≡ true) × (member d ys ≡ false)
unfolding member
missing [] ys h = absurd (ground (arith, h))
missing (x ∷ xs) ys h = elim (Bool-cases (member x ys)) [
  | inl e ↦
      let (d, inside, out) = missing xs ys (ground (arith, h, e)) in
      (d, ground (arith, inside), out)
  | inr e ↦ (x, rw (==_refl x) refl, e)
]

-- what the table of all tasks holds under an identifier is a task of that identifier
abbrev pub Holds : List PlannedTask → Dict PlannedTask → Type 0
Holds ts table = (d : ℕ) (t : PlannedTask) → lookup d table ≡ some t → In t ts × (t.local_id ≡ d)

pub by_id-Holds :
    (all_tasks ts : List PlannedTask) (table : Dict PlannedTask)
    → Holds all_tasks table
    → All (λ t. In t all_tasks) ts
    → Holds all_tasks (by_id ts table)
unfolding by_id
by_id-Holds all_tasks [] table h a = h
by_id-Holds all_tasks (t ∷ ts) table h a =
    by_id-Holds all_tasks ts (insert t.local_id t table)
      (λ d u e. elim (Bool-cases (t.local_id == d)) [
        | inl s ↦
            subst (λ x. In x all_tasks × (x.local_id ≡ d))
              (some_inj (ground (arith, e, s, lookup-insert t.local_id d t table)))
              (a.0, (==_iff t.local_id d).0 s)
        | inr s ↦ h d u (ground (arith, e, s, lookup-insert t.local_id d t table))
      ])
      a.1

first_coder :
    (table : Dict PlannedTask) (id x : ℕ) (ds : List ℕ) (t : PlannedTask)
    → lookup x table ≡ some t
    → is_coder t.role ≡ true
    → check_dependencies table id (x ∷ ds) ≡ check_dependencies table id ds
unfolding check_dependencies
first_coder table id x ds t e k = rw (check_dependencies, e, k) refl

pub check_dependencies-coder :
    (table : Dict PlannedTask) (id : ℕ) (ds : List ℕ) (d : ℕ)
    → check_dependencies table id ds ≡ ok tt
    → member d ds ≡ true
    → (t : PlannedTask) × (lookup d table ≡ some t) × (is_coder t.role ≡ true)
unfolding check_dependencies member
check_dependencies-coder table id [] d h i = absurd (ground (arith, i))
check_dependencies-coder table id (x ∷ ds) d h i = elim (Option-cases (lookup x table)) [
  | inl e ↦
      let q : check_dependencies table id (x ∷ ds) ≡ err (unknown_dependency id x) =
        rw (check_dependencies, e) refl in
      absurd (ground (arith, h, q))
  | inr (t, e) ↦ elim (Bool-cases (is_coder t.role)) [
    | inl k ↦ elim (Bool-cases (x == d)) [
      | inl s ↦ (t, rw (← (==_iff x d).0 s) e, k)
      | inr s ↦
          check_dependencies-coder table id ds d (sym (first_coder table id x ds t e k) ∙ h)
            (ground (arith, i, s))
    ]
    | inr k ↦
        let q : check_dependencies table id (x ∷ ds) ≡ err (non_coder_dependency id x) =
          rw (check_dependencies, e, k) refl in
        absurd (ground (arith, h, q))
  ]
]

pub check_coders-All :
    (table : Dict PlannedTask) (ts : List PlannedTask)
    → check_coders table ts ≡ ok tt
    → All (λ t. check_dependencies table t.local_id t.dependencies ≡ ok tt) ts
unfolding check_coders
check_coders-All table [] h = tt
check_coders-All table (t ∷ ts) h =
    passed (λ k. check_coders-All table ts k) (check_dependencies table t.local_id t.dependencies)
      refl h
  where
    passed :
        (check_coders table ts ≡ ok tt
          → All (λ t. check_dependencies table t.local_id t.dependencies ≡ ok tt) ts)
        → (r : CoderCheck) → check_dependencies table t.local_id t.dependencies ≡ r
        → elim r as (λ _. CoderCheck) [ err e ↦ err e | ok u ↦ check_coders table ts ] ≡ ok tt
        → All (λ t. check_dependencies table t.local_id t.dependencies ≡ ok tt) (t ∷ ts)
    passed rest (err e) q k = absurd (ground (arith, k))
    passed rest (ok u) q k = (q, rest k)

abbrev pub coder_pairs : List PlannedTask → List Item
coder_pairs [] = []
coder_pairs (t ∷ ts) = (t.local_id, t.dependencies) ∷ coder_pairs ts

pub map-coder_pairs :
    (ts : List PlannedTask) (m : Dict (List ℕ)) → coder_map ts m ≡ map_of (coder_pairs ts) m
unfolding coder_map map_of
map-coder_pairs [] m = refl
map-coder_pairs (t ∷ ts) m = map-coder_pairs ts (insert t.local_id t.dependencies m)

abbrev pub local_ids : List PlannedTask → List ℕ
local_ids [] = []
local_ids (t ∷ ts) = t.local_id ∷ local_ids ts

pub ids-coder_pairs : (ts : List PlannedTask) → item_ids (coder_pairs ts) ≡ local_ids ts
unfolding item_ids
ids-coder_pairs [] = refl
ids-coder_pairs (t ∷ ts) = ap (λ l. t.local_id ∷ l) (ids-coder_pairs ts)

In-local_ids :
    (t : PlannedTask) (ts : List PlannedTask) → In t ts → member t.local_id (local_ids ts) ≡ true
unfolding member
In-local_ids t [] h = absurd h
In-local_ids t (u ∷ ts) (inl h) = rw (← h, ==_refl t.local_id) refl
In-local_ids t (u ∷ ts) (inr h) = ground (arith, In-local_ids t ts h)

pub All-In :
    (P : PlannedTask → Type 0) (t : PlannedTask) (ts : List PlannedTask) → All P ts → In t ts → P t
All-In P t [] a h = absurd h
All-In P t (u ∷ ts) a (inl h) = subst P (sym h) a.0
All-In P t (u ∷ ts) a (inr h) = All-In P t ts a.1 h

pub self-In :
    (ts us : List PlannedTask) → ((t : PlannedTask) → In t ts → In t us) → All (λ t. In t us) ts
self-In [] us h = tt
self-In (t ∷ ts) us h = (h t (inl refl), self-In ts us (λ u k. h u (inr k)))

coder_searched-ok : (r : Result Halt Marks) → coder_searched r ≡ ok tt → (m : Marks) × (r ≡ ok m)
coder_searched-ok (ok m) h = (m, refl)
coder_searched-ok (err e) h = absurd (ground (arith, h))

-- the two parts of an accepted coder plan's checks
pub validate-parts :
    (ts : List PlannedTask)
    → validate_coder_plan ts ≡ ok tt
    → (check_coders (by_id ts []) (coder_items ts) ≡ ok tt)
      × ((m : Marks) × (assert_coder_tasks_acyclic (coder_map (coder_items ts) []) ≡ ok m))
unfolding validate_coder_plan
validate-parts ts h = by_empty (is_empty (coder_items ts)) h
  where
    after :
        (r : CoderCheck)
        → check_coders (by_id ts []) (coder_items ts) ≡ r
        → elim r as (λ _. CoderCheck) [
          | err e ↦ err e
          | ok u ↦ coder_searched (assert_coder_tasks_acyclic (coder_map (coder_items ts) []))
        ]
          ≡ ok tt
        → (check_coders (by_id ts []) (coder_items ts) ≡ ok tt)
          × ((m : Marks) × (assert_coder_tasks_acyclic (coder_map (coder_items ts) []) ≡ ok m))
    after (err e) q k = absurd (ground (arith, k))
    after (ok u) q k = (q, coder_searched-ok _ k)

    by_empty :
        (b : Bool)
        → (if b then err no_coder_tasks else elim (check_coders (by_id ts []) (coder_items ts)) [
          | err e ↦ err e
          | ok u ↦ coder_searched (assert_coder_tasks_acyclic (coder_map (coder_items ts) []))
        ])
          ≡ ok tt
        → (check_coders (by_id ts []) (coder_items ts) ≡ ok tt)
          × ((m : Marks) × (assert_coder_tasks_acyclic (coder_map (coder_items ts) []) ≡ ok m))
    by_empty true k = absurd (ground (arith, k))
    by_empty false k = after (check_coders (by_id ts []) (coder_items ts)) refl k

pub member-filter :
    (p : ℕ → Bool) (d : ℕ) (ds : List ℕ)
    → member d ds ≡ true
    → p d ≡ true
    → member d (filter p ds) ≡ true
unfolding member
member-filter p d [] h k = absurd (ground (arith, h))
member-filter p d (x ∷ ds) h k = elim (Bool-cases (x == d)) [
  | inl e ↦ rw ((==_iff x d).0 e, k, ==_refl d) refl
  | inr e ↦
      let rest = member-filter p d ds (ground (arith, h, e)) k in
      elim (Bool-cases (p x)) [ inl i ↦ rw i (ground (arith, rest)) | inr i ↦ rw i rest ]
]

pub pair_at :
    (t : PlannedTask) (ts : List PlannedTask) (table : Dict (List ℕ))
    → In t ts
    → All (λ i. lookup i.0 table ≡ some i.1) (coder_pairs ts)
    → lookup t.local_id table ≡ some t.dependencies
pair_at t [] table h a = absurd h
pair_at t (u ∷ ts) table (inl h) a = rw h (a.0)
pair_at t (u ∷ ts) table (inr h) a = pair_at t ts table h a.1
