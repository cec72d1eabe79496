-- ===== src/Plans/Acyclic.antt =====
-- The check for cycles of a plan (`_assert_acyclic`, aruntime/planner/validator.py) against a ranking of its
-- tasks.
use agent_runtime.Context.Lists.{lookup-member}
use agent_runtime.Plans.Ranks.{index, visit_all-ranks}
use agent_runtime.Prelude.Result.{ok}
use agent_runtime.Plans.Settled.{Answered, IsRank, IsClosed, visit_all-Answered, ranked-accepted}
use agent_runtime.Prelude.Dict.{Dict, keys, lookup}
use agent_runtime.Prelude.Sets.{member}
use agent_runtime.Plans.Search.{assert_acyclic, Marks, entry}
use agent_runtime.Prelude.{
  ℕ, List, ◌≡◌, arith, some, refl, inr, [], true, inl, ◌∷◌, All, get_or, Bool-cases, ==_refl, ◌<◌,
  ◌==◌, subst, Option-cases, ◌↔◌, ==_iff, ◌∙◌,
}

pub accepted-IsRank :
    (deps : Dict (List ℕ))
    → (m : Marks) × (assert_acyclic deps ≡ ok m)
    → (r : ℕ → ℕ) × IsRank (entry deps) (keys deps) r
unfolding assert_acyclic
accepted-IsRank deps (m, h) = (λ n. index n m.visited, visit_all-ranks (entry deps) (keys deps) m h)

pub All-member : (P : ℕ → Type 0) (xs : List ℕ) (x : ℕ) → All P xs → member x xs ≡ true → P x
unfolding member
All-member P [] x h i = absurd (ground (arith, i))
All-member P (y ∷ xs) x h i = elim (Bool-cases (y == x)) [
  | inl e ↦ subst P ((==_iff y x).0 e) h.0
  | inr e ↦ All-member P xs x h.1 (ground (arith, i, e))
]

pub member-All : (P : ℕ → Type 0) (xs : List ℕ) → ((x : ℕ) → member x xs ≡ true → P x) → All P xs
unfolding member
member-All P [] h = tt
member-All P (y ∷ xs) h =
    (h y (rw (==_refl y) refl), member-All P xs (λ x i. h x (ground (arith, i))))

abbrev deps_of : Dict (List ℕ) → ℕ → List ℕ
deps_of deps n = get_or (lookup n deps) []

-- Every dependency has an entry of its own.
abbrev pub IsKnown : Dict (List ℕ) → Type 0
IsKnown deps = All (λ n. All (λ d. member d (keys deps) ≡ true) (deps_of deps n)) (keys deps)

-- Every dependency is ranked below what depends on it.
abbrev pub RankedBy : (ℕ → ℕ) → Dict (List ℕ) → Type 0
RankedBy r deps = All (λ n. All (λ d. r d < r n) (deps_of deps n)) (keys deps)

module _ (deps : Dict (List ℕ)) where
  at_entry :
      (P : ℕ → ℕ → Type 0)
      → All (λ n. All (P n) (deps_of deps n)) (keys deps)
      → (n d : ℕ) (ds : List ℕ) → member n (keys deps) ≡ true
      → lookup n deps ≡ some ds
      → member d ds ≡ true
      → P n d
  at_entry P h n d ds i e j =
      All-member (P n) ds d
        (subst (λ o. All (P n) (get_or o [])) e
          (All-member (λ n. All (P n) (deps_of deps n)) (keys deps) n h i))
        j

  from_entry :
      (P : ℕ → ℕ → Type 0)
      → ((n d : ℕ) (ds : List ℕ)
          → member n (keys deps) ≡ true
          → lookup n deps ≡ some ds
          → member d ds ≡ true
          → P n d)
      → All (λ n. All (P n) (deps_of deps n)) (keys deps)
  from_entry P h =
      member-All (λ n. All (P n) (deps_of deps n)) (keys deps)
        (λ n i. elim (Option-cases (lookup n deps)) [
          | inl e ↦ rw e tt
          | inr (ds, e) ↦ rw e (member-All (P n) ds (λ d j. h n d ds i e j))
        ])

-- The check for cycles always answers, and it accepts exactly the dependencies that can be ranked, each
-- task above those that it depends on, where every dependency is a task.
pub assert_acyclic-ranks :
    (deps : Dict (List ℕ))
    → IsKnown deps
    → Answered (entry deps) (keys deps) (assert_acyclic deps)
      × (((m : Marks) × (assert_acyclic deps ≡ ok m)) ↔ ((r : ℕ → ℕ) × RankedBy r deps))
unfolding assert_acyclic
assert_acyclic-ranks deps known =
    let closed : IsClosed (entry deps) (keys deps) =
      at_entry deps (λ n d. member d (keys deps) ≡ true) known in
    (
      visit_all-Answered (entry deps) (keys deps) closed,
      (
        λ h. let (r, rank) = accepted-IsRank deps h in (r, from_entry deps (λ n d. r d < r n) rank),
        λ (r, h).
            ranked-accepted (entry deps) (keys deps) r closed (λ n i. lookup-member n deps ∙ i)
              (at_entry deps (λ n d. r d < r n) h),
      ),
    )
