-- ===== src/Kernel/Counts.antt =====
-- How often a task stands in a queue of KernelScheduler (aruntime/scheduler/kernel.py), under the
-- operations on lists that the scheduler uses.
use agent_runtime.Prelude.{
  ℕ, List, [], ◌∷◌, ◌++◌, true, if◌then◌else◌, ◌==◌, ◌+◌, ◌-◌, ◌≡◌, ◌<◌, refl, arith,
}
use agent_runtime.Prelude.Int.{ℤ}
use agent_runtime.Prelude.Sets.{member, remove_first}
use agent_runtime.Kernel.Order.{place, sort_by}

unfoldable pub count : ℕ → List ℕ → ℕ
count x [] = 0
count x (y ∷ ys) = (if y == x then 1 else 0) + count x ys

pub count-append : (x : ℕ) (xs ys : List ℕ) → count x (xs ++ ys) ≡ count x xs + count x ys
unfolding count
count-append x [] ys = omega arith
count-append x (y ∷ xs) ys = omega (arith, count-append x xs ys)

pub count-member : (x : ℕ) (xs : List ℕ) → member x xs ≡ true → 0 < count x xs
unfolding count member
count-member x [] h = absurd (cc)
count-member x (y ∷ xs) h = ground (arith, h, count-member x xs)

-- taking one occurrence away, where there is one
pub count-remove_first :
    (x y : ℕ) (xs : List ℕ)
    → count y (remove_first x xs) ≡ (if x == y then count y xs - 1 else count y xs)
unfolding count remove_first
count-remove_first x y [] = ground arith
count-remove_first x y (z ∷ xs) = ground (arith, count-remove_first x y xs)

module _ (key : ℕ → List ℤ) where
  count-place : (x y : ℕ) (xs : List ℕ) → count x (place key y xs) ≡ count x (y ∷ xs)
  unfolding count place
  count-place x y [] = refl
  count-place x y (z ∷ xs) = ground (arith, count-place x y xs)

  pub count-sort_by : (x : ℕ) (xs : List ℕ) → count x (sort_by key xs) ≡ count x xs
  unfolding count sort_by
  count-sort_by x [] = refl
  count-sort_by x (y ∷ xs) = ground (arith, count-place x y (sort_by key xs), count-sort_by x xs)
