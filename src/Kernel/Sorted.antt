-- ===== src/Kernel/Sorted.antt =====
-- The order that `_sort_ready` gives the ready queue (aruntime/scheduler/kernel.py).
use agent_runtime.Prelude.{ℕ, List, [], ◌∷◌, true, false, ◌≡◌, refl, arith, Bool-cases, inl, inr}
use agent_runtime.Prelude.Int.{ℤ, leb_ℤ_total}
use agent_runtime.Kernel.Defs.{Kernel, Setting}
use agent_runtime.Kernel.Order.{lex_leb, place, sort_by, sort_ready, key_of}
use agent_runtime.Kernel.Counts.{count, count-sort_by}

-- Of two keys, one comes first.
lex_total : (xs ys : List ℤ) → lex_leb xs ys ≡ false → lex_leb ys xs ≡ true
unfolding lex_leb
lex_total [] ys h = absurd (cc)
lex_total (x ∷ xs) [] h = refl
lex_total (x ∷ xs) (y ∷ ys) h = ground (arith, h, lex_total xs ys, leb_ℤ_total x y)

module _ (key : ℕ → List ℤ) where
  abbrev Before : ℕ → List ℕ → Type 0
  Before x [] = Unit
  Before x (y ∷ ys) = lex_leb (key x) (key y) ≡ true

  -- each key is at most the next
  abbrev pub IsSorted : List ℕ → Type 0
  IsSorted [] = Unit
  IsSorted (x ∷ xs) = Before x xs × IsSorted xs

  Before-place :
      (x y : ℕ) (ys : List ℕ)
      → lex_leb (key y) (key x) ≡ true
      → Before y ys
      → Before y (place key x ys)
  unfolding place
  Before-place x y [] h b = h
  Before-place x y (z ∷ ys) h b = elim (Bool-cases (lex_leb (key x) (key z))) [
    | inl e ↦ rw e h
    | inr e ↦ rw e b
  ]

  place-IsSorted : (x : ℕ) (ys : List ℕ) → IsSorted ys → IsSorted (place key x ys)
  unfolding place
  place-IsSorted x [] h = (tt, tt)
  place-IsSorted x (y ∷ ys) h = elim (Bool-cases (lex_leb (key x) (key y))) [
    | inl e ↦ rw e (e, h)
    | inr e ↦ rw e (Before-place x y ys (lex_total (key x) (key y) e) h.0, place-IsSorted x ys h.1)
  ]

  sort_by-IsSorted : (xs : List ℕ) → IsSorted (sort_by key xs)
  unfolding sort_by
  sort_by-IsSorted [] = tt
  sort_by-IsSorted (x ∷ xs) = place-IsSorted x (sort_by key xs) (sort_by-IsSorted xs)

-- Sorting the ready queue, under every policy, puts it in the order of the keys, which are computed
-- while the queue shows no task, and keeps every task as often as it stood there.
pub ready-IsSorted :
    (s : Setting) (k : Kernel)
    → IsSorted (key_of s (record k { ready_queue = [] })) (sort_ready s k).ready_queue
      × ((x : ℕ) → count x (sort_ready s k).ready_queue ≡ count x k.ready_queue)
unfolding sort_ready
ready-IsSorted s k =
    let key = key_of s (record k { ready_queue = [] }) in
    (sort_by-IsSorted key k.ready_queue, λ x. count-sort_by key x k.ready_queue)
