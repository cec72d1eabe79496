-- ===== src/Plans/Settled.antt =====
-- That the depth-first search of aruntime/planner/validator.py always ends, and what it accepts.
use agent_runtime.Plans.Visits.{visit_each-Kept, Kept, visit-Kept}
use agent_runtime.Plans.Search.{Halt, visit_all, Marks, no_fuel, visit, has_cycle, no_entry}
use agent_runtime.Prelude.Sets.{member, add, member-add}
use agent_runtime.Prelude.Result.{ok, err, Result}
use agent_runtime.Prelude.{
  ℕ, suc, List, ◌≡◌, arith, inl, refl, true, inr, false, some, ◌∷◌, [], ◌≤◌, Option, if◌then◌else◌,
  ◌<◌, length, ◌+◌, Bool-cases, is_some, ◌==◌, ==_iff, subst, ==_refl,
}

-- how many of the nodes are not being visited
unfoldable room : List ℕ → List ℕ → ℕ
unfolding member
room [] vis = 0
room (x ∷ xs) vis = (if member x vis then 0 else 1) + room xs vis

room-add-le : (xs vis : List ℕ) (n : ℕ) → room xs (add n vis) ≤ room xs vis
unfolding room
room-add-le [] vis n = omega arith
room-add-le (x ∷ xs) vis n = ground (arith, room-add-le xs vis n, member-add n x vis)

room-add :
    (xs vis : List ℕ) (n : ℕ)
    → member n vis ≡ false
    → member n xs ≡ true
    → room xs (add n vis) < room xs vis
unfolding room
room-add [] vis n h k = absurd (unfold member in ground (arith, k))
room-add (x ∷ xs) vis n h k = elim (Bool-cases (x == n)) [
  | inl e ↦
      let x_free : member x vis ≡ false = rw ((==_iff x n).0 e) h in
      let x_taken : member x (add n vis) ≡ true =
        rw ((==_iff x n).0 e, member-add n n vis, ==_refl n) refl in
      rw (x_free, x_taken) (omega (arith, room-add-le xs vis n))
  | inr e ↦
      let later : member n xs ≡ true = unfold member in ground (arith, k, e) in
      ground (arith, room-add xs vis n h later, member-add n x vis, e)
]

room-le : (xs vis : List ℕ) → room xs vis ≤ length xs
unfolding room
room-le [] vis = omega arith
room-le (x ∷ xs) vis = ground (arith, room-le xs vis)

module _ (next : ℕ → Option (List ℕ)) (nodes : List ℕ) where
  -- the graph has every dependency of its nodes as a node
  abbrev pub IsClosed : Type 0
  IsClosed =
      (n d : ℕ) (ds : List ℕ)
      → member n nodes ≡ true
      → next n ≡ some ds
      → member d ds ≡ true
      → member d nodes ≡ true

  abbrev pub Answered : Result Halt Marks → Type 0
  Answered (err no_fuel) = ⊥
  Answered (err has_cycle) = Unit
  Answered (err no_entry) = Unit
  Answered (ok m) = Unit

  abbrev HasFuel : Halt → Type 0
  HasFuel no_fuel = ⊥
  HasFuel has_cycle = Unit
  HasFuel no_entry = Unit

  abbrev Fuelled : ℕ → ℕ → List ℕ → Type 0
  Fuelled fuel n vis = (room nodes vis < fuel) × (member n nodes ≡ true)

  answered : (r : Result Halt Marks) → Kept HasFuel [] r → Answered r
  answered (err no_fuel) h = h
  answered (err has_cycle) h = tt
  answered (err no_entry) h = tt
  answered (ok m) h = tt

  -- The search always answers: its fuel is enough, cycles or not.
  pub visit_all-Answered : IsClosed → Answered (visit_all next nodes)
  unfolding visit_all
  visit_all-Answered closed = answered (visit_all next nodes) (
      visit_each-Kept HasFuel [] (visit next (suc (length nodes))) nodes _
        (λ n m i e.
          subst (λ z. Kept HasFuel z (visit next (suc (length nodes)) n m)) e
            (visit-Kept next HasFuel Fuelled (λ n vis f. absurd (omega (arith, f.0)))
              (λ fuel n vis f i. tt) (λ fuel n vis f e. tt)
              (λ fuel n d ds vis f i e k.
                (omega (arith, f.0, room-add nodes vis n i f.1), closed n d ds f.1 e k))
              (suc (length nodes)) n m (omega (arith, room-le nodes m.visiting), i)))
        refl)

  -- a rank above that of each dependency
  abbrev pub IsRank : (ℕ → ℕ) → Type 0
  IsRank r =
      (n d : ℕ) (ds : List ℕ)
      → member n nodes ≡ true
      → next n ≡ some ds
      → member d ds ≡ true
      → r d < r n

  abbrev Nothing : Halt → Type 0
  Nothing e = ⊥

  -- every node that is being visited is ranked above the one that is visited next
  abbrev Ranked : (ℕ → ℕ) → ℕ → ℕ → List ℕ → Type 0
  Ranked r fuel n vis =
      (room nodes vis < fuel)
      × (member n nodes ≡ true)
      × ((x : ℕ) → member x vis ≡ true → r n < r x)

  nothing_in : (x : ℕ) → ¬ (member x [] ≡ true)
  unfolding member
  nothing_in x h = ground (arith, h)

  above :
      (r : ℕ → ℕ) (n d x : ℕ) (vis : List ℕ)
      → r d < r n
      → ((y : ℕ) → member y vis ≡ true → r n < r y)
      → member x (add n vis) ≡ true
      → r d < r x
  above r n d x vis h k i = elim (Bool-cases (n == x)) [
    | inl e ↦ rw (← (==_iff n x).0 e) h
    | inr e ↦ omega (arith, h, k x (ground (arith, i, e, member-add n x vis)))
  ]

  accepted : (r : Result Halt Marks) → Kept Nothing [] r → (m : Marks) × (r ≡ ok m)
  accepted (err e) h = absurd h
  accepted (ok m) h = (m, refl)

  -- It accepts a graph whose nodes have entries and ranks above those of their dependencies.
  pub ranked-accepted :
      (r : ℕ → ℕ)
      → IsClosed
      → ((n : ℕ) → member n nodes ≡ true → is_some (next n) ≡ true)
      → IsRank r
      → (m : Marks) × (visit_all next nodes ≡ ok m)
  unfolding visit_all
  ranked-accepted r closed present lower = accepted (visit_all next nodes) (
      visit_each-Kept Nothing [] (visit next (suc (length nodes))) nodes _
        (λ n m i e.
          subst (λ z. Kept Nothing z (visit next (suc (length nodes)) n m)) e
            (visit-Kept next Nothing (Ranked r) (λ n vis f. omega (arith, f.0))
              (λ fuel n vis f i. omega (arith, f.2 n i))
              (λ fuel n vis f e. absurd (ground (arith, present n f.1, e)))
              (λ fuel n d ds vis f i e k. (
                omega (arith, f.0, room-add nodes vis n i f.1),
                closed n d ds f.1 e k,
                λ x j. above r n d x vis (lower n d ds f.1 e k) f.2 j,
              ))
              (suc (length nodes)) n m
              (
                omega (arith, room-le nodes m.visiting),
                i,
                λ x j. absurd (nothing_in x (subst (λ z. member x z ≡ true) e j)),
              )))
        refl)
