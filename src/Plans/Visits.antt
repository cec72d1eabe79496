-- ===== src/Plans/Visits.antt =====
-- What the depth-first search of aruntime/planner/validator.py leaves marked, and how it may stop.
use agent_runtime.Prelude.{
  ℕ, suc, zero, true, false, Option, none, some, List, [], ◌∷◌, ◌++◌, ◌≡◌, refl, arith, Bool-cases,
  Option-cases, inl, inr, ==_refl, subst,
}
use agent_runtime.Prelude.Sets.{member, add, discard}
use agent_runtime.Prelude.Result.{Result, ok, err}
use agent_runtime.Plans.Search.{
  Halt, has_cycle, no_entry, no_fuel, Marks, Visit, visit_each, leave, visit, and_then,
}

-- The visit ends with what was being visited before, or stops in a way that is allowed.
abbrev pub Kept : (Halt → Type 0) → List ℕ → Result Halt Marks → Type 0
Kept Q vis (err e) = Q e
Kept Q vis (ok m) = m.visiting ≡ vis

module _ (Q : Halt → Type 0) (vis : List ℕ) where
  Kept-and_then :
      (r : Result Halt Marks) (v : Visit)
      → Kept Q vis r
      → ((m : Marks) → m.visiting ≡ vis → Kept Q vis (v m))
      → Kept Q vis (and_then r v)
  unfolding and_then
  Kept-and_then (err e) v h k = h
  Kept-and_then (ok m) v h k = k m h

  pub visit_each-Kept :
      (v : ℕ → Visit) (ns : List ℕ) (m : Marks)
      → ((n : ℕ) (m : Marks) → member n ns ≡ true → m.visiting ≡ vis → Kept Q vis (v n m))
      → m.visiting ≡ vis
      → Kept Q vis (visit_each v ns m)
  unfolding visit_each
  visit_each-Kept v [] m h e = e
  visit_each-Kept v (n ∷ ns) m h e =
      Kept-and_then (v n m) (visit_each v ns) (h n m (unfold member in ground (arith, ==_refl n)) e)
        (λ m' e'.
          visit_each-Kept v ns m' (λ x m'' i. h x m'' (unfold member in ground (arith, i))) e')

discard_absent : (n : ℕ) (l : List ℕ) → member n l ≡ false → discard n (l ++ n ∷ []) ≡ l
unfolding discard member
discard_absent n [] h = ground arith
discard_absent n (x ∷ l) h = ground (arith, h, discard_absent n l)

module _ (next : ℕ → Option (List ℕ)) where
  leave-Kept :
      (Q : Halt → Type 0) (n : ℕ) (vis : List ℕ) (r : Result Halt Marks)
      → member n vis ≡ false
      → Kept Q (add n vis) r
      → Kept Q vis (leave next n r)
  unfolding leave add
  leave-Kept Q n vis (err e) a h = h
  leave-Kept Q n vis (ok m) a h = rw (h, a) (discard_absent n vis a)

  -- A condition on the node and on what is being visited, under which no visit stops in a way that is
  -- not allowed: it excludes each error, and it holds again for the dependencies.
  module _ (Q : Halt → Type 0) (Fits : ℕ → ℕ → List ℕ → Type 0)
      (fuelled : (n : ℕ) (vis : List ℕ) → Fits zero n vis → Q no_fuel)
      (acyclic : (fuel n : ℕ) (vis : List ℕ)
        → Fits (suc fuel) n vis
        → member n vis ≡ true
        → Q has_cycle)
      (present : (fuel n : ℕ) (vis : List ℕ) → Fits (suc fuel) n vis → next n ≡ none → Q no_entry)
      (inner : (fuel n d : ℕ) (ds vis : List ℕ)
        → Fits (suc fuel) n vis
        → member n vis ≡ false
        → next n ≡ some ds
        → member d ds ≡ true
        → Fits fuel d (add n vis)) where
    pub visit-Kept :
        (fuel n : ℕ) (m : Marks) → Fits fuel n m.visiting → Kept Q m.visiting (visit next fuel n m)
    unfolding visit
    visit-Kept zero n m h = fuelled n m.visiting h
    visit-Kept (suc fuel) n m h = elim (Bool-cases (member n m.visiting)) [
      | inl i ↦ rw (visit, i) (acyclic fuel n m.visiting h i)
      | inr i ↦ elim (Bool-cases (member n m.visited)) [
        | inl j ↦ rw (visit, i, j) refl
        | inr j ↦ elim (Option-cases (next n)) [
          | inl e ↦ rw (visit, i, j, e) (present fuel n m.visiting h e)
          | inr (ds, e) ↦
              rw (visit, i, j, e)
                (leave-Kept Q n m.visiting _ i (
                  visit_each-Kept Q (add n m.visiting) (visit next fuel) ds _
                    (λ d m' k s.
                      subst (λ z. Kept Q z (visit next fuel d m')) s
                        (visit-Kept fuel d m' (rw s (inner fuel n d ds m.visiting h i e k))))
                    refl))
        ]
      ]
    ]
