-- ===== src/Plans/Ranks.antt =====
-- What the depth-first search accepts: the graphs whose nodes can be ranked.
use agent_runtime.Prelude.{
  ℕ, suc, zero, ◌<◌, true, false, Option, some, List, [], ◌∷◌, ◌++◌, ◌≡◌, refl, arith,
  if◌then◌else◌, ◌==◌, Bool-cases, Option-cases, inl, inr, length, ◌∙◌, sym, ap, ==_iff, ==_refl,
  subst, some_inj,
}
use agent_runtime.Prelude.Sets.{member, add, member-append, member-add}
use agent_runtime.Prelude.Result.{Result, ok, err}
use agent_runtime.Plans.Search.{Halt, Marks, Visit, visit_each, leave, visit, visit_all, and_then}

-- the position of the first occurrence, or the length where there is none
unfoldable pub index : ℕ → List ℕ → ℕ
index x [] = 0
index x (y ∷ ys) = let rest = index x ys in if y == x then 0 else suc rest

index-append :
    (x n : ℕ) (l : List ℕ)
    → index x (l ++ n ∷ [])
      ≡ (if member x l then index x l else (if n == x then length l else suc (length l)))
unfolding index member
index-append x n [] = ground arith
index-append x n (y ∷ l) = ground (arith, index-append x n l)

index-lt : (x : ℕ) (l : List ℕ) → member x l ≡ true → index x l < length l
unfolding index member
index-lt x [] h = absurd (ground (arith, h))
index-lt x (y ∷ l) h = ground (arith, h, index-lt x l)

add-present : (x : ℕ) (l : List ℕ) → member x l ≡ true → add x l ≡ l
unfolding add
add-present x l h = rw h refl

add-absent : (x : ℕ) (l : List ℕ) → member x l ≡ false → add x l ≡ l ++ x ∷ []
unfolding add
add-absent x l h = rw h refl

last_new : (x n : ℕ) (l : List ℕ) → member x (l ++ n ∷ []) ≡ true → member x l ≡ false → n ≡ x
unfolding member
last_new x n l h k = ground (arith, h, k, member-append x l (n ∷ []))

module _ (next : ℕ → Option (List ℕ)) where
  -- each node of the list comes after its dependencies
  abbrev pub InOrder : List ℕ → Type 0
  InOrder l =
      (n d : ℕ) (ds : List ℕ)
      → member n l ≡ true
      → next n ≡ some ds
      → member d ds ≡ true
      → (member d l ≡ true) × (index d l < index n l)

  InOrder-add :
      (n : ℕ) (ds l : List ℕ)
      → InOrder l
      → next n ≡ some ds
      → ((d : ℕ) → member d ds ≡ true → member d l ≡ true)
      → InOrder (add n l)
  unfolding add
  InOrder-add n ds l h e k x d xs m f g = elim (Bool-cases (member n l)) [
    | inl i ↦
        rw (add-present n l i) (h x d xs (subst (λ z. member x z ≡ true) (add-present n l i) m) f g)
    | inr i ↦
        let m' : member x (l ++ n ∷ []) ≡ true =
          subst (λ z. member x z ≡ true) (add-absent n l i) m in
        rw (add-absent n l i, member-append, index-append d n l, index-append x n l)
          (elim (Bool-cases (member x l)) [
            | inl j ↦ let (there, before) = h x d xs j f g in rw (there, j) (refl, before)
            | inr j ↦
                let same : n ≡ x = last_new x n l m' j in
                let there : member d l ≡ true =
                  k d (
                    subst (λ z. member d z ≡ true) (some_inj (sym f ∙ ap next (sym same) ∙ e)) g) in
                rw (there, j, (==_iff n x).1 same) (refl, index-lt d l there)
          ])
  ]

-- A visitor that keeps an order, and marks what it visits.
abbrev Marked : (List ℕ → Type 0) → Marks → List ℕ → Result Halt Marks → Type 0
Marked P m ns (err e) = Unit
Marked P m ns (ok m') =
    P m'.visited
    × ((x : ℕ) → member x m.visited ≡ true → member x m'.visited ≡ true)
    × ((x : ℕ) → member x ns ≡ true → member x m'.visited ≡ true)

only_one : (x n : ℕ) → member x (n ∷ []) ≡ true → n ≡ x
unfolding member
only_one x n h = ground (arith, h)

Marked-join :
    (P : List ℕ → Type 0) (n : ℕ) (ns : List ℕ) (m m' : Marks) (r : Result Halt Marks)
    → Marked P m (n ∷ []) (ok m')
    → Marked P m' ns r
    → Marked P m (n ∷ ns) r
Marked-join P n ns m m' (err e) h k = tt
Marked-join P n ns m m' (ok m'') h k = (
  k.0,
  λ x j. k.1 x (h.1 x j),
  λ x j. elim (Bool-cases (n == x)) [
    | inl e ↦ k.1 x (h.2 x (unfold member in rw e refl))
    | inr e ↦ k.2 x (unfold member in ground (arith, j, e))
  ],
)

Marked-and_then :
    (P : List ℕ → Type 0) (n : ℕ) (ns : List ℕ) (m : Marks) (r : Result Halt Marks) (v : Visit)
    → Marked P m (n ∷ []) r
    → ((m' : Marks) → P m'.visited → Marked P m' ns (v m'))
    → Marked P m (n ∷ ns) (and_then r v)
unfolding and_then
Marked-and_then P n ns m (err e) v h k = tt
Marked-and_then P n ns m (ok m') v h k = Marked-join P n ns m m' (v m') h (k m' h.0)

visit_each-Marked :
    (P : List ℕ → Type 0) (v : ℕ → Visit) (ns : List ℕ) (m : Marks)
    → ((n : ℕ) (m : Marks) → P m.visited → Marked P m (n ∷ []) (v n m))
    → P m.visited
    → Marked P m ns (visit_each v ns m)
unfolding visit_each
visit_each-Marked P v [] m h p = (p, λ x k. k, λ x k. absurd (unfold member in ground (arith, k)))
visit_each-Marked P v (n ∷ ns) m h p =
    Marked-and_then P n ns m (v n m) (visit_each v ns) (h n m p)
      (λ m' q. visit_each-Marked P v ns m' h q)

module _ (next : ℕ → Option (List ℕ)) where
  leave-Marked :
      (fuel n : ℕ) (ds : List ℕ) (m : Marks) (r : Result Halt Marks)
      → next n ≡ some ds
      → Marked (InOrder next) m ds r
      → Marked (InOrder next) m (n ∷ []) (leave next n r)
  unfolding leave
  leave-Marked fuel n ds m (err e) f h = tt
  leave-Marked fuel n ds m (ok m') f h = (
    InOrder-add next n ds m'.visited h.0 f h.2,
    λ x k. rw (member-add n x m'.visited, h.1 x k) (ground arith),
    λ x k. rw (only_one x n k, member-add x x m'.visited, ==_refl x) refl,
  )

  visit-Marked :
      (fuel n : ℕ) (m : Marks)
      → InOrder next m.visited
      → Marked (InOrder next) m (n ∷ []) (visit next fuel n m)
  unfolding visit
  visit-Marked zero n m h = tt
  visit-Marked (suc fuel) n m h = elim (Bool-cases (member n m.visiting)) [
    | inl i ↦ rw (visit, i) tt
    | inr i ↦ elim (Bool-cases (member n m.visited)) [
      | inl j ↦
          rw (visit, i, j)
            (h, λ x k. k, λ x k. subst (λ z. member z m.visited ≡ true) (only_one x n k) j)
      | inr j ↦ elim (Option-cases (next n)) [
        | inl e ↦ rw (visit, i, j, e) tt
        | inr (ds, e) ↦
            rw (visit, i, j, e)
              (leave-Marked fuel n ds m _ e (
                visit_each-Marked (InOrder next) (visit next fuel) ds
                  (record m { visiting = add n m.visiting }) (visit-Marked fuel) h))
      ]
    ]
  ]

  -- The search accepts only a graph whose nodes have a rank above those of their dependencies: the
  -- order in which the nodes were left.
  pub visit_all-ranks :
      (nodes : List ℕ) (m : Marks)
      → visit_all next nodes ≡ ok m
      → (n d : ℕ) (ds : List ℕ) → member n nodes ≡ true
      → next n ≡ some ds
      → member d ds ≡ true
      → index d m.visited < index n m.visited
  unfolding visit_all
  visit_all-ranks nodes m h n d ds i e j =
      let start : Marks = record { visiting = []; visited = [] } in
      let marked : Marked (InOrder next) start nodes (ok m) =
        subst (Marked (InOrder next) start nodes) h (
          visit_each-Marked (InOrder next) (visit next (suc (length nodes))) nodes start
            (visit-Marked (suc (length nodes)))
            (λ n d ds k. absurd (unfold member in ground (arith, k)))) in
      (marked.0 n d ds (marked.2 n i) e j).1
