-- ===== src/Kernel/Paths.antt =====
-- The answer of `_has_dependent_path` (aruntime/scheduler/kernel.py) against the existence of a path
-- from a task to its dependents and on.
use agent_runtime.Kernel.Search.{
  Nodes, dependents_of, push_all, path_search, unseen, has_dependent_path,
}
use agent_runtime.Prelude.Sets.{member, add, member-add}
use agent_runtime.Prelude.Dict.{lookup}
use agent_runtime.Prelude.{
  ◌∷◌, [], true, none, ◌≡◌, suc, zero, refl, false, some, Option, List, ℕ, Bool, if◌then◌else◌,
  length, ◌==◌, ◌+◌, arith, ◌≤◌, ◌<◌, ◌≢◌, inl, inr, Bool-cases, ◌⊎◌, subst,
}

-- `b` is `a`, or a dependent of a task that `a` leads to.
pub data Leads (d : Nodes) (a : ℕ) : ℕ → Type 0 where
  here : Leads d a a
  on : {b : ℕ} (c : ℕ) → Leads d a b → member c (dependents_of (lookup b d)) ≡ true → Leads d a c

length-push_all : (xs stack : List ℕ) → length (push_all xs stack) ≡ length xs + length stack
unfolding push_all
length-push_all [] stack = omega arith
length-push_all (x ∷ xs) stack = omega (arith, length-push_all xs (x ∷ stack))

unseen-add_le : (x : ℕ) (seen : List ℕ) (d : Nodes) → unseen (add x seen) d ≤ unseen seen d
unfolding unseen
unseen-add_le x seen [] = omega arith
unseen-add_le x seen ((k, n) ∷ d) = ground (arith, unseen-add_le x seen d, member-add x k seen)

unseen-add :
    (x : ℕ) (seen : List ℕ) (d : Nodes)
    → member x seen ≡ false
    → unseen (add x seen) d + length (dependents_of (lookup x d)) ≤ unseen seen d
unfolding unseen lookup
unseen-add x seen [] h = omega arith
unseen-add x seen ((k, n) ∷ d) h =
    ground (arith, unseen-add x seen d h, member-add x k seen, unseen-add_le x seen d)

search_ends :
    (fuel : ℕ) (d : Nodes) (target : ℕ) (seen stack : List ℕ)
    → length stack + unseen seen d < fuel
    → path_search fuel d target seen stack ≢ none
unfolding path_search
search_ends zero d target seen stack h = elim h [ ]
search_ends (suc fuel) d target seen [] h = λ e. cc
search_ends (suc fuel) d target seen (c ∷ stack) h = ground (
  arith,
  search_ends fuel d target seen stack,
  search_ends fuel d target (add c seen) (push_all (dependents_of (lookup c d)) stack),
  unseen-add c seen d,
  length-push_all (dependents_of (lookup c d)) stack,
)

abbrev AllLead : Nodes → ℕ → List ℕ → Type 0
AllLead d a stack = (x : ℕ) → member x stack ≡ true → Leads d a x

member-push_all :
    (x : ℕ) (xs stack : List ℕ)
    → member x (push_all xs stack) ≡ (if member x xs then true else member x stack)
unfolding push_all member
member-push_all x [] stack = refl
member-push_all x (y ∷ xs) stack = ground (arith, member-push_all x xs (y ∷ stack))

tail_leads : (d : Nodes) (a c : ℕ) (stack : List ℕ) → AllLead d a (c ∷ stack) → AllLead d a stack
unfolding member
tail_leads d a c stack all x h = all x (ground (arith, h))

head-Leads : (d : Nodes) (a c : ℕ) (stack : List ℕ) → AllLead d a (c ∷ stack) → Leads d a c
unfolding member
head-Leads d a c stack all = all c (ground arith)

pushed_leads :
    (d : Nodes) (a c : ℕ) (stack : List ℕ)
    → AllLead d a (c ∷ stack)
    → AllLead d a (push_all (dependents_of (lookup c d)) stack)
pushed_leads d a c stack all x h = elim (Bool-cases (member x (dependents_of (lookup c d)))) [
  | inl e ↦ on x (head-Leads d a c stack all) e
  | inr e ↦
      tail_leads d a c stack all x
        (ground (arith, h, e, member-push_all x (dependents_of (lookup c d)) stack))
]

test_cases :
    (p q : Bool) (a b : Option Bool) (r : Bool)
    → (if p then some true else if q then a else b) ≡ some r
    → (p ≡ true × r ≡ true) ⊎ (p ≡ false × ((q ≡ true × a ≡ some r) ⊎ (q ≡ false × b ≡ some r)))
test_cases true q a b r h = inl (refl, cc)
test_cases false true a b r h = inr (refl, inl (refl, h))
test_cases false false a b r h = inr (refl, inr (refl, h))

abbrev expanded : ℕ → Nodes → ℕ → List ℕ → ℕ → List ℕ → Option Bool
expanded fuel d target seen c stack =
    path_search fuel d target (add c seen) (push_all (dependents_of (lookup c d)) stack)

-- one turn of the loop that has a node on its stack
turn_cases :
    (fuel : ℕ) (d : Nodes) (target : ℕ) (seen : List ℕ) (c : ℕ) (stack : List ℕ) (r : Bool)
    → path_search (suc fuel) d target seen (c ∷ stack) ≡ some r
    → ((c == target) ≡ true × r ≡ true)
      ⊎ ((c == target) ≡ false
          × ((member c seen ≡ true × path_search fuel d target seen stack ≡ some r)
              ⊎ (member c seen ≡ false × expanded fuel d target seen c stack ≡ some r)))
unfolding path_search
turn_cases fuel d target seen c stack r h =
    test_cases (c == target) (member c seen) (path_search fuel d target seen stack)
      (expanded fuel d target seen c stack) r h

search_sound :
    (fuel : ℕ) (d : Nodes) (start target : ℕ) (seen stack : List ℕ)
    → AllLead d start stack
    → path_search fuel d target seen stack ≡ some true
    → Leads d start target
unfolding path_search
search_sound zero d start target seen stack all h = absurd (cc)
search_sound (suc fuel) d start target seen [] all h = absurd (cc)
search_sound (suc fuel) d start target seen (c ∷ stack) all h =
    elim (turn_cases fuel d target seen c stack true h) [
      | inl e ↦ subst (Leads d start) (ground (arith, e.0)) (head-Leads d start c stack all)
      | inr e ↦ elim e.1 [
        | inl f ↦ search_sound fuel d start target seen stack (tail_leads d start c stack all) f.1
        | inr f ↦
            search_sound fuel d start target (add c seen)
              (push_all (dependents_of (lookup c d)) stack) (pushed_leads d start c stack all) f.1
      ]
    ]

-- A set that holds what is seen, what is on the stack and the dependents of its members, but not
-- the target.
record Closed (d : Nodes) (target : ℕ) (seen stack : List ℕ) : Type 0 where
  final : List ℕ
  seen_in : (x : ℕ) → member x seen ≡ true → member x final ≡ true
  stack_in : (x : ℕ) → member x stack ≡ true → member x final ≡ true
  without : member target final ≡ false
  closed :
      (x y : ℕ)
      → member x final ≡ true
      → member y (dependents_of (lookup x d)) ≡ true
      → member y final ≡ true

-- The dependents of what is seen are seen or on the stack.
abbrev Ahead : Nodes → List ℕ → List ℕ → Type 0
Ahead d seen stack =
    (x y : ℕ)
    → member x seen ≡ true
    → member y (dependents_of (lookup x d)) ≡ true
    → (if member y seen then true else member y stack) ≡ true

Closed-skip :
    (d : Nodes) (target c : ℕ) (seen stack : List ℕ)
    → member c seen ≡ true
    → Closed d target seen stack
    → Closed d target seen (c ∷ stack)
unfolding member
Closed-skip d target c seen stack e r = record {
  final = r.final;
  seen_in = r.seen_in;
  stack_in = λ x p. ground (arith, p, e, r.seen_in c, r.stack_in x);
  without = r.without;
  closed = r.closed;
}

Closed-expand :
    (d : Nodes) (target c : ℕ) (xs seen stack : List ℕ)
    → Closed d target (add c seen) (push_all xs stack)
    → Closed d target seen (c ∷ stack)
unfolding member
Closed-expand d target c xs seen stack r = record {
  final = r.final;
  seen_in = λ x p. ground (arith, p, member-add c x seen, r.seen_in x);
  stack_in = λ x p.
      ground (arith, p, member-add c c seen, r.seen_in c, r.stack_in x, member-push_all x xs stack);
  without = r.without;
  closed = r.closed;
}

Ahead-skip :
    (d : Nodes) (c : ℕ) (seen stack : List ℕ)
    → member c seen ≡ true
    → Ahead d seen (c ∷ stack)
    → Ahead d seen stack
unfolding member
Ahead-skip d c seen stack e ahead x y p q = ground (arith, e, ahead x y p q)

Ahead-expand :
    (d : Nodes) (c : ℕ) (seen stack : List ℕ)
    → Ahead d seen (c ∷ stack)
    → Ahead d (add c seen) (push_all (dependents_of (lookup c d)) stack)
unfolding member
Ahead-expand d c seen stack ahead x y p q = ground (
  arith,
  p,
  q,
  ahead x y,
  member-add c x seen,
  member-add c y seen,
  member-push_all y (dependents_of (lookup c d)) stack,
)

search-Closed :
    (fuel : ℕ) (d : Nodes) (target : ℕ) (seen stack : List ℕ)
    → Ahead d seen stack
    → member target seen ≡ false
    → path_search fuel d target seen stack ≡ some false
    → Closed d target seen stack
unfolding path_search member
search-Closed zero d target seen stack ahead out h = absurd (cc)
search-Closed (suc fuel) d target seen [] ahead out h = record {
  final = seen;
  seen_in = λ x e. e;
  stack_in = λ x e. absurd (cc);
  without = out;
  closed = λ x y e f. ground (arith, ahead x y e f);
}
search-Closed (suc fuel) d target seen (c ∷ stack) ahead out h =
    elim (turn_cases fuel d target seen c stack false h) [
      | inl e ↦ absurd (cc)
      | inr e ↦ elim e.1 [
        | inl f ↦
            Closed-skip d target c seen stack f.0
              (search-Closed fuel d target seen stack (Ahead-skip d c seen stack f.0 ahead) out f.1)
        | inr f ↦ Closed-expand d target c (dependents_of (lookup c d)) seen stack (
            search-Closed fuel d target (add c seen) (push_all (dependents_of (lookup c d)) stack)
              (Ahead-expand d c seen stack ahead)
              (ground (arith, e.0, out, member-add c target seen)) f.1)
      ]
    ]

Leads-within :
    (d : Nodes) (start target : ℕ) (final : List ℕ)
    → member start final ≡ true
    → ((x y : ℕ)
        → member x final ≡ true
        → member y (dependents_of (lookup x d)) ≡ true
        → member y final ≡ true)
    → Leads d start target
    → member target final ≡ true
Leads-within d start target final h closed here = h
Leads-within d start target final h closed (on {b} c p e) =
    closed b target (Leads-within d start b final h closed p) e

-- `_has_dependent_path` always ends, with an answer.
has_dependent_path_ends : (d : Nodes) (start target : ℕ) → has_dependent_path d start target ≢ none
unfolding has_dependent_path
has_dependent_path_ends d start target =
    search_ends (unseen [] d + 2) d target [] (start ∷ []) (omega arith)

answer_cases : (o : Option Bool) → o ≢ none → (o ≡ some true) ⊎ (o ≡ some false)
answer_cases none h = absurd (h refl)
answer_cases (some true) h = inl refl
answer_cases (some false) h = inr refl

no_path :
    (d : Nodes) (start target : ℕ)
    → has_dependent_path d start target ≡ some false
    → ¬ Leads d start target
unfolding has_dependent_path member
no_path d start target e l =
    let r =
      search-Closed (unseen [] d + 2) d target [] (start ∷ []) (λ x y p q. absurd (cc)) refl e in
    let inside = Leads-within d start target r.final (r.stack_in start (ground arith)) r.closed l in
    absurd (ground (arith, inside, r.without))

-- `_has_dependent_path` answers, and answers yes exactly when the target is the start or one of the
-- tasks that depend on it, directly or through others.
pub path_decided :
    (d : Nodes) (start target : ℕ)
    → (has_dependent_path d start target ≡ some true × Leads d start target)
      ⊎ (has_dependent_path d start target ≡ some false × ¬ Leads d start target)
unfolding has_dependent_path member
path_decided d start target =
    elim (answer_cases (has_dependent_path d start target)
      (has_dependent_path_ends d start target)) [
        | inl e ↦ inl (
          e,
          search_sound (unseen [] d + 2) d start target [] (start ∷ [])
              (λ x p. subst (Leads d start) (ground (arith, p)) here) e,
        )
        | inr e ↦ inr (e, λ l. no_path d start target e l)
      ]
