-- ===== src/Plans/Maps.antt =====
-- The dictionary of dependencies that both validators build from their tasks, where no identifier stands
-- twice (aruntime/planner/validator.py, applications/incident_repair/routing.py).
use agent_runtime.Prelude.{
  ℕ, ◌+◌, ◌≤◌, true, false, some, List, [], ◌∷◌, ◌++◌, ◌≡◌, refl, arith, if◌then◌else◌, length,
  length-append, ◌==◌, ==_iff, ==_refl, Bool-cases, inl, inr, is_some, All, some_inj, subst, ap,
}
use agent_runtime.Prelude.Dict.{Dict, lookup, insert, lookup-insert, lookup-insert_self}
use agent_runtime.Prelude.Sets.{member, add, dedup, dedup_from, member-append}
use agent_runtime.Context.Lists.{IsDistinct}

-- The tasks as pairs of an identifier and its dependencies.
abbrev pub Item : Type 0
Item = ℕ × List ℕ

unfoldable pub map_of : List Item → Dict (List ℕ) → Dict (List ℕ)
unfolding insert
map_of [] d = d
map_of ((n, ds) ∷ is) d = map_of is (insert n ds d)

unfoldable pub item_ids : List Item → List ℕ
item_ids [] = []
item_ids ((n, ds) ∷ is) = n ∷ item_ids is

pub has-map_of :
    (k : ℕ) (is : List Item) (m : Dict (List ℕ))
    → is_some (lookup k (map_of is m))
      ≡ (if member k (item_ids is) then true else is_some (lookup k m))
unfolding map_of item_ids member
has-map_of k [] m = refl
has-map_of k ((n, ds) ∷ is) m =
    rw (has-map_of k is (insert n ds m), lookup-insert n k ds m) (ground arith)

lookup-map_of_other :
    (k : ℕ) (is : List Item) (m : Dict (List ℕ))
    → member k (item_ids is) ≡ false
    → lookup k (map_of is m) ≡ lookup k m
unfolding map_of item_ids member
lookup-map_of_other k [] m h = refl
lookup-map_of_other k ((n, ds) ∷ is) m h = elim (Bool-cases (n == k)) [
  | inl e ↦ absurd (ground (arith, h, e))
  | inr e ↦
      rw
        (lookup-map_of_other k is (insert n ds m) (ground (arith, h, e)), lookup-insert n k ds m, e)
        refl
]

-- each task finds its own dependencies
pub lookup-map_of :
    (is : List Item) (m : Dict (List ℕ))
    → IsDistinct (item_ids is)
    → All (λ i. lookup i.0 (map_of is m) ≡ some i.1) is
unfolding map_of item_ids
lookup-map_of [] m h = tt
lookup-map_of ((n, ds) ∷ is) m h = (
  rw (lookup-map_of_other n is (insert n ds m) h.0, lookup-insert_self n ds m) refl,
  lookup-map_of is (insert n ds m) h.1,
)

-- what is found are the dependencies of a task
pub map_of-All :
    (P : List ℕ → Type 0) (is : List Item) (m : Dict (List ℕ)) (k : ℕ) (ds : List ℕ)
    → ((k : ℕ) (ds : List ℕ) → lookup k m ≡ some ds → P ds)
    → All (λ i. P i.1) is
    → lookup k (map_of is m) ≡ some ds
    → P ds
unfolding map_of
map_of-All P [] m k ds h a e = h k ds e
map_of-All P ((n, xs) ∷ is) m k ds h a e =
    map_of-All P is (insert n xs m) k ds
      (λ j ys f. elim (Bool-cases (n == j)) [
        | inl s ↦ subst P (some_inj (ground (arith, f, s, lookup-insert n j xs m))) a.0
        | inr s ↦ h j ys (ground (arith, f, s, lookup-insert n j xs m))
      ])
      a.1 e

-- A list that `set` does not shorten has no element twice.
length-dedup_from-le : (seen xs : List ℕ) → length (dedup_from seen xs) ≤ length seen + length xs
unfolding dedup_from
length-dedup_from-le seen [] = omega arith
length-dedup_from-le seen (x ∷ xs) = elim (Bool-cases (member x seen)) [
  | inl e ↦ rw (add, e) (omega (arith, length-dedup_from-le seen xs))
  | inr e ↦
      rw (add, e)
        (omega (arith, length-dedup_from-le (seen ++ x ∷ []) xs, length-append seen (x ∷ [])))
]

dedup_from-known :
    (seen : List ℕ) (x : ℕ) (xs : List ℕ)
    → member x seen ≡ true
    → dedup_from seen (x ∷ xs) ≡ dedup_from seen xs
unfolding dedup_from
dedup_from-known seen x xs h = rw (add, h) refl

dedup_from-new :
    (seen : List ℕ) (x : ℕ) (xs : List ℕ)
    → member x seen ≡ false
    → dedup_from seen (x ∷ xs) ≡ dedup_from (seen ++ x ∷ []) xs
unfolding dedup_from
dedup_from-new seen x xs h = rw (add, h) refl

unseen : (x y : ℕ) (seen : List ℕ) → member y (seen ++ x ∷ []) ≡ false → member y seen ≡ false
unseen x y seen h = ground (arith, h, member-append y seen (x ∷ []))

once :
    (x : ℕ) (seen xs : List ℕ)
    → ((y : ℕ) → member y xs ≡ true → member y (seen ++ x ∷ []) ≡ false)
    → member x xs ≡ false
once x seen xs h = elim (Bool-cases (member x xs)) [
  | inl e ↦
      let here : member x (x ∷ []) ≡ true = unfold member in rw (==_refl x) refl in
      absurd (ground (arith, h x e, here, member-append x seen (x ∷ [])))
  | inr e ↦ e
]

dedup_from-IsDistinct :
    (seen xs : List ℕ)
    → length (dedup_from seen xs) ≡ length seen + length xs
    → IsDistinct xs × ((x : ℕ) → member x xs ≡ true → member x seen ≡ false)
unfolding dedup_from
dedup_from-IsDistinct seen [] h = (tt, λ x k. absurd (unfold member in ground (arith, k)))
dedup_from-IsDistinct seen (x ∷ xs) h = elim (Bool-cases (member x seen)) [
  | inl e ↦
      absurd
        (omega (arith, h, ap length (dedup_from-known seen x xs e), length-dedup_from-le seen xs))
  | inr e ↦
      let (apart, fresh) =
        dedup_from-IsDistinct (seen ++ x ∷ []) xs
          (omega (arith, h, ap length (dedup_from-new seen x xs e), length-append seen (x ∷ []))) in
      (
        (once x seen xs fresh, apart),
        λ y k. elim (Bool-cases (x == y)) [
          | inl s ↦ rw (← (==_iff x y).0 s) e
          | inr s ↦ unseen x y seen (fresh y (unfold member in ground (arith, k, s)))
        ],
      )
]

pub dedup-IsDistinct : (xs : List ℕ) → (length xs == length (dedup xs)) ≡ true → IsDistinct xs
unfolding dedup
dedup-IsDistinct xs h =
    (dedup_from-IsDistinct [] xs
      (omega (arith, (==_iff (length xs) (length (dedup_from [] xs))).0 h))).0
