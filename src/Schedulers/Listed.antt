-- ===== src/Schedulers/Listed.antt =====
-- What `topological_sort` of DAGScheduler (aruntime/scheduler/dag.py) answers.
use agent_runtime.Prelude.{
  ℕ, ◌+◌, ◌≤◌, ◌<◌, zero, suc, true, false, List, [], ◌∷◌, ◌++◌, Option, some, none, ◌≡◌, ◌≢◌, refl,
  arith, length, Bool-cases, inl, inr, ◌==◌, ==_iff, ap, sym, subst, ◌∙◌,
}
use agent_runtime.Prelude.Int.{ℤ}
use agent_runtime.Prelude.Result.{Result, ok, err, ◌>>=◌, continue}
use agent_runtime.Prelude.Dict.{Dict, lookup, has, keys}
use agent_runtime.Prelude.Sets.{member, member-append}
use agent_runtime.Kernel.Search.{Nodes, dependents_of}
use agent_runtime.Context.Lists.{IsDistinct, lookup-member}
use agent_runtime.Schedulers.Dag.{Dag, DagError, out_of_fuel}
use agent_runtime.Schedulers.Sorting.{
  Sorting, Sort, is_zero, in_degrees, sources, lower_found, lower, lower_all, take, turn, sort_loop,
  begin, checked, topological_sort,
}
use agent_runtime.Schedulers.Sorted.{
  is_positive, waits, one_if, positives, weight, order, IsFine, lower_found-IsFine,
  lower_found-weight, append_assoc, zero-positive,
}

abbrev Fine : Nodes → Sorting → Type 0
Fine nodes s = IsFine nodes s.in_degree (order s)

-- what the inner loop keeps
abbrev Low : Nodes → Sorting → Result DagError (Unit {0}) × Sorting → Type 0
Low nodes s (r, s') =
    (r ≢ err out_of_fuel) × ((weight s' ≤ weight s) × (Fine nodes s → Fine nodes s'))

lower_found-answers :
    (dep : ℕ) (o : Option ℤ) (s : Sorting) → (lower_found dep o s).0 ≢ err out_of_fuel
unfolding lower_found
lower_found-answers dep none s = λ e. cc
lower_found-answers dep (some n) s = λ e. ground (arith, e)

lower-Low : (nodes : Nodes) (dep : ℕ) (s : Sorting) → Low nodes s (lower dep s)
unfolding lower
lower-Low nodes dep s =
    let o = lookup dep s.in_degree in
    (
      lower_found-answers dep o s,
      (lower_found-weight dep o s refl, lower_found-IsFine nodes dep o s refl),
    )

continue-Low :
    (nodes : Nodes) (s : Sorting) (x : Result DagError (Unit {0}) × Sorting) (f : Unit {0} → Sort)
    → Low nodes s x
    → ((u : Unit {0}) (s' : Sorting) → Low nodes s' (f u s'))
    → Low nodes s (continue x.0 f x.1)
continue-Low nodes s (ok u, s') f (n, (w, k)) go =
    let l = go u s' in (l.0, (omega (arith, w, l.1.0), λ h. l.1.1 (k h)))
continue-Low nodes s (err e, s') f (n, l) go = (λ p. n (cc), l)

lower_all-Low : (nodes : Nodes) (deps : List ℕ) (s : Sorting) → Low nodes s (lower_all deps s)
unfolding lower_all ◌>>=◌
lower_all-Low nodes [] s = (λ e. cc, (omega arith, λ h. h))
lower_all-Low nodes (dep ∷ deps) s =
    continue-Low nodes s (lower dep s) (λ u. lower_all deps) (lower-Low nodes dep s)
      (λ u s'. lower_all-Low nodes deps s')

abbrev Ends : Nodes → Result DagError (Unit {0}) × Sorting → Type 0
Ends nodes (r, s) = (r ≢ err out_of_fuel) × Fine nodes s

continue-Ends :
    (nodes : Nodes) (s : Sorting) (x : Result DagError (Unit {0}) × Sorting) (f : Unit {0} → Sort)
    → Low nodes s x
    → Fine nodes s
    → ((u : Unit {0}) (s' : Sorting) → Fine nodes s' → weight s' ≤ weight s → Ends nodes (f u s'))
    → Ends nodes (continue x.0 f x.1)
continue-Ends nodes s (ok u, s') f (n, (w, k)) h go = go u s' (k h) w
continue-Ends nodes s (err e, s') f (n, (w, k)) h go = (λ p. n (cc), k h)

turn-Ends :
    (fuel : ℕ) (nodes : Nodes) (next : Sort) (queue : List ℕ) (s : Sorting)
    → ((s' : Sorting) → Fine nodes s' → weight s' < fuel → Ends nodes (next s'))
    → s.queue ≡ queue
    → Fine nodes s
    → weight s < suc fuel
    → Ends nodes (turn nodes next queue s)
unfolding turn take ◌>>=◌
turn-Ends fuel nodes next [] s go e h b = (λ p. cc, h)
turn-Ends fuel nodes next (id ∷ rest) s go e h b =
    let t = take id rest s in
    let deps = dependents_of (lookup id nodes) in
    let same : order s ≡ order t =
      ap (λ q. s.result ++ q) e ∙ sym (append_assoc s.result (id ∷ []) rest) in
    let len : length s.queue ≡ length rest + 1 = ap length e ∙ (omega arith) in
    continue-Ends nodes t (lower_all deps t) (λ u. next) (lower_all-Low nodes deps t)
      (subst (IsFine nodes s.in_degree) same h) (λ u s' f w. go s' f (omega (arith, w, len, b)))

sort_loop-Ends :
    (fuel : ℕ) (nodes : Nodes) (s : Sorting)
    → Fine nodes s
    → weight s < fuel
    → Ends nodes (sort_loop fuel nodes s)
unfolding sort_loop
sort_loop-Ends zero nodes s h b = absurd (omega (arith, b))
sort_loop-Ends (suc fuel) nodes s h b =
    turn-Ends fuel nodes (sort_loop fuel nodes) s.queue s (sort_loop-Ends fuel nodes) refl h b

keys-in_degrees : (nodes : Nodes) → keys (in_degrees nodes) ≡ keys nodes
unfolding keys in_degrees
keys-in_degrees [] = refl
keys-in_degrees ((k, n) ∷ d) = ap (λ t. k ∷ t) (keys-in_degrees d)

member-sources : (x : ℕ) (d : Dict ℤ) → member x (sources d) ≡ true → member x (keys d) ≡ true
unfolding sources member keys
member-sources x [] h = h
member-sources x ((k, n) ∷ d) h = ground (arith, h, member-sources x d)

sources-IsDistinct : (d : Dict ℤ) → IsDistinct (keys d) → IsDistinct (sources d)
unfolding sources keys
sources-IsDistinct [] h = tt
sources-IsDistinct ((k, n) ∷ d) h = elim (Bool-cases (is_zero n)) [
  | inl e ↦ rw e (ground (arith, h.0, member-sources k d), sources-IsDistinct d h.1)
  | inr e ↦ rw e (sources-IsDistinct d h.1)
]

sources-settled :
    (x : ℕ) (d : Dict ℤ)
    → IsDistinct (keys d)
    → member x (sources d) ≡ true
    → waits (lookup x d) ≡ false
unfolding sources member keys lookup
sources-settled x [] h m = refl
sources-settled x ((k, n) ∷ d) h m = elim (Bool-cases (k == x)) [
  | inl e ↦ elim (Bool-cases (is_zero n)) [
    | inl z ↦ rw e (zero-positive n z)
    | inr z ↦
        let inside : member x (keys d) ≡ true = member-sources x d (ground (arith, m, z)) in
        let out : member x (keys d) ≡ false =
          subst (λ y. member y (keys d) ≡ false) ((==_iff k x).0 e) h.0 in
        absurd (cc)
  ]
  | inr e ↦ rw e (sources-settled x d h.1 (ground (arith, m, e)))
]

zero-one_if : (n : ℤ) → one_if (is_positive n) + one_if (is_zero n) ≤ 1
zero-one_if n = ground arith

sources-weight : (nodes : Nodes) → weight (begin nodes) ≤ length nodes
unfolding begin in_degrees sources positives
sources-weight [] = omega arith
sources-weight ((k, node) ∷ d) = ground (arith, sources-weight d)

module _ {V : Type 0} where
  has-member : (x : ℕ) (d : Dict V) → has x d ≡ member x (keys d)
  unfolding has
  has-member x d = lookup-member x d

begin-Fine : (nodes : Nodes) → IsDistinct (keys nodes) → Fine nodes (begin nodes)
unfolding begin
begin-Fine nodes h =
    let deg = in_degrees nodes in
    let same = keys-in_degrees nodes in
    let h' = subst IsDistinct (sym same) h in
    record {
      distinct = sources-IsDistinct deg h';
      settled = λ x m. sources-settled x deg h' m;
      known = λ x m. has-member x nodes ∙ ap (member x) (sym same) ∙ member-sources x deg m;
      degrees = λ x. has-member x deg ∙ ap (member x) same ∙ sym (has-member x nodes);
    }

IsDistinct-front : (xs ys : List ℕ) → IsDistinct (xs ++ ys) → IsDistinct xs
IsDistinct-front [] ys h = tt
IsDistinct-front (x ∷ xs) ys h =
    (ground (arith, h.0, member-append x xs ys), IsDistinct-front xs ys h.1)

-- a list of tasks of the graph, each of them once
abbrev pub Listed : Dag → List ℕ → Type 0
Listed d xs =
    IsDistinct xs
    × ((length xs ≡ length d.nodes) × ((x : ℕ) → member x xs ≡ true → has x d.nodes ≡ true))

ok_inj : {xs ys : List ℕ} {r : Result DagError (List ℕ)} → r ≡ ok xs → r ≡ ok ys → xs ≡ ys
ok_inj h k = cc

checked-Listed :
    (d : Dag) (x : Result DagError (Unit {0}) × Sorting) (xs : List ℕ)
    → Fine d.nodes x.1
    → checked d.nodes x ≡ ok xs
    → Listed d xs
unfolding checked
checked-Listed d (err e, s) xs h p = absurd (cc)
checked-Listed d (ok u, s) xs h p = elim (Bool-cases (length s.result == length d.nodes)) [
  | inl e ↦
      subst (Listed d) (ok_inj {r = checked d.nodes (ok u, s)} (unfold checked in rw e refl) p) (
        IsDistinct-front s.result s.queue h.distinct,
        (
          (==_iff (length s.result) (length d.nodes)).0 e,
          λ x m. h.known x (ground (arith, m, member-append x s.result s.queue)),
        ),
      )
  | inr e ↦ absurd (ground (arith, p, e))
]

checked-answers :
    (nodes : Nodes) (x : Result DagError (Unit {0}) × Sorting)
    → x.0 ≢ err out_of_fuel
    → checked nodes x ≢ err out_of_fuel
unfolding checked
checked-answers nodes (err e, s) n = λ p. n (cc)
checked-answers nodes (ok u, s) n = λ p. ground (arith, p)

-- `topological_sort` comes to an end, and a list that it returns has as many tasks as the graph, each
-- of the graph and none of them twice. (No task stands twice in the dictionary of nodes.)
pub topological_sort-Listed :
    (d : Dag)
    → IsDistinct (keys d.nodes)
    → (topological_sort d ≢ err out_of_fuel)
      × ((xs : List ℕ) → topological_sort d ≡ ok xs → Listed d xs)
unfolding topological_sort
topological_sort-Listed d h =
    let n = suc (length d.nodes) in
    let r =
      sort_loop-Ends n d.nodes (begin d.nodes) (begin-Fine d.nodes h)
        (omega (arith, sources-weight d.nodes)) in
    let x = sort_loop n d.nodes (begin d.nodes) in
    (checked-answers d.nodes x r.0, λ xs p. checked-Listed d x xs r.1 p)
