-- ===== src/Schedulers/Sorting.antt =====
-- `topological_sort` of DAGScheduler (aruntime/scheduler/dag.py). A degree may fall below 0: a
-- dependency that was completed before no longer counts, and its node still names the dependent.
use agent_runtime.Prelude.{
  ℕ, zero, suc, Bool, true, false, List, [], ◌∷◌, ◌++◌, Option, some, none, if◌then◌else◌, length,
  ◌==◌,
}
use agent_runtime.Prelude.Int.{ℤ, pos, negsuc}
use agent_runtime.Prelude.Result.{Result, Exec, ok, err, ◌>>=◌, ◌>>◌, pure, raise}
use agent_runtime.Prelude.Dict.{Dict, lookup, insert}
use agent_runtime.Kernel.Search.{Nodes, dependents_of}
use agent_runtime.Schedulers.Dag.{Dag, DagError, key_error, cyclic_dependency, out_of_fuel}

abbrev pub pred : ℤ → ℤ
pred (pos zero) = negsuc 0
pred (pos (suc n)) = pos n
pred (negsuc n) = negsuc (suc n)

abbrev pub is_zero : ℤ → Bool
is_zero (pos zero) = true
is_zero (pos (suc n)) = false
is_zero (negsuc n) = false

-- the local variables of the method
pub record Sorting : Type 0 where
  pub in_degree : Dict ℤ
  pub queue : List ℕ
  pub result : List ℕ

abbrev pub Sort : Type 0
Sort = Exec DagError Sorting (Unit {0})

unfoldable pub in_degrees : Nodes → Dict ℤ
in_degrees [] = []
in_degrees ((k, node) ∷ d) = (k, pos (length node.dependencies)) ∷ in_degrees d

unfoldable pub sources : Dict ℤ → List ℕ
sources [] = []
sources ((k, n) ∷ d) = let rest = sources d in if is_zero n then k ∷ rest else rest

unfoldable pub lower_found : ℕ → Option ℤ → Sort
lower_found dep none s = (err (key_error dep), s)
lower_found dep (some n) s =
    let s' = record s { in_degree = insert dep (pred n) s.in_degree } in
    if is_zero (pred n) then (ok tt, record s' { queue = s.queue ++ dep ∷ [] }) else (ok tt, s')

-- one turn of the inner loop
unfoldable pub lower : ℕ → Sort
unfolding lower_found
lower dep s = lower_found dep (lookup dep s.in_degree) s

unfoldable pub lower_all : List ℕ → Sort
unfolding lower ◌>>=◌
lower_all [] = pure tt
lower_all (dep ∷ deps) = do lower dep; lower_all deps

unfoldable pub take : ℕ → List ℕ → Sorting → Sorting
take id rest s = record s { queue = rest; result = s.result ++ id ∷ [] }

-- a turn of the outer loop, with the loop that follows it
unfoldable pub turn : Nodes → Sort → List ℕ → Sort
unfolding lower_all take ◌>>=◌
turn nodes next [] s = (ok tt, s)
turn nodes next (id ∷ rest) s =
    (do lower_all (dependents_of (lookup id nodes)); next) (take id rest s)

unfoldable pub sort_loop : ℕ → Nodes → Sort
unfolding turn
sort_loop zero nodes = raise out_of_fuel
sort_loop (suc fuel) nodes = λ s. turn nodes (sort_loop fuel nodes) s.queue s

unfoldable pub begin : Nodes → Sorting
unfolding in_degrees sources
begin nodes = record {
  in_degree = in_degrees nodes;
  queue = sources (in_degrees nodes);
  result = [];
}

unfoldable pub checked : Nodes → Result DagError (Unit {0}) × Sorting → Result DagError (List ℕ)
checked nodes (err e, s) = err e
checked nodes (ok u, s) =
    if length s.result == length nodes then ok s.result else err cyclic_dependency

unfoldable pub topological_sort : Dag → Result DagError (List ℕ)
unfolding sort_loop begin checked
topological_sort d = checked d.nodes (sort_loop (suc (length d.nodes)) d.nodes (begin d.nodes))
