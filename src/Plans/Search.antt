-- ===== src/Plans/Search.antt =====
-- The depth-first search of `_assert_acyclic` (aruntime/planner/validator.py) and
-- `_assert_coder_tasks_acyclic` (applications/incident_repair/routing.py). The recursion is on fuel, one
-- more than there are nodes: each nested visit marks another node as being visited.
use agent_runtime.Prelude.{
  ℕ, suc, zero, true, false, Option, none, some, List, [], ◌∷◌, length, filter, get_or, is_some,
}
use agent_runtime.Prelude.Dict.{Dict, lookup, keys}
use agent_runtime.Prelude.Sets.{member, add, discard}
use agent_runtime.Prelude.Result.{Result, ok, err}

-- The two errors of a visit (a node that is being visited, a node without an entry), and a model that
-- ran out of fuel.
pub data Halt : Type 0 where
  has_cycle no_entry no_fuel : Halt

pub record Marks : Type 0 where
  pub visiting : List ℕ
  pub visited : List ℕ

abbrev pub Visit : Type 0
Visit = Marks → Result Halt Marks

unfoldable pub and_then : Result Halt Marks → Visit → Result Halt Marks
and_then (err e) v = err e
and_then (ok m) v = v m

-- for node in nodes: visit(node)
unfoldable pub visit_each : (ℕ → Visit) → List ℕ → Visit
unfolding and_then
visit_each v [] m = ok m
visit_each v (n ∷ ns) m = and_then (v n m) (visit_each v ns)

module _ (next : ℕ → Option (List ℕ)) where
  -- the marks after the dependencies of a node were visited
  unfoldable pub leave : ℕ → Result Halt Marks → Result Halt Marks
  unfolding add discard
  leave n (err e) = err e
  leave n (ok m) = ok (record { visiting = discard n m.visiting; visited = add n m.visited })

  unfoldable pub visit : ℕ → ℕ → Visit
  unfolding visit_each leave member add
  visit zero n m = err no_fuel
  visit (suc fuel) n m = elim (member n m.visiting) [
    | true ↦ err has_cycle
    | false ↦ elim (member n m.visited) [
      | true ↦ ok m
      | false ↦ elim (next n) [
        | none ↦ err no_entry
        | some ds ↦ leave n (visit_each (visit fuel) ds (record m { visiting = add n m.visiting }))
      ]
    ]
  ]

  unfoldable pub visit_all : List ℕ → Result Halt Marks
  unfolding visit
  visit_all nodes =
      visit_each (visit (suc (length nodes))) nodes (record { visiting = []; visited = [] })

-- deps[node], which raises for a node that is not there
abbrev pub entry : Dict (List ℕ) → ℕ → Option (List ℕ)
entry deps n = lookup n deps

-- what `visit` of the coder tasks goes on to: the dependencies that are coder tasks
abbrev pub inner_entry : Dict (List ℕ) → ℕ → Option (List ℕ)
inner_entry deps n = some (filter (λ d. is_some (lookup d deps)) (get_or (lookup n deps) []))

unfoldable pub assert_acyclic : Dict (List ℕ) → Result Halt Marks
unfolding visit_all keys lookup
assert_acyclic deps = visit_all (entry deps) (keys deps)

unfoldable pub assert_coder_tasks_acyclic : Dict (List ℕ) → Result Halt Marks
unfolding visit_all keys lookup
assert_coder_tasks_acyclic deps = visit_all (inner_entry deps) (keys deps)
