-- ===== src/Kernel/Search.antt =====
-- `_has_dependent_path` of KernelScheduler (aruntime/scheduler/kernel.py), a search with a stack and
-- a set. The loop takes fuel: the stack's length, plus the dependents of the nodes not yet seen,
-- falls in each turn.
use agent_runtime.Prelude.Sets.{member, add}
use agent_runtime.Prelude.Dict.{Dict, lookup}
use agent_runtime.Prelude.{
  ◌∷◌, [], true, none, suc, zero, false, some, Option, List, ℕ, Bool, if◌then◌else◌, length, ◌==◌,
  ◌+◌,
}
use agent_runtime.Kernel.Defs.{KernelTaskNode}

abbrev pub Nodes : Type 0
Nodes = Dict KernelTaskNode

abbrev pub dependents_of : Option KernelTaskNode → List ℕ
dependents_of none = []
dependents_of (some node) = node.dependents

-- `stack.extend(xs)`, the top of the stack at the head
unfoldable pub push_all : List ℕ → List ℕ → List ℕ
push_all [] stack = stack
push_all (x ∷ xs) stack = push_all xs (x ∷ stack)

-- the loop; `none` is out of fuel
unfoldable pub path_search : ℕ → Nodes → ℕ → List ℕ → List ℕ → Option Bool
unfolding push_all
path_search zero d target seen stack = none
path_search (suc fuel) d target seen [] = some false
path_search (suc fuel) d target seen (current ∷ stack) =
    let skip = path_search fuel d target seen stack in
    let expand =
      path_search fuel d target (add current seen)
        (push_all (dependents_of (lookup current d)) stack) in
    if current == target then some true else if member current seen then skip else expand

-- the dependents of the nodes that are not seen
unfoldable pub unseen : List ℕ → Nodes → ℕ
unseen seen [] = 0
unseen seen ((k, n) ∷ d) = (if member k seen then 0 else length n.dependents) + unseen seen d

unfoldable pub has_dependent_path : Nodes → ℕ → ℕ → Option Bool
unfolding path_search unseen
has_dependent_path d start target = path_search (unseen [] d + 2) d target [] (start ∷ [])
