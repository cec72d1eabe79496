-- ===== src/Prelude/Sets.antt =====
-- Python's `set` of opaque elements, as a list in order of insertion.
use agent_runtime.Prelude.Tests.{◌==◌, if◌then◌else◌}
use Prim.Native.Nat.{ℕ}
use mathlib.Core.Path.{◌≡◌, refl}
use mathlib.Core.Bool.{Bool, true, false}
use mathlib.Core.List.{List, [], ◌∷◌, ◌++◌}
use native.Mathlib.Omega.{arith}

-- x in s
unfoldable pub member : ℕ → List ℕ → Bool
member x [] = false
member x (y ∷ ys) = if y == x then true else member x ys

-- s.add(x)
unfoldable pub add : ℕ → List ℕ → List ℕ
unfolding member
add x s = if member x s then s else s ++ x ∷ []

-- s.discard(x)
unfoldable pub discard : ℕ → List ℕ → List ℕ
discard x [] = []
discard x (y ∷ ys) = let rest = discard x ys in if y == x then rest else y ∷ rest

-- l.remove(x): the first occurrence, for an `x` that stands in `l`
unfoldable pub remove_first : ℕ → List ℕ → List ℕ
remove_first x [] = []
remove_first x (y ∷ ys) = let rest = remove_first x ys in if y == x then ys else y ∷ rest

-- set(l), and list(dict.fromkeys(l)): the first occurrence of each element
unfoldable pub dedup_from : List ℕ → List ℕ → List ℕ
unfolding member add
dedup_from seen [] = seen
dedup_from seen (x ∷ xs) = dedup_from (add x seen) xs

unfoldable pub dedup : List ℕ → List ℕ
unfolding dedup_from
dedup xs = dedup_from [] xs

pub member-append :
    (x : ℕ) (xs ys : List ℕ) → member x (xs ++ ys) ≡ (if member x xs then true else member x ys)
unfolding member
member-append x [] ys = refl
member-append x (z ∷ xs) ys = ground (arith, member-append x xs ys)

pub member-add : (x y : ℕ) (s : List ℕ) → member y (add x s) ≡ (if x == y then true else member y s)
unfolding member add
member-add x y s = ground (arith, member-append y s (x ∷ []))

pub member-discard :
    (x y : ℕ) (s : List ℕ) → member y (discard x s) ≡ (if x == y then false else member y s)
unfolding member discard
member-discard x y [] = ground arith
member-discard x y (z ∷ s) = ground (arith, member-discard x y s)

pub ruleset set_laws = (member-append, member-add, member-discard)
