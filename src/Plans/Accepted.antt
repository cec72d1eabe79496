-- ===== src/Plans/Accepted.antt =====
-- What an accepted plan is like, and the tasks that are made of it.
use agent_runtime.Plans.Acyclic.{member-All, accepted-IsRank}
use agent_runtime.Plans.Maps.{Item, map_of, item_ids, dedup-IsDistinct, lookup-map_of}
use agent_runtime.Prelude.{
  ℕ, ◌≤◌, ◌<◌, Bool, true, false, some, List, [], ◌∷◌, ◌≡◌, refl, arith, length, leb, ◌&&◌, ◌==◌,
  All, ◌∙◌, ap, subst, sym,
}
use agent_runtime.Prelude.Dict.{Dict, lookup, insert, keys}
use agent_runtime.Prelude.Sets.{member, dedup}
use agent_runtime.Prelude.Result.{Result, ok, err}
use agent_runtime.Context.Lists.{lookup-member, IsDistinct}
use agent_runtime.Plans.Search.{Halt, Marks, assert_acyclic, entry}
use agent_runtime.Plans.Settled.{IsRank}
use agent_runtime.Plans.Validator.{
  PlanTask, PlanSpec, PlanError, Check, also, require, each, ids, has_role, check_task,
  dependency_map, searched, validate_plan, dependency_not_found,
}
use agent_runtime.Planning.Coders.{coder, tester, reviewer}

also-both : (a b : Check) → also a b ≡ ok tt → (a ≡ ok tt) × (b ≡ ok tt)
unfolding also
also-both (ok u) b h = (refl, h)
also-both (err e) b h = absurd (ground (arith, h))

require-true : (b : Bool) (e : PlanError) → require b e ≡ ok tt → b ≡ true
require-true true e h = refl
require-true false e h = absurd (ground (arith, h))

each-All :
    {A : Type 0} (f : A → Check) (xs : List A) → each f xs ≡ ok tt → All (λ x. f x ≡ ok tt) xs
unfolding each
each-All f [] h = tt
each-All f (x ∷ xs) h =
    let (first, rest) = also-both (f x) (each f xs) h in (first, each-All f xs rest)

abbrev items : List PlanTask → List Item
items [] = []
items (t ∷ ts) = (t.local_id, t.dependencies) ∷ items ts

map-items : (ts : List PlanTask) (m : Dict (List ℕ)) → dependency_map ts m ≡ map_of (items ts) m
unfolding dependency_map map_of
map-items [] m = refl
map-items (t ∷ ts) m = map-items ts (insert t.local_id t.dependencies m)

ids-items : (ts : List PlanTask) → item_ids (items ts) ≡ ids ts
unfolding item_ids
ids-items [] = refl
ids-items (t ∷ ts) = ap (λ l. t.local_id ∷ l) (ids-items ts)

-- Every dependency of a task is a task of the plan.
abbrev pub Knows : List ℕ → List ℕ → Type 0
Knows known ds = All (λ d. member d known ≡ true) ds

-- ... and is ranked below it.
abbrev pub IsRanked : (ℕ → ℕ) → List PlanTask → Type 0
IsRanked r ts = All (λ t. All (λ d. r d < r t.local_id) t.dependencies) ts

check_task-Knows :
    (tasks : List PlanTask) (t : PlanTask)
    → check_task tasks t ≡ ok tt
    → Knows (ids tasks) t.dependencies
unfolding check_task
check_task-Knows tasks t h =
    known_each t.dependencies (each-All _ t.dependencies (also-both _ _ h).0)
  where
    known_each :
        (ds : List ℕ)
        → All (λ d. require (member d (ids tasks)) (dependency_not_found d) ≡ ok tt) ds
        → Knows (ids tasks) ds
    known_each [] a = tt
    known_each (d ∷ ds) a =
        (require-true (member d (ids tasks)) (dependency_not_found d) a.0, known_each ds a.1)

All-Knows :
    (tasks ts : List PlanTask)
    → All (λ t. check_task tasks t ≡ ok tt) ts
    → All (λ t. Knows (ids tasks) t.dependencies) ts
All-Knows tasks [] h = tt
All-Knows tasks (t ∷ ts) h = (check_task-Knows tasks t h.0, All-Knows tasks ts h.1)

searched-ok : (r : Result Halt Marks) → searched r ≡ ok tt → (m : Marks) × (r ≡ ok m)
searched-ok (ok m) h = (m, refl)
searched-ok (err e) h = absurd (ground (arith, h))

-- the parts of an accepted plan's checks
record Passed (ts : List PlanTask) : Type 0 where
  pub size : (leb 2 (length ts) && leb (length ts) 12) ≡ true
  pub unique : (length (ids ts) == length (dedup (ids ts))) ≡ true
  pub coders : has_role coder ts ≡ true
  pub testers : has_role tester ts ≡ true
  pub reviewers : has_role reviewer ts ≡ true
  pub checked : All (λ t. check_task ts t ≡ ok tt) ts
  pub acyclic : (m : Marks) × (assert_acyclic (dependency_map ts []) ≡ ok m)

validate_plan-Passed : (plan : PlanSpec) → validate_plan plan ≡ ok tt → Passed plan.tasks
unfolding validate_plan
validate_plan-Passed plan h0 =
    let (a, h1) = also-both _ _ h0 in
    let (b, h2) = also-both _ _ h1 in
    let (c, h3) = also-both _ _ h2 in
    let (d, h4) = also-both _ _ h3 in
    let (e, h5) = also-both _ _ h4 in
    let (f, h6) = also-both _ _ h5 in
    record {
      size = require-true _ _ a;
      unique = require-true _ _ b;
      coders = require-true _ _ c;
      testers = require-true _ _ d;
      reviewers = require-true _ _ e;
      checked = each-All _ _ f;
      acyclic = searched-ok _ h6;
    }

IsRanked-items :
    (r : ℕ → ℕ) (ts us : List PlanTask)
    → IsRank (entry (dependency_map ts [])) (keys (dependency_map ts [])) r
    → All (λ i. lookup i.0 (dependency_map ts []) ≡ some i.1) (items us)
    → IsRanked r us
IsRanked-items r ts [] h a = tt
IsRanked-items r ts (u ∷ us) h a = (
  member-All (λ d. r d < r u.local_id) u.dependencies
      (λ d i.
        h u.local_id d u.dependencies
          (sym (lookup-member u.local_id (dependency_map ts [])) ∙ rw (a.0) refl) (a.0) i),
  IsRanked-items r ts us h a.1,
)

-- A plan that is accepted has 2 to 12 tasks under different identifiers, every role, and dependencies
-- among its tasks that can be ranked: each task above those that it depends on.
pub validate_plan-IsRanked :
    (plan : PlanSpec)
    → validate_plan plan ≡ ok tt
    → (2 ≤ length plan.tasks)
      × (length plan.tasks ≤ 12)
      × IsDistinct (ids plan.tasks)
      × (has_role coder plan.tasks ≡ true)
      × (has_role tester plan.tasks ≡ true)
      × (has_role reviewer plan.tasks ≡ true)
      × All (λ t. Knows (ids plan.tasks) t.dependencies) plan.tasks
      × ((r : ℕ → ℕ) × IsRanked r plan.tasks)
validate_plan-IsRanked plan h =
    let ts = plan.tasks in
    let p = validate_plan-Passed plan h in
    let distinct = dedup-IsDistinct (ids ts) p.unique in
    let (r, rank) = accepted-IsRank (dependency_map ts []) p.acyclic in
    (
      ground (arith, p.size),
      ground (arith, p.size),
      distinct,
      p.coders,
      p.testers,
      p.reviewers,
      All-Knows ts ts p.checked,
      (
        r,
        IsRanked-items r ts ts rank (
            subst (λ z. All (λ i. lookup i.0 z ≡ some i.1) (items ts)) (sym (map-items ts []))
              (lookup-map_of (items ts) [] (subst IsDistinct (sym (ids-items ts)) distinct))),
      ),
    )
