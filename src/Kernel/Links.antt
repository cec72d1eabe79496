-- ===== src/Kernel/Links.antt =====
-- `enqueue` and `add_dependencies` keep the queues of KernelScheduler safe
-- (aruntime/scheduler/kernel.py).
use agent_runtime.Prelude.{
  ℕ, List, [], ◌∷◌, Bool, true, false, ◌≡◌, ◌<◌, ◌==◌, refl, ap, arith, Option, some, none,
  Bool-cases, inl, inr, if◌then◌else◌, ◌∙◌, ◌≤◌, ◌+◌,
}
use agent_runtime.Prelude.Result.{Result, ok, err, Keeps, ◌>>=◌}
use agent_runtime.Prelude.Dict.{Dict, lookup, has, insert, lookup-insert}
use agent_runtime.Prelude.Sets.{dedup, member}
use agent_runtime.Task.Spec.{Task}
use agent_runtime.Kernel.Defs.{
  Kernel, KernelTaskNode, KernelError, Setting, edit_task, edit_node, edit_node_found,
  add_dependent, discard_dependency, deps_met, is_ready, node_ready,
}
use agent_runtime.Kernel.Queues.{
  enqueue, admit, link_dependency, link_dependencies, push_agent_queue,
}
use agent_runtime.Kernel.Dependencies.{
  add_dependencies, add_found, requeue, check_dependencies, take_dependency, take_dependencies,
  leave_queues, depends_on, is_fixed, add_dependency, add_to_task,
}
use agent_runtime.Kernel.Counts.{count, count-remove_first}
use agent_runtime.Kernel.Safety.{IsSafe, Out, same_deps, edit_node-Looser}
use agent_runtime.Kernel.Moves.{edit_task-Frame, settle-IsSafe, if-IsSafe}
use agent_runtime.Kernel.Kept.{edit_node-ready, edit_node-waiting}

-- Safe, but for the dependencies of `id`.
record SafeBut (id : ℕ) (k : Kernel) : Type 0 where
  once_but : (x : ℕ) → count x k.ready_queue + count x k.waiting_queue ≤ 1
  met_but : (x : ℕ) → (x == id) ≡ false → 0 < count x k.ready_queue → deps_met x k ≡ true

-- the two queues of `k'` are those of `k`
abbrev SameQueues : Kernel → Kernel → Type 0
SameQueues k k' = (k'.ready_queue ≡ k.ready_queue) × (k'.waiting_queue ≡ k.waiting_queue)

-- A change of nodes that opens a dependency of no other task than `id`.
abbrev OnlyFor : ℕ → Kernel → Kernel → Type 0
OnlyFor id k k' =
    SameQueues k k' × ((x : ℕ) → (x == id) ≡ false → deps_met x k ≡ true → deps_met x k' ≡ true)

onlyfor_then : (id : ℕ) (a b c : Kernel) → OnlyFor id a b → OnlyFor id b c → OnlyFor id a c
onlyfor_then id a b c f g = ((g.0.0 ∙ f.0.0, g.0.1 ∙ f.0.1), λ x n h. g.1 x n (f.1 x n h))

onlyfor-SafeBut : (id : ℕ) (k k' : Kernel) → OnlyFor id k k' → SafeBut id k → SafeBut id k'
onlyfor-SafeBut id k k' f h = record {
  once_but = λ x. rw (f.0.0, f.0.1) (h.once_but x);
  met_but = λ x n p. f.1 x n (h.met_but x n (rw (← f.0.0) p));
}

same-OnlyFor : (id : ℕ) (k : Kernel) → OnlyFor id k k
same-OnlyFor id k = ((refl, refl), λ x n h. h)

edit_node-OnlyFor :
    (id dep : ℕ) (f : KernelTaskNode → KernelTaskNode) (k : Kernel)
    → ((n : KernelTaskNode) → is_ready n ≡ true → is_ready (f n) ≡ true)
    → OnlyFor id k (edit_node dep f k)
edit_node-OnlyFor id dep f k hf =
    ((edit_node-ready dep f k, edit_node-waiting dep f k), λ x n h. edit_node-Looser x dep f k hf h)

lookup_other :
    (id x : ℕ) (node : KernelTaskNode) (d : Dict KernelTaskNode)
    → (x == id) ≡ false
    → lookup x (insert id node d) ≡ lookup x d
lookup_other id x node d n = ground (arith, n, lookup-insert id x node d)

edit_own-OnlyFor :
    (id : ℕ) (f : KernelTaskNode → KernelTaskNode) (k : Kernel) → OnlyFor id k (edit_node id f k)
unfolding edit_node
edit_own-OnlyFor id f k = (
  (edit_node-ready id f k, edit_node-waiting id f k),
  λ x n h. edit_own x n h (lookup id k.nodes),
)
  where
    edit_own :
        (x : ℕ)
        → (x == id) ≡ false
        → deps_met x k ≡ true
        → (o : Option KernelTaskNode) → deps_met x (edit_node_found id f o k) ≡ true
    edit_own x n h none = h
    edit_own x n h (some node) = ap node_ready (lookup_other id x (f node) k.nodes n) ∙ h

edit_task-OnlyFor : (id : ℕ) (f : Task → Task) (k : Kernel) → OnlyFor id k (edit_task id f k)
edit_task-OnlyFor id f k =
    let e = edit_task-Frame id f k in
    ((e.same_ready, e.same_waiting), λ x n h. same_deps k (edit_task id f k) x e.same_nodes ∙ h)

if-OnlyFor :
    (id : ℕ) (b : Bool) (k x y : Kernel)
    → OnlyFor id k x
    → OnlyFor id k y
    → OnlyFor id k (if b then x else y)
if-OnlyFor id true k x y h z = h
if-OnlyFor id false k x y h z = z

link_dependency-OnlyFor : (id dep : ℕ) (k : Kernel) → OnlyFor id k (link_dependency id dep k)
unfolding link_dependency
link_dependency-OnlyFor id dep k =
    let k' = edit_node dep (add_dependent id) k in
    let f = edit_node-OnlyFor id dep (add_dependent id) k (λ n h. h) in
    if-OnlyFor id (member dep k.completed_tasks) k (edit_node id (discard_dependency dep) k') k'
      (onlyfor_then id k k' (edit_node id (discard_dependency dep) k') f
        (edit_own-OnlyFor id (discard_dependency dep) k'))
      f

link_dependencies-OnlyFor :
    (id : ℕ) (deps : List ℕ) (k : Kernel) → OnlyFor id k (link_dependencies id deps k)
unfolding link_dependencies
link_dependencies-OnlyFor id [] k = same-OnlyFor id k
link_dependencies-OnlyFor id (dep ∷ deps) k =
    onlyfor_then id k (link_dependency id dep k)
      (link_dependencies id deps (link_dependency id dep k)) (link_dependency-OnlyFor id dep k)
      (link_dependencies-OnlyFor id deps (link_dependency id dep k))

admit-OnlyFor : (task : Task) (k : Kernel) → OnlyFor task.task_id k (admit task k)
admit-OnlyFor task k = (
  (refl, refl),
  λ x n h.
      ap node_ready (
        lookup_other task.task_id x
          (record { dependencies = dedup task.dependencies; dependents = [] }) k.nodes n)
      ∙ h,
)

same_number : (x y : ℕ) → (x == y) ≡ true → x ≡ y
same_number x y h = ground (arith, h)

-- A task that stands in neither queue may have open dependencies.
SafeBut-Out : (id : ℕ) (k : Kernel) → SafeBut id k → Out id k → IsSafe k
SafeBut-Out id k h out = record {
  once = h.once_but;
  met = λ x p. elim (Bool-cases (x == id)) [
    | inl e ↦ absurd (ground (arith, ap (λ y. count y k.ready_queue) (same_number x id e), out, p))
    | inr e ↦ h.met_but x e p
  ];
}

safe_but : (id : ℕ) (k : Kernel) → IsSafe k → SafeBut id k
safe_but id k h = record { once_but = h.once; met_but = λ x n. h.met x }

-- Enqueueing a task that stands in neither queue keeps them safe, whether it returns or raises.
pub enqueue-IsSafe :
    (s : Setting) (task : Task) (k : Kernel)
    → IsSafe k
    → Out task.task_id k
    → IsSafe (enqueue s task k).1
unfolding enqueue ◌>>=◌
enqueue-IsSafe s task k h out =
    let id = task.task_id in
    let k' = link_dependencies id task.dependencies (admit task k) in
    let f =
      onlyfor_then id k (admit task k) k' (admit-OnlyFor task k)
        (link_dependencies-OnlyFor id task.dependencies (admit task k)) in
    let out' : Out id k' = rw (f.0.0, f.0.1) out in
    let safe = SafeBut-Out id k' (onlyfor-SafeBut id k k' f (safe_but id k h)) out' in
    settle-IsSafe s id (push_agent_queue task.agent_name id k')
      (record { once = safe.once; met = safe.met }) out'

take_dependency-OnlyFor : (id dep : ℕ) (k : Kernel) → OnlyFor id k (take_dependency id dep k)
unfolding take_dependency
take_dependency-OnlyFor id dep k =
    let a = edit_task id (add_to_task dep) k in
    let b = edit_node id (add_dependency dep) a in
    let c = edit_node dep (add_dependent id) b in
    let d = edit_node id (discard_dependency dep) c in
    let f = onlyfor_then id k a c (edit_task-OnlyFor id (add_to_task dep) k) (
      onlyfor_then id a b c (edit_own-OnlyFor id (add_dependency dep) a)
        (edit_node-OnlyFor id dep (add_dependent id) b (λ n h. h))) in
    if-OnlyFor id (depends_on dep (lookup id k.nodes)) k k
      (if member dep k.completed_tasks then d else c) (same-OnlyFor id k)
      (if-OnlyFor id (member dep k.completed_tasks) k d c
        (onlyfor_then id k c d f (edit_own-OnlyFor id (discard_dependency dep) c)) f)

take_dependencies-OnlyFor :
    (id : ℕ) (deps : List ℕ) (k : Kernel) → OnlyFor id k (take_dependencies id deps k)
unfolding take_dependencies
take_dependencies-OnlyFor id [] k = same-OnlyFor id k
take_dependencies-OnlyFor id (dep ∷ deps) k =
    onlyfor_then id k (take_dependency id dep k)
      (take_dependencies id deps (take_dependency id dep k)) (take_dependency-OnlyFor id dep k)
      (take_dependencies-OnlyFor id deps (take_dependency id dep k))

leave_queues-Out : (id : ℕ) (k : Kernel) → SafeBut id k → Out id (leave_queues id k)
leave_queues-Out id k h = ground (
  arith,
  h.once_but id,
  count-remove_first id id k.ready_queue,
  count-remove_first id id k.waiting_queue,
)

leave_queues-SafeBut : (id : ℕ) (k : Kernel) → SafeBut id k → SafeBut id (leave_queues id k)
leave_queues-SafeBut id k h = record {
  once_but = λ x. ground (
    arith,
    h.once_but x,
    count-remove_first id x k.ready_queue,
    count-remove_first id x k.waiting_queue,
  );
  met_but = λ x n p. h.met_but x n (ground (arith, n, p, count-remove_first id x k.ready_queue));
}

requeue-IsSafe :
    (s : Setting) (id : ℕ) (deps : List ℕ) (r : Result KernelError (Unit {0}))
    → Keeps IsSafe (requeue s id deps r)
unfolding requeue ◌>>=◌
requeue-IsSafe s id deps (err e) k h = h
requeue-IsSafe s id deps (ok u) k h =
    let a = take_dependencies id deps k in
    let but = onlyfor-SafeBut id k a (take_dependencies-OnlyFor id deps k) (safe_but id k h) in
    let out = leave_queues-Out id a but in
    settle-IsSafe s id (leave_queues id a)
      (SafeBut-Out id (leave_queues id a) (leave_queues-SafeBut id a but) out) out

add_found-IsSafe :
    (s : Setting) (id : ℕ) (deps : List ℕ) (o : Option Task) → Keeps IsSafe (add_found s id deps o)
unfolding add_found
add_found-IsSafe s id deps none k h = h
add_found-IsSafe s id deps (some task) k h =
    if-IsSafe (is_fixed task.status) _ _ (λ e. h)
      (λ e.
        if-IsSafe (member id deps) _ _ (λ e. h)
          (λ e. requeue-IsSafe s id deps (check_dependencies k id deps) k h))

-- Adding dependencies keeps the queues safe, whether it returns or raises.
pub add_dependencies-IsSafe :
    (s : Setting) (id : ℕ) (ids : List ℕ) → Keeps IsSafe (add_dependencies s id ids)
unfolding add_dependencies
add_dependencies-IsSafe s id ids k h =
    if-IsSafe (has id k.nodes) _ _ (λ e. add_found-IsSafe s id (dedup ids) (lookup id k.tasks) k h)
      (λ e. h)
