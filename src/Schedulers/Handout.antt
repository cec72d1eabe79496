-- ===== src/Schedulers/Handout.antt =====
-- Which task DAGScheduler hands out (aruntime/scheduler/dag.py).
use agent_runtime.Prelude.{
  ℕ, true, List, [], ◌∷◌, Option, some, none, ◌≡◌, Bool-cases, inl, inr, refl, subst, ap, ◌++◌, ◌≢◌,
  All, some_inj, arith, is_empty,
}
use agent_runtime.Prelude.Result.{ok, err, Result, ◌>>=◌, continue, pure}
use agent_runtime.Prelude.Dict.{Dict, lookup}
use agent_runtime.Kernel.Defs.{KernelTaskNode}
use agent_runtime.Task.Status.{dag_ready}
use agent_runtime.Task.Status
use agent_runtime.Task.Spec
use agent_runtime.Schedulers.Dag.{
  Dag, DagError, dequeue, first_ready, dequeues, hand_out, on_task, drop_task,
}

-- A task of the graph none of whose dependencies is open.
abbrev pub IsFree : Dict KernelTaskNode → ℕ → Type 0
IsFree nodes id = (node : KernelTaskNode) × (lookup id nodes ≡ some node) × (node.dependencies ≡ [])

-- The list is `before`, then the task, then `after`: the task is free, and none before it is.
pub record IsFirstFree (nodes : Dict KernelTaskNode) (ids : List ℕ) (id : ℕ) : Type 0 where
  pub before : List ℕ
  pub after : List ℕ
  pub split : ids ≡ before ++ id ∷ after
  pub free : IsFree nodes id
  pub waiting : All (λ x. ¬ IsFree nodes x) before

dequeues-IsFree :
    (nodes : Dict KernelTaskNode) (id : ℕ) (o : Option KernelTaskNode)
    → lookup id nodes ≡ o
    → dequeues o ≡ true
    → IsFree nodes id
dequeues-IsFree nodes id none e h = absurd (cc)
dequeues-IsFree nodes id (some node) e h = (node, e, no_open node.dependencies h)
  where
    no_open : (ds : List ℕ) → is_empty ds ≡ true → ds ≡ []
    no_open [] h = refl
    no_open (x ∷ ds) h = absurd (cc)

IsFree-dequeues :
    (nodes : Dict KernelTaskNode) (id : ℕ) → IsFree nodes id → dequeues (lookup id nodes) ≡ true
IsFree-dequeues nodes id (node, e, h) = rw (e, h) refl

first_ready-IsFirstFree :
    (nodes : Dict KernelTaskNode) (ids : List ℕ) (id : ℕ)
    → first_ready nodes ids ≡ some id
    → IsFirstFree nodes ids id
unfolding first_ready
first_ready-IsFirstFree nodes [] id h = absurd (cc)
first_ready-IsFirstFree nodes (x ∷ ids) id h = elim (Bool-cases (dequeues (lookup x nodes))) [
  | inl e ↦
      let same : x ≡ id = some_inj (ground (arith, h, e)) in
      record {
        before = [];
        after = ids;
        split = ap (λ y. y ∷ ids) same;
        free = subst (IsFree nodes) same (dequeues-IsFree nodes x (lookup x nodes) refl e);
        waiting = tt;
      }
  | inr e ↦
      let r = first_ready-IsFirstFree nodes ids id (ground (arith, h, e)) in
      record {
        before = x ∷ r.before;
        after = r.after;
        split = ap (λ l. x ∷ l) r.split;
        free = r.free;
        waiting = (λ f. let g = IsFree-dequeues nodes x f in absurd (cc), r.waiting);
      }
]

first_ready-none :
    (nodes : Dict KernelTaskNode) (ids : List ℕ)
    → first_ready nodes ids ≡ none
    → All (λ x. ¬ IsFree nodes x) ids
unfolding first_ready
first_ready-none nodes [] h = tt
first_ready-none nodes (x ∷ ids) h = elim (Bool-cases (dequeues (lookup x nodes))) [
  | inl e ↦ absurd (ground (arith, h, e))
  | inr e ↦ (
    λ f. let g = IsFree-dequeues nodes x f in absurd (cc),
    first_ready-none nodes ids (ground (arith, h, e)),
  )
]

after_value :
    (x id : ℕ) (r : Result DagError (Unit {0})) (d : Dag)
    → (continue r (λ u. pure (some x)) d).0 ≡ ok (some id)
    → some x ≡ some id
after_value x id (ok u) d e = cc
after_value x id (err e') d e = absurd (cc)

value_of :
    (now : ℕ) (o : Option ℕ) (d : Dag) (id : ℕ) → (hand_out now o d).0 ≡ ok (some id) → o ≡ some id
unfolding hand_out ◌>>=◌
value_of now none d id h = absurd (cc)
value_of now (some x) d id h =
    let m = Spec.transition_to now Status.running dag_ready in
    after_value x id (on_task x m (drop_task x d)).0 (on_task x m (drop_task x d)).1 h

after_none :
    (x : ℕ) (r : Result DagError (Unit {0})) (d : Dag)
    → (continue r (λ u. pure (some x)) d).0 ≢ ok none
after_none x (ok u) d = λ e. cc
after_none x (err e') d = λ e. cc

none_of : (now : ℕ) (o : Option ℕ) (d : Dag) → (hand_out now o d).0 ≡ ok none → o ≡ none
unfolding hand_out ◌>>=◌
none_of now none d h = refl
none_of now (some x) d h =
    let m = Spec.transition_to now Status.running dag_ready in
    absurd (after_none x (on_task x m (drop_task x d)).0 (on_task x m (drop_task x d)).1 h)

-- Where `dequeue` of the DAG scheduler hands out a task, it is the first of the queue that is free: it is
-- in the graph without an open dependency, and no task before it is. Where it hands out none, no task
-- of the queue is free.
pub dequeue_first :
    (now : ℕ) (d : Dag)
    → ((id : ℕ) → (dequeue now d).0 ≡ ok (some id) → IsFirstFree d.nodes d.task_queue id)
      × ((dequeue now d).0 ≡ ok none → All (λ x. ¬ IsFree d.nodes x) d.task_queue)
unfolding dequeue
dequeue_first now d =
    let o = first_ready d.nodes d.task_queue in
    (
      λ id h. first_ready-IsFirstFree d.nodes d.task_queue id (value_of now o d id h),
      λ h. first_ready-none d.nodes d.task_queue (none_of now o d h),
    )
