-- ===== src/Kernel/Safety.antt =====
-- The safety of the queues of KernelScheduler (aruntime/scheduler/kernel.py): a task stands in the
-- ready queue or the waiting queue, once and not in both, and whatever is ready has no open
-- dependency.
use agent_runtime.Prelude.{
  ℕ, List, [], ◌∷◌, ◌++◌, Bool, true, false, if◌then◌else◌, ◌==◌, ◌+◌, ◌≡◌, ◌≤◌, ◌<◌, refl, arith,
  ap, ◌∙◌, sym, Option, some, none, is_empty, sym, inl, inr, Bool-cases, subst,
}
use agent_runtime.Prelude.Sets.{remove_first, discard}
use agent_runtime.Prelude.Dict.{lookup, lookup-insert}
use agent_runtime.Kernel.Defs.{
  Kernel, KernelTaskNode, Setting, deps_met, is_ready, node_ready, edit_node, edit_node_found,
  discard_dependency,
}
use agent_runtime.Kernel.Order.{sort_ready, key_of}
use agent_runtime.Kernel.Queues.{append_ready, append_waiting, remove_waiting}
use agent_runtime.Kernel.Counts.{count, count-append, count-remove_first, count-sort_by}

pub record IsSafe (k : Kernel) : Type 0 where
  pub once : (x : ℕ) → count x k.ready_queue + count x k.waiting_queue ≤ 1
  pub met : (x : ℕ) → 0 < count x k.ready_queue → deps_met x k ≡ true

-- in neither queue
abbrev pub Out : ℕ → Kernel → Type 0
Out id k = count id k.ready_queue + count id k.waiting_queue ≡ 0

-- what safety reads is the same
pub record Frame (k k' : Kernel) : Type 0 where
  pub same_nodes : k'.nodes ≡ k.nodes
  pub same_ready : k'.ready_queue ≡ k.ready_queue
  pub same_waiting : k'.waiting_queue ≡ k.waiting_queue

pub same_deps : (k k' : Kernel) (x : ℕ) → k'.nodes ≡ k.nodes → deps_met x k' ≡ deps_met x k
same_deps k k' x e = ap (λ d. node_ready (lookup x d)) e

pub frame-IsSafe : (k k' : Kernel) → Frame k k' → IsSafe k → IsSafe k'
frame-IsSafe k k' f h = record {
  once = λ x. rw (f.same_ready, f.same_waiting) (h.once x);
  met = λ x p. same_deps k k' x f.same_nodes ∙ h.met x (rw (← f.same_ready) p);
}

pub frame-Out : (k k' : Kernel) (id : ℕ) → Frame k k' → Out id k → Out id k'
frame-Out k k' id f h = rw (f.same_ready, f.same_waiting) h

count-single : (x y : ℕ) → count x (y ∷ []) ≡ (if y == x then 1 else 0)
unfolding count
count-single x y = omega arith

appended :
    (s : Setting) (id : ℕ) (k : Kernel) (x : ℕ)
    → count x (append_ready s id k).ready_queue ≡ count x k.ready_queue + count x (id ∷ [])
unfolding append_ready sort_ready
appended s id k x =
    count-sort_by (key_of s (record k { ready_queue = [] })) x (k.ready_queue ++ id ∷ [])
    ∙ count-append x k.ready_queue (id ∷ [])

pub append_ready-IsSafe :
    (s : Setting) (id : ℕ) (k : Kernel)
    → IsSafe k
    → Out id k
    → deps_met id k ≡ true
    → IsSafe (append_ready s id k)
unfolding append_ready sort_ready
append_ready-IsSafe s id k h out d = record {
  once = λ x. ground (arith, appended s id k x, h.once x, count-single x id, out);
  met = λ x p. elim (Bool-cases (id == x)) [
    | inl e ↦ subst (λ y. deps_met y k ≡ true) (ground (arith, e)) d
    | inr e ↦ h.met x (ground (arith, appended s id k x, count-single x id, e, p))
  ];
}

pub append_waiting-IsSafe :
    (id : ℕ) (k : Kernel) → IsSafe k → Out id k → IsSafe (append_waiting id k)
append_waiting-IsSafe id k h out = record {
  once = λ x.
      ground (arith, h.once x, count-append x k.waiting_queue (id ∷ []), count-single x id, out);
  met = h.met;
}

pub remove_waiting-IsSafe : (id : ℕ) (k : Kernel) → IsSafe k → IsSafe (remove_waiting id k)
remove_waiting-IsSafe id k h = record {
  once = λ x. ground (arith, h.once x, count-remove_first id x k.waiting_queue);
  met = h.met;
}

pub remove_waiting-Out :
    (id : ℕ) (k : Kernel) → IsSafe k → 0 < count id k.waiting_queue → Out id (remove_waiting id k)
remove_waiting-Out id k h w = ground (arith, h.once id, count-remove_first id id k.waiting_queue, w)

-- `_remove_from_queues`, or the part of it that takes a task from the two queues
pub leaves-IsSafe :
    (id : ℕ) (k k' : Kernel)
    → k'.nodes ≡ k.nodes
    → k'.ready_queue ≡ remove_first id k.ready_queue
    → k'.waiting_queue ≡ remove_first id k.waiting_queue
    → IsSafe k
    → IsSafe k' × Out id k'
leaves-IsSafe id k k' hn hr hw h = (
  record {
    once = λ x.
        rw (hr, hw)
          (ground (
            arith,
            h.once x,
            count-remove_first id x k.ready_queue,
            count-remove_first id x k.waiting_queue,
          ));
    met = λ x p.
        same_deps k k' x hn
        ∙ h.met x (ground (arith, count-remove_first id x k.ready_queue, ap (count x) hr, p));
  },
  rw (hr, hw)
      (ground (
        arith,
        h.once id,
        count-remove_first id id k.ready_queue,
        count-remove_first id id k.waiting_queue,
      )),
)

-- Nodes change, and no task gets an open dependency by it.
pub looser-IsSafe :
    (k k' : Kernel)
    → k'.ready_queue ≡ k.ready_queue
    → k'.waiting_queue ≡ k.waiting_queue
    → ((x : ℕ) → deps_met x k ≡ true → deps_met x k' ≡ true)
    → IsSafe k
    → IsSafe k'
looser-IsSafe k k' hr hw looser h = record {
  once = λ x. rw (hr, hw) (h.once x);
  met = λ x p. looser x (h.met x (rw (sym hr) p));
}

edited :
    (f : KernelTaskNode → KernelTaskNode) (b : Bool) (o : Option KernelTaskNode)
    (n : KernelTaskNode)
    → ((n : KernelTaskNode) → is_ready n ≡ true → is_ready (f n) ≡ true)
    → (b ≡ true → o ≡ some n)
    → node_ready o ≡ true
    → node_ready (if b then some (f n) else o) ≡ true
edited f true o n hf same h = hf n (ap node_ready (sym (same refl)) ∙ h)
edited f false o n hf same h = h

pub edit_node-Looser :
    (x id : ℕ) (f : KernelTaskNode → KernelTaskNode) (k : Kernel)
    → ((n : KernelTaskNode) → is_ready n ≡ true → is_ready (f n) ≡ true)
    → deps_met x k ≡ true
    → deps_met x (edit_node id f k) ≡ true
unfolding edit_node
edit_node-Looser x id f k hf h = go (lookup id k.nodes) refl
  where
    go :
        (o : Option KernelTaskNode)
        → lookup id k.nodes ≡ o
        → deps_met x (edit_node_found id f o k) ≡ true
    go none e = h
    go (some n) e = rw (lookup-insert id x (f n) k.nodes) (
        edited f (id == x) (lookup x k.nodes) n hf
          (λ p. ap (λ y. lookup y k.nodes) (ground (arith, p)) ∙ e) h)

pub discard-Looser :
    (dep : ℕ) (n : KernelTaskNode) → is_ready n ≡ true → is_ready (discard_dependency dep n) ≡ true
unfolding discard
discard-Looser dep n h = go n.dependencies h
  where
    go : (xs : List ℕ) → is_empty xs ≡ true → is_empty (discard dep xs) ≡ true
    go [] e = refl
    go (x ∷ xs) e = absurd (cc)
