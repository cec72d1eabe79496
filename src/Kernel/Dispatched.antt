-- ===== src/Kernel/Dispatched.antt =====
-- Dispatch keeps the queues of KernelScheduler safe (aruntime/scheduler/kernel.py).
use agent_runtime.Prelude.Sets.{remove_first}
use agent_runtime.Prelude.{
  ℕ, List, [], ◌∷◌, ◌++◌, Bool, true, false, ◌≡◌, ◌<◌, ◌≤◌, ◌&&◌, refl, ap, arith, Option, some,
  none, suc, zero, length, is_empty, if◌then◌else◌,
}
use agent_runtime.Prelude.Result.{Exec, Result, ok, Keeps-bind, bind-lands, modify, ◌>>=◌, ◌>>◌}
use agent_runtime.Prelude.Dict.{lookup}
use agent_runtime.Task.Status.{
  Reason, is_text, no_reason, no_capability_match, capability_match_none,
}
use agent_runtime.Task.Status
use agent_runtime.Task.Spec.{Task}
use agent_runtime.Task.Spec
use agent_runtime.Kernel.Defs.{Kernel, KernelError, Setting, on_task, for_each, deps_met}
use agent_runtime.Task.Control.{TaskError}
use agent_runtime.Kernel.Order.{sort_ready, key_of}
use agent_runtime.Kernel.Agents.{or_reason}
use agent_runtime.Kernel.Queues.{
  append_ready, move_to_waiting, wake_one, wake_found, wake_with, wake_waiting, resource_available,
  remove_waiting,
}
use agent_runtime.Kernel.Dispatch.{
  dispatch_one, dispatch_loop, dispatch_ready, wake_if_idle, loop_all, below_limit,
}
use agent_runtime.Kernel.Counts.{count, count-sort_by, count-remove_first}
use agent_runtime.Kernel.Safety.{IsSafe, Frame, frame-IsSafe}
use agent_runtime.Kernel.Moves.{
  on_task-Frame, edit_task-IsSafe, edit_task-Frame, wake-IsSafe, wait-IsSafe, if-IsSafe,
}
use agent_runtime.Kernel.Kept.{Safely}
use agent_runtime.Kernel.Turn.{dispatch_one-Keeps}

pub sort_ready-IsSafe : (s : Setting) (k : Kernel) → IsSafe k → IsSafe (sort_ready s k)
unfolding sort_ready
sort_ready-IsSafe s k h = record {
  once = λ x.
      ground
        (arith, h.once x, count-sort_by (key_of s (record k { ready_queue = [] })) x k.ready_queue);
  met = λ x p.
      h.met x (
        ground
          (arith, p, count-sort_by (key_of s (record k { ready_queue = [] })) x k.ready_queue));
}

move_to_waiting-IsSafe :
    (s : Setting) (id : ℕ) (reason : Reason) → Safely (move_to_waiting s id reason)
unfolding move_to_waiting
move_to_waiting-IsSafe s id reason = wait-IsSafe id _

wake_with-IsSafe :
    (s : Setting) (id : ℕ) (r : Bool × Reason) (k : Kernel)
    → IsSafe k
    → 0 < count id k.waiting_queue
    → deps_met id k ≡ true
    → IsSafe (wake_with s id r k).1
unfolding wake_with
wake_with-IsSafe s id (false, reason) k h w d = edit_task-IsSafe id _ k h
wake_with-IsSafe s id (true, reason) k h w d = wake-IsSafe s id _ k h w d

dispatch_one-IsSafe : (s : Setting) (id : ℕ) → Safely (dispatch_one s id)
dispatch_one-IsSafe s id =
    dispatch_one-Keeps {P = IsSafe} (λ k k' f h. frame-IsSafe k k' f h) move_to_waiting-IsSafe s id

pop-IsSafe :
    (k : Kernel) (id : ℕ) (rest : List ℕ)
    → k.ready_queue ≡ id ∷ rest
    → IsSafe k
    → IsSafe (record k { ready_queue = rest })
unfolding count
pop-IsSafe k id rest e h = record {
  once = λ x. ground (arith, h.once x, ap (count x) e);
  met = λ x p. h.met x (ground (arith, ap (count x) e, p));
}

pub elim_list :
    {B : Type 0} (P : B → Type 0) (q : List ℕ) (b : B) (f : ℕ → List ℕ → B)
    → (q ≡ [] → P b)
    → ((x : ℕ) (rest : List ℕ) → q ≡ x ∷ rest → P (f x rest))
    → P (elim q [ [] ↦ b | x ∷ rest ↦ f x rest ])
elim_list P [] b f h go = h refl
elim_list P (x ∷ rest) b f h go = go x rest refl

elim_bool :
    {B : Type 0} (P : B → Type 0) (b : Bool) (x y : B)
    → P x
    → P y
    → P (elim b [ false ↦ y | true ↦ x ])
elim_bool P true x y h z = h
elim_bool P false x y h z = z

dispatch_loop-IsSafe :
    (fuel : ℕ) (s : Setting) (limit : Option ℕ) (dispatched : List ℕ)
    → Safely (dispatch_loop fuel s limit dispatched)
unfolding dispatch_loop
dispatch_loop-IsSafe zero s limit dispatched k h = h
dispatch_loop-IsSafe (suc fuel) s limit dispatched k h =
    elim_list (λ (r : Result KernelError (List ℕ) × Kernel). IsSafe r.1) k.ready_queue
      (ok dispatched, k) _ (λ e. h)
      (λ id rest e.
        elim_bool (λ (r : Result KernelError (List ℕ) × Kernel). IsSafe r.1)
          (below_limit limit (length dispatched)) _ (ok dispatched, k)
          (Keeps-bind (dispatch_one s id)
            (λ runs.
              dispatch_loop fuel s limit (if runs then dispatched ++ id ∷ [] else dispatched))
            (dispatch_one-IsSafe s id)
            (λ runs.
              dispatch_loop-IsSafe fuel s limit
                (if runs then dispatched ++ id ∷ [] else dispatched))
            (record k { ready_queue = rest }) (pop-IsSafe k id rest e h))
          h)

-- what is left to look at still waits
abbrev StillWait : List ℕ → Kernel → Type 0
StillWait xs k = (y : ℕ) → count y xs ≤ count y k.waiting_queue

wake_waits :
    (s : Setting) (x : ℕ) (m : Exec TaskError Task (Unit {0})) (k : Kernel)
    → (y : ℕ)
    → count y (remove_first x k.waiting_queue)
      ≤ count y
          ((modify (remove_waiting x) >> (on_task x m >> modify (append_ready s x)))
            k).1.waiting_queue
unfolding ◌>>=◌ append_ready sort_ready
wake_waits s x m k y =
    bind-lands {P = Frame (remove_waiting x k)}
      {Q = λ k'. count y (remove_first x k.waiting_queue) ≤ count y k'.waiting_queue} (on_task x m)
      (λ u. modify (append_ready s x)) (remove_waiting x k) (on_task-Frame x m (remove_waiting x k))
      (λ u k' f. ground (arith, ap (count y) f.same_waiting))
      (λ k' f. ground (arith, ap (count y) f.same_waiting))

waits : (x : ℕ) (xs : List ℕ) (k : Kernel) → StillWait (x ∷ xs) k → 0 < count x k.waiting_queue
unfolding count
waits x xs k w = ground (arith, w x)

wait_less :
    (x y : ℕ) (xs : List ℕ) (k : Kernel)
    → StillWait (x ∷ xs) k
    → count y xs ≤ count y k.waiting_queue × count y xs ≤ count y (remove_first x k.waiting_queue)
unfolding count
wait_less x y xs k w =
    (omega (arith, w y), ground (arith, w y, count-remove_first x y k.waiting_queue))

-- what one turn of the loop of `wake_waiting` leaves
abbrev Woken : List ℕ → Kernel → Type 0
Woken xs k = IsSafe k × StillWait xs k

wake_with-Woken :
    (s : Setting) (x : ℕ) (xs : List ℕ) (r : Bool × Reason) (k : Kernel)
    → StillWait (x ∷ xs) k
    → IsSafe k
    → deps_met x k ≡ true
    → Woken xs (wake_with s x r k).1
unfolding wake_with
wake_with-Woken s x xs (false, reason) k w h d =
    let f = edit_task-Frame x (λ t. record t { resource_block_reason = reason }) k in
    (
      wake_with-IsSafe s x (false, reason) k h (waits x xs k w) d,
      λ y. ground (arith, ap (count y) f.same_waiting, wait_less x y xs k w),
    )
wake_with-Woken s x xs (true, reason) k w h d = (
  wake_with-IsSafe s x (true, reason) k h (waits x xs k w) d,
  λ y. omega (
    arith,
    wait_less x y xs k w,
    wake_waits s x (Spec.unblock s.now (or_reason reason Status.resource_available)) k y,
  ),
)

if-both :
    {B : Type 0} (P : B → Type 0) (b : Bool) (x y : B)
    → (b ≡ true → P x)
    → P y
    → P (if b then x else y)
if-both P true x y h z = h refl
if-both P false x y h z = z

wake_one-Woken :
    (s : Setting) (x : ℕ) (xs : List ℕ) (k : Kernel)
    → StillWait (x ∷ xs) k
    → IsSafe k
    → Woken xs (wake_one s x k).1
unfolding wake_one wake_found
wake_one-Woken s x xs k w h = go (lookup x k.tasks)
  where
    same : Woken xs k
    same = (h, λ y. (wait_less x y xs k w).0)

    go : (o : Option Task) → Woken xs (wake_found s x o k).1
    go none = same
    go (some t) =
        if-both (λ (r : Result KernelError (Unit {0}) × Kernel). Woken xs r.1)
          (deps_met x k && is_text t.resource_block_reason) _ _
          (λ e. wake_with-Woken s x xs (resource_available s k t) k w h (ground (arith, e))) same

wake_each-IsSafe :
    (s : Setting) (xs : List ℕ) (k : Kernel)
    → StillWait xs k
    → IsSafe k
    → IsSafe (for_each xs (wake_one s) k).1
unfolding for_each
wake_each-IsSafe s [] k w h = h
wake_each-IsSafe s (x ∷ xs) k w h =
    bind-lands {P = Woken xs} {Q = IsSafe} (wake_one s x) (λ u. for_each xs (wake_one s)) k
      (wake_one-Woken s x xs k w h) (λ u k' p. wake_each-IsSafe s xs k' p.1 p.0) (λ k' p. p.0)

wake_waiting-IsSafe : (s : Setting) → Safely (wake_waiting s)
unfolding wake_waiting
wake_waiting-IsSafe s k h = wake_each-IsSafe s k.waiting_queue k (λ y. omega arith) h

-- Dispatch keeps the queues safe, whether it returns or raises.
pub dispatch_ready-IsSafe : (s : Setting) (limit : Option ℕ) → Safely (dispatch_ready s limit)
unfolding dispatch_ready wake_if_idle loop_all
dispatch_ready-IsSafe s limit =
    Keeps-bind (wake_if_idle s) (λ u. modify (sort_ready s) >> loop_all s limit)
      (λ k h. if-IsSafe (is_empty k.ready_queue) _ _ (λ e. wake_waiting-IsSafe s k h) (λ e. h))
      (λ u.
        Keeps-bind (modify (sort_ready s)) (λ u. loop_all s limit) (sort_ready-IsSafe s)
          (λ u k h. dispatch_loop-IsSafe (length k.ready_queue) s limit [] k h))
