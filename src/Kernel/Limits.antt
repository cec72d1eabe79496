-- ===== src/Kernel/Limits.antt =====
-- How far `dispatch_ready` goes (aruntime/scheduler/kernel.py): its loop runs until the ready queue is
-- empty or the limit is reached, and the fuel of the model is enough for that.
use agent_runtime.Prelude.{
  ℕ, List, [], ◌∷◌, ◌++◌, Bool, true, false, ◌≡◌, ◌≤◌, ◌+◌, ◌⊎◌, inl, inr, refl, ap, arith, Option,
  some, none, suc, zero, length, length-append, if◌then◌else◌, leb,
}
use agent_runtime.Prelude.Result.{Result, ok, err, Keeps, Keeps-bind, bind-ends, modify, ◌>>◌}
use agent_runtime.Prelude.Sets.{remove_first}
use agent_runtime.Task.Status.{Reason}
use agent_runtime.Task.Spec
use agent_runtime.Kernel.Defs.{Kernel, KernelError, Setting, on_task}
use agent_runtime.Kernel.Order.{sort_ready}
use agent_runtime.Kernel.Queues.{move_to_waiting, remove_from_queues, append_waiting}
use agent_runtime.Kernel.Dispatch.{
  dispatch_one, dispatch_loop, dispatch_ready, wake_if_idle, loop_all, below_limit,
}
use agent_runtime.Kernel.Safety.{Frame}
use agent_runtime.Kernel.Moves.{on_task-Frame}
use agent_runtime.Kernel.Turn.{dispatch_one-Keeps}
use agent_runtime.Kernel.Dispatched.{elim_list}

-- at most `n` tasks are ready
abbrev Within : ℕ → Kernel → Type 0
Within n k = length k.ready_queue ≤ n

length-remove_first : (x : ℕ) (xs : List ℕ) → length (remove_first x xs) ≤ length xs
unfolding remove_first
length-remove_first x [] = omega arith
length-remove_first x (y ∷ xs) = ground (arith, length-remove_first x xs)

frame-Within : (n : ℕ) (k k' : Kernel) → Frame k k' → Within n k → Within n k'
frame-Within n k k' f h = omega (arith, ap length f.same_ready, h)

move_to_waiting-Within :
    (n : ℕ) (s : Setting) (id : ℕ) (reason : Reason)
    → Keeps (Within n) (move_to_waiting s id reason)
unfolding move_to_waiting remove_from_queues
move_to_waiting-Within n s id reason =
    Keeps-bind (modify (remove_from_queues id))
      (λ u. on_task id (Spec.block s.now reason) >> modify (append_waiting id))
      (λ k h. omega (arith, h, length-remove_first id k.ready_queue))
      (λ u.
        Keeps-bind (on_task id (Spec.block s.now reason)) (λ u. modify (append_waiting id))
          (λ k h. frame-Within n k _ (on_task-Frame id (Spec.block s.now reason) k) h) (λ u k h. h))

-- the count is within the limit
abbrev within_limit : Option ℕ → ℕ → Bool
within_limit none n = true
within_limit (some limit) n = leb n limit

-- A result of `dispatch_ready` that is no error: the tasks are within the limit, and the ready queue
-- is empty or the limit is reached.
abbrev pub Filled : Option ℕ → Result KernelError (List ℕ) × Kernel → Type 0
Filled limit (err e, k) = Unit
Filled limit (ok dispatched, k) =
    (within_limit limit (length dispatched) ≡ true)
    × ((k.ready_queue ≡ []) ⊎ (below_limit limit (length dispatched) ≡ false))

length_one :
    (xs : List ℕ) (x : ℕ) (b : Bool) → length (if b then xs ++ x ∷ [] else xs) ≤ length xs + 1
length_one xs x true = omega (arith, length-append xs (x ∷ []))
length_one xs x false = omega arith

within_zero : (limit : Option ℕ) → within_limit limit 0 ≡ true
within_zero none = refl
within_zero (some l) = ground arith

within_next :
    (limit : Option ℕ) (m n : ℕ)
    → below_limit limit m ≡ true
    → n ≤ m + 1
    → within_limit limit n ≡ true
within_next none m n h le = refl
within_next (some l) m n h le = ground (arith, h, le)

empty_list : (xs : List ℕ) → length xs ≤ 0 → xs ≡ []
empty_list [] h = refl
empty_list (x ∷ xs) h = absurd (omega (arith, h))

elim_if :
    {B : Type 0} (P : B → Type 0) (b : Bool) (x y : B)
    → (b ≡ true → P x)
    → (b ≡ false → P y)
    → P (elim b [ false ↦ y | true ↦ x ])
elim_if P true x y h z = h refl
elim_if P false x y h z = z refl

loop-Filled :
    (fuel : ℕ) (s : Setting) (limit : Option ℕ) (dispatched : List ℕ) (k : Kernel)
    → length k.ready_queue ≤ fuel
    → within_limit limit (length dispatched) ≡ true
    → Filled limit (dispatch_loop fuel s limit dispatched k)
unfolding dispatch_loop
loop-Filled zero s limit dispatched k h w = (w, inl (empty_list k.ready_queue h))
loop-Filled (suc fuel) s limit dispatched k h w =
    elim_list (Filled limit) k.ready_queue (ok dispatched, k) _ (λ e. (w, inl e))
      (λ id rest e.
        elim_if (Filled limit) (below_limit limit (length dispatched)) _ (ok dispatched, k)
          (λ b.
            bind-ends {P = Within (length rest)} (Filled limit) (dispatch_one s id)
              (λ runs.
                dispatch_loop fuel s limit (if runs then dispatched ++ id ∷ [] else dispatched))
              (record k { ready_queue = rest })
              (dispatch_one-Keeps {P = Within (length rest)} (frame-Within (length rest))
                (move_to_waiting-Within (length rest)) s id (record k { ready_queue = rest })
                (omega arith))
              (λ runs k' p.
                loop-Filled fuel s limit (if runs then dispatched ++ id ∷ [] else dispatched) k'
                  (omega (arith, p, ap length e, h))
                  (within_next limit (length dispatched) _ b (length_one dispatched id runs)))
              (λ e k'. tt))
          (λ b. (w, inr b)))

loop_all-Filled : (s : Setting) (limit : Option ℕ) (k : Kernel) → Filled limit (loop_all s limit k)
unfolding loop_all
loop_all-Filled s limit k =
    loop-Filled (length k.ready_queue) s limit [] k (omega arith) (within_zero limit)

-- A call of `dispatch_ready` that does not raise dispatches no more tasks than the limit allows, and
-- it leaves no task ready unless the limit is reached.
pub dispatch_fills :
    (s : Setting) (limit : Option ℕ) (k : Kernel) → Filled limit (dispatch_ready s limit k)
unfolding dispatch_ready
dispatch_fills s limit k =
    bind-ends {P = λ k'. Unit {0}} (Filled limit) (wake_if_idle s)
      (λ u. modify (sort_ready s) >> loop_all s limit) k tt
      (λ u k' p.
        bind-ends {P = λ k'. Unit {0}} (Filled limit) (modify (sort_ready s))
          (λ u. loop_all s limit) k' tt (λ u k'' q. loop_all-Filled s limit k'') (λ e k''. tt))
      (λ e k'. tt)
