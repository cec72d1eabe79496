-- ===== src/Kernel/Moves.antt =====
-- What the parts of the operations of KernelScheduler (aruntime/scheduler/kernel.py) do to the safety
-- of its queues.
use agent_runtime.Prelude.{
  ℕ, List, [], ◌∷◌, Bool, true, false, ◌≡◌, ◌<◌, refl, Option, some, none, if◌then◌else◌, ◌∙◌,
}
use agent_runtime.Prelude.Result.{Exec, Keeps, Keeps-bind, bind-lands, modify, ◌>>=◌, ◌>>◌, Result}
use agent_runtime.Prelude.Dict.{lookup}
use agent_runtime.Task.Control.{TaskError}
use agent_runtime.Task.Spec.{Task}
use agent_runtime.Kernel.Defs.{
  Kernel, KernelError, Setting, Act, on_task, run_found, edit_task, edit_found, for_each, deps_met,
}
use agent_runtime.Kernel.Queues.{
  append_ready, append_waiting, remove_waiting, remove_from_queues, settle,
}
use agent_runtime.Kernel.Counts.{count}
use agent_runtime.Kernel.Safety.{
  IsSafe, Out, Frame, same_deps, frame-IsSafe, frame-Out, append_ready-IsSafe,
  append_waiting-IsSafe, remove_waiting-IsSafe, remove_waiting-Out, leaves-IsSafe,
}

abbrev refl-Frame : (k : Kernel) → Frame k k
refl-Frame k = record { same_nodes = refl; same_ready = refl; same_waiting = refl }

pub on_task-Frame :
    (id : ℕ) (m : Exec TaskError Task (Unit {0})) (k : Kernel) → Frame k (on_task id m k).1
unfolding on_task run_found
on_task-Frame id m k = go (lookup id k.tasks)
  where
    go : (o : Option Task) → Frame k (run_found id m o k).1
    go none = refl-Frame k
    go (some t) = record { same_nodes = refl; same_ready = refl; same_waiting = refl }

pub edit_task-Frame : (id : ℕ) (f : Task → Task) (k : Kernel) → Frame k (edit_task id f k)
unfolding edit_task edit_found
edit_task-Frame id f k = go (lookup id k.tasks)
  where
    go : (o : Option Task) → Frame k (edit_found id f o k)
    go none = refl-Frame k
    go (some t) = record { same_nodes = refl; same_ready = refl; same_waiting = refl }

pub on_task-IsSafe : (id : ℕ) (m : Exec TaskError Task (Unit {0})) → Keeps IsSafe (on_task id m)
on_task-IsSafe id m k h = frame-IsSafe k (on_task id m k).1 (on_task-Frame id m k) h

pub edit_task-IsSafe :
    (id : ℕ) (f : Task → Task) (k : Kernel) → IsSafe k → IsSafe (edit_task id f k)
edit_task-IsSafe id f k h = frame-IsSafe k (edit_task id f k) (edit_task-Frame id f k) h

-- A task that stands in neither queue changes its status and is put in one.
pub then_ready-IsSafe :
    (s : Setting) (id : ℕ) (m : Exec TaskError Task (Unit {0})) (k : Kernel)
    → IsSafe k
    → Out id k
    → deps_met id k ≡ true
    → IsSafe ((on_task id m >> modify (append_ready s id)) k).1
then_ready-IsSafe s id m k h out d =
    bind-lands (on_task id m) (λ u. modify (append_ready s id)) k (on_task-Frame id m k)
      (λ u k' f.
        append_ready-IsSafe s id k' (frame-IsSafe k k' f h) (frame-Out k k' id f out)
          (same_deps k k' id f.same_nodes ∙ d))
      (λ k' f. frame-IsSafe k k' f h)

pub then_waiting-IsSafe :
    (id : ℕ) (m : Exec TaskError Task (Unit {0})) (k : Kernel)
    → IsSafe k
    → Out id k
    → IsSafe ((on_task id m >> modify (append_waiting id)) k).1
then_waiting-IsSafe id m k h out =
    bind-lands (on_task id m) (λ u. modify (append_waiting id)) k (on_task-Frame id m k)
      (λ u k' f. append_waiting-IsSafe id k' (frame-IsSafe k k' f h) (frame-Out k k' id f out))
      (λ k' f. frame-IsSafe k k' f h)

pub if-IsSafe :
    {A : Type 0} (b : Bool) (x y : Result KernelError A × Kernel)
    → (b ≡ true → IsSafe x.1)
    → (b ≡ false → IsSafe y.1)
    → IsSafe (if b then x else y).1
if-IsSafe true x y h z = h refl
if-IsSafe false x y h z = z refl

pub settle-IsSafe :
    (s : Setting) (id : ℕ) (k : Kernel) → IsSafe k → Out id k → IsSafe (settle s id k).1
unfolding settle
settle-IsSafe s id k h out =
    if-IsSafe (deps_met id k) _ _ (λ d. then_ready-IsSafe s id _ k h out d)
      (λ d. then_waiting-IsSafe id _ k h out)

-- A task that waits, with no open dependency, becomes ready.
pub wake-IsSafe :
    (s : Setting) (id : ℕ) (m : Exec TaskError Task (Unit {0})) (k : Kernel)
    → IsSafe k
    → 0 < count id k.waiting_queue
    → deps_met id k ≡ true
    → IsSafe ((modify (remove_waiting id) >> (on_task id m >> modify (append_ready s id))) k).1
unfolding ◌>>=◌
wake-IsSafe s id m k h w d =
    then_ready-IsSafe s id m (remove_waiting id k) (remove_waiting-IsSafe id k h)
      (remove_waiting-Out id k h w) d

pub remove_from_queues-IsSafe :
    (id : ℕ) (k : Kernel)
    → IsSafe k
    → IsSafe (remove_from_queues id k) × Out id (remove_from_queues id k)
unfolding remove_from_queues
remove_from_queues-IsSafe id k h = leaves-IsSafe id k (remove_from_queues id k) refl refl refl h

-- A task leaves the queues, is blocked and waits.
pub wait-IsSafe :
    (id : ℕ) (m : Exec TaskError Task (Unit {0}))
    → Keeps IsSafe (modify (remove_from_queues id) >> (on_task id m >> modify (append_waiting id)))
unfolding ◌>>=◌
wait-IsSafe id m k h =
    let (safe, out) = remove_from_queues-IsSafe id k h in
    then_waiting-IsSafe id m (remove_from_queues id k) safe out

pub for_each-IsSafe :
    (xs : List ℕ) (body : ℕ → Act (Unit {0}))
    → ((x : ℕ) → Keeps IsSafe (body x))
    → Keeps IsSafe (for_each xs body)
unfolding for_each
for_each-IsSafe [] body hb = λ k h. h
for_each-IsSafe (x ∷ xs) body hb =
    Keeps-bind (body x) (λ u. for_each xs body) (hb x) (λ u. for_each-IsSafe xs body hb)
