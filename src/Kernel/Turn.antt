-- ===== src/Kernel/Turn.antt =====
-- One turn of the loop of `dispatch_ready` (aruntime/scheduler/kernel.py): besides moving the task to
-- the waiting queue it changes nothing of the nodes and the two queues, so it keeps whatever reads
-- those alone and is kept by that move.
use agent_runtime.Prelude.{
  ℕ, Bool, true, false, ◌&&◌, refl, Option, some, none, is_none, not, ◌||◌, if◌then◌else◌,
}
use agent_runtime.Prelude.Result.{Result, Keeps, Keeps-bind, modify, pure, ◌>>◌}
use agent_runtime.Prelude.Dict.{lookup}
use agent_runtime.Task.Status.{Reason, no_reason, no_capability_match, capability_match_none}
use agent_runtime.Task.Status
use agent_runtime.Task.Spec.{Task}
use agent_runtime.Task.Spec
use agent_runtime.Kernel.Defs.{Kernel, KernelError, Setting, Agent, on_task, edit_task, has_name}
use agent_runtime.Kernel.Agents.{
  select_agent_if_needed, match_agent, note_agent, or_reason, decision_reason,
}
use agent_runtime.Kernel.Queues.{move_to_waiting, resource_available, mark_running, mark_fields}
use agent_runtime.Kernel.Dispatch.{
  dispatch_unmatched, dispatch_refused, dispatch_running, dispatch_checked, dispatch_matched,
  dispatch_found, dispatch_one, set_agent, log_dispatched, log_selection, match_then,
}
use agent_runtime.Kernel.Safety.{Frame}
use agent_runtime.Kernel.Moves.{on_task-Frame, edit_task-Frame}

module _ {P : Kernel → Type 0} (frame : (k k' : Kernel) → Frame k k' → P k → P k')
    (waits : (s : Setting) (id : ℕ) (reason : Reason) → Keeps P (move_to_waiting s id reason)) where
  edit-keeps : (id : ℕ) (f : Task → Task) (k : Kernel) → P k → P (edit_task id f k)
  edit-keeps id f k h = frame k (edit_task id f k) (edit_task-Frame id f k) h

  if-keeps :
      {A : Type 0} (b : Bool) (x y : Result KernelError A × Kernel)
      → P x.1
      → P y.1
      → P (if b then x else y).1
  if-keeps true x y h z = h
  if-keeps false x y h z = z

  log-keeps :
      (id : ℕ) (b : Bool) (reason : Reason) (k : Kernel) → P k → P (log_selection id b reason k)
  unfolding log_selection
  log-keeps id b reason k h =
      frame k (log_selection id b reason k)
        (record { same_nodes = refl; same_ready = refl; same_waiting = refl }) h

  mark_fields-keeps : (name : Option ℕ) (id : ℕ) (k : Kernel) → P k → P (mark_fields name id k)
  unfolding mark_fields
  mark_fields-keeps name id k h =
      let f = edit_task-Frame id (λ t. record t { resource_block_reason = no_reason }) k in
      frame k (mark_fields name id k)
        (record {
          same_nodes = f.same_nodes;
          same_ready = f.same_ready;
          same_waiting = f.same_waiting;
        })
        h

  mark_running-Keeps :
      (s : Setting) (id : ℕ) (task : Task) (reason : Reason)
      → Keeps P (mark_running s id task reason)
  unfolding mark_running
  mark_running-Keeps s id task reason k h =
      let m = Spec.transition_to s.now Status.running (decision_reason s.policy k task reason) in
      Keeps-bind (on_task id m) (λ u. modify (mark_fields task.agent_name id))
        (λ k h. frame k (on_task id m k).1 (on_task-Frame id m k) h)
        (λ u. mark_fields-keeps task.agent_name id) k h

  set_agent-keeps : (o : Option Agent) (id : ℕ) (k : Kernel) → P k → P (set_agent o id k)
  set_agent-keeps none id k h = h
  set_agent-keeps (some a) id k h = edit-keeps id _ k h

  dispatch_checked-Keeps :
      (s : Setting) (id : ℕ) (task : Task) (o : Option Agent) (r : Bool × Reason)
      → Keeps P (dispatch_checked s id task o r)
  unfolding dispatch_checked dispatch_refused dispatch_running log_dispatched
  dispatch_checked-Keeps s id task o (false, reason) =
      Keeps-bind (move_to_waiting s id reason)
        (λ u. modify (log_selection id false reason) >> pure false) (waits s id reason)
        (λ u. log-keeps id false reason)
  dispatch_checked-Keeps s id task o (true, reason) =
      Keeps-bind (mark_running s id task (or_reason reason Status.resource_available))
        (λ u. modify (set_agent o id) >> (modify (log_dispatched id) >> pure true))
        (mark_running-Keeps s id task _)
        (λ u k h. log-keeps id true _ (set_agent o id k) (set_agent-keeps o id k h))

  dispatch_unmatched-Keeps : (s : Setting) (id : ℕ) → Keeps P (dispatch_unmatched s id)
  unfolding dispatch_unmatched
  dispatch_unmatched-Keeps s id =
      let note = λ (t : Task). record t { scheduler_decision_reason = capability_match_none } in
      Keeps-bind (move_to_waiting s id no_capability_match)
        (λ u.
          modify (edit_task id note)
          >> (modify (log_selection id false no_capability_match) >> pure false))
        (waits s id no_capability_match)
        (λ u k h.
          log-keeps id false no_capability_match (edit_task id note k) (edit-keeps id note k h))

  dispatch_matched-Keeps :
      (s : Setting) (id : ℕ) (o : Option Agent) (t : Option Task)
      → Keeps P (dispatch_matched s id o t)
  unfolding dispatch_matched
  dispatch_matched-Keeps s id o none k h = h
  dispatch_matched-Keeps s id o (some task) k h =
      if-keeps (is_none o && (task.required_capability.nonempty || not (has_name task.agent_name)))
        _ _ (dispatch_unmatched-Keeps s id k h)
        (dispatch_checked-Keeps s id task o (resource_available s k task) k h)

  note_agent-keeps :
      (s : Setting) (id : ℕ) (o : Option Agent) (k : Kernel) → P k → P (note_agent s id o k)
  unfolding note_agent
  note_agent-keeps s id none k h = edit-keeps id _ k h
  note_agent-keeps s id (some a) k h = edit-keeps id _ k h

  select_agent-Keeps :
      (s : Setting) (id : ℕ) (task : Task) → Keeps P (select_agent_if_needed s id task)
  unfolding select_agent_if_needed match_agent
  select_agent-Keeps s id task k h =
      if-keeps (not task.required_capability.nonempty && has_name task.agent_name) _ _ h
        (note_agent-keeps s id _ k h)

  dispatch_found-Keeps : (s : Setting) (id : ℕ) (t : Option Task) → Keeps P (dispatch_found s id t)
  unfolding dispatch_found
  dispatch_found-Keeps s id none k h = h
  dispatch_found-Keeps s id (some task) k h =
      Keeps-bind (select_agent_if_needed s id task) (match_then s id) (select_agent-Keeps s id task)
        (λ o k h. dispatch_matched-Keeps s id o (lookup id k.tasks) k h) k h

  pub dispatch_one-Keeps : (s : Setting) (id : ℕ) → Keeps P (dispatch_one s id)
  unfolding dispatch_one
  dispatch_one-Keeps s id k h = dispatch_found-Keeps s id (lookup id k.tasks) k h
