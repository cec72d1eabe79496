-- ===== src/Kernel/Dispatch.antt =====
-- Dispatch in KernelScheduler: `dispatch_ready` and `dequeue` (aruntime/scheduler/kernel.py).
use agent_runtime.Prelude.Dict.{lookup}
use agent_runtime.Task.Status.{
  Reason, TaskStatus, FailureMode, no_capability_match, no_reason, task_success,
  dependency_fail_closed, task_failed, is_text, capability_match_none, dependencies_satisfied,
  dependency_mode, blocked_reason, blocked_wake,
}
use agent_runtime.Kernel.Order.{sort_ready}
use agent_runtime.Kernel.Agents.{select_agent_if_needed, or_reason}
use agent_runtime.Prelude.Result.{ok, ◌>>=◌, pure, ◌>>◌, modify}
use agent_runtime.Prelude.{
  [], ◌∷◌, none, ◌++◌, true, zero, false, some, suc, Option, ℕ, if◌then◌else◌, List, Bool, length,
  is_empty, is_none, ltb, ◌&&◌, ◌||◌, not,
}
use agent_runtime.Kernel.Defs.{Kernel, Setting, Act, edit_task, Agent, has_name}
use agent_runtime.Kernel.Queues.{wake_waiting, mark_running, move_to_waiting, resource_available}
use agent_runtime.Task.Spec.{Task}
use agent_runtime.Task.Status
use agent_runtime.Task.Status.{fail_closed, fail_open, degrade, fall_back, retry}

unfoldable pub name_of : Option Task → Option ℕ
name_of none = none
name_of (some t) = t.agent_name

-- an entry of the selection log, with the agent's name that the task has by then
unfoldable pub log_selection : ℕ → Bool → Reason → Kernel → Kernel
unfolding name_of
log_selection id selected reason k = record k {
  selection_log =
      k.selection_log
      ++ record {
        task_id = id;
        agent_name = name_of (lookup id k.tasks);
        selected = selected;
        reason = reason;
      }
        ∷ [];
}

-- `dispatch_ready`, a task that no agent matches
unfoldable pub dispatch_unmatched : Setting → ℕ → Act Bool
unfolding move_to_waiting edit_task log_selection ◌>>=◌
dispatch_unmatched s id = do
  move_to_waiting s id no_capability_match
  modify (edit_task id (λ t. record t { scheduler_decision_reason = capability_match_none }))
  modify (log_selection id false no_capability_match)
  pure false

-- `dispatch_ready`, a task that the checker refuses
unfoldable pub dispatch_refused : Setting → ℕ → Reason → Act Bool
unfolding move_to_waiting log_selection ◌>>=◌
dispatch_refused s id reason = do
  move_to_waiting s id reason
  modify (log_selection id false reason)
  pure false

abbrev pub set_agent : Option Agent → ℕ → Kernel → Kernel
set_agent none id k = k
set_agent (some a) id k = edit_task id (λ t. record t { agent_name = some a.agent_name }) k

unfoldable pub reason_of : Option Task → Reason
reason_of none = no_reason
reason_of (some t) = t.scheduler_decision_reason

unfoldable pub log_dispatched : ℕ → Kernel → Kernel
unfolding log_selection reason_of
log_dispatched id k = log_selection id true (reason_of (lookup id k.tasks)) k

-- `dispatch_ready`, a task that runs
unfoldable pub dispatch_running : Setting → ℕ → Task → Option Agent → Reason → Act Bool
unfolding mark_running edit_task log_dispatched ◌>>=◌
dispatch_running s id task agent reason = do
  mark_running s id task (or_reason reason Status.resource_available)
  modify (set_agent agent id)
  modify (log_dispatched id)
  pure true

unfoldable pub dispatch_checked : Setting → ℕ → Task → Option Agent → Bool × Reason → Act Bool
unfolding dispatch_refused dispatch_running
dispatch_checked s id task agent (false, reason) = dispatch_refused s id reason
dispatch_checked s id task agent (true, reason) = dispatch_running s id task agent reason

-- the checker sees the task as the matching left it
unfoldable pub dispatch_matched : Setting → ℕ → Option Agent → Option Task → Act Bool
unfolding dispatch_unmatched dispatch_checked
dispatch_matched s id agent none k = (ok false, k)
dispatch_matched s id agent (some task) k =
    if is_none agent && (task.required_capability.nonempty || not (has_name task.agent_name))
    then dispatch_unmatched s id k
    else dispatch_checked s id task agent (resource_available s k task) k

abbrev pub match_then : Setting → ℕ → Option Agent → Act Bool
unfolding dispatch_matched
match_then s id agent k = dispatch_matched s id agent (lookup id k.tasks) k

unfoldable pub dispatch_found : Setting → ℕ → Option Task → Act Bool
unfolding dispatch_matched select_agent_if_needed ◌>>=◌
dispatch_found s id none k = (ok false, k)
dispatch_found s id (some task) k =
    (do agent ← select_agent_if_needed s id task; match_then s id agent) k

-- one turn of the loop of `dispatch_ready`: whether the task taken off the queue runs
unfoldable pub dispatch_one : Setting → ℕ → Act Bool
unfolding dispatch_found
dispatch_one s id k = dispatch_found s id (lookup id k.tasks) k

-- `limit is None or len(dispatched) < limit`
abbrev pub below_limit : Option ℕ → ℕ → Bool
below_limit none n = true
below_limit (some limit) n = ltb n limit

-- the loop of `dispatch_ready`; each turn takes a task off the ready queue, so a turn for each
-- task in it is enough
unfoldable pub dispatch_loop : ℕ → Setting → Option ℕ → List ℕ → Act (List ℕ)
unfolding dispatch_one ◌>>=◌
dispatch_loop zero s limit dispatched k = (ok dispatched, k)
dispatch_loop (suc fuel) s limit dispatched k = elim k.ready_queue [
  | [] ↦ (ok dispatched, k)
  | id ∷ rest ↦ elim (below_limit limit (length dispatched)) [
    | false ↦ (ok dispatched, k)
    | true ↦
        (do
          runs ← dispatch_one s id
          dispatch_loop fuel s limit (if runs then dispatched ++ id ∷ [] else dispatched))
          (record k { ready_queue = rest })
  ]
]

unfoldable pub wake_if_idle : Setting → Act (Unit {0})
unfolding wake_waiting
wake_if_idle s k = if is_empty k.ready_queue then wake_waiting s k else (ok tt, k)

unfoldable pub loop_all : Setting → Option ℕ → Act (List ℕ)
unfolding dispatch_loop
loop_all s limit k = dispatch_loop (length k.ready_queue) s limit [] k

unfoldable pub dispatch_ready : Setting → Option ℕ → Act (List ℕ)
unfolding wake_if_idle loop_all sort_ready ◌>>=◌
dispatch_ready s limit = do wake_if_idle s; modify (sort_ready s); loop_all s limit

unfoldable pub first_of_list : List ℕ → Option ℕ
first_of_list [] = none
first_of_list (x ∷ xs) = some x

-- `dequeue`
unfoldable pub dequeue : Setting → Act (Option ℕ)
unfolding dispatch_ready first_of_list ◌>>=◌
dequeue s = do dispatched ← dispatch_ready s (some 1); pure (first_of_list dispatched)
