-- ===== src/Kernel/Agents.antt =====
-- Matching of tasks to agents by capability, and the reasons that KernelScheduler notes
-- (`_match_capability`, `match_agent`, `_select_agent_if_needed`, `_decision_reason`).
use agent_runtime.Prelude.Sets.{member}
use agent_runtime.Prelude.Int.{ℤ, neg, pos_part, pos, neg_part}
use agent_runtime.Kernel.Order.{lex_leb, dispatch_count}
use agent_runtime.Task.Status.{
  Reason, selected_agent, fifo_order, capability_match_none, is_text, priority_eq, capability_match,
  earliest_deadline, fair_share_count, resource_score, cost_aware, reliability_aware, policy_name,
}
use agent_runtime.Prelude.Result.{ok}
use agent_runtime.Prelude.{
  ◌∷◌, true, some, [], false, none, Option, Bool, List, ℕ, if◌then◌else◌, ◌==◌, not, filter, ◌||◌,
  ◌+◌, ◌&&◌, is_empty, any, get_or,
}
use agent_runtime.Kernel.Defs.{
  Kernel, Setting, Policy, Agent, edit_task, Act, has_name, fifo, priority, deadline, fair_share,
  resource_aware, capability_aware, cost_aware_policy, reliability_aware_policy, other_policy,
}
use agent_runtime.Task.Spec.{Task, RequiredCapability}

-- the texts that start with "capability_match"; the checker's texts do not
abbrev pub starts_capability_match : Reason → Bool
starts_capability_match capability_match = true
starts_capability_match capability_match_none = true
starts_capability_match (selected_agent name score) = true
starts_capability_match _ = false

-- `reason or default`
abbrev pub or_reason : Reason → Reason → Reason
or_reason r d = if is_text r then r else d

-- a policy that keeps a capability reason, and else the task's last reason or its own name
abbrev pub capability_reason : Task → Reason → Reason → Reason
capability_reason task r d =
    if starts_capability_match r then r else or_reason task.scheduler_decision_reason d

-- `_decision_reason`; the JSON text of a resource score stands as the reason that it follows
unfoldable pub decision_reason : Policy → Kernel → Task → Reason → Reason
decision_reason fifo k task r = fifo_order
decision_reason priority k task r = priority_eq task.priority
decision_reason deadline k task r = earliest_deadline
decision_reason fair_share k task r = fair_share_count (dispatch_count task.agent_name k)
decision_reason resource_aware k task r = resource_score r
decision_reason capability_aware k task r = capability_reason task r capability_match
decision_reason cost_aware_policy k task r = capability_reason task r cost_aware
decision_reason reliability_aware_policy k task r = capability_reason task r reliability_aware
decision_reason other_policy k task r = policy_name

-- a wish for an entry of a list, where there is one
abbrev pub has_text : Option ℕ → List ℕ → Bool
has_text none xs = true
has_text (some t) xs = t == 0 || member t xs

-- `_match_capability`
unfoldable pub match_capability : RequiredCapability → Agent → Bool
match_capability req cap =
    (not req.can_plan || cap.can_plan)
    && (not req.can_code || cap.can_code)
    && (not req.can_test || cap.can_test)
    && (not req.can_review || cap.can_review)
    && has_text req.language cap.languages
    && (is_empty req.languages || any (λ l. member l cap.languages) req.languages)
    && has_text req.tool cap.tools

-- `_match_agent_key`, as an order: the most reliable, then the cheapest, then by name
abbrev pub agent_key : Agent → List ℤ
agent_key a = neg a.reliability_score ∷ a.cost_level ∷ pos a.agent_name ∷ []

-- the first agent of least key: what `sort` puts at the head of the list
unfoldable pub best_agent : Agent → List Agent → Agent
unfolding lex_leb
best_agent a [] = a
best_agent a (b ∷ bs) = best_agent (if lex_leb (agent_key a) (agent_key b) then a else b) bs

unfoldable pub best_of : List Agent → Option Agent
unfolding best_agent
best_of [] = none
best_of (a ∷ as') = some (best_agent a as')

-- The agent that `match_agent` selects.
unfoldable pub choose_agent : RequiredCapability → List Agent → Option Agent
unfolding best_of match_capability
choose_agent req agents = best_of (filter (match_capability req) agents)

abbrev pub reliability_code : ℤ → ℕ
reliability_code z = pos_part z + neg_part z

-- What `match_agent` writes on the task.
unfoldable pub note_agent : Setting → ℕ → Option Agent → Kernel → Kernel
unfolding decision_reason edit_task
note_agent s id none k =
    edit_task id (λ t. record t { scheduler_decision_reason = capability_match_none }) k
note_agent s id (some a) k =
    edit_task id
      (λ t. record t {
        scheduler_decision_reason =
            decision_reason s.policy k t
              (selected_agent a.agent_name (reliability_code a.reliability_score));
        agent_name = some a.agent_name;
      })
      k

-- `match_agent`
unfoldable pub match_agent : Setting → ℕ → Task → List Agent → Act (Option Agent)
unfolding note_agent choose_agent
match_agent s id task agents k =
    let chosen = choose_agent task.required_capability agents in
    (ok chosen, note_agent s id chosen k)

-- `_select_agent_if_needed`
unfoldable pub select_agent_if_needed : Setting → ℕ → Task → Act (Option Agent)
unfolding match_agent
select_agent_if_needed s id task k =
    if not task.required_capability.nonempty && has_name task.agent_name
    then (ok none, k)
    else match_agent s id task (get_or s.agent_provider []) k
