-- ===== src/Workflow/Service.antt =====
-- `WorkflowService` (aruntime/workflow/service.py). A task is the fields of its TaskSpec that the service
-- reads or sets; texts are numbered, 0 for the empty one. New identifiers and the working directory are
-- arguments. Patches has the integration.
use agent_runtime.Prelude.{
  ℕ, ◌+◌, Bool, true, false, Option, none, some, List, [], ◌∷◌, ◌++◌, if◌then◌else◌, ◌==◌, leb,
  ◌&&◌, ◌||◌, not, get_or,
}
use agent_runtime.Prelude.Dict.{Dict, lookup, insert}

pub data TaskRole : Type 0 where
  coder repair tester reviewer other_role : TaskRole

pub data Backend : Type 0 where
  codex_cli direct_tool native_planner other_backend : Backend

pub record Capability : Type 0 where
  pub can_code : Bool
  pub can_test : Bool
  pub can_review : Bool

pub record Space : Type 0 where
  pub source_repo : ℕ
  pub base_ref : ℕ
  pub base_commit : Option ℕ
  pub read_only : Bool

-- What a task is asked to do: an input of its own, or the repair of a failed test run.
pub data Input : Type 0 where
  given : ℕ → Input
  repair_of : ℕ → ℕ → ℕ → Input

pub data Wanted : Type 0 where
  any_capability coding_in_python testing_with_pytest : Wanted

pub record FlowTask : Type 0 where
  pub task_id : ℕ
  pub agent_name : Option ℕ
  pub task_input : Input
  pub context_id : ℕ
  pub parent_task_id : Option ℕ
  pub root_task_id : Option ℕ
  pub task_role : TaskRole
  pub required_backend : Backend
  pub workspace : Option Space
  pub trace_id : ℕ
  pub dependencies : List ℕ
  pub children : List ℕ
  pub required_capability : Wanted
  pub fail_closed : Bool
  -- the output that its failure left, and whether its status is SUCCESS
  pub failed_output : ℕ
  pub is_success : Bool
  -- the patch artifacts of its attempts, in order
  pub patches : List ℕ

pub record Service : Type 0 where
  pub max_repair_rounds : ℕ
  pub tasks : Dict FlowTask
  pub enqueued : List ℕ
  pub persisted : List ℕ
  pub integration_commits : Dict ℕ
  pub integration_workspaces : Dict ℕ
  pub applied_artifacts : Dict (List ℕ)
  pub repair_rounds : Dict ℕ

abbrev pub is_tester : TaskRole → Bool
is_tester tester = true
is_tester _ = false

-- role in {"coder", "repair"}
abbrev pub writes_code : TaskRole → Bool
writes_code coder = true
writes_code repair = true
writes_code _ = false

-- next(name for name, agent in agents.items() if p(name, agent))
unfoldable pub first_agent : (ℕ → Capability → Bool) → Dict Capability → Option ℕ
first_agent p [] = none
first_agent p ((name, c) ∷ d) = let rest = first_agent p d in if p name c then some name else rest

-- the agent name "repair"
abbrev pub repair_name : ℕ
repair_name = 1

abbrev pub can_repair : ℕ → Capability → Bool
can_repair name c = c.can_code && (c.can_test || name == repair_name)

-- the text "HEAD"
abbrev pub head_ref : ℕ
head_ref = 1

-- a text, where there is one and it is not empty
abbrev pub nonempty : Option ℕ → Option ℕ
nonempty none = none
nonempty (some n) = if n == 0 then none else some n

-- task.root_task_id or task.task_id
abbrev pub root_of : FlowTask → ℕ
root_of task = get_or (nonempty task.root_task_id) task.task_id

abbrev pub repo_of : ℕ → Option Space → ℕ
repo_of cwd none = cwd
repo_of cwd (some w) = w.source_repo

-- (task.workspace.base_commit if task.workspace else "HEAD") or "HEAD"
abbrev pub commit_or_head : Option Space → ℕ
commit_or_head none = head_ref
commit_or_head (some w) = get_or (nonempty w.base_commit) head_ref

unfoldable pub repair_base : ℕ → FlowTask → Service → ℕ
unfolding lookup
repair_base root task s =
    get_or (nonempty (lookup root s.integration_commits)) (commit_or_head task.workspace)

unfoldable pub repair_task : ℕ → ℕ → ℕ → FlowTask → Service → FlowTask
unfolding repair_base lookup
repair_task cwd agent id task s =
    let root = root_of task in
    record {
      task_id = id;
      agent_name = some agent;
      task_input =
          repair_of task.task_id task.failed_output (get_or (lookup root s.integration_commits) 0);
      context_id = task.context_id;
      parent_task_id = some (get_or task.parent_task_id task.task_id);
      root_task_id = some root;
      task_role = repair;
      required_backend = codex_cli;
      workspace = some (record {
        source_repo = repo_of cwd task.workspace;
        base_ref = repair_base root task s;
        base_commit = none;
        read_only = false;
      });
      trace_id = task.trace_id;
      dependencies = [];
      children = [];
      required_capability = coding_in_python;
      fail_closed = true;
      failed_output = 0;
      is_success = false;
      patches = [];
    }

unfoldable pub retest_task : ℕ → ℕ → ℕ → FlowTask → Service → FlowTask
unfolding repair_base
retest_task cwd id repair_id task s =
    let root = root_of task in
    record {
      task_id = id;
      agent_name = none;
      task_input = task.task_input;
      context_id = task.context_id;
      parent_task_id = some repair_id;
      root_task_id = some root;
      task_role = tester;
      required_backend = direct_tool;
      workspace = some (record {
        source_repo = repo_of cwd task.workspace;
        base_ref = repair_base root task s;
        base_commit = none;
        read_only = true;
      });
      trace_id = task.trace_id;
      dependencies = repair_id ∷ [];
      children = [];
      required_capability = testing_with_pytest;
      fail_closed = false;
      failed_output = 0;
      is_success = false;
      patches = [];
    }

-- self.tasks[id] = item; enqueue_task(item); persist_task(item)
unfoldable pub take_on : FlowTask → Service → Service
unfolding insert
take_on item s = record s {
  tasks = insert item.task_id item s.tasks;
  enqueued = s.enqueued ++ item.task_id ∷ [];
  persisted = s.persisted ++ item.task_id ∷ [];
}

abbrev pub rounds_of : ℕ → Service → ℕ
rounds_of root s = get_or (lookup root s.repair_rounds) 0

-- the repair and the new test run, for a round that is left and an agent that can repair
unfoldable pub start_repair : ℕ → ℕ → ℕ → ℕ → FlowTask → Service → List FlowTask × Service
unfolding repair_task retest_task take_on insert lookup
start_repair cwd agent repair_id test_id task s =
    let root = root_of task in
    let s' = record s { repair_rounds = insert root (rounds_of root s + 1) s.repair_rounds } in
    let test = retest_task cwd test_id repair_id task s' in
    let fix = record (repair_task cwd agent repair_id task s') { children = test_id ∷ [] } in
    (fix ∷ test ∷ [], take_on test (take_on fix s'))

unfoldable pub handle_task_failure :
    Dict Capability → ℕ → ℕ → ℕ → FlowTask → Service → List FlowTask × Service
unfolding start_repair first_agent lookup
handle_task_failure agents cwd repair_id test_id task s =
    if not (is_tester task.task_role)
    then ([], s)
    else (if leb s.max_repair_rounds (rounds_of (root_of task) s)
        then ([], s)
        else elim (first_agent can_repair agents) [
          | none ↦ ([], s)
          | some agent ↦ start_repair cwd agent repair_id test_id task s
        ])

abbrev pub reads_integration : TaskRole → Bool
reads_integration tester = true
reads_integration reviewer = true
reads_integration _ = false

unfoldable pub workspace_for_task : ℕ → FlowTask → Service → Option Space
unfolding lookup
workspace_for_task cwd task s = elim (nonempty (lookup (root_of task) s.integration_commits)) [
  | none ↦ task.workspace
  | some commit ↦
      if reads_integration task.task_role
      then some (record {
        source_repo = repo_of cwd task.workspace;
        base_ref = commit;
        base_commit = some commit;
        read_only = true;
      })
      else task.workspace
]

-- _select_agent_for_child
unfoldable pub select_agent_for_child : Dict Capability → FlowTask → Option ℕ
unfolding first_agent
select_agent_for_child agents task = elim task.task_role [
  | tester ↦ first_agent (λ n c. c.can_test) agents
  | reviewer ↦ first_agent (λ n c. c.can_review) agents
  | coder ↦ first_agent (λ n c. c.can_code) agents
  | repair ↦ first_agent (λ n c. c.can_code) agents
  | other_role ↦ none
]
