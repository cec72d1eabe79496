-- ===== src/Examples/Repairing.antt =====
-- A tester that failed under a root with one patch, and agents of which one can repair.
use agent_runtime.Prelude.{
  not, ◌==◌, ℕ, none, some, List, [], ◌∷◌, ◌≡◌, true, false, refl, ◌+◌, ◌≤◌, length, ◌*◌,
}
use agent_runtime.Prelude.Dict.{lookup}
use agent_runtime.Workflow.Service.{
  FlowTask, Service, TaskRole, tester, coder, given, direct_tool, rounds_of, any_capability,
}
use agent_runtime.Workflow.Patches.{Git, integrate_root_patches, applied_of}
use agent_runtime.Workflow.Repairs.{Failure, new_service, repairs_bounded, fail_all, total}

abbrev flow_task : ℕ → TaskRole → List ℕ → FlowTask
flow_task id role patches = record {
  task_id = id;
  agent_name = none;
  task_input = given 0;
  context_id = 0;
  parent_task_id = none;
  root_task_id = some 9;
  task_role = role;
  required_backend = direct_tool;
  workspace = none;
  trace_id = 0;
  dependencies = [];
  children = [];
  required_capability = any_capability;
  fail_closed = true;
  failed_output = 4;
  is_success = true;
  patches = patches;
}

abbrev failure : ℕ → Failure
failure n = record {
  agents = (3, record { can_code = true; can_test = true; can_review = false }) ∷ [];
  cwd = 5;
  repair_id = 10 + n;
  test_id = 20 + n;
  task = flow_task 7 tester [];
}

-- a third failure starts no third round
two_rounds : rounds_of 9 (fail_all (failure 1 ∷ failure 2 ∷ failure 3 ∷ []) (new_service 2)) ≡ 2
unfolding fail_all lookup
two_rounds = refl

repairs_bounded_example :
    let s = fail_all (failure 1 ∷ failure 2 ∷ failure 3 ∷ []) (new_service 2) in
    (rounds_of 9 s ≤ 2) × (length s.enqueued ≡ 2 * total s.repair_rounds)
repairs_bounded_example = repairs_bounded 2 (failure 1 ∷ failure 2 ∷ failure 3 ∷ []) 9

-- A repository that takes every patch but the one of the given number.
abbrev git : ℕ → Git
git bad = record {
  resolve = λ repo ref. some 70;
  checks = λ base applied a. not (a == bad);
  applies = λ base applied a. true;
  clean = λ base applied. true;
  adds = λ base applied. true;
  nothing_staged = λ base applied. false;
  commits = λ base applied. true;
  head = λ base applied. some 77;
  path = 6;
}

abbrev service : Service
service = record (new_service 2) { tasks = (4, flow_task 4 coder (31 ∷ 32 ∷ [])) ∷ [] }

abbrev trigger : FlowTask
trigger = flow_task 4 coder (31 ∷ 32 ∷ [])

integrated_test :
    (lookup 9 (integrate_root_patches (git 40) (λ ts. ts) 5 trigger service).1.integration_commits
      ≡ some 77)
    × (applied_of 9 (integrate_root_patches (git 40) (λ ts. ts) 5 trigger service).1 ≡ 31 ∷ 32 ∷ [])
unfolding integrate_root_patches lookup
integrated_test = (refl, refl)

conflict_test : (integrate_root_patches (git 32) (λ ts. ts) 5 trigger service).1 ≡ service
unfolding integrate_root_patches lookup
conflict_test = refl
