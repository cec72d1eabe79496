-- ===== src/Workflow/Repairs.antt =====
-- The repair rounds of a workflow (aruntime/workflow/service.py).
use agent_runtime.Prelude.{
  ℕ, ◌+◌, ◌*◌, ◌≤◌, false, List, [], ◌∷◌, ◌++◌, ◌≡◌, refl, arith, length, length-append, leb,
  Bool-cases, Option-cases, inl, inr, get_or, ◌==◌,
}
use agent_runtime.Prelude.Dict.{Dict, lookup, insert}
use agent_runtime.Workflow.Service.{
  FlowTask, Capability, Service, handle_task_failure, start_repair, take_on, rounds_of, root_of,
  is_tester, first_agent, can_repair,
}

-- WorkflowService(..., max_repair_rounds=most), with no task yet
abbrev pub new_service : ℕ → Service
new_service most = record {
  max_repair_rounds = most;
  tasks = [];
  enqueued = [];
  persisted = [];
  integration_commits = [];
  integration_workspaces = [];
  applied_artifacts = [];
  repair_rounds = [];
}

-- A failure that is reported, with the agents there are and the identifiers that are given out.
pub record Failure : Type 0 where
  pub agents : Dict Capability
  pub cwd : ℕ
  pub repair_id : ℕ
  pub test_id : ℕ
  pub task : FlowTask

unfoldable pub fail_all : List Failure → Service → Service
unfolding handle_task_failure
fail_all [] s = s
fail_all (f ∷ fs) s =
    fail_all fs (handle_task_failure f.agents f.cwd f.repair_id f.test_id f.task s).1

-- the rounds of all roots
unfoldable pub total : Dict ℕ → ℕ
total [] = 0
total ((k, n) ∷ d) = n + total d

total-insert : (k : ℕ) (d : Dict ℕ) → total (insert k (get_or (lookup k d) 0 + 1) d) ≡ total d + 1
unfolding total insert lookup
total-insert k [] = omega arith
total-insert k ((j, n) ∷ d) = ground (arith, total-insert k d)

abbrev Bounded : ℕ → Dict ℕ → Type 0
Bounded most [] = Unit
Bounded most ((k, n) ∷ d) = (n ≤ most) × Bounded most d

Bounded-insert :
    (most k n : ℕ) (d : Dict ℕ) → n ≤ most → Bounded most d → Bounded most (insert k n d)
unfolding insert
Bounded-insert most k n [] h b = (h, tt)
Bounded-insert most k n ((j, m) ∷ d) h b = elim (Bool-cases (j == k)) [
  | inl e ↦ rw e (h, b.1)
  | inr e ↦ rw e (b.0, Bounded-insert most k n d h b.1)
]

rounds-le : (most k : ℕ) (d : Dict ℕ) → Bounded most d → get_or (lookup k d) 0 ≤ most
unfolding lookup
rounds-le most k [] b = omega arith
rounds-le most k ((j, m) ∷ d) b = ground (arith, b.0, rounds-le most k d b.1)

-- What the service keeps of its repairs.
abbrev pub IsCounted : ℕ → Service → Type 0
IsCounted most s =
    (s.max_repair_rounds ≡ most)
    × Bounded most s.repair_rounds
    × (length s.enqueued ≡ 2 * total s.repair_rounds)

start_repair-IsCounted :
    (most cwd agent repair_id test_id : ℕ) (task : FlowTask) (s : Service)
    → IsCounted most s
    → leb s.max_repair_rounds (rounds_of (root_of task) s) ≡ false
    → IsCounted most (start_repair cwd agent repair_id test_id task s).1
unfolding start_repair take_on
start_repair-IsCounted most cwd agent repair_id test_id task s h left = (
  h.0,
  Bounded-insert most (root_of task) (rounds_of (root_of task) s + 1) s.repair_rounds
      (ground (arith, left, h.0)) h.1,
  rw
      (
        length-append (s.enqueued ++ repair_id ∷ []) (test_id ∷ []),
        length-append s.enqueued (repair_id ∷ []),
        total-insert (root_of task) s.repair_rounds,
        h.2,
      )
      (omega arith),
)

handle-IsCounted :
    (most : ℕ) (f : Failure) (s : Service)
    → IsCounted most s
    → IsCounted most (handle_task_failure f.agents f.cwd f.repair_id f.test_id f.task s).1
unfolding handle_task_failure
handle-IsCounted most f s h = elim (Bool-cases (is_tester f.task.task_role)) [
  | inr e ↦ rw (handle_task_failure, e) h
  | inl e ↦ elim (Bool-cases (leb s.max_repair_rounds (rounds_of (root_of f.task) s))) [
    | inl r ↦ rw (handle_task_failure, e, r) h
    | inr r ↦ elim (Option-cases (first_agent can_repair f.agents)) [
      | inl n ↦ rw (handle_task_failure, e, r, n) h
      | inr (agent, n) ↦
          rw (handle_task_failure, e, r, n)
            (start_repair-IsCounted most f.cwd agent f.repair_id f.test_id f.task s h r)
    ]
  ]
]

fail_all-IsCounted :
    (most : ℕ) (fs : List Failure) (s : Service) → IsCounted most s → IsCounted most (fail_all fs s)
unfolding fail_all
fail_all-IsCounted most [] s h = h
fail_all-IsCounted most (f ∷ fs) s h = fail_all-IsCounted most fs _ (handle-IsCounted most f s h)

-- Whatever failures are reported to a new service, however often and in whatever order, no root task gets
-- more repairs than the bound, and the tasks enqueued are two for each round: a repair and a new test.
pub repairs_bounded :
    (most : ℕ) (fs : List Failure) (root : ℕ)
    → let s = fail_all fs (new_service most) in
      (rounds_of root s ≤ most) × (length s.enqueued ≡ 2 * total s.repair_rounds)
repairs_bounded most fs root =
    let h = fail_all-IsCounted most fs (new_service most) (refl, tt, unfold total in refl) in
    (rounds-le most root _ h.1, h.2)
