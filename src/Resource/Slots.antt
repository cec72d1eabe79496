-- ===== src/Resource/Slots.antt =====
-- The loops that take and give back slots for calls of a model.
use agent_runtime.Prelude.Sets.{add}
use agent_runtime.Prelude.Dict.{insert, remove, lookup-insert, lookup-remove}
use agent_runtime.Prelude.{
  ◌≡◌, true, suc, zero, refl, ℕ, Bool, ◌+◌, if◌then◌else◌, ◌≤◌, ◌==◌, arith, inl, inr, ◌<◌, ◌∙◌,
  ◌-◌, Bool-cases, leb,
}
use agent_runtime.Resource.Monitor.{
  Monitor, acquire_llm, release_llm, take_slots, release_llm_times, llm_count,
}

-- `m'` is `m` but for the books on slots.
pub record SameLeases (m m' : Monitor) : Type 0 where
  pub usage : m'.usage ≡ m.usage
  pub quota : m'.quota ≡ m.quota
  pub leases : m'.leases ≡ m.leases
  pub task_leases : m'.task_leases ≡ m.task_leases
  pub most : m'.llm_max_concurrent ≡ m.llm_max_concurrent
  pub reclaimed : m'.reclaimed ≡ m.reclaimed

SameLeases-refl : (m : Monitor) → SameLeases m m
SameLeases-refl m = record {
  usage = refl;
  quota = refl;
  leases = refl;
  task_leases = refl;
  most = refl;
  reclaimed = refl;
}

llm_count-insert :
    (agent a v : ℕ) (m m' : Monitor)
    → m'.agent_llm_counts ≡ insert agent v m.agent_llm_counts
    → llm_count a m' ≡ (if agent == a then v else llm_count a m)
unfolding llm_count
llm_count-insert agent a v m m' e =
    rw e (ground (arith, lookup-insert agent a v m.agent_llm_counts))

llm_count-remove :
    (agent a : ℕ) (m m' : Monitor)
    → m'.agent_llm_counts ≡ remove agent m.agent_llm_counts
    → llm_count a m' ≡ (if agent == a then 0 else llm_count a m)
unfolding llm_count
llm_count-remove agent a m m' e = rw e (ground (arith, lookup-remove agent a m.agent_llm_counts))

-- What taking `n` slots for an agent leaves.
pub record Took (n agent : ℕ) (m : Monitor) (r : Bool × Monitor) : Type 0 where
  pub taken : r.0 ≡ true
  pub total : r.1.llm_total_concurrent ≡ m.llm_total_concurrent + n
  pub count : (a : ℕ) → llm_count a r.1 ≡ (if agent == a then llm_count a m + n else llm_count a m)
  pub same : SameLeases m r.1

acquire_llm-Took :
    (agent limit : ℕ) (m : Monitor)
    → llm_count agent m < limit
    → m.llm_total_concurrent < m.llm_max_concurrent
    → Took 1 agent m (acquire_llm agent limit m)
unfolding acquire_llm
acquire_llm-Took agent limit m h k =
    let m' : Monitor = record m {
      active_llm_agents = add agent m.active_llm_agents;
      agent_llm_counts = insert agent (llm_count agent m + 1) m.agent_llm_counts;
      llm_total_concurrent = m.llm_total_concurrent + 1;
    } in
    let e : acquire_llm agent limit m ≡ (true, m') = ground arith in
    rw e (record {
      taken = refl;
      total = refl;
      count = λ a. ground (arith, llm_count-insert agent a (llm_count agent m + 1) m m' refl);
      same = record {
        usage = refl;
        quota = refl;
        leases = refl;
        task_leases = refl;
        most = refl;
        reclaimed = refl;
      };
    })

-- Slots that fit the two limits are all taken: the loop's way back is never gone.
pub take_slots-Took :
    (n acquired agent limit : ℕ) (m : Monitor)
    → llm_count agent m + n ≤ limit
    → m.llm_total_concurrent + n ≤ m.llm_max_concurrent
    → Took n agent m (take_slots n acquired agent limit m)
unfolding take_slots
take_slots-Took zero acquired agent limit m h k = record {
  taken = refl;
  total = omega arith;
  count = λ a. ground arith;
  same = SameLeases-refl m;
}
take_slots-Took (suc n) acquired agent limit m h k =
    let one = acquire_llm-Took agent limit m (omega arith) (omega arith) in
    let m' = (acquire_llm agent limit m).1 in
    let own : llm_count agent m' ≡ llm_count agent m + 1 = ground (arith, one.count agent) in
    let rest =
      take_slots-Took n (acquired + 1) agent limit m' (omega (arith, own))
        (omega (arith, one.total, one.same.most)) in
    rw one.taken (record {
      taken = rest.taken;
      total = omega (arith, rest.total, one.total);
      count = λ a. ground (arith, rest.count a, one.count a);
      same = record {
        usage = rest.same.usage ∙ one.same.usage;
        quota = rest.same.quota ∙ one.same.quota;
        leases = rest.same.leases ∙ one.same.leases;
        task_leases = rest.same.task_leases ∙ one.same.task_leases;
        most = rest.same.most ∙ one.same.most;
        reclaimed = rest.same.reclaimed ∙ one.same.reclaimed;
      };
    })

-- What giving back `n` slots of an agent leaves.
pub record Gave (n agent : ℕ) (m m' : Monitor) : Type 0 where
  pub total : m'.llm_total_concurrent ≡ m.llm_total_concurrent - n
  pub count : (a : ℕ) → llm_count a m' ≡ (if agent == a then llm_count a m - n else llm_count a m)
  pub same : SameLeases m m'

release_llm-Gave : (agent : ℕ) (m : Monitor) → Gave 1 agent m (release_llm agent m)
unfolding release_llm
release_llm-Gave agent m = elim (Bool-cases (leb (llm_count agent m) 1)) [
  | inl e ↦ rw e (record {
    total = refl;
    count = λ a. ground (arith, llm_count-remove agent a m (release_llm agent m) (rw e refl));
    same = record {
      usage = refl;
      quota = refl;
      leases = refl;
      task_leases = refl;
      most = refl;
      reclaimed = refl;
    };
  })
  | inr e ↦ rw e (record {
    total = refl;
    count = λ a. ground (
      arith,
      llm_count-insert agent a (llm_count agent m - 1) m (release_llm agent m) (rw e refl),
    );
    same = record {
      usage = refl;
      quota = refl;
      leases = refl;
      task_leases = refl;
      most = refl;
      reclaimed = refl;
    };
  })
]

pub release_llm_times-Gave :
    (n agent : ℕ) (m : Monitor) → Gave n agent m (release_llm_times n agent m)
unfolding release_llm_times
release_llm_times-Gave zero agent m = record {
  total = omega arith;
  count = λ a. ground arith;
  same = SameLeases-refl m;
}
release_llm_times-Gave (suc n) agent m =
    let one = release_llm-Gave agent m in
    let rest = release_llm_times-Gave n agent (release_llm agent m) in
    record {
      total = omega (arith, rest.total, one.total);
      count = λ a. ground (arith, rest.count a, one.count a);
      same = record {
        usage = rest.same.usage ∙ one.same.usage;
        quota = rest.same.quota ∙ one.same.quota;
        leases = rest.same.leases ∙ one.same.leases;
        task_leases = rest.same.task_leases ∙ one.same.task_leases;
        most = rest.same.most ∙ one.same.most;
        reclaimed = rest.same.reclaimed ∙ one.same.reclaimed;
      };
    }
