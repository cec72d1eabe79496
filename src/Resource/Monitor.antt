-- ===== src/Resource/Monitor.antt =====
-- ResourceMonitor of aruntime/resource/monitor.py. The readings of psutil are the argument `Probe`,
-- the identifier of a new lease is an argument, and a lease is an object of the monitor's table:
-- who holds one holds its identifier.
use agent_runtime.Prelude.Sets.{add, discard}
use agent_runtime.Prelude.Dict.{insert, Dict, lookup, remove}
use agent_runtime.Prelude.{
  zero, some, ◌∷◌, [], ◌++◌, suc, false, none, true, ℕ, Bool, Option, ltb, ◌&&◌, get_or,
  if◌then◌else◌, ◌-◌, ◌+◌, List, leb, is_empty, ◌==◌, not, max, is_some,
}
use agent_runtime.Resource.Types.{
  Amounts, ResourceLease, usage_add, usage_sub, class_index, active, get, reclaim_lease, cpu,
  get_index, llm_concurrency, memory, release_lease, token, tool, kv_cache, network, released,
  LeaseStatus,
}

pub record Probe : Type 0 where
  pub cpu_percent : ℕ
  pub mem_percent : ℕ

pub record Monitor : Type 0 where
  pub cpu_threshold : ℕ
  pub mem_threshold : ℕ
  pub llm_max_concurrent : ℕ
  pub quota : Amounts
  pub usage : Amounts
  pub leases : Dict ResourceLease
  pub task_leases : Dict ℕ
  pub active_llm_agents : List ℕ
  pub agent_llm_counts : Dict ℕ
  pub llm_total_concurrent : ℕ
  pub reclaimed : List ℕ

-- The quotas that the environment sets, 0 for one that it does not.
pub record QuotaSettings : Type 0 where
  pub memory_bytes : ℕ
  pub token : ℕ
  pub tool : ℕ
  pub kv_cache : ℕ
  pub network : ℕ

-- ResourceMonitor.__init__, with the thresholds that the arguments or the environment give
unfoldable pub new_monitor : ℕ → ℕ → ℕ → QuotaSettings → Monitor
new_monitor cpu_threshold mem_threshold llm_max_concurrent settings = record {
  cpu_threshold = cpu_threshold;
  mem_threshold = mem_threshold;
  llm_max_concurrent = llm_max_concurrent;
  quota =
      (class_index cpu, 100)
      ∷ (class_index memory, settings.memory_bytes)
      ∷ (class_index llm_concurrency, llm_max_concurrent)
      ∷ (class_index token, settings.token)
      ∷ (class_index tool, settings.tool)
      ∷ (class_index kv_cache, settings.kv_cache)
      ∷ (class_index network, settings.network)
      ∷ [];
  usage = [];
  leases = [];
  task_leases = [];
  active_llm_agents = [];
  agent_llm_counts = [];
  llm_total_concurrent = 0;
  reclaimed = [];
}

abbrev pub check_system_cpu : Probe → Monitor → Bool
check_system_cpu p m = ltb p.cpu_percent m.cpu_threshold

abbrev pub check_system_memory : Probe → Monitor → Bool
check_system_memory p m = ltb p.mem_percent m.mem_threshold

abbrev pub check_llm_global : Monitor → Bool
check_llm_global m = ltb m.llm_total_concurrent m.llm_max_concurrent

unfoldable pub has_enough : Probe → Monitor → Bool
has_enough p m = check_system_cpu p m && check_system_memory p m && check_llm_global m

unfoldable pub llm_count : ℕ → Monitor → ℕ
llm_count agent m = get_or (lookup agent m.agent_llm_counts) 0

unfoldable pub acquire_llm : ℕ → ℕ → Monitor → Bool × Monitor
unfolding llm_count
acquire_llm agent limit m =
    if leb limit (llm_count agent m)
    then (false, m)
    else if leb m.llm_max_concurrent m.llm_total_concurrent
    then (false, m)
    else (
      true,
      record m {
        active_llm_agents = add agent m.active_llm_agents;
        agent_llm_counts = insert agent (llm_count agent m + 1) m.agent_llm_counts;
        llm_total_concurrent = m.llm_total_concurrent + 1;
      },
    )

unfoldable pub release_llm : ℕ → Monitor → Monitor
unfolding llm_count
release_llm agent m =
    let less = m.llm_total_concurrent - 1 in
    if leb (llm_count agent m) 1
    then record m {
      active_llm_agents = discard agent m.active_llm_agents;
      agent_llm_counts = remove agent m.agent_llm_counts;
      llm_total_concurrent = less;
    }
    else record m {
      agent_llm_counts = insert agent (llm_count agent m - 1) m.agent_llm_counts;
      llm_total_concurrent = less;
    }

-- `for _ in range(n): self.release_llm(agent)`
unfoldable pub release_llm_times : ℕ → ℕ → Monitor → Monitor
unfolding release_llm
release_llm_times zero agent m = m
release_llm_times (suc n) agent m = release_llm_times n agent (release_llm agent m)

pub data Denial : Type 0 where
  cpu_threshold memory_threshold : Denial
  over_quota : ℕ → Denial
  lease_limit : ℕ → Denial

-- the loop of `can_allocate`: the first class whose quota would be passed
unfoldable pub first_over : Amounts → Monitor → Option ℕ
first_over [] m = none
first_over ((c, amount) ∷ rest) m =
    let later = first_over rest m in
    if get_index c m.quota == 0
    then later
    else if ltb (get_index c m.quota) (get_index c m.usage + amount)
    then some c
    else later

abbrev quota_answer : Option ℕ → Option Denial
quota_answer none = none
quota_answer (some c) = some (over_quota c)

-- `none` is the answer `(True, "resource_available")`
unfoldable pub can_allocate : Probe → Amounts → Monitor → Option Denial
unfolding first_over
can_allocate p amounts m =
    if ltb 0 (get cpu amounts) && not (check_system_cpu p m)
    then some cpu_threshold
    else if ltb 0 (get memory amounts) && not (check_system_memory p m)
    then some memory_threshold
    else quota_answer (first_over amounts m)

-- the loop that takes the slots, and gives back those it has when one is refused
unfoldable pub take_slots : ℕ → ℕ → ℕ → ℕ → Monitor → Bool × Monitor
unfolding acquire_llm release_llm_times
take_slots zero acquired agent limit m = (true, m)
take_slots (suc n) acquired agent limit m =
    let (taken, m') = acquire_llm agent limit m in
    let rest = take_slots n (acquired + 1) agent limit m' in
    if taken then rest else (false, release_llm_times acquired agent m')

unfoldable pub use_amounts : Amounts → Amounts → Amounts
unfolding usage_add
use_amounts [] used = used
use_amounts ((c, amount) ∷ rest) used = use_amounts rest (usage_add c amount used)

unfoldable pub free_amounts : Amounts → Amounts → Amounts
unfolding usage_sub
free_amounts [] used = used
free_amounts ((c, amount) ∷ rest) used = free_amounts rest (usage_sub c amount used)

unfoldable pub new_lease : ℕ → ℕ → ℕ → ℕ → Amounts → ResourceLease
new_lease now fresh task agent amounts = record {
  lease_id = fresh;
  task_id = task;
  agent_name = agent;
  request = amounts;
  created_at = now;
  released_at = none;
  status = active;
  reason = 0;
}

unfoldable pub store_lease : ResourceLease → Monitor → Monitor
store_lease lease m = record m {
  leases = insert lease.lease_id lease m.leases;
  task_leases = insert lease.task_id lease.lease_id m.task_leases;
}

-- `acquire`, past the quota: the limits on slots, the slots, the lease and the usage
unfoldable pub acquire_slots : ℕ → ℕ → ℕ → ℕ → Amounts → Monitor → Option ResourceLease × Monitor
unfolding take_slots new_lease store_lease use_amounts
acquire_slots now fresh task agent amounts m =
    let llm_amount = get llm_concurrency amounts in
    let limit = max llm_amount 1 in
    let (taken, m') = take_slots llm_amount 0 agent limit m in
    let lease = new_lease now fresh task agent amounts in
    if ltb limit (llm_count agent m + llm_amount)
    then (none, m)
    else if ltb m.llm_max_concurrent (m.llm_total_concurrent + llm_amount)
    then (none, m)
    else if taken
    then (some lease, record (store_lease lease m') { usage = use_amounts amounts m'.usage })
    else (none, m')

unfoldable pub acquire : Probe → ℕ → ℕ → ℕ → ℕ → Amounts → Monitor → Option ResourceLease × Monitor
acquire p now fresh task agent amounts m =
    let lease = new_lease now fresh task agent amounts in
    if is_empty amounts
    then (some lease, store_lease lease m)
    else if is_some (can_allocate p amounts m)
    then (none, m)
    else acquire_slots now fresh task agent amounts m

-- release, of a lease that is active
unfoldable pub release_active : ℕ → ResourceLease → Monitor → Monitor
unfolding free_amounts release_llm_times
release_active now lease m =
    let m' =
      release_llm_times (get llm_concurrency lease.request) lease.agent_name
        (record m { usage = free_amounts lease.request m.usage }) in
    record m' {
      leases = insert lease.lease_id (release_lease now lease) m'.leases;
      task_leases = remove lease.task_id m'.task_leases;
    }

-- `if lease.status != "active": return`
unfoldable pub release_by : LeaseStatus → ℕ → ResourceLease → Monitor → Monitor
unfolding release_active
release_by active now lease m = release_active now lease m
release_by released now lease m = m

unfoldable pub release_found : ℕ → Option ResourceLease → Monitor → Monitor
unfolding release_by
release_found now none m = m
release_found now (some lease) m = release_by lease.status now lease m

-- `release` of nothing, of a lease, and of a text that is a task's or a lease's identifier
pub data Handle : Type 0 where
  nothing : Handle
  lease_object : ℕ → Handle
  text : ℕ → Handle

unfoldable pub release : ℕ → Handle → Monitor → Monitor
unfolding release_found
release now nothing m = m
release now (lease_object id) m = release_found now (lookup id m.leases) m
release now (text id) m =
    release_found now (lookup (get_or (lookup id m.task_leases) id) m.leases) m

-- `reclaim`: the release, then the reclaimer's own record of the same lease
unfoldable pub reclaim_found : ℕ → ℕ → Option ResourceLease → Monitor → Monitor
reclaim_found now reason none m = m
reclaim_found now reason (some lease) m = record m {
  leases = insert lease.lease_id (reclaim_lease now reason lease) m.leases;
  reclaimed = m.reclaimed ++ lease.lease_id ∷ [];
}

abbrev pub lease_of_task : ℕ → Monitor → Option ResourceLease
lease_of_task task m = lookup (get_or (lookup task m.task_leases) 0) m.leases

unfoldable pub reclaim : ℕ → ℕ → ℕ → Monitor → Monitor
unfolding reclaim_found release_found
reclaim now task reason m =
    let found = lease_of_task task m in reclaim_found now reason found (release_found now found m)

unfoldable pub lease_over : Amounts → Monitor → Option Denial
lease_over [] m = none
lease_over ((c, amount) ∷ rest) m =
    let later = lease_over rest m in
    if ltb 0 (get_index c m.quota) && ltb (get_index c m.quota) amount
    then some (lease_limit c)
    else later

-- `can_allocate` of an empty request has nothing to refuse
unfoldable pub monitor_lease : Probe → ResourceLease → Monitor → Option Denial
unfolding lease_over can_allocate
monitor_lease p lease m =
    if is_empty lease.request
    then none
    else elim (can_allocate p [] m) [ some d ↦ some d | none ↦ lease_over lease.request m ]
