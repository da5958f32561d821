-- ===== src/Mlfq.antt =====
-- kernel/src/advanced_scheduler.c: a scheduler with a queue of real-time threads, eight queues by
-- priority, groups with a fair share, and ageing. A thread is named by its address and NULL is 0;
-- the THREAD objects are a function from addresses, and arrays are functions. Locks are left out.
-- The THREAD structure, the THREAD_PRIORITY_ constants, the clock KeQueryTimeTicks, the current
-- thread and the current processor are not in the repository: they are arguments, and a priority is
-- taken as unsigned.
pub mod Select
pub mod Ageing
pub mod Schedule
pub mod Queues
pub mod Places
pub mod Choosing
pub mod Boosts
pub mod Starvation
pub mod FairShare
pub mod Steps
mod Tests
use dsls_os.Base.{
  store, ℕ, suc, ◌+◌, ◌-◌, ◌*◌, ◌/◌, ◌%◌, ◌^◌, Bool, true, false, not, ◌&&◌, ◌||◌, Option, none,
  some, List, [], ◌∷◌, ◌++◌, ltb, leb, ◌==◌, if◌then◌else◌, Status, success, unsuccessful,
  invalid_parameter, insufficient_resources, inc32, dec32, ulong_mod, min,
}
use dsls_os.Base.Entries.{remove_entry}

abbrev pub priority_levels : ℕ
priority_levels = 8

-- The THREAD_PRIORITY_ constants.
pub record Priorities : Type 0 where
  pub real_time : ℕ
  pub increment : ℕ
  pub highest : ℕ

pub data Algorithm : Type 0 where
  round_robin by_priority fair_share real_time load_balancing adaptive : Algorithm

-- The fields of THREAD that the scheduler reads or writes; `group` is the GroupId of its process,
-- `none` when it has no process.
pub record Thread : Type 0 where
  pub priority : ℕ
  pub is_ready : Bool
  pub in_scheduler_queue : Bool
  pub ready_time : ℕ
  pub quantum : ℕ
  pub affinity : ℕ
  pub group : Option ℕ

-- FAIR_SHARE_GROUP without its name.
pub record Group : Type 0 where
  pub group_id : ℕ
  pub group_weight : ℕ
  pub cpu_time_used : ℕ
  pub cpu_time_quota : ℕ

-- SCHEDULER_STATS
pub record Stats : Type 0 where
  pub total_schedules : ℕ
  pub context_switches : ℕ
  pub ready_queue_length : ℕ
  pub average_wait_time : ℕ
  pub starvation_count : ℕ
  pub load_balance_operations : ℕ

-- The static variables of the file: PRIORITY_QUEUE by level, CPU_TOPOLOGY by processor, and the
-- load balancer.
pub record Scheduler : Type 0 where
  pub initialized : Bool
  pub running : Bool
  pub ticks : ℕ
  pub stats : Stats
  pub queues : ℕ → List ℕ
  pub queue_lengths : ℕ → ℕ
  pub time_slices : ℕ → ℕ
  pub ageing_factors : ℕ → ℕ
  pub real_time_queue : List ℕ
  pub real_time_queue_length : ℕ
  pub idle_thread : ℕ
  pub algorithm : Algorithm
  pub cpu_count : ℕ
  pub cpu_load : ℕ → ℕ
  pub cpu_online : ℕ → Bool
  pub groups : List Group
  pub group_count : ℕ
  pub balancing : Bool
  pub balance_interval : ℕ
  pub balance_threshold : ℕ
  pub last_balance_time : ℕ
  pub threads : ℕ → Thread

abbrev pub ulong64_mod : ℕ
ulong64_mod = 2 ^ 64

-- `x++` on a ULONG64
abbrev pub inc64 : ℕ → ℕ
inc64 n = (n + 1) % ulong64_mod

-- `x - y` on ULONG64s
abbrev pub sub64 : ℕ → ℕ → ℕ
sub64 a b = (a + (ulong64_mod - b)) % ulong64_mod

-- KeInitializeAdvancedScheduler on a machine with `cpus` processors, given whether the pool has the
-- three arrays and the idle thread that PsCreateSystemThread makes.
unfoldable pub initialize : Scheduler → ℕ → Bool → Option ℕ → Status × Scheduler
initialize s cpus pool idle =
    let prepared = record s {
      queues = λ i. [];
      queue_lengths = λ i. 0;
      time_slices = λ i. 10 * (i + 1);
      ageing_factors = λ i. 100 / (i + 1);
      real_time_queue = [];
      real_time_queue_length = 0;
      groups = [];
      group_count = 0;
      cpu_count = cpus;
    } in
    let counting = record prepared { cpu_load = λ i. 0; cpu_online = λ i. true } in
    if s.initialized
    then (success, s)
    else if not pool
    then (insufficient_resources, prepared)
    else elim idle [
      | none ↦ (unsuccessful, counting)
      | some t ↦ (success, record counting { idle_thread = t; initialized = true; running = true })
    ]

-- KeStartScheduler and KeStopScheduler
abbrev pub set_running : Scheduler → Bool → Status × Scheduler
set_running s b = if s.initialized then (success, record s { running = b }) else (unsuccessful, s)

-- KeSetSchedulerAlgorithm
abbrev pub set_algorithm : Scheduler → Algorithm → Status × Scheduler
set_algorithm s a =
    if s.initialized then (success, record s { algorithm = a }) else (unsuccessful, s)

-- KeSetThreadAffinity
abbrev pub set_affinity : Scheduler → ℕ → ℕ → Status × Scheduler
set_affinity s t affinity = if t == 0 then (invalid_parameter, s) else (
  success,
  record s { threads = store s.threads t (record (s.threads t) { affinity = affinity }) },
)

-- KeUpdateCpuLoad
abbrev pub update_cpu_load : Scheduler → ℕ → ℕ → Scheduler
update_cpu_load s cpu load =
    if leb s.cpu_count cpu then s else record s { cpu_load = store s.cpu_load cpu load }

-- KeCreateFairShareGroup of a name that is not NULL; `pool` says whether the group is allocated.
unfoldable pub create_group : Scheduler → Bool → ℕ → Status × Option ℕ × Scheduler
create_group s pool weight =
    let id = inc32 s.group_count in
    if not s.initialized
    then (invalid_parameter, none, s)
    else if not pool
    then (insufficient_resources, none, s)
    else (
      success,
      some id,
      record s {
        group_count = id;
        groups =
            s.groups
            ++ record {
              group_id = id;
              group_weight = weight;
              cpu_time_used = 0;
              cpu_time_quota = 0;
            }
              ∷ [];
      },
    )

-- `priority / THREAD_PRIORITY_INCREMENT`, cut at the last level.
abbrev pub level_of : Priorities → ℕ → ℕ
level_of c p = min (p / c.increment) (priority_levels - 1)

abbrev pub append_to : Scheduler → ℕ → ℕ → Scheduler
append_to s i t = record s {
  queues = store s.queues i (s.queues i ++ t ∷ []);
  queue_lengths = store s.queue_lengths i (inc32 (s.queue_lengths i));
}

abbrev pub append_real_time : Scheduler → ℕ → Scheduler
append_real_time s t = record s {
  real_time_queue = s.real_time_queue ++ t ∷ [];
  real_time_queue_length = inc32 s.real_time_queue_length;
}

-- KeAddThreadToScheduler at the time `now`.
unfoldable pub add_thread : Priorities → Scheduler → ℕ → ℕ → Status × Scheduler
add_thread c s now t =
    let p = (s.threads t).priority in
    let queued = if leb c.real_time p then append_real_time s t else append_to s (level_of c p) t in
    if not s.initialized || t == 0 then (invalid_parameter, s) else (
      success,
      record queued {
        threads =
            store s.threads t (record (s.threads t) {
              is_ready = true;
              in_scheduler_queue = true;
              ready_time = now;
            });
      },
    )

-- RemoveEntryList of a thread's entry: it is taken out of the queue that holds it.
abbrev pub unlink : Scheduler → ℕ → Scheduler
unlink s t = record s {
  queues = λ i. remove_entry t (s.queues i);
  real_time_queue = remove_entry t s.real_time_queue;
}

-- The count that KeRemoveThreadFromScheduler lowers: it goes by the thread's priority.
abbrev pub lower_length : Priorities → Scheduler → ℕ → Scheduler
lower_length c s p =
    if leb c.real_time p
    then record s { real_time_queue_length = dec32 s.real_time_queue_length }
    else if ltb (p / c.increment) priority_levels
    then record s {
      queue_lengths =
          store s.queue_lengths (p / c.increment) (dec32 (s.queue_lengths (p / c.increment)));
    }
    else s

-- KeRemoveThreadFromScheduler
unfoldable pub remove_thread : Priorities → Scheduler → ℕ → Status × Scheduler
remove_thread c s t =
    let out = lower_length c (unlink s t) (s.threads t).priority in
    if not s.initialized || t == 0
    then (invalid_parameter, s)
    else if (s.threads t).in_scheduler_queue
    then (
      success,
      record out {
        threads = store s.threads t (record (s.threads t) { in_scheduler_queue = false });
      },
    )
    else (success, s)
