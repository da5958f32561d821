-- ===== src/Mlfq/Schedule.antt =====
-- KeScheduleNextThread with the statistics, the load balancer and the fair share, the clock tick
-- KeTimerInterruptHandler, and KiManagePower.
use dsls_os.Base.{
  store, ℕ, zero, suc, ◌+◌, ◌-◌, ◌*◌, ◌/◌, ◌%◌, Bool, true, false, not, ◌&&◌, ◌||◌, Option, some,
  List, [], ◌∷◌, map, ltb, leb, ◌==◌, if◌then◌else◌, ulong_mod,
}
use dsls_os.Mlfq.{
  priority_levels, Priorities, Algorithm, fair_share, Group, Scheduler, ulong64_mod, inc64, sub64,
  level_of,
}
use dsls_os.Mlfq.Select.{select_next_thread}
use dsls_os.Mlfq.Ageing.{age_threads, then_on}

-- The first loop of KiUpdateSchedulerStatistics, over `left` levels from `i` on.
unfoldable pub total_ready : Scheduler → ℕ → ℕ → ℕ → ℕ
total_ready s zero i total = total
total_ready s (suc left) i total =
    total_ready s left (i + 1) ((total + s.queue_lengths i) % ulong_mod)

-- The loop over one queue: the time waited and the number of threads.
unfoldable pub waited_in : Scheduler → ℕ → List ℕ → ℕ × ℕ → ℕ × ℕ
waited_in s now [] sum = sum
waited_in s now (t ∷ ts) sum =
    waited_in s now ts
      ((sum.0 + sub64 now (s.threads t).ready_time) % ulong64_mod, (sum.1 + 1) % ulong_mod)

-- The second loop of KiUpdateSchedulerStatistics.
unfoldable pub waited : Scheduler → ℕ → ℕ → ℕ → ℕ × ℕ → ℕ × ℕ
waited s now zero i sum = sum
waited s now (suc left) i sum = waited s now left (i + 1) (waited_in s now (s.queues i) sum)

-- KiUpdateSchedulerStatistics at the time `now`
unfoldable pub update_statistics : Scheduler → ℕ → Scheduler
update_statistics s now =
    let (time, count) = waited s now priority_levels 0 (0, 0) in
    record s {
      stats = record s.stats {
        ready_queue_length =
            (total_ready s priority_levels 0 0 + s.real_time_queue_length) % ulong_mod;
        average_wait_time = if count == 0 then s.stats.average_wait_time else time / count;
      };
    }

-- The loop of KiBalanceLoad without the numbers of the processors, which are not used: the greatest
-- and the least load of the processors that are online.
unfoldable pub extreme_loads : Scheduler → ℕ → ℕ → ℕ × ℕ → ℕ × ℕ
extreme_loads s zero i loads = loads
extreme_loads s (suc left) i loads =
    let load = s.cpu_load i in
    let seen : ℕ × ℕ = (
      (if ltb loads.0 load then load else loads.0),
      (if ltb load loads.1 then load else loads.1),
    ) in
    extreme_loads s left (i + 1) (if s.cpu_online i then seen else loads)

-- KiBalanceLoad at the time `now`; no thread is moved.
unfoldable pub balance_load : Scheduler → ℕ → Scheduler
balance_load s now =
    let (high, low) = extreme_loads s s.cpu_count 0 (0, 100) in
    let uneven = ltb s.balance_threshold ((high + (ulong_mod - low)) % ulong_mod) in
    let counted = record s.stats {
      load_balance_operations = inc64 s.stats.load_balance_operations;
    } in
    if not s.balancing
    then s
    else if ltb (sub64 now s.last_balance_time) s.balance_interval
    then s
    else record s { last_balance_time = now; stats = if uneven then counted else s.stats }

-- The first loop of KiCalculateFairShare.
unfoldable pub total_weight : List Group → ℕ → ℕ
total_weight [] total = total
total_weight (g ∷ gs) total = total_weight gs ((total + g.group_weight) % ulong_mod)

abbrev pub with_quota : ℕ → Group → Group
with_quota total g = record g { cpu_time_quota = 100 * g.group_weight / total }

-- KiCalculateFairShare. A group list that is not empty and has the total weight 0 makes the code
-- divide by zero; the quotient is then 0 here.
unfoldable pub calculate_fair_share : Scheduler → Scheduler
calculate_fair_share s = record s { groups = map (with_quota (total_weight s.groups 0)) s.groups }

abbrev pub is_fair_share : Algorithm → Bool
is_fair_share fair_share = true
is_fair_share _ = false

-- What KeScheduleNextThread counts when it has chosen the thread `next`.
abbrev pub count_choice : ℕ → ℕ × Scheduler → ℕ × Scheduler
count_choice current (next, s) =
    let switches = s.stats.context_switches in
    (
      next,
      record s {
        ticks = inc64 s.ticks;
        stats = record s.stats {
          total_schedules = inc64 s.stats.total_schedules;
          context_switches =
              if not (next == 0) && not (next == current) then inc64 switches else switches;
        };
      },
    )

-- KeScheduleNextThread after the ageing.
unfoldable pub choose : ℕ → ℕ → Scheduler → ℕ × Scheduler
choose cpu current s =
    let shared = if is_fair_share s.algorithm then calculate_fair_share s else s in
    count_choice current (select_next_thread shared cpu)

-- KeScheduleNextThread at the time `now` on processor `cpu`, which runs the thread `current`. The
-- fuel is that of each walk of KiAgeThreads; `none` is that a walk uses it up. The three calls that
-- read the clock are taken to find the same time.
unfoldable pub schedule_next_thread :
    ℕ → Priorities → ℕ → ℕ → ℕ → Scheduler → Option (ℕ × Scheduler)
schedule_next_thread fuel c now cpu current s =
    if not s.initialized || not s.running
    then some (0, s)
    else then_on (age_threads fuel c now (balance_load (update_statistics s now) now))
        (λ aged. some (choose cpu current aged))

-- KeTimerInterruptHandler on the current thread `t`, with whether KeRequestReschedule is called. The
-- quantum counts ticks and is not negative; `Quantum <= 0` after its decrement is that it was 0 or 1.
unfoldable pub timer_interrupt : Priorities → Scheduler → ℕ → Bool × Scheduler
timer_interrupt c s t =
    let quantum = (s.threads t).quantum in
    let renewed = s.time_slices (level_of c (s.threads t).priority) in
    if not (s.initialized && s.running)
    then (false, s)
    else if t == 0
    then (false, s)
    else if leb quantum 1
    then (
      true,
      record s { threads = store s.threads t (record (s.threads t) { quantum = renewed }) },
    )
    else (
      false,
      record s { threads = store s.threads t (record (s.threads t) { quantum = quantum - 1 }) },
    )

-- POWER_MANAGER
pub record Power : Type 0 where
  pub enabled : Bool
  pub cpu_frequency : ℕ
  pub cpu_voltage : ℕ

-- KiManagePower on processor `cpu`
unfoldable pub manage_power : Power → Scheduler → ℕ → Power
manage_power m s cpu =
    if not m.enabled
    then m
    else if ltb (s.cpu_load cpu) 20
    then record m { cpu_frequency = 50; cpu_voltage = 80 }
    else if ltb 80 (s.cpu_load cpu)
    then record m { cpu_frequency = 100; cpu_voltage = 100 }
    else record m { cpu_frequency = 75; cpu_voltage = 90 }
