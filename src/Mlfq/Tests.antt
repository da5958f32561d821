-- ===== src/Mlfq/Tests.antt =====
-- The theorems on the advanced scheduler at concrete states.
use dsls_os.Base.{store, ℕ, ◌≡◌, refl, arith, true, false, Option, none, some, [], ◌∷◌}
use dsls_os.Mlfq.{Priorities, adaptive, Thread, Group, Scheduler, initialize, add_thread}
use dsls_os.Mlfq.Select.{
  select_priority, select_down, select_with, select_by, select_adaptive, total_load, find_first,
  take_from,
}
use dsls_os.Mlfq.Ageing.{age_threads, age_levels, age_queue}
use dsls_os.Mlfq.Schedule.{
  schedule_next_thread, calculate_fair_share, update_statistics, balance_load, choose, waited,
  waited_in, total_ready, extreme_loads,
}
use dsls_os.Mlfq.Starvation.{IsJammed, schedule_next_thread-IsJammed}
use dsls_os.Mlfq.FairShare.{IsShared, calculate_fair_share-IsShared}
use dsls_os.Mlfq.Places.{IsSound, IsConsistent}
use dsls_os.Mlfq.Steps.{
  adds, Reachable, starts, goes_on, Reachable-IsConsistent, IsScheduled,
  schedule_next_thread-IsScheduled,
}

abbrev priorities : Priorities
priorities = record { real_time = 24; increment = 3; highest = 23 }

priorities-IsSound : IsSound priorities
priorities-IsSound = record { positive = omega arith; levels = omega arith; no_boost = omega arith }

abbrev plain : Thread
plain = record {
  priority = 22;
  is_ready = false;
  in_scheduler_queue = false;
  ready_time = 0;
  quantum = 10;
  affinity = 0;
  group = none;
}

abbrev off : Scheduler
off = record {
  initialized = false;
  running = false;
  ticks = 0;
  stats = record {
    total_schedules = 0;
    context_switches = 0;
    ready_queue_length = 0;
    average_wait_time = 0;
    starvation_count = 0;
    load_balance_operations = 0;
  };
  queues = λ i. [];
  queue_lengths = λ i. 0;
  time_slices = λ i. 0;
  ageing_factors = λ i. 0;
  real_time_queue = [];
  real_time_queue_length = 0;
  idle_thread = 0;
  algorithm = adaptive;
  cpu_count = 0;
  cpu_load = λ i. 0;
  cpu_online = λ i. false;
  groups = [];
  group_count = 0;
  balancing = true;
  balance_interval = 1000;
  balance_threshold = 10;
  last_balance_time = 0;
  threads = λ t. plain;
}

-- Two processors, the idle thread 9, and the thread 4 is ready since the time 5.
abbrev started : Scheduler
started = (initialize off 2 true (some 9)).1

abbrev one_ready : Scheduler
one_ready = (add_thread priorities started 5 4).1

one_ready-Reachable : Reachable priorities one_ready
unfolding initialize
one_ready-Reachable =
    goes_on started one_ready (starts off 2 true (some 9) refl (λ t. refl)) (adds 5 4 refl)

Reachable-IsConsistent_example : IsConsistent priorities one_ready
Reachable-IsConsistent_example =
    Reachable-IsConsistent priorities priorities-IsSound one_ready one_ready-Reachable

abbrev scheduled : Option (ℕ × Scheduler)
scheduled = schedule_next_thread 5 priorities 20 0 9 one_ready

abbrev or_off : Option (ℕ × Scheduler) → ℕ × Scheduler
or_off none = (0, off)
or_off (some r) = r

abbrev chosen : Option (ℕ × Scheduler) → Option ℕ
chosen none = none
chosen (some r) = some r.0

schedule_next_thread_ends : scheduled ≡ some (or_off scheduled)
unfolding schedule_next_thread age_threads age_levels age_queue initialize add_thread balance_load
    extreme_loads update_statistics
schedule_next_thread_ends = refl

schedule_next_thread-IsScheduled_example : IsScheduled priorities (or_off scheduled)
schedule_next_thread-IsScheduled_example =
    schedule_next_thread-IsScheduled priorities priorities-IsSound one_ready 5 20 0 9
      (or_off scheduled) one_ready-Reachable schedule_next_thread_ends

schedule_next_thread_returns : (or_off scheduled).0 ≡ 4
unfolding schedule_next_thread age_threads age_levels age_queue balance_load extreme_loads
    update_statistics total_ready waited waited_in choose initialize add_thread select_adaptive
    select_with select_by total_load select_priority select_down find_first take_from
schedule_next_thread_returns = refl

-- The threads 4 and 5 wait in the last queue since the time 0.
abbrev jammed : Scheduler
jammed = record off {
  initialized = true;
  running = true;
  queues = store off.queues 7 (4 ∷ 5 ∷ []);
  queue_lengths = store off.queue_lengths 7 2;
}

jammed-IsJammed : IsJammed priorities jammed 20000 (4 ∷ 5 ∷ [])
jammed-IsJammed = record {
  two = omega arith;
  stuck = λ t h. record { starved = refl; high = omega arith };
}

schedule_next_thread-IsJammed_example : schedule_next_thread 100 priorities 20000 0 9 jammed ≡ none
schedule_next_thread-IsJammed_example =
    schedule_next_thread-IsJammed priorities 20000 (omega arith) (omega arith) 100 0 9 jammed refl
      refl jammed-IsJammed

abbrev group_of : ℕ → ℕ → Group
group_of id weight = record {
  group_id = id;
  group_weight = weight;
  cpu_time_used = 0;
  cpu_time_quota = 0;
}

abbrev three_groups : Scheduler
three_groups = record off { groups = group_of 1 1 ∷ group_of 2 1 ∷ group_of 3 1 ∷ [] }

calculate_fair_share-IsShared_example : IsShared (calculate_fair_share three_groups).groups
calculate_fair_share-IsShared_example =
    calculate_fair_share-IsShared three_groups (omega arith) (omega arith)
