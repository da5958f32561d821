-- ===== src/Scheduler/Tests.antt =====
-- The theorems on the scheduler at concrete states.
use dsls_os.Base.{store, ℕ, ◌<◌, ◌≡◌, refl, arith, true, [], ◌∷◌, ◌==◌, Bool-cases, inl, inr, ==→eq}
use dsls_os.Base.Entries.{occurrences}
use dsls_os.Scheduler.{
  Scheduler, Thread, ready, running, priority_levels, find_next_thread, schedule,
}
use dsls_os.Scheduler.Ready.{IsReadyConsistent, Counted, Member}
use dsls_os.Scheduler.Choice.{Blocked, Choice, find_next_thread-Choice}
use dsls_os.Scheduler.Switch.{schedule-IsReadyConsistent}

abbrev running_thread : Thread
running_thread = record {
  priority = 8;
  state = running;
  cpu_affinity = 1;
  context_switch_count = 0;
}

-- Processor 0 runs thread 1 and has the idle thread 2; no thread is ready.
abbrev one_running : Scheduler
one_running = record {
  initialized = true;
  is_active = true;
  current_processor = 0;
  ready_queues = λ p. [];
  ready_thread_counts = λ p. 0;
  current_thread = λ cpu. 1;
  idle_threads = λ cpu. 2;
  context_switches = 0;
  thread_switches = 0;
  idle_switches = 0;
  time_quantum = 10;
  quantum_remaining = 10;
  preemption_enabled = true;
  preemption_threshold = 5;
  load_balancing_enabled = true;
  load_balance_interval = 1000;
  last_load_balance_time = 0;
  default_affinity = 0xFFFFFFFF;
  threads = λ t. running_thread;
}

-- Thread 3 is ready as well.
abbrev one_ready : Scheduler
one_ready = record one_running {
  ready_queues = store one_running.ready_queues 8 (3 ∷ []);
  ready_thread_counts = store one_running.ready_thread_counts 8 1;
  threads = store one_running.threads 3 (record running_thread { state = ready });
}

one_ready-Counted : Counted one_ready.ready_thread_counts one_ready.ready_queues
one_ready-Counted p = elim (Bool-cases (8 == p)) [ inl e ↦ rw e refl | inr e ↦ rw e refl ]

one_ready-Member : Member one_ready.ready_queues one_ready.threads
unfolding occurrences
one_ready-Member p t = elim (Bool-cases (8 == p)) [
  | inl e ↦ elim (Bool-cases (3 == t)) [
    | inl f ↦ rw (← ==→eq 8 p e, f) (omega arith)
    | inr f ↦ rw (← ==→eq 8 p e, f) (omega arith)
  ]
  | inr e ↦ rw e (omega arith)
]

one_ready-IsReadyConsistent : IsReadyConsistent one_ready
one_ready-IsReadyConsistent = record { counted = one_ready-Counted; member = one_ready-Member }

one_running-Blocked :
    (q : ℕ) → q < priority_levels → Blocked one_running 0 (one_running.ready_queues q)
one_running-Blocked q h = tt

queued_once : occurrences 3 (one_ready.ready_queues 8) ≡ 1
unfolding occurrences
queued_once = refl

find_next_thread-Choice_example : Choice one_ready 0 32 (find_next_thread one_ready 0)
find_next_thread-Choice_example = find_next_thread-Choice one_ready 0

schedule-IsReadyConsistent_example : IsReadyConsistent (schedule one_ready 0)
schedule-IsReadyConsistent_example =
    schedule-IsReadyConsistent one_ready 0 one_ready-IsReadyConsistent
