-- ===== src/Timer/Tests.antt =====
-- The theorems on timers at concrete states.
use dsls_os.Base.{
  ◌≡◌, refl, true, false, Bool, Option, none, some, [], ◌∷◌, ◌==◌, Bool-cases, inl, inr,
}
use dsls_os.Base.Entries.{occurrences}
use dsls_os.Timer.{Timer, Timers, idle, pending, put, set_timer}
use dsls_os.Timer.Invariant.{IsOrdered, set_timer-IsOrdered}
use dsls_os.Timer.Locking.{process_expired_timers, process_expired_timers_hang}

abbrev unset : Timer
unset = record {
  due_time = 0;
  period = 0;
  inserted = false;
  was_cancelled = false;
  stage = idle;
  periodic = false;
  dpc_routine = 0;
  dpc_context = 0;
}

-- Due at 150, and every 60 after that.
abbrev periodic_timer : Timer
periodic_timer = record unset {
  due_time = 150;
  period = 60;
  inserted = true;
  stage = pending;
  periodic = true;
  dpc_routine = 8;
}

-- Timer 1 is queued; the next query of the time gives 300.
abbrev one_queued : Timers
one_queued = record {
  initialized = true;
  system_time = 200;
  interrupt_time = 0;
  boot_time = 0;
  time_adjustment = 10000000;
  time_increment = 100;
  timer_resolution = 100;
  minimum_timer_resolution = 1;
  maximum_timer_resolution = 1000000;
  queue = 1 ∷ [];
  timer_count = 0;
  performance_counter = 0;
  performance_frequency = 10000000;
  statistics = record {
    total_timers_created = 1;
    total_timers_expired = 0;
    total_timer_expirations = 0;
    active_timers = 1;
  };
  timers = put (λ t. unset) 1 periodic_timer;
  queued_dpcs = [];
}

one_queued-IsOrdered : IsOrdered one_queued
unfolding occurrences
one_queued-IsOrdered = record {
  listed = λ t. elim (Bool-cases (1 == t)) [ inl e ↦ rw e refl | inr e ↦ rw e refl ];
  sorted = (tt, tt);
}

set_timer-IsOrdered_example : IsOrdered (set_timer one_queued 2 120 0 8 0).1
set_timer-IsOrdered_example = set_timer-IsOrdered one_queued 2 120 0 8 0 one_queued-IsOrdered

-- A spin lock that is not recursive.
abbrev spin_lock : Bool → Option Bool
spin_lock true = none
spin_lock false = some true

process_expired_timers_hang_example : process_expired_timers spin_lock 1000 false one_queued ≡ none
process_expired_timers_hang_example =
    process_expired_timers_hang spin_lock refl refl 1000 one_queued refl
