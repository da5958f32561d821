-- ===== src/Timer.antt =====
-- kernel/src/timer.c: the system time and the queue of timers. A timer is named by its address and
-- NULL is 0; the KTIMER objects are a function from addresses. A LARGE_INTEGER is the natural
-- number of its 64 bits, in two's complement; its sums wrap. Locks are left out here:
-- `set_timer` does what KeSetTimer does between taking and giving back TimerLock. KeSetTimer and
-- KeProcessExpiredTimers call KeQuerySystemTime with the lock held, which Locking models.
pub mod Queue
pub mod Invariant
pub mod Expiry
pub mod Cancel
pub mod Locking
mod Tests
use dsls_os.Base.{
  ℕ, zero, suc, ◌+◌, ◌-◌, ◌%◌, ◌^◌, Bool, true, false, not, ◌&&◌, Option, none, some, List, [], ◌∷◌,
  ◌++◌, ltb, leb, ◌==◌, if◌then◌else◌, Status, success, invalid_parameter, inc32, dec32,
}
use dsls_os.Base.Entries.{remove_entry}
use dsls_os.Timer.Queue.{insert}

abbrev pub large_mod : ℕ
large_mod = 2 ^ 64

-- The order of the signed values of LARGE_INTEGERs is that of these numbers.
abbrev pub signed_key : ℕ → ℕ
signed_key x = (x + 2 ^ 63) % large_mod

abbrev pub add64 : ℕ → ℕ → ℕ
add64 a b = (a + b) % large_mod

abbrev pub sub64 : ℕ → ℕ → ℕ
sub64 a b = (a + (large_mod - b)) % large_mod

-- `DueTime.QuadPart < 0`
abbrev pub is_relative : ℕ → Bool
is_relative due = leb (2 ^ 63) due

-- The enumeration TIMER_STATE.
pub data Stage : Type 0 where
  idle pending expired cancelled : Stage

-- The fields of KTIMER that the functions here read or write; `periodic` is the flag
-- TIMER_FLAG_PERIODIC.
pub record Timer : Type 0 where
  pub due_time : ℕ
  pub period : ℕ
  pub inserted : Bool
  pub was_cancelled : Bool
  pub stage : Stage
  pub periodic : Bool
  pub dpc_routine : ℕ
  pub dpc_context : ℕ

pub record Statistics : Type 0 where
  pub total_timers_created : ℕ
  pub total_timers_expired : ℕ
  pub total_timer_expirations : ℕ
  pub active_timers : ℕ

-- The structure g_Timer with the timer objects; `queued_dpcs` lists the calls of KeQueueDpc, by
-- timer.
pub record Timers : Type 0 where
  pub initialized : Bool
  pub system_time : ℕ
  pub interrupt_time : ℕ
  pub boot_time : ℕ
  pub time_adjustment : ℕ
  pub time_increment : ℕ
  pub timer_resolution : ℕ
  pub minimum_timer_resolution : ℕ
  pub maximum_timer_resolution : ℕ
  pub queue : List ℕ
  pub timer_count : ℕ
  pub performance_counter : ℕ
  pub performance_frequency : ℕ
  pub statistics : Statistics
  pub timers : ℕ → Timer
  pub queued_dpcs : List ℕ

abbrev pub key : (ℕ → Timer) → ℕ → ℕ
key timers t = signed_key (timers t).due_time

abbrev pub put : (ℕ → Timer) → ℕ → Timer → ℕ → Timer
put timers t v j = if t == j then v else timers j

abbrev blank_statistics : Statistics
blank_statistics = record {
  total_timers_created = 0;
  total_timers_expired = 0;
  total_timer_expirations = 0;
  active_timers = 0;
}

-- KeQuerySystemTime: the time advances by each query.
abbrev pub query_system_time : Timers → ℕ × Timers
query_system_time s =
    let now = add64 s.system_time s.time_increment in (now, record s { system_time = now })

-- KeQueryPerformanceCounter
abbrev pub query_performance_counter : Timers → ℕ × Timers
query_performance_counter s =
    let counter = add64 s.performance_counter 1000 in
    (counter, record s { performance_counter = counter })

-- KeSetSystemTime; NULL is `none`.
abbrev pub set_system_time : Timers → Option ℕ → Status × Timers
set_system_time s none = (invalid_parameter, s)
set_system_time s (some new_time) = (success, record s { system_time = new_time })

-- KeInitializeTimer: it queries the time twice, before it sets the increment.
unfoldable pub initialize : Timers → Timers
initialize s = if s.initialized then s else record s {
  initialized = true;
  system_time = add64 (add64 s.system_time s.time_increment) s.time_increment;
  interrupt_time = 0;
  boot_time = add64 (add64 s.system_time s.time_increment) s.time_increment;
  time_adjustment = 10000000;
  time_increment = 100;
  timer_resolution = 100;
  minimum_timer_resolution = 1;
  maximum_timer_resolution = 1000000;
  queue = [];
  statistics = blank_statistics;
}

-- KeInitializeTimerObject; `is_periodic` is `TimerType == TIMER_TYPE_PERIODIC`.
unfoldable pub initialize_timer_object : Timers → ℕ → Bool → Status × Timers
initialize_timer_object s t is_periodic = if t == 0 then (invalid_parameter, s) else (
  success,
  record s {
    timers = put s.timers t (record {
      due_time = 0;
      period = 0;
      inserted = false;
      was_cancelled = false;
      stage = idle;
      periodic = is_periodic;
      dpc_routine = 0;
      dpc_context = 0;
    });
  },
)

-- KeCancelTimerInternal
unfoldable pub cancel_internal : Timers → ℕ → Timers
cancel_internal s t =
    if (s.timers t).inserted
    then record s {
      queue = remove_entry t s.queue;
      timers =
          put s.timers t
            (record (s.timers t) { inserted = false; stage = cancelled; was_cancelled = true });
      statistics = record s.statistics { active_timers = dec32 s.statistics.active_timers };
    }
    else s

-- KeCancelTimer
unfoldable pub cancel : Timers → ℕ → Bool × Timers
cancel s t =
    if t == 0
    then (false, s)
    else ((s.timers t).inserted, (if (s.timers t).inserted then cancel_internal s t else s))

-- KeInsertTimerIntoQueue
abbrev pub insert_into_queue : Timers → ℕ → Timers
insert_into_queue s t = record s {
  queue = insert (key s.timers) t s.queue;
  statistics = record s.statistics { active_timers = inc32 s.statistics.active_timers };
}

-- The steps of KeSetTimer after an earlier setting is cancelled, with the due time already made
-- absolute.
unfoldable pub arm : Timers → ℕ → ℕ → ℕ → ℕ → ℕ → Timers
arm s t due period dpc context =
    let prepared = record s {
      timers = put s.timers t (record (s.timers t) {
        due_time = due;
        period = period;
        was_cancelled = false;
        periodic = not (period == 0);
        dpc_routine = dpc;
        dpc_context = context;
      });
    } in
    let queued = insert_into_queue prepared t in
    record queued {
      timers = put queued.timers t (record (queued.timers t) { inserted = true; stage = pending });
      statistics = record queued.statistics {
        total_timers_created = inc32 queued.statistics.total_timers_created;
      };
    }

-- KeSetTimer
unfoldable pub set_timer : Timers → ℕ → ℕ → ℕ → ℕ → ℕ → Status × Timers
set_timer s t due period dpc context =
    let s1 = if (s.timers t).inserted then cancel_internal s t else s in
    let (now, s2) = query_system_time s1 in
    if t == 0
    then (invalid_parameter, s)
    else if is_relative due
    then (success, arm s2 t (sub64 now due) period dpc context)
    else (success, arm s1 t due period dpc context)

-- What the loop of KeProcessExpiredTimers does to the timer at the head of the queue: it is taken
-- out, and its DPC is queued if it has one: KeQueueDpc then stores the timer as the DPC's context.
unfoldable pub expire : Timers → ℕ → List ℕ → Timers
expire s t rest = record s {
  queue = rest;
  timers = put s.timers t (record (s.timers t) {
    inserted = false;
    stage = expired;
    dpc_context = if (s.timers t).dpc_routine == 0 then (s.timers t).dpc_context else t;
  });
  statistics = record s.statistics {
    total_timers_expired = inc32 s.statistics.total_timers_expired;
    total_timer_expirations = inc32 s.statistics.total_timer_expirations;
    active_timers = dec32 s.statistics.active_timers;
  };
  queued_dpcs = if (s.timers t).dpc_routine == 0 then s.queued_dpcs else s.queued_dpcs ++ t ∷ [];
}

-- A periodic timer that has expired is queued again.
unfoldable pub reschedule : Timers → ℕ → Timers
reschedule s t =
    let moved = record s {
      timers =
          put s.timers t
            (record (s.timers t) { due_time = add64 (s.timers t).due_time (s.timers t).period });
    } in
    let queued = insert_into_queue moved t in
    record queued {
      timers = put queued.timers t (record (queued.timers t) { inserted = true; stage = pending });
      statistics = record queued.statistics {
        active_timers = inc32 queued.statistics.active_timers;
      };
    }

-- Whether the loop of KeProcessExpiredTimers goes round again.
abbrev pub is_due : ℕ → Timers → List ℕ → Bool
is_due now s [] = false
is_due now s (t ∷ rest) = leb (key s.timers t) (signed_key now)

-- The body of that loop.
unfoldable pub process_head : Timers → List ℕ → Timers
process_head s [] = s
process_head s (t ∷ rest) =
    if (s.timers t).periodic && not (s.timers t).was_cancelled
    then reschedule (expire s t rest) t
    else expire s t rest

-- The loop; `none` is that the fuel is used up.
unfoldable pub process_queue : ℕ → ℕ → Timers → Option Timers
process_queue zero now s = none
process_queue (suc fuel) now s =
    let next = process_queue fuel now (process_head s s.queue) in
    if is_due now s s.queue then next else some s

-- KeSetTimerResolution: the status, the resolution that is reported, and the state.
unfoldable pub set_timer_resolution : Timers → ℕ → Status × Option ℕ × Timers
set_timer_resolution s requested =
    if ltb requested s.minimum_timer_resolution
    then (invalid_parameter, none, s)
    else if ltb s.maximum_timer_resolution requested
    then (invalid_parameter, none, s)
    else (success, some requested, record s { timer_resolution = requested })
