-- ===== src/Scheduler.antt =====
-- kernel/src/scheduler.c: the ready queues, the choice of the next thread, and the switch to it. A
-- thread is named by the address of its control block and NULL is 0; the control blocks are a
-- function from addresses, and an array indexed by priority or processor is a function. A LONG is
-- the number of its 32 bits, so a negative priority is one from 2^31 on. Locks are left out, the
-- one that KeSchedule holds when KeAddThreadToReadyQueue takes it again included.
pub mod Ready
pub mod Choice
pub mod Switch
mod Tests
use dsls_os.Base.{
  store, ℕ, zero, suc, ◌+◌, ◌-◌, ◌*◌, ◌^◌, Bool, true, false, not, ◌&&◌, ◌||◌, List, [], ◌∷◌, ◌++◌,
  ltb, leb, ◌==◌, if◌then◌else◌, Status, success, invalid_parameter, inc32, dec32, ulong_mod, ◌%◌,
}
use dsls_os.Base.Entries.{remove_entry}
use dsls_os.Bits.{bit_at}

-- The thread states that the scheduler tells apart.
pub data ThreadState : Type 0 where
  created ready running waiting terminated : ThreadState

abbrev pub is_ready : ThreadState → Bool
is_ready ready = true
is_ready _ = false

abbrev pub is_running : ThreadState → Bool
is_running running = true
is_running _ = false

-- The fields of THREAD_CONTROL_BLOCK that the scheduler reads or writes.
pub record Thread : Type 0 where
  pub priority : ℕ
  pub state : ThreadState
  pub cpu_affinity : ℕ
  pub context_switch_count : ℕ

-- The structure g_Scheduler with the control blocks; `is_active` is its field Running.
pub record Scheduler : Type 0 where
  pub initialized : Bool
  pub is_active : Bool
  pub current_processor : ℕ
  pub ready_queues : ℕ → List ℕ
  pub ready_thread_counts : ℕ → ℕ
  pub current_thread : ℕ → ℕ
  pub idle_threads : ℕ → ℕ
  pub context_switches : ℕ
  pub thread_switches : ℕ
  pub idle_switches : ℕ
  pub time_quantum : ℕ
  pub quantum_remaining : ℕ
  pub preemption_enabled : Bool
  pub preemption_threshold : ℕ
  pub load_balancing_enabled : Bool
  pub load_balance_interval : ℕ
  pub last_load_balance_time : ℕ
  pub default_affinity : ℕ
  pub threads : ℕ → Thread

abbrev pub priority_levels : ℕ
priority_levels = 32

abbrev pub priority_normal : ℕ
priority_normal = 8

-- KeInitializeScheduler; of the statistics only the three counts above are kept.
abbrev pub initialize : Scheduler → Scheduler
initialize s = if s.initialized then s else record s {
  initialized = true;
  is_active = false;
  current_processor = 0;
  time_quantum = 10;
  quantum_remaining = 10;
  load_balancing_enabled = true;
  load_balance_interval = 1000;
  last_load_balance_time = 0;
  preemption_enabled = true;
  preemption_threshold = 5;
  default_affinity = 0xFFFFFFFF;
  ready_queues = λ p. [];
  ready_thread_counts = λ p. 0;
  current_thread = λ cpu. 0;
  idle_threads = λ cpu. 0;
  context_switches = 0;
  thread_switches = 0;
  idle_switches = 0;
}

-- `thread->CpuAffinity == 0 || (thread->CpuAffinity & (1ULL << CurrentProcessor))`
abbrev pub may_run : Scheduler → ℕ → ℕ → Bool
may_run s cpu t =
    ((s.threads t).cpu_affinity == 0) || not (bit_at (s.threads t).cpu_affinity cpu == 0)

-- Taking the head of a ready queue for a processor.
unfoldable pub take_thread : Scheduler → ℕ → ℕ → List ℕ → Scheduler
take_thread s priority t rest = record s {
  ready_queues = store s.ready_queues priority rest;
  ready_thread_counts =
      store s.ready_thread_counts priority (dec32 (s.ready_thread_counts priority));
  threads = store s.threads t (record (s.threads t) { state = running });
}

-- One round of the loop of KeFindNextThread, at a queue, given what the rounds after it return.
unfoldable pub try_queue : Scheduler → ℕ → ℕ → List ℕ → ℕ × Scheduler → ℕ × Scheduler
try_queue s cpu priority [] later = later
try_queue s cpu priority (t ∷ rest) later =
    if may_run s cpu t then (t, take_thread s priority t rest) else later

-- The loop of KeFindNextThread over the priorities below `n`, from the highest.
unfoldable pub find_below : Scheduler → ℕ → ℕ → ℕ × Scheduler
find_below s cpu zero = (s.idle_threads cpu, s)
find_below s cpu (suc n) = try_queue s cpu n (s.ready_queues n) (find_below s cpu n)

-- KeFindNextThread
abbrev pub find_next_thread : Scheduler → ℕ → ℕ × Scheduler
find_next_thread s cpu = find_below s cpu priority_levels

-- `Thread->Priority < 0 || Thread->Priority >= 32` is replaced by the normal priority.
abbrev pub valid_priority : ℕ → ℕ
valid_priority p = if ltb p priority_levels then p else priority_normal

-- KeAddThreadToReadyQueue
unfoldable pub add_thread_to_ready_queue : Scheduler → ℕ → Status × Scheduler
add_thread_to_ready_queue s t =
    let p = valid_priority (s.threads t).priority in
    if t == 0 then (invalid_parameter, s) else (
      success,
      record s {
        ready_queues = store s.ready_queues p (s.ready_queues p ++ t ∷ []);
        ready_thread_counts = store s.ready_thread_counts p (inc32 (s.ready_thread_counts p));
        threads = store s.threads t (record (s.threads t) { priority = p; state = ready });
      },
    )

-- What KeSwitchContext does to the thread that it switches from. Saving its registers is not
-- modelled, as KeSaveThreadContext does nothing.
unfoldable pub leave_thread : Scheduler → ℕ → Scheduler
leave_thread s t =
    let counted = record s { thread_switches = inc32 s.thread_switches } in
    if t == 0
    then record s { idle_switches = inc32 s.idle_switches }
    else if is_running (s.threads t).state
    then (add_thread_to_ready_queue counted t).1
    else counted

-- What KeSwitchContext does to the thread that it switches to.
unfoldable pub enter_thread : Scheduler → ℕ → ℕ → Scheduler
enter_thread s cpu t = record s {
  current_thread = store s.current_thread cpu t;
  quantum_remaining = s.time_quantum;
  threads = store s.threads t (record (s.threads t) { cpu_affinity = 2 ^ cpu % ulong_mod });
}

-- KeSwitchContext on processor `cpu`
unfoldable pub switch_context : Scheduler → ℕ → ℕ → Scheduler
switch_context s cpu t =
    let left =
      leave_thread (record s { context_switches = inc32 s.context_switches })
        (s.current_thread cpu) in
    if s.current_thread cpu == t then s else enter_thread left cpu t

-- KeSchedule on processor `cpu`
unfoldable pub schedule : Scheduler → ℕ → Scheduler
schedule s cpu =
    let (next, found) = find_next_thread s cpu in
    if s.is_active
    then (if next == s.current_thread cpu then found else switch_context found cpu next)
    else s

-- KePreemptCurrentThread
unfoldable pub preempt_current_thread : Scheduler → ℕ → Scheduler
preempt_current_thread s cpu =
    if not s.preemption_enabled
    then s
    else if s.current_thread cpu == 0
    then s
    else if s.current_thread cpu == s.idle_threads cpu
    then s
    else if leb s.quantum_remaining s.preemption_threshold
    then schedule s cpu
    else s

-- KeSetThreadPriority
unfoldable pub set_thread_priority : Scheduler → ℕ → ℕ → Status × Scheduler
set_thread_priority s t p =
    let old = (s.threads t).priority in
    let threads = store s.threads t (record (s.threads t) { priority = p }) in
    let queues = store s.ready_queues old (remove_entry t (s.ready_queues old)) in
    let counts = store s.ready_thread_counts old (dec32 (s.ready_thread_counts old)) in
    if t == 0
    then (invalid_parameter, s)
    else if ltb 31 p
    then (invalid_parameter, s)
    else if is_ready (s.threads t).state && not (old == p)
    then (
      success,
      record s {
        threads = threads;
        ready_queues = store queues p (queues p ++ t ∷ []);
        ready_thread_counts = store counts p (inc32 (counts p));
      },
    )
    else (success, record s { threads = threads })

-- KeSetSchedulerParameters
abbrev pub set_scheduler_parameters : Scheduler → ℕ → Bool → Bool → Scheduler
set_scheduler_parameters s quantum preemption balancing = record s {
  time_quantum = quantum;
  quantum_remaining = quantum;
  preemption_enabled = preemption;
  load_balancing_enabled = balancing;
}
