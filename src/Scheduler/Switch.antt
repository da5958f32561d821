-- ===== src/Scheduler/Switch.antt =====
-- KeSwitchContext, KeSchedule and KePreemptCurrentThread: the ready queues, and the fate of a running
-- thread when no other is ready.
use dsls_os.Base.{
  either, not, leb, ℕ, zero, suc, subst, ◌<◌, ◌≡◌, ◌≢◌, refl, sym, ap, ◌∙◌, arith, true, false,
  List, [], ◌∷◌, ◌++◌, ◌==◌, if◌then◌else◌, Bool-cases, inl, inr, ==_refl, ne→==, inc32,
}
use dsls_os.Scheduler.{
  preempt_current_thread, Scheduler, ThreadState, created, ready, running, waiting, terminated,
  is_ready, is_running, add_thread_to_ready_queue, leave_thread, enter_thread, switch_context,
  schedule, find_next_thread, find_below, try_queue, priority_levels, valid_priority,
}
use dsls_os.Scheduler.Ready.{
  IsReadyConsistent, replace_same-Member, add_thread_to_ready_queue-IsReadyConsistent,
}
use dsls_os.Scheduler.Choice.{Blocked, find_next_thread-Choice, Choice-IsReadyConsistent}

try_queue-Blocked :
    (s : Scheduler) (cpu n : ℕ) (queue : List ℕ) (later : ℕ × Scheduler)
    → Blocked s cpu queue
    → try_queue s cpu n queue later ≡ later
unfolding try_queue
try_queue-Blocked s cpu n [] later b = refl
try_queue-Blocked s cpu n (t ∷ rest) later b = rw b refl

running_not_ready : (x : ThreadState) → is_running x ≡ true → is_ready x ≡ false
running_not_ready created e = refl
running_not_ready ready e = sym e
running_not_ready running e = refl
running_not_ready waiting e = refl
running_not_ready terminated e = refl

leave_thread-IsReadyConsistent :
    (s : Scheduler) (t : ℕ) → IsReadyConsistent s → IsReadyConsistent (leave_thread s t)
unfolding leave_thread
leave_thread-IsReadyConsistent s t c = elim (Bool-cases (t == 0)) [
  | inl z ↦ rw z (record { counted = c.counted; member = c.member })
  | inr z ↦ elim (Bool-cases (is_running (s.threads t).state)) [
    | inl r ↦
        rw (z, r)
          (add_thread_to_ready_queue-IsReadyConsistent
            (record s { thread_switches = inc32 s.thread_switches }) t
            (record { counted = c.counted; member = c.member }) (running_not_ready _ r))
    | inr r ↦ rw (z, r) (record { counted = c.counted; member = c.member })
  ]
]

enter_thread-IsReadyConsistent :
    (s : Scheduler) (cpu t : ℕ) → IsReadyConsistent s → IsReadyConsistent (enter_thread s cpu t)
unfolding enter_thread
enter_thread-IsReadyConsistent s cpu t c = record {
  counted = c.counted;
  member = replace_same-Member s.ready_queues s.threads t _ c.member (λ q. refl);
}

switch_context-IsReadyConsistent :
    (s : Scheduler) (cpu t : ℕ) → IsReadyConsistent s → IsReadyConsistent (switch_context s cpu t)
unfolding switch_context
switch_context-IsReadyConsistent s cpu t c = elim (Bool-cases (s.current_thread cpu == t)) [
  | inl e ↦ rw e c
  | inr e ↦ rw e (
      enter_thread-IsReadyConsistent _ cpu t (
        leave_thread-IsReadyConsistent _ (s.current_thread cpu)
          (record { counted = c.counted; member = c.member })))
]

-- KeSchedule keeps the ready queues as they should be: every queue is counted right modulo the word
-- size, and a thread stands only in the queue of its own priority, only while it is ready, and
-- only once.
pub schedule-IsReadyConsistent :
    (s : Scheduler) (cpu : ℕ) → IsReadyConsistent s → IsReadyConsistent (schedule s cpu)
unfolding schedule
schedule-IsReadyConsistent s cpu c =
    let r = find_next_thread s cpu in
    let found : IsReadyConsistent r.1 =
      Choice-IsReadyConsistent s cpu priority_levels r c (find_next_thread-Choice s cpu) in
    either IsReadyConsistent s.is_active _ s
      (either IsReadyConsistent (r.0 == s.current_thread cpu) r.1 _ found
        (switch_context-IsReadyConsistent r.1 cpu r.0 found))
      c

find_below-idle :
    (s : Scheduler) (cpu n : ℕ)
    → ((q : ℕ) → q < n → Blocked s cpu (s.ready_queues q))
    → find_below s cpu n ≡ (s.idle_threads cpu, s)
unfolding find_below
find_below-idle s cpu zero b = refl
find_below-idle s cpu (suc n) b =
    try_queue-Blocked s cpu n (s.ready_queues n) _ (b n (omega arith))
    ∙ find_below-idle s cpu n (λ q h. b q (omega arith))

-- What a switch from a running thread to the idle thread leaves.
pub record Displaced (s r : Scheduler) (cpu t : ℕ) : Type 0 where
  pub idling : r.current_thread cpu ≡ s.idle_threads cpu
  pub waiting_behind :
      r.ready_queues (valid_priority (s.threads t).priority)
      ≡ s.ready_queues (valid_priority (s.threads t).priority) ++ t ∷ []
  pub still_ready : (r.threads t).state ≡ ready

switch_context-Displaced :
    (s : Scheduler) (cpu t : ℕ)
    → s.current_thread cpu ≡ t
    → t ≢ 0
    → t ≢ s.idle_threads cpu
    → is_running (s.threads t).state ≡ true
    → Displaced s (switch_context s cpu (s.idle_threads cpu)) cpu t
unfolding switch_context leave_thread add_thread_to_ready_queue enter_thread
switch_context-Displaced s cpu t e nz ni run =
    let idle = s.idle_threads cpu in
    let start : (s.current_thread cpu == idle) ≡ false = ne→== _ idle (λ h. ni (sym e ∙ h)) in
    let p = valid_priority (s.threads t).priority in
    record {
      idling = rw (start, ==_refl cpu) refl;
      waiting_behind = rw (start, e, ne→== t 0 nz, run, ==_refl p) refl;
      still_ready =
          rw (start, e, ne→== t 0 nz, run, ne→== idle t (λ h. ni (sym h)), ==_refl t) refl;
    }

-- When no other thread is ready for the processor, KeSchedule takes the processor from a thread
-- that is still running: on an active scheduler whose current thread is running and neither NULL
-- nor the idle thread, and in which every ready queue is empty or has a head that may not run
-- here, the idle thread becomes current, and the thread is made ready and put at the end of the
-- ready queue of its priority.
pub schedule-Displaced :
    (s : Scheduler) (cpu t : ℕ)
    → s.is_active ≡ true
    → ((q : ℕ) → q < priority_levels → Blocked s cpu (s.ready_queues q))
    → s.current_thread cpu ≡ t
    → t ≢ 0
    → t ≢ s.idle_threads cpu
    → is_running (s.threads t).state ≡ true
    → Displaced s (schedule s cpu) cpu t
unfolding schedule
schedule-Displaced s cpu t a b e nz ni run =
    let idle = s.idle_threads cpu in
    let found = find_below-idle s cpu priority_levels b in
    let other : (idle == s.current_thread cpu) ≡ false = ne→== idle _ (λ h. ni (sym e ∙ sym h)) in
    let decided : schedule s cpu ≡ switch_context s cpu idle =
      ap
        (λ r.
          if s.is_active
          then (if r.0 == s.current_thread cpu then r.1 else switch_context r.1 cpu r.0)
          else s)
        found
      ∙ ap
          (λ x.
            if x
            then (if idle == s.current_thread cpu then s else switch_context s cpu idle)
            else s)
          a
      ∙ ap (λ x. if x then s else switch_context s cpu idle) other in
    subst (λ r. Displaced s r cpu t) (sym decided) (switch_context-Displaced s cpu t e nz ni run)

-- KePreemptCurrentThread keeps the ready queues as they should be, whether it schedules or not: every
-- queue is counted right modulo the word size, and a thread stands only in the queue of its own
-- priority, only while it is ready, and only once.
pub preempt_current_thread-IsReadyConsistent :
    (s : Scheduler) (cpu : ℕ)
    → IsReadyConsistent s
    → IsReadyConsistent (preempt_current_thread s cpu)
unfolding preempt_current_thread
preempt_current_thread-IsReadyConsistent s cpu c =
    either IsReadyConsistent (not s.preemption_enabled) s _ c (
      either IsReadyConsistent (s.current_thread cpu == 0) s _ c (
        either IsReadyConsistent (s.current_thread cpu == s.idle_threads cpu) s _ c (
          either IsReadyConsistent (leb s.quantum_remaining s.preemption_threshold) _ s
            (schedule-IsReadyConsistent s cpu c) c)))
