-- ===== src/Mlfq/Steps.antt =====
-- The scheduler as a state machine: its operations as steps, and what holds in every state that it
-- reaches.
use dsls_os.Base.{
  store, otherwise, either, Status, ℕ, ◌≡◌, ◌⊎◌, refl, sym, subst, arith, Bool, false, not, ◌||◌,
  ◌&&◌, Option, none, some, [], ◌==◌, leb, Bool-cases, inl, inr, ==→eq,
}
use dsls_os.Base.Entries.{occurrences}
use dsls_os.Mlfq.{
  Priorities, Algorithm, Thread, Scheduler, initialize, set_running, set_algorithm, set_affinity,
  update_cpu_load, create_group, add_thread, remove_thread,
}
use dsls_os.Mlfq.Ageing.{then_on}
use dsls_os.Mlfq.Schedule.{
  update_statistics, balance_load, calculate_fair_share, is_fair_share, count_choice, choose,
  schedule_next_thread, timer_interrupt,
}
use dsls_os.Mlfq.Queues.{IsQueued, IsQueued-same}
use dsls_os.Mlfq.Places.{
  IsSound, IsConsistent, place_of, add_thread-IsConsistent, remove_thread-IsConsistent,
  place_of-unmarked,
}
use dsls_os.Mlfq.Choosing.{IsChosen, select_next_thread-IsChosen}
use dsls_os.Mlfq.Boosts.{Left, age_threads-Left}

-- One operation. A thread is added only while it is in no queue, which the code does not test.
pub data Step (c : Priorities) (s : Scheduler) : Scheduler → Type 0 where
  adds : (now t : ℕ) → (s.threads t).in_scheduler_queue ≡ false → Step c s (add_thread c s now t).1
  removes : (t : ℕ) → Step c s (remove_thread c s t).1
  schedules :
      (fuel now cpu current t : ℕ) (r : Scheduler)
      → schedule_next_thread fuel c now cpu current s ≡ some (t, r)
      → Step c s r
  ticks_on : (t : ℕ) → Step c s (timer_interrupt c s t).1
  sets_running : (b : Bool) → Step c s (set_running s b).1
  sets_algorithm : (a : Algorithm) → Step c s (set_algorithm s a).1
  sets_affinity : (t affinity : ℕ) → Step c s (set_affinity s t affinity).1
  updates_load : (cpu load : ℕ) → Step c s (update_cpu_load s cpu load)
  creates_group : (pool : Bool) (weight : ℕ) → Step c s (create_group s pool weight).2

-- What KeInitializeAdvancedScheduler and any operations after it lead to, when no thread is marked as
-- queued before.
pub data Reachable (c : Priorities) : Scheduler → Type 0 where
  starts :
      (s : Scheduler) (cpus : ℕ) (pool : Bool) (idle : Option ℕ)
      → s.initialized ≡ false
      → ((t : ℕ) → (s.threads t).in_scheduler_queue ≡ false)
      → Reachable c (initialize s cpus pool idle).1
  goes_on : (s r : Scheduler) → Reachable c s → Step c s r → Reachable c r

-- A change of a thread that leaves its priority and its mark.
replaced-IsConsistent :
    (c : Priorities) (s : Scheduler) (t : ℕ) (v : Thread)
    → place_of c v ≡ place_of c (s.threads t)
    → IsConsistent c s
    → IsConsistent c (record s { threads = store s.threads t v })
replaced-IsConsistent c s t v e q =
    IsQueued-same (λ i. refl) (λ i. refl) refl
      (λ u. elim (Bool-cases (t == u)) [
        | inl f ↦ rw (f, ← ==→eq t u f) (sym e)
        | inr f ↦ rw f refl
      ])
      q

empty-IsQueued : (place : ℕ → ℕ) → ((t : ℕ) → place t ≡ 0) → IsQueued (λ i. []) (λ i. 0) [] 0 place
unfolding occurrences
empty-IsQueued place out = record {
  counted = λ i. refl;
  placed = λ i t. rw (out t) (ground arith);
  counted_real_time = refl;
  placed_real_time = λ t. rw (out t) refl;
}

abbrev AfterCall : Priorities → Status × Scheduler → Type 0
AfterCall c r = IsConsistent c r.1

initialize-IsConsistent :
    (c : Priorities) (s : Scheduler) (cpus : ℕ) (pool : Bool) (idle : Option ℕ)
    → s.initialized ≡ false
    → ((t : ℕ) → (s.threads t).in_scheduler_queue ≡ false)
    → IsConsistent c (initialize s cpus pool idle).1
unfolding initialize
initialize-IsConsistent c s cpus pool none fresh out =
    let empty =
      empty-IsQueued (λ t. place_of c (s.threads t))
        (λ t. place_of-unmarked c (s.threads t) (out t)) in
    otherwise (AfterCall c) s.initialized _ _ fresh
      (either (AfterCall c) (not pool) _ _ empty empty)
initialize-IsConsistent c s cpus pool (some t) fresh out =
    let empty =
      empty-IsQueued (λ t. place_of c (s.threads t))
        (λ t. place_of-unmarked c (s.threads t) (out t)) in
    otherwise (AfterCall c) s.initialized _ _ fresh
      (either (AfterCall c) (not pool) _ _ empty empty)

-- What KeScheduleNextThread returns, when it ends: NULL, the idle thread, or a thread that is in no
-- queue any more.
pub record IsScheduled (c : Priorities) (r : ℕ × Scheduler) : Type 0 where
  pub consistent : IsConsistent c r.1
  pub free : (r.0 ≡ 0) ⊎ ((r.0 ≡ r.1.idle_thread) ⊎ ((r.1.threads r.0).in_scheduler_queue ≡ false))

abbrev pub Ended : Priorities → Option (ℕ × Scheduler) → Type 0
Ended c none = Unit {0}
Ended c (some r) = IsScheduled c r

module _ (c : Priorities) (sound : IsSound c) where
  balance_load-IsConsistent :
      (s : Scheduler) (now : ℕ) → IsConsistent c s → IsConsistent c (balance_load s now)
  unfolding balance_load
  balance_load-IsConsistent s now q =
      either (IsConsistent c) (not s.balancing) _ _ q (either (IsConsistent c) _ _ _ q q)

  count_choice-IsChosen :
      (current : ℕ) (r : ℕ × Scheduler) → IsChosen c r → IsChosen c (count_choice current r)
  count_choice-IsChosen current (t, s) k = record { consistent = k.consistent; free = k.free }

  choose-IsChosen :
      (cpu current : ℕ) (s : Scheduler) → IsConsistent c s → IsChosen c (choose cpu current s)
  unfolding choose calculate_fair_share
  choose-IsChosen cpu current s q = count_choice-IsChosen current _ (
      select_next_thread-IsChosen c _ cpu
        (either (IsConsistent c) (is_fair_share s.algorithm) _ s q q))

  choose-Ended :
      (cpu current : ℕ) (aged : Option Scheduler)
      → Left c aged
      → Ended c (then_on aged (λ a. some (choose cpu current a)))
  choose-Ended cpu current none l = tt
  choose-Ended cpu current (some a) l =
      let k = choose-IsChosen cpu current a l in
      record { consistent = k.consistent; free = inr k.free }

  schedule_next_thread-Ended :
      (fuel now cpu current : ℕ) (s : Scheduler)
      → IsConsistent c s
      → Ended c (schedule_next_thread fuel c now cpu current s)
  unfolding schedule_next_thread update_statistics
  schedule_next_thread-Ended fuel now cpu current s q =
      either (Ended c) (not s.initialized || not s.running) _ _
        (record { consistent = q; free = inl refl })
        (choose-Ended cpu current _
          (age_threads-Left c sound now fuel _ (balance_load-IsConsistent _ now q)))

  timer_interrupt-IsConsistent :
      (s : Scheduler) (t : ℕ) → IsConsistent c s → IsConsistent c (timer_interrupt c s t).1
  unfolding timer_interrupt
  timer_interrupt-IsConsistent s t q =
      let kept : Bool × Scheduler → Type 0 = λ r. IsConsistent c r.1 in
      let renewed = replaced-IsConsistent c s t _ refl q in
      either kept (not (s.initialized && s.running)) _ _ q (
        either kept (t == 0) _ _ q (
          either kept (leb (s.threads t).quantum 1) _ _ renewed
            (replaced-IsConsistent c s t _ refl q)))

  Step-IsConsistent : (s r : Scheduler) → Step c s r → IsConsistent c s → IsConsistent c r
  unfolding create_group
  Step-IsConsistent s r (adds now t out) q = add_thread-IsConsistent c s now t q out
  Step-IsConsistent s r (removes t) q = remove_thread-IsConsistent c s t sound q
  Step-IsConsistent s r (schedules fuel now cpu current t r₁ e) q =
      (subst (Ended c) e (schedule_next_thread-Ended fuel now cpu current s q)).consistent
  Step-IsConsistent s r (ticks_on t) q = timer_interrupt-IsConsistent s t q
  Step-IsConsistent s r (sets_running b) q = either (AfterCall c) s.initialized _ _ q q
  Step-IsConsistent s r (sets_algorithm a) q = either (AfterCall c) s.initialized _ _ q q
  Step-IsConsistent s r (sets_affinity t affinity) q =
      either (AfterCall c) (t == 0) _ _ q (replaced-IsConsistent c s t _ refl q)
  Step-IsConsistent s r (updates_load cpu load) q =
      either (IsConsistent c) (leb s.cpu_count cpu) _ _ q q
  Step-IsConsistent s r (creates_group pool weight) q =
      let kept : Status × Option ℕ × Scheduler → Type 0 = λ x. IsConsistent c x.2 in
      either kept (not s.initialized) _ _ q (either kept (not pool) _ _ q q)

  -- In every state that the scheduler reaches from its initialization by adding threads that are in no
  -- queue, by removing and scheduling threads, by ticks of the clock and by its settings, each
  -- thread that is marked as queued stands exactly once in the real-time queue or in the queue of
  -- its level, by its priority, and nowhere else, a thread that is not marked stands in no queue,
  -- and the lengths are right modulo the word size. The priority increment is above 0, the eight
  -- levels cover the priorities below the real-time ones, and no boost reaches those.
  pub Reachable-IsConsistent : (s : Scheduler) → Reachable c s → IsConsistent c s
  Reachable-IsConsistent s (starts s₀ cpus pool idle fresh out) =
      initialize-IsConsistent c s₀ cpus pool idle fresh out
  Reachable-IsConsistent s (goes_on before r h step) =
      Step-IsConsistent before s step (Reachable-IsConsistent before h)

  -- The thread that KeScheduleNextThread returns in a state that the scheduler reaches is NULL, the
  -- idle thread, or a thread that stands in no queue any more, so that no other call can return it
  -- before it is added again. The conditions on the priorities are those of the levels.
  pub schedule_next_thread-IsScheduled :
      (s : Scheduler) (fuel now cpu current : ℕ) (r : ℕ × Scheduler)
      → Reachable c s
      → schedule_next_thread fuel c now cpu current s ≡ some r
      → IsScheduled c r
  schedule_next_thread-IsScheduled s fuel now cpu current r h e =
      subst (Ended c) e
        (schedule_next_thread-Ended fuel now cpu current s (Reachable-IsConsistent s h))
