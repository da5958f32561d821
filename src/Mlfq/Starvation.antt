-- ===== src/Mlfq/Starvation.antt =====
-- When the walk of KiAgeThreads over the last queue has no end.
use dsls_os.Base.{
  either, ℕ, zero, suc, ◌+◌, ◌*◌, ◌/◌, ◌≤◌, ◌<◌, ◌≡◌, refl, sym, ap, subst, arith, Bool, true,
  false, not, ◌||◌, ltb, Option, none, some, List, [], ◌∷◌, ◌++◌, ◌==◌, if◌then◌else◌, Bool-cases,
  inl, inr, ==→eq, length, length-append, ==_refl,
}
use native.Mathlib.Nat.{le-div_iff_mul-le}
use dsls_os.Base.Entries.{occurrences, occurrences-append}
use dsls_os.Mlfq.{sub64, Priorities, Scheduler, level_of, priority_levels}
use dsls_os.Mlfq.Ageing.{
  is_starved, boosted, boost, is_last, age_queue, age_levels, age_threads, then_on,
}
use dsls_os.Mlfq.Schedule.{update_statistics, balance_load, schedule_next_thread, choose}

-- A thread that has waited too long and whose priority belongs to the last queue.
pub record IsStuck (c : Priorities) (s : Scheduler) (now t : ℕ) : Type 0 where
  pub starved : is_starved s now t ≡ true
  pub high : 7 * c.increment ≤ (s.threads t).priority

-- The last queue has two threads or more, and all of them are stuck.
pub record IsJammed (c : Priorities) (s : Scheduler) (now : ℕ) (queue : List ℕ) : Type 0 where
  pub two : 2 ≤ length queue
  pub stuck : (t : ℕ) → 1 ≤ occurrences t queue → IsStuck c s now t

runs :
    {A : Type 0} (a b : Bool) (x y : Option A)
    → a ≡ true
    → b ≡ true
    → y ≡ none
    → (if not a || not b then x else y) ≡ none
runs a b x y ea eb e = rw (ea, eb) e

module _ (c : Priorities) (now : ℕ) (positive : 0 < c.increment)
    (high : 7 * c.increment ≤ c.highest) where
  boost-IsStuck : (s : Scheduler) (i t u : ℕ) → IsStuck c s now u → IsStuck c (boost c s i t) now u
  unfolding boost
  boost-IsStuck s i t u h = elim (Bool-cases (t == u)) [
    | inl e ↦ record {
      starved = rw (e, ==→eq t u e) h.starved;
      high = rw (e, ==→eq t u e) (omega (arith, h.high, high));
    }
    | inr e ↦ record { starved = rw e h.starved; high = rw e h.high }
  ]

  level_of-high : (p : ℕ) → 7 * c.increment ≤ p → level_of c p ≡ 7
  level_of-high p h =
      let d : 7 ≤ p / c.increment = (le-div_iff_mul-le positive).1 h in omega (arith, d)

  -- The queue after the head of a jammed one is boosted and put at its end.
  rotated-IsJammed :
      (s : Scheduler) (i t : ℕ) (ts : List ℕ)
      → IsJammed c s now (t ∷ ts)
      → IsJammed c (boost c s i t) now (ts ++ t ∷ [])
  unfolding occurrences
  rotated-IsJammed s i t ts j = record {
    two = omega (arith, j.two, length-append ts (t ∷ []));
    stuck = λ u h. boost-IsStuck s i t u (j.stuck u (omega (arith, h, occurrences-append t u ts)));
  }

  age_queue-IsJammed :
      (fuel : ℕ) (s : Scheduler) (passed queue : List ℕ)
      → IsJammed c s now queue
      → age_queue fuel c s now 7 passed queue ≡ none
  unfolding age_queue occurrences
  age_queue-IsJammed zero s passed queue j = refl
  age_queue-IsJammed (suc fuel) s passed [] j = absurd (omega (arith, j.two))
  age_queue-IsJammed (suc fuel) s passed (t ∷ []) j = absurd (omega (arith, j.two))
  age_queue-IsJammed (suc fuel) s passed (t ∷ u ∷ us) j =
      let stuck = j.stuck t (rw (==_refl t) (omega arith)) in
      let same =
        level_of-high (boosted c (s.threads t).priority) (omega (arith, stuck.high, high)) in
      rw (stuck.starved, same)
        (age_queue-IsJammed fuel (boost c s 7 t) passed _ (rotated-IsJammed s 7 t (u ∷ us) j))

  -- What a walk over a lower queue leaves in the last one.
  abbrev JammedAfter : Option Scheduler → Type 0
  JammedAfter none = Unit {0}
  JammedAfter (some r) = IsJammed c r now (r.queues 7)

  then_on-none :
      (r : Option Scheduler) (f : Scheduler → Option Scheduler)
      → JammedAfter r
      → ((x : Scheduler) → IsJammed c x now (x.queues 7) → f x ≡ none)
      → then_on r f ≡ none
  then_on-none none f j g = refl
  then_on-none (some x) f j g = g x j

  boost-IsJammed :
      (s : Scheduler) (i t : ℕ)
      → i < 7
      → is_starved s now t ≡ true
      → IsJammed c s now (s.queues 7)
      → IsJammed c (boost c s i t) now ((boost c s i t).queues 7)
  unfolding boost
  boost-IsJammed s i t lt starved j =
      let p = boosted c (s.threads t).priority in
      let old : (u : ℕ) → 1 ≤ occurrences u (s.queues 7) → IsStuck c (boost c s i t) now u =
        λ u h. boost-IsStuck s i t u (j.stuck u h) in
      elim (Bool-cases (level_of c p == 7)) [
        | inl e ↦
            let ne : (7 == i) ≡ false = ground arith in
            let sevens : level_of c p ≡ 7 = ==→eq _ 7 e in
            let least : 7 ≤ p / c.increment = omega (arith, sevens) in
            let queue : (boost c s i t).queues 7 ≡ s.queues 7 ++ t ∷ [] = rw (sevens, ne) refl in
            subst (IsJammed c (boost c s i t) now) (sym queue) (record {
              two = omega (arith, j.two, length-append (s.queues 7) (t ∷ []));
              stuck = λ u h. elim (Bool-cases (t == u)) [
                | inl same ↦ record {
                  starved = rw same starved;
                  high = rw same ((le-div_iff_mul-le positive).0 least);
                }
                | inr other ↦ old u (ground (arith, h, occurrences-append t u (s.queues 7)))
              ];
            })
        | inr e ↦
            let queue : (boost c s i t).queues 7 ≡ s.queues 7 =
              elim (Bool-cases (level_of c p == i)) [
                | inl k ↦ rw k refl
                | inr k ↦ rw (k, e) refl
              ] in
            subst (IsJammed c (boost c s i t) now) (sym queue) (record { two = j.two; stuck = old })
      ]

  age_lower_queue-IsJammed :
      (fuel : ℕ) (s : Scheduler) (i : ℕ) (passed queue : List ℕ)
      → i < 7
      → IsJammed c s now (s.queues 7)
      → JammedAfter (age_queue fuel c s now i passed queue)
  unfolding age_queue
  age_lower_queue-IsJammed zero s i passed queue lt j = tt
  age_lower_queue-IsJammed (suc fuel) s i passed [] lt j =
      let ne : (i == 7) ≡ false = ground arith in
      rw ne (record {
        two = j.two;
        stuck = λ u h. record { starved = (j.stuck u h).starved; high = (j.stuck u h).high };
      })
  age_lower_queue-IsJammed (suc fuel) s i passed (t ∷ ts) lt j =
      elim (Bool-cases (is_starved s now t)) [
        | inl e ↦
            let after = boost-IsJammed s i t lt e j in
            rw e (
              either JammedAfter (level_of c (boosted c (s.threads t).priority) == i) _ _
                (either JammedAfter (is_last ts) _ _
                  (age_lower_queue-IsJammed fuel (boost c s i t) i _ _ lt after)
                  (age_lower_queue-IsJammed fuel (boost c s i t) i _ _ lt after))
                (age_lower_queue-IsJammed fuel (boost c s i t) i _ _ lt after))
        | inr e ↦ rw e (age_lower_queue-IsJammed fuel s i _ _ lt j)
      ]

  age_levels-IsJammed :
      (fuel left i : ℕ) (s : Scheduler)
      → i + left ≡ priority_levels
      → i ≤ 7
      → IsJammed c s now (s.queues 7)
      → age_levels fuel c now left i s ≡ none
  unfolding age_levels
  age_levels-IsJammed fuel zero i s e le j = absurd (omega (arith, e, le))
  age_levels-IsJammed fuel (suc left) i s e le j = elim (Bool-cases (i == 7)) [
    | inl h ↦
        let walk : age_queue fuel c s now i [] (s.queues i) ≡ none =
          subst (λ k. age_queue fuel c s now k [] (s.queues k) ≡ none) (sym (==→eq i 7 h))
            (age_queue-IsJammed fuel s [] (s.queues 7) j) in
        ap (λ r. then_on r (age_levels fuel c now left (i + 1))) walk
    | inr h ↦
        then_on-none (age_queue fuel c s now i [] (s.queues i)) (age_levels fuel c now left (i + 1))
          (age_lower_queue-IsJammed fuel s i [] (s.queues i) (ground arith) j)
          (λ r k. age_levels-IsJammed fuel left (i + 1) r (omega (arith, e)) (ground arith) k)
  ]

  same_threads :
      (s r : Scheduler) (t : ℕ) → s.threads ≡ r.threads → IsStuck c s now t → IsStuck c r now t
  same_threads s r t e h = record {
    starved = subst (λ f. ltb 10000 (sub64 now (f t).ready_time) ≡ true) e h.starved;
    high = subst (λ f. 7 * c.increment ≤ (f t).priority) e h.high;
  }

  update_statistics-IsJammed :
      (s : Scheduler)
      → IsJammed c s now (s.queues 7)
      → IsJammed c (update_statistics s now) now ((update_statistics s now).queues 7)
  unfolding update_statistics
  update_statistics-IsJammed s j = record {
    two = j.two;
    stuck = λ u h. same_threads s _ u refl (j.stuck u h);
  }

  balance_load-IsJammed :
      (s : Scheduler)
      → IsJammed c s now (s.queues 7)
      → IsJammed c (balance_load s now) now ((balance_load s now).queues 7)
  unfolding balance_load
  balance_load-IsJammed s j =
      let after : Scheduler → Type 0 = λ r. IsJammed c r now (r.queues 7) in
      either after (not s.balancing) _ _ j (
        either after (ltb (sub64 now s.last_balance_time) s.balance_interval) _ _ j
          (record { two = j.two; stuck = λ u h. same_threads s _ u refl (j.stuck u h) }))

  -- When two or more threads stand in the last of the eight queues and all of them have waited for
  -- more than 10000 ticks with a priority that belongs there, KeScheduleNextThread of a running
  -- scheduler does not end: no fuel is enough for KiAgeThreads, as the walk over the queue puts
  -- every thread back at its end. The thresholds are a priority increment above 0 and a highest
  -- priority of seven increments or more.
  pub schedule_next_thread-IsJammed :
      (fuel cpu current : ℕ) (s : Scheduler)
      → s.initialized ≡ true
      → s.running ≡ true
      → IsJammed c s now (s.queues 7)
      → schedule_next_thread fuel c now cpu current s ≡ none
  unfolding schedule_next_thread age_threads
  schedule_next_thread-IsJammed fuel cpu current s ready on j =
      runs s.initialized s.running _ _ ready on (
        ap (λ r. then_on r (λ aged. some (choose cpu current aged)))
          (age_levels-IsJammed fuel 7 1 _ refl (omega arith)
            (balance_load-IsJammed (update_statistics s now) (update_statistics-IsJammed s j))))
