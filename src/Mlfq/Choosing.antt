-- ===== src/Mlfq/Choosing.antt =====
-- Which thread KiSelectNextThread takes, and what that leaves in the queues.
use dsls_os.Base.{
  either, ℕ, zero, suc, ◌+◌, ◌≤◌, ◌<◌, ◌≡◌, ◌⊎◌, refl, sym, ap, ◌∙◌, subst, arith, Bool, true,
  false, Option, none, some, List, [], ◌∷◌, ◌==◌, Bool-cases, inl, inr, ==→eq, ==_refl,
}
use dsls_os.Base.Entries.{occurrences}
use dsls_os.Mlfq.{
  priority_levels, Priorities, Algorithm, round_robin, by_priority, fair_share, real_time,
  load_balancing, adaptive, Scheduler,
}
use dsls_os.Mlfq.Select.{
  take_from, find_first, or_later, select_down, select_up, select_round_robin, select_priority,
  best_group, select_from_group, select_fair_share, select_load_balanced, select_adaptive,
  select_by, or_idle, select_with, select_next_thread,
}
use dsls_os.Mlfq.Queues.{IsQueued-same, IsWithout, pull, pull_real_time}
use dsls_os.Mlfq.Places.{IsConsistent, place_of-store, head-IsWithout, remove_entry-IsWithout}

-- The level `i` is the highest one below `n` with a thread that has the property; the first such
-- thread of its queue is taken. Without such a level the result is `otherwise`.
pub data Best (p : ℕ → Bool) (s : Scheduler) (n : ℕ) (otherwise : ℕ × Scheduler)
    : ℕ × Scheduler → Type 0 where
  found :
      (i t : ℕ)
      → i < n
      → find_first p (s.queues i) ≡ some t
      → ((j : ℕ) → i < j → j < n → find_first p (s.queues j) ≡ none)
      → Best p s n otherwise (t, take_from s i t)
  missed : ((j : ℕ) → j < n → find_first p (s.queues j) ≡ none) → Best p s n otherwise otherwise

module _ (p : ℕ → Bool) (s : Scheduler) (otherwise : ℕ × Scheduler) where
  Best-suc :
      (n : ℕ) (r : ℕ × Scheduler)
      → find_first p (s.queues n) ≡ none
      → Best p s n otherwise r
      → Best p s (suc n) otherwise r
  Best-suc n r e (found i t h f above) =
      found i t (omega arith) f (λ j lo hi. extend j (above j lo) hi)
    where
      extend :
          (j : ℕ)
          → (j < n → find_first p (s.queues j) ≡ none)
          → j < suc n
          → find_first p (s.queues j) ≡ none
      extend j before hi = elim (Bool-cases (j == n)) [
        | inl k ↦ ap (λ i. find_first p (s.queues i)) (==→eq j n k) ∙ e
        | inr k ↦ before (ground arith)
      ]
  Best-suc n r e (missed all) = missed (λ j hi. elim (Bool-cases (j == n)) [
    | inl k ↦ ap (λ i. find_first p (s.queues i)) (==→eq j n k) ∙ e
    | inr k ↦ all j (ground arith)
  ])

  or_later-Best :
      (n : ℕ) (o : Option ℕ) (later : ℕ × Scheduler)
      → find_first p (s.queues n) ≡ o
      → Best p s n otherwise later
      → Best p s (suc n) otherwise (or_later s n o later)
  or_later-Best n none later e b = Best-suc n later e b
  or_later-Best n (some t) later e b = found n t (omega arith) e (λ j lo hi. absurd (omega arith))

  pub select_down-Best : (n : ℕ) → Best p s n otherwise (select_down p s n otherwise)
  unfolding select_down
  select_down-Best zero = missed (λ j h. absurd (omega arith))
  select_down-Best (suc n) = or_later-Best n (find_first p (s.queues n)) _ refl (select_down-Best n)

-- KiSelectNextThreadPriority takes the head of the highest of the eight queues that is not empty; when
-- all are empty it returns NULL and changes nothing.
pub select_priority-Best :
    (s : Scheduler) → Best (λ t. true) s priority_levels (0, s) (select_priority s)
unfolding select_priority
select_priority-Best s = select_down-Best (λ t. true) s (0, s) priority_levels

-- What is found stands in the queue.
abbrev Found : List ℕ → Option ℕ → Type 0
Found xs none = Unit {0}
Found xs (some t) = 1 ≤ occurrences t xs

Found-tail : (x : ℕ) (xs : List ℕ) (o : Option ℕ) → Found xs o → Found (x ∷ xs) o
unfolding occurrences
Found-tail x xs none h = tt
Found-tail x xs (some t) h = omega (arith, h)

find_first-Found : (p : ℕ → Bool) (xs : List ℕ) → Found xs (find_first p xs)
unfolding find_first occurrences
find_first-Found p [] = tt
find_first-Found p (x ∷ xs) =
    either (Found (x ∷ xs)) (p x) (some x) _ (rw (==_refl x) (omega arith))
      (Found-tail x xs _ (find_first-Found p xs))

-- A result of the selection: the queues are still as they should be, and the thread that was found
-- has left them.
pub record IsTaken (c : Priorities) (r : ℕ × Scheduler) : Type 0 where
  pub consistent : IsConsistent c r.1
  pub free : (r.0 ≡ 0) ⊎ ((r.1.threads r.0).in_scheduler_queue ≡ false)

module _ (c : Priorities) where
  take_from-IsTaken :
      (s : Scheduler) (i t : ℕ)
      → IsConsistent c s
      → 1 ≤ occurrences t (s.queues i)
      → IsTaken c (t, take_from s i t)
  unfolding take_from
  take_from-IsTaken s i t q h = record {
    consistent =
        IsQueued-same (λ j. refl) (λ j. refl) refl (place_of-store c s.threads t 0 _ refl)
          (pull _ _ _ _ _ i t _ q (remove_entry-IsWithout t (s.queues i) h));
    free = inr (rw (==_refl t) refl);
  }

  or_later-IsTaken :
      (s : Scheduler) (i : ℕ) (o : Option ℕ) (later : ℕ × Scheduler)
      → IsConsistent c s
      → Found (s.queues i) o
      → IsTaken c later
      → IsTaken c (or_later s i o later)
  or_later-IsTaken s i none later q f l = l
  or_later-IsTaken s i (some t) later q f l = take_from-IsTaken s i t q f

  select_down-IsTaken :
      (p : ℕ → Bool) (s : Scheduler) (n : ℕ) (otherwise : ℕ × Scheduler)
      → IsConsistent c s
      → IsTaken c otherwise
      → IsTaken c (select_down p s n otherwise)
  unfolding select_down
  select_down-IsTaken p s zero otherwise q o = o
  select_down-IsTaken p s (suc n) otherwise q o =
      or_later-IsTaken s n _ _ q (find_first-Found p (s.queues n))
        (select_down-IsTaken p s n otherwise q o)

  select_up-IsTaken :
      (p : ℕ → Bool) (s : Scheduler) (left i : ℕ)
      → IsConsistent c s
      → IsTaken c (select_up p s left i)
  unfolding select_up
  select_up-IsTaken p s zero i q = record { consistent = q; free = inl refl }
  select_up-IsTaken p s (suc left) i q =
      or_later-IsTaken s i _ _ q (find_first-Found p (s.queues i))
        (select_up-IsTaken p s left (i + 1) q)

  select_priority-IsTaken : (s : Scheduler) → IsConsistent c s → IsTaken c (select_priority s)
  unfolding select_priority
  select_priority-IsTaken s q =
      select_down-IsTaken _ s priority_levels (0, s) q (record { consistent = q; free = inl refl })

  select_fair_share-IsTaken : (s : Scheduler) → IsConsistent c s → IsTaken c (select_fair_share s)
  unfolding select_fair_share
  select_fair_share-IsTaken s q = go (best_group s.groups none 0)
    where
      go : (best : Option ℕ) → IsTaken c (select_from_group s best)
      go none = select_priority-IsTaken s q
      go (some id) = select_down-IsTaken _ s priority_levels _ q (select_priority-IsTaken s q)

  select_load_balanced-IsTaken :
      (s : Scheduler) (cpu : ℕ) → IsConsistent c s → IsTaken c (select_load_balanced s cpu)
  unfolding select_load_balanced
  select_load_balanced-IsTaken s cpu q =
      select_down-IsTaken _ s priority_levels _ q (select_priority-IsTaken s q)

  select_adaptive-IsTaken :
      (s : Scheduler) (cpu : ℕ) → IsConsistent c s → IsTaken c (select_adaptive s cpu)
  unfolding select_adaptive
  select_adaptive-IsTaken s cpu q =
      either (IsTaken c) _ _ _ (select_load_balanced-IsTaken _ cpu q)
        (either (IsTaken c) _ _ _ (select_priority-IsTaken _ q) (select_fair_share-IsTaken _ q))

  select_by-IsTaken :
      (a : Algorithm) (s : Scheduler) (cpu : ℕ) → IsConsistent c s → IsTaken c (select_by a s cpu)
  unfolding select_by select_round_robin
  select_by-IsTaken round_robin s cpu q = select_up-IsTaken _ s priority_levels 0 q
  select_by-IsTaken by_priority s cpu q = select_priority-IsTaken s q
  select_by-IsTaken fair_share s cpu q = select_fair_share-IsTaken s q
  select_by-IsTaken real_time s cpu q = select_adaptive-IsTaken s cpu q
  select_by-IsTaken load_balancing s cpu q = select_load_balanced-IsTaken s cpu q
  select_by-IsTaken adaptive s cpu q = select_adaptive-IsTaken s cpu q

-- KiSelectNextThread keeps every thread where it belongs, and the thread that it returns is the idle
-- thread or one that is in no queue any more.
pub record IsChosen (c : Priorities) (r : ℕ × Scheduler) : Type 0 where
  pub consistent : IsConsistent c r.1
  pub free : (r.0 ≡ r.1.idle_thread) ⊎ ((r.1.threads r.0).in_scheduler_queue ≡ false)

or_idle-IsChosen : (c : Priorities) (r : ℕ × Scheduler) → IsTaken c r → IsChosen c (or_idle r)
or_idle-IsChosen c (t, s) k = elim (Bool-cases (t == 0)) [
  | inl e ↦ rw e (record { consistent = k.consistent; free = inl refl })
  | inr e ↦ rw e (record {
    consistent = k.consistent;
    free = elim k.free [ inl z ↦ absurd (ground (arith, z, e)) | inr f ↦ inr f ];
  })
]

pub select_next_thread-IsChosen :
    (c : Priorities) (s : Scheduler) (cpu : ℕ)
    → IsConsistent c s
    → IsChosen c (select_next_thread s cpu)
unfolding select_with
select_next_thread-IsChosen c s cpu q = go s.real_time_queue refl
  where
    go : (queue : List ℕ) → s.real_time_queue ≡ queue → IsChosen c (select_with s cpu queue)
    go [] e = or_idle-IsChosen c _ (select_by-IsTaken c s.algorithm s cpu q)
    go (t ∷ rest) e = record {
      consistent =
          IsQueued-same (λ j. refl) (λ j. refl) refl (place_of-store c s.threads t 0 _ refl)
            (pull_real_time _ _ _ _ _ t rest q
              (subst (λ l. IsWithout t l rest) (sym e) (head-IsWithout t rest)));
      free = inr (rw (==_refl t) refl);
    }
