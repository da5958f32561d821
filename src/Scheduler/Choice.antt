-- ===== src/Scheduler/Choice.antt =====
-- Which thread KeFindNextThread chooses.
use dsls_os.Base.{
  store, ℕ, zero, suc, ◌+◌, ◌<◌, ◌≤◌, ◌≡◌, refl, sym, ap, ◌∙◌, subst, arith, true, false, List, [],
  ◌∷◌, ◌==◌, if◌then◌else◌, Bool-cases, inl, inr, ==→eq, ==_refl, length,
}
use dsls_os.Base.Entries.{occurrences}
use dsls_os.Scheduler.{
  Scheduler, may_run, take_thread, try_queue, find_below, find_next_thread, priority_levels,
}
use dsls_os.Scheduler.Ready.{
  IsReadyConsistent, allowed, dequeue-Counted, dequeue-Member, dequeue-Out, replace-Member,
}

-- The queue offers no thread to the processor: it is empty, or its head may not run there.
abbrev pub Blocked : Scheduler → ℕ → List ℕ → Type 0
Blocked s cpu [] = Unit {0}
Blocked s cpu (t ∷ rest) = may_run s cpu t ≡ false

pub data Choice (s : Scheduler) (cpu n : ℕ) : ℕ × Scheduler → Type 0 where
  chosen :
      (p t : ℕ) (rest : List ℕ)
      → p < n
      → s.ready_queues p ≡ t ∷ rest
      → may_run s cpu t ≡ true
      → ((q : ℕ) → p < q → q < n → Blocked s cpu (s.ready_queues q))
      → Choice s cpu n (t, take_thread s p t rest)
  idle :
      ((q : ℕ) → q < n → Blocked s cpu (s.ready_queues q)) → Choice s cpu n (s.idle_threads cpu, s)

-- One more priority for which a fact is known.
extend : (P : ℕ → Type 0) (n q : ℕ) → P n → (q < n → P q) → q < suc n → P q
extend P n q now before h = elim (Bool-cases (q == n)) [
  | inl e ↦ subst P (sym (==→eq q n e)) now
  | inr e ↦ before (ground arith)
]

Choice-suc :
    (s : Scheduler) (cpu n : ℕ) (r : ℕ × Scheduler)
    → Blocked s cpu (s.ready_queues n)
    → Choice s cpu n r
    → Choice s cpu (suc n) r
Choice-suc s cpu n r b (chosen p t rest h e m above) =
    chosen p t rest (omega arith) e m
      (λ q lo hi. extend (λ k. Blocked s cpu (s.ready_queues k)) n q b (above q lo) hi)
Choice-suc s cpu n r b (idle all) =
    idle (λ q hi. extend (λ k. Blocked s cpu (s.ready_queues k)) n q b (all q) hi)

try_queue-Choice :
    (s : Scheduler) (cpu n : ℕ) (queue : List ℕ) (later : ℕ × Scheduler)
    → s.ready_queues n ≡ queue
    → Choice s cpu n later
    → Choice s cpu (suc n) (try_queue s cpu n queue later)
unfolding try_queue
try_queue-Choice s cpu n [] later e c =
    Choice-suc s cpu n later (subst (Blocked s cpu) (sym e) tt) c
try_queue-Choice s cpu n (t ∷ rest) later e c = elim (Bool-cases (may_run s cpu t)) [
  | inl m ↦ rw m (chosen n t rest (omega arith) e m (λ q lo hi. absurd (omega arith)))
  | inr m ↦ rw m (Choice-suc s cpu n later (subst (Blocked s cpu) (sym e) m) c)
]

find_below-Choice : (s : Scheduler) (cpu n : ℕ) → Choice s cpu n (find_below s cpu n)
unfolding find_below
find_below-Choice s cpu zero = idle (λ q h. absurd (omega arith))
find_below-Choice s cpu (suc n) =
    try_queue-Choice s cpu n (s.ready_queues n) (find_below s cpu n) refl
      (find_below-Choice s cpu n)

-- KeFindNextThread takes the head of the highest ready queue whose head may run on the processor:
-- every queue of a higher priority is empty or has a head that may not run there. When there is no
-- such queue, it returns the processor's idle thread and takes no thread out of a queue.
pub find_next_thread-Choice :
    (s : Scheduler) (cpu : ℕ) → Choice s cpu priority_levels (find_next_thread s cpu)
find_next_thread-Choice s cpu = find_below-Choice s cpu priority_levels

take_thread-IsReadyConsistent :
    (s : Scheduler) (p t : ℕ) (rest : List ℕ)
    → IsReadyConsistent s
    → s.ready_queues p ≡ t ∷ rest
    → IsReadyConsistent (take_thread s p t rest)
unfolding take_thread occurrences
take_thread-IsReadyConsistent s p t rest c e =
    let count : (u : ℕ)
        → occurrences u (s.ready_queues p) ≡ (if t == u then 1 else 0) + occurrences u rest =
      λ u. ap (occurrences u) e in
    let most : allowed (s.threads t) p ≤ 1 = ground arith in
    let self : occurrences t (s.ready_queues p) ≡ 1 + occurrences t rest =
      count t ∙ rw (==_refl t) refl in
    let member = c.member p t in
    record {
      counted =
          dequeue-Counted s.ready_queues p t s.ready_thread_counts rest (ap length e) c.counted;
      member =
          replace-Member (store s.ready_queues p rest) s.threads t _
            (dequeue-Member s.ready_queues p t s.threads rest c.member
              (λ u. omega (arith, count u)))
            (dequeue-Out s.ready_queues p t s.threads rest c.member
              (omega (arith, self, most, member)) (omega (arith, self, most, member)));
    }

pub Choice-IsReadyConsistent :
    (s : Scheduler) (cpu n : ℕ) (r : ℕ × Scheduler)
    → IsReadyConsistent s
    → Choice s cpu n r
    → IsReadyConsistent r.1
Choice-IsReadyConsistent s cpu n r c (chosen p t rest h e m above) =
    take_thread-IsReadyConsistent s p t rest c e
Choice-IsReadyConsistent s cpu n r c (idle all) = c
