-- ===== src/Mlfq/Places.antt =====
-- Every thread stands where its mark and its priority say: what KeAddThreadToScheduler and
-- KeRemoveThreadFromScheduler do to that.
use native.Mathlib.Nat.{div-lt_iff_lt-mul}
use dsls_os.Base.{
  store, ℕ, suc, ◌+◌, ◌*◌, ◌/◌, ◌≤◌, ◌<◌, ◌≡◌, refl, sym, ap, arith, false, not, ◌||◌, List, [],
  ◌∷◌, ◌==◌, leb, if◌then◌else◌, Bool-cases, inl, inr, ==→eq, lt→ltb,
}
use dsls_os.Base.Entries.{occurrences, remove_entry}
use dsls_os.Mlfq.{
  Priorities, Thread, Scheduler, level_of, priority_levels, add_thread, remove_thread,
}
use dsls_os.Mlfq.Queues.{
  IsQueued, IsWithout, IsQueued-same, occurrences_at, occurrences_elsewhere, occurrences_real_time,
  occurrences_not_real_time, pull, pull_real_time, push, push_real_time,
}

-- What the THREAD_PRIORITY_ constants are for: the levels end below the real-time priorities, and no
-- boost reaches those.
pub record IsSound (c : Priorities) : Type 0 where
  pub positive : 0 < c.increment
  pub levels : c.real_time ≤ priority_levels * c.increment
  pub no_boost : c.highest < c.real_time

-- Where a thread belongs: nowhere, in the real-time queue, or at its level.
abbrev pub place_of : Priorities → Thread → ℕ
place_of c t =
    if t.in_scheduler_queue
    then (if leb c.real_time t.priority then 1 else level_of c t.priority + 2)
    else 0

-- A thread that is marked stands once where its priority says and nowhere else, one that is not
-- marked stands in no queue, and the lengths are right.
abbrev pub IsConsistent : Priorities → Scheduler → Type 0
IsConsistent c s =
    IsQueued s.queues s.queue_lengths s.real_time_queue s.real_time_queue_length
      (λ t. place_of c (s.threads t))

-- The place of a thread that is set to `v`.
pub place_of-store :
    (c : Priorities) (threads : ℕ → Thread) (t k : ℕ) (v : Thread)
    → place_of c v ≡ k
    → (u : ℕ) → store (λ u. place_of c (threads u)) t k u ≡ place_of c (store threads t v u)
place_of-store c threads t k v e u = elim (Bool-cases (t == u)) [
  | inl f ↦ rw f (sym e)
  | inr f ↦ rw f refl
]

pub place_of-unmarked :
    (c : Priorities) (t : Thread) → t.in_scheduler_queue ≡ false → place_of c t ≡ 0
place_of-unmarked c t e = rw e refl

pub head-IsWithout : (t : ℕ) (rest : List ℕ) → IsWithout t (t ∷ rest) rest
unfolding occurrences
head-IsWithout t rest = record { shorter = refl; others = λ u. refl }

pub remove_entry-IsWithout :
    (t : ℕ) (xs : List ℕ) → 1 ≤ occurrences t xs → IsWithout t xs (remove_entry t xs)
unfolding occurrences remove_entry
remove_entry-IsWithout t [] h = absurd (omega arith)
remove_entry-IsWithout t (x ∷ xs) h = elim (Bool-cases (x == t)) [
  | inl e ↦ rw (e, ==→eq x t e) (record { shorter = refl; others = λ u. refl })
  | inr e ↦
      let later = remove_entry-IsWithout t xs (ground (arith, h)) in
      rw e (record { shorter = ap suc later.shorter; others = λ u. omega (arith, later.others u) })
]

remove_entry-absent : (t : ℕ) (xs : List ℕ) → occurrences t xs ≡ 0 → remove_entry t xs ≡ xs
unfolding occurrences remove_entry
remove_entry-absent t [] h = refl
remove_entry-absent t (x ∷ xs) h = elim (Bool-cases (x == t)) [
  | inl e ↦ absurd (ground (arith, h))
  | inr e ↦ rw e (ap (λ l. x ∷ l) (remove_entry-absent t xs (ground (arith, h))))
]

-- KeAddThreadToScheduler of a thread that is in no queue keeps every thread where it belongs.
pub add_thread-IsConsistent :
    (c : Priorities) (s : Scheduler) (now t : ℕ)
    → IsConsistent c s
    → (s.threads t).in_scheduler_queue ≡ false
    → IsConsistent c (add_thread c s now t).1
unfolding add_thread
add_thread-IsConsistent c s now t q out =
    let p = (s.threads t).priority in
    let none = place_of-unmarked c (s.threads t) out in
    elim (Bool-cases (not s.initialized || t == 0)) [
      | inl g ↦ rw g q
      | inr g ↦ elim (Bool-cases (leb c.real_time p)) [
        | inl r ↦
            rw (g, r)
              (IsQueued-same (λ i. refl) (λ i. refl) refl
                (place_of-store c s.threads t 1 _ (rw r refl)) (push_real_time _ _ _ _ _ t q none))
        | inr r ↦
            rw (g, r)
              (IsQueued-same (λ i. refl) (λ i. refl) refl
                (place_of-store c s.threads t (level_of c p + 2) _ (rw r refl))
                (push _ _ _ _ _ (level_of c p) t q none))
      ]
    ]

-- KeRemoveThreadFromScheduler keeps every thread where it belongs.
pub remove_thread-IsConsistent :
    (c : Priorities) (s : Scheduler) (t : ℕ)
    → IsSound c
    → IsConsistent c s
    → IsConsistent c (remove_thread c s t).1
unfolding remove_thread
remove_thread-IsConsistent c s t sound q =
    let p = (s.threads t).priority in
    elim (Bool-cases (not s.initialized || t == 0)) [
      | inl g ↦ rw g q
      | inr g ↦ elim (Bool-cases (s.threads t).in_scheduler_queue) [
        | inr m ↦ rw (g, m) q
        | inl m ↦ elim (Bool-cases (leb c.real_time p)) [
          | inl r ↦
              let one : place_of c (s.threads t) ≡ 1 = rw (m, r) refl in
              let there = occurrences_real_time _ _ _ _ _ t q one in
              rw (g, m, r)
                (IsQueued-same
                  (λ i. sym (
                    remove_entry-absent t (s.queues i)
                      (occurrences_elsewhere _ _ _ _ _ i t q (λ e. omega (arith, one, e)))))
                  (λ i. refl) refl (place_of-store c s.threads t 0 _ refl)
                  (pull_real_time _ _ _ _ _ t _ q
                    (remove_entry-IsWithout t s.real_time_queue (omega (arith, there)))))
          | inr r ↦
              let i = p / c.increment in
              let below : p < priority_levels * c.increment = ground (arith, r, sound.levels) in
              let low : i < priority_levels = (div-lt_iff_lt-mul sound.positive).1 below in
              let place : place_of c (s.threads t) ≡ i + 2 = rw (m, r) (omega (arith, low)) in
              let there = occurrences_at _ _ _ _ _ i t q place in
              rw (g, m, r, lt→ltb i priority_levels low)
                (IsQueued-same
                  (λ j. elim (Bool-cases (i == j)) [
                    | inl e ↦ rw (e, ← ==→eq i j e) refl
                    | inr e ↦ rw e (
                        sym (
                          remove_entry-absent t (s.queues j) (
                            occurrences_elsewhere _ _ _ _ _ j t q
                              (λ h. ground (arith, place, h, e)))))
                  ])
                  (λ j. refl)
                  (sym (
                    remove_entry-absent t s.real_time_queue
                      (occurrences_not_real_time _ _ _ _ _ t q (λ e. omega (arith, place, e)))))
                  (place_of-store c s.threads t 0 _ refl)
                  (pull _ _ _ _ _ i t _ q
                    (remove_entry-IsWithout t (s.queues i) (omega (arith, there)))))
        ]
      ]
    ]
