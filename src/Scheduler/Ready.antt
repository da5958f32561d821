-- ===== src/Scheduler/Ready.antt =====
-- The invariant of the ready queues of kernel/src/scheduler.c and of their counts.
use dsls_os.Base.{
  store, ℕ, suc, ◌%◌, ◌≤◌, ◌≡◌, refl, sym, ap, ◌∙◌, subst, arith, true, false, ◌&&◌, List, [], ◌∷◌,
  ◌++◌, ltb, ◌==◌, if◌then◌else◌, Bool-cases, inl, inr, ==→eq, ==_refl, length, length-append,
  inc32, dec32, ulong_mod,
}
use dsls_os.Base.Entries.{
  occurrences, remove_entry, occurrences-append, occurrences-remove_entry, length-remove_entry,
}
use dsls_os.Scheduler.{
  Scheduler, Thread, is_ready, valid_priority, add_thread_to_ready_queue, set_thread_priority,
}

-- How often a thread may stand in the queue of priority `p`.
abbrev pub allowed : Thread → ℕ → ℕ
allowed t p = if is_ready t.state && t.priority == p then 1 else 0

abbrev pub Counted : (ℕ → ℕ) → (ℕ → List ℕ) → Type 0
Counted counts queues = (p : ℕ) → counts p ≡ length (queues p) % ulong_mod

-- A thread stands only in the queue of its own priority, only while it is ready, and only once.
abbrev pub Member : (ℕ → List ℕ) → (ℕ → Thread) → Type 0
Member queues threads = (p t : ℕ) → occurrences t (queues p) ≤ allowed (threads t) p

abbrev pub Out : (ℕ → List ℕ) → ℕ → Type 0
Out queues t = (p : ℕ) → occurrences t (queues p) ≡ 0

pub record IsReadyConsistent (s : Scheduler) : Type 0 where
  pub counted : Counted s.ready_thread_counts s.ready_queues
  pub member : Member s.ready_queues s.threads

-- A thread that is not ready is in no queue.
pub not_ready-Out :
    (s : Scheduler) (t : ℕ)
    → IsReadyConsistent s
    → is_ready (s.threads t).state ≡ false
    → Out s.ready_queues t
not_ready-Out s t c e p =
    let h : occurrences t (s.ready_queues p) ≤ 0 =
      subst
        (λ b.
          occurrences t (s.ready_queues p) ≤ (if b && (s.threads t).priority == p then 1 else 0))
        e (c.member p t) in
    omega (arith, h)

module _ (queues : ℕ → List ℕ) (p t : ℕ) where
  enqueue-Counted :
      (counts : ℕ → ℕ)
      → Counted counts queues
      → Counted (store counts p (inc32 (counts p))) (store queues p (queues p ++ t ∷ []))
  enqueue-Counted counts c q = elim (Bool-cases (p == q)) [
    | inl h ↦ rw h (omega (arith, c p, length-append (queues p) (t ∷ [])))
    | inr h ↦ rw h (c q)
  ]

  pub dequeue-Counted :
      (counts : ℕ → ℕ) (rest : List ℕ)
      → length (queues p) ≡ suc (length rest)
      → Counted counts queues
      → Counted (store counts p (dec32 (counts p))) (store queues p rest)
  dequeue-Counted counts rest l c q = elim (Bool-cases (p == q)) [
    | inl h ↦ rw h (omega (arith, c p, l))
    | inr h ↦ rw h (c q)
  ]

  enqueue-Member :
      (threads : ℕ → Thread)
      → Member queues threads
      → Out queues t
      → allowed (threads t) p ≡ 1
      → Member (store queues p (queues p ++ t ∷ [])) threads
  enqueue-Member threads m out a q u = elim (Bool-cases (p == q)) [
    | inl h ↦
        rw (h, occurrences-append t u (queues p))
          (elim (Bool-cases (t == u)) [
            | inl same ↦ rw (same, ← ==→eq t u same, ← ==→eq p q h, out p) (omega (arith, a))
            | inr other ↦ rw (other, ← ==→eq p q h) (omega (arith, m p u))
          ])
    | inr h ↦ rw h (m q u)
  ]

  pub dequeue-Member :
      (threads : ℕ → Thread) (rest : List ℕ)
      → Member queues threads
      → ((u : ℕ) → occurrences u rest ≤ occurrences u (queues p))
      → Member (store queues p rest) threads
  dequeue-Member threads rest m le q u = elim (Bool-cases (p == q)) [
    | inl h ↦ rw (h, ← ==→eq p q h) (omega (arith, m p u, le u))
    | inr h ↦ rw h (m q u)
  ]

  -- A thread that is taken out of its queue is in no queue.
  pub dequeue-Out :
      (threads : ℕ → Thread) (rest : List ℕ)
      → Member queues threads
      → occurrences t (queues p) ≡ 1
      → occurrences t rest ≡ 0
      → Out (store queues p rest) t
  dequeue-Out threads rest m one out q = elim (Bool-cases (p == q)) [
    | inl h ↦ rw h out
    | inr h ↦ rw h (ground (arith, m p t, m q t))
  ]

pub replace-Member :
    (queues : ℕ → List ℕ) (threads : ℕ → Thread) (t : ℕ) (v : Thread)
    → Member queues threads
    → Out queues t
    → Member queues (store threads t v)
replace-Member queues threads t v m out q u = elim (Bool-cases (t == u)) [
  | inl h ↦ rw (h, ← ==→eq t u h, out q) (omega arith)
  | inr h ↦ rw h (m q u)
]

pub replace_same-Member :
    (queues : ℕ → List ℕ) (threads : ℕ → Thread) (t : ℕ) (v : Thread)
    → Member queues threads
    → ((q : ℕ) → allowed v q ≡ allowed (threads t) q)
    → Member queues (store threads t v)
replace_same-Member queues threads t v m same q u = elim (Bool-cases (t == u)) [
  | inl h ↦ rw (h, ← ==→eq t u h, same q) (m q t)
  | inr h ↦ rw h (m q u)
]

-- KeAddThreadToReadyQueue of a thread that is not marked as ready keeps the ready queues as they
-- should be: every queue is counted right modulo the word size, and a thread stands only in the
-- queue of its own priority, only while it is ready, and only once.
pub add_thread_to_ready_queue-IsReadyConsistent :
    (s : Scheduler) (t : ℕ)
    → IsReadyConsistent s
    → is_ready (s.threads t).state ≡ false
    → IsReadyConsistent (add_thread_to_ready_queue s t).1
unfolding add_thread_to_ready_queue
add_thread_to_ready_queue-IsReadyConsistent s t c e =
    let p = valid_priority (s.threads t).priority in
    let out = not_ready-Out s t c e in
    elim (Bool-cases (t == 0)) [
      | inl z ↦ rw z c
      | inr z ↦ rw z (record {
        counted = enqueue-Counted s.ready_queues p t s.ready_thread_counts c.counted;
        member =
            enqueue-Member s.ready_queues p t (store s.threads t _)
              (replace-Member s.ready_queues s.threads t _ c.member out) out
              (rw (==_refl t, ==_refl p) refl);
      })
    ]

-- The thread `t` is taken out of the queue `old`, changed to `v`, and put into the queue `p`.
moved-IsReadyConsistent :
    (s : Scheduler) (t p old : ℕ) (v : Thread)
    → IsReadyConsistent s
    → occurrences t (s.ready_queues old) ≡ 1
    → allowed v p ≡ 1
    → let queues = store s.ready_queues old (remove_entry t (s.ready_queues old)) in
      let counts = store s.ready_thread_counts old (dec32 (s.ready_thread_counts old)) in
      IsReadyConsistent (record s {
        threads = store s.threads t v;
        ready_queues = store queues p (queues p ++ t ∷ []);
        ready_thread_counts = store counts p (inc32 (counts p));
      })
moved-IsReadyConsistent s t p old v c one a =
    let rest = remove_entry t (s.ready_queues old) in
    let queues = store s.ready_queues old rest in
    let counts = store s.ready_thread_counts old (dec32 (s.ready_thread_counts old)) in
    let gone : occurrences t rest ≡ 0 =
      occurrences-remove_entry t t (s.ready_queues old) ∙ rw (==_refl t, one) refl in
    let m =
      dequeue-Member s.ready_queues old t s.threads rest c.member
        (λ u. omega (arith, occurrences-remove_entry t u (s.ready_queues old))) in
    let out = dequeue-Out s.ready_queues old t s.threads rest c.member one gone in
    record {
      counted = enqueue-Counted queues p t counts (
          dequeue-Counted s.ready_queues old t s.ready_thread_counts rest
            (length-remove_entry t (s.ready_queues old) one) c.counted);
      member =
          enqueue-Member queues p t (store s.threads t v)
            (replace-Member queues s.threads t v m out) out (rw (==_refl t) a);
    }

-- KeSetThreadPriority keeps the ready queues as they should be, when the thread is in the queue of its
-- priority if it is marked as ready: every queue is counted right modulo the word size, and a
-- thread stands only in the queue of its own priority, only while it is ready, and only once.
pub set_thread_priority-IsReadyConsistent :
    (s : Scheduler) (t p : ℕ)
    → IsReadyConsistent s
    → (is_ready (s.threads t).state ≡ true
        → occurrences t (s.ready_queues (s.threads t).priority) ≡ 1)
    → IsReadyConsistent (set_thread_priority s t p).1
unfolding set_thread_priority
set_thread_priority-IsReadyConsistent s t p c queued =
    let old = (s.threads t).priority in
    elim (Bool-cases (t == 0)) [
      | inl z ↦ rw z c
      | inr z ↦ elim (Bool-cases (ltb 31 p)) [
        | inl b ↦ rw (z, b) c
        | inr b ↦ elim (Bool-cases (is_ready (s.threads t).state)) [
          | inl r ↦ elim (Bool-cases (old == p)) [
            | inl same ↦
                rw (z, b, r, same)
                  (record {
                    counted = c.counted;
                    member = replace_same-Member s.ready_queues s.threads t _ c.member (λ q.
                        ap (λ k. if is_ready (s.threads t).state && k == q then 1 else 0)
                          (sym (==→eq old p same)));
                  })
            | inr other ↦
                let m =
                  moved-IsReadyConsistent s t p old (record (s.threads t) { priority = p }) c
                    (queued r) (rw (r, ==_refl p) refl) in
                rw (z, b, r, other) (rw other at m)
          ]
          | inr r ↦
              rw (z, b, r)
                (record {
                  counted = c.counted;
                  member =
                      replace-Member s.ready_queues s.threads t _ c.member (not_ready-Out s t c r);
                })
        ]
      ]
    ]
