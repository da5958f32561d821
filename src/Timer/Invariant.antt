-- ===== src/Timer/Invariant.antt =====
-- The invariant of the queue of timers, and KeSetTimer and KeCancelTimer.
use dsls_os.Base.{
  ℕ, ◌+◌, ◌≡◌, ◌≢◌, refl, sym, ap, ◌∙◌, subst, fun_ext, arith, true, false, not, List, [], ◌∷◌,
  ◌==◌, if◌then◌else◌, Bool-cases, inl, inr, ==_refl, ne→==, ==→eq, ◌&&◌,
}
use dsls_os.Base.Entries.{occurrences, remove_entry, occurrences-remove_entry}
use dsls_os.Timer.{
  Timer, Timers, key, put, signed_key, cancel_internal, cancel, arm, set_timer, is_relative, expire,
  reschedule, process_head, query_system_time, sub64,
}
use dsls_os.Timer.Queue.{
  insert, IsSorted, insert-IsSorted, occurrences-insert, IsSorted-key, remove_entry-IsSorted,
}

pub record IsOrdered (s : Timers) : Type 0 where
  -- A timer is in the queue once if it is marked as inserted, and else not at all.
  pub listed : (t : ℕ) → occurrences t s.queue ≡ (if (s.timers t).inserted then 1 else 0)
  pub sorted : IsSorted (key s.timers) s.queue

pub key-put_ne : (f : ℕ → Timer) (t : ℕ) (v : Timer) (j : ℕ) → j ≢ t → key (put f t v) j ≡ key f j
key-put_ne f t v j ne = rw (ne→== t j (λ e. ne (sym e))) refl

pub key-put-put :
    (f : ℕ → Timer) (t : ℕ) (v w : Timer)
    → w.due_time ≡ v.due_time
    → key (put (put f t v) t w) ≡ key (put f t v)
key-put-put f t v w e =
    fun_ext (λ j. elim (Bool-cases (t == j)) [ inl h ↦ rw h (ap signed_key e) | inr h ↦ rw h refl ])

-- Replacing a timer that is not in the queue, and queueing it.
inserted-IsSorted :
    (f : ℕ → Timer) (t : ℕ) (v w : Timer) (queue : List ℕ)
    → occurrences t queue ≡ 0
    → w.due_time ≡ v.due_time
    → IsSorted (key f) queue
    → IsSorted (key (put (put f t v) t w)) (insert (key (put f t v)) t queue)
inserted-IsSorted f t v w queue out e s =
    subst (λ k. IsSorted k (insert (key (put f t v)) t queue)) (sym (key-put-put f t v w e))
      (insert-IsSorted (key (put f t v)) t queue
        (IsSorted-key (key f) (key (put f t v)) t (key-put_ne f t v) queue out s))

removed :
    (s : Timers) (t j : ℕ)
    → IsOrdered s
    → (s.timers t).inserted ≡ true
    → occurrences j (remove_entry t s.queue) ≡ (if t == j then 0 else occurrences j s.queue)
removed s t j c e = elim (Bool-cases (t == j)) [
  | inl h ↦
      let one : occurrences t s.queue ≡ 1 = c.listed t ∙ rw e refl in
      occurrences-remove_entry t j s.queue ∙ rw (h, ← ==→eq t j h, one) refl
  | inr h ↦ occurrences-remove_entry t j s.queue ∙ rw h (omega arith)
]

pub cancel_internal-IsOrdered : (s : Timers) (t : ℕ) → IsOrdered s → IsOrdered (cancel_internal s t)
unfolding cancel_internal
cancel_internal-IsOrdered s t c = elim (Bool-cases (s.timers t).inserted) [
  | inl e ↦ rw e (record {
    listed = λ j.
        removed s t j c e
        ∙ elim (Bool-cases (t == j)) [ inl h ↦ rw h refl | inr h ↦ rw h (c.listed j) ];
    sorted =
        IsSorted-key (key s.timers) (key (put s.timers t _)) t (key-put_ne s.timers t _)
          (remove_entry t s.queue) (removed s t t c e ∙ rw (==_refl t) refl)
          (remove_entry-IsSorted (key s.timers) t s.queue c.sorted);
  })
  | inr e ↦ rw e c
]

-- A timer outside the queue is replaced, queued and marked as inserted.
requeued-IsOrdered :
    (s r : Timers) (t : ℕ) (v w : Timer)
    → IsOrdered s
    → occurrences t s.queue ≡ 0
    → w.due_time ≡ v.due_time
    → w.inserted ≡ true
    → r.queue ≡ insert (key (put s.timers t v)) t s.queue
    → r.timers ≡ put (put s.timers t v) t w
    → IsOrdered r
requeued-IsOrdered s r t v w c out due ins q f = record {
  listed = λ j.
      rw (q, f)
        (occurrences-insert (key (put s.timers t v)) t j s.queue ∙ elim (Bool-cases (t == j)) [
          | inl h ↦ rw (h, ins, ← ==→eq t j h, out) refl
          | inr h ↦ rw h (omega arith ∙ c.listed j)
        ]);
  sorted = rw (q, f) (inserted-IsSorted s.timers t v w s.queue out due c.sorted);
}

not_inserted :
    (s : Timers) (t : ℕ) → IsOrdered s → (s.timers t).inserted ≡ false → occurrences t s.queue ≡ 0
not_inserted s t c e = c.listed t ∙ rw e refl

arm-IsOrdered :
    (s : Timers) (t due period dpc context : ℕ)
    → IsOrdered s
    → (s.timers t).inserted ≡ false
    → IsOrdered (arm s t due period dpc context)
unfolding arm
arm-IsOrdered s t due period dpc context c e =
    requeued-IsOrdered s _ t _ _ c (not_inserted s t c e) (rw (==_refl t) refl) refl refl refl

cancel_internal-not_inserted :
    (s : Timers) (t : ℕ) → ((cancel_internal s t).timers t).inserted ≡ false
unfolding cancel_internal
cancel_internal-not_inserted s t = elim (Bool-cases (s.timers t).inserted) [
  | inl e ↦ rw (e, ==_refl t) refl
  | inr e ↦ rw (e, e) refl
]

pub expire-IsOrdered :
    (s : Timers) (t : ℕ) (rest : List ℕ)
    → IsOrdered s
    → s.queue ≡ t ∷ rest
    → IsOrdered (expire s t rest) × (occurrences t rest ≡ 0)
unfolding expire occurrences
expire-IsOrdered s t rest c q =
    let count : (j : ℕ)
        → (if t == j then 1 else 0) + occurrences j rest
          ≡ (if (s.timers j).inserted then 1 else 0) =
      λ j. ap (occurrences j) (sym q) ∙ c.listed j in
    let out : occurrences t rest ≡ 0 = ground (arith, count t) in
    let sorted : IsSorted (key s.timers) (t ∷ rest) = subst (IsSorted (key s.timers)) q c.sorted in
    (
      record {
        listed = λ j. elim (Bool-cases (t == j)) [
          | inl h ↦ rw (h, ← ==→eq t j h) out
          | inr h ↦ rw h (ground (arith, count j))
        ];
        sorted =
            IsSorted-key (key s.timers) (key (put s.timers t _)) t (key-put_ne s.timers t _) rest
              out sorted.1;
      },
      out,
    )

reschedule-IsOrdered :
    (s : Timers) (t : ℕ) → IsOrdered s → occurrences t s.queue ≡ 0 → IsOrdered (reschedule s t)
unfolding reschedule
reschedule-IsOrdered s t c out =
    requeued-IsOrdered s _ t _ _ c out (rw (==_refl t) refl) refl refl refl

pub process_head-IsOrdered :
    (s : Timers) (q : List ℕ) → IsOrdered s → s.queue ≡ q → IsOrdered (process_head s q)
unfolding process_head expire
process_head-IsOrdered s [] c e = c
process_head-IsOrdered s (t ∷ rest) c e =
    let after = expire-IsOrdered s t rest c e in
    elim (Bool-cases ((s.timers t).periodic && not (s.timers t).was_cancelled)) [
      | inl h ↦ rw h (reschedule-IsOrdered (expire s t rest) t after.0 after.1)
      | inr h ↦ rw h after.0
    ]

-- KeCancelTimer keeps the queue sorted by the due time, with each inserted timer in it exactly once
-- and no other timer in it.
pub cancel-IsOrdered : (s : Timers) (t : ℕ) → IsOrdered s → IsOrdered (cancel s t).1
unfolding cancel
cancel-IsOrdered s t c = elim (Bool-cases (t == 0)) [
  | inl e ↦ rw e c
  | inr e ↦ elim (Bool-cases (s.timers t).inserted) [
    | inl h ↦ rw (e, h) (cancel_internal-IsOrdered s t c)
    | inr h ↦ rw (e, h) c
  ]
]

-- The state when KeSetTimer has cancelled an earlier setting.
withdrawn :
    (s : Timers) (t : ℕ)
    → IsOrdered s
    → IsOrdered (if (s.timers t).inserted then cancel_internal s t else s)
      × (((if (s.timers t).inserted then cancel_internal s t else s).timers t).inserted ≡ false)
withdrawn s t c = elim (Bool-cases (s.timers t).inserted) [
  | inl e ↦ rw e (cancel_internal-IsOrdered s t c, cancel_internal-not_inserted s t)
  | inr e ↦ rw e (c, e)
]

-- KeSetTimer keeps the queue sorted by the due time, with each inserted timer in it exactly once
-- and no other timer in it: whatever the timer, also when it is queued already, is NULL, or has a
-- due time relative to the system time.
pub set_timer-IsOrdered :
    (s : Timers) (t due period dpc context : ℕ)
    → IsOrdered s
    → IsOrdered (set_timer s t due period dpc context).1
unfolding set_timer
set_timer-IsOrdered s t due period dpc context c =
    let s1 = if (s.timers t).inserted then cancel_internal s t else s in
    let now = query_system_time s1 in
    let w = withdrawn s t c in
    elim (Bool-cases (t == 0)) [
      | inl e ↦ rw e c
      | inr e ↦ elim (Bool-cases (is_relative due)) [
        | inl h ↦
            rw (e, h)
              (arm-IsOrdered now.1 t (sub64 now.0 due) period dpc context
                (record { listed = w.0.listed; sorted = w.0.sorted }) w.1)
        | inr h ↦ rw (e, h) (arm-IsOrdered s1 t due period dpc context w.0 w.1)
      ]
    ]
