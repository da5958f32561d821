-- ===== src/Timer/Expiry.antt =====
-- The loop of KeProcessExpiredTimers in kernel/src/timer.c, by itself: KeProcessExpiredTimers does not reach
-- it on an initialized state, as Locking shows.
use dsls_os.Base.{
  ℕ, zero, suc, ◌+◌, ◌-◌, ◌≤◌, ◌<◌, ◌≡◌, refl, sym, ap, ◌∙◌, subst, arith, Bool, true, false, not,
  List, [], ◌∷◌, ◌==◌, if◌then◌else◌, Bool-cases, inl, inr, ==_refl, ==→eq, ◌&&◌, some,
}
use dsls_os.Base.Entries.{occurrences}
use dsls_os.Timer.{
  Timer, Timers, key, put, signed_key, large_mod, expire, reschedule, process_head, add64, expired,
  process_queue, is_due,
}
use dsls_os.Timer.Queue.{insert, IsSorted, AllAtLeast, AllAtLeast-le, lag, lag-insert, lag-key}
use dsls_os.Timer.Invariant.{
  IsOrdered, key-put_ne, key-put-put, expire-IsOrdered, process_head-IsOrdered,
}

-- Every periodic timer has a positive period that does not carry a time up to `now` past the
-- largest LARGE_INTEGER.
abbrev pub Advances : ℕ → Timers → Type 0
Advances now s =
    (t : ℕ)
    → (s.timers t).periodic ≡ true
    → (0 < (s.timers t).period) × (signed_key now + (s.timers t).period < large_mod)

lag-expire :
    (s : Timers) (now t : ℕ) (rest : List ℕ)
    → occurrences t rest ≡ 0
    → key s.timers t ≤ now
    → lag (key (expire s t rest).timers) now (expire s t rest).queue
      < lag (key s.timers) now (t ∷ rest)
unfolding lag expire
lag-expire s now t rest out due = omega (
  arith,
  lag-key (key s.timers) (key (put s.timers t _)) t (key-put_ne s.timers t _) now rest out,
)

lag-requeue :
    (f : ℕ → Timer) (t now : ℕ) (v w : Timer) (queue : List ℕ)
    → occurrences t queue ≡ 0
    → w.due_time ≡ v.due_time
    → lag (key (put (put f t v) t w)) now (insert (key (put f t v)) t queue)
      ≡ (now + 1 - signed_key v.due_time) + lag (key f) now queue
lag-requeue f t now v w queue out e =
    let at : key (put f t v) t ≡ signed_key v.due_time = rw (==_refl t) refl in
    ap (λ k. lag k now (insert (key (put f t v)) t queue)) (key-put-put f t v w e)
    ∙ lag-insert (key (put f t v)) t now queue
    ∙ rw (at, lag-key (key f) (key (put f t v)) t (key-put_ne f t v) now queue out) refl

later :
    (due now period : ℕ)
    → signed_key due ≤ signed_key now
    → signed_key now + period < large_mod
    → signed_key (add64 due period) ≡ signed_key due + period
later due now period h room = omega arith

lag-reschedule :
    (s : Timers) (now t : ℕ)
    → occurrences t s.queue ≡ 0
    → key s.timers t ≤ signed_key now
    → 0 < (s.timers t).period
    → signed_key now + (s.timers t).period < large_mod
    → lag (key (reschedule s t).timers) (signed_key now) (reschedule s t).queue
      < (signed_key now + 1 - key s.timers t) + lag (key s.timers) (signed_key now) s.queue
unfolding reschedule
lag-reschedule s now t out due positive room =
    let e = lag-requeue s.timers t (signed_key now) _ _ s.queue out (rw (==_refl t) refl) in
    let k = later (s.timers t).due_time now (s.timers t).period due room in
    subst
      (λ n. n < (signed_key now + 1 - key s.timers t) + lag (key s.timers) (signed_key now) s.queue)
      (sym e) (rw k (omega arith))

-- The settings of a timer that no step of the loop changes.
abbrev SameSettings : Timers → Timers → Type 0
SameSettings s r =
    (j : ℕ)
    → ((r.timers j).periodic ≡ (s.timers j).periodic) × ((r.timers j).period ≡ (s.timers j).period)

expire-SameSettings : (s : Timers) (t : ℕ) (rest : List ℕ) → SameSettings s (expire s t rest)
unfolding expire
expire-SameSettings s t rest j = elim (Bool-cases (t == j)) [
  | inl h ↦ rw (h, ← ==→eq t j h) (refl, refl)
  | inr h ↦ rw h (refl, refl)
]

reschedule-SameSettings : (s : Timers) (t : ℕ) → SameSettings s (reschedule s t)
unfolding reschedule
reschedule-SameSettings s t j = elim (Bool-cases (t == j)) [
  | inl h ↦ rw (h, ==_refl t, ← ==→eq t j h) (refl, refl)
  | inr h ↦ rw h (refl, refl)
]

process_head-SameSettings : (s : Timers) (q : List ℕ) → SameSettings s (process_head s q)
unfolding process_head
process_head-SameSettings s [] j = (refl, refl)
process_head-SameSettings s (t ∷ rest) j =
    let a = expire-SameSettings s t rest j in
    let b = reschedule-SameSettings (expire s t rest) t j in
    elim (Bool-cases ((s.timers t).periodic && not (s.timers t).was_cancelled)) [
      | inl h ↦ rw h (b.0 ∙ a.0, b.1 ∙ a.1)
      | inr h ↦ rw h a
    ]

process_head-Advances :
    (s : Timers) (now : ℕ) (q : List ℕ) → Advances now s → Advances now (process_head s q)
process_head-Advances s now q a t e =
    let same = process_head-SameSettings s q t in let old = a t (sym same.0 ∙ e) in rw (same.1) old

and_left : (a b : Bool) → (a && b) ≡ true → a ≡ true
and_left true b h = refl
and_left false b h = h

lag_again :
    (s : Timers) (now t : ℕ) (rest : List ℕ)
    → occurrences t rest ≡ 0
    → key s.timers t ≤ signed_key now
    → 0 < (s.timers t).period
    → signed_key now + (s.timers t).period < large_mod
    → lag
        (key (reschedule (expire s t rest) t).timers)
        (signed_key now)
        (reschedule (expire s t rest) t).queue
      < lag (key s.timers) (signed_key now) (t ∷ rest)
unfolding expire lag
lag_again s now t rest out due positive room =
    let v : Timer = record (s.timers t) {
      inserted = false;
      stage = expired;
      dpc_context = if (s.timers t).dpc_routine == 0 then (s.timers t).dpc_context else t;
    } in
    let f = put s.timers t v in
    let at : f t ≡ v = rw (==_refl t) refl in
    let again =
      lag-reschedule (expire s t rest) now t out (rw at due) (rw at positive) (rw at room) in
    let same : key f t ≡ key s.timers t = rw at refl in
    let tail : lag (key f) (signed_key now) rest ≡ lag (key s.timers) (signed_key now) rest =
      lag-key (key s.timers) (key f) t (key-put_ne s.timers t _) (signed_key now) rest out in
    subst
      (λ n.
        lag (key (reschedule (expire s t rest) t).timers) (signed_key now)
          (reschedule (expire s t rest) t).queue
        < (signed_key now + 1 - n) + lag (key s.timers) (signed_key now) rest)
      same
      (subst
        (λ n.
          lag (key (reschedule (expire s t rest) t).timers) (signed_key now)
            (reschedule (expire s t rest) t).queue
          < (signed_key now + 1 - key f t) + n)
        tail again)

lag-process_head :
    (s : Timers) (now t : ℕ) (rest : List ℕ)
    → IsOrdered s
    → s.queue ≡ t ∷ rest
    → Advances now s
    → key s.timers t ≤ signed_key now
    → lag
        (key (process_head s (t ∷ rest)).timers)
        (signed_key now)
        (process_head s (t ∷ rest)).queue
      < lag (key s.timers) (signed_key now) (t ∷ rest)
unfolding process_head
lag-process_head s now t rest c q a due =
    let after = expire-IsOrdered s t rest c q in
    let gone = lag-expire s (signed_key now) t rest after.1 due in
    elim (Bool-cases ((s.timers t).periodic && not (s.timers t).was_cancelled)) [
      | inl h ↦ rw h (
          let p = a t (and_left (s.timers t).periodic (not (s.timers t).was_cancelled) h) in
          lag_again s now t rest after.1 due p.0 p.1)
      | inr h ↦ rw h gone
    ]

smaller :
    (s : Timers) (now : ℕ) (q : List ℕ)
    → IsOrdered s
    → s.queue ≡ q
    → Advances now s
    → is_due now s q ≡ true
    → lag (key (process_head s q).timers) (signed_key now) (process_head s q).queue
      < lag (key s.timers) (signed_key now) q
smaller s now [] c q a e = absurd (ground arith)
smaller s now (t ∷ rest) c q a e = lag-process_head s now t rest c q a (ground arith)

-- What the loop leaves: the queue is in order, and nothing in it is due.
pub record Processed (now : ℕ) (s : Timers) : Type 0 where
  pub ordered : IsOrdered s
  pub future : AllAtLeast (key s.timers) (signed_key now + 1) s.queue

nothing_due :
    (s : Timers) (now : ℕ) (q : List ℕ)
    → IsSorted (key s.timers) q
    → is_due now s q ≡ false
    → AllAtLeast (key s.timers) (signed_key now + 1) q
nothing_due s now [] h e = tt
nothing_due s now (t ∷ rest) h e = (
  ground arith,
  AllAtLeast-le (key s.timers) (signed_key now + 1) (key s.timers t) rest (ground arith) h.0,
)

-- In a state whose queue is in order and in which every periodic timer has a positive period that does not
-- reach the end of the signed range, fuel above the time by which the queue lags behind `now` is enough.
pub process_queue-Processed :
    (fuel now : ℕ) (s : Timers)
    → IsOrdered s
    → Advances now s
    → lag (key s.timers) (signed_key now) s.queue < fuel
    → (r : Timers) × (process_queue fuel now s ≡ some r) × Processed now r
unfolding process_queue
process_queue-Processed zero now s c a h = absurd (omega arith)
process_queue-Processed (suc fuel) now s c a h = elim (Bool-cases (is_due now s s.queue)) [
  | inl e ↦
      let next =
        process_queue-Processed fuel now (process_head s s.queue)
          (process_head-IsOrdered s s.queue c refl) (process_head-Advances s now s.queue a)
          (omega (arith, smaller s now s.queue c refl a e)) in
      (next.0, rw e next.1, next.2)
  | inr e ↦ (s, rw e refl, record { ordered = c; future = nothing_due s now s.queue c.sorted e })
]
