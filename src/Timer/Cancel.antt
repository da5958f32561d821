-- ===== src/Timer/Cancel.antt =====
-- KeCancelTimer against KeSetTimer, and what the count of active timers becomes.
use dsls_os.Base.{
  ℕ, ◌+◌, ◌<◌, ◌≡◌, ◌≢◌, refl, ◌∙◌, arith, true, false, List, [], ◌∷◌, Bool-cases, inl, inr,
  ==_refl, ne→==, length, ulong_mod, dec32-inc32, success,
}
use dsls_os.Base.Entries.{occurrences}
use dsls_os.Timer.{
  Timers, key, put, cancel_internal, cancel, arm, set_timer, is_relative, query_system_time, sub64,
  expire, reschedule, process_head,
}
use dsls_os.Timer.Queue.{insert, remove_entry-insert}
use dsls_os.Timer.Invariant.{IsOrdered}

-- What cancelling a timer right after it was set leaves.
pub record Undone (s r : Timers) (t : ℕ) : Type 0 where
  pub queue_restored : r.queue ≡ s.queue
  pub active_restored : r.statistics.active_timers ≡ s.statistics.active_timers
  pub taken_out : (r.timers t).inserted ≡ false
  pub marked : (r.timers t).was_cancelled ≡ true

cancel-arm :
    (s : Timers) (t due period dpc context : ℕ)
    → t ≢ 0
    → occurrences t s.queue ≡ 0
    → s.statistics.active_timers < ulong_mod
    → ((cancel (arm s t due period dpc context) t).0 ≡ true)
      × Undone s (cancel (arm s t due period dpc context) t).1 t
unfolding cancel cancel_internal arm
cancel-arm s t due period dpc context ne out small =
    rw (ne→== t 0 ne, ==_refl t)
      (
        refl,
        record {
          queue_restored = remove_entry-insert _ t s.queue out;
          active_restored = dec32-inc32 s.statistics.active_timers small;
          taken_out = rw (==_refl t) refl;
          marked = rw (==_refl t) refl;
        },
      )

-- When a timer that is not in the queue is set by KeSetTimer, that call reports success, and
-- KeCancelTimer then undoes it: it reports that the timer was active, the queue and the count of
-- active timers are what they were before the timer was set, and the timer is marked as cancelled
-- and as not inserted.
pub cancel-set_timer :
    (s : Timers) (t due period dpc context : ℕ)
    → t ≢ 0
    → IsOrdered s
    → (s.timers t).inserted ≡ false
    → s.statistics.active_timers < ulong_mod
    → ((set_timer s t due period dpc context).0 ≡ success)
      × ((cancel (set_timer s t due period dpc context).1 t).0 ≡ true)
      × Undone s (cancel (set_timer s t due period dpc context).1 t).1 t
unfolding set_timer
cancel-set_timer s t due period dpc context ne c e small =
    let out : occurrences t s.queue ≡ 0 = c.listed t ∙ rw e refl in
    elim (Bool-cases (is_relative due)) [
      | inl h ↦
          rw (ne→== t 0 ne, h, e)
            (let r =
                cancel-arm (query_system_time s).1 t (sub64 (query_system_time s).0 due) period dpc
                  context ne out small in
              (
                refl,
                r.0,
                record {
                  queue_restored = r.1.queue_restored;
                  active_restored = r.1.active_restored;
                  taken_out = r.1.taken_out;
                  marked = r.1.marked;
                },
              ))
      | inr h ↦
          rw (ne→== t 0 ne, h, e)
            (let r = cancel-arm s t due period dpc context ne out small in (refl, r.0, r.1))
    ]

length-insert : (k : ℕ → ℕ) (t : ℕ) (xs : List ℕ) → length (insert k t xs) ≡ length xs + 1
unfolding insert
length-insert k t [] = omega arith
length-insert k t (x ∷ xs) = ground (arith, length-insert k t xs)

-- A round of the loop of KeProcessExpiredTimers on a periodic timer that was not cancelled counts
-- it twice when it queues it again: with as many active timers counted as there are in the queue
-- before the round, one more is counted than there are in the queue after it.
pub process_head-drift :
    (s : Timers) (t : ℕ) (rest : List ℕ)
    → (s.timers t).periodic ≡ true
    → (s.timers t).was_cancelled ≡ false
    → s.statistics.active_timers ≡ length (t ∷ rest)
    → length (t ∷ rest) + 1 < ulong_mod
    → (process_head s (t ∷ rest)).statistics.active_timers
      ≡ length (process_head s (t ∷ rest)).queue + 1
unfolding process_head expire reschedule
process_head-drift s t rest p c active small =
    rw (p, c)
      (omega (arith, active, small, length-insert (key (put (put s.timers t _) t _)) t rest))
