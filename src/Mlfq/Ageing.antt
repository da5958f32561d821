-- ===== src/Mlfq/Ageing.antt =====
-- KiAgeThreads. A walk over a queue that is changed under it is a pair of lists: the entries that
-- are passed, and those from the current one on.
use dsls_os.Base.{
  store, ℕ, zero, suc, ◌+◌, ◌-◌, Bool, true, false, Option, none, some, List, [], ◌∷◌, ◌++◌, ltb,
  ◌==◌, if◌then◌else◌, min, inc32, dec32,
}
use dsls_os.Mlfq.{priority_levels, Priorities, Scheduler, level_of, inc64, sub64}

-- `current_time - thread->ReadyTime > 10000`
abbrev pub is_starved : Scheduler → ℕ → ℕ → Bool
is_starved s now t = ltb 10000 (sub64 now (s.threads t).ready_time)

-- The priority after a boost.
abbrev pub boosted : Priorities → ℕ → ℕ
boosted c p = min (p + c.increment) c.highest

-- What the loop does to a starved thread at level `i`, but for the place of the walk: the queue of
-- level `i` is set from the walk when it ends.
unfoldable pub boost : Priorities → Scheduler → ℕ → ℕ → Scheduler
boost c s i t =
    let p = boosted c (s.threads t).priority in
    let shorter = store s.queue_lengths i (dec32 (s.queue_lengths i)) in
    let j = level_of c p in
    record s {
      queue_lengths = store shorter j (inc32 (shorter j));
      queues = if j == i then s.queues else store s.queues j (s.queues j ++ t ∷ []);
      threads = store s.threads t (record (s.threads t) { priority = p });
      stats = record s.stats { starvation_count = inc64 s.stats.starvation_count };
    }

abbrev pub is_last {ℓ} : {A : Type ℓ} → List A → Bool
is_last [] = true
is_last (x ∷ xs) = false

-- The walk over the queue of level `i`. An entry that is put back at the end of the queue that is
-- walked is met again, unless it was the last one: its successor was then the head of the list. `none`
-- is that the fuel is used up.
unfoldable pub age_queue : ℕ → Priorities → Scheduler → ℕ → ℕ → List ℕ → List ℕ → Option Scheduler
age_queue zero c s now i passed rest = none
age_queue (suc fuel) c s now i passed [] = some (record s { queues = store s.queues i passed })
age_queue (suc fuel) c s now i passed (t ∷ ts) =
    let again = level_of c (boosted c (s.threads t).priority) == i in
    let kept = age_queue fuel c s now i (passed ++ t ∷ []) ts in
    let ended = age_queue fuel c (boost c s i t) now i (passed ++ t ∷ []) [] in
    let rotated = age_queue fuel c (boost c s i t) now i passed (ts ++ t ∷ []) in
    let moved = age_queue fuel c (boost c s i t) now i passed ts in
    if is_starved s now t
    then (if again then (if is_last ts then ended else rotated) else moved)
    else kept

abbrev pub then_on {ℓ ℓ'} : {A : Type ℓ} {B : Type ℓ'} → Option A → (A → Option B) → Option B
then_on none f = none
then_on (some a) f = f a

-- The loop over `left` levels from `i` on; every walk has the fuel `fuel`.
unfoldable pub age_levels : ℕ → Priorities → ℕ → ℕ → ℕ → Scheduler → Option Scheduler
age_levels fuel c now zero i s = some s
age_levels fuel c now (suc left) i s =
    then_on (age_queue fuel c s now i [] (s.queues i)) (age_levels fuel c now left (i + 1))

-- KiAgeThreads at the time `now`.
unfoldable pub age_threads : ℕ → Priorities → ℕ → Scheduler → Option Scheduler
age_threads fuel c now s = age_levels fuel c now (priority_levels - 1) 1 s
