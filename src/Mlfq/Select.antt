-- ===== src/Mlfq/Select.antt =====
-- KiSelectNextThread and the algorithms that it chooses from. A thread is NULL when none is found.
use dsls_os.Base.{
  store, ℕ, zero, suc, ◌+◌, ◌%◌, Bool, true, false, not, ◌&&◌, ◌||◌, Option, none, some, List, [],
  ◌∷◌, ltb, ◌==◌, if◌then◌else◌, dec32, ulong_mod,
}
use dsls_os.Base.Entries.{remove_entry}
use dsls_os.Bits.{bit_at}
use dsls_os.Mlfq.{
  priority_levels, Algorithm, round_robin, by_priority, fair_share, real_time, load_balancing,
  adaptive, Group, Scheduler, sub64,
}

-- What every algorithm does to the thread that it has found at level `i`.
unfoldable pub take_from : Scheduler → ℕ → ℕ → Scheduler
take_from s i t = record s {
  queues = store s.queues i (remove_entry t (s.queues i));
  queue_lengths = store s.queue_lengths i (dec32 (s.queue_lengths i));
  threads = store s.threads t (record (s.threads t) { in_scheduler_queue = false });
}

-- The first thread of a queue with a property.
unfoldable pub find_first : (ℕ → Bool) → List ℕ → Option ℕ
find_first p [] = none
find_first p (t ∷ ts) = if p t then some t else find_first p ts

-- What a level yields, given what the other levels would.
abbrev pub or_later : Scheduler → ℕ → Option ℕ → ℕ × Scheduler → ℕ × Scheduler
or_later s i none later = later
or_later s i (some t) later = (t, take_from s i t)

-- The loop over the levels below `n`, from the highest, with what follows when no level yields.
unfoldable pub select_down : (ℕ → Bool) → Scheduler → ℕ → ℕ × Scheduler → ℕ × Scheduler
select_down p s zero otherwise = otherwise
select_down p s (suc n) otherwise =
    or_later s n (find_first p (s.queues n)) (select_down p s n otherwise)

-- The loop over `left` levels from `i` on.
unfoldable pub select_up : (ℕ → Bool) → Scheduler → ℕ → ℕ → ℕ × Scheduler
select_up p s zero i = (0, s)
select_up p s (suc left) i = or_later s i (find_first p (s.queues i)) (select_up p s left (i + 1))

-- KiSelectNextThreadRoundRobin: the head of the lowest level that is not empty.
unfoldable pub select_round_robin : Scheduler → ℕ × Scheduler
select_round_robin s = select_up (λ t. true) s priority_levels 0

-- KiSelectNextThreadPriority: the head of the highest level that is not empty.
unfoldable pub select_priority : Scheduler → ℕ × Scheduler
select_priority s = select_down (λ t. true) s priority_levels (0, s)

-- The first loop of KiSelectNextThreadFairShare: the group with the most time left, and how much.
unfoldable pub best_group : List Group → Option ℕ → ℕ → Option ℕ
best_group [] best remaining = best
best_group (g ∷ gs) best remaining =
    if ltb remaining (sub64 g.cpu_time_quota g.cpu_time_used)
    then best_group gs (some g.group_id) (sub64 g.cpu_time_quota g.cpu_time_used)
    else best_group gs best remaining

-- `thread->Process && thread->Process->GroupId == best_group->GroupId`
abbrev pub in_group : Option ℕ → ℕ → Bool
in_group none id = false
in_group (some g) id = g == id

abbrev pub select_from_group : Scheduler → Option ℕ → ℕ × Scheduler
select_from_group s none = select_priority s
select_from_group s (some id) =
    select_down (λ t. in_group (s.threads t).group id) s priority_levels (select_priority s)

-- KiSelectNextThreadFairShare
unfoldable pub select_fair_share : Scheduler → ℕ × Scheduler
select_fair_share s = select_from_group s (best_group s.groups none 0)

-- The first loop of KiSelectNextThreadLoadBalanced: the processor with the least load.
unfoldable pub least_loaded : Scheduler → ℕ → ℕ → ℕ → ℕ → ℕ
least_loaded s zero i best load = best
least_loaded s (suc left) i best load =
    if s.cpu_online i && ltb (s.cpu_load i) load
    then least_loaded s left (i + 1) i (s.cpu_load i)
    else least_loaded s left (i + 1) best load

-- `thread->Affinity == 0 || (thread->Affinity & (1ULL << best_cpu))`
abbrev pub suits : Scheduler → ℕ → ℕ → Bool
suits s cpu t = (s.threads t).affinity == 0 || not (bit_at (s.threads t).affinity cpu == 0)

-- KiSelectNextThreadLoadBalanced on processor `cpu`
unfoldable pub select_load_balanced : Scheduler → ℕ → ℕ × Scheduler
select_load_balanced s cpu =
    select_down (suits s (least_loaded s s.cpu_count 0 cpu (s.cpu_load cpu))) s priority_levels
      (select_priority s)

-- The loop of KiSelectNextThreadAdaptive.
unfoldable pub total_load : Scheduler → ℕ → ℕ → ℕ → ℕ
total_load s zero i total = total
total_load s (suc left) i total =
    total_load s left (i + 1) (if s.cpu_online i then (total + s.cpu_load i) % ulong_mod else total)

-- KiSelectNextThreadAdaptive
unfoldable pub select_adaptive : Scheduler → ℕ → ℕ × Scheduler
select_adaptive s cpu =
    let total = total_load s s.cpu_count 0 0 in
    if ltb 80 total
    then select_load_balanced (record s { algorithm = load_balancing }) cpu
    else if ltb total 20
    then select_priority (record s { algorithm = by_priority })
    else select_fair_share (record s { algorithm = fair_share })

-- The switch of KiSelectNextThread.
unfoldable pub select_by : Algorithm → Scheduler → ℕ → ℕ × Scheduler
select_by round_robin s cpu = select_round_robin s
select_by by_priority s cpu = select_priority s
select_by fair_share s cpu = select_fair_share s
select_by load_balancing s cpu = select_load_balanced s cpu
select_by real_time s cpu = select_adaptive s cpu
select_by adaptive s cpu = select_adaptive s cpu

abbrev pub or_idle : ℕ × Scheduler → ℕ × Scheduler
or_idle (t, s) = ((if t == 0 then s.idle_thread else t), s)

-- KiSelectNextThread with the real-time queue as a list. The test of KiShouldPreempt at its end is
-- left out, as the same thread is returned whatever it says.
unfoldable pub select_with : Scheduler → ℕ → List ℕ → ℕ × Scheduler
select_with s cpu [] = or_idle (select_by s.algorithm s cpu)
select_with s cpu (t ∷ rest) = (
  t,
  record s {
    real_time_queue = rest;
    real_time_queue_length = dec32 s.real_time_queue_length;
    threads = store s.threads t (record (s.threads t) { in_scheduler_queue = false });
  },
)

-- KiSelectNextThread
abbrev pub select_next_thread : Scheduler → ℕ → ℕ × Scheduler
select_next_thread s cpu = select_with s cpu s.real_time_queue
