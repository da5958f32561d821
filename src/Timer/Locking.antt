-- ===== src/Timer/Locking.antt =====
-- TimerLock of kernel/src/timer.c in KeQuerySystemTime, KeSetTimer and KeProcessExpiredTimers. The lock is a
-- Boolean, whether it is held. KeAcquireSpinLock is an argument: it takes the lock from its state to
-- another one, or does not return; `none` is that a call does not return, or that the fuel of the loop of
-- KeProcessExpiredTimers is used up.
use dsls_os.Base.{
  ℕ, ◌≡◌, refl, ap, ◌⊎◌, Bool, true, false, not, Option, none, some, ◌==◌, if◌then◌else◌, Status,
  success, invalid_parameter, otherwise,
}
use dsls_os.Timer.{
  Timers, query_system_time, cancel_internal, arm, set_timer, is_relative, sub64, process_queue,
}

-- A call after another one that returned.
infixl 5 ◌>>=◌
abbrev pub ◌>>=◌ : {A B : Type 0} → Option A → (A → Option B) → Option B
none >>= f = none
some a >>= f = f a

module _ (acquire : Bool → Option Bool) where
  -- KeQuerySystemTime: the time, the lock and the state.
  unfoldable pub query_locked : Bool → Timers → Option (ℕ × Bool × Timers)
  query_locked held s = do
    taken ← acquire held
    some ((query_system_time s).0, false, (query_system_time s).1)

  -- What KeSetTimer does once it has the lock.
  abbrev pub set_holding_lock : Bool → Timers → ℕ → ℕ → ℕ → ℕ → ℕ → Option (Status × Bool × Timers)
  set_holding_lock held s t due period dpc context =
      let s1 = if (s.timers t).inserted then cancel_internal s t else s in
      let relative = (do
        (now, _, s2) ← query_locked held s1
        some (success, false, arm s2 t (sub64 now due) period dpc context)) in
      if is_relative due then relative else some (success, false, arm s1 t due period dpc context)

  -- KeSetTimer
  unfoldable pub set_timer_locked :
      Bool → Timers → ℕ → ℕ → ℕ → ℕ → ℕ → Option (Status × Bool × Timers)
  set_timer_locked held s t due period dpc context =
      let rest = (do taken ← acquire held; set_holding_lock taken s t due period dpc context) in
      if t == 0 then some (invalid_parameter, held, s) else rest

  -- KeProcessExpiredTimers
  unfoldable pub process_expired_timers : ℕ → Bool → Timers → Option (Bool × Timers)
  process_expired_timers fuel held s =
      let run = (do
        taken ← acquire held
        (now, _, s1) ← query_locked taken s
        s2 ← process_queue fuel now s1
        some (false, s2)) in
      if not s.initialized then some (held, s) else run

-- KeSetTimer with TimerLock free. A NULL timer is refused and a timer with an absolute due time is set,
-- with the lock free again; a relative due time is a call that does not return.
pub data Relock (s : Timers) (t due period dpc context : ℕ) (o : Option (Status × Bool × Timers))
    : Type 0 where
  returns :
      (t == 0) ≡ true ⊎ is_relative due ≡ false
      → o
        ≡ some (
          (set_timer s t due period dpc context).0,
          false,
          (set_timer s t due period dpc context).1,
        )
      → Relock s t due period dpc context o
  hangs : (t == 0) ≡ false → is_relative due ≡ true → o ≡ none → Relock s t due period dpc context o

module _ (acquire : Bool → Option Bool) (takes : acquire false ≡ some true)
    (spins : acquire true ≡ none) where
  -- When the lock can be taken while it is free, and cannot be taken again while it is held:
  -- KeProcessExpiredTimers with TimerLock free does not return on an initialized state, whatever its
  -- queue and the fuel of its loop, which it does not reach: it calls KeQuerySystemTime under the lock.
  pub process_expired_timers_hang :
      (fuel : ℕ) (s : Timers)
      → s.initialized ≡ true
      → process_expired_timers acquire fuel false s ≡ none
  unfolding process_expired_timers query_locked
  process_expired_timers_hang fuel s ready =
      otherwise (λ o. o ≡ none) (not s.initialized) _ _ (ap not ready) (rw (takes, spins) refl)
