-- ===== src/Security/Accounting.antt =====
-- The audit statistics.
use dsls_os.Base.{
  ℕ, ◌+◌, ◌%◌, ◌^◌, ◌≡◌, refl, arith, Bool, true, false, not, List, [], ◌∷◌, Status, success,
  nt_success, either, otherwise,
}
use dsls_os.Security.{
  Stats, Security, Descriptor, log_event, access_check, perform_access_check, authenticate,
  set_security_level, initialize, initial_policy, initial_monitor, initial_context, no_stats,
}

-- Every access check and every authentication is counted once, by its result.
pub record IsAccounted (s : Security) : Type 0 where
  pub whole :
      s.stats.total_authentications
      ≡ (s.stats.access_granted + s.stats.access_denied + s.stats.successful_authentications
          + s.stats.failed_authentications)
        % 2 ^ 64
  pub violations : s.monitor.violation_count ≡ s.stats.security_violations % 2 ^ 32

-- The calls that are counted or logged.
pub data Call : Type 0 where
  checks : (now : ℕ) (d : Descriptor) (level : ℕ) (pool : Bool) → Call
  authenticates : (now factors : ℕ) (made pool : Bool) → Call
  sets_level : (level : ℕ) (pool : Bool) → Call

unfoldable pub run : Security → Call → Security
run s (checks now d level pool) = (access_check s now d level pool).2
run s (authenticates now factors made pool) = (authenticate s now factors made pool).1
run s (sets_level level pool) = (set_security_level s level pool).1

unfoldable pub run_all : Security → List Call → Security
run_all s [] = s
run_all s (call ∷ calls) = run_all (run s call) calls

log_event-IsAccounted :
    (s : Security) (pool : Bool) (status : Status)
    → IsAccounted s
    → IsAccounted (log_event s pool status)
unfolding log_event
log_event-IsAccounted s pool status q = either IsAccounted (not pool) _ _ q (
    either IsAccounted (nt_success status) _ _
      (record { whole = q.whole; violations = q.violations })
      (record { whole = q.whole; violations = omega (arith, q.violations) }))

run-IsAccounted : (s : Security) (call : Call) → IsAccounted s → IsAccounted (run s call)
unfolding run access_check authenticate set_security_level
run-IsAccounted s (checks now d level pool) q =
    let r = perform_access_check s now d level in
    either (λ (x : Status × Bool × Security). IsAccounted x.2) s.initialized _ _
      (log_event-IsAccounted _ pool r.0 (
        either (λ (x : Stats). IsAccounted (record s { stats = x })) r.1 _ _
          (record { whole = omega (arith, q.whole); violations = q.violations })
          (record { whole = omega (arith, q.whole); violations = q.violations })))
      q
run-IsAccounted s (authenticates now factors made pool) q =
    let Kept : Status × Security → Type 0 = λ x. IsAccounted x.1 in
    either Kept (not s.initialized) _ _ q (
      either Kept (not made) _ _
        (record { whole = omega (arith, q.whole); violations = q.violations })
        (log_event-IsAccounted _ pool success
          (record { whole = omega (arith, q.whole); violations = q.violations })))
run-IsAccounted s (sets_level level pool) q =
    either (λ (x : Status × Security). IsAccounted x.1) s.initialized _ _
      (log_event-IsAccounted _ pool success (record { whole = q.whole; violations = q.violations }))
      q

-- The statistics account for all calls: after SeInitializeSecurityArchitecture of a system that is not
-- initialized and any sequence of access checks, authentications and changes of the level,
-- TotalAuthentications is the sum of the checks granted and denied and of the authentications that
-- succeeded and failed, modulo 2 ^ 64, and the violations of the monitor are those of the
-- statistics, modulo 2 ^ 32.
pub run_all-IsAccounted :
    (s : Security) (now : ℕ) (pool : Bool) (calls : List Call)
    → s.initialized ≡ false
    → IsAccounted (run_all (initialize s now pool).1 calls)
unfolding run_all initialize
run_all-IsAccounted s now pool calls fresh = go _ calls (
    otherwise (λ (x : Status × Security). IsAccounted x.1) s.initialized _ _ fresh
      (log_event-IsAccounted set pool success (record { whole = refl; violations = refl })))
  where
    set : Security
    set = record s {
      policy = initial_policy;
      monitor = initial_monitor;
      context = initial_context now;
      stats = no_stats;
      initialized = true;
    }

    go : (r : Security) (calls : List Call) → IsAccounted r → IsAccounted (run_all r calls)
    go r [] q = q
    go r (call ∷ calls) q = go (run r call) calls (run-IsAccounted r call q)
