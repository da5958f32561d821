-- ===== src/Security.antt =====
-- kernel/src/security_architecture.c: the zero trust context, the access check, authentication and the
-- audit statistics. Times are not negative. Locks are left out, and of the audit log only its count
-- is kept; whether the pool has an entry is an argument, and so is whether the identifiers and the
-- token of a user are made. A role and a capability play no part in an access check.
pub mod Access
pub mod Accounting
mod Tests
use dsls_os.Base.{
  ℕ, ◌+◌, ◌-◌, ◌%◌, ◌^◌, Bool, true, false, not, ◌&&◌, ltb, ◌==◌, if◌then◌else◌, Status, success,
  unsuccessful, invalid_parameter, insufficient_resources, access_denied, nt_success, inc32,
}

-- ZERO_TRUST_CONTEXT
pub record Context : Type 0 where
  pub enabled : Bool
  pub trust_level : ℕ
  pub confidence_score : ℕ
  pub risk_score : ℕ
  pub authentication_factors : ℕ
  pub last_verification : ℕ
  pub compliance_check : Bool

-- The fields of SECURITY_POLICY that are read or that SeSetSecurityLevel sets.
pub record Policy : Type 0 where
  pub enforcement_level : ℕ
  pub mandatory_integrity_control : Bool
  pub zero_trust_model : Bool
  pub device_guard : Bool
  pub credential_guard : Bool
  pub hypervisor_protection : Bool

-- The fields of SECURITY_STATS that change.
pub record Stats : Type 0 where
  pub total_authentications : ℕ
  pub successful_authentications : ℕ
  pub failed_authentications : ℕ
  pub access_granted : ℕ
  pub access_denied : ℕ
  pub auditing_events : ℕ
  pub security_violations : ℕ

-- The counts of SECURITY_MONITOR
pub record Monitor : Type 0 where
  pub alert_threshold : ℕ
  pub alert_count : ℕ
  pub violation_count : ℕ

-- The static variables of the file.
pub record Security : Type 0 where
  pub initialized : Bool
  pub security_level : ℕ
  pub policy : Policy
  pub context : Context
  pub stats : Stats
  pub monitor : Monitor

-- The fields of DSECURITY_DESCRIPTOR that the access check reads; `is_protected` is
-- `Control & SE_DACL_PROTECTED`.
pub record Descriptor : Type 0 where
  pub has_dacl : Bool
  pub integrity_level : ℕ
  pub is_protected : Bool

abbrev pub inc64 : ℕ → ℕ
inc64 n = (n + 1) % 2 ^ 64

-- SECURITY_LEVEL_ and TRUST_LEVEL_ constants
abbrev pub level_low : ℕ
level_low = 0

abbrev pub level_medium : ℕ
level_medium = 1

abbrev pub level_high : ℕ
level_high = 2

abbrev pub level_maximum : ℕ
level_maximum = 3

abbrev pub trust_normal : ℕ
trust_normal = 1

-- KiInitializeZeroTrustContext at the time `now`
abbrev pub initial_context : ℕ → Context
initial_context now = record {
  enabled = true;
  trust_level = 0;
  confidence_score = 0;
  risk_score = 100;
  authentication_factors = 0;
  last_verification = now;
  compliance_check = true;
}

-- KiInitializeSecurityPolicy
abbrev pub initial_policy : Policy
initial_policy = record {
  enforcement_level = 2;
  mandatory_integrity_control = true;
  zero_trust_model = true;
  device_guard = true;
  credential_guard = true;
  hypervisor_protection = true;
}

-- KiInitializeSecurityMonitoring
abbrev pub initial_monitor : Monitor
initial_monitor = record { alert_threshold = 10; alert_count = 0; violation_count = 0 }

abbrev pub no_stats : Stats
no_stats = record {
  total_authentications = 0;
  successful_authentications = 0;
  failed_authentications = 0;
  access_granted = 0;
  access_denied = 0;
  auditing_events = 0;
  security_violations = 0;
}

-- KiLogSecurityEvent of an event with a status.
unfoldable pub log_event : Security → Bool → Status → Security
log_event s pool status =
    let violations = inc32 s.monitor.violation_count in
    let alerts =
      if ltb s.monitor.alert_threshold violations
      then inc32 s.monitor.alert_count
      else s.monitor.alert_count in
    let logged = record s {
      stats = record s.stats { auditing_events = inc64 s.stats.auditing_events };
    } in
    if not pool then s else if nt_success status then logged else record logged {
      stats = record logged.stats { security_violations = inc64 s.stats.security_violations };
      monitor = record s.monitor { violation_count = violations; alert_count = alerts };
    }

-- SeInitializeSecurityArchitecture at the time `now`, but for the roles and the capabilities.
unfoldable pub initialize : Security → ℕ → Bool → Status × Security
initialize s now pool =
    let set = record s {
      policy = initial_policy;
      monitor = initial_monitor;
      context = initial_context now;
      stats = no_stats;
      initialized = true;
    } in
    if s.initialized then (success, s) else (success, log_event set pool success)

-- KiVerifyZeroTrust at the time `now`
unfoldable pub verify_zero_trust : Context → ℕ → Status × Bool
verify_zero_trust c now =
    if not c.enabled
    then (success, true)
    else if ltb c.authentication_factors 2
    then (access_denied, false)
    else if ltb c.confidence_score 50
    then (access_denied, false)
    else if ltb 80 c.risk_score
    then (access_denied, false)
    else if not c.compliance_check
    then (access_denied, false)
    else if ltb 300000000 (now - c.last_verification)
    then (access_denied, false)
    else (success, true)

-- KiCheckCapabilities
abbrev pub check_capabilities : Status × Bool
check_capabilities = (success, true)

-- KiPerformAccessCheck for a token of the integrity level `level`, with the access that is granted. The
-- access that is asked for is not read.
unfoldable pub perform_access_check : Security → ℕ → Descriptor → ℕ → Status × Bool
perform_access_check s now d level =
    let trust = verify_zero_trust s.context now in
    if s.context.enabled && not (nt_success trust.0 && trust.1)
    then (access_denied, false)
    else if s.policy.mandatory_integrity_control && ltb level d.integrity_level
    then (access_denied, false)
    else if not d.has_dacl
    then (access_denied, false)
    else if d.is_protected && not (nt_success check_capabilities.0 && check_capabilities.1)
    then (access_denied, false)
    else (success, true)

-- SeAccessCheck with pointers that are not NULL: the status, the access that is granted, and the state.
unfoldable pub access_check : Security → ℕ → Descriptor → ℕ → Bool → Status × Bool × Security
access_check s now d level pool =
    let (status, granted) = perform_access_check s now d level in
    let asked = record s.stats { total_authentications = inc64 s.stats.total_authentications } in
    let counted =
      if granted
      then record asked { access_granted = inc64 s.stats.access_granted }
      else record asked { access_denied = inc64 s.stats.access_denied } in
    if s.initialized
    then (status, granted, log_event (record s { stats = counted }) pool status)
    else (invalid_parameter, false, s)

-- SeAuthenticateUser of a name and a password that are not NULL, which are not read: `made` says
-- whether the identifiers and the token are made. The token has the integrity level medium.
unfoldable pub authenticate : Security → ℕ → ℕ → Bool → Bool → Status × Security
authenticate s now factors made pool =
    let asked = record s.stats { total_authentications = inc64 s.stats.total_authentications } in
    let failed = record asked { failed_authentications = inc64 s.stats.failed_authentications } in
    let succeeded = record asked {
      successful_authentications = inc64 s.stats.successful_authentications;
    } in
    let context = record s.context {
      trust_level = trust_normal;
      confidence_score = 75;
      risk_score = 25;
      authentication_factors = factors;
      last_verification = now;
    } in
    if not s.initialized
    then (invalid_parameter, s)
    else if not made
    then (insufficient_resources, record s { stats = failed })
    else (success, log_event (record s { stats = succeeded; context = context }) pool success)

-- The switch of SeSetSecurityLevel.
abbrev pub policy_at : Policy → ℕ → Policy
policy_at p level =
    if level == level_low
    then record p { enforcement_level = 0; zero_trust_model = false }
    else if level == level_medium
    then record p { enforcement_level = 1; zero_trust_model = true }
    else if level == level_high
    then record p { enforcement_level = 2; zero_trust_model = true; hypervisor_protection = true }
    else if level == level_maximum
    then record p {
      enforcement_level = 3;
      zero_trust_model = true;
      hypervisor_protection = true;
      device_guard = true;
      credential_guard = true;
    }
    else p

-- SeSetSecurityLevel
unfoldable pub set_security_level : Security → ℕ → Bool → Status × Security
set_security_level s level pool =
    if s.initialized
    then (
      success,
      log_event (record s { security_level = level; policy = policy_at s.policy level }) pool
          success,
    )
    else (unsuccessful, s)
