-- ===== src/Security/Access.antt =====
-- Whom SeAccessCheck lets in.
use dsls_os.Base.{
  ℕ, ◌+◌, ◌-◌, ◌≤◌, ◌≡◌, ◌↔◌, refl, sym, ap, ◌∙◌, subst, arith, Bool, true, false, not, ◌&&◌, ltb,
  if◌then◌else◌, Status, success, access_denied, nt_success, either, otherwise,
}
use dsls_os.Security.{
  Context, Security, Descriptor, verify_zero_trust, check_capabilities, perform_access_check,
  access_check, authenticate, log_event, trust_normal,
}

-- The last verification is recent and strong enough.
pub record IsTrusted (c : Context) (now : ℕ) : Type 0 where
  pub factors : 2 ≤ c.authentication_factors
  pub confidence : 50 ≤ c.confidence_score
  pub risk : c.risk_score ≤ 80
  pub compliance : c.compliance_check ≡ true
  pub recent : now ≤ c.last_verification + 300000000

-- What an access check asks for: trust where the zero trust context is enabled, a level that is not
-- below that of the object where the policy controls integrity, and an access control list.
pub record IsPermitted (s : Security) (now : ℕ) (d : Descriptor) (level : ℕ) : Type 0 where
  pub trusted : s.context.enabled ≡ true → IsTrusted s.context now
  pub dominates : s.policy.mandatory_integrity_control ≡ true → d.integrity_level ≤ level
  pub listed : d.has_dacl ≡ true

-- A guard that was passed.
passes :
    (b : Bool) (x : Status × Bool)
    → (if b then (access_denied, false) else x).1 ≡ true
    → (b ≡ false) × (x.1 ≡ true)
passes true x e = absurd (ground arith)
passes false x e = (refl, e)

abbrev guard : Bool → Status × Bool → Status × Bool
guard b x = if b then (access_denied, false) else x

denied : (b : Bool) → not b ≡ false → b ≡ true
denied true e = refl
denied false e = sym e

conjunct : (a b : Bool) → (a && b) ≡ true → b ≡ true
conjunct true b e = e
conjunct false b e = absurd (ground arith)

-- Guards that were passed.
passed :
    (b c : Bool) (x : Status × Bool)
    → (guard b (guard c x)).1 ≡ true
    → (b ≡ false) × (c ≡ false) × (x.1 ≡ true)
passed b c x e =
    let first = passes b (guard c x) e in
    let second = passes c x first.1 in (first.0, second.0, second.1)

verify_zero_trust-IsTrusted :
    (c : Context) (now : ℕ)
    → c.enabled ≡ true
    → (verify_zero_trust c now).1 ≡ true
    → IsTrusted c now
unfolding verify_zero_trust
verify_zero_trust-IsTrusted c now on e =
    let few = ltb c.authentication_factors 2 in
    let unsure = ltb c.confidence_score 50 in
    let risky = ltb 80 c.risk_score in
    let bad = not c.compliance_check in
    let old = ltb 300000000 (now - c.last_verification) in
    let last : Status × Bool = guard old (success, true) in
    let all : Status × Bool = guard few (guard unsure (guard risky (guard bad last))) in
    let inside : all.1 ≡ true = sym (ap (λ b. (if not b then (success, true) else all).1) on) ∙ e in
    let p = passed few unsure (guard risky (guard bad last)) inside in
    let r = passed risky bad last p.2 in
    let l = passes old (success, true) r.2 in
    record {
      factors = ground (arith, p.0);
      confidence = ground (arith, p.1);
      risk = ground (arith, r.0);
      compliance = denied c.compliance_check r.1;
      recent = ground (arith, l.0);
    }

IsTrusted-verify_zero_trust :
    (c : Context) (now : ℕ) → IsTrusted c now → verify_zero_trust c now ≡ (success, true)
unfolding verify_zero_trust
IsTrusted-verify_zero_trust c now t =
    let few : ltb c.authentication_factors 2 ≡ false = ground (arith, t.factors) in
    let unsure : ltb c.confidence_score 50 ≡ false = ground (arith, t.confidence) in
    let risky : ltb 80 c.risk_score ≡ false = ground (arith, t.risk) in
    let old : ltb 300000000 (now - c.last_verification) ≡ false = ground (arith, t.recent) in
    rw (few, unsure, risky, t.compliance, old)
      (either (λ (x : Status × Bool). x ≡ (success, true)) (not c.enabled) _ _ refl refl)

perform_access_check-IsPermitted :
    (s : Security) (now : ℕ) (d : Descriptor) (level : ℕ)
    → (perform_access_check s now d level).1 ≡ true
    → IsPermitted s now d level
unfolding perform_access_check
perform_access_check-IsPermitted s now d level e =
    let trust = verify_zero_trust s.context now in
    let verified = nt_success trust.0 && trust.1 in
    let doubted = s.context.enabled && not verified in
    let below = s.policy.mandatory_integrity_control && ltb level d.integrity_level in
    let closed : Status × Bool =
      guard (d.is_protected && not (nt_success check_capabilities.0 && check_capabilities.1))
        (success, true) in
    let p = passed doubted below (guard (not d.has_dacl) closed) e in
    record {
      trusted = λ on.
          let sure : verified ≡ true =
            denied verified (sym (ap (λ b. b && not verified) on) ∙ p.0) in
          verify_zero_trust-IsTrusted s.context now on (conjunct (nt_success trust.0) trust.1 sure);
      dominates = λ on.
          let high : ltb level d.integrity_level ≡ false =
            sym (ap (λ b. b && ltb level d.integrity_level) on) ∙ p.1 in
          ground (arith, high);
      listed = denied d.has_dacl (passes (not d.has_dacl) closed p.2).0;
    }

-- A guard that asks for something only where it is switched on.
switched : (a b : Bool) → (a ≡ true → b ≡ false) → (a && b) ≡ false
switched true b f = f refl
switched false b f = refl

IsPermitted-perform_access_check :
    (s : Security) (now : ℕ) (d : Descriptor) (level : ℕ)
    → IsPermitted s now d level
    → perform_access_check s now d level ≡ (success, true)
unfolding perform_access_check
IsPermitted-perform_access_check s now d level h =
    let trust = verify_zero_trust s.context now in
    let doubted : (s.context.enabled && not (nt_success trust.0 && trust.1)) ≡ false =
      switched _ _ (λ on.
        ap (λ (r : Status × Bool). not (nt_success r.0 && r.1))
          (IsTrusted-verify_zero_trust s.context now (h.trusted on))) in
    let below : (s.policy.mandatory_integrity_control && ltb level d.integrity_level) ≡ false =
      switched _ _ (λ on. let le = h.dominates on in ground (arith, le)) in
    let free : (d.is_protected && not (nt_success check_capabilities.0 && check_capabilities.1))
        ≡ false =
      switched _ _ (λ on. refl) in
    rw (doubted, below, h.listed, free) refl

taken : (b : Bool) (x y : Status × Bool × Security) → b ≡ true → (if b then x else y).1 ≡ x.1
taken b x y e = rw e refl

-- SeAccessCheck on an initialized system grants the access exactly when it is permitted: where the zero
-- trust context is enabled, with two or more authentication factors, a confidence of 50 or more, a
-- risk of 80 or less, compliance, and a verification that is at most 300000000 units of time old;
-- where the policy controls integrity, to a token whose level is not below that of the object; and
-- only to an object with an access control list. Which access is asked for plays no part.
pub access_check-IsPermitted :
    (s : Security) (now : ℕ) (d : Descriptor) (level : ℕ) (pool : Bool)
    → s.initialized ≡ true
    → ((access_check s now d level pool).1 ≡ true) ↔ IsPermitted s now d level
unfolding access_check
access_check-IsPermitted s now d level pool ready =
    let granted : (access_check s now d level pool).1 ≡ (perform_access_check s now d level).1 =
      taken s.initialized _ _ ready in
    (
      (λ e. perform_access_check-IsPermitted s now d level (sym granted ∙ e)),
      (λ h.
          granted
          ∙ ap (λ (r : Status × Bool). r.1) (IsPermitted-perform_access_check s now d level h)),
    )

-- After SeAuthenticateUser has succeeded with two or more factors, SeAccessCheck grants access for the
-- next 300000000 units of time: on an initialized system whose context asks for compliance and finds
-- it, to an object with an access control list, for a token whose level is not below that of the
-- object. The name and the password play no part.
pub access_check-authenticate :
    (s : Security) (now later factors : ℕ) (d : Descriptor) (level : ℕ) (pool logged : Bool)
    → s.initialized ≡ true
    → s.context.compliance_check ≡ true
    → 2 ≤ factors
    → later ≤ now + 300000000
    → d.integrity_level ≤ level
    → d.has_dacl ≡ true
    → (access_check (authenticate s now factors true logged).1 later d level pool).1 ≡ true
unfolding authenticate log_event
access_check-authenticate s now later factors d level pool logged ready compliant two soon high
      listed =
    otherwise (λ (r : Status × Security). (access_check r.1 later d level pool).1 ≡ true)
      (not s.initialized) _ _ (ap not ready)
      (either (λ (r : Security). (access_check r later d level pool).1 ≡ true) (not logged) _ _
        (grants _ ready refl) (grants _ ready refl))
  where
    grants :
        (r : Security)
        → r.initialized ≡ true
        → r.context ≡ record s.context {
          trust_level = trust_normal;
          confidence_score = 75;
          risk_score = 25;
          authentication_factors = factors;
          last_verification = now;
        }
        → (access_check r later d level pool).1 ≡ true
    grants r on e = (access_check-IsPermitted r later d level pool on).1 (record {
      trusted = λ h.
          subst (λ c. IsTrusted c later) (sym e)
            (record {
              factors = two;
              confidence = omega arith;
              risk = omega arith;
              compliance = compliant;
              recent = soon;
            });
      dominates = λ h. high;
      listed = listed;
    })
