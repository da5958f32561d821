-- ===== src/Security/Tests.antt =====
-- The theorems on security at concrete states.
use dsls_os.Base.{◌≡◌, ◌↔◌, refl, true, false, [], ◌∷◌, arith}
use dsls_os.Security.{
  Security, Descriptor, initialize, access_check, authenticate, initial_context, initial_policy,
  initial_monitor, no_stats,
}
use dsls_os.Security.Access.{IsPermitted, access_check-IsPermitted, access_check-authenticate}
use dsls_os.Security.Accounting.{
  IsAccounted, checks, authenticates, sets_level, run_all, run_all-IsAccounted,
}

abbrev blank : Security
blank = record {
  initialized = false;
  security_level = 0;
  policy = initial_policy;
  context = initial_context 0;
  stats = no_stats;
  monitor = initial_monitor;
}

-- The state that SeInitializeSecurityArchitecture sets at the time 100.
abbrev ready : Security
ready = record blank { initialized = true; context = initial_context 100 }

abbrev file_descriptor : Descriptor
file_descriptor = record { has_dacl = true; integrity_level = 1; is_protected = true }

access_check-IsPermitted_example :
    ((access_check ready 200 file_descriptor 1 true).1 ≡ true)
    ↔ IsPermitted ready 200 file_descriptor 1
access_check-IsPermitted_example = access_check-IsPermitted ready 200 file_descriptor 1 true refl

access_check-authenticate_example :
    (access_check (authenticate ready 100 2 true true).1 200 file_descriptor 1 true).1 ≡ true
access_check-authenticate_example =
    access_check-authenticate ready 100 200 2 file_descriptor 1 true true refl refl (omega arith)
      (omega arith) (omega arith) refl

run_all-IsAccounted_example : IsAccounted (
    run_all (initialize blank 100 true).1 (
      checks 150 file_descriptor 1 true
      ∷ authenticates 160 2 true true
      ∷ checks 170 file_descriptor 1 true
      ∷ authenticates 180 2 false true
      ∷ sets_level 3 true
      ∷ []))
run_all-IsAccounted_example =
    run_all-IsAccounted blank 100 true
      (checks 150 file_descriptor 1 true
        ∷ authenticates 160 2 true true
        ∷ checks 170 file_descriptor 1 true
        ∷ authenticates 180 2 false true
        ∷ sets_level 3 true
        ∷ [])
      refl
