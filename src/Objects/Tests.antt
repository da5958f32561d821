-- ===== src/Objects/Tests.antt =====
-- The theorems on objects and handles at concrete states.
use dsls_os.Base.{ℕ, ◌≡◌, refl, arith, false, List, [], ◌∷◌, ◌==◌, success, Bool-cases, inl, inr}
use dsls_os.Base.Entries.{occurrences, remove_entry}
use dsls_os.Objects.{
  ObjectManager, initialize, create, create_handle, reference_by_handle, reference, dereference,
  delete, set_security,
}
use dsls_os.Objects.Lifetime.{IsTracked, count_type}
use dsls_os.Objects.Refinement.{
  Operation, creates, references, dereferences, secures, run, run_all, spec, spec_all, Allowed,
  AllAllowed, run_all-IsTracked,
}
use dsls_os.Objects.Handles.{IsAddress, reference_by_handle-create_handle}

abbrev blank : ObjectManager
blank = record {
  initialized = false;
  object_list = [];
  object_count = 0;
  object_type_count = 0;
  total_objects = λ k. 0;
  total_handles = λ k. 0;
  table = 0;
  table_size = 0;
  handle_count = 0;
  objects =
      λ o. record { object_type = 0; reference_count = 0; flags = 0; security_descriptor = 0 };
  allocated = λ o. false;
}

-- The handle table stands at 4096.
abbrev started : ObjectManager
started = (initialize blank 4096).1

abbrev no_references : ℕ → ℕ
no_references o = 0

started-IsTracked : IsTracked started no_references
unfolding initialize occurrences count_type
started-IsTracked = record {
  running = refl;
  held = λ o. record {
    not_null = λ z. refl;
    once = refl;
    references = λ h. absurd (omega arith);
    positive = omega arith;
    typed = λ h. absurd (omega arith);
  };
  counted = refl;
  totals = λ k. elim (Bool-cases (k == 0)) [ inl e ↦ rw e refl | inr e ↦ rw e refl ];
}

-- A thread object at 8192 that is referenced twice, secured and given back twice.
abbrev calls : List Operation
calls =
    creates 2 8192
    ∷ references 8192
    ∷ secures 8192 12288
    ∷ dereferences 8192
    ∷ dereferences 8192
    ∷ []

calls_allowed : AllAllowed no_references calls
unfolding AllAllowed Allowed spec
calls_allowed = (
  (omega arith, (λ e. omega arith), refl),
  ((omega arith, omega arith), (omega arith, (omega arith, (omega arith, tt)))),
)

run_all-IsTracked_example : IsTracked (run_all started calls) (spec_all no_references calls)
run_all-IsTracked_example =
    run_all-IsTracked started no_references calls started-IsTracked calls_allowed

run_all_frees : (run_all started calls).allocated 8192 ≡ false
unfolding run_all run create reference set_security dereference delete initialize remove_entry
run_all_frees = refl

abbrev one_object : ObjectManager
one_object = run_all started (creates 2 8192 ∷ [])

abbrev one_reference : ℕ → ℕ
one_reference = spec_all no_references (creates 2 8192 ∷ [])

one_allowed : AllAllowed no_references (creates 2 8192 ∷ [])
unfolding AllAllowed Allowed spec
one_allowed = ((omega arith, (λ e. omega arith), refl), tt)

address : IsAddress 8192
address = record { not_null = λ e. omega arith; aligned = refl; word = omega arith }

one_held : (one_reference 8192 ≡ 1)
unfolding spec_all spec
one_held = refl

reference_by_handle-create_handle_example :
    reference_by_handle one_object (create_handle 8192).1
    ≡ (success, 8192, reference one_object 8192)
reference_by_handle-create_handle_example =
    reference_by_handle-create_handle one_object 8192 address
