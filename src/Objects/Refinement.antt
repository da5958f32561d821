-- ===== src/Objects/Refinement.antt =====
-- The object manager as a table of reference counts: an object exists while there are references to
-- it.
use dsls_os.Base.{
  store, Status, ℕ, ◌+◌, ◌-◌, ◌^◌, ◌≤◌, ◌<◌, ◌≡◌, ◌≢◌, refl, Bool, true, List, [], ◌∷◌, ◌==◌,
  Bool-cases, inl, inr, either,
}
use dsls_os.Objects.{ObjectManager, type_max, create, reference, dereference, set_security}
use dsls_os.Objects.Lifetime.{
  IsTracked, reheader-IsTracked, create-IsTracked, reference-IsTracked, dereference-IsTracked,
}

-- The calls that change the objects. Those with a pointer are given one of an object.
pub data Operation : Type 0 where
  creates : (type block : ℕ) → Operation
  references : (o : ℕ) → Operation
  dereferences : (o : ℕ) → Operation
  secures : (o block : ℕ) → Operation

unfoldable pub run : ObjectManager → Operation → ObjectManager
run s (creates type block) = (create s type true block).2
run s (references o) = reference s o
run s (dereferences o) = dereference s o
run s (secures o block) = (set_security s o block).1

unfoldable pub run_all : ObjectManager → List Operation → ObjectManager
run_all s [] = s
run_all s (op ∷ ops) = run_all (run s op) ops

-- What a call does to the numbers of references.
unfoldable pub spec : (ℕ → ℕ) → Operation → ℕ → ℕ
spec refs (creates type block) = store refs block 1
spec refs (references o) = store refs o (refs o + 1)
spec refs (dereferences o) = store refs o (refs o - 1)
spec refs (secures o block) = refs

unfoldable pub spec_all : (ℕ → ℕ) → List Operation → ℕ → ℕ
spec_all refs [] = refs
spec_all refs (op ∷ ops) = spec_all (spec refs op) ops

-- A new object has a valid type and a block in which there is none; the other calls are for objects to
-- which there is a reference, and no count reaches 2 ^ 31.
unfoldable pub Allowed : (ℕ → ℕ) → Operation → Type 0
Allowed refs (creates type block) = (type < type_max) × (block ≢ 0) × (refs block ≡ 0)
Allowed refs (references o) = (1 ≤ refs o) × (refs o + 1 < 2 ^ 31)
Allowed refs (dereferences o) = 1 ≤ refs o
Allowed refs (secures o block) = 1 ≤ refs o

unfoldable pub AllAllowed : (ℕ → ℕ) → List Operation → Type 0
AllAllowed refs [] = Unit {0}
AllAllowed refs (op ∷ ops) = Allowed refs op × AllAllowed (spec refs op) ops

set_security-IsTracked :
    (s : ObjectManager) (refs : ℕ → ℕ) (o block : ℕ)
    → IsTracked s refs
    → IsTracked (set_security s o block).1 refs
unfolding set_security
set_security-IsTracked s refs o block q =
    let old = (s.objects o).security_descriptor in
    let set : (b : ℕ → Bool) → IsTracked _ refs = λ b.
      reheader-IsTracked s refs q o (record (s.objects o) { security_descriptor = block }) b refl
        refl in
    either (λ (r : Status × ObjectManager). IsTracked r.1 refs) (o == 0) _ _ q
      (elim (Bool-cases (old == 0)) [
        | inl e ↦ rw e (
            either (λ (r : Status × ObjectManager). IsTracked r.1 refs) (block == 0) _ _ (set _)
              (set _))
        | inr e ↦ rw e (
            either (λ (r : Status × ObjectManager). IsTracked r.1 refs) (block == 0) _ _ (set _)
              (set _))
      ])

run-IsTracked :
    (s : ObjectManager) (refs : ℕ → ℕ) (op : Operation)
    → IsTracked s refs
    → Allowed refs op
    → IsTracked (run s op) (spec refs op)
unfolding run spec Allowed
run-IsTracked s refs (creates type block) q a = create-IsTracked s refs q type block a.0 a.1 a.2
run-IsTracked s refs (references o) q a = reference-IsTracked s refs q o a.0 a.1
run-IsTracked s refs (dereferences o) q a = dereference-IsTracked s refs q o a
run-IsTracked s refs (secures o block) q a = set_security-IsTracked s refs o block q

-- The object manager implements a table of reference counts: it is in step with the counts, and any
-- sequence of calls that create objects, take and give back references and set security
-- descriptors leaves it in step with the counts that the calls mean. In step means that exactly
-- the objects with a count above 0 stand in the list, once each, with that count in their header,
-- and that the totals are right modulo the word size; so the last reference that is given back
-- deletes the object, and no earlier one. Each call is for an object to which there is a reference,
-- or creates one of a valid type in a block without one, and no count reaches 2 ^ 31.
pub run_all-IsTracked :
    (s : ObjectManager) (refs : ℕ → ℕ) (ops : List Operation)
    → IsTracked s refs
    → AllAllowed refs ops
    → IsTracked (run_all s ops) (spec_all refs ops)
unfolding run_all spec_all AllAllowed
run_all-IsTracked s refs [] q a = q
run_all-IsTracked s refs (op ∷ ops) q a =
    run_all-IsTracked (run s op) (spec refs op) ops (run-IsTracked s refs op q a.0) a.1
