-- ===== src/Objects/Handles.antt =====
-- Handles: ObCreateHandle, ObReferenceObjectByHandle and ObCloseHandle.
use dsls_os.Base.{
  store, ℕ, ◌+◌, ◌-◌, ◌%◌, ◌^◌, ◌≤◌, ◌<◌, ◌≡◌, ◌≢◌, refl, ◌∙◌, subst, fun_ext, arith, false, ◌==◌,
  Status, success, Bool-cases, inl, inr, ==→eq, ==_refl, ne→==,
}
use dsls_os.Bits.{bit_or-three, bit_and-not_three}
use dsls_os.Objects.{
  ObjectManager, create_handle, object_of, reference, dereference, reference_by_handle,
  close_handle,
}
use dsls_os.Objects.Lifetime.{IsTracked, reference-IsTracked, dereference-IsTracked}

-- An address that a handle can be made of.
pub record IsAddress (o : ℕ) : Type 0 where
  pub not_null : o ≢ 0
  pub aligned : o % 4 ≡ 0
  pub word : o < 2 ^ 64

object_of-create_handle : (o : ℕ) → IsAddress o → object_of (create_handle o).1 ≡ o
unfolding create_handle
object_of-create_handle o a =
    rw (ne→== o 0 a.not_null, bit_or-three o a.aligned)
      (bit_and-not_three (o + 3) (omega (arith, a.aligned, a.word)) ∙ omega (arith, a.aligned))

handle_not_null : (o : ℕ) → IsAddress o → ((create_handle o).1 == 0) ≡ false
unfolding create_handle
handle_not_null o a = rw (ne→== o 0 a.not_null, bit_or-three o a.aligned) (ground arith)

-- ObReferenceObjectByHandle of a handle that ObCreateHandle has made of an address that is not NULL and
-- aligned to 4 bytes succeeds, returns that address and takes one reference to its object.
pub reference_by_handle-create_handle :
    (s : ObjectManager) (o : ℕ)
    → IsAddress o
    → reference_by_handle s (create_handle o).1 ≡ (success, o, reference s o)
unfolding reference_by_handle
reference_by_handle-create_handle s o a =
    rw (handle_not_null o a, object_of-create_handle o a, ne→== o 0 a.not_null) refl

back :
    (refs : ℕ → ℕ) (o : ℕ)
    → store (store refs o (refs o + 1)) o (store refs o (refs o + 1) o - 1) ≡ refs
back refs o = fun_ext (λ u. elim (Bool-cases (o == u)) [
  | inl e ↦ rw (e, ==_refl o, ← ==→eq o u e) (omega arith)
  | inr e ↦ rw e refl
])

pub record IsClosed (s r : ObjectManager) (status : Status) (refs : ℕ → ℕ) : Type 0 where
  pub succeeds : status ≡ success
  pub unchanged : IsTracked r refs

-- ObCloseHandle of a handle that ObCreateHandle has made of an object to which there is a reference
-- succeeds and leaves every count of references as it was: it gives back only the reference that it
-- has taken itself, and none that belongs to the handle. The count is below 2 ^ 31 - 1.
pub close_handle-create_handle :
    (s : ObjectManager) (refs : ℕ → ℕ) (o : ℕ)
    → IsTracked s refs
    → IsAddress o
    → 1 ≤ refs o
    → refs o + 1 < 2 ^ 31
    → let r = close_handle s (create_handle o).1 in IsClosed s r.1 r.0 refs
unfolding close_handle
close_handle-create_handle s refs o q a held small =
    let more = store refs o (refs o + 1) in
    let taken : IsTracked (reference s o) more = reference-IsTracked s refs q o held small in
    let given = dereference-IsTracked (reference s o) more taken o (rw (==_refl o) (omega arith)) in
    rw (handle_not_null o a, reference_by_handle-create_handle s o a)
      (record {
        succeeds = refl;
        unchanged = subst (IsTracked (dereference (reference s o) o)) (back refs o) given;
      })
