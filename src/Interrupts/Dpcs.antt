-- ===== src/Interrupts/Dpcs.antt =====
-- KeQueueDpc and KeProcessDpcQueue on the queue of deferred procedure calls.
use dsls_os.Base.{
  ℕ, ◌%◌, ◌≡◌, arith, ◌||◌, [], ◌∷◌, ◌==◌, Bool-cases, inl, inr, length, length-append, ulong_mod,
}
use dsls_os.Interrupts.{Interrupts, queue_dpc}

-- DpcQueueDepth is the length of the queue, modulo the word size.
abbrev pub IsCounted : Interrupts → Type 0
IsCounted s = s.dpc_queue_depth ≡ length s.dpc_queue % ulong_mod

-- KeQueueDpc keeps DpcQueueDepth the length of the queue, for NULL arguments too.
pub queue_dpc-IsCounted :
    (s : Interrupts) (dpc routine context priority : ℕ)
    → IsCounted s
    → IsCounted (queue_dpc s dpc routine context priority)
unfolding queue_dpc
queue_dpc-IsCounted s dpc routine context priority c =
    let more = length-append s.dpc_queue (dpc ∷ []) in
    elim (Bool-cases ((dpc == 0) || (routine == 0))) [
      | inl e ↦ rw e c
      | inr e ↦ elim (Bool-cases s.dpc_processing) [
        | inl p ↦ rw (e, p) (omega (arith, c, more))
        | inr p ↦ rw (e, p) (omega (arith, c, more))
      ]
    ]
