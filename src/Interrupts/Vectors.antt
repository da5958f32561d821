-- ===== src/Interrupts/Vectors.antt =====
-- Registration of interrupt handlers.
use dsls_os.Base.{ℕ, ◌<◌, ◌≡◌, ◌≢◌, arith, ◌==◌, if◌then◌else◌, success}
use dsls_os.Interrupts.{Interrupts, register, unregister, handler_of}

-- KeRegisterInterruptHandler of a vector below 256 and a handler that is not NULL reports success;
-- the interrupt entry then finds that handler for the vector, and for every other vector the
-- handler that it found before, NULL or not. KeUnregisterInterruptHandler of the vector afterwards
-- reports success and leaves NULL for it, and the others as they were.
pub handler_of-register :
    (s : Interrupts) (vector handler : ℕ)
    → vector < 256
    → handler ≢ 0
    → ((register s vector handler).0 ≡ success)
      × ((u : ℕ)
          → handler_of (register s vector handler).1 u
            ≡ (if vector == u then handler else handler_of s u))
      × ((unregister (register s vector handler).1 vector).0 ≡ success)
      × ((u : ℕ)
          → handler_of (unregister (register s vector handler).1 vector).1 u
            ≡ (if vector == u then 0 else handler_of s u))
unfolding register unregister
handler_of-register s vector handler h ne =
    (ground arith, λ u. ground arith, ground arith, λ u. ground arith)
