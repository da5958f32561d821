-- ===== src/Interrupts/Tests.antt =====
-- The theorems on interrupts at concrete states.
use dsls_os.Base.{ℕ, zero, suc, true, false, [], ◌∷◌}
use dsls_os.Interrupts.{Interrupts, queue_dpc}

-- Two calls are queued.
abbrev two_queued : Interrupts
two_queued = record {
  initialized = true;
  interrupt_handlers = λ v. 0;
  fast_interrupt_handlers = λ v. 0;
  total_interrupts = 0;
  total_spurious_interrupts = 0;
  interrupt_counts = λ v. 0;
  dpc_count = 0;
  nesting_level = 0;
  dpc_queue = 5 ∷ 6 ∷ [];
  dpc_queue_depth = 2;
  dpc_processing = false;
  dpcs = λ d. record { deferred_routine = 9; deferred_context = 1; priority = 0 };
  software_interrupts = 0;
}

-- A routine that queues the call of its context once more for each unit that is left.
abbrev again : ℕ → ℕ → Interrupts → ℕ → Interrupts × ℕ
again routine context s zero = (s, 0)
again routine context s (suc left) = (queue_dpc s context routine context 0, left)
