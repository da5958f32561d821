-- ===== src/Interrupts.antt =====
-- kernel/src/interrupt_handler.c: the dispatch tables, the entry point of interrupts, and the queue
-- of deferred procedure calls. A handler, a routine and a KDPC are named by their address and NULL
-- is 0; the KDPC objects are a function from addresses. What handlers and routines do is an
-- argument, on this state and the rest `w` of the kernel's. The lock is left out, and so are the
-- calls that mask interrupts and acknowledge them. An array is a function, so that a vector from 256 on,
-- which the C code reads out of bounds, has an entry.
pub mod Vectors
pub mod Dpcs
mod Tests
use dsls_os.Base.{
  ℕ, zero, suc, ◌+◌, Bool, true, false, not, ◌&&◌, ◌||◌, Option, none, some, List, [], ◌∷◌, ◌++◌,
  ltb, leb, ◌==◌, if◌then◌else◌, Status, success, invalid_parameter, inc32, dec32,
}

-- KDPC
pub record Dpc : Type 0 where
  pub deferred_routine : ℕ
  pub deferred_context : ℕ
  pub priority : ℕ

-- INTERRUPT_HANDLER_STATE with its statistics and the KDPC objects; `software_interrupts` counts
-- the calls of HalRequestSoftwareInterrupt.
pub record Interrupts : Type 0 where
  pub initialized : Bool
  pub interrupt_handlers : ℕ → ℕ
  pub fast_interrupt_handlers : ℕ → ℕ
  pub total_interrupts : ℕ
  pub total_spurious_interrupts : ℕ
  pub interrupt_counts : ℕ → ℕ
  pub dpc_count : ℕ
  pub nesting_level : ℕ
  pub dpc_queue : List ℕ
  pub dpc_queue_depth : ℕ
  pub dpc_processing : Bool
  pub dpcs : ℕ → Dpc
  pub software_interrupts : ℕ

abbrev pub put {ℓ} : {A : Type ℓ} → (ℕ → A) → ℕ → A → ℕ → A
put f k v j = if k == j then v else f j

abbrev vector_count : ℕ
vector_count = 256

abbrev fast_vectors : ℕ
fast_vectors = 32

abbrev pub is_empty {ℓ} : {A : Type ℓ} → List A → Bool
is_empty [] = true
is_empty (x ∷ xs) = false

-- The assignment to one of the two tables.
abbrev assign : Interrupts → ℕ → ℕ → Interrupts
assign s vector handler =
    if ltb vector fast_vectors
    then record s { fast_interrupt_handlers = put s.fast_interrupt_handlers vector handler }
    else record s { interrupt_handlers = put s.interrupt_handlers vector handler }

-- KeRegisterInterruptHandler; its flags are not used.
unfoldable pub register : Interrupts → ℕ → ℕ → Status × Interrupts
register s vector handler =
    if leb vector_count vector || handler == 0
    then (invalid_parameter, s)
    else (success, assign s vector handler)

-- KeUnregisterInterruptHandler
unfoldable pub unregister : Interrupts → ℕ → Status × Interrupts
unregister s vector =
    if leb vector_count vector then (invalid_parameter, s) else (success, assign s vector 0)

-- The choice of the handler in KeInterruptHandler.
abbrev pub handler_of : Interrupts → ℕ → ℕ
handler_of s vector =
    if ltb vector fast_vectors
    then s.fast_interrupt_handlers vector
    else s.interrupt_handlers vector

-- KeInitializeInterruptHandler and KeRegisterDefaultHandlers, given the addresses of the timer,
-- keyboard and system call handlers.
unfoldable pub initialize : Interrupts → ℕ → ℕ → ℕ → Interrupts
initialize s timer keyboard system_call =
    let cleared = record s {
      interrupt_handlers = λ v. 0;
      fast_interrupt_handlers = λ v. 0;
      total_interrupts = 0;
      total_spurious_interrupts = 0;
      interrupt_counts = λ v. 0;
      dpc_count = 0;
      nesting_level = 0;
      dpc_queue = [];
      dpc_queue_depth = 0;
      dpc_processing = false;
    } in
    let with_timer = (register cleared 32 timer).1 in
    let with_keyboard = (register with_timer 33 keyboard).1 in
    if s.initialized
    then s
    else record (register with_keyboard 128 system_call).1 { initialized = true }

-- KeQueueDpc
unfoldable pub queue_dpc : Interrupts → ℕ → ℕ → ℕ → ℕ → Interrupts
queue_dpc s dpc routine context priority =
    let queued = record s {
      dpcs =
          put s.dpcs dpc (record {
            deferred_routine = routine;
            deferred_context = context;
            priority = priority;
          });
      dpc_queue = s.dpc_queue ++ dpc ∷ [];
      dpc_queue_depth = inc32 s.dpc_queue_depth;
    } in
    if dpc == 0 || routine == 0
    then s
    else if s.dpc_processing
    then queued
    else record queued { software_interrupts = s.software_interrupts + 1 }

module _ {W : Type 0} (call : ℕ → ℕ → Interrupts → W → Interrupts × W) where
  -- The loop of KeProcessDpcQueue with `dpc` taken from the head of the queue: `call` runs the
  -- routine on its context.
  unfoldable pub run_dpc : Interrupts → W → ℕ → List ℕ → Interrupts × W
  run_dpc s w dpc rest =
      let taken = record s { dpc_queue = rest; dpc_queue_depth = dec32 s.dpc_queue_depth } in
      let (s', w') = call (s.dpcs dpc).deferred_routine (s.dpcs dpc).deferred_context taken w in
      (record s' { dpc_count = inc32 s'.dpc_count }, w')

  -- One round on a queue that is not empty.
  unfoldable pub run_head : Interrupts → W → List ℕ → Interrupts × W
  run_head s w [] = (s, w)
  run_head s w (dpc ∷ rest) = run_dpc s w dpc rest

  -- The loop; `none` is that the fuel is used up.
  unfoldable pub drain : ℕ → Interrupts → W → Option (Interrupts × W)
  drain zero s w = none
  drain (suc fuel) s w =
      let (s', w') = run_head s w s.dpc_queue in
      let later = drain fuel s' w' in if is_empty s.dpc_queue then some (s, w) else later

  abbrev finished : Option (Interrupts × W) → Option (Interrupts × W)
  finished none = none
  finished (some (s, w)) = some (record s { dpc_processing = false }, w)

  -- KeProcessDpcQueue
  unfoldable pub process_dpc_queue : ℕ → Interrupts → W → Option (Interrupts × W)
  process_dpc_queue fuel s w = finished (drain fuel (record s { dpc_processing = true }) w)

  -- KeInterruptHandler up to the acknowledgement; `run` is what a handler does.
  abbrev service : (ℕ → ℕ → Interrupts → W → Interrupts × W) → Interrupts → W → ℕ → Interrupts × W
  service run s w vector =
      let counted = record s {
        total_interrupts = inc32 s.total_interrupts;
        interrupt_counts = put s.interrupt_counts vector (inc32 (s.interrupt_counts vector));
        nesting_level = inc32 s.nesting_level;
      } in
      if handler_of s vector == 0
      then (record counted { total_spurious_interrupts = inc32 s.total_spurious_interrupts }, w)
      else run (handler_of s vector) vector counted w

  -- KeInterruptHandler
  unfoldable pub interrupt :
      ℕ → (ℕ → ℕ → Interrupts → W → Interrupts × W) → Interrupts → W → ℕ → Option (Interrupts × W)
  interrupt fuel run s w vector =
      let (s1, w1) = service run s w vector in
      let s2 = record s1 { nesting_level = dec32 s1.nesting_level } in
      if (s2.nesting_level == 0) && not (is_empty s2.dpc_queue)
      then process_dpc_queue fuel s2 w1
      else some (s2, w1)
