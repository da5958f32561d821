-- ===== src/Syscalls.antt =====
-- kernel/src/system_calls.c: the table of system calls, its registration and its dispatcher.
-- A handler's parameters are a value of the caller's type `P`; what a handler does to the rest of
-- the kernel is the argument `call`. The lock is left out: each function runs alone under it.
pub mod Startup
pub mod Dispatch
mod Tests
use dsls_os.Base.{
  ℕ, ◌+◌, ◌<◌, Bool, true, false, ◌&&◌, Option, none, some, List, [], ◌∷◌, ltb, leb, ◌==◌,
  if◌then◌else◌, get_or, set, replicate, Status, success, invalid_parameter, object_name_collision,
  invalid_system_service, buffer_too_small, nt_success, inc32,
}

-- The static functions that KeInitializeSystemCalls registers.
pub data Handler : Type 0 where
  process_create process_terminate memory_allocate memory_free : Handler
  ipc_send ipc_receive device_ioctl : Handler
  thread_create thread_terminate thread_suspend thread_resume : Handler

-- SYSCALL_ENTRY; a NULL handler is `none`.
pub record SyscallEntry : Type 0 where
  pub system_call_number : ℕ
  pub handler : Option Handler
  pub parameter_size : ℕ
  pub flags : ℕ

-- SYSCALL_STATE
pub record SyscallState : Type 0 where
  pub initialized : Bool
  pub system_call_table : List SyscallEntry
  pub syscall_count : ℕ
  pub total_syscalls : ℕ

abbrev pub syscall_max : ℕ
syscall_max = 11

abbrev pub empty_entry : SyscallEntry
empty_entry = record { system_call_number = 0; handler = none; parameter_size = 0; flags = 0 }

-- The zeroed `g_SyscallState`.
abbrev pub zero_state : SyscallState
zero_state = record {
  initialized = false;
  system_call_table = replicate syscall_max empty_entry;
  syscall_count = 0;
  total_syscalls = 0;
}

abbrev pub entry_at : SyscallState → ℕ → SyscallEntry
entry_at s n = get_or s.system_call_table n empty_entry

abbrev is_none {ℓ} : {A : Type ℓ} → Option A → Bool
is_none none = true
is_none (some a) = false

-- KeRegisterSyscallHandler once its two tests are passed.
abbrev install : SyscallState → ℕ → Option Handler → ℕ → ℕ → SyscallState
install s number handler size flags = record s {
  system_call_table = set s.system_call_table number (record {
    system_call_number = number;
    handler = handler;
    parameter_size = size;
    flags = flags;
  });
  syscall_count = inc32 s.syscall_count;
}

-- KeRegisterSyscallHandler
pub register : SyscallState → ℕ → Option Handler → ℕ → ℕ → Status × SyscallState
register s number handler size flags =
    if leb syscall_max number
    then (invalid_parameter, s)
    else if is_none handler
    then (invalid_parameter, s)
    else if is_none (entry_at s number).handler
    then (success, install s number handler size flags)
    else (object_name_collision, s)

-- The calls of KeRegisterSyscallHandler in KeInitializeSystemCalls, in order: the SYSCALL_ number,
-- the handler, and whether the parameter size is that of a structure (or 0).
abbrev pub registrations : List (ℕ × Handler × Bool)
registrations =
    (1, process_create, true)
    ∷ (2, process_terminate, true)
    ∷ (3, memory_allocate, true)
    ∷ (4, memory_free, true)
    ∷ (5, ipc_send, true)
    ∷ (6, ipc_receive, true)
    ∷ (7, device_ioctl, true)
    ∷ (8, thread_create, true)
    ∷ (9, thread_terminate, true)
    ∷ (10, thread_suspend, false)
    ∷ (11, thread_resume, false)
    ∷ []

-- `sizeof` of a handler's parameter structure depends on the compiler.
module _ (size_of : Handler → ℕ) where
  -- `if (!NT_SUCCESS(status)) return status;` after each call; the last sets Initialized.
  pub register_all : List (ℕ × Handler × Bool) → SyscallState → Status × SyscallState
  register_all [] s = (success, record s { initialized = true })
  register_all ((number, handler, sized) ∷ rest) s =
      let r = register s number (some handler) (if sized then size_of handler else 0) 0 in
      let later = register_all rest r.1 in if nt_success r.0 then later else r

  -- KeInitializeSystemCalls
  pub initialize : SyscallState → Status × SyscallState
  unfolding register_all
  initialize s =
      if s.initialized
      then (success, s)
      else register_all registrations (record s { syscall_count = 0; total_syscalls = 0 })

module _ {P W : Type 0} (call : Handler → P → ℕ → W → Status × W) where
  -- The part of KeDispatchSystemCall that follows the look-up in the table. `w` is the rest of
  -- the kernel's state.
  abbrev run_entry : SyscallEntry → P → ℕ → SyscallState → W → Status × SyscallState × W
  run_entry entry parameters length s w = elim entry.handler [
    | none ↦ (invalid_system_service, s, w)
    | some handler ↦
        if ltb 0 entry.parameter_size && ltb length entry.parameter_size
        then (buffer_too_small, s, w)
        else (let (status, w') = call handler parameters length w in
            (status, record s { total_syscalls = inc32 s.total_syscalls }, w'))
  ]

  -- KeDispatchSystemCall; NULL parameters are `none`.
  pub dispatch : SyscallState → W → ℕ → Option P → ℕ → Status × SyscallState × W
  dispatch s w number none length = (invalid_parameter, s, w)
  dispatch s w number (some parameters) length =
      if leb syscall_max number
      then (invalid_parameter, s, w)
      else run_entry (entry_at s number) parameters length s w

-- KeGetSyscallStatistics: what goes through the two pointers.
pub get_statistics : SyscallState → ℕ × ℕ
get_statistics s = (s.total_syscalls, s.syscall_count)
