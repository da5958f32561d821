-- ===== src/Syscalls/Startup.antt =====
-- KeInitializeSystemCalls: which table it leaves, and what it returns.
use dsls_os.Base.{
  ℕ, ◌≡◌, ◌≢◌, refl, arith, Bool, true, false, Option, some, List, [], ◌∷◌, ◌++◌, ◌∙◌,
  if◌then◌else◌, success, invalid_parameter,
}
use dsls_os.Syscalls.{
  SyscallState, Handler, process_create, process_terminate, memory_allocate, memory_free, ipc_send,
  ipc_receive, device_ioctl, thread_create, thread_terminate, thread_suspend, thread_resume,
  register, register_all, initialize,
}

-- SYSCALL_THREAD_RESUME equals SYSCALL_MAX, so its registration is refused in every state.
register_thread_resume :
    (s : SyscallState) (h : Option Handler) (size flags : ℕ)
    → register s 11 h size flags ≡ (invalid_parameter, s)
unfolding register
register_thread_resume s h size flags = refl

module _ (size_of : Handler → ℕ) where
  initialized-register :
      (s : SyscallState) (n : ℕ) (h : Option Handler) (size flags : ℕ)
      → (register s n h size flags).1.initialized ≡ s.initialized
  unfolding register
  initialized-register s n h size flags = ground arith

  refused : ℕ × Handler × Bool
  refused = (11, thread_resume, false)

  -- Registrations that end with number 11 never succeed and never set Initialized.
  register_all-refused :
      (xs : List (ℕ × Handler × Bool)) (s : SyscallState)
      → let r = register_all size_of (xs ++ refused ∷ []) s in
        (r.0 ≢ success) × (r.1.initialized ≡ s.initialized)
  unfolding register_all refused
  register_all-refused [] s = rw (register_thread_resume s (some thread_resume) 0 0) (λ e. cc, refl)
  register_all-refused ((n, h, sized) ∷ xs) s =
      let size : ℕ = if sized then size_of h else 0 in
      ground (
        arith,
        initialized-register s n (some h) size 0,
        register_all-refused xs (register s n (some h) size 0).1,
      )

  abbrev accepted : List (ℕ × Handler × Bool)
  accepted =
      (1, process_create, true)
      ∷ (2, process_terminate, true)
      ∷ (3, memory_allocate, true)
      ∷ (4, memory_free, true)
      ∷ (5, ipc_send, true)
      ∷ (6, ipc_receive, true)
      ∷ (7, device_ioctl, true)
      ∷ (8, thread_create, true)
      ∷ (9, thread_terminate, true)
      ∷ (10, thread_suspend, false)
      ∷ []

  initialize_run :
      (s : SyscallState)
      → s.initialized ≡ false
      → initialize size_of s
        ≡ register_all size_of
            (accepted ++ refused ∷ [])
            (record s { syscall_count = 0; total_syscalls = 0 })
  unfolding initialize refused
  initialize_run s h = ground arith

  -- KeInitializeSystemCalls on a state that is not initialized returns an error and leaves it not
  -- initialized, whatever the table holds: the last registration is out of range.
  pub initialize_never_succeeds :
      (s : SyscallState)
      → s.initialized ≡ false
      → ((initialize size_of s).0 ≢ success) × ((initialize size_of s).1.initialized ≡ false)
  initialize_never_succeeds s h =
      let r = register_all-refused accepted (record s { syscall_count = 0; total_syscalls = 0 }) in
      rw (initialize_run s h) (r.0, r.1 ∙ h)
