-- ===== src/Syscalls/Tests.antt =====
-- The theorems on the table of system calls at concrete states.
use dsls_os.Base.{ℕ, ◌≡◌, ◌≢◌, refl, false, some, Status, success}
use dsls_os.Syscalls.{Handler, memory_free, SyscallState, zero_state, register, initialize}
use dsls_os.Syscalls.Startup.{initialize_never_succeeds}

-- The table with number 4 registered, for parameters of 16 bytes.
abbrev one_registered : SyscallState
unfolding register
one_registered = (register zero_state 4 (some memory_free) 16 0).1

-- A handler that adds its parameter to the state and succeeds.
abbrev adding : Handler → ℕ → ℕ → ℕ → Status × ℕ
adding h p length w = (success, p)

initialize_never_succeeds_example :
    ((initialize (λ h. 8) zero_state).0 ≢ success)
    × ((initialize (λ h. 8) zero_state).1.initialized ≡ false)
initialize_never_succeeds_example = initialize_never_succeeds (λ h. 8) zero_state refl
