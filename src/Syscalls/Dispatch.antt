-- ===== src/Syscalls/Dispatch.antt =====
-- KeRegisterSyscallHandler and KeDispatchSystemCall together.
use dsls_os.Base.{
  ℕ, ◌<◌, ◌≡◌, ◌≢◌, arith, ◌&&◌, some, ltb, if◌then◌else◌, Status, success, object_name_collision,
  buffer_too_small, inc32, length, get_or-set_self, get_or-set_ne,
}
use dsls_os.Syscalls.{
  SyscallState, SyscallEntry, Handler, syscall_max, empty_entry, entry_at, register, dispatch,
}

-- The table has its SYSCALL_MAX entries.
abbrev pub HasTable : SyscallState → Type 0
HasTable s = length s.system_call_table ≡ syscall_max

-- What a registration that returned success did: the entry of `number`, and no other, is new.
pub register-success :
    (s s' : SyscallState) (number size flags : ℕ) (h : Handler)
    → HasTable s
    → register s number (some h) size flags ≡ (success, s')
    → (entry_at s' number ≡ record {
      system_call_number = number;
      handler = some h;
      parameter_size = size;
      flags = flags;
    })
      × ((other : ℕ) → number ≢ other → entry_at s' other ≡ entry_at s other)
      × (number < syscall_max)
unfolding register
register-success s s' number size flags h table e =
    let n : SyscallEntry = record {
      system_call_number = number;
      handler = some h;
      parameter_size = size;
      flags = flags;
    } in
    (
      ground (arith, get_or-set_self s.system_call_table number n empty_entry),
      λ other ne. ground (arith, get_or-set_ne s.system_call_table number other n empty_entry ne),
      ground arith,
    )

module _ {P W : Type 0} (call : Handler → P → ℕ → W → Status × W) where
  -- Once a handler is registered with success for a number, dispatching that number with
  -- parameters that are long enough (any length will do where the registered size is 0) runs that
  -- handler once on them, returns what it returns and counts one more call; with shorter
  -- parameters nothing runs and nothing changes. Registering the number again is refused.
  pub dispatch-register :
      (s s' : SyscallState) (number size flags : ℕ) (h : Handler) (p : P) (length : ℕ) (w : W)
      → HasTable s
      → register s number (some h) size flags ≡ (success, s')
      → (dispatch call s' w number (some p) length ≡ (
          if ltb 0 size && ltb length size then (buffer_too_small, s', w) else (
            (call h p length w).0,
            record s' { total_syscalls = inc32 s'.total_syscalls },
            (call h p length w).1,
          )))
        × ((again : Handler) (size' flags' : ℕ)
            → register s' number (some again) size' flags' ≡ (object_name_collision, s'))
  unfolding dispatch register
  dispatch-register s s' number size flags h p length w table e =
      let (new, _, inside) = register-success s s' number size flags h table e in
      (ground (arith, inside, new), λ again size' flags'. ground (arith, inside, new))
