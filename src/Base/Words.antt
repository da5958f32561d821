-- ===== src/Base/Words.antt =====
-- include/dslos.h: the status codes, and ULONG, which is a 32-bit unsigned word.
use Prim.Native.Nat.{ℕ, ◌+◌, ◌-◌, ◌%◌, ◌^◌, ◌<◌}
use mathlib.Core.Path.{◌≡◌}
use mathlib.Core.Bool.{Bool, true, false}
use native.Mathlib.Omega.{arith}

-- The NTSTATUS values that the modelled functions return.
pub data Status : Type 0 where
  success unsuccessful invalid_parameter insufficient_resources not_implemented : Status
  object_name_collision invalid_system_service buffer_too_small invalid_handle : Status
  disk_full end_of_file media_write_protected no_more_entries object_name_not_found : Status
  not_found invalid_device_state access_denied no_such_member : Status

-- NT_SUCCESS
abbrev pub nt_success : Status → Bool
nt_success success = true
nt_success _ = false

abbrev pub ulong_mod : ℕ
ulong_mod = 2 ^ 32

-- `x++` and InterlockedIncrement on a ULONG
abbrev pub inc32 : ℕ → ℕ
inc32 n = (n + 1) % ulong_mod

-- `x--` and InterlockedDecrement on a ULONG
abbrev pub dec32 : ℕ → ℕ
dec32 n = (n + (ulong_mod - 1)) % ulong_mod

pub dec32-inc32 : (n : ℕ) → n < ulong_mod → dec32 (inc32 n) ≡ n
dec32-inc32 n h = omega arith
