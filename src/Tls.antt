-- ===== src/Tls.antt =====
-- kernel/src/thread_manager.c, TmAllocateTls to TmFreeTls: the slots of a thread's local storage.
-- A slot's value is a number and NULL is 0. Positions of the array out of range read as NULL and
-- writes to them are lost.
pub mod Invariant
pub mod Slots
mod Tests
use dsls_os.Base.{
  ℕ, zero, suc, ◌+◌, ◌-◌, ◌*◌, ◌/◌, Bool, true, false, Option, none, some, List, [], ◌∷◌, ◌++◌, ltb,
  leb, ◌==◌, ◌&&◌, if◌then◌else◌, get_or, set, replicate, min, max, Status, success,
  invalid_parameter, insufficient_resources, no_more_entries, nt_success, inc32,
}

abbrev pub tls_slot_size : ℕ
tls_slot_size = 8

abbrev pub tls_initial_slots : ℕ
tls_initial_slots = 64

abbrev pub tls_expansion_step : ℕ
tls_expansion_step = 16

abbrev pub tls_max_slots : ℕ
tls_max_slots = 1024

-- The fields of THREAD_CONTROL_BLOCK for the local storage; `tls_array` is `none` for NULL.
pub record Thread : Type 0 where
  pub tls_array : Option (List ℕ)
  pub tls_size : ℕ
  pub max_tls_index : ℕ
  pub last_tls_search_index : ℕ

-- The first empty slot among `left` slots from `i` on.
unfoldable pub find_empty : List ℕ → ℕ → ℕ → Option ℕ
find_empty slots zero i = none
find_empty slots (suc left) i =
    let rest = find_empty slots left (i + 1) in if get_or slots i 0 == 0 then some i else rest

-- A slot that one of the two searches has found.
abbrev pub hand_out : Thread → ℕ → Thread
hand_out t i = record t { last_tls_search_index = i + 1; max_tls_index = max t.max_tls_index i }

-- `newSlots`
abbrev pub expanded : ℕ → ℕ
expanded current = min (current + tls_expansion_step) tls_max_slots

-- The expansion at the end of TmAllocateTls; `pool` says for which sizes ExAllocatePool succeeds.
unfoldable pub expand : (ℕ → Bool) → Thread → List ℕ → ℕ → Status × Option ℕ × Thread
expand pool t slots current =
    if leb tls_max_slots current
    then (no_more_entries, none, t)
    else if pool (expanded current * tls_slot_size)
    then (
      success,
      some current,
      record {
        tls_array = some (slots ++ replicate (expanded current - current) 0);
        tls_size = expanded current * tls_slot_size;
        max_tls_index = current;
        last_tls_search_index = current + 1;
      },
    )
    else (insufficient_resources, none, t)

-- The second search of TmAllocateTls, from the start of the array.
unfoldable pub allocate_low : (ℕ → Bool) → Thread → List ℕ → Option ℕ → Status × Option ℕ × Thread
allocate_low pool t slots (some i) = (success, some i, hand_out t i)
allocate_low pool t slots none = expand pool t slots (t.tls_size / tls_slot_size)

-- TmAllocateTls on an array, given what the first search finds.
unfoldable pub allocate_high : (ℕ → Bool) → Thread → List ℕ → Option ℕ → Status × Option ℕ × Thread
allocate_high pool t slots (some i) = (success, some i, hand_out t i)
allocate_high pool t slots none =
    allocate_low pool t slots (find_empty slots t.last_tls_search_index 0)

-- TmAllocateTls from the two searches on.
unfoldable pub allocate_slot : (ℕ → Bool) → Thread → List ℕ → Status × Option ℕ × Thread
allocate_slot pool t slots = allocate_high pool t slots (
    find_empty slots (t.tls_size / tls_slot_size - t.last_tls_search_index) t.last_tls_search_index)

-- TmAllocateTls when the thread has no array yet.
abbrev pub fresh_array : Thread
fresh_array = record {
  tls_array = some (replicate tls_initial_slots 0);
  tls_size = tls_initial_slots * tls_slot_size;
  max_tls_index = 0;
  last_tls_search_index = 0;
}

unfoldable pub allocate_array : (ℕ → Bool) → Thread → Option (List ℕ) → Status × Option ℕ × Thread
allocate_array pool t (some slots) = allocate_slot pool t slots
allocate_array pool t none =
    if pool (tls_initial_slots * tls_slot_size)
    then allocate_slot pool fresh_array (replicate tls_initial_slots 0)
    else (insufficient_resources, none, record t { tls_size = tls_initial_slots * tls_slot_size })

-- TmAllocateTls of a thread and a place for the index that are not NULL: the status, the index,
-- the thread, and the count of allocations, which TmUpdateStatistics raises on each success.
unfoldable pub allocate_tls : (ℕ → Bool) → Thread → ℕ → Status × Option ℕ × Thread × ℕ
allocate_tls pool t total =
    let (status, index, after) = allocate_array pool t t.tls_array in
    (status, index, after, (if nt_success status then inc32 total else total))

-- `!Thread->TlsArray || TlsIndex > Thread->MaxTlsIndex` as an option of the array.
unfoldable pub accessible : Thread → Option (List ℕ) → ℕ → Option (List ℕ)
accessible t none i = none
accessible t (some slots) i = if ltb t.max_tls_index i then none else some slots

abbrev value_in : Option (List ℕ) → ℕ → ℕ
value_in none i = 0
value_in (some slots) i = get_or slots i 0

-- TmGetTlsValue
unfoldable pub get_tls_value : Thread → ℕ → ℕ
get_tls_value t i = value_in (accessible t t.tls_array i) i

abbrev set_in : Thread → Option (List ℕ) → ℕ → ℕ → Status × Thread
set_in t none i value = (invalid_parameter, t)
set_in t (some slots) i value = (success, record t { tls_array = some (set slots i value) })

-- TmSetTlsValue; its last test is never true, since the index was compared before.
unfoldable pub set_tls_value : Thread → ℕ → ℕ → Status × Thread
set_tls_value t i value = set_in t (accessible t t.tls_array i) i value

-- The loop of TmFreeTls that lowers MaxTlsIndex.
unfoldable pub lower_max : List ℕ → ℕ → ℕ
lower_max slots zero = 0
lower_max slots (suc n) =
    let rest = lower_max slots n in if get_or slots n 0 == 0 then rest else suc n

abbrev free_in : Thread → Option (List ℕ) → ℕ → Status × Thread
free_in t none i = (invalid_parameter, t)
free_in t (some slots) i =
    let cleared = set slots i 0 in
    (
      success,
      record t {
        tls_array = some cleared;
        max_tls_index =
            if i == t.max_tls_index then lower_max cleared t.max_tls_index else t.max_tls_index;
        last_tls_search_index = min i t.last_tls_search_index;
      },
    )

-- TmFreeTls
unfoldable pub free_tls : Thread → ℕ → Status × Thread
free_tls t i = free_in t (accessible t t.tls_array i) i
