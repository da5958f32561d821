-- ===== src/Drivers/Loading.antt =====
-- The drivers of kernel/src/driver_interface.c after their registration: DiUnregisterDriverEntry,
-- DiLoadDriverByName and DiUnloadAllDrivers.
use dsls_os.Base.{
  ℕ, ◌-◌, Bool, not, Option, none, some, List, [], ◌∷◌, ◌==◌, if◌then◌else◌, Status, success,
  invalid_parameter, not_implemented, not_found, nt_success, inc32, dec32,
}
use dsls_os.Base.Search.{find_first, take_first, update_first}
use dsls_os.Drivers.Names.{Name, same_name}
use dsls_os.Drivers.{DriverEntry, Drivers, driver_blocks}
use Prim.Native.Nat.{bit_or}

abbrev pub has_driver_name : Name → DriverEntry → Bool
has_driver_name name e = same_name e.driver_name name

abbrev pub remove_driver : Drivers → Option (DriverEntry × List DriverEntry) → Status × Drivers
remove_driver s none = (not_found, s)
remove_driver s (some (e, rest)) = (
  success,
  record s {
    driver_entries = rest;
    driver_entry_count = dec32 s.driver_entry_count;
    blocks = s.blocks - driver_blocks e;
  },
)

-- DiUnregisterDriverEntry
unfoldable pub unregister_driver_entry : Drivers → Option Name → Status × Drivers
unregister_driver_entry s none = (invalid_parameter, s)
unregister_driver_entry s (some name) =
    remove_driver s (take_first (has_driver_name name) s.driver_entries)

-- DiFindDriverEntry
abbrev pub find_driver_entry : Drivers → Name → Option DriverEntry
find_driver_entry s name = find_first (has_driver_name name) s.driver_entries

-- DRIVER_FLAG_SIGNED is set.
abbrev pub signed : DriverEntry → DriverEntry
signed e = record e { driver_flags = bit_or e.driver_flags 1 }

-- DiValidateDriverSignature of the entry that DiFindDriverEntry found.
abbrev pub validate_driver_signature : Drivers → Name → Status × Drivers
validate_driver_signature s name = (
  success,
  record s {
    driver_entries = update_first (has_driver_name name) signed s.driver_entries;
    statistics = record s.statistics { total_validations = inc32 s.statistics.total_validations };
  },
)

-- DiCheckDriverCompatibility
abbrev pub check_driver_compatibility : Drivers → Status × Drivers
check_driver_compatibility s = (
  success,
  record s {
    statistics = record s.statistics {
      total_compatibility_checks = inc32 s.statistics.total_compatibility_checks;
    };
  },
)

-- DiLoadDriverImage of a path that is not NULL
abbrev pub load_driver_image : Name → Status
load_driver_image path = not_implemented

-- DiLoadDriverByName after the entry was found, and before the driver object is created; what follows
-- is not reached, as DiLoadDriverImage does not succeed.
abbrev pub load_found : Drivers → Name → Option DriverEntry → Status × Drivers
load_found s name none = (not_found, s)
load_found s name (some e) =
    let (validated, marked) = validate_driver_signature s name in
    let (checked, counted) = check_driver_compatibility marked in
    if not (nt_success validated)
    then (validated, marked)
    else if not (nt_success checked)
    then (checked, counted)
    else (load_driver_image e.driver_path, counted)

unfoldable pub load_driver_by_name : Drivers → Option Name → Status × Drivers
load_driver_by_name s none = (invalid_parameter, s)
load_driver_by_name s (some name) = load_found s name (find_driver_entry s name)

-- The loop of DiUnloadAllDrivers over the entries: the unload routines called, and the state.
unfoldable pub unload_entries : List DriverEntry → Drivers → List ℕ × Drivers
unload_entries [] s = ([], s)
unload_entries (e ∷ es) s =
    let (calls, after) = unload_entries es (record s {
      driver_entries = es;
      driver_entry_count = dec32 s.driver_entry_count;
      blocks = s.blocks - driver_blocks e;
    }) in
    (if e.driver_unload == 0 then calls else e.driver_unload ∷ calls, after)

-- DiUnloadAllDrivers
unfoldable pub unload_all_drivers : Drivers → List ℕ × Drivers
unload_all_drivers s =
    let (calls, after) = unload_entries s.driver_entries s in
    (
      calls,
      record after {
        statistics = record after.statistics {
          total_drivers_unloaded = inc32 after.statistics.total_drivers_unloaded;
        };
      },
    )
