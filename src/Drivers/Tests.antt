-- ===== src/Drivers/Tests.antt =====
-- Runs of the models of kernel/src/driver_interface.c on small states, and the theorems at them.
use dsls_os.Base.{ℕ, ◌≡◌, refl, arith, Bool, false, not, ◌==◌, some, none, [], ◌∷◌, success}
use dsls_os.Drivers.Names.{Name}
use dsls_os.Base.Search.{find_first}
use dsls_os.Drivers.{kernel, storage, Statistics, Drivers, initialize, register_driver_entry}
use dsls_os.Drivers.Loading.{unload_all_drivers}
use dsls_os.Drivers.Services.{
  new_service, register_service, find_service, unregister_service,
  unregister_service-register_service,
}
use dsls_os.Drivers.Rules.{
  new_rule, Verdict, check_hardware_compatibility, check_hardware_compatibility-Verdict,
}
use dsls_os.Drivers.Steps.{Reachable, begins, goes_on, registers_driver, registers_service, IsOwned}
use dsls_os.Drivers.Ownership.{Reachable-IsOwned}
use dsls_os.Drivers.Unloading.{Unloaded, unload_all_drivers-Unloaded}

abbrev zero_statistics : Statistics
zero_statistics = record {
  total_drivers_loaded = 0;
  total_drivers_unloaded = 0;
  total_services_registered = 0;
  total_compatibility_checks = 0;
  total_validations = 0;
  failed_loads = 0;
  failed_validations = 0;
}

abbrev zero_state : Drivers
zero_state = record {
  initialized = false;
  driver_entries = [];
  driver_entry_count = 0;
  services = [];
  service_count = 0;
  rules = [];
  compatibility_count = 0;
  statistics = zero_statistics;
  max_drivers = 0;
  max_services = 0;
  max_compatibility_entries = 0;
  blocks = 0;
}

abbrev disk : Name
disk = 100 ∷ 105 ∷ 115 ∷ 107 ∷ []

-- The pool has no room for the fifth block of a call.
abbrev tight : ℕ → Bool
tight n = not (n == 4)

abbrev started : Drivers
started = (initialize zero_state).1

abbrev with_driver : Drivers
with_driver =
    (register_driver_entry started tight (some disk) (some disk) (some disk) (some disk) none kernel
      7 9).1

abbrev with_service : Drivers
with_service = (register_service with_driver tight (some disk) none storage 5 0).1

with_driver-Reachable : Reachable with_driver
with_driver-Reachable =
    goes_on started with_driver (begins zero_state refl refl)
      (registers_driver tight (some disk) (some disk) (some disk) (some disk) none kernel 7 9)

with_service-Reachable : Reachable with_service
with_service-Reachable =
    goes_on with_driver with_service with_driver-Reachable
      (registers_service tight (some disk) none storage 5 0)

-- The entry, its name, its path and its version; the service and its name.
six_blocks : with_service.blocks ≡ 6
unfolding initialize register_driver_entry register_service
six_blocks = refl

Reachable-IsOwned_example : IsOwned with_service
Reachable-IsOwned_example = Reachable-IsOwned with_service with_service-Reachable

unload_all_drivers-Unloaded_example : Unloaded with_service (unload_all_drivers with_service)
unload_all_drivers-Unloaded_example =
    unload_all_drivers-Unloaded with_service (Reachable-IsOwned with_service with_service-Reachable)

nothing_found : find_service zero_state (some disk) ≡ none
unfolding find_service find_first
nothing_found = refl

unregister_service-register_service_example :
    let r = register_service zero_state tight (some disk) none storage 5 0 in
    (r.0 ≡ success)
    × (find_service r.1 (some disk) ≡ some (new_service tight disk none storage 5 0))
    × (unregister_service r.1 (some disk)
        ≡ (success, record zero_state { statistics = r.1.statistics }))
unregister_service-register_service_example =
    unregister_service-register_service zero_state tight disk none storage 5 0 nothing_found refl
      refl refl (omega arith)

abbrev one_rule : Drivers
one_rule = record zero_state { rules = new_rule disk disk 2 4 0 ∷ []; compatibility_count = 1 }

check_hardware_compatibility-Verdict_example :
    Verdict one_rule.rules disk 3 (check_hardware_compatibility one_rule (some disk) 3)
check_hardware_compatibility-Verdict_example =
    check_hardware_compatibility-Verdict one_rule disk 3 (refl, tt)
