-- ===== src/Drivers/Steps.antt =====
-- kernel/src/driver_interface.c as a state machine, and what its operations keep.
use dsls_os.Base.{ℕ, ◌+◌, ◌*◌, ◌%◌, ◌≡◌, Bool, true, false, Option, ulong_mod, length}
use dsls_os.Drivers.Names.{Name}
use dsls_os.Base.Search.{total}
use dsls_os.Drivers.{
  DriverType, ServiceType, Drivers, initialize, driver_blocks, register_driver_entry,
}
use dsls_os.Drivers.Loading.{unregister_driver_entry, load_driver_by_name, unload_all_drivers}
use dsls_os.Drivers.Services.{service_blocks, register_service, unregister_service}
use dsls_os.Drivers.Rules.{rule_blocks, add_compatibility_entry, AllCompatible}

-- One call that changes the state.
pub data Step (s : Drivers) : Drivers → Type 0 where
  initializes : Step s (initialize s).1
  registers_driver :
      (pool : ℕ → Bool) (name path version description vendor : Option Name) (type : DriverType)
      (init unload : ℕ)
      → Step s
          (register_driver_entry s pool name path version description vendor type init unload).1
  unregisters_driver : (name : Option Name) → Step s (unregister_driver_entry s name).1
  loads : (name : Option Name) → Step s (load_driver_by_name s name).1
  unloads_all : Step s (unload_all_drivers s).1
  registers_service :
      (pool : ℕ → Bool) (name description : Option Name) (type : ServiceType) (driver context : ℕ)
      → Step s (register_service s pool name description type driver context).1
  unregisters_service : (name : Option Name) → Step s (unregister_service s name).1
  adds_rule :
      (pool : ℕ → Bool) (hardware_name driver_name : Option Name) (minimum maximum flags : ℕ)
      → Step s (add_compatibility_entry s pool hardware_name driver_name minimum maximum flags).1

-- What DiInitializeDriverInterface of a fresh state and any calls after it lead to.
pub data Reachable : Drivers → Type 0 where
  begins : (s : Drivers) → s.initialized ≡ false → s.blocks ≡ 0 → Reachable (initialize s).1
  goes_on : (s r : Drivers) → Reachable s → Step s r → Reachable r

-- The counts are the lengths of the lists, as ULONGs, and every block of the pool that was allocated
-- and not freed belongs to an entry of the lists.
pub record IsOwned (s : Drivers) : Type 0 where
  pub ready : s.initialized ≡ true
  pub entries : s.driver_entry_count ≡ length s.driver_entries % ulong_mod
  pub services : s.service_count ≡ length s.services % ulong_mod
  pub rules : s.compatibility_count ≡ length s.rules % ulong_mod
  pub owned :
      s.blocks
      ≡ total driver_blocks s.driver_entries
        + total service_blocks s.services
        + rule_blocks * length s.rules
  pub agreed : AllCompatible s.rules
