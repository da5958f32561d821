-- ===== src/Drivers.antt =====
-- kernel/src/driver_interface.c: the lists of driver entries, services and compatibility rules.
-- A string is the list of its characters, NULL is none, and names are shorter than a USHORT counts. The
-- pool is an argument that says which allocations of a call succeed, and the blocks of the pool that are
-- in use are counted. Times are left out, and no call runs during another one.
pub mod Names
pub mod Loading
pub mod Services
pub mod Rules
pub mod Steps
pub mod Unloading
pub mod Ownership
mod Tests
use Names.{Name}
use dsls_os.Base.{
  ℕ, zero, suc, ◌+◌, ◌-◌, Bool, true, false, not, Option, none, some, List, [], ◌∷◌, ◌++◌, ◌==◌,
  if◌then◌else◌, Status, success, invalid_parameter, insufficient_resources, not_implemented,
  not_found, nt_success, inc32, dec32,
}

-- DRIVER_TYPE
pub data DriverType : Type 0 where
  kernel user boot pnp maximum : DriverType

-- DRIVER_ENTRY. A routine is named by a number.
pub record DriverEntry : Type 0 where
  pub driver_name : Name
  pub driver_path : Name
  pub driver_version : Option Name
  pub driver_description : Option Name
  pub driver_vendor : Option Name
  pub driver_signature : Option Name
  pub driver_type : DriverType
  pub driver_flags : ℕ
  pub driver_initialize : ℕ
  pub driver_unload : ℕ
  pub reference_count : ℕ

-- SERVICE_TYPE and SERVICE_STATE
pub data ServiceType : Type 0 where
  device file_system network storage display input print maximum_service : ServiceType

pub data ServiceState : Type 0 where
  stopped starting running stopping failed : ServiceState

-- SERVICE_ENTRY
pub record Service : Type 0 where
  pub service_name : Name
  pub service_description : Option Name
  pub service_type : ServiceType
  pub service_state : ServiceState
  pub service_flags : ℕ
  pub driver_object : ℕ
  pub service_context : ℕ

-- COMPATIBILITY_ENTRY
pub record Rule : Type 0 where
  pub hardware_id : Name
  pub driver : Name
  pub minimum_driver_version : ℕ
  pub maximum_driver_version : ℕ
  pub compatibility_flags : ℕ
  pub compatible : Bool

-- DRIVER_INTERFACE_STATISTICS
pub record Statistics : Type 0 where
  pub total_drivers_loaded : ℕ
  pub total_drivers_unloaded : ℕ
  pub total_services_registered : ℕ
  pub total_compatibility_checks : ℕ
  pub total_validations : ℕ
  pub failed_loads : ℕ
  pub failed_validations : ℕ

-- DRIVER_INTERFACE_STATE without the lists that no function fills; `blocks` are those of the pool that
-- these functions have allocated and not freed.
pub record Drivers : Type 0 where
  pub initialized : Bool
  pub driver_entries : List DriverEntry
  pub driver_entry_count : ℕ
  pub services : List Service
  pub service_count : ℕ
  pub rules : List Rule
  pub compatibility_count : ℕ
  pub statistics : Statistics
  pub max_drivers : ℕ
  pub max_services : ℕ
  pub max_compatibility_entries : ℕ
  pub blocks : ℕ

abbrev no_statistics : Statistics
no_statistics = record {
  total_drivers_loaded = 0;
  total_drivers_unloaded = 0;
  total_services_registered = 0;
  total_compatibility_checks = 0;
  total_validations = 0;
  failed_loads = 0;
  failed_validations = 0;
}

-- DiInitializeDriverInterface. DiLoadDriverRegistry and DiInitializeCompatibilityDatabase only answer
-- success.
unfoldable pub initialize : Drivers → Status × Drivers
initialize s = if s.initialized then (success, s) else (
  success,
  record s {
    initialized = true;
    driver_entries = [];
    driver_entry_count = 0;
    services = [];
    service_count = 0;
    rules = [];
    compatibility_count = 0;
    statistics = no_statistics;
    max_drivers = 100;
    max_services = 1000;
    max_compatibility_entries = 10000;
  },
)

-- The copy of an optional string, when the pool has room for it.
abbrev pub copy : Bool → Option Name → Option Name
copy true o = o
copy false o = none

-- The blocks of an optional string.
abbrev pub held : Option Name → ℕ
held none = 0
held (some name) = 1

-- The blocks of a driver entry: itself, and its strings.
abbrev pub driver_blocks : DriverEntry → ℕ
driver_blocks e =
    3
    + held e.driver_version
    + held e.driver_description
    + held e.driver_vendor
    + held e.driver_signature

abbrev pub add_driver : Drivers → DriverEntry → Drivers
add_driver s e = record s {
  driver_entries = s.driver_entries ++ e ∷ [];
  driver_entry_count = inc32 s.driver_entry_count;
  blocks = s.blocks + driver_blocks e;
}

abbrev pub new_driver :
    (ℕ → Bool)
    → Name
    → Name
    → Option Name
    → Option Name
    → Option Name
    → DriverType
    → ℕ
    → ℕ
    → DriverEntry
new_driver pool name path version description vendor type initialize_routine unload_routine =
    record {
      driver_name = name;
      driver_path = path;
      driver_version = copy (pool 3) version;
      driver_description = copy (pool 4) description;
      driver_vendor = copy (pool 5) vendor;
      driver_signature = none;
      driver_type = type;
      driver_flags = 0;
      driver_initialize = initialize_routine;
      driver_unload = unload_routine;
      reference_count = 1;
    }

-- DiRegisterDriverEntry. The pool is asked for the entry, the name, the path, the version, the
-- description and the vendor, under the numbers 0 to 5.
unfoldable pub register_driver_entry :
    Drivers
    → (ℕ → Bool)
    → Option Name
    → Option Name
    → Option Name
    → Option Name
    → Option Name
    → DriverType
    → ℕ
    → ℕ
    → Status × Drivers
register_driver_entry s pool (some name) (some path) version description vendor type init unload =
    if init == 0
    then (invalid_parameter, s)
    else if not (pool 0)
    then (insufficient_resources, s)
    else if not (pool 1)
    then (insufficient_resources, record s { blocks = s.blocks + 1 - 1 })
    else if not (pool 2)
    then (insufficient_resources, record s { blocks = s.blocks + 2 - 2 })
    else (
      success,
      add_driver s (new_driver pool name path version description vendor type init unload),
    )
register_driver_entry s pool _ _ version description vendor type init unload =
    (invalid_parameter, s)
