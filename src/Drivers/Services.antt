-- ===== src/Drivers/Services.antt =====
-- The services of kernel/src/driver_interface.c: DiRegisterService, DiUnregisterService, DiFindService
-- and DiGetServicesByType.
use dsls_os.Base.{
  ℕ, zero, suc, ◌+◌, ◌-◌, ◌<◌, ◌≡◌, refl, ap, ◌∙◌, arith, Bool, true, false, not, Option, none,
  some, List, [], ◌∷◌, ◌++◌, ◌==◌, if◌then◌else◌, Status, success, invalid_parameter,
  insufficient_resources, not_found, inc32, dec32, dec32-inc32, ulong_mod, Bool-cases, inl, inr,
}
use dsls_os.Drivers.Names.{Name, same_name, same_name_refl}
use dsls_os.Base.Search.{find_first, take_first, take, filter}
use dsls_os.Drivers.{
  ServiceType, device, file_system, network, storage, display, input, print, maximum_service,
  Service, stopped, Drivers, copy, held,
}

-- The blocks of a service: itself, and its strings.
abbrev pub service_blocks : Service → ℕ
service_blocks e = 2 + held e.service_description

abbrev pub new_service : (ℕ → Bool) → Name → Option Name → ServiceType → ℕ → ℕ → Service
new_service pool name description type driver context = record {
  service_name = name;
  service_description = copy (pool 2) description;
  service_type = type;
  service_state = stopped;
  service_flags = 0;
  driver_object = driver;
  service_context = context;
}

abbrev pub add_service : Drivers → Service → Drivers
add_service s e = record s {
  services = s.services ++ e ∷ [];
  service_count = inc32 s.service_count;
  statistics = record s.statistics {
    total_services_registered = inc32 s.statistics.total_services_registered;
  };
  blocks = s.blocks + service_blocks e;
}

-- DiRegisterService. The pool is asked for the service, the name and the description, under the
-- numbers 0 to 2.
unfoldable pub register_service :
    Drivers → (ℕ → Bool) → Option Name → Option Name → ServiceType → ℕ → ℕ → Status × Drivers
register_service s pool none description type driver context = (invalid_parameter, s)
register_service s pool (some name) description type driver context =
    if driver == 0
    then (invalid_parameter, s)
    else if not (pool 0)
    then (insufficient_resources, s)
    else if not (pool 1)
    then (insufficient_resources, record s { blocks = s.blocks + 1 - 1 })
    else (success, add_service s (new_service pool name description type driver context))

abbrev pub has_service_name : Name → Service → Bool
has_service_name name e = same_name e.service_name name

abbrev pub remove_service : Drivers → Option (Service × List Service) → Status × Drivers
remove_service s none = (not_found, s)
remove_service s (some (e, rest)) = (
  success,
  record s {
    services = rest;
    service_count = dec32 s.service_count;
    blocks = s.blocks - service_blocks e;
  },
)

-- DiUnregisterService
unfoldable pub unregister_service : Drivers → Option Name → Status × Drivers
unregister_service s none = (invalid_parameter, s)
unregister_service s (some name) = remove_service s (take_first (has_service_name name) s.services)

-- DiFindService
unfoldable pub find_service : Drivers → Option Name → Option Service
find_service s none = none
find_service s (some name) = find_first (has_service_name name) s.services

-- `a == b` on SERVICE_TYPE
abbrev pub type_number : ServiceType → ℕ
type_number device = 0
type_number file_system = 1
type_number network = 2
type_number storage = 3
type_number display = 4
type_number input = 5
type_number print = 6
type_number maximum_service = 7

abbrev pub has_type : ServiceType → Service → Bool
has_type type e = type_number e.service_type == type_number type

-- The loop of DiGetServicesByType, with `room` places left in the array.
unfoldable pub collect : ServiceType → List Service → ℕ → List Service
collect type [] room = []
collect type (e ∷ es) zero = []
collect type (e ∷ es) (suc room) =
    let taken = collect type es room in
    let passed = collect type es (suc room) in if has_type type e then e ∷ taken else passed

-- DiGetServicesByType, for an array of `size` places that is not NULL: what it fills in; the count is
-- the length of that.
unfoldable pub get_services_by_type : Drivers → ServiceType → ℕ → List Service
get_services_by_type s type size = collect type s.services size

collect-take-filter :
    (type : ServiceType) (es : List Service) (room : ℕ)
    → collect type es room ≡ take room (filter (has_type type) es)
unfolding collect take filter
collect-take-filter type [] zero = refl
collect-take-filter type [] (suc room) = refl
collect-take-filter type (e ∷ es) zero = refl
collect-take-filter type (e ∷ es) (suc room) = elim (Bool-cases (has_type type e)) [
  | inl h ↦ rw h (ap (λ (xs : List Service). e ∷ xs) (collect-take-filter type es room))
  | inr h ↦ rw h (collect-take-filter type es (suc room))
]

passed :
    (p : Service → Bool) (x : Service) (es : List Service)
    → p x ≡ false
    → find_first p es ≡ find_first p (x ∷ es)
unfolding find_first
passed p x es y = rw y refl

found_append :
    (p : Service → Bool) (es : List Service) (e : Service)
    → find_first p es ≡ none
    → p e ≡ true
    → find_first p (es ++ e ∷ []) ≡ some e
unfolding find_first
found_append p [] e absent h = rw h refl
found_append p (x ∷ es) e absent h = elim (Bool-cases (p x)) [
  | inl y ↦ let hit : find_first p (x ∷ es) ≡ some x = rw y refl in absurd cc
  | inr y ↦ rw y (found_append p es e (passed p x es y ∙ absent) h)
]

absent_append :
    (p : Service → Bool) (es : List Service) (e : Service)
    → find_first p es ≡ none
    → p e ≡ true
    → take_first p (es ++ e ∷ []) ≡ some (e, es)
unfolding find_first take_first
absent_append p [] e absent h = rw h refl
absent_append p (x ∷ es) e absent h = elim (Bool-cases (p x)) [
  | inl y ↦ let hit : find_first p (x ∷ es) ≡ some x = rw y refl in absurd cc
  | inr y ↦ rw (y, absent_append p es e (passed p x es y ∙ absent) h) refl
]

plus_minus : (n k : ℕ) → n + k - k ≡ n
plus_minus n k = omega arith

-- When no service has the name, the driver is not NULL, the pool has room for the service and its name,
-- and the count is a ULONG: DiRegisterService succeeds, DiFindService of the name then finds the new
-- service, and DiUnregisterService of it succeeds and restores the state, blocks of the pool
-- included, up to the statistics.
pub unregister_service-register_service :
    (s : Drivers) (pool : ℕ → Bool) (name : Name) (description : Option Name) (type : ServiceType)
    (driver context : ℕ)
    → find_service s (some name) ≡ none
    → (driver == 0) ≡ false
    → pool 0 ≡ true
    → pool 1 ≡ true
    → s.service_count < ulong_mod
    → let r = register_service s pool (some name) description type driver context in
      (r.0 ≡ success)
      × (find_service r.1 (some name)
          ≡ some (new_service pool name description type driver context))
      × (unregister_service r.1 (some name) ≡ (success, record s { statistics = r.1.statistics }))
unfolding register_service find_service unregister_service
unregister_service-register_service s pool name description type driver context new d a b small =
    let e = new_service pool name description type driver context in
    let named : has_service_name name e ≡ true = same_name_refl name in
    rw
      (
        d,
        a,
        b,
        found_append (has_service_name name) s.services e new named,
        absent_append (has_service_name name) s.services e new named,
      )
      (
        refl,
        refl,
        rw (dec32-inc32 s.service_count small, plus_minus s.blocks (service_blocks e)) refl,
      )
