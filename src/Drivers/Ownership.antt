-- ===== src/Drivers/Ownership.antt =====
-- What the operations of kernel/src/driver_interface.c do to the counts and to the blocks of the pool.
use dsls_os.Base.{
  ℕ, ◌+◌, ◌-◌, ◌≡◌, refl, sym, subst, arith, Bool, false, not, Option, none, some, List, [], ◌∷◌,
  ◌==◌, Status, insufficient_resources, length-append, either, otherwise, provided,
}
use dsls_os.Drivers.Names.{Name}
use dsls_os.Base.Search.{
  total, total-append, Taken, absent, taken, take_first-Taken, length-update_first,
  total-update_first,
}
use dsls_os.Drivers.{
  DriverType, DriverEntry, ServiceType, Service, Drivers, initialize, driver_blocks, add_driver,
  new_driver, register_driver_entry,
}
use dsls_os.Drivers.Loading.{
  has_driver_name, remove_driver, unregister_driver_entry, find_driver_entry, signed, load_found,
  load_driver_by_name,
}
use dsls_os.Drivers.Services.{
  service_blocks, new_service, add_service, register_service, has_service_name, remove_service,
  unregister_service,
}
use dsls_os.Drivers.Rules.{new_rule, add_compatibility_entry, AllCompatible-append}
use dsls_os.Drivers.Unloading.{unload_all_drivers-Unloaded}
use dsls_os.Drivers.Steps.{
  Step, initializes, registers_driver, unregisters_driver, loads, unloads_all, registers_service,
  unregisters_service, adds_rule, Reachable, begins, goes_on, IsOwned,
}

module _ (s : Drivers) (q : IsOwned s) where
  abbrev Kept : Status × Drivers → Type 0
  Kept r = IsOwned r.1

  same_blocks : (k : ℕ) → s.blocks + k - k ≡ s.blocks
  same_blocks k = omega arith

  freed_again : (status : Status) (k : ℕ) → Kept (status, record s { blocks = s.blocks + k - k })
  freed_again status k = subst (λ n. IsOwned (record s { blocks = n })) (sym (same_blocks k)) q

  add_driver-IsOwned : (e : DriverEntry) → IsOwned (add_driver s e)
  add_driver-IsOwned e = record {
    ready = q.ready;
    entries = omega (arith, q.entries, length-append s.driver_entries (e ∷ []));
    services = q.services;
    rules = q.rules;
    owned = omega (arith, q.owned, total-append driver_blocks s.driver_entries e);
    agreed = q.agreed;
  }

  register_driver_entry-IsOwned :
      (pool : ℕ → Bool) (name path version description vendor : Option Name) (type : DriverType)
      (init unload : ℕ)
      → Kept (register_driver_entry s pool name path version description vendor type init unload)
  unfolding register_driver_entry
  register_driver_entry-IsOwned pool none path v d m type init unload = q
  register_driver_entry-IsOwned pool (some name) none v d m type init unload = q
  register_driver_entry-IsOwned pool (some name) (some path) v d m type init unload =
      either Kept (init == 0) _ _ q (
        either Kept (not (pool 0)) _ _ q (
          either Kept (not (pool 1)) _ _ (freed_again insufficient_resources 1) (
            either Kept (not (pool 2)) _ _ (freed_again insufficient_resources 2)
              (add_driver-IsOwned (new_driver pool name path v d m type init unload)))))

  remove_driver-IsOwned :
      (p : DriverEntry → Bool) (o : Option (DriverEntry × List DriverEntry))
      → Taken p s.driver_entries o
      → Kept (remove_driver s o)
  remove_driver-IsOwned p _ (absent _) = q
  remove_driver-IsOwned p _ (taken e rest _ l sums) = record {
    ready = q.ready;
    entries = omega (arith, q.entries, l);
    services = q.services;
    rules = q.rules;
    owned = omega (arith, q.owned, sums driver_blocks);
    agreed = q.agreed;
  }

  unregister_driver_entry-IsOwned : (name : Option Name) → Kept (unregister_driver_entry s name)
  unfolding unregister_driver_entry
  unregister_driver_entry-IsOwned none = q
  unregister_driver_entry-IsOwned (some name) =
      remove_driver-IsOwned (has_driver_name name) _
        (take_first-Taken (has_driver_name name) s.driver_entries)

  load_found-IsOwned : (name : Name) (o : Option DriverEntry) → Kept (load_found s name o)
  load_found-IsOwned name none = q
  load_found-IsOwned name (some e) = record {
    ready = q.ready;
    entries =
        omega
          (arith, q.entries, length-update_first (has_driver_name name) signed s.driver_entries);
    services = q.services;
    rules = q.rules;
    owned = omega (
      arith,
      q.owned,
      total-update_first (has_driver_name name) driver_blocks signed s.driver_entries (λ x. refl),
    );
    agreed = q.agreed;
  }

  load_driver_by_name-IsOwned : (name : Option Name) → Kept (load_driver_by_name s name)
  unfolding load_driver_by_name
  load_driver_by_name-IsOwned none = q
  load_driver_by_name-IsOwned (some name) = load_found-IsOwned name (find_driver_entry s name)

  add_service-IsOwned : (e : Service) → IsOwned (add_service s e)
  add_service-IsOwned e = record {
    ready = q.ready;
    entries = q.entries;
    services = omega (arith, q.services, length-append s.services (e ∷ []));
    rules = q.rules;
    owned = omega (arith, q.owned, total-append service_blocks s.services e);
    agreed = q.agreed;
  }

  register_service-IsOwned :
      (pool : ℕ → Bool) (name description : Option Name) (type : ServiceType) (driver context : ℕ)
      → Kept (register_service s pool name description type driver context)
  unfolding register_service
  register_service-IsOwned pool none d type driver context = q
  register_service-IsOwned pool (some name) d type driver context =
      either Kept (driver == 0) _ _ q (
        either Kept (not (pool 0)) _ _ q (
          either Kept (not (pool 1)) _ _ (freed_again insufficient_resources 1)
            (add_service-IsOwned (new_service pool name d type driver context))))

  remove_service-IsOwned :
      (p : Service → Bool) (o : Option (Service × List Service))
      → Taken p s.services o
      → Kept (remove_service s o)
  remove_service-IsOwned p _ (absent _) = q
  remove_service-IsOwned p _ (taken e rest _ l sums) = record {
    ready = q.ready;
    entries = q.entries;
    services = omega (arith, q.services, l);
    rules = q.rules;
    owned = omega (arith, q.owned, sums service_blocks);
    agreed = q.agreed;
  }

  unregister_service-IsOwned : (name : Option Name) → Kept (unregister_service s name)
  unfolding unregister_service
  unregister_service-IsOwned none = q
  unregister_service-IsOwned (some name) =
      remove_service-IsOwned (has_service_name name) _
        (take_first-Taken (has_service_name name) s.services)

  add_compatibility_entry-IsOwned :
      (pool : ℕ → Bool) (hardware_name driver_name : Option Name) (minimum maximum flags : ℕ)
      → Kept (add_compatibility_entry s pool hardware_name driver_name minimum maximum flags)
  unfolding add_compatibility_entry
  add_compatibility_entry-IsOwned pool none d minimum maximum flags = q
  add_compatibility_entry-IsOwned pool (some h) none minimum maximum flags = q
  add_compatibility_entry-IsOwned pool (some h) (some d) minimum maximum flags =
      either Kept (not (pool 0)) _ _ q (
        either Kept (not (pool 1)) _ _ (freed_again insufficient_resources 1) (
          either Kept (not (pool 2)) _ _ (freed_again insufficient_resources 2) (record {
            ready = q.ready;
            entries = q.entries;
            services = q.services;
            rules =
                omega
                  (arith, q.rules, length-append s.rules (new_rule h d minimum maximum flags ∷ []));
            owned =
                omega
                  (arith, q.owned, length-append s.rules (new_rule h d minimum maximum flags ∷ []));
            agreed =
                AllCompatible-append s.rules (new_rule h d minimum maximum flags) q.agreed refl;
          })))

initialize-IsOwned : (s : Drivers) → s.initialized ≡ false → s.blocks ≡ 0 → IsOwned (initialize s).1
unfolding initialize total
initialize-IsOwned s fresh unused =
    otherwise (λ (r : Status × Drivers). IsOwned r.1) s.initialized _ _ fresh
      (record {
        ready = refl;
        entries = refl;
        services = refl;
        rules = refl;
        owned = unused;
        agreed = tt;
      })

initialize_again : (s : Drivers) → IsOwned s → IsOwned (initialize s).1
unfolding initialize
initialize_again s q = provided (λ (r : Status × Drivers). IsOwned r.1) s.initialized _ _ q.ready q

Step-IsOwned : (s r : Drivers) → IsOwned s → Step s r → IsOwned r
Step-IsOwned s _ q initializes = initialize_again s q
Step-IsOwned s _ q (registers_driver pool name path v d m type init unload) =
    register_driver_entry-IsOwned s q pool name path v d m type init unload
Step-IsOwned s _ q (unregisters_driver name) = unregister_driver_entry-IsOwned s q name
Step-IsOwned s _ q (loads name) = load_driver_by_name-IsOwned s q name
Step-IsOwned s _ q unloads_all = (unload_all_drivers-Unloaded s q).owned
Step-IsOwned s _ q (registers_service pool name d type driver context) =
    register_service-IsOwned s q pool name d type driver context
Step-IsOwned s _ q (unregisters_service name) = unregister_service-IsOwned s q name
Step-IsOwned s _ q (adds_rule pool h d minimum maximum flags) =
    add_compatibility_entry-IsOwned s q pool h d minimum maximum flags

-- In every state that DiInitializeDriverInterface of a fresh state and any calls of the operations lead
-- to, whatever allocations fail: the counts of drivers, services and rules are the lengths of the
-- lists as ULONGs, every block of the pool that was allocated and not freed belongs to an entry of
-- the lists, and every rule is marked as compatible.
pub Reachable-IsOwned : (s : Drivers) → Reachable s → IsOwned s
Reachable-IsOwned _ (begins s fresh unused) = initialize-IsOwned s fresh unused
Reachable-IsOwned r (goes_on s _ before step) = Step-IsOwned s r (Reachable-IsOwned s before) step
