-- ===== src/Drivers/Unloading.antt =====
-- What DiUnloadAllDrivers of kernel/src/driver_interface.c does.
use dsls_os.Base.{
  ℕ, suc, ◌+◌, ◌-◌, ◌≡◌, refl, sym, ap, ◌∙◌, arith, not, List, [], ◌∷◌, ◌==◌, if◌then◌else◌, dec32,
  length, map, Bool-cases, inl, inr,
}
use dsls_os.Base.Search.{total, filter}
use dsls_os.Drivers.{DriverEntry, Drivers, driver_blocks}
use dsls_os.Drivers.Loading.{unload_entries, unload_all_drivers}
use dsls_os.Drivers.Steps.{IsOwned}

-- The unload routines of entries, without NULL.
abbrev pub routines : List DriverEntry → List ℕ
routines es = filter (λ u. not (u == 0)) (map (λ (e : DriverEntry). e.driver_unload) es)

-- The routines of the drivers of `s` were called, in the order of the list; the list of drivers is empty
-- and the rest is kept.
pub record Unloaded (s : Drivers) (r : List ℕ × Drivers) : Type 0 where
  pub called : r.0 ≡ routines s.driver_entries
  pub none_left : r.1.driver_entries ≡ []
  pub services_kept : r.1.services ≡ s.services
  pub rules_kept : r.1.rules ≡ s.rules
  pub owned : IsOwned r.1

-- The state after one entry was taken out and freed.
abbrev without : DriverEntry → List DriverEntry → Drivers → Drivers
without e es s = record s {
  driver_entries = es;
  driver_entry_count = dec32 s.driver_entry_count;
  blocks = s.blocks - driver_blocks e;
}

without-IsOwned :
    (e : DriverEntry) (es : List DriverEntry) (s : Drivers)
    → s.driver_entries ≡ e ∷ es
    → IsOwned s
    → IsOwned (without e es s)
unfolding total
without-IsOwned e es s same q =
    let sizes : length s.driver_entries ≡ suc (length es) = ap length same in
    let sums : total driver_blocks s.driver_entries ≡ driver_blocks e + total driver_blocks es =
      ap (total driver_blocks) same in
    record {
      ready = q.ready;
      entries = omega (arith, q.entries, sizes);
      services = q.services;
      rules = q.rules;
      owned = omega (arith, q.owned, sums);
      agreed = q.agreed;
    }

called_first :
    (e : DriverEntry) (es : List DriverEntry) (calls : List ℕ)
    → calls ≡ routines es
    → (if e.driver_unload == 0 then calls else e.driver_unload ∷ calls) ≡ routines (e ∷ es)
unfolding filter
called_first e es calls same = elim (Bool-cases (e.driver_unload == 0)) [
  | inl h ↦ rw h same
  | inr h ↦ rw h (ap (λ (us : List ℕ). e.driver_unload ∷ us) same)
]

unload_entries-Unloaded :
    (es : List DriverEntry) (s : Drivers)
    → s.driver_entries ≡ es
    → IsOwned s
    → Unloaded s (unload_entries es s)
unfolding unload_entries filter
unload_entries-Unloaded [] s same q = record {
  called = sym (ap routines same);
  none_left = same;
  services_kept = refl;
  rules_kept = refl;
  owned = q;
}
unload_entries-Unloaded (e ∷ es) s same q =
    let u = unload_entries-Unloaded es (without e es s) refl (without-IsOwned e es s same q) in
    record {
      called = called_first e es _ u.called ∙ sym (ap routines same);
      none_left = u.none_left;
      services_kept = u.services_kept;
      rules_kept = u.rules_kept;
      owned = u.owned;
    }

-- In a state whose counts and blocks are in order, DiUnloadAllDrivers ends, after it has called the
-- unload routines of the drivers, those that are not NULL, in the order of the list. Then no
-- driver is left, services and rules are as before, and counts and blocks are in order again: the
-- blocks of the drivers are freed.
pub unload_all_drivers-Unloaded : (s : Drivers) → IsOwned s → Unloaded s (unload_all_drivers s)
unfolding unload_all_drivers
unload_all_drivers-Unloaded s q =
    let u = unload_entries-Unloaded s.driver_entries s refl q in
    record {
      called = u.called;
      none_left = u.none_left;
      services_kept = u.services_kept;
      rules_kept = u.rules_kept;
      owned = record {
        ready = u.owned.ready;
        entries = u.owned.entries;
        services = u.owned.services;
        rules = u.owned.rules;
        owned = u.owned.owned;
        agreed = u.owned.agreed;
      };
    }
