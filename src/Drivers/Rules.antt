-- ===== src/Drivers/Rules.antt =====
-- The compatibility rules of kernel/src/driver_interface.c: DiAddCompatibilityEntry and
-- DiCheckHardwareCompatibility.
use dsls_os.Base.{
  ℕ, zero, suc, ◌+◌, ◌-◌, ◌≤◌, ◌≡◌, refl, sym, subst, arith, Bool, true, false, not, ◌&&◌, leb,
  get_elem?, Option, none, some, List, [], ◌∷◌, ◌++◌, if◌then◌else◌, Status, success,
  invalid_parameter, insufficient_resources, not_found, inc32, Bool-cases, inl, inr,
}
use dsls_os.Drivers.Names.{Name, same_name, same_name-eq, same_name_refl}
use dsls_os.Base.Search.{find_first}
use mathlib.Core.Option.{some-injective}
use dsls_os.Drivers.{Rule, Drivers}

abbrev pub new_rule : Name → Name → ℕ → ℕ → ℕ → Rule
new_rule hardware_name driver_name minimum maximum flags = record {
  hardware_id = hardware_name;
  driver = driver_name;
  minimum_driver_version = minimum;
  maximum_driver_version = maximum;
  compatibility_flags = flags;
  compatible = true;
}

-- The blocks of a rule: itself and its two strings.
abbrev pub rule_blocks : ℕ
rule_blocks = 3

-- DiAddCompatibilityEntry. The pool is asked for the entry, the hardware and the driver, under the
-- numbers 0 to 2.
unfoldable pub add_compatibility_entry :
    Drivers → (ℕ → Bool) → Option Name → Option Name → ℕ → ℕ → ℕ → Status × Drivers
add_compatibility_entry s pool (some hardware_name) (some driver_name) minimum maximum flags =
    if not (pool 0)
    then (insufficient_resources, s)
    else if not (pool 1)
    then (insufficient_resources, record s { blocks = s.blocks + 1 - 1 })
    else if not (pool 2)
    then (insufficient_resources, record s { blocks = s.blocks + 2 - 2 })
    else (
      success,
      record s {
        rules = s.rules ++ new_rule hardware_name driver_name minimum maximum flags ∷ [];
        compatibility_count = inc32 s.compatibility_count;
        blocks = s.blocks + rule_blocks;
      },
    )
add_compatibility_entry s pool _ _ minimum maximum flags = (invalid_parameter, s)

abbrev pub fits : Name → ℕ → Rule → Bool
fits hardware_name version r =
    same_name r.hardware_id hardware_name
    && leb r.minimum_driver_version version
    && leb version r.maximum_driver_version

abbrev pub verdict : Option Rule → Status × Bool
verdict none = (not_found, false)
verdict (some r) = (success, r.compatible)

-- DiCheckHardwareCompatibility: the status and what it stores through `Compatible`, or FALSE
-- where it stores nothing.
unfoldable pub check_hardware_compatibility : Drivers → Option Name → ℕ → Status × Bool
check_hardware_compatibility s none version = (invalid_parameter, false)
check_hardware_compatibility s (some hardware_name) version =
    verdict (find_first (fits hardware_name version) s.rules)

-- The rule is for this hardware, and its range of versions contains `version`.
abbrev pub IsFor : Name → ℕ → Rule → Type 0
IsFor hardware_name version r =
    (r.hardware_id ≡ hardware_name)
    × (r.minimum_driver_version ≤ version)
    × (version ≤ r.maximum_driver_version)

abbrev pub AllCompatible : List Rule → Type 0
AllCompatible [] = Unit {0}
AllCompatible (r ∷ rs) = (r.compatible ≡ true) × AllCompatible rs

pub AllCompatible-append :
    (rs : List Rule) (r : Rule)
    → AllCompatible rs
    → r.compatible ≡ true
    → AllCompatible (rs ++ r ∷ [])
AllCompatible-append [] r a e = (e, tt)
AllCompatible-append (x ∷ rs) r a e = (a.0, AllCompatible-append rs r a.1 e)

-- The answer is success and TRUE when a rule is for the hardware and the version, and STATUS_NOT_FOUND
-- and FALSE when none is.
pub data Verdict (rs : List Rule) (hardware_name : Name) (version : ℕ)
    : Status × Bool → Type 0 where
  fitting :
      (i : ℕ) (r : Rule)
      → get_elem? rs i ≡ some r
      → IsFor hardware_name version r
      → Verdict rs hardware_name version (success, true)
  unfitting :
      ((i : ℕ) (r : Rule) → get_elem? rs i ≡ some r → ¬ IsFor hardware_name version r)
      → Verdict rs hardware_name version (not_found, false)

module _ (hardware_name : Name) (version : ℕ) where
  fits-IsFor : (r : Rule) → fits hardware_name version r ≡ true → IsFor hardware_name version r
  fits-IsFor r e = (
    same_name-eq r.hardware_id hardware_name (ground (arith, e)),
    ground (arith, e),
    ground (arith, e),
  )

  IsFor-fits : (r : Rule) → IsFor hardware_name version r → fits hardware_name version r ≡ true
  IsFor-fits r (same, lo, hi) =
      let names : same_name r.hardware_id hardware_name ≡ true =
        subst (λ n. same_name n hardware_name ≡ true) (sym same) (same_name_refl hardware_name) in
      ground (arith, names, lo, hi)

  later :
      (r : Rule) (rs : List Rule) (a : Status × Bool)
      → fits hardware_name version r ≡ false
      → Verdict rs hardware_name version a
      → Verdict (r ∷ rs) hardware_name version a
  later r rs _ e (fitting i x at for) = fitting (suc i) x at for
  later r rs _ e (unfitting nowhere) = unfitting none_fits
    where
      none_fits :
          (i : ℕ) (x : Rule) → get_elem? (r ∷ rs) i ≡ some x → ¬ IsFor hardware_name version x
      none_fits zero x at for =
          cc (IsFor-fits r (subst (IsFor hardware_name version) (sym (some-injective _ _ at)) for))
      none_fits (suc i) x at for = nowhere i x at for

  find_first-Verdict :
      (rs : List Rule)
      → AllCompatible rs
      → Verdict rs hardware_name version (verdict (find_first (fits hardware_name version) rs))
  unfolding find_first
  find_first-Verdict [] a = unfitting (λ i r at _. cc)
  find_first-Verdict (r ∷ rs) a = elim (Bool-cases (fits hardware_name version r)) [
    | inl e ↦ rw e (
        subst (λ b. Verdict (r ∷ rs) hardware_name version (success, b)) (sym a.0)
          (fitting 0 r refl (fits-IsFor r e)))
    | inr e ↦ rw e (later r rs _ e (find_first-Verdict rs a.1))
  ]

-- When every rule is marked as compatible, DiCheckHardwareCompatibility answers success and TRUE
-- when the list has a rule for the hardware whose range contains the version, and STATUS_NOT_FOUND and
-- FALSE when it has none.
pub check_hardware_compatibility-Verdict :
    (s : Drivers) (hardware_name : Name) (version : ℕ)
    → AllCompatible s.rules
    → Verdict s.rules hardware_name version
        (check_hardware_compatibility s (some hardware_name) version)
unfolding check_hardware_compatibility
check_hardware_compatibility-Verdict s hardware_name version a =
    find_first-Verdict hardware_name version s.rules a
