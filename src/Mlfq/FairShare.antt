-- ===== src/Mlfq/FairShare.antt =====
-- What KiCalculateFairShare gives the groups.
use native.Mathlib.Nat.{
  div-mul-le_self, lt-div-mul-add, add-mul, le_of_mul-le-mul_right, lt_of_mul-lt-mul_right,
}
use dsls_os.Base.{
  ℕ, suc, ◌+◌, ◌*◌, ◌/◌, ◌%◌, ◌≤◌, ◌<◌, ◌≡◌, refl, ap, ◌∙◌, arith, List, [], ◌∷◌, map, length,
  ulong_mod,
}
use dsls_os.Mlfq.{Group, Scheduler}
use dsls_os.Mlfq.Schedule.{total_weight, with_quota, calculate_fair_share}

-- The sum of the weights, and that of the quotas.
abbrev pub weights : List Group → ℕ
weights [] = 0
weights (g ∷ gs) = g.group_weight + weights gs

abbrev pub quotas : List Group → ℕ
quotas [] = 0
quotas (g ∷ gs) = g.cpu_time_quota + quotas gs

total_weight-weights :
    (gs : List Group) (total : ℕ)
    → total + weights gs < ulong_mod
    → total_weight gs total ≡ total + weights gs
unfolding total_weight
total_weight-weights [] total h = omega arith
total_weight-weights (g ∷ gs) total h =
    let whole : (total + g.group_weight) % ulong_mod ≡ total + g.group_weight = omega (arith, h) in
    rw whole (total_weight-weights gs (total + g.group_weight) (omega (arith, h)) ∙ omega arith)

module _ (total : ℕ) (positive : 0 < total) where
  quotas-le : (gs : List Group) → quotas (map (with_quota total) gs) * total ≤ 100 * weights gs
  quotas-le [] = omega arith
  quotas-le (g ∷ gs) =
      let q = 100 * g.group_weight / total in
      omega (
        arith,
        add-mul q (quotas (map (with_quota total) gs)) total,
        div-mul-le_self (100 * g.group_weight) total,
        quotas-le gs,
      )

  lt-quotas :
      (gs : List Group)
      → 100 * weights gs + length gs ≤ (quotas (map (with_quota total) gs) + length gs) * total
  lt-quotas [] = omega arith
  lt-quotas (g ∷ gs) =
      let q = 100 * g.group_weight / total in
      let rest = quotas (map (with_quota total) gs) in
      let above : 100 * g.group_weight < q * total + total = lt-div-mul-add positive in
      omega (
        arith,
        add-mul (q + 1) (rest + length gs) total,
        add-mul q 1 total,
        ap (λ n. n * total) (sums q rest (length gs)),
        above,
        lt-quotas gs,
      )
    where
      sums : (q r n : ℕ) → q + r + suc n ≡ q + 1 + (r + n)
      sums q r n = omega arith

length-map : {A B : Type 0} (f : A → B) (xs : List A) → length (map f xs) ≡ length xs
length-map f [] = refl
length-map f (x ∷ xs) = ap suc (length-map f xs)

some_group : (gs : List Group) → 0 < weights gs → 1 ≤ length gs
some_group [] h = absurd (omega arith)
some_group (g ∷ gs) h = omega arith

-- How the quotas share out 100.
pub record IsShared (gs : List Group) : Type 0 where
  pub at_most : quotas gs ≤ 100
  pub nearly_all : 100 < quotas gs + length gs

-- KiCalculateFairShare shares out the processor time: when the weights of the groups have a sum
-- above 0 that fits in a ULONG, the quotas have a sum of at most 100, and less than one is lost by
-- rounding for each group.
pub calculate_fair_share-IsShared :
    (s : Scheduler)
    → 0 < weights s.groups
    → weights s.groups < ulong_mod
    → IsShared (calculate_fair_share s).groups
unfolding calculate_fair_share
calculate_fair_share-IsShared s positive bound =
    let w = weights s.groups in
    let total : total_weight s.groups 0 ≡ w =
      total_weight-weights s.groups 0 (omega (arith, bound)) ∙ omega arith in
    rw total (record {
      at_most = le_of_mul-le-mul_right (quotas-le w positive s.groups) positive;
      nearly_all = rw (length-map (with_quota w) s.groups) (
          lt_of_mul-lt-mul_right w
            (omega (arith, lt-quotas w positive s.groups, some_group s.groups positive)));
    })
