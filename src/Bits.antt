-- ===== src/Bits.antt =====
-- The bits of a word: what `|`, `&` and `~` of one-bit masks do, in the form used by the bitmaps
-- of kernel/src/dslsfs.c.
use Prim.Native.Nat.{bit_and, bit_or, digits, bitwise, bit_and-bitwise, bit_or-bitwise}
use native.Mathlib.Nat.{pow-suc, one-le-pow, pow-le-pow_right}
use dsls_os.Base.{
  ℕ, zero, suc, ◌+◌, ◌-◌, ◌*◌, ◌/◌, ◌%◌, ◌^◌, ◌≤◌, ◌<◌, min, max, ◌≡◌, refl, ◌∙◌, arith, ◌==◌,
  if◌then◌else◌, leb, Bool-cases, ==→eq, inl, inr,
}

-- The native operations run on fuel. What they give is the same for any fuel that is at least the
-- first operand, so each is determined by the lowest digit and the rest.
module _ (above : ℕ → ℕ) (digit : ℕ → ℕ → ℕ) where
  one_more :
      (fuel x y : ℕ) → x ≤ fuel → digits above digit (suc fuel) x y ≡ digits above digit fuel x y
  one_more zero zero y enough = refl
  one_more (suc fuel) zero y enough = refl
  one_more zero (suc x) y enough = absurd (omega arith)
  one_more (suc fuel) (suc x) y enough =
      omega (arith, one_more fuel (suc x / 2) (y / 2) (omega arith))

  least_fuel : (fuel x y : ℕ) → x ≤ fuel → digits above digit fuel x y ≡ digits above digit x x y
  least_fuel zero zero y enough = refl
  least_fuel zero (suc x) y enough = absurd (omega arith)
  least_fuel (suc fuel) x y enough = elim (Bool-cases (leb x fuel)) [
    | inl less ↦ one_more fuel x y (ground arith) ∙ least_fuel fuel x y (ground arith)
    | inr same ↦ let e : suc fuel ≡ x = ground arith in rw e refl
  ]

  lowest_digit :
      (x y : ℕ)
      → 0 < x
      → bitwise above digit x y ≡ bitwise above digit (x / 2) (y / 2) * 2 + digit (x % 2) (y % 2)
  lowest_digit zero y positive = absurd (omega arith)
  lowest_digit (suc x) y positive = omega (arith, least_fuel x (suc x / 2) (y / 2) (omega arith))

or_lowest : (x y : ℕ) → bit_or x y ≡ max (x % 2) (y % 2) + 2 * bit_or (x / 2) (y / 2)
or_lowest zero y = omega (arith, bit_or-bitwise 0 y, bit_or-bitwise 0 (y / 2))
or_lowest (suc x) y =
    let rest = bit_or-bitwise (suc x / 2) (y / 2) in
    bit_or-bitwise (suc x) y
    ∙ omega (arith, lowest_digit (λ t. t) max (suc x) y (omega arith), rest)

and_lowest : (x y : ℕ) → bit_and x y ≡ min (x % 2) (y % 2) + 2 * bit_and (x / 2) (y / 2)
and_lowest zero y = omega (arith, bit_and-bitwise 0 y, bit_and-bitwise 0 (y / 2))
and_lowest (suc x) y =
    let rest = bit_and-bitwise (suc x / 2) (y / 2) in
    bit_and-bitwise (suc x) y
    ∙ omega (arith, lowest_digit (λ t. 0) min (suc x) y (omega arith), rest)

-- Bit `k` of `x`, 0 or 1.
pub bit_at : ℕ → ℕ → ℕ
bit_at x zero = x % 2
bit_at x (suc k) = bit_at (x / 2) k

pub bit_at-or : (k a b : ℕ) → bit_at (bit_or a b) k ≡ max (bit_at a k) (bit_at b k)
unfolding bit_at
bit_at-or zero a b = omega (arith, or_lowest a b)
bit_at-or (suc k) a b =
    let e : bit_or a b / 2 ≡ bit_or (a / 2) (b / 2) = omega (arith, or_lowest a b) in
    rw e (bit_at-or k (a / 2) (b / 2))

pub bit_at-and : (k a b : ℕ) → bit_at (bit_and a b) k ≡ min (bit_at a k) (bit_at b k)
unfolding bit_at
bit_at-and zero a b = omega (arith, and_lowest a b)
bit_at-and (suc k) a b =
    let e : bit_and a b / 2 ≡ bit_and (a / 2) (b / 2) = omega (arith, and_lowest a b) in
    rw e (bit_at-and k (a / 2) (b / 2))

pub bit_at-le : (k a : ℕ) → bit_at a k ≤ 1
unfolding bit_at
bit_at-le zero a = omega arith
bit_at-le (suc k) a = bit_at-le k (a / 2)

pub bit_at-zero : (k : ℕ) → bit_at 0 k ≡ 0
unfolding bit_at
bit_at-zero zero = refl
bit_at-zero (suc k) = bit_at-zero k

-- The word `1 << k` has bit `k` and no other.
pub bit_at-pow : (k j : ℕ) → bit_at (2 ^ k) j ≡ (if k == j then 1 else 0)
unfolding bit_at
bit_at-pow zero zero = refl
bit_at-pow zero (suc j) = ground (arith, bit_at-zero j)
bit_at-pow (suc k) zero = ground (arith, pow-suc 2 k)
bit_at-pow (suc k) (suc j) =
    let e : 2 ^ suc k / 2 ≡ 2 ^ k = omega (arith, pow-suc 2 k) in
    rw e (ground (arith, bit_at-pow k j))

bit_at_ones : (n j : ℕ) → j < n → bit_at (2 ^ n - 1) j ≡ 1
unfolding bit_at
bit_at_ones zero j h = absurd (omega arith)
bit_at_ones (suc n) zero h = omega (arith, pow-suc 2 n, one-le-pow n 2)
bit_at_ones (suc n) (suc j) h =
    let e : (2 ^ suc n - 1) / 2 ≡ 2 ^ n - 1 = omega (arith, pow-suc 2 n) in
    rw e (bit_at_ones n j (omega arith))

-- The word `~(1 << k)` of `n` bits has every bit but bit `k`.
pub bit_at-mask :
    (n k j : ℕ) → k < n → j < n → bit_at (2 ^ n - 1 - 2 ^ k) j ≡ (if k == j then 0 else 1)
unfolding bit_at
bit_at-mask zero k j hk hj = absurd (omega arith)
bit_at-mask (suc n) zero zero hk hj = ground (arith, pow-suc 2 n, one-le-pow n 2)
bit_at-mask (suc n) zero (suc j) hk hj =
    let e : (2 ^ suc n - 1 - 2 ^ 0) / 2 ≡ 2 ^ n - 1 = omega (arith, pow-suc 2 n) in
    rw e (ground (arith, bit_at_ones n j (omega arith)))
bit_at-mask (suc n) (suc k) zero hk hj =
    let below : 2 ^ suc k ≤ 2 ^ n =
      pow-le-pow_right {n = 2} (omega arith) {i = suc k} {j = n} (omega arith) in
    let odd : (2 ^ suc n - 1 - 2 ^ suc k) % 2 ≡ 1 =
      omega (arith, pow-suc 2 n, pow-suc 2 k, one-le-pow k 2) in
    rw odd (ground arith)
bit_at-mask (suc n) (suc k) (suc j) hk hj =
    let e : (2 ^ suc n - 1 - 2 ^ suc k) / 2 ≡ 2 ^ n - 1 - 2 ^ k =
      omega (arith, pow-suc 2 n, pow-suc 2 k) in
    rw e (ground (arith, bit_at-mask n k j (omega arith) (omega arith)))

-- No bit is left of a word under the mask 0.
and_nothing : (bound x : ℕ) → x < bound → bit_and x 0 ≡ 0
and_nothing zero x inside = absurd (omega arith)
and_nothing (suc bound) x inside = elim (Bool-cases (x == 0)) [
  | inl none_left ↦ rw (==→eq x 0 none_left) (bit_and-bitwise 0 0)
  | inr some_left ↦
      let half : bit_and (x / 2) 0 ≡ 0 = and_nothing bound (x / 2) (ground arith) in
      omega (arith, and_lowest x 0, half)
]

-- Testing a word with `& (1 << k)` reads bit `k`.
pub bit_and-pow : (k a : ℕ) → bit_and a (2 ^ k) ≡ bit_at a k * 2 ^ k
unfolding bit_at
bit_and-pow zero a = omega (arith, and_lowest a 1, and_nothing (a / 2 + 1) (a / 2) (omega arith))
bit_and-pow (suc k) a =
    let e : 2 ^ suc k / 2 ≡ 2 ^ k = omega (arith, pow-suc 2 k) in
    let step : bit_and a (2 ^ suc k) ≡ bit_and (a / 2) (2 ^ k) * 2 =
      rw (← e) (omega (arith, and_lowest a (2 ^ suc k), pow-suc 2 k)) in
    step ∙ rw (bit_and-pow k (a / 2)) (grind (arith, pow-suc 2 k))

-- `x | 0`
or_nothing : (bound x : ℕ) → x < bound → bit_or x 0 ≡ x
or_nothing zero x inside = absurd (omega arith)
or_nothing (suc bound) x inside = elim (Bool-cases (x == 0)) [
  | inl none_left ↦ rw (==→eq x 0 none_left) (bit_or-bitwise 0 0)
  | inr some_left ↦
      let half : bit_or (x / 2) 0 ≡ x / 2 = or_nothing bound (x / 2) (ground arith) in
      omega (arith, or_lowest x 0, half)
]

-- `x & ((1 << n) - 1)` of a number with `n` bits
and_ones : (n x : ℕ) → x < 2 ^ n → bit_and x (2 ^ n - 1) ≡ x
and_ones zero x h = and_nothing 1 x (omega arith) ∙ omega arith
and_ones (suc n) x h =
    let e : (2 ^ suc n - 1) / 2 ≡ 2 ^ n - 1 = omega (arith, pow-suc 2 n) in
    let rest : bit_and (x / 2) ((2 ^ suc n - 1) / 2) ≡ x / 2 =
      rw e (and_ones n (x / 2) (omega (arith, pow-suc 2 n))) in
    omega (arith, and_lowest x (2 ^ suc n - 1), rest, pow-suc 2 n, one-le-pow n 2)

-- `x | 3` of a multiple of 4
pub bit_or-three : (x : ℕ) → x % 4 ≡ 0 → bit_or x 3 ≡ x + 3
bit_or-three x h =
    let top : bit_or (x / 2 / 2) 0 ≡ x / 2 / 2 = or_nothing (x + 1) (x / 2 / 2) (omega arith) in
    omega (arith, or_lowest x 3, or_lowest (x / 2) 1, top)

-- `x & ~3` of a 64-bit word
pub bit_and-not_three : (x : ℕ) → x < 2 ^ 64 → bit_and x (2 ^ 64 - 4) ≡ x - x % 4
bit_and-not_three x h =
    let top : bit_and (x / 2 / 2) (2 ^ 62 - 1) ≡ x / 2 / 2 =
      and_ones 62 (x / 2 / 2) (omega arith) in
    omega (arith, and_lowest x (2 ^ 64 - 4), and_lowest (x / 2) (2 ^ 63 - 2), top)
