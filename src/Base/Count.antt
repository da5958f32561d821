-- ===== src/Base/Count.antt =====
-- Counting the arguments at which a test fails.
use Prim.Native.Nat.{ℕ, zero, suc, ◌+◌, ◌≤◌, ◌<◌}
use mathlib.Core.Path.{◌≡◌, refl}
use mathlib.Core.Bool.{Bool, true, false}
use native.Mathlib.Omega.{arith}
use dsls_os.Base.Tests.{◌==◌, if◌then◌else◌}

-- The arguments below `n` at which `p` is false.
unfoldable pub count_false : (ℕ → Bool) → ℕ → ℕ
count_false p zero = 0
count_false p (suc n) = count_false p n + (if p n then 0 else 1)

pub count_false-le : (p : ℕ → Bool) (n : ℕ) → count_false p n ≤ n
unfolding count_false
count_false-le p zero = omega arith
count_false-le p (suc n) = ground (arith, count_false-le p n)

module _ (p : ℕ → Bool) (i : ℕ) (b : Bool) where
  abbrev pub changed : ℕ → Bool
  changed j = if i == j then b else p j

  count_false_above : (n : ℕ) → n ≤ i → count_false changed n ≡ count_false p n
  unfolding count_false
  count_false_above zero h = refl
  count_false_above (suc n) h = ground (arith, count_false_above n (omega arith))

  pub count_false-changed :
      (n : ℕ)
      → i < n
      → count_false changed n + (if p i then 0 else 1) ≡ count_false p n + (if b then 0 else 1)
  unfolding count_false
  count_false-changed zero h = absurd (omega arith)
  count_false-changed (suc n) h = ground (arith, count_false_above n, count_false-changed n)

pub count_false_all : (p : ℕ → Bool) (n : ℕ) → ((j : ℕ) → p j ≡ false) → count_false p n ≡ n
unfolding count_false
count_false_all p zero h = refl
count_false_all p (suc n) h = ground (arith, h n, count_false_all p n h)

pub count_false_none : (p : ℕ → Bool) (n : ℕ) → ((j : ℕ) → j < n → p j ≡ true) → count_false p n ≡ 0
unfolding count_false
count_false_none p zero h = refl
count_false_none p (suc n) h =
    ground (arith, h n (omega arith), count_false_none p n (λ j q. h j (omega arith)))
