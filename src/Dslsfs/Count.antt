-- ===== src/Dslsfs/Count.antt =====
-- How many bits of a bitmap are clear, and what setting and clearing one bit does to that number.
use dsls_os.Base.Count.{count_false, count_false-le, count_false-changed, count_false_all}
use dsls_os.Base.{ℕ, ◌+◌, ◌≤◌, ◌<◌, ◌≡◌, fun_ext, arith, true, false, if◌then◌else◌}
use dsls_os.Dslsfs.Bitmap.{Bitmap, set_bit, clear_bit, test_bit}
use dsls_os.Dslsfs.Bitmap.Laws.{
  IsSized, test_bit-set_bit, test_bit-clear_bit, total_bits-set_bit, total_bits-clear_bit,
}

-- The number of clear bits.
unfoldable pub clear_bits : Bitmap → ℕ
clear_bits b = count_false (test_bit b) b.total_bits

pub clear_bits-le : (b : Bitmap) → clear_bits b ≤ b.total_bits
unfolding clear_bits
clear_bits-le b = count_false-le (test_bit b) b.total_bits

pub clear_bits-set_bit :
    (b : Bitmap) (i : ℕ)
    → IsSized b
    → i < b.total_bits
    → clear_bits (set_bit b i) + (if test_bit b i then 0 else 1) ≡ clear_bits b
unfolding clear_bits
clear_bits-set_bit b i sized h =
    rw
      (
        fun_ext {f = test_bit (set_bit b i)} (λ j. test_bit-set_bit b i j sized h),
        total_bits-set_bit b i,
      )
      (omega (arith, count_false-changed (test_bit b) i true b.total_bits h))

pub clear_bits-clear_bit :
    (b : Bitmap) (i : ℕ)
    → IsSized b
    → i < b.total_bits
    → clear_bits (clear_bit b i) ≡ clear_bits b + (if test_bit b i then 1 else 0)
unfolding clear_bits
clear_bits-clear_bit b i sized h =
    rw
      (
        fun_ext {f = test_bit (clear_bit b i)} (λ j. test_bit-clear_bit b i j sized h),
        total_bits-clear_bit b i,
      )
      (ground (arith, count_false-changed (test_bit b) i false b.total_bits h))

pub clear_bits_all : (b : Bitmap) → ((j : ℕ) → test_bit b j ≡ false) → clear_bits b ≡ b.total_bits
unfolding clear_bits
clear_bits_all b h = count_false_all (test_bit b) b.total_bits h
