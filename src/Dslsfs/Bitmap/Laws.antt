-- ===== src/Dslsfs/Bitmap/Laws.antt =====
-- Setting, clearing and testing the bits of a bitmap.
use native.Mathlib.Nat.{one-le-pow}
use Prim.Native.Nat.{bit_and, bit_or}
use dsls_os.Base.{
  ℕ, ◌*◌, ◌/◌, ◌%◌, ◌^◌, ◌≤◌, ◌<◌, ◌≡◌, ◌∙◌, arith, true, false, ◌&&◌, ltb, ◌==◌, if◌then◌else◌,
  length, get_or, set, replicate, get_or-replicate, length-set, get_or-set_self, get_or-set_ne,
  Bool-cases, inl, inr, ==→eq, List, ◌-◌,
}
use dsls_os.Bits.{
  bit_at, bit_at-or, bit_at-and, bit_at-le, bit_at-pow, bit_at-mask, bit_and-pow, bit_at-zero,
}
use dsls_os.Dslsfs.Bitmap.{Bitmap, bit_mask, word_of, set_bit, clear_bit, test_bit}

-- BitmapData has a word for every bit.
abbrev pub IsSized : Bitmap → Type 0
IsSized b = b.total_bits ≤ 32 * length b.bitmap_data

abbrev bit_of : Bitmap → ℕ → ℕ
bit_of b j = bit_at (word_of b j) (j % 32)

test_bit-bit_of : (b : Bitmap) (j : ℕ) → test_bit b j ≡ (ltb j b.total_bits && (bit_of b j == 1))
unfolding test_bit
test_bit-bit_of b j =
    rw (bit_and-pow (j % 32) (word_of b j))
      (grind (arith, bit_at-le (j % 32) (word_of b j), one-le-pow (j % 32) 2))

word-set :
    (ws : List ℕ) (i j w : ℕ)
    → i < length ws
    → get_or (set ws i w) j 0 ≡ (if i == j then w else get_or ws j 0)
word-set ws i j w h = elim (Bool-cases (i == j)) [
  | inl same ↦ rw (same, ← ==→eq i j same) (get_or-set_self ws i w 0 h)
  | inr other ↦ rw other (get_or-set_ne ws i j w 0 (ground arith))
]

-- Two bit numbers are equal when their words and their places in the word are.
same_place : (i j : ℕ) → i / 32 ≡ j / 32 → i % 32 ≡ j % 32 → i ≡ j
same_place i j p q = omega arith

bit_of-set_bit :
    (b : Bitmap) (i j : ℕ)
    → IsSized b
    → i < b.total_bits
    → bit_of (set_bit b i) j ≡ (if i == j then 1 else bit_of b j)
unfolding set_bit
bit_of-set_bit b i j sized h = ground (
  arith,
  word-set b.bitmap_data (i / 32) (j / 32) (bit_or (word_of b i) (bit_mask i)) (omega arith),
  bit_at-or (j % 32) (word_of b i) (bit_mask i),
  bit_at-pow (i % 32) (j % 32),
  bit_at-le (j % 32) (word_of b i),
  same_place i j,
)

bit_of-clear_bit :
    (b : Bitmap) (i j : ℕ)
    → IsSized b
    → i < b.total_bits
    → bit_of (clear_bit b i) j ≡ (if i == j then 0 else bit_of b j)
unfolding clear_bit
bit_of-clear_bit b i j sized h = ground (
  arith,
  word-set b.bitmap_data (i / 32) (j / 32) (bit_and (word_of b i) (2 ^ 32 - 1 - bit_mask i))
      (omega arith),
  bit_at-and (j % 32) (word_of b i) (2 ^ 32 - 1 - bit_mask i),
  bit_at-mask 32 (i % 32) (j % 32) (omega arith) (omega arith),
  bit_at-le (j % 32) (word_of b i),
  same_place i j,
)

pub total_bits-set_bit : (b : Bitmap) (i : ℕ) → (set_bit b i).total_bits ≡ b.total_bits
unfolding set_bit
total_bits-set_bit b i = ground arith

pub total_bits-clear_bit : (b : Bitmap) (i : ℕ) → (clear_bit b i).total_bits ≡ b.total_bits
unfolding clear_bit
total_bits-clear_bit b i = ground arith

pub set_bit-IsSized : (b : Bitmap) (i : ℕ) → IsSized b → IsSized (set_bit b i)
unfolding set_bit
set_bit-IsSized b i h =
    ground (arith, length-set b.bitmap_data (i / 32) (bit_or (word_of b i) (bit_mask i)))

pub clear_bit-IsSized : (b : Bitmap) (i : ℕ) → IsSized b → IsSized (clear_bit b i)
unfolding clear_bit
clear_bit-IsSized b i h =
    ground
      (arith, length-set b.bitmap_data (i / 32) (bit_and (word_of b i) (2 ^ 32 - 1 - bit_mask i)))

-- In a bitmap with a word for every bit, setting a bit in range makes that bit test as set, and
-- no other bit number tests differently from before.
pub test_bit-set_bit :
    (b : Bitmap) (i j : ℕ)
    → IsSized b
    → i < b.total_bits
    → test_bit (set_bit b i) j ≡ (if i == j then true else test_bit b j)
test_bit-set_bit b i j sized h =
    rw
      (
        test_bit-bit_of (set_bit b i) j,
        test_bit-bit_of b j,
        bit_of-set_bit b i j sized h,
        total_bits-set_bit b i,
      )
      (ground arith)

-- In a bitmap with a word for every bit, clearing a bit in range makes that bit test as clear, and
-- no other bit number tests differently from before.
pub test_bit-clear_bit :
    (b : Bitmap) (i j : ℕ)
    → IsSized b
    → i < b.total_bits
    → test_bit (clear_bit b i) j ≡ (if i == j then false else test_bit b j)
test_bit-clear_bit b i j sized h =
    rw
      (
        test_bit-bit_of (clear_bit b i) j,
        test_bit-bit_of b j,
        bit_of-clear_bit b i j sized h,
        total_bits-clear_bit b i,
      )
      (ground arith)

-- A zeroed bitmap has no bit set.
pub test_bit_zeroed :
    (size bits words j : ℕ)
    → test_bit (record { bitmap_size = size; total_bits = bits; bitmap_data = replicate words 0 }) j
      ≡ false
test_bit_zeroed size bits words j =
    test_bit-bit_of _ j
    ∙ rw (get_or-replicate {A = ℕ} words (j / 32) 0, bit_at-zero (j % 32)) (ground arith)

-- Only bits in range test as set.
pub test_bit-lt : (b : Bitmap) (j : ℕ) → test_bit b j ≡ true → j < b.total_bits
test_bit-lt b j h = ground (arith, test_bit-bit_of b j)
