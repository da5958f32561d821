-- ===== src/Dslsfs/Bitmap.antt =====
-- The bitmaps of a volume: DSLSFS_BITMAP, DslsfsSetBit, DslsfsClearBit, DslsfsTestBit. A bitmap is
-- the object that the C pointer names, so the pointer is never NULL: every caller passes the
-- address of a field of a volume.
pub mod Laws
use Prim.Native.Nat.{bit_and, bit_or}
use dsls_os.Base.{
  ℕ, ◌-◌, ◌/◌, ◌%◌, ◌^◌, Bool, true, false, not, List, leb, ◌==◌, if◌then◌else◌, get_or, set,
}

-- BitmapSize is in bytes; the words of BitmapData are ULONGs.
pub record Bitmap : Type 0 where
  pub bitmap_size : ℕ
  pub total_bits : ℕ
  pub bitmap_data : List ℕ

-- `1UL << bit_index`
abbrev pub bit_mask : ℕ → ℕ
bit_mask n = 2 ^ (n % 32)

-- The word that holds bit `n`: `BitmapData[block_index]`.
abbrev pub word_of : Bitmap → ℕ → ℕ
word_of b n = get_or b.bitmap_data (n / 32) 0

pub set_bit : Bitmap → ℕ → Bitmap
set_bit b n =
    if leb b.total_bits n
    then b
    else record b { bitmap_data = set b.bitmap_data (n / 32) (bit_or (word_of b n) (bit_mask n)) }

-- `~` complements 32 bits.
pub clear_bit : Bitmap → ℕ → Bitmap
clear_bit b n = if leb b.total_bits n then b else record b {
  bitmap_data = set b.bitmap_data (n / 32) (bit_and (word_of b n) (2 ^ 32 - 1 - bit_mask n));
}

unfoldable pub test_bit : Bitmap → ℕ → Bool
test_bit b n = if leb b.total_bits n then false else not (bit_and (word_of b n) (bit_mask n) == 0)
