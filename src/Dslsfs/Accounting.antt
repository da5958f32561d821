-- ===== src/Dslsfs/Accounting.antt =====
-- The count of free blocks in the superblock against the clear bits of the bitmap.
use dsls_os.Base.{ℕ, ◌+◌, ◌%◌, ◌<◌, ◌≡◌, arith, false, ulong_mod, inc32, ==→eq}
use dsls_os.Dslsfs.Bitmap.{test_bit, clear_bit}
use dsls_os.Dslsfs.Bitmap.Laws.{test_bit-clear_bit, test_bit-lt, total_bits-clear_bit}
use dsls_os.Dslsfs.Count.{clear_bits, clear_bits-le, clear_bits-set_bit, clear_bits-clear_bit}
use dsls_os.Dslsfs.Volume.{Volume, allocate_block, free_block}
use dsls_os.Dslsfs.Blocks.{IsTaken, IsUsable, Scan, found, full, allocate_block-Scan}

-- The count of free blocks, and `lag` more, are the clear bits of the bitmap.
pub record IsAccounted (lag : ℕ) (v : Volume) : Type 0 where
  pub agrees : (v.superblock.free_blocks + lag) % ulong_mod ≡ clear_bits v.block_bitmap

-- On a usable volume DslsfsAllocateBlock keeps the lag of the count behind the bitmap.
pub allocate_block-IsAccounted :
    (v : Volume) (lag : ℕ) → IsUsable v → IsAccounted lag v → IsAccounted lag (allocate_block v).1
allocate_block-IsAccounted v lag u a = keep (allocate_block-Scan v)
  where
    keep : {r : ℕ × Volume} → Scan v 0 v.block_bitmap.total_bits r → IsAccounted lag r.1
    keep (full e _) = rw e a
    keep (found n e clear _ hi _) = rw e (record {
      agrees = ground (
        arith,
        a.agrees,
        clear_bits-le v.block_bitmap,
        clear_bits-set_bit v.block_bitmap n u.sized (omega arith),
      );
    })

-- On a usable volume DslsfsFreeBlock of a block that is taken keeps the lag of the count behind
-- the bitmap.
pub free_block-IsAccounted :
    (v : Volume) (lag n : ℕ)
    → IsUsable v
    → IsTaken v n
    → IsAccounted lag v
    → IsAccounted lag (free_block v n)
unfolding free_block
free_block-IsAccounted v lag n u taken a =
    let inside : n < v.block_bitmap.total_bits = test_bit-lt v.block_bitmap n taken in
    record {
      agrees = ground (
        arith,
        a.agrees,
        u.small,
        inside,
        clear_bits-le (clear_bit v.block_bitmap n),
        total_bits-clear_bit v.block_bitmap n,
        clear_bits-clear_bit v.block_bitmap n u.sized inside,
      );
    }

-- On a usable volume DslsfsFreeBlock of a block in range that is already free changes no bit, and
-- yet counts one more free block: the count then lags one block less behind the bitmap.
pub free_block_twice :
    (v : Volume) (n : ℕ)
    → IsUsable v
    → n < v.block_bitmap.total_bits
    → test_bit v.block_bitmap n ≡ false
    → ((j : ℕ) → test_bit (free_block v n).block_bitmap j ≡ test_bit v.block_bitmap j)
      × ((free_block v n).superblock.free_blocks ≡ inc32 v.superblock.free_blocks)
unfolding free_block
free_block_twice v n u h clear = (
  λ j. ground (arith, h, test_bit-clear_bit v.block_bitmap n j u.sized h, ==→eq n j),
  ground (arith, h),
)
