-- ===== src/Dslsfs/Format/Reserve.antt =====
-- The two loops of DslsfsInitializeFilesystemStructures that reserve blocks and inodes.
use dsls_os.Base.{
  ℕ, zero, suc, ◌+◌, ◌%◌, ◌≤◌, ◌<◌, ◌≡◌, refl, ◌∙◌, arith, true, false, ◌&&◌, leb, ltb,
  if◌then◌else◌, ulong_mod, dec32, ==→eq,
}
use dsls_os.Dslsfs.Bitmap.{Bitmap, set_bit, test_bit}
use dsls_os.Dslsfs.Bitmap.Laws.{IsSized, test_bit-set_bit, total_bits-set_bit, set_bit-IsSized}
use dsls_os.Dslsfs.Count.{clear_bits, clear_bits-set_bit}
use dsls_os.Dslsfs.Volume.{Volume, with_free_blocks, with_free_inodes}
use dsls_os.Dslsfs.Format.{reserve_blocks, reserve_inodes}

-- `b'` is `b` with the clear bits `i`, `i + 1`, … (`left` of them) set, and `n'` is `n` after as
-- many decrements.
pub record Reserved (i left : ℕ) (b b' : Bitmap) (n n' : ℕ) : Type 0 where
  pub sized : IsSized b'
  pub total : b'.total_bits ≡ b.total_bits
  pub bits : (j : ℕ) → test_bit b' j ≡ (if leb i j && ltb j (i + left) then true else test_bit b j)
  pub fewer : clear_bits b' + left ≡ clear_bits b
  pub count : (n' + left) % ulong_mod ≡ n % ulong_mod

abbrev ClearFrom : Bitmap → ℕ → Type 0
ClearFrom b i = (j : ℕ) → i ≤ j → test_bit b j ≡ false

Reserved-zero : (i : ℕ) (b : Bitmap) (n : ℕ) → IsSized b → Reserved i 0 b b n n
Reserved-zero i b n sized = record {
  sized = sized;
  total = refl;
  bits = λ j. ground arith;
  fewer = omega arith;
  count = omega arith;
}

Reserved-suc :
    (i left : ℕ) (b b' : Bitmap) (n n' : ℕ)
    → IsSized b
    → i < b.total_bits
    → ClearFrom b i
    → Reserved (i + 1) left (set_bit b i) b' (dec32 n) n'
    → Reserved i (suc left) b b' n n'
Reserved-suc i left b b' n n' sized h clear r = record {
  sized = r.sized;
  total = r.total ∙ total_bits-set_bit b i;
  bits = λ j. ground (arith, r.bits j, test_bit-set_bit b i j sized h, ==→eq i j);
  fewer = ground (arith, r.fewer, clear_bits-set_bit b i sized h, clear i);
  count = omega (arith, r.count);
}

still_clear :
    (b : Bitmap) (i : ℕ)
    → IsSized b
    → i < b.total_bits
    → ClearFrom b i
    → ClearFrom (set_bit b i) (i + 1)
still_clear b i sized h clear j p = ground (arith, clear j, test_bit-set_bit b i j sized h)

pub reserve_blocks-Reserved :
    (left i : ℕ) (v : Volume)
    → IsSized v.block_bitmap
    → i + left ≤ v.block_bitmap.total_bits
    → ClearFrom v.block_bitmap i
    → let v' = reserve_blocks left i v in
      Reserved i left v.block_bitmap v'.block_bitmap v.superblock.free_blocks
        v'.superblock.free_blocks
      × (v'.inode_bitmap ≡ v.inode_bitmap)
      × (v'.superblock.free_inodes ≡ v.superblock.free_inodes)
      × (v'.inodes ≡ v.inodes)
unfolding reserve_blocks
reserve_blocks-Reserved zero i v sized h clear =
    (Reserved-zero i v.block_bitmap _ sized, refl, refl, refl)
reserve_blocks-Reserved (suc left) i v sized h clear =
    let inside : i < v.block_bitmap.total_bits = omega arith in
    let (r, e, f, g) =
      reserve_blocks-Reserved left (i + 1)
        (with_free_blocks (record v { block_bitmap = set_bit v.block_bitmap i })
          (dec32 v.superblock.free_blocks))
        (set_bit-IsSized v.block_bitmap i sized)
        (omega (arith, total_bits-set_bit v.block_bitmap i))
        (still_clear v.block_bitmap i sized inside clear) in
    (Reserved-suc i left _ _ _ _ sized inside clear r, e, f, g)

pub reserve_inodes-Reserved :
    (left i : ℕ) (v : Volume)
    → IsSized v.inode_bitmap
    → i + left ≤ v.inode_bitmap.total_bits
    → ClearFrom v.inode_bitmap i
    → let v' = reserve_inodes left i v in
      Reserved i left v.inode_bitmap v'.inode_bitmap v.superblock.free_inodes
        v'.superblock.free_inodes
      × (v'.block_bitmap ≡ v.block_bitmap)
      × (v'.superblock.free_blocks ≡ v.superblock.free_blocks)
      × (v'.inodes ≡ v.inodes)
unfolding reserve_inodes
reserve_inodes-Reserved zero i v sized h clear =
    (Reserved-zero i v.inode_bitmap _ sized, refl, refl, refl)
reserve_inodes-Reserved (suc left) i v sized h clear =
    let inside : i < v.inode_bitmap.total_bits = omega arith in
    let (r, e, f, g) =
      reserve_inodes-Reserved left (i + 1)
        (with_free_inodes (record v { inode_bitmap = set_bit v.inode_bitmap i })
          (dec32 v.superblock.free_inodes))
        (set_bit-IsSized v.inode_bitmap i sized)
        (omega (arith, total_bits-set_bit v.inode_bitmap i))
        (still_clear v.inode_bitmap i sized inside clear) in
    (Reserved-suc i left _ _ _ _ sized inside clear r, e, f, g)
