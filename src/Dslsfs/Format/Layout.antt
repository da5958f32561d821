-- ===== src/Dslsfs/Format/Layout.antt =====
-- What a freshly formatted volume looks like.
use dsls_os.Base.{
  ℕ, ◌+◌, ◌-◌, ◌/◌, ◌%◌, ◌≤◌, ◌<◌, ◌≡◌, ◌∙◌, arith, false, ltb, ==→eq, ulong_mod, length,
  length-set, length-replicate,
}
use dsls_os.Dslsfs.Bitmap.{test_bit}
use dsls_os.Dslsfs.Bitmap.Laws.{IsSized, set_bit-IsSized, test_bit_zeroed, test_bit-set_bit}
use dsls_os.Dslsfs.Count.{clear_bits, clear_bits-set_bit, clear_bits_all}
use dsls_os.Dslsfs.Volume.{Volume, zero_inode}
use dsls_os.Dslsfs.Format.{
  total_blocks_of, inode_count_of, root_inode, blank, empty_bitmap, mark_root, reserve_blocks,
  reserve_inodes,
}
use dsls_os.Dslsfs.Format.Reserve.{Reserved, reserve_blocks-Reserved, reserve_inodes-Reserved}

empty_bitmap-IsSized : (bits : ℕ) → bits + 31 < ulong_mod → IsSized (empty_bitmap bits)
empty_bitmap-IsSized bits h =
    omega (arith, length-replicate {A = ℕ} ((bits + 31) % ulong_mod / 32) 0)

pub empty_bitmap_clear : (bits j : ℕ) → test_bit (empty_bitmap bits) j ≡ false
empty_bitmap_clear bits j = test_bit_zeroed _ bits _ j

-- What holds just before the root directory gets its block: the first 100 blocks are reserved and
-- counted, the first 10 inodes are reserved, and the root inode is counted once more.
pub record IsPrepared (t c : ℕ) (p : Volume) : Type 0 where
  pub blocks : Reserved 0 100 (empty_bitmap t) p.block_bitmap (t - 100) p.superblock.free_blocks
  pub inodes_sized : IsSized p.inode_bitmap
  pub inode_bits : (j : ℕ) → test_bit p.inode_bitmap j ≡ ltb j 10
  pub inodes_clear : clear_bits p.inode_bitmap + 10 ≡ c
  pub inodes_lag : (p.superblock.free_inodes + 21) % ulong_mod ≡ c
  pub table : length p.inodes ≡ c

mark_root-IsPrepared :
    (t c now : ℕ) (v : Volume)
    → 25 ≤ c
    → c < ulong_mod
    → Reserved 0 100 (empty_bitmap t) v.block_bitmap (t - 100) v.superblock.free_blocks
    → Reserved 0 10 (empty_bitmap c) v.inode_bitmap (c - 10) v.superblock.free_inodes
    → length v.inodes ≡ c
    → IsPrepared t c (mark_root v now)
mark_root-IsPrepared t c now v big small blocks r table = record {
  blocks = blocks;
  inodes_sized = set_bit-IsSized v.inode_bitmap 2 r.sized;
  inode_bits = λ j. ground (
    arith,
    r.bits j,
    r.bits 2,
    empty_bitmap_clear c j,
    test_bit-set_bit v.inode_bitmap 2 j r.sized (omega (arith, r.total)),
    ==→eq 2 j,
  );
  inodes_clear = ground (
    arith,
    r.bits 2,
    r.fewer,
    clear_bits_all (empty_bitmap c) (empty_bitmap_clear c),
    clear_bits-set_bit v.inode_bitmap 2 r.sized (omega (arith, r.total)),
  );
  inodes_lag = omega (arith, r.count);
  table = length-set v.inodes 2 (root_inode now) ∙ table;
}

reserve_inodes-IsPrepared :
    (t c now : ℕ) (v : Volume)
    → 25 ≤ c
    → c + 31 < ulong_mod
    → Reserved 0 100 (empty_bitmap t) v.block_bitmap (t - 100) v.superblock.free_blocks
    → v.inode_bitmap ≡ empty_bitmap c
    → v.superblock.free_inodes ≡ c - 10
    → length v.inodes ≡ c
    → IsPrepared t c (mark_root (reserve_inodes 10 0 v) now)
reserve_inodes-IsPrepared t c now v big small blocks e f table =
    let (r, eb, fb, g) =
      reserve_inodes-Reserved 10 0 v (rw e (empty_bitmap-IsSized c small)) (rw e (omega arith))
        (λ j _. rw e (empty_bitmap_clear c j)) in
    mark_root-IsPrepared t c now (reserve_inodes 10 0 v) big (omega arith) (rw (eb, fb) blocks)
      (rw (← e, ← f) r) (rw g table)

pub before_root-IsPrepared :
    (v : Volume) (now : ℕ)
    → 100 < total_blocks_of v
    → total_blocks_of v + 31 < ulong_mod
    → IsPrepared
        (total_blocks_of v)
        (inode_count_of v)
        (mark_root (reserve_inodes 10 0 (reserve_blocks 100 0 (blank v now))) now)
before_root-IsPrepared v now big small =
    let (r, e, f, g) =
      reserve_blocks-Reserved 100 0 (blank v now) (empty_bitmap-IsSized (total_blocks_of v) small)
        (omega arith) (λ j _. empty_bitmap_clear (total_blocks_of v) j) in
    reserve_inodes-IsPrepared (total_blocks_of v) (inode_count_of v) now
      (reserve_blocks 100 0 (blank v now)) (omega arith) (omega arith) (rw (← free) r) e
      (f ∙ omega arith) (rw g (length-replicate (inode_count_of v) zero_inode))
  where
    free : (blank v now).superblock.free_blocks ≡ total_blocks_of v - 100
    free = omega arith
