-- ===== src/Dslsfs/Format/Fresh.antt =====
-- The volume that DslsfsInitializeFilesystemStructures leaves.
use dsls_os.Base.{
  ℕ, ◌+◌, ◌%◌, ◌≤◌, ◌<◌, ◌≡◌, refl, ap, ◌∙◌, ltb, ==→eq, arith, true, false, ◌==◌, if◌then◌else◌,
  ulong_mod, get_or, set, replicate, get_or-set_self, Status, success, disk_full, ◌∷◌,
}
use dsls_os.Dslsfs.Bitmap.{set_bit, test_bit}
use dsls_os.Dslsfs.Bitmap.Laws.{total_bits-set_bit, set_bit-IsSized, test_bit-set_bit}
use dsls_os.Dslsfs.Count.{clear_bits, clear_bits-set_bit, clear_bits_all}
use dsls_os.Dslsfs.Volume.{
  Volume, Inode, zero_inode, directory, take_block, allocate_block, inode_at,
}
use dsls_os.Dslsfs.Format.{
  Pool, total_blocks_of, inode_count_of, blank, empty_bitmap, mark_root, root_with_block,
  reserve_blocks, reserve_inodes, create_root_directory, initialize_filesystem_structures,
}
use dsls_os.Dslsfs.Format.Layout.{IsPrepared, before_root-IsPrepared, empty_bitmap_clear}
use dsls_os.Dslsfs.Blocks.{IsUsable, Scan, found, full, allocate_block-Scan}
use dsls_os.Dslsfs.Accounting.{IsAccounted}

-- Every allocation of memory succeeds.
abbrev pub plenty : Pool
plenty = record {
  inode_array = true;
  block_bitmap_data = true;
  inode_bitmap_data = true;
  block_data = true;
}

-- A volume of `t` blocks and `c` inodes, freshly formatted.
pub record IsFormatted (t c : ℕ) (v : Volume) : Type 0 where
  pub usable : IsUsable v
  pub total : v.block_bitmap.total_bits ≡ t
  pub block_bits : (j : ℕ) → test_bit v.block_bitmap j ≡ ltb j 101
  pub inode_bits : (j : ℕ) → test_bit v.inode_bitmap j ≡ ltb j 10
  pub free_space : clear_bits v.block_bitmap + 101 ≡ t
  pub blocks_lag : IsAccounted 100 v
  pub free_inodes : clear_bits v.inode_bitmap + 10 ≡ c
  pub inodes_lag : (v.superblock.free_inodes + 11) % ulong_mod ≡ clear_bits v.inode_bitmap
  pub root_type : (inode_at v 2).inode_type ≡ directory
  pub root_block : (inode_at v 2).direct_blocks ≡ 100 ∷ replicate 11 0

-- The rest of DslsfsCreateRootDirectory once a block is allocated.
abbrev with_root : Volume → ℕ → ℕ × Volume → Status × Volume
with_root v now r =
    if r.0 == 0
    then (disk_full, r.1)
    else (success, record r.1 { inodes = set r.1.inodes 2 (root_with_block v now r.0) })

create_root_directory-with_root :
    (v : Volume) (now : ℕ)
    → create_root_directory v plenty now ≡ with_root v now (allocate_block (mark_root v now))
unfolding create_root_directory
create_root_directory-with_root v now = refl

-- The scan of a prepared volume stops at block 100.
first_block :
    (t c n : ℕ) (p : Volume)
    → 100 < t
    → IsPrepared t c p
    → test_bit p.block_bitmap n ≡ false
    → ((j : ℕ) → 0 ≤ j → j < n → test_bit p.block_bitmap j ≡ true)
    → n ≡ 100
first_block t c n p big h clear before =
    ground (arith, h.blocks.bits n, h.blocks.bits 100, empty_bitmap_clear t 100, before 100)

taken-IsFormatted :
    (t c now : ℕ) (v p : Volume)
    → 100 < t
    → t + 31 < ulong_mod
    → 25 ≤ c
    → IsPrepared t c p
    → IsFormatted t c (with_root v now (100, take_block p 100)).1
taken-IsFormatted t c now v p big small some_inodes h =
    let inside : 100 < p.block_bitmap.total_bits = omega (arith, h.blocks.total) in
    let clear : test_bit p.block_bitmap 100 ≡ false =
      ground (arith, h.blocks.bits 100, empty_bitmap_clear t 100) in
    let fewer : clear_bits (set_bit p.block_bitmap 100) + 101 ≡ t = ground (
      arith,
      clear,
      clear_bits-set_bit p.block_bitmap 100 h.blocks.sized inside,
      h.blocks.fewer,
      clear_bits_all (empty_bitmap t) (empty_bitmap_clear t),
    ) in
    record {
      usable = record {
        sized = set_bit-IsSized p.block_bitmap 100 h.blocks.sized;
        small = omega (arith, total_bits-set_bit p.block_bitmap 100, h.blocks.total);
        reserved =
            ground
              (arith, test_bit-set_bit p.block_bitmap 100 0 h.blocks.sized inside, h.blocks.bits 0);
      };
      total = total_bits-set_bit p.block_bitmap 100 ∙ h.blocks.total;
      block_bits = λ j. ground (
        arith,
        h.blocks.bits j,
        empty_bitmap_clear t j,
        test_bit-set_bit p.block_bitmap 100 j h.blocks.sized inside,
        ==→eq 100 j,
      );
      inode_bits = h.inode_bits;
      free_space = fewer;
      blocks_lag = record { agrees = omega (arith, h.blocks.count) };
      free_inodes = h.inodes_clear;
      inodes_lag = omega (arith, h.inodes_lag, h.inodes_clear);
      root_type = ap (λ (i : Inode). i.inode_type) root;
      root_block = ap (λ (i : Inode). i.direct_blocks) root;
    }
  where
    root :
        get_or (set p.inodes 2 (root_with_block v now 100)) 2 zero_inode ≡ root_with_block v now 100
    root =
        get_or-set_self p.inodes 2 (root_with_block v now 100) zero_inode (omega (arith, h.table))

with_root-IsFormatted :
    (t c now : ℕ) (v p : Volume) {r : ℕ × Volume}
    → 100 < t
    → t + 31 < ulong_mod
    → 25 ≤ c
    → IsPrepared t c p
    → Scan p 0 p.block_bitmap.total_bits r
    → ((with_root v now r).0 ≡ success) × IsFormatted t c (with_root v now r).1
with_root-IsFormatted t c now v p big small some_inodes h (full e all) =
    absurd (ground (arith, all 100, h.blocks.bits 100, empty_bitmap_clear t 100, h.blocks.total))
with_root-IsFormatted t c now v p big small some_inodes h (found n e clear lo hi before) =
    let at : n ≡ 100 = first_block t c n p big h clear before in
    rw (e, at) (refl, taken-IsFormatted t c now v p big small some_inodes h)

-- Formatting a volume of more than 100 blocks (and fewer than 2 ^ 32 - 31) with enough memory
-- succeeds. Exactly the bits of the blocks 0 to 100 are then set in the bitmap of blocks, and exactly
-- those of the inodes 0 to 9 in the bitmap of inodes; block 100 is the only block of the root
-- directory, and the superblock counts 100 free blocks and 11 free inodes too few.
pub initialize_filesystem_structures-IsFormatted :
    (v : Volume) (now : ℕ)
    → 100 < total_blocks_of v
    → total_blocks_of v + 31 < ulong_mod
    → ((initialize_filesystem_structures v plenty now).0 ≡ success)
      × IsFormatted
          (total_blocks_of v)
          (inode_count_of v)
          (initialize_filesystem_structures v plenty now).1
unfolding initialize_filesystem_structures
initialize_filesystem_structures-IsFormatted v now big small =
    let start : Volume = reserve_inodes 10 0 (reserve_blocks 100 0 (blank v now)) in
    rw (create_root_directory-with_root start now) (
      with_root-IsFormatted (total_blocks_of v) (inode_count_of v) now start (mark_root start now)
        big small (omega arith) (before_root-IsPrepared v now big small)
        (allocate_block-Scan (mark_root start now)))
