-- ===== src/Dslsfs/Tests.antt =====
-- Runs of the models of kernel/src/dslsfs.c on small volumes, and the theorems at them.
use dsls_os.Base.{
  ℕ, ◌≡◌, ◌≢◌, ◌<◌, ◌⊎◌, refl, arith, true, false, some, invalid_handle, [], ◌∷◌, success,
}
use dsls_os.Base.Count.{count_false}
use dsls_os.Dslsfs.Bitmap.{Bitmap, test_bit}
use dsls_os.Dslsfs.Bitmap.Laws.{IsSized}
use dsls_os.Dslsfs.Count.{clear_bits}
use dsls_os.Dslsfs.Volume.{
  regular, Superblock, Volume, zero_inode, allocate_inode, allocate_inode_from, free_inode,
  allocate_block, allocate_block_from, free_block,
}
use dsls_os.Dslsfs.Format.{total_blocks_of, inode_count_of, initialize_filesystem_structures}
use dsls_os.Dslsfs.Format.Fresh.{plenty, IsFormatted, initialize_filesystem_structures-IsFormatted}
use dsls_os.Dslsfs.Blocks.{
  IsTaken, IsUsable, IsFirstFit, allocate_block-IsFirstFit, free_block-allocate_block,
}
use dsls_os.Dslsfs.Files.{
  File, opened, new_file, create_file, open_file, read_file, extend_file, write_file,
}
use dsls_os.Dslsfs.Extension.{Extended, extend_file-Extended}
use dsls_os.Dslsfs.Transfer.{open_file-unusable}
use dsls_os.Dslsfs.Inodes.{InodeOutcome, allocate_inode-InodeOutcome}
use dsls_os.Dslsfs.Release.{IsReleased, free_inode-IsReleased}
use dsls_os.Dslsfs.Accounting.{IsAccounted}

-- 12 bits, of which 0 and 1 are set
abbrev two_set : Bitmap
two_set = record { bitmap_size = 4; total_bits = 12; bitmap_data = 3 ∷ [] }

abbrev counting : Superblock
counting = record {
  volume_size = 49152;
  block_size = 4096;
  cluster_size = 4096;
  total_blocks = 12;
  free_blocks = 10;
  total_inodes = 3;
  free_inodes = 3;
  magic_number = 0x44534C53;
  version = 0x00010000;
  creation_time = 0;
  last_mount_time = 0;
  last_check_time = 0;
  state = 0;
  errors = 0;
}

abbrev small_volume : Volume
small_volume = record {
  volume_size = 49152;
  block_size = 4096;
  cluster_size = 4096;
  superblock = counting;
  inodes = zero_inode ∷ zero_inode ∷ zero_inode ∷ [];
  block_bitmap = two_set;
  inode_bitmap = record { bitmap_size = 4; total_bits = 3; bitmap_data = 0 ∷ [] };
}

-- 200 blocks
abbrev blank_volume : Volume
blank_volume = record small_volume { volume_size = 819200 }

two_set-IsSized : IsSized two_set
two_set-IsSized = omega arith

small_volume-IsUsable : IsUsable small_volume
unfolding test_bit
small_volume-IsUsable = record { sized = two_set-IsSized; small = omega arith; reserved = refl }

small_volume-IsAccounted : IsAccounted 0 small_volume
unfolding clear_bits count_false test_bit
small_volume-IsAccounted = record { agrees = refl }

block_one-IsTaken : IsTaken small_volume 1
unfolding test_bit
block_one-IsTaken = refl

five_free : test_bit two_set 5 ≡ false
unfolding test_bit
five_free = refl

first_free : (allocate_block small_volume).0 ≡ 2
unfolding allocate_block allocate_block_from test_bit
first_free = refl

initialize_filesystem_structures-IsFormatted_example :
    ((initialize_filesystem_structures blank_volume plenty 7).0 ≡ success)
    × IsFormatted
        (total_blocks_of blank_volume)
        (inode_count_of blank_volume)
        (initialize_filesystem_structures blank_volume plenty 7).1
initialize_filesystem_structures-IsFormatted_example =
    initialize_filesystem_structures-IsFormatted blank_volume 7 (omega arith) (omega arith)

allocate_block-IsFirstFit_example :
    ((allocate_block small_volume).0 ≡ 0)
      × ((allocate_block small_volume).1 ≡ small_volume)
      × ((j : ℕ) → j < 12 → IsTaken small_volume j)
    ⊎ ((allocate_block small_volume).0 ≢ 0)
      × IsFirstFit small_volume (allocate_block small_volume).0 (allocate_block small_volume).1
allocate_block-IsFirstFit_example = allocate_block-IsFirstFit small_volume small_volume-IsUsable

free_block-allocate_block_example :
    ((j : ℕ)
      → test_bit
          (free_block (allocate_block small_volume).1 (allocate_block small_volume).0).block_bitmap
          j
        ≡ test_bit two_set j)
    × ((free_block
          (allocate_block small_volume).1
          (allocate_block small_volume).0).superblock.free_blocks
        ≡ 10)
free_block-allocate_block_example =
    free_block-allocate_block small_volume small_volume-IsUsable (omega arith)
      (λ e. omega (arith, first_free, e))

-- Inode 1 holds block 1.
abbrev one_file : Volume
one_file = record small_volume {
  inodes =
      zero_inode
      ∷ record zero_inode { direct_blocks = 1 ∷ 0 ∷ 0 ∷ 0 ∷ 0 ∷ 0 ∷ 0 ∷ 0 ∷ 0 ∷ 0 ∷ 0 ∷ 0 ∷ [] }
      ∷ zero_inode
      ∷ [];
}

allocate_inode-InodeOutcome_example :
    InodeOutcome small_volume regular (allocate_inode small_volume regular)
allocate_inode-InodeOutcome_example =
    allocate_inode-InodeOutcome small_volume regular (omega arith) refl

free_inode-IsReleased_example : IsReleased one_file 1 (free_inode one_file 1)
free_inode-IsReleased_example =
    free_inode-IsReleased one_file 1 (omega arith) two_set-IsSized (omega arith)

abbrev open_one : File
open_one = record {
  file_size = 100;
  allocation_size = 100;
  is_read_only = false;
  file_state = opened;
  reference_count = 1;
  inode_id = 0;
}

extend_file-Extended_example :
    Extended open_one small_volume 9000 (extend_file open_one small_volume 9000)
extend_file-Extended_example =
    extend_file-Extended open_one small_volume 9000 small_volume-IsUsable (omega arith)

created_file : (open_file small_volume true true 2).1 ≡ some (new_file false 0)
unfolding open_file create_file allocate_inode allocate_inode_from test_bit
created_file = refl

open_file-unusable_example :
    (read_file (new_file false 0) 10 0 ≡ (invalid_handle, 0))
    × (write_file (new_file false 0) small_volume 10 0
        ≡ (invalid_handle, 0, new_file false 0, small_volume))
open_file-unusable_example =
    open_file-unusable small_volume true true 2 (new_file false 0) created_file 10 0 small_volume
