-- ===== src/Dslsfs/Inodes.antt =====
-- What DslsfsAllocateInode does to the inode table and its bitmap.
use dsls_os.Base.{
  ℕ, zero, suc, ◌+◌, ◌<◌, ◌≡◌, ◌≢◌, refl, arith, true, false, ◌==◌, ==→eq, if◌then◌else◌, dec32,
  Bool-cases, inl, inr, Option, none, some, length, get_or-set_self, get_or-set_ne, Status, success,
  disk_full,
}
use dsls_os.Dslsfs.Bitmap.{test_bit}
use dsls_os.Dslsfs.Bitmap.Laws.{IsSized, test_bit-set_bit}
use dsls_os.Dslsfs.Volume.{
  Volume, InodeType, zero_inode, inode_at, take_inode, allocate_inode_from, allocate_inode,
}

-- `n` is the lowest inode that was free, and `v'` differs from `v` by it alone.
pub record IsNewInode (v : Volume) (type : InodeType) (n : ℕ) (v' : Volume) : Type 0 where
  pub in_range : n < v.inode_bitmap.total_bits
  pub was_free : test_bit v.inode_bitmap n ≡ false
  pub lowest : (j : ℕ) → j < n → test_bit v.inode_bitmap j ≡ true
  pub bits :
      (j : ℕ) → test_bit v'.inode_bitmap j ≡ (if n == j then true else test_bit v.inode_bitmap j)
  pub zeroed : inode_at v' n ≡ record zero_inode { inode_id = n; inode_type = type }
  pub others : (j : ℕ) → n ≢ j → inode_at v' j ≡ inode_at v j
  pub count : v'.superblock.free_inodes ≡ dec32 v.superblock.free_inodes
  pub blocks : v'.block_bitmap ≡ v.block_bitmap

pub data InodeOutcome (v : Volume) (type : InodeType) : Status × Option ℕ × Volume → Type 0 where
  made : (n : ℕ) (v' : Volume) → IsNewInode v type n v' → InodeOutcome v type (success, some n, v')
  no_inode :
      ((j : ℕ) → j < v.inode_bitmap.total_bits → test_bit v.inode_bitmap j ≡ true)
      → InodeOutcome v type (disk_full, none, v)

module _ (v : Volume) (type : InodeType) (sized : IsSized v.inode_bitmap)
    (table : length v.inodes ≡ v.inode_bitmap.total_bits) where
  take_inode-IsNewInode :
      (n : ℕ)
      → n < v.inode_bitmap.total_bits
      → test_bit v.inode_bitmap n ≡ false
      → ((j : ℕ) → j < n → test_bit v.inode_bitmap j ≡ true)
      → IsNewInode v type n (take_inode v type n)
  take_inode-IsNewInode n inside clear before = record {
    in_range = inside;
    was_free = clear;
    lowest = before;
    bits = λ j. test_bit-set_bit v.inode_bitmap n j sized inside;
    zeroed = get_or-set_self v.inodes n _ zero_inode (omega arith);
    others = λ j ne. get_or-set_ne v.inodes n j _ zero_inode ne;
    count = refl;
    blocks = refl;
  }

  -- From `i` on, with every inode below it taken.
  allocate_inode_from-InodeOutcome :
      (left i : ℕ)
      → i + left ≡ v.inode_bitmap.total_bits
      → ((j : ℕ) → j < i → test_bit v.inode_bitmap j ≡ true)
      → InodeOutcome v type (allocate_inode_from left i v type)
  unfolding allocate_inode_from
  allocate_inode_from-InodeOutcome zero i e before = no_inode (λ j h. before j (omega arith))
  allocate_inode_from-InodeOutcome (suc left) i e before =
      elim (Bool-cases (test_bit v.inode_bitmap i)) [
        | inl taken ↦ rw taken (
            allocate_inode_from-InodeOutcome left (i + 1) (omega arith) (λ j h.
              elim (Bool-cases (j == i)) [
                | inl same ↦ rw (==→eq j i same) taken
                | inr other ↦ before j (ground arith)
              ]))
        | inr clear ↦ rw clear (made i _ (take_inode-IsNewInode i (omega arith) clear before))
      ]

-- On a volume with an inode for every bit of the inode bitmap and a word for every 32 bits,
-- DslsfsAllocateInode has one of two outcomes. It succeeds with the lowest free inode: that inode and no
-- other becomes taken, it is zeroed but for its number and type, the other inodes and the block
-- bitmap stay as they are, and the count of free inodes is lowered by one. Or it reports that the
-- disk is full: then every inode is taken, and the volume is unchanged.
pub allocate_inode-InodeOutcome :
    (v : Volume) (type : InodeType)
    → IsSized v.inode_bitmap
    → length v.inodes ≡ v.inode_bitmap.total_bits
    → InodeOutcome v type (allocate_inode v type)
unfolding allocate_inode
allocate_inode-InodeOutcome v type sized table =
    allocate_inode_from-InodeOutcome v type sized table v.inode_bitmap.total_bits 0 (omega arith)
      (λ j h. absurd (omega arith))
