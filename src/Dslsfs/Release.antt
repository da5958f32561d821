-- ===== src/Dslsfs/Release.antt =====
-- What DslsfsFreeInode gives back: the inode and its direct blocks.
use dsls_os.Base.{
  ℕ, ◌<◌, ◌≡◌, refl, ap, ◌∙◌, arith, Bool, false, not, ◌&&◌, ◌||◌, ◌==◌, if◌then◌else◌, inc32,
  Bool-cases, inl, inr, List, [], ◌∷◌, leb,
}
use dsls_os.Dslsfs.Bitmap.{test_bit, clear_bit}
use dsls_os.Dslsfs.Bitmap.Laws.{IsSized, test_bit-clear_bit, clear_bit-IsSized, test_bit-lt}
use dsls_os.Dslsfs.Volume.{
  Volume, inode_at, free_block, free_direct_blocks, free_inode_blocks, free_inode,
}

-- Whether a list of block numbers names block `j`.
unfoldable pub names : ℕ → List ℕ → Bool
names j [] = false
names j (n ∷ ns) = (n == j) || names j ns

free_block-IsSized :
    (v : Volume) (n : ℕ) → IsSized v.block_bitmap → IsSized (free_block v n).block_bitmap
unfolding free_block
free_block-IsSized v n sized = ground (arith, clear_bit-IsSized v.block_bitmap n sized)

test_bit-free_block :
    (v : Volume) (n j : ℕ)
    → IsSized v.block_bitmap
    → test_bit (free_block v n).block_bitmap j
      ≡ (if n == j then false else test_bit v.block_bitmap j)
unfolding free_block
test_bit-free_block v n j sized = elim (Bool-cases (leb v.block_bitmap.total_bits n)) [
  | inl beyond ↦ rw beyond (ground (arith, test_bit-lt v.block_bitmap j))
  | inr inside ↦ rw inside (test_bit-clear_bit v.block_bitmap n j sized (ground arith))
]

-- A round of the loop of DslsfsFreeInodeBlocks: 0 stands for no block.
abbrev free_entry : Volume → ℕ → Volume
free_entry v n = if n == 0 then v else free_block v n

free_entry-IsSized :
    (v : Volume) (n : ℕ) → IsSized v.block_bitmap → IsSized (free_entry v n).block_bitmap
free_entry-IsSized v n sized = elim (Bool-cases (n == 0)) [
  | inl absent ↦ rw absent sized
  | inr present ↦ rw present (free_block-IsSized v n sized)
]

test_bit-free_entry :
    (v : Volume) (n j : ℕ)
    → IsSized v.block_bitmap
    → test_bit (free_entry v n).block_bitmap j
      ≡ (if not (j == 0) && (n == j) then false else test_bit v.block_bitmap j)
test_bit-free_entry v n j sized = elim (Bool-cases (n == 0)) [
  | inl absent ↦ rw absent (ground arith)
  | inr present ↦ rw present (ground (arith, test_bit-free_block v n j sized))
]

test_bit-free_direct_blocks :
    (v : Volume) (ns : List ℕ) (j : ℕ)
    → IsSized v.block_bitmap
    → test_bit (free_direct_blocks v ns).block_bitmap j
      ≡ (if not (j == 0) && names j ns then false else test_bit v.block_bitmap j)
unfolding free_direct_blocks names
test_bit-free_direct_blocks v [] j sized = ground arith
test_bit-free_direct_blocks v (n ∷ ns) j sized =
    test_bit-free_direct_blocks (free_entry v n) ns j (free_entry-IsSized v n sized)
    ∙ ap (λ b. if not (j == 0) && names j ns then false else b) (test_bit-free_entry v n j sized)
    ∙ ground arith

-- Freeing blocks touches neither the inodes nor their count.
record SameInodes (v v' : Volume) : Type 0 where
  bitmap : v'.inode_bitmap ≡ v.inode_bitmap
  count : v'.superblock.free_inodes ≡ v.superblock.free_inodes

free_block-SameInodes : (v : Volume) (n : ℕ) → SameInodes v (free_block v n)
unfolding free_block
free_block-SameInodes v n = elim (Bool-cases (leb v.block_bitmap.total_bits n)) [
  | inl beyond ↦ rw beyond (record { bitmap = refl; count = refl })
  | inr inside ↦ rw inside (record { bitmap = refl; count = refl })
]

free_direct_blocks-SameInodes : (v : Volume) (ns : List ℕ) → SameInodes v (free_direct_blocks v ns)
unfolding free_direct_blocks
free_direct_blocks-SameInodes v [] = record { bitmap = refl; count = refl }
free_direct_blocks-SameInodes v (n ∷ ns) = elim (Bool-cases (n == 0)) [
  | inl absent ↦ rw absent (free_direct_blocks-SameInodes v ns)
  | inr present ↦
      let rest = free_direct_blocks-SameInodes (free_block v n) ns in
      let here = free_block-SameInodes v n in
      rw present (record { bitmap = rest.bitmap ∙ here.bitmap; count = rest.count ∙ here.count })
]

-- What `v'` gave back of the inode `id` of `v`.
pub record IsReleased (v : Volume) (id : ℕ) (v' : Volume) : Type 0 where
  pub inode_bits :
      (j : ℕ) → test_bit v'.inode_bitmap j ≡ (if id == j then false else test_bit v.inode_bitmap j)
  pub block_bits :
      (j : ℕ)
      → test_bit v'.block_bitmap j ≡ (
          if not (j == 0) && names j (inode_at v id).direct_blocks
          then false
          else test_bit v.block_bitmap j)
  pub one_more : v'.superblock.free_inodes ≡ inc32 v.superblock.free_inodes

-- On a volume with a word for every 32 bits of its bitmaps, DslsfsFreeInode of an inode in range
-- frees that inode and no other, frees every block but block 0 that is among the inode's direct
-- blocks and no other block, and raises the count of free inodes by one.
pub free_inode-IsReleased :
    (v : Volume) (id : ℕ)
    → IsSized v.inode_bitmap
    → IsSized v.block_bitmap
    → id < v.inode_bitmap.total_bits
    → IsReleased v id (free_inode v id)
unfolding free_inode free_inode_blocks
free_inode-IsReleased v id inodes blocks inside =
    let start : Volume = record v {
      inode_bitmap = clear_bit v.inode_bitmap id;
      superblock = record v.superblock { free_inodes = inc32 v.superblock.free_inodes };
    } in
    let ns = (inode_at v id).direct_blocks in
    let same = free_direct_blocks-SameInodes start ns in
    let tested : leb v.inode_bitmap.total_bits id ≡ false = ground arith in
    rw tested (record {
      inode_bits = λ j.
          ap (λ b. test_bit b j) same.bitmap ∙ test_bit-clear_bit v.inode_bitmap id j inodes inside;
      block_bits = λ j. test_bit-free_direct_blocks start ns j blocks;
      one_more = same.count;
    })
