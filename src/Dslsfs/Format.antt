-- ===== src/Dslsfs/Format.antt =====
-- DslsfsInitializeFilesystemStructures and DslsfsCreateRootDirectory of kernel/src/dslsfs.c.
pub mod Reserve
pub mod Layout
pub mod Fresh
use dsls_os.Base.{
  ℕ, zero, suc, ◌+◌, ◌-◌, ◌*◌, ◌/◌, ◌%◌, Bool, true, false, not, List, [], ◌∷◌, ◌==◌, if◌then◌else◌,
  set, replicate, Status, success, insufficient_resources, disk_full, nt_success, ulong_mod, dec32,
}
use dsls_os.Dslsfs.Bitmap.{Bitmap, set_bit}
use dsls_os.Dslsfs.Volume.{
  Superblock, Inode, directory, Volume, zero_inode, with_free_blocks, with_free_inodes,
  allocate_block, free_block, inode_at,
}

-- Which calls of ExAllocatePool succeed.
pub record Pool : Type 0 where
  pub inode_array : Bool
  pub block_bitmap_data : Bool
  pub inode_bitmap_data : Bool
  pub block_data : Bool

abbrev pub magic_number : ℕ
magic_number = 0x44534C53

abbrev pub version : ℕ
version = 0x00010000

-- `x - k` on a ULONG
abbrev pub sub32 : ℕ → ℕ → ℕ
sub32 x k = (x + ulong_mod - k) % ulong_mod

abbrev pub total_blocks_of : Volume → ℕ
total_blocks_of v = (v.volume_size / v.block_size) % ulong_mod

abbrev pub inode_count_of : Volume → ℕ
inode_count_of v = total_blocks_of v / 4

abbrev pub initial_superblock : Volume → ℕ → Superblock
initial_superblock v now = record {
  volume_size = v.volume_size;
  block_size = v.block_size;
  cluster_size = v.cluster_size;
  total_blocks = total_blocks_of v;
  free_blocks = sub32 (total_blocks_of v) 100;
  total_inodes = inode_count_of v;
  free_inodes = sub32 (inode_count_of v) 10;
  magic_number = magic_number;
  version = version;
  creation_time = now;
  last_mount_time = now;
  last_check_time = now;
  state = 0;
  errors = 0;
}

-- `(bits + 31) / 32` zeroed words
abbrev pub empty_bitmap : ℕ → Bitmap
empty_bitmap bits =
    let words = (bits + 31) % ulong_mod / 32 in
    record { bitmap_size = words * 4; total_bits = bits; bitmap_data = replicate words 0 }

unfoldable pub reserve_blocks : ℕ → ℕ → Volume → Volume
reserve_blocks zero i v = v
reserve_blocks (suc left) i v = reserve_blocks left (i + 1) (
    with_free_blocks (record v { block_bitmap = set_bit v.block_bitmap i })
      (dec32 v.superblock.free_blocks))

unfoldable pub reserve_inodes : ℕ → ℕ → Volume → Volume
reserve_inodes zero i v = v
reserve_inodes (suc left) i v = reserve_inodes left (i + 1) (
    with_free_inodes (record v { inode_bitmap = set_bit v.inode_bitmap i })
      (dec32 v.superblock.free_inodes))

abbrev pub root_inode : ℕ → Inode
root_inode now = record zero_inode {
  inode_id = 2;
  inode_type = directory;
  mode = 493;
  link_count = 3;
  creation_time = now;
  last_access_time = now;
  last_modification_time = now;
  last_change_time = now;
}

-- The root inode once `block` holds its entries.
abbrev pub root_with_block : Volume → ℕ → ℕ → Inode
root_with_block v now block = record (root_inode now) {
  direct_blocks = block ∷ replicate 11 0;
  size = v.block_size;
  allocation_size = v.block_size;
}

-- DslsfsCreateRootDirectory before it allocates the block of the directory.
abbrev pub mark_root : Volume → ℕ → Volume
mark_root v now =
    with_free_inodes
      (record v {
        inodes = set v.inodes 2 (root_inode now);
        inode_bitmap = set_bit v.inode_bitmap 2;
      })
      (dec32 v.superblock.free_inodes)

-- DslsfsCreateRootDirectory. The block of entries is only allocated, zeroed and freed in memory.
unfoldable pub create_root_directory : Volume → Pool → ℕ → Status × Volume
create_root_directory v pool now =
    let (block, v') = allocate_block (mark_root v now) in
    if block == 0
    then (disk_full, v')
    else let placed = record v' { inodes = set v'.inodes 2 (root_with_block v now block) } in
      if pool.block_data
      then (success, placed)
      else (insufficient_resources, free_block placed block)

-- The volume with a superblock, a zeroed inode table and zeroed bitmaps.
abbrev pub blank : Volume → ℕ → Volume
blank v now = record v {
  superblock = initial_superblock v now;
  inodes = replicate (inode_count_of v) zero_inode;
  block_bitmap = empty_bitmap (total_blocks_of v);
  inode_bitmap = empty_bitmap (inode_count_of v);
}

-- DslsfsInitializeFilesystemStructures. Where it fails, the caller frees the volume, so what is
-- left in it then is not used: a failed allocation returns the volume as it was.
unfoldable pub initialize_filesystem_structures : Volume → Pool → ℕ → Status × Volume
initialize_filesystem_structures v pool now =
    if not pool.inode_array
    then (insufficient_resources, v)
    else if not pool.block_bitmap_data
    then (insufficient_resources, v)
    else if not pool.inode_bitmap_data
    then (insufficient_resources, v)
    else create_root_directory (reserve_inodes 10 0 (reserve_blocks 100 0 (blank v now))) pool now
