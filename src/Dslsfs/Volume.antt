-- ===== src/Dslsfs/Volume.antt =====
-- The volume of kernel/src/dslsfs.c: superblock, inode table and bitmaps, and the functions that
-- format it and allocate in it. A function that C calls with a volume takes the volume itself, so
-- its NULL test has no counterpart. Locks are left out: each function runs alone under its lock.
-- Sizes and times are unsigned (LARGE_INTEGER values that the code never makes negative).
use dsls_os.Base.{
  ℕ, zero, suc, ◌+◌, Option, none, some, List, [], ◌∷◌, leb, ◌==◌, if◌then◌else◌, get_or, set,
  replicate, Status, success, disk_full, inc32, dec32,
}
use dsls_os.Dslsfs.Bitmap.{Bitmap, set_bit, clear_bit, test_bit}

-- DSLSFS_SUPERBLOCK without the label.
pub record Superblock : Type 0 where
  pub volume_size : ℕ
  pub block_size : ℕ
  pub cluster_size : ℕ
  pub total_blocks : ℕ
  pub free_blocks : ℕ
  pub total_inodes : ℕ
  pub free_inodes : ℕ
  pub magic_number : ℕ
  pub version : ℕ
  pub creation_time : ℕ
  pub last_mount_time : ℕ
  pub last_check_time : ℕ
  pub state : ℕ
  pub errors : ℕ

pub data InodeType : Type 0 where
  regular directory symlink block_device character_device fifo socket : InodeType

-- DSLSFS_INODE without the list of extents, which nothing here fills.
pub record Inode : Type 0 where
  pub inode_id : ℕ
  pub inode_type : InodeType
  pub mode : ℕ
  pub link_count : ℕ
  pub user_id : ℕ
  pub group_id : ℕ
  pub size : ℕ
  pub allocation_size : ℕ
  pub creation_time : ℕ
  pub last_access_time : ℕ
  pub last_modification_time : ℕ
  pub last_change_time : ℕ
  pub direct_blocks : List ℕ
  pub indirect_block : ℕ
  pub double_indirect_block : ℕ
  pub triple_indirect_block : ℕ

-- The fields of DSLSFS_VOLUME that these functions use.
pub record Volume : Type 0 where
  pub volume_size : ℕ
  pub block_size : ℕ
  pub cluster_size : ℕ
  pub superblock : Superblock
  pub inodes : List Inode
  pub block_bitmap : Bitmap
  pub inode_bitmap : Bitmap

-- RtlZeroMemory of an inode; the type of number 0 is `regular`.
abbrev pub zero_inode : Inode
zero_inode = record {
  inode_id = 0;
  inode_type = regular;
  mode = 0;
  link_count = 0;
  user_id = 0;
  group_id = 0;
  size = 0;
  allocation_size = 0;
  creation_time = 0;
  last_access_time = 0;
  last_modification_time = 0;
  last_change_time = 0;
  direct_blocks = replicate 12 0;
  indirect_block = 0;
  double_indirect_block = 0;
  triple_indirect_block = 0;
}

abbrev pub with_free_blocks : Volume → ℕ → Volume
with_free_blocks v n = record v { superblock = record v.superblock { free_blocks = n } }

abbrev pub with_free_inodes : Volume → ℕ → Volume
with_free_inodes v n = record v { superblock = record v.superblock { free_inodes = n } }

-- What one round of DslsfsAllocateBlock does at the clear bit `i`.
abbrev pub take_block : Volume → ℕ → Volume
take_block v i = record v {
  block_bitmap = set_bit v.block_bitmap i;
  superblock = record v.superblock { free_blocks = dec32 v.superblock.free_blocks };
}

-- The loop of DslsfsAllocateBlock from `i` on, with `left` rounds to go.
unfoldable pub allocate_block_from : ℕ → ℕ → Volume → ℕ × Volume
allocate_block_from zero i v = (0, v)
allocate_block_from (suc left) i v =
    let rest = allocate_block_from left (i + 1) v in
    if test_bit v.block_bitmap i then rest else (i, take_block v i)

-- DslsfsAllocateBlock: 0 means that no bit was clear.
unfoldable pub allocate_block : Volume → ℕ × Volume
allocate_block v = allocate_block_from v.block_bitmap.total_bits 0 v

-- DslsfsFreeBlock
unfoldable pub free_block : Volume → ℕ → Volume
free_block v n = if leb v.block_bitmap.total_bits n then v else record v {
  block_bitmap = clear_bit v.block_bitmap n;
  superblock = record v.superblock { free_blocks = inc32 v.superblock.free_blocks };
}

-- What one round of DslsfsAllocateInode does at the clear bit `i`.
abbrev pub take_inode : Volume → InodeType → ℕ → Volume
take_inode v type i = record v {
  inode_bitmap = set_bit v.inode_bitmap i;
  superblock = record v.superblock { free_inodes = dec32 v.superblock.free_inodes };
  inodes = set v.inodes i (record zero_inode { inode_id = i; inode_type = type });
}

unfoldable pub allocate_inode_from : ℕ → ℕ → Volume → InodeType → Status × Option ℕ × Volume
allocate_inode_from zero i v type = (disk_full, none, v)
allocate_inode_from (suc left) i v type =
    let rest = allocate_inode_from left (i + 1) v type in
    if test_bit v.inode_bitmap i then rest else (success, some i, take_inode v type i)

-- DslsfsAllocateInode: the option is what goes through `InodeId`.
unfoldable pub allocate_inode : Volume → InodeType → Status × Option ℕ × Volume
allocate_inode v type = allocate_inode_from v.inode_bitmap.total_bits 0 v type

-- The loop of DslsfsFreeInodeBlocks over the direct blocks.
unfoldable pub free_direct_blocks : Volume → List ℕ → Volume
free_direct_blocks v [] = v
free_direct_blocks v (n ∷ ns) = free_direct_blocks (if n == 0 then v else free_block v n) ns

abbrev pub inode_at : Volume → ℕ → Inode
inode_at v id = get_or v.inodes id zero_inode

-- DslsfsFreeInodeBlocks of the inode `id`: every direct block becomes 0.
unfoldable pub free_inode_blocks : Volume → ℕ → Volume
free_inode_blocks v id =
    let freed = free_direct_blocks v (inode_at v id).direct_blocks in
    record freed {
      inodes = set freed.inodes id (record (inode_at v id) { direct_blocks = replicate 12 0 });
    }

-- DslsfsFreeInode
unfoldable pub free_inode : Volume → ℕ → Volume
free_inode v id =
    if leb v.inode_bitmap.total_bits id
    then v
    else free_inode_blocks
        (record v {
          inode_bitmap = clear_bit v.inode_bitmap id;
          superblock = record v.superblock { free_inodes = inc32 v.superblock.free_inodes };
        })
        id
