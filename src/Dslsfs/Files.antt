-- ===== src/Dslsfs/Files.antt =====
-- The files of kernel/src/dslsfs.c: creation, opening, reading, writing and extension. The data of a file
-- is not kept by the code: a read fills the buffer with zeros and a write only counts. Names, caches,
-- times, journals and statistics are left out, and pointers are not NULL. Sizes and offsets are not
-- negative, and their sums are below 2 ^ 63. A count of bytes that the code leaves unset is 0.
use dsls_os.Base.{
  ℕ, zero, suc, ◌+◌, ◌-◌, ◌/◌, ◌%◌, Bool, true, false, not, ◌||◌, Option, none, some, ltb, leb,
  ◌==◌, if◌then◌else◌, Status, success, invalid_parameter, insufficient_resources,
  invalid_device_state, invalid_handle, end_of_file, media_write_protected, disk_full,
  object_name_not_found, nt_success, ulong_mod, dec32,
}
use dsls_os.Dslsfs.Volume.{Volume, regular, allocate_block, allocate_inode}

-- FILE_STATE
pub data FileState : Type 0 where
  closed opening opened closing reading writing deleting failed : FileState

abbrev pub is_opened : FileState → Bool
is_opened opened = true
is_opened _ = false

-- The fields of DSLSFS_FILE that are computed with; `is_read_only` is
-- `Attributes & FILE_ATTRIBUTE_READONLY`.
pub record File : Type 0 where
  pub file_size : ℕ
  pub allocation_size : ℕ
  pub is_read_only : Bool
  pub file_state : FileState
  pub reference_count : ℕ
  pub inode_id : ℕ

abbrev pub new_file : Bool → ℕ → File
new_file is_read_only id = record {
  file_size = 0;
  allocation_size = 0;
  is_read_only = is_read_only;
  file_state = closed;
  reference_count = 1;
  inode_id = id;
}

abbrev pub with_inode : Bool → Status × Option ℕ × Volume → Status × Option File × Volume
with_inode is_read_only (status, none, v) = (status, none, v)
with_inode is_read_only (status, some id, v) = (status, some (new_file is_read_only id), v)

-- DslsfsCreateFile, given whether the volume is mounted and whether the pool has the file, its name and
-- its path. DslsfsFindFileByName finds no file, and DslsfsAddFileToVolume does nothing.
unfoldable pub create_file : Volume → Bool → Bool → Bool → Status × Option File × Volume
create_file v mounted pool is_read_only =
    if not mounted
    then (invalid_device_state, none, v)
    else if not pool
    then (insufficient_resources, none, v)
    else with_inode is_read_only (allocate_inode v regular)

-- DslsfsOpenFile with a CreateDisposition: as no file is found, it creates one or fails.
unfoldable pub open_file : Volume → Bool → Bool → ℕ → Status × Option File × Volume
open_file v mounted pool disposition =
    if not mounted
    then (invalid_device_state, none, v)
    else if disposition == 2 || disposition == 3
    then create_file v mounted pool false
    else (object_name_not_found, none, v)

-- DslsfsReadFile: the status and the number of bytes.
unfoldable pub read_file : File → ℕ → ℕ → Status × ℕ
read_file f size offset =
    let remaining = f.file_size - offset in
    if not (is_opened f.file_state)
    then (invalid_handle, 0)
    else if leb f.file_size offset
    then (end_of_file, 0)
    else (success, if ltb remaining size then remaining else size)

-- `(ULONG)((new - old + block - 1) / block)`, where the division of a negative number goes to 0.
unfoldable pub blocks_needed : ℕ → ℕ → ℕ → ℕ
blocks_needed new old block =
    if leb old (new + block - 1)
    then (new + block - 1 - old) / block % ulong_mod
    else (ulong_mod - (old - (new + block - 1)) / block % ulong_mod) % ulong_mod

-- The loop of DslsfsExtendFile: whether all blocks were found.
unfoldable pub allocate_blocks : ℕ → Volume → Bool × Volume
allocate_blocks zero v = (true, v)
allocate_blocks (suc left) v =
    let (n, after) = allocate_block v in
    let rest = allocate_blocks left after in if n == 0 then (false, after) else rest

-- DslsfsExtendFile of a file of the volume, whose BlockSize is not 0.
unfoldable pub extend_file : File → Volume → ℕ → Status × File × Volume
extend_file f v size =
    let (all, after) = allocate_blocks (blocks_needed size f.allocation_size v.block_size) v in
    if leb size f.file_size
    then (invalid_parameter, f, v)
    else if all
    then (success, record f { file_size = size; allocation_size = size }, after)
    else (disk_full, f, after)

-- DslsfsWriteFile: the status, the number of bytes, the file and the volume.
unfoldable pub write_file : File → Volume → ℕ → ℕ → Status × ℕ × File × Volume
write_file f v size offset =
    let (status, longer, after) = extend_file f v (offset + size) in
    if not (is_opened f.file_state)
    then (invalid_handle, 0, f, v)
    else if f.is_read_only
    then (media_write_protected, 0, f, v)
    else if size == 0
    then (success, 0, f, v)
    else if ltb f.file_size (offset + size)
    then (status, if nt_success status then size else 0, longer, after)
    else (success, size, f, v)

-- What DslsfsFreeFile gives back to the pool: the number of times that a file was freed.
abbrev pub free_file : ℕ → ℕ
free_file frees = frees + 1

-- DslsfsCloseFile of a file that was freed `frees` times.
unfoldable pub close_file : File → ℕ → Status × File × ℕ
close_file f frees =
    let closed_one = record f { file_state = closed; reference_count = dec32 f.reference_count } in
    (success, closed_one, if closed_one.reference_count == 0 then free_file frees else frees)

-- DslsfsDeleteFile
unfoldable pub delete_file : File → ℕ → Status × File × ℕ
delete_file f frees =
    let (status, closed_one, freed) = close_file f frees in
    if not (is_opened f.file_state)
    then (invalid_handle, f, frees)
    else if not (nt_success status)
    then (status, closed_one, freed)
    else (success, closed_one, free_file freed)
