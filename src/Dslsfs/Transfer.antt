-- ===== src/Dslsfs/Transfer.antt =====
-- What DslsfsReadFile and DslsfsWriteFile of kernel/src/dslsfs.c do with the files that DslsfsOpenFile
-- yields.
use dsls_os.Base.{
  ℕ, ◌≡◌, refl, sym, ap, Bool, false, not, ◌||◌, Option, none, some, ◌==◌, Status, invalid_handle,
  either,
}
use mathlib.Core.Option.{some-injective}
use dsls_os.Dslsfs.Volume.{Volume, regular, allocate_inode}
use dsls_os.Dslsfs.Files.{File, closed, with_inode, create_file, open_file, read_file, write_file}

-- Any file of the answer is closed.
unfoldable OnlyClosed : Status × Option File × Volume → Type 0
OnlyClosed r = (f : File) → r.1 ≡ some f → f.file_state ≡ closed

with_inode-OnlyClosed : (ro : Bool) (r : Status × Option ℕ × Volume) → OnlyClosed (with_inode ro r)
unfolding OnlyClosed
with_inode-OnlyClosed ro (status, none, v) f e = cc
with_inode-OnlyClosed ro (status, some id, v) f e =
    sym (ap (λ (g : File). g.file_state) (some-injective _ _ e))

no_file : (status : Status) (v : Volume) → OnlyClosed (status, none, v)
unfolding OnlyClosed
no_file status v f e = cc

create_file-OnlyClosed :
    (v : Volume) (mounted pool ro : Bool) → OnlyClosed (create_file v mounted pool ro)
unfolding create_file
create_file-OnlyClosed v mounted pool ro = either OnlyClosed (not mounted) _ _ (no_file _ v) (
    either OnlyClosed (not pool) _ _ (no_file _ v)
      (with_inode-OnlyClosed ro (allocate_inode v regular)))

open_file-OnlyClosed :
    (v : Volume) (mounted pool : Bool) (disposition : ℕ)
    → OnlyClosed (open_file v mounted pool disposition)
unfolding open_file
open_file-OnlyClosed v mounted pool disposition =
    either OnlyClosed (not mounted) _ _ (no_file _ v) (
      either OnlyClosed (disposition == 2 || disposition == 3) _ _
        (create_file-OnlyClosed v mounted pool false) (no_file _ v))

-- No file that DslsfsOpenFile yields can be read or written: whatever the volume, the disposition and
-- the memory, each DslsfsReadFile and each DslsfsWriteFile of it answers STATUS_INVALID_HANDLE, and the
-- write leaves the file and the volume as they are.
pub open_file-unusable :
    (v : Volume) (mounted pool : Bool) (disposition : ℕ) (f : File)
    → (open_file v mounted pool disposition).1 ≡ some f
    → (size offset : ℕ) (w : Volume)
    → (read_file f size offset ≡ (invalid_handle, 0))
      × (write_file f w size offset ≡ (invalid_handle, 0, f, w))
unfolding read_file write_file OnlyClosed
open_file-unusable v mounted pool disposition f e size offset w =
    rw (open_file-OnlyClosed v mounted pool disposition f e) (refl, refl)
