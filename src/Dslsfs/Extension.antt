-- ===== src/Dslsfs/Extension.antt =====
-- What DslsfsExtendFile of kernel/src/dslsfs.c does to the volume, and files that are written and read.
use dsls_os.Base.{
  ℕ, zero, suc, ◌+◌, ◌<◌, ◌≡◌, refl, sym, ap, ◌∙◌, subst, arith, Bool, true, false, leb, ◌==◌,
  if◌then◌else◌, Status, success, disk_full, ne→==,
}
use dsls_os.Base.Count.{count_false_none}
use dsls_os.Dslsfs.Bitmap.{test_bit}
use dsls_os.Dslsfs.Bitmap.Laws.{test_bit-set_bit, total_bits-set_bit, set_bit-IsSized}
use dsls_os.Dslsfs.Volume.{Volume, take_block, allocate_block}
use dsls_os.Dslsfs.Blocks.{IsTaken, IsUsable, Scan, found, full, allocate_block-Scan}
use dsls_os.Dslsfs.Count.{clear_bits, clear_bits-set_bit}
use dsls_os.Dslsfs.Accounting.{IsAccounted, allocate_block-IsAccounted}
use dsls_os.Dslsfs.Files.{File, blocks_needed, allocate_blocks, extend_file}

-- `after` is usable, takes every block that `before` takes, and has the same lag of its count.
pub record Keeps (before after : Volume) : Type 0 where
  pub usable : IsUsable after
  pub taken : (j : ℕ) → IsTaken before j → IsTaken after j
  pub accounted : (lag : ℕ) → IsAccounted lag before → IsAccounted lag after

-- One allocation: a block is found, or none is free.
data One (v : Volume) (r : ℕ × Volume) : Type 0 where
  got :
      (r.0 == 0) ≡ false
      → clear_bits r.1.block_bitmap + 1 ≡ clear_bits v.block_bitmap
      → Keeps v r.1
      → One v r
  nothing : (r.0 == 0) ≡ true → r.1 ≡ v → clear_bits v.block_bitmap ≡ 0 → One v r

allocate_block-One : (v : Volume) → IsUsable v → One v (allocate_block v)
unfolding clear_bits
allocate_block-One v u = one (allocate_block-Scan v) (allocate_block-IsAccounted v)
  where
    one :
        {r : ℕ × Volume}
        → Scan v 0 v.block_bitmap.total_bits r
        → ((lag : ℕ) → IsUsable v → IsAccounted lag v → IsAccounted lag r.1)
        → One v r
    one (full e all) _ = rw e (
        nothing refl refl (
          count_false_none (test_bit v.block_bitmap) v.block_bitmap.total_bits
            (λ j h. all j (omega arith) (omega arith))))
    one (found n e clear lo hi before) counted =
        let inside : n < v.block_bitmap.total_bits = omega (arith, hi) in
        let bits : (j : ℕ)
            → test_bit (take_block v n).block_bitmap j
              ≡ (if n == j then true else test_bit v.block_bitmap j) =
          λ j. test_bit-set_bit v.block_bitmap n j u.sized inside in
        subst (One v) (sym e) (
          got (ne→== n 0 (λ z. cc (subst (IsTaken v) (sym z) u.reserved)))
            (ground (arith, clear_bits-set_bit v.block_bitmap n u.sized inside))
            (record {
              usable = record {
                sized = set_bit-IsSized v.block_bitmap n u.sized;
                small = omega (arith, u.small, total_bits-set_bit v.block_bitmap n);
                reserved = ground (arith, bits 0, u.reserved);
              };
              taken = λ j t. ground (arith, bits j, t);
              accounted =
                  λ lag a. subst (λ (r : ℕ × Volume). IsAccounted lag r.1) e (counted lag u a);
            }))

Keeps-refl : (v : Volume) → IsUsable v → Keeps v v
Keeps-refl v u = record { usable = u; taken = λ j t. t; accounted = λ lag a. a }

Keeps-trans : (v w x : Volume) → Keeps v w → Keeps w x → Keeps v x
Keeps-trans v w x first second = record {
  usable = second.usable;
  taken = λ j t. second.taken j (first.taken j t);
  accounted = λ lag a. second.accounted lag (first.accounted lag a);
}

-- The allocation of `n` blocks: all are found, or every block is taken at the end.
pub data Allocated (v : Volume) (n : ℕ) (r : Bool × Volume) : Type 0 where
  enough :
      r.0 ≡ true
      → clear_bits r.1.block_bitmap + n ≡ clear_bits v.block_bitmap
      → Keeps v r.1
      → Allocated v n r
  short :
      r.0 ≡ false
      → clear_bits v.block_bitmap < n
      → clear_bits r.1.block_bitmap ≡ 0
      → Keeps v r.1
      → Allocated v n r

pub allocate_blocks-Allocated :
    (n : ℕ) (v : Volume) → IsUsable v → Allocated v n (allocate_blocks n v)
unfolding allocate_blocks
allocate_blocks-Allocated zero v u = enough refl (omega arith) (Keeps-refl v u)
allocate_blocks-Allocated (suc n) v u =
    next (allocate_block-One v u) (allocate_blocks-Allocated n (allocate_block v).1)
  where
    after : Volume
    after = (allocate_block v).1

    further :
        {r : Bool × Volume}
        → clear_bits after.block_bitmap + 1 ≡ clear_bits v.block_bitmap
        → Keeps v after
        → Allocated after n r
        → Allocated v (suc n) r
    further one kept (enough e c k) = enough e (omega (arith, one, c)) (Keeps-trans _ _ _ kept k)
    further one kept (short e c z k) = short e (omega (arith, one, c)) z (Keeps-trans _ _ _ kept k)

    next :
        One v (allocate_block v)
        → (IsUsable after → Allocated after n (allocate_blocks n after))
        → Allocated v (suc n) (allocate_blocks (suc n) v)
    next (got e one kept) rest = rw e (further one kept (rest kept.usable))
    next (nothing e same none_left) _ = rw e (
        short refl (omega (arith, none_left))
          (ap (λ (w : Volume). clear_bits w.block_bitmap) same ∙ none_left)
          (subst (Keeps v) (sym same) (Keeps-refl v u)))

-- What DslsfsExtendFile of a file beyond its size yields.
pub data Extended (f : File) (v : Volume) (size : ℕ) (r : Status × File × Volume) : Type 0 where
  longer :
      (after : Volume)
      → r ≡ (success, record f { file_size = size; allocation_size = size }, after)
      → clear_bits after.block_bitmap + blocks_needed size f.allocation_size v.block_size
        ≡ clear_bits v.block_bitmap
      → Keeps v after
      → Extended f v size r
  exhausted :
      (after : Volume)
      → r ≡ (disk_full, f, after)
      → clear_bits v.block_bitmap < blocks_needed size f.allocation_size v.block_size
      → clear_bits after.block_bitmap ≡ 0
      → Keeps v after
      → Extended f v size r

-- On a usable volume, DslsfsExtendFile of a file to more than its size has one of two outcomes, and in
-- both of them the volume stays usable, keeps its blocks taken, and keeps the lag of its count. Either
-- it succeeds, the file has the size asked for, and exactly the number of blocks computed are taken
-- from the free ones; or the free blocks are fewer than that number, it answers STATUS_DISK_FULL and
-- leaves the file as it is, and every block of the volume is taken.
pub extend_file-Extended :
    (f : File) (v : Volume) (size : ℕ)
    → IsUsable v
    → f.file_size < size
    → Extended f v size (extend_file f v size)
unfolding extend_file
extend_file-Extended f v size u h =
    let small : leb size f.file_size ≡ false = ground arith in
    rw small
      (outcome (allocate_blocks-Allocated (blocks_needed size f.allocation_size v.block_size) v u))
  where
    outcome :
        {r : Bool × Volume}
        → Allocated v (blocks_needed size f.allocation_size v.block_size) r
        → Extended f v size (
            if r.0
            then (success, record f { file_size = size; allocation_size = size }, r.1)
            else (disk_full, f, r.1))
    outcome {r} (enough e c k) = rw e (longer r.1 refl c k)
    outcome {r} (short e c z k) = rw e (exhausted r.1 refl c z k)
