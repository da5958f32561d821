-- ===== src/Dslsfs/Blocks.antt =====
-- What DslsfsAllocateBlock and DslsfsFreeBlock do to the bitmap and to the count of free blocks.
use dsls_os.Base.{
  ℕ, zero, suc, ◌+◌, ◌≤◌, ◌<◌, ◌≡◌, ◌≢◌, refl, sym, subst, arith, true, false, ◌==◌, ==→eq,
  if◌then◌else◌, ulong_mod, dec32, Bool-cases, inl, inr, ◌⊎◌,
}
use dsls_os.Dslsfs.Bitmap.{test_bit}
use dsls_os.Dslsfs.Bitmap.Laws.{
  IsSized, test_bit-set_bit, test_bit-clear_bit, total_bits-set_bit, set_bit-IsSized,
}
use dsls_os.Dslsfs.Volume.{Volume, take_block, allocate_block_from, allocate_block, free_block}

-- What the scan from `i` on can find.
pub data Scan (v : Volume) (i left : ℕ) (r : ℕ × Volume) : Type 0 where
  found :
      (n : ℕ)
      → r ≡ (n, take_block v n)
      → test_bit v.block_bitmap n ≡ false
      → i ≤ n
      → n < i + left
      → ((j : ℕ) → i ≤ j → j < n → test_bit v.block_bitmap j ≡ true)
      → Scan v i left r
  full :
      r ≡ (0, v)
      → ((j : ℕ) → i ≤ j → j < i + left → test_bit v.block_bitmap j ≡ true)
      → Scan v i left r

between :
    (v : Volume) (i n j : ℕ)
    → test_bit v.block_bitmap i ≡ true
    → ((k : ℕ) → i + 1 ≤ k → k < n → test_bit v.block_bitmap k ≡ true)
    → i ≤ j
    → j < n
    → test_bit v.block_bitmap j ≡ true
between v i n j here rest p q = elim (Bool-cases (i == j)) [
  | inl same ↦ ground arith
  | inr other ↦ rest j (ground arith) q
]

scan_lem : (left i : ℕ) (v : Volume) → Scan v i left (allocate_block_from left i v)
unfolding allocate_block_from
scan_lem zero i v = full refl (λ j p q. absurd (omega arith))
scan_lem (suc left) i v = elim (Bool-cases (test_bit v.block_bitmap i)) [
  | inl taken ↦ rw taken (later taken (scan_lem left (i + 1) v))
  | inr clear ↦
      rw clear (found i refl clear (omega arith) (omega arith) (λ j p q. absurd (omega arith)))
]
  where
    later :
        {r : ℕ × Volume}
        → test_bit v.block_bitmap i ≡ true
        → Scan v (i + 1) left r
        → Scan v i (suc left) r
    later t (found n e c lo hi before) =
        found n e c (omega arith) (omega arith) (λ j. between v i n j t before)
    later t (full e all) =
        full e (λ j p q. between v i (i + suc left) j t (λ k a b. all k a (omega arith)) p q)

pub allocate_block-Scan : (v : Volume) → Scan v 0 v.block_bitmap.total_bits (allocate_block v)
unfolding allocate_block
allocate_block-Scan v = scan_lem v.block_bitmap.total_bits 0 v

abbrev pub IsTaken : Volume → ℕ → Type 0
IsTaken v j = test_bit v.block_bitmap j ≡ true

-- The bitmap has words for its bits, its size is a ULONG, and block 0 is reserved: 0 is the answer
-- for a full volume.
pub record IsUsable (v : Volume) : Type 0 where
  pub sized : IsSized v.block_bitmap
  pub small : v.block_bitmap.total_bits < ulong_mod
  pub reserved : IsTaken v 0

-- `n` is the lowest block that was free, and `v'` differs from `v` by it alone.
pub record IsFirstFit (v : Volume) (n : ℕ) (v' : Volume) : Type 0 where
  pub in_range : n < v.block_bitmap.total_bits
  pub was_free : test_bit v.block_bitmap n ≡ false
  pub lowest : (j : ℕ) → j < n → IsTaken v j
  pub bits :
      (j : ℕ) → test_bit v'.block_bitmap j ≡ (if n == j then true else test_bit v.block_bitmap j)
  pub total : v'.block_bitmap.total_bits ≡ v.block_bitmap.total_bits
  pub count : v'.superblock.free_blocks ≡ dec32 v.superblock.free_blocks

-- On a usable volume DslsfsAllocateBlock either returns 0, leaves the volume as it is, and every
-- block is taken; or it returns the lowest free block, which is not 0, takes that block and no
-- other, and lowers the count of free blocks by one.
pub allocate_block-IsFirstFit :
    (v : Volume)
    → IsUsable v
    → ((allocate_block v).0 ≡ 0)
        × ((allocate_block v).1 ≡ v)
        × ((j : ℕ) → j < v.block_bitmap.total_bits → IsTaken v j)
      ⊎ ((allocate_block v).0 ≢ 0) × IsFirstFit v (allocate_block v).0 (allocate_block v).1
allocate_block-IsFirstFit v u = answer (allocate_block-Scan v)
  where
    answer :
        {r : ℕ × Volume}
        → Scan v 0 v.block_bitmap.total_bits r
        → (r.0 ≡ 0) × (r.1 ≡ v) × ((j : ℕ) → j < v.block_bitmap.total_bits → IsTaken v j)
          ⊎ (r.0 ≢ 0) × IsFirstFit v r.0 r.1
    answer (full e all) = rw e (inl (refl, refl, λ j h. all j (omega arith) (omega arith)))
    answer (found n e clear lo hi before) = rw e (
        inr (
          λ z. cc (subst (IsTaken v) (sym z) u.reserved),
          record {
            in_range = omega arith;
            was_free = clear;
            lowest = λ j h. before j (omega arith) h;
            bits = λ j. test_bit-set_bit v.block_bitmap n j u.sized (omega arith);
            total = total_bits-set_bit v.block_bitmap n;
            count = refl;
          },
        ))

pub allocate_block-IsSized : (v : Volume) → IsUsable v → IsSized (allocate_block v).1.block_bitmap
allocate_block-IsSized v u = sized (allocate_block-Scan v)
  where
    sized : {r : ℕ × Volume} → Scan v 0 v.block_bitmap.total_bits r → IsSized r.1.block_bitmap
    sized (full e _) = rw e u.sized
    sized (found n e _ _ _ _) = rw e (set_bit-IsSized v.block_bitmap n u.sized)

restored :
    (v : Volume) (n : ℕ) (v' : Volume)
    → IsUsable v
    → v.superblock.free_blocks < ulong_mod
    → IsFirstFit v n v'
    → IsSized v'.block_bitmap
    → ((j : ℕ) → test_bit (free_block v' n).block_bitmap j ≡ test_bit v.block_bitmap j)
      × ((free_block v' n).superblock.free_blocks ≡ v.superblock.free_blocks)
unfolding free_block
restored v n v' u small fit sized =
    let inside : n < v'.block_bitmap.total_bits = omega (arith, fit.total, fit.in_range) in
    (
      λ j. ground (
        arith,
        inside,
        test_bit-clear_bit v'.block_bitmap n j sized inside,
        fit.bits j,
        fit.was_free,
        ==→eq n j,
      ),
      ground (arith, inside, fit.count),
    )

-- Giving back the block that DslsfsAllocateBlock returned restores every bit and the count of free
-- blocks, on a usable volume whose count is a ULONG and that is not full.
pub free_block-allocate_block :
    (v : Volume)
    → IsUsable v
    → v.superblock.free_blocks < ulong_mod
    → (allocate_block v).0 ≢ 0
    → let back = free_block (allocate_block v).1 (allocate_block v).0 in
      ((j : ℕ) → test_bit back.block_bitmap j ≡ test_bit v.block_bitmap j)
      × (back.superblock.free_blocks ≡ v.superblock.free_blocks)
free_block-allocate_block v u small ne = elim (allocate_block-IsFirstFit v u) [
  | inl (z, _, _) ↦ absurd (ne z)
  | inr (_, fit) ↦
      restored v (allocate_block v).0 (allocate_block v).1 u small fit (allocate_block-IsSized v u)
]
