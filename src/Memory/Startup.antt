-- ===== src/Memory/Startup.antt =====
-- MmInitializePhysicalMemory with MmDetectPhysicalMemoryRanges and MmInitializePageFrameArray: the
-- memory map is fixed, and the page frames and the free list follow from it.
use dsls_os.Base.{
  ℕ, zero, suc, ◌+◌, ◌-◌, ◌/◌, ◌%◌, ◌<◌, ◌≡◌, refl, ap, subst, ◌∙◌, arith, Bool, true, false, not,
  ◌&&◌, List, [], ◌∷◌, ◌++◌, ltb, leb, ◌==◌, if◌then◌else◌, get_or, length, get_or_beyond,
  Bool-cases, inl, inr, ==→eq, Status, success, insufficient_resources, ulong_mod, inc32,
}
use dsls_os.Base.Count.{count_false, count_false-le}
use dsls_os.Base.Entries.{occurrences, occurrences-append}
use dsls_os.Memory.{page_size, size_mod, PageFrame, MemoryRange, MemoryManager}
use dsls_os.Memory.Physical.{no_frame}
use dsls_os.Memory.Physical.Invariant.{IsConsistent}

-- The ranges that MmDetectPhysicalMemoryRanges fills in.
abbrev detected_ranges : List MemoryRange
detected_ranges =
    record { base_address = 0; size = 0x100000; usable = false }
    ∷ record { base_address = 0x100000; size = 0x3FF00000; usable = true }
    ∷ []

-- The sum of the sizes of the available ranges.
unfoldable pub available_bytes : List MemoryRange → ℕ
available_bytes [] = 0
available_bytes (r ∷ rs) = ((if r.usable then r.size else 0) + available_bytes rs) % size_mod

-- Whether the first range that holds the address is available.
unfoldable pub is_available : List MemoryRange → ℕ → Bool
is_available [] address = false
is_available (r ∷ rs) address =
    if leb r.base_address address && ltb address ((r.base_address + r.size) % size_mod)
    then r.usable
    else is_available rs address

-- The frames of MmInitializePageFrameArray from an address on.
unfoldable pub frames_from : List MemoryRange → ℕ → ℕ → List PageFrame
frames_from ranges zero address = []
frames_from ranges (suc left) address =
    record {
      physical_address = address;
      reference_count = 0;
      available = is_available ranges address;
      virtual_mapping = 0;
    }
    ∷ frames_from ranges left ((address + page_size) % size_mod)

-- The loop of MmInitializePhysicalMemory over the frames from `i` on, on the free list and its
-- count.
unfoldable pub add_free_pages : List PageFrame → ℕ → ℕ → List ℕ → ℕ → List ℕ × ℕ
add_free_pages frames zero i pages count = (pages, count)
add_free_pages frames (suc left) i pages count =
    let added = add_free_pages frames left (suc i) (pages ++ i ∷ []) (inc32 count) in
    let skipped = add_free_pages frames left (suc i) pages count in
    if (get_or frames i no_frame).available then added else skipped

-- The page frame array and the free list for a number of pages.
abbrev with_frames : MemoryManager → ℕ → MemoryManager
with_frames m pages =
    let frames = frames_from detected_ranges pages 0 in
    let (list, count) = add_free_pages frames pages 0 [] 0 in
    record m {
      ranges = detected_ranges;
      total_physical_pages = pages;
      page_frame_array_size = pages;
      page_frames = frames;
      free_page_list = list;
      free_page_count = count;
      free_physical_pages = count;
    }

-- MmInitializePhysicalMemory; the two options say whether ExAllocatePool gives the ranges and the
-- frame array. Where it does not, the function fails with the sizes already set.
unfoldable pub initialize_physical_memory : MemoryManager → Bool → Bool → Status × MemoryManager
initialize_physical_memory m range_pool frame_pool =
    let pages = available_bytes detected_ranges / page_size % ulong_mod in
    if not range_pool
    then (insufficient_resources, record m { ranges = [] })
    else if not frame_pool
    then (
      insufficient_resources,
      record m {
        ranges = detected_ranges;
        total_physical_pages = pages;
        page_frame_array_size = pages;
        page_frames = [];
      },
    )
    else (success, with_frames m pages)

length-frames_from :
    (ranges : List MemoryRange) (left address : ℕ) → length (frames_from ranges left address) ≡ left
unfolding frames_from
length-frames_from ranges zero address = refl
length-frames_from ranges (suc left) address =
    ap suc (length-frames_from ranges left ((address + page_size) % size_mod))

unreferenced :
    (ranges : List MemoryRange) (left address i : ℕ)
    → (get_or (frames_from ranges left address) i no_frame).reference_count ≡ 0
unfolding frames_from
unreferenced ranges zero address i = refl
unreferenced ranges (suc left) address zero = refl
unreferenced ranges (suc left) address (suc i) =
    unreferenced ranges left ((address + page_size) % size_mod) i

-- The free list and its count when the frames below `i` have been looked at.
record Filled (frames : List PageFrame) (i : ℕ) (r : List ℕ × ℕ) : Type 0 where
  pages :
      (j : ℕ)
      → occurrences j r.0 ≡ (if ltb j i && (get_or frames j no_frame).available then 1 else 0)
  count : r.1 ≡ count_false (λ j. not (get_or frames j no_frame).available) i

module _ (frames : List PageFrame) where
  Filled-suc_free :
      (i : ℕ) (pages : List ℕ) (count : ℕ)
      → i < ulong_mod - 1
      → (get_or frames i no_frame).available ≡ true
      → Filled frames i (pages, count)
      → Filled frames (suc i) (pages ++ i ∷ [], inc32 count)
  unfolding count_false
  Filled-suc_free i pages count small free f = record {
    pages = λ j. elim (Bool-cases (i == j)) [
      | inl same ↦
          occurrences-append i j pages ∙ rw (same, f.pages j, ← ==→eq i j same, free) (ground arith)
      | inr other ↦ occurrences-append i j pages ∙ rw (other, f.pages j) (ground arith)
    ];
    count =
        rw free (
          omega (arith, f.count, count_false-le (λ j. not (get_or frames j no_frame).available) i));
  }

  Filled-suc_taken :
      (i : ℕ) (r : List ℕ × ℕ)
      → (get_or frames i no_frame).available ≡ false
      → Filled frames i r
      → Filled frames (suc i) r
  unfolding count_false
  Filled-suc_taken i r taken f = record {
    pages = λ j. elim (Bool-cases (i == j)) [
      | inl same ↦ rw (f.pages j, ← ==→eq i j same, taken) (ground arith)
      | inr other ↦ rw (f.pages j) (ground arith)
    ];
    count = rw taken (omega (arith, f.count));
  }

  add_free_pages-Filled :
      (n left i : ℕ) (pages : List ℕ) (count : ℕ)
      → i + left ≡ n
      → n < ulong_mod
      → Filled frames i (pages, count)
      → Filled frames n (add_free_pages frames left i pages count)
  unfolding add_free_pages
  add_free_pages-Filled n zero i pages count e small f =
      subst (λ k. Filled frames k (pages, count)) (omega arith) f
  add_free_pages-Filled n (suc left) i pages count e small f =
      elim (Bool-cases (get_or frames i no_frame).available) [
        | inl free ↦ rw free (
            add_free_pages-Filled n left (suc i) (pages ++ i ∷ []) (inc32 count) (omega arith) small
              (Filled-suc_free i pages count (omega arith) free f))
        | inr taken ↦ rw taken (
            add_free_pages-Filled n left (suc i) pages count (omega arith) small
              (Filled-suc_taken i (pages, count) taken f))
      ]

  Filled-start : Filled frames 0 ([], 0)
  unfolding occurrences count_false
  Filled-start = record { pages = λ j. ground arith; count = refl }

with_frames-IsConsistent :
    (m : MemoryManager) (pages : ℕ) → pages < ulong_mod → IsConsistent (with_frames m pages)
with_frames-IsConsistent m pages small =
    let frames = frames_from detected_ranges pages 0 in
    let sized = length-frames_from detected_ranges pages 0 in
    let filled =
      add_free_pages-Filled frames pages pages 0 [] 0 (omega arith) small (Filled-start frames) in
    record {
      sized = sized;
      small = small;
      counted = filled.count;
      mirrored = refl;
      listed = λ j. filled.pages j ∙ elim (Bool-cases (ltb j pages)) [
        | inl inside ↦ rw inside refl
        | inr outside ↦ rw (outside, get_or_beyond frames j no_frame (ground (arith, sized))) refl
      ];
      unreferenced = λ j free. unreferenced detected_ranges pages 0 j;
    }

-- MmInitializePhysicalMemory, when the pool gives its two arrays, reports success, manages 261888
-- page frames, and leaves page frames, free list and counters in agreement.
pub initialize_physical_memory-IsConsistent :
    (m : MemoryManager)
    → ((initialize_physical_memory m true true).0 ≡ success)
      × ((initialize_physical_memory m true true).1.page_frame_array_size ≡ 261888)
      × IsConsistent (initialize_physical_memory m true true).1
unfolding initialize_physical_memory available_bytes
initialize_physical_memory-IsConsistent m =
    (refl, refl, with_frames-IsConsistent m 261888 (omega arith))
