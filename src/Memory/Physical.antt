-- ===== src/Memory/Physical.antt =====
-- MmAllocatePhysicalMemory and MmFreePhysicalMemory.
pub mod Invariant
pub mod Allocation
use dsls_os.Base.{
  ℕ, zero, suc, ◌+◌, ◌-◌, ◌*◌, ◌/◌, ◌%◌, Bool, true, false, List, [], ◌∷◌, ◌++◌, ltb, ◌==◌,
  if◌then◌else◌, get_or, set, ulong_mod, inc32, dec32,
}
use dsls_os.Base.Entries.{remove_entry}
use dsls_os.Memory.{page_size, size_mod, PageFrame, MemoryManager}

abbrev pub no_frame : PageFrame
no_frame = record {
  physical_address = 0;
  reference_count = 0;
  available = false;
  virtual_mapping = 0;
}

abbrev pub frame_at : MemoryManager → ℕ → PageFrame
frame_at m i = get_or m.page_frames i no_frame

-- `(Size + DSLOS_PAGE_SIZE - 1) / DSLOS_PAGE_SIZE`
abbrev pub page_count_of : ℕ → ℕ
page_count_of size = (size + (page_size - 1)) % size_mod / page_size

-- What the loop of MmAllocatePhysicalMemory does to an available frame.
unfoldable pub take_page : MemoryManager → ℕ → MemoryManager
take_page m i = record m {
  page_frames =
      set m.page_frames i (record (frame_at m i) { available = false; reference_count = 1 });
  free_page_list = remove_entry i m.free_page_list;
  free_page_count = dec32 m.free_page_count;
  free_physical_pages = dec32 m.free_physical_pages;
}

-- The loop from frame `i` on: `left` frames to go, `wanted` pages to allocate, and the address of
-- the first page that was allocated, NULL before that.
unfoldable pub allocate_from : ℕ → ℕ → ℕ → ℕ → MemoryManager → ℕ × MemoryManager
allocate_from zero i wanted first m = (first, m)
allocate_from (suc left) i zero first m = (first, m)
allocate_from (suc left) i (suc wanted) first m =
    let taken =
      allocate_from left (i + 1) wanted
        (if first == 0 then (frame_at m i).physical_address else first) (take_page m i) in
    let skipped = allocate_from left (i + 1) (suc wanted) first m in
    if (frame_at m i).available then taken else skipped

-- MmAllocatePhysicalMemory
unfoldable pub allocate : MemoryManager → ℕ → ℕ × MemoryManager
allocate m size =
    if size == 0
    then (0, m)
    else if ltb m.free_page_count (page_count_of size)
    then (0, m)
    else allocate_from m.page_frame_array_size 0 (page_count_of size) 0 m

-- What the loop of MmFreePhysicalMemory does to a frame whose count falls to 0.
unfoldable pub release_page : MemoryManager → ℕ → MemoryManager
release_page m i = record m {
  page_frames =
      set m.page_frames i
        (record (frame_at m i) { reference_count = 0; available = true; virtual_mapping = 0 });
  free_page_list = m.free_page_list ++ i ∷ [];
  free_page_count = inc32 m.free_page_count;
  free_physical_pages = inc32 m.free_physical_pages;
}

-- One round of the loop of MmFreePhysicalMemory, at the frame with index `i`.
unfoldable pub free_page : MemoryManager → ℕ → MemoryManager
free_page m i =
    if ltb i m.page_frame_array_size
    then (if (frame_at m i).reference_count == 0
        then m
        else if (frame_at m i).reference_count == 1
        then release_page m i
        else record m {
          page_frames =
              set m.page_frames i
                (record (frame_at m i) { reference_count = (frame_at m i).reference_count - 1 });
        })
    else m

-- `(ULONG)((base_address + i * DSLOS_PAGE_SIZE) / DSLOS_PAGE_SIZE)`
abbrev pub page_index : ℕ → ℕ → ℕ
page_index base i = (base + i * page_size) % size_mod / page_size % ulong_mod

unfoldable pub free_from : ℕ → ℕ → ℕ → MemoryManager → MemoryManager
free_from zero i base m = m
free_from (suc left) i base m = free_from left (i + 1) base (free_page m (page_index base i))

-- MmFreePhysicalMemory
unfoldable pub free : MemoryManager → ℕ → ℕ → MemoryManager
free m address size =
    if address == 0 then m else if size == 0 then m else free_from (page_count_of size) 0 address m
