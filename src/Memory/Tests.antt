-- ===== src/Memory/Tests.antt =====
-- The theorems on physical memory and address spaces at concrete states.
use dsls_os.Base.{
  ℕ, zero, suc, ◌<◌, ◌≡◌, refl, arith, Bool, true, false, [], ◌∷◌, if◌then◌else◌, success,
}
use dsls_os.Base.Count.{count_false}
use dsls_os.Base.Entries.{occurrences, remove_entry}
use dsls_os.Memory.{page_size, PageFrame, Descriptor, MemoryManager}
use dsls_os.Memory.Physical.{frame_at, take_page, allocate_from, allocate, free}
use dsls_os.Memory.Physical.Invariant.{IsConsistent, in_use, free-IsConsistent}
use dsls_os.Memory.Physical.Allocation.{Took, allocate-Took}
use dsls_os.Memory.Startup.{initialize_physical_memory, initialize_physical_memory-IsConsistent}
use dsls_os.Memory.AddressSpace.{Spaces}

abbrev frame : ℕ → Bool → PageFrame
frame i free = record {
  physical_address = i;
  reference_count = 0;
  available = free;
  virtual_mapping = 0;
}

-- The address space of process 9.
abbrev nine : Descriptor
nine = record { process = 9; page_directory = 4096; region_count = 0 }

-- Three frames, of which the first is reserved.
abbrev three_frames : MemoryManager
three_frames = record {
  ranges = [];
  total_physical_pages = 3;
  free_physical_pages = 2;
  page_frames = frame 0 false ∷ frame 4096 true ∷ frame 8192 true ∷ [];
  page_frame_array_size = 3;
  free_page_list = 1 ∷ 2 ∷ [];
  free_page_count = 2;
  address_spaces = nine ∷ [];
  address_space_count = 1;
}

listed :
    (i : ℕ)
    → occurrences i three_frames.free_page_list
      ≡ (if (frame_at three_frames i).available then 1 else 0)
unfolding occurrences
listed zero = refl
listed (suc zero) = refl
listed (suc (suc zero)) = refl
listed (suc (suc (suc i))) = ground arith

unreferenced :
    (i : ℕ)
    → (frame_at three_frames i).available ≡ true
    → (frame_at three_frames i).reference_count ≡ 0
unreferenced zero e = refl
unreferenced (suc zero) e = refl
unreferenced (suc (suc zero)) e = refl
unreferenced (suc (suc (suc i))) e = refl

three_frames-IsConsistent : IsConsistent three_frames
unfolding count_false
three_frames-IsConsistent = record {
  sized = refl;
  small = omega arith;
  counted = refl;
  mirrored = refl;
  listed = listed;
  unreferenced = unreferenced;
}

first_in_use : (j : ℕ) → j < 1 → in_use three_frames j ≡ true
first_in_use zero h = refl
first_in_use (suc j) h = absurd (omega arith)

first_page : (allocate three_frames page_size).0 ≡ 4096
unfolding allocate allocate_from take_page remove_entry
first_page = refl

-- Process 5 has a page directory and no address space.
abbrev spaces : Spaces
spaces = record { memory = three_frames; page_directory = λ p. 12288 }

free-IsConsistent_example : IsConsistent (free three_frames 4096 8192)
free-IsConsistent_example = free-IsConsistent three_frames 4096 8192 three_frames-IsConsistent

allocate-Took_example :
    Took 2 three_frames (allocate three_frames 5000).1 × ((allocate three_frames 5000).0 ≡ 4096)
allocate-Took_example =
    allocate-Took three_frames 5000 1 three_frames-IsConsistent (omega arith) (omega arith)
      (omega arith) refl first_in_use (λ e. omega arith)

initialize_physical_memory-IsConsistent_example :
    ((initialize_physical_memory three_frames true true).0 ≡ success)
    × ((initialize_physical_memory three_frames true true).1.page_frame_array_size ≡ 261888)
    × IsConsistent (initialize_physical_memory three_frames true true).1
initialize_physical_memory-IsConsistent_example =
    initialize_physical_memory-IsConsistent three_frames
