-- ===== src/Memory/Physical/Invariant.antt =====
-- The invariant of physical memory: page frames, free list and counters.
use dsls_os.Base.{
  ℕ, zero, suc, ◌+◌, ◌-◌, ◌<◌, ◌≡◌, ◌≢◌, refl, fun_ext, arith, Bool, true, false, not, List, ltb,
  ◌==◌, if◌then◌else◌, get_or, set, length, length-set, get_or-set_self, get_or-set_ne, ulong_mod,
  ==→eq, ltb→lt, Bool-cases, inl, inr,
}
use dsls_os.Base.Entries.{occurrences, occurrences-remove_entry, occurrences-append}
use dsls_os.Base.Count.{count_false, count_false-le, count_false-changed, changed}
use dsls_os.Memory.{PageFrame, MemoryManager}
use dsls_os.Memory.Physical.{
  no_frame, frame_at, page_count_of, take_page, release_page, free_page, free_from, free,
  page_index,
}

abbrev pub in_use : MemoryManager → ℕ → Bool
in_use m i = not (frame_at m i).available

-- The number of available frames.
abbrev pub available_pages : MemoryManager → ℕ
available_pages m = count_false (in_use m) m.page_frame_array_size

pub record IsConsistent (m : MemoryManager) : Type 0 where
  pub sized : length m.page_frames ≡ m.page_frame_array_size
  pub small : m.page_frame_array_size < ulong_mod
  pub counted : m.free_page_count ≡ available_pages m
  pub mirrored : m.free_physical_pages ≡ m.free_page_count
  -- The free list holds each available frame once, and no other.
  pub listed :
      (i : ℕ) → occurrences i m.free_page_list ≡ (if (frame_at m i).available then 1 else 0)
  pub unreferenced : (i : ℕ) → (frame_at m i).available ≡ true → (frame_at m i).reference_count ≡ 0

frame_at-set :
    (frames : List PageFrame) (i j : ℕ) (f : PageFrame)
    → i < length frames
    → get_or (set frames i f) j no_frame ≡ (if i == j then f else get_or frames j no_frame)
frame_at-set frames i j f h = elim (Bool-cases (i == j)) [
  | inl same ↦ rw (same, ← ==→eq i j same) (get_or-set_self frames i f no_frame h)
  | inr other ↦ rw other (get_or-set_ne frames i j f no_frame (ground arith))
]

-- Replacing frame `i` changes the count of frames in use by that frame alone.
available_pages-set :
    (m m' : MemoryManager) (i : ℕ) (f : PageFrame)
    → i < m.page_frame_array_size
    → length m.page_frames ≡ m.page_frame_array_size
    → m'.page_frame_array_size ≡ m.page_frame_array_size
    → m'.page_frames ≡ set m.page_frames i f
    → available_pages m' + (if in_use m i then 0 else 1)
      ≡ available_pages m + (if not f.available then 0 else 1)
available_pages-set m m' i f inside sized e frames =
    rw (fun_ext {f = in_use m'} {g = changed (in_use m) i (not f.available)} pointwise, e)
      (count_false-changed (in_use m) i (not f.available) m.page_frame_array_size inside)
  where
    pointwise : (j : ℕ) → in_use m' j ≡ (if i == j then not f.available else in_use m j)
    pointwise j =
        rw frames (rw (frame_at-set m.page_frames i j f (omega (arith, sized))) (ground arith))

module _ (m : MemoryManager) (i : ℕ) (inside : i < m.page_frame_array_size)
    (c : IsConsistent m) where
  at :
      (f : PageFrame) (j : ℕ)
      → get_or (set m.page_frames i f) j no_frame ≡ (if i == j then f else frame_at m j)
  at f j = frame_at-set m.page_frames i j f (omega (arith, c.sized))

  pub frame_at-take_page :
      (j : ℕ)
      → frame_at (take_page m i) j ≡ (
          if i == j
          then record (frame_at m i) { available = false; reference_count = 1 }
          else frame_at m j)
  unfolding take_page
  frame_at-take_page j = at (record (frame_at m i) { available = false; reference_count = 1 }) j

  pub take_page-IsConsistent : (frame_at m i).available ≡ true → IsConsistent (take_page m i)
  unfolding take_page
  take_page-IsConsistent free =
      let f : PageFrame = record (frame_at m i) { available = false; reference_count = 1 } in
      let pages = available_pages-set m (take_page m i) i f inside c.sized refl refl in
      let bound = count_false-le (in_use m) m.page_frame_array_size in
      record {
        sized = omega (arith, length-set m.page_frames i f, c.sized);
        small = c.small;
        counted = ground (arith, pages, free, c.counted, c.small, bound);
        mirrored = omega (arith, c.mirrored);
        listed = λ j. ground (
          arith,
          at f j,
          c.listed j,
          free,
          occurrences-remove_entry i j m.free_page_list,
          ==→eq i j,
        );
        unreferenced = λ j. ground (arith, at f j, c.unreferenced j);
      }

  pub release_page-IsConsistent : (frame_at m i).available ≡ false → IsConsistent (release_page m i)
  unfolding release_page
  release_page-IsConsistent used =
      let f : PageFrame = record (frame_at m i) {
        reference_count = 0;
        available = true;
        virtual_mapping = 0;
      } in
      let pages = available_pages-set m (release_page m i) i f inside c.sized refl refl in
      let bound = count_false-le (in_use (release_page m i)) m.page_frame_array_size in
      record {
        sized = omega (arith, length-set m.page_frames i f, c.sized);
        small = c.small;
        counted = ground (arith, pages, used, c.counted, c.small, bound);
        mirrored = omega (arith, c.mirrored);
        listed = λ j.
            ground
              (arith, at f j, c.listed j, used, occurrences-append i j m.free_page_list, ==→eq i j);
        unreferenced = λ j. ground (arith, at f j, c.unreferenced j);
      }

  drop_reference-IsConsistent :
      (f : PageFrame)
      → f.available ≡ (frame_at m i).available
      → (frame_at m i).available ≡ false
      → IsConsistent (record m { page_frames = set m.page_frames i f })
  drop_reference-IsConsistent f same used =
      let pages =
        available_pages-set m (record m { page_frames = set m.page_frames i f }) i f inside c.sized
          refl refl in
      record {
        sized = omega (arith, length-set m.page_frames i f, c.sized);
        small = c.small;
        counted = ground (arith, pages, used, same, c.counted);
        mirrored = c.mirrored;
        listed = λ j. ground (arith, at f j, c.listed j, used, same, ==→eq i j);
        unreferenced = λ j. ground (arith, at f j, c.unreferenced j, same, used);
      }

  -- A frame with references is not available.
  used_of_referenced : (frame_at m i).reference_count ≢ 0 → (frame_at m i).available ≡ false
  used_of_referenced ne = ground (arith, c.unreferenced i)

pub free_page-IsConsistent :
    (m : MemoryManager) (i : ℕ) → IsConsistent m → IsConsistent (free_page m i)
unfolding free_page
free_page-IsConsistent m i c = elim (Bool-cases (ltb i m.page_frame_array_size)) [
  | inr outside ↦ rw outside c
  | inl within ↦ rw within (elim (Bool-cases ((frame_at m i).reference_count == 0)) [
    | inl unused ↦ rw unused c
    | inr held ↦
        let used = used_of_referenced m i (ltb→lt i _ within) c (ground arith) in
        rw held (elim (Bool-cases ((frame_at m i).reference_count == 1)) [
          | inl last ↦ rw last (release_page-IsConsistent m i (ltb→lt i _ within) c used)
          | inr more ↦ rw more (
              drop_reference-IsConsistent m i (ltb→lt i _ within) c
                (record (frame_at m i) { reference_count = (frame_at m i).reference_count - 1 })
                refl used)
        ])
  ])
]

free_from-IsConsistent :
    (left i base : ℕ) (m : MemoryManager) → IsConsistent m → IsConsistent (free_from left i base m)
unfolding free_from
free_from-IsConsistent zero i base m c = c
free_from-IsConsistent (suc left) i base m c =
    free_from-IsConsistent left (i + 1) base (free_page m (page_index base i))
      (free_page-IsConsistent m (page_index base i) c)

-- MmFreePhysicalMemory of any address and size, allocated or not, keeps page frames, free list and
-- counters in agreement.
pub free-IsConsistent :
    (m : MemoryManager) (address size : ℕ) → IsConsistent m → IsConsistent (free m address size)
unfolding free
free-IsConsistent m address size c =
    ground (arith, c, free_from-IsConsistent (page_count_of size) 0 address m c)
