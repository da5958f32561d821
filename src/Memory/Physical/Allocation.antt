-- ===== src/Memory/Physical/Allocation.antt =====
-- What MmAllocatePhysicalMemory takes.
use dsls_os.Base.{
  ℕ, zero, suc, ◌+◌, ◌-◌, ◌≤◌, ◌<◌, ◌≡◌, ◌≢◌, refl, sym, subst, arith, true, false, ◌==◌, ==→eq,
  Bool-cases, inl, inr,
}
use dsls_os.Base.Count.{count_false-le, count_false_none}
use dsls_os.Memory.{MemoryManager}
use dsls_os.Memory.Physical.{frame_at, page_count_of, take_page, allocate_from, allocate}
use dsls_os.Memory.Physical.Invariant.{
  IsConsistent, in_use, take_page-IsConsistent, frame_at-take_page,
}

-- `m'` has `wanted` fewer free pages than `m`, and what was in use is as it was.
pub record Took (wanted : ℕ) (m m' : MemoryManager) : Type 0 where
  pub consistent : IsConsistent m'
  pub fewer : m'.free_page_count + wanted ≡ m.free_page_count
  pub kept : (j : ℕ) → in_use m j ≡ true → frame_at m' j ≡ frame_at m j

Took-zero : (m : MemoryManager) → IsConsistent m → Took 0 m m
Took-zero m c = record { consistent = c; fewer = omega arith; kept = λ j h. refl }

Took-suc :
    (m m' : MemoryManager) (i wanted : ℕ)
    → i < m.page_frame_array_size
    → (frame_at m i).available ≡ true
    → 0 < m.free_page_count
    → IsConsistent m
    → Took wanted (take_page m i) m'
    → Took (suc wanted) m m'
unfolding take_page
Took-suc m m' i wanted inside free some_left c t = record {
  consistent = t.consistent;
  fewer =
      omega (arith, t.fewer, c.counted, c.small, count_false-le (in_use m) m.page_frame_array_size);
  kept = λ j h. ground (arith, t.kept j, frame_at-take_page m i inside c j, free, ==→eq i j);
}

abbrev UsedBelow : ℕ → MemoryManager → Type 0
UsedBelow i m = (j : ℕ) → j < i → in_use m j ≡ true

UsedBelow-suc :
    (m : MemoryManager) (i : ℕ) → in_use m i ≡ true → UsedBelow i m → UsedBelow (suc i) m
UsedBelow-suc m i here below j h = elim (Bool-cases (i == j)) [
  | inl same ↦ ground arith
  | inr other ↦ below j (ground arith)
]

UsedBelow-take_page :
    (m : MemoryManager) (i : ℕ)
    → i < m.page_frame_array_size
    → IsConsistent m
    → UsedBelow i m
    → UsedBelow (i + 1) (take_page m i)
UsedBelow-take_page m i inside c below j h = elim (Bool-cases (i == j)) [
  | inl same ↦ ground (arith, frame_at-take_page m i inside c j)
  | inr other ↦ ground (arith, frame_at-take_page m i inside c j, below j (ground arith))
]

page_frame_array_size-take_page :
    (m : MemoryManager) (i : ℕ) → (take_page m i).page_frame_array_size ≡ m.page_frame_array_size
unfolding take_page
page_frame_array_size-take_page m i = refl

free_page_count-take_page :
    (m : MemoryManager) (i : ℕ)
    → 0 < m.free_page_count
    → IsConsistent m
    → (take_page m i).free_page_count + 1 ≡ m.free_page_count
unfolding take_page
free_page_count-take_page m i h c =
    omega (arith, c.counted, c.small, count_false-le (in_use m) m.page_frame_array_size)

-- With every frame below `i` in use and pages enough, the loop takes all it wants.
allocate_from-Took :
    (left i wanted first : ℕ) (m : MemoryManager)
    → IsConsistent m
    → i + left ≡ m.page_frame_array_size
    → UsedBelow i m
    → wanted ≤ m.free_page_count
    → Took wanted m (allocate_from left i wanted first m).1
unfolding allocate_from
allocate_from-Took zero i zero first m c e below enough = Took-zero m c
allocate_from-Took zero i (suc wanted) first m c e below enough = absurd (
    omega (
      arith,
      c.counted,
      count_false_none (in_use m) m.page_frame_array_size (λ j h. below j (omega arith)),
    ))
allocate_from-Took (suc left) i zero first m c e below enough = Took-zero m c
allocate_from-Took (suc left) i (suc wanted) first m c e below enough =
    elim (Bool-cases (frame_at m i).available) [
      | inr used ↦ rw used (
          allocate_from-Took left (i + 1) (suc wanted) first m c (omega arith)
            (λ j h. UsedBelow-suc m i (rw used) below j (omega arith)) enough)
      | inl free ↦ rw free (
          Took-suc m _ i wanted (omega arith) free (omega arith) c (
            allocate_from-Took left (i + 1) wanted _ (take_page m i)
              (take_page-IsConsistent m i (omega arith) c free)
              (omega (arith, page_frame_array_size-take_page m i))
              (UsedBelow-take_page m i (omega arith) c below)
              (omega (arith, free_page_count-take_page m i (omega arith) c))))
    ]

allocate_from-first :
    (left i wanted first : ℕ) (m : MemoryManager)
    → first ≢ 0
    → (allocate_from left i wanted first m).0 ≡ first
unfolding allocate_from
allocate_from-first zero i wanted first m h = refl
allocate_from-first (suc left) i zero first m h = refl
allocate_from-first (suc left) i (suc wanted) first m h = ground (
  arith,
  allocate_from-first left (i + 1) wanted first (take_page m i) h,
  allocate_from-first left (i + 1) (suc wanted) first m h,
)

allocate_from-lowest :
    (left i wanted n : ℕ) (m : MemoryManager)
    → (frame_at m n).available ≡ true
    → ((j : ℕ) → j < n → in_use m j ≡ true)
    → (frame_at m n).physical_address ≢ 0
    → i ≤ n
    → n < i + left
    → (allocate_from left i (suc wanted) 0 m).0 ≡ (frame_at m n).physical_address
unfolding allocate_from
allocate_from-lowest zero i wanted n m free lowest ne lo hi = absurd (omega arith)
allocate_from-lowest (suc left) i wanted n m free lowest ne lo hi = elim (Bool-cases (i == n)) [
  | inl same ↦
      rw (==→eq i n same, free) (allocate_from-first left (n + 1) wanted _ (take_page m n) ne)
  | inr other ↦
      let used : (frame_at m i).available ≡ false = ground (arith, lowest i (ground arith)) in
      rw used
        (allocate_from-lowest left (i + 1) wanted n m free lowest ne (ground arith) (omega arith))
]

-- The two tests at the head of MmAllocatePhysicalMemory pass.
allocate-run :
    (m : MemoryManager) (size wanted : ℕ)
    → page_count_of size ≡ suc wanted
    → suc wanted ≤ m.free_page_count
    → allocate m size ≡ allocate_from m.page_frame_array_size 0 (suc wanted) 0 m
unfolding allocate
allocate-run m size wanted e enough = ground arith

-- When MmAllocatePhysicalMemory is asked for a positive size and there are as many free pages as
-- that size takes, it makes exactly that many pages unavailable, changes no frame that was in use,
-- and keeps page frames, free list and counters in agreement. It returns the address of the lowest
-- available frame `n`, if that address is not NULL.
pub allocate-Took :
    (m : MemoryManager) (size n : ℕ)
    → IsConsistent m
    → 0 < page_count_of size
    → page_count_of size ≤ m.free_page_count
    → n < m.page_frame_array_size
    → (frame_at m n).available ≡ true
    → ((j : ℕ) → j < n → in_use m j ≡ true)
    → (frame_at m n).physical_address ≢ 0
    → Took (page_count_of size) m (allocate m size).1
      × ((allocate m size).0 ≡ (frame_at m n).physical_address)
allocate-Took m size n c positive enough inside free lowest ne =
    let wanted : ℕ = page_count_of size - 1 in
    let e : page_count_of size ≡ suc wanted = omega arith in
    rw (allocate-run m size wanted e (omega arith)) (
      subst (λ k. Took k m (allocate_from m.page_frame_array_size 0 (suc wanted) 0 m).1) (sym e)
          (allocate_from-Took m.page_frame_array_size 0 (suc wanted) 0 m c (omega arith)
            (λ j h. absurd (omega arith)) (omega arith)),
      allocate_from-lowest m.page_frame_array_size 0 wanted n m free lowest ne (omega arith)
          (omega arith),
    )

-- With too few free pages MmAllocatePhysicalMemory returns NULL and changes nothing.
pub allocate_out_of_memory :
    (m : MemoryManager) (size : ℕ)
    → m.free_page_count < page_count_of size
    → allocate m size ≡ (0, m)
unfolding allocate
allocate_out_of_memory m size h = ground arith
