-- ===== src/Memory/AddressSpace.antt =====
-- MmCreateAddressSpace and MmDestroyAddressSpace. The PageDirectory fields of the process control
-- blocks are a function from the block's address. Zeroing the directory's page is not modelled,
-- since no content of memory is.
use dsls_os.Base.{
  ℕ, suc, ◌+◌, ◌<◌, ◌≡◌, ◌≢◌, refl, sym, ap, ◌∙◌, arith, Bool, true, false, Option, none, some,
  List, [], ◌∷◌, ◌++◌, ◌==◌, if◌then◌else◌, Status, success, invalid_parameter,
  insufficient_resources, inc32, dec32, ulong_mod, ==_refl, ne→==, ltb, zero, Bool-cases, inl, inr,
  dec32-inc32, fun_ext, ap₂, subst,
}
use dsls_os.Memory.{page_size, Descriptor, MemoryManager}
use dsls_os.Memory.Physical.{allocate, free, allocate_from, take_page, frame_at, page_count_of}

-- What the two functions read and write.
pub record Spaces : Type 0 where
  pub memory : MemoryManager
  pub page_directory : ℕ → ℕ

abbrev pub update : (ℕ → ℕ) → ℕ → ℕ → ℕ → ℕ
update f k v j = if k == j then v else f j

abbrev pub new_descriptor : ℕ → ℕ → Descriptor
new_descriptor process directory = record {
  process = process;
  page_directory = directory;
  region_count = 0;
}

-- MmCreateAddressSpace once the directory is allocated and the pool has given a descriptor.
abbrev add_descriptor : Spaces → MemoryManager → ℕ → ℕ → Spaces
add_descriptor s m process directory = record {
  memory = record m {
    address_spaces = m.address_spaces ++ new_descriptor process directory ∷ [];
    address_space_count = inc32 m.address_space_count;
  };
  page_directory = update s.page_directory process directory;
}

-- MmCreateAddressSpace; `pool` says whether ExAllocatePool gives a descriptor.
pub create : Spaces → ℕ → Bool → Status × Spaces
create s process pool =
    let (directory, m) = allocate s.memory page_size in
    if process == 0
    then (invalid_parameter, s)
    else if directory == 0
    then (insufficient_resources, record s { memory = m })
    else if pool
    then (success, add_descriptor s m process directory)
    else (insufficient_resources, record s { memory = free m directory page_size })

-- The search of MmDestroyAddressSpace: `last` is the variable `descriptor`, which keeps the last
-- entry that was looked at. It returns that variable, the list without the entry that matched, and
-- whether one matched.
pub find_descriptor :
    ℕ → Option Descriptor → List Descriptor → Option Descriptor × List Descriptor × Bool
find_descriptor process last [] = (last, [], false)
find_descriptor process last (d ∷ ds) =
    let (found, rest, hit) = find_descriptor process (some d) ds in
    if d.process == process then (some d, ds, true) else (found, d ∷ rest, hit)

-- The list and the count after the search.
abbrev searched : MemoryManager → List Descriptor × Bool → MemoryManager
searched m (rest, hit) = record m {
  address_spaces = rest;
  address_space_count = if hit then dec32 m.address_space_count else m.address_space_count;
}

abbrev released : Spaces → MemoryManager → ℕ → Option Descriptor → Spaces
released s m process none = record s { memory = m }
released s m process (some d) = record {
  memory = free m d.page_directory page_size;
  page_directory = update s.page_directory process 0;
}

-- MmDestroyAddressSpace; the option is the descriptor that goes to ExFreePool.
pub destroy : Spaces → ℕ → Status × Option Descriptor × Spaces
destroy s process =
    let (found, rest, hit) = find_descriptor process none s.memory.address_spaces in
    if process == 0
    then (invalid_parameter, none, s)
    else if s.page_directory process == 0
    then (invalid_parameter, none, s)
    else (success, found, released s (searched s.memory (rest, hit)) process found)

-- No address space of the list belongs to the process.
abbrev pub Absent : ℕ → List Descriptor → Type 0
Absent process [] = Unit {0}
Absent process (d ∷ ds) = (d.process ≢ process) × Absent process ds

find_descriptor-append :
    (process : ℕ) (last : Option Descriptor) (ds : List Descriptor) (d : Descriptor)
    → Absent process ds
    → find_descriptor process last (ds ++ d ∷ [])
      ≡ (some d, (if d.process == process then ds else ds ++ d ∷ []), (d.process == process))
unfolding find_descriptor
find_descriptor-append process last [] d a = ground arith
find_descriptor-append process last (x ∷ ds) d a =
    ground (arith, find_descriptor-append process (some x) ds d a.1)

Absent-last :
    (process : ℕ) (ds : List Descriptor) (d : Descriptor)
    → Absent process (ds ++ d ∷ [])
    → d.process ≢ process
Absent-last process [] d a = a.0
Absent-last process (x ∷ ds) d a = Absent-last process ds d a.1

find_descriptor-Absent :
    (process : ℕ) (last : Option Descriptor) (ds : List Descriptor) (d : Descriptor)
    → Absent process (ds ++ d ∷ [])
    → find_descriptor process last (ds ++ d ∷ []) ≡ (some d, ds ++ d ∷ [], false)
unfolding find_descriptor
find_descriptor-Absent process last [] d a = ground arith
find_descriptor-Absent process last (x ∷ ds) d a =
    ground (arith, find_descriptor-Absent process (some x) ds d a.1)

destroy-Found :
    (s : Spaces) (process : ℕ) (found : Option Descriptor) (rest : List Descriptor) (hit : Bool)
    → process ≢ 0
    → s.page_directory process ≢ 0
    → find_descriptor process none s.memory.address_spaces ≡ (found, rest, hit)
    → destroy s process ≡ (success, found, released s (searched s.memory (rest, hit)) process found)
unfolding destroy
destroy-Found s process found rest hit ne dir e = rw (e, ne→== process 0 ne, ne→== _ 0 dir) refl

searched_same :
    (m : MemoryManager) (l : List Descriptor) → m.address_spaces ≡ l → searched m (l, false) ≡ m
searched_same m l e = ap (λ l. searched m (l, false)) (sym e)

-- MmDestroyAddressSpace of a process that has a page directory but no address space in the list,
-- while other address spaces are in the list: it reports success, leaves the list as it is, and
-- yet frees the page directory and the descriptor of the last address space of the list, which
-- belongs to another process.
pub destroy-Absent :
    (s : Spaces) (process : ℕ) (ds : List Descriptor) (d : Descriptor)
    → process ≢ 0
    → s.page_directory process ≢ 0
    → s.memory.address_spaces ≡ ds ++ d ∷ []
    → Absent process (ds ++ d ∷ [])
    → destroy s process ≡ (
      success,
      some d,
      record {
        memory = free s.memory d.page_directory page_size;
        page_directory = update s.page_directory process 0;
      },
    )
destroy-Absent s process ds d ne dir e a =
    destroy-Found s process (some d) (ds ++ d ∷ []) false ne dir
      (ap (find_descriptor process none) e ∙ find_descriptor-Absent process none ds d a)
    ∙ ap (λ m. (success, some d, released s m process (some d)))
        (searched_same s.memory (ds ++ d ∷ []) e)

address_spaces-allocate_from :
    (left i wanted first : ℕ) (m : MemoryManager)
    → ((allocate_from left i wanted first m).1.address_spaces ≡ m.address_spaces)
      × ((allocate_from left i wanted first m).1.address_space_count ≡ m.address_space_count)
unfolding allocate_from take_page
address_spaces-allocate_from zero i wanted first m = (refl, refl)
address_spaces-allocate_from (suc left) i zero first m = (refl, refl)
address_spaces-allocate_from (suc left) i (suc wanted) first m =
    elim (Bool-cases (frame_at m i).available) [
      | inl e ↦ rw e (
          address_spaces-allocate_from left (i + 1) wanted
            (if first == 0 then (frame_at m i).physical_address else first) (take_page m i))
      | inr e ↦ rw e (address_spaces-allocate_from left (i + 1) (suc wanted) first m)
    ]

address_spaces-allocate :
    (m : MemoryManager) (size : ℕ)
    → ((allocate m size).1.address_spaces ≡ m.address_spaces)
      × ((allocate m size).1.address_space_count ≡ m.address_space_count)
unfolding allocate
address_spaces-allocate m size = elim (Bool-cases (size == 0)) [
  | inl e ↦ rw e (refl, refl)
  | inr e ↦ elim (Bool-cases (ltb m.free_page_count (page_count_of size))) [
    | inl f ↦ rw (e, f) (refl, refl)
    | inr f ↦
        rw (e, f) (address_spaces-allocate_from m.page_frame_array_size 0 (page_count_of size) 0 m)
  ]
]

create-success :
    (s : Spaces) (process : ℕ)
    → process ≢ 0
    → (allocate s.memory page_size).0 ≢ 0
    → create s process true ≡ (
      success,
      add_descriptor s (allocate s.memory page_size).1 process (allocate s.memory page_size).0,
    )
unfolding create
create-success s process ne dir = rw (ne→== process 0 ne, ne→== _ 0 dir) refl

update-update : (f : ℕ → ℕ) (k v w : ℕ) → update (update f k v) k w ≡ update f k w
update-update f k v w = fun_ext (λ j. ground arith)

-- The descriptor that was added last is the one that is found.
find_descriptor_new :
    (process directory : ℕ) (ds : List Descriptor)
    → Absent process ds
    → find_descriptor process none (ds ++ new_descriptor process directory ∷ [])
      ≡ (some (new_descriptor process directory), ds, true)
find_descriptor_new process directory ds a =
    find_descriptor-append process none ds (new_descriptor process directory) a
    ∙ rw (==_refl process) refl

restored :
    (m : MemoryManager) (l : List Descriptor) (n : ℕ)
    → m.address_spaces ≡ l
    → m.address_space_count ≡ n
    → n < ulong_mod
    → searched (record m { address_space_count = inc32 m.address_space_count }) (l, true) ≡ m
restored m l n e f h =
    rw (sym e, dec32-inc32 m.address_space_count (subst (λ k. k < ulong_mod) (sym f) h)) refl

-- When a process without an address space gets one by a call of MmCreateAddressSpace for which the
-- page and the descriptor can be allocated, that call reports success, and MmDestroyAddressSpace
-- undoes it: it reports success, gives back the descriptor that was made, and leaves the memory
-- manager as freeing the directory right after its allocation would, with the process's page
-- directory cleared and every other one as it was.
pub destroy-create :
    (s : Spaces) (process : ℕ)
    → process ≢ 0
    → (allocate s.memory page_size).0 ≢ 0
    → Absent process s.memory.address_spaces
    → s.memory.address_space_count < ulong_mod
    → ((create s process true).0 ≡ success)
      × (destroy (create s process true).1 process ≡ (
        success,
        some (new_descriptor process (allocate s.memory page_size).0),
        record {
          memory = free (allocate s.memory page_size).1 (allocate s.memory page_size).0 page_size;
          page_directory = update s.page_directory process 0;
        },
      ))
destroy-create s process ne dir a small =
    let directory = (allocate s.memory page_size).0 in
    let m = (allocate s.memory page_size).1 in
    let e = address_spaces-allocate s.memory page_size in
    let t = add_descriptor s m process directory in
    let found =
      ap (λ l. find_descriptor process none (l ++ new_descriptor process directory ∷ [])) e.0
      ∙ find_descriptor_new process directory s.memory.address_spaces a in
    let run =
      destroy-Found t process (some (new_descriptor process directory)) s.memory.address_spaces true
        ne (λ z. dir (sym (rw (==_refl process) refl) ∙ z)) found in
    rw (create-success s process ne dir) (
      refl,
      run
          ∙ ap₂
              (λ x y. (
                success,
                some (new_descriptor process directory),
                record { memory = free x directory page_size; page_directory = y },
              ))
              (restored m s.memory.address_spaces s.memory.address_space_count e.0 e.1 small)
              (update-update s.page_directory process directory 0),
    )
