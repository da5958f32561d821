-- ===== src/Objects.antt =====
-- kernel/src/object_manager.c: kernel objects with reference counts, and handles. An object is named
-- by its address and NULL is 0; the objects are a function from addresses, and `allocated` says which
-- blocks of the pool are in use. A LONG is the number of its 32 bits, so a negative count is one from
-- 2^31 on. Locks are left out. The field DeleteProcedure is never set in the repository, so the
-- call of a delete procedure is left out as well.
pub mod Lifetime
pub mod Refinement
pub mod Handles
mod Tests
use Prim.Native.Nat.{bit_and, bit_or}
use dsls_os.Base.{
  store, ℕ, ◌+◌, ◌-◌, ◌^◌, Bool, true, false, not, ◌&&◌, ◌||◌, List, [], ◌∷◌, ◌++◌, ltb, leb, ◌==◌,
  if◌then◌else◌, Status, success, unsuccessful, invalid_parameter, insufficient_resources,
  invalid_handle, object_name_not_found, buffer_too_small, nt_success, inc32, dec32,
}
use dsls_os.Base.Entries.{remove_entry}

-- KERNEL_OBJECT_TYPE_MAX
abbrev pub type_max : ℕ
type_max = 10

-- KERNEL_OBJECT
pub record Object : Type 0 where
  pub object_type : ℕ
  pub reference_count : ℕ
  pub flags : ℕ
  pub security_descriptor : ℕ

-- OBJECT_MANAGER_STATE; of the object types the counts of objects and handles, and of the handle table
-- its address, size and count.
pub record ObjectManager : Type 0 where
  pub initialized : Bool
  pub object_list : List ℕ
  pub object_count : ℕ
  pub object_type_count : ℕ
  pub total_objects : ℕ → ℕ
  pub total_handles : ℕ → ℕ
  pub table : ℕ
  pub table_size : ℕ
  pub handle_count : ℕ
  pub objects : ℕ → Object
  pub allocated : ℕ → Bool

-- ExAllocatePool that returns `block`, and ExFreePool.
abbrev pub allocate_pool : ObjectManager → ℕ → ObjectManager
allocate_pool s block = record s { allocated = store s.allocated block true }

abbrev pub free_pool : ObjectManager → ℕ → ObjectManager
free_pool s block = record s { allocated = store s.allocated block false }

-- ObInitializeHandleTable of the global table, given the block that the pool has for it.
abbrev pub initialize_handle_table : ObjectManager → ℕ → Status × ObjectManager
initialize_handle_table s block = if block == 0 then (insufficient_resources, s) else (
  success,
  record (allocate_pool s block) { table = block; table_size = 1024; handle_count = 0 },
)

-- ObInitializeObjectTypes: every type but the unused type 0.
abbrev pub initialize_object_types : ObjectManager → ObjectManager
initialize_object_types s = record s {
  total_objects = λ k. if k == 0 then s.total_objects k else 0;
  total_handles = λ k. if k == 0 then s.total_handles k else 0;
  object_type_count = type_max;
}

-- ObInitializeObjectManager
unfoldable pub initialize : ObjectManager → ℕ → Status × ObjectManager
initialize s block =
    let emptied = record s { object_list = []; object_count = 0; object_type_count = 0 } in
    let (status, tabled) = initialize_handle_table emptied block in
    if s.initialized
    then (success, s)
    else if nt_success status
    then (success, record (initialize_object_types tabled) { initialized = true })
    else (status, tabled)

-- The header of a new object.
abbrev pub new_object : ℕ → Object
new_object type = record {
  object_type = type;
  reference_count = 1;
  flags = 0;
  security_descriptor = 0;
}

-- ObCreateObject; `big_enough` is that the size is not below that of KERNEL_OBJECT, and `block` is what
-- the pool returns.
unfoldable pub create : ObjectManager → ℕ → Bool → ℕ → Status × ℕ × ObjectManager
create s type big_enough block =
    if leb type_max type || not big_enough
    then (invalid_parameter, 0, s)
    else if not s.initialized
    then (unsuccessful, 0, s)
    else if block == 0
    then (insufficient_resources, 0, s)
    else (
      success,
      block,
      record (allocate_pool s block) {
        objects = store s.objects block (new_object type);
        object_list = s.object_list ++ block ∷ [];
        object_count = inc32 s.object_count;
        total_objects = store s.total_objects type (inc32 (s.total_objects type));
      },
    )

-- ObReferenceObject
unfoldable pub reference : ObjectManager → ℕ → ObjectManager
reference s o = if o == 0 then s else record s {
  objects =
      store s.objects o
        (record (s.objects o) { reference_count = inc32 (s.objects o).reference_count });
}

-- ObDeleteObject
unfoldable pub delete : ObjectManager → ℕ → ObjectManager
delete s o =
    let type = (s.objects o).object_type in
    let descriptor = (s.objects o).security_descriptor in
    let unlisted = record s {
      object_list = remove_entry o s.object_list;
      object_count = dec32 s.object_count;
      total_objects =
          if ltb type type_max
          then store s.total_objects type (dec32 (s.total_objects type))
          else s.total_objects;
    } in
    if o == 0
    then s
    else free_pool (if descriptor == 0 then unlisted else free_pool unlisted descriptor) o

-- `new_count <= 0` on a LONG
abbrev pub not_positive : ℕ → Bool
not_positive n = n == 0 || leb (2 ^ 31) n

-- ObDereferenceObject
unfoldable pub dereference : ObjectManager → ℕ → ObjectManager
dereference s o =
    let count = dec32 (s.objects o).reference_count in
    let lowered = record s {
      objects = store s.objects o (record (s.objects o) { reference_count = count });
    } in
    if o == 0 then s else if not_positive count then delete lowered o else lowered

-- ObGetObjectByName of a name that is not empty: the loop over the objects does nothing.
abbrev pub get_by_name : ObjectManager → Status × ℕ
get_by_name s = if s.initialized then (object_name_not_found, 0) else (unsuccessful, 0)

-- ObCreateHandle
unfoldable pub create_handle : ℕ → Status × ℕ
create_handle o = if o == 0 then (invalid_parameter, 0) else (success, bit_or o 3)

-- `Handle & ~0x3` on 64 bits
abbrev pub object_of : ℕ → ℕ
object_of handle = bit_and handle (2 ^ 64 - 4)

-- ObReferenceObjectByHandle
unfoldable pub reference_by_handle : ObjectManager → ℕ → Status × ℕ × ObjectManager
reference_by_handle s handle =
    if handle == 0
    then (invalid_parameter, 0, s)
    else if object_of handle == 0
    then (invalid_handle, 0, s)
    else (success, object_of handle, reference s (object_of handle))

-- ObCloseHandle
unfoldable pub close_handle : ObjectManager → ℕ → Status × ObjectManager
close_handle s handle =
    let (status, o, referenced) = reference_by_handle s handle in
    if handle == 0
    then (invalid_handle, s)
    else if nt_success status
    then (success, dereference referenced o)
    else (status, referenced)

-- ObQueryObjectInformation: the status alone, given whether the buffer is big enough.
abbrev pub query_status : ℕ → Bool → Status
query_status o big_enough =
    if o == 0 then invalid_parameter else if big_enough then success else buffer_too_small

-- ObSetObjectSecurity of a descriptor that is not NULL, given the block that the pool returns. The old
-- descriptor is free when the allocation is tried.
unfoldable pub set_security : ObjectManager → ℕ → ℕ → Status × ObjectManager
set_security s o block =
    let old = (s.objects o).security_descriptor in
    let freed = if old == 0 then s else free_pool s old in
    let set = record freed {
      objects = store s.objects o (record (s.objects o) { security_descriptor = block });
    } in
    if o == 0
    then (invalid_parameter, s)
    else if block == 0
    then (insufficient_resources, set)
    else (success, allocate_pool set block)
