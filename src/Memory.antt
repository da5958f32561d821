-- ===== src/Memory.antt =====
-- kernel/src/memory_manager.c: page frames, physical memory and address spaces. A pointer is a
-- number and NULL is 0; a page frame and its entry in the free list are named by the frame's
-- index. Locks are left out: each function runs alone under MemoryLock.
pub mod Physical
pub mod Startup
pub mod AddressSpace
mod Tests
use dsls_os.Base.{ℕ, ◌^◌, Bool, Option, List}

abbrev pub page_size : ℕ
page_size = 4096

-- SIZE_T and ULONG_PTR wrap here.
abbrev pub size_mod : ℕ
size_mod = 2 ^ 64

-- PHYSICAL_PAGE_FRAME; `available` is PAGE_FLAG_AVAILABLE, the only flag.
pub record PageFrame : Type 0 where
  pub physical_address : ℕ
  pub reference_count : ℕ
  pub available : Bool
  pub virtual_mapping : ℕ

-- PHYSICAL_MEMORY_RANGE; `usable` is MEMORY_TYPE_AVAILABLE against MEMORY_TYPE_RESERVED.
pub record MemoryRange : Type 0 where
  pub base_address : ℕ
  pub size : ℕ
  pub usable : Bool

-- ADDRESS_SPACE_DESCRIPTOR; a process is named by the address of its control block.
pub record Descriptor : Type 0 where
  pub process : ℕ
  pub page_directory : ℕ
  pub region_count : ℕ

-- The part of MEMORY_MANAGER_STATE that the functions of this file change, but for the pools. The
-- free list holds indices of `page_frames`.
pub record MemoryManager : Type 0 where
  pub ranges : List MemoryRange
  pub total_physical_pages : ℕ
  pub free_physical_pages : ℕ
  pub page_frames : List PageFrame
  pub page_frame_array_size : ℕ
  pub free_page_list : List ℕ
  pub free_page_count : ℕ
  pub address_spaces : List Descriptor
  pub address_space_count : ℕ
