-- ===== src/Lib.antt =====
-- DslsOS is a kernel written in C: schedulers, a memory manager, timers, interrupts, system calls,
-- thread-local storage, objects, the file system DslsFS, containers, access control, clusters, drivers
-- and windows, among parts that are still stubs. This library models the parts whose code keeps state
-- of its own, function by function.
--
-- Base: shared names; the status codes of include/dslos.h; ULONG arithmetic (`inc32`, `dec32`), and
--   lists indexed by native numbers; Search has the searches in lists. A pointer is a number and NULL is 0.
-- Bits: the bits of a word under `|`, `&` and `~` of one-bit masks.
-- Dslsfs: kernel/src/dslsfs.c. Bitmap is DslsfsSetBit, DslsfsClearBit and DslsfsTestBit; Volume
--   is DslsfsAllocateBlock to DslsfsFreeInode; Format is DslsfsInitializeFilesystemStructures and
--   DslsfsCreateRootDirectory; Files is DslsfsCreateFile, DslsfsOpenFile, DslsfsReadFile,
--   DslsfsWriteFile, DslsfsExtendFile, DslsfsCloseFile and DslsfsDeleteFile. Extension, Transfer,
--   Blocks, Accounting, Count, Inodes, Release and the files under Format and Bitmap hold what is
--   shown of them.
-- Drivers: kernel/src/driver_interface.c, the lists of drivers, services and compatibility rules.
--   Names has the strings, Loading the search, the load and the unload of drivers, Services and Rules the services and the rules; Steps,
--   Ownership and Unloading are about the state machine and the blocks of the pool.
-- Syscalls: kernel/src/system_calls.c, the table of handlers, its registration and its dispatcher.
--   The handlers are an argument, as they only call the other parts.
-- Memory: kernel/src/memory_manager.c. Startup is MmInitializePhysicalMemory with what it calls;
--   Physical is MmAllocatePhysicalMemory and
--   MmFreePhysicalMemory; AddressSpace is MmCreateAddressSpace and MmDestroyAddressSpace, which
--   call these two.
-- Timer: kernel/src/timer.c. KeSetTimer and KeCancelTimer work on a queue that is sorted by due
--   time, and the loop of KeProcessExpiredTimers takes expired timers off its head and queues their
--   DPCs. Locking has TimerLock, and what it does to KeSetTimer and KeProcessExpiredTimers; Expiry is
--   about the loop by itself.
-- Tls: kernel/src/thread_manager.c, TmAllocateTls to TmFreeTls.
-- Scheduler: kernel/src/scheduler.c, the ready queues, KeSchedule, KeSwitchContext and priorities.
-- Mlfq: kernel/src/advanced_scheduler.c. Select is KiSelectNextThread with its algorithms, Ageing
--   is KiAgeThreads, Schedule is KeScheduleNextThread with the statistics, the load balancer, the
--   fair share and the clock tick. Queues, Places, Choosing and Boosts hold the lemmas on the queues,
--   and Steps the state machine of all operations.
-- Objects: kernel/src/object_manager.c, objects with reference counts, and handles. Lifetime is about
--   one call, Refinement about sequences of calls, Handles about handles.
-- Containers: kernel/src/container_system.c, the registry of containers and their states. Registry and
--   Steps are about the registry as a state machine, Lifecycle about single containers.
-- Security: kernel/src/security_architecture.c. Access is about the access check and Accounting about the
--   audit statistics.
-- Cluster: kernel/src/distributed_management.c. Membership has the local node, Health the heartbeats and
--   checks. Winner and Master are about elections, Counts, Entering and Steps about the counts of
--   nodes, and Failure and Drift about a node that has failed.
-- Windows: kernel/src/composite_ui.c, windows and, in Controls, their controls. Frames and Registry are
--   about the lists of windows, Drain and Rounds about the loop of UiDestroyWindow, Leak about the
--   blocks that it loses, and Steps about the state machine.
-- Interrupts: kernel/src/interrupt_handler.c, the dispatch tables, KeInterruptHandler, and the
--   queue of deferred procedure calls. What handlers and routines do is an argument.
--
-- The structures of a part are records with the fields that its functions read or write; a function
-- takes the state and returns it with its result. A linked list is a List of its
-- entries, or of their names where they are changed through pointers. Arithmetic wraps where the C type does: ULONGs at 2 ^ 32, SIZE_T and LARGE_INTEGER at
-- 2 ^ 64.
--
-- Loops over an index are recursion on the number of rounds left. Other loops run on fuel. For the loop
-- of KeProcessExpiredTimers the time by which the queue lags behind the given time is enough; for the
-- one of KeProcessDpcQueue the length of the queue and the number of calls that the routines may
-- still queue; for the one of UiDestroyWindow over the controls, which calls a function that changes
-- their list, the number of controls. The walks of KiAgeThreads run on fuel as well: what they leave
-- is shown for any fuel with which they end, and that they need not end is shown.
--
-- Not modelled: spin locks (each function runs alone; a function that takes a lock which it already
-- holds would stop there, and is modelled as if it went on, except in Timer/Locking and in the elections
-- and checks of Cluster, where `none` is that a call does not return), the contents of memory and of
-- disks, and the parts of the kernel not named above.
mod Base
pub mod Bits
pub mod Dslsfs
pub mod Syscalls
pub mod Memory
pub mod Timer
pub mod Tls
pub mod Scheduler
pub mod Interrupts
pub mod Mlfq
pub mod Objects
pub mod Cluster
pub mod Drivers
pub mod Windows
pub mod Containers
pub mod Security
