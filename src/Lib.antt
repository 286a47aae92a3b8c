-- ===== src/Lib.antt =====
-- Verification library of the aurora kernel (an operating system kernel in Rust).
--
-- The parts of the program that are modelled, and how they interact:
--   Misc        libutil/src/misc.rs: alignment, bit fields and logarithms of words.
--   LinkedList  libutil/src/collections/linked_list.rs: the intrusive doubly linked list that the
--               allocators and the scheduler keep their nodes in.
--   Cap         kernel/src/cap/mod.rs: capability identifiers, capabilities, and CapMap, the map
--               of a process from identifiers to capabilities of one object type.
--   Sched       kernel/src/sched/mod.rs and kernel/src/sched/thread.rs: the thread list with one
--               queue for each thread state, moving threads between queues, and schedule.
--   SysErr      sys_consts/src/lib.rs: the error codes of system calls.
--   Sync        kernel/src/sched/sync.rs: KFutex, on the queues of Sched, and FutexMap, on Cap.
--   Futex       libutil/src/futex.rs: RawFutex, the lock of user programs, which calls KFutex.
--   RwFutex     libutil/src/futex.rs: RWFutex, the lock for many readers or one writer.
--   Heap        libutil/src/mem/heap.rs: free nodes, heap zones and LinkedListAllocator.
--   Mem         kernel/src/mem/mod.rs: page sizes, frames and ranges of addresses.
--   VirtMap     kernel/src/mem/virt_alloc.rs: the elements of a mapping, VirtLayout (Layout), the
--               iterator over the pages to map (Pages), the map of an address space (Space) and the
--               operations of VirtMapper (Mapper), which use all of these; Realloc is the change of a
--               layout by the system call of kernel/src/mem/sys.rs.
--   ZoneManager kernel/src/mem/phys_alloc.rs: the zones of physical memory, over Buddy, the
--               interface of a buddy allocator.
--   BuddyAllocator kernel/src/mem/phys_alloc.rs: its lists of free blocks, allocation and freeing.
--   Prelude     what the others share: tests on numbers, lists, dictionaries, words and masks.
--
-- How the code corresponds to the definitions. A function of the source is the definition of its
-- name. A panic is `none` of an outer Option, and an error code is a value. A `usize` is a natural
-- number below 2 ^ 64 with its wrap-around written out; `isize` is its two's complement.
-- LinkedList works on a memory of link fields, so that aliasing is visible: IsList (LinkedList/Seg)
-- says that a list stands for a sequence of nodes. Queues of threads and free lists are the
-- sequences themselves.
-- CapObject is the interface between capabilities and the objects they refer to: a type and two
-- operations that count references; Sync/FutexMap fills it for futexes. CapMap's BTreeMap and the
-- thread list's AVL trees are dictionaries (Prelude/Dict). Futex and RwFutex model concurrency: a system of
-- threads told apart by their place in the code, one action for each atomic operation or for the
-- part of a kernel call that runs under the block lock, and Reaches for all sequences of actions.
--
-- Bounds and fuel. The loops of align_of and log2 look at 64 bits, which is every bit of a word.
-- log2_const runs on fuel: 64 rounds are enough below 2 ^ 63, and no fuel is enough from there on.
-- Capability numbers stay below 2 ^ 59, where set_base_id panics. Systems of threads have fewer
-- than 2 ^ 63 threads, so that the counts do not overflow.
--
-- The proofs about the heap are for alignments of at most CHUNK_SIZE, 32 bytes; Heap takes the pages
-- and the size of HeapZone as parameters.
--
-- In Mem and VirtMap an address is its number. VirtAddr::new, align_down and align_up of the x86_64
-- crate, virt_to_phys and the zone allocator are parameters: what is asked of align_down is IsDown
-- (Mapper/Steps), and of VirtAddr::new, which panics with `none`, IsVirtAddr (Space/Find). It is where
-- find_range and PageMappingIterator make addresses of numbers. The other sums of an address and a size
-- are those of the numbers, which is exact below 2 ^ 47, the end of the lower half; the theorems on
-- the states of an address space are about ranges that end there. The
-- actions of a PageMappingIterator run on fuel above the number of pages. A page table is the function
-- from a virtual address to the physical address and the flags that it is mapped with.
--
-- Not modelled: reallocation and allocation at an address in the buddy allocator, the four levels of page tables below
-- map_internal, the AVL tree's own code, processes and ELF loading, system call entry, Map::map and
-- Map::unmap of shared memory, waking of sleeping threads, and message passing; device drivers,
-- interrupt tables, boot code and console output, which are input and output only.
pub mod Prelude
pub mod Misc
pub mod LinkedList
pub mod Cap
pub mod Sched
pub mod SysErr
pub mod Sync
pub mod Futex
pub mod Heap
pub mod RwFutex
pub mod Mem
pub mod VirtMap
pub mod ZoneManager
pub mod BuddyAllocator
