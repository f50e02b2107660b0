-- ===== src/Lib.antt =====
-- The KANEK extents storage library: a file or device is divided into blocks, a bitmap says which
-- blocks are in use, and clients allocate runs of blocks (extents), free them, and read and write
-- their bytes. Several handles, also of different processes, may use one file at a time. Beside it
-- stands a cache of extents in memory, which reads and writes a device through callbacks.
--
-- The parts, and the files that model them:
--   Common       numbers, lists, the results and error codes of include/kes/kes_types.h
--   Os           the operating system: one file, the descriptor's position, and a plan of which
--                system calls complete, fail or fall short; the library calls lseek, read, write,
--                fsync, flock and open
--   Bitmap       src/kes_bitmap.c: `kes_bitmap_set` and its kin are the functions of those names
--   Descriptor   the storage descriptor of include/kes/kes_types.h, its bytes in block 0, and the
--                layout of a new storage from src/kes_storage.c
--   Storage      src/kes_storage.c: the handle and the steps that its operations share; in
--                Storage/Lifecycle, Storage/Extents and Storage/Info the operations themselves, and
--                in Storage/History many handles on one file; Storage/Durable is about handles that
--                are opened after a create or an allocation
--   Cache        src/kes_cache.c and include/kes/kes_cache.h: entries in a heap, linked into the LRU
--                list and the chains of a hash table. Cache/Lists has the list, the table and the
--                eviction, Cache/Sweep the walks, Cache/Access kes_cache_get_extent,
--                Cache/Operations and Cache/Lifecycle the other calls. Cache/Chain and Cache/Shape
--                say which list the pointers represent, Cache/Valid is the invariant, and
--                Cache/Valid/Reachable the steps of a whole cache
--   Tests        concrete storages, and the theorems applied to them
--
-- A C function that changes a state is a function from that state to the new state and a result:
-- `Call S A` is `S → S × Result A`. Out parameters are the values of `ok`. A `World` is one handle
-- and the system. The allocation and release of blocks first read the descriptor and the bitmap
-- from the file again, since another handle may have changed them; so their theorems start from
-- what the file holds (`OnDisk`) and ask of the handle only that its bitmap has the right size
-- (`Attached`).
--
-- Integers are natural numbers, with the wrap-around of uint32_t and uint64_t written out (u32,
-- u64, u64_sub). Loops with a counter recurse on the number of rounds left. The walks along the
-- pointers of the cache have the number of entries in the cache as fuel, which is enough since a
-- list holds an entry at most once. The failures of system calls are a plan, a list of events;
-- where it ends, every further call completes. In the theorems `C` is any condition under which the
-- plan is empty: an error that needs a failed call refutes `C`.
--
-- In the cache a call is one step, and so is a round of a background thread: its mutexes and
-- condition variables have no state, and a wait for a load in progress is never entered. The device
-- behind the callbacks is any type `D`; which allocations succeed, and the time, are an
-- `Environment`. The address of an entry that was freed is not used again.
--
-- Not modelled: NULL arguments, since arguments are values; the mutex and the file lock, which are
-- held over the whole of each call that changes metadata; error strings, version numbers
-- and trace output. The checksum kfl_crc32c belongs to another library and is a parameter `crc` with
-- values below 2 ^ 32.
pub mod Common
pub mod Os
pub mod Bitmap
pub mod Descriptor
pub mod Storage
pub mod Cache
pub mod Tests
