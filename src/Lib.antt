-- ===== src/Lib.antt =====
-- The core of TCMalloc, the allocator of gperftools: how requests map to size classes, how the page
-- heap hands out, merges, releases and grows spans of pages, the map and the cache from pages, and
-- the central lists and the caches of
-- the threads, the entry points over them, and the data kept beside.
--
-- The parts and how they interact. A small request goes through `SizeMap` (src/common.h,
-- src/common.cc) to a size class; the spans from which its objects are cut come from `PageHeap`
-- (src/page_heap.h, src/page_heap.cc, src/span.h, src/span.cc), which records in `PackedCache`
-- (src/packed-cache-inl.h) which class a page has, in `TCMalloc_PageMap2` (src/pagemap.h) which span,
-- and asks the system layer for memory. A `ThreadCache` (src/thread_cache.h, src/thread_cache.cc)
-- keeps free objects of each class and trades them with the `CentralFreeList` of the class
-- (src/central_freelist.h, src/central_freelist.cc), which cuts spans into objects and keeps whole
-- batches in a transfer cache. `malloc` and its kin (src/tcmalloc.cc) ask the `Sampler`
-- (src/sampler.h, src/sampler.cc) whether to sample, then a thread cache or the page heap. The data of
-- the allocator itself comes from `MetaDataAlloc` (src/common.cc) and `PageHeapAllocator`
-- (src/page_heap_allocator.h). Beside them stand the lists of callbacks, `HookList`
-- (src/malloc_hook-inl.h, src/malloc_hook.cc), the store of the CPU profiler, `ProfileData`
-- (src/profiledata.h, src/profiledata.cc), and `ProfileHandler` (src/profile-handler.cc), whose timer
-- sends the signals that fill it. `MallocBlock` (src/debugallocation.cc) puts words round each object
-- to find memory errors; it records the objects in an `AddressMap`.
--
--   * Base: shared tests, lists, bits, powers, sums and the outcome of a routine (a value, a crash,
--     or the bound of the model used up).
--   * SizeMap: `LgFloor`, `AlignmentForSize`, `NumMoveSize`, `SizeMap::Init` with its loops and
--     checks, and the lookups `ClassIndex`, `ClassIndexMaybe`, `GetSizeClass`. Its children hold the
--     proofs: Log, Align, Pages (the span of a class), Classes (the loop over the sizes), Index, Fill
--     (the array of classes), Init (the whole) and Endless (a transfer count that is negative).
--   * PackedCache: `TryGet`, `Put`, `Invalidate`, `Clear` on the array of packed entries; Entry reads
--     an entry in arithmetic, Refine has the abstract view: the history of operations.
--   * PageHeap: the state and the free lists. PageHeap/Merge has `CommitSpan`, `DecommitSpan`,
--     `CheckAndHandlePreMerge` and `MergeIntoFreeList`; PageHeap/Release has `ReleaseSpan`,
--     `ReleaseAtLeastNPages`, `EnsureLimit`, `IncrementalScavenge` and `DeleteLocked`;
--     PageHeap/Search has `Carve`, `Split`, `AllocLarge` and `SearchFreeAndLargeLists`; PageHeap/Grow
--     has `RoundUpSize`, `GrowHeap`, `NewLocked`, `RegisterSizeClass` and `NewWithSizeClass`.
--     Balance and Carve follow the equation of the heap's assertions.
--     PageHeap/Aligned has the constructor, `NewAligned`, the statistics and the checks. Skip is
--     about the loop of `NewAligned`, Round about `RoundUpSize`.
--   * PageMap: the radix tree; Lookup is about `get`, `set` and `Ensure`, Next about `Next`.
--   * CentralFreeList: the state of all central lists and the operations on spans
--     (`ReleaseToSpans`, `FetchFromOneSpans`, `Populate`); CentralFreeList/Transfer has those on the
--     transfer cache (`InsertRange`, `RemoveRange`, `MakeCacheSpace`, `EvictRandomSizeClass`,
--     `ShrinkCache`). Shrink and Within are about the sizes of the transfer caches, Pieces about the loop of
--     `Populate`, Trip and Fetch about `RemoveRange`, Conserve about the objects of a span.
--   * ThreadCache: the free lists and the methods of a cache over a store of caches; Lists is about
--     one free list, Give about `ReleaseToCentralCache`, Backing about the central lists behind it,
--     Space about the cache space that threads share.
--   * MetadataAlloc: `MetaDataAlloc` and the object allocator; Apart is about the blocks given.
--   * HookList: `Add`, `Remove`, `Traverse`, `ExchangeSingular`; Ended is about the end of the list,
--     Change about what changes.
--   * Sampler: the random numbers and the counter of bytes.
--   * Malloc: sizes, `do_malloc`, `do_calloc`, `malloc_fast_path`, `GetOwnership`; Malloc/Free has
--     `do_free_with_callback`, Malloc/Realloc `do_realloc_with_callback` and `do_memalign_pages`. Sizes
--     is about the computed sizes, Fast about the fast path.
--   * ProfileData: `Start`, `Add`, `FlushTable`, `Stop`, `Reset`; Trace is about the traces in the
--     table, Records about the words of the file, Count about `Add`, Write about `Stop`.
--   * AddressMap: `Find`, `Insert`, `FindAndRemove` (src/addressmap-inl.h); Chains is about blocks and
--     chains of clusters, Update about one change, Refine about the map from addresses to values.
--   * DebugAllocation: `FreeQueue`, `CheckForDanglingWrites` and `ProcessFreeQueue`; Bytes has the
--     memory, Block the words of a `MallocBlock` with `Initialize`, `CheckLocked` and `CheckAndClear`,
--     Calls `Allocate`, `Deallocate`, `FromRawPointer`, `DebugAllocate`, `DebugDeallocate` and
--     `do_debug_memalign`, Fence the blocks with a page fence. Queue, Batches and Drain are about the
--     queue of freed blocks, Words and Checks about the words, Free, Reports and Errors about a
--     deallocation, Memalign about the aligned allocation.
--   * ProfileHandler: the callbacks and the timer; Tokens is about the list of callbacks, Timer about
--     one call, Trace and Calls about any calls.
--   * LineReader: `ForEachLine` (src/base/for_each_line.h), which reads the memory map of the process;
--     Lines is about the lines that it gives.
--   * StackTraces: `AddTrace` and the dump of `ReadStackTracesAndClear` (src/stack_trace_table.cc).
--   * Tests: the theorems at concrete inputs.
--
-- Bounds and fuel. Sizes and page numbers are natural numbers and byte counters wrap at 64 bits.
-- Pages have 2^13 bytes and alignments are those of 64-bit builds. Where the code puts a size into an
-- `int` (the leftover pages of `Carve` and `Split`, the transfer count, the offset of an aligned object
-- of the debug allocator) the model keeps its 32 bits and its sign. The loops of `SizeMap::Init` have
-- fuel for each multiple of 8 up to `kMaxSize`, and for a span of eight objects more than are asked
-- for. `ReleaseAtLeastNPages` has a pass for each free page, since a pass that goes on has released
-- a page; `AllocLarge` calls itself once, since the limit holds after memory was released. The loop
-- of `Populate` has a round for each byte of the span, and that of `RemoveRange` one for each object
-- asked for, since a round takes an object or stops. Loops over arrays of fixed length recurse on the
-- entries left. `ProcessFreeQueue` has a round for each entry of its queue and one more, and
-- `ForEachLine` two for each byte of the file and four more, since a round that reads nothing is the
-- last to read. The counters of samples are numbers without a bound, where the code has `int`.
--
-- The page heap takes the page map as the function that it stands for; of `PageMap` the two-level
-- form is modelled, with 35 bits, whose loops have a round for each root entry.
--
-- What is a parameter: the answers of the system layer (src/system-alloc.h), whether the page map
-- has memory for its nodes, the flags, and the pages to wait for after a release, which the code
-- computes in floating point. The thread caches take the central free lists as an interface,
-- `Central`, which `ThreadCache.Backing` fills. Where a central list gives up its lock, `meanwhile`
-- is any change that other threads make. The entry points take the pages of the page heap, the
-- sampled allocation, the slow path of malloc and what becomes of an invalid address; the sampler takes the interval that the code
-- computes in floating point; the metadata the answers of the system. The debug allocator takes what
-- `do_malloc` gives, and memory as bytes that it and the program change; the profile handler takes the
-- environment, the addresses of new tokens and whether the system gives a timer for a thread; `ForEachLine` takes the amounts that reads return.
--
-- Not modelled: `GetNextRange`, the other page maps, the recomputing of the limits of thread caches,
-- the hooks' calls, the handling of exhausted memory, locks (each operation is one atomic step, but for
-- `meanwhile`; between two batches of `ProcessFreeQueue` no other thread frees), the stacks of growth and of samples, errno, the links of the lists (a list is the list
-- of its members), thread-local storage, the system calls, files (`FDWrite` is taken to write what it
-- is given), the signals themselves, the table of the heap profiler, the unwinding of stacks, the
-- statistics, trace file and entry points of the debug allocator, the emergency and the low-level
-- allocator, the parser of a line of the memory map and the platform ports.
pub mod Base
pub mod SizeMap
pub mod PackedCache
pub mod PageMap
pub mod PageHeap
pub mod CentralFreeList
pub mod ThreadCache
pub mod MetadataAlloc
pub mod DebugAllocation
pub mod ProfileHandler
pub mod LineReader
pub mod HookList
pub mod Sampler
pub mod Malloc
pub mod AddressMap
pub mod StackTraces
pub mod ProfileData
pub mod Tests
