-- ===== src/DebugAllocation/Calls.antt =====
-- The debug versions of allocation, aligned allocation and deallocation, of src/debugallocation.cc.
pub mod Free
pub mod Reports
pub mod Errors
pub mod Memalign
pub mod Fence
use gperftools.Base.{
  ℕ, ◌+◌, ◌-◌, ◌*◌, ◌/◌, ◌%◌, ◌^◌, bit_and, Bool, true, false, not, ◌&&◌, ◌||◌, Option, none, some,
  ltb, leb, ◌==◌, if◌then◌else◌, Outcome, ok, crash, out_of_fuel,
}
use gperftools.DebugAllocation.{MallocBlockQueueEntry, Memory, Freed, process_free_queue}
use gperftools.DebugAllocation.Bytes.{load, store}
use gperftools.DebugAllocation.Block.{
  AllocType, magic_deleted_size, magic_malloc, magic_mmap, data_offset, block_size, Report,
  already_deallocated, offset_corrupted, in_free_queue, check_failed, Checked, fine, reported,
  unfinished, ◌>>=◌, ◌>>◌, require, Heap, data_addr, size1, offset, alloc_type, size2_addr,
  int_to_size, round_up, real_malloced_size, real_mmapped_size, initialize, check_and_clear,
}

-- `Allocate`, without the page fence: null for a size too large, or when `do_malloc` gives none.
unfoldable pub allocate : (ℕ → Option ℕ) → Heap → ℕ → AllocType → Checked (Option ℕ × Heap)
allocate do_malloc h size type =
    if ltb (2 ^ 64 - 1 - block_size) size
    then fine (none, h)
    else (elim (do_malloc (real_malloced_size size)) [
      | none ↦ fine (none, h)
      | some b ↦ do
        h' ← initialize (record h { mem = store h.mem (b + 16) magic_malloc }) b size type
        fine (some b, h')
    ])

-- `FromRawPointer`: the block of an object, which an aligned allocation finds by its offset.
unfoldable pub from_raw_pointer : Memory → ℕ → Checked ℕ
from_raw_pointer mem p =
    let mb = (p + 2 ^ 64 - data_offset) % 2 ^ 64 in
    if alloc_type mem mb == magic_deleted_size
    then reported already_deallocated
    else if offset mem mb == 0
    then fine mb
    else (let main_block = (mb + 2 ^ 64 - offset mem mb) % 2 ^ 64 in
        if not (offset mem main_block == 0)
        then reported offset_corrupted
        else if leb p main_block
        then reported offset_corrupted
        else if ltb (size2_addr mem main_block) p
        then reported offset_corrupted
        else fine main_block)

-- `actual_data_size`
unfoldable pub actual_data_size : Memory → ℕ → ℕ → Checked ℕ
actual_data_size mem b raw_ptr =
    let raw_begin = data_addr b in
    let raw_end = (raw_begin + size1 mem b) % 2 ^ 64 in
    do
      require check_failed (leb raw_begin raw_end)
      require check_failed (leb raw_begin raw_ptr)
      require check_failed (leb raw_ptr raw_end)
      fine (raw_end - raw_ptr)

-- The heap with the queue of freed blocks.
pub record DebugState : Type 0 where
  pub heap : Heap
  pub queue : Freed

-- The outcome of a step on the queue, in which a check that fails is reported.
abbrev pub from_queue : Heap → Outcome Freed → Checked DebugState
from_queue h (ok queue) = fine (record { heap = h; queue = queue })
from_queue h crash = reported in_free_queue
from_queue h out_of_fuel = unfinished

-- `Deallocate` of a block that is not mapped apart; `malloc_reclaim_memory` and `max_free_queue_size`
-- are flags.
unfoldable pub deallocate :
    Bool → ℕ → (ℕ → MallocBlockQueueEntry) → DebugState → ℕ → AllocType → ℕ → Checked DebugState
deallocate malloc_reclaim_memory max_free_queue_size fresh st b type given_size = do
  (size, h) ← check_and_clear st.heap b type given_size
  (if malloc_reclaim_memory
      then from_queue h (
          process_free_queue h.mem max_free_queue_size fresh
            (some (record { block = b; size = size })) st.queue)
      else fine (record st { heap = h }))

-- `DebugAllocate`, less the arena for emergencies.
unfoldable pub debug_allocate : (ℕ → Option ℕ) → Heap → ℕ → AllocType → Checked (Option ℕ × Heap)
debug_allocate do_malloc h size type = do
  (p, h') ← allocate do_malloc h size type
  elim p [ none ↦ fine (none, h') | some b ↦ fine (some (data_addr b), h') ]

-- `DebugDeallocate`, less the arena for emergencies.
unfoldable pub debug_deallocate :
    Bool → ℕ → (ℕ → MallocBlockQueueEntry) → DebugState → ℕ → AllocType → ℕ → Checked DebugState
debug_deallocate malloc_reclaim_memory max_free_queue_size fresh st p type given_size =
    if p == 0 then fine st else (do
      b ← from_raw_pointer st.heap.mem p
      deallocate malloc_reclaim_memory max_free_queue_size fresh st b type given_size)

-- The word that `set_offset` writes: its argument is an `int`, its word is of type `size_t`.
unfoldable pub offset_word : ℕ → ℕ
unfolding int_to_size
offset_word offset = int_to_size (offset % 2 ^ 32)

-- `do_debug_memalign`
unfoldable pub do_debug_memalign :
    (ℕ → Option ℕ) → Heap → ℕ → ℕ → AllocType → Checked (Option ℕ × Heap)
do_debug_memalign do_malloc h alignment size type = do
  require check_failed (bit_and alignment (alignment - 1) == 0)
  let extra_bytes = data_offset + alignment - 1
  (if ltb ((size + extra_bytes) % 2 ^ 64) size then fine (none, h) else (do
    (p, h') ← debug_allocate do_malloc h ((size + extra_bytes) % 2 ^ 64) type
    elim p [
      | none ↦ fine (none, h')
      | some orig_p ↦
          let aligned = round_up ((orig_p + data_offset) % 2 ^ 64) alignment in
          let fake_hdr = aligned - data_offset in
          fine (
            some aligned,
            record h' {
              mem =
                  store h'.mem (fake_hdr + 8) (offset_word ((aligned + 2 ^ 64 - orig_p) % 2 ^ 64));
            },
          )
    ]))
