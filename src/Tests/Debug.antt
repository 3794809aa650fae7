-- ===== src/Tests/Debug.antt =====
-- The theorems on the debug allocator and the profile handler at concrete inputs.
use gperftools.Base.{
  All, if◌then◌else◌, ℕ, ◌+◌, ◌-◌, ◌%◌, ◌^◌, ◌≤◌, ◌<◌, ◌*◌, ◌≡◌, ◌≢◌, update, inl, inr, refl, arith,
  true, Option, none, some, List, [], ◌∷◌, ◌++◌, length, ltb, ok,
}
use gperftools.AddressMap.{AddressMap, insert}
use gperftools.DebugAllocation.{
  MallocBlockQueueEntry, Memory, Freed, queue_of, new_queue, full, queue_size, process_free_queue,
  is_deleted,
}
use gperftools.DebugAllocation.Queue.{contents, items, kept}
use gperftools.DebugAllocation.Batches.{DrainsTo}
use gperftools.DebugAllocation.Drain.{IsQueue, entry_of, process_free_queue_lem}
use gperftools.DebugAllocation.Block.{
  write_header, malloc_type, new_type, already_deallocated, word_after, fine, reported, Heap,
  data_addr, data_offset, real_mmapped_size, check_and_clear, map_of, type_value, magic_malloc,
}
use gperftools.DebugAllocation.Bytes.{AreBytes, store, store-AreBytes, store_bytes, memset}
use gperftools.DebugAllocation.Block.Words.{IsLive, formatted-AreBytes, formatted, trailer, header}
use gperftools.DebugAllocation.Calls.{
  debug_deallocate, do_debug_memalign, from_raw_pointer, from_queue,
}
use gperftools.DebugAllocation.Calls.Free.{
  SameOutside, live_heap, freed_heap, debug_allocate_lem, live, check_and_clear-live, find-inserted,
}
use gperftools.DebugAllocation.Calls.Reports.{debug_deallocate-debug_allocate}
use gperftools.DebugAllocation.Calls.Errors.{
  SameHeader, second_deallocation_lem, write_past_end_lem,
}
use gperftools.DebugAllocation.Calls.Memalign.{do_debug_memalign_lem}
use gperftools.DebugAllocation.Calls.Fence.{
  allocate_fenced, deallocate_fenced, deallocate_fenced-allocate_fenced,
}
use gperftools.LineReader.{for_each_line}
use gperftools.LineReader.Lines.{IsReader, cons_head, lines, deliver, for_each_line-lines}
use gperftools.ProfileHandler.{Token, ProfileHandler}
use gperftools.ProfileHandler.Trace.{Call, registers_thread, signals, registers, unregisters}

-- memory in which every block was freed and not written since
abbrev freed_memory : Memory
freed_memory q = 205

abbrev no_entry : ℕ → MallocBlockQueueEntry
no_entry i = record { block = 0; size = 0 }

abbrev no_queue : Freed
no_queue = record { free_queue = none; free_queue_size = 0; freed = [] }

abbrev freed_block : MallocBlockQueueEntry
freed_block = record { block = 4096; size = 100 }

no_queue-IsQueue : IsQueue freed_memory 50 no_queue (queue_of no_entry none)
unfolding queue_of new_queue full contents items queue_size kept
no_queue-IsQueue = record {
  range = record { front = omega arith; back = omega arith };
  room = refl;
  total = refl;
}

one_block :
    kept (contents (queue_of no_entry none) ++ entry_of freed_memory 50 (some freed_block)) < 2 ^ 64
unfolding queue_of new_queue contents items queue_size kept entry_of
one_block = omega arith

process_free_queue_lem_example :
    DrainsTo freed_memory 50
      (contents (queue_of no_entry none) ++ entry_of freed_memory 50 (some freed_block))
      []
      (process_free_queue freed_memory 50 no_entry (some freed_block) no_queue)
process_free_queue_lem_example =
    process_free_queue_lem freed_memory 50 no_entry (some freed_block) no_queue no_queue-IsQueue
      one_block

abbrev empty_heap : Heap
empty_heap = record { mem = λ q. 0; alloc_map = none }

abbrev place : ℕ → Option ℕ
place n = some 4096

-- the heap after an object of 24 bytes was allocated at 4096
abbrev one_live : Heap
one_live = live_heap empty_heap 4096 24 malloc_type

debug_deallocate-debug_allocate_example :
    (4128 ≡ data_addr 4096)
    × SameOutside empty_heap.mem one_live.mem 4096 72
    × (h'' : Heap) × (debug_deallocate true 0 no_entry
          (record { heap = one_live; queue = no_queue })
          4128
          malloc_type
          24
        ≡ from_queue h'' (
            process_free_queue h''.mem 0 no_entry
              (some (record { block = 4096; size = 72 }))
              no_queue))
    × (is_deleted h''.mem 4096 72 ≡ true)
    × SameOutside one_live.mem h''.mem 4096 72
debug_deallocate-debug_allocate_example =
    debug_deallocate-debug_allocate true 0 no_entry no_queue place empty_heap one_live 4096 4128 24
      24 malloc_type one_live.mem refl (omega arith) (inr refl)
      (debug_allocate_lem place empty_heap 4096 24 malloc_type refl (omega arith)) (λ q out. refl)

abbrev live_map : AddressMap ℕ
live_map = insert (map_of none) 4128 (type_value malloc_type)

abbrev one_freed : Heap
one_freed = freed_heap live_map one_live.mem 4096 24 malloc_type

one_live-cleared : check_and_clear one_live 4096 malloc_type 24 ≡ fine (72, one_freed)
unfolding live_heap
one_live-cleared =
    check_and_clear-live live_map one_live.mem 4096 24 malloc_type (omega arith) 24 (inr refl)
      (live place empty_heap 4096 24 malloc_type refl (omega arith))
      (find-inserted none 4128 (type_value malloc_type))

second_deallocation_lem_example :
    debug_deallocate true 0 no_entry (record { heap = one_freed; queue = no_queue }) 4128 new_type 0
    ≡ reported already_deallocated
second_deallocation_lem_example =
    second_deallocation_lem true 0 no_entry no_queue one_live one_freed one_freed 4096 4128 72 24 0
      malloc_type new_type one_live-cleared (λ e. absurd (omega arith))
      (inl (refl, omega arith, omega arith, λ q from to. refl))

-- the memory after a write of 7 three bytes past the object
abbrev past_end : Memory
past_end = update one_live.mem 4155 7

one_live-AreBytes : AreBytes one_live.mem
unfolding live_heap
one_live-AreBytes =
    formatted-AreBytes (store (λ q. 0) 4112 magic_malloc) 4096 24 malloc_type
      (store-AreBytes (λ q. 0) 4112 magic_malloc (λ q. omega arith))

past_end-AreBytes : AreBytes past_end
past_end-AreBytes q = let h = one_live-AreBytes q in ground arith

past_end-SameHeader : SameHeader one_live.mem past_end 4096
past_end-SameHeader q from to = ground arith

past_end-differs : past_end 4155 ≢ one_live.mem 4155
unfolding live_heap formatted trailer header write_header store store_bytes memset
past_end-differs e = absurd (omega arith)

write_past_end_lem_example :
    debug_deallocate true 0 no_entry
      (record { heap = record one_live { mem = past_end }; queue = no_queue })
      4128
      new_type
      0
    ≡ reported word_after
write_past_end_lem_example =
    write_past_end_lem true 0 no_entry no_queue place empty_heap one_live 4096 4128 24 0 3
      malloc_type new_type past_end refl (omega arith) (λ q. omega arith)
      (debug_allocate_lem place empty_heap 4096 24 malloc_type refl (omega arith)) past_end-AreBytes
      past_end-SameHeader (omega arith) past_end-differs

do_debug_memalign_lem_example :
    (p : ℕ) × (h' : Heap) × (do_debug_memalign place empty_heap (2 ^ 6) 100 new_type
      ≡ fine (some p, h'))
    × (p % 2 ^ 6 ≡ 0)
    × (data_addr 4096 + data_offset ≤ p)
    × (p + 100 ≤ data_addr 4096 + (100 + (data_offset + 2 ^ 6 - 1)))
    × IsLive h'.mem 4096 (100 + (data_offset + 2 ^ 6 - 1)) new_type
    × (from_raw_pointer h'.mem p ≡ fine 4096)
do_debug_memalign_lem_example =
    do_debug_memalign_lem place empty_heap 6 4096 100 new_type (omega arith) refl (omega arith)

deallocate_fenced-allocate_fenced_example :
    (bytes : ℕ) × (b : ℕ) × (fence : ℕ) × (allocate_fenced (16 * 4096) (16 * 256) 100
      ≡ some (bytes, b, fence))
    × (16 * 4096 ≤ b)
    × (b + data_offset + 100 ≤ fence)
    × (fence < b + data_offset + 100 + 16)
    × (fence + 16 * 256 ≡ 16 * 4096 + bytes)
    × ((b + data_offset) % 16 ≡ 0)
    × (deallocate_fenced (16 * 256) b (real_mmapped_size 100) ≡ some (16 * 4096, bytes))
deallocate_fenced-allocate_fenced_example =
    deallocate_fenced-allocate_fenced 256 100 4096 (omega arith) (omega arith)

abbrev token : ℕ → Token
token a = record { address = a; callback = 7; callback_arg = a }

-- two callbacks are registered, a signal comes, and the first is unregistered
abbrev calls : List Call
calls =
    unregisters 16
    ∷ signals
    ∷ registers (token 32)
    ∷ registers (token 16)
    ∷ registers_thread true
    ∷ []

-- a read that fills the room
abbrev full_read : List ℕ → ℕ → ℕ
full_read rest n = if ltb n (length rest) then n else length rest

full_read-IsReader : IsReader full_read
full_read-IsReader = record {
  room = λ rest n. ground arith;
  left = λ rest n. ground arith;
  some_bytes = λ rest n p q. ground arith;
}

short_lines : All (λ l. length l < 8 - 1) (lines (97 ∷ 98 ∷ 10 ∷ 99 ∷ []))
unfolding lines cons_head
short_lines = (omega arith, (omega arith, tt))

for_each_line-lines_example :
    for_each_line 8 full_read (λ given line. true) (97 ∷ 98 ∷ 10 ∷ 99 ∷ [])
    ≡ ok (deliver (λ given line. true) [] (lines (97 ∷ 98 ∷ 10 ∷ 99 ∷ [])), true)
for_each_line-lines_example =
    for_each_line-lines 8 full_read (λ given line. true) full_read-IsReader (omega arith)
      (97 ∷ 98 ∷ 10 ∷ 99 ∷ []) short_lines
