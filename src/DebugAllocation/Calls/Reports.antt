-- ===== src/DebugAllocation/Calls/Reports.antt =====
-- A proper deallocation, which reports nothing, and what leads to a report.
use gperftools.Base.{
  ℕ, ◌+◌, ◌^◌, ◌<◌, ◌≡◌, ◌≢◌, refl, ap, ◌∙◌, ◌⊎◌, bit_or, Bool, true, ◌||◌, Option, some, ◌==◌,
  if◌then◌else◌, arith, ne→==_false,
}
use gperftools.AddressMap.{AddressMap, find, insert}
use gperftools.DebugAllocation.{
  MallocBlockQueueEntry, Memory, magic_deleted_byte, is_deleted, Freed, process_free_queue,
}
use gperftools.DebugAllocation.Bytes.{memset}
use gperftools.DebugAllocation.Block.{
  AllocType, type_value, deallocated_type_bit, block_size, wrong_size, check_failed, fine, reported,
  unfinished, Checked, ◌>>=◌, require, Report, Heap, data_addr, size1, real_size, map_of,
  check_locked, check_and_clear, check_words,
}
use gperftools.DebugAllocation.Block.Words.{IsLive}
use gperftools.DebugAllocation.Calls.{
  debug_allocate, from_raw_pointer, deallocate, debug_deallocate, from_queue,
}
use gperftools.DebugAllocation.Calls.Free.{
  live_heap, debug_allocate_unique, live_heap-outside, freed_heap-deleted, freed_heap-outside,
  freed_heap, live, find-inserted, SameOutside, live-written, raw_pointer-header,
  check_locked-known, check_and_clear-live,
}

-- A property of the value of a step that reports nothing.
unfoldable pub Post : {A : Type 0} → (A → Type 0) → Checked A → Type 0
Post P (fine a) = P a
Post P (reported r) = Unit
Post P unfinished = Unit

>>=-Post :
    {A B : Type 0} (P : B → Type 0) (m : Checked A) (f : A → Checked B)
    → ((a : A) → Post P (f a))
    → Post P (m >>= f)
unfolding Post
>>=-Post P (fine a) f h = h a
>>=-Post P (reported r) f h = tt
>>=-Post P unfinished f h = tt

-- After `CheckAndClear` the map has the block as freed, and its bytes are those of a freed block.
unfoldable pub Cleared : Heap → ℕ → AllocType → ℕ × Heap → Type 0
Cleared h b type r =
    (r.1.mem ≡ memset h.mem b magic_deleted_byte r.0)
    × (r.1.alloc_map
        ≡ some (
            insert (map_of h.alloc_map) (data_addr b)
              (bit_or (type_value type) deallocated_type_bit)))

pub check_and_clear-Cleared :
    (h : Heap) (b : ℕ) (type : AllocType) (given : ℕ)
    → Post (Cleared h b type) (check_and_clear h b type given)
unfolding check_and_clear Cleared Post
check_and_clear-Cleared h b type given =
    let size = real_size h.mem b in
    let map =
      insert (map_of h.alloc_map) (data_addr b) (bit_or (type_value type) deallocated_type_bit) in
    let last : Checked (ℕ × Heap) =
      fine (size, record { mem = memset h.mem b magic_deleted_byte size; alloc_map = some map }) in
    let sized : Checked (Unit {0}) =
      require wrong_size ((given == 0) || (given == size1 h.mem b)) in
    >>=-Post (Cleared h b type) (check_locked h b (type_value type)) _ λ u.
      >>=-Post (Cleared h b type) (require check_failed _) (λ v. sized >>= λ w. last)
        λ v. >>=-Post (Cleared h b type) sized (λ w. last) λ w. (refl, refl)

module _ (malloc_reclaim_memory : Bool) (max_free_queue_size : ℕ)
    (fresh : ℕ → MallocBlockQueueEntry) (queue : Freed) where
  -- The deallocation of an object whose block is found.
  pub debug_deallocate-found :
      (h : Heap) (p b : ℕ) (type : AllocType) (given : ℕ)
      → p ≢ 0
      → from_raw_pointer h.mem p ≡ fine b
      → debug_deallocate malloc_reclaim_memory max_free_queue_size fresh
          (record { heap = h; queue = queue })
          p
          type
          given
        ≡ deallocate malloc_reclaim_memory max_free_queue_size fresh
            (record { heap = h; queue = queue })
            b
            type
            given
  unfolding debug_deallocate
  debug_deallocate-found h p b type given some_ e = rw (ne→==_false p 0 some_, e) refl

  -- The deallocation of an object whose header reports.
  pub debug_deallocate-reported :
      (h : Heap) (p : ℕ) (type : AllocType) (given : ℕ) (r : Report)
      → p ≢ 0
      → from_raw_pointer h.mem p ≡ reported r
      → debug_deallocate malloc_reclaim_memory max_free_queue_size fresh
          (record { heap = h; queue = queue })
          p
          type
          given
        ≡ reported r
  unfolding debug_deallocate
  debug_deallocate-reported h p type given r some_ e = rw (ne→==_false p 0 some_, e) refl

  -- The deallocation of a block that the checks report.
  pub deallocate-reported :
      (mem : Memory) (map : AddressMap ℕ) (b : ℕ) (type : AllocType) (given map_type : ℕ)
      (r : Report)
      → find map (data_addr b) ≡ some map_type
      → check_words mem b (type_value type) map_type ≡ reported r
      → deallocate malloc_reclaim_memory max_free_queue_size fresh
          (record { heap = record { mem = mem; alloc_map = some map }; queue = queue })
          b
          type
          given
        ≡ reported r
  unfolding deallocate check_and_clear
  deallocate-reported mem map b type given map_type r known e =
      rw (check_locked-known mem map b (type_value type) map_type known, e) refl

  -- The deallocation of a live block that the map knows.
  live-deallocate :
      (map : AddressMap ℕ) (mem : Memory) (b size given : ℕ) (type : AllocType)
      → b + size + block_size < 2 ^ 64
      → (given ≡ 0) ⊎ (given ≡ size)
      → IsLive mem b size type
      → find map (data_addr b) ≡ some (type_value type)
      → debug_deallocate malloc_reclaim_memory max_free_queue_size fresh
          (record { heap = record { mem = mem; alloc_map = some map }; queue = queue })
          (data_addr b)
          type
          given
        ≡ (if malloc_reclaim_memory
            then from_queue (freed_heap map mem b size type) (
                process_free_queue
                  (freed_heap map mem b size type).mem
                  max_free_queue_size
                  fresh
                  (some (record { block = b; size = size + block_size }))
                  queue)
            else fine (record { heap = freed_heap map mem b size type; queue = queue }))
  unfolding deallocate
  live-deallocate map mem b size given type fits right l known =
      debug_deallocate-found (record { mem = mem; alloc_map = some map }) (data_addr b) b type given
        (omega arith) (raw_pointer-header mem b type (omega arith) l.type_word l.offset_word)
      ∙ rw (check_and_clear-live map mem b size type fits given right l known) refl

  -- `do_malloc` placed a block at `b` for an object of `size` bytes, with no wrap of addresses, and the
  -- debug allocation gave `p` and the heap `h'`; then the program wrote as it likes inside the object.
  -- The address is that of the object, the allocation wrote nothing outside the block, and a
  -- deallocation of the same type, with the right size or none, reports nothing: the block is handed
  -- to the queue of freed blocks, or kept when memory is not to be reclaimed, with all its bytes those
  -- of a freed block and no other byte changed.
  pub debug_deallocate-debug_allocate :
      (do_malloc : ℕ → Option ℕ) (h h' : Heap) (b p size given : ℕ) (type : AllocType)
      (mem : Memory)
      → do_malloc (size + block_size) ≡ some b
      → b + size + block_size < 2 ^ 64
      → (given ≡ 0) ⊎ (given ≡ size)
      → debug_allocate do_malloc h size type ≡ fine (some p, h')
      → SameOutside h'.mem mem p size
      → (p ≡ data_addr b)
        × SameOutside h.mem h'.mem b (size + block_size)
        × (h'' : Heap) × (debug_deallocate malloc_reclaim_memory max_free_queue_size fresh
              (record { heap = record h' { mem = mem }; queue = queue })
              p
              type
              given
            ≡ (if malloc_reclaim_memory
                then from_queue h'' (
                    process_free_queue h''.mem max_free_queue_size fresh
                      (some (record { block = b; size = size + block_size }))
                      queue)
                else fine (record { heap = h''; queue = queue })))
        × (is_deleted h''.mem b (size + block_size) ≡ true)
        × SameOutside mem h''.mem b (size + block_size)
  debug_deallocate-debug_allocate do_malloc h h' b p size given type mem place fits right e same =
      let (at, whole) = debug_allocate_unique do_malloc h b size type place fits p h' e in
      let map = insert (map_of h.alloc_map) (data_addr b) (type_value type) in
      let l =
        live-written (live_heap h b size type).mem mem b size type
          (live do_malloc h b size type place fits)
          λ q out. same q (rw at out) ∙ ap (λ (g : Heap). g.mem q) whole in
      let heaps : record h' { mem = mem } ≡ record { mem = mem; alloc_map = some map } =
        ap (λ (g : Heap). record g { mem = mem }) whole ∙ (unfold live_heap in refl) in
      (
        at,
        (λ q out. ap (λ (g : Heap). g.mem q) whole ∙ live_heap-outside h b size type q out),
        freed_heap map mem b size type,
        ap
              (λ (g : Heap).
                debug_deallocate malloc_reclaim_memory max_free_queue_size fresh
                  (record { heap = g; queue = queue }) p type given)
              heaps
            ∙ ap
                (λ (a : ℕ).
                  debug_deallocate malloc_reclaim_memory max_free_queue_size fresh
                    (record { heap = record { mem = mem; alloc_map = some map }; queue = queue }) a
                    type given)
                at
            ∙ live-deallocate map mem b size given type fits right l
                (find-inserted h.alloc_map (data_addr b) (type_value type)),
        freed_heap-deleted map mem b size type,
        (λ q out. freed_heap-outside map mem b size type q out),
      )
