-- ===== src/DebugAllocation/Calls/Errors.antt =====
-- What a deallocation reports: a second deallocation, and a write past the end of the object.
use mathlib.Core.Path.{subst}
use gperftools.Base.{
  ℕ, ◌+◌, ◌-◌, ◌%◌, ◌^◌, ◌≤◌, ◌<◌, ◌≡◌, ◌≢◌, refl, ap, sym, ◌∙◌, ◌⊎◌, inl, inr, bit_or, Bool,
  Option, none, some, arith,
}
use gperftools.AddressMap.{AddressMap, block_in, find_entry, find, insert}
use gperftools.DebugAllocation.{MallocBlockQueueEntry, Memory, magic_deleted_byte, Freed}
use gperftools.DebugAllocation.Bytes.{
  load, memset, load-agree, load-injective, AreBytes, store-AreBytes,
}
use gperftools.DebugAllocation.Block.{
  AllocType, type_value, deallocated_type_bit, magic_deleted_size, magic_malloc, data_offset,
  block_size, already_deallocated, word_after, fine, reported, Heap, data_addr, map_of,
  check_and_clear,
}
use gperftools.DebugAllocation.Block.Words.{formatted-AreBytes}
use gperftools.DebugAllocation.Block.Checks.{check_words-after, check_words-freed}
use gperftools.DebugAllocation.Calls.{debug_allocate, from_raw_pointer, debug_deallocate}
use gperftools.DebugAllocation.Calls.Free.{
  live_heap, debug_allocate_unique, live, find-inserted, raw_pointer-header, deleted-word,
}
use gperftools.DebugAllocation.Calls.Reports.{
  Post, Cleared, check_and_clear-Cleared, debug_deallocate-found, debug_deallocate-reported,
  deallocate-reported,
}

-- Memory that agrees on the header of a block.
abbrev pub SameHeader : Memory → Memory → ℕ → Type 0
SameHeader mem mem' b = (q : ℕ) → b ≤ q → q < b + data_offset → mem' q ≡ mem q

-- The header of a block that was cleared is no header.
raw_pointer-deleted :
    (mem mem' : Memory) (b n : ℕ)
    → data_addr b < 2 ^ 64
    → data_offset ≤ n
    → SameHeader (memset mem b magic_deleted_byte n) mem' b
    → from_raw_pointer mem' (data_addr b) ≡ reported already_deallocated
unfolding from_raw_pointer
raw_pointer-deleted mem mem' b n low enough same =
    let mb : (data_addr b + 2 ^ 64 - data_offset) % 2 ^ 64 ≡ b = omega arith in
    let split : 24 + 8 + (n - data_offset) ≡ n = omega arith in
    let word : load mem' (b + 24) ≡ magic_deleted_size =
      load-agree mem' (memset mem b magic_deleted_byte n) (b + 24)
        (λ q from to. same q (omega arith) (omega arith))
      ∙ ap (λ k. load (memset mem b magic_deleted_byte k) (b + 24)) (sym split)
      ∙ deleted-word mem b (n - data_offset) 24 in
    rw (mb, word) refl

clearing_lem :
    (h h'' : Heap) (b n given : ℕ) (type : AllocType)
    → check_and_clear h b type given ≡ fine (n, h'')
    → Cleared h b type (n, h'')
unfolding Post
clearing_lem h h'' b n given type e =
    subst (Post (Cleared h b type)) e (check_and_clear-Cleared h b type given)

-- A map that knows an address is there.
known-map :
    (o : Option (AddressMap ℕ)) (p v : ℕ)
    → find (map_of o) p ≡ some v
    → (map : AddressMap ℕ) × (o ≡ some map) × (find map p ≡ some v)
unfolding map_of find block_in find_entry
known-map none p v e = ground arith
known-map (some map) p v e = (map, refl, e)

module _ (malloc_reclaim_memory : Bool) (max_free_queue_size : ℕ)
    (fresh : ℕ → MallocBlockQueueEntry) (queue : Freed) where
  -- Once `CheckAndClear` has cleared a block and given its size, a second deallocation, of any type and
  -- on any later heap, is reported as one of an object already deallocated: if the size is at least
  -- a header and the header of the block is still as it was left, whatever the map holds; or if the
  -- memory was written so that the pointer still leads to the block, and the map still holds for the
  -- address of the block's object what the first deallocation left, so that the debug allocator did not
  -- give the address again.
  pub second_deallocation_lem :
      (h h'' later : Heap) (b p n given given' : ℕ) (type type' : AllocType)
      → check_and_clear h b type given ≡ fine (n, h'')
      → p ≢ 0
      → ((p ≡ data_addr b)
          × (data_addr b < 2 ^ 64)
          × (data_offset ≤ n)
          × SameHeader h''.mem later.mem b)
        ⊎ ((from_raw_pointer later.mem p ≡ fine b)
            × (find (map_of later.alloc_map) (data_addr b)
                ≡ find (map_of h''.alloc_map) (data_addr b)))
      → debug_deallocate malloc_reclaim_memory max_free_queue_size fresh
          (record { heap = later; queue = queue })
          p
          type'
          given'
        ≡ reported already_deallocated
  unfolding Cleared map_of
  second_deallocation_lem h h'' later b p n given given' type type' e some_
        (inl (at, low, enough, same)) =
      let c = clearing_lem h h'' b n given type e in
      debug_deallocate-reported malloc_reclaim_memory max_free_queue_size fresh queue later p type'
        given' already_deallocated some_
        (ap (from_raw_pointer later.mem) at
          ∙ raw_pointer-deleted h.mem later.mem b n low enough
              (λ q from to. same q from to ∙ ap (λ (m : Memory). m q) c.0))
  second_deallocation_lem h h'' later b p n given given' type type' e some_ (inr (found, kept)) =
      let c = clearing_lem h h'' b n given type e in
      let v = bit_or (type_value type) deallocated_type_bit in
      let known : find (map_of later.alloc_map) (data_addr b) ≡ some v =
        kept
        ∙ ap (λ (m : Option (AddressMap ℕ)). find (map_of m) (data_addr b)) c.1
        ∙ find-inserted h.alloc_map (data_addr b) v in
      let (map, whole, known') = known-map later.alloc_map (data_addr b) v known in
      let same : later ≡ record { mem = later.mem; alloc_map = some map } =
        ap {B = Heap} (λ (m : Option (AddressMap ℕ)). record { mem = later.mem; alloc_map = m })
          whole in
      ap
        (λ (g : Heap).
          debug_deallocate malloc_reclaim_memory max_free_queue_size fresh
            (record { heap = g; queue = queue }) p type' given')
        same
      ∙ debug_deallocate-found malloc_reclaim_memory max_free_queue_size fresh queue
          (record { mem = later.mem; alloc_map = some map }) p b type' given' some_ found
      ∙ deallocate-reported malloc_reclaim_memory max_free_queue_size fresh queue later.mem map b
          type' given' v already_deallocated known'
          (check_words-freed later.mem b (type_value type') type)

  -- In memory of bytes the debug allocation made a block that `do_malloc` placed at `b`, with no wrap of
  -- addresses, and gave `p` and the heap `h'`. If the program writes as it likes but for the header of
  -- the block, and changes one of the eight bytes after the object, then a deallocation, of any type
  -- and with any size, reports a corrupted word after the object.
  pub write_past_end_lem :
      (do_malloc : ℕ → Option ℕ) (h h' : Heap) (b p size given i : ℕ) (type type' : AllocType)
      (mem : Memory)
      → do_malloc (size + block_size) ≡ some b
      → b + size + block_size < 2 ^ 64
      → AreBytes h.mem
      → debug_allocate do_malloc h size type ≡ fine (some p, h')
      → AreBytes mem
      → SameHeader h'.mem mem b
      → i < 8
      → mem (p + size + i) ≢ h'.mem (p + size + i)
      → debug_deallocate malloc_reclaim_memory max_free_queue_size fresh
          (record { heap = record h' { mem = mem }; queue = queue })
          p
          type'
          given
        ≡ reported word_after
  unfolding live_heap
  write_past_end_lem do_malloc h h' b p size given i type type' mem place fits bytes e bytes' same
        low differs =
      let (at, whole) = debug_allocate_unique do_malloc h b size type place fits p h' e in
      let map = insert (map_of h.alloc_map) (data_addr b) (type_value type) in
      let l = live do_malloc h b size type place fits in
      let word = λ (q : ℕ) (from : b ≤ q) (to : q + 8 ≤ b + data_offset).
        load-agree mem (live_heap h b size type).mem q
          (λ r from' to'. same r (omega arith) (omega arith) ∙ ap (λ (g : Heap). g.mem r) whole) in
      let t = word (b + 24) (omega arith) (omega arith) ∙ l.type_word in
      let found =
        raw_pointer-header mem b type (omega arith) t
          (word (b + 8) (omega arith) (omega arith) ∙ l.offset_word) in
      let ne : load mem (data_addr b + size) ≢ size = λ w. differs (
        ap (λ (a : ℕ). mem (a + size + i)) at
        ∙ load-injective mem (live_heap h b size type).mem (data_addr b + size) i bytes'
            (formatted-AreBytes _ b size type (store-AreBytes h.mem (b + 16) magic_malloc bytes))
            low (w ∙ sym l.size_after)
        ∙ sym (
            ap (λ (g : Heap). g.mem (p + size + i)) whole
            ∙ ap (λ (a : ℕ). (live_heap h b size type).mem (a + size + i)) at)) in
      ap
        (λ (g : Heap).
          debug_deallocate malloc_reclaim_memory max_free_queue_size fresh
            (record { heap = record g { mem = mem }; queue = queue }) p type' given)
        whole
      ∙ ap
          (λ (a : ℕ).
            debug_deallocate malloc_reclaim_memory max_free_queue_size fresh
              (record { heap = record { mem = mem; alloc_map = some map }; queue = queue }) a type'
              given)
          at
      ∙ debug_deallocate-found malloc_reclaim_memory max_free_queue_size fresh queue
          (record { mem = mem; alloc_map = some map }) (data_addr b) b type' given (omega arith)
          found
      ∙ deallocate-reported malloc_reclaim_memory max_free_queue_size fresh queue mem map b type'
          given (type_value type) word_after
          (find-inserted h.alloc_map (data_addr b) (type_value type))
          (check_words-after mem b size type fits (type_value type')
            (word b (omega arith) (omega arith) ∙ l.size_word)
            (word (b + 16) (omega arith) (omega arith) ∙ l.magic_word) t ne)
