-- ===== src/DebugAllocation/Calls/Free.antt =====
-- Allocation, the program's writes, and deallocation: what passes the checks and what they report.
use gperftools.Base.{
  ℕ, zero, suc, ◌+◌, ◌-◌, ◌%◌, ◌^◌, ◌≤◌, ◌<◌, ◌≡◌, refl, ap, sym, ◌∙◌, ◌⊎◌, inl, inr, bit_or, true,
  false, ◌||◌, ltb, Option, some, ◌==◌, if◌then◌else◌, arith, eq→==,
}
use gperftools.AddressMap.{AddressMap, find, insert}
use gperftools.AddressMap.Update.{find-insert}
use gperftools.DebugAllocation.{Memory, magic_deleted_byte, is_deleted}
use gperftools.DebugAllocation.Bytes.{
  load, store, memset, load-store_self, load-agree, load_bytes, memset-inside, memset-outside,
  store-outside,
}
use gperftools.DebugAllocation.Block.{
  AllocType, type_value, deallocated_type_bit, magic_deleted_size, magic_malloc,
  magic_uninitialized_byte, data_offset, block_size, fine, Checked, Heap, data_addr, size1, offset,
  magic1, alloc_type, real_size, real_malloced_size, map_of, find_type, check_locked,
  check_and_clear, check_words, int_to_size,
}
use gperftools.DebugAllocation.Block.Words.{
  IsLive, formatted, formatted-IsLive, formatted-outside, formatted-data,
}
use gperftools.DebugAllocation.Block.Checks.{
  initialize_lem, check_words-live, is_mmapped-malloc, not-deleted, size2_addr_lem,
}
use gperftools.DebugAllocation.Calls.{allocate, debug_allocate, from_raw_pointer}

-- The heap after a block was allocated.
unfoldable pub live_heap : Heap → ℕ → ℕ → AllocType → Heap
live_heap h b size type = record {
  mem = formatted (store h.mem (b + 16) magic_malloc) b size type;
  alloc_map = some (insert (map_of h.alloc_map) (data_addr b) (type_value type));
}

pub live_heap-data :
    (h : Heap) (b size : ℕ) (type : AllocType) (q : ℕ)
    → data_addr b ≤ q
    → q < data_addr b + size
    → (live_heap h b size type).mem q ≡ magic_uninitialized_byte
unfolding live_heap
live_heap-data h b size type q low high =
    formatted-data (store h.mem (b + 16) magic_malloc) b size type q low high

-- The heap after the block was freed.
unfoldable pub freed_heap : AddressMap ℕ → Memory → ℕ → ℕ → AllocType → Heap
freed_heap map mem b size type = record {
  mem = memset mem b magic_deleted_byte (size + block_size);
  alloc_map = some (insert map (data_addr b) (bit_or (type_value type) deallocated_type_bit));
}

module _ (do_malloc : ℕ → Option ℕ) (h : Heap) (b size : ℕ) (type : AllocType)
    (place : do_malloc (size + block_size) ≡ some b) (fits : b + size + block_size < 2 ^ 64) where
  pub debug_allocate_lem :
      debug_allocate do_malloc h size type ≡ fine (some (data_addr b), live_heap h b size type)
  unfolding debug_allocate allocate real_malloced_size live_heap
  debug_allocate_lem =
      let low : (size + block_size) % 2 ^ 64 ≡ size + block_size = omega arith in
      let test : ltb (2 ^ 64 - 1 - block_size) size ≡ false = ground arith in
      let magic : magic1 (store h.mem (b + 16) magic_malloc) b ≡ magic_malloc =
        load-store_self h.mem (b + 16) magic_malloc (omega arith) in
      rw
        (
          test,
          low,
          place,
          initialize_lem (store h.mem (b + 16) magic_malloc) b size type fits magic h.alloc_map,
        )
        refl

  -- What the call gives is that address and that heap.
  pub debug_allocate_unique :
      (p : ℕ) (h' : Heap)
      → debug_allocate do_malloc h size type ≡ fine (some p, h')
      → (p ≡ data_addr b) × (h' ≡ live_heap h b size type)
  debug_allocate_unique p h' e =
      let whole = sym e ∙ debug_allocate_lem in (ap address whole, ap heap whole)
    where
      address : Checked (Option ℕ × Heap) → ℕ
      address (fine (some q, g)) = q
      address other = p

      heap : Checked (Option ℕ × Heap) → Heap
      heap (fine (q, g)) = g
      heap other = h'

  pub live : IsLive (live_heap h b size type).mem b size type
  unfolding live_heap
  live =
      formatted-IsLive (store h.mem (b + 16) magic_malloc) b size type (omega arith)
        (load-store_self h.mem (b + 16) magic_malloc (omega arith))

pub find-inserted :
    (map : Option (AddressMap ℕ)) (p v : ℕ) → find (insert (map_of map) p v) p ≡ some v
find-inserted map p v =
    find-insert (map_of map) p v p
    ∙ ap (λ t. if t then some v else find (map_of map) p) (eq→== p p refl)

-- Memory that differs at most in the object of a block.
abbrev pub SameOutside : Memory → Memory → ℕ → ℕ → Type 0
SameOutside mem mem' p size = (q : ℕ) → (q < p) ⊎ (p + size ≤ q) → mem' q ≡ mem q

-- A live block stays so when the program writes its object.
pub live-written :
    (mem mem' : Memory) (b size : ℕ) (type : AllocType)
    → IsLive mem b size type
    → SameOutside mem mem' (data_addr b) size
    → IsLive mem' b size type
live-written mem mem' b size type l same =
    let before = λ (q : ℕ) (low : q + 8 ≤ data_addr b).
      load-agree mem' mem q (λ r from to. same r (inl (omega arith))) in
    let after = λ (q : ℕ) (high : data_addr b + size ≤ q).
      load-agree mem' mem q (λ r from to. same r (inr (omega arith))) in
    record {
      size_word = before b (omega arith) ∙ l.size_word;
      offset_word = before (b + 8) (omega arith) ∙ l.offset_word;
      magic_word = before (b + 16) (omega arith) ∙ l.magic_word;
      type_word = before (b + 24) (omega arith) ∙ l.type_word;
      size_after = after _ (omega arith) ∙ l.size_after;
      magic_after = after _ (omega arith) ∙ l.magic_after;
    }

-- The block of an object, by its header.
pub raw_pointer-header :
    (mem : Memory) (b : ℕ) (type : AllocType)
    → data_addr b < 2 ^ 64
    → alloc_type mem b ≡ int_to_size (type_value type)
    → offset mem b ≡ 0
    → from_raw_pointer mem (data_addr b) ≡ fine b
unfolding from_raw_pointer
raw_pointer-header mem b type low t o =
    let mb : (data_addr b + 2 ^ 64 - data_offset) % 2 ^ 64 ≡ b = omega arith in
    let d : (alloc_type mem b == magic_deleted_size) ≡ false = rw t (not-deleted type) in
    rw (mb, d, o) refl

pub deleted-word :
    (mem : Memory) (p n c : ℕ)
    → load (memset mem p magic_deleted_byte (c + 8 + n)) (p + c) ≡ magic_deleted_size
unfolding load load_bytes
deleted-word mem p n c =
    let at = λ (q : ℕ) (low : p ≤ q) (high : q < p + (c + 8 + n)).
      memset-inside mem p magic_deleted_byte (c + 8 + n) q low high in
    rw
      (
        at (p + c) (omega arith) (omega arith),
        at (p + c + 1) (omega arith) (omega arith),
        at (p + c + 1 + 1) (omega arith) (omega arith),
        at (p + c + 1 + 1 + 1) (omega arith) (omega arith),
        at (p + c + 1 + 1 + 1 + 1) (omega arith) (omega arith),
        at (p + c + 1 + 1 + 1 + 1 + 1) (omega arith) (omega arith),
        at (p + c + 1 + 1 + 1 + 1 + 1 + 1) (omega arith) (omega arith),
        at (p + c + 1 + 1 + 1 + 1 + 1 + 1 + 1) (omega arith) (omega arith),
      )
      refl

pub is_deleted-memset :
    (mem : Memory) (p n k q : ℕ)
    → p ≤ q
    → q + n ≤ p + k
    → is_deleted (memset mem p magic_deleted_byte k) q n ≡ true
unfolding is_deleted
is_deleted-memset mem p zero k q low high = refl
is_deleted-memset mem p (suc n) k q low high =
    let here = eq→== _ _ (memset-inside mem p magic_deleted_byte k q low (omega arith)) in
    rw here (is_deleted-memset mem p n k (q + 1) (omega arith) (omega arith))

pub check_locked-known :
    (mem : Memory) (map : AddressMap ℕ) (b t map_type : ℕ)
    → find map (data_addr b) ≡ some map_type
    → check_locked (record { mem = mem; alloc_map = some map }) b t ≡ check_words mem b t map_type
unfolding check_locked find_type
check_locked-known mem map b t map_type e = rw (check_locked, e) refl

module _ (map : AddressMap ℕ) (mem : Memory) (b size : ℕ) (type : AllocType)
    (fits : b + size + block_size < 2 ^ 64) (given : ℕ) (right : (given ≡ 0) ⊎ (given ≡ size)) where
  -- A live block that the map knows is cleared.
  pub check_and_clear-live :
      IsLive mem b size type
      → find map (data_addr b) ≡ some (type_value type)
      → check_and_clear (record { mem = mem; alloc_map = some map }) b type given
        ≡ fine (size + block_size, freed_heap map mem b size type)
  unfolding check_and_clear freed_heap real_size real_malloced_size map_of
  check_and_clear-live l known =
      let checked =
        check_locked-known mem map b (type_value type) (type_value type) known
        ∙ check_words-live mem b size type fits l in
      let at = size2_addr_lem mem b size type fits l.size_word in
      let m = is_mmapped-malloc mem b l.magic_word in
      let e1 : (size1 mem b == load mem (b + data_offset + size)) ≡ true =
        eq→== _ _ (l.size_word ∙ sym l.size_after) in
      let g : ((given == 0) || (given == size)) ≡ true = ground arith in
      let low : (size + block_size) % 2 ^ 64 ≡ size + block_size = omega arith in
      rw (checked, m, at, e1, l.size_word, g, low) refl

pub live_heap-outside :
    (h : Heap) (b size : ℕ) (type : AllocType)
    → SameOutside h.mem (live_heap h b size type).mem b (size + block_size)
unfolding live_heap
live_heap-outside h b size type q out =
    formatted-outside (store h.mem (b + 16) magic_malloc) b size type q (ground arith)
    ∙ store-outside h.mem (b + 16) magic_malloc q (ground arith)

module _ (map : AddressMap ℕ) (mem : Memory) (b size : ℕ) (type : AllocType) where
  pub freed_heap-deleted :
      is_deleted (freed_heap map mem b size type).mem b (size + block_size) ≡ true
  unfolding freed_heap
  freed_heap-deleted =
      is_deleted-memset mem b (size + block_size) (size + block_size) b (omega arith) (omega arith)

  pub freed_heap-outside :
      SameOutside mem (freed_heap map mem b size type).mem b (size + block_size)
  unfolding freed_heap
  freed_heap-outside q out = memset-outside mem b magic_deleted_byte (size + block_size) q out
