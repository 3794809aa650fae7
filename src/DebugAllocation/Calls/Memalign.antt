-- ===== src/DebugAllocation/Calls/Memalign.antt =====
-- The aligned allocation, and the way back from its object to its block.
use native.Mathlib.Nat.{mod_self, mul-mod_left, div-mul-le_self, lt-div-mul-add}
use gperftools.Base.{
  ℕ, ◌+◌, ◌-◌, ◌/◌, ◌%◌, ◌^◌, ◌≤◌, ◌<◌, ◌≡◌, refl, ◌∙◌, inr, bit_and, false, ltb, leb, Option, some,
  ◌==◌, arith,
}
use gperftools.Base.Bits.{bit_and_mask}
use gperftools.Base.Power.{two-pow-pos, two-pow-le}
use gperftools.PageHeap.Round.{clear_low}
use gperftools.DebugAllocation.{Memory}
use gperftools.DebugAllocation.Bytes.{load, store, load_bytes, load-store_self, store-outside}
use gperftools.DebugAllocation.Block.{
  AllocType, int_to_size, magic_deleted_size, magic_uninitialized_byte, data_offset, block_size,
  fine, Heap, data_addr, offset, alloc_type, round_up,
}
use gperftools.DebugAllocation.Block.Words.{IsLive}
use gperftools.DebugAllocation.Block.Checks.{size2_addr_lem}
use gperftools.DebugAllocation.Calls.{offset_word, do_debug_memalign, from_raw_pointer}
use gperftools.DebugAllocation.Calls.Free.{
  live_heap, live_heap-data, debug_allocate_lem, live, live-written,
}

-- Rounding up to a power of two.
pub round_up_lem :
    (k v : ℕ)
    → k ≤ 64
    → v + 2 ^ k ≤ 2 ^ 64
    → (round_up v (2 ^ k) % 2 ^ k ≡ 0) × (v ≤ round_up v (2 ^ k)) × (round_up v (2 ^ k) < v + 2 ^ k)
unfolding round_up
round_up_lem k v small fits =
    let p : ℕ = 2 ^ k in
    let pos : 0 < p = two-pow-pos k in
    let sum : (v + p - 1) % 2 ^ 64 ≡ v + p - 1 = omega arith in
    rw (sum, clear_low k (v + p - 1) small (omega arith))
      (
        mul-mod_left ((v + p - 1) / p) p,
        omega (arith, lt-div-mul-add {a = v + p - 1} pos),
        omega (arith, div-mul-le_self (v + p - 1) p),
      )

-- A word of bytes that were never written by the program.
filled-word :
    (mem : Memory) (p : ℕ)
    → ((q : ℕ) → p ≤ q → q < p + 8 → mem q ≡ magic_uninitialized_byte)
    → (load mem p == magic_deleted_size) ≡ false
unfolding load load_bytes
filled-word mem p at =
    rw
      (
        at p (omega arith) (omega arith),
        at (p + 1) (omega arith) (omega arith),
        at (p + 1 + 1) (omega arith) (omega arith),
        at (p + 1 + 1 + 1) (omega arith) (omega arith),
        at (p + 1 + 1 + 1 + 1) (omega arith) (omega arith),
        at (p + 1 + 1 + 1 + 1 + 1) (omega arith) (omega arith),
        at (p + 1 + 1 + 1 + 1 + 1 + 1) (omega arith) (omega arith),
        at (p + 1 + 1 + 1 + 1 + 1 + 1 + 1) (omega arith) (omega arith),
      )
      refl

-- The object of an aligned allocation, `p`, leads to the block by the offset before it.
raw_pointer-fake :
    (mem : Memory) (b size p : ℕ) (type : AllocType)
    → b + size + block_size < 2 ^ 64
    → IsLive mem b size type
    → data_addr b + data_offset ≤ p
    → p ≤ data_addr b + size
    → offset mem (p - data_offset) ≡ p - data_addr b
    → (alloc_type mem (p - data_offset) == magic_deleted_size) ≡ false
    → from_raw_pointer mem p ≡ fine b
unfolding from_raw_pointer
raw_pointer-fake mem b size p type fits l low high o t =
    let mb : (p + 2 ^ 64 - data_offset) % 2 ^ 64 ≡ p - data_offset = omega arith in
    let some_ : ((p - data_addr b) == 0) ≡ false = ground arith in
    let main : (p - data_offset + 2 ^ 64 - (p - data_addr b)) % 2 ^ 64 ≡ b = omega arith in
    let above : leb p b ≡ false = ground arith in
    let at = size2_addr_lem mem b size type fits l.size_word in
    let below : ltb (b + data_offset + size) p ≡ false = ground arith in
    rw (mb, t, o, some_, main, l.offset_word, above, at, below) refl

-- For an alignment 2^k, k below 31, and a block that `do_malloc` placed at `b` for the size with the
-- extra bytes, with no wrap of addresses: the aligned allocation gives a multiple of the alignment; the
-- object lies within the object of the block, with room for a header before it; the words of the block
-- are those of a live one, and from the address given `FromRawPointer` finds the block.
pub do_debug_memalign_lem :
    (do_malloc : ℕ → Option ℕ) (h : Heap) (k b size : ℕ) (type : AllocType)
    → k < 31
    → do_malloc (size + (data_offset + 2 ^ k - 1) + block_size) ≡ some b
    → b + (size + (data_offset + 2 ^ k - 1)) + block_size < 2 ^ 64
    → (p : ℕ) × (h' : Heap) × (do_debug_memalign do_malloc h (2 ^ k) size type ≡ fine (some p, h'))
      × (p % 2 ^ k ≡ 0)
      × (data_addr b + data_offset ≤ p)
      × (p + size ≤ data_addr b + (size + (data_offset + 2 ^ k - 1)))
      × IsLive h'.mem b (size + (data_offset + 2 ^ k - 1)) type
      × (from_raw_pointer h'.mem p ≡ fine b)
unfolding do_debug_memalign
do_debug_memalign_lem do_malloc h k b size type small place fits =
    let power : bit_and (2 ^ k) (2 ^ k - 1) ≡ 0 = bit_and_mask k (2 ^ k) ∙ mod_self (2 ^ k) in
    let whole : (size + (data_offset + 2 ^ k - 1)) % 2 ^ 64 ≡ size + (data_offset + 2 ^ k - 1) =
      omega arith in
    let grows : ltb (size + (data_offset + 2 ^ k - 1)) size ≡ false = ground arith in
    let at : (data_addr b + data_offset) % 2 ^ 64 ≡ data_addr b + data_offset = omega arith in
    let (multiple, low, high) =
      round_up_lem k (data_addr b + data_offset) (omega arith) (omega arith) in
    let p = round_up (data_addr b + data_offset) (2 ^ k) in
    let gap : (p + 2 ^ 64 - data_addr b) % 2 ^ 64 ≡ p - data_addr b = omega arith in
    let bound : 2 ^ k ≤ 2 ^ 30 = two-pow-le k 30 (omega arith) in
    let word : offset_word (p - data_addr b) ≡ p - data_addr b =
      unfold offset_word int_to_size in ground arith in
    let total : ℕ = size + (data_offset + 2 ^ k - 1) in
    let before = live_heap h b total type in
    let fake = p - data_offset in
    let mem = store before.mem (fake + 8) (p - data_addr b) in
    let l =
      live-written before.mem mem b total type (live do_malloc h b total type place fits)
        λ q out. store-outside before.mem (fake + 8) (p - data_addr b) q (ground arith) in
    let o = load-store_self before.mem (fake + 8) (p - data_addr b) (omega arith) in
    let t : (alloc_type mem fake == magic_deleted_size) ≡ false =
      filled-word mem (fake + 24) λ q from to.
        store-outside before.mem (fake + 8) (p - data_addr b) q (inr (omega arith))
        ∙ live_heap-data h b total type q (omega arith) (omega arith) in
    (
      p,
      record before { mem = mem },
      rw
          (
            power,
            whole,
            grows,
            debug_allocate_lem do_malloc h b total type place fits,
            at,
            gap,
            word,
          )
          refl,
      multiple,
      low,
      omega arith,
      l,
      raw_pointer-fake mem b total p type fits l low (omega arith) o t,
    )
