-- ===== src/SizeMap/Endless.antt =====
-- `SizeMap::Init` for a transfer count that is negative.
use native.Mathlib.Nat.{div-mul-le_self}
use gperftools.Base.{
  ℕ, zero, suc, ◌+◌, ◌-◌, ◌*◌, ◌/◌, ◌%◌, ◌^◌, ◌≤◌, ◌<◌, ◌≡◌, refl, true, out_of_fuel, ltb, ◌==◌,
  arith, inl, inr, Bool-cases, lt→ltb,
}
use gperftools.SizeMap.{
  alignment, class_index, num_move_size, blocks_to_move, min_span_size, raw_alignment,
  cap_alignment, lg_floor, fit_span, fit_fuel, Table, no_classes, classes_loop, init,
}
use gperftools.SizeMap.Align.{alignment_for_size-capped}

short_quotient : (p size : ℕ) → p < 2 ^ 64 → 8 ≤ size → p / size < 2 ^ 63
short_quotient p size h big = go (p / size) (div-mul-le_self p size)
  where
    go : (q : ℕ) → q * size ≤ p → q < 2 ^ 63
    go q e = let eights : q * 8 ≤ q * size = grind arith in omega arith

-- No span of 64-bit length holds so many blocks.
fit_span-endless :
    (fuel min_span size blocks psize : ℕ)
    → 8 ≤ size
    → 2 ^ 63 ≤ blocks
    → fit_span fuel min_span size blocks psize ≡ out_of_fuel
unfolding fit_span
fit_span-endless zero min_span size blocks psize big many = refl
fit_span-endless (suc fuel) min_span size blocks psize big many =
    let p : ℕ = (psize + min_span) % 2 ^ 64 in
    let few = short_quotient p size (omega arith) big in
    let again : ltb (p / size) blocks ≡ true = lt→ltb _ _ (omega (arith, few)) in
    let ih = fit_span-endless fuel min_span size blocks p big many in
    elim (Bool-cases (ltb (p / 8) (p % size))) [
      | inl e ↦ rw (e, ih) refl
      | inr e ↦ rw (e, again, ih) refl
    ]

many_blocks :
    (transfer_num : ℕ)
    → 2 ^ 31 ≤ transfer_num
    → transfer_num ≤ 2 ^ 32 - 4
    → 2 ^ 63 ≤ blocks_to_move (num_move_size transfer_num alignment)
unfolding blocks_to_move num_move_size
many_blocks transfer_num negative low = ground arith

first_aligned : (alignment % cap_alignment (raw_alignment alignment) == 0) ≡ true
unfolding cap_alignment raw_alignment lg_floor
first_aligned = refl

classes_loop-endless :
    (fuel min_span transfer_num : ℕ) (t : Table)
    → 2 ^ 31 ≤ transfer_num
    → transfer_num ≤ 2 ^ 32 - 4
    → classes_loop (suc fuel) min_span transfer_num alignment t ≡ out_of_fuel
unfolding classes_loop
classes_loop-endless fuel min_span transfer_num t negative low =
    let blocks = blocks_to_move (num_move_size transfer_num alignment) in
    rw
      (
        alignment_for_size-capped alignment,
        first_aligned,
        fit_span-endless (fit_fuel alignment blocks) min_span alignment blocks 0 (omega arith)
            (many_blocks transfer_num negative low),
      )
      refl

-- For a transfer count whose 32 bits are those of -4 or less, `SizeMap::Init` does not end, for any
-- page size of the system: the loop that sizes the span of the first class, of 8 bytes, is still
-- running after any number of rounds, and so `Init` gives no map.
pub init-endless :
    (fuel native_page_size transfer_num : ℕ)
    → 2 ^ 31 ≤ transfer_num
    → transfer_num ≤ 2 ^ 32 - 4
    → (fit_span fuel
          (min_span_size native_page_size)
          alignment
          (blocks_to_move (num_move_size transfer_num alignment))
          0
        ≡ out_of_fuel)
      × (init native_page_size transfer_num ≡ out_of_fuel)
unfolding init class_index
init-endless fuel native transfer_num negative low = (
  fit_span-endless fuel (min_span_size native) alignment _ 0 (omega arith)
      (many_blocks transfer_num negative low),
  rw (classes_loop-endless 32769 (min_span_size native) transfer_num no_classes negative low) refl,
)
