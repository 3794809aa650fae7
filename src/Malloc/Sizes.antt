-- ===== src/Malloc/Sizes.antt =====
-- The sizes that the entry points compute: overflow, alignment and what is usable.
use native.Mathlib.Nat.{
  div-lt_iff_lt-mul, mul-div_cancel, div-mul-le_self, lt-div-mul-add, mul-mod_left, mod-eq_of_lt,
}
use native.Mathlib.Decide.{dec_lt}
use gperftools.Base.{
  ℕ, zero, suc, ◌+◌, ◌-◌, ◌*◌, ◌/◌, ◌%◌, ◌^◌, ◌≤◌, ◌<◌, ◌≡◌, refl, ap, ◌∙◌, inl, inr, bit_and,
  false, Option, none, some, ltb, ◌==◌, if◌then◌else◌, arith, ne→==_false, eq→==, lt→ltb,
  le→ltb_false,
}
use gperftools.Base.Bits.{bit_and_mask}
use gperftools.Base.Power.{two-pow-pos, two-pow-le}
use gperftools.SizeMap.{SizeMap, page_shift, page_size, pages, get_size_class}
use gperftools.SizeMap.Init.{IsSizeMap, get_size_class_lem}
use gperftools.PageHeap.Grow.{round_up_size}
use gperftools.PageHeap.Round.{clear_low, round_up_size_lem}
use gperftools.Malloc.{align_size_up, size_class_with_alignment, nallocx_slow, nallocx, calloc_size}

-- The overflow check of `do_calloc` is exact: for words n and `elem_size` it gives their product if
-- that is below 2^64, and refuses otherwise.
pub calloc_size_lem :
    (n elem_size : ℕ)
    → n < 2 ^ 64
    → elem_size < 2 ^ 64
    → calloc_size n elem_size
      ≡ (if ltb (n * elem_size) (2 ^ 64) then some (n * elem_size) else none)
unfolding calloc_size
calloc_size_lem n zero word word' = let none_at : n * 0 ≡ 0 = omega arith in rw none_at refl
calloc_size_lem n (suc e) word word' =
    let some_size : (suc e == 0) ≡ false = ground arith in
    elim (dec_lt (n * suc e) (2 ^ 64)) [
      | yes h ↦
          let size : n * suc e % 2 ^ 64 ≡ n * suc e = mod-eq_of_lt h in
          let back : n * suc e / suc e ≡ n = mul-div_cancel n (omega arith) in
          rw (size, back, eq→== n n refl, lt→ltb (n * suc e) (2 ^ 64) h, some_size) refl
      | no h ↦
          let less : n * suc e % 2 ^ 64 < n * suc e = omega arith in
          let quotient : n * suc e % 2 ^ 64 / suc e < n =
            (div-lt_iff_lt-mul {k = suc e} {x = n * suc e % 2 ^ 64} {y = n} (omega arith)).1 less in
          rw
            (
              ne→==_false (n * suc e % 2 ^ 64 / suc e) n (omega arith),
              le→ltb_false (n * suc e) (2 ^ 64) (omega arith),
              some_size,
            )
            refl
    ]

-- For an alignment of 2^k bytes, k up to 13, and a size above 0 that can be rounded up within 64
-- bits, `align_size_up` gives a multiple of the alignment, at least the size and less than an
-- alignment more.
pub align_size_up_lem :
    (k size : ℕ)
    → k ≤ 13
    → 0 < size
    → size + 2 ^ k ≤ 2 ^ 64
    → (align_size_up size (2 ^ k) % 2 ^ k ≡ 0)
      × (size ≤ align_size_up size (2 ^ k))
      × (align_size_up size (2 ^ k) < size + 2 ^ k)
unfolding align_size_up
align_size_up_lem k size small some_bytes fits =
    let p : ℕ = 2 ^ k in
    let pos : 0 < p = two-pow-pos k in
    let top = two-pow-le k 13 small in
    let sum : (size + p + 2 ^ 64 - 1) % 2 ^ 64 ≡ size + p - 1 = omega arith in
    let cleared = clear_low k (size + p - 1) (omega arith) (omega arith) in
    let least : size ≤ (size + p - 1) / p * p =
      omega (arith, lt-div-mul-add {a = size + p - 1} pos) in
    rw (sum, cleared, ne→==_false ((size + p - 1) / p * p) 0 (omega arith))
      (mul-mod_left ((size + p - 1) / p) p, least, omega (arith, div-mul-le_self (size + p - 1) p))

pages_lem :
    (size : ℕ) → (size ≤ pages size * page_size) × (pages size * page_size < size + page_size)
unfolding pages
pages_lem size =
    let low : bit_and size (page_size - 1) ≡ size % page_size = bit_and_mask 13 size in
    rw low (ground arith)

align_one : (size : ℕ) → 0 < size → size < 2 ^ 63 → align_size_up size 1 ≡ size
align_one size some_bytes word =
    let r = align_size_up_lem 0 size (omega arith) some_bytes (omega arith) in omega (arith, r)

nallocx_slow-large :
    (m : SizeMap) (size : ℕ)
    → 0 < size
    → size < 2 ^ 63
    → get_size_class m size ≡ none
    → nallocx_slow m size 0
      ≡ round_up_size m.min_span_size_in_pages (pages size) * 2 ^ page_shift % 2 ^ 64
unfolding nallocx_slow size_class_with_alignment
nallocx_slow-large m size some_bytes word e =
    ap
      (λ (o : Option ℕ). elim o as (λ _. ℕ) [
        | some cl ↦ m.class_to_size cl
        | none ↦ round_up_size m.min_span_size_in_pages (pages size) * 2 ^ page_shift % 2 ^ 64
      ])
      (ap (get_size_class m) (align_one size some_bytes word) ∙ e)

-- What `tc_nallocx` says of a request below 2^63 bytes, without flags, is at least the request, for a
-- map as `Init` makes it with a smallest span of 2^k pages, k up to 49.
pub nallocx-holds :
    {transfer_num : ℕ} {m : SizeMap} (k size : ℕ)
    → IsSizeMap transfer_num m
    → m.min_span_size_in_pages ≡ 2 ^ k
    → k ≤ 49
    → size < 2 ^ 63
    → size ≤ nallocx m size 0
unfolding nallocx
nallocx-holds {m = m} k size valid span small word = elim (get_size_class_lem size valid) [
  | inl (fits, c, e, class) ↦
      let some_class : (c == 0) ≡ false = ground (arith, class.least) in
      rw (e, some_class) class.holds
  | inr (large, e) ↦
      let (low, high) = pages_lem size in
      let top = two-pow-le k 49 small in
      let (multiple, low', high') = round_up_size_lem k (pages size) (omega arith) (omega arith) in
      let whole : round_up_size (2 ^ k) (pages size) * 2 ^ page_shift % 2 ^ 64
          ≡ round_up_size (2 ^ k) (pages size) * 2 ^ page_shift =
        omega arith in
      rw (e, nallocx_slow-large m size (omega arith) word e, span, whole) (omega arith)
]
