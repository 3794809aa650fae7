-- ===== src/SizeMap/Align.antt =====
-- `AlignmentForSize`.
use gperftools.Base.{
  ℕ, ◌+◌, ◌-◌, ◌*◌, ◌^◌, ◌≤◌, ◌<◌, ◌≡◌, refl, ap, ◌∙◌, true, ◌==◌, arith, ok, ltb, leb, ◌||◌,
  bit_and, passes_below, passes_below_sound,
}
use gperftools.Base.Power.{pow-add, two-pow-pos, two-pow-le, lt_of_two-pow-lt}
use native.Mathlib.Decide.{dec_lt}
use gperftools.SizeMap.{
  max_size, min_align, lg_floor, raw_alignment, cap_alignment, alignment_for_size,
}
use gperftools.SizeMap.Log.{lg_floor_lem}

-- What the alignment 2^k of a size promises.
pub record Aligns (size k : ℕ) : Type 0 where
  pub at_least : 3 ≤ k
  pub at_most : k ≤ 13
  pub simd : min_align ≤ size → 4 ≤ k
  pub slack : 128 ≤ size → size ≤ max_size → 8 * 2 ^ k ≤ size

power_table : passes_below (λ k. bit_and (2 ^ k) (2 ^ k - 1) == 0) 14 ≡ true
unfolding passes_below
power_table = refl

raw_middle :
    (size : ℕ)
    → 128 ≤ size
    → size ≤ max_size
    → (l : ℕ) × (raw_alignment size ≡ 2 ^ l) × (4 ≤ l) × (l ≤ 15) × (8 * 2 ^ l ≤ size)
unfolding raw_alignment
raw_middle size lo hi =
    let l : ℕ = lg_floor size in
    let (below, above) = lg_floor_lem size (omega arith) (omega arith) in
    let least = lt_of_two-pow-lt 7 (l + 1) (omega arith) in
    let most = lt_of_two-pow-lt l 19 (omega arith) in
    let cut : 2 ^ l ≡ 2 ^ (l - 3) * 8 = ap (λ (e : ℕ). 2 ^ e) (omega arith) ∙ pow-add (l - 3) 3 in
    (l - 3, ground arith, omega arith, omega arith, omega arith)

-- The result of `AlignmentForSize` before its checks is a power of two.
capped : (size : ℕ) → (k : ℕ) × (cap_alignment (raw_alignment size) ≡ 2 ^ k) × Aligns size k
unfolding cap_alignment
capped size = elim (dec_lt max_size size) [
  | yes h ↦ (
    13,
    unfold raw_alignment in ground arith,
    record {
      at_least = omega arith;
      at_most = omega arith;
      simd = λ _. omega arith;
      slack = λ _ p. absurd (omega arith);
    },
  )
  | no h ↦ elim (dec_lt size 128) [
    | yes h' ↦ elim (dec_lt size 16) [
      | yes h'' ↦ (
        3,
        unfold raw_alignment in ground arith,
        record {
          at_least = omega arith;
          at_most = omega arith;
          simd = λ p. absurd (omega arith);
          slack = λ p _. absurd (omega arith);
        },
      )
      | no h'' ↦ (
        4,
        unfold raw_alignment in ground arith,
        record {
          at_least = omega arith;
          at_most = omega arith;
          simd = λ p. omega arith;
          slack = λ p _. absurd (omega arith);
        },
      )
    ]
    | no h' ↦
        let (l, e, lo, hi, fits) = raw_middle size (omega arith) (omega arith) in
        elim (dec_lt 13 l) [
          | yes big ↦
              let more = two-pow-le 14 l big in
              (
                13,
                rw e (ground arith),
                record {
                  at_least = omega arith;
                  at_most = omega arith;
                  simd = λ p. omega arith;
                  slack = λ p _. omega arith;
                },
              )
          | no small ↦
              let less = two-pow-le l 13 (omega arith) in
              (
                l,
                rw e (ground arith),
                record {
                  at_least = omega arith;
                  at_most = omega arith;
                  simd = λ p. lo;
                  slack = λ p _. fits;
                },
              )
        ]
  ]
]

-- No check of `AlignmentForSize` fails: it returns its capped alignment.
pub alignment_for_size-capped :
    (size : ℕ) → alignment_for_size size ≡ ok (cap_alignment (raw_alignment size))
unfolding alignment_for_size
alignment_for_size-capped size =
    let (k, e, a) = capped size in
    let power =
      passes_below_sound (λ k. bit_and (2 ^ k) (2 ^ k - 1) == 0) 14 k (omega (arith, a.at_most))
        power_table in
    let simd : (ltb size min_align || leb min_align (2 ^ k)) ≡ true =
      ground (arith, a.simd, two-pow-le 4 k) in
    rw (e, simd, power)

-- `AlignmentForSize` fails no check, whatever the size: it returns a power of two from 8 to a page,
-- at least 16 for a size of 16 or more, and at most an eighth of a size from 128 to `kMaxSize`.
pub alignment_for_size_lem :
    (size : ℕ) → (k : ℕ) × (alignment_for_size size ≡ ok (2 ^ k)) × Aligns size k
alignment_for_size_lem size =
    let (k, e, a) = capped size in (k, alignment_for_size-capped size ∙ ap ok e, a)

pub capped-pos : (size : ℕ) → 0 < cap_alignment (raw_alignment size)
capped-pos size = let (k, e, a) = capped size in rw e (two-pow-pos k)
