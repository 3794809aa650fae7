-- ===== src/PageHeap/Skip.antt =====
-- The loop of `NewAligned` that skips pages.
use native.Mathlib.Decide.{dec_lt}
use native.Mathlib.Nat.{mod-lt, mod-eq_of_lt, mod-add-div, add-mul-mod_self_right}
use gperftools.Base.{
  ℕ, zero, suc, ◌+◌, ◌-◌, ◌*◌, ◌/◌, ◌%◌, ◌^◌, ◌≤◌, ◌<◌, ◌≡◌, ◌≢◌, refl, sym, ap, ◌∙◌, inl, inr,
  arith, true, false, ◌==◌, Bool-cases, ok, ==_iff,
}
use gperftools.Base.Bits.{bit_and_mask}
use gperftools.Base.Power.{pow-add, two-pow-pos, two-pow-le}
use gperftools.PageHeap.{bytes, sub64}
use gperftools.PageHeap.Aligned.{is_aligned, skip_loop}

-- The remainder of a product by a product.
mod-mul_right : (s a c : ℕ) → 0 < a → 0 < c → s * c % (a * c) ≡ s % a * c
mod-mul_right s a c pos pos' =
    let less : s % a * c < a * c = product (s % a) a c (mod-lt s pos) pos' in
    ap (λ (t : ℕ). t % (a * c)) (whole s a c)
    ∙ (add-mul-mod_self_right (s % a * c) (s / a) (a * c) ∙ mod-eq_of_lt less)
  where
    product : (r a c : ℕ) → r < a → 0 < c → r * c < a * c
    product r a c h h' = grind arith

    split : (s a c q r : ℕ) → s ≡ r + a * q → s * c ≡ r * c + q * (a * c)
    split s a c q r e = rw e (grind arith)

    whole : (s a c : ℕ) → s * c ≡ s % a * c + s / a * (a * c)
    whole s a c = split s a c (s / a) (s % a) (sym (mod-add-div s a))

aligned_iff :
    (k start skip : ℕ)
    → k ≤ 50
    → start + skip < 2 ^ 51
    → is_aligned start (bytes (2 ^ k)) skip ≡ ((start + skip) % 2 ^ k == 0)
unfolding is_aligned
aligned_iff k start skip small fits =
    let top = two-pow-le k 50 small in
    let e : sub64 (bytes (2 ^ k)) 1 ≡ 2 ^ (k + 13) - 1 =
      rw (pow-add k 13) (omega (arith, two-pow-pos k)) in
    let b : bytes (start + skip) ≡ (start + skip) * 2 ^ 13 = omega arith in
    rw
      (
        b,
        e,
        bit_and_mask (k + 13) ((start + skip) * 2 ^ 13),
        pow-add k 13,
        mod-mul_right (start + skip) (2 ^ k) (2 ^ 13) (two-pow-pos k) (omega arith),
      )
      (ground arith)

-- What the loop finds: the least skip from `from` on that is aligned.
pub record IsLeastSkip (start align_bytes from s : ℕ) : Type 0 where
  pub aligned : is_aligned start align_bytes s ≡ true
  pub above : from ≤ s
  pub least : (i : ℕ) → from ≤ i → i < s → is_aligned start align_bytes i ≡ false

module _ (start align_bytes : ℕ) where
  skip_loop-IsLeastSkip :
      (fuel skip s : ℕ)
      → skip ≤ s
      → s < skip + fuel
      → is_aligned start align_bytes s ≡ true
      → (r : ℕ) × (skip_loop fuel start align_bytes skip ≡ ok r)
        × (r ≤ s)
        × IsLeastSkip start align_bytes skip r
  unfolding skip_loop
  skip_loop-IsLeastSkip zero skip s lo hi good = absurd (omega arith)
  skip_loop-IsLeastSkip (suc fuel) skip s lo hi good =
      elim (Bool-cases (is_aligned start align_bytes skip)) [
        | inl e ↦ (
          skip,
          rw e refl,
          lo,
          record { aligned = e; above = omega arith; least = λ i a b. absurd (omega arith) },
        )
        | inr e ↦
            let more : skip + 1 ≤ s = elim (dec_lt skip s) [
              | yes h ↦ omega arith
              | no h ↦
                  let same : skip ≡ s = omega arith in
                  absurd (ground (arith, ap (is_aligned start align_bytes) same))
            ] in
            let (r, run, below, l) =
              skip_loop-IsLeastSkip fuel (skip + 1) s more (omega arith) good in
            (
              r,
              rw e run,
              below,
              record {
                aligned = l.aligned;
                above = omega (arith, l.above);
                least = λ i a b. elim (dec_lt skip i) [
                  | yes h ↦ l.least i (omega arith) b
                  | no h ↦ let same : i ≡ skip = omega arith in rw same e
                ];
              },
            )
      ]

-- Some page among any `a` in a row is a multiple of `a`.
reach : (a s : ℕ) → 0 < a → (x : ℕ) × (x < a) × ((s + x) % a ≡ 0)
reach a s pos = elim (Bool-cases (s % a == 0)) [
  | inl e ↦ (0, pos, ground arith)
  | inr e ↦ (
    a - s % a,
    ground arith,
    ap (λ (t : ℕ). t % a) (next_multiple (s / a) (s % a) (sym (mod-add-div s a)) (mod-lt s pos))
        ∙ (add-mul-mod_self_right 0 (s / a + 1) a ∙ mod-eq_of_lt pos),
  )
]
  where
    next_multiple : (q r : ℕ) → s ≡ r + a * q → r < a → s + (a - r) ≡ 0 + (q + 1) * a
    next_multiple q r e h = grind arith

-- The loop of `NewAligned` that skips pages ends for every first page below 2^50 and every alignment
-- of 2^k pages, k up to 49: it skips fewer pages than the alignment, to the first page that is a multiple of it.
pub skip_loop_lem :
    (k start : ℕ)
    → k ≤ 49
    → start < 2 ^ 50
    → (skip : ℕ) × (skip_loop (2 ^ k + 1) start (bytes (2 ^ k)) 0 ≡ ok skip)
      × (skip < 2 ^ k)
      × ((start + skip) % 2 ^ k ≡ 0)
      × ((i : ℕ) → i < skip → (start + i) % 2 ^ k ≢ 0)
skip_loop_lem k start small low =
    let top = two-pow-le k 49 small in
    let (x, short, whole) = reach (2 ^ k) start (two-pow-pos k) in
    let test = (λ (i : ℕ) (h : i < 2 ^ k). aligned_iff k start i (omega arith) (omega arith)) in
    let (skip, run, below, l) =
      skip_loop-IsLeastSkip start (bytes (2 ^ k)) (2 ^ k + 1) 0 x (omega arith) (omega arith)
        (test x short ∙ rw whole refl) in
    (
      skip,
      run,
      omega arith,
      (==_iff _ 0).0 (sym (test skip (omega arith)) ∙ l.aligned),
      λ i h bad. absurd (ground (arith, test i (omega arith), l.least i (omega arith) h)),
    )
