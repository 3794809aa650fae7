-- ===== src/SizeMap/Pages.antt =====
-- The loop of `SizeMap::Init` that sizes the span of a class.
use native.Mathlib.Nat.{le-div_iff_mul-le, mod-lt}
use Prim.Native.Nat.mul
use native.Mathlib.Decide.{dec_lt}
use gperftools.Base.{
  ℕ, zero, suc, ◌+◌, ◌*◌, ◌/◌, ◌%◌, ◌^◌, ◌≤◌, ◌<◌, ◌≡◌, refl, ◌∙◌, inl, inr, Bool-cases, ltb→lt,
  ltb_false→le, arith, ok, ltb,
}
use gperftools.SizeMap.{fit_span, fit_fuel}

-- A span of p bytes wastes at most an eighth, and holds enough objects for a transfer.
pub record Fits (size blocks p : ℕ) : Type 0 where
  pub waste : p % size ≤ p / 8
  pub holds : blocks ≤ p / size

large-Fits : (size blocks p : ℕ) → 0 < size → (8 + blocks) * size ≤ p → Fits size blocks p
large-Fits size blocks p pos h =
    let many = (le-div_iff_mul-le {k = size} {x = 8 + blocks} {y = p} pos).1 h in
    let rest = mod-lt p pos in
    let eight : 8 * size ≤ p = grind arith in record { waste = omega arith; holds = omega arith }

not-Fits-lt : (size blocks p : ℕ) → 0 < size → ¬ Fits size blocks p → p < (8 + blocks) * size
not-Fits-lt size blocks p pos bad = elim (dec_lt p ((8 + blocks) * size)) [
  | yes h ↦ h
  | no h ↦ absurd (bad (large-Fits size blocks p pos (omega arith)))
]

-- What the loop returns: the first multiple of the smallest span, past where it starts, that fits.
pub record Fitted (min_span size blocks psize p : ℕ) : Type 0 where
  pub steps : ℕ
  pub reached : p ≡ psize + suc steps * min_span
  pub fits : Fits size blocks p
  pub first : (i : ℕ) → i < steps → ¬ Fits size blocks (psize + suc i * min_span)

module _ (min_span size blocks psize : ℕ) where
  retry :
      {p : ℕ}
      → ¬ Fits size blocks (psize + min_span)
      → Fitted min_span size blocks (psize + min_span) p
      → Fitted min_span size blocks psize p
  retry {p} bad f = record {
    steps = suc f.steps;
    reached = f.reached ∙ shift f.steps;
    fits = f.fits;
    first = earlier;
  }
    where
      shift : (i : ℕ) → psize + min_span + suc i * min_span ≡ psize + suc (suc i) * min_span
      shift i = omega arith

      earlier : (i : ℕ) → i < suc f.steps → ¬ Fits size blocks (psize + suc i * min_span)
      earlier zero h =
          let e : psize + (min_span + 0) ≡ psize + min_span = omega arith in
          rw (mul.suc, mul.zero, e) bad
      earlier (suc i) h = rw (← shift i) (f.first i (omega arith))

fit_span-Fitted :
    (fuel min_span size blocks psize : ℕ)
    → 0 < size
    → psize < (8 + blocks) * size
    → (8 + blocks) * size ≤ psize + fuel * min_span
    → (8 + blocks) * size + min_span ≤ 2 ^ 64
    → (p : ℕ) × (fit_span fuel min_span size blocks psize ≡ ok p)
      × Fitted min_span size blocks psize p
unfolding fit_span
fit_span-Fitted zero min_span size blocks psize pos low enough bound = absurd (omega arith)
fit_span-Fitted (suc fuel) min_span size blocks psize pos low enough bound =
    let exact : (psize + min_span) % 2 ^ 64 ≡ psize + min_span = omega arith in
    let low' = (λ (bad : ¬ Fits size blocks p). not-Fits-lt size blocks p pos bad) in
    let again = (λ (bad : ¬ Fits size blocks p).
      let (q, run, f) =
        fit_span-Fitted fuel min_span size blocks p pos (low' bad) (omega arith) bound in
      let r : (q : ℕ) × (fit_span fuel min_span size blocks p ≡ ok q)
          × Fitted min_span size blocks psize q =
        (q, run, retry min_span size blocks psize bad f) in
      r) in
    elim (Bool-cases (ltb (p / 8) (p % size))) [
      | inl e ↦ rw (exact, e) (again (λ f. absurd (omega (arith, ltb→lt _ _ e, f.waste))))
      | inr e ↦
          rw (exact, e)
            (elim (Bool-cases (ltb (p / size) blocks)) [
              | inl e' ↦ rw e' (again (λ f. absurd (omega (arith, ltb→lt _ _ e', f.holds))))
              | inr e' ↦ rw e' (
                p,
                refl,
                record {
                  steps = 0;
                  reached = omega arith;
                  fits = record { waste = ltb_false→le _ _ e; holds = ltb_false→le _ _ e' };
                  first = λ i h. elim h [ ];
                },
              )
            ])
    ]
  where
    p : ℕ
    p = psize + min_span

-- The loop of `Init` that sizes a span ends, if sizes do not wrap: it
-- returns the least positive multiple of the smallest span that wastes at most an eighth of
-- itself and holds at least `blocks` objects.
pub fit_span_lem :
    (min_span size blocks : ℕ)
    → 0 < min_span
    → 0 < size
    → (8 + blocks) * size + min_span ≤ 2 ^ 64
    → (p : ℕ) × (fit_span (fit_fuel size blocks) min_span size blocks 0 ≡ ok p)
      × Fitted min_span size blocks 0 p
unfolding fit_fuel
fit_span_lem min_span size blocks span pos bound =
    let enough = one_step min_span ((8 + blocks) * size + 1) span in
    fit_span-Fitted ((8 + blocks) * size + 1) min_span size blocks 0 pos (low size blocks pos)
      (omega arith) bound
  where
    one_step : (m f : ℕ) → 0 < m → f ≤ f * m
    one_step m f h = grind arith

    low : (s b : ℕ) → 0 < s → 0 < (8 + b) * s
    low s b h = grind arith
