-- ===== src/PageHeap/Round.antt =====
-- `RoundUpSize`: whole smallest spans.
use native.Mathlib.Nat.{
  mul-div_cancel, mul-mod_left, div-lt_iff_lt-mul, mod-eq_of_lt, div-mul-le_self, lt-div-mul-add,
}
use gperftools.Base.{
  ℕ, zero, suc, ◌+◌, ◌-◌, ◌*◌, ◌/◌, ◌%◌, ◌^◌, ◌≤◌, ◌<◌, ◌≡◌, ap, ◌∙◌, arith, bit_and, le→ltb_false,
}
use gperftools.Base.Bits.{bit_and_mask, bit_and_split, bit_and-zero}
use gperftools.Base.Power.{pow-add, two-pow-pos, two-pow-le}
use gperftools.PageHeap.{sub64, add64}
use gperftools.PageHeap.Grow.{round_up_size}

-- The mask of the bits from `k` on clears the others.
pub clear_low :
    (k x : ℕ) → k ≤ 64 → x < 2 ^ 64 → bit_and x (2 ^ 64 - 1 - (2 ^ k - 1)) ≡ x / 2 ^ k * 2 ^ k
clear_low k x small fits =
    let p : ℕ = 2 ^ k in
    let q : ℕ = 2 ^ (64 - k) in
    let pos : 0 < p = two-pow-pos k in
    let pos' : 0 < q = two-pow-pos (64 - k) in
    let e : 64 ≡ (64 - k) + k = omega arith in
    let whole : 2 ^ 64 ≡ q * p = ap (λ (t : ℕ). 2 ^ t) e ∙ pow-add (64 - k) k in
    let mask : 2 ^ 64 - 1 - (p - 1) ≡ (q - 1) * p = minus p q (2 ^ 64) pos pos' whole in
    let below : x / p < q = (div-lt_iff_lt-mul pos).1 (rw (← whole) fits) in
    let high : (q - 1) * p / p ≡ q - 1 = mul-div_cancel (q - 1) pos in
    let low : (q - 1) * p % p ≡ 0 = mul-mod_left (q - 1) p in
    let top : bit_and (x / p) (q - 1) ≡ x / p =
      bit_and_mask (64 - k) (x / p) ∙ mod-eq_of_lt below in
    bit_and_split k x (2 ^ 64 - 1 - (p - 1))
    ∙ (ap (λ (t : ℕ). bit_and (x / p) (t / p) * p + bit_and (x % p) (t % p)) mask
        ∙ rw (high, low, top, bit_and-zero (x % p)) (omega arith))
  where
    suc_times : (p q : ℕ) → suc q * p ≡ q * p + p
    suc_times p q = grind arith

    minus : (p q t : ℕ) → 0 < p → 0 < q → t ≡ q * p → t - 1 - (p - 1) ≡ (q - 1) * p
    minus p zero t pos pos' e = absurd (omega arith)
    minus p (suc q) t pos pos' e =
        let less : suc q - 1 ≡ q = omega arith in rw less (omega (arith, e, suc_times p q))

-- For a smallest span of 2^k pages, k up to 50, and n pages that can be rounded up within 64 bits,
-- `RoundUpSize` gives a multiple of the smallest span, at least n and less than a smallest span more.
pub round_up_size_lem :
    (k n : ℕ)
    → k ≤ 50
    → n + 2 ^ k ≤ 2 ^ 64
    → (round_up_size (2 ^ k) n % 2 ^ k ≡ 0)
      × (n ≤ round_up_size (2 ^ k) n)
      × (round_up_size (2 ^ k) n < n + 2 ^ k)
unfolding round_up_size
round_up_size_lem k n small fits =
    let p : ℕ = 2 ^ k in
    let pos : 0 < p = two-pow-pos k in
    let top = two-pow-le k 50 small in
    let sum : sub64 (add64 n p) 1 ≡ n + p - 1 = omega arith in
    let cleared = clear_low k (n + p - 1) (omega arith) (omega arith) in
    let least : n ≤ (n + p - 1) / p * p = omega (arith, lt-div-mul-add {a = n + p - 1} pos) in
    rw (sum, cleared, le→ltb_false _ n least)
      (mul-mod_left ((n + p - 1) / p) p, least, omega (arith, div-mul-le_self (n + p - 1) p))
