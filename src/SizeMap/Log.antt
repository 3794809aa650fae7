-- ===== src/SizeMap/Log.antt =====
-- `LgFloor`: the loop that halves the shift.
use native.Mathlib.Nat.{div-lt_iff_lt-mul, div-mul-le_self, lt-div-mul-add, add_assoc}
use gperftools.Base.{
  ℕ, zero, suc, ◌+◌, ◌*◌, ◌/◌, ◌^◌, ◌≤◌, ◌<◌, ◌≡◌, ap, ◌∙◌, inl, inr, ◌==◌, Bool-cases, ==_iff,
  arith,
}
use gperftools.Base.Power.{pow-add, two-pow-pos}
use gperftools.SizeMap.{lg_loop, lg_floor}

-- The two ways a round can go, for the divisor d.
lt_of_div-zero : (n d : ℕ) → 0 < d → n / d ≡ 0 → n < d
lt_of_div-zero n d pos e = grind (arith, lt-div-mul-add {a = n} pos)

double-exponent : (i : ℕ) → 2 ^ (2 ^ suc i) ≡ 2 ^ (2 ^ i) * 2 ^ (2 ^ i)
double-exponent i = ap (λ (e : ℕ). 2 ^ e) (omega (arith, pow-add i 1)) ∙ pow-add (2 ^ i) (2 ^ i)

scale-up : (d x p n : ℕ) → p ≤ x → x * d ≤ n → d * p ≤ n
scale-up d x p n h k = grind arith

scale-down : (d x p n : ℕ) → x < p → n < x * d + d → n < d * p
scale-down d x p n h k = grind arith

abbrev Bracket : ℕ → ℕ → Type 0
Bracket k n = (2 ^ k ≤ n) × (n < 2 ^ (k + 1))

raise : (i n k : ℕ) → Bracket k (n / 2 ^ (2 ^ i)) → Bracket (2 ^ i + k) n
raise i n k (lo, hi) =
    let d : ℕ = 2 ^ (2 ^ i) in
    let below = div-mul-le_self n d in
    let above = lt-div-mul-add {a = n} (two-pow-pos (2 ^ i)) in
    (
      rw (pow-add (2 ^ i) k) (scale-up d (n / d) (2 ^ k) n lo below),
      rw (add_assoc (2 ^ i) k 1, pow-add (2 ^ i) (k + 1))
          (scale-down d (n / d) (2 ^ (k + 1)) n hi above),
    )

-- `k` is the logarithm that the loop adds to `log`.
lg_loop-Bracket :
    (i n log : ℕ) → 0 < n → n < 2 ^ (2 ^ i) → (k : ℕ) × (lg_loop i n log ≡ log + k) × Bracket k n
unfolding lg_loop
lg_loop-Bracket zero n log pos h = (0, omega arith, (omega arith, omega arith))
lg_loop-Bracket (suc i) n log pos h =
    let x : ℕ = n / 2 ^ (2 ^ i) in
    elim (Bool-cases (x == 0)) [
      | inl e ↦
          let (k, run, b) =
            lg_loop-Bracket i n log pos
              (lt_of_div-zero n (2 ^ (2 ^ i)) (two-pow-pos (2 ^ i)) ((==_iff x 0).0 e)) in
          (k, rw e run, b)
      | inr e ↦
          let (k, run, b) =
            lg_loop-Bracket i x (log + 2 ^ i) (ground arith)
              ((div-lt_iff_lt-mul (two-pow-pos (2 ^ i))).1 (rw (← double-exponent i) h)) in
          (2 ^ i + k, rw e (omega arith), raise i n k b)
    ]

-- For every n from 1 up to 2^32 - 1, `LgFloor` returns the k with 2^k ≤ n < 2^(k + 1).
pub lg_floor_lem : (n : ℕ) → 0 < n → n < 2 ^ 32 → (2 ^ lg_floor n ≤ n) × (n < 2 ^ (lg_floor n + 1))
unfolding lg_floor
lg_floor_lem n pos h =
    let (k, run, b) = lg_loop-Bracket 5 n 0 pos h in
    let e : lg_loop 5 n 0 ≡ k = omega arith in rw e b
