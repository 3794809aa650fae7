-- ===== src/Base/Bits.antt =====
-- `&`, `|` and `^` at variables: each works on the high and the low bits apart.
use Prim.Native.Nat.{
  ℕ, zero, suc, ◌+◌, ◌-◌, ◌*◌, ◌/◌, ◌%◌, ◌^◌, ◌≤◌, ◌<◌, min, max, bit_and, bit_or, bit_xor, digits,
  bitwise, bit_and-bitwise, bit_or-bitwise, bit_xor-bitwise, differ,
}
use native.Mathlib.Nat.{le_refl, pow-suc, div-div-eq-div-mul, div-one, mod-one}
use mathlib.Core.Path.{◌≡◌, refl, ap, sym, ◌∙◌}
use native.Mathlib.Omega.{arith}
use mathlib.Core.WellFounded
use gperftools.Base.Order.{lt_wf}
use gperftools.Base.Power.{two-pow-pos}

module _ (z : ℕ → ℕ) (f : ℕ → ℕ → ℕ) where
  -- More rounds than there are digits change nothing.
  rounds_enough : (x y i j : ℕ) → x ≤ i → x ≤ j → digits z f j x y ≡ digits z f i x y
  rounds_enough x y zero zero low low' = refl
  rounds_enough zero y zero (suc j) low low' = refl
  rounds_enough zero y (suc i) zero low low' = refl
  rounds_enough zero y (suc i) (suc j) low low' = refl
  rounds_enough (suc x) y zero j low low' = absurd (omega arith)
  rounds_enough (suc x) y (suc i) zero low low' = absurd (omega arith)
  rounds_enough (suc x) y (suc i) (suc j) low low' =
      rw (rounds_enough (suc x / 2) (y / 2) i j (omega arith) (omega arith))

  lowest_digit :
      (x y : ℕ)
      → bitwise z f (suc x) y ≡ f (suc x % 2) (y % 2) + 2 * bitwise z f (suc x / 2) (y / 2)
  lowest_digit x y =
      omega (arith, rounds_enough (suc x / 2) (y / 2) (suc x / 2) x (le_refl _) (omega arith))

bit_and_digit : (a b : ℕ) → bit_and a b ≡ min (a % 2) (b % 2) + 2 * bit_and (a / 2) (b / 2)
bit_and_digit zero b = simp bit_and-bitwise (omega arith)
bit_and_digit (suc a) b = simp bit_and-bitwise (lowest_digit (λ y. 0) min a b)

bit_or_digit : (a b : ℕ) → bit_or a b ≡ max (a % 2) (b % 2) + 2 * bit_or (a / 2) (b / 2)
bit_or_digit zero b = simp bit_or-bitwise (omega arith)
bit_or_digit (suc a) b = simp bit_or-bitwise (lowest_digit (λ y. y) max a b)

differ-zero : (b : ℕ) → b ≡ b % 2 + 2 * (b / 2)
differ-zero b = omega arith

bit_xor_digit : (a b : ℕ) → bit_xor a b ≡ differ (a % 2) (b % 2) + 2 * bit_xor (a / 2) (b / 2)
bit_xor_digit zero b = simp bit_xor-bitwise (differ-zero b)
bit_xor_digit (suc a) b = simp bit_xor-bitwise (lowest_digit (λ y. y) differ a b)

half_of_mod : (a p : ℕ) → 0 < p → (a % (p * 2) / 2 ≡ a / 2 % p) × (a % (p * 2) % 2 ≡ a % 2)
half_of_mod a p pos = grind arith

div-mul_comm : (a p : ℕ) → a / 2 / p ≡ a / (p * 2)
div-mul_comm a p = div-div-eq-div-mul a 2 p ∙ ap (λ (t : ℕ). a / t) (omega arith)

module _ (op f : ℕ → ℕ → ℕ)
    (digit : (a b : ℕ) → op a b ≡ f (a % 2) (b % 2) + 2 * op (a / 2) (b / 2)) where
  split_at : (k a b : ℕ) → op a b ≡ op (a / 2 ^ k) (b / 2 ^ k) * 2 ^ k + op (a % 2 ^ k) (b % 2 ^ k)
  split_at zero a b = rw (div-one a, div-one b, mod-one a, mod-one b) (omega (arith, digit 0 0))
  split_at (suc k) a b =
      let p : ℕ = 2 ^ k in
      let pos = two-pow-pos k in
      let (ha, la) = half_of_mod a p pos in
      let (hb, lb) = half_of_mod b p pos in
      let ih = split_at k (a / 2) (b / 2) in
      let low : op (a % (p * 2)) (b % (p * 2))
          ≡ f (a % 2) (b % 2) + 2 * op (a / 2 % p) (b / 2 % p) =
        rw (digit (a % (p * 2)) (b % (p * 2)), ha, hb, la, lb) in
      let da : a / (p * 2) ≡ a / 2 / p = sym (div-mul_comm a p) in
      let db : b / (p * 2) ≡ b / 2 / p = sym (div-mul_comm b p) in
      rw (pow-suc 2 k, da, db, low, digit a b, ih) (omega arith)

-- The high bits from `k` on, and the `k` low bits, go each their way.
pub bit_and_split :
    (k a b : ℕ)
    → bit_and a b ≡ bit_and (a / 2 ^ k) (b / 2 ^ k) * 2 ^ k + bit_and (a % 2 ^ k) (b % 2 ^ k)
bit_and_split = split_at bit_and min bit_and_digit

pub bit_or_split :
    (k a b : ℕ)
    → bit_or a b ≡ bit_or (a / 2 ^ k) (b / 2 ^ k) * 2 ^ k + bit_or (a % 2 ^ k) (b % 2 ^ k)
bit_or_split = split_at bit_or max bit_or_digit

pub bit_xor_split :
    (k a b : ℕ)
    → bit_xor a b ≡ bit_xor (a / 2 ^ k) (b / 2 ^ k) * 2 ^ k + bit_xor (a % 2 ^ k) (b % 2 ^ k)
bit_xor_split = split_at bit_xor differ bit_xor_digit

-- Induction from half a number to the number.
by_halving : (P : ℕ → Type 0) → P 0 → ((n : ℕ) → P (suc n / 2) → P (suc n)) → (a : ℕ) → P a
by_halving P base from_half a = WellFounded.induction lt_wf {C = P} a go
  where
    go : (n : ℕ) → ((m : ℕ) → m < n → P m) → P n
    go zero ih = base
    go (suc n) ih = from_half n (ih (suc n / 2) (omega arith))

pub bit_and-zero : (a : ℕ) → bit_and a 0 ≡ 0
bit_and-zero =
    by_halving (λ n. bit_and n 0 ≡ 0) refl (λ n ih. omega (arith, bit_and_digit (suc n) 0, ih))

pub bit_or-zero : (a : ℕ) → bit_or a 0 ≡ a
bit_or-zero =
    by_halving (λ n. bit_or n 0 ≡ n) refl (λ n ih. omega (arith, bit_or_digit (suc n) 0, ih))

differ-zero_right : (x : ℕ) → differ x 0 ≡ x
differ-zero_right zero = refl
differ-zero_right (suc x) = refl

differ_self : (x : ℕ) → differ x x ≡ 0
differ_self zero = refl
differ_self (suc x) = differ_self x

eq_of_differ-zero : (x y : ℕ) → differ x y ≡ 0 → x ≡ y
eq_of_differ-zero zero y h = sym h
eq_of_differ-zero (suc x) zero h = h
eq_of_differ-zero (suc x) (suc y) h = ap suc (eq_of_differ-zero x y h)

pub bit_xor-zero : (a : ℕ) → bit_xor a 0 ≡ a
bit_xor-zero =
    by_halving (λ n. bit_xor n 0 ≡ n) refl
      (λ n ih. omega (arith, bit_xor_digit (suc n) 0, ih, differ-zero_right (suc n % 2)))

pub bit_xor_self : (a : ℕ) → bit_xor a a ≡ 0
bit_xor_self =
    by_halving (λ n. bit_xor n n ≡ 0) refl
      (λ n ih. omega (arith, bit_xor_digit (suc n) (suc n), ih, differ_self (suc n % 2)))

pub eq_of_bit_xor-zero : (n a b : ℕ) → a ≤ n → bit_xor a b ≡ 0 → a ≡ b
eq_of_bit_xor-zero n zero b h e = sym e ∙ bit_xor-bitwise 0 b
eq_of_bit_xor-zero zero (suc a) b h e = absurd (omega arith)
eq_of_bit_xor-zero (suc n) (suc a) b h e =
    let digit = bit_xor_digit (suc a) b in
    let high = eq_of_bit_xor-zero n (suc a / 2) (b / 2) (omega arith) (omega arith) in
    let low = eq_of_differ-zero (suc a % 2) (b % 2) (omega arith) in omega arith

pub zero-bit_or : (b : ℕ) → bit_or 0 b ≡ b
zero-bit_or b = bit_or-bitwise 0 b

-- A mask of k ones takes the remainder by 2^k.
pub bit_and_mask : (k a : ℕ) → bit_and a (2 ^ k - 1) ≡ a % 2 ^ k
bit_and_mask zero a = rw mod-one (bit_and-zero a)
bit_and_mask (suc k) a =
    let p : ℕ = 2 ^ k in
    let pos = two-pow-pos k in
    let (high, low) = half_of_mod a p pos in
    let mask : ((p * 2 - 1) / 2 ≡ p - 1) × ((p * 2 - 1) % 2 ≡ 1) = omega arith in
    rw (pow-suc 2 k, bit_and_digit a (p * 2 - 1), mask.0, mask.1, bit_and_mask k (a / 2))
      (omega arith)
