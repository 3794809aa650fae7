-- ===== src/Base/Power.antt =====
-- Powers of two.
use Prim.Native.Nat.{ℕ, zero, suc, ◌+◌, ◌*◌, ◌^◌, ◌≤◌, ◌<◌}
use mathlib.Core.Path.{◌≡◌}
use native.Mathlib.Nat.{pow-suc, mul_assoc, one-le-pow}
use native.Mathlib.Nat.{add-zero, pow-le-pow_right}
use native.Mathlib.Decide.{dec_lt}
use native.Mathlib.Omega.{arith}

pub pow-add : (a b : ℕ) → 2 ^ (a + b) ≡ 2 ^ a * 2 ^ b
pow-add a zero = rw add-zero (omega arith)
pow-add a (suc b) =
    let e : a + suc b ≡ suc (a + b) = omega arith in
    rw (e, pow-suc 2 (a + b), pow-suc 2 b, pow-add a b) (mul_assoc (2 ^ a) (2 ^ b) 2)

pub two-pow-pos : (a : ℕ) → 0 < 2 ^ a
two-pow-pos a = one-le-pow a 2 (omega arith)

pub lt_of_two-pow-lt : (a b : ℕ) → 2 ^ a < 2 ^ b → a < b
lt_of_two-pow-lt a b h = elim (dec_lt a b) [
  | yes p ↦ p
  | no p ↦
      let le = pow-le-pow_right {n = 2} (omega arith) {i = b} {j = a} (omega arith) in
      absurd (omega arith)
]

pub two-pow-le : (a b : ℕ) → a ≤ b → 2 ^ a ≤ 2 ^ b
two-pow-le a b h = pow-le-pow_right {n = 2} (omega arith) h
