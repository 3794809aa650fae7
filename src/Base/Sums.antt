-- ===== src/Base/Sums.antt =====
-- Sums over the indices below a bound.
use Prim.Native.Nat.{ℕ, zero, suc, ◌+◌, ◌≤◌, ◌<◌}
use mathlib.Core.Path.{◌≡◌, ap}
use native.Mathlib.Omega.{arith}
use gperftools.Base.Test.{ltb, if◌then◌else◌}
use gperftools.Base.Lists.{update}

module _ {ℓ} {A : Type ℓ} (w : A → ℕ) where
  unfoldable pub sum_below : ℕ → (ℕ → A) → ℕ
  sum_below zero f = 0
  sum_below (suc n) f = w (f n) + sum_below n f

  -- A write below the bound exchanges one summand, any other none.
  pub sum_below-update :
      (n : ℕ) (f : ℕ → A) (i : ℕ) (v : A)
      → sum_below n (update f i v) + (if ltb i n then w (f i) else 0)
        ≡ sum_below n f + (if ltb i n then w v else 0)
  unfolding sum_below
  sum_below-update zero f i v = ground arith
  sum_below-update (suc n) f i v = ground (arith, sum_below-update n f i v)

  pub sum_below-update_below :
      (n : ℕ) (f : ℕ → A) (i : ℕ) (v : A)
      → i < n
      → sum_below n (update f i v) + w (f i) ≡ sum_below n f + w v
  sum_below-update_below n f i v h = let e = sum_below-update n f i v in ground (arith, e)

  pub summand-le : (n : ℕ) (f : ℕ → A) (i : ℕ) → i < n → w (f i) ≤ sum_below n f
  unfolding sum_below
  summand-le zero f i h = absurd (omega arith)
  summand-le (suc n) f i h = ground (arith, summand-le n f i)

  -- The sum of `n` summands from the index `i` on.
  unfoldable pub sum_from : ℕ → ℕ → (ℕ → A) → ℕ
  sum_from zero i f = 0
  sum_from (suc n) i f = w (f i) + sum_from n (i + 1) f

  sum_below-add : (n i : ℕ) (f : ℕ → A) → sum_below i f + sum_from n i f ≡ sum_below (i + n) f
  unfolding sum_below sum_from
  sum_below-add zero i f = let e : i + 0 ≡ i = omega arith in rw e (omega arith)
  sum_below-add (suc n) i f =
      let e : i + suc n ≡ i + 1 + n = omega arith in
      let f' : i + 1 ≡ suc i = omega arith in
      let first : sum_below (i + 1) f ≡ w (f i) + sum_below i f =
        ap (λ (k : ℕ). sum_below k f) f' in
      rw e (omega (arith, sum_below-add n (i + 1) f, first))

  pub sum_from-zero : (n : ℕ) (f : ℕ → A) → sum_from n 0 f ≡ sum_below n f
  unfolding sum_below
  sum_from-zero n f =
      let e : 0 + n ≡ n = omega arith in
      let whole : sum_below (0 + n) f ≡ sum_below n f = ap (λ (k : ℕ). sum_below k f) e in
      omega (arith, sum_below-add n 0 f, whole)
