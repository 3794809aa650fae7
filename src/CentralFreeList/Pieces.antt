-- ===== src/CentralFreeList/Pieces.antt =====
-- The loop of `Populate` that splits a span into objects.
use native.Mathlib.Decide.{dec_le}
use native.Mathlib.Nat.{add-div_right, div-eq_of_lt}
use gperftools.Base.{
  ℕ, zero, suc, ◌+◌, ◌-◌, ◌/◌, ◌%◌, ◌^◌, ◌≤◌, ◌<◌, ◌≡◌, ap, ◌∙◌, inl, inr, List, [], ◌∷◌, ltb, ◌||◌,
  ok, arith, Bool-cases, Ends, Ends->>=,
}
use gperftools.CentralFreeList.{pieces}

-- `count` addresses from `ptr` on, `size` bytes apart.
abbrev pub every : ℕ → ℕ → ℕ → List ℕ
every ptr size zero = []
every ptr size (suc count) = ptr ∷ every (ptr + size) size count

quotient_step : (n size : ℕ) → 0 < size → size ≤ n → n / size ≡ suc ((n - size) / size)
quotient_step n size pos h =
    let e : n ≡ (n - size) + size = omega arith in
    ap (λ (t : ℕ). t / size) e ∙ (add-div_right (n - size) pos ∙ omega arith)

-- The loop of `Populate` ends, and cuts the block from `ptr` to `limit` into as many objects of
-- `size` bytes as it has room for, side by side from its start, if all numbers fit 64 bits.
pub pieces-every :
    (fuel ptr limit size : ℕ)
    → 0 < size
    → ptr ≤ limit
    → limit < 2 ^ 64
    → size < 2 ^ 64
    → limit - ptr < fuel
    → pieces fuel ptr limit size ≡ ok (every ptr size ((limit - ptr) / size))
unfolding pieces
pieces-every zero ptr limit size pos order small small' enough = absurd (omega arith)
pieces-every (suc fuel) ptr limit size pos order small small' enough =
    elim (dec_le (ptr + size) limit) [
      | yes h ↦
          let next : (ptr + size) % 2 ^ 64 ≡ ptr + size = omega arith in
          let left : limit - ptr - size ≡ limit - (ptr + size) = omega arith in
          let ih = pieces-every fuel (ptr + size) limit size pos h small small' (omega arith) in
          rw (next, quotient_step (limit - ptr) size pos (omega arith), left, ih) (ground arith)
      | no h ↦
          let none : (limit - ptr) / size ≡ 0 = div-eq_of_lt (omega arith) in rw none (ground arith)
    ]

-- With no bound on the addresses the loop ends too.
pub pieces-Ends :
    (fuel ptr limit size : ℕ)
    → 0 < size
    → size < 2 ^ 64
    → limit - ptr < fuel
    → Ends (λ xs. Unit {0}) (pieces fuel ptr limit size)
unfolding pieces
pieces-Ends zero ptr limit size pos small enough = absurd (omega arith)
pieces-Ends (suc fuel) ptr limit size pos small enough =
    elim (Bool-cases (ltb next ptr || ltb limit next)) [
      | inl e ↦ rw e tt
      | inr e ↦ rw e (
          Ends->>= (λ xs. Unit {0}) (λ xs. Unit {0}) (pieces fuel next limit size) _
            (pieces-Ends fuel next limit size pos small (ground arith)) (λ xs _. tt))
    ]
  where
    next : ℕ
    next = (ptr + size) % 2 ^ 64
