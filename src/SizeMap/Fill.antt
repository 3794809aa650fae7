-- ===== src/SizeMap/Fill.antt =====
-- The loops of `SizeMap::Init` that fill `class_array_`.
use mathlib.Core.Path.{subst}
use native.Mathlib.Decide.{dec_le, dec_lt}
use gperftools.Base.{
  ℕ, zero, suc, ◌+◌, ◌-◌, ◌*◌, ◌/◌, ◌%◌, ◌≤◌, ◌<◌, ◌≡◌, ◌≢◌, ◌∙◌, refl, arith, if◌then◌else◌, ◌==◌,
  update, update_self, update_ne, false,
}
use gperftools.SizeMap.{max_size, alignment, class_index, fill_class, fill_rounds, fill_loop}
use gperftools.SizeMap.Classes.{IsBoundary}
use gperftools.SizeMap.Index.{class_index-le, class_index-lt, class_index-eights}

fill_rounds-last : (next j last : ℕ) → j < fill_rounds next last → next + j * alignment ≤ last
unfolding fill_rounds
fill_rounds-last next j last h = omega arith

fill_rounds-reach :
    (next r last : ℕ)
    → next % 8 ≡ 0
    → r % 8 ≡ 0
    → next ≤ r
    → r ≤ last
    → ((r - next) / alignment < fill_rounds next last)
      × (next + (r - next) / alignment * alignment ≡ r)
unfolding fill_rounds
fill_rounds-reach next r last h k below within = omega arith

fill_class-keeps : (rounds s c : ℕ) (a : ℕ → ℕ) (i : ℕ) → a i ≡ c → fill_class rounds s c a i ≡ c
unfolding fill_class
fill_class-keeps zero s c a i h = h
fill_class-keeps (suc rounds) s c a i h =
    fill_class-keeps rounds (s + alignment) c (update a (class_index s) c) i (ground arith)

fill_class-hit :
    (rounds s c : ℕ) (a : ℕ → ℕ) (j : ℕ)
    → j < rounds
    → fill_class rounds s c a (class_index (s + j * alignment)) ≡ c
unfolding fill_class
fill_class-hit zero s c a j h = absurd (omega arith)
fill_class-hit (suc rounds) s c a zero h =
    let e : s + zero * alignment ≡ s = omega arith in
    rw e (
      fill_class-keeps rounds (s + alignment) c _ (class_index s) (update_self a (class_index s) c))
fill_class-hit (suc rounds) s c a (suc j) h =
    let e : s + suc j * alignment ≡ s + alignment + j * alignment = omega arith in
    rw e (fill_class-hit rounds (s + alignment) c _ j (omega arith))

fill_class-miss :
    (rounds s c : ℕ) (a : ℕ → ℕ) (i : ℕ)
    → ((j : ℕ) → j < rounds → i ≢ class_index (s + j * alignment))
    → fill_class rounds s c a i ≡ a i
unfolding fill_class
fill_class-miss zero s c a i h = refl
fill_class-miss (suc rounds) s c a i h =
    let first : i ≢ class_index s =
      (let e : s + zero * alignment ≡ s = omega arith in rw e at (h 0 (omega arith))) in
    fill_class-miss rounds (s + alignment) c (update a (class_index s) c) i (λ j lt.
      let e : s + alignment + j * alignment ≡ s + suc j * alignment = omega arith in
      rw e (h (suc j) (omega arith)))
    ∙ update_ne a (class_index s) i c first

-- `k` is the smallest class of those below `sc` that holds a request of `s` bytes.
pub record IsClassOf (sc : ℕ) (class_to_size : ℕ → ℕ) (k s : ℕ) : Type 0 where
  pub least : 1 ≤ k
  pub most : k < sc
  pub holds : s ≤ class_to_size k
  pub tight : 1 < k → class_to_size (k - 1) < s

-- Where the filling of class c begins.
abbrev pub start : (ℕ → ℕ) → ℕ → ℕ
start class_to_size c = if c == 1 then 0 else class_to_size (c - 1) + alignment

start-next :
    (class_to_size : ℕ → ℕ) (c : ℕ)
    → 1 ≤ c
    → start class_to_size (c + 1) ≡ class_to_size c + alignment
start-next class_to_size c lo =
    let e : c + 1 - 1 ≡ c = omega arith in
    let other : (c + 1 == 1) ≡ false = ground arith in rw (other, e)

module _ (sc : ℕ) (class_to_size : ℕ → ℕ)
    (boundary : (c : ℕ) → 1 ≤ c → c < sc → IsBoundary (class_to_size c))
    (small : (c : ℕ) → 1 ≤ c → c < sc → class_to_size c ≤ max_size) where
  -- The requests up to the size of the class before c are served.
  abbrev pub Covers : (ℕ → ℕ) → ℕ → Type 0
  Covers a c =
      (s : ℕ) → 1 < c → s ≤ class_to_size (c - 1) → IsClassOf sc class_to_size (a (class_index s)) s

  module _ (c : ℕ) (lo : 1 ≤ c) (hi : c < sc) (a : ℕ → ℕ) (covers : Covers a c) where
    abbrev rounds : ℕ
    rounds = fill_rounds (start class_to_size c) (class_to_size c)

    abbrev filled : ℕ → ℕ
    filled = fill_class rounds (start class_to_size c) c a

    apart :
        (s j : ℕ)
        → 1 < c
        → s ≤ class_to_size (c - 1)
        → j < rounds
        → class_index s ≢ class_index (start class_to_size c + j * alignment)
    apart s j several h lt =
        let b : ℕ = class_to_size (c - 1) in
        let bound = boundary (c - 1) (omega arith) (omega arith) in
        let from : start class_to_size c ≡ b + alignment = ground arith in
        let last = fill_rounds-last (start class_to_size c) j (class_to_size c) lt in
        let le = class_index-le s b (small (c - 1) (omega arith) (omega arith)) bound h in
        let lt' =
          class_index-lt b (start class_to_size c + j * alignment) (omega (arith, small c lo hi))
            bound (omega arith) in
        λ e. absurd (omega arith)

    old :
        (s : ℕ)
        → 1 < c
        → s ≤ class_to_size (c - 1)
        → IsClassOf sc class_to_size (filled (class_index s)) s
    old s several h =
        rw
          (fill_class-miss rounds (start class_to_size c) c a (class_index s)
            (λ j. apart s j several h))
          (covers s several h)

    reached :
        (s : ℕ)
        → s ≤ class_to_size c
        → (1 < c → class_to_size (c - 1) < s)
        → filled (class_index s) ≡ c
    reached s h tight =
        let r : ℕ = (s + 7) / 8 * 8 in
        let top = boundary c lo hi in
        let from : (start class_to_size c % 8 ≡ 0) × (start class_to_size c ≤ r) =
          elim (dec_lt 1 c) [
            | yes p ↦
                let bound = boundary (c - 1) (omega arith) (omega arith) in
                ground (arith, bound.eights, tight)
            | no p ↦ ground arith
          ] in
        let (within, e) =
          fill_rounds-reach (start class_to_size c) r (class_to_size c) from.0 (omega arith) from.1
            (omega (arith, top.eights)) in
        let hit =
          fill_class-hit rounds (start class_to_size c) c a
            ((r - start class_to_size c) / alignment) within in
        rw (class_index-eights s (omega (arith, small c lo hi))) (rw e at hit)

    newly :
        (s : ℕ)
        → s ≤ class_to_size c
        → (1 < c → class_to_size (c - 1) < s)
        → IsClassOf sc class_to_size (filled (class_index s)) s
    newly s h tight =
        rw (reached s h tight) (record { least = lo; most = hi; holds = h; tight = tight })

    extended : Covers filled (c + 1)
    extended s several h =
        let e : c + 1 - 1 ≡ c = omega arith in
        let h' : s ≤ class_to_size c = rw e at h in
        elim (dec_lt 1 c) [
          | no p ↦ newly s h' (λ q. absurd (p q))
          | yes p ↦ elim (dec_le s (class_to_size (c - 1))) [
            | yes q ↦ old s p q
            | no q ↦ newly s h' (λ _. omega arith)
          ]
        ]

  pub fill_loop-Covers :
      (n c : ℕ) (a : ℕ → ℕ)
      → 1 ≤ c
      → c + n ≡ sc
      → Covers a c
      → Covers (fill_loop n c (start class_to_size c) class_to_size a) sc
  unfolding fill_loop
  fill_loop-Covers zero c a lo e covers = subst (λ k. Covers a k) (omega arith) covers
  fill_loop-Covers (suc n) c a lo e covers =
      let next : start class_to_size (c + 1) ≡ class_to_size c + alignment =
        start-next class_to_size c lo in
      subst
        (λ k. Covers (fill_loop n (c + 1) k class_to_size (filled c lo (omega arith) a covers)) sc)
        next
        (fill_loop-Covers n (c + 1) (filled c lo (omega arith) a covers) (omega arith) (omega arith)
          (extended c lo (omega arith) a covers))
