-- ===== src/ProfileHandler/Tokens.antt =====
-- The tokens of callbacks: which has an address, and the list without one.
use gperftools.Base.{
  ℕ, suc, ◌≡◌, refl, ap, sym, ◌∙◌, inl, inr, Bool, true, false, ◌||◌, List, [], ◌∷◌, ◌++◌, length,
  ◌==◌, if◌then◌else◌, arith, Bool-cases,
}
use gperftools.ProfileHandler.{Token, copy_others}

-- The tokens but for those at an address.
unfoldable pub others : ℕ → List Token → List Token
others a [] = []
others a (t ∷ ts) = if t.address == a then others a ts else t ∷ others a ts

unfoldable pub has : ℕ → List Token → Bool
has a [] = false
has a (t ∷ ts) = (t.address == a) || has a ts

-- Each address occurs once.
abbrev pub AreDistinct : List Token → Type 0
AreDistinct [] = Unit
AreDistinct (t ∷ ts) = (has t.address ts ≡ false) × AreDistinct ts

pub copy_others_lem : (a : ℕ) (ts : List Token) → copy_others a ts ≡ (others a ts, has a ts)
unfolding copy_others others has
copy_others_lem a [] = refl
copy_others_lem a (t ∷ ts) = rw (copy_others_lem a ts) ground arith

pub has-append : (a : ℕ) (ts us : List Token) → has a (ts ++ us) ≡ (has a ts || has a us)
unfolding has
has-append a [] us = refl
has-append a (t ∷ ts) us = rw (has-append a ts us) ground arith

pub distinct-snoc :
    (ts : List Token) (t : Token)
    → AreDistinct ts
    → has t.address ts ≡ false
    → AreDistinct (ts ++ (t ∷ []))
unfolding has
distinct-snoc [] t d h = (refl, tt)
distinct-snoc (u ∷ ts) t (d, ds) h =
    (rw (has-append u.address ts (t ∷ [])) ground arith, distinct-snoc ts t ds (ground arith))

pub others-absent : (a : ℕ) (ts : List Token) → has a ts ≡ false → others a ts ≡ ts
unfolding others has
others-absent a [] h = refl
others-absent a (t ∷ ts) h =
    let no : (t.address == a) ≡ false = ground arith in
    rw no (ap (λ us. t ∷ us) (others-absent a ts (ground arith)))

pub has-others : (a b : ℕ) (ts : List Token) → has b ts ≡ false → has b (others a ts) ≡ false
unfolding others has
has-others a b [] h = refl
has-others a b (t ∷ ts) h = ground (arith, has-others a b ts)

pub distinct-others : (a : ℕ) (ts : List Token) → AreDistinct ts → AreDistinct (others a ts)
unfolding others
distinct-others a [] d = tt
distinct-others a (t ∷ ts) (d, ds) = elim (Bool-cases (t.address == a)) [
  | inl e ↦ rw e (distinct-others a ts ds)
  | inr e ↦ rw e (has-others a t.address ts d, distinct-others a ts ds)
]

pub length-others :
    (a : ℕ) (ts : List Token)
    → AreDistinct ts
    → has a ts ≡ true
    → suc (length (others a ts)) ≡ length ts
unfolding others has
length-others a [] d h = cc
length-others a (t ∷ ts) (d, ds) h = elim (Bool-cases (t.address == a)) [
  | inl e ↦
      let same : t.address ≡ a = ground arith in
      rw e (ap (λ us. suc (length us)) (others-absent a ts (ap (λ x. has x ts) (sym same) ∙ d)))
  | inr e ↦ rw e (ap suc (length-others a ts ds (ground arith)))
]
