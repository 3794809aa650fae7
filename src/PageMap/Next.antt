-- ===== src/PageMap/Next.antt =====
-- `Next`: the search for the first page from a number on that has a value.
use native.Mathlib.Decide.{dec_lt, dec_le}
use gperftools.Base.{
  ℕ, zero, suc, ◌+◌, ◌-◌, ◌*◌, ◌^◌, ◌≤◌, ◌<◌, ◌≡◌, ◌⊎◌, refl, ap, ◌∙◌, inl, inr, arith, Option,
  none, some, ltb, Bool-cases, ltb→lt, ltb_false→le,
}
use gperftools.PageMap.{
  PageMap, Leaf, map_bits, leaf_bits, root_length, leaf_length, root_index, leaf_index, read_leaf,
  get, scan_leaf, next_in_leaf, next_loop, next,
}

-- `r` is the first value of `f` from `lo` on and below `hi`, if there is one.
abbrev pub IsFirst : (ℕ → Option ℕ) → ℕ → ℕ → Option ℕ → Type 0
IsFirst f lo hi none = (i : ℕ) → lo ≤ i → i < hi → f i ≡ none
IsFirst f lo hi (some v) =
    (j : ℕ) × (lo ≤ j) × (j < hi) × (f j ≡ some v) × ((i : ℕ) → lo ≤ i → i < j → f i ≡ none)

scan_leaf-IsFirst :
    (rounds : ℕ) (leaf : Leaf) (lo : ℕ) → IsFirst leaf lo (lo + rounds) (scan_leaf rounds leaf lo)
unfolding scan_leaf
scan_leaf-IsFirst zero leaf lo = λ i above below. absurd (omega arith)
scan_leaf-IsFirst (suc rounds) leaf lo =
    go (leaf lo) refl (scan_leaf rounds leaf (lo + 1)) (scan_leaf-IsFirst rounds leaf (lo + 1))
  where
    at : (e : leaf lo ≡ none) (i : ℕ) → lo ≤ i → (lo + 1 ≤ i → leaf i ≡ none) → leaf i ≡ none
    at e i above later = elim (dec_le (lo + 1) i) [
      | yes h ↦ later h
      | no h ↦ let same : i ≡ lo = omega arith in rw same e
    ]

    go :
        (o : Option ℕ)
        → leaf lo ≡ o
        → (r : Option ℕ) → IsFirst leaf (lo + 1) (lo + 1 + rounds) r
        → IsFirst leaf lo (lo + suc rounds) (elim o [ some v ↦ some v | none ↦ r ])
    go (some v) e r first = (lo, omega arith, omega arith, e, λ i above below. absurd (omega arith))
    go none e none first = λ i above below. at e i above (λ h. first i h (omega arith))
    go none e (some v) (j, above, below, here, before) =
        (j, omega arith, omega arith, here, λ i lo' hi'. at e i lo' (λ h. before i h hi'))

-- The value of a page, by its leaf.
get-leaf :
    (m : PageMap) (k : ℕ)
    → k < 2 ^ map_bits
    → get m k ≡ read_leaf (m.root (root_index k)) (leaf_index k)
unfolding get
get-leaf m k small = ground arith

next_in_leaf-IsFirst :
    (m : PageMap) (k : ℕ)
    → k < 2 ^ map_bits
    → IsFirst (get m) k ((root_index k + 1) * 2 ^ leaf_bits) (next_in_leaf m k)
unfolding next_in_leaf read_leaf
next_in_leaf-IsFirst m k small = go (m.root (root_index k)) refl
  where
    base : ℕ
    base = root_index k * 2 ^ leaf_bits

    inside :
        (o : Option Leaf)
        → m.root (root_index k) ≡ o
        → (i : ℕ) → i < leaf_length
        → get m (base + i) ≡ read_leaf o i
    inside o e i h =
        let r : root_index (base + i) ≡ root_index k = omega arith in
        let l : leaf_index (base + i) ≡ i = omega arith in
        rw (get-leaf m (base + i) (omega arith), r, l, e) refl

    shifted :
        (leaf : Leaf)
        → m.root (root_index k) ≡ some leaf
        → (i : ℕ) → k ≤ i
        → i < base + leaf_length
        → get m i ≡ leaf (i - base)
    shifted leaf e i lo hi =
        let s : i ≡ base + (i - base) = omega arith in
        ap (get m) s ∙ inside (some leaf) e (i - base) (omega arith)

    found :
        (leaf : Leaf)
        → m.root (root_index k) ≡ some leaf
        → (r : Option ℕ)
        → IsFirst leaf (leaf_index k) (leaf_index k + (leaf_length - leaf_index k)) r
        → IsFirst (get m) k ((root_index k + 1) * 2 ^ leaf_bits) r
    found leaf e none first =
        λ i lo hi. shifted leaf e i lo (omega arith) ∙ first (i - base) (omega arith) (omega arith)
    found leaf e (some v) (j, above, below, here, before) = (
      base + j,
      omega arith,
      omega arith,
      inside (some leaf) e j (omega arith) ∙ here,
      λ i lo hi. shifted leaf e i lo (omega arith) ∙ before (i - base) (omega arith) (omega arith),
    )

    go :
        (o : Option Leaf)
        → m.root (root_index k) ≡ o
        → IsFirst (get m) k ((root_index k + 1) * 2 ^ leaf_bits) (elim o [
          | none ↦ none
          | some leaf ↦ scan_leaf (leaf_length - leaf_index k) leaf (leaf_index k)
        ])
    go none e = λ i lo hi.
        let s : i ≡ base + (i - base) = omega arith in
        ap (get m) s ∙ (inside none e (i - base) (omega arith) ∙ refl)
    go (some leaf) e =
        found leaf e (scan_leaf (leaf_length - leaf_index k) leaf (leaf_index k))
          (scan_leaf-IsFirst (leaf_length - leaf_index k) leaf (leaf_index k))

-- A search that goes on where another ended.
IsFirst-append :
    (f : ℕ → Option ℕ) (lo mid hi : ℕ) (r r' : Option ℕ)
    → lo ≤ mid
    → mid ≤ hi
    → IsFirst f lo mid r
    → IsFirst f mid hi r'
    → IsFirst f lo hi (elim r [ some v ↦ some v | none ↦ r' ])
IsFirst-append f lo mid hi (some v) r' h h' (j, above, below, here, before) later =
    (j, above, omega arith, here, before)
IsFirst-append f lo mid hi none none h h' first later = λ i above below. elim (dec_lt i mid) [
  | yes p ↦ first i above p
  | no p ↦ later i (omega arith) below
]
IsFirst-append f lo mid hi none (some v) h h' first (j, above, below, here, before) = (
  j,
  omega arith,
  below,
  here,
  λ i lo' hi'. elim (dec_lt i mid) [ yes p ↦ first i lo' p | no p ↦ before i (omega arith) hi' ],
)

next_loop-IsFirst :
    (fuel : ℕ) (m : PageMap) (k : ℕ)
    → root_length - root_index k < fuel
    → IsFirst (get m) k (2 ^ map_bits) (next_loop fuel m k)
unfolding next_loop
next_loop-IsFirst zero m k enough = absurd (omega arith)
next_loop-IsFirst (suc fuel) m k enough = elim (Bool-cases (ltb k (2 ^ map_bits))) [
  | inr e ↦
      let past = ltb_false→le k (2 ^ map_bits) e in rw e (λ i above below. absurd (omega arith))
  | inl e ↦
      let small = ltb→lt k (2 ^ map_bits) e in
      let k' : ℕ = (root_index k + 1) * 2 ^ leaf_bits in
      rw e (
        IsFirst-append (get m) k k' (2 ^ map_bits) (next_in_leaf m k) (next_loop fuel m k')
          (omega arith) (omega arith) (next_in_leaf-IsFirst m k small)
          (next_loop-IsFirst fuel m k' (omega arith)))
]

get_past : (m : PageMap) (k : ℕ) → 2 ^ map_bits ≤ k → get m k ≡ none
unfolding get
get_past m k h = ground arith

-- `Next` from a page on gives the value of the first page from there on that `get` finds a value
-- for, and nothing if there is no such page.
pub next-IsFirst :
    (m : PageMap) (k : ℕ)
    → ((next m k ≡ none) × ((i : ℕ) → k ≤ i → get m i ≡ none))
      ⊎ ((j : ℕ) × (v : ℕ) × (next m k ≡ some v)
          × (k ≤ j)
          × (get m j ≡ some v)
          × ((i : ℕ) → k ≤ i → i < j → get m i ≡ none))
unfolding next
next-IsFirst m k =
    go (next_loop (root_length + 1) m k) refl
      (next_loop-IsFirst (root_length + 1) m k (omega arith))
  where
    go :
        (r : Option ℕ)
        → next_loop (root_length + 1) m k ≡ r
        → IsFirst (get m) k (2 ^ map_bits) r
        → ((next_loop (root_length + 1) m k ≡ none) × ((i : ℕ) → k ≤ i → get m i ≡ none))
          ⊎ ((j : ℕ) × (v : ℕ) × (next_loop (root_length + 1) m k ≡ some v)
              × (k ≤ j)
              × (get m j ≡ some v)
              × ((i : ℕ) → k ≤ i → i < j → get m i ≡ none))
    go none e first = inl (
      e,
      λ i above. elim (dec_lt i (2 ^ map_bits)) [
        | yes p ↦ first i above p
        | no p ↦ get_past m i (omega arith)
      ],
    )
    go (some v) e (j, above, below, here, before) = inr (j, v, e, above, here, before)
