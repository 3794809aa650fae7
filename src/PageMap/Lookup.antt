-- ===== src/PageMap/Lookup.antt =====
-- What `get` finds after `Ensure` and `set`.
use native.Mathlib.Decide.{dec_lt}
use gperftools.Base.{
  ℕ, zero, suc, ◌+◌, ◌-◌, ◌*◌, ◌%◌, ◌^◌, ◌≤◌, ◌<◌, ◌≡◌, refl, ◌∙◌, inl, inr, arith, Bool, true,
  false, none, some, ltb, ◌==◌, if◌then◌else◌, update, ok, Bool-cases, Option-cases, ltb→lt,
}
use gperftools.PageMap.{
  PageMap, Leaf, map_bits, leaf_bits, root_length, root_index, leaf_index, read_leaf, get, set,
  ensure_key, ensure_loop, ensure,
}

-- A page whose leaf is there.
abbrev pub HasLeaf : PageMap → ℕ → Type 0
HasLeaf m k = (leaf : Leaf) × (m.root (root_index k) ≡ some leaf)

-- `set` works on a page of 35 bits whose leaf is there, and then `get` gives the new value for the
-- page and what it gave before for every other.
pub get-set :
    (m : PageMap) (k v : ℕ)
    → k < 2 ^ map_bits
    → HasLeaf m k
    → (m' : PageMap) × (set m k v ≡ ok m')
      × ((j : ℕ) → get m' j ≡ (if j == k then some v else get m j))
unfolding set get read_leaf
get-set m k v small (leaf, e) = (
  record m { root = update m.root (root_index k) (some (update leaf (leaf_index k) (some v))) },
  rw (set, e) refl,
  λ j. ground (arith, e),
)

-- A map with more leaves and the same values.
pub record Grows (m m' : PageMap) : Type 0 where
  pub keeps : (i : ℕ) (leaf : Leaf) → m.root i ≡ some leaf → m'.root i ≡ some leaf
  pub same : (j : ℕ) → get m' j ≡ get m j

Grows-refl : (m : PageMap) → Grows m m
Grows-refl m = record { keeps = λ i leaf e. e; same = λ j. refl }

Grows-trans : {m m' m'' : PageMap} → Grows m m' → Grows m' m'' → Grows m m''
Grows-trans g g' = record {
  keeps = λ i leaf e. g'.keeps i leaf (g.keeps i leaf e);
  same = λ j. g'.same j ∙ g.same j;
}

-- How `Ensure` ends on the pages from `key` to `last`.
pub record Ensured (m : PageMap) (key last : ℕ) (r : Bool × PageMap) : Type 0 where
  pub grows : Grows m r.1
  pub leaves : r.0 ≡ true → (k : ℕ) → key ≤ k → k ≤ last → HasLeaf r.1 k

module _ (has_memory : ℕ → Bool) where
  ensure_key-Grows : (m : PageMap) (key : ℕ) → Grows m (ensure_key has_memory m key).1
  unfolding ensure_key get read_leaf
  ensure_key-Grows m key = record { keeps = λ i leaf e. ground arith; same = λ j. ground arith }

  ensure_key-HasLeaf :
      (m : PageMap) (key : ℕ)
      → (ensure_key has_memory m key).0 ≡ true
      → (root_index key < root_length) × HasLeaf (ensure_key has_memory m key).1 key
  unfolding ensure_key
  ensure_key-HasLeaf m key h = (
    ground arith,
    elim (Option-cases (m.root (root_index key))) [
      | inl e ↦ ((λ i. none), ground arith)
      | inr (leaf, e) ↦ (leaf, ground arith)
    ],
  )

  ensure_loop-Ensured :
      (fuel : ℕ) (m : PageMap) (key last : ℕ)
      → root_length - root_index key < fuel
      → (r : Bool × PageMap) × (ensure_loop has_memory fuel m key last ≡ ok r)
        × Ensured m key last r
  unfolding ensure_loop
  ensure_loop-Ensured zero m key last enough = absurd (omega arith)
  ensure_loop-Ensured (suc fuel) m key last enough = elim (Bool-cases (ltb last key)) [
    | inl e ↦
        let past = ltb→lt last key e in
        (
          (true, m),
          rw e refl,
          record { grows = Grows-refl m; leaves = λ _ k lo hi. absurd (omega arith) },
        )
    | inr e ↦ rw e (elim (Bool-cases (ensure_key has_memory m key).0) [
      | inr f ↦ (
        (false, (ensure_key has_memory m key).1),
        rw f refl,
        record { grows = ensure_key-Grows m key; leaves = λ t k lo hi. absurd (ground arith) },
      )
      | inl f ↦
          let m' : PageMap = (ensure_key has_memory m key).1 in
          let (inside, found) = ensure_key-HasLeaf m key f in
          let key' : ℕ = (root_index key + 1) * 2 ^ leaf_bits % 2 ^ 64 in
          let (r, run, rest) = ensure_loop-Ensured fuel m' key' last (omega arith) in
          (
            r,
            rw f run,
            record {
              grows = Grows-trans (ensure_key-Grows m key) rest.grows;
              leaves = λ t k lo hi. elim (dec_lt k key') [
                | yes h ↦
                    let i : root_index k ≡ root_index key = omega arith in
                    (found.0, rw i (rest.grows.keeps (root_index key) found.0 found.1))
                | no h ↦ rest.leaves t k (omega arith) hi
              ];
            },
          )
    ])
  ]

  -- `Ensure` ends for any first page and any count above 0 that stays within 64 bits, whatever
  -- memory there is. No page changes its value, and if it returns true, all the pages have leaves.
  pub ensure-Ensured :
      (m : PageMap) (start n : ℕ)
      → 0 < n
      → start + n ≤ 2 ^ 64
      → (r : Bool × PageMap) × (ensure has_memory m start n ≡ ok r)
        × Ensured m start (start + n - 1) r
  unfolding ensure
  ensure-Ensured m start n pos fits =
      let e : (start + n + 2 ^ 64 - 1) % 2 ^ 64 ≡ start + n - 1 = omega arith in
      rw e (ensure_loop-Ensured (root_length + 2) m start (start + n - 1) (omega arith))
