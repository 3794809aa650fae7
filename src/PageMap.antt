-- ===== src/PageMap.antt =====
-- `TCMalloc_PageMap2` of src/pagemap.h, the radix tree from page numbers to spans, at the 35 bits
-- that `MapSelector` of src/page_heap.h gives it for 48 bits of address: a root of 17 bits and
-- leaves of 18. A null pointer is `none`; `set` through one is a crash. The allocator is the answer
-- to each of its calls: whether it has memory; `allocated` counts the calls.
pub mod Lookup
pub mod Next
use gperftools.Base.{
  ℕ, zero, suc, ◌+◌, ◌-◌, ◌*◌, ◌/◌, ◌%◌, ◌^◌, Bool, true, false, Option, none, some, ltb, leb,
  if◌then◌else◌, update, Outcome, ok, crash, out_of_fuel,
}

abbrev pub map_bits : ℕ
map_bits = 35

abbrev pub leaf_bits : ℕ
leaf_bits = 18

abbrev pub root_bits : ℕ
root_bits = 17

abbrev pub leaf_length : ℕ
leaf_length = 2 ^ leaf_bits

abbrev pub root_length : ℕ
root_length = 2 ^ root_bits

abbrev pub Leaf : Type 0
Leaf = ℕ → Option ℕ

pub record PageMap : Type 0 where
  pub root : ℕ → Option Leaf
  pub allocated : ℕ

-- The two indices of a key.
abbrev pub root_index : ℕ → ℕ
root_index k = k / 2 ^ leaf_bits

abbrev pub leaf_index : ℕ → ℕ
leaf_index k = k % leaf_length

unfoldable pub read_leaf : Option Leaf → ℕ → Option ℕ
read_leaf none i2 = none
read_leaf (some leaf) i2 = leaf i2

unfoldable pub get : PageMap → ℕ → Option ℕ
get m k =
    if ltb 0 (k / 2 ^ map_bits) then none else read_leaf (m.root (root_index k)) (leaf_index k)

unfoldable pub set : PageMap → ℕ → ℕ → Outcome PageMap
set m k v = elim (m.root (root_index k)) [
  | none ↦ crash
  | some leaf ↦ ok (record m {
    root = update m.root (root_index k) (some (update leaf (leaf_index k) (some v)));
  })
]

-- The scan forward in a leaf, with the rounds left.
unfoldable pub scan_leaf : ℕ → Leaf → ℕ → Option ℕ
scan_leaf zero leaf i2 = none
scan_leaf (suc rounds) leaf i2 = elim (leaf i2) [
  | some v ↦ some v
  | none ↦ scan_leaf rounds leaf (i2 + 1)
]

-- What the leaf of `k`, if there is one, has from `k` on.
unfoldable pub next_in_leaf : PageMap → ℕ → Option ℕ
next_in_leaf m k = elim (m.root (root_index k)) [
  | none ↦ none
  | some leaf ↦ scan_leaf (leaf_length - leaf_index k) leaf (leaf_index k)
]

unfoldable pub next_loop : ℕ → PageMap → ℕ → Option ℕ
next_loop zero m k = none
next_loop (suc fuel) m k =
    if ltb k (2 ^ map_bits)
    then elim (next_in_leaf m k) [
      | some v ↦ some v
      | none ↦ next_loop fuel m ((root_index k + 1) * 2 ^ leaf_bits)
    ]
    else none

-- `Next`: a round for each root entry, and one to stop.
unfoldable pub next : PageMap → ℕ → Option ℕ
next m k = next_loop (root_length + 1) m k

module _ (has_memory : ℕ → Bool) where
  -- The middle of the loop of `Ensure`: false is its return of false.
  unfoldable pub ensure_key : PageMap → ℕ → Bool × PageMap
  ensure_key m key =
      if leb root_length (root_index key) then (false, m) else elim (m.root (root_index key)) [
        | some leaf ↦ (true, m)
        | none ↦
            if has_memory m.allocated
            then (
              true,
              record {
                root = update m.root (root_index key) (some (λ i. none));
                allocated = m.allocated + 1;
              },
            )
            else (false, record m { allocated = m.allocated + 1 })
      ]

  -- The loop, to the last key `last`.
  unfoldable pub ensure_loop : ℕ → PageMap → ℕ → ℕ → Outcome (Bool × PageMap)
  ensure_loop zero m key last = out_of_fuel
  ensure_loop (suc fuel) m key last =
      if ltb last key
      then ok (true, m)
      else let (fits, m') = ensure_key m key in
        elim fits [
          | false ↦ ok (false, m')
          | true ↦ ensure_loop fuel m' ((root_index key + 1) * 2 ^ leaf_bits % 2 ^ 64) last
        ]

  -- `Ensure`: a round for each root entry, and one to find a key past them.
  unfoldable pub ensure : PageMap → ℕ → ℕ → Outcome (Bool × PageMap)
  ensure m start n = ensure_loop (root_length + 2) m start ((start + n + 2 ^ 64 - 1) % 2 ^ 64)
