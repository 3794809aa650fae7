-- ===== src/PackedCache/Refine.antt =====
-- The cache against its history.
use gperftools.Base.{
  ℕ, ◌+◌, ◌*◌, ◌/◌, ◌%◌, ◌^◌, ◌<◌, ◌≡◌, Option, none, some, List, [], ◌∷◌, All, Bool, if◌then◌else◌,
  ◌==◌, arith,
}
use gperftools.PackedCache.{
  key_bits, value_bits, invalid_mask, try_get, clear, put, invalidate, Op, puts, invalidates,
  clears, apply, run,
}
use gperftools.PackedCache.Entry.{hash_lem, packed, read_entry_lem}

-- The operations within the limits that the class asserts.
abbrev pub IsAllowed : Op → Type 0
IsAllowed (puts key value) = (key < 2 ^ key_bits) × (value < 2 ^ value_bits)
IsAllowed (invalidates key) = key < 2 ^ key_bits
IsAllowed clears = Unit {0}

-- Two keys share a slot if their low 16 bits are the same.
abbrev pub collide : ℕ → ℕ → Bool
collide j k = j % 2 ^ 16 == k % 2 ^ 16

-- What a lookup should give after the operations, the latest first: the last operation on the
-- key's slot decides, and only a put of the key itself is found.
unfoldable pub recall : List Op → ℕ → Option ℕ
recall [] key = none
recall (puts j value ∷ ops) key =
    if collide j key then (if j == key then some value else none) else recall ops key
recall (invalidates j ∷ ops) key = if collide j key then none else recall ops key
recall (clears ∷ ops) key = none

module _ (array : ℕ → ℕ) (j key : ℕ) (hj : j < 2 ^ key_bits) (hk : key < 2 ^ key_bits) where
  try_get-put :
      (value : ℕ)
      → value < 2 ^ value_bits
      → try_get (put array j value) key
        ≡ (if collide j key then (if j == key then some value else none) else try_get array key)
  unfolding try_get put
  try_get-put value h =
      let e : ℕ = j / 2 ^ 16 * 2 ^ 16 + value in
      rw (hash_lem j, hash_lem key, packed j value (omega arith))
        (ground (arith, read_entry_lem key e hk))

  try_get-invalidate :
      try_get (invalidate array j) key ≡ (if collide j key then none else try_get array key)
  unfolding try_get invalidate
  try_get-invalidate =
      let e : ℕ = j / 2 ^ 16 * 2 ^ 16 + invalid_mask in
      rw (hash_lem j, hash_lem key, packed j invalid_mask (omega arith))
        (ground (arith, read_entry_lem key e hk))

try_get-clear : (key : ℕ) → key < 2 ^ key_bits → try_get clear key ≡ none
unfolding try_get clear
try_get-clear key h = ground (arith, read_entry_lem key 0x8080_8080_8080_8080 h)

-- A lookup in the cache finds what its history says, for every sequence of puts, invalidations and
-- clears of keys below 2^35 and values below 2^7: the value that the key was last put with, if
-- nothing has touched its slot since.
pub try_get-run :
    (ops : List Op) (key : ℕ)
    → All IsAllowed ops
    → key < 2 ^ key_bits
    → try_get (run ops) key ≡ recall ops key
unfolding run apply recall
try_get-run [] key allowed h = try_get-clear key h
try_get-run (puts j value ∷ ops) key allowed h =
    rw
      (try_get-put (run ops) j key allowed.0.0 h value allowed.0.1, try_get-run ops key allowed.1 h)
try_get-run (invalidates j ∷ ops) key allowed h =
    rw (try_get-invalidate (run ops) j key allowed.0 h, try_get-run ops key allowed.1 h)
try_get-run (clears ∷ ops) key allowed h = try_get-clear key h
