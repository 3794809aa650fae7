-- ===== src/PackedCache.antt =====
-- `PackedCache` of src/packed-cache-inl.h, the direct-mapped cache from page numbers to size
-- classes, at the parameters of the page heap: keys of 35 bits (48 address bits less the page
-- shift), 16 hash bits, 7 value bits, entries of 64 bits. The array is a function of its index.
-- An operation reads or writes one entry once, so a run of operations is their order on the array.
pub mod Entry
pub mod Refine
use gperftools.Base.{
  ℕ, ◌-◌, ◌^◌, bit_and, bit_or, bit_xor, Option, none, some, List, [], ◌∷◌, leb, if◌then◌else◌,
  update,
}

abbrev pub key_bits : ℕ
key_bits = 35

abbrev pub hash_bits : ℕ
hash_bits = 16

abbrev pub value_bits : ℕ
value_bits = 7

abbrev pub invalid_mask : ℕ
invalid_mask = 0x80

-- `N_ONES_`
abbrev pub ones : ℕ → ℕ
ones n = 2 ^ n - 1

unfoldable pub hash : ℕ → ℕ
hash key = bit_and key (ones hash_bits)

-- `KeyToUpper`
unfoldable pub key_to_upper : ℕ → ℕ
key_to_upper key = bit_xor key (hash key)

-- `~N_ONES_(T, kHashbits)` on 64 bits
abbrev pub high_mask : ℕ
high_mask = 2 ^ 64 - 1 - ones hash_bits

-- the test and the result of `TryGet` on the entry that it reads
unfoldable pub read_entry : ℕ → ℕ → Option ℕ
read_entry key e =
    let entry = bit_xor e (bit_and key high_mask) in
    if leb (2 ^ value_bits) entry then none else some entry

unfoldable pub try_get : (ℕ → ℕ) → ℕ → Option ℕ
try_get array key = read_entry key (array (hash key))

-- `Clear`: each byte of each entry is `kInvalidMask`.
unfoldable pub clear : ℕ → ℕ
clear index = 0x8080_8080_8080_8080

unfoldable pub put : (ℕ → ℕ) → ℕ → ℕ → ℕ → ℕ
put array key value = update array (hash key) (bit_or (key_to_upper key) value)

unfoldable pub invalidate : (ℕ → ℕ) → ℕ → ℕ → ℕ
invalidate array key = update array (hash key) (bit_or (key_to_upper key) invalid_mask)

pub data Op : Type 0 where
  puts : ℕ → ℕ → Op
  invalidates : ℕ → Op
  clears : Op

unfoldable pub apply : Op → (ℕ → ℕ) → ℕ → ℕ
apply (puts key value) array = put array key value
apply (invalidates key) array = invalidate array key
apply clears array = clear

-- The array after the operations, the latest first, on a cache as it is constructed.
unfoldable pub run : List Op → ℕ → ℕ
run [] = clear
run (op ∷ ops) = apply op (run ops)
