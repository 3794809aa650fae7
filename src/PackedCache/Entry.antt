-- ===== src/PackedCache/Entry.antt =====
-- How an entry packs a key and a value, in arithmetic.
use gperftools.Base.{
  ℕ, ◌+◌, ◌*◌, ◌/◌, ◌%◌, ◌^◌, ◌<◌, ◌≡◌, refl, ◌∙◌, bit_and, bit_or, bit_xor, none, some,
  if◌then◌else◌, ◌==◌, arith,
}
use gperftools.Base.Bits.{
  bit_and_mask, bit_and_split, bit_or_split, bit_xor_split, bit_and-zero, bit_or-zero, zero-bit_or,
  bit_xor_self, bit_xor-zero, eq_of_bit_xor-zero,
}
use native.Mathlib.Nat.{le_refl}
use gperftools.PackedCache.{key_bits, high_mask, hash, key_to_upper, read_entry}

pub hash_lem : (key : ℕ) → hash key ≡ key % 2 ^ 16
unfolding hash
hash_lem key = bit_and_mask 16 key

upper : (key : ℕ) → key_to_upper key ≡ key / 2 ^ 16 * 2 ^ 16
unfolding key_to_upper
upper key =
    let low : hash key / 2 ^ 16 ≡ 0 = omega (arith, hash_lem key) in
    let same : hash key % 2 ^ 16 ≡ key % 2 ^ 16 = omega (arith, hash_lem key) in
    rw (bit_xor_split 16 key (hash key), low, same, bit_xor-zero, bit_xor_self) (omega arith)

-- A value of at most 16 bits goes below the key's upper bits.
pub packed : (key v : ℕ) → v < 2 ^ 16 → bit_or (key_to_upper key) v ≡ key / 2 ^ 16 * 2 ^ 16 + v
packed key v h =
    let high : v / 2 ^ 16 ≡ 0 = omega arith in
    let low : v % 2 ^ 16 ≡ v = omega arith in
    let up : key / 2 ^ 16 * 2 ^ 16 / 2 ^ 16 ≡ key / 2 ^ 16 = omega arith in
    let none : key / 2 ^ 16 * 2 ^ 16 % 2 ^ 16 ≡ 0 = omega arith in
    rw
      (
        upper key,
        bit_or_split 16 (key / 2 ^ 16 * 2 ^ 16) v,
        high,
        low,
        up,
        none,
        bit_or-zero,
        zero-bit_or,
      )
      (omega arith)

expected : (key : ℕ) → key < 2 ^ key_bits → bit_and key high_mask ≡ key / 2 ^ 16 * 2 ^ 16
expected key h =
    let fits : key / 2 ^ 16 % 2 ^ 48 ≡ key / 2 ^ 16 = omega arith in
    bit_and_split 16 key high_mask
    ∙ omega (arith, bit_and_mask 48 (key / 2 ^ 16), bit_and-zero (key % 2 ^ 16), fits)

-- `TryGet` accepts an entry exactly if all its bits but the lowest seven are those of the key's
-- upper part, and then returns these seven.
pub read_entry_lem :
    (key e : ℕ)
    → key < 2 ^ key_bits
    → read_entry key e ≡ (if e / 128 == key / 2 ^ 16 * 2 ^ 9 then some (e % 128) else none)
unfolding read_entry
read_entry_lem key e h =
    let u : ℕ = key / 2 ^ 16 * 2 ^ 16 in
    let high : u / 2 ^ 7 ≡ key / 2 ^ 16 * 2 ^ 9 = omega arith in
    let low : u % 2 ^ 7 ≡ 0 = omega arith in
    let x : ℕ = bit_xor (e / 2 ^ 7) (key / 2 ^ 16 * 2 ^ 9) in
    let split : bit_xor e u ≡ x * 2 ^ 7 + e % 2 ^ 7 =
      rw (bit_xor_split 7 e u, high, low, bit_xor-zero) refl in
    let q : ℕ = e / 2 ^ 7 in
    rw (expected key h, split)
      (ground (arith, bit_xor_self q, eq_of_bit_xor-zero q q (key / 2 ^ 16 * 2 ^ 9) (le_refl q)))
