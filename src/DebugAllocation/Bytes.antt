-- ===== src/DebugAllocation/Bytes.antt =====
-- Words and runs of bytes in memory, as the debug allocator reads and writes them: little-endian, as on
-- the targets with 64-bit words.
use native.Mathlib.Nat.{pow-suc}
use gperftools.Base.{
  ℕ, zero, suc, ◌+◌, ◌*◌, ◌/◌, ◌%◌, ◌^◌, ◌≤◌, ◌<◌, ◌≡◌, refl, ap, sym, ◌∙◌, ◌⊎◌, inl, ◌&&◌, ltb,
  leb, if◌then◌else◌, update, update_ne, update_self, arith,
}
use gperftools.DebugAllocation.{Memory}

unfoldable pub load_bytes : Memory → ℕ → ℕ → ℕ
load_bytes mem p zero = 0
load_bytes mem p (suc n) = mem p + 256 * load_bytes mem (p + 1) n

unfoldable pub store_bytes : Memory → ℕ → ℕ → ℕ → Memory
store_bytes mem p zero v = mem
store_bytes mem p (suc n) v = store_bytes (update mem p (v % 256)) (p + 1) n (v / 256)

-- A `size_t` at an address.
unfoldable pub load : Memory → ℕ → ℕ
load mem p = load_bytes mem p 8

unfoldable pub store : Memory → ℕ → ℕ → Memory
store mem p v = store_bytes mem p 8 v

-- `memset`
unfoldable pub memset : Memory → ℕ → ℕ → ℕ → Memory
memset mem p c n q = if leb p q && ltb q (p + n) then c else mem q

store_bytes-outside :
    (mem : Memory) (p n v q : ℕ) → (q < p) ⊎ (p + n ≤ q) → store_bytes mem p n v q ≡ mem q
unfolding store_bytes
store_bytes-outside mem p zero v q out = refl
store_bytes-outside mem p (suc n) v q out =
    store_bytes-outside (update mem p (v % 256)) (p + 1) n (v / 256) q (ground arith)
    ∙ update_ne mem p q (v % 256) (ground arith)

load_bytes-agree :
    (m m' : Memory) (p n : ℕ)
    → ((i : ℕ) → i < n → m (p + i) ≡ m' (p + i))
    → load_bytes m p n ≡ load_bytes m' p n
unfolding load_bytes
load_bytes-agree m m' p zero same = refl
load_bytes-agree m m' p (suc n) same =
    let here : p + 0 ≡ p = omega arith in
    let first : m p ≡ m' p = ap m (sym here) ∙ same 0 (omega arith) ∙ ap m' here in
    let rest = load_bytes-agree m m' (p + 1) n λ i low.
      let e : p + 1 + i ≡ p + suc i = omega arith in
      ap m e ∙ same (suc i) (omega arith) ∙ ap m' (sym e) in
    omega (arith, first, rest)

load_bytes-store_self :
    (mem : Memory) (p n v : ℕ) → v < 256 ^ n → load_bytes (store_bytes mem p n v) p n ≡ v
unfolding load_bytes store_bytes
load_bytes-store_self mem p zero v low = omega arith
load_bytes-store_self mem p (suc n) v low =
    let low' : v / 256 < 256 ^ n = omega (arith, pow-suc 256 n) in
    let rest = load_bytes-store_self (update mem p (v % 256)) (p + 1) n (v / 256) low' in
    let first =
      store_bytes-outside (update mem p (v % 256)) (p + 1) n (v / 256) p (inl (omega arith))
      ∙ update_self mem p (v % 256) in
    omega (arith, first, rest)

-- Two words with one byte that differs are different.
load_bytes-injective :
    (m m' : Memory) (p n : ℕ)
    → ((q : ℕ) → m q < 256)
    → ((q : ℕ) → m' q < 256)
    → load_bytes m p n ≡ load_bytes m' p n
    → (i : ℕ) → i < n
    → m (p + i) ≡ m' (p + i)
unfolding load_bytes
load_bytes-injective m m' p zero b b' e i low = absurd (omega arith)
load_bytes-injective m m' p (suc n) b b' e zero low =
    let here : p + 0 ≡ p = omega arith in ap m here ∙ omega (arith, b p, b' p, e) ∙ ap m' (sym here)
load_bytes-injective m m' p (suc n) b b' e (suc i) low =
    let next : p + 1 + i ≡ p + suc i = omega arith in
    ap m (sym next)
    ∙ load_bytes-injective m m' (p + 1) n b b' (omega (arith, b p, b' p, e)) i (omega arith)
    ∙ ap m' next

module _ (mem : Memory) where
  pub store-outside : (p v q : ℕ) → (q < p) ⊎ (p + 8 ≤ q) → store mem p v q ≡ mem q
  unfolding store
  store-outside p v q out = store_bytes-outside mem p 8 v q out

  pub load-store_self : (p v : ℕ) → v < 2 ^ 64 → load (store mem p v) p ≡ v
  unfolding load store
  load-store_self p v low = load_bytes-store_self mem p 8 v (omega arith)

  pub load-agree :
      (m' : Memory) (p : ℕ) → ((q : ℕ) → p ≤ q → q < p + 8 → mem q ≡ m' q) → load mem p ≡ load m' p
  unfolding load
  load-agree m' p same =
      load_bytes-agree mem m' p 8 λ i low. same (p + i) (omega arith) (omega arith)

  pub memset-inside : (p c n q : ℕ) → p ≤ q → q < p + n → memset mem p c n q ≡ c
  unfolding memset
  memset-inside p c n q low high = ground arith

  pub memset-outside : (p c n q : ℕ) → (q < p) ⊎ (p + n ≤ q) → memset mem p c n q ≡ mem q
  unfolding memset
  memset-outside p c n q out = ground arith

pub load-injective :
    (m m' : Memory) (p i : ℕ)
    → ((q : ℕ) → m q < 256)
    → ((q : ℕ) → m' q < 256)
    → i < 8
    → load m p ≡ load m' p
    → m (p + i) ≡ m' (p + i)
unfolding load
load-injective m m' p i b b' low e = load_bytes-injective m m' p 8 b b' e i low

pub load-store_other :
    (mem : Memory) (p v q : ℕ) → (q + 8 ≤ p) ⊎ (p + 8 ≤ q) → load (store mem p v) q ≡ load mem q
load-store_other mem p v q apart =
    load-agree (store mem p v) mem q λ r low high. store-outside mem p v r (ground arith)

pub load-memset_other :
    (mem : Memory) (p c n q : ℕ)
    → (q + 8 ≤ p) ⊎ (p + n ≤ q)
    → load (memset mem p c n) q ≡ load mem q
load-memset_other mem p c n q apart =
    load-agree (memset mem p c n) mem q λ r low high. memset-outside mem p c n r (ground arith)

-- Every byte is one.
abbrev pub AreBytes : Memory → Type 0
AreBytes mem = (q : ℕ) → mem q < 256

store_bytes-AreBytes : (mem : Memory) (p n v : ℕ) → AreBytes mem → AreBytes (store_bytes mem p n v)
unfolding store_bytes
store_bytes-AreBytes mem p zero v b = b
store_bytes-AreBytes mem p (suc n) v b =
    store_bytes-AreBytes (update mem p (v % 256)) (p + 1) n (v / 256)
      λ q. let h = b q in let l : v % 256 < 256 = omega arith in ground arith

pub store-AreBytes : (mem : Memory) (p v : ℕ) → AreBytes mem → AreBytes (store mem p v)
unfolding store
store-AreBytes mem p v b = store_bytes-AreBytes mem p 8 v b

pub memset-AreBytes :
    (mem : Memory) (p c n : ℕ) → c < 256 → AreBytes mem → AreBytes (memset mem p c n)
unfolding memset
memset-AreBytes mem p c n low b q = let h = b q in ground arith
