-- ===== src/MetadataAlloc/Apart.antt =====
-- The blocks that `MetaDataAlloc` gives lie apart from one another.
use native.Mathlib.Nat.{add-mod-mod, mul-mod_right, zero-mod}
use gperftools.Base.{
  ℕ, ◌+◌, ◌-◌, ◌*◌, ◌%◌, ◌^◌, ◌≤◌, ◌<◌, ◌≡◌, ◌⊎◌, refl, ap, ◌∙◌, inl, inr, Option, none, some, List,
  [], ◌∷◌, All, All-map, ltb, leb, arith, Bool-cases, ltb_false→le, leb,
}
use gperftools.Base.Bits.{bit_and_mask}
use gperftools.Base.Power.{pow-add}
use gperftools.MetadataAlloc.{
  Metadata, System, chunk_size, no_metadata, padding, take_bytes, take_own, take_chunk,
  meta_data_alloc,
}

-- A block: its first address and its size.
abbrev pub Block : Type 0
Block = ℕ × ℕ

-- Two blocks with no byte in common.
abbrev pub AreApart : Block → Block → Type 0
AreApart (a, n) (b, m) = ((a + n ≤ b) ⊎ (b + m ≤ a)) ⊎ ((n ≡ 0) ⊎ (m ≡ 0))

-- What the system documents: its answers have the size asked for, at least, and the alignment, and
-- no two share a byte.
pub record Fresh (k : ℕ) (system : System) : Type 0 where
  pub sized :
      (i bytes a r : ℕ)
      → system i bytes ≡ some (a, r)
      → (bytes ≤ r) × (a + r < 2 ^ 64) × (a % 2 ^ k ≡ 0)
  pub apart :
      (i j x y a r b s : ℕ)
      → i < j
      → system i x ≡ some (a, r)
      → system j y ≡ some (b, s)
      → AreApart (a, r) (b, s)

padding_lem :
    (k address : ℕ) → k ≤ 64 → address < 2 ^ 64 → (address + padding (2 ^ k) address) % 2 ^ k ≡ 0
unfolding padding
padding_lem k address small word =
    let rest : ℕ = (2 ^ 64 - address) % 2 ^ 64 in
    let split : 2 ^ 64 ≡ 2 ^ k * 2 ^ (64 - k) =
      ap (λ (j : ℕ). 2 ^ j) (let e : 64 ≡ k + (64 - k) = omega arith in e) ∙ pow-add k (64 - k) in
    let whole : 2 ^ 64 % 2 ^ k ≡ 0 =
      ap (λ (n : ℕ). n % 2 ^ k) split ∙ mul-mod_right (2 ^ k) (2 ^ (64 - k)) in
    let sum : (address + rest ≡ 0) ⊎ (address + rest ≡ 2 ^ 64) = omega arith in
    rw (bit_and_mask k rest, add-mod-mod address rest (2 ^ k))
      (elim sum [ inl e ↦ rw e (zero-mod (2 ^ k)) | inr e ↦ rw e whole ])

-- The block lies in what the system gave with one of its first answers.
record Within (system : System) (calls : ℕ) (block : Block) : Type 0 where
  call : ℕ
  asked : ℕ
  start : ℕ
  size : ℕ
  earlier : call < calls
  answer : system call asked ≡ some (start, size)
  low : start ≤ block.0
  high : block.0 + block.1 ≤ start + size

abbrev pub PairwiseApart : List Block → Type 0
PairwiseApart [] = Unit
PairwiseApart (b ∷ bs) = All (AreApart b) bs × PairwiseApart bs

-- What holds after any requests: the blocks given lie in answers of the system and apart from each
-- other and from what is left of the chunk.
record Sound (k : ℕ) (system : System) (m : Metadata) (blocks : List Block) : Type 0 where
  word : m.chunk_alloc + m.chunk_avail < 2 ^ 64
  region : (m.chunk_avail ≡ 0) ⊎ Within system m.calls (m.chunk_alloc, m.chunk_avail)
  held : All (Within system m.calls) blocks
  left : All (λ b. AreApart b (m.chunk_alloc, m.chunk_avail)) blocks
  apart : PairwiseApart blocks
  aligned : All (λ b. b.0 % 2 ^ k ≡ 0) blocks

-- The blocks given, the last first.
abbrev pub given : Option ℕ → ℕ → List Block → List Block
given none n blocks = blocks
given (some a) n blocks = (a, n) ∷ blocks

-- The requests of these sizes, one after the other.
abbrev pub serve : System → ℕ → List ℕ → Metadata → List Block → List Block × Metadata
serve system alignment [] m blocks = (blocks, m)
serve system alignment (n ∷ sizes) m blocks =
    let r = meta_data_alloc system alignment m n in
    serve system alignment sizes r.1 (given r.0 n blocks)

Within-more :
    (system : System) (c c' : ℕ) (b b' : Block)
    → c ≤ c'
    → b.0 ≤ b'.0
    → b'.0 + b'.1 ≤ b.0 + b.1
    → Within system c b
    → Within system c' b'
Within-more system c c' b b' le low high w = record {
  call = w.call;
  asked = w.asked;
  start = w.start;
  size = w.size;
  earlier = omega (arith, w.earlier);
  answer = w.answer;
  low = omega (arith, w.low);
  high = omega (arith, w.high);
}

Apart_sub : (b c c' : Block) → c.0 ≤ c'.0 → c'.0 + c'.1 ≤ c.0 + c.1 → AreApart b c → AreApart b c'
Apart_sub (b, n) (c, m) (c', m') low high h = omega arith

Apart_sym : (b c : Block) → AreApart b c → AreApart c b
Apart_sym (b, n) (c, m) h = omega arith

module _ (k : ℕ) (system : System) (fresh : Fresh k system) (small : k ≤ 64) where
  -- What a new answer is apart from.
  new-apart :
      (c x a r : ℕ) (b : Block) → system c x ≡ some (a, r) → Within system c b → AreApart b (a, r)
  new-apart c x a r (b, n) e w =
      let h : AreApart (w.start, w.size) (a, r) =
        fresh.apart w.call c w.asked x w.start w.size a r w.earlier w.answer e in
      omega (arith, w.low, w.high, h)

  -- The blocks stay where they are when the system is asked once more.
  held-more :
      (c : ℕ) (blocks : List Block)
      → All (Within system c) blocks
      → All (Within system (c + 1)) blocks
  held-more c blocks =
      All-map (Within system c) (Within system (c + 1)) blocks
        (λ b. Within-more system c (c + 1) b b (omega arith) (omega arith) (omega arith))

  answered :
      (c x a r : ℕ)
      → system c x ≡ some (a, r)
      → (b : Block) → a ≤ b.0
      → b.0 + b.1 ≤ a + r
      → Within system (c + 1) b
  answered c x a r e b low high = record {
    call = c;
    asked = x;
    start = a;
    size = r;
    earlier = omega arith;
    answer = e;
    low = low;
    high = high;
  }

  take_bytes-Sound :
      (m : Metadata) (blocks : List Block) (pad n : ℕ)
      → 0 < n
      → n + pad ≤ m.chunk_avail
      → (m.chunk_alloc + pad) % 2 ^ k ≡ 0
      → Sound k system m blocks
      → Sound k system (take_bytes m pad n).1 (given (take_bytes m pad n).0 n blocks)
  unfolding take_bytes
  take_bytes-Sound m blocks pad n some_bytes fits multiple s =
      let chunk : Block = (m.chunk_alloc, m.chunk_avail) in
      let new : Block = (m.chunk_alloc + pad, n) in
      let rest : Block = (m.chunk_alloc + (n + pad), m.chunk_avail - (n + pad)) in
      let w : Within system m.calls chunk = elim s.region [
        | inl e ↦ absurd (omega arith)
        | inr w ↦ w
      ] in
      record {
        word = omega (arith, s.word);
        region = inr (
            Within-more system m.calls m.calls chunk rest (omega arith) (omega arith) (omega arith)
              w);
        held = (
          Within-more system m.calls m.calls chunk new (omega arith) (omega arith) (omega arith) w,
          s.held,
        );
        left = (
          omega arith,
          All-map (λ b. AreApart b chunk) (λ b. AreApart b rest) blocks
              (λ b. Apart_sub b chunk rest (omega arith) (omega arith)) s.left,
        );
        apart = (
          All-map (λ b. AreApart b chunk) (AreApart new) blocks
              (λ b h. Apart_sym b new (Apart_sub b chunk new (omega arith) (omega arith) h)) s.left,
          s.apart,
        );
        aligned = (multiple, s.aligned);
      }

  -- An answer that is refused, or is given out whole, leaves the chunk.
  asked-Sound :
      (m : Metadata) (blocks : List Block) (b : ℕ)
      → Sound k system m blocks
      → Sound k system (record m { system_bytes = b; calls = m.calls + 1 }) blocks
  asked-Sound m blocks b s =
      let chunk : Block = (m.chunk_alloc, m.chunk_avail) in
      record {
        word = s.word;
        region = elim s.region [
          | inl e ↦ inl e
          | inr w ↦ inr (
              Within-more system m.calls (m.calls + 1) chunk chunk (omega arith) (omega arith)
                (omega arith) w)
        ];
        held = held-more m.calls blocks s.held;
        left = s.left;
        apart = s.apart;
        aligned = s.aligned;
      }

  take_chunk-Sound :
      (m : Metadata) (blocks : List Block) (n : ℕ)
      → 0 < n
      → n < chunk_size
      → Sound k system m blocks
      → let r = take_chunk m n (system m.calls chunk_size) in
        Sound k system r.1 (given r.0 n blocks)
  unfolding take_chunk
  take_chunk-Sound m blocks n some_bytes less s = go (system m.calls chunk_size) refl
    where
      go :
          (o : Option (ℕ × ℕ))
          → system m.calls chunk_size ≡ o
          → Sound k system (take_chunk m n o).1 (given (take_chunk m n o).0 n blocks)
      go none e = asked-Sound m blocks m.system_bytes s
      go (some (a, r)) e =
          let (size, word, multiple) = fresh.sized m.calls chunk_size a r e in
          let m' : Metadata = record m { chunk_alloc = a; chunk_avail = r; calls = m.calls + 1 } in
          let fresh_chunk : Sound k system m' blocks = record {
            word = word;
            region = inr (answered m.calls chunk_size a r e (a, r) (omega arith) (omega arith));
            held = held-more m.calls blocks s.held;
            left =
                All-map (Within system m.calls) (λ b. AreApart b (a, r)) blocks
                  (λ b. new-apart m.calls chunk_size a r b e) s.held;
            apart = s.apart;
            aligned = s.aligned;
          } in
          let start : a + 0 ≡ a = omega arith in
          take_bytes-Sound m' blocks 0 n some_bytes (omega arith) (rw start multiple) fresh_chunk

  take_own-Sound :
      (m : Metadata) (blocks : List Block) (n : ℕ)
      → 0 < n
      → Sound k system m blocks
      → let r = take_own m n (system m.calls n) in Sound k system r.1 (given r.0 n blocks)
  unfolding take_own
  take_own-Sound m blocks n some_bytes s = go (system m.calls n) refl
    where
      own_left :
          (m.chunk_avail ≡ 0) ⊎ Within system m.calls (m.chunk_alloc, m.chunk_avail)
          → (a r n : ℕ) → system m.calls n ≡ some (a, r)
          → n ≤ r
          → AreApart (a, n) (m.chunk_alloc, m.chunk_avail)
      own_left (inl spent) a r n e size = inr (inr spent)
      own_left (inr w) a r n e size =
          let chunk : Block = (m.chunk_alloc, m.chunk_avail) in
          Apart_sym chunk (a, n)
            (Apart_sub chunk (a, r) (a, n) (omega arith) (omega arith)
              (new-apart m.calls n a r chunk e w))

      go :
          (o : Option (ℕ × ℕ))
          → system m.calls n ≡ o
          → Sound k system (take_own m n o).1 (given (take_own m n o).0 n blocks)
      go none e = asked-Sound m blocks m.system_bytes s
      go (some (a, r)) e =
          let (size, word, multiple) = fresh.sized m.calls n a r e in
          let s' = asked-Sound m blocks ((m.system_bytes + n) % 2 ^ 64) s in
          let block : Block = (a, n) in
          let own : Block = (a, r) in
          let away : All (AreApart block) blocks =
            All-map (Within system m.calls) (AreApart block) blocks
              (λ b w.
                Apart_sym b block (
                  Apart_sub b own block (omega arith) (omega arith)
                    (new-apart m.calls n a r b e w)))
              s.held in
          record {
            word = s'.word;
            region = s'.region;
            held = (answered m.calls n a r e block (omega arith) (omega arith), s'.held);
            left = (own_left s.region a r n e size, s.left);
            apart = (away, s.apart);
            aligned = (multiple, s.aligned);
          }

  meta_data_alloc-Sound :
      (m : Metadata) (blocks : List Block) (n : ℕ)
      → 0 < n
      → Sound k system m blocks
      → let r = meta_data_alloc system (2 ^ k) m n in Sound k system r.1 (given r.0 n blocks)
  unfolding meta_data_alloc
  meta_data_alloc-Sound m blocks n some_bytes s =
      let pad : ℕ = padding (2 ^ k) m.chunk_alloc in
      elim (Bool-cases (leb chunk_size n)) [
        | inl e ↦ rw e (take_own-Sound m blocks n some_bytes s)
        | inr e ↦ rw e (elim (Bool-cases (ltb m.chunk_avail (n + pad))) [
          | inl e' ↦ rw e' (take_chunk-Sound m blocks n some_bytes (ground arith) s)
          | inr e' ↦ rw e' (
              take_bytes-Sound m blocks pad n some_bytes (ltb_false→le m.chunk_avail (n + pad) e')
                (padding_lem k m.chunk_alloc small (omega (arith, s.word))) s)
        ])
      ]

  serve-Sound :
      (sizes : List ℕ) (m : Metadata) (blocks : List Block)
      → All (λ n. 0 < n) sizes
      → Sound k system m blocks
      → Sound k system
          (serve system (2 ^ k) sizes m blocks).1
          (serve system (2 ^ k) sizes m blocks).0
  serve-Sound [] m blocks h s = s
  serve-Sound (n ∷ sizes) m blocks (h, hs) s =
      let r : Option ℕ × Metadata = meta_data_alloc system (2 ^ k) m n in
      serve-Sound sizes r.1 (given r.0 n blocks) hs (meta_data_alloc-Sound m blocks n h s)

  -- The blocks that `MetaDataAlloc` gives to any requests of a byte at least, from its first state,
  -- share no byte, and each starts at a multiple of the alignment, a power of two up to 2^64. The
  -- system gives what is asked for and aligned, within 64 bits, and no byte twice.
  pub serve-PairwiseApart :
      (sizes : List ℕ)
      → All (λ n. 0 < n) sizes
      → let blocks = (serve system (2 ^ k) sizes no_metadata []).0 in
        PairwiseApart blocks × All (λ b. b.0 % 2 ^ k ≡ 0) blocks
  serve-PairwiseApart sizes h =
      let s = serve-Sound sizes no_metadata [] h (record {
        word = omega arith;
        region = inl refl;
        held = tt;
        left = tt;
        apart = tt;
        aligned = tt;
      }) in
      (s.apart, s.aligned)
