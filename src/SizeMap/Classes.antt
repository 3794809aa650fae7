-- ===== src/SizeMap/Classes.antt =====
-- The loop of `SizeMap::Init` that chooses the size classes.
use gperftools.Base.{
  ℕ, zero, suc, ◌+◌, ◌-◌, ◌*◌, ◌/◌, ◌%◌, ◌^◌, ◌≤◌, ◌<◌, ◌≡◌, ◌⊎◌, refl, ap, ◌∙◌, inl, inr, Bool,
  true, false, ◌==◌, Bool-cases, arith, ok, leb, ◌||◌, ◌&&◌, update, ==_iff, le→ltb_false, lt→ltb,
}
use gperftools.SizeMap.{
  max_size, page_shift, page_size, alignment, num_move_size, blocks_to_move, raw_alignment,
  cap_alignment, fit_span, fit_fuel, lg_floor, Table, merges, add_size, classes_loop,
}
use gperftools.SizeMap.Align.{alignment_for_size-capped, capped-pos}
use gperftools.SizeMap.Pages.{Fits, Fitted, fit_span_lem}

-- A size at which a class may end: the index of `class_array` moves on right after it.
pub record IsBoundary (s : ℕ) : Type 0 where
  pub eights : s % 8 ≡ 0
  pub large : 1024 < s → s % 128 ≡ 0

-- A class of `size` bytes whose spans have `my_pages` pages.
pub record IsClass (transfer_num size my_pages : ℕ) : Type 0 where
  pub positive : 0 < size
  pub boundary : IsBoundary size
  pub fits :
      Fits size (blocks_to_move (num_move_size transfer_num size)) (my_pages * 2 ^ page_shift)

-- The classes that a table holds so far, for the transfer count `transfer_num`.
pub record IsTable (transfer_num : ℕ) (t : Table) : Type 0 where
  pub started : 1 ≤ t.sc
  pub classes :
      (c : ℕ) → 1 ≤ c → c < t.sc → IsClass transfer_num (t.class_to_size c) (t.class_to_pages c)
  pub increasing : (c : ℕ) → 1 ≤ c → suc c < t.sc → t.class_to_size c < t.class_to_size (suc c)

-- The last class ends at `last`.
pub record EndsAt (t : Table) (last : ℕ) : Type 0 where
  pub nonempty : 1 < t.sc
  pub ends : t.class_to_size (t.sc - 1) ≡ last

-- `t'` is `t` with a class that ends at `size`, new or grown.
record Extends (transfer_num : ℕ) (t : Table) (size : ℕ) (t' : Table) : Type 0 where
  valid : IsTable transfer_num t'
  least : t.sc ≤ t'.sc
  most : t'.sc ≤ t.sc + 1
  last : EndsAt t' size

module _ {transfer_num : ℕ} {t : Table} (valid : IsTable transfer_num t) (size my_pages : ℕ)
    (above : 1 < t.sc → t.class_to_size (t.sc - 1) < size)
    (new : IsClass transfer_num size my_pages) where
  grown-IsClass :
      my_pages ≡ t.class_to_pages (t.sc - 1)
      → (c : ℕ) → 1 ≤ c
      → c < t.sc
      → IsClass transfer_num (update t.class_to_size (t.sc - 1) size c) (t.class_to_pages c)
  grown-IsClass same c lo hi = elim (Bool-cases (c == t.sc - 1)) [
    | inl e ↦ rw (e, (==_iff c (t.sc - 1)).0 e, ← same) new
    | inr e ↦ rw e (valid.classes c lo hi)
  ]

  new-IsClass :
      (c : ℕ)
      → 1 ≤ c
      → c < t.sc + 1
      → IsClass transfer_num
          (update t.class_to_size t.sc size c)
          (update t.class_to_pages t.sc my_pages c)
  new-IsClass c lo hi = elim (Bool-cases (c == t.sc)) [
    | inl e ↦ rw e new
    | inr e ↦ rw e (valid.classes c lo (ground arith))
  ]

  add_size-Extends : Extends transfer_num t size (add_size t size my_pages)
  unfolding add_size
  add_size-Extends = elim (Bool-cases (merges t size my_pages)) [
    | inl e ↦
        let several : 1 < t.sc = unfold merges in ground arith in
        let same : my_pages ≡ t.class_to_pages (t.sc - 1) = unfold merges in ground arith in
        rw e (record {
          valid = record {
            started = valid.started;
            classes = grown-IsClass same;
            increasing = λ c lo hi. ground (arith, valid.increasing c, above);
          };
          least = omega arith;
          most = omega arith;
          last = record { nonempty = several; ends = ground arith };
        })
    | inr e ↦ rw e (record {
      valid = record {
        started = omega (arith, valid.started);
        classes = new-IsClass;
        increasing = λ c lo hi. ground (arith, valid.increasing c, above);
      };
      least = omega arith;
      most = omega arith;
      last = record { nonempty = omega (arith, valid.started); ends = ground arith };
    })
  ]

-- The sizes that the loop visits from `size` on, at most n of them, end with `kMaxSize`, and each
-- is a boundary and a multiple of its own alignment.
pub visits : ℕ → ℕ → Bool
visits zero size = false
visits (suc n) size =
    let a = cap_alignment (raw_alignment size) in
    leb size max_size
    && size % a == 0
    && size % 8 == 0
    && (leb size 1024 || size % 128 == 0)
    && (size == max_size || visits n (size + a))

pub visits_all : visits 105 alignment ≡ true
unfolding visits cap_alignment raw_alignment lg_floor
visits_all = refl

-- What the check of the visited sizes says of the first of them.
record Visit (size : ℕ) : Type 0 where
  small : size ≤ max_size
  aligned : (size % cap_alignment (raw_alignment size) == 0) ≡ true
  boundary : IsBoundary size

visits-Visit :
    (n size : ℕ)
    → visits (suc n) size ≡ true
    → Visit size
      × ((size ≡ max_size) ⊎ (visits n (size + cap_alignment (raw_alignment size)) ≡ true))
unfolding visits
visits-Visit n size h = ground arith

whole_multiple : (n m : ℕ) → m % page_size ≡ 0 → (0 + n * m) % page_size ≡ 0
whole_multiple n m h =
    let e : m ≡ m / page_size * page_size = omega arith in omega (arith, ap (λ (t : ℕ). n * t) e)

few_blocks :
    (transfer_num size : ℕ)
    → (transfer_num < 2 ^ 31) ⊎ ((2 ^ 32 - 4 < transfer_num) × (transfer_num < 2 ^ 32))
    → blocks_to_move (num_move_size transfer_num size) ≤ 16384
unfolding blocks_to_move num_move_size
few_blocks transfer_num size h = ground arith

-- A span with so many blocks is far below the end of the addresses.
blocks-fit :
    (transfer_num size min_span : ℕ)
    → (transfer_num < 2 ^ 31) ⊎ ((2 ^ 32 - 4 < transfer_num) × (transfer_num < 2 ^ 32))
    → size ≤ max_size
    → min_span < 2 ^ 63
    → (8 + blocks_to_move (num_move_size transfer_num size)) * size + min_span ≤ 2 ^ 64
blocks-fit transfer_num size min_span positive small short =
    go (blocks_to_move (num_move_size transfer_num size)) (few_blocks transfer_num size positive)
  where
    go : (b : ℕ) → b ≤ 16384 → (8 + b) * size + min_span ≤ 2 ^ 64
    go b h = let low : (8 + b) * size ≤ 16392 * max_size = grind arith in omega arith

module _ (min_span transfer_num : ℕ) where
  classes_loop-end :
      (fuel size : ℕ) (t : Table)
      → 0 < fuel
      → max_size < size
      → classes_loop fuel min_span transfer_num size t ≡ ok t
  unfolding classes_loop
  classes_loop-end zero size t h big = absurd (omega arith)
  classes_loop-end (suc fuel) size t h big = rw (lt→ltb max_size size big)

  abbrev after : ℕ → Table → ℕ → Table
  after size t psize = add_size t size (psize / 2 ^ page_shift)

  classes_loop-step :
      (fuel size psize : ℕ) (t : Table)
      → Visit size
      → (let blocks = blocks_to_move (num_move_size transfer_num size) in
          fit_span (fit_fuel size blocks) min_span size blocks 0 ≡ ok psize)
      → classes_loop (suc fuel) min_span transfer_num size t
        ≡ classes_loop fuel min_span transfer_num
            (size + cap_alignment (raw_alignment size))
            (after size t psize)
  unfolding classes_loop
  classes_loop-step fuel size psize t v run =
      rw (le→ltb_false max_size size v.small, alignment_for_size-capped size, v.aligned, run)

  module _ (span : 0 < min_span) (short : min_span < 2 ^ 63)
      (positive : (transfer_num < 2 ^ 31) ⊎ ((2 ^ 32 - 4 < transfer_num) × (transfer_num < 2 ^ 32)))
      (whole : min_span % page_size ≡ 0) where
    Fitted-IsClass :
        {size psize : ℕ}
        → 0 < size
        → Visit size
        → Fitted min_span size (blocks_to_move (num_move_size transfer_num size)) 0 psize
        → IsClass transfer_num size (psize / 2 ^ page_shift)
    Fitted-IsClass {size} {psize} pos v f = record {
      positive = pos;
      boundary = v.boundary;
      fits = rw (← exact) f.fits;
    }
      where
        whole_pages : psize % page_size ≡ 0
        whole_pages = rw f.reached (whole_multiple (suc f.steps) min_span whole)

        exact : psize ≡ psize / 2 ^ page_shift * 2 ^ page_shift
        exact = omega (arith, whole_pages)

    pub classes_loop-IsTable :
        (n fuel size : ℕ) (t : Table)
        → visits n size ≡ true
        → n < fuel
        → 0 < size
        → IsTable transfer_num t
        → (1 < t.sc → t.class_to_size (t.sc - 1) < size)
        → (r : Table) × (classes_loop fuel min_span transfer_num size t ≡ ok r)
          × IsTable transfer_num r
          × EndsAt r max_size
          × (r.sc ≤ t.sc + n)
    classes_loop-IsTable zero fuel size t h enough pos valid above = absurd (unfold visits in cc)
    classes_loop-IsTable (suc n) zero size t h enough pos valid above = absurd (omega arith)
    classes_loop-IsTable (suc n) (suc fuel) size t h enough pos valid above =
        let a : ℕ = cap_alignment (raw_alignment size) in
        let (v, rest) = visits-Visit n size h in
        let (psize, run, f) =
          fit_span_lem min_span size (blocks_to_move (num_move_size transfer_num size)) span pos
            (blocks-fit transfer_num size min_span positive v.small short) in
        let x =
          add_size-Extends valid size (psize / 2 ^ page_shift) above (Fitted-IsClass pos v f) in
        let t' : Table = after size t psize in
        let more = capped-pos size in
        rw (classes_loop-step fuel size psize t v run) (elim rest [
          | inl e ↦ (
            t',
            classes_loop-end fuel (size + a) t' (omega arith) (omega arith),
            x.valid,
            record { nonempty = x.last.nonempty; ends = x.last.ends ∙ e },
            omega (arith, x.most),
          )
          | inr h' ↦
              let (r, run', valid', last, few) =
                classes_loop-IsTable n fuel (size + a) t' h' (omega arith) (omega arith) x.valid
                  (λ _. omega (arith, x.last.ends)) in
              (r, run', valid', last, omega (arith, x.most))
        ])
