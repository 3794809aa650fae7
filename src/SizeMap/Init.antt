-- ===== src/SizeMap/Init.antt =====
-- `SizeMap::Init` as a whole: its checks, and what its map should be.
use native.Mathlib.Decide.{dec_le, dec_lt}
use gperftools.Base.{
  ℕ, zero, suc, ◌+◌, ◌-◌, ◌*◌, ◌%◌, ◌^◌, ◌≤◌, ◌<◌, ◌≡◌, arith, ◌⊎◌, some, none, inl, inr, ok, ◌>>◌,
  lt→ltb, le→ltb_false, le→leb,
}
use gperftools.SizeMap.{
  SizeMap, max_size, page_size, alignment, min_align, class_sizes_max, class_fuel, no_classes,
  class_index, Table, classes_loop, check_size, check_sizes, check_aligned, min_span_size, map_of,
  init, size_class, get_size_class,
}
use gperftools.SizeMap.Classes.{IsClass, IsTable, EndsAt, classes_loop-IsTable, visits_all}
use gperftools.SizeMap.Fill.{IsClassOf, fill_loop-Covers}
use gperftools.SizeMap.Index.{class_index_maybe-small, class_index_maybe-large}

-- What `Init` promises of the map for the transfer count `transfer_num`: every class is sound, and
-- every request up to `kMaxSize` is given the smallest class that holds it.
pub record IsSizeMap (transfer_num : ℕ) (m : SizeMap) : Type 0 where
  pub few : m.num_size_classes ≤ class_sizes_max
  pub classes :
      (c : ℕ)
      → 1 ≤ c
      → c < m.num_size_classes
      → IsClass transfer_num (m.class_to_size c) (m.class_to_pages c)
  pub increasing :
      (c : ℕ) → 1 ≤ c → suc c < m.num_size_classes → m.class_to_size c < m.class_to_size (suc c)
  pub best :
      (s : ℕ) → s ≤ max_size → IsClassOf m.num_size_classes m.class_to_size (size_class m s) s

-- The classes grow towards the last one.
IsTable-le_last :
    {transfer_num : ℕ} {t : Table} {last : ℕ}
    → IsTable transfer_num t
    → EndsAt t last
    → (n c : ℕ) → c + n ≡ t.sc - 1
    → 1 ≤ c
    → t.class_to_size c ≤ last
IsTable-le_last {t = t} valid ends zero c e lo =
    let e' : c ≡ t.sc - 1 = omega arith in rw (e', ends.ends) (omega arith)
IsTable-le_last valid ends (suc n) c e lo = omega (
  arith,
  valid.increasing c lo (omega (arith, ends.nonempty)),
  IsTable-le_last valid ends n (suc c) (omega arith) (omega arith),
)

min_span_size-whole :
    (native : ℕ) → (0 < min_span_size native) × (min_span_size native % page_size ≡ 0)
unfolding min_span_size
min_span_size-whole native = ground arith

map_of-IsSizeMap :
    {transfer_num : ℕ} {t : Table} (min_span : ℕ)
    → IsTable transfer_num t
    → EndsAt t max_size
    → t.sc ≤ class_sizes_max
    → IsSizeMap transfer_num (map_of min_span transfer_num t)
unfolding map_of size_class
map_of-IsSizeMap {t = t} min_span valid ends few = record {
  few = few;
  classes = valid.classes;
  increasing = valid.increasing;
  best = λ s h.
      fill_loop-Covers t.sc t.class_to_size (λ c lo hi. (valid.classes c lo hi).boundary)
        (λ c lo hi. IsTable-le_last valid ends (t.sc - 1 - c) c (omega arith) lo) (t.sc - 1) 1
        (λ _. 0) (omega arith) (omega (arith, ends.nonempty)) (λ s h. absurd (omega arith)) s
        ends.nonempty (omega (arith, ends.ends));
}

check_size-ok :
    (n : ℕ) (class_to_size class_array : ℕ → ℕ) (size : ℕ)
    → IsClassOf n class_to_size (class_array (class_index size)) size
    → 0 < class_to_size (class_array (class_index size))
    → check_size n class_to_size class_array size ≡ ok tt
unfolding check_size
check_size-ok n class_to_size class_array size best pos = ground (arith, best.tight)

check_sizes-ok :
    (fuel n : ℕ) (class_to_size class_array : ℕ → ℕ) (size : ℕ)
    → ((s : ℕ) → s ≤ max_size → check_size n class_to_size class_array s ≡ ok tt)
    → max_size + 8 < size + 8 * fuel
    → 0 < fuel
    → check_sizes fuel n class_to_size class_array size ≡ ok tt
unfolding check_sizes
check_sizes-ok zero n class_to_size class_array size each enough more = absurd (omega arith)
check_sizes-ok (suc fuel) n class_to_size class_array size each enough more =
    elim (dec_lt max_size size) [
      | yes h ↦ rw (lt→ltb max_size size h)
      | no h ↦
          rw (le→ltb_false max_size size (omega arith), each size (omega arith))
            (check_sizes-ok fuel n class_to_size class_array _ each (ground arith) (omega arith))
    ]

-- The classes that the loop over the sizes chooses.
record Chosen (native transfer_num : ℕ) (t : Table) : Type 0 where
  run : classes_loop class_fuel (min_span_size native) transfer_num alignment no_classes ≡ ok t
  valid : IsTable transfer_num t
  ends : EndsAt t max_size
  few : t.sc ≤ class_sizes_max

min_span_size-short : (native : ℕ) → native < 2 ^ 63 → min_span_size native < 2 ^ 63
unfolding min_span_size
min_span_size-short native h = ground arith

choose :
    (native transfer_num : ℕ)
    → native < 2 ^ 63
    → (transfer_num < 2 ^ 31) ⊎ ((2 ^ 32 - 4 < transfer_num) × (transfer_num < 2 ^ 32))
    → (t : Table) × Chosen native transfer_num t
choose native transfer_num short positive =
    let (span, whole) = min_span_size-whole native in
    let (t, run, valid, ends, few) =
      classes_loop-IsTable (min_span_size native) transfer_num span
        (min_span_size-short native short) positive whole 105 class_fuel alignment no_classes
        visits_all (omega arith) (omega arith) none_yet (λ h. absurd (omega arith)) in
    (t, record { run = run; valid = valid; ends = ends; few = omega arith })
  where
    none_yet : IsTable transfer_num no_classes
    none_yet = record {
      started = omega arith;
      classes = λ c lo hi. absurd (omega arith);
      increasing = λ c lo hi. absurd (omega arith);
    }

module _ {native transfer_num : ℕ} {t : Table} (chosen : Chosen native transfer_num t) where
  abbrev built : SizeMap
  built = map_of (min_span_size native) transfer_num t

  built-IsSizeMap : IsSizeMap transfer_num built
  built-IsSizeMap = map_of-IsSizeMap (min_span_size native) chosen.valid chosen.ends chosen.few

  built-checked :
      check_sizes class_fuel built.num_size_classes built.class_to_size built.class_array 0 ≡ ok tt
  built-checked =
      check_sizes-ok class_fuel built.num_size_classes built.class_to_size built.class_array 0 each
        (omega arith) (omega arith)
    where
      each :
          (s : ℕ)
          → s ≤ max_size
          → check_size built.num_size_classes built.class_to_size built.class_array s ≡ ok tt
      each s h =
          let best : IsClassOf built.num_size_classes built.class_to_size
              (built.class_array (class_index s)) s =
            unfold size_class in built-IsSizeMap.best s h in
          let of_class =
            built-IsSizeMap.classes (built.class_array (class_index s)) best.least best.most in
          check_size-ok built.num_size_classes built.class_to_size built.class_array s best
            of_class.positive

  init-built :
      init native transfer_num
      ≡ (check_aligned 10 min_align built.class_to_size built.class_array >> ok built)
  unfolding init class_index
  init-built = rw (chosen.run, le→leb t.sc class_sizes_max chosen.few, built-checked)

-- `SizeMap::Init` runs to its last check, for every page size of the system below 2^63, which a
-- `long long` that is not negative is, and every transfer count, the bits of an `int32_t`, that is
-- above -4: no earlier check crashes and each loop ends. What is left is the check that class sizes
-- keep the alignments; if it passes, `Init` returns a map in which there are at most 128 classes,
-- each class and its span are sound, class sizes increase up to `kMaxSize`, and every request up
-- to `kMaxSize` has the smallest class that holds it.
pub init-IsSizeMap :
    (native_page_size transfer_num : ℕ)
    → native_page_size < 2 ^ 63
    → (transfer_num < 2 ^ 31) ⊎ ((2 ^ 32 - 4 < transfer_num) × (transfer_num < 2 ^ 32))
    → (m : SizeMap) × (init native_page_size transfer_num
        ≡ (check_aligned 10 min_align m.class_to_size m.class_array >> ok m))
      × IsSizeMap transfer_num m
      × (m.class_to_size (m.num_size_classes - 1) ≡ max_size)
init-IsSizeMap native transfer_num short positive =
    let (t, chosen) = choose native transfer_num short positive in
    (
      map_of (min_span_size native) transfer_num t,
      init-built chosen,
      built-IsSizeMap chosen,
      unfold map_of in chosen.ends.ends,
    )

-- Through `GetSizeClass`, a sound map serves a request exactly when it is at most `kMaxSize`, and
-- then with the smallest class that holds it.
pub get_size_class_lem :
    {transfer_num : ℕ} {m : SizeMap} (size : ℕ)
    → IsSizeMap transfer_num m
    → ((size ≤ max_size)
        × (c : ℕ) × (get_size_class m size ≡ some c)
        × IsClassOf m.num_size_classes m.class_to_size c size)
      ⊎ ((max_size < size) × (get_size_class m size ≡ none))
unfolding get_size_class
get_size_class_lem {m = m} size valid = elim (dec_le size max_size) [
  | yes h ↦ inl (
    h,
    size_class m size,
    unfold size_class in rw (class_index_maybe-small size h),
    valid.best size h,
  )
  | no h ↦ inr (omega arith, rw (class_index_maybe-large size (omega arith)))
]
