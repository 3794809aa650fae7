-- ===== src/SizeMap.antt =====
-- `SizeMap` of src/common.h and src/common.cc: size classes and the tables that map a request to
-- its class. Sizes are byte counts; `kPageShift` is 13, `kMinAlign` is 16 (the 64-bit defaults).
-- An array is a function of its index. `transfer_num` stands for the 32 bits of
-- FLAGS_tcmalloc_transfer_num_objects, and `native_page_size` for what `getpagesize` or the
-- override in the environment gives.
pub mod Log
pub mod Align
pub mod Pages
pub mod Classes
pub mod Index
pub mod Fill
pub mod Init
pub mod Endless
use mathlib.Core.Option
use gperftools.Base.{
  ℕ, zero, suc, ◌+◌, ◌-◌, ◌*◌, ◌/◌, ◌%◌, ◌^◌, max, bit_and, Bool, true, false, ◌&&◌, ◌||◌, not,
  Option, none, some, ltb, leb, ◌==◌, if◌then◌else◌, update, Outcome, ok, crash, out_of_fuel, ◌>>=◌,
  ◌>>◌, check,
}

abbrev pub page_shift : ℕ
page_shift = 13

abbrev pub page_size : ℕ
page_size = 8192

abbrev pub max_size : ℕ
max_size = 262144

abbrev pub alignment : ℕ
alignment = 8

abbrev pub min_align : ℕ
min_align = 16

abbrev pub class_sizes_max : ℕ
class_sizes_max = 128

abbrev pub max_small_size : ℕ
max_small_size = 1024

-- `pages`: bytes to pages, rounded up.
unfoldable pub pages : ℕ → ℕ
pages bytes = bytes / 2 ^ page_shift + (if ltb 0 (bit_and bytes (page_size - 1)) then 1 else 0)

-- The loop of `LgFloor`, with `k` rounds left: `i` is k - 1.
unfoldable pub lg_loop : ℕ → ℕ → ℕ → ℕ
lg_loop zero n log = log
lg_loop (suc i) n log =
    let x = n / 2 ^ (2 ^ i) in
    lg_loop i (if x == 0 then n else x) (if x == 0 then log else log + 2 ^ i)

unfoldable pub lg_floor : ℕ → ℕ
unfolding lg_loop
lg_floor n = lg_loop 5 n 0

-- The three branches of `AlignmentForSize`, and its cap at a page.
unfoldable pub raw_alignment : ℕ → ℕ
raw_alignment size =
    if ltb max_size size
    then page_size
    else if leb 128 size
    then 2 ^ lg_floor size / 8
    else if leb min_align size
    then min_align
    else alignment

unfoldable pub cap_alignment : ℕ → ℕ
cap_alignment a = if ltb page_size a then page_size else a

unfoldable pub alignment_for_size : ℕ → Outcome ℕ
unfolding raw_alignment cap_alignment lg_floor
alignment_for_size size = do
  let a = cap_alignment (raw_alignment size)
  check (ltb size min_align || leb min_align a)
  check (bit_and a (a - 1) == 0)
  ok a

-- `SizeMap::NumMoveSize`. The quotient of the doubles is exact enough for the cast to be the
-- quotient of the integers. The transfer count and the result are the 32 bits of an `int`, so that
-- a count from 2^31 on is negative.
unfoldable pub num_move_size : ℕ → ℕ → ℕ
num_move_size transfer_num size =
    if size == 0
    then 0
    else let num = 65536 / size in
      let at_least = if ltb num 2 then 2 else num in
      if leb (2 ^ 31) transfer_num || ltb transfer_num at_least then transfer_num else at_least

-- `NumMoveSize(size) / 4`, which rounds towards 0, as the `size_t` that `Init` compares it as.
unfoldable pub blocks_to_move : ℕ → ℕ
blocks_to_move num = if ltb num (2 ^ 31) then num / 4 else (2 ^ 64 - (2 ^ 32 - num) / 4) % 2 ^ 64

-- The smallest span in bytes, from the system's page size.
unfoldable pub min_span_size : ℕ → ℕ
min_span_size native_page_size =
    let size = max native_page_size page_size in
    if ltb page_size size && not (size % page_size == 0) then page_size else size

-- The do-while loop of `Init` with the loop inside it: both add a smallest span, first while the
-- rest of the span is over an eighth of it, then while it holds too few objects.
unfoldable pub fit_span : ℕ → ℕ → ℕ → ℕ → ℕ → Outcome ℕ
fit_span zero min_span size blocks psize = out_of_fuel
fit_span (suc fuel) min_span size blocks psize =
    let p = (psize + min_span) % 2 ^ 64 in
    let rest = fit_span fuel min_span size blocks p in
    if ltb (p / 8) (p % size) then rest else if ltb (p / size) blocks then rest else ok p

-- More rounds than the loop can make: eight objects leave a rest below an eighth.
unfoldable pub fit_fuel : ℕ → ℕ → ℕ
fit_fuel size blocks = (8 + blocks) * size + 1

-- `sc` is the next class to assign.
pub record Table : Type 0 where
  pub sc : ℕ
  pub class_to_size : ℕ → ℕ
  pub class_to_pages : ℕ → ℕ

-- The size joins the previous class if that has as many pages and as many objects.
unfoldable pub merges : Table → ℕ → ℕ → Bool
merges t size my_pages =
    ltb 1 t.sc
    && my_pages == t.class_to_pages (t.sc - 1)
    && my_pages * 2 ^ page_shift / size
      == t.class_to_pages (t.sc - 1) * 2 ^ page_shift / t.class_to_size (t.sc - 1)

unfoldable pub add_size : Table → ℕ → ℕ → Table
unfolding merges
add_size t size my_pages =
    if merges t size my_pages
    then record t { class_to_size = update t.class_to_size (t.sc - 1) size }
    else record {
      sc = t.sc + 1;
      class_to_size = update t.class_to_size t.sc size;
      class_to_pages = update t.class_to_pages t.sc my_pages;
    }

-- The loop of `Init` over the sizes.
unfoldable pub classes_loop : ℕ → ℕ → ℕ → ℕ → Table → Outcome Table
classes_loop zero min_span transfer_num size t = out_of_fuel
classes_loop (suc fuel) min_span transfer_num size t =
    let rest = do
      a ← alignment_for_size size
      check (size % a == 0)
      let blocks = blocks_to_move (num_move_size transfer_num size)
      psize ← fit_span (fit_fuel size blocks) min_span size blocks 0
      classes_loop fuel min_span transfer_num (size + a) (add_size t size (psize / 2 ^ page_shift))
    in if ltb max_size size then ok t else rest

-- `ClassIndexMaybe`
unfoldable pub class_index_maybe : ℕ → Option ℕ
class_index_maybe s =
    if leb s max_small_size
    then some ((s % 2 ^ 32 + 7) % 2 ^ 32 / 8)
    else if leb s max_size
    then some ((s % 2 ^ 32 + 127 + 120 * 128) % 2 ^ 32 / 128)
    else none

-- `ClassIndex`
unfoldable pub class_index : ℕ → ℕ
class_index s =
    if leb s max_small_size
    then (s % 2 ^ 32 + 7) % 2 ^ 32 / 8
    else (s % 2 ^ 32 + 127 + 120 * 128) % 2 ^ 32 / 128

abbrev pub class_array_size : ℕ
class_array_size = (max_size + 127 + 120 * 128) / 128 + 1

-- for (s = next_size; s <= max_size_in_class; s += kAlignment), with the rounds counted.
unfoldable pub fill_class : ℕ → ℕ → ℕ → (ℕ → ℕ) → ℕ → ℕ
fill_class zero s c class_array = class_array
fill_class (suc rounds) s c class_array =
    fill_class rounds (s + alignment) c (update class_array (class_index s) c)

unfoldable pub fill_rounds : ℕ → ℕ → ℕ
fill_rounds next_size max_in_class = (max_in_class + alignment - next_size) / alignment

-- for (c = 1; c < num_size_classes; c++), with the rounds counted.
unfoldable pub fill_loop : ℕ → ℕ → ℕ → (ℕ → ℕ) → (ℕ → ℕ) → ℕ → ℕ
unfolding fill_rounds
fill_loop zero c next_size class_to_size class_array = class_array
fill_loop (suc rounds) c next_size class_to_size class_array =
    fill_loop rounds (c + 1) (class_to_size c + alignment) class_to_size
      (fill_class (fill_rounds next_size (class_to_size c)) next_size c class_array)

-- One round of the loop that double-checks the sizes: the class of `size` is a class, it is large
-- enough, and the class before it is not.
unfoldable pub check_size : ℕ → (ℕ → ℕ) → (ℕ → ℕ) → ℕ → Outcome (Unit {0})
check_size num_size_classes class_to_size class_array size = do
  let sc = class_array (class_index size)
  check (ltb 0 sc && ltb sc num_size_classes)
  check (not (ltb 1 sc && leb size (class_to_size (sc - 1))))
  check (not (ltb (class_to_size sc) size || class_to_size sc == 0))

unfoldable pub check_sizes : ℕ → ℕ → (ℕ → ℕ) → (ℕ → ℕ) → ℕ → Outcome (Unit {0})
check_sizes zero num_size_classes class_to_size class_array size = out_of_fuel
check_sizes (suc fuel) num_size_classes class_to_size class_array size =
    let rest = do
      check_size num_size_classes class_to_size class_array size
      check_sizes fuel num_size_classes class_to_size class_array
          (if leb size max_small_size then size + 8 else size + 128)
    in if ltb max_size size then ok tt else rest

-- for (size = align; size < kPageSize; size += align), with the rounds counted.
unfoldable pub check_multiples : ℕ → ℕ → ℕ → (ℕ → ℕ) → (ℕ → ℕ) → Outcome (Unit {0})
check_multiples zero align size class_to_size class_array = ok tt
check_multiples (suc rounds) align size class_to_size class_array = do
  check (class_to_size (class_array (class_index size)) % align == 0)
  check_multiples rounds align (size + align) class_to_size class_array

-- for (align = kMinAlign; align <= kPageSize; align <<= 1): ten rounds.
unfoldable pub check_aligned : ℕ → ℕ → (ℕ → ℕ) → (ℕ → ℕ) → Outcome (Unit {0})
check_aligned zero align class_to_size class_array = ok tt
check_aligned (suc rounds) align class_to_size class_array = do
  check_multiples (page_size / align - 1) align align class_to_size class_array
  check_aligned rounds (align * 2) class_to_size class_array

pub record SizeMap : Type 0 where
  pub num_size_classes : ℕ
  pub class_to_size : ℕ → ℕ
  pub class_to_pages : ℕ → ℕ
  pub class_array : ℕ → ℕ
  pub num_objects_to_move : ℕ → ℕ
  pub min_span_size_in_pages : ℕ

-- The tables before `Init` runs: the object is a zeroed static.
abbrev pub no_classes : Table
no_classes = record { sc = 1; class_to_size = λ _. 0; class_to_pages = λ _. 0 }

-- The loops over the sizes make at most one round for each multiple of 8, and one to stop.
abbrev pub class_fuel : ℕ
class_fuel = max_size / alignment + 2

-- The tables that `Init` fills from the chosen classes.
unfoldable pub map_of : ℕ → ℕ → Table → SizeMap
map_of min_span transfer_num t = record {
  num_size_classes = t.sc;
  class_to_size = t.class_to_size;
  class_to_pages = t.class_to_pages;
  class_array = fill_loop (t.sc - 1) 1 0 t.class_to_size (λ _. 0);
  num_objects_to_move =
      λ cl. if leb 1 cl && ltb cl t.sc then num_move_size transfer_num (t.class_to_size cl) else 0;
  min_span_size_in_pages = min_span / page_size;
}

-- `SizeMap::Init`
unfoldable pub init : ℕ → ℕ → Outcome SizeMap
unfolding map_of
init native_page_size transfer_num = do
  let min_span = min_span_size native_page_size
  check (class_index 0 == 0)
  check (ltb (class_index max_size) class_array_size)
  t ← classes_loop class_fuel min_span transfer_num alignment no_classes
  check (leb t.sc class_sizes_max)
  let m = map_of min_span transfer_num t
  check_sizes class_fuel m.num_size_classes m.class_to_size m.class_array 0
  check_aligned 10 min_align m.class_to_size m.class_array
  ok m

-- `GetSizeClass`: the class of a request, if it is small enough for one.
unfoldable pub get_size_class : SizeMap → ℕ → Option ℕ
get_size_class m size = Option.map m.class_array (class_index_maybe size)

-- `SizeClass`
unfoldable pub size_class : SizeMap → ℕ → ℕ
size_class m size = m.class_array (class_index size)
