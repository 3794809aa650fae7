-- ===== src/PageHeap/Aligned.antt =====
-- `NewAligned`, the constructor, the cached size classes, the statistics and the checks of the heap.
use gperftools.Base.{
  ℕ, zero, suc, ◌+◌, ◌-◌, ◌^◌, Bool, true, false, ◌||◌, Option, none, some, List, [], ◌∷◌, length,
  ltb, leb, ◌==◌, if◌then◌else◌, bit_and, Outcome, ok, crash, out_of_fuel, ◌>>=◌, ◌>>◌, check,
}
use gperftools.PackedCache
use gperftools.PageHeap.{
  PageHeap, System, Config, Location, on_normal_freelist, on_returned_freelist, max_pages, add64,
  sub64, bytes, same_location, get_descriptor, fresh_span,
}
use gperftools.PageHeap.Release.{delete_locked}
use gperftools.PageHeap.Search.{split}
use gperftools.PageHeap.Grow.{round_up_size, new_locked, new_with_size_class, invalidate_cached}

-- The constructor: zeroed counters, empty lists and an empty cache.
unfoldable pub new_heap : ℕ → Outcome PageHeap
new_heap smallest_span_size = do
  check (bit_and smallest_span_size (sub64 smallest_span_size 1) == 0)
  ok (record {
    spans = λ id. fresh_span 0 0;
    freed_spans = [];
    next_span = 0;
    pagemap = λ p. none;
    normal = λ i. [];
    returned = λ i. [];
    large_normal = [];
    large_returned = [];
    stats = record {
      system_bytes = 0;
      free_bytes = 0;
      unmapped_bytes = 0;
      committed_bytes = 0;
      scavenge_count = 0;
      commit_count = 0;
      total_commit_bytes = 0;
      decommit_count = 0;
      total_decommit_bytes = 0;
      reserve_count = 0;
      total_reserve_bytes = 0;
    };
    scavenge_counter = 0;
    release_index = max_pages;
    aggressive_decommit = false;
    cache = PackedCache.clear;
    releases = 0;
    allocs = 0;
  })

-- `TryGetSizeClass`, `SetCachedSizeClass` and `GetSizeClassOrZero`
unfoldable pub try_get_size_class : PageHeap → ℕ → Option ℕ
try_get_size_class h p = PackedCache.try_get h.cache p

unfoldable pub set_cached_size_class : PageHeap → ℕ → ℕ → PageHeap
set_cached_size_class h p cl = record h { cache = PackedCache.put h.cache p cl }

unfoldable pub get_size_class_or_zero : PageHeap → ℕ → ℕ
unfolding try_get_size_class
get_size_class_or_zero h p = elim (try_get_size_class h p) [ none ↦ 0 | some cl ↦ cl ]

-- The test of the loop of `NewAligned` that skips pages.
unfoldable pub is_aligned : ℕ → ℕ → ℕ → Bool
is_aligned start align_bytes skip = bit_and (bytes (start + skip)) (sub64 align_bytes 1) == 0

unfoldable pub skip_loop : ℕ → ℕ → ℕ → ℕ → Outcome ℕ
skip_loop zero start align_bytes skip = out_of_fuel
skip_loop (suc fuel) start align_bytes skip =
    let rest = skip_loop fuel start align_bytes (skip + 1) in
    if is_aligned start align_bytes skip then ok skip else rest

module _ (system : System) (config : Config) where
  -- `Delete`
  unfoldable pub delete : PageHeap → ℕ → PageHeap
  delete h id = delete_locked system config h id

  -- The two parts of `NewAligned` that give pages back: those skipped, and those after the span.
  unfoldable pub drop_front : PageHeap → ℕ → ℕ → ℕ × PageHeap
  drop_front h id skip =
      let (rest, h') = split h id skip in
      if ltb 0 skip then (rest, delete_locked system config h' id) else (id, h)

  unfoldable pub drop_back : PageHeap → ℕ → ℕ → PageHeap
  drop_back h id n =
      let (trailer, h') = split h id n in
      if ltb n (h.spans id).length then delete_locked system config h' trailer else h

  -- The rest of `NewAligned`, with a span of `alloc` pages.
  unfoldable pub align_span : PageHeap → ℕ → ℕ → ℕ → Outcome (Option ℕ × PageHeap)
  unfolding drop_front drop_back
  align_span h id n align_pages = do
    skip ← skip_loop (align_pages + 1) (h.spans id).start (bytes align_pages) 0
    let front = drop_front h id skip
    let h' = drop_back front.1 front.0 n
    ok (some front.0, invalidate_cached h' (h'.spans front.0).start)

  -- `NewAligned`. On overflow it asks for more than there can be, which must fail.
  unfoldable pub new_aligned : PageHeap → ℕ → ℕ → Outcome (Option ℕ × PageHeap)
  unfolding align_span
  new_aligned h n align_pages =
      let n' = round_up_size config.smallest_span_size n in
      let alloc = add64 n' align_pages in
      let (got, h') = new_locked system config h alloc in
      elim (ltb alloc n' || ltb alloc align_pages) [
        | true ↦
            let (huge, h'') = new_with_size_class system config h (2 ^ 64 - 1) 0 in
            elim huge [ some _ ↦ crash | none ↦ ok (none, h'') ]
        | false ↦ elim got [ none ↦ ok (none, h') | some id ↦ align_span h' id n' align_pages ]
      ]

-- `GetSmallSpanStatsLocked`: the spans of each length, normal and returned.
unfoldable pub small_span_stats : PageHeap → ℕ → ℕ × ℕ
small_span_stats h i = (length (h.normal i), length (h.returned i))

unfoldable pub total_pages : PageHeap → List ℕ → ℕ
total_pages h [] = 0
total_pages h (x ∷ xs) = (h.spans x).length + total_pages h xs

-- `GetLargeSpanStatsLocked`: the spans, and their normal and returned pages.
unfoldable pub large_span_stats : PageHeap → ℕ × ℕ × ℕ
unfolding total_pages
large_span_stats h = (
  length h.large_normal + length h.large_returned,
  total_pages h h.large_normal,
  total_pages h h.large_returned,
)

abbrev pub describes : PageHeap → ℕ → ℕ → Bool
describes h page id = elim (get_descriptor h page) [ none ↦ false | some x ↦ x == id ]

-- The body of `CheckList` and `CheckSet` for a span.
unfoldable pub check_span : PageHeap → ℕ → ℕ → Location → ℕ → Outcome (Unit {0})
check_span h least most freelist id = do
  let s = h.spans id
  check (same_location s.location freelist)
  check (leb least s.length)
  check (leb s.length most)
  check (describes h s.start id)
  check (describes h (s.start + s.length - 1) id)

-- `CheckList`
unfoldable pub check_list : PageHeap → ℕ → ℕ → Location → List ℕ → Outcome (Unit {0})
unfolding check_span
check_list h least most freelist [] = ok tt
check_list h least most freelist (x ∷ xs) = do
  check_span h least most freelist x
  check_list h least most freelist xs

-- `CheckSet`: no bound from above.
abbrev pub check_set : PageHeap → ℕ → Location → List ℕ → Outcome (Unit {0})
check_set h least freelist spans = check_list h least (2 ^ 64 - 1) freelist spans

-- The loop of `CheckExpensive` over the lengths from `s` on, with the rounds left.
unfoldable pub check_lists : ℕ → PageHeap → ℕ → Outcome (Unit {0})
check_lists zero h s = ok tt
check_lists (suc rounds) h s = do
  check_list h s s on_normal_freelist (h.normal (s - 1))
  check_list h s s on_returned_freelist (h.returned (s - 1))
  check_lists rounds h (s + 1)

-- `CheckExpensive`
unfoldable pub check_expensive : PageHeap → Outcome (Unit {0})
unfolding check_lists
check_expensive h = do
  check_set h (max_pages + 1) on_normal_freelist h.large_normal
  check_set h (max_pages + 1) on_returned_freelist h.large_returned
  check_lists max_pages h 1
