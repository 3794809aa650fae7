-- ===== src/Tests.antt =====
-- Runs of the models on small inputs, and the theorems applied to them.
mod Backend
mod Entry
mod Profile
mod Debug
use gperftools.Base.{
  Bool, ◌≢◌, ℕ, ◌+◌, ◌-◌, ◌*◌, ◌/◌, ◌^◌, ◌%◌, ◌≤◌, ◌<◌, ◌≡◌, ◌⊎◌, refl, arith, true, false, none,
  inl, out_of_fuel, some, List, [], ◌∷◌, ◌==◌, if◌then◌else◌, ok, ◌>>◌,
}
use gperftools.SizeMap.{
  SizeMap, init, lg_floor, alignment_for_size, fit_span, fit_fuel, get_size_class, check_aligned,
  min_align, max_size, min_span_size, blocks_to_move, num_move_size,
}
use gperftools.SizeMap.Log.{lg_floor_lem}
use gperftools.SizeMap.Align.{Aligns, alignment_for_size_lem}
use gperftools.SizeMap.Fill.{IsClassOf}
use gperftools.SizeMap.Endless.{init-endless}
use gperftools.SizeMap.Init.{IsSizeMap, init-IsSizeMap, get_size_class_lem}
use gperftools.PackedCache.{Op, puts, invalidates, run, try_get, read_entry}
use gperftools.PackedCache.Entry.{read_entry_lem}
use gperftools.PackedCache.Refine.{recall, try_get-run}
use gperftools.PageHeap.{PageHeap, Span, Stats, System, on_normal_freelist, is_normal}
use gperftools.PageHeap.Merge.{merge_into_free_list, decommit_span}
use gperftools.PageHeap.Search.{carve}
use gperftools.PageHeap.Release.{release_span}
use gperftools.PageHeap.Balance.{Balanced, merge_into_free_list-Balanced}
use gperftools.PageHeap.{bytes}
use gperftools.PageHeap.Aligned.{skip_loop}
use gperftools.PageHeap.Grow.{round_up_size}
use gperftools.PageHeap.Round.{round_up_size_lem}
use gperftools.PageHeap.Skip.{skip_loop_lem}
use gperftools.PageMap.{PageMap, get, set, ensure, next}
use gperftools.PageMap.Lookup.{Ensured, ensure-Ensured, get-set}
use gperftools.PageMap.Next.{next-IsFirst}
use gperftools.ThreadCache.{FreeList, Central, Caches, pop_range}
use gperftools.ThreadCache.Lists.{IsCounted, pop_range-IsCounted}
use gperftools.PageHeap.Carve.{carve-Balanced, release_span-Balanced}

alignment_for_size_lem_example : (k : ℕ) × (alignment_for_size 1000 ≡ ok (2 ^ k)) × Aligns 1000 k
alignment_for_size_lem_example = alignment_for_size_lem 1000

init-IsSizeMap_example :
    (m : SizeMap) × (init 4096 32
      ≡ (check_aligned 10 min_align m.class_to_size m.class_array >> ok m))
    × IsSizeMap 32 m
    × (m.class_to_size (m.num_size_classes - 1) ≡ max_size)
init-IsSizeMap_example = init-IsSizeMap 4096 32 (omega arith) (inl (omega arith))

-- the count -8
init-endless_example :
    (fit_span 1000 (min_span_size 4096) 8 (blocks_to_move (num_move_size 4294967288 8)) 0
      ≡ out_of_fuel)
    × (init 4096 4294967288 ≡ out_of_fuel)
init-endless_example = init-endless 1000 4096 4294967288 (omega arith) (omega arith)

-- the map of a system with pages of 4096 bytes
abbrev pub usual : SizeMap
usual = (init-IsSizeMap 4096 32 (omega arith) (inl (omega arith))).0

get_size_class_lem_example :
    ((1000 ≤ max_size)
      × (c : ℕ) × (get_size_class usual 1000 ≡ some c)
      × IsClassOf usual.num_size_classes usual.class_to_size c 1000)
    ⊎ ((max_size < 1000) × (get_size_class usual 1000 ≡ none))
get_size_class_lem_example =
    get_size_class_lem 1000 (init-IsSizeMap 4096 32 (omega arith) (inl (omega arith))).2

-- The keys 5 and 65541 share a slot.
abbrev history : List Op
history = puts 5 3 ∷ invalidates 9 ∷ puts 65541 7 ∷ puts 9 1 ∷ []

try_get-run_example : try_get (run history) 5 ≡ recall history 5
try_get-run_example =
    try_get-run history 5
      (
        (omega arith, omega arith),
        (omega arith, ((omega arith, omega arith), ((omega arith, omega arith), tt))),
      )
      (omega arith)

abbrev no_stats : Stats
no_stats = record {
  system_bytes = 6 * 8192;
  free_bytes = 6 * 8192;
  unmapped_bytes = 0;
  committed_bytes = 6 * 8192;
  scavenge_count = 0;
  commit_count = 1;
  total_commit_bytes = 6 * 8192;
  decommit_count = 0;
  total_decommit_bytes = 0;
  reserve_count = 1;
  total_reserve_bytes = 6 * 8192;
}

abbrev pages_4 : Span
pages_4 = record {
  start = 100;
  length = 4;
  sizeclass = 0;
  location = on_normal_freelist;
  sample = false;
}

abbrev pages_2 : Span
pages_2 = record {
  start = 104;
  length = 2;
  sizeclass = 0;
  location = on_normal_freelist;
  sample = false;
}

-- Two neighbouring free spans, of four pages and of two, in a heap that decommits aggressively.
abbrev pub two_spans : PageHeap
two_spans = record {
  spans = λ id. if id == 0 then pages_4 else pages_2;
  freed_spans = [];
  next_span = 2;
  pagemap = λ p.
      if p == 100
      then some 0
      else if p == 103
      then some 0
      else if p == 104
      then some 1
      else if p == 105
      then some 1
      else none;
  normal = λ i. if i == 3 then 0 ∷ [] else if i == 1 then 1 ∷ [] else [];
  returned = λ i. [];
  large_normal = [];
  large_returned = [];
  stats = no_stats;
  scavenge_counter = 0;
  release_index = 0;
  aggressive_decommit = true;
  cache = λ i. 0;
  releases = 0;
  allocs = 0;
}

-- a system that takes what is given back, and that gives no memory
abbrev pub willing : System
willing = record {
  release = λ n p. λ k. true;
  alloc = λ n b. none;
  ensure = λ n p k. true;
  taken = λ n s. 6 * 8192;
}

two_spans-Balanced : Balanced two_spans 0
two_spans-Balanced = omega arith

merge_into_free_list-Balanced_example : Balanced (merge_into_free_list willing two_spans 1) 0
unfolding is_normal
merge_into_free_list-Balanced_example =
    merge_into_free_list-Balanced willing two_spans 1 (omega arith)

carve-Balanced_example : let h' = carve two_spans 0 3 in Balanced h' 0 × ((h'.spans 0).length ≡ 3)
carve-Balanced_example =
    carve-Balanced two_spans 0 3 (omega arith) (omega arith) (omega arith) (ground arith)
      two_spans-Balanced

release_span-Balanced_example :
    let (released, h') = release_span willing two_spans 0 in
    Balanced h' 0 × (released ≡ (if (decommit_span willing two_spans 0).0 then 4 else 0))
release_span-Balanced_example = release_span-Balanced willing two_spans 0 refl two_spans-Balanced

-- a system with memory for one leaf
abbrev one_leaf : ℕ → Bool
one_leaf n = n == 0

abbrev empty_map : PageMap
empty_map = record { root = λ i. none; allocated = 0 }

ensure-Ensured_example :
    (r : Bool × PageMap) × (ensure one_leaf empty_map 262143 2 ≡ ok r)
    × Ensured empty_map 262143 262144 r
ensure-Ensured_example = ensure-Ensured one_leaf empty_map 262143 2 (omega arith) (omega arith)

-- the page 7 has the span 4
abbrev seven_map : PageMap
seven_map = record {
  root = λ i. if i == 0 then some (λ j. if j == 7 then some 4 else none) else none;
  allocated = 1;
}

get-set_example :
    (m' : PageMap) × (set seven_map 9 5 ≡ ok m')
    × ((j : ℕ) → get m' j ≡ (if j == 9 then some 5 else get seven_map j))
get-set_example = get-set seven_map 9 5 (omega arith) ((λ j. if j == 7 then some 4 else none), refl)

next-IsFirst_example :
    ((next seven_map 3 ≡ none) × ((i : ℕ) → 3 ≤ i → get seven_map i ≡ none))
    ⊎ ((j : ℕ) × (v : ℕ) × (next seven_map 3 ≡ some v)
        × (3 ≤ j)
        × (get seven_map j ≡ some v)
        × ((i : ℕ) → 3 ≤ i → i < j → get seven_map i ≡ none))
next-IsFirst_example = next-IsFirst seven_map 3

abbrev pub three : FreeList
three = record {
  objects = 8192 ∷ 8256 ∷ 8320 ∷ [];
  count = 3;
  lowater = 2;
  max_length = 4;
  length_overages = 0;
  object_size = 64;
}

pub three-IsCounted : IsCounted three
three-IsCounted = record { counted = refl; small = omega arith; marked = omega arith }

-- a central free list that keeps all ranges, and a map of one class with batches of two objects
abbrev pub keeping : Central (List (List ℕ))
keeping = record { remove_range = λ c cl n. ([], c); insert_range = λ c cl range n. range ∷ c }

abbrev pub pairs : SizeMap
pairs = record {
  num_size_classes = 2;
  class_to_size = λ c. 64;
  class_to_pages = λ c. 1;
  class_array = λ i. 1;
  num_objects_to_move = λ c. 2;
  min_span_size_in_pages = 1;
}

abbrev pub one_cache : Caches (List (List ℕ))
one_cache = record {
  cache = λ id. record { list = λ cl. three; size = 192; max_size = 65536 };
  heaps = 0 ∷ [];
  next_steal = some 0;
  unclaimed = 0;
  min_size = 524288;
  central = [];
}
