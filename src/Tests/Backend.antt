-- ===== src/Tests/Backend.antt =====
-- The theorems on the central free lists, and on the thread caches over them, at concrete inputs.
use gperftools.Base.{
  ◌≢◌, ℕ, ◌≤◌, ◌<◌, ◌≡◌, refl, arith, true, List, [], ◌∷◌, ◌++◌, length, ok, Ends,
}
use gperftools.Base.Sums.{sum_below}
use gperftools.PageHeap.{Config}
use gperftools.CentralFreeList.{CentralFreeList, State, Surroundings, fetch_from_one_spans, pieces}
use gperftools.CentralFreeList.Transfer.{insert_range, remove_range}
use gperftools.CentralFreeList.Pieces.{every, pieces-every}
use gperftools.CentralFreeList.Shrink.{Fits}
use gperftools.CentralFreeList.Within.{insert_range-Fits}
use gperftools.CentralFreeList.Trip.{remove_range-insert_range}
use gperftools.CentralFreeList.Fetch.{remove_range-AtMost}
use gperftools.CentralFreeList.Conserve.{tally, fetch_from_one_spans-tally}
use gperftools.ThreadCache.{increase_cache_limit}
use gperftools.ThreadCache.Space.{space, increase_cache_limit-space}
use gperftools.Tests.{willing, pairs, two_spans, one_cache}

abbrev plain : Config
plain = record {
  smallest_span_size = 1;
  heap_limit_mb = 0;
  releasing = true;
  wait_pages = λ n. 1000;
}

abbrev around : Surroundings
around = record { map = pairs; system = willing; config = plain; meanwhile = λ s. s }

-- a transfer cache of two slots with a batch in one
abbrev half_full : CentralFreeList
half_full = record {
  empty = [];
  nonempty = 1 ∷ [];
  num_spans = 1;
  counter = 3;
  slots = λ i. 640 ∷ 704 ∷ [];
  used_slots = 1;
  cache_size = 2;
  max_cache_size = 64;
}

-- the span 1 has three free objects and two in use
abbrev few : State
few = record {
  lists = λ cl. half_full;
  objects = λ id. 8192 ∷ 8256 ∷ 8320 ∷ [];
  refcount = λ id. 2;
  race_counter = 0;
  heap = two_spans;
}

few-Fits : Fits 2 4 few.lists
unfolding sum_below
few-Fits = record { used = λ t. omega arith; cached = λ t. omega arith; total = omega arith }

insert_range-Fits_example :
    Ends (λ s. Fits 2 4 s.lists) (insert_range around few 1 (768 ∷ 832 ∷ []) 2)
insert_range-Fits_example =
    insert_range-Fits around 2 (λ b s f. f) refl 4 few 1 (768 ∷ 832 ∷ []) 2 (omega arith)
      (omega arith) few-Fits

pieces-every_example : pieces 8193 8192 16384 48 ≡ ok (every 8192 48 170)
pieces-every_example =
    pieces-every 8193 8192 16384 48 (omega arith) (omega arith) (omega arith) (omega arith)
      (omega arith)

remove_range-insert_range_example :
    (s' : State) × (s'' : State) × (insert_range around few 1 (768 ∷ 832 ∷ []) 2 ≡ ok s')
    × (remove_range around s' 1 2 ≡ ok (768 ∷ 832 ∷ [], s''))
    × ((s''.lists 1).used_slots ≡ 1)
    × ((i : ℕ) → i < 1 → (s''.lists 1).slots i ≡ 640 ∷ 704 ∷ [])
    × (s''.objects ≡ few.objects)
remove_range-insert_range_example =
    remove_range-insert_range around few 1 (768 ∷ 832 ∷ []) (omega arith)

remove_range-AtMost_example : Ends (λ r. length r.0 ≤ 5) (remove_range around few 1 5)
remove_range-AtMost_example =
    remove_range-AtMost around 1 (omega arith) (omega arith) few 5 (omega arith)
      (λ i h. omega arith)

fetch_from_one_spans-tally_example :
    (ys : List ℕ) × (s' : State) × (fetch_from_one_spans around few 1 2 ≡ ok (ys, s'))
    × (0 < length ys)
    × (8192 ∷ 8256 ∷ 8320 ∷ [] ≡ ys ++ s'.objects 1)
    × (tally s' 1 ≡ 5)
    × ((j : ℕ) → j ≢ 1 → (s'.objects j ≡ few.objects j) × (s'.refcount j ≡ few.refcount j))
fetch_from_one_spans-tally_example =
    fetch_from_one_spans-tally around few 1 1 2 8192 [] (8256 ∷ 8320 ∷ []) refl refl (omega arith)

increase_cache_limit-space_example :
    Ends (λ s. space 1 s ≡ space 1 one_cache) (increase_cache_limit one_cache 0)
increase_cache_limit-space_example =
    increase_cache_limit-space 1 one_cache 0 (omega arith)
      (record { heaps = (omega arith, tt); steal = omega arith })
