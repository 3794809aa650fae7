-- ===== src/PageHeap.antt =====
-- The page heap: `PageHeap` of src/page_heap.h and src/page_heap.cc, with `Span` and the span
-- lists of src/span.h and src/span.cc. Each method runs under the heap's lock, so it is a function
-- from the heap before to the heap after. Here are the state and the operations on free lists; the
-- children have the rest. A span is a number that `spans` maps to its fields; a doubly linked
-- list is the list of its spans from the front; a set of large spans is sorted. The page map is
-- the function that it stands for; the cache of size classes is the array of `PackedCache`.
-- Counters of bytes wrap at 64 bits. A span has fewer than 2^31 pages, so that the `int extra` of
-- `Split` and `Carve` is exact.
pub mod Merge
pub mod Release
pub mod Search
pub mod Grow
pub mod Balance
pub mod Carve
pub mod Aligned
pub mod Skip
pub mod Round
use gperftools.Base.{
  ℕ, zero, suc, ◌+◌, ◌-◌, ◌*◌, ◌/◌, ◌%◌, ◌^◌, Bool, true, false, ◌||◌, ◌&&◌, Option, none, some,
  List, [], ◌∷◌, ltb, leb, ◌==◌, if◌then◌else◌, update,
}
use gperftools.SizeMap.{page_shift}

pub data Location : Type 0 where
  in_use on_normal_freelist on_returned_freelist : Location

-- `Span`, less the links of its list and the fields of the central free lists.
pub record Span : Type 0 where
  pub start : ℕ
  pub length : ℕ
  pub sizeclass : ℕ
  pub location : Location
  pub sample : Bool

pub record Stats : Type 0 where
  pub system_bytes : ℕ
  pub free_bytes : ℕ
  pub unmapped_bytes : ℕ
  pub committed_bytes : ℕ
  pub scavenge_count : ℕ
  pub commit_count : ℕ
  pub total_commit_bytes : ℕ
  pub decommit_count : ℕ
  pub total_decommit_bytes : ℕ
  pub reserve_count : ℕ
  pub total_reserve_bytes : ℕ

-- The span allocator is a stack of freed spans and the next span never used. `releases` and
-- `allocs` count the calls of the system that give memory back and that ask for it.
pub record PageHeap : Type 0 where
  pub spans : ℕ → Span
  pub freed_spans : List ℕ
  pub next_span : ℕ
  pub pagemap : ℕ → Option ℕ
  pub normal : ℕ → List ℕ
  pub returned : ℕ → List ℕ
  pub large_normal : List ℕ
  pub large_returned : List ℕ
  pub stats : Stats
  pub scavenge_counter : ℕ
  pub release_index : ℕ
  pub aggressive_decommit : Bool
  pub cache : ℕ → ℕ
  pub releases : ℕ
  pub allocs : ℕ

-- What the heap asks of the system layer, as the answer to the call of this number:
-- `TCMalloc_SystemRelease` of the pages from one on, `TCMalloc_SystemAlloc` of some bytes (an
-- address and the actual size), and whether `PageMap::Ensure` has the memory for its nodes.
-- `TCMalloc_SystemTaken` depends on what has been asked for, and on the spans allocated.
pub record System : Type 0 where
  pub release : ℕ → ℕ → ℕ → Bool
  pub alloc : ℕ → ℕ → Option (ℕ × ℕ)
  pub ensure : ℕ → ℕ → ℕ → Bool
  pub taken : ℕ → ℕ → ℕ

-- The flags, and the release rate as what the code computes from it: whether releasing is
-- enabled, and the pages to wait for after a release, before the bound.
pub record Config : Type 0 where
  pub smallest_span_size : ℕ
  pub heap_limit_mb : ℕ
  pub releasing : Bool
  pub wait_pages : ℕ → ℕ

abbrev pub max_pages : ℕ
max_pages = 128

abbrev pub add64 : ℕ → ℕ → ℕ
add64 a b = (a + b) % 2 ^ 64

abbrev pub sub64 : ℕ → ℕ → ℕ
sub64 a b = (a + 2 ^ 64 - b % 2 ^ 64) % 2 ^ 64

-- `n << kPageShift`
abbrev pub bytes : ℕ → ℕ
bytes n = n * 2 ^ page_shift % 2 ^ 64

unfoldable pub is_normal : Location → Bool
is_normal on_normal_freelist = true
is_normal _ = false

unfoldable pub same_location : Location → Location → Bool
same_location in_use in_use = true
same_location on_normal_freelist on_normal_freelist = true
same_location on_returned_freelist on_returned_freelist = true
same_location _ _ = false

abbrev pub set_span : PageHeap → ℕ → Span → PageHeap
set_span h id s = record h { spans = update h.spans id s }

abbrev pub set_page : PageHeap → ℕ → ℕ → PageHeap
set_page h page id = record h { pagemap = update h.pagemap page (some id) }

-- `GetDescriptor`
abbrev pub get_descriptor : PageHeap → ℕ → Option ℕ
get_descriptor h page = h.pagemap page

-- `RecordSpan`
unfoldable pub record_span : PageHeap → ℕ → PageHeap
record_span h id =
    let s = h.spans id in
    let h' = set_page h s.start id in
    if ltb 1 s.length then set_page h' (s.start + s.length - 1) id else h'

abbrev pub fresh_span : ℕ → ℕ → Span
fresh_span p n = record { start = p; length = n; sizeclass = 0; location = in_use; sample = false }

-- `NewSpan`
unfoldable pub new_span : PageHeap → ℕ → ℕ → ℕ × PageHeap
new_span h p n = elim h.freed_spans [
  | [] ↦ (
    h.next_span,
    set_span (record h { next_span = h.next_span + 1 }) h.next_span (fresh_span p n),
  )
  | id ∷ rest ↦ (id, set_span (record h { freed_spans = rest }) id (fresh_span p n))
]

-- `DeleteSpan`
unfoldable pub delete_span : PageHeap → ℕ → PageHeap
delete_span h id = record h { freed_spans = id ∷ h.freed_spans }

-- `DLL_Remove`, and the erasure from a set
unfoldable pub erase : ℕ → List ℕ → List ℕ
erase id [] = []
erase id (x ∷ xs) = if x == id then xs else x ∷ erase id xs

-- `SpanBestFitLess`
unfoldable pub best_fit_less : Span → Span → Bool
best_fit_less a b =
    if ltb a.length b.length
    then true
    else if ltb b.length a.length
    then false
    else ltb a.start b.start

-- `set->insert` into a sorted set
unfoldable pub insert_span : (ℕ → Span) → ℕ → List ℕ → List ℕ
insert_span spans id [] = id ∷ []
insert_span spans id (x ∷ xs) =
    if best_fit_less (spans id) (spans x) then id ∷ x ∷ xs else x ∷ insert_span spans id xs

-- `PrependToFreeList`
unfoldable pub prepend_to_free_list : PageHeap → ℕ → PageHeap
prepend_to_free_list h id =
    let s = h.spans id in
    let t = h.stats in
    let normal = is_normal s.location in
    let h' = record h {
      stats =
          if normal
          then record t { free_bytes = add64 t.free_bytes (bytes s.length) }
          else record t { unmapped_bytes = add64 t.unmapped_bytes (bytes s.length) };
    } in
    if ltb max_pages s.length
    then if normal
      then record h' { large_normal = insert_span h.spans id h.large_normal }
      else record h' { large_returned = insert_span h.spans id h.large_returned }
    else if normal
    then record h' { normal = update h.normal (s.length - 1) (id ∷ h.normal (s.length - 1)) }
    else record h' { returned = update h.returned (s.length - 1) (id ∷ h.returned (s.length - 1)) }

-- `RemoveFromFreeList`
unfoldable pub remove_from_free_list : PageHeap → ℕ → PageHeap
remove_from_free_list h id =
    let s = h.spans id in
    let t = h.stats in
    let normal = is_normal s.location in
    let h' = record h {
      stats =
          if normal
          then record t { free_bytes = sub64 t.free_bytes (bytes s.length) }
          else record t { unmapped_bytes = sub64 t.unmapped_bytes (bytes s.length) };
    } in
    if ltb max_pages s.length
    then if normal
      then record h' { large_normal = erase id h.large_normal }
      else record h' { large_returned = erase id h.large_returned }
    else if normal
    then record h' { normal = update h.normal (s.length - 1) (erase id (h.normal (s.length - 1))) }
    else record h' {
      returned = update h.returned (s.length - 1) (erase id (h.returned (s.length - 1)));
    }
