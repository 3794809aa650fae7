-- ===== src/CentralFreeList.antt =====
-- `CentralFreeList` of src/central_freelist.h and src/central_freelist.cc, one for each size class,
-- over the page heap. A chain of objects is the list of their addresses. Here are the state and the
-- operations on spans; Transfer has those on the transfer cache. The fields of a span that only these
-- lists use, its free objects and its count of objects in use, are kept here. Where the code gives up
-- its lock, other threads may run: `meanwhile` is what they do to the state.
pub mod Transfer
pub mod Pieces
pub mod Shrink
pub mod Within
pub mod Trip
pub mod Fetch
pub mod Conserve
use gperftools.Base.{
  ℕ, zero, suc, ◌+◌, ◌-◌, ◌*◌, ◌/◌, ◌%◌, ◌^◌, max, Bool, true, false, ◌||◌, Option, none, some,
  List, [], ◌∷◌, ◌++◌, length, take, drop, ltb, leb, ◌==◌, if◌then◌else◌, update, Outcome, ok,
  crash, out_of_fuel, ◌>>=◌, ◌>>◌,
}
use gperftools.SizeMap.{SizeMap, page_shift}
use gperftools.PageHeap.{PageHeap, System, Config, add64, sub64, erase}
use gperftools.PageHeap.Grow.{new_with_size_class}
use gperftools.PageHeap.Aligned.{delete, set_cached_size_class}

-- `TCEntry` is a chain; `slots` is the array of them.
pub record CentralFreeList : Type 0 where
  pub empty : List ℕ
  pub nonempty : List ℕ
  pub num_spans : ℕ
  pub counter : ℕ
  pub slots : ℕ → List ℕ
  pub used_slots : ℕ
  pub cache_size : ℕ
  pub max_cache_size : ℕ

-- The lists by class, the objects and counts by span, and what they share.
pub record State : Type 0 where
  pub lists : ℕ → CentralFreeList
  pub objects : ℕ → List ℕ
  pub refcount : ℕ → ℕ
  pub race_counter : ℕ
  pub heap : PageHeap

-- What the central free lists are given: the size map, the page heap's surroundings, other threads.
pub record Surroundings : Type 0 where
  pub map : SizeMap
  pub system : System
  pub config : Config
  pub meanwhile : State → State

abbrev pub set_list : State → ℕ → CentralFreeList → State
set_list s cl l = record s { lists = update s.lists cl l }

-- `DLL_Remove`: the span leaves the list that it is on.
abbrev pub unlink : CentralFreeList → ℕ → CentralFreeList
unlink l id = record l { empty = erase id l.empty; nonempty = erase id l.nonempty }

-- the objects that the span of this many pages has room for
abbrev pub capacity : SizeMap → ℕ → ℕ → ℕ
capacity m cl pages = pages * 2 ^ page_shift % 2 ^ 64 / m.class_to_size cl

-- The step of `ReleaseToSpans` that moves a span with no free object to the nonempty list.
unfoldable pub move_to_nonempty : CentralFreeList → ℕ → List ℕ → CentralFreeList
move_to_nonempty l id [] = let u = unlink l id in record u { nonempty = id ∷ u.nonempty }
move_to_nonempty l id (_ ∷ _) = l

-- The step of `FetchFromOneSpans` that moves a span with no object left to the empty list.
unfoldable pub move_to_empty : CentralFreeList → ℕ → List ℕ → CentralFreeList
move_to_empty l id [] = let u = unlink l id in record u { empty = id ∷ u.empty }
move_to_empty l id (_ ∷ _) = l

module _ (w : Surroundings) where
  -- The end of `ReleaseToSpans` for the last object in use: the span goes back to the page heap.
  unfoldable pub give_back : State → ℕ → ℕ → State
  give_back s cl id =
      let l = s.lists cl in
      let span = s.heap.spans id in
      let l' = record (unlink l id) {
        counter = sub64 l.counter (capacity w.map span.sizeclass span.length);
        num_spans = sub64 l.num_spans 1;
      } in
      let s' = w.meanwhile (set_list s cl l') in
      w.meanwhile (record s' { heap = delete w.system w.config s'.heap id })

  -- `ReleaseToSpans` for an object of the span `id`.
  unfoldable pub release_to_span : State → ℕ → ℕ → ℕ → State
  unfolding give_back
  release_to_span s cl id object =
      let l = s.lists cl in
      let l' = move_to_nonempty l id (s.objects id) in
      let rest = (s.refcount id + 2 ^ 16 - 1) % 2 ^ 16 in
      let s' = record (set_list s cl (record l' { counter = add64 l.counter 1 })) {
        refcount = update s.refcount id rest;
      } in
      if rest == 0
      then give_back s' cl id
      else record s' { objects = update s'.objects id (object ∷ s'.objects id) }

  -- `ReleaseToSpans`
  unfoldable pub release_to_spans : State → ℕ → ℕ → Outcome State
  release_to_spans s cl object = elim (s.heap.pagemap (object / 2 ^ page_shift)) [
    | none ↦ crash
    | some id ↦ ok (release_to_span s cl id object)
  ]

  -- `ReleaseListToSpans`
  unfoldable pub release_list_to_spans : State → ℕ → List ℕ → Outcome State
  release_list_to_spans s cl [] = ok s
  release_list_to_spans s cl (x ∷ xs) = do
    s' ← release_to_spans s cl x
    release_list_to_spans s' cl xs

  -- `FetchFromOneSpans` for a span with these objects. Its loop takes an object at least.
  unfoldable pub fetch_objects : State → ℕ → ℕ → ℕ → List ℕ → Outcome (List ℕ × State)
  fetch_objects s cl id n [] = crash
  fetch_objects s cl id n (x ∷ xs) =
      let taken = take (max n 1) (x ∷ xs) in
      let rest = drop (max n 1) (x ∷ xs) in
      let l = move_to_empty (s.lists cl) id rest in
      ok (
        taken,
        record (set_list s cl (record l { counter = sub64 (s.lists cl).counter (length taken) })) {
          objects = update s.objects id rest;
          refcount = update s.refcount id ((s.refcount id + length taken) % 2 ^ 16);
        },
      )

  unfoldable pub fetch_from_span : State → ℕ → ℕ → ℕ → Outcome (List ℕ × State)
  fetch_from_span s cl id n = fetch_objects s cl id n (s.objects id)

  -- `FetchFromOneSpans`
  unfoldable pub fetch_from_one_spans : State → ℕ → ℕ → Outcome (List ℕ × State)
  unfolding fetch_from_span
  fetch_from_one_spans s cl n = elim (s.lists cl).nonempty [
    | [] ↦ ok ([], s)
    | id ∷ _ ↦ fetch_from_span s cl id n
  ]

-- The loop of `Populate` that splits a block into objects.
unfoldable pub pieces : ℕ → ℕ → ℕ → ℕ → Outcome (List ℕ)
pieces zero ptr limit size = out_of_fuel
pieces (suc fuel) ptr limit size =
    let next = (ptr + size) % 2 ^ 64 in
    let rest = do xs ← pieces fuel next limit size; ok (ptr ∷ xs)
    in if ltb next ptr || ltb limit next then ok [] else rest

-- `SetCachedSizeClass` for each page of a span.
unfoldable pub cache_pages : ℕ → PageHeap → ℕ → ℕ → PageHeap
cache_pages zero h page cl = h
cache_pages (suc rounds) h page cl =
    cache_pages rounds (set_cached_size_class h page cl) (page + 1) cl

module _ (w : Surroundings) where
  -- The end of `Populate`: the objects of a new span.
  unfoldable pub add_span : State → ℕ → ℕ → List ℕ → State
  add_span s cl id xs =
      let s' =
        w.meanwhile
          (record s { objects = update s.objects id xs; refcount = update s.refcount id 0 }) in
      let l = s'.lists cl in
      set_list s' cl (record l {
        nonempty = id ∷ l.nonempty;
        num_spans = add64 l.num_spans 1;
        counter = add64 l.counter (length xs);
      })

  -- `Populate`
  unfoldable pub populate : State → ℕ → Outcome State
  unfolding add_span
  populate s₀ cl =
      let s = w.meanwhile s₀ in
      let n = w.map.class_to_pages cl in
      let (got, h) = new_with_size_class w.system w.config s.heap n cl in
      elim got [
        | none ↦ ok (w.meanwhile (record s { heap = h }))
        | some id ↦ do
          let start = (h.spans id).start
          let ptr = start * 2 ^ page_shift
          let size = n * 2 ^ page_shift
          xs ← pieces (size + 1) ptr ((ptr + size) % 2 ^ 64) (w.map.class_to_size cl)
          ok (add_span (record s { heap = cache_pages n h start cl }) cl id xs)
      ]

  -- `FetchFromOneSpansSafe`
  unfoldable pub fetch_from_one_spans_safe : State → ℕ → ℕ → Outcome (List ℕ × State)
  fetch_from_one_spans_safe s cl n = do
    (xs, s₁) ← fetch_from_one_spans w s cl n
    elim xs [
      | y ∷ ys ↦ ok (y ∷ ys, s₁)
      | [] ↦ do s₂ ← populate s₁ cl; fetch_from_one_spans w s₂ cl n
    ]

  -- The loop of `RemoveRange`: each round takes an object at least, or stops.
  unfoldable pub fetch_loop : ℕ → State → ℕ → ℕ → List ℕ → Outcome (List ℕ × State)
  fetch_loop zero s cl n got = out_of_fuel
  fetch_loop (suc fuel) s cl n got =
      let rest = do
        (xs, s') ← fetch_from_one_spans w s cl (n - length got)
        elim xs [ [] ↦ ok (got, s') | y ∷ ys ↦ fetch_loop fuel s' cl n (y ∷ ys ++ got) ]
      in if ltb (length got) n then rest else ok (got, s)
