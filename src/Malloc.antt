-- ===== src/Malloc.antt =====
-- The entry points of src/tcmalloc.cc: the sizes that they compute, and the ways of a request through
-- the sampler, the thread caches and the page heap. Size classes are at most a page aligned. The
-- state `C` of the central free lists has the page heap in it; a sampled allocation, which records a
-- stack trace, is a parameter, and so is what the slow path does with the hooks and without memory.
pub mod Sizes
pub mod Fast
pub mod Free
pub mod Realloc
use gperftools.Base.{
  ℕ, zero, suc, ◌+◌, ◌-◌, ◌*◌, ◌/◌, ◌%◌, ◌^◌, bit_and, max, Bool, true, false, not, ◌&&◌, Option,
  none, some, List, [], ◌∷◌, ltb, leb, ◌==◌, if◌then◌else◌, update, Outcome, ok, crash, ◌>>=◌, ◌>>◌,
  check,
}
use gperftools.SizeMap.{SizeMap, page_shift, page_size, pages, get_size_class}
use gperftools.PageHeap.{PageHeap, Span, in_use}
use gperftools.PageHeap.Grow.{round_up_size}
use gperftools.PageHeap.Aligned.{try_get_size_class, set_cached_size_class}
use gperftools.HookList.{HookList}
use gperftools.Sampler.{Sampler, Period, record_allocation, try_record_allocation_fast}
use gperftools.ThreadCache.{Central, Caches, allocate, deallocate}

-- `align_size_up`
unfoldable pub align_size_up : ℕ → ℕ → ℕ
align_size_up size align =
    let new_size = bit_and ((size + align + 2 ^ 64 - 1) % 2 ^ 64) (2 ^ 64 - 1 - (align - 1)) in
    if new_size == 0 then if size == 0 then align else size else new_size

-- `size_class_with_alignment`
unfoldable pub size_class_with_alignment : SizeMap → ℕ → ℕ → Option ℕ
size_class_with_alignment m size align =
    if ltb page_size align then none else get_size_class m (align_size_up size align)

-- `nallocx_slow` for the alignment 2^`flags`, `flags` below 64
unfoldable pub nallocx_slow : SizeMap → ℕ → ℕ → ℕ
nallocx_slow m size flags = elim (size_class_with_alignment m size (2 ^ (flags % 64))) [
  | some cl ↦ m.class_to_size cl
  | none ↦ round_up_size m.min_span_size_in_pages (pages size) * 2 ^ page_shift % 2 ^ 64
]

-- `tc_nallocx`
unfoldable pub nallocx : SizeMap → ℕ → ℕ → ℕ
unfolding nallocx_slow
nallocx m size flags =
    let slow = nallocx_slow m size flags in
    if flags == 0
    then elim (get_size_class m size) [
      | some cl ↦ if cl == 0 then slow else m.class_to_size cl
      | none ↦ slow
    ]
    else slow

-- The overflow check of `do_calloc`: the bytes to allocate.
unfoldable pub calloc_size : ℕ → ℕ → Option ℕ
calloc_size n elem_size =
    let size = n * elem_size % 2 ^ 64 in
    if not (elem_size == 0) && not (size / elem_size == n) then none else some size

-- `GetSizeWithCallback`: what is usable at an address; `invalid` is the answer for memory that is not
-- the allocator's, and `traced` the size in the stack trace of a sampled span.
unfoldable pub usable_size : SizeMap → PageHeap → (ℕ → ℕ) → (ℕ → ℕ) → ℕ → ℕ
unfolding nallocx
usable_size m h traced invalid ptr =
    let p = ptr / 2 ^ page_shift in
    if ptr == 0 then 0 else elim (try_get_size_class h p) [
      | some cl ↦ m.class_to_size cl
      | none ↦ elim (h.pagemap p) [
        | none ↦ invalid ptr
        | some id ↦
            let span = h.spans id in
            if not (span.sizeclass == 0)
            then m.class_to_size span.sizeclass
            else if span.sample
            then nallocx m (traced id) 0
            else span.length * 2 ^ page_shift % 2 ^ 64
      ]
    ]

-- The state that the entry points share.
pub record Memory (C : Type 0) : Type 0 where
  pub caches : Caches C
  pub samplers : ℕ → Sampler

-- What an allocation takes from its surroundings: the size map, the central free lists, the page
-- heap's `New`, the sample period, the address of a cache's sampler and the sampled allocation.
pub record Services (C : Type 0) : Type 0 where
  pub size_map : SizeMap
  pub central : Central C
  pub new_pages : C → ℕ → Option ℕ × C
  pub period : Period
  pub address : ℕ → ℕ
  pub sampled : Memory C → ℕ → Option ℕ × Memory C

module _ {C : Type 0} where
  abbrev pub with_sampler : Memory C → ℕ → Bool × Sampler → Bool × Memory C
  with_sampler s id (fine, sampler) = (fine, record s { samplers = update s.samplers id sampler })

  abbrev pub with_caches : Memory C → Option ℕ × Caches C → Option ℕ × Memory C
  with_caches s (ptr, caches) = (ptr, record s { caches = caches })

  module _ (w : Services C) where
    -- The end of `do_malloc_pages`, when the sampler has spoken.
    unfoldable pub large_object : ℕ → Bool × Memory C → Option ℕ × Memory C
    large_object size (false, s) = w.sampled s size
    large_object size (true, s) =
        let (ptr, c) = w.new_pages s.caches.central (pages size) in
        (ptr, record s { caches = record s.caches { central = c } })

    -- `do_malloc_pages`, but for the report of large allocations; `id` is the thread's cache.
    unfoldable pub malloc_pages : Memory C → ℕ → ℕ → Option ℕ × Memory C
    unfolding large_object
    malloc_pages s id size =
        large_object size
          (with_sampler s id (record_allocation w.period (w.address id) (s.samplers id) size))

    -- The end of `do_malloc` for a size class, when the sampler has spoken.
    unfoldable pub small_object : ℕ → ℕ → ℕ → Bool × Memory C → Option ℕ × Memory C
    small_object id size cl (false, s) = w.sampled s size
    small_object id size cl (true, s) =
        with_caches s (allocate w.central w.size_map s.caches id (w.size_map.class_to_size cl) cl)

    -- `do_malloc`, with a thread cache and no emergency.
    unfoldable pub malloc : Memory C → ℕ → ℕ → Option ℕ × Memory C
    unfolding small_object malloc_pages
    malloc s id size = elim (get_size_class w.size_map size) [
      | none ↦ malloc_pages s id size
      | some cl ↦
          let class_size = w.size_map.class_to_size cl in
          small_object id size cl (
            with_sampler s id
              (record_allocation w.period (w.address id) (s.samplers id) class_size))
    ]

    -- `do_calloc`, up to the zeroing.
    unfoldable pub calloc : Memory C → ℕ → ℕ → ℕ → Option ℕ × Memory C
    unfolding calloc_size malloc
    calloc s id n elem_size = elim (calloc_size n elem_size) [
      | none ↦ (none, s)
      | some size ↦ malloc s id size
    ]

    module _ (full oom : Memory C → ℕ → Option ℕ × Memory C) where
      -- The handler of exhausted memory, which the thread's cache calls when it gets no object.
      unfoldable pub or_oom : ℕ → Option ℕ × Memory C → Option ℕ × Memory C
      or_oom size (none, s) = oom s size
      or_oom size (some ptr, s) = (some ptr, s)

      -- The end of `malloc_fast_path`, when the sampler has spoken: the slow path or the cache.
      unfoldable pub fast_object : ℕ → ℕ → ℕ → Bool × Memory C → Option ℕ × Memory C
      unfolding or_oom
      fast_object id size cl (false, s) = full s size
      fast_object id size cl (true, s) = or_oom (w.size_map.class_to_size cl) (
          with_caches s
            (allocate w.central w.size_map s.caches id (w.size_map.class_to_size cl) cl))

      -- `malloc_fast_path` with these new hooks, in a thread with the cache `present`, if it has one;
      -- `full` is the slow path, `do_allocate_full`, and `oom` the handler of exhausted memory.
      unfoldable pub malloc_fast_path : HookList → Option ℕ → Memory C → ℕ → Option ℕ × Memory C
      unfolding fast_object
      malloc_fast_path hooks present s size =
          if not (hooks.priv_end == 0) then full s size else elim present [
            | none ↦ full s size
            | some id ↦ elim (get_size_class w.size_map size) [
              | none ↦ full s size
              | some cl ↦
                  let class_size = w.size_map.class_to_size cl in
                  fast_object id size cl
                    (with_sampler s id (try_record_allocation_fast (s.samplers id) class_size))
            ]
          ]

-- `GetOwnership`: whether an address is the allocator's; `emergency` tells those of the emergency
-- allocator.
unfoldable pub is_owned : PageHeap → (ℕ → Bool) → ℕ → Bool
is_owned h emergency ptr =
    let p = ptr / 2 ^ page_shift in
    if ltb 0 (p / 2 ^ (48 - page_shift)) then false else elim (try_get_size_class h p) [
      | some cl ↦ true
      | none ↦ elim (h.pagemap p) [ some id ↦ true | none ↦ emergency ptr ]
    ]

-- The loop of `should_report_large` for a threshold that is set, when no other thread changes it:
-- whether to report, and the new threshold.
unfoldable pub should_report_large : ℕ → ℕ → Bool × ℕ
should_report_large threshold num_pages =
    let grown = (threshold + threshold / 8) % 2 ^ 64 in
    let new_threshold = if ltb grown threshold then 2 ^ 64 - 1 else grown in
    if ltb num_pages (threshold / 2 ^ page_shift)
    then (false, threshold)
    else (true, max new_threshold (num_pages * 2 ^ page_shift % 2 ^ 64))
