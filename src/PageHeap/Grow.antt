-- ===== src/PageHeap/Grow.antt =====
-- `GrowHeap`, `NewLocked` and the methods that allocate under the lock.
use gperftools.Base.{
  ℕ, zero, suc, ◌+◌, ◌-◌, ◌*◌, ◌/◌, ◌^◌, Bool, true, false, ◌&&◌, Option, none, some, not, ltb, leb,
  ◌==◌, if◌then◌else◌, bit_and,
}
use gperftools.SizeMap.{page_shift}
use gperftools.PackedCache
use gperftools.PageHeap.{
  PageHeap, System, Config, max_pages, add64, sub64, bytes, set_span, set_page, record_span,
  new_span,
}
use gperftools.PageHeap.Release.{ensure_limit, delete_locked, release_at_least_n_pages}
use gperftools.PageHeap.Search.{search_free_and_large_lists}

-- `RoundUpSize`, for a smallest span of `size` pages.
unfoldable pub round_up_size : ℕ → ℕ → ℕ
round_up_size size n =
    let mask = 2 ^ 64 - 1 - (size - 1) in
    let rounded = bit_and (sub64 (add64 n size) 1) mask in
    if ltb rounded n then bit_and (2 ^ 64 - 1) mask else rounded

abbrev pub max_valid_pages : ℕ
max_valid_pages = (2 ^ 64 - 1) / 2 ^ page_shift

-- `kMinSystemAlloc`
abbrev pub min_system_alloc : ℕ
min_system_alloc = max_pages

-- `kForcedCoalesceInterval`
abbrev pub forced_coalesce_interval : ℕ
forced_coalesce_interval = 128 * 1024 * 1024

-- The counters after the system gave `n` bytes.
unfoldable pub reserve : PageHeap → ℕ → PageHeap
reserve h n =
    let t = h.stats in
    record h {
      stats = record t {
        system_bytes = add64 t.system_bytes n;
        committed_bytes = add64 t.committed_bytes n;
        commit_count = add64 t.commit_count 1;
        total_commit_bytes = add64 t.total_commit_bytes n;
        reserve_count = add64 t.reserve_count 1;
        total_reserve_bytes = add64 t.total_reserve_bytes n;
      };
    }

module _ (system : System) (config : Config) where
  -- A call of `TCMalloc_SystemAlloc`, if the limit allows it.
  unfoldable pub try_alloc : PageHeap → ℕ → Option (ℕ × ℕ) × PageHeap
  try_alloc h ask =
      let (fits, h') = ensure_limit system config h ask true in
      if fits
      then (system.alloc h'.allocs (bytes ask), record h' { allocs = h'.allocs + 1 })
      else (none, h')

  -- The two attempts of `GrowHeap`.
  unfoldable pub ask_system : PageHeap → ℕ → Option (ℕ × ℕ) × PageHeap
  unfolding try_alloc
  ask_system h n =
      let ask = if ltb min_system_alloc n then n else min_system_alloc in
      let (got, h₁) = try_alloc h ask in
      elim got [
        | some memory ↦ (some memory, h₁)
        | none ↦ elim (ltb n ask) [ true ↦ try_alloc h₁ n | false ↦ (none, h₁) ]
      ]

  -- The rest of `GrowHeap`, with `actual_size` bytes at the address `ptr`.
  unfoldable pub add_memory : PageHeap → ℕ → ℕ → Bool × PageHeap
  unfolding reserve
  add_memory h ptr actual_size =
      let ask = actual_size / 2 ^ page_shift in
      let p = ptr / 2 ^ page_shift in
      let h₁ = reserve h (bytes ask) in
      let h₂ = record h₁ { allocs = h₁.allocs + 1 } in
      let (id, h₃) = new_span h₂ p ask in
      if system.ensure h₁.allocs (p - 1) (ask + 2)
      then (true, delete_locked system config (record_span h₃ id) id)
      else (false, h₂)

  -- `GrowHeap`
  unfoldable pub grow_heap : PageHeap → ℕ → Bool × PageHeap
  unfolding ask_system add_memory
  grow_heap h n = elim (ltb max_valid_pages n) [
    | true ↦ (false, h)
    | false ↦
        let (got, h₁) = ask_system h n in
        elim got [ none ↦ (false, h₁) | some (ptr, actual_size) ↦ add_memory h₁ ptr actual_size ]
  ]

  -- The test of `NewLocked` for coalescing all free memory before the heap grows.
  unfoldable pub should_coalesce : PageHeap → ℕ → Bool
  should_coalesce h n =
      let t = h.stats in
      ltb 0 t.free_bytes
      && ltb 0 t.unmapped_bytes
      && leb (t.system_bytes / 4) (add64 t.free_bytes t.unmapped_bytes)
      && not (
          t.system_bytes / forced_coalesce_interval
          == add64 t.system_bytes (bytes n) / forced_coalesce_interval)

  -- The end of `NewLocked`: growing the heap, and the last search.
  unfoldable pub grow_and_search : PageHeap → ℕ → Option ℕ × PageHeap
  unfolding grow_heap
  grow_and_search h n =
      let (grown, h') = grow_heap h n in
      elim grown [ true ↦ search_free_and_large_lists system config h' n | false ↦ (none, h') ]

  unfoldable pub coalesce_and_search : PageHeap → ℕ → Option ℕ × PageHeap
  unfolding should_coalesce
  coalesce_and_search h n = elim (should_coalesce h n) [
    | false ↦ (none, h)
    | true ↦
        let (_, h') = release_at_least_n_pages system h 0x7fff_ffff in
        search_free_and_large_lists system config h' n
  ]

  -- `NewLocked` after rounding up
  unfoldable pub new_rounded : PageHeap → ℕ → Option ℕ × PageHeap
  unfolding coalesce_and_search grow_and_search
  new_rounded h n =
      let (found, h₁) = search_free_and_large_lists system config h n in
      elim found [
        | some id ↦ (some id, h₁)
        | none ↦
            let (found', h₂) = coalesce_and_search h₁ n in
            elim found' [ some id ↦ (some id, h₂) | none ↦ grow_and_search h₂ n ]
      ]

  -- `NewLocked`
  unfoldable pub new_locked : PageHeap → ℕ → Option ℕ × PageHeap
  unfolding round_up_size new_rounded
  new_locked h n = new_rounded h (round_up_size config.smallest_span_size n)

-- The loop of `RegisterSizeClass` over the inner pages, with the rounds left.
unfoldable pub register_pages : ℕ → PageHeap → ℕ → ℕ → PageHeap
register_pages zero h page id = h
register_pages (suc rounds) h page id = register_pages rounds (set_page h page id) (page + 1) id

-- `RegisterSizeClass`
unfoldable pub register_size_class : PageHeap → ℕ → ℕ → PageHeap
unfolding register_pages
register_size_class h id sc =
    let s = h.spans id in
    register_pages (s.length - 2) (set_span h id (record s { sizeclass = sc })) (s.start + 1) id

-- `InvalidateCachedSizeClass`
abbrev pub invalidate_cached : PageHeap → ℕ → PageHeap
invalidate_cached h page = record h { cache = PackedCache.invalidate h.cache page }

-- `NewWithSizeClass`
unfoldable pub new_with_size_class : System → Config → PageHeap → ℕ → ℕ → Option ℕ × PageHeap
unfolding new_locked register_size_class
new_with_size_class system config h n sizeclass =
    let (got, h₁) = new_locked system config h n in
    elim got [
      | none ↦ (none, h₁)
      | some id ↦
          let h₂ = invalidate_cached h₁ (h₁.spans id).start in
          (some id, if sizeclass == 0 then h₂ else register_size_class h₂ id sizeclass)
    ]
