-- ===== src/PageHeap/Release.antt =====
-- Giving memory back to the system, and the deletion of spans.
use gperftools.Base.{
  ℕ, zero, suc, ◌+◌, ◌-◌, ◌*◌, ◌/◌, ◌%◌, ◌^◌, Bool, true, false, ◌&&◌, Option, none, some, not,
  List, [], ◌∷◌, ltb, leb, ◌==◌, if◌then◌else◌, min,
}
use gperftools.SizeMap.{page_shift}
use gperftools.PageHeap.{
  PageHeap, System, Config, on_normal_freelist, on_returned_freelist, max_pages, add64, sub64,
  set_span, remove_from_free_list,
}
use gperftools.PageHeap.Merge.{decommit_span, merge_into_free_list}

-- The first span of a list, and the last: `list.next` and `list.prev`.
unfoldable pub front : List ℕ → Option ℕ
front [] = none
front (x ∷ xs) = some x

unfoldable pub back : List ℕ → Option ℕ
back [] = none
back (x ∷ []) = some x
back (x ∷ y ∷ xs) = back (y ∷ xs)

module _ (system : System) where
  -- `ReleaseSpan`
  unfoldable pub release_span : PageHeap → ℕ → ℕ × PageHeap
  release_span h id =
      let (worked, h₁) = decommit_span system h id in
      let h₂ = remove_from_free_list h₁ id in
      let s = h₂.spans id in
      let h₃ = set_span h₂ id (record s { location = on_returned_freelist }) in
      if worked then (s.length, merge_into_free_list system h₃ id) else (0, h₁)

  -- The span that the for loop of `ReleaseAtLeastNPages` looks at.
  unfoldable pub release_candidate : PageHeap → Option ℕ
  unfolding front back
  release_candidate h =
      if h.release_index == max_pages then front h.large_normal else back (h.normal h.release_index)

  unfoldable pub wrap_index : PageHeap → PageHeap
  wrap_index h = if ltb max_pages h.release_index then record h { release_index = 0 } else h

  abbrev pub next_index : PageHeap → PageHeap
  next_index h = record h { release_index = h.release_index + 1 }

  -- The for loop, with the rounds left. The Boolean says that a release failed.
  unfoldable pub release_round : ℕ → ℕ → ℕ → PageHeap → Bool × ℕ × PageHeap
  unfolding release_candidate wrap_index
  release_round zero num_pages released h = (false, released, h)
  release_round (suc rounds) num_pages released h = elim (ltb released num_pages) [
    | false ↦ (false, released, h)
    | true ↦
        let h₁ = wrap_index h in
        elim (release_candidate h₁) [
          | none ↦ release_round rounds num_pages released (next_index h₁)
          | some id ↦
              let (len, h₂) = release_span h₁ id in
              elim (len == 0) [
                | true ↦ (true, released, h₂)
                | false ↦ release_round rounds num_pages (released + len) (next_index h₂)
              ]
        ]
  ]

  -- The while loop. A pass over all the lists that finds free bytes releases a span.
  unfoldable pub release_loop : ℕ → ℕ → ℕ → PageHeap → ℕ × PageHeap
  unfolding release_round
  release_loop zero num_pages released h = (released, h)
  release_loop (suc fuel) num_pages released h =
      elim (ltb released num_pages && ltb 0 h.stats.free_bytes) [
        | false ↦ (released, h)
        | true ↦
            let (failed, released', h') = release_round (max_pages + 1) num_pages released h in
            elim failed [
              | true ↦ (released', h')
              | false ↦ release_loop fuel num_pages released' h'
            ]
      ]

  -- `ReleaseAtLeastNPages`: each pass releases a page at least, so no more passes than free pages.
  unfoldable pub release_at_least_n_pages : PageHeap → ℕ → ℕ × PageHeap
  unfolding release_loop
  release_at_least_n_pages h num_pages =
      release_loop (h.stats.free_bytes / 2 ^ page_shift + 1) num_pages 0 h

  module _ (config : Config) where
    -- the limit in pages; 0 is no limit
    unfoldable pub limit_pages : ℕ
    limit_pages = config.heap_limit_mb * 1024 * 1024 % 2 ^ 64 / 2 ^ page_shift

    -- `EnsureLimit`
    unfoldable pub ensure_limit : PageHeap → ℕ → Bool → Bool × PageHeap
    unfolding limit_pages
    ensure_limit h n with_release =
        let limit = limit_pages in
        let mapped =
          sub64 (system.taken h.allocs h.next_span / 2 ^ page_shift)
            (h.stats.unmapped_bytes / 2 ^ page_shift) in
        let (released, h') = release_at_least_n_pages h (sub64 (add64 mapped n) limit) in
        if limit == 0
        then (true, h)
        else if ltb limit (add64 mapped n) && with_release
        then (leb (add64 (sub64 mapped released) n) limit, h')
        else (leb (add64 mapped n) limit, h)

    abbrev pub default_release_delay : ℕ
    default_release_delay = 2 ^ 18

    abbrev pub max_release_delay : ℕ
    max_release_delay = 2 ^ 20

    -- `IncrementalScavenge`. The counter is at least 0 when it is called.
    unfoldable pub incremental_scavenge : PageHeap → ℕ → PageHeap
    incremental_scavenge h n =
        let t = h.stats in
        let counted = record h { stats = record t { scavenge_count = add64 t.scavenge_count 1 } } in
        let (released, h') = release_at_least_n_pages counted 1 in
        if leb n h.scavenge_counter
        then record h { scavenge_counter = h.scavenge_counter - n }
        else if not config.releasing
        then record h { scavenge_counter = default_release_delay }
        else record h' {
          scavenge_counter =
              if released == 0
              then default_release_delay
              else min (config.wait_pages released) max_release_delay;
        }

    -- `DeleteLocked`
    unfoldable pub delete_locked : PageHeap → ℕ → PageHeap
    delete_locked h id =
        let s = h.spans id in
        let h₁ =
          set_span h id
            (record s { sizeclass = 0; location = on_normal_freelist; sample = false }) in
        incremental_scavenge (merge_into_free_list system h₁ id) s.length
