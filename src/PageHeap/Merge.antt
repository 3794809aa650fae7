-- ===== src/PageHeap/Merge.antt =====
-- Commit, decommit, and the coalescing of a span with its neighbours.
use gperftools.Base.{ℕ, ◌+◌, ◌-◌, Bool, ◌&&◌, Option, none, some, if◌then◌else◌}
use gperftools.PageHeap.{
  PageHeap, Stats, System, on_returned_freelist, add64, sub64, bytes, is_normal, same_location,
  set_span, set_page, get_descriptor, delete_span, prepend_to_free_list, remove_from_free_list,
}

-- `CommitSpan`. The result of the system's commit is not read.
unfoldable pub commit_span : PageHeap → ℕ → PageHeap
commit_span h id =
    let t = h.stats in
    let n = bytes (h.spans id).length in
    record h {
      stats = record t {
        commit_count = add64 t.commit_count 1;
        committed_bytes = add64 t.committed_bytes n;
        total_commit_bytes = add64 t.total_commit_bytes n;
      };
    }

abbrev decommitted : Stats → ℕ → Stats
decommitted t n = record t {
  committed_bytes = sub64 t.committed_bytes n;
  total_decommit_bytes = add64 t.total_decommit_bytes n;
}

module _ (system : System) where
  -- `DecommitSpan`
  unfoldable pub decommit_span : PageHeap → ℕ → Bool × PageHeap
  decommit_span h id =
      let s = h.spans id in
      let t = record h.stats { decommit_count = add64 h.stats.decommit_count 1 } in
      let rv = system.release h.releases s.start s.length in
      (
        rv,
        record h {
          releases = h.releases + 1;
          stats = if rv then decommitted t (bytes s.length) else t;
        },
      )

  -- The end of `CheckAndHandlePreMerge`: the other span leaves its list.
  unfoldable pub take_for_merge : PageHeap → ℕ → Option ℕ × PageHeap
  take_for_merge h other = (some other, remove_from_free_list h other)

  -- `CheckAndHandlePreMerge` for a span that is there.
  unfoldable pub check_pre_merge : PageHeap → ℕ → ℕ → Option ℕ × PageHeap
  unfolding take_for_merge
  check_pre_merge h span other =
      let here = (h.spans span).location in
      let there = (h.spans other).location in
      if h.aggressive_decommit && is_normal there && same_location here on_returned_freelist
      then (let (worked, h') = decommit_span h other in
          if worked then take_for_merge h' other else (none, h'))
      else if same_location there here
      then take_for_merge h other
      else (none, h)

  -- `CheckAndHandlePreMerge`
  unfoldable pub check_and_handle_pre_merge : PageHeap → ℕ → Option ℕ → Option ℕ × PageHeap
  check_and_handle_pre_merge h span none = (none, h)
  check_and_handle_pre_merge h span (some other) = check_pre_merge h span other

  -- The first step of `MergeIntoFreeList`.
  unfoldable pub decommit_first : PageHeap → ℕ → PageHeap
  decommit_first h id =
      let s = h.spans id in
      if h.aggressive_decommit && is_normal s.location
      then (let (worked, h') = decommit_span h id in
          if worked then set_span h' id (record s { location = on_returned_freelist }) else h')
      else h

  unfoldable pub merge_before : PageHeap → ℕ → ℕ → PageHeap
  merge_before h id prev =
      let s = h.spans id in
      let len = (h.spans prev).length in
      let s' = record s { start = s.start - len; length = s.length + len } in
      set_page (set_span (delete_span h prev) id s') s'.start id

  unfoldable pub merge_after : PageHeap → ℕ → ℕ → PageHeap
  merge_after h id next =
      let s = h.spans id in
      let s' = record s { length = s.length + (h.spans next).length } in
      set_page (set_span (delete_span h next) id s') (s'.start + s'.length - 1) id

  unfoldable pub merge_if : (PageHeap → ℕ → ℕ → PageHeap) → ℕ → Option ℕ × PageHeap → PageHeap
  merge_if merge id (none, h) = h
  merge_if merge id (some other, h) = merge h id other

  -- `MergeIntoFreeList`: `p` and `n` are the span's page and length when it starts.
  unfoldable pub merge_into_free_list : PageHeap → ℕ → PageHeap
  merge_into_free_list h id =
      let p = (h.spans id).start in
      let n = (h.spans id).length in
      let h₁ = decommit_first h id in
      let h₂ =
        merge_if merge_before id (check_and_handle_pre_merge h₁ id (get_descriptor h₁ (p - 1))) in
      let h₃ =
        merge_if merge_after id (check_and_handle_pre_merge h₂ id (get_descriptor h₂ (p + n))) in
      prepend_to_free_list h₃ id
