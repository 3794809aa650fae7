-- ===== src/Malloc/Realloc.antt =====
-- `do_realloc_with_callback` and `do_memalign_pages` of src/tcmalloc.cc. The bytes that the copy moves
-- are counted; the hooks are left out.
use gperftools.Base.{
  ℕ, ◌+◌, ◌*◌, ◌%◌, ◌^◌, min, Option, none, some, ltb, ◌==◌, if◌then◌else◌, Outcome, ok, ◌>>=◌,
}
use gperftools.SizeMap.{page_shift, pages}
use gperftools.PageHeap.{PageHeap, System, Config}
use gperftools.PageHeap.Aligned.{new_aligned}
use gperftools.Malloc.{Memory, Services, usable_size, nallocx, malloc}
use gperftools.Malloc.Free.{Pages, free}

-- What a reallocation returns: the address, if there is one, the bytes copied to it, and the memory.
pub record Moved (C : Type 0) : Type 0 where
  pub ptr : Option ℕ
  pub copied : ℕ
  pub memory : Memory C

module _ {C : Type 0} (w : Services C) (heap_pages : Pages C)
    (invalid : Memory C → ℕ → Outcome (Memory C)) (traced invalid_size : ℕ → ℕ) where
  -- What `GetSizeWithCallback` says of the old object, 0 for one that is not the allocator's.
  abbrev pub currently_usable : Memory C → ℕ → ℕ
  currently_usable s ptr =
      usable_size w.size_map (heap_pages.heap s.caches.central) traced (λ p. 0) ptr

  -- The bytes of the old object that can be copied.
  abbrev pub old_size : Memory C → ℕ → ℕ
  old_size s ptr =
      let usable = currently_usable s ptr in if usable == 0 then invalid_size ptr else usable

  -- The end of `do_realloc_with_callback`, after the allocation: the old object goes, if there is a new.
  unfoldable pub move_to : ℕ → ℕ → ℕ → ℕ → Option ℕ × Memory C → Outcome (Moved C)
  move_to id ptr size old (none, s) = ok (record { ptr = none; copied = 0; memory = s })
  move_to id ptr size old (some new_ptr, s) = do
    s' ← free w heap_pages invalid s (some id) ptr none
    ok (record { ptr = some new_ptr; copied = min old size; memory = s' })

  -- `do_realloc_with_callback` of the object at `ptr` to `size` bytes, in a thread with the cache `id`.
  unfoldable pub realloc : Memory C → ℕ → ℕ → ℕ → Outcome (Moved C)
  unfolding move_to
  realloc s id ptr size =
      if nallocx w.size_map size 0 == currently_usable s ptr
      then ok (record { ptr = some ptr; copied = 0; memory = s })
      else move_to id ptr size (old_size s ptr) (malloc w s id size)

-- `do_memalign_pages`
unfoldable pub memalign_pages : System → Config → PageHeap → ℕ → ℕ → Outcome (Option ℕ × PageHeap)
memalign_pages system config h align size =
    let some_size = if size == 0 then 1 else size in
    let run = do
      (got, h') ← new_aligned system config h (pages some_size) (pages align)
      elim got [
        | none ↦ ok (none, h')
        | some id ↦ ok (some ((h'.spans id).start * 2 ^ page_shift % 2 ^ 64), h')
      ]
    in if ltb ((size + align) % 2 ^ 64) size then ok (none, h) else run
