-- ===== src/Malloc/Free.antt =====
-- The freeing side of src/tcmalloc.cc: where an address goes back to. The page heap is a part of the
-- state `C` of the central free lists, which `Pages` reads and replaces. What happens to an address
-- that is not the allocator's is a parameter.
use gperftools.Base.{
  ℕ, ◌*◌, ◌/◌, ◌%◌, ◌^◌, Bool, true, false, not, Option, none, some, [], ◌∷◌, ◌==◌, if◌then◌else◌,
  Outcome, ok, ◌>>=◌, ◌>>◌, check,
}
use gperftools.SizeMap.{SizeMap, page_shift, get_size_class}
use gperftools.PageHeap.{PageHeap, System, Config, same_location, in_use}
use gperftools.PageHeap.Release.{delete_locked}
use gperftools.PageHeap.Aligned.{try_get_size_class, set_cached_size_class}
use gperftools.ThreadCache.{deallocate}
use gperftools.Malloc.{Memory, Services}

-- Where `do_free_with_callback` finds that an address belongs: nowhere, to a span of its own, or to a
-- size class, which is to be cached for the page or not.
pub data Target : Type 0 where
  unknown : Target
  whole : ℕ → Target
  small : Bool → ℕ → Target

-- The part for a span: its size class, if it has one.
abbrev pub span_target : PageHeap → Bool → ℕ → Target
span_target h use_hint id =
    let cl = (h.spans id).sizeclass in if cl == 0 then whole id else small (not use_hint) cl

-- The part that looks at the page map.
unfoldable pub page_target : PageHeap → Bool → ℕ → Target
page_target h use_hint p = elim (h.pagemap p) [
  | none ↦ unknown
  | some id ↦ span_target h use_hint id
]

-- The part without a size class from the hint. With a hint the cache of classes is not probed.
unfoldable pub probe_target : PageHeap → Bool → ℕ → Target
unfolding page_target
probe_target h true p = page_target h true p
probe_target h false p = elim (try_get_size_class h p) [
  | some cl ↦ small false cl
  | none ↦ page_target h false p
]

-- The first part of `do_free_with_callback`, with the size hint of a sized delete or without.
unfoldable pub free_target : SizeMap → PageHeap → Option ℕ → ℕ → Target
unfolding probe_target
free_target m h none p = probe_target h false p
free_target m h (some size) p = elim (get_size_class m size) [
  | some cl ↦ small false cl
  | none ↦ probe_target h true p
]

-- The page heap in the state, and what it works with.
pub record Pages (C : Type 0) : Type 0 where
  pub heap : C → PageHeap
  pub with_heap : C → PageHeap → C
  pub system : System
  pub config : Config

module _ {C : Type 0} (w : Services C) (pages : Pages C)
    (invalid : Memory C → ℕ → Outcome (Memory C)) where
  abbrev pub set_heap : Memory C → PageHeap → Memory C
  set_heap s h = record s {
    caches = record s.caches { central = pages.with_heap s.caches.central h };
  }

  -- `do_free_pages`, but for the stack trace of a sampled span.
  unfoldable pub free_pages : Memory C → ℕ → ℕ → Outcome (Memory C)
  free_pages s id ptr = do
    let h = pages.heap s.caches.central
    let span = h.spans id
    check (same_location span.location in_use)
    check (span.start * 2 ^ page_shift % 2 ^ 64 == ptr)
    ok (set_heap s (delete_locked pages.system pages.config h id))

  -- The end of `do_free_with_callback` for a size class: the thread's cache, or the central list.
  unfoldable pub free_small : Memory C → Option ℕ → ℕ → ℕ → Outcome (Memory C)
  free_small s (some id) ptr cl = do
    caches ← deallocate w.central w.size_map s.caches id ptr cl
    ok (record s { caches = caches })
  free_small s none ptr cl = ok (record s {
    caches = record s.caches { central = w.central.insert_range s.caches.central cl (ptr ∷ []) 1 };
  })

  -- What becomes of an address, by its target.
  unfoldable pub free_to : Memory C → Option ℕ → ℕ → Target → Outcome (Memory C)
  unfolding free_pages free_small
  free_to s present ptr unknown = if ptr == 0 then ok s else invalid s ptr
  free_to s present ptr (whole id) = free_pages s id ptr
  free_to s present ptr (small false cl) = free_small s present ptr cl
  free_to s present ptr (small true cl) =
      let h = pages.heap s.caches.central in
      free_small (set_heap s (set_cached_size_class h (ptr / 2 ^ page_shift) cl)) present ptr cl

  -- `do_free_with_callback` after initialization, in a thread with the cache `present`, if it has one.
  unfoldable pub free : Memory C → Option ℕ → ℕ → Option ℕ → Outcome (Memory C)
  unfolding free_to free_target
  free s present ptr hint =
      free_to s present ptr
        (free_target w.size_map (pages.heap s.caches.central) hint (ptr / 2 ^ page_shift))
