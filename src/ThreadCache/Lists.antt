-- ===== src/ThreadCache/Lists.antt =====
-- The free lists of a thread cache: their counts, and the low-water mark.
use gperftools.Base.{
  ℕ, suc, ◌+◌, ◌^◌, ◌≤◌, ◌<◌, ◌≡◌, refl, arith, List, length, length-append, length-drop, take,
  drop, le→ltb_false, ok,
}
use gperftools.ThreadCache.{FreeList, sub32, push, push_range, pop_range, lower}

-- A free list that knows its length, with its low-water mark at most that.
pub record IsCounted (l : FreeList) : Type 0 where
  pub counted : l.count ≡ length l.objects
  pub small : length l.objects < 2 ^ 32
  pub marked : l.lowater ≤ l.count

push-IsCounted :
    (l : FreeList) (ptr : ℕ)
    → IsCounted l
    → suc (length l.objects) < 2 ^ 32
    → IsCounted (push l ptr)
unfolding push
push-IsCounted l ptr h room = record {
  counted = omega (arith, h.counted);
  small = room;
  marked = omega (arith, h.counted, h.marked);
}

push_range-IsCounted :
    (l : FreeList) (range : List ℕ)
    → IsCounted l
    → length range + length l.objects < 2 ^ 32
    → IsCounted (push_range l (length range) range)
unfolding push_range
push_range-IsCounted l range h room = record {
  counted = omega (arith, h.counted, length-append range l.objects);
  small = omega (arith, length-append range l.objects);
  marked = omega (arith, h.counted, h.marked);
}

-- `FreeList::PopRange` gives the first n objects of a list that has as many, leaves the others, and
-- keeps the count of the list and its low-water mark right.
pub pop_range-IsCounted :
    (l : FreeList) (n : ℕ)
    → IsCounted l
    → n ≤ length l.objects
    → (l' : FreeList) × (pop_range l n ≡ ok (take n l.objects, l'))
      × (l'.objects ≡ drop n l.objects)
      × (l'.count + n ≡ l.count)
      × IsCounted l'
unfolding pop_range
pop_range-IsCounted l n h fits =
    let left = length-drop n l.objects in
    let c : sub32 l.count n ≡ length (drop n l.objects) = omega (arith, h.counted, h.small) in
    (
      lower l (drop n l.objects) n,
      rw (le→ltb_false (length l.objects) n fits) refl,
      refl,
      omega (arith, h.counted),
      record { counted = c; small = omega (arith, h.small); marked = ground arith },
    )
