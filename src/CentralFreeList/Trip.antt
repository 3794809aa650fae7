-- ===== src/CentralFreeList/Trip.antt =====
-- What goes into a transfer cache comes out of it, and how many objects `RemoveRange` gives.
use mathlib.Core.Path.{subst}
use gperftools.Base.{
  ℕ, ◌+◌, ◌-◌, ◌<◌, ◌≡◌, refl, ap, ◌∙◌, List, update, update_self, ok, arith, eq→==, lt→ltb,
}
use gperftools.CentralFreeList.{CentralFreeList, State, Surroundings, set_list}
use gperftools.CentralFreeList.Transfer.{make_cache_space, fill_slot, insert_range, remove_range}

-- `RemoveRange` of a batch, from a cache that has one.
remove_range-slot :
    (w : Surroundings) (s : State) (cl : ℕ)
    → 0 < (s.lists cl).used_slots
    → let l = s.lists cl in
      let top = l.used_slots - 1 in
      remove_range w s cl (w.map.num_objects_to_move cl)
      ≡ ok (l.slots top, set_list s cl (record l { used_slots = top }))
unfolding remove_range
remove_range-slot w s cl h =
    let batch : ℕ = w.map.num_objects_to_move cl in
    rw (eq→== batch batch refl, lt→ltb 0 (s.lists cl).used_slots h) refl

-- A batch that `InsertRange` puts into a cache with room is the one that the next `RemoveRange` of
-- a batch gives, and then the slots in use are what they were, as are all objects of the spans.
pub remove_range-insert_range :
    (w : Surroundings) (s : State) (cl : ℕ) (xs : List ℕ)
    → (s.lists cl).used_slots < (s.lists cl).cache_size
    → let batch = w.map.num_objects_to_move cl in
      (s' : State) × (s'' : State) × (insert_range w s cl xs batch ≡ ok s')
      × (remove_range w s' cl batch ≡ ok (xs, s''))
      × ((s''.lists cl).used_slots ≡ (s.lists cl).used_slots)
      × ((i : ℕ) → i < (s.lists cl).used_slots → (s''.lists cl).slots i ≡ (s.lists cl).slots i)
      × (s''.objects ≡ s.objects)
unfolding insert_range make_cache_space fill_slot
remove_range-insert_range w s cl xs room =
    let l : CentralFreeList = s.lists cl in
    let l' : CentralFreeList = record l {
      slots = update l.slots l.used_slots xs;
      used_slots = l.used_slots + 1;
    } in
    let s' : State = set_list s cl l' in
    let at : s'.lists cl ≡ l' = update_self s.lists cl l' in
    let l'' : CentralFreeList = record l' { used_slots = l.used_slots } in
    let taken =
      subst
        (λ (k : CentralFreeList).
          remove_range w s' cl (w.map.num_objects_to_move cl)
          ≡ ok (
            k.slots (k.used_slots - 1),
            set_list s' cl (record k { used_slots = k.used_slots - 1 }),
          ))
        at (remove_range-slot w s' cl (rw at (omega arith))) in
    let back : l.used_slots + 1 - 1 ≡ l.used_slots = omega arith in
    let batch : ℕ = w.map.num_objects_to_move cl in
    (
      s',
      set_list s' cl l'',
      rw (eq→== batch batch refl, lt→ltb l.used_slots l.cache_size room) refl,
      taken
          ∙ (ap (λ (k : ℕ). ok (l'.slots k, set_list s' cl (record l' { used_slots = k }))) back
              ∙ ap (λ (ys : List ℕ). ok (ys, set_list s' cl l''))
                  (update_self l.slots l.used_slots xs)),
      ap (λ (l : CentralFreeList). l.used_slots) (update_self s'.lists cl l''),
      λ i h. ap (λ (l : CentralFreeList). l.slots i) (update_self s'.lists cl l'') ∙ ground arith,
      refl,
    )
