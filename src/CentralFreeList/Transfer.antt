-- ===== src/CentralFreeList/Transfer.antt =====
-- The transfer cache: whole batches in slots, and the space for them that the classes share.
use gperftools.Base.{
  ℕ, ◌+◌, ◌-◌, ◌*◌, ◌/◌, ◌%◌, min, max, Bool, true, false, not, ◌&&◌, List, [], ◌∷◌, ltb, leb, ◌==◌,
  if◌then◌else◌, update, Outcome, ok, ◌>>=◌,
}
use gperftools.SizeMap.{SizeMap, page_size}
use gperftools.CentralFreeList.{
  CentralFreeList, State, Surroundings, set_list, release_list_to_spans, fetch_from_one_spans_safe,
  fetch_loop,
}

-- `kMaxNumTransferEntries`
abbrev pub max_num_transfer_entries : ℕ
max_num_transfer_entries = 64

-- `Init`
unfoldable pub init_list : SizeMap → ℕ → CentralFreeList
init_list m cl =
    let most =
      min max_num_transfer_entries
        (max 1 (1024 * 1024 / (m.class_to_size cl * m.num_objects_to_move cl))) in
    record {
      empty = [];
      nonempty = [];
      num_spans = 0;
      counter = 0;
      slots = λ i. [];
      used_slots = 0;
      cache_size = if ltb 0 cl then min 16 most else 16;
      max_cache_size = if ltb 0 cl then most else max_num_transfer_entries;
    }

-- The last step of `MakeCacheSpace`, after an eviction.
unfoldable pub enlarge : State → ℕ → Bool × State
enlarge s cl =
    let l = s.lists cl in
    if ltb l.cache_size l.max_cache_size
    then (true, set_list s cl (record l { cache_size = l.cache_size + 1 }))
    else (false, s)

-- A chain goes into the next slot.
unfoldable pub fill_slot : State → ℕ → List ℕ → State
fill_slot s cl xs =
    let l = s.lists cl in
    set_list s cl
      (record l { slots = update l.slots l.used_slots xs; used_slots = l.used_slots + 1 })

module _ (w : Surroundings) where
  -- `ShrinkCache` of the class `t`, once it has the lock of that class.
  unfoldable pub shrink_locked : State → ℕ → Bool → Outcome (Bool × State)
  shrink_locked s t force =
      let l = s.lists t in
      let smaller = record l { cache_size = l.cache_size - 1 } in
      let evict = do
        let top = l.used_slots - 1
        s' ←
            release_list_to_spans w (set_list s t (record smaller { used_slots = top })) t
              (l.slots top)
        ok (true, s')
      in if l.cache_size == 0
        then ok (false, s)
        else if l.used_slots == l.cache_size
        then if force then evict else ok (false, s)
        else ok (true, set_list s t smaller)

  -- `ShrinkCache`: a quick check, and then the exchange of one lock for the other and back.
  unfoldable pub shrink_cache : State → ℕ → Bool → Outcome (Bool × State)
  shrink_cache s t force =
      let l = s.lists t in
      let run = do (shrunk, s') ← shrink_locked (w.meanwhile s) t force; ok (shrunk, w.meanwhile s')
      in if l.cache_size == 0
        then ok (false, s)
        else if not force && l.used_slots == l.cache_size
        then ok (false, s)
        else run

  -- `EvictRandomSizeClass`: the race counter comes round after the last class.
  unfoldable pub evict_random_size_class : State → ℕ → Bool → Outcome (Bool × State)
  evict_random_size_class s locked force =
      let n = w.map.num_size_classes in
      let t = s.race_counter % n in
      let s' = record s { race_counter = if leb n s.race_counter then t else s.race_counter + 1 } in
      if t == locked then ok (false, s') else shrink_cache s' t force

  -- The two attempts of `MakeCacheSpace` to evict.
  unfoldable pub evict_twice : State → ℕ → Outcome (Bool × State)
  evict_twice s cl = do
    (gentle, s₁) ← evict_random_size_class s cl false
    elim gentle [ true ↦ ok (true, s₁) | false ↦ evict_random_size_class s₁ cl true ]

  -- `MakeCacheSpace`
  unfoldable pub make_cache_space : State → ℕ → Outcome (Bool × State)
  make_cache_space s cl =
      let l = s.lists cl in
      let run = do
        (evicted, s') ← evict_twice s cl
        ok (if evicted then enlarge s' cl else (false, s'))
      in if ltb l.used_slots l.cache_size
        then ok (true, s)
        else if l.cache_size == l.max_cache_size
        then ok (false, s)
        else run

  -- `InsertRange` of a chain of `n` objects.
  unfoldable pub insert_range : State → ℕ → List ℕ → ℕ → Outcome State
  insert_range s cl xs n =
      let cached = do
        (room, s') ← make_cache_space s cl
        elim room [ true ↦ ok (fill_slot s' cl xs) | false ↦ release_list_to_spans w s' cl xs ]
      in if n == w.map.num_objects_to_move cl then cached else release_list_to_spans w s cl xs

  -- `RemoveRange`: the objects, as many as it returns.
  unfoldable pub remove_range : State → ℕ → ℕ → Outcome (List ℕ × State)
  remove_range s cl n =
      let l = s.lists cl in
      let top = l.used_slots - 1 in
      let fetched = do
        (xs, s') ← fetch_from_one_spans_safe w s cl n
        elim xs [ [] ↦ ok ([], s') | y ∷ ys ↦ fetch_loop w n s' cl n (y ∷ ys) ]
      in if n == w.map.num_objects_to_move cl && ltb 0 l.used_slots
        then ok (l.slots top, set_list s cl (record l { used_slots = top }))
        else fetched

  -- `tc_length`
  unfoldable pub tc_length : State → ℕ → ℕ
  tc_length s cl = (s.lists cl).used_slots * w.map.num_objects_to_move cl

  -- `OverheadBytes`
  unfoldable pub overhead_bytes : State → ℕ → ℕ
  overhead_bytes s cl =
      if cl == 0
      then 0
      else (s.lists cl).num_spans * (w.map.class_to_pages cl * page_size % w.map.class_to_size cl)
