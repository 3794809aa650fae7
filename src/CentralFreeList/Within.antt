-- ===== src/CentralFreeList/Within.antt =====
-- The sizes of the transfer caches: within their bounds, and within a budget for all classes.
use native.Mathlib.Nat.{mod-lt}
use gperftools.Base.{
  ℕ, zero, suc, ◌%◌, ◌<◌, ◌≡◌, inl, inr, Bool, true, false, List, ltb, ◌==◌, if◌then◌else◌, ok,
  arith, Bool-cases, Ends, Ends->>=, ltb→lt,
}
use gperftools.CentralFreeList.{CentralFreeList, State, Surroundings, release_list_to_spans}
use gperftools.CentralFreeList.Transfer.{
  evict_random_size_class, enlarge, evict_twice, make_cache_space, fill_slot, insert_range,
}
use gperftools.CentralFreeList.Shrink.{
  Fits, Fits-update, FitsIn, Shrunk, release_list-Fits, shrink_cache-Shrunk,
}

module _ (w : Surroundings) (n : ℕ)
    (keeps : (b : ℕ) (s : State) → Fits n b s.lists → Fits n b (w.meanwhile s).lists) where
  module _ (same : n ≡ w.map.num_size_classes) where
    evict_random_size_class-Shrunk :
        (b : ℕ) (s : State) (locked : ℕ) (force : Bool)
        → 0 < n
        → FitsIn w n keeps (suc b) s
        → Ends (Shrunk w n keeps b) (evict_random_size_class w s locked force)
    unfolding evict_random_size_class
    evict_random_size_class-Shrunk b s locked force some_class f =
        let t : ℕ = s.race_counter % w.map.num_size_classes in
        let h : t < n = rw same (mod-lt s.race_counter (rw (← same) some_class)) in
        elim (Bool-cases (t == locked)) [
          | inl e ↦ rw e f
          | inr e ↦ rw e (shrink_cache-Shrunk w n keeps b _ t force h f)
        ]

    evict_twice-Shrunk :
        (b : ℕ) (s : State) (cl : ℕ)
        → 0 < n
        → FitsIn w n keeps (suc b) s
        → Ends (Shrunk w n keeps b) (evict_twice w s cl)
    unfolding evict_twice
    evict_twice-Shrunk b s cl some_class f =
        Ends->>= (Shrunk w n keeps b) (Shrunk w n keeps b) (evict_random_size_class w s cl false) _
          (evict_random_size_class-Shrunk b s cl false some_class f) again
      where
        again :
            (r : Bool × State)
            → Shrunk w n keeps b r
            → Ends
                (Shrunk w n keeps b)
                (elim r.0 [ true ↦ ok (true, r.1) | false ↦ evict_random_size_class w r.1 cl true ])
        again (true, s') f' = f'
        again (false, s') f' = evict_random_size_class-Shrunk b s' cl true some_class f'

    -- Room for one more chain.
    abbrev Room : ℕ → ℕ → Bool × State → Type 0
    Room b cl (true, s) = FitsIn w n keeps b s × ((s.lists cl).used_slots < (s.lists cl).cache_size)
    Room b cl (false, s) = FitsIn w n keeps b s

    enlarge-Room :
        (b : ℕ) (s : State) (cl : ℕ)
        → FitsIn w n keeps b s
        → cl < n
        → Room (suc b) cl (enlarge s cl)
    unfolding enlarge
    enlarge-Room b s cl f h =
        elim (Bool-cases (ltb (s.lists cl).cache_size (s.lists cl).max_cache_size)) [
          | inl e ↦ rw e (
            Fits-update cl _ f (omega (arith, f.used cl)) (ground arith) (ground arith),
            ground (arith, f.used cl),
          )
          | inr e ↦
              rw e (record { used = f.used; cached = f.cached; total = omega (arith, f.total) })
        ]

    make_cache_space-Room :
        (b : ℕ) (s : State) (cl : ℕ)
        → cl < n
        → FitsIn w n keeps (suc b) s
        → Ends (Room (suc b) cl) (make_cache_space w s cl)
    unfolding make_cache_space
    make_cache_space-Room b s cl h f = elim (Bool-cases (ltb l.used_slots l.cache_size)) [
      | inl e ↦ rw e (f, ltb→lt _ _ e)
      | inr e ↦ rw e (elim (Bool-cases (l.cache_size == l.max_cache_size)) [
        | inl e' ↦ rw e' f
        | inr e' ↦ rw e' (
            Ends->>= (Shrunk w n keeps b) (Room (suc b) cl) (evict_twice w s cl) _
              (evict_twice-Shrunk b s cl (omega arith) f) after)
      ])
    ]
      where
        l : CentralFreeList
        l = s.lists cl

        after :
            (r : Bool × State)
            → Shrunk w n keeps b r
            → Room (suc b) cl (if r.0 then enlarge r.1 cl else (false, r.1))
        after (true, s') f' = enlarge-Room b s' cl f' h
        after (false, s') f' = f'

    -- `InsertRange` ends, or crashes at an object whose page has no span. It keeps the slots in use
    -- of each class within its cache, this within its bound, and all caches of the classes within
    -- any budget of a slot at least that they were in, if other threads do so.
    pub insert_range-Fits :
        (b : ℕ) (s : State) (cl : ℕ) (xs : List ℕ) (k : ℕ)
        → 0 < b
        → cl < n
        → Fits n b s.lists
        → Ends (λ s'. Fits n b s'.lists) (insert_range w s cl xs k)
    unfolding insert_range fill_slot
    insert_range-Fits zero s cl xs k some_slot h f = absurd (omega arith)
    insert_range-Fits (suc b) s cl xs k some_slot h f =
        elim (Bool-cases (k == w.map.num_objects_to_move cl)) [
          | inl e ↦ rw e (
              Ends->>= (Room (suc b) cl) (FitsIn w n keeps (suc b)) (make_cache_space w s cl) _
                (make_cache_space-Room b s cl h f) store)
          | inr e ↦ rw e (release_list-Fits w n keeps (suc b) s cl xs f)
        ]
      where
        store :
            (r : Bool × State)
            → Room (suc b) cl r
            → Ends (FitsIn w n keeps (suc b)) (elim r.0 [
              | true ↦ ok (fill_slot r.1 cl xs)
              | false ↦ release_list_to_spans w r.1 cl xs
            ])
        store (true, s') (f', room) = Fits-update cl _ f' (omega arith) (f'.cached cl) (omega arith)
        store (false, s') f' = release_list-Fits w n keeps (suc b) s' cl xs f'
