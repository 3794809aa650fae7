-- ===== src/ThreadCache/Backing.antt =====
-- The central free lists behind the thread caches.
use gperftools.Base.{
  ℕ, ◌<◌, ◌≡◌, refl, sym, List, [], ◌∷◌, Outcome, ok, crash, out_of_fuel, ◌>>=◌, length, Ends,
  Ends->>=,
}
use mathlib.Core.Path.{subst}
use gperftools.SizeMap.{SizeMap}
use gperftools.CentralFreeList.{State, Surroundings}
use gperftools.CentralFreeList.Transfer.{insert_range, remove_range}
use gperftools.CentralFreeList.Shrink.{Fits}
use gperftools.CentralFreeList.Within.{insert_range-Fits}
use gperftools.ThreadCache.{Central, Caches, release_to_central_cache}
use gperftools.ThreadCache.Lists.{IsCounted}
use gperftools.ThreadCache.Give.{deliver, release_to_central_cache-Given}

-- What `RemoveRange` returns, and the lists after it.
unfoldable pub removed : Outcome (List ℕ × State) → List ℕ × Outcome State
removed (ok (xs, s)) = (xs, ok s)
removed crash = ([], crash)
removed out_of_fuel = ([], out_of_fuel)

-- The lists as the thread caches use them; after a crash they stay crashed.
abbrev pub central_lists : Surroundings → Central (Outcome State)
central_lists w = record {
  remove_range = λ r cl n. removed (r >>= (λ s. remove_range w s cl n));
  insert_range = λ r cl xs n. r >>= (λ s. insert_range w s cl xs n);
}

module _ (w : Surroundings)
    (keeps : (b : ℕ) (s : State)
      → Fits w.map.num_size_classes b s.lists
      → Fits w.map.num_size_classes b (w.meanwhile s).lists) where
  abbrev FitsIn : ℕ → State → Type 0
  FitsIn b s = Fits w.map.num_size_classes b s.lists

  deliver-Fits :
      (b : ℕ) (cl : ℕ) (r : Outcome State) (rs : List (List ℕ))
      → 0 < b
      → cl < w.map.num_size_classes
      → Ends (FitsIn b) r
      → Ends (FitsIn b) (deliver (central_lists w) cl r rs)
  deliver-Fits b cl r [] some_slot h f = f
  deliver-Fits b cl r (x ∷ rs) some_slot h f =
      deliver-Fits b cl (r >>= (λ s. insert_range w s cl x (length x))) rs some_slot h (
        Ends->>= (FitsIn b) (FitsIn b) r _ f (λ s f'.
          insert_range-Fits w w.map.num_size_classes keeps refl b s cl x (length x) some_slot h f'))

  -- `ReleaseToCentralCache` of a thread cache on the central free lists keeps their transfer caches
  -- within their bounds and within any budget for all classes that they were in, as long as the lists
  -- do not crash; the class has a batch of one object at least, the cache's list of it is sound, and
  -- other threads do the same.
  pub release_to_central_cache-Fits :
      (m : SizeMap) (s : Caches (Outcome State)) (id cl n b : ℕ)
      → 0 < b
      → cl < w.map.num_size_classes
      → 0 < m.num_objects_to_move cl
      → IsCounted ((s.cache id).list cl)
      → Ends (λ c. Fits w.map.num_size_classes b c.lists) s.central
      → (s' : Caches (Outcome State)) × (release_to_central_cache (central_lists w) m s id cl n
          ≡ ok s')
        × Ends (λ c. Fits w.map.num_size_classes b c.lists) s'.central
  release_to_central_cache-Fits m s id cl n b some_slot h batch valid f =
      let (s', rs, run, given, size) =
        release_to_central_cache-Given (central_lists w) m cl batch s id n valid in
      (
        s',
        run,
        subst (λ c. Ends (FitsIn b) c) (sym given.delivered)
            (deliver-Fits b cl s.central rs some_slot h f),
      )
