-- ===== src/ThreadCache.antt =====
-- `ThreadCache` of src/thread_cache.h and src/thread_cache.cc: the free lists of a thread, by size
-- class, and how they trade objects with the central free lists and cache space with each other.
-- A free list is the list of its objects from the head, as src/linked_list.h links them. `uint32_t`
-- and `int32_t` are words of 32 bits. The central free lists are a `Central` with a state of its
-- own; `none` as an allocated object is the answer of the handler of memory exhaustion. Caches are
-- numbers; the sampler and the recomputing of the limits, in floating point, are not modelled.
pub mod Lists
pub mod Give
pub mod Space
pub mod Backing
use gperftools.Base.{
  ℕ, zero, suc, ◌+◌, ◌-◌, ◌*◌, ◌/◌, ◌%◌, ◌^◌, min, max, Bool, true, false, ◌&&◌, ◌||◌, Option, none,
  some, List, [], ◌∷◌, ◌++◌, length, take, drop, ltb, leb, ◌==◌, if◌then◌else◌, update, Outcome, ok,
  crash, out_of_fuel, ◌>>=◌, ◌>>◌,
}
use gperftools.SizeMap.{SizeMap}
use gperftools.PageHeap.{erase}

abbrev pub add32 : ℕ → ℕ → ℕ
add32 a b = (a + b) % 2 ^ 32

abbrev pub sub32 : ℕ → ℕ → ℕ
sub32 a b = (a + 2 ^ 32 - b % 2 ^ 32) % 2 ^ 32

-- a > b on `int32_t`
abbrev pub gt32 : ℕ → ℕ → Bool
gt32 a b = ltb ((b + 2 ^ 31) % 2 ^ 32) ((a + 2 ^ 31) % 2 ^ 32)

-- an `int32_t` as a `size_t`
abbrev pub widen : ℕ → ℕ
widen a = if ltb a (2 ^ 31) then a else a + 2 ^ 64 - 2 ^ 32

-- `kMaxOverages`, `kMaxDynamicFreeListLength` and `kStealAmount`
abbrev pub max_overages : ℕ
max_overages = 3

abbrev pub max_dynamic_length : ℕ
max_dynamic_length = 8192

abbrev pub steal_amount : ℕ
steal_amount = 2 ^ 16

pub record FreeList : Type 0 where
  pub objects : List ℕ
  pub count : ℕ
  pub lowater : ℕ
  pub max_length : ℕ
  pub length_overages : ℕ
  pub object_size : ℕ

-- `FreeList::Init`
unfoldable pub init_list : ℕ → FreeList
init_list size = record {
  objects = [];
  count = 0;
  lowater = 0;
  max_length = 1;
  length_overages = 0;
  object_size = size;
}

-- `FreeList::Push`
unfoldable pub push : FreeList → ℕ → FreeList
push l ptr = record l { objects = ptr ∷ l.objects; count = add32 l.count 1 }

-- the count lowered by n, and the low-water mark with it
abbrev pub lower : FreeList → List ℕ → ℕ → FreeList
lower l rest n =
    let c = sub32 l.count n in
    record l { objects = rest; count = c; lowater = if ltb c l.lowater then c else l.lowater }

-- `FreeList::TryPop`
unfoldable pub try_pop : FreeList → Option (ℕ × FreeList)
try_pop l = elim l.objects [ [] ↦ none | x ∷ rest ↦ some (x, lower l rest 1) ]

-- `FreeList::PushRange`
unfoldable pub push_range : FreeList → ℕ → List ℕ → FreeList
push_range l n range = record l { objects = range ++ l.objects; count = add32 l.count n }

-- `FreeList::PopRange`. The walk past the end of the list reads a null pointer.
unfoldable pub pop_range : FreeList → ℕ → Outcome (List ℕ × FreeList)
pop_range l n =
    if ltb (length l.objects) n then crash else ok (take n l.objects, lower l (drop n l.objects) n)

-- `clear_lowwatermark`
unfoldable pub clear_lowwatermark : FreeList → FreeList
clear_lowwatermark l = record l { lowater = l.count }

-- `RemoveRange` and `InsertRange` of the central free list of a class. `RemoveRange` gives the
-- objects of its chain, whose number it returns.
pub record Central (C : Type 0) : Type 0 where
  pub remove_range : C → ℕ → ℕ → List ℕ × C
  pub insert_range : C → ℕ → List ℕ → ℕ → C

pub record ThreadCache : Type 0 where
  pub list : ℕ → FreeList
  pub size : ℕ
  pub max_size : ℕ

-- The caches, those in use from `thread_heaps_` on, and the space they share.
pub record Caches (C : Type 0) : Type 0 where
  pub cache : ℕ → ThreadCache
  pub heaps : List ℕ
  pub next_steal : Option ℕ
  pub unclaimed : ℕ
  pub min_size : ℕ
  pub central : C

-- `unclaimed_cache_space_ > 0`, a `ssize_t`
abbrev pub is_positive : ℕ → Bool
is_positive a = ltb 0 a && ltb a (2 ^ 63)

-- The `next_` of a cache in the list.
unfoldable pub after : ℕ → List ℕ → Option ℕ
after id [] = none
after id (x ∷ []) = none
after id (x ∷ y ∷ xs) = if x == id then some y else after id (y ∷ xs)

-- `next_memory_steal_`, or the start of the list if it is null.
unfoldable pub or_first : Option ℕ → List ℕ → Option ℕ
or_first (some x) xs = some x
or_first none [] = none
or_first none (x ∷ xs) = some x

module _ {C : Type 0} where
  abbrev pub set_cache : Caches C → ℕ → ThreadCache → Caches C
  set_cache s id t = record s { cache = update s.cache id t }

  abbrev pub set_list : Caches C → ℕ → ℕ → FreeList → Caches C
  set_list s id cl l = let t = s.cache id in set_cache s id (record t { list = update t.list cl l })

  -- `SetMaxSize`
  abbrev pub set_max_size : Caches C → ℕ → ℕ → Caches C
  set_max_size s id n = let t = s.cache id in set_cache s id (record t { max_size = n })

  abbrev pub set_size : Caches C → ℕ → ℕ → Caches C
  set_size s id n = let t = s.cache id in set_cache s id (record t { size = n })

  -- The loop of `IncreaseCacheLimitLocked`, with the rounds left.
  unfoldable pub steal_loop : ℕ → Caches C → ℕ → Outcome (Caches C)
  steal_loop zero s id = ok s
  steal_loop (suc rounds) s id = elim (or_first s.next_steal s.heaps) [
    | none ↦ crash
    | some x ↦
        let onward = record s { next_steal = after x s.heaps } in
        let rest = steal_loop rounds onward id in
        let taken = set_max_size onward x (sub32 (s.cache x).max_size steal_amount) in
        if x == id || leb (widen (s.cache x).max_size) s.min_size
        then rest
        else ok (set_max_size taken id (add32 (taken.cache id).max_size steal_amount))
  ]

  -- `IncreaseCacheLimitLocked`
  unfoldable pub increase_cache_limit : Caches C → ℕ → Outcome (Caches C)
  unfolding steal_loop
  increase_cache_limit s id =
      if is_positive s.unclaimed
      then ok (
          set_max_size (record s { unclaimed = (s.unclaimed + 2 ^ 64 - steal_amount) % 2 ^ 64 }) id
            (add32 (s.cache id).max_size steal_amount))
      else steal_loop 10 s id

  module _ (central : Central C) (m : SizeMap) where
    -- The loop of `ReleaseToCentralCache` and the last range, on the central state and the list.
    unfoldable pub give_loop : ℕ → ℕ → C → FreeList → ℕ → Outcome (C × FreeList)
    give_loop zero cl c l n = out_of_fuel
    give_loop (suc fuel) cl c l n =
        let batch = m.num_objects_to_move cl in
        let full = do
          (range, l') ← pop_range l batch
          give_loop fuel cl (central.insert_range c cl range batch) l' (n - batch)
        in let last = do (range, l') ← pop_range l n; ok (central.insert_range c cl range n, l')
          in if ltb batch n then full else last

    -- `ReleaseToCentralCache`: a round for each object at most, if the batches are not empty.
    unfoldable pub release_to_central_cache : Caches C → ℕ → ℕ → ℕ → Outcome (Caches C)
    unfolding give_loop
    release_to_central_cache s id cl n = do
      let l = (s.cache id).list cl
      let n' = if ltb l.count n then l.count else n
      (c, l') ← give_loop (n' + 1) cl s.central l n'
      let s' = set_list (record s { central = c }) id cl l'
      ok (set_size s' id (sub32 (s.cache id).size (n' * m.class_to_size cl)))

    -- The body of the loop of `Scavenge`.
    unfoldable pub scavenge_list : Caches C → ℕ → ℕ → Outcome (Caches C)
    scavenge_list s id cl =
        let lowmark = ((s.cache id).list cl).lowater in
        let batch = m.num_objects_to_move cl in
        let clear =
          (λ (s : Caches C). set_list s id cl (clear_lowwatermark ((s.cache id).list cl))) in
        let drop_some = do
          s' ← release_to_central_cache s id cl (if ltb 1 lowmark then lowmark / 2 else 1)
          let l = (s'.cache id).list cl
          let shrunk = record l { max_length = max (l.max_length - batch) batch }
          ok (clear (if ltb batch l.max_length then set_list s' id cl shrunk else s'))
        in if ltb 0 lowmark then drop_some else ok (clear s)

    unfoldable pub scavenge_loop : ℕ → Caches C → ℕ → ℕ → Outcome (Caches C)
    unfolding scavenge_list
    scavenge_loop zero s id cl = ok s
    scavenge_loop (suc rounds) s id cl = do
      s' ← scavenge_list s id cl
      scavenge_loop rounds s' id (cl + 1)

    -- `Scavenge`
    unfoldable pub scavenge : Caches C → ℕ → Outcome (Caches C)
    unfolding scavenge_loop
    scavenge s id = do s' ← scavenge_loop m.num_size_classes s id 0; increase_cache_limit s' id

    -- How `ListTooLong` moves the maximum towards the batch size.
    unfoldable pub adjust_max_length : FreeList → ℕ → FreeList
    adjust_max_length l batch =
        if ltb l.max_length batch
        then record l { max_length = l.max_length + 1 }
        else if ltb batch l.max_length
        then if ltb max_overages (l.length_overages + 1)
          then record l { max_length = l.max_length - batch; length_overages = 0 }
          else record l { length_overages = l.length_overages + 1 }
        else l

    unfoldable pub scavenge_if : Caches C → ℕ → Outcome (Caches C)
    scavenge_if s id = let t = s.cache id in if gt32 t.size t.max_size then scavenge s id else ok s

    -- `ListTooLong`
    unfoldable pub list_too_long : Caches C → ℕ → ℕ → Outcome (Caches C)
    unfolding scavenge_if adjust_max_length release_to_central_cache
    list_too_long s id cl = do
      let t = s.cache id
      let batch = m.num_objects_to_move cl
      s' ←
          release_to_central_cache (set_size s id (add32 t.size (t.list cl).object_size)) id cl
            batch
      scavenge_if (set_list s' id cl (adjust_max_length ((s'.cache id).list cl) batch)) id

    -- `Deallocate`
    unfoldable pub deallocate : Caches C → ℕ → ℕ → ℕ → Outcome (Caches C)
    unfolding list_too_long scavenge_if
    deallocate s id ptr cl =
        let l = push ((s.cache id).list cl) ptr in
        let s' = set_list s id cl l in
        if ltb l.max_length l.count
        then list_too_long s' id cl
        else scavenge_if (set_size s' id (add32 (s'.cache id).size l.object_size)) id

    -- The new maximum of `FetchFromCentralCache`.
    unfoldable pub grown_max_length : ℕ → ℕ → ℕ
    grown_max_length max_length batch =
        let bound = min (max_length + batch) max_dynamic_length in
        if ltb max_length batch then max_length + 1 else bound - bound % batch

    -- `FetchFromCentralCache`
    unfoldable pub fetch_from_central_cache : Caches C → ℕ → ℕ → ℕ → Option ℕ × Caches C
    unfolding grown_max_length
    fetch_from_central_cache s id cl byte_size =
        let t = s.cache id in
        let l = t.list cl in
        let batch = m.num_objects_to_move cl in
        let (range, c) = central.remove_range s.central cl (min l.max_length batch) in
        let s' = record s { central = c } in
        elim range [
          | [] ↦ (none, s')
          | x ∷ rest ↦
              let l' = push_range l (length rest) rest in
              let l'' = record l' { max_length = grown_max_length l.max_length batch } in
              (some x, set_size (set_list s' id cl l'') id (add32 t.size (byte_size * length rest)))
        ]

    -- `Allocate`
    unfoldable pub allocate : Caches C → ℕ → ℕ → ℕ → Option ℕ × Caches C
    unfolding fetch_from_central_cache
    allocate s id size cl = elim (try_pop ((s.cache id).list cl)) [
      | none ↦ fetch_from_central_cache s id cl size
      | some (x, l) ↦ (some x, set_size (set_list s id cl l) id (sub32 (s.cache id).size size))
    ]

    -- The constructor, for a cache `id` that is not in use.
    unfoldable pub construct : Caches C → ℕ → Outcome (Caches C)
    construct s id = do
      s₁ ←
          increase_cache_limit
            (set_cache s id
              (record { list = λ cl. init_list (m.class_to_size cl); size = 0; max_size = 0 }))
            id
      let poor =
          set_max_size (record s₁ { unclaimed = (s₁.unclaimed + 2 ^ 64 - s₁.min_size) % 2 ^ 64 }) id
            (s₁.min_size % 2 ^ 32)
      ok (if (s₁.cache id).max_size == 0 then poor else s₁)

    -- `NewHeap`
    unfoldable pub new_cache : Caches C → ℕ → Outcome (Caches C)
    unfolding construct
    new_cache s id = do
      s₁ ← construct s id
      let first : Option ℕ = elim s.heaps [ [] ↦ some id | _ ∷ _ ↦ s₁.next_steal ]
      ok (record s₁ { heaps = id ∷ s₁.heaps; next_steal = first })

    -- The loop of the destructor.
    unfoldable pub release_lists : ℕ → Caches C → ℕ → ℕ → Outcome (Caches C)
    unfolding release_to_central_cache
    release_lists zero s id cl = ok s
    release_lists (suc rounds) s id cl = do
      let n = ((s.cache id).list cl).count
      s' ← (if ltb 0 n then release_to_central_cache s id cl n else ok s)
      release_lists rounds s' id (cl + 1)

    -- `DeleteCache`
    unfoldable pub delete_cache : Caches C → ℕ → Outcome (Caches C)
    unfolding release_lists after
    delete_cache s id = do
      s₁ ← release_lists m.num_size_classes s id 0
      let rest = erase id s₁.heaps
      let moved : Option ℕ = elim s₁.next_steal [
        | none ↦ none
        | some x ↦ if x == id then after id s₁.heaps else some x
      ]
      let first : Option ℕ = elim rest [ [] ↦ none | x ∷ xs ↦ some x ]
      ok (record s₁ {
        heaps = rest;
        next_steal = elim moved [ none ↦ first | some x ↦ some x ];
        unclaimed = (s₁.unclaimed + widen (s₁.cache id).max_size) % 2 ^ 64;
      })
