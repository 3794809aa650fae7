-- ===== src/CentralFreeList/Shrink.antt =====
-- The sizes of the transfer caches, and that releases and shrinking keep them within their bounds.
use gperftools.Base.{
  ℕ, suc, ◌+◌, ◌-◌, ◌/◌, ◌%◌, ◌^◌, ◌≤◌, ◌<◌, ◌≡◌, refl, inl, inr, Bool, true, false, not, ◌&&◌,
  Option, none, some, List, [], ◌∷◌, ltb, ◌==◌, if◌then◌else◌, update, ok, crash, ◌>>=◌, arith,
  Bool-cases, Ends, Ends->>=,
}
use gperftools.Base.Sums.{sum_below, sum_below-update}
use gperftools.SizeMap.{page_shift}
use gperftools.PageHeap.{add64}
use gperftools.CentralFreeList.{
  CentralFreeList, State, Surroundings, set_list, move_to_nonempty, move_to_empty, give_back,
  release_to_span, release_to_spans, release_list_to_spans,
}
use gperftools.CentralFreeList.Transfer.{shrink_locked, shrink_cache}

-- In each class the slots in use are within the cache and this within its bound; the caches of
-- the first `n` classes have at most `budget` slots together.
pub record Fits (n budget : ℕ) (lists : ℕ → CentralFreeList) : Type 0 where
  pub used : (t : ℕ) → (lists t).used_slots ≤ (lists t).cache_size
  pub cached : (t : ℕ) → (lists t).cache_size ≤ (lists t).max_cache_size
  pub total : sum_below (λ l. l.cache_size) n lists ≤ budget

record SameSizes (l l' : CentralFreeList) : Type 0 where
  same_used : l'.used_slots ≡ l.used_slots
  same_cache : l'.cache_size ≡ l.cache_size
  same_max : l'.max_cache_size ≡ l.max_cache_size

move_to_nonempty-SameSizes :
    (l : CentralFreeList) (id : ℕ) (xs : List ℕ) → SameSizes l (move_to_nonempty l id xs)
unfolding move_to_nonempty
move_to_nonempty-SameSizes l id [] = record { same_used = refl; same_cache = refl; same_max = refl }
move_to_nonempty-SameSizes l id (x ∷ xs) = record {
  same_used = refl;
  same_cache = refl;
  same_max = refl;
}

move_to_empty-SameSizes :
    (l : CentralFreeList) (id : ℕ) (xs : List ℕ) → SameSizes l (move_to_empty l id xs)
unfolding move_to_empty
move_to_empty-SameSizes l id [] = record { same_used = refl; same_cache = refl; same_max = refl }
move_to_empty-SameSizes l id (x ∷ xs) = record {
  same_used = refl;
  same_cache = refl;
  same_max = refl;
}

pub Fits-update :
    {n b b' : ℕ} {lists : ℕ → CentralFreeList} (cl : ℕ) (l : CentralFreeList)
    → Fits n b lists
    → l.used_slots ≤ l.cache_size
    → l.cache_size ≤ l.max_cache_size
    → b + (if ltb cl n then l.cache_size else 0)
      ≤ b' + (if ltb cl n then (lists cl).cache_size else 0)
    → Fits n b' (update lists cl l)
Fits-update {n} {b} {b'} {lists} cl l f used cached less = record {
  used = λ t. ground (arith, f.used t);
  cached = λ t. ground (arith, f.cached t);
  total =
      omega
        (arith, f.total, sum_below-update {A = CentralFreeList} (λ l. l.cache_size) n lists cl l);
}

Fits-same :
    {n b : ℕ} {lists : ℕ → CentralFreeList} (cl : ℕ) (l : CentralFreeList)
    → SameSizes (lists cl) l
    → Fits n b lists
    → Fits n b (update lists cl l)
Fits-same {lists = lists} cl l e f =
    Fits-update cl l f (omega (arith, e.same_used, e.same_cache, f.used cl))
      (omega (arith, e.same_cache, e.same_max, f.cached cl)) (rw e.same_cache (omega arith))

module _ (w : Surroundings) (n : ℕ)
    (keeps : (b : ℕ) (s : State) → Fits n b s.lists → Fits n b (w.meanwhile s).lists) where
  abbrev pub FitsIn : ℕ → State → Type 0
  FitsIn b s = Fits n b s.lists

  give_back-Fits : (b : ℕ) (s : State) (cl id : ℕ) → FitsIn b s → FitsIn b (give_back w s cl id)
  unfolding give_back
  give_back-Fits b s cl id f = keeps b _ (
      keeps b _
        (Fits-same cl _ (record { same_used = refl; same_cache = refl; same_max = refl }) f))

  release_to_span-Fits :
      (b : ℕ) (s : State) (cl id object : ℕ)
      → FitsIn b s
      → FitsIn b (release_to_span w s cl id object)
  unfolding release_to_span
  release_to_span-Fits b s cl id object f =
      let l : CentralFreeList = record (move_to_nonempty (s.lists cl) id (s.objects id)) {
        counter = add64 (s.lists cl).counter 1;
      } in
      let e = move_to_nonempty-SameSizes (s.lists cl) id (s.objects id) in
      let rest : ℕ = (s.refcount id + 2 ^ 16 - 1) % 2 ^ 16 in
      let f' : Fits n b (update s.lists cl l) =
        Fits-same cl l
          (record { same_used = e.same_used; same_cache = e.same_cache; same_max = e.same_max })
          f in
      elim (Bool-cases (rest == 0)) [ inl z ↦ rw z (give_back-Fits b _ cl id f') | inr z ↦ rw z f' ]

  release_to_spans-Fits :
      (b : ℕ) (s : State) (cl object : ℕ)
      → FitsIn b s
      → Ends (FitsIn b) (release_to_spans w s cl object)
  unfolding release_to_spans
  release_to_spans-Fits b s cl object f = go (s.heap.pagemap (object / 2 ^ page_shift))
    where
      go :
          (o : Option ℕ)
          → Ends
              (FitsIn b)
              (elim o [ none ↦ crash | some id ↦ ok (release_to_span w s cl id object) ])
      go none = tt
      go (some id) = release_to_span-Fits b s cl id object f

  pub release_list-Fits :
      (b : ℕ) (s : State) (cl : ℕ) (xs : List ℕ)
      → FitsIn b s
      → Ends (FitsIn b) (release_list_to_spans w s cl xs)
  unfolding release_list_to_spans
  release_list-Fits b s cl [] f = f
  release_list-Fits b s cl (x ∷ xs) f =
      Ends->>= (FitsIn b) (FitsIn b) (release_to_spans w s cl x) _
        (release_to_spans-Fits b s cl x f) (λ s' f'. release_list-Fits b s' cl xs f')

  -- A shrunk cache leaves a slot of the budget.
  abbrev pub Shrunk : ℕ → Bool × State → Type 0
  Shrunk b (true, s) = FitsIn b s
  Shrunk b (false, s) = FitsIn (suc b) s

  shrink_locked-Shrunk :
      (b : ℕ) (s : State) (t : ℕ) (force : Bool)
      → t < n
      → FitsIn (suc b) s
      → Ends (Shrunk b) (shrink_locked w s t force)
  unfolding shrink_locked
  shrink_locked-Shrunk b s t force h f = elim (Bool-cases (l.cache_size == 0)) [
    | inl e ↦ rw e f
    | inr e ↦ rw e (elim (Bool-cases (l.used_slots == l.cache_size)) [
      | inl e' ↦ rw e' (full force e e')
      | inr e' ↦
          rw e' (
            Fits-update t _ f (ground (arith, f.used t)) (omega (arith, f.cached t)) (ground arith))
    ])
  ]
    where
      l : CentralFreeList
      l = s.lists t

      full :
          (force : Bool)
          → (l.cache_size == 0) ≡ false
          → (l.used_slots == l.cache_size) ≡ true
          → let top = l.used_slots - 1 in
            let smaller = record l { cache_size = l.cache_size - 1; used_slots = top } in
            Ends (Shrunk b) (
              if force
              then release_list_to_spans w (set_list s t smaller) t (l.slots top)
                >>= (λ s'. ok (true, s'))
              else ok (false, s))
      full false e e' = f
      full true e e' =
          Ends->>= (FitsIn b) (Shrunk b) _ _
            (release_list-Fits b _ t _ (
              Fits-update t _ f (ground (arith, f.used t)) (omega (arith, f.cached t))
                (ground arith)))
            (λ s' f'. f')

  pub shrink_cache-Shrunk :
      (b : ℕ) (s : State) (t : ℕ) (force : Bool)
      → t < n
      → FitsIn (suc b) s
      → Ends (Shrunk b) (shrink_cache w s t force)
  unfolding shrink_cache
  shrink_cache-Shrunk b s t force h f = elim (Bool-cases ((s.lists t).cache_size == 0)) [
    | inl e ↦ rw e f
    | inr e ↦
        rw e (elim (Bool-cases (not force && (s.lists t).used_slots == (s.lists t).cache_size)) [
          | inl e' ↦ rw e' f
          | inr e' ↦ rw e' (
              Ends->>= (Shrunk b) (Shrunk b) (shrink_locked w (w.meanwhile s) t force) _
                (shrink_locked-Shrunk b (w.meanwhile s) t force h (keeps (suc b) s f)) after)
        ])
  ]
    where
      after : (r : Bool × State) → Shrunk b r → Shrunk b (r.0, w.meanwhile r.1)
      after (true, s') f' = keeps b s' f'
      after (false, s') f' = keeps (suc b) s' f'
