-- ===== src/ThreadCache/Space.antt =====
-- The cache space that the threads share: `IncreaseCacheLimit` moves it and makes none.
use gperftools.Base.{
  ℕ, zero, suc, ◌+◌, ◌-◌, ◌%◌, ◌^◌, ◌<◌, ◌≡◌, refl, inl, inr, List, [], ◌∷◌, All, leb, ◌==◌, ◌||◌,
  Option, none, some, if◌then◌else◌, ok, crash, arith, Bool-cases, Ends, lt→ltb,
}
use gperftools.Base.Sums.{sum_below, sum_below-update}
use gperftools.ThreadCache.{
  ThreadCache, Caches, after, or_first, steal_loop, increase_cache_limit, set_max_size, sub32,
  add32, widen, steal_amount, is_positive,
}

-- The space that is unclaimed and that the first `n` caches claim, as a word of 32 bits.
abbrev pub space : {C : Type 0} → ℕ → Caches C → ℕ
space n s = (s.unclaimed + sum_below (λ t. t.max_size) n s.cache) % 2 ^ 32

abbrev pub IsBelow : ℕ → Option ℕ → Type 0
IsBelow n none = Unit {0}
IsBelow n (some x) = x < n

-- The caches in use, and the next to steal from, are among the first `n`.
pub record InUse {C : Type 0} (n : ℕ) (s : Caches C) : Type 0 where
  pub heaps : All (λ x. x < n) s.heaps
  pub steal : IsBelow n s.next_steal

after-IsBelow : (n id : ℕ) (xs : List ℕ) → All (λ x. x < n) xs → IsBelow n (after id xs)
unfolding after
after-IsBelow n id [] h = tt
after-IsBelow n id (x ∷ []) h = tt
after-IsBelow n id (x ∷ y ∷ xs) (hx, (hy, h)) = elim (Bool-cases (x == id)) [
  | inl e ↦ rw e hy
  | inr e ↦ rw e (after-IsBelow n id (y ∷ xs) (hy, h))
]

or_first-IsBelow :
    (n : ℕ) (o : Option ℕ) (xs : List ℕ)
    → IsBelow n o
    → All (λ x. x < n) xs
    → IsBelow n (or_first o xs)
unfolding or_first
or_first-IsBelow n (some x) xs h hs = h
or_first-IsBelow n none [] h hs = tt
or_first-IsBelow n none (x ∷ xs) h hs = hs.0

module _ {C : Type 0} (n : ℕ) where
  -- A cache whose maximum is set.
  set_max_size-space :
      (s : Caches C) (id v : ℕ)
      → id < n
      → (space n (set_max_size s id v) + (s.cache id).max_size) % 2 ^ 32 ≡ (space n s + v) % 2 ^ 32
  set_max_size-space s id v h =
      let e =
        sum_below-update {A = ThreadCache} (λ t. t.max_size) n s.cache id
          (record (s.cache id) { max_size = v }) in
      ground (arith, lt→ltb id n h)

  steal_loop-space :
      (rounds : ℕ) (s : Caches C) (id : ℕ)
      → id < n
      → InUse n s
      → Ends (λ s'. space n s' ≡ space n s) (steal_loop rounds s id)
  unfolding steal_loop
  steal_loop-space zero s id h u = refl
  steal_loop-space (suc rounds) s id h u =
      go (or_first s.next_steal s.heaps) (or_first-IsBelow n s.next_steal s.heaps u.steal u.heaps)
        (λ s' u'. steal_loop-space rounds s' id h u')
    where
      go :
          (o : Option ℕ)
          → IsBelow n o
          → ((s' : Caches C)
              → InUse n s'
              → Ends (λ s''. space n s'' ≡ space n s') (steal_loop rounds s' id))
          → Ends
              (λ s'. space n s' ≡ space n s)
              (elim o [
                | none ↦ crash
                | some x ↦
                    let onward : Caches C = record s { next_steal = after x s.heaps } in
                    let rest = steal_loop rounds onward id in
                    let taken : Caches C =
                      set_max_size onward x (sub32 (s.cache x).max_size steal_amount) in
                    if x == id || leb (widen (s.cache x).max_size) s.min_size
                    then rest
                    else ok (set_max_size taken id (add32 (taken.cache id).max_size steal_amount))
              ])
      go none b ih = tt
      go (some x) b ih =
          let onward : Caches C = record s { next_steal = after x s.heaps } in
          let u' : InUse n onward = record {
            heaps = u.heaps;
            steal = after-IsBelow n x s.heaps u.heaps;
          } in
          elim (Bool-cases (x == id || leb (widen (s.cache x).max_size) s.min_size)) [
            | inl e ↦ rw e (ih onward u')
            | inr e ↦
                let taken : Caches C =
                  set_max_size onward x (sub32 (s.cache x).max_size steal_amount) in
                let first =
                  set_max_size-space onward x (sub32 (s.cache x).max_size steal_amount) b in
                let second =
                  set_max_size-space taken id (add32 (taken.cache id).max_size steal_amount) h in
                rw e (omega (arith, first, second))
          ]

  -- `IncreaseCacheLimit` of a cache ends, and if it does not crash, it neither makes nor loses cache
  -- space, as 32-bit words count it: the unclaimed space and the limits of the first n caches add
  -- up to what they were. The cache is one of these, as are the caches in use and the next to steal
  -- from.
  pub increase_cache_limit-space :
      (s : Caches C) (id : ℕ)
      → id < n
      → InUse n s
      → Ends (λ s'. space n s' ≡ space n s) (increase_cache_limit s id)
  unfolding increase_cache_limit
  increase_cache_limit-space s id h u = elim (Bool-cases (is_positive s.unclaimed)) [
    | inl e ↦
        let s' : Caches C = record s {
          unclaimed = (s.unclaimed + 2 ^ 64 - steal_amount) % 2 ^ 64;
        } in
        rw e (omega (arith, set_max_size-space s' id (add32 (s.cache id).max_size steal_amount) h))
    | inr e ↦ rw e (steal_loop-space 10 s id h u)
  ]
