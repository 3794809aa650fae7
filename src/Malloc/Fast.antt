-- ===== src/Malloc/Fast.antt =====
-- The fast path of malloc against the full one.
use gperftools.Base.{
  ℕ, ◌-◌, update, ◌<◌, ◌^◌, ◌≡◌, refl, sym, ap, ◌∙◌, inl, inr, Bool, true, false, Option, none,
  some, ltb, ◌==◌, if◌then◌else◌, arith, Bool-cases,
}
use gperftools.SizeMap.{get_size_class}
use gperftools.HookList.{HookList}
use gperftools.Sampler.{
  Sampler, try_record_allocation_fast, try_record_allocation_fast_lem, record_allocation,
}
use gperftools.Malloc.{
  Memory, Services, with_sampler, small_object, malloc_pages, malloc, or_oom, fast_object,
  malloc_fast_path,
}

update_same : {A : Type 0} (a : ℕ → A) (i j : ℕ) → update a i (a i) j ≡ a j
update_same a i j = ground arith

module _ {C : Type 0} (w : Services C) (full oom : Memory C → ℕ → Option ℕ × Memory C) where
  -- A request of the common kind: a size class, and a counter of the sampler that reaches.
  abbrev pub is_sampled : Memory C → ℕ → ℕ → Bool
  is_sampled s id cl = ltb (s.samplers id).bytes_until_sample (w.size_map.class_to_size cl)

  abbrev pub by_class : Memory C → ℕ → ℕ → Option ℕ → Option ℕ × Memory C
  by_class s id size none = full s size
  by_class s id size (some cl) =
      if is_sampled s id cl
      then full s size
      else or_oom w full oom (w.size_map.class_to_size cl) (malloc w s id size)

  fast_object-small_object :
      (s : Memory C) (id size cl : ℕ)
      → get_size_class w.size_map size ≡ some cl
      → (s.samplers id).bytes_until_sample < 2 ^ 63
      → w.size_map.class_to_size cl < 2 ^ 63
      → fast_object w full oom id size cl (
          with_sampler s id
            (try_record_allocation_fast (s.samplers id) (w.size_map.class_to_size cl)))
        ≡ by_class s id size (some cl)
  unfolding fast_object small_object malloc record_allocation
  fast_object-small_object s id size cl e counter small =
      let a : ℕ = w.size_map.class_to_size cl in
      let sampler : Sampler = s.samplers id in
      let slow : Bool × Sampler = record_allocation w.period (w.address id) sampler a in
      let same = try_record_allocation_fast_lem w.period (w.address id) sampler a counter small in
      elim (Bool-cases (is_sampled s id cl)) [
        | inl h ↦
            let stays : try_record_allocation_fast sampler a ≡ (false, sampler) =
              same ∙ ap (λ (b : Bool). if b then (false, sampler) else slow) h in
            rw h (
              ap (λ (r : Bool × Sampler). fast_object w full oom id size cl (with_sampler s id r))
                stays
              ∙ ap (λ (f : ℕ → Sampler). full (record s { samplers = f }) size)
                  (λ i j. update_same s.samplers id j i))
        | inr h ↦
            let goes : try_record_allocation_fast sampler a ≡ slow =
              same ∙ ap (λ (b : Bool). if b then (false, sampler) else slow) h in
            let fine : slow
                ≡ (true, record sampler { bytes_until_sample = sampler.bytes_until_sample - a }) =
              rw h refl in
            let run : malloc w s id size ≡ small_object w id size cl (with_sampler s id slow) =
              ap
                (λ (o : Option ℕ). elim o as (λ _. Option ℕ × Memory C) [
                  | none ↦ malloc_pages w s id size
                  | some cl ↦ small_object w id size cl (
                      with_sampler s id (
                        record_allocation w.period (w.address id) (s.samplers id)
                          (w.size_map.class_to_size cl)))
                ])
                e in
            rw h (
              ap (λ (r : Bool × Sampler). fast_object w full oom id size cl (with_sampler s id r))
                (goes ∙ fine)
              ∙ ap (or_oom w full oom a) (
                  sym (
                    ap (λ (r : Bool × Sampler). small_object w id size cl (with_sampler s id r))
                      fine)
                  ∙ sym run))
      ]

  -- The fast path of a thread with a cache does exactly what `do_malloc` does, and calls the handler
  -- of exhausted memory if that gives nothing, if there is no new hook, the request has a size class
  -- and the sampler's counter reaches for it; else it leaves the state as it is to the slow path.
  -- Counter and class sizes are below 2^63.
  pub malloc_fast_path-malloc :
      (hooks : HookList) (s : Memory C) (id size : ℕ)
      → (s.samplers id).bytes_until_sample < 2 ^ 63
      → ((cl : ℕ) → w.size_map.class_to_size cl < 2 ^ 63)
      → malloc_fast_path w full oom hooks (some id) s size ≡ (
          if hooks.priv_end == 0
          then by_class s id size (get_size_class w.size_map size)
          else full s size)
  unfolding malloc_fast_path
  malloc_fast_path-malloc hooks s id size counter small = elim (Bool-cases (hooks.priv_end == 0)) [
    | inl h ↦ rw h (go (get_size_class w.size_map size) refl)
    | inr h ↦ rw h refl
  ]
    where
      go :
          (o : Option ℕ)
          → get_size_class w.size_map size ≡ o
          → (elim o as (λ _. Option ℕ × Memory C) [
            | none ↦ full s size
            | some cl ↦ fast_object w full oom id size cl (
                with_sampler s id
                  (try_record_allocation_fast (s.samplers id) (w.size_map.class_to_size cl)))
          ])
            ≡ by_class s id size o
      go none e = refl
      go (some cl) e = fast_object-small_object s id size cl e counter (small cl)
