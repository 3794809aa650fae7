-- ===== src/Tests/Entry.antt =====
-- The theorems on the entry points, the sampler, the hooks and the metadata at concrete inputs.
use gperftools.Base.{
  ℕ, ◌+◌, ◌*◌, ◌^◌, ◌%◌, ◌≤◌, ◌<◌, ◌≡◌, ◌≢◌, ◌⊎◌, refl, ap, inl, arith, true, false, ◌&&◌, Option,
  none, some, List, [], ◌∷◌, All, ltb, ◌==◌, if◌then◌else◌, update,
}
use gperftools.SizeMap.{SizeMap, get_size_class, size_class}
use gperftools.SizeMap.Init.{IsSizeMap, init-IsSizeMap}
use gperftools.Sampler.{
  Sampler, Period, try_record_allocation_fast, record_allocation, try_record_allocation_fast_lem,
}
use gperftools.HookList.{
  HookList, Call, adds, removes, exchanges, no_hooks, run, traverse, capacity, add, remove,
  max_values,
}
use gperftools.HookList.Ended.{Ended, hooks_of, traverse-run}
use gperftools.HookList.Change.{add_lem, remove_lem}
use gperftools.MetadataAlloc.{System, no_metadata}
use gperftools.MetadataAlloc.Apart.{Fresh, PairwiseApart, serve, serve-PairwiseApart}
use gperftools.Malloc.{Memory, Services, malloc, malloc_fast_path, calloc_size, nallocx}
use gperftools.Malloc.Sizes.{calloc_size_lem, nallocx-holds}
use gperftools.Malloc.Fast.{by_class, malloc_fast_path-malloc}
use gperftools.Tests.{keeping, pairs, one_cache, usual}

abbrev never : Period
never = record { is_positive = false; interval = λ r. 0 }

abbrev counting : Sampler
counting = record { bytes_until_sample = 1000; rnd = 1; initialized = true }

try_record_allocation_fast_lem_example :
    try_record_allocation_fast counting 64
    ≡ (if ltb 1000 64 then (false, counting) else record_allocation never 4096 counting 64)
try_record_allocation_fast_lem_example =
    try_record_allocation_fast_lem never 4096 counting 64 (omega arith) (omega arith)

-- services without pages and without samples
abbrev plain : Services (List (List ℕ))
plain = record {
  size_map = pairs;
  central = keeping;
  new_pages = λ c n. (none, c);
  period = never;
  address = λ id. 4096 + id;
  sampled = λ s n. (none, s);
}

abbrev memory : Memory (List (List ℕ))
memory = record { caches = one_cache; samplers = λ id. counting }

malloc_fast_path-malloc_example :
    malloc_fast_path plain
      (λ s size. malloc plain s 0 size)
      (λ s size. (none, s))
      no_hooks
      (some 0)
      memory
      60
    ≡ by_class plain
        (λ s size. malloc plain s 0 size)
        (λ s size. (none, s))
        memory
        0
        60
        (get_size_class pairs 60)
malloc_fast_path-malloc_example =
    malloc_fast_path-malloc plain (λ s size. malloc plain s 0 size) (λ s size. (none, s)) no_hooks
      memory 0 60 (omega arith) (λ cl. omega arith)

calloc_size_lem_example : calloc_size 4294967296 4294967296 ≡ none
calloc_size_lem_example = calloc_size_lem 4294967296 4294967296 (omega arith) (omega arith)

-- the usual map, with smallest spans of one page
abbrev single_pages : SizeMap
single_pages = record usual { min_span_size_in_pages = 1 }

single_pages-IsSizeMap : IsSizeMap 32 single_pages
unfolding size_class
single_pages-IsSizeMap =
    let valid = (init-IsSizeMap 4096 32 (omega arith) (inl (omega arith))).2 in
    record {
      few = valid.few;
      classes = valid.classes;
      increasing = valid.increasing;
      best = valid.best;
    }

nallocx-holds_example : 300000 ≤ nallocx single_pages 300000 0
nallocx-holds_example =
    nallocx-holds 0 300000 single_pages-IsSizeMap refl (omega arith) (omega arith)

abbrev calls : List Call
calls = adds 5 ∷ adds 9 ∷ removes 5 ∷ exchanges 7 ∷ []

traverse-run_example : traverse (run no_hooks calls) 8 ≡ hooks_of 8 0 (run no_hooks calls).priv_data
traverse-run_example = traverse-run calls

abbrev two_hooks : HookList
two_hooks = record { priv_end = 2; priv_data = λ i. if i == 0 then 5 else if i == 1 then 9 else 0 }

two_hooks-Ended : Ended two_hooks
two_hooks-Ended = record { within = omega arith; clear = λ i past below. ground arith }

add_lem_example :
    ((i : ℕ) × (i < max_values)
      × (two_hooks.priv_data i ≡ 0)
      × ((j : ℕ) → j < i → 0 < two_hooks.priv_data j)
      × ((add two_hooks 3).0 ≡ true)
      × ((add two_hooks 3).1.priv_data ≡ update two_hooks.priv_data i 3))
    ⊎ (((j : ℕ) → j < max_values → 0 < two_hooks.priv_data j)
        × (add two_hooks 3 ≡ (false, two_hooks)))
add_lem_example = add_lem two_hooks 3 (omega arith)

remove_lem_example :
    ((i : ℕ) × (i < capacity)
      × (two_hooks.priv_data i ≡ 9)
      × ((j : ℕ) → j < i → two_hooks.priv_data j ≢ 9)
      × ((remove two_hooks 9).0 ≡ true)
      × ((remove two_hooks 9).1.priv_data ≡ update two_hooks.priv_data i 0))
    ⊎ (((j : ℕ) → j < capacity → two_hooks.priv_data j ≢ 9)
        × (remove two_hooks 9 ≡ (false, two_hooks)))
remove_lem_example = remove_lem two_hooks 9 (omega arith) two_hooks-Ended

-- a system with a hundred chunks of 16 MiB
abbrev chunks : System
chunks i n = if ltb i 100 && ltb n (2 ^ 24) then some ((i + 1) * 2 ^ 24, 2 ^ 24) else none

some-inj : (p q : ℕ × ℕ) → some p ≡ some q → p ≡ q
some-inj p q e = ap (λ (o : Option (ℕ × ℕ)). elim o as (λ _. ℕ × ℕ) [ none ↦ p | some r ↦ r ]) e

chunks_lem :
    (i n a r : ℕ)
    → chunks i n ≡ some (a, r)
    → (i < 100) × (n < 2 ^ 24) × (a ≡ (i + 1) * 2 ^ 24) × (r ≡ 2 ^ 24)
chunks_lem i n a r e = ground arith

chunks-Fresh : Fresh 4 chunks
chunks-Fresh = record {
  sized = λ i n a r e. let h = chunks_lem i n a r e in omega (arith, h);
  apart = λ i j x y a r b s less e e'.
      let h = chunks_lem i x a r e in
      let h' = chunks_lem j y b s e' in inl (inl (omega (arith, h, h')));
}

serve-PairwiseApart_example :
    let blocks = (serve chunks (2 ^ 4) (100 ∷ 9000000 ∷ 50 ∷ []) no_metadata []).0 in
    PairwiseApart blocks × All (λ b. b.0 % 2 ^ 4 ≡ 0) blocks
serve-PairwiseApart_example =
    serve-PairwiseApart 4 chunks chunks-Fresh (omega arith) (100 ∷ 9000000 ∷ 50 ∷ [])
      (omega arith, (omega arith, (omega arith, tt)))
