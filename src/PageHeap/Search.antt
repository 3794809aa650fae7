-- ===== src/PageHeap/Search.antt =====
-- The search for a free span: `SearchFreeAndLargeLists`, `AllocLarge`, `Carve` and `Split`.
use gperftools.Base.{
  ℕ, zero, suc, ◌+◌, ◌-◌, ◌%◌, ◌^◌, ◌&&◌, Bool, true, false, Option, none, some, List, [], ◌∷◌, ltb,
  if◌then◌else◌,
}
use gperftools.PageHeap.{
  PageHeap, Span, System, Config, Location, in_use, on_returned_freelist, max_pages, set_span,
  set_page, record_span, new_span, same_location, best_fit_less, prepend_to_free_list,
  remove_from_free_list, fresh_span, sub64,
}
use gperftools.PageHeap.Merge.{commit_span}
use gperftools.PageHeap.Release.{front, ensure_limit}

-- The pages beyond n as the code keeps them: the 32 bits of an `int`.
abbrev pub extra_pages : ℕ → ℕ → ℕ
extra_pages length n = sub64 length n % 2 ^ 32

-- An `int` of these 32 bits, as a `Length`.
abbrev pub int_to_length : ℕ → ℕ
int_to_length x = if ltb x (2 ^ 31) then x else x + (2 ^ 64 - 2 ^ 32)

-- The leftover part of `Carve`.
unfoldable pub carve_leftover : PageHeap → ℕ → ℕ → Location → PageHeap
carve_leftover h id n old_location =
    let s = h.spans id in
    let (left, h₁) = new_span h (s.start + n) (int_to_length (extra_pages s.length n)) in
    let l = h₁.spans left in
    let h₂ = set_span h₁ left (record l { location = old_location }) in
    let h₃ = prepend_to_free_list (record_span h₂ left) left in
    let s' = h₃.spans id in
    set_page (set_span h₃ id (record s' { length = n })) (s'.start + n - 1) id

-- The steps of `Carve`: the span leaves its list, its end becomes a span of its own if `extra` is
-- positive, and it is committed if it was returned.
unfoldable pub detach : PageHeap → ℕ → PageHeap
detach h id =
    let h₁ = remove_from_free_list h id in
    set_span h₁ id (record (h₁.spans id) { location = in_use })

unfoldable pub cut : PageHeap → ℕ → ℕ → Location → PageHeap
cut h id n old_location =
    let extra = extra_pages (h.spans id).length n in
    if ltb 0 extra && ltb extra (2 ^ 31) then carve_leftover h id n old_location else h

unfoldable pub recommit : PageHeap → ℕ → Location → PageHeap
recommit h id old_location =
    if same_location old_location on_returned_freelist then commit_span h id else h

-- `Carve`
unfoldable pub carve : PageHeap → ℕ → ℕ → PageHeap
carve h id n =
    let old_location = (h.spans id).location in
    recommit (cut (detach h id) id n old_location) id old_location

-- `Split`
unfoldable pub split : PageHeap → ℕ → ℕ → ℕ × PageHeap
split h id n =
    let s = h.spans id in
    let (left, h₁) = new_span h (s.start + n) (int_to_length (extra_pages s.length n)) in
    let h₂ = set_page (record_span h₁ left) (s.start + n - 1) id in
    (left, set_span h₂ id (record (h₂.spans id) { length = n }))

-- `upper_bound` in a set of large spans
unfoldable pub upper_bound : (ℕ → Span) → Span → List ℕ → Option ℕ
upper_bound spans bound [] = none
upper_bound spans bound (x ∷ xs) =
    if best_fit_less bound (spans x) then some x else upper_bound spans bound xs

-- The span that `AllocLarge` finds best, and whether it is from the returned set.
unfoldable pub best_of : (ℕ → Span) → Option ℕ → Option ℕ → Option (ℕ × Bool)
best_of spans none none = none
best_of spans (some a) none = some (a, false)
best_of spans none (some c) = some (c, true)
best_of spans (some a) (some c) =
    if ltb (spans c).length (spans a).length then some (c, true) else some (a, false)

unfoldable pub best_large : PageHeap → ℕ → Option (ℕ × Bool)
unfolding best_of upper_bound
best_large h n =
    let bound = fresh_span 0 n in
    best_of h.spans (upper_bound h.spans bound h.large_normal)
      (upper_bound h.spans bound h.large_returned)

module _ (system : System) (config : Config) where
  -- `AllocLarge`. It calls itself once: after `EnsureLimit` has released memory the limit holds.
  unfoldable pub alloc_large : ℕ → PageHeap → ℕ → Option ℕ × PageHeap
  unfolding best_large
  alloc_large zero h n = (none, h)
  alloc_large (suc fuel) h n = elim (best_large h n) [
    | none ↦ (none, h)
    | some (best, from_returned) ↦ elim from_returned [
      | false ↦ (some best, carve h best n)
      | true ↦
          let (fits, h₁) = ensure_limit system config h n false in
          elim fits [
            | true ↦ (some best, carve h₁ best n)
            | false ↦
                let (fits', h₂) = ensure_limit system config h₁ n true in
                elim fits' [ true ↦ alloc_large fuel h₂ n | false ↦ (none, h₂) ]
          ]
    ]
  ]

  -- The loop of `SearchFreeAndLargeLists` over the sizes from `s` on, with the rounds left.
  unfoldable pub search_lists : ℕ → PageHeap → ℕ → ℕ → Option ℕ × PageHeap
  unfolding alloc_large front
  search_lists zero h s n = alloc_large 2 h n
  search_lists (suc rounds) h s n = elim (front (h.normal (s - 1))) [
    | some id ↦ (some id, carve h id n)
    | none ↦ elim (front (h.returned (s - 1))) [
      | none ↦ search_lists rounds h (s + 1) n
      | some _ ↦
          let (fits, h') = ensure_limit system config h n true in
          elim fits [
            | false ↦ search_lists rounds h' (s + 1) n
            | true ↦ elim (front (h'.returned (s - 1))) [
              | some id ↦ (some id, carve h' id n)
              | none ↦ search_lists rounds h' (s + 1) n
            ]
          ]
    ]
  ]

  -- `SearchFreeAndLargeLists`
  unfoldable pub search_free_and_large_lists : PageHeap → ℕ → Option ℕ × PageHeap
  unfolding search_lists
  search_free_and_large_lists h n = search_lists (max_pages + 1 - n) h n n
