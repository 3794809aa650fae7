-- ===== src/PageHeap/Carve.antt =====
-- The equation of the assertions, followed through `Carve` and `ReleaseSpan`.
use mathlib.Core.Path.{subst}
use gperftools.Base.{
  ℕ, ◌+◌, ◌-◌, ◌%◌, ◌^◌, ◌≤◌, ◌<◌, ◌&&◌, ◌≡◌, ◌≢◌, refl, sym, ap, ◌∙◌, inl, inr, true, false, List,
  [], ◌∷◌, ltb, if◌then◌else◌, update_self, Bool-cases, arith, ltb→lt, ltb_false→le,
}
use gperftools.PageHeap.{
  PageHeap, Span, Stats, System, Location, in_use, on_normal_freelist, on_returned_freelist, bytes,
  is_normal, same_location, set_span, record_span, new_span, fresh_span, prepend_to_free_list,
  remove_from_free_list,
}
use gperftools.PageHeap.Merge.{commit_span, decommit_span}
use gperftools.PageHeap.Search.{
  extra_pages, int_to_length, carve_leftover, detach, cut, recommit, carve,
}
use gperftools.PageHeap.Release.{release_span}
use gperftools.PageHeap.Balance.{
  unmapped_at, pending, Balanced, Owes, prepend-Balanced, remove-Owes, decommit-Owes,
  normal-returned, returned-not-normal, merge_into_free_list-Balanced,
}

-- What `NewSpan` does: it hands out a span that it sets up, and changes no counter.
record Made (h : PageHeap) (s : Span) (r : ℕ × PageHeap) : Type 0 where
  span : r.1.spans r.0 ≡ s
  stats : r.1.stats ≡ h.stats

new_span-Made : (h : PageHeap) (p n : ℕ) → Made h (fresh_span p n) (new_span h p n)
unfolding new_span
new_span-Made h p n = go h.freed_spans
  where
    go :
        (freed : List ℕ) → Made h (fresh_span p n) (new_span (record h { freed_spans = freed }) p n)
    go [] = record { span = update_self h.spans h.next_span (fresh_span p n); stats = refl }
    go (x ∷ xs) = record { span = update_self h.spans x (fresh_span p n); stats = refl }

record_span-same :
    (h : PageHeap) (id : ℕ)
    → ((record_span h id).spans ≡ h.spans) × ((record_span h id).stats ≡ h.stats)
unfolding record_span
record_span-same h id = ground arith

-- A step that changes no counter keeps the equation.
Balanced-same : (h h' : PageHeap) (e : ℕ) → h'.stats ≡ h.stats → Balanced h e → Balanced h' e
Balanced-same h h' e same b =
    subst (λ (t : Stats). (t.unmapped_bytes + t.committed_bytes + e) % 2 ^ 64 ≡ t.system_bytes)
      (sym same) b

unmapped-split :
    (l : Location) (n m : ℕ)
    → n ≤ m
    → (unmapped_at l (m - n) + unmapped_at l n) % 2 ^ 64 ≡ unmapped_at l m
unmapped-split l n m h = ground arith

Balanced-mod : (h : PageHeap) (a b : ℕ) → a % 2 ^ 64 ≡ b → Balanced h b → Balanced h a
Balanced-mod h a b e bal = omega arith

module _ (h : PageHeap) (id n : ℕ) (old : Location) where
  leftover-Balanced :
      n < (h.spans id).length
      → (h.spans id).length < n + 2 ^ 31
      → (h.spans id).length < 2 ^ 64
      → Balanced h (unmapped_at old (h.spans id).length)
      → let h' = carve_leftover h id n old in
        Balanced h' (unmapped_at old n) × ((h'.spans id).length ≡ n)
  unfolding carve_leftover
  leftover-Balanced short bound word b =
      let len : ℕ = (h.spans id).length in
      let exact : int_to_length (extra_pages len n) ≡ len - n = ground arith in
      let r : ℕ × PageHeap =
        new_span h ((h.spans id).start + n) (int_to_length (extra_pages len n)) in
      let made : Made h (fresh_span ((h.spans id).start + n) (len - n)) r =
        subst (λ k. Made h (fresh_span ((h.spans id).start + n) k) r) exact
          (new_span-Made h ((h.spans id).start + n) (int_to_length (extra_pages len n))) in
      let l : Span = record (r.1.spans r.0) { location = old } in
      let h₂ : PageHeap = set_span r.1 r.0 l in
      let same = record_span-same h₂ r.0 in
      let e : ℕ = unmapped_at old n in
      let owed : pending ((record_span h₂ r.0).spans r.0) ≡ unmapped_at old (len - n) =
        ap (λ (f : ℕ → Span). pending (f r.0)) same.0
        ∙ ap pending (update_self r.1.spans r.0 l)
        ∙ ap (λ (s : Span). unmapped_at old s.length) made.span in
      let b' =
        Balanced-mod h (unmapped_at old (len - n) + e) (unmapped_at old len)
          (unmapped-split old n len (omega arith)) b in
      let b₃ =
        Balanced-same h (record_span h₂ r.0) (unmapped_at old (len - n) + e) (same.1 ∙ made.stats)
          b' in
      let h₄ : PageHeap = prepend_to_free_list (record_span h₂ r.0) r.0 in
      (
        prepend-Balanced (record_span h₂ r.0) r.0 e (rw owed b₃),
        ap (λ (s : Span). s.length) (update_self h₄.spans id (record (h₄.spans id) { length = n })),
      )

normal-or-returned :
    (l : Location) → l ≢ in_use → same_location l on_returned_freelist ≡ false → is_normal l ≡ true
unfolding same_location is_normal
normal-or-returned l free h = ground arith

module _ (h : PageHeap) (id : ℕ) where
  detach-length : ((detach h id).spans id).length ≡ (h.spans id).length
  unfolding detach
  detach-length =
      let h₁ : PageHeap = remove_from_free_list h id in
      ap (λ (s : Span). s.length)
        (update_self h₁.spans id (record (h₁.spans id) { location = in_use }))
      ∙ ap (λ (f : ℕ → Span). (f id).length) (remove-Owes h id).same_spans

  detach-Balanced : Balanced h 0 → Balanced (detach h id) (pending (h.spans id))
  unfolding detach
  detach-Balanced b = omega (arith, (remove-Owes h id).balanced 0 b)

  cut-Balanced :
      (n : ℕ) (old : Location)
      → n ≤ (h.spans id).length
      → (h.spans id).length < n + 2 ^ 31
      → (h.spans id).length < 2 ^ 64
      → Balanced h (unmapped_at old (h.spans id).length)
      → let h' = cut h id n old in Balanced h' (unmapped_at old n) × ((h'.spans id).length ≡ n)
  unfolding cut
  cut-Balanced n old fits bound word b = elim (Bool-cases (ltb n (h.spans id).length)) [
    | inl e ↦
        let longer : n < (h.spans id).length = ltb→lt _ _ e in
        let some_extra : (ltb 0 (extra_pages (h.spans id).length n)
              && ltb (extra_pages (h.spans id).length n) (2 ^ 31))
            ≡ true =
          ground arith in
        rw some_extra (leftover-Balanced h id n old longer bound word b)
    | inr e ↦
        let same : (h.spans id).length ≡ n = omega (arith, ltb_false→le n (h.spans id).length e) in
        let no_extra : (ltb 0 (extra_pages (h.spans id).length n)
              && ltb (extra_pages (h.spans id).length n) (2 ^ 31))
            ≡ false =
          ground arith in
        rw no_extra (subst (λ k. Balanced h (unmapped_at old k)) same b, same)
  ]

  recommit-Balanced :
      (n : ℕ) (old : Location)
      → old ≢ in_use
      → (h.spans id).length ≡ n
      → Balanced h (unmapped_at old n)
      → let h' = recommit h id old in Balanced h' 0 × ((h'.spans id).length ≡ n)
  unfolding recommit commit_span
  recommit-Balanced n old free e b = elim (Bool-cases (same_location old on_returned_freelist)) [
    | inl r ↦ rw r (ground (arith, returned-not-normal old), e)
    | inr r ↦ rw r (ground (arith, normal-or-returned old free), e)
  ]

-- `Carve` keeps the equation of the assertions and leaves a span of exactly n pages, if the span is
-- on a free list and has n pages at least, and fewer than 2^31 beyond them.
pub carve-Balanced :
    (h : PageHeap) (id n : ℕ)
    → n ≤ (h.spans id).length
    → (h.spans id).length < n + 2 ^ 31
    → (h.spans id).length < 2 ^ 64
    → (h.spans id).location ≢ in_use
    → Balanced h 0
    → let h' = carve h id n in Balanced h' 0 × ((h'.spans id).length ≡ n)
unfolding carve
carve-Balanced h id n fits bound word free b =
    let old : Location = (h.spans id).location in
    let h₁ : PageHeap = detach h id in
    let len = detach-length h id in
    let b₁ : Balanced h₁ (unmapped_at old (h₁.spans id).length) = rw len (detach-Balanced h id b) in
    let c = cut-Balanced h₁ id n old (rw len fits) (rw len bound) (rw len word) b₁ in
    recommit-Balanced (cut h₁ id n old) id n old free c.1 c.0

normal-on_normal : is_normal on_normal_freelist ≡ true
unfolding is_normal
normal-on_normal = refl

module _ (system : System) (h : PageHeap) (id : ℕ) where
  -- The heap and the span that `ReleaseSpan` merges, after the system took the memory.
  abbrev removed : PageHeap
  removed = remove_from_free_list (decommit_span system h id).1 id

  abbrev returned_span : Span
  returned_span = record (removed.spans id) { location = on_returned_freelist }

  removed-spans : removed.spans ≡ h.spans
  removed-spans =
      (remove-Owes (decommit_span system h id).1 id).same_spans
      ∙ (decommit-Owes system h id).same_spans

  returned-Balanced :
      (h.spans id).location ≡ on_normal_freelist
      → (decommit_span system h id).0 ≡ true
      → Balanced h 0
      → let h' = set_span removed id returned_span in Balanced h' (pending (h'.spans id))
  returned-Balanced normal w b =
      let h₁ : PageHeap = (decommit_span system h id).1 in
      let o = decommit-Owes system h id in
      let o' : Owes h h₁ (bytes (h.spans id).length) = rw w at o in
      let off : pending returned_span ≡ bytes (h.spans id).length =
        rw normal-returned (ap (λ (f : ℕ → Span). bytes (f id).length) removed-spans) in
      let zeroed : pending (h₁.spans id) ≡ 0 =
        ap (λ (f : ℕ → Span). pending (f id)) o.same_spans ∙ rw normal (rw normal-on_normal refl) in
      let b₁ : Balanced h₁ (bytes (h.spans id).length) = omega (arith, o'.balanced 0 b) in
      let b' = (remove-Owes h₁ id).balanced (bytes (h.spans id).length) b₁ in
      subst (λ s. Balanced removed (pending s)) (sym (update_self removed.spans id returned_span))
        (omega (arith, b', off, zeroed))

-- `ReleaseSpan` keeps the equation of the assertions if the span is on a normal free list, whether
-- the system takes the memory or not; it returns the pages of the span, or 0.
pub release_span-Balanced :
    (system : System) (h : PageHeap) (id : ℕ)
    → (h.spans id).location ≡ on_normal_freelist
    → Balanced h 0
    → let (released, h') = release_span system h id in
      Balanced h' 0
      × (released ≡ (if (decommit_span system h id).0 then (h.spans id).length else 0))
unfolding release_span
release_span-Balanced system h id normal b = elim (Bool-cases (decommit_span system h id).0) [
  | inl w ↦
      let b' =
        merge_into_free_list-Balanced system
          (set_span (removed system h id) id (returned_span system h id)) id
          (returned-Balanced system h id normal w b) in
      rw w (b', ap (λ (f : ℕ → Span). (f id).length) (removed-spans system h id))
  | inr w ↦
      let o = decommit-Owes system h id in
      let o' : Owes h (decommit_span system h id).1 0 = rw w at o in rw w (o'.balanced 0 b, refl)
]
