-- ===== src/PageHeap/Balance.antt =====
-- The equation of the page heap's assertions: what is unmapped and what is committed make up what
-- the system gave. Here it is followed through the steps of deleting, releasing and carving.
use mathlib.Core.Path.{subst}
use gperftools.Base.{
  ℕ, ◌+◌, ◌-◌, ◌%◌, ◌^◌, ◌≡◌, ◌⊎◌, refl, sym, ◌∙◌, inl, inr, true, false, ◌&&◌, Option, none, some,
  if◌then◌else◌, update_self, Bool-cases, arith,
}
use gperftools.PageHeap.{
  PageHeap, Span, System, Location, on_returned_freelist, bytes, is_normal, same_location, set_span,
  delete_span, prepend_to_free_list, remove_from_free_list,
}
use gperftools.PageHeap.Merge.{
  decommit_span, take_for_merge, check_pre_merge, check_and_handle_pre_merge, decommit_first,
  merge_before, merge_after, merge_if, merge_into_free_list,
}

-- The bytes that are unmapped in `n` pages of a span that is there.
abbrev pub unmapped_at : Location → ℕ → ℕ
unmapped_at l n = if is_normal l then 0 else bytes n

-- The bytes that `PrependToFreeList` will count as unmapped.
abbrev pub pending : Span → ℕ
pending s = unmapped_at s.location s.length

-- The equation, but for `extra` bytes that no counter has yet; on 64 bits.
abbrev pub Balanced : PageHeap → ℕ → Type 0
Balanced h extra =
    (h.stats.unmapped_bytes + h.stats.committed_bytes + extra) % 2 ^ 64 ≡ h.stats.system_bytes

-- A step from `h` to `h'` that leaves the spans and owes `extra` bytes more.
pub record Owes (h h' : PageHeap) (extra : ℕ) : Type 0 where
  pub same_spans : h'.spans ≡ h.spans
  pub balanced : (e : ℕ) → Balanced h e → Balanced h' (e + extra)

module _ (h : PageHeap) (id : ℕ) where
  pub prepend-Balanced :
      (e : ℕ) → Balanced h (pending (h.spans id) + e) → Balanced (prepend_to_free_list h id) e
  unfolding prepend_to_free_list
  prepend-Balanced e b = ground arith

  pub remove-Owes : Owes h (remove_from_free_list h id) (pending (h.spans id))
  unfolding remove_from_free_list
  remove-Owes = record { same_spans = ground arith; balanced = λ e b. ground arith }

Owes-refl : (h : PageHeap) → Owes h h 0
Owes-refl h = record { same_spans = refl; balanced = λ e b. ground arith }

Owes-eq : {h h' : PageHeap} {a b : ℕ} → Owes h h' a → a ≡ b → Owes h h' b
Owes-eq {h} {h'} o e = subst (λ k. Owes h h' k) e o

Owes-trans : {h h' h'' : PageHeap} {a b : ℕ} → Owes h h' a → Owes h' h'' b → Owes h h'' (a + b)
Owes-trans {a = a} {b = b} o p = record {
  same_spans = p.same_spans ∙ o.same_spans;
  balanced = λ e h. omega (arith, p.balanced (e + a) (o.balanced e h));
}

same-normal : (a b : Location) → same_location a b ≡ true → is_normal a ≡ is_normal b
unfolding same_location is_normal
same-normal a b h = ground arith

pub normal-returned : is_normal on_returned_freelist ≡ false
unfolding is_normal
normal-returned = refl

pub returned-not-normal :
    (a : Location) → same_location a on_returned_freelist ≡ true → is_normal a ≡ false
unfolding same_location is_normal
returned-not-normal a h = ground arith

module _ (system : System) where
  pub decommit-Owes :
      (h : PageHeap) (id : ℕ)
      → let (worked, h') = decommit_span system h id in
        Owes h h' (if worked then bytes (h.spans id).length else 0)
  unfolding decommit_span
  decommit-Owes h id = record { same_spans = refl; balanced = λ e b. ground arith }

  -- What a merge with `other` will add to the span's pending bytes.
  abbrev owed : PageHeap → ℕ → Option ℕ → ℕ
  owed h span none = 0
  owed h span (some other) =
      if is_normal (h.spans span).location then 0 else bytes (h.spans other).length

  check-Owes :
      (h : PageHeap) (span other : ℕ)
      → let (found, h') = check_pre_merge system h span other in Owes h h' (owed h span found)
  unfolding check_pre_merge
  check-Owes h span other =
      let here : Location = (h.spans span).location in
      let there : Location = (h.spans other).location in
      elim (Bool-cases
        (h.aggressive_decommit && is_normal there && same_location here on_returned_freelist)) [
          | inl e ↦ rw e (decommitted-Owes e (Bool-cases (decommit_span system h other).0))
          | inr e ↦ rw e (elim (Bool-cases (same_location there here)) [
            | inl e' ↦
                rw e' (Owes-eq (remove-Owes h other) (ground (arith, same-normal there here)))
            | inr e' ↦ rw e' (Owes-refl h)
          ])
        ]
    where
      decommitted-Owes :
          (h.aggressive_decommit
              && is_normal (h.spans other).location
              && same_location (h.spans span).location on_returned_freelist)
            ≡ true
          → ((decommit_span system h other).0 ≡ true) ⊎ ((decommit_span system h other).0 ≡ false)
          → let (worked, h') = decommit_span system h other in
            let (found, h'') = if worked then take_for_merge system h' other else (none, h') in
            Owes h h'' (owed h span found)
      decommitted-Owes e (inl w) =
          let o = decommit-Owes h other in
          let o' : Owes h (decommit_span system h other).1 (bytes (h.spans other).length) =
            rw w at o in
          rw w (
            Owes-eq (Owes-trans o' (remove-Owes (decommit_span system h other).1 other))
              (rw o.same_spans (ground (arith, returned-not-normal (h.spans span).location))))
      decommitted-Owes e (inr w) = rw w (rw w at (decommit-Owes h other))

  -- A step of the merge: the span owes what is pending for it, before and after.
  abbrev Keeps : ℕ → PageHeap → PageHeap → Type 0
  Keeps id h h' = Balanced h (pending (h.spans id)) → Balanced h' (pending (h'.spans id))

  decommit_first-Keeps : (h : PageHeap) (id : ℕ) → Keeps id h (decommit_first system h id)
  unfolding decommit_first
  decommit_first-Keeps h id b =
      let s = h.spans id in
      elim (Bool-cases (h.aggressive_decommit && is_normal s.location)) [
        | inr e ↦ rw e b
        | inl e ↦ rw e (elim (Bool-cases (decommit_span system h id).0) [
          | inl w ↦ rw w (decommitted w e)
          | inr w ↦ rw w (kept w)
        ])
      ]
    where
      o :
          Owes h
            (decommit_span system h id).1
            (if (decommit_span system h id).0 then bytes (h.spans id).length else 0)
      o = decommit-Owes h id

      kept :
          (decommit_span system h id).0 ≡ false
          → let h' = (decommit_span system h id).1 in Balanced h' (pending (h'.spans id))
      kept w = rw o.same_spans (ground (arith, o.balanced (pending (h.spans id)) b))

      decommitted :
          (decommit_span system h id).0 ≡ true
          → (h.aggressive_decommit && is_normal (h.spans id).location) ≡ true
          → let h' =
              set_span
                (decommit_span system h id).1
                id
                (record (h.spans id) { location = on_returned_freelist }) in
            Balanced h' (pending (h'.spans id))
      decommitted w e =
          let h' : PageHeap = (decommit_span system h id).1 in
          let s' : Span = record (h.spans id) { location = on_returned_freelist } in
          let off : pending s' ≡ bytes (h.spans id).length = rw normal-returned in
          subst (λ s. Balanced h' (pending s)) (sym (update_self h'.spans id s'))
            (rw off (ground (arith, o.balanced (pending (h.spans id)) b)))

  merge_before-Keeps :
      (h : PageHeap) (id other : ℕ)
      → Balanced h (pending (h.spans id) + owed h id (some other))
      → let h' = merge_before system h id other in Balanced h' (pending (h'.spans id))
  unfolding merge_before delete_span
  merge_before-Keeps h id other b = ground arith

  merge_after-Keeps :
      (h : PageHeap) (id other : ℕ)
      → Balanced h (pending (h.spans id) + owed h id (some other))
      → let h' = merge_after system h id other in Balanced h' (pending (h'.spans id))
  unfolding merge_after delete_span
  merge_after-Keeps h id other b = ground arith

  merge_if-Keeps :
      (merge : PageHeap → ℕ → ℕ → PageHeap)
      → ((h : PageHeap) (id other : ℕ)
          → Balanced h (pending (h.spans id) + owed h id (some other))
          → let h' = merge h id other in Balanced h' (pending (h'.spans id)))
      → (h : PageHeap) (id : ℕ) (neighbour : Option ℕ)
      → Keeps id h (merge_if system merge id (check_and_handle_pre_merge system h id neighbour))
  unfolding merge_if check_and_handle_pre_merge
  merge_if-Keeps merge keeps h id none b = b
  merge_if-Keeps merge keeps h id (some other) b =
      after (check_pre_merge system h id other) (check-Owes h id other)
    where
      after :
          (r : Option ℕ × PageHeap)
          → Owes h r.1 (owed h id r.0)
          → let h' = merge_if system merge id r in Balanced h' (pending (h'.spans id))
      after (none, h') o = rw o.same_spans (ground (arith, o.balanced (pending (h.spans id)) b))
      after (some x, h') o = keeps h' id x (rw o.same_spans (o.balanced (pending (h.spans id)) b))

  -- `MergeIntoFreeList` keeps the equation of the assertions, whatever the neighbours, the mode and
  -- the system's answers: if it holds but for the span's own bytes, it holds once the span is listed.
  pub merge_into_free_list-Balanced :
      (h : PageHeap) (id : ℕ)
      → Balanced h (pending (h.spans id))
      → Balanced (merge_into_free_list system h id) 0
  unfolding merge_into_free_list
  merge_into_free_list-Balanced h id b =
      let n = (h.spans id).length in
      let p = (h.spans id).start in
      let h₁ = decommit_first system h id in
      let b₁ = decommit_first-Keeps h id b in
      let before = h₁.pagemap (p - 1) in
      let b₂ = merge_if-Keeps (merge_before system) merge_before-Keeps h₁ id before b₁ in
      let h₂ =
        merge_if system (merge_before system) id (check_and_handle_pre_merge system h₁ id before) in
      let b₃ =
        merge_if-Keeps (merge_after system) merge_after-Keeps h₂ id (h₂.pagemap (p + n)) b₂ in
      prepend-Balanced _ id 0 (ground (arith, b₃))
