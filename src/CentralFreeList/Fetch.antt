-- ===== src/CentralFreeList/Fetch.antt =====
-- How many objects `RemoveRange` gives, and that its loops end.
use gperftools.Base.{
  ℕ, zero, suc, ◌+◌, ◌-◌, ◌*◌, ◌%◌, ◌^◌, ◌≤◌, ◌<◌, inl, inr, max, List, [], ◌∷◌, ◌++◌, length,
  length-append, take, ltb, ◌==◌, ◌&&◌, Option, none, some, ok, ◌>>=◌, arith, Bool-cases, ltb→lt,
  Ends, Ends->>=,
}
use gperftools.SizeMap.{page_shift}
use gperftools.PageHeap.{PageHeap}
use gperftools.PageHeap.Grow.{new_with_size_class}
use gperftools.CentralFreeList.{
  State, Surroundings, add_span, cache_pages, fetch_from_span, fetch_objects, fetch_from_one_spans,
  populate, fetch_from_one_spans_safe, fetch_loop, pieces,
}
use gperftools.CentralFreeList.Transfer.{remove_range}
use gperftools.CentralFreeList.Pieces.{pieces-Ends}

-- At most n objects.
abbrev AtMost : ℕ → List ℕ × State → Type 0
AtMost n r = length r.0 ≤ n

length-take_le : (n : ℕ) (xs : List ℕ) → length (take n xs) ≤ n
length-take_le zero xs = omega arith
length-take_le (suc n) [] = omega arith
length-take_le (suc n) (x ∷ xs) = omega (arith, length-take_le n xs)

module _ (w : Surroundings) (s : State) (cl : ℕ) (n : ℕ) (pos : 0 < n) where
  fetch_from_span-AtMost : (id : ℕ) → Ends (AtMost n) (fetch_from_span w s cl id n)
  unfolding fetch_from_span fetch_objects
  fetch_from_span-AtMost id = go (s.objects id)
    where
      go : (o : List ℕ) → Ends (AtMost n) (fetch_objects w s cl id n o)
      go [] = tt
      go (x ∷ xs) = omega (arith, length-take_le (max n 1) (x ∷ xs))

  fetch_from_one_spans-AtMost : Ends (AtMost n) (fetch_from_one_spans w s cl n)
  unfolding fetch_from_one_spans
  fetch_from_one_spans-AtMost = go (s.lists cl).nonempty
    where
      go :
          (o : List ℕ)
          → Ends (AtMost n) (elim o [ [] ↦ ok ([], s) | id ∷ _ ↦ fetch_from_span w s cl id n ])
      go [] = omega arith
      go (id ∷ _) = fetch_from_span-AtMost id

module _ (w : Surroundings) (cl : ℕ) (sized : 0 < w.map.class_to_size cl)
    (small : w.map.class_to_size cl < 2 ^ 64) where
  populate-Ends : (s : State) → Ends (λ s. Unit {0}) (populate w s cl)
  unfolding populate
  populate-Ends s =
      go (new_with_size_class w.system w.config (w.meanwhile s).heap (w.map.class_to_pages cl) cl)
    where
      go :
          (r : Option ℕ × PageHeap)
          → Ends
              (λ s. Unit {0})
              (elim r.0 [
                | none ↦ ok (w.meanwhile (record (w.meanwhile s) { heap = r.1 }))
                | some id ↦
                    let start = (r.1.spans id).start in
                    let ptr = start * 2 ^ page_shift in
                    let size = w.map.class_to_pages cl * 2 ^ page_shift in
                    pieces (size + 1) ptr ((ptr + size) % 2 ^ 64) (w.map.class_to_size cl)
                    >>= (λ (xs : List ℕ). ok (
                        add_span w
                          (record (w.meanwhile s) {
                            heap = cache_pages (w.map.class_to_pages cl) r.1 start cl;
                          })
                          cl
                          id
                          xs))
              ])
      go (none, h) = tt
      go (some id, h) =
          let ptr : ℕ = (h.spans id).start * 2 ^ page_shift in
          let size : ℕ = w.map.class_to_pages cl * 2 ^ page_shift in
          Ends->>= (λ xs. Unit {0}) (λ s. Unit {0})
            (pieces (size + 1) ptr ((ptr + size) % 2 ^ 64) (w.map.class_to_size cl)) _
            (pieces-Ends (size + 1) ptr ((ptr + size) % 2 ^ 64) (w.map.class_to_size cl) sized small
              (omega arith))
            (λ xs _. tt)

  fetch_from_one_spans_safe-AtMost :
      (s : State) (n : ℕ) → 0 < n → Ends (AtMost n) (fetch_from_one_spans_safe w s cl n)
  unfolding fetch_from_one_spans_safe
  fetch_from_one_spans_safe-AtMost s n pos =
      Ends->>= (AtMost n) (AtMost n) (fetch_from_one_spans w s cl n) _
        (fetch_from_one_spans-AtMost w s cl n pos) retry
    where
      retry :
          (r : List ℕ × State)
          → AtMost n r
          → Ends (AtMost n) (elim r.0 [
            | y ∷ ys ↦ ok (y ∷ ys, r.1)
            | [] ↦ populate w r.1 cl >>= (λ s₂. fetch_from_one_spans w s₂ cl n)
          ])
      retry (y ∷ ys, s₁) h = h
      retry ([], s₁) h =
          Ends->>= (λ s. Unit {0}) (AtMost n) (populate w s₁ cl) _ (populate-Ends s₁)
            (λ s₂ _. fetch_from_one_spans-AtMost w s₂ cl n pos)

  fetch_loop-AtMost :
      (fuel : ℕ) (s : State) (n : ℕ) (got : List ℕ)
      → length got ≤ n
      → n - length got < fuel
      → Ends (AtMost n) (fetch_loop w fuel s cl n got)
  unfolding fetch_loop
  fetch_loop-AtMost zero s n got some_got enough = absurd (omega arith)
  fetch_loop-AtMost (suc fuel) s n got some_got enough = elim (Bool-cases (ltb (length got) n)) [
    | inr e ↦ rw e some_got
    | inl e ↦
        let more = ltb→lt (length got) n e in
        rw e (
          Ends->>= (AtMost (n - length got)) (AtMost n)
            (fetch_from_one_spans w s cl (n - length got)) _
            (fetch_from_one_spans-AtMost w s cl (n - length got) (omega arith))
            (again (λ s' more h h'. fetch_loop-AtMost fuel s' n more h h')))
  ]
    where
      again :
          ((s' : State) (more : List ℕ)
            → length more ≤ n
            → n - length more < fuel
            → Ends (AtMost n) (fetch_loop w fuel s' cl n more))
          → (r : List ℕ × State) → AtMost (n - length got) r
          → Ends (AtMost n) (elim r.0 [
            | [] ↦ ok (got, r.1)
            | y ∷ ys ↦ fetch_loop w fuel r.1 cl n (y ∷ ys ++ got)
          ])
      again ih ([], s') h = some_got
      again ih (y ∷ ys, s') h =
          let len = length-append (y ∷ ys) got in ih s' (y ∷ ys ++ got) (omega arith) (omega arith)

  -- `RemoveRange` for n objects, n above 0, of a class of a size above 0 and below 2^64 ends, or
  -- crashes; it gives at most n objects, if each slot in use has at most a batch.
  pub remove_range-AtMost :
      (s : State) (n : ℕ)
      → 0 < n
      → ((i : ℕ)
          → i < (s.lists cl).used_slots
          → length ((s.lists cl).slots i) ≤ w.map.num_objects_to_move cl)
      → Ends (λ r. length r.0 ≤ n) (remove_range w s cl n)
  unfolding remove_range
  remove_range-AtMost s n pos batches =
      elim (Bool-cases (n == w.map.num_objects_to_move cl && ltb 0 (s.lists cl).used_slots)) [
        | inl e ↦ rw e (ground (arith, batches ((s.lists cl).used_slots - 1)))
        | inr e ↦ rw e (
            Ends->>= (AtMost n) (AtMost n) (fetch_from_one_spans_safe w s cl n) _
              (fetch_from_one_spans_safe-AtMost s n pos) go_on)
      ]
    where
      go_on :
          (r : List ℕ × State)
          → AtMost n r
          → Ends
              (AtMost n)
              (elim r.0 [ [] ↦ ok ([], r.1) | y ∷ ys ↦ fetch_loop w n r.1 cl n (y ∷ ys) ])
      go_on ([], s') h = omega arith
      go_on (y ∷ ys, s') h = fetch_loop-AtMost n s' n (y ∷ ys) h (omega arith)
