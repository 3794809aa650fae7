-- ===== src/CentralFreeList/Conserve.antt =====
-- The objects of one span: free in it or in use.
use gperftools.Base.{
  ℕ, suc, ◌+◌, ◌-◌, ◌%◌, ◌^◌, ◌<◌, ◌≡◌, ◌≢◌, sym, ap, ◌∙◌, max, List, [], ◌∷◌, ◌++◌, length,
  length-append, take, drop, take-append-drop, update, update_self, update_ne, Outcome, ok, arith,
}
use gperftools.PageHeap.{sub64}
use gperftools.CentralFreeList.{
  CentralFreeList, State, Surroundings, set_list, move_to_empty, fetch_from_span, fetch_objects,
  fetch_from_one_spans,
}

-- The objects that a span has, free or in use.
abbrev pub tally : State → ℕ → ℕ
tally s id = s.refcount id + length (s.objects id)

-- `FetchFromOneSpans` takes the first objects of the first span of the nonempty list, at least one
-- if that span has one; they count as in use, the others stay, and no other span changes, for a
-- span of fewer than 2^16 objects.
pub fetch_from_one_spans-tally :
    (w : Surroundings) (s : State) (cl id n x : ℕ) (others xs : List ℕ)
    → (s.lists cl).nonempty ≡ id ∷ others
    → s.objects id ≡ x ∷ xs
    → tally s id < 2 ^ 16
    → (ys : List ℕ) × (s' : State) × (fetch_from_one_spans w s cl n ≡ ok (ys, s'))
      × (0 < length ys)
      × (s.objects id ≡ ys ++ s'.objects id)
      × (tally s' id ≡ tally s id)
      × ((j : ℕ) → j ≢ id → (s'.objects j ≡ s.objects j) × (s'.refcount j ≡ s.refcount j))
unfolding fetch_from_one_spans fetch_from_span fetch_objects
fetch_from_one_spans-tally w s cl id n x others xs first e small =
    let ys : List ℕ = take (max n 1) (x ∷ xs) in
    let rest : List ℕ = drop (max n 1) (x ∷ xs) in
    let l : CentralFreeList = move_to_empty (s.lists cl) id rest in
    let s' : State =
      record (set_list s cl (record l { counter = sub64 (s.lists cl).counter (length ys) })) {
        objects = update s.objects id rest;
        refcount = update s.refcount id ((s.refcount id + length ys) % 2 ^ 16);
      } in
    let whole = take-append-drop (max n 1) (x ∷ xs) in
    let parts = length-append ys rest in
    let size : length (x ∷ xs) ≡ length ys + length rest = ap length (sym whole) ∙ parts in
    let some_max : max n 1 ≡ suc (max n 1 - 1) = omega arith in
    let positive : 0 < length ys = rw some_max (omega arith) in
    let left = update_self s.objects id rest in
    let used = update_self s.refcount id ((s.refcount id + length ys) % 2 ^ 16) in
    let old : length (s.objects id) ≡ length (x ∷ xs) = ap length e in
    let new : length (s'.objects id) ≡ length rest = ap length left in
    (
      ys,
      s',
      ap
            (λ (o : List ℕ). elim o as (λ _. Outcome (List ℕ × State)) [
              | [] ↦ ok ([], s)
              | i ∷ _ ↦ fetch_from_span w s cl i n
            ])
            first
          ∙ ap (fetch_objects w s cl id n) e,
      positive,
      e ∙ (sym whole ∙ ap (λ (t : List ℕ). ys ++ t) (sym left)),
      omega (arith, used, old, new, size, small),
      λ j ne. (update_ne s.objects id j rest ne, update_ne s.refcount id j _ ne),
    )
