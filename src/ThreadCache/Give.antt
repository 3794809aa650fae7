-- ===== src/ThreadCache/Give.antt =====
-- `ReleaseToCentralCache`: what the central free list is given.
use native.Mathlib.Decide.{dec_lt}
use mathlib.Core.Path.{subst}
use gperftools.Base.{
  ℕ, zero, suc, ◌+◌, ◌-◌, ◌*◌, ◌≤◌, ◌<◌, ◌≡◌, refl, sym, ap, ◌∙◌, inl, inr, arith, List, [], ◌∷◌,
  ◌++◌, All, length, length-drop, take, drop, ltb, update, update_self, if◌then◌else◌, Bool-cases,
  ltb→lt, ltb_false→le, ok,
}
use gperftools.SizeMap.{SizeMap}
use gperftools.ThreadCache.{
  FreeList, ThreadCache, Central, Caches, sub32, give_loop, release_to_central_cache, set_list,
  set_size,
}
use gperftools.ThreadCache.Lists.{IsCounted, pop_range-IsCounted}

abbrev pub concat : List (List ℕ) → List ℕ
concat [] = []
concat (r ∷ rs) = r ++ concat rs

-- The central free list after it was given the ranges, in this order.
abbrev pub deliver : {C : Type 0} → Central C → ℕ → C → List (List ℕ) → C
deliver central cl c [] = c
deliver central cl c (r ∷ rs) = deliver central cl (central.insert_range c cl r (length r)) rs

length-take : (n : ℕ) (xs : List ℕ) → n ≤ length xs → length (take n xs) ≡ n
length-take zero xs h = refl
length-take (suc n) [] h = absurd (omega arith)
length-take (suc n) (x ∷ xs) h = omega (arith, length-take n xs (omega arith))

take_split : (b n : ℕ) (xs : List ℕ) → b ≤ n → take b xs ++ take (n - b) (drop b xs) ≡ take n xs
take_split zero n xs h = let e : n - 0 ≡ n = omega arith in rw e refl
take_split (suc b) zero xs h = absurd (omega arith)
take_split (suc b) (suc n) [] h = elim (dec_lt 0 (suc n - suc b)) [
  | yes p ↦ let e : suc n - suc b ≡ suc (n - b - 1) = omega arith in rw e refl
  | no p ↦ let e : suc n - suc b ≡ 0 = omega arith in rw e refl
]
take_split (suc b) (suc n) (x ∷ xs) h =
    let e : suc n - suc b ≡ n - b = omega arith in
    rw e (ap (λ (t : List ℕ). x ∷ t) (take_split b n xs (omega arith)))

drop_split : (b n : ℕ) (xs : List ℕ) → b ≤ n → drop (n - b) (drop b xs) ≡ drop n xs
drop_split zero n xs h = let e : n - 0 ≡ n = omega arith in rw e refl
drop_split (suc b) zero xs h = absurd (omega arith)
drop_split (suc b) (suc n) [] h = elim (dec_lt 0 (suc n - suc b)) [
  | yes p ↦ let e : suc n - suc b ≡ suc (n - b - 1) = omega arith in rw e refl
  | no p ↦ let e : suc n - suc b ≡ 0 = omega arith in rw e refl
]
drop_split (suc b) (suc n) (x ∷ xs) h =
    let e : suc n - suc b ≡ n - b = omega arith in rw e (drop_split b n xs (omega arith))

-- What `ReleaseToCentralCache` does with the first n objects of a list.
pub record Given {C : Type 0} (central : Central C) (cl batch n : ℕ) (c : C) (l : FreeList) (c' : C)
    (l' : FreeList) (rs : List (List ℕ)) : Type 0 where
  pub delivered : c' ≡ deliver central cl c rs
  pub objects : concat rs ≡ take n l.objects
  pub short : All (λ r. length r ≤ batch) rs
  pub rest : l'.objects ≡ drop n l.objects
  pub count : l'.count + n ≡ l.count
  pub valid : IsCounted l'

append_nil : (xs : List ℕ) → xs ++ [] ≡ xs
append_nil [] = refl
append_nil (x ∷ xs) = ap (λ (t : List ℕ). x ∷ t) (append_nil xs)

module _ {C : Type 0} (central : Central C) (m : SizeMap) (cl : ℕ)
    (some_batch : 0 < m.num_objects_to_move cl) where
  abbrev batch : ℕ
  batch = m.num_objects_to_move cl

  give_loop-Given :
      (fuel : ℕ) (c : C) (l : FreeList) (n : ℕ)
      → n < fuel
      → n ≤ length l.objects
      → IsCounted l
      → (c' : C) × (l' : FreeList) × (rs : List (List ℕ)) × (give_loop central m fuel cl c l n
          ≡ ok (c', l'))
        × Given central cl batch n c l c' l' rs
  unfolding give_loop
  give_loop-Given zero c l n enough fits h = absurd (omega arith)
  give_loop-Given (suc fuel) c l n enough fits h = elim (Bool-cases (ltb batch n)) [
    | inr e ↦
        let (l', run, rest, count, valid) = pop_range-IsCounted l n h fits in
        let most = ltb_false→le batch n e in
        let len = length-take n l.objects fits in
        (
          central.insert_range c cl (take n l.objects) n,
          l',
          take n l.objects ∷ [],
          rw (e, run) refl,
          record {
            delivered = ap (λ (k : ℕ). central.insert_range c cl (take n l.objects) k) (sym len);
            objects = append_nil (take n l.objects);
            short = (rw len most, tt);
            rest = rest;
            count = count;
            valid = valid;
          },
        )
    | inl e ↦
        let more = ltb→lt batch n e in
        let (l₁, run, rest, count, valid) = pop_range-IsCounted l batch h (omega arith) in
        let c₁ : C = central.insert_range c cl (take batch l.objects) batch in
        let len = length-take batch l.objects (omega arith) in
        let left : n - batch ≤ length l₁.objects =
          rw rest (omega (arith, length-drop batch l.objects)) in
        let (c', l', rs, run', g) =
          give_loop-Given fuel c₁ l₁ (n - batch) (omega arith) left valid in
        (
          c',
          l',
          take batch l.objects ∷ rs,
          rw (e, run) run',
          record {
            delivered =
                g.delivered
                ∙ ap
                    (λ (k : ℕ).
                      deliver central cl (central.insert_range c cl (take batch l.objects) k) rs)
                    (sym len);
            objects =
                ap (λ (t : List ℕ). take batch l.objects ++ t)
                  (g.objects ∙ ap (take (n - batch)) rest)
                ∙ take_split batch n l.objects (omega arith);
            short = (omega (arith, len), g.short);
            rest =
                g.rest ∙ (ap (drop (n - batch)) rest ∙ drop_split batch n l.objects (omega arith));
            count = omega (arith, g.count, count);
            valid = g.valid;
          },
        )
  ]

  pub release_to_central_cache-Given :
      (s : Caches C) (id n : ℕ)
      → IsCounted ((s.cache id).list cl)
      → let l = (s.cache id).list cl in
        let k = if ltb l.count n then l.count else n in
        (s' : Caches C) × (rs : List (List ℕ)) × (release_to_central_cache central m s id cl n
          ≡ ok s')
        × Given central cl batch k s.central l s'.central ((s'.cache id).list cl) rs
        × ((s'.cache id).size ≡ sub32 (s.cache id).size (k * m.class_to_size cl))
  unfolding release_to_central_cache
  release_to_central_cache-Given s id n h =
      let l = (s.cache id).list cl in
      let k : ℕ = if ltb l.count n then l.count else n in
      let fits : k ≤ length l.objects = ground (arith, h.counted) in
      let (c', l', rs, run, g) = give_loop-Given (k + 1) s.central l k (omega arith) fits h in
      let s₁ : Caches C = set_list (record s { central = c' }) id cl l' in
      let size' : ℕ = sub32 (s.cache id).size (k * m.class_to_size cl) in
      let t : (set_size s₁ id size').cache id ≡ record (s₁.cache id) { size = size' } =
        update_self s₁.cache id (record (s₁.cache id) { size = size' }) in
      let lists : ((set_size s₁ id size').cache id).list cl ≡ l' =
        ap (λ (t : ThreadCache). t.list cl) t
        ∙ (ap (λ (t : ThreadCache). t.list cl)
              (update_self s.cache id
                (record (s.cache id) { list = update (s.cache id).list cl l' }))
            ∙ update_self (s.cache id).list cl l') in
      (
        set_size s₁ id size',
        rs,
        rw run refl,
        subst (λ (x : FreeList). Given central cl batch k s.central l c' x rs) (sym lists) g,
        ap (λ (t : ThreadCache). t.size) t,
      )
