-- ===== src/HookList/Ended.antt =====
-- No hook lies past the recorded end, so `Traverse` meets them all.
use gperftools.Base.{
  ℕ, zero, suc, ◌+◌, ◌-◌, ◌≤◌, ◌<◌, ◌≡◌, refl, sym, ap, ◌∙◌, inl, inr, List, [], ◌∷◌, ◌==◌,
  if◌then◌else◌, update, arith, Bool-cases,
}
use gperftools.HookList.{
  HookList, capacity, max_values, singular_idx, no_hooks, free_index, add, fixup_end, fixup,
  index_of, remove, traverse_from, traverse, exchange_singular, Call, adds, removes, exchanges, run,
}

-- The end is within the slots, and those from it on are 0.
pub record Ended (h : HookList) : Type 0 where
  pub within : h.priv_end ≤ capacity
  pub clear : (i : ℕ) → h.priv_end ≤ i → i < capacity → h.priv_data i ≡ 0

-- `Add` finds a slot, or none.
pub free_index_lem :
    (n i : ℕ) (a : ℕ → ℕ)
    → (i ≤ free_index n i a)
      × (free_index n i a ≤ i + n)
      × (free_index n i a < i + n → a (free_index n i a) ≡ 0)
      × ((j : ℕ) → i ≤ j → j < free_index n i a → 0 < a j)
unfolding free_index
free_index_lem zero i a =
    (omega arith, omega arith, λ h. absurd (omega arith), λ j h h'. absurd (omega arith))
free_index_lem (suc n) i a = elim (Bool-cases (a i == 0)) [
  | inl e ↦ rw e (omega arith, omega arith, λ h. ground arith, λ j h h'. absurd (omega arith))
  | inr e ↦
      let (low, high, at, before) = free_index_lem n (i + 1) a in
      rw e (omega arith, omega arith, λ h. at (omega arith), λ j h h'. ground (arith, before j))
]

fixup_end_lem :
    (e : ℕ) (a : ℕ → ℕ) → (fixup_end e a ≤ e) × ((i : ℕ) → fixup_end e a ≤ i → i < e → a i ≡ 0)
unfolding fixup_end
fixup_end_lem zero a = (omega arith, λ i h h'. absurd (omega arith))
fixup_end_lem (suc e) a = elim (Bool-cases (a e == 0)) [
  | inl z ↦
      let (low, clear) = fixup_end_lem e a in rw z (omega arith, λ i h h'. ground (arith, clear i))
  | inr z ↦ rw z (omega arith, λ i h h'. absurd (omega arith))
]

fixup-Ended : (h : HookList) → Ended h → Ended (fixup h)
fixup-Ended h d =
    let (low, clear) = fixup_end_lem h.priv_end h.priv_data in
    record {
      within = omega (arith, d.within);
      clear = λ i e e'. ground (arith, clear i e, d.clear i);
    }

clear_slot :
    (h : HookList) (i : ℕ) → Ended h → Ended (record h { priv_data = update h.priv_data i 0 })
clear_slot h i d = record { within = d.within; clear = λ j past below. ground (arith, d.clear j) }

add-Ended : (h : HookList) (v : ℕ) → Ended h → Ended (add h v).1
unfolding add
add-Ended h v d = elim (Bool-cases (v == 0)) [
  | inl e ↦ rw e d
  | inr e ↦ rw e (elim (Bool-cases (free_index max_values 0 h.priv_data == max_values)) [
    | inl e' ↦ rw e' d
    | inr e' ↦
        let (low, high, at, before) = free_index_lem max_values 0 h.priv_data in
        rw e' (record {
          within = ground (arith, d.within);
          clear = λ i past below. ground (arith, d.clear i);
        })
  ])
]

remove-Ended : (h : HookList) (v : ℕ) → Ended h → Ended (remove h v).1
unfolding remove
remove-Ended h v d = elim (Bool-cases (v == 0)) [
  | inl e ↦ rw e d
  | inr e ↦ rw e (elim (Bool-cases (index_of h.priv_end 0 v h.priv_data == h.priv_end)) [
    | inl e' ↦ rw e' d
    | inr e' ↦ rw e' (fixup-Ended _ (clear_slot h (index_of h.priv_end 0 v h.priv_data) d))
  ])
]

exchange_singular-Ended : (h : HookList) (v : ℕ) → Ended h → Ended (exchange_singular h v).1
unfolding exchange_singular
exchange_singular-Ended h v d = elim (Bool-cases (v == 0)) [
  | inl e ↦
      let zero_hook : v ≡ 0 = ground arith in
      rw (zero_hook) (fixup-Ended _ (clear_slot h singular_idx d))
  | inr e ↦ rw e (record { within = omega arith; clear = λ i past below. absurd (omega arith) })
]

-- The hooks of `n` slots from `i` on, in order.
abbrev pub hooks_of : ℕ → ℕ → (ℕ → ℕ) → List ℕ
hooks_of zero i a = []
hooks_of (suc n) i a = if a i == 0 then hooks_of n (i + 1) a else a i ∷ hooks_of n (i + 1) a

traverse_from-hooks_of :
    (rounds i n : ℕ) (a : ℕ → ℕ) → rounds ≤ n → traverse_from rounds i n a ≡ hooks_of rounds i a
unfolding traverse_from
traverse_from-hooks_of zero i n a h = refl
traverse_from-hooks_of (suc rounds) i zero a h = absurd (omega arith)
traverse_from-hooks_of (suc rounds) i (suc n) a h =
    rw (traverse_from-hooks_of rounds (i + 1) (suc n) a (omega arith))
      (rw (traverse_from-hooks_of rounds (i + 1) n a (omega arith)) refl)

no_hooks_of : (n i : ℕ) (a : ℕ → ℕ) → ((j : ℕ) → i ≤ j → j < i + n → a j ≡ 0) → hooks_of n i a ≡ []
no_hooks_of zero i a h = refl
no_hooks_of (suc n) i a h =
    rw (h i (omega arith) (omega arith))
      (no_hooks_of n (i + 1) a (λ j low high. h j (omega arith) (omega arith)))

-- Slots of zeros after the first `n` add no hook.
hooks_of_more :
    (n m i : ℕ) (a : ℕ → ℕ)
    → ((j : ℕ) → i + n ≤ j → j < i + (n + m) → a j ≡ 0)
    → hooks_of (n + m) i a ≡ hooks_of n i a
hooks_of_more zero m i a h =
    let e : 0 + m ≡ m = omega arith in
    rw e (no_hooks_of m i a (λ j low high. h j (omega arith) (omega arith)))
hooks_of_more (suc n) m i a h =
    let e : suc n + m ≡ suc (n + m) = omega arith in
    let ih = hooks_of_more n m (i + 1) a (λ j past below. h j (omega arith) (omega arith)) in
    rw (e, ih) refl

run-Ended : (h : HookList) (cs : List Call) → Ended h → Ended (run h cs)
run-Ended h [] d = d
run-Ended h (adds v ∷ cs) d = run-Ended (add h v).1 cs (add-Ended h v d)
run-Ended h (removes v ∷ cs) d = run-Ended (remove h v).1 cs (remove-Ended h v d)
run-Ended h (exchanges v ∷ cs) d =
    run-Ended (exchange_singular h v).1 cs (exchange_singular-Ended h v d)

-- After any calls of `Add`, `Remove` and `ExchangeSingular` on an empty list, `Traverse` with room
-- for eight hooks gives those of all eight slots, in order.
pub traverse-run :
    (cs : List Call)
    → traverse (run no_hooks cs) capacity ≡ hooks_of capacity 0 (run no_hooks cs).priv_data
unfolding traverse
traverse-run cs =
    let h : HookList = run no_hooks cs in
    let d = run-Ended no_hooks cs (record { within = omega arith; clear = λ i past below. refl }) in
    let e : capacity ≡ h.priv_end + (capacity - h.priv_end) = omega (arith, d.within) in
    let more =
      hooks_of_more h.priv_end (capacity - h.priv_end) 0 h.priv_data
        (λ j past below. d.clear j (omega arith) (omega (arith, d.within))) in
    traverse_from-hooks_of h.priv_end 0 capacity h.priv_data d.within
    ∙ (sym more ∙ sym (ap (λ (k : ℕ). hooks_of k 0 h.priv_data) e))
