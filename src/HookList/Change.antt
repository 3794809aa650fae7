-- ===== src/HookList/Change.antt =====
-- What `Add` and `Remove` change, and when they refuse.
use gperftools.Base.{
  ℕ, zero, suc, ◌+◌, ◌≤◌, ◌<◌, ◌≡◌, ◌≢◌, ◌⊎◌, refl, inl, inr, true, false, ◌==◌, update, arith,
  Bool-cases,
}
use gperftools.HookList.{HookList, capacity, max_values, free_index, add, index_of, remove}
use gperftools.HookList.Ended.{Ended, free_index_lem}

-- `Add` of a hook writes it to the first free slot of the first seven and returns true, or returns
-- false and changes nothing if none of the seven is free.
pub add_lem :
    (h : HookList) (v : ℕ)
    → 0 < v
    → ((i : ℕ) × (i < max_values)
        × (h.priv_data i ≡ 0)
        × ((j : ℕ) → j < i → 0 < h.priv_data j)
        × ((add h v).0 ≡ true)
        × ((add h v).1.priv_data ≡ update h.priv_data i v))
      ⊎ (((j : ℕ) → j < max_values → 0 < h.priv_data j) × (add h v ≡ (false, h)))
unfolding add
add_lem h v some_hook =
    let i : ℕ = free_index max_values 0 h.priv_data in
    let (low, high, at, before) = free_index_lem max_values 0 h.priv_data in
    let hook : (v == 0) ≡ false = ground arith in
    elim (Bool-cases (i == max_values)) [
      | inl e ↦
          let full : i ≡ max_values = ground arith in
          inr (λ j below. before j (omega arith) (omega arith), rw (hook, e) refl)
      | inr e ↦
          let free : i < max_values = ground arith in
          inl (
            i,
            free,
            at (omega arith),
            λ j below. before j (omega arith) below,
            rw (hook, e) refl,
            rw (hook, e) refl,
          )
    ]

index_of_lem :
    (n i v : ℕ) (a : ℕ → ℕ)
    → (i ≤ index_of n i v a)
      × (index_of n i v a ≤ i + n)
      × (index_of n i v a < i + n → a (index_of n i v a) ≡ v)
      × ((j : ℕ) → i ≤ j → j < index_of n i v a → a j ≢ v)
unfolding index_of
index_of_lem zero i v a =
    (omega arith, omega arith, λ h. absurd (omega arith), λ j h h'. absurd (omega arith))
index_of_lem (suc n) i v a = elim (Bool-cases (v == a i)) [
  | inl e ↦ rw e (omega arith, omega arith, λ h. ground arith, λ j h h'. absurd (omega arith))
  | inr e ↦
      let (low, high, at, before) = index_of_lem n (i + 1) v a in
      rw e (omega arith, omega arith, λ h. at (omega arith), λ j h h'. ground (arith, before j))
]

-- `Remove` of a hook clears the first of all eight slots that has it and returns true, or returns
-- false and changes nothing if none has it, on a list with no hook past its end.
pub remove_lem :
    (h : HookList) (v : ℕ)
    → 0 < v
    → Ended h
    → ((i : ℕ) × (i < capacity)
        × (h.priv_data i ≡ v)
        × ((j : ℕ) → j < i → h.priv_data j ≢ v)
        × ((remove h v).0 ≡ true)
        × ((remove h v).1.priv_data ≡ update h.priv_data i 0))
      ⊎ (((j : ℕ) → j < capacity → h.priv_data j ≢ v) × (remove h v ≡ (false, h)))
unfolding remove
remove_lem h v some_hook d =
    let i : ℕ = index_of h.priv_end 0 v h.priv_data in
    let (low, high, at, before) = index_of_lem h.priv_end 0 v h.priv_data in
    let hook : (v == 0) ≡ false = ground arith in
    elim (Bool-cases (i == h.priv_end)) [
      | inl e ↦
          let all : i ≡ h.priv_end = ground arith in
          inr (λ j below. ground (arith, before j, d.clear j), rw (hook, e) refl)
      | inr e ↦
          let found : i < h.priv_end = ground arith in
          inl (
            i,
            omega (arith, d.within),
            at (omega arith),
            λ j below. before j (omega arith) below,
            rw (hook, e) refl,
            rw (hook, e) refl,
          )
    ]
