-- ===== src/AddressMap/Refine.antt =====
-- The map from addresses to values that an `AddressMap` stands for.
use gperftools.Base.{
  ℕ, ◌≡◌, refl, ap, ◌∙◌, inl, inr, Option, none, some, List, [], ◌∷◌, ◌==◌, if◌then◌else◌, arith,
  Bool-cases,
}
use gperftools.AddressMap.{
  AddressMap, new_map, find_entry, block_in, find, insert, without, find_and_remove,
}
use gperftools.AddressMap.Update.{
  IsSound, find-insert, without-find, insert-IsSound, without-IsSound,
}

-- A change of a map.
pub data Change (V : Type 0) : Type 0 where
  inserts : ℕ → V → Change V
  removes : ℕ → Change V

module _ {V : Type 0} where
  -- The map after these changes, the last of them first.
  abbrev pub changed : List (Change V) → AddressMap V
  changed [] = new_map
  changed (inserts k v ∷ cs) = insert (changed cs) k v
  changed (removes k ∷ cs) = (find_and_remove (changed cs) k).1

  -- What the changes say of a key.
  abbrev pub recall : List (Change V) → ℕ → Option V
  recall [] j = none
  recall (inserts k v ∷ cs) j = if j == k then some v else recall cs j
  recall (removes k ∷ cs) j = if j == k then none else recall cs j

  find_and_remove_lem :
      (m : AddressMap V) (k : ℕ)
      → IsSound m
      → ((find_and_remove m k).0 ≡ find m k)
        × IsSound (find_and_remove m k).1
        × ((j : ℕ) → find (find_and_remove m k).1 j ≡ (if j == k then none else find m j))
  unfolding find_and_remove
  find_and_remove_lem m k sound = go (find m k) refl
    where
      absent : find m k ≡ none → (j : ℕ) → find m j ≡ (if j == k then none else find m j)
      absent e j = elim (Bool-cases (j == k)) [
        | inl z ↦ let same : j ≡ k = ground arith in rw z (ap (λ (i : ℕ). find m i) same ∙ e)
        | inr z ↦ rw z refl
      ]

      removal : Option V → Option V × AddressMap V
      removal (some v) = (some v, without m k)
      removal none = (none, m)

      go :
          (o : Option V)
          → find m k ≡ o
          → ((removal o).0 ≡ o)
            × IsSound (removal o).1
            × ((j : ℕ) → find (removal o).1 j ≡ (if j == k then none else find m j))
      go (some v) e = (refl, without-IsSound m k sound, λ j. without-find m k j sound)
      go none e = (refl, sound, absent e)

  changed-IsSound : (cs : List (Change V)) → IsSound (changed cs)
  unfolding block_in
  changed-IsSound [] h id b = tt
  changed-IsSound (inserts k v ∷ cs) h id b =
      insert-IsSound (changed cs) k v (changed-IsSound cs) h id b
  changed-IsSound (removes k ∷ cs) h id b =
      (find_and_remove_lem (changed cs) k (changed-IsSound cs)).1 h id b

  find-new_map : (j : ℕ) → find {V = V} new_map j ≡ none
  unfolding find block_in find_entry
  find-new_map j = refl

  find_lem : (cs : List (Change V)) (j : ℕ) → find (changed cs) j ≡ recall cs j
  find_lem [] j = find-new_map j
  find_lem (inserts k v ∷ cs) j =
      find-insert (changed cs) k v j
      ∙ ap (λ (o : Option V). if j == k then some v else o) (find_lem cs j)
  find_lem (removes k ∷ cs) j =
      (find_and_remove_lem (changed cs) k (changed-IsSound cs)).2 j
      ∙ ap (λ (o : Option V). if j == k then none else o) (find_lem cs j)

  -- After any insertions and removals on an empty map, `Find` gives what they say of a key: the value
  -- inserted last, or nothing if the key was never inserted or was removed since. `FindAndRemove` would
  -- give the same.
  pub find-changed :
      (cs : List (Change V)) (k : ℕ)
      → (find (changed cs) k ≡ recall cs k) × ((find_and_remove (changed cs) k).0 ≡ recall cs k)
  find-changed cs k =
      (find_lem cs k, (find_and_remove_lem (changed cs) k (changed-IsSound cs)).0 ∙ find_lem cs k)
