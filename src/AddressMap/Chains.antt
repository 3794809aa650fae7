-- ===== src/AddressMap/Chains.antt =====
-- Blocks and chains of clusters as maps.
use gperftools.Base.{
  ℕ, ◌≡◌, refl, sym, ap, ◌∙◌, inl, inr, Bool, false, ◌&&◌, Option, none, some, ◌⊎◌, List, [], ◌∷◌,
  ◌==◌, if◌then◌else◌, arith, Bool-cases, eq→==,
}
use gperftools.AddressMap.{
  Entry, Cluster, find_cluster, create_cluster, change_block, find_entry, set_entry, insert_entry,
  remove_entry, block_in,
}

module _ {V : Type 0} where
  -- No key occurs twice.
  abbrev pub AreDistinct : List (Entry V) → Type 0
  AreDistinct [] = Unit
  AreDistinct (e ∷ es) = (find_entry es e.key ≡ none) × AreDistinct es

  pub find_entry-set_entry :
      (es : List (Entry V)) (key : ℕ) (v w : V) (k : ℕ)
      → find_entry es key ≡ some w
      → find_entry (set_entry es key v) k ≡ (if k == key then some v else find_entry es k)
  unfolding find_entry set_entry
  find_entry-set_entry [] key v w k h = ground arith
  find_entry-set_entry (e ∷ es) key v w k h = ground (arith, find_entry-set_entry es key v w k)

  pub find_entry-remove_entry :
      (es : List (Entry V)) (key k : ℕ)
      → AreDistinct es
      → find_entry (remove_entry es key) k ≡ (if k == key then none else find_entry es k)
  unfolding find_entry remove_entry
  find_entry-remove_entry [] key k d = ground arith
  find_entry-remove_entry (e ∷ es) key k (d, ds) =
      ground (arith, d, find_entry-remove_entry es key k ds)

  no_block : (cs : List (Cluster V)) (id b : ℕ) → find_cluster cs id ≡ none → block_in cs id b ≡ []
  unfolding block_in find_cluster
  no_block [] id b h = refl
  no_block (c ∷ cs) id b h = ground (arith, no_block cs id b)

  fresh_cluster :
      (cs : List (Cluster V)) (id i b : ℕ)
      → find_cluster cs id ≡ none
      → block_in (record { id = id; blocks = λ b. [] } ∷ cs) i b ≡ block_in cs i b
  unfolding block_in
  fresh_cluster cs id i b h = elim (Bool-cases (id == i)) [
    | inl z ↦
        let e : id ≡ i = ground arith in
        rw z (sym (ap (λ (k : ℕ). block_in cs k b) (sym e) ∙ no_block cs id b h))
    | inr z ↦ rw z refl
  ]

  pub block_in-create_cluster :
      (cs : List (Cluster V)) (id i b : ℕ) → block_in (create_cluster cs id) i b ≡ block_in cs i b
  unfolding create_cluster
  block_in-create_cluster cs id i b = go (find_cluster cs id) refl
    where
      go :
          (o : Option (Cluster V))
          → find_cluster cs id ≡ o
          → block_in
              (elim o as (λ _. List (Cluster V)) [
                | some c ↦ cs
                | none ↦ record { id = id; blocks = λ b. [] } ∷ cs
              ])
              i
              b
            ≡ block_in cs i b
      go (some c) e = refl
      go none e = fresh_cluster cs id i b e

  new_found :
      (cs : List (Cluster V)) (id : ℕ)
      → (c : Cluster V) × (find_cluster (record { id = id; blocks = λ b. [] } ∷ cs) id ≡ some c)
  unfolding find_cluster
  new_found cs id = (record { id = id; blocks = λ b. [] }, rw (eq→== id id refl) refl)

  later :
      (d : Cluster V) (cs : List (Cluster V)) (id : ℕ) (f : List (Entry V) → List (Entry V))
      → (d.id == id) ≡ false
      → (f [] ≡ []) ⊎ ((c : Cluster V) × (find_cluster (d ∷ cs) id ≡ some c))
      → (f [] ≡ []) ⊎ ((c : Cluster V) × (find_cluster cs id ≡ some c))
  unfolding find_cluster
  later d cs id f z (inl e) = inl e
  later d cs id f z (inr (c, e)) =
      inr (c, sym (ap (λ (t : Bool). if t then some d else find_cluster cs id) z) ∙ e)

  pub find_cluster-create_cluster :
      (cs : List (Cluster V)) (id : ℕ)
      → (c : Cluster V) × (find_cluster (create_cluster cs id) id ≡ some c)
  unfolding create_cluster
  find_cluster-create_cluster cs id = go (find_cluster cs id) refl
    where
      go :
          (o : Option (Cluster V))
          → find_cluster cs id ≡ o
          → (c : Cluster V) × (find_cluster
                (elim o as (λ _. List (Cluster V)) [
                  | some c ↦ cs
                  | none ↦ record { id = id; blocks = λ b. [] } ∷ cs
                ])
                id
              ≡ some c)
      go (some c) e = (c, e)
      go none e = new_found cs id

  -- A block changes, and no other: in a chain that has its cluster, or by a function that leaves an
  -- empty block.
  pub block_in-change_block :
      (cs : List (Cluster V)) (id b : ℕ) (f : List (Entry V) → List (Entry V)) (i j : ℕ)
      → (f [] ≡ []) ⊎ ((c : Cluster V) × (find_cluster cs id ≡ some c))
      → block_in (change_block cs id b f) i j
        ≡ (if (i == id) && (j == b) then f (block_in cs id b) else block_in cs i j)
  unfolding block_in find_cluster change_block
  block_in-change_block [] id b f i j (inl e) = ground (arith, e)
  block_in-change_block [] id b f i j (inr (c, e)) = ground arith
  block_in-change_block (d ∷ cs) id b f i j h = elim (Bool-cases (d.id == id)) [
    | inl z ↦ ground arith
    | inr z ↦ ground (arith, block_in-change_block cs id b f i j (later d cs id f z h))
  ]

  new_entry :
      (es : List (Entry V)) (key : ℕ) (v : V) (k : ℕ)
      → find_entry (record { key = key; value = v } ∷ es) k
        ≡ (if k == key then some v else find_entry es k)
  unfolding find_entry
  new_entry es key v k = ground arith

  pub find_entry-insert_entry :
      (es : List (Entry V)) (key : ℕ) (v : V) (k : ℕ)
      → find_entry (insert_entry es key v) k ≡ (if k == key then some v else find_entry es k)
  unfolding insert_entry
  find_entry-insert_entry es key v k = go (find_entry es key) refl
    where
      go :
          (o : Option V)
          → find_entry es key ≡ o
          → find_entry
              (elim o as (λ _. List (Entry V)) [
                | some w ↦ set_entry es key v
                | none ↦ record { key = key; value = v } ∷ es
              ])
              k
            ≡ (if k == key then some v else find_entry es k)
      go (some w) e = find_entry-set_entry es key v w k e
      go none e = new_entry es key v k

  still_absent :
      (es : List (Entry V)) (key k : ℕ) (v : V)
      → find_entry es k ≡ none
      → find_entry (set_entry es key v) k ≡ none
  unfolding find_entry set_entry
  still_absent [] key k v h = refl
  still_absent (e ∷ es) key k v h = ground (arith, still_absent es key k v)

  set_entry-AreDistinct :
      (es : List (Entry V)) (key : ℕ) (v : V) → AreDistinct es → AreDistinct (set_entry es key v)
  unfolding set_entry
  set_entry-AreDistinct [] key v d = tt
  set_entry-AreDistinct (e ∷ es) key v (d, ds) = elim (Bool-cases (e.key == key)) [
    | inl z ↦ rw z (d, ds)
    | inr z ↦ rw z (still_absent es key e.key v d, set_entry-AreDistinct es key v ds)
  ]

  pub insert_entry-AreDistinct :
      (es : List (Entry V)) (key : ℕ) (v : V) → AreDistinct es → AreDistinct (insert_entry es key v)
  unfolding insert_entry
  insert_entry-AreDistinct es key v d = go (find_entry es key) refl
    where
      go :
          (o : Option V)
          → find_entry es key ≡ o
          → AreDistinct (elim o as (λ _. List (Entry V)) [
            | some w ↦ set_entry es key v
            | none ↦ record { key = key; value = v } ∷ es
          ])
      go (some w) e = set_entry-AreDistinct es key v d
      go none e = (e, d)

  pub remove_entry-AreDistinct :
      (es : List (Entry V)) (key : ℕ) → AreDistinct es → AreDistinct (remove_entry es key)
  unfolding remove_entry
  remove_entry-AreDistinct [] key d = tt
  remove_entry-AreDistinct (e ∷ es) key (d, ds) = elim (Bool-cases (e.key == key)) [
    | inl z ↦ rw z ds
    | inr z ↦
        rw z (find_entry-remove_entry es key e.key ds ∙ rw z d, remove_entry-AreDistinct es key ds)
  ]
