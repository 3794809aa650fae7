-- ===== src/AddressMap/Update.antt =====
-- What `Insert` and a removal change of the values that `Find` gives.
use mathlib.Core.Path.{subst}
use gperftools.Base.{
  ℕ, ◌+◌, ◌≡◌, refl, sym, ap, ◌∙◌, inl, inr, Bool, true, false, ◌&&◌, Option, none, some, List, [],
  ◌==◌, if◌then◌else◌, update, arith, Bool-cases, eq→==,
}
use gperftools.AddressMap.{
  Entry, Cluster, AddressMap, hash_int, block_id, cluster_id, create_cluster, change_block,
  find_entry, insert_entry, remove_entry, block_in, block_of, find, insert, without,
}
use gperftools.AddressMap.Chains.{
  AreDistinct, find_entry-insert_entry, find_entry-remove_entry, insert_entry-AreDistinct,
  remove_entry-AreDistinct, block_in-create_cluster, block_in-change_block,
  find_cluster-create_cluster,
}

-- Two addresses have the same block.
abbrev together : ℕ → ℕ → Bool
together j k = (cluster_id j == cluster_id k) && (block_id j == block_id k)

together_lem :
    (j k : ℕ) → together j k ≡ true → (cluster_id j ≡ cluster_id k) × (block_id j ≡ block_id k)
together_lem j k e = (ground arith, ground arith)

together_same : (j k : ℕ) → j ≡ k → together j k ≡ true
together_same j k e =
    rw
      (
        eq→== (cluster_id j) (cluster_id k) (ap (λ (a : ℕ). cluster_id a) e),
        eq→== (block_id j) (block_id k) (ap block_id e),
      )
      refl

apart_differ : (j k : ℕ) → together j k ≡ false → (j == k) ≡ false
apart_differ j k e = elim (Bool-cases (j == k)) [
  | inr d ↦ d
  | inl d ↦ let same = together_same j k (ground arith) in absurd (ground arith)
]

apart_by_hash :
    (j k : ℕ) → (hash_int (cluster_id j) == hash_int (cluster_id k)) ≡ false → together j k ≡ false
apart_by_hash j k e = elim (Bool-cases (together j k)) [
  | inr d ↦ d
  | inl d ↦
      let (same, _) = together_lem j k d in
      let hashes : hash_int (cluster_id j) ≡ hash_int (cluster_id k) = ap hash_int same in
      absurd (ground arith)
]

module _ {V : Type 0} where
  -- No block has a key twice.
  abbrev pub IsSound : AddressMap V → Type 0
  IsSound m = (h id b : ℕ) → AreDistinct (block_in (m.hashtable h) id b)

  -- The blocks of all addresses after the chain of one has changed its block.
  block_of-update :
      (m : AddressMap V) (chain : List (Cluster V)) (free k : ℕ)
      (f : List (Entry V) → List (Entry V)) (j : ℕ)
      → ((i b : ℕ)
          → block_in chain i b ≡ (
              if (i == cluster_id k) && (b == block_id k)
              then f (block_of m k)
              else block_in (m.hashtable (hash_int (cluster_id k))) i b))
      → block_of
          (record { hashtable = update m.hashtable (hash_int (cluster_id k)) chain; free = free })
          j
        ≡ (if together j k then f (block_of m k) else block_of m j)
  block_of-update m chain free k f j changed =
      elim (Bool-cases (hash_int (cluster_id j) == hash_int (cluster_id k))) [
        | inl e ↦
            let same : hash_int (cluster_id k) ≡ hash_int (cluster_id j) = ground arith in
            rw e (
              changed (cluster_id j) (block_id j)
              ∙ ap
                  (λ (h : ℕ).
                    if together j k
                    then f (block_of m k)
                    else block_in (m.hashtable h) (cluster_id j) (block_id j))
                  same)
        | inr e ↦ rw (e, apart_by_hash j k e) refl
      ]

  find_update :
      (m m' : AddressMap V) (k : ℕ) (f : List (Entry V) → List (Entry V)) (r : Option V) (j : ℕ)
      → block_of m' j ≡ (if together j k then f (block_of m k) else block_of m j)
      → ((i : ℕ)
          → find_entry (f (block_of m k)) i ≡ (if i == k then r else find_entry (block_of m k) i))
      → find m' j ≡ (if j == k then r else find m j)
  unfolding find
  find_update m m' k f r j block entry = elim (Bool-cases (together j k)) [
    | inl e ↦
        let (c, b) = together_lem j k e in
        let same : block_of m k ≡ block_of m j = sym (
          ap (λ (i : ℕ). block_in (m.hashtable (hash_int i)) i (block_id j)) c
          ∙ ap (λ (i : ℕ). block_in (m.hashtable (hash_int (cluster_id k))) (cluster_id k) i) b) in
        let block' : block_of m' j ≡ f (block_of m k) =
          block ∙ ap (λ (t : Bool). if t then f (block_of m k) else block_of m j) e in
        ap (λ (es : List (Entry V)). find_entry es j) block'
        ∙ (entry j ∙ ap (λ (es : List (Entry V)). if j == k then r else find_entry es j) same)
    | inr e ↦
        let block' : block_of m' j ≡ block_of m j =
          block ∙ ap (λ (t : Bool). if t then f (block_of m k) else block_of m j) e in
        rw (apart_differ j k e) (ap (λ (es : List (Entry V)). find_entry es j) block')
  ]

  -- `Insert` of a key: `Find` gives its value, and what it gave for every other key.
  pub find-insert :
      (m : AddressMap V) (k : ℕ) (v : V) (j : ℕ)
      → find (insert m k v) j ≡ (if j == k then some v else find m j)
  unfolding insert
  find-insert m k v j =
      let id : ℕ = cluster_id k in
      let old : List (Cluster V) = m.hashtable (hash_int id) in
      let chain : List (Cluster V) = create_cluster old id in
      let f : List (Entry V) → List (Entry V) = λ es. insert_entry es k v in
      find_update m (insert m k v) k f (some v) j
        (block_of-update m (change_block chain id (block_id k) f) (insert m k v).free k f j (λ i b.
          block_in-change_block chain id (block_id k) f i b
            (inr (find_cluster-create_cluster old id))
          ∙ (ap
                (λ (es : List (Entry V)).
                  if (i == id) && (b == block_id k) then f es else block_in chain i b)
                (block_in-create_cluster old id id (block_id k))
              ∙ ap
                  (λ (es : List (Entry V)).
                    if (i == id) && (b == block_id k) then f (block_of m k) else es)
                  (block_in-create_cluster old id i b))))
        (find_entry-insert_entry (block_of m k) k v)

  removed_none : (k : ℕ) → remove_entry {V = V} [] k ≡ []
  unfolding remove_entry
  removed_none k = refl

  pub without-find :
      (m : AddressMap V) (k j : ℕ)
      → IsSound m
      → find (without m k) j ≡ (if j == k then none else find m j)
  unfolding without
  without-find m k j sound =
      let id : ℕ = cluster_id k in
      let f : List (Entry V) → List (Entry V) = λ es. remove_entry es k in
      find_update m (without m k) k f none j
        (block_of-update m (change_block (m.hashtable (hash_int id)) id (block_id k) f) (m.free + 1)
          k f j
          (λ i b.
            block_in-change_block (m.hashtable (hash_int id)) id (block_id k) f i b
              (inl (removed_none k))))
        (λ i. find_entry-remove_entry (block_of m k) k i (sound (hash_int id) id (block_id k)))

  distinct_if :
      (t : Bool) (xs ys : List (Entry V))
      → AreDistinct xs
      → AreDistinct ys
      → AreDistinct (if t then xs else ys)
  distinct_if true xs ys d d' = d
  distinct_if false xs ys d d' = d'

  -- A chain of blocks with distinct keys takes the place of another.
  update-IsSound :
      (m : AddressMap V) (h free : ℕ) (chain : List (Cluster V))
      → IsSound m
      → ((i b : ℕ) → AreDistinct (block_in chain i b))
      → IsSound (record { hashtable = update m.hashtable h chain; free = free })
  update-IsSound m h free chain sound distinct h' i b = elim (Bool-cases (h' == h)) [
    | inl e ↦ rw e (distinct i b)
    | inr e ↦ rw e (sound h' i b)
  ]

  pub insert-IsSound : (m : AddressMap V) (k : ℕ) (v : V) → IsSound m → IsSound (insert m k v)
  unfolding insert
  insert-IsSound m k v sound =
      let id : ℕ = cluster_id k in
      let old : List (Cluster V) = m.hashtable (hash_int id) in
      let chain : List (Cluster V) = create_cluster old id in
      let f : List (Entry V) → List (Entry V) = λ es. insert_entry es k v in
      let distinct : (i b : ℕ) → AreDistinct (block_in chain i b) = λ i b.
        subst (λ (es : List (Entry V)). AreDistinct es) (sym (block_in-create_cluster old id i b))
          (sound (hash_int id) i b) in
      update-IsSound m (hash_int id) (insert m k v).free (change_block chain id (block_id k) f)
        sound
        (λ i b.
          subst (λ (es : List (Entry V)). AreDistinct es)
            (sym (
              block_in-change_block chain id (block_id k) f i b
                (inr (find_cluster-create_cluster old id))))
            (distinct_if ((i == id) && (b == block_id k)) (f (block_in chain id (block_id k)))
              (block_in chain i b)
              (insert_entry-AreDistinct (block_in chain id (block_id k)) k v
                (distinct id (block_id k)))
              (distinct i b)))

  pub without-IsSound : (m : AddressMap V) (k : ℕ) → IsSound m → IsSound (without m k)
  unfolding without
  without-IsSound m k sound =
      let id : ℕ = cluster_id k in
      let chain : List (Cluster V) = m.hashtable (hash_int id) in
      let f : List (Entry V) → List (Entry V) = λ es. remove_entry es k in
      update-IsSound m (hash_int id) (m.free + 1) (change_block chain id (block_id k) f) sound
        (λ i b.
          subst (λ (es : List (Entry V)). AreDistinct es)
            (sym (block_in-change_block chain id (block_id k) f i b (inl (removed_none k))))
            (distinct_if ((i == id) && (b == block_id k)) (f (block_in chain id (block_id k)))
              (block_in chain i b)
              (remove_entry-AreDistinct (block_in chain id (block_id k)) k
                (sound (hash_int id) id (block_id k)))
              (sound (hash_int id) i b)))
