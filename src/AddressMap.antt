-- ===== src/AddressMap.antt =====
-- `AddressMap` of src/addressmap-inl.h, the map from addresses to values of the heap profiler: a hash
-- table of chains of clusters, each an array of blocks, each a list of entries. A chain is the list
-- of its members; of the memory that the map takes, the entries that are free are counted.
pub mod Chains
pub mod Update
pub mod Refine
use gperftools.Base.{
  ℕ, zero, suc, ◌+◌, ◌-◌, ◌*◌, ◌/◌, ◌%◌, ◌^◌, bit_and, Bool, true, false, Option, none, some, List,
  [], ◌∷◌, ◌++◌, ◌==◌, if◌then◌else◌, update,
}

-- `kBlockBits`, `kClusterBits`, `kHashBits`, `ALLOC_COUNT`
abbrev pub block_bits : ℕ
block_bits = 7

abbrev pub cluster_bits : ℕ
cluster_bits = 13

abbrev pub hash_bits : ℕ
hash_bits = 12

abbrev pub alloc_count : ℕ
alloc_count = 64

-- `HashInt`
unfoldable pub hash_int : ℕ → ℕ
hash_int x = x % 2 ^ 32 * 2654435769 % 2 ^ 32 / 2 ^ (32 - hash_bits)

-- `BlockID`
unfoldable pub block_id : ℕ → ℕ
block_id address = bit_and (address / 2 ^ block_bits) (2 ^ cluster_bits - 1)

-- The cluster of an address.
abbrev pub cluster_id : ℕ → ℕ
cluster_id address = address / 2 ^ (block_bits + cluster_bits)

pub record Entry (V : Type 0) : Type 0 where
  pub key : ℕ
  pub value : V

pub record Cluster (V : Type 0) : Type 0 where
  pub id : ℕ
  pub blocks : ℕ → List (Entry V)

pub record AddressMap (V : Type 0) : Type 0 where
  pub hashtable : ℕ → List (Cluster V)
  pub free : ℕ

-- The free entries after one was taken: a new batch first, if there is none.
abbrev pub take_free : ℕ → ℕ
take_free zero = alloc_count - 1
take_free (suc n) = n

module _ {V : Type 0} where
  abbrev pub new_map : AddressMap V
  new_map = record { hashtable = λ h. []; free = 0 }

  -- `FindCluster` in a chain, without creation.
  unfoldable pub find_cluster : List (Cluster V) → ℕ → Option (Cluster V)
  find_cluster [] id = none
  find_cluster (c ∷ cs) id = if c.id == id then some c else find_cluster cs id

  -- `FindCluster` with creation: the chain with the cluster.
  unfoldable pub create_cluster : List (Cluster V) → ℕ → List (Cluster V)
  unfolding find_cluster
  create_cluster cs id = elim (find_cluster cs id) [
    | some c ↦ cs
    | none ↦ record { id = id; blocks = λ b. [] } ∷ cs
  ]

  -- A block of the cluster changes in place.
  unfoldable pub change_block :
      List (Cluster V) → ℕ → ℕ → (List (Entry V) → List (Entry V)) → List (Cluster V)
  change_block [] id b f = []
  change_block (c ∷ cs) id b f =
      if c.id == id
      then record c { blocks = update c.blocks b (f (c.blocks b)) } ∷ cs
      else c ∷ change_block cs id b f

  -- The loop of `FindMutable` in a block.
  unfoldable pub find_entry : List (Entry V) → ℕ → Option V
  find_entry [] key = none
  find_entry (e ∷ es) key = if e.key == key then some e.value else find_entry es key

  -- The loop of `Insert` in a block: the entry with the key gets the value, if there is one.
  unfoldable pub set_entry : List (Entry V) → ℕ → V → List (Entry V)
  set_entry [] key v = []
  set_entry (e ∷ es) key v =
      if e.key == key then record e { value = v } ∷ es else e ∷ set_entry es key v

  -- `Insert` in a block.
  unfoldable pub insert_entry : List (Entry V) → ℕ → V → List (Entry V)
  unfolding find_entry set_entry
  insert_entry es key v = elim (find_entry es key) [
    | some w ↦ set_entry es key v
    | none ↦ record { key = key; value = v } ∷ es
  ]

  -- The loop of `FindAndRemove` in a block.
  unfoldable pub remove_entry : List (Entry V) → ℕ → List (Entry V)
  remove_entry [] key = []
  remove_entry (e ∷ es) key = if e.key == key then es else e ∷ remove_entry es key

  -- The block of the cluster that `FindCluster` finds, empty if there is none.
  unfoldable pub block_in : List (Cluster V) → ℕ → ℕ → List (Entry V)
  block_in [] id b = []
  block_in (c ∷ cs) id b = if c.id == id then c.blocks b else block_in cs id b

  abbrev pub block_of : AddressMap V → ℕ → List (Entry V)
  block_of m address =
      block_in (m.hashtable (hash_int (cluster_id address))) (cluster_id address) (block_id address)

  -- `Find` and `FindMutable`
  unfoldable pub find : AddressMap V → ℕ → Option V
  unfolding block_in hash_int block_id
  find m key = find_entry (block_of m key) key

  -- `Insert`
  unfoldable pub insert : AddressMap V → ℕ → V → AddressMap V
  unfolding block_in hash_int block_id create_cluster change_block insert_entry
  insert m key v =
      let id = cluster_id key in
      let h = hash_int id in
      let chain = create_cluster (m.hashtable h) id in
      record {
        hashtable =
            update m.hashtable h
              (change_block chain id (block_id key) (λ es. insert_entry es key v));
        free = elim (find m key) [ some w ↦ m.free | none ↦ take_free m.free ];
      }

  -- What `FindAndRemove` leaves when it has found the key.
  unfoldable pub without : AddressMap V → ℕ → AddressMap V
  unfolding hash_int block_id change_block remove_entry
  without m key =
      let id = cluster_id key in
      let h = hash_int id in
      record {
        hashtable =
            update m.hashtable h
              (change_block (m.hashtable h) id (block_id key) (λ es. remove_entry es key));
        free = m.free + 1;
      }

  -- `FindAndRemove`: the removed value, if there was one.
  unfoldable pub find_and_remove : AddressMap V → ℕ → Option V × AddressMap V
  unfolding without find
  find_and_remove m key = elim (find m key) [ some v ↦ (some v, without m key) | none ↦ (none, m) ]
