-- ===== src/MetadataAlloc.antt =====
-- The memory of the allocator's own data: `MetaDataAlloc` of src/common.cc and, over it,
-- `PageHeapAllocator` and `STLPageHeapAllocator` of src/page_heap_allocator.h. The answers of the
-- system to the calls of `TCMalloc_SystemAlloc` are a parameter: an address and a real size, or none.
pub mod Apart
use gperftools.Base.{
  ℕ, zero, suc, ◌+◌, ◌-◌, ◌*◌, ◌%◌, ◌^◌, bit_and, Bool, true, false, Option, none, some, List, [],
  ◌∷◌, ltb, leb, if◌then◌else◌, Outcome, ok, crash, ◌>>=◌,
}

-- `kMetadataAllocChunkSize`
abbrev pub chunk_size : ℕ
chunk_size = 8 * 1024 * 1024

-- The static state of src/common.cc, and how often the system was asked.
pub record Metadata : Type 0 where
  pub chunk_alloc : ℕ
  pub chunk_avail : ℕ
  pub system_bytes : ℕ
  pub calls : ℕ

abbrev pub no_metadata : Metadata
no_metadata = record { chunk_alloc = 0; chunk_avail = 0; system_bytes = 0; calls = 0 }

-- The system's answer to its n-th call, for so many bytes.
abbrev pub System : Type 0
System = ℕ → ℕ → Option (ℕ × ℕ)

-- The bytes from an address to the next that `kMetadataAllignment` divides, a power of two.
unfoldable pub padding : ℕ → ℕ → ℕ
padding alignment address = bit_and ((2 ^ 64 - address) % 2 ^ 64) (alignment - 1)

-- The end of `MetaDataAlloc`: `bytes` of the chunk, after the padding.
unfoldable pub take_bytes : Metadata → ℕ → ℕ → Option ℕ × Metadata
take_bytes m pad bytes = (
  some (m.chunk_alloc + pad),
  record m {
    chunk_alloc = m.chunk_alloc + (bytes + pad);
    chunk_avail = m.chunk_avail - (bytes + pad);
    system_bytes = (m.system_bytes + (bytes + pad)) % 2 ^ 64;
  },
)

-- The branch of `MetaDataAlloc` for a request of a chunk or more.
unfoldable pub take_own : Metadata → ℕ → Option (ℕ × ℕ) → Option ℕ × Metadata
take_own m bytes none = (none, record m { calls = m.calls + 1 })
take_own m bytes (some (address, size)) = (
  some address,
  record m { system_bytes = (m.system_bytes + bytes) % 2 ^ 64; calls = m.calls + 1 },
)

-- The branch of `MetaDataAlloc` that takes a new chunk.
unfoldable pub take_chunk : Metadata → ℕ → Option (ℕ × ℕ) → Option ℕ × Metadata
unfolding take_bytes
take_chunk m bytes none = (none, record m { calls = m.calls + 1 })
take_chunk m bytes (some (address, size)) =
    take_bytes (record m { chunk_alloc = address; chunk_avail = size; calls = m.calls + 1 }) 0 bytes

-- `MetaDataAlloc`
unfoldable pub meta_data_alloc : System → ℕ → Metadata → ℕ → Option ℕ × Metadata
unfolding take_own take_chunk take_bytes
meta_data_alloc system alignment m bytes =
    let pad = padding alignment m.chunk_alloc in
    if leb chunk_size bytes
    then take_own m bytes (system m.calls bytes)
    else if ltb m.chunk_avail (bytes + pad)
    then take_chunk m bytes (system m.calls chunk_size)
    else take_bytes m pad bytes

-- `kAllocIncrement`
abbrev pub alloc_increment : ℕ
alloc_increment = 128 * 2 ^ 10

-- `PageHeapAllocator<T>`; its free list is the list of the addresses.
pub record Allocator : Type 0 where
  pub free_area : ℕ
  pub free_avail : ℕ
  pub free_list : List ℕ
  pub inuse : ℕ

module _ (system : System) (alignment size : ℕ) where
  -- `New` of an object from a free area with room, of `size` bytes.
  unfoldable pub carve_object : Allocator → Metadata → ℕ × Allocator × Metadata
  carve_object a m = (
    a.free_area,
    record a {
      free_area = a.free_area + size;
      free_avail = a.free_avail - size;
      inuse = (a.inuse + 1) % 2 ^ 32;
    },
    m,
  )

  unfoldable pub refill : Allocator → Option ℕ × Metadata → Outcome (ℕ × Allocator × Metadata)
  unfolding carve_object
  refill a (none, m) = crash
  refill a (some area, m) =
      ok (carve_object (record a { free_area = area; free_avail = alloc_increment }) m)

  -- `PageHeapAllocator<T>::New`, for objects of `size` bytes
  unfoldable pub new_object : Allocator → Metadata → Outcome (ℕ × Allocator × Metadata)
  unfolding refill carve_object
  new_object a m = elim a.free_list [
    | x ∷ xs ↦ ok (x, record a { free_list = xs; inuse = (a.inuse + 1) % 2 ^ 32 }, m)
    | [] ↦
        if ltb a.free_avail size
        then refill a (meta_data_alloc system alignment m alloc_increment)
        else ok (carve_object a m)
  ]

  -- `PageHeapAllocator<T>::Delete`
  abbrev pub delete_object : Allocator → ℕ → Allocator
  delete_object a x = record a {
    free_list = x ∷ a.free_list;
    inuse = (a.inuse + 2 ^ 32 - 1) % 2 ^ 32;
  }

  -- `PageHeapAllocator<T>::Init`
  unfoldable pub init_objects : Metadata → Outcome (Allocator × Metadata)
  init_objects m₀ = do
    (x, a, m) ← new_object (record { free_area = 0; free_avail = 0; free_list = []; inuse = 0 }) m₀
    ok (delete_object a x, m)
