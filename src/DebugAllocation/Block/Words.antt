-- ===== src/DebugAllocation/Block/Words.antt =====
-- The words of a block that is allocated, and the memory after `Initialize`.
use gperftools.Base.{ℕ, ◌+◌, ◌^◌, ◌≤◌, ◌<◌, ◌≡◌, ◌∙◌, ◌⊎◌, inl, inr, arith}
use gperftools.DebugAllocation.{Memory}
use gperftools.DebugAllocation.Bytes.{
  load, store, memset, load-store_self, load-store_other, load-memset_other, AreBytes,
  store-AreBytes, memset-AreBytes, store-outside, memset-inside, memset-outside,
}
use gperftools.DebugAllocation.Block.{
  AllocType, malloc_type, new_type, array_new_type, type_value, int_to_size, magic_malloc,
  magic_uninitialized_byte, data_offset, block_size, data_addr, size1, offset, magic1, alloc_type,
  write_header,
}

-- The words of an allocated block: its header, and after the object the size and a magic word again.
pub record IsLive (mem : Memory) (b size : ℕ) (type : AllocType) : Type 0 where
  pub size_word : size1 mem b ≡ size
  pub offset_word : offset mem b ≡ 0
  pub magic_word : magic1 mem b ≡ magic_malloc
  pub type_word : alloc_type mem b ≡ int_to_size (type_value type)
  pub size_after : load mem (b + data_offset + size) ≡ size
  pub magic_after : load mem (b + data_offset + size + 8) ≡ magic_malloc

type-low : (type : AllocType) → int_to_size (type_value type) < 2 ^ 64
unfolding int_to_size type_value
type-low malloc_type = omega arith
type-low new_type = omega arith
type-low array_new_type = omega arith

module _ (mem : Memory) (b size : ℕ) (type : AllocType) where
  unfoldable pub header : Memory
  header = write_header mem b size type

  unfoldable pub trailer : Memory
  trailer =
      store (store header (b + data_offset + size + 8) magic_malloc) (b + data_offset + size) size

  -- The memory after `Initialize`.
  unfoldable pub formatted : Memory
  unfolding header trailer
  formatted = memset trailer (data_addr b) magic_uninitialized_byte size

  pub header-size : size < 2 ^ 64 → load header b ≡ size
  unfolding header write_header
  header-size low =
      load-store_other _ (b + 24) (int_to_size (type_value type)) b (inl (omega arith))
      ∙ load-store_other _ (b + 8) 0 b (inl (omega arith))
      ∙ load-store_self mem b size low

  pub header-offset : load header (b + 8) ≡ 0
  unfolding header write_header
  header-offset =
      load-store_other _ (b + 24) (int_to_size (type_value type)) (b + 8) (inl (omega arith))
      ∙ load-store_self (store mem b size) (b + 8) 0 (omega arith)

  pub header-magic : load header (b + 16) ≡ load mem (b + 16)
  unfolding header write_header
  header-magic =
      load-store_other _ (b + 24) (int_to_size (type_value type)) (b + 16) (inl (omega arith))
      ∙ load-store_other _ (b + 8) 0 (b + 16) (inr (omega arith))
      ∙ load-store_other mem b size (b + 16) (inr (omega arith))

  pub header-type : load header (b + 24) ≡ int_to_size (type_value type)
  unfolding header write_header
  header-type = load-store_self _ (b + 24) (int_to_size (type_value type)) (type-low type)

  formatted-header : (q : ℕ) → q + 8 ≤ b + data_offset → load formatted q ≡ load header q
  unfolding formatted trailer
  formatted-header q low =
      load-memset_other _ (data_addr b) magic_uninitialized_byte size q (inl low)
      ∙ load-store_other _ (b + data_offset + size) size q (inl (omega arith))
      ∙ load-store_other header (b + data_offset + size + 8) magic_malloc q (inl (omega arith))

  pub formatted-IsLive :
      size < 2 ^ 64 → load mem (b + 16) ≡ magic_malloc → IsLive formatted b size type
  unfolding formatted trailer
  formatted-IsLive low magic = record {
    size_word = formatted-header b (omega arith) ∙ header-size low;
    offset_word = formatted-header (b + 8) (omega arith) ∙ header-offset;
    magic_word = formatted-header (b + 16) (omega arith) ∙ header-magic ∙ magic;
    type_word = formatted-header (b + 24) (omega arith) ∙ header-type;
    size_after =
        load-memset_other _ (data_addr b) magic_uninitialized_byte size _ (inr (omega arith))
        ∙ load-store_self _ (b + data_offset + size) size low;
    magic_after =
        load-memset_other _ (data_addr b) magic_uninitialized_byte size _ (inr (omega arith))
        ∙ load-store_other _ (b + data_offset + size) size _ (inr (omega arith))
        ∙ load-store_self header (b + data_offset + size + 8) magic_malloc (omega arith);
  }

  pub formatted-outside : (q : ℕ) → (q < b) ⊎ (b + size + block_size ≤ q) → formatted q ≡ mem q
  unfolding formatted trailer header write_header
  formatted-outside q out =
      memset-outside _ (data_addr b) magic_uninitialized_byte size q (ground arith)
      ∙ store-outside _ (b + data_offset + size) size q (ground arith)
      ∙ store-outside _ (b + data_offset + size + 8) magic_malloc q (ground arith)
      ∙ store-outside _ (b + 24) (int_to_size (type_value type)) q (ground arith)
      ∙ store-outside _ (b + 8) 0 q (ground arith)
      ∙ store-outside mem b size q (ground arith)

  pub formatted-AreBytes : AreBytes mem → AreBytes formatted
  unfolding formatted trailer header write_header
  formatted-AreBytes bytes =
      memset-AreBytes _ (data_addr b) magic_uninitialized_byte size (omega arith) (
        store-AreBytes _ _ _ (
          store-AreBytes _ _ _
            (store-AreBytes _ _ _ (store-AreBytes _ _ _ (store-AreBytes _ _ _ bytes)))))

  pub formatted-data :
      (q : ℕ) → data_addr b ≤ q → q < data_addr b + size → formatted q ≡ magic_uninitialized_byte
  unfolding formatted
  formatted-data q low high = memset-inside _ (data_addr b) magic_uninitialized_byte size q low high
