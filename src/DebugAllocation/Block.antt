-- ===== src/DebugAllocation/Block.antt =====
-- `MallocBlock` of src/debugallocation.cc: the words before and after an object, the checks on them, and
-- the debug versions of allocation, aligned allocation and deallocation.
pub mod Words
pub mod Checks
use gperftools.Base.{
  ℕ, ◌+◌, ◌-◌, ◌*◌, ◌/◌, ◌%◌, ◌^◌, bit_and, bit_or, Bool, true, false, not, ◌&&◌, ◌||◌, Option,
  none, some, ltb, leb, ◌==◌, if◌then◌else◌, Outcome, ok, crash, out_of_fuel,
}
use gperftools.AddressMap.{AddressMap, new_map, find, insert}
use gperftools.DebugAllocation.{
  MallocBlockQueueEntry, Memory, magic_deleted_byte, Freed, process_free_queue,
}
use gperftools.DebugAllocation.Bytes.{load, store, memset}

-- The constants of the types of allocation, as the bits of an `int`.
pub data AllocType : Type 0 where
  malloc_type new_type array_new_type : AllocType

unfoldable pub type_value : AllocType → ℕ
type_value malloc_type = 4023233424
type_value new_type = 4273659009
type_value array_new_type = 3169509234

-- The conversion of an `int` to `size_t`, which extends the sign.
unfoldable pub int_to_size : ℕ → ℕ
int_to_size x = if ltb x (2 ^ 31) then x else x + (2 ^ 64 - 2 ^ 32)

-- `kDeallocatedTypeBit`, `kMagicUninitializedByte`, `kMagicDeletedSizeT`, `kMagicMalloc`, `kMagicMMap`
abbrev pub deallocated_type_bit : ℕ
deallocated_type_bit = 4

abbrev pub magic_uninitialized_byte : ℕ
magic_uninitialized_byte = 171

abbrev pub magic_deleted_size : ℕ
magic_deleted_size = 14829735431805717965

abbrev pub magic_malloc : ℕ
magic_malloc = 3735928559

abbrev pub magic_mmap : ℕ
magic_mmap = 2882400171

-- `data_offset` and `sizeof(MallocBlock)`
abbrev pub data_offset : ℕ
data_offset = 32

abbrev pub block_size : ℕ
block_size = 48

-- What a failed check reports before it ends the program.
pub data Report : Type 0 where
  never_allocated already_deallocated word_before word_after type_mismatch map_corrupted
        offset_corrupted wrong_size in_free_queue check_failed :
      Report

pub data Checked (A : Type 0) : Type 0 where
  fine : A → Checked A
  reported : Report → Checked A
  unfinished : Checked A

infixl 5 ◌>>=◌ ◌>>◌
abbrev pub ◌>>=◌ : {A B : Type 0} → Checked A → (A → Checked B) → Checked B
fine a >>= f = f a
reported r >>= f = reported r
unfinished >>= f = unfinished

abbrev pub ◌>>◌ : {B : Type 0} → Checked (Unit {0}) → Checked B → Checked B
m >> k = m >>= λ _. k

-- `RAW_CHECK`
abbrev pub require : Report → Bool → Checked (Unit {0})
require r true = fine tt
require r false = reported r

-- Memory and `alloc_map_`, null until the first allocation.
pub record Heap : Type 0 where
  pub mem : Memory
  pub alloc_map : Option (AddressMap ℕ)

abbrev pub data_addr : ℕ → ℕ
data_addr b = b + data_offset

abbrev pub size1 : Memory → ℕ → ℕ
size1 mem b = load mem b

abbrev pub offset : Memory → ℕ → ℕ
offset mem b = load mem (b + 8)

abbrev pub magic1 : Memory → ℕ → ℕ
magic1 mem b = load mem (b + 16)

abbrev pub alloc_type : Memory → ℕ → ℕ
alloc_type mem b = load mem (b + 24)

abbrev pub size2_addr : Memory → ℕ → ℕ
size2_addr mem b = (data_addr b + size1 mem b) % 2 ^ 64

abbrev pub magic2_addr : Memory → ℕ → ℕ
magic2_addr mem b = (size2_addr mem b + 8) % 2 ^ 64

unfoldable pub is_mmapped : Memory → ℕ → Bool
is_mmapped mem b = magic1 mem b == magic_mmap

unfoldable pub is_valid_magic_value : ℕ → Bool
is_valid_magic_value value = (value == magic_mmap) || (value == magic_malloc)

-- `RoundUp`, to a power of two below 2^64.
unfoldable pub round_up : ℕ → ℕ → ℕ
round_up value alignment = bit_and ((value + alignment - 1) % 2 ^ 64) (2 ^ 64 - 1 - (alignment - 1))

-- `real_malloced_size`, `real_mmapped_size`, `real_size`
unfoldable pub real_malloced_size : ℕ → ℕ
real_malloced_size size = (size + block_size) % 2 ^ 64

unfoldable pub real_mmapped_size : ℕ → ℕ
real_mmapped_size size = round_up ((size + data_offset) % 2 ^ 64) 16

unfoldable pub real_size : Memory → ℕ → ℕ
real_size mem b =
    if is_mmapped mem b then real_mmapped_size (size1 mem b) else real_malloced_size (size1 mem b)

-- The map, made at its first use.
unfoldable pub map_of : Option (AddressMap ℕ) → AddressMap ℕ
map_of none = new_map
map_of (some map) = map

-- The words that `Initialize` writes before the object, and those after it.
unfoldable pub write_header : Memory → ℕ → ℕ → AllocType → Memory
write_header mem b size type =
    store (store (store mem b size) (b + 8) 0) (b + 24) (int_to_size (type_value type))

unfoldable pub write_magic2 : Memory → ℕ → Memory
write_magic2 mem b = store mem (magic2_addr mem b) (magic1 mem b)

unfoldable pub write_trailer : Memory → ℕ → ℕ → Memory
write_trailer mem b size =
    if is_mmapped mem b
    then mem
    else store (write_magic2 mem b) (size2_addr (write_magic2 mem b) b) size

-- `Initialize`, on a block whose `magic1_` is set.
unfoldable pub initialize : Heap → ℕ → ℕ → AllocType → Checked Heap
initialize h b size type = do
  require check_failed (is_valid_magic_value (magic1 h.mem b))
  let map = insert (map_of h.alloc_map) (data_addr b) (type_value type)
  let words = write_trailer (write_header h.mem b size type) b size
  let filled = memset words (data_addr b) magic_uninitialized_byte size
  require check_failed
      (is_mmapped filled b || (size1 filled b == load filled (size2_addr filled b)))
  require check_failed
      (is_mmapped filled b || (magic1 filled b == load filled (magic2_addr filled b)))
  fine (record { mem = filled; alloc_map = some map })

-- The type that the map records for a block.
unfoldable pub find_type : Heap → ℕ → Option ℕ
find_type h b = elim h.alloc_map [ none ↦ none | some map ↦ find map (data_addr b) ]

-- The checks of `CheckLocked` on the words of a block whose type in the map is given.
unfoldable pub check_words : Memory → ℕ → ℕ → ℕ → Checked (Unit {0})
check_words mem b type map_type =
    if not (bit_and map_type deallocated_type_bit == 0)
    then reported already_deallocated
    else if alloc_type mem b == magic_deleted_size
    then reported word_before
    else if not (is_valid_magic_value (magic1 mem b))
    then reported word_before
    else if not (is_mmapped mem b) && not (load mem (size2_addr mem b) == size1 mem b)
    then reported word_after
    else if not (is_mmapped mem b) && not (is_valid_magic_value (load mem (magic2_addr mem b)))
    then reported word_after
    else if not (alloc_type mem b == int_to_size type)
    then (if not (alloc_type mem b == int_to_size (type_value malloc_type))
          && not (alloc_type mem b == int_to_size (type_value new_type))
          && not (alloc_type mem b == int_to_size (type_value array_new_type))
        then reported word_before
        else reported type_mismatch)
    else if not (alloc_type mem b == int_to_size map_type)
    then reported map_corrupted
    else fine tt

-- `CheckLocked`
unfoldable pub check_locked : Heap → ℕ → ℕ → Checked (Unit {0})
check_locked h b type = elim (find_type h b) [
  | none ↦ reported never_allocated
  | some map_type ↦ check_words h.mem b type map_type
]

-- `CheckAndClear`: the size that the block takes, and the heap with the block overwritten. A given size
-- of 0 stands for none.
unfoldable pub check_and_clear : Heap → ℕ → AllocType → ℕ → Checked (ℕ × Heap)
check_and_clear h b type given_size = do
  check_locked h b (type_value type)
  require check_failed (is_mmapped h.mem b || (size1 h.mem b == load h.mem (size2_addr h.mem b)))
  let map =
      insert (map_of h.alloc_map) (data_addr b) (bit_or (type_value type) deallocated_type_bit)
  let size = real_size h.mem b
  require wrong_size ((given_size == 0) || (given_size == size1 h.mem b))
  fine (size, record { mem = memset h.mem b magic_deleted_byte size; alloc_map = some map })
