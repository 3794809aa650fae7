-- ===== src/DebugAllocation.antt =====
-- `MallocBlock` of src/debugallocation.cc, the allocator that finds memory errors: the queue of freed
-- blocks, and the search for writes into a block after it was freed.
pub mod Queue
pub mod Batches
pub mod Drain
pub mod Bytes
pub mod Block
pub mod Calls
use gperftools.Base.{
  ℕ, zero, suc, ◌+◌, ◌-◌, ◌*◌, ◌/◌, ◌%◌, ◌^◌, Bool, true, false, not, ◌&&◌, ◌||◌, Option, none,
  some, List, [], ◌∷◌, ◌++◌, length, ltb, ◌==◌, if◌then◌else◌, update, Outcome, ok, crash,
  out_of_fuel, ◌>>=◌, ◌>>◌, check,
}

-- `MallocBlockQueueEntry`, less the stack of the deleter, which is only printed.
pub record MallocBlockQueueEntry : Type 0 where
  pub block : ℕ
  pub size : ℕ

-- `sizeof(MallocBlockQueueEntry)`
abbrev pub entry_size : ℕ
entry_size = 160

-- `kFreeQueueSize`
abbrev pub free_queue_capacity : ℕ
free_queue_capacity = 1024

pub record FreeQueue : Type 0 where
  pub q : ℕ → MallocBlockQueueEntry
  pub q_front : ℕ
  pub q_back : ℕ

-- `FreeQueue::Full`
unfoldable pub full : FreeQueue → Bool
full fq = (fq.q_front + 1) % free_queue_capacity == fq.q_back

-- `FreeQueue::Push`
unfoldable pub push : FreeQueue → MallocBlockQueueEntry → FreeQueue
push fq block = record fq {
  q = update fq.q fq.q_front block;
  q_front = (fq.q_front + 1) % free_queue_capacity;
}

-- `FreeQueue::Pop`
unfoldable pub pop : FreeQueue → Outcome (MallocBlockQueueEntry × FreeQueue)
pop fq =
    check (not (fq.q_back == fq.q_front))
    >> ok (fq.q fq.q_back, record fq { q_back = (fq.q_back + 1) % free_queue_capacity })

-- `FreeQueue::size`
unfoldable pub queue_size : FreeQueue → ℕ
queue_size fq = (fq.q_front + free_queue_capacity - fq.q_back) % free_queue_capacity

-- The bytes of memory by their addresses.
abbrev pub Memory : Type 0
Memory = ℕ → ℕ

-- `kMagicDeletedByte`
abbrev pub magic_deleted_byte : ℕ
magic_deleted_byte = 205

-- `memcmp(p, kMagicDeletedBuffer, n) == 0`
unfoldable pub is_deleted : Memory → ℕ → ℕ → Bool
is_deleted mem p zero = true
is_deleted mem p (suc n) = (mem p == magic_deleted_byte) && is_deleted mem (p + 1) n

-- `sizeof(kMagicDeletedBuffer)`
abbrev pub size_of_buffer : ℕ
size_of_buffer = 1024

-- `CheckForCorruptedBuffer`, which ends the program at a byte that was written.
unfoldable pub check_for_corrupted_buffer : Memory → ℕ → ℕ → Outcome (Unit {0})
check_for_corrupted_buffer mem buffer n = check (is_deleted mem buffer n)

-- The loop of `CheckForDanglingWrites` on the whole buffers, then the remainder.
unfoldable pub check_buffers : Memory → ℕ → ℕ → ℕ → Outcome (Unit {0})
check_buffers mem p zero remainder = check_for_corrupted_buffer mem p remainder
check_buffers mem p (suc buffers) remainder =
    check_for_corrupted_buffer mem p size_of_buffer
    >> check_buffers mem (p + size_of_buffer) buffers remainder

-- `CheckForDanglingWrites`
unfoldable pub check_for_dangling_writes : Memory → MallocBlockQueueEntry → Outcome (Unit {0})
check_for_dangling_writes mem e =
    check_buffers mem e.block (e.size / size_of_buffer) (e.size % size_of_buffer)

-- `free_queue_`, null until the first use, and `free_queue_size_`; the calls of `do_free`, the last
-- of them last.
pub record Freed : Type 0 where
  pub free_queue : Option FreeQueue
  pub free_queue_size : ℕ
  pub freed : List ℕ

-- `new FreeQueue`, on memory whose content is arbitrary.
unfoldable pub new_queue : (ℕ → MallocBlockQueueEntry) → FreeQueue
new_queue fresh = record { q = fresh; q_front = 0; q_back = 0 }

-- The queue, made at its first use.
unfoldable pub queue_of : (ℕ → MallocBlockQueueEntry) → Option FreeQueue → FreeQueue
queue_of fresh none = new_queue fresh
queue_of fresh (some fq) = fq

-- The loop that checks and frees the entries taken, of which the lists hold the first first.
unfoldable pub free_entries : Memory → List MallocBlockQueueEntry → List ℕ → Outcome (List ℕ)
free_entries mem [] freed = ok freed
free_entries mem (e ∷ entries) freed =
    check_for_dangling_writes mem e >> free_entries mem entries (freed ++ (e.block ∷ []))

-- `arraysize(entries)`
abbrev pub max_entries : ℕ
max_entries = 4

module _ (mem : Memory) (max_free_queue_size : ℕ) where
  -- The loop of `ProcessFreeQueue`, with the entries taken and not yet freed, and the two loops that
  -- free them. The lock is given up while a batch is freed; here no other thread frees meanwhile.
  -- The fuel bounds the rounds.
  unfoldable pub drain : ℕ → FreeQueue → ℕ → List MallocBlockQueueEntry → List ℕ → Outcome Freed
  drain zero fq total entries freed = out_of_fuel
  drain (suc fuel) fq total entries freed = elim (ltb max_free_queue_size total || full fq) [
    | false ↦ do
      freed' ← free_entries mem entries freed
      ok (record { free_queue = some fq; free_queue_size = total; freed = freed' })
    | true ↦ do
      check (ltb (length entries) max_entries)
      (e, fq') ← pop fq
      let total' = (total + 2 ^ 64 - (e.size + entry_size) % 2 ^ 64) % 2 ^ 64
      let entries' = entries ++ (e ∷ [])
      elim (length entries' == max_entries) [
        | true ↦ do freed' ← free_entries mem entries' freed; drain fuel fq' total' [] freed'
        | false ↦ drain fuel fq' total' entries' freed
      ]
  ]

  -- `ProcessFreeQueue`: the block is null at the end of the program.
  unfoldable pub process_free_queue :
      (ℕ → MallocBlockQueueEntry) → Option MallocBlockQueueEntry → Freed → Outcome Freed
  process_free_queue fresh new_entry st = do
    let fq = queue_of fresh st.free_queue
    check (not (full fq))
    elim new_entry [
      | none ↦ drain (suc (queue_size fq)) fq st.free_queue_size [] st.freed
      | some e ↦
          drain (suc (queue_size (push fq e))) (push fq e)
            ((st.free_queue_size + e.size + entry_size) % 2 ^ 64) [] st.freed
    ]
