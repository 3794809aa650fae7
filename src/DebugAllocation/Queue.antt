-- ===== src/DebugAllocation/Queue.antt =====
-- The entries that a queue of freed blocks holds, and the bytes of a freed block.
use gperftools.Base.{
  ℕ, zero, suc, ◌+◌, ◌-◌, ◌*◌, ◌/◌, ◌%◌, ◌≤◌, ◌<◌, ◌≡◌, refl, ap, sym, ◌∙◌, Bool, true, false, ◌&&◌,
  List, [], ◌∷◌, ◌++◌, length, ◌==◌, update, ok, ◌>>◌, check, arith,
}
use gperftools.DebugAllocation.{
  MallocBlockQueueEntry, entry_size, FreeQueue, free_queue_capacity, full, push, pop, queue_size,
  Memory, is_deleted, size_of_buffer, check_for_corrupted_buffer, check_buffers,
  check_for_dangling_writes,
}

-- `n` entries from an index on, round the array.
unfoldable pub items : (ℕ → MallocBlockQueueEntry) → ℕ → ℕ → List MallocBlockQueueEntry
items q i zero = []
items q i (suc n) = q i ∷ items q ((i + 1) % free_queue_capacity) n

-- The entries in the queue, the oldest first.
unfoldable pub contents : FreeQueue → List MallocBlockQueueEntry
contents fq = items fq.q fq.q_back (queue_size fq)

pub record InRange (fq : FreeQueue) : Type 0 where
  pub front : fq.q_front < free_queue_capacity
  pub back : fq.q_back < free_queue_capacity

module _ (q : ℕ → MallocBlockQueueEntry) where
  items-snoc :
      (i n : ℕ)
      → i < free_queue_capacity
      → items q i (suc n) ≡ items q i n ++ (q ((i + n) % free_queue_capacity) ∷ [])
  unfolding items
  items-snoc i zero low = ap (λ j. q j ∷ []) (omega arith)
  items-snoc i (suc n) low =
      let next : ((i + 1) % 1024 + n) % 1024 ≡ (i + suc n) % 1024 = omega arith in
      ap (λ t. q i ∷ t)
        (items-snoc ((i + 1) % free_queue_capacity) n (omega arith)
          ∙ ap (λ j. items q ((i + 1) % free_queue_capacity) n ++ (q j ∷ [])) next)

  items-update :
      (i n k : ℕ) (e : MallocBlockQueueEntry)
      → i < free_queue_capacity
      → k < free_queue_capacity
      → n ≤ (k + free_queue_capacity - i) % free_queue_capacity
      → items (update q k e) i n ≡ items q i n
  unfolding items
  items-update i zero k e low at far = refl
  items-update i (suc n) k e low at far =
      let rest =
        items-update ((i + 1) % free_queue_capacity) n k e (omega arith) at (omega arith) in
      let other : (i == k) ≡ false = ground arith in rw (rest, other) refl

pub length-items : (q : ℕ → MallocBlockQueueEntry) (i n : ℕ) → length (items q i n) ≡ n
unfolding items
length-items q i zero = refl
length-items q i (suc n) = ap suc (length-items q ((i + 1) % free_queue_capacity) n)

pub size-push :
    (fq : FreeQueue) (e : MallocBlockQueueEntry)
    → InRange fq
    → full fq ≡ false
    → queue_size (push fq e) ≡ suc (queue_size fq)
unfolding queue_size push full
size-push fq e r open_ = ground arith

pub contents-push :
    (fq : FreeQueue) (e : MallocBlockQueueEntry)
    → InRange fq
    → full fq ≡ false
    → contents (push fq e) ≡ contents fq ++ (e ∷ [])
unfolding contents push
contents-push fq e r open_ =
    let n = queue_size fq in
    let place : (fq.q_back + n) % free_queue_capacity ≡ fq.q_front =
      unfold queue_size in ground arith in
    let far : n ≤ (fq.q_front + free_queue_capacity - fq.q_back) % free_queue_capacity =
      unfold queue_size in omega arith in
    let here : update fq.q fq.q_front e fq.q_front ≡ e = ground arith in
    ap (λ m. items (update fq.q fq.q_front e) fq.q_back m) (size-push fq e r open_)
    ∙ items-snoc (update fq.q fq.q_front e) fq.q_back n r.back
    ∙ ap (λ j. items (update fq.q fq.q_front e) fq.q_back n ++ (update fq.q fq.q_front e j ∷ []))
        place
    ∙ ap (λ x. items (update fq.q fq.q_front e) fq.q_back n ++ (x ∷ [])) here
    ∙ ap (λ t. t ++ (e ∷ [])) (items-update fq.q fq.q_back n fq.q_front e r.back r.front far)

-- The queue without its oldest entry.
abbrev pub popped : FreeQueue → FreeQueue
popped fq = record fq { q_back = (fq.q_back + 1) % free_queue_capacity }

pub popped-InRange : (fq : FreeQueue) → InRange fq → InRange (popped fq)
popped-InRange fq r = record { front = r.front; back = omega arith }

pub push-InRange : (fq : FreeQueue) (e : MallocBlockQueueEntry) → InRange fq → InRange (push fq e)
unfolding push
push-InRange fq e r = record { front = omega arith; back = r.back }

pub size-popped :
    (fq : FreeQueue) → InRange fq → 0 < queue_size fq → suc (queue_size (popped fq)) ≡ queue_size fq
unfolding queue_size
size-popped fq r some_ = ground arith

pub contents-popped :
    (fq : FreeQueue)
    → InRange fq
    → 0 < queue_size fq
    → contents fq ≡ fq.q fq.q_back ∷ contents (popped fq)
unfolding contents items
contents-popped fq r some_ = ap (λ n. items fq.q fq.q_back n) (sym (size-popped fq r some_))

pub pop_lem :
    (fq : FreeQueue) → InRange fq → 0 < queue_size fq → pop fq ≡ ok (fq.q fq.q_back, popped fq)
unfolding pop queue_size
pop_lem fq r some_ = let ne : (fq.q_back == fq.q_front) ≡ false = ground arith in rw ne refl

pub full-size :
    (fq : FreeQueue) → InRange fq → full fq ≡ true → queue_size fq ≡ free_queue_capacity - 1
unfolding full queue_size
full-size fq r f = ground arith

-- The memory that the entries keep, with the entries themselves.
unfoldable pub kept : List MallocBlockQueueEntry → ℕ
kept [] = 0
kept (e ∷ es) = e.size + entry_size + kept es

pub kept-append : (xs ys : List MallocBlockQueueEntry) → kept (xs ++ ys) ≡ kept xs + kept ys
unfolding kept
kept-append [] ys = omega arith
kept-append (x ∷ xs) ys = omega (arith, kept-append xs ys)

module _ (mem : Memory) where
  is_deleted-append :
      (p m n : ℕ) → is_deleted mem p (m + n) ≡ (is_deleted mem p m && is_deleted mem (p + m) n)
  unfolding is_deleted
  is_deleted-append p zero n =
      let e : p + 0 ≡ p = omega arith in let e' : 0 + n ≡ n = omega arith in rw (e, e') refl
  is_deleted-append p (suc m) n =
      let e : p + 1 + m ≡ p + suc m = omega arith in
      let e' : suc m + n ≡ suc (m + n) = omega arith in
      rw e' (rw (is_deleted-append (p + 1) m n, e) ground arith)

  check_buffers_lem :
      (p buffers remainder : ℕ)
      → check_buffers mem p buffers remainder
        ≡ check (is_deleted mem p (buffers * size_of_buffer + remainder))
  unfolding check_buffers check_for_corrupted_buffer
  check_buffers_lem p zero remainder =
      let e : 0 * size_of_buffer + remainder ≡ remainder = omega arith in rw e refl
  check_buffers_lem p (suc buffers) remainder =
      let e : suc buffers * size_of_buffer + remainder
          ≡ size_of_buffer + (buffers * size_of_buffer + remainder) =
        omega arith in
      rw (check_buffers_lem (p + size_of_buffer) buffers remainder, e)
        (check-and _ _
          ∙ ap (λ b. check b)
              (sym (is_deleted-append p size_of_buffer (buffers * size_of_buffer + remainder))))
    where
      check-and : (a b : Bool) → (check a >> check b) ≡ check (a && b)
      check-and true b = refl
      check-and false b = refl

  -- No byte of the block was written since it was freed.
  abbrev pub intact : MallocBlockQueueEntry → Bool
  intact e = is_deleted mem e.block e.size

  pub check_for_dangling_writes_lem :
      (e : MallocBlockQueueEntry) → check_for_dangling_writes mem e ≡ check (intact e)
  unfolding check_for_dangling_writes
  check_for_dangling_writes_lem e =
      let whole : e.size / size_of_buffer * size_of_buffer + e.size % size_of_buffer ≡ e.size =
        omega arith in
      check_buffers_lem e.block (e.size / size_of_buffer) (e.size % size_of_buffer)
      ∙ ap (λ n. check (is_deleted mem e.block n)) whole
