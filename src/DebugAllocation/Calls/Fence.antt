-- ===== src/DebugAllocation/Calls/Fence.antt =====
-- The page fence: the place of a block that is mapped apart, right before a page that cannot be
-- accessed, and the pages that its deallocation unmaps.
use native.Mathlib.Nat.{div-mul-le_self, lt-div-mul-add}
use gperftools.Base.{
  ℕ, zero, suc, ◌+◌, ◌-◌, ◌*◌, ◌/◌, ◌%◌, ◌^◌, ◌≤◌, ◌<◌, ◌≡◌, refl, ap, ltb, Option, none, some,
  if◌then◌else◌, arith, lt→ltb,
}
use gperftools.DebugAllocation.Block.{data_offset, real_mmapped_size}
use gperftools.DebugAllocation.Calls.Memalign.{round_up_lem}

infixl 5 ◌>>=◌
abbrev ◌>>=◌ : {A B : Type 0} → Option A → (A → Option B) → Option B
none >>= f = none
some a >>= f = f a

-- A value that is computed as an `int`: none is an overflow, which C++ leaves undefined.
unfoldable pub int : ℕ → Option ℕ
int n = if ltb n (2 ^ 31) then some n else none

-- `num_pages`: the pages of a block of the given real size, and the fence.
unfoldable pub num_pages : ℕ → ℕ → Option ℕ
num_pages size pagesize = int ((size + pagesize - 1) / pagesize + 1)

-- The branch of `Allocate` with the page fence: the length that is mapped, the block, and the page
-- that is made inaccessible. `mmap` returned `p`; where it fails the program ends.
unfoldable pub allocate_fenced : ℕ → ℕ → ℕ → Option (ℕ × ℕ × ℕ)
allocate_fenced p pagesize size = do
  let sz = real_mmapped_size size
  pages ← num_pages sz pagesize
  bytes ← int (pages * pagesize)
  some (bytes, p + (pages - 1) * pagesize - sz, p + (pages - 1) * pagesize)

-- The branch of `Deallocate` for such a block, with the size that `CheckAndClear` gave: the address and
-- the length that are unmapped, or made inaccessible.
unfoldable pub deallocate_fenced : ℕ → ℕ → ℕ → Option (ℕ × ℕ)
deallocate_fenced pagesize b real_size = do
  size ← int real_size
  pages ← num_pages size pagesize
  bytes ← int (pages * pagesize)
  some (b + size - (pages - 1) * pagesize, bytes)

int-small : (n : ℕ) → n < 2 ^ 31 → int n ≡ some n
unfolding int
int-small n low = rw (lt→ltb n (2 ^ 31) low) refl

le-mul : (n p : ℕ) → 0 < p → n ≤ n * p
le-mul n zero pos = absurd (omega arith)
le-mul n (suc p) pos = grind arith

mmapped_lem :
    (size : ℕ)
    → size < 2 ^ 31
    → (real_mmapped_size size % 16 ≡ 0)
      × (size + data_offset ≤ real_mmapped_size size)
      × (real_mmapped_size size < size + data_offset + 16)
unfolding real_mmapped_size
mmapped_lem size low =
    let e : (size + data_offset) % 2 ^ 64 ≡ size + data_offset = omega arith in
    rw e (round_up_lem 4 (size + data_offset) (omega arith) (omega arith))

-- For pages of a multiple of 16 bytes and a size that with two more pages stays below 2 GiB, mapped at
-- a multiple of 16: the mapping holds the block and ends with the fence, the object ends less than 16
-- bytes before the fence and never after its start, it is aligned to 16, and the deallocation unmaps
-- what was mapped.
pub deallocate_fenced-allocate_fenced :
    (units size place : ℕ)
    → 0 < units
    → size + 48 + 2 * (16 * units) < 2 ^ 31
    → (bytes : ℕ) × (b : ℕ) × (fence : ℕ) × (allocate_fenced (16 * place) (16 * units) size
        ≡ some (bytes, b, fence))
      × (16 * place ≤ b)
      × (b + data_offset + size ≤ fence)
      × (fence < b + data_offset + size + 16)
      × (fence + 16 * units ≡ 16 * place + bytes)
      × ((b + data_offset) % 16 ≡ 0)
      × (deallocate_fenced (16 * units) b (real_mmapped_size size) ≡ some (16 * place, bytes))
unfolding allocate_fenced deallocate_fenced num_pages
deallocate_fenced-allocate_fenced units size place pos low =
    let pagesize : ℕ = 16 * units in
    let sz = real_mmapped_size size in
    let (aligned, least, most) = mmapped_lem size (omega arith) in
    let n = (sz + pagesize - 1) / pagesize in
    let enough : sz ≤ n * pagesize =
      omega (arith, lt-div-mul-add {a = sz + pagesize - 1} {b = pagesize} (omega arith)) in
    let tight : n * pagesize < sz + pagesize =
      omega (arith, div-mul-le_self (sz + pagesize - 1) pagesize) in
    let few : n ≤ n * pagesize = le-mul n pagesize (omega arith) in
    let next : (n + 1) * pagesize ≡ n * pagesize + pagesize = grind arith in
    let p1 = int-small (n + 1) (omega arith) in
    let p2 = int-small ((n + 1) * pagesize) (omega arith) in
    let p3 = int-small sz (omega arith) in
    let less : n + 1 - 1 ≡ n = omega arith in
    let units_ : n * pagesize ≡ 16 * (n * units) = grind arith in
    let back : 16 * place + n * pagesize - sz + sz - n * pagesize ≡ 16 * place = omega arith in
    (
      (n + 1) * pagesize,
      16 * place + n * pagesize - sz,
      16 * place + n * pagesize,
      rw (p1, p2, less) refl,
      omega arith,
      omega arith,
      omega arith,
      omega arith,
      omega arith,
      rw (p3, p1, p2, less) (ap {B = Option (ℕ × ℕ)} (λ a. some (a, (n + 1) * pagesize)) back),
    )
