-- ===== src/ProfileData.antt =====
-- `ProfileData` of src/profiledata.h and src/profiledata.cc, which collects the samples of the CPU
-- profiler: a hash table of stack traces with their counts, and a buffer of words to write to the
-- file. An array is a function of its index; the buffer holds its words in order, and `output` what
-- was handed to `FDWrite`, which is taken to write it.
pub mod Trace
pub mod Records
pub mod Count
pub mod Write
use gperftools.Base.{
  ℕ, zero, suc, ◌+◌, ◌-◌, ◌*◌, ◌/◌, ◌%◌, ◌^◌, min, max, bit_or, Bool, true, false, ◌&&◌, Option,
  none, some, List, [], ◌∷◌, ◌++◌, length, ltb, leb, ◌==◌, if◌then◌else◌, update, Outcome, ok,
  crash, ◌>>=◌, ◌>>◌, check,
}

-- `kMaxStackDepth`, `kAssociativity`, `kBuckets`, `kBufferLength`
abbrev pub max_stack_depth : ℕ
max_stack_depth = 254

abbrev pub associativity : ℕ
associativity = 4

abbrev pub buckets : ℕ
buckets = 2 ^ 10

abbrev pub buffer_length : ℕ
buffer_length = 2 ^ 18

-- `Entry`
pub record Entry : Type 0 where
  pub count : ℕ
  pub depth : ℕ
  pub stack : ℕ → ℕ

-- `Bucket`
abbrev pub Bucket : Type 0
Bucket = ℕ → Entry

-- The file is open when there is a descriptor. The file's name and the start time are left out.
pub record ProfileData : Type 0 where
  pub hash : ℕ → Bucket
  pub evicted : List ℕ
  pub out : Option ℕ
  pub count : ℕ
  pub evictions : ℕ
  pub total_bytes : ℕ
  pub output : List ℕ

-- `n` words of an array, from the index `i` on.
unfoldable pub words : ℕ → ℕ → (ℕ → ℕ) → List ℕ
words zero i a = []
words (suc n) i a = a i ∷ words n (i + 1) a

-- `FlushEvicted`
unfoldable pub flush_evicted : ProfileData → ProfileData
flush_evicted p =
    if ltb 0 (length p.evicted)
    then record p {
      evicted = [];
      total_bytes = (p.total_bytes + 8 * length p.evicted) % 2 ^ 64;
      output = p.output ++ p.evicted;
    }
    else p

-- `Evict`
unfoldable pub evict : ProfileData → Entry → ProfileData
evict p e =
    let p' = if ltb buffer_length (length p.evicted + (e.depth + 2)) then flush_evicted p else p in
    record p' { evicted = p'.evicted ++ e.count ∷ e.depth ∷ words e.depth 0 e.stack }

abbrev pub no_entry : Entry
no_entry = record { count = 0; depth = 0; stack = λ i. 0 }

-- `Start`, with the descriptor that `open` gives, if it gives one, and the frequency of the options.
unfoldable pub start : ProfileData → Option ℕ → ℕ → Outcome (Bool × ProfileData)
start p fd frequency = elim p.out [
  | some f ↦ ok (false, p)
  | none ↦ elim fd [
    | none ↦ ok (false, p)
    | some f ↦ do
      check (ltb 0 frequency)
      ok (
        true,
        record {
          hash = λ b a. no_entry;
          evicted = 0 ∷ 3 ∷ 0 ∷ 1000000 / frequency ∷ 0 ∷ [];
          out = some f;
          count = 0;
          evictions = 0;
          total_bytes = 0;
          output = [];
        },
      )
  ]
]

-- `Reset`: the table and the buffer are freed, the counters stay.
unfoldable pub reset : ProfileData → ProfileData
reset p = elim p.out [
  | none ↦ p
  | some f ↦ record p { hash = λ b a. no_entry; evicted = []; out = none }
]

-- The loops of `Stop` over `n` entries of a bucket, from the entry `a` on, and over `n` buckets.
unfoldable pub evict_bucket : ℕ → ProfileData → Bucket → ℕ → ProfileData
evict_bucket zero p bucket a = p
evict_bucket (suc n) p bucket a =
    evict_bucket n (if ltb 0 (bucket a).count then evict p (bucket a) else p) bucket (a + 1)

unfoldable pub evict_table : ℕ → ProfileData → ℕ → ProfileData
evict_table zero p b = p
evict_table (suc n) p b = evict_table n (evict_bucket associativity p (p.hash b) 0) (b + 1)

-- The end of `Stop`: the end marker, in a buffer with room for it.
unfoldable pub finish : ProfileData → ProfileData
finish p =
    let p' = if ltb buffer_length (length p.evicted + 3) then flush_evicted p else p in
    reset (flush_evicted (record p' { evicted = p'.evicted ++ 0 ∷ 1 ∷ 0 ∷ [] }))

-- `Stop`, but for the memory map of the process that it appends to the file.
unfoldable pub stop : ProfileData → ProfileData
stop p = elim p.out [ none ↦ p | some f ↦ finish (evict_table buckets p 0) ]

abbrev pub cleared : Bucket → Bucket
cleared bucket a =
    if ltb a associativity && ltb 0 (bucket a).count
    then record (bucket a) { depth = 0; count = 0 }
    else bucket a

-- `FlushTable`
unfoldable pub flush_table : ProfileData → ProfileData
flush_table p = elim p.out [
  | none ↦ p
  | some f ↦
      let p' = evict_table buckets p 0 in
      flush_evicted (record p' { hash = λ b. cleared (p'.hash b) })
]

-- The hash value of `n` words of a stack, from the index `i` on.
unfoldable pub stack_hash : ℕ → ℕ → (ℕ → ℕ) → ℕ → ℕ
stack_hash zero i stack h = h
stack_hash (suc n) i stack h =
    let slot = stack i in
    let turned = bit_or (h * 2 ^ 8 % 2 ^ 64) (h / 2 ^ 56) in
    stack_hash n (i + 1) stack ((turned + (slot * 31 + slot * 7 + slot * 3)) % 2 ^ 64)

-- The loop that compares `n` words of two stacks, from the index `i` on.
unfoldable pub same_words : ℕ → ℕ → (ℕ → ℕ) → (ℕ → ℕ) → Bool
same_words zero i s t = true
same_words (suc n) i s t = (s i == t i) && same_words n (i + 1) s t

-- The loop of `Add` that looks for a stack in `n` entries of a bucket, from the entry `a` on.
unfoldable pub find_entry : ℕ → Bucket → ℕ → ℕ → (ℕ → ℕ) → Option ℕ
find_entry zero bucket a depth stack = none
find_entry (suc n) bucket a depth stack =
    if ((bucket a).depth == depth) && same_words depth 0 (bucket a).stack stack
    then some a
    else find_entry n bucket (a + 1) depth stack

-- The loop of `Add` that looks for the smallest count in `n` entries, from the entry `a` on.
unfoldable pub least_entry : ℕ → Bucket → ℕ → ℕ → ℕ
least_entry zero bucket a least = least
least_entry (suc n) bucket a least =
    least_entry n bucket (a + 1) (if ltb (bucket a).count (bucket least).count then a else least)

-- The first `depth` words of an array are written.
abbrev pub write_words : ℕ → (ℕ → ℕ) → (ℕ → ℕ) → ℕ → ℕ
write_words depth old new i = if ltb i depth then new i else old i

abbrev pub set_entry : ProfileData → ℕ → ℕ → Entry → ProfileData
set_entry p b a e = record p { hash = update p.hash b (update (p.hash b) a e) }

-- The end of `Add` for a stack that is in the table, at the entry `a` of the bucket `b`, or is not.
unfoldable pub count_sample : ProfileData → ℕ → ℕ → (ℕ → ℕ) → Option ℕ → ProfileData
count_sample p b depth stack (some a) =
    let e = p.hash b a in set_entry p b a (record e { count = (e.count + 1) % 2 ^ 64 })
count_sample p b depth stack none =
    let a = least_entry 3 (p.hash b) 1 0 in
    let e = p.hash b a in
    let p' = if ltb 0 e.count then evict (record p { evictions = p.evictions + 1 }) e else p in
    set_entry p' b a (record { count = 1; depth = depth; stack = write_words depth e.stack stack })

-- `Add`
unfoldable pub add : ProfileData → ℕ → (ℕ → ℕ) → Outcome ProfileData
unfolding count_sample
add p asked stack = elim p.out [
  | none ↦ ok p
  | some f ↦ do
    let depth = min asked max_stack_depth
    check (ltb 0 depth)
    let b = stack_hash depth 0 stack 0 % buckets
    let found = find_entry associativity (p.hash b) 0 depth stack
    ok (count_sample (record p { count = p.count + 1 }) b depth stack found)
]
