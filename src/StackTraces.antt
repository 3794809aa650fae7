-- ===== src/StackTraces.antt =====
-- `StackTraceTable` of src/stack_trace_table.h and src/stack_trace_table.cc: the list of the sampled
-- stack traces and the dump of them as one array of words. Whether there is memory for an entry is a
-- parameter.
use mathlib.Core.Option
use gperftools.Base.{
  ℕ, zero, suc, Option, none, some, leb, ◌+◌, ◌*◌, Bool, true, false, List, [], ◌∷◌, ◌++◌, length,
  take, drop, if◌then◌else◌,
}

-- `StackTrace`; its depth is the length of the stack.
pub record StackTrace : Type 0 where
  pub size : ℕ
  pub stack : List ℕ

-- The words that the second loop of `ProduceStackTracesDump` writes for a trace.
abbrev pub trace_words : StackTrace → List ℕ
trace_words t = 1 ∷ t.size ∷ length t.stack ∷ t.stack

-- The second loop of `ProduceStackTracesDump`, with the 0 after it.
unfoldable pub dump_words : List StackTrace → List ℕ
dump_words [] = 0 ∷ []
dump_words (t ∷ ts) = trace_words t ++ dump_words ts

-- The first loop of `ProduceStackTracesDump`: the depths and the traces so far.
unfoldable pub count_words : List StackTrace → ℕ → ℕ → ℕ × ℕ
count_words [] depth_total bucket_total = (depth_total, bucket_total)
count_words (t ∷ ts) depth_total bucket_total =
    count_words ts (depth_total + length t.stack) (bucket_total + 1)

-- The length of the array that `ProduceStackTracesDump` allocates.
unfoldable pub out_len : List StackTrace → ℕ
unfolding count_words
out_len ts =
    let (depth_total, bucket_total) = count_words ts 0 0 in bucket_total * 3 + depth_total + 1

pub record StackTraceTable : Type 0 where
  pub error : Bool
  pub traces : List StackTrace

-- `AddTrace`, if there is memory for the entry or not.
unfoldable pub add_trace : Bool → StackTraceTable → StackTrace → StackTraceTable
add_trace memory table t =
    if table.error
    then table
    else if memory
    then record table { traces = t ∷ table.traces }
    else record table { error = true }

-- `ReadStackTracesAndClear`
unfoldable pub read_stack_traces_and_clear : StackTraceTable → List ℕ × StackTraceTable
unfolding dump_words
read_stack_traces_and_clear table = (dump_words table.traces, record { error = false; traces = [] })

-- A dump is well formed if it is traces, each with the count 1, its size, its depth and as many
-- words, and then a last word 0; what it gives is the traces. Each takes one of the rounds given.
abbrev pub read_dump : ℕ → List ℕ → Option (List StackTrace)
read_dump (suc rounds) (zero ∷ []) = some []
read_dump (suc rounds) (suc zero ∷ size ∷ depth ∷ words) =
    if leb depth (length words)
    then Option.map (λ ts. record { size = size; stack = take depth words } ∷ ts)
        (read_dump rounds (drop depth words))
    else none
read_dump rounds words = none
