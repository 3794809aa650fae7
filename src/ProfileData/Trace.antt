-- ===== src/ProfileData/Trace.antt =====
-- The traces of the samples as lists, and the table's sum of their counts.
use mathlib.Core.Path.{subst}
use gperftools.Base.{
  ℕ, zero, suc, ◌+◌, ◌≤◌, ◌<◌, ◌≡◌, refl, ap, ◌∙◌, Bool, true, false, ◌&&◌, some, List, [], ◌∷◌,
  length, ltb, ◌==◌, if◌then◌else◌, update, arith,
}
use gperftools.Base.Sums.{sum_below, sum_below-update_below}
use gperftools.ProfileData.{
  Entry, Bucket, buckets, associativity, words, same_words, find_entry, least_entry, write_words,
}

abbrev pub equal_lists : List ℕ → List ℕ → Bool
equal_lists [] [] = true
equal_lists [] (y ∷ ys) = false
equal_lists (x ∷ xs) [] = false
equal_lists (x ∷ xs) (y ∷ ys) = (x == y) && equal_lists xs ys

pub length-words : (n i : ℕ) (a : ℕ → ℕ) → length (words n i a) ≡ n
unfolding words
length-words zero i a = refl
length-words (suc n) i a = ap suc (length-words n (i + 1) a)

words_same : (n i : ℕ) (s t : ℕ → ℕ) → same_words n i s t ≡ true → words n i s ≡ words n i t
unfolding words same_words
words_same zero i s t h = refl
words_same (suc n) i s t h =
    let e : s i ≡ t i = ground arith in
    let ih = words_same n (i + 1) s t (ground arith) in rw (e, ih) refl

pub words-write_words :
    (n i d : ℕ) (old new : ℕ → ℕ) → i + n ≤ d → words n i (write_words d old new) ≡ words n i new
unfolding words
words-write_words zero i d old new h = refl
words-write_words (suc n) i d old new h =
    let e : write_words d old new i ≡ new i = ground arith in
    rw (e, words-write_words n (i + 1) d old new (omega arith)) refl

-- The trace of an entry.
abbrev pub trace : Entry → List ℕ
trace e = words e.depth 0 e.stack

-- The count of a trace, in an entry and in the table.
abbrev pub hits : List ℕ → Entry → ℕ
hits t e = if equal_lists (trace e) t then e.count else 0

abbrev pub bucket_hits : List ℕ → Bucket → ℕ
bucket_hits t bucket = sum_below (hits t) associativity bucket

abbrev pub table_hits : List ℕ → (ℕ → Bucket) → ℕ
table_hits t hash = sum_below {A = Bucket} (bucket_hits t) buckets hash

pub table_hits-update :
    (t : List ℕ) (hash : ℕ → Bucket) (b a : ℕ) (e : Entry)
    → b < buckets
    → a < associativity
    → table_hits t (update hash b (update (hash b) a e)) + hits t (hash b a)
      ≡ table_hits t hash + hits t e
table_hits-update t hash b a e hb ha =
    let outer =
      sum_below-update_below {A = Bucket} (bucket_hits t) buckets hash b (update (hash b) a e) hb in
    let inner = sum_below-update_below {A = Entry} (hits t) associativity (hash b) a e ha in
    omega (arith, outer, inner)

-- An entry that is found has the stack.
pub find_entry_lem :
    (n : ℕ) (bucket : Bucket) (a depth : ℕ) (stack : ℕ → ℕ) (x : ℕ)
    → find_entry n bucket a depth stack ≡ some x
    → (x < a + n) × (trace (bucket x) ≡ words depth 0 stack)
unfolding find_entry
find_entry_lem zero bucket a depth stack x h = ground arith
find_entry_lem (suc n) bucket a depth stack x h =
    go (find_entry_lem n bucket (a + 1) depth stack x)
      (((bucket a).depth == depth) && same_words depth 0 (bucket a).stack stack) refl h
  where
    go :
        (find_entry n bucket (a + 1) depth stack ≡ some x
          → (x < a + 1 + n) × (trace (bucket x) ≡ words depth 0 stack))
        → (here : Bool)
        → (((bucket a).depth == depth) && same_words depth 0 (bucket a).stack stack) ≡ here
        → (if here then some a else find_entry n bucket (a + 1) depth stack) ≡ some x
        → (x < a + suc n) × (trace (bucket x) ≡ words depth 0 stack)
    go ih true e h =
        let at : a ≡ x = ground arith in
        let d : (bucket a).depth ≡ depth = ground arith in
        let w = words_same depth 0 (bucket a).stack stack (ground arith) in
        (
          omega arith,
          subst (λ (y : ℕ). trace (bucket y) ≡ words depth 0 stack) at
              (ap (λ (k : ℕ). words k 0 (bucket a).stack) d ∙ w),
        )
    go ih false e h = let (low, same) = ih h in (omega arith, same)

pub least_entry-lt :
    (n : ℕ) (bucket : Bucket) (a least top : ℕ)
    → a + n ≤ top
    → least < top
    → least_entry n bucket a least < top
unfolding least_entry
least_entry-lt zero bucket a least top h h' = h'
least_entry-lt (suc n) bucket a least top h h' =
    least_entry-lt n bucket (a + 1) (if ltb (bucket a).count (bucket least).count then a else least)
      top (omega arith) (ground arith)
