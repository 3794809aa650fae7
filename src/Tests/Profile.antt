-- ===== src/Tests/Profile.antt =====
-- The theorems on the profile data, the stack traces and the address map at concrete inputs.
use gperftools.Base.{
  ℕ, ◌+◌, ◌≡◌, refl, arith, some, List, [], ◌∷◌, ◌++◌, ◌&&◌, ◌==◌, if◌then◌else◌, none, false, ok,
}
use gperftools.StackTraces.{StackTraceTable}
use gperftools.AddressMap.{find, find_and_remove}
use gperftools.AddressMap.Refine.{Change, inserts, removes, changed, find-changed}
use gperftools.ProfileData.{ProfileData, buckets, no_entry, words, add, stop}
use gperftools.ProfileData.Records.{Item, Logs, encode, logged_hits}
use gperftools.ProfileData.Count.{CountedIn, tally, add-CountedIn}
use gperftools.ProfileData.Write.{table_items, stop-Written}

-- a profile as `Start` leaves it, at 100 samples a second
abbrev started : ProfileData
started = record {
  hash = λ b a. no_entry;
  evicted = 0 ∷ 3 ∷ 0 ∷ 10000 ∷ 0 ∷ [];
  out = some 3;
  count = 0;
  evictions = 0;
  total_bytes = 0;
  output = [];
}

abbrev header : List Item
header = record { count = 0; trace = 0 ∷ 10000 ∷ 0 ∷ [] } ∷ []

started-Logs : Logs header started
started-Logs = record { logged = refl; room = omega arith; shallow = λ b a. omega arith }

abbrev stack : ℕ → ℕ
stack i = 4096 + i

add-CountedIn_example :
    (p : ProfileData) × (add started 3 stack ≡ ok p) × CountedIn header started (words 3 0 stack) p
add-CountedIn_example = add-CountedIn header started 3 3 stack refl (omega arith) started-Logs

-- the same with four samples of one stack in the table
abbrev sampled : ProfileData
sampled = record started {
  hash = λ b a.
      if (b == 5) && (a == 2) then record { count = 4; depth = 2; stack = stack } else no_entry;
}

sampled-Logs : Logs header sampled
sampled-Logs = record { logged = refl; room = omega arith; shallow = λ b a. ground arith }

stop-Written_example :
    ((stop sampled).output
      ≡ encode (header ++ table_items buckets sampled.hash 0) ++ 0 ∷ 1 ∷ 0 ∷ [])
    × ((t : List ℕ)
        → logged_hits t (header ++ table_items buckets sampled.hash 0) ≡ tally t header sampled)
stop-Written_example = stop-Written header sampled 3 refl sampled-Logs

abbrev table : StackTraceTable
table = record {
  error = false;
  traces = record { size = 64; stack = 4096 ∷ 8192 ∷ [] } ∷ record { size = 8; stack = [] } ∷ [];
}

abbrev changes : List (Change ℕ)
changes = removes 4096 ∷ inserts 4100 7 ∷ inserts 4096 5 ∷ []

find-changed_example :
    (find (changed changes) 4096 ≡ none) × ((find_and_remove (changed changes) 4096).0 ≡ none)
find-changed_example = find-changed changes 4096
