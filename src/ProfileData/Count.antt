-- ===== src/ProfileData/Count.antt =====
-- Every sample is counted once, in the table or in what is written.
use native.Mathlib.Nat.{mod-lt}
use mathlib.Core.Path.{subst}
use gperftools.Base.{
  ℕ, ◌+◌, ◌%◌, ◌^◌, ◌≤◌, ◌<◌, ◌≡◌, refl, sym, ap, inl, inr, min, Bool, true, false, Option, none,
  some, List, [], ◌∷◌, ◌++◌, ltb, if◌then◌else◌, update, lt→ltb, arith, Bool-cases, ok,
}
use gperftools.ProfileData.{
  ProfileData, Entry, Bucket, buckets, associativity, max_stack_depth, words, stack_hash,
  find_entry, least_entry, write_words, evict, count_sample, set_entry, add,
}
use gperftools.ProfileData.Trace.{
  equal_lists, words-write_words, trace, hits, table_hits, table_hits-update, find_entry_lem,
  least_entry-lt,
}
use gperftools.ProfileData.Records.{Item, Logs, logged_hits, item, logged_hits-append, evict-Logs}

set_entry-Logs :
    (items : List Item) (p : ProfileData) (b a : ℕ) (e : Entry)
    → Logs items p
    → e.depth ≤ max_stack_depth
    → Logs items (set_entry p b a e)
set_entry-Logs items p b a e l short = record {
  logged = l.logged;
  room = l.room;
  shallow = λ b' a'. ground (arith, l.shallow b' a');
}

-- The count of a trace in the records and in the table.
abbrev pub tally : List ℕ → List Item → ProfileData → ℕ
tally t items p = logged_hits t items + table_hits t p.hash

-- A sample counts once for its trace.
abbrev one : List ℕ → List ℕ → ℕ
one trace t = if equal_lists trace t then 1 else 0

-- The records are such that the tally of each trace is what it was, and one more for this one.
abbrev pub CountedIn : List Item → ProfileData → List ℕ → ProfileData → Type 0
CountedIn items p trace p' =
    (items' : List Item) × Logs items' p'
    × ((t : List ℕ) → tally t items' p' % 2 ^ 64 ≡ (tally t items p + one trace t) % 2 ^ 64)

-- The sums, when an entry with the count `c` gets one more, and when one makes room for a new trace.
one_more :
    (same : Bool) (logged table table' c : ℕ)
    → table' + (if same then c else 0) ≡ table + (if same then (c + 1) % 2 ^ 64 else 0)
    → (logged + table') % 2 ^ 64 ≡ (logged + table + (if same then 1 else 0)) % 2 ^ 64
one_more true logged table table' c h = omega arith
one_more false logged table table' c h = omega arith

module _ (items : List Item) (p : ProfileData) (b depth : ℕ) (stack : ℕ → ℕ) (l : Logs items p)
    (hb : b < buckets) (short : depth ≤ max_stack_depth) where
  count_found :
      (a : ℕ)
      → a < associativity
      → trace (p.hash b a) ≡ words depth 0 stack
      → CountedIn items p (words depth 0 stack) (count_sample p b depth stack (some a))
  unfolding count_sample
  count_found a ha same =
      let e : Entry = record (p.hash b a) { count = ((p.hash b a).count + 1) % 2 ^ 64 } in
      (
        items,
        set_entry-Logs items p b a e l (l.shallow b a),
        λ t.
            let sums = table_hits-update t p.hash b a e hb ha in
            subst
              (λ (w : List ℕ).
                tally t items (set_entry p b a e) % 2 ^ 64 ≡ (tally t items p + one w t) % 2 ^ 64)
              same
              (one_more (equal_lists (trace (p.hash b a)) t) (logged_hits t items)
                (table_hits t p.hash) (table_hits t (update p.hash b (update (p.hash b) a e)))
                (p.hash b a).count sums),
      )

  abbrev fresh : ℕ → Entry
  fresh a = record { count = 1; depth = depth; stack = write_words depth (p.hash b a).stack stack }

  -- The new entry, in a table from which the old one has gone to the records.
  count_fresh :
      (items' : List Item) (p' : ProfileData) (a : ℕ)
      → a < associativity
      → Logs items' p'
      → p'.hash ≡ p.hash
      → ((t : List ℕ) → logged_hits t items' ≡ logged_hits t items + hits t (p.hash b a))
      → CountedIn items p (words depth 0 stack) (set_entry p' b a (fresh a))
  count_fresh items' p' a ha l' same gone =
      let e : Entry = fresh a in
      let w : trace e ≡ words depth 0 stack =
        words-write_words depth 0 depth (p.hash b a).stack stack (omega arith) in
      (
        items',
        set_entry-Logs items' p' b a e l' short,
        λ t.
            let sums =
              subst
                (λ (h : ℕ → Bucket).
                  table_hits t (update h b (update (h b) a e)) + hits t (p.hash b a)
                  ≡ table_hits t p.hash + hits t e)
                (sym same) (table_hits-update t p.hash b a e hb ha) in
            let new : hits t e ≡ one (words depth 0 stack) t = ap (λ (v : List ℕ). one v t) w in
            omega (arith, gone t, sums, new),
      )

  count_new : CountedIn items p (words depth 0 stack) (count_sample p b depth stack none)
  unfolding count_sample
  count_new =
      let a : ℕ = least_entry 3 (p.hash b) 1 0 in
      let ha : a < associativity =
        least_entry-lt 3 (p.hash b) 1 0 associativity (omega arith) (omega arith) in
      elim (Bool-cases (ltb 0 (p.hash b a).count)) [
        | inl some_count ↦
            let q : ProfileData = record p { evictions = p.evictions + 1 } in
            let lq : Logs items q = record {
              logged = l.logged;
              room = l.room;
              shallow = l.shallow;
            } in
            let (l', hash, out) = evict-Logs items q (p.hash b a) lq (l.shallow b a) in
            rw some_count (
              count_fresh (items ++ item (p.hash b a) ∷ []) (evict q (p.hash b a)) a ha l' hash
                (λ t. logged_hits-append t items (item (p.hash b a))))
        | inr no_count ↦ rw no_count (count_fresh items p a ha l refl (λ t. ground arith))
      ]

  count_any :
      (found : Option ℕ)
      → find_entry associativity (p.hash b) 0 depth stack ≡ found
      → CountedIn items p (words depth 0 stack) (count_sample p b depth stack found)
  count_any none e = count_new
  count_any (some a) e =
      let (ha, same) = find_entry_lem associativity (p.hash b) 0 depth stack a e in
      count_found a ha same

-- `Add` of a sample to an open profile, of a depth above 0, ends, and counts the first 254 words of
-- its stack as one sample more: in the records and the table together each trace has the count,
-- modulo 2^64, that it had, and one more if it is this one. The buffer stays within its length.
pub add-CountedIn :
    (items : List Item) (p : ProfileData) (f asked : ℕ) (stack : ℕ → ℕ)
    → p.out ≡ some f
    → 0 < asked
    → Logs items p
    → (p' : ProfileData) × (add p asked stack ≡ ok p')
      × CountedIn items p (words (min asked max_stack_depth) 0 stack) p'
unfolding add
add-CountedIn items p f asked stack open_file some_depth l =
    let depth : ℕ = min asked max_stack_depth in
    let b : ℕ = stack_hash depth 0 stack 0 % buckets in
    let q : ProfileData = record p { count = p.count + 1 } in
    let lq : Logs items q = record { logged = l.logged; room = l.room; shallow = l.shallow } in
    let found : Option ℕ = find_entry associativity (p.hash b) 0 depth stack in
    let run : add p asked stack ≡ ok (count_sample q b depth stack found) =
      rw (open_file, lt→ltb 0 depth (omega arith)) refl in
    (
      count_sample q b depth stack found,
      run,
      count_any items q b depth stack lq (mod-lt (stack_hash depth 0 stack 0) (omega arith))
          (omega arith) found refl,
    )
