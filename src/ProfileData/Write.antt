-- ===== src/ProfileData/Write.antt =====
-- What `Stop` writes.
use mathlib.Core.List.{append-nil, append_assoc}
use gperftools.Base.{
  ℕ, zero, suc, ◌+◌, ◌≤◌, ◌≡◌, refl, sym, ap, ◌∙◌, inl, inr, Option, none, some, List, [], ◌∷◌,
  ◌++◌, length, ltb, if◌then◌else◌, ltb_false→le, arith, Bool-cases,
}
use gperftools.Base.Sums.{sum_from, sum_from-zero}
use gperftools.ProfileData.{
  ProfileData, Entry, Bucket, buckets, buffer_length, associativity, max_stack_depth, flush_evicted,
  no_entry, words, evict, evict_bucket, evict_table, reset, finish, stop,
}
use gperftools.ProfileData.Trace.{hits, bucket_hits, table_hits}
use gperftools.ProfileData.Records.{
  Item, encode, item, Logs, encode-append, logged_hits, logged_hits-append, evict-Logs,
  flush_evicted-Logs, append-Logs,
}
use gperftools.ProfileData.Count.{tally}

-- The records of `n` entries of a bucket, from the entry `a` on: those with a count, in order.
unfoldable pub bucket_items : ℕ → Bucket → ℕ → List Item
bucket_items zero bucket a = []
bucket_items (suc n) bucket a =
    (if ltb 0 (bucket a).count then item (bucket a) ∷ [] else []) ++ bucket_items n bucket (a + 1)

-- The records of `n` buckets of a table, from the bucket `b` on, in order.
unfoldable pub table_items : ℕ → (ℕ → Bucket) → ℕ → List Item
unfolding bucket_items
table_items zero hash b = []
table_items (suc n) hash b = bucket_items associativity (hash b) 0 ++ table_items n hash (b + 1)

-- The records go on with those added, over the same table; they gain what the function says.
record Goes (items : List Item) (p p' : ProfileData) (added : List Item) (gain : List ℕ → ℕ)
    : Type 0 where
  items' : List Item
  order : items' ≡ items ++ added
  logs : Logs items' p'
  hash : p'.hash ≡ p.hash
  out : p'.out ≡ p.out
  gained : (t : List ℕ) → logged_hits t items' ≡ logged_hits t items + gain t

evict_if :
    (items : List Item) (p : ProfileData) (e : Entry)
    → Logs items p
    → e.depth ≤ max_stack_depth
    → Goes items p
        (if ltb 0 e.count then evict p e else p)
        (if ltb 0 e.count then item e ∷ [] else [])
        (λ t. hits t e)
evict_if items p e l short = elim (Bool-cases (ltb 0 e.count)) [
  | inl some_count ↦
      let (l', hash, out) = evict-Logs items p e l short in
      rw some_count (record {
        items' = items ++ item e ∷ [];
        order = refl;
        logs = l';
        hash = hash;
        out = out;
        gained = λ t. logged_hits-append t items (item e);
      })
  | inr no_count ↦ rw no_count (record {
    items' = items;
    order = sym (append-nil items);
    logs = l;
    hash = refl;
    out = refl;
    gained = λ t. ground arith;
  })
]

-- Goes, one after the other.
Goes-trans :
    {items xs ys : List Item} {p p' p'' : ProfileData} {g h : List ℕ → ℕ}
    (first : Goes items p p' xs g)
    → Goes first.items' p' p'' ys h
    → Goes items p p'' (xs ++ ys) (λ t. g t + h t)
Goes-trans {items} {xs} {ys} first second = record {
  items' = second.items';
  order = second.order ∙ ap (λ (is : List Item). is ++ ys) first.order ∙ append_assoc items xs ys;
  logs = second.logs;
  hash = second.hash ∙ first.hash;
  out = second.out ∙ first.out;
  gained = λ t. omega (arith, first.gained t, second.gained t);
}

evict_bucket-Goes :
    (n : ℕ) (items : List Item) (p : ProfileData) (bucket : Bucket) (a : ℕ)
    → Logs items p
    → ((i : ℕ) → (bucket i).depth ≤ max_stack_depth)
    → Goes items p
        (evict_bucket n p bucket a)
        (bucket_items n bucket a)
        (λ t. sum_from (hits t) n a bucket)
unfolding evict_bucket sum_from bucket_items
evict_bucket-Goes zero items p bucket a l short = record {
  items' = items;
  order = sym (append-nil items);
  logs = l;
  hash = refl;
  out = refl;
  gained = λ t. omega arith;
}
evict_bucket-Goes (suc n) items p bucket a l short =
    let first = evict_if items p (bucket a) l (short a) in
    Goes-trans first (evict_bucket-Goes n first.items' _ bucket (a + 1) first.logs short)

evict_table-Goes :
    (n : ℕ) (items : List Item) (p : ProfileData) (b : ℕ)
    → Logs items p
    → Goes items p
        (evict_table n p b)
        (table_items n p.hash b)
        (λ t. sum_from {A = Bucket} (bucket_hits t) n b p.hash)
unfolding evict_table sum_from table_items
evict_table-Goes zero items p b l = record {
  items' = items;
  order = sym (append-nil items);
  logs = l;
  hash = refl;
  out = refl;
  gained = λ t. omega arith;
}
evict_table-Goes (suc n) items p b l =
    let first = evict_bucket-Goes associativity items p (p.hash b) 0 l (l.shallow b) in
    let rest = evict_table-Goes n first.items' _ (b + 1) first.logs in
    let here = bucket_items associativity (p.hash b) 0 in
    record {
      items' = rest.items';
      order =
          rest.order
          ∙ ap (λ (hash : ℕ → Bucket). first.items' ++ table_items n hash (b + 1)) first.hash
          ∙ ap (λ (is : List Item). is ++ table_items n p.hash (b + 1)) first.order
          ∙ append_assoc items here (table_items n p.hash (b + 1));
      logs = rest.logs;
      hash = rest.hash ∙ first.hash;
      out = rest.out ∙ first.out;
      gained = λ t.
          let table : sum_from {A = Bucket} (bucket_hits t) n (b + 1)
                (evict_bucket associativity p (p.hash b) 0).hash
              ≡ sum_from {A = Bucket} (bucket_hits t) n (b + 1) p.hash =
            ap (sum_from {A = Bucket} (bucket_hits t) n (b + 1)) first.hash in
          omega (
            arith,
            rest.gained t,
            first.gained t,
            sum_from-zero (hits t) associativity (p.hash b),
            table,
          );
    }

reset-output : (p : ProfileData) → (reset p).output ≡ p.output
unfolding reset
reset-output p = go p.out
  where
    go :
        (o : Option ℕ)
        → (elim o as (λ _. ProfileData) [
          | none ↦ p
          | some f ↦ record p { hash = λ b a. no_entry; evicted = []; out = none }
        ]).output
          ≡ p.output
    go none = refl
    go (some f) = refl

-- the entry of the end marker
abbrev end_marker : Entry
end_marker = record { count = 0; depth = 1; stack = λ i. 0 }

-- The buffer has room for the marker, or is flushed.
Goes-room :
    (items : List Item) (p : ProfileData)
    → Logs items p
    → let p' = if ltb buffer_length (length p.evicted + 3) then flush_evicted p else p in
      Logs items p' × (length p'.evicted + 3 ≤ buffer_length)
Goes-room items p l = elim (Bool-cases (ltb buffer_length (length p.evicted + 3))) [
  | inl e ↦
      let (l', empty, hash, out) = flush_evicted-Logs items p l in
      let empty' : length (flush_evicted p).evicted ≡ 0 = ap length empty in rw e (l', omega arith)
  | inr e ↦ rw e (l, ltb_false→le buffer_length (length p.evicted + 3) e)
]

-- The end of `Stop` writes the records and the marker.
finish-Written :
    (items : List Item) (p : ProfileData)
    → Logs items p
    → (finish p).output ≡ encode (items ++ item end_marker ∷ [])
unfolding finish words
finish-Written items p l =
    let p' : ProfileData =
      if ltb buffer_length (length p.evicted + 3) then flush_evicted p else p in
    let (l', room) = Goes-room items p l in
    let marked : ProfileData = record p' { evicted = p'.evicted ++ 0 ∷ 1 ∷ 0 ∷ [] } in
    let lm : Logs (items ++ item end_marker ∷ []) marked =
      append-Logs items p' end_marker l' room in
    let r = flush_evicted-Logs (items ++ item end_marker ∷ []) marked lm in
    reset-output (flush_evicted marked)
    ∙ (sym (append-nil (flush_evicted marked).output)
        ∙ (ap (λ (xs : List ℕ). (flush_evicted marked).output ++ xs) (sym r.1) ∙ r.0.logged))

-- What `Stop` of an open profile has written is the records so far, then those of the table, bucket
-- by bucket and in each bucket entry by entry, without the entries of count 0, then the end marker
-- 0, 1, 0; and in the records each trace has the count that it had in the earlier records and the
-- table together.
pub stop-Written :
    (items : List Item) (p : ProfileData) (f : ℕ)
    → p.out ≡ some f
    → Logs items p
    → ((stop p).output ≡ encode (items ++ table_items buckets p.hash 0) ++ 0 ∷ 1 ∷ 0 ∷ [])
      × ((t : List ℕ) → logged_hits t (items ++ table_items buckets p.hash 0) ≡ tally t items p)
unfolding stop words
stop-Written items p f open_file l =
    let table = evict_table-Goes buckets items p 0 l in
    let all : List Item = items ++ table_items buckets p.hash 0 in
    (
      ap
            (λ (o : Option ℕ).
              (elim o as (λ _. ProfileData) [
                | none ↦ p
                | some f ↦ finish (evict_table buckets p 0)
              ]).output)
            open_file
          ∙ finish-Written table.items' (evict_table buckets p 0) table.logs
          ∙ ap (λ (is : List Item). encode (is ++ item end_marker ∷ [])) table.order
          ∙ encode-append all (item end_marker),
      λ t.
          let whole : sum_from {A = Bucket} (bucket_hits t) buckets 0 p.hash ≡ table_hits t p.hash =
            sum_from-zero {A = Bucket} (bucket_hits t) buckets p.hash in
          let same : logged_hits t table.items' ≡ logged_hits t all =
            ap (logged_hits t) table.order in
          omega (arith, table.gained t, whole, same),
    )
