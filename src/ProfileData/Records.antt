-- ===== src/ProfileData/Records.antt =====
-- The records of the file: counts and traces.
use mathlib.Core.List.{append_assoc, append-nil}
use gperftools.Base.{
  ℕ, ◌+◌, ◌≤◌, ◌≡◌, refl, sym, ap, ◌∙◌, inl, inr, List, [], ◌∷◌, ◌++◌, length, length-append, ltb,
  if◌then◌else◌, ltb_false→le, arith, Bool-cases,
}
use gperftools.ProfileData.{
  ProfileData, Entry, buffer_length, max_stack_depth, words, flush_evicted, evict,
}
use gperftools.ProfileData.Trace.{equal_lists, length-words, trace}

-- A record of the file: a count and a trace.
pub record Item : Type 0 where
  pub count : ℕ
  pub trace : List ℕ

-- The words of a file with these records, in order.
abbrev pub encode : List Item → List ℕ
encode [] = []
encode (i ∷ is) = i.count ∷ length i.trace ∷ i.trace ++ encode is

-- The count of a trace in the records.
abbrev pub logged_hits : List ℕ → List Item → ℕ
logged_hits t [] = 0
logged_hits t (i ∷ is) = (if equal_lists i.trace t then i.count else 0) + logged_hits t is

-- What was written and what waits in the buffer are these records, the buffer is within its length,
-- and the traces of the table within theirs.
pub record Logs (items : List Item) (p : ProfileData) : Type 0 where
  pub logged : p.output ++ p.evicted ≡ encode items
  pub room : length p.evicted ≤ buffer_length
  pub shallow : (b a : ℕ) → (p.hash b a).depth ≤ max_stack_depth

pub encode-append :
    (is : List Item) (i : Item)
    → encode (is ++ i ∷ []) ≡ encode is ++ i.count ∷ length i.trace ∷ i.trace
encode-append [] i = ap (λ (t : List ℕ). i.count ∷ length i.trace ∷ t) (append-nil i.trace)
encode-append (j ∷ is) i =
    ap (λ (t : List ℕ). j.count ∷ length j.trace ∷ t)
      (ap (λ (t : List ℕ). j.trace ++ t) (encode-append is i)
        ∙ sym (append_assoc j.trace (encode is) (i.count ∷ length i.trace ∷ i.trace)))

pub logged_hits-append :
    (t : List ℕ) (is : List Item) (i : Item)
    → logged_hits t (is ++ i ∷ [])
      ≡ logged_hits t is + (if equal_lists i.trace t then i.count else 0)
logged_hits-append t [] i = omega arith
logged_hits-append t (j ∷ is) i = omega (arith, logged_hits-append t is i)

nil_of_length : (xs : List ℕ) → length xs ≤ 0 → xs ≡ []
nil_of_length [] h = refl
nil_of_length (x ∷ xs) h = absurd (omega arith)

-- What `FlushEvicted` leaves.
pub flush_evicted-Logs :
    (items : List Item) (p : ProfileData)
    → Logs items p
    → Logs items (flush_evicted p)
      × ((flush_evicted p).evicted ≡ [])
      × ((flush_evicted p).hash ≡ p.hash)
      × ((flush_evicted p).out ≡ p.out)
unfolding flush_evicted
flush_evicted-Logs items p l = elim (Bool-cases (ltb 0 (length p.evicted))) [
  | inl e ↦ rw e (
    record {
      logged = append-nil (p.output ++ p.evicted) ∙ l.logged;
      room = omega arith;
      shallow = l.shallow;
    },
    refl,
    refl,
    refl,
  )
  | inr e ↦ rw e (l, nil_of_length p.evicted (ltb_false→le 0 (length p.evicted) e), refl, refl)
]

-- An entry of the table goes into the records.
abbrev pub item : Entry → Item
item e = record { count = e.count; trace = trace e }

pub append-Logs :
    (items : List Item) (p : ProfileData) (e : Entry)
    → Logs items p
    → length p.evicted + (e.depth + 2) ≤ buffer_length
    → Logs
        (items ++ item e ∷ [])
        (record p { evicted = p.evicted ++ e.count ∷ e.depth ∷ words e.depth 0 e.stack })
append-Logs items p e l room =
    let len = length-words e.depth 0 e.stack in
    let more : List ℕ = e.count ∷ e.depth ∷ words e.depth 0 e.stack in
    record {
      logged =
          sym (append_assoc p.output p.evicted more)
          ∙ (ap (λ (t : List ℕ). t ++ more) l.logged
              ∙ (ap (λ (k : ℕ). encode items ++ e.count ∷ k ∷ words e.depth 0 e.stack) (sym len)
                  ∙ sym (encode-append items (item e))));
      room = omega (arith, length-append p.evicted more, len);
      shallow = l.shallow;
    }

-- `Evict` adds the entry to the records, for a trace within its length.
pub evict-Logs :
    (items : List Item) (p : ProfileData) (e : Entry)
    → Logs items p
    → e.depth ≤ max_stack_depth
    → Logs (items ++ item e ∷ []) (evict p e)
      × ((evict p e).hash ≡ p.hash)
      × ((evict p e).out ≡ p.out)
unfolding evict
evict-Logs items p e l short =
    elim (Bool-cases (ltb buffer_length (length p.evicted + (e.depth + 2)))) [
      | inl full ↦
          let (l', empty, hash, out) = flush_evicted-Logs items p l in
          let empty' : length (flush_evicted p).evicted ≡ 0 = ap length empty in
          rw full (append-Logs items (flush_evicted p) e l' (omega arith), hash, out)
      | inr full ↦ rw full (
        append-Logs items p e l
            (ltb_false→le buffer_length (length p.evicted + (e.depth + 2)) full),
        refl,
        refl,
      )
    ]
