-- ===== src/DebugAllocation/Batches.antt =====
-- The batches of entries that `ProcessFreeQueue` frees, and what a run of it comes to.
use mathlib.Core.List.{append_assoc, append-nil, map-append}
use gperftools.Base.{
  ℕ, ◌≤◌, ◌≡◌, refl, ap, sym, ◌∙◌, Bool, true, false, ◌&&◌, some, List, [], ◌∷◌, ◌++◌, map, Outcome,
  ok, crash, out_of_fuel, ◌>>=◌, ◌>>◌, check, Decides, arith,
}
use gperftools.DebugAllocation.{MallocBlockQueueEntry, FreeQueue, full, Memory, Freed, free_entries}
use gperftools.DebugAllocation.Queue.{
  contents, InRange, kept, intact, check_for_dangling_writes_lem,
}

-- The blocks of entries, in order.
unfoldable pub blocks : List MallocBlockQueueEntry → List ℕ
blocks es = map (λ e. e.block) es

module _ (mem : Memory) where
  unfoldable pub all_intact : List MallocBlockQueueEntry → Bool
  all_intact [] = true
  all_intact (e ∷ es) = intact mem e && all_intact es

  pub all_intact-append :
      (xs ys : List MallocBlockQueueEntry)
      → all_intact (xs ++ ys) ≡ (all_intact xs && all_intact ys)
  unfolding all_intact
  all_intact-append [] ys = refl
  all_intact-append (x ∷ xs) ys = rw (all_intact-append xs ys) ground arith

  -- The result of `free_entries`: all are freed, or one of them was written.
  unfoldable pub FreesAll : List MallocBlockQueueEntry → List ℕ → Outcome (List ℕ) → Type 0
  FreesAll es freed o =
      Decides (λ freed'. (freed' ≡ freed ++ blocks es) × (all_intact es ≡ true))
        (all_intact es ≡ false) o

  pub free_entries_lem :
      (es : List MallocBlockQueueEntry) (freed : List ℕ)
      → FreesAll es freed (free_entries mem es freed)
  unfolding free_entries FreesAll all_intact blocks
  free_entries_lem [] freed = (sym (append-nil freed), refl)
  free_entries_lem (e ∷ es) freed = rw (check_for_dangling_writes_lem mem e) (
      go (intact mem e) (free_entries mem es (freed ++ (e.block ∷ [])))
        (free_entries_lem es (freed ++ (e.block ∷ []))))
    where
      go :
          (b : Bool) (o : Outcome (List ℕ))
          → FreesAll es (freed ++ (e.block ∷ [])) o
          → Decides
              (λ freed'. (freed' ≡ freed ++ blocks (e ∷ es)) × ((b && all_intact es) ≡ true))
              ((b && all_intact es) ≡ false)
              (check b >> o)
      go true (ok fs) (h, k) = (h ∙ append_assoc freed (e.block ∷ []) (blocks es), k)
      go true crash h = h
      go true out_of_fuel h = absurd h
      go false o h = refl

  module _ (max_free_queue_size : ℕ) where
    -- The queue after a run that was to pass `pending`: the blocks that left it are the oldest, and
    -- were freed in order and unwritten; the rest is within the limit and leaves room.
    pub record Drained (pending : List MallocBlockQueueEntry) (freed : List ℕ) (st : Freed)
        : Type 0 where
      pub queue : FreeQueue
      pub is_queue : st.free_queue ≡ some queue
      pub range : InRange queue
      pub room : full queue ≡ false
      pub total : st.free_queue_size ≡ kept (contents queue)
      pub low : st.free_queue_size ≤ max_free_queue_size
      pub taken : List MallocBlockQueueEntry
      pub in_order : taken ++ contents queue ≡ pending
      pub released : st.freed ≡ freed ++ blocks taken
      pub checked : all_intact taken ≡ true

    -- A crash is only for a block that was written.
    pub DrainsTo : List MallocBlockQueueEntry → List ℕ → Outcome Freed → Type 0
    DrainsTo pending freed o =
        Decides (λ st. Drained pending freed st) (all_intact pending ≡ false) o

    pub drain-stops :
        (fq : FreeQueue) (entries : List MallocBlockQueueEntry) (freed : List ℕ)
        → InRange fq
        → full fq ≡ false
        → kept (contents fq) ≤ max_free_queue_size
        → (o : Outcome (List ℕ)) → FreesAll entries freed o
        → DrainsTo (entries ++ contents fq) freed (
            o >>= λ freed'.
            ok (record {
              free_queue = some fq;
              free_queue_size = kept (contents fq);
              freed = freed';
            }))
    unfolding DrainsTo FreesAll
    drain-stops fq entries freed r room low (ok freed') (h, k) = record {
      queue = fq;
      is_queue = refl;
      range = r;
      room = room;
      total = refl;
      low = low;
      taken = entries;
      in_order = refl;
      released = h;
      checked = k;
    }
    drain-stops fq entries freed r room low crash h =
        rw (all_intact-append entries (contents fq), h) refl
    drain-stops fq entries freed r room low out_of_fuel h = absurd h

    -- A batch was freed, and the rest of the loop drains what is left.
    pub batch-then :
        (es rest : List MallocBlockQueueEntry) (freed : List ℕ) (o : Outcome (List ℕ))
        (f : List ℕ → Outcome Freed)
        → FreesAll es freed o
        → ((freed' : List ℕ) → DrainsTo rest freed' (f freed'))
        → DrainsTo (es ++ rest) freed (o >>= f)
    unfolding DrainsTo FreesAll blocks
    batch-then es rest freed (ok freed') f (h, k) d = go (f freed') (d freed')
      where
        go : (o : Outcome Freed) → DrainsTo rest freed' o → DrainsTo (es ++ rest) freed o
        go (ok st) dr = record {
          queue = dr.queue;
          is_queue = dr.is_queue;
          range = dr.range;
          room = dr.room;
          total = dr.total;
          low = dr.low;
          taken = es ++ dr.taken;
          in_order = append_assoc es dr.taken (contents dr.queue) ∙ ap (λ t. es ++ t) dr.in_order;
          released =
              dr.released
              ∙ ap (λ t. t ++ blocks dr.taken) h
              ∙ append_assoc freed (blocks es) (blocks dr.taken)
              ∙ ap (λ t. freed ++ t) (sym (map-append (λ e. e.block) es dr.taken));
          checked = rw (all_intact-append es dr.taken, k) dr.checked;
        }
        go crash w = rw (all_intact-append es rest, k) w
        go out_of_fuel w = absurd w
    batch-then es rest freed crash f h d = rw (all_intact-append es rest, h) refl
    batch-then es rest freed out_of_fuel f h d = absurd h
