-- ===== src/DebugAllocation/Drain.antt =====
-- `ProcessFreeQueue`: the order in which freed blocks leave the queue, and the bound on what stays.
use mathlib.Core.Path.{subst}
use mathlib.Core.List.{append_assoc, append-nil}
use gperftools.Base.{
  ℕ, zero, suc, ◌+◌, ◌-◌, ◌%◌, ◌^◌, ◌<◌, ◌≡◌, refl, ap, sym, ◌∙◌, inl, inr, true, false, ◌||◌,
  Option, none, some, List, [], ◌∷◌, ◌++◌, length, length-append, ltb, ◌==◌, ◌>>=◌, arith,
  Bool-cases,
}
use gperftools.DebugAllocation.{
  MallocBlockQueueEntry, entry_size, FreeQueue, full, push, queue_size, Memory, Freed, queue_of,
  free_entries, max_entries, drain, process_free_queue,
}
use gperftools.DebugAllocation.Queue.{
  contents, InRange, popped, popped-InRange, push-InRange, size-popped, contents-popped,
  contents-push, pop_lem, full-size, kept, kept-append, items,
}
use gperftools.DebugAllocation.Batches.{free_entries_lem, DrainsTo, drain-stops, batch-then}

module _ (mem : Memory) (max_free_queue_size : ℕ) where
  -- The loop goes on only while the queue holds an entry.
  some_entry :
      (fq : FreeQueue)
      → InRange fq
      → (ltb max_free_queue_size (kept (contents fq)) || full fq) ≡ true
      → 0 < queue_size fq
  some_entry fq r goes = elim (Bool-cases (ltb 0 (queue_size fq))) [
    | inl e ↦ ground arith
    | inr e ↦
        let none_ : queue_size fq ≡ 0 = ground arith in
        let empty : kept (contents fq) ≡ 0 =
          unfold contents kept items in ap (λ n. kept (items fq.q fq.q_back n)) none_ in
        elim (Bool-cases (full fq)) [
          | inl f ↦ absurd (let g = full-size fq r f in omega arith)
          | inr f ↦ absurd (ground arith)
        ]
  ]

  drain_lem :
      (fuel : ℕ) (fq : FreeQueue) (entries : List MallocBlockQueueEntry) (freed : List ℕ)
      → InRange fq
      → kept (contents fq) < 2 ^ 64
      → queue_size fq < fuel
      → length entries < max_entries
      → DrainsTo mem max_free_queue_size
          (entries ++ contents fq)
          freed
          (drain mem max_free_queue_size fuel fq (kept (contents fq)) entries freed)
  unfolding drain
  drain_lem zero fq entries freed r small enough few = absurd (omega arith)
  drain_lem (suc fuel) fq entries freed r small enough few =
      elim (Bool-cases (ltb max_free_queue_size (kept (contents fq)) || full fq)) [
        | inr e ↦
            rw (drain, e)
              (drain-stops mem max_free_queue_size fq entries freed r (ground arith) (ground arith)
                (free_entries mem entries freed) (free_entries_lem mem entries freed))
        | inl e ↦
            let some_ = some_entry fq r e in
            let first = fq.q fq.q_back in
            let split = contents-popped fq r some_ in
            let fewer = size-popped fq r some_ in
            let sum : kept (contents fq) ≡ first.size + entry_size + kept (contents (popped fq)) =
              ap kept split ∙ (unfold kept in refl) in
            let total : (kept (contents fq) + 2 ^ 64 - (first.size + entry_size) % 2 ^ 64) % 2 ^ 64
                ≡ kept (contents (popped fq)) =
              omega arith in
            let few' : ltb (length entries) max_entries ≡ true = ground arith in
            let longer = length-append entries (first ∷ []) in
            let regroup : (entries ++ (first ∷ [])) ++ contents (popped fq)
                ≡ entries ++ contents fq =
              append_assoc entries (first ∷ []) (contents (popped fq))
              ∙ ap (λ t. entries ++ t) (sym split) in
            let r' = popped-InRange fq r in
            rw (drain, e, few', pop_lem fq r some_, ◌>>=◌)
              (elim (Bool-cases (length (entries ++ (first ∷ [])) == max_entries)) [
                | inl z ↦
                    rw (z, total)
                      (subst
                        (λ p. DrainsTo mem max_free_queue_size p freed (
                          free_entries mem (entries ++ (first ∷ [])) freed >>= λ freed'.
                          drain mem max_free_queue_size fuel (popped fq)
                            (kept (contents (popped fq))) [] freed'))
                        regroup
                        (batch-then mem max_free_queue_size (entries ++ (first ∷ []))
                          (contents (popped fq)) freed
                          (free_entries mem (entries ++ (first ∷ [])) freed) _
                          (free_entries_lem mem (entries ++ (first ∷ [])) freed)
                          (λ freed'.
                            drain_lem fuel (popped fq) [] freed' r' (omega arith) (omega arith)
                              (omega arith))))
                | inr z ↦
                    rw (z, total)
                      (subst
                        (λ p. DrainsTo mem max_free_queue_size p freed (
                          drain mem max_free_queue_size fuel (popped fq)
                            (kept (contents (popped fq))) (entries ++ (first ∷ [])) freed))
                        regroup
                        (drain_lem fuel (popped fq) (entries ++ (first ∷ [])) freed r' (omega arith)
                          (omega arith) (ground arith)))
              ])
      ]

  -- The state between two runs: an empty queue stands for one not made yet.
  pub record IsQueue (st : Freed) (fq : FreeQueue) : Type 0 where
    pub range : InRange fq
    pub room : full fq ≡ false
    pub total : st.free_queue_size ≡ kept (contents fq)

  unfoldable pub entry_of : Option MallocBlockQueueEntry → List MallocBlockQueueEntry
  entry_of none = []
  entry_of (some e) = e ∷ []

  -- Freeing a block, or at the end of the program none, on a queue with room and an exact count of
  -- the bytes that it keeps, of which there are fewer than 2^64 with those of the block: the run
  -- ends, and no check on the queue itself fails. Either a block of the queue or the new one was
  -- written after it was freed, and the program may end with that message; or the oldest blocks are
  -- freed in the order in which they came, none of them written, the others stay in order, and the
  -- queue again has room, an exact count, and no more bytes than the limit.
  pub process_free_queue_lem :
      (fresh : ℕ → MallocBlockQueueEntry) (new_entry : Option MallocBlockQueueEntry) (st : Freed)
      → IsQueue st (queue_of fresh st.free_queue)
      → kept (contents (queue_of fresh st.free_queue) ++ entry_of new_entry) < 2 ^ 64
      → DrainsTo mem max_free_queue_size
          (contents (queue_of fresh st.free_queue) ++ entry_of new_entry)
          st.freed
          (process_free_queue mem max_free_queue_size fresh new_entry st)
  unfolding process_free_queue entry_of
  process_free_queue_lem fresh none st q small =
      let fq = queue_of fresh st.free_queue in
      let same = append-nil (contents fq) in
      let small' : kept (contents fq) < 2 ^ 64 = omega (arith, ap kept same) in
      rw (q.room, q.total, same)
        (drain_lem (suc (queue_size fq)) fq [] st.freed q.range small' (omega arith) (omega arith))
  process_free_queue_lem fresh (some e) st q small =
      let fq = queue_of fresh st.free_queue in
      let pushed = contents-push fq e q.range q.room in
      let sum : kept (contents fq ++ (e ∷ [])) ≡ kept (contents fq) + (e.size + entry_size) =
        kept-append (contents fq) (e ∷ []) ∙ (unfold kept in omega arith) in
      let total : (kept (contents fq) + e.size + entry_size) % 2 ^ 64
          ≡ kept (contents (push fq e)) =
        omega (arith, ap kept pushed) in
      rw (q.room, q.total, total, sym pushed)
        (drain_lem (suc (queue_size (push fq e))) (push fq e) [] st.freed
          (push-InRange fq e q.range) (omega (arith, ap kept pushed)) (omega arith) (omega arith))
