-- ===== src/Lock/Closing.antt =====
-- `mutex_close`: whom it wakes.
use gat_os_v.Base.{
  ℕ, ◌≡◌, true, false, refl, sym, ap, ◌∙◌, some, List, [], ◌∷◌, ◌++◌, update_self, length, pos,
  ◌==◌, arith,
}
use mathlib.Core.List.{append-nil, append_assoc, nil≢cons}
use gat_os_v.Base.Links.{last_of}
use gat_os_v.Process.{ready, Processes, Pointers}
use gat_os_v.Outcome.{goes_on}
use gat_os_v.Queue.{Heap, dequeue}
use gat_os_v.Queue.Contents.{IsQueue}
use gat_os_v.Queue.Order.{dequeue_round, destroy_queue_none}
use gat_os_v.Lock.{
  Lock, Memory, is_open, closed_state, unlocked_word, locked_word, drain_loop, lock_array,
  close_open, close_locked, mutex_close,
}

-- The loop ends with an empty queue, and keeps the process that it took out last.
drain_loop_lem :
    (q p : ℕ) (ns xs : List ℕ) (h : Heap)
    → IsQueue q ns xs h
    → let (last, h') = drain_loop (length ns) q p h in
      (last ≡ last_of p xs) × IsQueue q [] [] h' × (h'.freed ≡ h.freed ++ ns)
unfolding drain_loop
drain_loop_lem q p [] (x ∷ xs) h v = absurd (nil≢cons v.elems)
drain_loop_lem q p [] [] h v = (refl, v, sym (append-nil h.freed))
drain_loop_lem q p (n ∷ ns) [] h v = absurd (nil≢cons (sym v.elems))
drain_loop_lem q p (n ∷ ns) (x ∷ xs) h v =
    let (more, elem, rest, freed) = dequeue_round q n x ns xs h v in
    let (last, empty, all) = drain_loop_lem q (dequeue q h).0 ns xs (dequeue q h).1 rest in
    rw more (
      last ∙ ap (λ d. last_of d xs) elem,
      empty,
      all ∙ ap (λ l. l ++ ns) freed ∙ append_assoc h.freed (n ∷ []) ns,
    )

module _ (P : Processes) (X : Pointers P) where
  open P use {State, change_state}

  close_open_lem :
      (stray key : ℕ) (ns xs : List ℕ) (m : Memory P)
      → IsQueue (m.locks key).process_queue ns xs m.heap
      → let q = (m.locks key).process_queue in
        let m' = close_open P X stray (length ns) key m in
        (m'.sched ≡ change_state (some (X.pid_of m.sched (last_of stray xs))) ready m.sched)
        × ((m'.locks key).state ≡ closed_state)
        × (m'.heap.freed ≡ (m.heap.freed ++ ns) ++ q ∷ [])
  unfolding close_open
  close_open_lem stray key ns xs m v =
      let q = (m.locks key).process_queue in
      let (last, empty, freed) = drain_loop_lem q stray ns xs m.heap v in
      (
        ap (λ p. change_state (some (X.pid_of m.sched p)) ready m.sched) last,
        ap (λ (l : Lock). l.state) (update_self m.locks key _),
        destroy_queue_none (length ns) q (drain_loop (length ns) q stray m.heap).1 empty
            ∙ ap (λ l. l ++ q ∷ []) freed,
      )

  -- `mutex_close` of an open mutex, with the lock of the array free, closes it and gives back the
  -- pages of its queue, each once. Of the processes that wait only the last one becomes READY; when
  -- none waits, it is the one that the variable that is not set names.
  mutex_close_lem :
      (stray key : ℕ) (ns xs : List ℕ) (m : Memory P)
      → is_open key m.locks ≡ true
      → m.array_mutex ≡ unlocked_word
      → IsQueue (m.locks key).process_queue ns xs m.heap
      → (m' : Memory P) × (mutex_close P X stray (length ns) (pos key) m ≡ goes_on (pos 1, m'))
        × (m'.sched ≡ change_state (some (X.pid_of m.sched (last_of stray xs))) ready m.sched)
        × ((m'.locks key).state ≡ closed_state)
        × (m'.heap.freed ≡ (m.heap.freed ++ ns) ++ (m.locks key).process_queue ∷ [])
  unfolding mutex_close lock_array close_locked
  mutex_close_lem stray key ns xs m opened free v =
      let unlocked : (m.array_mutex == locked_word) ≡ false = ground (arith, free) in
      let m1 = record m { array_mutex = locked_word } in
      let (woken, closed, freed) = close_open_lem stray key ns xs m1 v in
      (close_open P X stray (length ns) key m1, rw (unlocked, opened) refl, woken, closed, freed)
