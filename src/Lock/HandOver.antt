-- ===== src/Lock/HandOver.antt =====
-- `mutex_lock` and `mutex_unlock`: who waits, and who is woken.
use gat_os_v.Base.{
  update, ℕ, zero, suc, ◌+◌, ◌≡◌, ◌≢◌, true, false, arith, refl, sym, ap, subst, ◌∙◌, some, List,
  [], ◌∷◌, ◌++◌, All, Fresh, update_self, length, ◌==◌, pos, ne→==-false,
}
use mathlib.Core.List.{append-nil}
use gat_os_v.Process.{ready, blocked, Processes, Pointers}
use gat_os_v.Outcome.{after_yield, goes_on}
use gat_os_v.Queue.{null, Heap, enqueue, dequeue}
use gat_os_v.Queue.Contents.{IsQueue}
use gat_os_v.Queue.Order.{IsQueue-nil, enqueue_lem, dequeue_front, dequeue_none}
use gat_os_v.Lock.{
  Lock, Memory, is_open, locked_word, unlocked_word, mutex_lock, wait_in_queue, unlock_loop,
  hand_over, mutex_unlock,
}

module _ (P : Processes) (X : Pointers P) where
  open P use {State, change_state, yield_process}

  abbrev queue_of : ℕ → Memory P → ℕ
  queue_of key m = (m.locks key).process_queue

  -- `mutex_lock` of an open mutex that is held puts the current process behind those that wait, blocks
  -- it and gives up the processor; the mutex stays held.
  mutex_lock_held :
      (page key : ℕ) (ns xs : List ℕ) (m : Memory P)
      → is_open key m.locks ≡ true
      → (m.locks key).locked ≡ locked_word
      → IsQueue (queue_of key m) ns xs m.heap
      → page ≢ null
      → Fresh page ns
      → let p = X.current_process m.sched in
        let h = enqueue (queue_of key m) p page m.heap in
        (mutex_lock P X page (pos key) m
          ≡ after_yield
              (yield_process (change_state (some (X.pid_of m.sched p)) blocked m.sched))
              (λ s. (pos 1, record m { heap = h; superlock = unlocked_word; sched = s })))
        × IsQueue (queue_of key m) (ns ++ page ∷ []) (xs ++ p ∷ []) h
  unfolding mutex_lock wait_in_queue
  mutex_lock_held page key ns xs m opened held v used fresh =
      let locked : ((m.locks key).locked == locked_word) ≡ true = ground (arith, held) in
      (
        rw (opened, locked) refl,
        enqueue_lem (queue_of key m) (X.current_process m.sched) page ns xs m.heap v used fresh,
      )

  module _ (fuel q : ℕ) (s : State) (h : Heap) where
    unlock_loop-dead :
        X.is_dead s (dequeue q h).0 ≡ true
        → unlock_loop P X (suc fuel) q s (dequeue q h)
          ≡ unlock_loop P X fuel q s (dequeue q (dequeue q h).1)
    unfolding unlock_loop
    unlock_loop-dead e = rw e refl

    unlock_loop-alive :
        X.is_dead s (dequeue q h).0 ≡ false
        → unlock_loop P X (suc fuel) q s (dequeue q h) ≡ some (dequeue q h)
    unfolding unlock_loop
    unlock_loop-alive e = rw e refl

  -- The loop passes over the processes that are DEAD.
  unlock_loop-skip :
      (q rounds fuel : ℕ) (dead xs ns : List ℕ) (s : State) (h : Heap)
      → IsQueue q ns (dead ++ xs) h
      → All (λ p. X.is_dead s p ≡ true) dead
      → rounds ≡ length dead + fuel
      → (h' : Heap) × (rest : List ℕ) × (unlock_loop P X rounds q s (dequeue q h)
          ≡ unlock_loop P X fuel q s (dequeue q h'))
        × IsQueue q rest xs h'
  unlock_loop-skip q rounds fuel [] xs ns s h v all e =
      (h, ns, ap (λ n. unlock_loop P X n q s (dequeue q h)) (e ∙ omega arith), v)
  unlock_loop-skip q zero fuel (d ∷ dead) xs ns s h v all e = absurd (omega (arith, e))
  unlock_loop-skip q (suc rounds) fuel (d ∷ dead) xs ns s h v (gone, all) e =
      let (elem, (ns', v')) = dequeue_front q d ns (dead ++ xs) h v in
      let (h', rest, same, v'') =
        unlock_loop-skip q rounds fuel dead xs ns' s (dequeue q h).1 v' all (omega (arith, e)) in
      (h', rest, unlock_loop-dead rounds q s h (ap (X.is_dead s) elem ∙ gone) ∙ same, v'')

  mutex_unlock-ended :
      (fuel key : ℕ) (m : Memory P) (p : ℕ) (h : Heap)
      → is_open key m.locks ≡ true
      → unlock_loop P X fuel (queue_of key m) m.sched (dequeue (queue_of key m) m.heap)
        ≡ some (p, h)
      → mutex_unlock P X fuel (pos key) m ≡ some (pos 1, hand_over P X key (p, h) m)
  unfolding mutex_unlock
  mutex_unlock-ended fuel key m p h opened e = rw (opened, e) refl

  -- `mutex_unlock` of an open mutex, where `p` is the first in its queue that is not DEAD, ends within
  -- as many rounds as there are DEAD ones before it, plus one: `p` is READY, the mutex is held on its
  -- behalf, and those behind it still wait, in their order.
  pub mutex_unlock_wakes :
      (key fuel p : ℕ) (dead xs ns : List ℕ) (m : Memory P)
      → is_open key m.locks ≡ true
      → IsQueue (queue_of key m) ns (dead ++ p ∷ xs) m.heap
      → All (λ d. X.is_dead m.sched d ≡ true) dead
      → X.is_dead m.sched p ≡ false
      → p ≢ null
      → (m' : Memory P) × (rest : List ℕ) × (mutex_unlock P X (length dead + suc fuel) (pos key) m
          ≡ some (pos 1, m'))
        × ((m'.locks key).locked ≡ locked_word)
        × (m'.sched ≡ change_state (some (X.pid_of m.sched p)) ready m.sched)
        × IsQueue (queue_of key m) rest xs m'.heap
  unfolding hand_over
  mutex_unlock_wakes key fuel p dead xs ns m opened v all alive used =
      let (h, ns', same, v') =
        unlock_loop-skip (queue_of key m) (length dead + suc fuel) (suc fuel) dead (p ∷ xs) ns
          m.sched m.heap v all refl in
      let (elem, (rest, v'')) = dequeue_front (queue_of key m) p ns' xs h v' in
      let h'' = (dequeue (queue_of key m) h).1 in
      let taken =
        same
        ∙ unlock_loop-alive fuel (queue_of key m) m.sched h (ap (X.is_dead m.sched) elem ∙ alive)
        ∙ ap (λ x. some (x, h'')) elem in
      (
        hand_over P X key (p, h'') m,
        rest,
        mutex_unlock-ended (length dead + suc fuel) key m p h'' opened taken,
        ap (λ (l : Lock). l.locked) (update_self m.locks key _) ∙ rw (ne→==-false p null used) refl,
        rw (ne→==-false p null used) refl,
        v'',
      )

  -- `mutex_unlock` of an open mutex for which only DEAD processes wait, if any, ends, where NULL does
  -- not read as DEAD: the queue is empty, the mutex is free, and no process changes.
  mutex_unlock_frees :
      (key fuel : ℕ) (dead ns : List ℕ) (m : Memory P)
      → is_open key m.locks ≡ true
      → IsQueue (queue_of key m) ns dead m.heap
      → All (λ d. X.is_dead m.sched d ≡ true) dead
      → X.is_dead m.sched null ≡ false
      → (m' : Memory P) × (mutex_unlock P X (length dead + suc fuel) (pos key) m ≡ some (pos 1, m'))
        × ((m'.locks key).locked ≡ unlocked_word)
        × (m'.sched ≡ m.sched)
        × IsQueue (queue_of key m) [] [] m'.heap
  unfolding hand_over
  mutex_unlock_frees key fuel dead ns m opened v all alive =
      let (h, ns', same, v') =
        unlock_loop-skip (queue_of key m) (length dead + suc fuel) (suc fuel) dead [] ns m.sched
          m.heap (subst (λ xs. IsQueue (queue_of key m) ns xs m.heap) (sym (append-nil dead)) v) all
          refl in
      let v0 = IsQueue-nil (queue_of key m) ns' h v' in
      let nothing = dequeue_none (queue_of key m) h v0 in
      let taken =
        same
        ∙ unlock_loop-alive fuel (queue_of key m) m.sched h
            (ap (λ (o : ℕ × Heap). X.is_dead m.sched o.0) nothing ∙ alive)
        ∙ ap some nothing in
      (
        hand_over P X key (null, h) m,
        mutex_unlock-ended (length dead + suc fuel) key m null h opened taken,
        ap (λ (l : Lock). l.locked) (update_self m.locks key _),
        refl,
        v0,
      )

  -- `mutex_lock` of an open mutex that is free takes it and goes on.
  pub mutex_lock_free :
      (page key : ℕ) (m : Memory P)
      → is_open key m.locks ≡ true
      → (m.locks key).locked ≡ unlocked_word
      → mutex_lock P X page (pos key) m
        ≡ goes_on (
          pos 1,
          record m {
            locks = update m.locks key (record (m.locks key) { locked = locked_word });
            superlock = unlocked_word;
          },
        )
  unfolding mutex_lock
  mutex_lock_free page key m opened free =
      let free_word : ((m.locks key).locked == locked_word) ≡ false = ground (arith, free) in
      rw (opened, free_word) refl

  -- `mutex_unlock` of an open mutex for which nobody waits.
  pub mutex_unlock_nobody :
      (fuel key : ℕ) (m : Memory P)
      → is_open key m.locks ≡ true
      → IsQueue (queue_of key m) [] [] m.heap
      → X.is_dead m.sched null ≡ false
      → mutex_unlock P X (suc fuel) (pos key) m ≡ some (pos 1, hand_over P X key (null, m.heap) m)
  mutex_unlock_nobody fuel key m opened v alive =
      let nothing = dequeue_none (queue_of key m) m.heap v in
      mutex_unlock-ended (suc fuel) key m null m.heap opened (
        unlock_loop-alive fuel (queue_of key m) m.sched m.heap
          (ap (λ (o : ℕ × Heap). X.is_dead m.sched o.0) nothing ∙ alive)
        ∙ ap some nothing)
