-- ===== src/Cond/Signals.antt =====
-- `cond_signal` with its lock free.
use gat_os_v.Base.{
  ℕ, suc, ◌≡◌, ◌≢◌, true, false, ◌&&◌, refl, sym, ap, subst, ◌∙◌, some, List, [], ◌∷◌, update,
  update_self, ltb, ◌==◌, ℤ, pos, ne→==-false,
}
use gat_os_v.Process.{ready, Processes, Pointers}
use gat_os_v.Outcome.{goes_on, map_outcome}
use gat_os_v.Queue.{null, dequeue}
use gat_os_v.Queue.Contents.{IsQueue}
use gat_os_v.Queue.Order.{dequeue_front, dequeue-nil_other, is_empty-front}
use gat_os_v.Lock.{
  Lock, Memory, is_open, max_mutexes, open_state, locked_word, unlocked_word, mutex_lock, hand_over,
}
use gat_os_v.Lock.HandOver.{mutex_lock_free, mutex_unlock_nobody}
use gat_os_v.Cond.{
  Conds, is_cond_open, locking, unlocking, take_first, sync_dequeue, wake, cond_signal,
}

-- The condition variable is open, and its lock, the mutex `k`, is open, free, waited for by nobody, and
-- has a queue of its own. `mutex_unlock` reads the state of the process that it takes out of the empty
-- queue, which is at NULL: what lies there does not read as DEAD, or it would go on for ever.
pub record IsIdle (P : Processes) (X : Pointers P) (key k : ℕ) (c : Conds P) : Type 0 where
  pub opened : is_cond_open key c.conds ≡ true
  pub lock_queue : (c.conds key).lock_queue ≡ pos k
  pub lock_open : is_open k c.memory.locks ≡ true
  pub free : (c.memory.locks k).locked ≡ unlocked_word
  pub nobody : IsQueue (c.memory.locks k).process_queue [] [] c.memory.heap
  pub apart : (c.conds key).process_queue ≢ (c.memory.locks k).process_queue
  pub alive : X.is_dead c.memory.sched null ≡ false

-- The word of a lock has no part in whether it is open.
pub is_open-taken :
    (k : ℕ) (locks : ℕ → Lock)
    → is_open k locks ≡ true
    → is_open k (update locks k (record (locks k) { locked = locked_word })) ≡ true
unfolding is_open
is_open-taken k locks o =
    ap (λ (l : Lock). ltb k max_mutexes && l.state == open_state) (update_self locks k _) ∙ o

module _ (P : Processes) (X : Pointers P) where
  open P use {change_state}

  -- With the lock taken.
  abbrev pub taken : ℕ → Memory P → Memory P
  taken k m = record m {
    locks = update m.locks k (record (m.locks k) { locked = locked_word });
    superlock = unlocked_word;
  }

  pub locking-taken :
      (page key k : ℕ) (c : Conds P)
      → IsIdle P X key k c
      → locking P X page (c.conds key).lock_queue c
        ≡ goes_on (record c { memory = taken k c.memory })
  unfolding locking
  locking-taken page key k c v =
      ap
        (λ l.
          map_outcome (λ (o : ℤ × Memory P). record c { memory = o.1 })
            (mutex_lock P X page l c.memory))
        v.lock_queue
      ∙ ap (map_outcome (λ (o : ℤ × Memory P). record c { memory = o.1 }))
          (mutex_lock_free P X page k c.memory v.lock_open v.free)

  -- With nobody waiting, the lock of the queue given back.
  abbrev pub released : ℕ → Conds P → Conds P
  released k c = record c { memory = hand_over P X k (null, c.memory.heap) c.memory }

  pub unlocking-released :
      (fuel k : ℕ) (l : ℤ) (c : Conds P)
      → l ≡ pos k
      → is_open k c.memory.locks ≡ true
      → IsQueue (c.memory.locks k).process_queue [] [] c.memory.heap
      → X.is_dead c.memory.sched null ≡ false
      → unlocking P X (suc fuel) l c ≡ goes_on (released k c)
  unfolding unlocking
  unlocking-released fuel k l c e o v alive =
      ap (λ l. unlocking P X (suc fuel) l c) e
      ∙ rw (mutex_unlock_nobody P X fuel k c.memory o v alive) refl

  -- With the first one taken out of the queue `q`.
  abbrev shorter : ℕ → ℕ → Conds P → Conds P
  shorter q k c = record c {
    memory = record (taken k c.memory) { heap = (dequeue q c.memory.heap).1 };
  }

  take_first-shorter :
      (q k p : ℕ) (ns ps : List ℕ) (c : Conds P)
      → IsQueue q ns (p ∷ ps) c.memory.heap
      → take_first P X q (record c { memory = taken k c.memory }) ≡ (p, shorter q k c)
  unfolding take_first
  take_first-shorter q k p ns ps c v =
      rw (is_empty-front q p ns ps c.memory.heap v)
        (ap (λ x. (x, shorter q k c)) (dequeue_front q p ns ps c.memory.heap v).0)

  -- The lock is still open, and nobody waits for it, where only its word and another queue change.
  module _ (q key k : ℕ) (c : Conds P) (v : IsIdle P X key k c) where
    is_open-shorter : is_open k (shorter q k c).memory.locks ≡ true
    is_open-shorter = is_open-taken k c.memory.locks v.lock_open

    nobody-shorter :
        q ≢ (c.memory.locks k).process_queue
        → IsQueue ((shorter q k c).memory.locks k).process_queue [] [] (shorter q k c).memory.heap
    nobody-shorter apart =
        subst (λ (l : Lock). IsQueue l.process_queue [] [] (dequeue q c.memory.heap).1)
          (sym (update_self c.memory.locks k _))
          (dequeue-nil_other q (c.memory.locks k).process_queue c.memory.heap apart v.nobody)

  sync_dequeue-released :
      (fuel page key k p : ℕ) (ns ps : List ℕ) (c : Conds P)
      → IsIdle P X key k c
      → IsQueue (c.conds key).process_queue ns (p ∷ ps) c.memory.heap
      → let q = (c.conds key).process_queue in
        sync_dequeue P X (suc fuel) page key c ≡ goes_on (p, released k (shorter q k c))
  unfolding sync_dequeue
  sync_dequeue-released fuel page key k p ns ps c v queue =
      let q = (c.conds key).process_queue in
      rw
        (
          locking-taken page key k c v,
          take_first-shorter q k p ns ps c queue,
          unlocking-released fuel k (c.conds key).lock_queue (shorter q k c) v.lock_queue
              (is_open-shorter q key k c v) (nobody-shorter q key k c v v.apart) v.alive,
        )
        refl

  -- `cond_signal` of an open condition variable with somebody waiting ends, where its lock is open, free,
  -- waited for by nobody, and has a queue of its own, and where NULL, whose state `mutex_unlock` reads,
  -- does not read as a DEAD process: the one that has waited longest is READY and no longer in the
  -- queue, the others wait in their order, and the lock is free again.
  pub cond_signal_lem :
      (fuel page key k p : ℕ) (ns ps : List ℕ) (c : Conds P)
      → IsIdle P X key k c
      → IsQueue (c.conds key).process_queue ns (p ∷ ps) c.memory.heap
      → p ≢ null
      → (c' : Conds P) × (rest : List ℕ) × (cond_signal P X (suc fuel) page key c
          ≡ goes_on (pos 1, c'))
        × (c'.memory.sched ≡ change_state (some (X.pid_of c.memory.sched p)) ready c.memory.sched)
        × IsQueue (c.conds key).process_queue rest ps c'.memory.heap
        × ((c'.memory.locks k).locked ≡ unlocked_word)
  unfolding cond_signal hand_over
  cond_signal_lem fuel page key k p ns ps c v queue used =
      let q = (c.conds key).process_queue in
      let (elem, (rest, left)) = dequeue_front q p ns ps c.memory.heap queue in
      (
        wake P X p (released k (shorter q k c)),
        rest,
        rw
            (
              v.opened,
              sync_dequeue-released fuel page key k p ns ps c v queue,
              ne→==-false p null used,
            )
            refl,
        refl,
        left,
        ap (λ (l : Lock). l.locked) (update_self (shorter q k c).memory.locks k _),
      )
