-- ===== src/Cond/Broadcast.antt =====
-- `cond_broadcast` with its lock free.
use gat_os_v.Base.{
  ℕ, zero, suc, ◌≤◌, ◌≡◌, ◌≢◌, true, false, arith, refl, sym, ap, subst, ◌∙◌, some, List, [], ◌∷◌,
  length, update_self, pos,
}
use mathlib.Core.List.{nil≢cons}
use gat_os_v.Process.{ready, Processes, Pointers}
use gat_os_v.Outcome.{goes_on}
use gat_os_v.Queue.{null, dequeue}
use gat_os_v.Queue.Contents.{IsQueue}
use gat_os_v.Queue.Order.{dequeue_round, dequeue-nil_other, is_empty-nil}
use gat_os_v.Lock.{Lock, is_open, unlocked_word, hand_over}
use gat_os_v.Cond.{Conds, wake, wake_loop, cond_broadcast}
use gat_os_v.Cond.Signals.{
  IsIdle, is_open-taken, taken, released, locking-taken, unlocking-released,
}

module _ (P : Processes) (X : Pointers P) where
  open P use {State, change_state}

  -- One process after the other made READY.
  unfoldable pub woken_all : List ℕ → State → State
  woken_all [] s = s
  woken_all (p ∷ ps) s = woken_all ps (change_state (some (X.pid_of s p)) ready s)

  -- What the loop leaves of the queue at `q`, of the one at `other`, and of the rest.
  record Woken (q other : ℕ) (ps : List ℕ) (c c' : Conds P) : Type 0 where
    sched : c'.memory.sched ≡ woken_all ps c.memory.sched
    emptied : IsQueue q [] [] c'.memory.heap
    nobody : IsQueue other [] [] c'.memory.heap
    locks : c'.memory.locks ≡ c.memory.locks

  wake_loop-Woken :
      (fuel q other : ℕ) (ns ps : List ℕ) (c : Conds P)
      → IsQueue q ns ps c.memory.heap
      → q ≢ other
      → IsQueue other [] [] c.memory.heap
      → length ns ≤ fuel
      → Woken q other ps c (wake_loop P X fuel q c)
  unfolding wake_loop woken_all
  wake_loop-Woken fuel q other (n ∷ ns) [] c v apart o le = absurd (nil≢cons (sym v.elems))
  wake_loop-Woken fuel q other [] (p ∷ ps) c v apart o le = absurd (nil≢cons v.elems)
  wake_loop-Woken zero q other [] [] c v apart o le = record {
    sched = refl;
    emptied = v;
    nobody = o;
    locks = refl;
  }
  wake_loop-Woken (suc fuel) q other [] [] c v apart o le =
      rw (is_empty-nil q [] c.memory.heap v)
        (record { sched = refl; emptied = v; nobody = o; locks = refl })
  wake_loop-Woken zero q other (n ∷ ns) (p ∷ ps) c v apart o le = absurd (omega (arith, le))
  wake_loop-Woken (suc fuel) q other (n ∷ ns) (p ∷ ps) c v apart o le =
      let (more, elem, rest, freed) = dequeue_round q n p ns ps c.memory.heap v in
      let first = (dequeue q c.memory.heap).0 in
      let c1 =
        wake P X first
          (record c { memory = record c.memory { heap = (dequeue q c.memory.heap).1 } }) in
      let w =
        wake_loop-Woken fuel q other ns ps c1 rest apart
          (dequeue-nil_other q other c.memory.heap apart o) (omega (arith, le)) in
      rw more (record {
        sched =
            w.sched
            ∙ ap
                (λ x.
                  woken_all ps
                    (change_state (some (X.pid_of c.memory.sched x)) ready c.memory.sched))
                elem;
        emptied = w.emptied;
        nobody = w.nobody;
        locks = w.locks;
      })

  -- `cond_broadcast` of a condition variable whose lock is free ends: all that waited are READY, one
  -- after the other, the queue is empty, and the lock is free again, where NULL does not read as DEAD.
  pub cond_broadcast_lem :
      (fuel page key k : ℕ) (ns ps : List ℕ) (c : Conds P)
      → IsIdle P X key k c
      → IsQueue (c.conds key).process_queue ns ps c.memory.heap
      → length ns ≤ suc fuel
      → X.is_dead (woken_all ps c.memory.sched) null ≡ false
      → (c' : Conds P) × (cond_broadcast P X (suc fuel) page key c ≡ goes_on (pos 1, c'))
        × (c'.memory.sched ≡ woken_all ps c.memory.sched)
        × IsQueue (c.conds key).process_queue [] [] c'.memory.heap
        × ((c'.memory.locks k).locked ≡ unlocked_word)
  unfolding cond_broadcast hand_over
  cond_broadcast_lem fuel page key k ns ps c v queue le alive =
      let q = (c.conds key).process_queue in
      let lq = (c.memory.locks k).process_queue in
      let c1 : Conds P = record c { memory = taken P X k c.memory } in
      let c2 = wake_loop P X (suc fuel) q c1 in
      let w = wake_loop-Woken (suc fuel) q lq ns ps c1 queue v.apart v.nobody le in
      let opened : is_open k c2.memory.locks ≡ true =
        ap (is_open k) w.locks ∙ is_open-taken k c.memory.locks v.lock_open in
      let same : lq ≡ (c2.memory.locks k).process_queue =
        ap (λ (l : Lock). l.process_queue) (sym (update_self c.memory.locks k _))
        ∙ ap (λ (ls : ℕ → Lock). (ls k).process_queue) (sym w.locks) in
      let nobody = subst (λ a. IsQueue a [] [] c2.memory.heap) same w.nobody in
      (
        released P X k c2,
        rw
            (
              v.opened,
              locking-taken P X page key k c v,
              unlocking-released P X fuel k (c.conds key).lock_queue c2 v.lock_queue opened nobody
                  (ap (λ s. X.is_dead s null) w.sched ∙ alive),
            )
            refl,
        w.sched,
        w.emptied,
        ap (λ (l : Lock). l.locked) (update_self c2.memory.locks k _),
      )
