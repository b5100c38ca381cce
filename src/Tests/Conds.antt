-- ===== src/Tests/Conds.antt =====
-- Kernel/condVariable.c: two processes wait for a condition variable whose lock is free.
use gat_os_v.Base.{ℕ, ◌≡◌, false, arith, refl, List, [], ◌∷◌, pos, some}
use gat_os_v.Process.{ready}
use gat_os_v.Outcome.{goes_on}
use gat_os_v.Scheduler.{change_process_state, change_loop}
use gat_os_v.Queue.Contents.{IsQueue}
use gat_os_v.Lock.{is_open, unlocked_word}
use gat_os_v.Copy.{Bytes}
use gat_os_v.Text.{itoa, write_digits, digit_loop, swap_loop}
use gat_os_v.Cond.{
  Conds, is_cond_open, cond_signal, cond_broadcast, lock_name, bytes_at, cond_lock_identifier,
}
use gat_os_v.Cond.Signals.{IsIdle, cond_signal_lem}
use gat_os_v.Cond.Broadcast.{woken_all, cond_broadcast_lem}
use gat_os_v.Tests.Locks.{nodes, heap-IsQueue, waiters, os, pointers, memory}

abbrev conds : Conds os
conds = record {
  conds = λ i. record { name = 99 ∷ []; state = 1; lock_queue = pos 0; process_queue = 100 };
  array_lock = pos 5;
  memory = record memory {
    locks = λ i. record { name = 108 ∷ []; locked = 1; state = 1; process_queue = 110 };
  };
}

conds-IsIdle : IsIdle os pointers 3 0 conds
unfolding is_cond_open is_open
conds-IsIdle = record {
  opened = refl;
  lock_queue = refl;
  lock_open = refl;
  free = refl;
  nobody = record {
    used = λ e. ground (arith, e);
    links = refl;
    last_node = refl;
    elems = refl;
    distinct = tt;
    nodes = tt;
  };
  apart = λ e. ground (arith, e);
  alive = refl;
}

abbrev blank : Bytes
blank a = 0

name_of_12 : lock_name 12 0 blank ≡ 49 ∷ 50 ∷ cond_lock_identifier
unfolding lock_name bytes_at itoa write_digits digit_loop swap_loop
name_of_12 = refl

cond_signal_lem_example :
    (c : Conds os) × (rest : List ℕ) × (cond_signal os pointers 1 600 3 conds ≡ goes_on (pos 1, c))
    × (c.memory.sched ≡ change_process_state (some 2) ready waiters)
    × IsQueue 100 rest (30 ∷ []) c.memory.heap
    × ((c.memory.locks 0).locked ≡ unlocked_word)
cond_signal_lem_example =
    cond_signal_lem os pointers 0 600 3 0 20 nodes (30 ∷ []) conds conds-IsIdle heap-IsQueue
      (λ e. ground (arith, e))

nobody_dead : pointers.is_dead (woken_all os pointers (20 ∷ 30 ∷ []) waiters) 0 ≡ false
unfolding woken_all change_process_state change_loop
nobody_dead = refl

cond_broadcast_lem_example :
    (c : Conds os) × (cond_broadcast os pointers 2 600 3 conds ≡ goes_on (pos 1, c))
    × (c.memory.sched ≡ woken_all os pointers (20 ∷ 30 ∷ []) waiters)
    × IsQueue 100 [] [] c.memory.heap
    × ((c.memory.locks 0).locked ≡ unlocked_word)
cond_broadcast_lem_example =
    cond_broadcast_lem os pointers 1 600 3 0 nodes (20 ∷ 30 ∷ []) conds conds-IsIdle heap-IsQueue
      (omega arith) nobody_dead
