-- ===== src/Tests/Locks.antt =====
-- Kernel/queue.c and the mutexes with process queues, over three processes of which one is DEAD.
use gat_os_v.Base.{
  ℕ, ◌+◌, ◌<◌, ◌≡◌, true, false, arith, refl, some, List, [], ◌∷◌, ◌++◌, ◌==◌, if◌then◌else◌,
  length, pos, is_zero, zero, suc,
}
use gat_os_v.Process.{running, ready, blocked, dead, Processes, Pointers}
use gat_os_v.Scheduler.{Scheduler, change_process_state}
use gat_os_v.Scheduler.States.{scheduler, scheduler_pointers}
use gat_os_v.Strings.{strcmp}
use gat_os_v.Queue.{Heap, dequeue, is_empty}
use gat_os_v.Queue.Contents.{IsQueue}
use gat_os_v.Queue.Order.{dequeue_lem}
use gat_os_v.Lock.{Memory, is_open, locked_word, mutex_unlock}
use gat_os_v.Lock.HandOver.{mutex_unlock_wakes}
use gat_os_v.Tests.Ring.{slot, three}

-- The queue at 100 holds 20 and 30, in the nodes 200 and 300.
abbrev pub heap : Heap
heap = record {
  elem = λ a. if a == 200 then 20 else 30;
  next = λ a. if a == 200 then 300 else 0;
  first = λ q. if q == 100 then 200 else 0;
  last = λ q. if q == 100 then 300 else 0;
  freed = [];
}

abbrev pub nodes : List ℕ
nodes = 200 ∷ 300 ∷ []

pub heap-IsQueue : IsQueue 100 nodes (20 ∷ 30 ∷ []) heap
heap-IsQueue = record {
  used = λ e. ground (arith, e);
  links = (refl, (refl, refl));
  last_node = refl;
  elems = refl;
  distinct = ((λ e. ground (arith, e), tt), (tt, tt));
  nodes = (λ e. ground (arith, e), (λ e. ground (arith, e), tt));
}

dequeue_20 : (dequeue 100 heap).0 ≡ 20
unfolding dequeue is_empty
dequeue_20 = refl

dequeue_lem_example :
    let (elem, h') = dequeue 100 heap in
    (elem ≡ 20) × IsQueue 100 (300 ∷ []) (30 ∷ []) h' × (h'.freed ≡ heap.freed ++ 200 ∷ [])
dequeue_lem_example = dequeue_lem 100 200 20 (300 ∷ []) (30 ∷ []) heap heap-IsQueue

-- Process 2 died while it waited, and process 3 waits.
abbrev pub waiters : Scheduler
waiters = record three {
  slots = λ a.
      if a == 10 then slot 20 1 running else if a == 20 then slot 30 2 dead else slot 10 3 blocked;
}

abbrev pub os : Processes
os = scheduler 4096

abbrev pub pointers : Pointers os
pointers = scheduler_pointers 4096

abbrev m_name : List ℕ
m_name = 109 ∷ []

-- The mutexes 0 and 2 are open, and 0 is held.
abbrev pub memory : Memory os
memory = record {
  locks = λ i. record {
    name = if i == 2 then m_name else 110 ∷ [];
    locked = 0;
    state = if i == 0 then 1 else if i == 2 then 1 else 0;
    process_queue = 100;
  };
  array_mutex = 1;
  superlock = 1;
  heap = heap;
  sched = waiters;
}

open_0 : is_open 0 memory.locks ≡ true
unfolding is_open
open_0 = refl

closed_1 : is_open 1 memory.locks ≡ false
unfolding is_open
closed_1 = refl

open_2 : is_open 2 memory.locks ≡ true
unfolding is_open
open_2 = refl

mutex_unlock_wakes_example :
    (m' : Memory os) × (rest : List ℕ) × (mutex_unlock os pointers
        (length {A = ℕ} (20 ∷ []) + 1)
        (pos 0)
        memory
      ≡ some (pos 1, m'))
    × ((m'.locks 0).locked ≡ locked_word)
    × (m'.sched ≡ change_process_state (some 3) ready waiters)
    × IsQueue 100 rest [] m'.heap
mutex_unlock_wakes_example =
    mutex_unlock_wakes os pointers 0 0 30 (20 ∷ []) [] nodes memory open_0 heap-IsQueue (refl, tt)
      refl (λ e. ground (arith, e))

before_1 :
    (x : ℕ)
    → x < 1
    → (is_open x memory.locks ≡ true) × (is_zero (strcmp m_name (memory.locks x).name) ≡ false)
unfolding is_open strcmp
before_1 zero lt = (refl, refl)
before_1 (suc x) lt = absurd (omega (arith, lt))
