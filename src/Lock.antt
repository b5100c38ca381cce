-- ===== src/Lock.antt =====
-- Kernel/mutex.c up to the old implementation: mutexes with a queue of processes. A name is the list
-- of its bytes, and has room for them. `array_mutex` and `superlock` are locks of one word.
pub mod HandOver
pub mod Names
pub mod Closing
use gat_os_v.Base.{
  ℕ, zero, suc, ◌+◌, Bool, true, false, ◌&&◌, Option, none, some, List, ◌==◌, ltb, if◌then◌else◌,
  update, ℤ, pos, negsuc, is_zero,
}
use gat_os_v.Process.{ready, blocked, Processes, Pointers}
use gat_os_v.Outcome.{Outcome, goes_on, ◌>>=◌, after_yield, map_outcome, spins}
use gat_os_v.Strings.{strcmp}
use gat_os_v.Queue.{null, Heap, create_queue, is_empty, enqueue, dequeue, destroy_queue}

abbrev pub max_mutexes : ℕ
max_mutexes = 128

abbrev pub open_state : ℕ
open_state = 1

abbrev pub closed_state : ℕ
closed_state = 0

abbrev pub locked_word : ℕ
locked_word = 0

abbrev pub unlocked_word : ℕ
unlocked_word = 1

abbrev pub not_open_error : ℤ
not_open_error = negsuc 0

abbrev pub max_mutex_open_error : ℤ
max_mutex_open_error = negsuc 1

-- `mutex_type`
pub record Lock : Type 0 where
  pub name : List ℕ
  pub locked : ℕ
  pub state : ℕ
  pub process_queue : ℕ

-- `is_open` of a key that is not negative
unfoldable pub is_open : ℕ → (ℕ → Lock) → Bool
is_open key locks = ltb key max_mutexes && (locks key).state == open_state

-- How the loop of `mutex_open` ends: at a mutex of that name, at one that is closed, or behind all.
pub data Place : Type 0 where
  found vacant : ℕ → Place
  exhausted : Place

unfoldable pub open_loop : ℕ → ℕ → List ℕ → (ℕ → Lock) → Place
unfolding is_open
open_loop zero k name locks = exhausted
open_loop (suc rounds) k name locks =
    let rest = open_loop rounds (k + 1) name locks in
    if is_open k locks
    then (if is_zero (strcmp name (locks k).name) then found k else rest)
    else vacant k

-- The `while` of `mutex_close`, on fuel: the last process taken out, `p` where there is none.
unfoldable pub drain_loop : ℕ → ℕ → ℕ → Heap → ℕ × Heap
drain_loop zero q p h = (p, h)
drain_loop (suc fuel) q p h =
    let rest = drain_loop fuel q (dequeue q h).0 (dequeue q h).1 in
    if is_empty q h then (p, h) else rest

-- The words of the module, the pages of the queues, and the processes.
pub record Memory (P : Processes) : Type 0 where
  pub locks : ℕ → Lock
  pub array_mutex : ℕ
  pub superlock : ℕ
  pub heap : Heap
  pub sched : P.State

module _ (P : Processes) (X : Pointers P) where
  open P use {State, change_state, yield_process}

  -- `lock_array`: `_unlocked` exchanges the word with LOCKED.
  unfoldable pub lock_array : Memory P → Outcome (Memory P)
  lock_array m =
      if m.array_mutex == locked_word
      then after_yield (yield_process m.sched) (λ s. record m { sched = s })
      else goes_on (record m { array_mutex = locked_word })

  abbrev pub unlock_array : Memory P → Memory P
  unlock_array m = record m { array_mutex = unlocked_word }

  -- `create_new_mutex`, with the page for its queue
  abbrev pub create_new_mutex : List ℕ → ℕ → Lock
  create_new_mutex name page = record {
    name = name;
    locked = unlocked_word;
    state = open_state;
    process_queue = page;
  }

  -- `mutex_open` behind its loop
  unfoldable pub open_at : Place → List ℕ → ℕ → Memory P → ℤ × Memory P
  unfolding create_queue
  open_at (found k) name page m = (pos k, unlock_array m)
  open_at exhausted name page m = (max_mutex_open_error, unlock_array m)
  open_at (vacant k) name page m = (
    pos k,
    unlock_array (record m {
      locks = update m.locks k (create_new_mutex name page);
      heap = create_queue page m.heap;
    }),
  )

  -- `mutex_open` behind its `lock_array`
  unfoldable pub open_locked : List ℕ → ℕ → Memory P → ℤ × Memory P
  open_locked name page m = open_at (open_loop max_mutexes 0 name m.locks) name page m

  unfoldable pub mutex_open : List ℕ → ℕ → Memory P → Outcome (ℤ × Memory P)
  unfolding lock_array open_locked
  mutex_open name page m = map_outcome (open_locked name page) (lock_array m)

  -- `mutex_close` of an open mutex behind its `lock_array`; `stray` is the value of the variable `p`,
  -- which the code does not set, and `fuel` bounds the queue.
  unfoldable pub close_open : ℕ → ℕ → ℕ → Memory P → Memory P
  unfolding drain_loop destroy_queue
  close_open stray fuel key m =
      let q = (m.locks key).process_queue in
      let (p, h) = drain_loop fuel q stray m.heap in
      unlock_array (record m {
        sched = change_state (some (X.pid_of m.sched p)) ready m.sched;
        locks = update m.locks key (record (m.locks key) { state = closed_state });
        heap = destroy_queue fuel q h;
      })

  unfoldable pub close_locked : ℕ → ℕ → ℤ → Memory P → ℤ × Memory P
  unfolding is_open close_open
  close_locked stray fuel (negsuc n) m = (not_open_error, unlock_array m)
  close_locked stray fuel (pos key) m =
      if is_open key m.locks
      then (pos 1, close_open stray fuel key m)
      else (not_open_error, unlock_array m)

  unfoldable pub mutex_close : ℕ → ℕ → ℤ → Memory P → Outcome (ℤ × Memory P)
  unfolding lock_array close_locked
  mutex_close stray fuel key m = map_outcome (close_locked stray fuel key) (lock_array m)

  -- `mutex_lock` of a mutex that is held: `page` is for the node of the queue.
  unfoldable pub wait_in_queue : ℕ → ℕ → Memory P → Outcome (ℤ × Memory P)
  unfolding enqueue
  wait_in_queue page key m =
      let p = X.current_process m.sched in
      let h = enqueue (m.locks key).process_queue p page m.heap in
      after_yield (yield_process (change_state (some (X.pid_of m.sched p)) blocked m.sched))
        (λ s. (pos 1, record m { heap = h; superlock = unlocked_word; sched = s }))

  unfoldable pub mutex_lock : ℕ → ℤ → Memory P → Outcome (ℤ × Memory P)
  unfolding is_open wait_in_queue
  mutex_lock page (negsuc n) m = goes_on (not_open_error, m)
  mutex_lock page (pos key) m =
      if is_open key m.locks
      then (if (m.locks key).locked == locked_word
          then wait_in_queue page key m
          else goes_on (
            pos 1,
            record m {
              locks = update m.locks key (record (m.locks key) { locked = locked_word });
              superlock = unlocked_word;
            },
          ))
      else goes_on (not_open_error, m)

  -- The `while` of `mutex_unlock`, on fuel: it passes over processes that are DEAD; `none` where it
  -- has not ended.
  unfoldable pub unlock_loop : ℕ → ℕ → State → ℕ × Heap → Option (ℕ × Heap)
  unfolding dequeue
  unlock_loop zero q s (p, h) = none
  unlock_loop (suc fuel) q s (p, h) =
      let rest = unlock_loop fuel q s (dequeue q h) in if X.is_dead s p then rest else some (p, h)

  -- The end of `mutex_unlock`, with the process found, which may be NULL.
  unfoldable pub hand_over : ℕ → ℕ × Heap → Memory P → Memory P
  hand_over key (p, h) m =
      let free = if p == null then unlocked_word else locked_word in
      record m {
        locks = update m.locks key (record (m.locks key) { locked = free });
        heap = h;
        superlock = unlocked_word;
        sched =
            if p == null then m.sched else change_state (some (X.pid_of m.sched p)) ready m.sched;
      }

  abbrev handed : ℕ → Memory P → Option (ℕ × Heap) → Option (ℤ × Memory P)
  handed key m none = none
  handed key m (some taken) = some (pos 1, hand_over key taken m)

  -- `mutex_unlock`; `none` where it has not ended.
  unfoldable pub mutex_unlock : ℕ → ℤ → Memory P → Option (ℤ × Memory P)
  unfolding is_open unlock_loop hand_over dequeue
  mutex_unlock fuel (negsuc n) m = some (not_open_error, m)
  mutex_unlock fuel (pos key) m =
      let q = (m.locks key).process_queue in
      let ended = handed key m (unlock_loop fuel q m.sched (dequeue q m.heap)) in
      if is_open key m.locks then ended else some (not_open_error, m)
