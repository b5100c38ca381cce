-- ===== src/Mutex.antt =====
-- Kernel/mutex.c, the mutexes by index (from `initializeMutexes` on), over a scheduler.
-- `MAX_MUTEXES` is 128 in this file. Indices are natural numbers: the code does not test for
-- negative ones, and reads outside the array for them.
pub mod Waiting
pub mod HandOver
pub mod Kept
pub mod Names
use gat_os_v.Base.{
  ℕ, zero, suc, ◌+◌, ◌-◌, Bool, true, false, ◌&&◌, Option, none, some, List, [], ◌∷◌, replicate,
  ◌==◌, ltb, leb, if◌then◌else◌, update, set, get_or, is_zero,
}
use gat_os_v.Process.{ProcessState, blocked, ready, Pid, eq_pid, Processes}
use gat_os_v.Outcome.{◌>>=◌, map_outcome, Outcome, goes_on, after_yield}
use gat_os_v.Strings.{strcmp}

abbrev pub max_mutexes : ℕ
max_mutexes = 128

abbrev pub max_blocked_queue_size : ℕ
max_blocked_queue_size = 20

-- `Mutex`. A free place of the queue holds NO_BLOCKED_QUEUE_VALUE, -1: `none`.
pub record Mutex : Type 0 where
  pub used : Bool
  pub name : Option (List ℕ)
  pub queue : List Pid
  pub mutex : ℕ
  pub cardinal_blocked : ℕ
  pub pid_creator : Pid

-- `clearArray`
unfoldable pub clear_array : List Pid → List Pid
clear_array [] = []
clear_array (p ∷ ps) = none ∷ clear_array ps

-- `cleanMutex`
unfoldable pub clean_mutex : Mutex → Mutex
unfolding clear_array
clean_mutex m = record m {
  used = false;
  name = none;
  cardinal_blocked = 0;
  mutex = 0;
  queue = clear_array m.queue;
}

abbrev pub Table : Type 0
Table = ℕ → Mutex

-- The loop of `initializeMutexes` from `i` on.
unfoldable pub clean_from : ℕ → ℕ → Table → Table
unfolding clean_mutex
clean_from zero i t = t
clean_from (suc n) i t = clean_from n (i + 1) (update t i (clean_mutex (t i)))

-- `initializeMutexes`; `adminMutex` is 0.
unfoldable pub initialize_mutexes : Table → Table
unfolding clean_from
initialize_mutexes t =
    let cleaned = clean_from max_mutexes 0 t in
    update cleaned 0 (record (cleaned 0) { used = true })

-- `getFreeSpotInBlockedQueue`
unfoldable pub free_spot_from : ℕ → List Pid → Option ℕ
free_spot_from i [] = none
free_spot_from i (none ∷ ps) = some i
free_spot_from i (some p ∷ ps) = free_spot_from (i + 1) ps

unfoldable pub get_free_spot_in_blocked_queue : List Pid → Option ℕ
unfolding free_spot_from
get_free_spot_in_blocked_queue ps = free_spot_from 0 ps

-- The write of `addToBlocked` and of its two copies in semaphores.c: the queue and its counter.
unfoldable pub add_waiting : Pid → List Pid → ℕ → List Pid × ℕ
unfolding get_free_spot_in_blocked_queue
add_waiting pid queue count = elim (get_free_spot_in_blocked_queue queue) [
  | none ↦ (queue, count)
  | some i ↦ (set queue i pid, count + 1)
]

-- The loop of `unblockProcess` and of its copy in semaphores.c: the pid found, and the queue.
unfoldable pub take_waiting : List Pid → Pid × List Pid
take_waiting [] = (none, [])
take_waiting (none ∷ ps) = let (p, rest) = take_waiting ps in (p, none ∷ rest)
take_waiting (some p ∷ ps) = (some p, none ∷ ps)

-- `addToBlocked`
unfoldable pub add_to_blocked : Pid → Mutex → Mutex
unfolding add_waiting
add_to_blocked pid m =
    let (q, n) = add_waiting pid m.queue m.cardinal_blocked in
    record m { queue = q; cardinal_blocked = n }

-- `isValidMutex`
unfoldable pub is_valid_mutex : ℕ → Table → Bool
is_valid_mutex i t = if leb max_mutexes i then false else (t i).used

-- `isQueueFull`
unfoldable pub is_queue_full : Mutex → Bool
is_queue_full m = leb max_blocked_queue_size m.cardinal_blocked

-- `_testAndSet` of Kernel/asm/lock.asm compares and exchanges eight bytes: the `int` it is given and
-- the next one, which is `cardinalBlocked`.
unfoldable pub test_and_set : Mutex → Bool × Mutex
test_and_set m =
    if m.mutex == 0 && m.cardinal_blocked == 0
    then (true, record m { mutex = 1; cardinal_blocked = 0 })
    else (false, m)

-- The comparison in `getIndex`: `strcmp(mutexes[i].name, name) == 0`. For a NULL name `strcmp` reads
-- the bytes at address 0, `at_null`.
abbrev pub has_name : List ℕ → Option (List ℕ) → List ℕ → Bool
has_name at_null none name = is_zero (strcmp at_null name)
has_name at_null (some own) name = is_zero (strcmp own name)

-- `getIndex`, from index `i` on; `none` is MUTEX_NOT_FOUND.
unfoldable pub index_from : List ℕ → List ℕ → ℕ → ℕ → Table → Option ℕ
index_from at_null name zero i t = none
index_from at_null name (suc n) i t =
    let rest = index_from at_null name n (i + 1) t in
    if has_name at_null (t i).name name && (t i).used then some i else rest

unfoldable pub get_index : List ℕ → List ℕ → Table → Option ℕ
unfolding index_from
get_index at_null name t = index_from at_null name max_mutexes 0 t

-- `getFreeSpot`, from index `i` on; `none` is NO_SPACE_LEFT_M.
unfoldable pub unused_from : ℕ → ℕ → Table → Option ℕ
unused_from zero i t = none
unused_from (suc n) i t = let rest = unused_from n (i + 1) t in if (t i).used then rest else some i

unfoldable pub get_free_spot : Table → Option ℕ
unfolding unused_from
get_free_spot t = unused_from max_mutexes 0 t

-- `createMutex`; `none` is ERROR.
unfoldable pub create_mutex : Pid → List ℕ → Table → Option ℕ × Table
unfolding get_free_spot
create_mutex pid name t = elim (get_free_spot t) [
  | none ↦ (none, t)
  | some i ↦
      (some i, update t i (record (t i) { used = true; name = some name; pid_creator = pid }))
]

-- `getMutex` between its `lockMutex` and its `freeMutex` of the administration mutex.
unfoldable pub get_mutex_locked : List ℕ → Pid → List ℕ → Table → Option ℕ × Table
unfolding get_index create_mutex
get_mutex_locked at_null pid name t = elim (get_index at_null name t) [
  | none ↦ create_mutex pid name t
  | some i ↦ (some i, t)
]

module _ (P : Processes) where
  open P use {State, current_pid, change_state, yield_process}

  -- The memory: the mutexes and the processes.
  abbrev pub Memory : Type 0
  Memory = Table × State

  -- `lockMutex`. `stray` is the value of the variable `pid`, which the code does not set when the
  -- queue is full.
  unfoldable pub lock_mutex : Pid → ℕ → Memory → Outcome Memory
  unfolding is_valid_mutex test_and_set is_queue_full add_to_blocked
  lock_mutex stray i (t, s) =
      if is_valid_mutex i t
      then (let (acquired, m) = test_and_set (t i) in
          if acquired
          then goes_on (update t i m, s)
          else if is_queue_full m
          then after_yield (yield_process (change_state stray blocked s)) (λ s'. (update t i m, s'))
          else after_yield (yield_process (change_state (current_pid s) blocked s))
              (λ s'. (update t i (add_to_blocked (current_pid s) m), s')))
      else goes_on (t, s)

  -- `freeMutex`, with `unblockProcess`
  unfoldable pub free_mutex : ℕ → Memory → Memory
  unfolding is_valid_mutex take_waiting
  free_mutex i (t, s) =
      if is_valid_mutex i t
      then (if ltb 0 (t i).cardinal_blocked
          then (let (pid, queue) = take_waiting (t i).queue in
              (
                update t i
                    (record (t i) { queue = queue; cardinal_blocked = (t i).cardinal_blocked - 1 }),
                change_state pid ready s,
              ))
          else (update t i (record (t i) { mutex = 0 }), s))
      else (t, s)

  -- `closeMutex`
  unfoldable pub close_mutex : ℕ → Memory → Memory
  unfolding is_valid_mutex
  close_mutex i (t, s) =
      if is_valid_mutex i t && eq_pid (current_pid s) (t i).pid_creator
      then (update t i (record (t i) { used = false }), s)
      else (t, s)

  -- `getMutex`; `initializeMutexes` gives `adminMutex` the index 0. The result is `none` as long as it
  -- is not known.
  unfoldable pub get_mutex : Pid → List ℕ → List ℕ → Memory → Outcome (Option ℕ × Memory)
  get_mutex stray at_null name m = map_outcome (λ m1. (none, m1)) (lock_mutex stray 0 m) >>= (λ out.
      let (t, s) = out.1 in
      let (i, t1) = get_mutex_locked at_null (current_pid s) name t in
      goes_on (i, free_mutex 0 (t1, s)))
