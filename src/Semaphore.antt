-- ===== src/Semaphore.antt =====
-- Kernel/semaphores.c over the mutexes and a scheduler. `MAX_SEMAPHORES` is 100 / 2: in this file
-- `MAX_MUTEXES` is the 100 of mutex.h. Indices are natural numbers, as in `Mutex`, and so is the
-- index of the mutex of a semaphore.
pub mod Balance
pub mod Creation
use gat_os_v.Base.{
  ℕ, zero, suc, ◌+◌, ◌-◌, Bool, true, false, ◌&&◌, Option, none, some, List, ◌==◌, ltb, leb,
  if◌then◌else◌, update, ℤ, pos, negsuc, ◌+ℤ◌, ◌-ℤ◌, to_int, is_negative,
}
use gat_os_v.Process.{ProcessState, blocked, ready, Pid, eq_pid, Processes}
use gat_os_v.Outcome.{Outcome, goes_on, ◌>>=◌, map_outcome, after_yield}
use gat_os_v.Mutex.{
  Memory, max_blocked_queue_size, clear_array, add_waiting, take_waiting, has_name, lock_mutex,
  free_mutex, get_mutex,
}

abbrev pub max_semaphores : ℕ
max_semaphores = 50

-- `Semaphore`
pub record Semaphore : Type 0 where
  pub used : Bool
  pub name : Option (List ℕ)
  pub queue : List Pid
  pub semaphore : ℤ
  pub cardinal_blocked : ℕ
  pub mutex : ℕ
  pub pid_creator : Pid

abbrev pub Semaphores : Type 0
Semaphores = ℕ → Semaphore

-- `cleanSemaphore`; the name and the mutex stay.
unfoldable pub clean_semaphore : Semaphore → Semaphore
unfolding clear_array
clean_semaphore s = record s {
  used = false;
  semaphore = pos 0;
  cardinal_blocked = 0;
  queue = clear_array s.queue;
}

-- `isValidSemaphore`
unfoldable pub is_valid_semaphore : ℕ → Semaphores → Bool
is_valid_semaphore i sems = if leb max_semaphores i then false else (sems i).used

-- `isSemaphoreQueueFull`, which no other function calls.
unfoldable pub is_semaphore_queue_full : Semaphore → Bool
is_semaphore_queue_full s = leb max_blocked_queue_size s.cardinal_blocked

-- `addToSemBlocked`
unfoldable pub add_to_sem_blocked : Pid → Semaphore → Semaphore
unfolding add_waiting
add_to_sem_blocked pid s =
    let (q, n) = add_waiting pid s.queue s.cardinal_blocked in
    record s { queue = q; cardinal_blocked = n }

-- `addToBlockedQueueSemaphore`, which no other function calls.
unfoldable pub add_to_blocked_queue_semaphore : ℕ → Pid → Semaphores → Semaphores
unfolding add_waiting
add_to_blocked_queue_semaphore i pid sems =
    let (q, n) = add_waiting pid (sems i).queue (sems i).cardinal_blocked in
    update sems i (record (sems i) { queue = q; cardinal_blocked = n })

-- `getSemIndex`, from index `i` on.
unfoldable pub sem_index_from : List ℕ → List ℕ → ℕ → ℕ → Semaphores → Option ℕ
sem_index_from at_null name zero i sems = none
sem_index_from at_null name (suc n) i sems =
    let rest = sem_index_from at_null name n (i + 1) sems in
    if has_name at_null (sems i).name name && (sems i).used then some i else rest

-- `semOpen`; `none` is ERROR.
unfoldable pub sem_open : List ℕ → List ℕ → Semaphores → Option ℕ
unfolding sem_index_from
sem_open at_null name sems = sem_index_from at_null name max_semaphores 0 sems

-- `getFreePositionSemaphores`, from index `i` on.
unfoldable pub free_position_from : ℕ → ℕ → Semaphores → Option ℕ
free_position_from zero i sems = none
free_position_from (suc n) i sems =
    let rest = free_position_from n (i + 1) sems in if (sems i).used then rest else some i

-- `semClose`
unfoldable pub sem_close : Pid → ℕ → Semaphores → Semaphores
unfolding is_valid_semaphore
sem_close pid i sems =
    if is_valid_semaphore i sems && eq_pid pid (sems i).pid_creator
    then update sems i (record (sems i) { used = false })
    else sems

module _ (P : Processes) where
  open P use {State, current_pid, change_state, yield_process}

  -- The semaphores beside the mutexes and the processes.
  abbrev pub SemMemory : Type 0
  SemMemory = Semaphores × Memory P

  -- The part of `wait` behind `lockMutex`: the mutex of the semaphore is held.
  unfoldable pub wait_locked : ℕ → SemMemory → Outcome SemMemory
  unfolding add_to_sem_blocked
  wait_locked i (sems, (t, s)) =
      let sem = record (sems i) { semaphore = to_int ((sems i).semaphore -ℤ pos 1) } in
      if is_negative sem.semaphore
      then (let pid = current_pid s in
          let (t', s') = free_mutex P sem.mutex (t, change_state pid blocked s) in
          after_yield (yield_process s')
            (λ s2. (update sems i (add_to_sem_blocked pid sem), (t', s2))))
      else goes_on (update sems i sem, free_mutex P sem.mutex (t, s))

  -- `wait`; `stray` as in `Mutex`.
  unfoldable pub wait : Pid → ℕ → SemMemory → Outcome SemMemory
  unfolding is_valid_semaphore wait_locked
  wait stray i (sems, m) =
      if is_valid_semaphore i sems
      then (map_outcome (λ m'. (sems, m')) (lock_mutex P stray (sems i).mutex m) >>= wait_locked i)
      else goes_on (sems, m)

  -- `signal`, with `unblockProcessSemaphore`. It does not take the mutex of the semaphore.
  unfoldable pub signal : ℕ → SemMemory → SemMemory
  unfolding is_valid_semaphore take_waiting
  signal i (sems, (t, s)) =
      if is_valid_semaphore i sems
      then (let up = to_int ((sems i).semaphore +ℤ pos 1) in
          if ltb 0 (sems i).cardinal_blocked
          then (let (pid, queue) = take_waiting (sems i).queue in
              (
                update sems i (record (sems i) {
                  queue = queue;
                  cardinal_blocked = (sems i).cardinal_blocked - 1;
                  semaphore = up;
                }),
                (t, change_state pid ready s),
              ))
          else (update sems i (record (sems i) { semaphore = up }), (t, s)))
      else (sems, (t, s))

  abbrev index_or : ℕ → Option ℕ → ℕ
  index_or outside none = outside
  index_or outside (some i) = i

  -- `createSemaphore` from the place that it finds on; `outside` is the index that stands for the ERROR
  -- of `getMutex`.
  unfoldable pub fill_semaphore :
      Pid → ℕ → List ℕ → List ℕ → ℤ → ℕ → SemMemory → Outcome (Option ℕ × SemMemory)
  fill_semaphore stray outside at_null name start i (sems, m) =
      let pid = current_pid m.1 in
      let sem = record (sems i) { used = true; name = some name } in
      map_outcome
        (λ out. (
          some i,
          (
            update sems i (record sem {
              mutex = index_or outside out.0;
              semaphore = start;
              pid_creator = pid;
            }),
            out.1,
          ),
        ))
        (get_mutex P stray at_null name m)

  -- `createSemaphore`; `none` is ERROR.
  unfoldable pub create_semaphore :
      Pid → ℕ → List ℕ → List ℕ → ℤ → SemMemory → Outcome (Option ℕ × SemMemory)
  create_semaphore stray outside at_null name start (sems, m) =
      elim (free_position_from max_semaphores 0 sems) [
        | none ↦ goes_on (none, (sems, m))
        | some i ↦ fill_semaphore stray outside at_null name start i (sems, m)
      ]

  -- `semCreate` behind its `getSemIndex`, with the index of `semaphoreMutex`; `none` is ERROR.
  unfoldable pub create_unless :
      Option ℕ → Pid → ℕ → List ℕ → ℕ → List ℕ → ℤ → SemMemory → Outcome (Option ℕ × SemMemory)
  create_unless (some i) stray outside at_null semaphore_mutex name start m = goes_on (none, m)
  create_unless none stray outside at_null semaphore_mutex name start m =
      create_semaphore stray outside at_null name start m
      >>= (λ made. goes_on (made.0, (made.1.0, free_mutex P semaphore_mutex made.1.1)))

  unfoldable pub sem_create_locked :
      Pid → ℕ → List ℕ → ℕ → List ℕ → ℤ → SemMemory → Outcome (Option ℕ × SemMemory)
  sem_create_locked stray outside at_null semaphore_mutex name start m =
      create_unless (sem_index_from at_null name max_semaphores 0 m.0) stray outside at_null
        semaphore_mutex name start m

  -- `semCreate`; `none` also stands for a result that is not known yet.
  unfoldable pub sem_create :
      Pid → ℕ → List ℕ → ℕ → List ℕ → ℤ → SemMemory → Outcome (Option ℕ × SemMemory)
  sem_create stray outside at_null semaphore_mutex name start (sems, m) =
      map_outcome (λ m1. (none, (sems, m1))) (lock_mutex P stray semaphore_mutex m)
      >>= (λ out. sem_create_locked stray outside at_null semaphore_mutex name start out.1)

  abbrev clean_all : Semaphores → Semaphores
  clean_all sems i = if ltb i max_semaphores then clean_semaphore (sems i) else sems i

  -- `initializeSemaphores`: the result is `semaphoreMutex`.
  unfoldable pub initialize_semaphores :
      Pid → List ℕ → List ℕ → SemMemory → Outcome (Option ℕ × SemMemory)
  initialize_semaphores stray at_null semaphore_name (sems, m) =
      map_outcome (λ out. (out.0, (clean_all sems, out.1)))
        (get_mutex P stray at_null semaphore_name m)
