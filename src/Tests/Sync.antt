-- ===== src/Tests/Sync.antt =====
-- Kernel/mutex.c and Kernel/semaphores.c over the scheduler of `Ring`, and `strcmp`.
use gat_os_v.Base.{
  ℕ, ◌+◌, ◌<◌, ◌≡◌, ◌⊎◌, none, some, refl, arith, List, [], ◌∷◌, ◌==◌, if◌then◌else◌, true, false,
  update, pos, negsuc, ◌+ℤ◌, ◌-ℤ◌, replicate,
}
use gat_os_v.Process.{blocked, ready, Pid, Processes, set_if}
use gat_os_v.Outcome.{after_yield, goes_on}
use gat_os_v.Mutex.Kept.{kept}
use gat_os_v.Semaphore.Creation.{sem_create_stuck}
use gat_os_v.Semaphore.{max_semaphores, sem_index_from, sem_create}
use gat_os_v.Strings.{strcmp}
use gat_os_v.Scheduler.{get_current_pid, change_process_state, next_process}
use gat_os_v.Scheduler.States.{state_of, scheduler}
use gat_os_v.Mutex.{
  get_mutex_locked, get_index, index_from, create_mutex, get_free_spot, unused_from, Mutex, Table,
  is_valid_mutex, lock_mutex, free_mutex,
}
use gat_os_v.Mutex.Names.{get_mutex_again}
use gat_os_v.Mutex.Waiting.{waiting, times}
use gat_os_v.Mutex.HandOver.{IsConsistent, lock_mutex_held, free_mutex_lem}
use gat_os_v.Semaphore.{Semaphore, Semaphores, is_valid_semaphore, wait_locked, signal}
use gat_os_v.Semaphore.Balance.{IsBalanced, signal_lem, wait_locked_empty}
use gat_os_v.Tests.Ring.{three}

abbrev ab : List ℕ
ab = 97 ∷ 98 ∷ []

abbrev ac : List ℕ
ac = 97 ∷ 99 ∷ []

abbrev os : Processes
os = scheduler 4096

-- Process 2 waits for mutex 0, mutex 1 is free, and the queue of mutex 2 is full.
abbrev queue_of_2 : List Pid
queue_of_2 = none ∷ some 2 ∷ replicate 18 none

abbrev mutexes : Table
mutexes i = record {
  used = true;
  name = some (109 ∷ []);
  queue =
      if i == 0 then queue_of_2 else if i == 1 then replicate 20 none else replicate 20 (some 2);
  mutex = if i == 1 then 0 else 1;
  cardinal_blocked = if i == 0 then 1 else if i == 1 then 0 else 20;
  pid_creator = some 1;
}

mutex_0-IsConsistent : IsConsistent (mutexes 0)
unfolding waiting
mutex_0-IsConsistent = record {
  places = refl;
  counted = refl;
  held = λ _. refl;
  flag = omega arith;
}

mutex_1-IsConsistent : IsConsistent (mutexes 1)
unfolding waiting
mutex_1-IsConsistent = record {
  places = refl;
  counted = refl;
  held = λ h. absurd (omega arith);
  flag = omega arith;
}

mutex_2-IsConsistent : IsConsistent (mutexes 2)
unfolding waiting
mutex_2-IsConsistent = record {
  places = refl;
  counted = refl;
  held = λ _. refl;
  flag = omega arith;
}

valid : (i : ℕ) → i < 3 → is_valid_mutex i mutexes ≡ true
unfolding is_valid_mutex
valid i lt = ground arith

current : get_current_pid three ≡ some 1
unfolding get_current_pid
current = refl

lock_mutex_held_example :
    (m : Mutex) × (lock_mutex os none 0 (mutexes, three)
      ≡ after_yield
          (next_process 4096 (change_process_state (some 1) blocked three))
          (λ s'. (update mutexes 0 m, s')))
    × IsConsistent m
    × (m.mutex ≡ 1)
    × ((q : ℕ) → times q m.queue ≡ times q queue_of_2 + (if q == 1 then 1 else 0))
lock_mutex_held_example =
    lock_mutex_held os none 0 1 mutexes three (valid 0 (omega arith)) mutex_0-IsConsistent refl
      (omega arith) current

free_mutex_lem_example :
    let (t', s') = free_mutex os 0 (mutexes, three) in
    IsConsistent (t' 0)
    × (((waiting queue_of_2 ≡ 0) × ((t' 0).mutex ≡ 0) × (s' ≡ three))
        ⊎ ((p : ℕ) × ((t' 0).mutex ≡ 1)
            × ((q : ℕ) → times q (t' 0).queue + (if q == p then 1 else 0) ≡ times q queue_of_2)
            × ((q : ℕ) → state_of s' q ≡ set_if (p == q) ready (state_of three q))))
free_mutex_lem_example =
    free_mutex_lem os 0 mutexes three (valid 0 (omega arith)) mutex_0-IsConsistent

room : waiting queue_of_2 < 20
unfolding waiting
room = omega arith

somebody : 0 < waiting queue_of_2
unfolding waiting
somebody = omega arith

-- Semaphore 0 has one process waiting, semaphore 1 two free units.
abbrev semaphores : Semaphores
semaphores i = record {
  used = true;
  name = some (115 ∷ []);
  queue = if i == 0 then queue_of_2 else replicate 20 none;
  semaphore = if i == 0 then negsuc 0 else pos 2;
  cardinal_blocked = if i == 0 then 1 else 0;
  mutex = 1;
  pid_creator = some 1;
}

semaphore_0-IsBalanced : IsBalanced (semaphores 0)
unfolding waiting
semaphore_0-IsBalanced = record { places = refl; counted = refl; deficit = refl }

semaphore_1-IsBalanced : IsBalanced (semaphores 1)
unfolding waiting
semaphore_1-IsBalanced = record { places = refl; counted = refl; deficit = refl }

valid_semaphore : is_valid_semaphore 0 semaphores ≡ true
unfolding is_valid_semaphore
valid_semaphore = refl

signal_lem_example :
    let (sems', (t', s')) = signal os 0 (semaphores, (mutexes, three)) in
    IsBalanced (sems' 0)
    × ((sems' 0).semaphore ≡ negsuc 0 +ℤ pos 1)
    × (t' ≡ mutexes)
    × (((waiting queue_of_2 ≡ 0) × (s' ≡ three))
        ⊎ ((p : ℕ) × ((q : ℕ)
              → times q (sems' 0).queue + (if q == p then 1 else 0) ≡ times q queue_of_2)
            × ((q : ℕ) → state_of s' q ≡ set_if (q == p) ready (state_of three q))))
signal_lem_example =
    signal_lem os 0 semaphores mutexes three valid_semaphore semaphore_0-IsBalanced (omega arith)

wait_locked_empty_example :
    let (t', s') = free_mutex os 1 (mutexes, change_process_state (some 1) blocked three) in
    (m : Semaphore) × (wait_locked os 0 (semaphores, (mutexes, three))
      ≡ after_yield (next_process 4096 s') (λ s2. (update semaphores 0 m, (t', s2))))
    × (m.semaphore ≡ negsuc 0 -ℤ pos 1)
    × IsBalanced m
    × ((q : ℕ) → times q m.queue ≡ times q queue_of_2 + (if q == 1 then 1 else 0))
wait_locked_empty_example =
    wait_locked_empty os 0 1 semaphores mutexes three semaphore_0-IsBalanced refl (omega arith)
      current

-- No mutex is in use yet.
abbrev unused : Table
unused i = record {
  used = false;
  name = none;
  queue = replicate 20 none;
  mutex = 0;
  cardinal_blocked = 0;
  pid_creator = none;
}

first_mutex : (get_mutex_locked [] (some 1) ab unused).0 ≡ some 0
unfolding get_mutex_locked get_index index_from create_mutex get_free_spot unused_from strcmp
first_mutex = refl

get_mutex_again_example :
    let (found, t1) = get_mutex_locked [] (some 1) ab unused in
    get_mutex_locked [] (some 2) ab t1 ≡ (found, t1)
get_mutex_again_example =
    get_mutex_again [] ab (some 1) (some 2) unused (omega arith, (omega arith, tt))
      (λ e. cc (first_mutex, e))

abbrev s_name : List ℕ
s_name = 115 ∷ []

known_name : sem_index_from [] s_name max_semaphores 0 semaphores ≡ some 0
unfolding sem_index_from strcmp
known_name = refl

sem_create_stuck_example :
    (sem_create os none 999 [] 1 s_name (pos 3) (semaphores, (mutexes, three))
      ≡ goes_on (none, (semaphores, (kept 1 mutexes, three))))
    × (m : Mutex) × (sem_create os none 999 [] 1 ac (pos 0) (semaphores, (kept 1 mutexes, three))
        ≡ after_yield
            (next_process 4096 (change_process_state (some 1) blocked three))
            (λ s2. (none, (semaphores, (update (kept 1 mutexes) 1 m, s2)))))
sem_create_stuck_example =
    sem_create_stuck os none 999 [] 1 0 1 s_name ac (pos 3) (pos 0) semaphores mutexes three three
      (valid 1 (omega arith)) mutex_1-IsConsistent refl known_name current
