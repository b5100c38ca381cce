-- ===== src/Tests/Calls.antt =====
-- Kernel/IPC.c over the scheduler of `Ring`: one pipe, with the process 2 in its list.
use gat_os_v.Base.{
  ℕ, ◌+◌, ◌*◌, ◌<◌, ◌≡◌, true, none, some, refl, arith, [], ◌∷◌, ◌++◌, ◌==◌, if◌then◌else◌, update,
  pos, negsuc, replicate, take, drop,
}
use gat_os_v.Process.{blocked, ready, Pid, Processes, set_if}
use gat_os_v.Outcome.{after_yield, goes_on}
use gat_os_v.Scheduler.{get_current_pid, change_process_state, next_process, Scheduler}
use gat_os_v.Scheduler.States.{state_of, scheduler}
use gat_os_v.Strings.{strcmp}
use gat_os_v.Mutex.{
  Mutex, Table, is_valid_mutex, get_mutex, get_mutex_locked, get_index, index_from, lock_mutex,
  free_mutex, test_and_set,
}
use gat_os_v.Mutex.Waiting.{waiting, times}
use gat_os_v.Mutex.HandOver.{IsConsistent}
use gat_os_v.Mutex.Kept.{kept}
use gat_os_v.Buddy.{null}
use gat_os_v.Pipe.Contents.{IsPipe, size, contents}
use gat_os_v.Ipc.{
  Link, PipeOwner, Ipc, find_place, name_index_from, get_pipe_name_index, load_pid, store_pid,
  create_pipe_struct,
}
use gat_os_v.Ipc.Calls.{entry_from, initialize_pipes, create_pipe, write_pipe, read_pipe}
use gat_os_v.Ipc.Names.{create_pipe_initialized, create_pipe_stuck}
use gat_os_v.Ipc.Wake.{listed, write_pipe_lem}
use gat_os_v.Ipc.Waits.{read_pipe_waits, read_pipe_lem, lists_overlap}
use gat_os_v.Tests.Ring.{three}

abbrev os : Processes
os = scheduler 4096

abbrev one_free : Mutex
one_free = record {
  used = true;
  name = some (109 ∷ []);
  queue = replicate 20 none;
  mutex = 0;
  cardinal_blocked = 0;
  pid_creator = some 1;
}

abbrev all_free : Table
all_free i = one_free

one_free-IsConsistent : IsConsistent one_free
unfolding waiting
one_free-IsConsistent = record {
  places = refl;
  counted = refl;
  held = λ h. absurd (omega arith);
  flag = omega arith;
}

valid : (i : ℕ) → i < 100 → is_valid_mutex i all_free ≡ true
unfolding is_valid_mutex
valid i lt = ground arith

current : get_current_pid three ≡ some 1
unfolding get_current_pid
current = refl

-- Three bytes wait in the pipe, or none.
abbrev pipe_of : ℕ → Link
pipe_of full = record {
  name = some (112 ∷ []);
  creator = 1;
  pipe_pids = 5000;
  blocked = 6000;
  cardinal_blocked = 1;
  connected = 1;
  mutex = 7;
  ring = record { position = 0; end = full; read_flag = 0; pipe = λ i. 65 + i };
}

abbrev maker : PipeOwner
maker = record {
  pid = 1;
  pipes_opened = 0;
  occupied_position = 7000;
  pipe_pids = 5000;
  blocked = 6000;
  pipes_struct = 8000;
}

abbrev one_pipe : ℕ → Ipc
one_pipe full = record {
  pipe_names = λ i. if i == 0 then some (112 ∷ []) else none;
  pipes = λ i. if i == 0 then 100 else null;
  name_before = none;
  pipe_before = null;
  last_pipe_name = pos 1;
  ipc_admin_mutex = 0;
  link = λ a. pipe_of full;
  owner = λ a. maker;
  memory = λ a. if a == 6000 then 2 else 0;
}

ring-IsPipe : (n : ℕ) → n < 10 → IsPipe (pipe_of n).ring
ring-IsPipe n lt = record { position_in = omega arith; end_in = omega arith; flag = omega arith }

known : entry_from [] (112 ∷ []) 1 0 (one_pipe 3) ≡ some 0
unfolding entry_from strcmp
known = refl

write_pipe_lem_example :
    (ipc' : Ipc) × (t' : Table) × (s' : Scheduler) × (write_pipe os none [] 100
        (1 ∷ 2 ∷ [])
        (one_pipe 3, (all_free, three))
      ≡ goes_on (2, (ipc', (t', s'))))
    × (contents (ipc'.link 100).ring ≡ contents (pipe_of 3).ring ++ 1 ∷ 2 ∷ [])
    × ((ipc'.link 100).cardinal_blocked ≡ 0)
    × ((t' 7).mutex ≡ 0)
    × (state_of s' 2 ≡ set_if (listed 1 0 6000 (one_pipe 3) 2) ready (state_of three 2))
unfolding size
write_pipe_lem_example =
    write_pipe_lem os none [] (1 ∷ 2 ∷ []) 0 100 2 (one_pipe 3) all_free three
      (valid 7 (omega arith)) one_free-IsConsistent refl (ring-IsPipe 3 (omega arith)) refl
      (omega arith) known refl

read_pipe_waits_example :
    (ipc' : Ipc) × (t' : Table) × (read_pipe os none 100 (pos 4) (one_pipe 0, (all_free, three))
      ≡ after_yield
          (next_process 4096 (change_process_state (some 1) blocked three))
          (λ s'. ([], (ipc', (t', s')))))
    × (load_pid 6000 1 ipc'.memory ≡ some 1)
    × ((ipc'.link 100).cardinal_blocked ≡ 2)
    × ((t' 7).mutex ≡ 0)
read_pipe_waits_example =
    read_pipe_waits os none 100 1 (pos 4) (one_pipe 0) all_free three (valid 7 (omega arith))
      one_free-IsConsistent refl refl current (omega arith)

read_pipe_lem_example :
    (ipc' : Ipc) × (t' : Table) × (read_pipe os none 100 (pos 2) (one_pipe 3, (all_free, three))
      ≡ goes_on (take 2 (contents (pipe_of 3).ring), (ipc', (t', three))))
    × (contents (ipc'.link 100).ring ≡ drop 2 (contents (pipe_of 3).ring))
    × ((t' 7).mutex ≡ 0)
read_pipe_lem_example =
    read_pipe_lem os none 100 (pos 2) (one_pipe 3) all_free three (valid 7 (omega arith))
      one_free-IsConsistent refl (ring-IsPipe 3 (omega arith)) refl (omega arith)

lists_overlap_example :
    load_pid 6003 0 (store_pid 6006 0 (some 5) (store_pid 6003 0 (some 9) (λ a. 0)))
    ≡ some (9 + 16777216 * 5)
lists_overlap_example =
    lists_overlap maker (97 ∷ []) (98 ∷ []) 1 9 5 (pipe_of 0) (pipe_of 0) (λ a. 0) (omega arith)
      (omega arith) (omega arith)

place : find_place (one_pipe 3) ≡ (true, one_pipe 3)
unfolding find_place
place = refl

-- The process that `getProcessById` finds.
abbrev at_2000 : Scheduler → Pid → ℕ
at_2000 s pid = 2000

create_pipe_stuck_example :
    (m : Mutex) × (create_pipe os at_2000 none 200 []
        (some (113 ∷ []))
        (one_pipe 3, (all_free, three))
      ≡ after_yield (next_process 4096 (change_process_state (some 1) blocked three)) (λ s'. (
        200,
        ((create_pipe_struct 2000 (113 ∷ []) (one_pipe 3)).1, (update (kept 0 all_free) 0 m, s')),
      )))
    × (m.mutex ≡ 1)
    × (times 1 m.queue ≡ times 1 (kept 0 all_free 0).queue + 1)
create_pipe_stuck_example =
    create_pipe_stuck os at_2000 none 200 1 [] (113 ∷ []) (one_pipe 3) all_free three refl
      (valid 0 (omega arith)) one_free-IsConsistent refl current place (λ e. omega (arith, e))

missing : get_pipe_name_index [] (122 ∷ []) (one_pipe 3) ≡ none
unfolding name_index_from strcmp
missing = refl

-- The mutexes after a `getMutex` of a name that the mutex 0 has.
abbrev given : Table
given = update (kept 0 all_free) 0 (record (kept 0 all_free 0) { mutex = 0 })

got : get_mutex os none [] (109 ∷ []) (all_free, three) ≡ goes_on (some 0, (given, three))
unfolding get_mutex lock_mutex is_valid_mutex test_and_set get_mutex_locked get_index index_from
    strcmp free_mutex
got = refl

valid_given : is_valid_mutex 0 given ≡ true
unfolding is_valid_mutex
valid_given = refl

create_pipe_initialized_example :
    (ipc' : Ipc) × (initialize_pipes os none 200 [] (109 ∷ []) (one_pipe 3, (all_free, three))
      ≡ goes_on (0, (ipc', (given, three))))
    × (create_pipe os at_2000 none 200 [] (some (113 ∷ [])) (ipc', (given, three))
        ≡ goes_on (null, (record ipc' { last_pipe_name = negsuc 0 }, (kept 0 given, three))))
create_pipe_initialized_example =
    create_pipe_initialized os at_2000 none 200 0 1 [] (109 ∷ []) (some (113 ∷ [])) (one_pipe 3)
      all_free given three three got refl valid_given one_free-IsConsistent refl
