-- ===== src/Ipc/Calls.antt =====
-- The calls of Kernel/IPC.c that programs make, over the mutexes and the scheduler.
use gat_os_v.Base.{
  ℕ, zero, suc, ◌+◌, Option, none, some, List, [], ◌∷◌, leb, if◌then◌else◌, update, ℤ, pos, ◌+ℤ◌,
  pos_part, ◌==◌,
}
use gat_os_v.Process.{blocked, ready, Pid, Processes}
use gat_os_v.Outcome.{Outcome, goes_on, ◌>>=◌, map_outcome, after_yield}
use gat_os_v.Mutex.{Memory, has_name, lock_mutex, free_mutex, get_mutex}
use gat_os_v.Buddy.{null}
use gat_os_v.Pipe.{Pipe, is_full, is_drained}
use gat_os_v.Pipe
use gat_os_v.Ipc.{
  Ipc, max_pipes, string, load_pid, store_pid, get_pipe_name_index, create_pipe_struct, find_place,
  enter, close_at,
}

-- The loop over the table in `unlockProcesses`: the first index below `lastPipeName` with the name.
unfoldable pub entry_from : List ℕ → List ℕ → ℕ → ℕ → Ipc → Option ℕ
entry_from at_null name zero i ipc = none
entry_from at_null name (suc n) i ipc =
    let rest = entry_from at_null name n (i + 1) ipc in
    if has_name at_null (ipc.pipe_names i) name then some i else rest

-- The string "/n"
abbrev pub slash_n : List ℕ
slash_n = 47 ∷ 110 ∷ []

-- The names and pipes after the loop of `initializePipes`.
abbrev pub blank_table : List ℕ → Ipc → Ipc
blank_table name ipc = record ipc {
  pipe_names = λ i. if leb max_pipes i then ipc.pipe_names i else some name;
  pipes = λ i. if leb max_pipes i then ipc.pipes i else null;
}

abbrev pub set_admin : ℕ → Ipc → Ipc
set_admin k ipc = record ipc { ipc_admin_mutex = k }

abbrev pub mutex_or : ℕ → Option ℕ → ℕ
mutex_or outside none = outside
mutex_or outside (some i) = i

module _ (P : Processes) where
  open P use {State, current_pid, change_state, yield_process}

  abbrev pub IpcMemory : Type 0
  IpcMemory = Ipc × Memory P

  -- The loop of `unlockProcesses` over the pids of a pipe, with the rounds left.
  unfoldable pub wake_list : ℕ → ℕ → ℕ → Ipc → State → State
  wake_list zero j list ipc s = s
  wake_list (suc rounds) j list ipc s =
      wake_list rounds (j + 1) list ipc (change_state (load_pid list j ipc.memory) ready s)

  unfoldable pub wake_entry : Option ℕ → Ipc → State → Ipc × State
  wake_entry none ipc s = (ipc, s)
  wake_entry (some i) ipc s =
      let p = ipc.pipes i in
      let l = ipc.link p in
      (
        record ipc { link = update ipc.link p (record l { cardinal_blocked = 0 }) },
        wake_list l.cardinal_blocked 0 l.blocked ipc s,
      )

  -- `unlockProcesses`
  unfoldable pub unlock_processes : List ℕ → List ℕ → Ipc → State → Ipc × State
  unlock_processes at_null name ipc s =
      wake_entry (entry_from at_null name (pos_part ipc.last_pipe_name) 0 ipc) ipc s

  -- `write` once it has the mutex of the pipe at `p`.
  unfoldable pub write_locked : List ℕ → ℕ → List ℕ → IpcMemory → ℕ × IpcMemory
  write_locked at_null p message (ipc, (t, s)) =
      let l = ipc.link p in
      if is_full l.ring
      then (0, (ipc, free_mutex P l.mutex (t, change_state (current_pid s) blocked s)))
      else let (bytes, ring) = Pipe.write message l.ring in
        let ipc1 = record ipc { link = update ipc.link p (record l { ring = ring }) } in
        let (ipc2, s2) = unlock_processes at_null (string at_null l.name) ipc1 s in
        (bytes, (ipc2, free_mutex P (ipc2.link p).mutex (t, s2)))

  -- `write`; `stray` as in `Mutex`. The result is 0 as long as it is not known.
  unfoldable pub write_pipe : Pid → List ℕ → ℕ → List ℕ → IpcMemory → Outcome (ℕ × IpcMemory)
  write_pipe stray at_null p message (ipc, m) =
      map_outcome (λ m1. (0, (ipc, m1))) (lock_mutex P stray (ipc.link p).mutex m)
      >>= (λ out. goes_on (write_locked at_null p message out.1))

  -- The end of `read` of a pipe with nothing in it, once it has the mutex.
  unfoldable pub read_waits : ℕ → IpcMemory → Outcome (List ℕ × IpcMemory)
  read_waits p (ipc, (t, s)) =
      let l = ipc.link p in
      let pid = current_pid s in
      let ipc1 = record ipc {
        memory = store_pid l.blocked l.cardinal_blocked pid ipc.memory;
        link = update ipc.link p (record l { cardinal_blocked = l.cardinal_blocked + 1 });
      } in
      let (t2, s2) = free_mutex P l.mutex (t, change_state pid blocked s) in
      after_yield (yield_process s2) (λ s3. ([], (ipc1, (t2, s3))))

  unfoldable pub read_locked : ℕ → ℤ → IpcMemory → Outcome (List ℕ × IpcMemory)
  read_locked p bytes (ipc, (t, s)) =
      let l = ipc.link p in
      if is_drained l.ring
      then read_waits p (ipc, (t, s))
      else let (result, ring) = Pipe.read bytes l.ring in
        goes_on (
          result,
          (
            record ipc { link = update ipc.link p (record l { ring = ring }) },
            free_mutex P l.mutex (t, s),
          ),
        )

  -- `read`: the bytes stored, whose number is the result; none as long as it is not known.
  unfoldable pub read_pipe : Pid → ℕ → ℤ → IpcMemory → Outcome (List ℕ × IpcMemory)
  read_pipe stray p bytes (ipc, m) =
      map_outcome (λ m1. ([], (ipc, m1))) (lock_mutex P stray (ipc.link p).mutex m)
      >>= (λ out. read_locked p bytes out.1)

  -- `openPipe` behind its `getPipeNameIndex`: the address of the pipe.
  unfoldable pub open_found : Option ℕ → IpcMemory → ℕ × IpcMemory
  open_found none m = (null, m)
  open_found (some i) (ipc, (t, s)) =
      let p = ipc.pipes i in
      let l = ipc.link p in
      (
        p,
        (
          record ipc {
            memory = store_pid l.pipe_pids l.connected (current_pid s) ipc.memory;
            link = update ipc.link p (record l { connected = l.connected + 1 });
          },
          free_mutex P ipc.ipc_admin_mutex (t, s),
        ),
      )

  -- `openPipe`; NULL also stands for a result that is not known yet.
  unfoldable pub open_pipe : Pid → List ℕ → List ℕ → IpcMemory → Outcome (ℕ × IpcMemory)
  open_pipe stray at_null name (ipc, m) =
      map_outcome (λ m1. (null, (ipc, m1))) (lock_mutex P stray ipc.ipc_admin_mutex m)
      >>= (λ out. goes_on (open_found (get_pipe_name_index at_null name ipc) out.1))

  -- The end of `createPipe`, with the mutex of the new pipe at `p`.
  unfoldable pub finish_pipe : ℕ → List ℕ → ℕ → IpcMemory → ℕ × IpcMemory
  finish_pipe p name k (ipc, m) =
      let ipc1 = record ipc { link = update ipc.link p (record (ipc.link p) { mutex = k }) } in
      let ipc2 = enter ipc1.last_pipe_name name p ipc1 in
      (
        p,
        (
          record ipc2 { last_pipe_name = ipc2.last_pipe_name +ℤ pos 1 },
          free_mutex P ipc2.ipc_admin_mutex m,
        ),
      )

  -- `createPipe` for a name and a process. The number is the address of the pipe once `createPipe`
  -- returns, and before that it has no meaning. `outside` is the index that stands for the ERROR of
  -- `getMutex`.
  unfoldable pub build_pipe : Pid → ℕ → List ℕ → List ℕ → ℕ → IpcMemory → Outcome (ℕ × IpcMemory)
  build_pipe stray outside at_null name pro (ipc, m) =
      let (p, ipc1) = create_pipe_struct pro name ipc in
      map_outcome (λ out. (mutex_or outside out.0, (ipc1, out.1)))
        (get_mutex P stray at_null name m)
      >>= (λ out. goes_on (finish_pipe p name out.0 out.1))

  -- `createPipe` once it has the mutex and a place in the table.
  unfoldable pub create_named :
      Pid → ℕ → List ℕ → Option (List ℕ) → ℕ → IpcMemory → Outcome (ℕ × IpcMemory)
  create_named stray outside at_null none pro m = goes_on (null, m)
  create_named stray outside at_null (some name) pro m =
      if pro == null then goes_on (null, m) else build_pipe stray outside at_null name pro m

  -- `createPipe` once it has the mutex; `find` is `getProcessById`, whose NULL is 0.
  unfoldable pub create_locked :
      (State → Pid → ℕ) → Pid → ℕ → List ℕ → Option (List ℕ) → IpcMemory → Outcome (ℕ × IpcMemory)
  create_locked find stray outside at_null name (ipc, (t, s)) =
      let (room, ipc1) = find_place ipc in
      if room
      then create_named stray outside at_null name (find s (current_pid s)) (ipc1, (t, s))
      else goes_on (null, (ipc1, (t, s)))

  -- `createPipe`
  unfoldable pub create_pipe :
      (State → Pid → ℕ) → Pid → ℕ → List ℕ → Option (List ℕ) → IpcMemory → Outcome (ℕ × IpcMemory)
  create_pipe find stray outside at_null name (ipc, m) =
      map_outcome (λ m1. (null, (ipc, m1))) (lock_mutex P stray ipc.ipc_admin_mutex m)
      >>= (λ out. create_locked find stray outside at_null name out.1)

  -- `closePipe` of the pipe at `p`; `none` when `fuel` structures are not enough for `freeSpace`.
  unfoldable pub close_pipe : (State → Pid → ℕ) → ℕ → List ℕ → ℕ → IpcMemory → Option IpcMemory
  close_pipe find fuel at_null p (ipc, (t, s)) =
      elim (close_at (get_pipe_name_index at_null (string at_null (ipc.link p).name) ipc) fuel
        at_null (current_pid s) (find s (some (ipc.link p).creator)) ipc) [
          | none ↦ none
          | some ipc' ↦ some (ipc', (t, s))
        ]

  -- `initializePipes`, with the index of the new mutex.
  unfoldable pub initialize_pipes : Pid → ℕ → List ℕ → List ℕ → IpcMemory → Outcome (ℕ × IpcMemory)
  initialize_pipes stray outside at_null admin_name (ipc, m) =
      map_outcome (λ out. (mutex_or outside out.0, (blank_table slash_n ipc, out.1)))
        (get_mutex P stray at_null admin_name m)
      >>= (λ out. goes_on (out.0, (set_admin out.0 out.1.0, out.1.1)))
