-- ===== src/Ipc/Names.antt =====
-- `createPipe` and `openPipe` of Kernel/IPC.c, and the mutex that they share.
use gat_os_v.Base.{
  ℕ, zero, suc, ◌+◌, ◌≤◌, ◌<◌, ◌≡◌, ◌≢◌, true, false, inl, inr, Option, none, some, List, arith,
  refl, ap, ◌∙◌, update, Bool-cases, if◌then◌else◌, leb, ltb, ◌||◌, not, ne→==-false, ==_iff,
  Option-cases, pos, negsuc, ltb_ℤ,
}
use gat_os_v.Process.{blocked, Pid, Processes}
use gat_os_v.Outcome.{goes_on, after_yield}
use gat_os_v.Mutex.{Mutex, Table, is_valid_mutex, lock_mutex, get_mutex}
use gat_os_v.Mutex.Waiting.{times}
use gat_os_v.Mutex.HandOver.{IsConsistent, lock_mutex_free, lock_mutex_held}
use gat_os_v.Mutex.Kept.{kept, kept-IsConsistent, kept-held, kept-room, is_valid_mutex-kept}
use gat_os_v.Buddy.{null}
use gat_os_v.Ipc.{
  Ipc, max_pipes, is_null, name_at, middle_space_from, get_middle_space, find_place,
  get_pipe_name_index, create_pipe_struct,
}
use gat_os_v.Ipc.Calls.{
  slash_n, open_found, open_pipe, build_pipe, create_named, create_locked, create_pipe, blank_table,
  set_admin, initialize_pipes,
}

-- A table without a free place has none in the middle.
no_middle_space :
    (n i : ℕ) (ipc : Ipc)
    → ((k : ℕ) → i ≤ k → k < i + n → is_null (ipc.pipe_names k) ≡ false)
    → middle_space_from n i ipc ≡ none
unfolding middle_space_from
no_middle_space zero i ipc full = refl
no_middle_space (suc n) i ipc full =
    rw (full i (omega arith) (omega arith))
      (no_middle_space n (i + 1) ipc (λ k le lt. full k (omega arith) (omega arith)))

blank-named :
    (ipc : Ipc) (k : ℕ) → k < max_pipes → is_null ((blank_table slash_n ipc).pipe_names k) ≡ false
blank-named ipc k lt = let below : leb max_pipes k ≡ false = ground arith in rw below refl

place_taken :
    (ipc : Ipc) (n : ℕ)
    → (not (ltb_ℤ (pos n) (pos max_pipes))
        || not (is_null ((blank_table slash_n ipc).pipe_names n)))
      ≡ true
place_taken ipc n = elim (Bool-cases (ltb (n + 0) (max_pipes + 0))) [
  | inl below ↦ rw (below, blank-named ipc n (ground arith)) refl
  | inr above ↦ rw above refl
]

-- The table as `initializePipes` leaves it has no place for a pipe.
no_place :
    (ipc : Ipc) (a n : ℕ)
    → ipc.last_pipe_name ≡ pos n
    → let ipc' = set_admin a (blank_table slash_n ipc) in
      find_place ipc' ≡ (false, record ipc' { last_pipe_name = negsuc 0 })
unfolding find_place
no_place ipc a n e =
    let ipc' : Ipc = set_admin a (blank_table slash_n ipc) in
    let none_free : get_middle_space ipc' ≡ none =
      no_middle_space max_pipes 0 ipc' (λ k le lt. blank-named ipc k (omega arith)) in
    let test : (not (ltb_ℤ ipc'.last_pipe_name (pos max_pipes))
          || not (is_null (name_at ipc'.last_pipe_name ipc')))
        ≡ true =
      rw e (place_taken ipc n) in
    rw (test, none_free) refl

module _ (P : Processes) where
  open P use {State, current_pid, change_state, yield_process}

  -- When `initializePipes` ends, with the index `k` for the mutex of the pipes, and that mutex is valid,
  -- consistent and free: `createPipe` of any name returns NULL, and keeps the mutex.
  pub create_pipe_initialized :
      (find : State → Pid → ℕ) (stray : Pid) (outside k n : ℕ) (at_null admin_name : List ℕ)
      (name : Option (List ℕ)) (ipc : Ipc) (t0 t : Table) (s0 s : State)
      → get_mutex P stray at_null admin_name (t0, s0) ≡ goes_on (some k, (t, s))
      → ipc.last_pipe_name ≡ pos n
      → is_valid_mutex k t ≡ true
      → IsConsistent (t k)
      → (t k).mutex ≡ 0
      → (ipc' : Ipc) × (initialize_pipes P stray outside at_null admin_name (ipc, (t0, s0))
          ≡ goes_on (k, (ipc', (t, s))))
        × (create_pipe P find stray outside at_null name (ipc', (t, s))
            ≡ goes_on (null, (record ipc' { last_pipe_name = negsuc 0 }, (kept k t, s))))
  unfolding initialize_pipes create_pipe create_locked
  create_pipe_initialized find stray outside k n at_null admin_name name ipc t0 t s0 s got e valid c
        free =
      let ipc' : Ipc = set_admin k (blank_table slash_n ipc) in
      (ipc', rw got refl, rw (lock_mutex_free P stray k t s valid c free, no_place ipc k n e) refl)

  -- A `getMutex` that finds the administration mutex held.
  get_mutex-waits :
      (stray : Pid) (at_null name : List ℕ) (t : Table) (s s1 : State) (m : Mutex)
      → lock_mutex P stray 0 (t, s) ≡ after_yield (yield_process s1) (λ s'. (update t 0 m, s'))
      → get_mutex P stray at_null name (t, s)
        ≡ after_yield (yield_process s1) (λ s'. (none, (update t 0 m, s')))
  unfolding get_mutex
  get_mutex-waits stray at_null name t s s1 m e = elim (Option-cases (yield_process s1)) [
    | inl nobody ↦ rw (e, nobody) refl
    | inr (s2, chosen) ↦ rw (e, chosen) refl
  ]

  build_pipe-waits :
      (stray : Pid) (outside pro : ℕ) (at_null name : List ℕ) (ipc : Ipc) (t : Table) (s s1 : State)
      (m : Mutex)
      → lock_mutex P stray 0 (t, s) ≡ after_yield (yield_process s1) (λ s'. (update t 0 m, s'))
      → build_pipe P stray outside at_null name pro (ipc, (t, s))
        ≡ after_yield
            (yield_process s1)
            (λ s'. (outside, ((create_pipe_struct pro name ipc).1, (update t 0 m, s'))))
  unfolding build_pipe
  build_pipe-waits stray outside pro at_null name ipc t s s1 m e =
      let waits = get_mutex-waits stray at_null name t s s1 m e in
      elim (Option-cases (yield_process s1)) [
        | inl nobody ↦ rw (waits, nobody) refl
        | inr (s2, chosen) ↦ rw (waits, chosen) refl
      ]

  -- With `ipcAdminMutex` 0, as it is when nothing sets it, and the mutex 0, which is the administration
  -- mutex of `getMutex`, valid, consistent and free: `createPipe` of a name, with a place in the table
  -- and a process found for the caller, takes that mutex, and its `getMutex` then blocks the caller on
  -- it. The caller is in the queue of the mutex that it holds itself.
  pub create_pipe_stuck :
      (find : State → Pid → ℕ) (stray : Pid) (outside p : ℕ) (at_null name : List ℕ) (ipc : Ipc)
      (t : Table) (s : State)
      → ipc.ipc_admin_mutex ≡ 0
      → is_valid_mutex 0 t ≡ true
      → IsConsistent (t 0)
      → (t 0).mutex ≡ 0
      → current_pid s ≡ some p
      → find_place ipc ≡ (true, ipc)
      → find s (some p) ≢ null
      → (m : Mutex) × (create_pipe P find stray outside at_null (some name) (ipc, (t, s))
          ≡ after_yield (yield_process (change_state (some p) blocked s)) (λ s'. (
            outside,
            ((create_pipe_struct (find s (some p)) name ipc).1, (update (kept 0 t) 0 m, s')),
          )))
        × (m.mutex ≡ 1)
        × (times p m.queue ≡ times p (kept 0 t 0).queue + 1)
  unfolding create_pipe create_locked create_named
  create_pipe_stuck find stray outside p at_null name ipc t s admin valid c free caller place
        found =
      let (m, waits, _, held, entries) =
        lock_mutex_held P stray 0 p (kept 0 t) s (is_valid_mutex-kept 0 t valid)
          (kept-IsConsistent 0 t c) (kept-held 0 t) (kept-room 0 t c free) caller in
      let lock : lock_mutex P stray ipc.ipc_admin_mutex (t, s) ≡ goes_on (kept 0 t, s) =
        ap (λ k. lock_mutex P stray k (t, s)) admin ∙ lock_mutex_free P stray 0 t s valid c free in
      (
        m,
        rw (lock, place, caller, ne→==-false (find s (some p)) null found)
            (build_pipe-waits stray outside (find s (some p)) at_null name ipc (kept 0 t) s _ m
              waits),
        held,
        entries p ∙ ap (λ b. times p (t 0).queue + (if b then 1 else 0)) ((==_iff p p).1 refl),
      )

  open_pipe-missing :
      (stray : Pid) (at_null name : List ℕ) (ipc : Ipc) (t t1 : Table) (s : State)
      → lock_mutex P stray ipc.ipc_admin_mutex (t, s) ≡ goes_on (t1, s)
      → get_pipe_name_index at_null name ipc ≡ none
      → open_pipe P stray at_null name (ipc, (t, s)) ≡ goes_on (null, (ipc, (t1, s)))
  unfolding open_pipe open_found
  open_pipe-missing stray at_null name ipc t t1 s e missing = rw (e, missing) refl

  open_pipe-waits :
      (stray : Pid) (at_null name : List ℕ) (ipc : Ipc) (t : Table) (s s1 : State) (m : Mutex)
      → let k = ipc.ipc_admin_mutex in
        lock_mutex P stray k (t, s) ≡ after_yield (yield_process s1) (λ s'. (update t k m, s'))
        → open_pipe P stray at_null name (ipc, (t, s))
          ≡ after_yield (yield_process s1) (λ s'. (null, (ipc, (update t k m, s'))))
  unfolding open_pipe
  open_pipe-waits stray at_null name ipc t s s1 m e = elim (Option-cases (yield_process s1)) [
    | inl nobody ↦ rw (e, nobody) refl
    | inr (s2, chosen) ↦ rw (e, chosen) refl
  ]

  -- `openPipe` of a name that no pipe has returns NULL and keeps the mutex of the pipes, where that is
  -- valid, consistent and free: whoever calls `openPipe` next, with whatever name, is blocked on it.
  open_pipe_stuck :
      (stray : Pid) (p : ℕ) (at_null name name' : List ℕ) (ipc : Ipc) (t : Table) (s s' : State)
      → let k = ipc.ipc_admin_mutex in
        is_valid_mutex k t ≡ true
        → IsConsistent (t k)
        → (t k).mutex ≡ 0
        → get_pipe_name_index at_null name ipc ≡ none
        → current_pid s' ≡ some p
        → (open_pipe P stray at_null name (ipc, (t, s)) ≡ goes_on (null, (ipc, (kept k t, s))))
          × (m : Mutex) × (open_pipe P stray at_null name' (ipc, (kept k t, s'))
              ≡ after_yield
                  (yield_process (change_state (some p) blocked s'))
                  (λ s2. (null, (ipc, (update (kept k t) k m, s2)))))
  open_pipe_stuck stray p at_null name name' ipc t s s' valid c free missing caller =
      let k : ℕ = ipc.ipc_admin_mutex in
      let (m, waits, _, _, _) =
        lock_mutex_held P stray k p (kept k t) s' (is_valid_mutex-kept k t valid)
          (kept-IsConsistent k t c) (kept-held k t) (kept-room k t c free) caller in
      (
        open_pipe-missing stray at_null name ipc t (kept k t) s
            (lock_mutex_free P stray k t s valid c free) missing,
        m,
        open_pipe-waits stray at_null name' ipc (kept k t) s' _ m waits,
      )
