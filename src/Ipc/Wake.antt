-- ===== src/Ipc/Wake.antt =====
-- `write` of Kernel/IPC.c: the bytes that it puts into the pipe, and the processes that it wakes.
use gat_os_v.Base.{
  ℕ, zero, suc, ◌+◌, ◌-◌, ◌≤◌, ◌≡◌, Bool, true, false, ◌||◌, some, List, ◌++◌, refl, ap, ap₂, ◌∙◌,
  update, update_self, length, take, min, pos_part,
}
use gat_os_v.Process.{ready, Pid, same_pid, set_if, set_if-twice, set_if-nobody, Processes}
use gat_os_v.Outcome.{goes_on}
use gat_os_v.Mutex.{Table, is_valid_mutex, free_mutex}
use gat_os_v.Mutex.HandOver.{IsConsistent, lock_mutex_free}
use gat_os_v.Mutex.Kept.{kept, free_mutex-kept}
use gat_os_v.Pipe.{Pipe, pipe_length, is_full}
use gat_os_v.Pipe
use gat_os_v.Pipe.Contents.{IsPipe, size, contents}
use gat_os_v.Pipe.Write.{write_lem}
use gat_os_v.Ipc.{Link, Ipc, string, load_pid}
use gat_os_v.Ipc.Calls.{
  entry_from, wake_list, wake_entry, unlock_processes, write_locked, write_pipe,
}

-- Whether the pid is among `n` entries of a list from index `j` on.
abbrev pub listed : ℕ → ℕ → ℕ → Ipc → ℕ → Bool
listed zero j list ipc q = false
listed (suc n) j list ipc q = same_pid (load_pid list j ipc.memory) q || listed n (j + 1) list ipc q

-- The table of names is all that the search looks at.
entry-link :
    (at_null name : List ℕ) (n i : ℕ) (ipc : Ipc) (link : ℕ → Link)
    → entry_from at_null name n i (record ipc { link = link }) ≡ entry_from at_null name n i ipc
unfolding entry_from
entry-link at_null name zero i ipc link = refl
entry-link at_null name (suc n) i ipc link = rw (entry-link at_null name n (i + 1) ipc link) refl

module _ (P : Processes) where
  open P use {State, current_pid, change_state, state_of, state_of-change_state}

  -- All the processes of the list are READY, and no other changes.
  wake_loop_lem :
      (n j list q : ℕ) (ipc : Ipc) (s : State)
      → state_of (wake_list P n j list ipc s) q
        ≡ set_if (listed n j list ipc q) ready (state_of s q)
  unfolding wake_list
  wake_loop_lem zero j list q ipc s = set_if-nobody ready (state_of s q)
  wake_loop_lem (suc n) j list q ipc s =
      let p : Pid = load_pid list j ipc.memory in
      wake_loop_lem n (j + 1) list q ipc (change_state p ready s)
      ∙ ap (set_if (listed n (j + 1) list ipc q) ready) (state_of-change_state s p ready q)
      ∙ set_if-twice ready (same_pid p q) (listed n (j + 1) list ipc q) (state_of s q)

  -- The pipe at `p` without waiting processes, and the state once they are READY.
  abbrev woken : ℕ → Ipc → Ipc
  woken p ipc = record ipc {
    link = update ipc.link p (record (ipc.link p) { cardinal_blocked = 0 });
  }

  unlock-entry :
      (at_null name : List ℕ) (i p : ℕ) (ipc : Ipc) (s : State)
      → entry_from at_null name (pos_part ipc.last_pipe_name) 0 ipc ≡ some i
      → ipc.pipes i ≡ p
      → unlock_processes P at_null name ipc s
        ≡ (woken p ipc, wake_list P (ipc.link p).cardinal_blocked 0 (ipc.link p).blocked ipc s)
  unfolding unlock_processes wake_entry
  unlock-entry at_null name i p ipc s known here = rw (known, here) refl

  abbrev with_ring : Pipe → ℕ → Ipc → Ipc
  with_ring ring p ipc = record ipc {
    link = update ipc.link p (record (ipc.link p) { ring = ring });
  }

  write_locked-room :
      (at_null message : List ℕ) (i p : ℕ) (ipc : Ipc) (t : Table) (s : State)
      → let l = ipc.link p in
        let out = Pipe.write message l.ring in
        let ipc1 = with_ring out.1 p ipc in
        is_full l.ring ≡ false
        → entry_from at_null (string at_null l.name) (pos_part ipc.last_pipe_name) 0 ipc ≡ some i
        → ipc.pipes i ≡ p
        → write_locked P at_null p message (ipc, (t, s)) ≡ (
          out.0,
          (
            woken p ipc1,
            free_mutex P l.mutex (t, wake_list P l.cardinal_blocked 0 l.blocked ipc1 s),
          ),
        )
  unfolding write_locked
  write_locked-room at_null message i p ipc t s room known here =
      let l : Link = ipc.link p in
      let ring : Pipe = (Pipe.write message l.ring).1 in
      let l1 : Link = record l { ring = ring } in
      let ipc1 : Ipc = with_ring ring p ipc in
      let at_p : ipc1.link p ≡ l1 = update_self ipc.link p l1 in
      let unlocked =
        unlock-entry at_null (string at_null l.name) i p ipc1 s
          (entry-link at_null (string at_null l.name) (pos_part ipc.last_pipe_name) 0 ipc _ ∙ known)
          here in
      let same : ((woken p ipc1).link p).mutex ≡ l.mutex =
        ap (λ (x : Link). x.mutex)
          (update_self ipc1.link p (record (ipc1.link p) { cardinal_blocked = 0 }))
        ∙ ap (λ (x : Link). x.mutex) at_p in
      let awake : wake_list P (ipc1.link p).cardinal_blocked 0 (ipc1.link p).blocked ipc1 s
          ≡ wake_list P l.cardinal_blocked 0 l.blocked ipc1 s =
        ap (λ (x : Link). wake_list P x.cardinal_blocked 0 x.blocked ipc1 s) at_p in
      rw (room, unlocked)
        (ap₂
          (λ (k : ℕ) (s' : State).
            ((Pipe.write message l.ring).0, (woken p ipc1, free_mutex P k (t, s'))))
          same awake)

  -- The list of a pipe is in the memory, and not in its structure.
  listed-link :
      (n j list q : ℕ) (ipc ipc' : Ipc)
      → ipc'.memory ≡ ipc.memory
      → listed n j list ipc' q ≡ listed n j list ipc q
  listed-link zero j list q ipc ipc' e = refl
  listed-link (suc n) j list q ipc ipc' e =
      ap₂ ◌||◌ (ap (λ m. same_pid (load_pid list j m) q) e)
        (listed-link n (j + 1) list q ipc ipc' e)

  -- `write` of a message that is not empty, to a pipe with room that the table holds under its name,
  -- where the mutex of the pipe is valid, consistent and free: the bytes of the message that there is
  -- room for stand behind those that wait, every process in the list of the pipe is READY and no other
  -- changes, the list is empty, and the mutex is free again.
  pub write_pipe_lem :
      (stray : Pid) (at_null message : List ℕ) (i p q : ℕ) (ipc : Ipc) (t : Table) (s : State)
      → let l = ipc.link p in
        is_valid_mutex l.mutex t ≡ true
        → IsConsistent (t l.mutex)
        → (t l.mutex).mutex ≡ 0
        → IsPipe l.ring
        → is_full l.ring ≡ false
        → 1 ≤ length message
        → entry_from at_null (string at_null l.name) (pos_part ipc.last_pipe_name) 0 ipc ≡ some i
        → ipc.pipes i ≡ p
        → let bytes = min (length message) (pipe_length - size l.ring) in
          (ipc' : Ipc) × (t' : Table) × (s' : State) × (write_pipe P stray at_null p message
              (ipc, (t, s))
            ≡ goes_on (bytes, (ipc', (t', s'))))
          × (contents (ipc'.link p).ring ≡ contents l.ring ++ take bytes message)
          × ((ipc'.link p).cardinal_blocked ≡ 0)
          × ((t' l.mutex).mutex ≡ 0)
          × (state_of s' q
              ≡ set_if (listed l.cardinal_blocked 0 l.blocked ipc q) ready (state_of s q))
  unfolding write_pipe
  write_pipe_lem stray at_null message i p q ipc t s valid c free ring room some_message known
        here =
      let l : Link = ipc.link p in
      let out : ℕ × Pipe = Pipe.write message l.ring in
      let ipc1 : Ipc = with_ring out.1 p ipc in
      let s' : State = wake_list P l.cardinal_blocked 0 l.blocked ipc1 s in
      let (_, count, appended) = write_lem message l.ring ring some_message in
      let (t', given, open') = free_mutex-kept P l.mutex t s' valid c free in
      let at_p : (woken p ipc1).link p ≡ record (ipc1.link p) { cardinal_blocked = 0 } =
        update_self ipc1.link p (record (ipc1.link p) { cardinal_blocked = 0 }) in
      let ran : write_locked P at_null p message (ipc, (kept l.mutex t, s))
          ≡ (min (length message) (pipe_length - size l.ring), (woken p ipc1, (t', s'))) =
        write_locked-room at_null message i p ipc (kept l.mutex t) s room known here
        ∙ ap₂ (λ (b : ℕ) (m : Table × State). (b, (woken p ipc1, m))) count given in
      (
        woken p ipc1,
        t',
        s',
        rw (lock_mutex_free P stray l.mutex t s valid c free) (ap goes_on ran),
        ap (λ (x : Link). contents x.ring) at_p
            ∙ ap (λ (x : Link). contents x.ring)
                (update_self ipc.link p (record l { ring = out.1 }))
            ∙ appended
            ∙ ap (λ n. contents l.ring ++ take n message) count,
        ap (λ (x : Link). x.cardinal_blocked) at_p,
        open',
        wake_loop_lem l.cardinal_blocked 0 l.blocked q ipc1 s
            ∙ ap (λ b. set_if b ready (state_of s q))
                (listed-link l.cardinal_blocked 0 l.blocked q ipc ipc1 refl),
      )
