-- ===== src/Ipc/Waits.antt =====
-- `read` of Kernel/IPC.c: the bytes that it takes, and the list of those that wait for some.
use gat_os_v.Base.{
  ℕ, ◌+◌, ◌*◌, ◌/◌, ◌%◌, ◌^◌, ◌≤◌, ◌<◌, ◌≡◌, true, false, some, List, [], arith, refl, ap, ap₂, ◌∙◌,
  subst, update, update_self, update_ne, take, drop, ℤ, ne→==-false,
}
use gat_os_v.Process.{blocked, Pid, Processes}
use gat_os_v.Outcome.{goes_on, after_yield}
use gat_os_v.Mutex.{Table, is_valid_mutex}
use gat_os_v.Mutex.HandOver.{IsConsistent, lock_mutex_free}
use gat_os_v.Mutex.Kept.{free_mutex-kept}
use gat_os_v.Copy.{Bytes}
use gat_os_v.Pipe.{Pipe, rounds, is_drained}
use gat_os_v.Pipe
use gat_os_v.Pipe.Contents.{IsPipe, contents}
use gat_os_v.Pipe.Read.{read_lem}
use gat_os_v.Ipc.{
  Link, PipeOwner, Ipc, store_int, word_pid, load_pid, store_pid, new_link, size_of_int,
  max_process_pipes,
}
use gat_os_v.Ipc.Calls.{read_waits, read_locked, read_pipe}

-- The four bytes of an integer that is written, and those before it.
store_int-bytes :
    (a w : ℕ) (m : Bytes)
    → let m' = store_int a w m in
      (m' a ≡ w % 256)
      × (m' (a + 1) ≡ w / 256 % 256)
      × (m' (a + 2) ≡ w / 65536 % 256)
      × (m' (a + 3) ≡ w / 16777216 % 256)
store_int-bytes a w m =
    let m1 : Bytes = update m a (w % 256) in
    let m2 : Bytes = update m1 (a + 1) (w / 256 % 256) in
    let m3 : Bytes = update m2 (a + 2) (w / 65536 % 256) in
    (
      update_ne m3 (a + 3) a _ (λ e. omega arith)
          ∙ update_ne m2 (a + 2) a _ (λ e. omega arith)
          ∙ update_ne m1 (a + 1) a _ (λ e. omega arith)
          ∙ update_self m a (w % 256),
      update_ne m3 (a + 3) (a + 1) _ (λ e. omega arith)
          ∙ update_ne m2 (a + 2) (a + 1) _ (λ e. omega arith)
          ∙ update_self m1 (a + 1) (w / 256 % 256),
      update_ne m3 (a + 3) (a + 2) _ (λ e. omega arith) ∙ update_self m2 (a + 2) (w / 65536 % 256),
      update_self m3 (a + 3) (w / 16777216 % 256),
    )

store_int-below : (a w x : ℕ) (m : Bytes) → x < a → store_int a w m x ≡ m x
store_int-below a w x m lt = ground arith

word_pid-small : (w p : ℕ) → w ≡ p → p < 2 ^ 31 → word_pid w ≡ some p
word_pid-small w p e lt = rw (e, ne→==-false p 0xFFFFFFFF (omega (arith, lt))) refl

-- A pid that is written is read back.
load-store_pid :
    (list j p : ℕ) (m : Bytes) → p < 2 ^ 31 → load_pid list j (store_pid list j (some p) m) ≡ some p
load-store_pid list j p m fine =
    let (b0, b1, b2, b3) = store_int-bytes (list + size_of_int * j) (p % 0x100000000) m in
    word_pid-small _ p (omega (arith, b0, b1, b2, b3, fine)) fine

module _ (P : Processes) where
  open P use {State, current_pid, change_state, yield_process}

  -- `read` of a pipe with nothing in it, where the mutex of the pipe is valid, consistent and free: the
  -- caller is blocked and stands in the list of the pipe, behind those that are there, the mutex is
  -- free again, and the processor is given up.
  pub read_pipe_waits :
      (stray : Pid) (p q : ℕ) (bytes : ℤ) (ipc : Ipc) (t : Table) (s : State)
      → let l = ipc.link p in
        is_valid_mutex l.mutex t ≡ true
        → IsConsistent (t l.mutex)
        → (t l.mutex).mutex ≡ 0
        → is_drained l.ring ≡ true
        → current_pid s ≡ some q
        → q < 2 ^ 31
        → (ipc' : Ipc) × (t' : Table) × (read_pipe P stray p bytes (ipc, (t, s))
            ≡ after_yield
                (yield_process (change_state (some q) blocked s))
                (λ s'. ([], (ipc', (t', s')))))
          × (load_pid l.blocked l.cardinal_blocked ipc'.memory ≡ some q)
          × ((ipc'.link p).cardinal_blocked ≡ l.cardinal_blocked + 1)
          × ((t' l.mutex).mutex ≡ 0)
  unfolding read_pipe read_locked read_waits
  read_pipe_waits stray p q bytes ipc t s valid c free drained caller fine =
      let l : Link = ipc.link p in
      let (t', given, open') =
        free_mutex-kept P l.mutex t (change_state (some q) blocked s) valid c free in
      let waiting : Ipc = record ipc {
        memory = store_pid l.blocked l.cardinal_blocked (some q) ipc.memory;
        link = update ipc.link p (record l { cardinal_blocked = l.cardinal_blocked + 1 });
      } in
      (
        waiting,
        t',
        rw (lock_mutex_free P stray l.mutex t s valid c free, drained, caller, given) refl,
        load-store_pid l.blocked l.cardinal_blocked q ipc.memory fine,
        ap (λ (x : Link). x.cardinal_blocked)
            (update_self ipc.link p (record l { cardinal_blocked = l.cardinal_blocked + 1 })),
        open',
      )

  -- `read` of at least one byte, or of -1 for all, from a pipe with something in it, where the mutex of
  -- the pipe is valid, consistent and free: the oldest bytes, as many as are asked for or as there are,
  -- are returned and no longer in the pipe, and the mutex is free again.
  pub read_pipe_lem :
      (stray : Pid) (p : ℕ) (bytes : ℤ) (ipc : Ipc) (t : Table) (s : State)
      → let l = ipc.link p in
        is_valid_mutex l.mutex t ≡ true
        → IsConsistent (t l.mutex)
        → (t l.mutex).mutex ≡ 0
        → IsPipe l.ring
        → is_drained l.ring ≡ false
        → 1 ≤ rounds bytes
        → (ipc' : Ipc) × (t' : Table) × (read_pipe P stray p bytes (ipc, (t, s))
            ≡ goes_on (take (rounds bytes) (contents l.ring), (ipc', (t', s))))
          × (contents (ipc'.link p).ring ≡ drop (rounds bytes) (contents l.ring))
          × ((t' l.mutex).mutex ≡ 0)
  unfolding read_pipe read_locked
  read_pipe_lem stray p bytes ipc t s valid c free ring some_there some_bytes =
      let l : Link = ipc.link p in
      let out : List ℕ × Pipe = Pipe.read bytes l.ring in
      let ipc' : Ipc = record ipc { link = update ipc.link p (record l { ring = out.1 }) } in
      let (_, taken, left) = read_lem bytes l.ring ring some_bytes in
      let (t', given, open') = free_mutex-kept P l.mutex t s valid c free in
      (
        ipc',
        t',
        rw (lock_mutex_free P stray l.mutex t s valid c free, some_there)
            (ap₂ (λ (r : List ℕ) (m : Table × State). goes_on (r, (ipc', m))) taken given),
        ap (λ (x : Link). contents x.ring) (update_self ipc.link p (record l { ring = out.1 }))
            ∙ left,
        open',
      )

overlap_at :
    (a p q : ℕ) (m : Bytes)
    → p < 2 ^ 24
    → 1 ≤ q
    → q < 128
    → load_pid a 0 (store_pid (a + 3) 0 (some q) (store_pid a 0 (some p) m)) ≡ some (p + 2 ^ 24 * q)
overlap_at a p q m small pos fine =
    let x : ℕ = a + size_of_int * 0 in
    let y : ℕ = a + 3 + size_of_int * 0 in
    let m1 : Bytes = store_int x (p % 0x100000000) m in
    let m2 : Bytes = store_int y (q % 0x100000000) m1 in
    let (b0, b1, b2, _) = store_int-bytes x (p % 0x100000000) m in
    let (c0, _, _, _) = store_int-bytes y (q % 0x100000000) m1 in
    let below : (z : ℕ) → z < y → m2 z ≡ m1 z =
      λ z lt. store_int-below y (q % 0x100000000) z m1 lt in
    let d0 : m2 x ≡ p % 0x100000000 % 256 = below x (omega arith) ∙ b0 in
    let d1 : m2 (x + 1) ≡ p % 0x100000000 / 256 % 256 = below (x + 1) (omega arith) ∙ b1 in
    let d2 : m2 (x + 2) ≡ p % 0x100000000 / 65536 % 256 = below (x + 2) (omega arith) ∙ b2 in
    let same : x + 3 ≡ y = omega arith in
    let d3 : m2 (x + 3) ≡ q % 0x100000000 % 256 = ap m2 same ∙ c0 in
    word_pid-small _ (p + 2 ^ 24 * q) (omega (arith, d0, d1, d2, d3, small, fine)) (omega arith)

-- The lists of two neighbouring pipes of a process have a byte in common: once the second pipe has the
-- pid `q` in its first place, the first place of the first pipe no longer holds the pid `p` that was
-- put there before, but one that is larger by 2 ^ 24 times `q`.
pub lists_overlap :
    (own : PipeOwner) (name name' : List ℕ) (index p q : ℕ) (l l' : Link) (m : Bytes)
    → p < 2 ^ 24
    → 1 ≤ q
    → q < 128
    → let first = (new_link own name index l).blocked in
      let second = (new_link own name' (index + 1) l').blocked in
      load_pid first 0 (store_pid second 0 (some q) (store_pid first 0 (some p) m))
      ≡ some (p + 2 ^ 24 * q)
lists_overlap own name name' index p q l l' m small pos fine =
    let a : ℕ = own.blocked + index * max_process_pipes in
    let there : a + 3 ≡ own.blocked + (index + 1) * max_process_pipes = omega arith in
    subst
      (λ b.
        load_pid a 0 (store_pid b 0 (some q) (store_pid a 0 (some p) m)) ≡ some (p + 2 ^ 24 * q))
      there (overlap_at a p q m small pos fine)
