-- ===== src/Cond.antt =====
-- Kernel/condVariable.c: condition variables over the mutexes of `Lock`. An operation ends where it
-- gives up the processor; `fuel` bounds the queues, and pages for nodes are arguments. Keys are natural
-- numbers; for a negative one each operation but `cond_open` returns NOT_OPEN_ERROR at once.
pub mod Signals
pub mod Broadcast
use gat_os_v.Base.{
  ℕ, zero, suc, ◌+◌, Bool, true, false, ◌&&◌, Option, none, some, List, [], ◌∷◌, ◌++◌, ◌==◌, ltb,
  if◌then◌else◌, update, ℤ, pos, negsuc, is_zero,
}
use gat_os_v.Process.{ready, blocked, Processes, Pointers}
use gat_os_v.Outcome.{Outcome, goes_on, spins, ◌>>=◌, after_yield, map_outcome}
use gat_os_v.Strings.{strcmp}
use gat_os_v.Copy.{Bytes}
use gat_os_v.Text.{itoa}
use gat_os_v.Queue.{null, Heap, create_queue, is_empty, enqueue, dequeue, destroy_queue}
use gat_os_v.Lock.{Memory, mutex_open, mutex_close, mutex_lock, mutex_unlock, not_open_error}

abbrev pub max_cond_var : ℕ
max_cond_var = 128

abbrev pub max_cond_open_error : ℤ
max_cond_open_error = negsuc 1

-- `COND_LOCK_IDENTIFIER`, "__COND_ARRAY_LOCK__"
abbrev pub cond_lock_identifier : List ℕ
cond_lock_identifier =
    95 ∷ 95 ∷ 67 ∷ 79 ∷ 78 ∷ 68 ∷ 95 ∷ 65 ∷ 82 ∷ 82 ∷ 65 ∷ 89 ∷ 95 ∷ 76 ∷ 79 ∷ 67 ∷ 75 ∷ 95 ∷ 95
    ∷ []

-- `cond_variable`
pub record CondVariable : Type 0 where
  pub name : List ℕ
  pub state : ℕ
  pub lock_queue : ℤ
  pub process_queue : ℕ

-- `is_open` of a key that is not negative
unfoldable pub is_cond_open : ℕ → (ℕ → CondVariable) → Bool
is_cond_open key conds = ltb key max_cond_var && (conds key).state == 1

-- How the loop of `cond_open` ends.
pub data CondPlace : Type 0 where
  found vacant : ℕ → CondPlace
  exhausted : CondPlace

unfoldable pub cond_loop : ℕ → ℕ → List ℕ → (ℕ → CondVariable) → CondPlace
cond_loop zero i name conds = exhausted
cond_loop (suc rounds) i name conds =
    let rest = cond_loop rounds (i + 1) name conds in
    if (conds i).state == 1
    then (if is_zero (strcmp (conds i).name name) then found i else rest)
    else vacant i

-- The first `n` bytes from `a` on.
unfoldable pub bytes_at : Bytes → ℕ → ℕ → List ℕ
bytes_at m a zero = []
bytes_at m a (suc n) = m a ∷ bytes_at m (a + 1) n

-- The name that `create_new_cond` makes for the lock of a queue: `itoa` into `aux`, and the identifier
-- copied behind it.
unfoldable pub lock_name : ℕ → ℕ → Bytes → List ℕ
unfolding bytes_at
lock_name key aux m =
    let (digits, m1) = itoa (pos key) aux 10 m in bytes_at m1 aux digits ++ cond_lock_identifier

-- The variables of the module, over the memory of the mutexes.
pub record Conds (P : Processes) : Type 0 where
  pub conds : ℕ → CondVariable
  pub array_lock : ℤ
  pub memory : Memory P

module _ (P : Processes) (X : Pointers P) where
  open P use {State, change_state, yield_process}

  abbrev with_memory : Conds P → ℤ × Memory P → Conds P
  with_memory c (result, m) = record c { memory = m }

  -- The calls of `mutex_lock` and `mutex_unlock`, whose results the code does not look at.
  unfoldable pub locking : ℕ → ℤ → Conds P → Outcome (Conds P)
  locking page key c = map_outcome (with_memory c) (mutex_lock P X page key c.memory)

  abbrev unlocked : Conds P → Option (ℤ × Memory P) → Outcome (Conds P)
  unlocked c none = spins
  unlocked c (some out) = goes_on (with_memory c out)

  unfoldable pub unlocking : ℕ → ℤ → Conds P → Outcome (Conds P)
  unlocking fuel key c = unlocked c (mutex_unlock P X fuel key c.memory)

  abbrev set_heap : Heap → Conds P → Conds P
  set_heap h c = record c { memory = record c.memory { heap = h } }

  -- `changeProcessState(p->pid, READY)`
  abbrev pub wake : ℕ → Conds P → Conds P
  wake p c = record c {
    memory = record c.memory {
      sched = change_state (some (X.pid_of c.memory.sched p)) ready c.memory.sched;
    };
  }

  -- `initialize_conditional_variable`
  unfoldable pub initialize_conditional_variable : ℕ → Conds P → Outcome (Conds P)
  initialize_conditional_variable page c =
      map_outcome (λ out. record c { array_lock = out.0; memory = out.1 })
        (mutex_open P X cond_lock_identifier page c.memory)

  -- `create_new_cond`, with the pages of the two queues
  unfoldable pub create_new_cond : ℕ → List ℕ → ℕ → ℕ → ℕ → Bytes → Conds P → Outcome (Conds P)
  create_new_cond key name page1 page2 aux stack c =
      map_outcome
        (λ out. record c {
          conds =
              update c.conds key
                (record { name = name; state = 1; lock_queue = out.0; process_queue = page2 });
          memory = record out.1 { heap = create_queue page2 out.1.heap };
        })
        (mutex_open P X (lock_name key aux stack) page1 c.memory)

  -- `cond_open` between its calls of `mutex_lock` and `mutex_unlock`
  unfoldable pub cond_open_at :
      CondPlace → List ℕ → ℕ → ℕ → ℕ → Bytes → Conds P → Outcome (ℤ × Conds P)
  cond_open_at (found i) name page1 page2 aux stack c = goes_on (pos i, c)
  cond_open_at exhausted name page1 page2 aux stack c = goes_on (max_cond_open_error, c)
  cond_open_at (vacant i) name page1 page2 aux stack c =
      map_outcome (λ c. (pos i, c)) (create_new_cond i name page1 page2 aux stack c)

  -- The result is 0 as long as it is not known.
  abbrev begin : Conds P → ℤ × Conds P
  begin c = (pos 0, c)

  unfoldable pub cond_open : ℕ → List ℕ → ℕ → ℕ → ℕ → ℕ → Bytes → Conds P → Outcome (ℤ × Conds P)
  cond_open fuel name page page1 page2 aux stack c =
      map_outcome begin (locking page c.array_lock c)
      >>= (λ out.
          cond_open_at (cond_loop max_cond_var 0 name out.1.conds) name page1 page2 aux stack out.1)
      >>= (λ out. map_outcome (λ c. (out.0, c)) (unlocking fuel out.1.array_lock out.1))

  -- `sync_enqueue`, with the pages for the two nodes
  unfoldable pub sync_enqueue : ℕ → ℕ → ℕ → ℕ → ℕ → Conds P → Outcome (Conds P)
  sync_enqueue fuel page1 page2 key p c =
      let v = c.conds key in
      locking page1 v.lock_queue c >>= (λ c1.
        unlocking fuel v.lock_queue (set_heap (enqueue v.process_queue p page2 c1.memory.heap) c1))

  -- `sync_dequeue`: between the lock and its release
  unfoldable pub take_first : ℕ → Conds P → ℕ × Conds P
  take_first q c =
      if is_empty q c.memory.heap
      then (null, c)
      else ((dequeue q c.memory.heap).0, set_heap (dequeue q c.memory.heap).1 c)

  unfoldable pub sync_dequeue : ℕ → ℕ → ℕ → Conds P → Outcome (ℕ × Conds P)
  sync_dequeue fuel page key c =
      let v = c.conds key in
      map_outcome (λ c1. (null, c1)) (locking page v.lock_queue c) >>= (λ out.
        let (p, c2) = take_first v.process_queue out.1 in
        map_outcome (λ c3. (p, c3)) (unlocking fuel v.lock_queue c2))

  -- `cond_wait` up to its `_yield`; when the process is chosen again, it goes on with the `mutex_lock`
  -- of `lock_key`.
  unfoldable pub cond_wait : ℕ → ℕ → ℕ → ℕ → ℤ → Conds P → Outcome (ℤ × Conds P)
  cond_wait fuel page1 page2 key lock_key c =
      let p = X.current_process c.memory.sched in
      let waits = unlocking fuel lock_key c >>= sync_enqueue fuel page1 page2 key p >>= (λ c1.
        after_yield
          (yield_process (change_state (some (X.pid_of c1.memory.sched p)) blocked c1.memory.sched))
          (λ s. record c1 { memory = record c1.memory { sched = s } })) in
      if is_cond_open key c.conds
      then map_outcome (λ c2. (pos 1, c2)) waits
      else goes_on (not_open_error, c)

  -- The end of `cond_signal`
  abbrev pub wake_first : ℕ × Conds P → ℤ × Conds P
  wake_first (p, c) = (pos 1, if p == null then c else wake p c)

  unfoldable pub cond_signal : ℕ → ℕ → ℕ → Conds P → Outcome (ℤ × Conds P)
  cond_signal fuel page key c =
      let signals = map_outcome wake_first (sync_dequeue fuel page key c) in
      if is_cond_open key c.conds then signals else goes_on (not_open_error, c)

  -- The loop of `cond_broadcast`, on fuel.
  unfoldable pub wake_loop : ℕ → ℕ → Conds P → Conds P
  wake_loop zero q c = c
  wake_loop (suc fuel) q c =
      let (p, h) = dequeue q c.memory.heap in
      let rest = wake_loop fuel q (wake p (set_heap h c)) in
      if is_empty q c.memory.heap then c else rest

  unfoldable pub cond_broadcast : ℕ → ℕ → ℕ → Conds P → Outcome (ℤ × Conds P)
  cond_broadcast fuel page key c =
      let v = c.conds key in
      let wakes =
        locking page v.lock_queue c
        >>= (λ c1. unlocking fuel v.lock_queue (wake_loop fuel v.process_queue c1)) in
      if is_cond_open key c.conds
      then map_outcome (λ c2. (pos 1, c2)) wakes
      else goes_on (not_open_error, c)

  -- `cond_close`
  unfoldable pub cond_close : ℕ → ℕ → ℕ → ℕ → Conds P → Outcome (ℤ × Conds P)
  cond_close stray fuel page key c =
      let v = c.conds key in
      let closes = cond_broadcast fuel page key c >>= (λ out.
        let c1 = set_heap (destroy_queue fuel v.process_queue out.1.memory.heap) out.1 in
        map_outcome
          (λ closed. (
            pos 1,
            record c1 {
              conds = update c1.conds key (record (c1.conds key) { state = 0 });
              memory = closed.1;
            },
          ))
          (mutex_close P X stray fuel v.lock_queue c1.memory)) in
      if is_cond_open key c.conds then closes else goes_on (not_open_error, c)
