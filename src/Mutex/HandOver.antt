-- ===== src/Mutex/HandOver.antt =====
-- `lockMutex` and `freeMutex`: who holds the mutex, and who waits for it.
use gat_os_v.Base.{
  ℕ, ◌+◌, ◌-◌, ◌≤◌, ◌<◌, ◌≡◌, ◌⊎◌, inl, inr, true, false, some, arith, refl, ap, ◌∙◌, length,
  lt→ltb, ◌==◌, Bool-cases, if◌then◌else◌, update, update_self,
}
use gat_os_v.Process.{blocked, ready, Pid, Processes, set_if}
use gat_os_v.Outcome.{goes_on, after_yield}
use gat_os_v.Mutex.{
  Mutex, Table, max_blocked_queue_size, add_to_blocked, add_waiting, take_waiting, is_valid_mutex,
  is_queue_full, test_and_set, lock_mutex, free_mutex,
}
use gat_os_v.Mutex.Waiting.{waiting, times, Added, add_waiting_lem, Taken, take_waiting_lem}

-- The counter counts the queue, and nobody waits for a mutex that is free.
pub record IsConsistent (m : Mutex) : Type 0 where
  pub places : length m.queue ≡ max_blocked_queue_size
  pub counted : waiting m.queue ≡ m.cardinal_blocked
  pub held : 0 < m.cardinal_blocked → m.mutex ≡ 1
  pub flag : m.mutex ≤ 1

-- On a consistent mutex the exchange of eight bytes, which reaches into `cardinalBlocked`, acts as
-- one on the `int` alone: it succeeds exactly when the mutex is free, and writes only the flag.
test_and_set_lem :
    (m : Mutex)
    → IsConsistent m
    → ((m.mutex ≡ 0) × (test_and_set m ≡ (true, record m { mutex = 1 })))
      ⊎ ((m.mutex ≡ 1) × (test_and_set m ≡ (false, m)))
unfolding test_and_set
test_and_set_lem m c = elim (Bool-cases (m.mutex == 0)) [
  | inl free ↦
      let none_wait : m.cardinal_blocked ≡ 0 = ground (arith, c.held) in
      inl (ground arith, rw (free, none_wait) (ground arith))
  | inr held ↦ inr (ground (arith, c.flag), rw held)
]

not_full : (m : Mutex) → m.cardinal_blocked < max_blocked_queue_size → is_queue_full m ≡ false
unfolding is_queue_full
not_full m room = ground arith

is_full : (m : Mutex) → max_blocked_queue_size ≤ m.cardinal_blocked → is_queue_full m ≡ true
unfolding is_queue_full
is_full m full = ground arith

Added-IsConsistent :
    (p : ℕ) (m : Mutex)
    → IsConsistent m
    → m.mutex ≡ 1
    → Added p m.queue m.cardinal_blocked (add_waiting (some p) m.queue m.cardinal_blocked)
    → IsConsistent (add_to_blocked (some p) m)
unfolding add_to_blocked
Added-IsConsistent p m c held a = record {
  places = a.same_length ∙ c.places;
  counted = omega (arith, a.more, a.counted, c.counted);
  held = λ h. held;
  flag = c.flag;
}

-- The mutex after `unblockProcess` and the decrement.
abbrev served : Mutex → Mutex
served m = record m { queue = (take_waiting m.queue).1; cardinal_blocked = m.cardinal_blocked - 1 }

Taken-IsConsistent :
    (m : Mutex)
    → IsConsistent m
    → 0 < m.cardinal_blocked
    → Taken m.queue (take_waiting m.queue)
    → IsConsistent (served m)
Taken-IsConsistent m c h r = record {
  places = r.same_length ∙ c.places;
  counted = omega (arith, r.less, c.counted);
  held = λ _. c.held h;
  flag = c.flag;
}

module _ (P : Processes) where
  open P use {State, current_pid, change_state, yield_process, state_of}

  -- `lockMutex` of a valid, consistent mutex that is free takes it and keeps the processor; nothing
  -- else changes.
  pub lock_mutex_free :
      (stray : Pid) (i : ℕ) (t : Table) (s : State)
      → is_valid_mutex i t ≡ true
      → IsConsistent (t i)
      → (t i).mutex ≡ 0
      → lock_mutex P stray i (t, s) ≡ goes_on (update t i (record (t i) { mutex = 1 }), s)
  unfolding lock_mutex
  lock_mutex_free stray i t s valid c free = elim (test_and_set_lem (t i) c) [
    | inl (_, e) ↦ rw (valid, e, lock_mutex)
    | inr (held, _) ↦ absurd (omega arith)
  ]

  -- `lockMutex` of a valid, consistent mutex that is held, with room in its queue, puts the caller
  -- into the queue once, blocks it and gives up the processor; the mutex stays held and consistent.
  pub lock_mutex_held :
      (stray : Pid) (i p : ℕ) (t : Table) (s : State)
      → is_valid_mutex i t ≡ true
      → IsConsistent (t i)
      → (t i).mutex ≡ 1
      → (t i).cardinal_blocked < max_blocked_queue_size
      → current_pid s ≡ some p
      → (m : Mutex) × (lock_mutex P stray i (t, s)
          ≡ after_yield
              (yield_process (change_state (some p) blocked s))
              (λ s'. (update t i m, s')))
        × IsConsistent m
        × (m.mutex ≡ 1)
        × ((q : ℕ) → times q m.queue ≡ times q (t i).queue + (if q == p then 1 else 0))
  unfolding lock_mutex
  lock_mutex_held stray i p t s valid c held room cur = elim (test_and_set_lem (t i) c) [
    | inl (free, _) ↦ absurd (omega arith)
    | inr (_, e) ↦
        let a =
          add_waiting_lem p (t i).queue (t i).cardinal_blocked
            (omega (arith, c.counted, c.places)) in
        (
          add_to_blocked (some p) (t i),
          rw (valid, e, not_full (t i) room, cur, lock_mutex),
          Added-IsConsistent p (t i) c held a,
          held,
          a.entries,
        )
  ]

  -- `lockMutex` of a valid, consistent mutex that is held, with a full queue, does not put the
  -- caller into the queue: it blocks whatever process the variable that is not set names, and gives
  -- up the processor.
  lock_mutex_full :
      (stray : Pid) (i : ℕ) (t : Table) (s : State)
      → is_valid_mutex i t ≡ true
      → IsConsistent (t i)
      → (t i).mutex ≡ 1
      → max_blocked_queue_size ≤ (t i).cardinal_blocked
      → lock_mutex P stray i (t, s)
        ≡ after_yield (yield_process (change_state stray blocked s)) (λ s'. (update t i (t i), s'))
  unfolding lock_mutex
  lock_mutex_full stray i t s valid c held full = elim (test_and_set_lem (t i) c) [
    | inl (free, _) ↦ absurd (omega arith)
    | inr (_, e) ↦ rw (valid, e, is_full (t i) full, lock_mutex)
  ]

  free_mutex_idle :
      (i : ℕ) (t : Table) (s : State)
      → is_valid_mutex i t ≡ true
      → (t i).cardinal_blocked ≡ 0
      → free_mutex P i (t, s) ≡ (update t i (record (t i) { mutex = 0 }), s)
  unfolding free_mutex
  free_mutex_idle i t s valid z = rw (valid, z)

  free_mutex_busy :
      (i : ℕ) (t : Table) (s : State)
      → is_valid_mutex i t ≡ true
      → 0 < (t i).cardinal_blocked
      → free_mutex P i (t, s)
        ≡ (update t i (served (t i)), change_state (take_waiting (t i).queue).0 ready s)
  unfolding free_mutex
  free_mutex_busy i t s valid h = rw (valid, lt→ltb 0 (t i).cardinal_blocked h)

  -- `freeMutex` of a valid, consistent mutex keeps it consistent. With nobody waiting it frees the
  -- mutex and no process changes. With somebody waiting the mutex stays locked: one of the waiting
  -- processes leaves the queue and is READY, where there is such a process, and no other state
  -- changes.
  pub free_mutex_lem :
      (i : ℕ) (t : Table) (s : State)
      → is_valid_mutex i t ≡ true
      → IsConsistent (t i)
      → let (t', s') = free_mutex P i (t, s) in
        IsConsistent (t' i)
        × (((waiting (t i).queue ≡ 0) × ((t' i).mutex ≡ 0) × (s' ≡ s))
            ⊎ ((p : ℕ) × ((t' i).mutex ≡ 1)
                × ((q : ℕ) → times q (t' i).queue + (if q == p then 1 else 0) ≡ times q (t i).queue)
                × ((q : ℕ) → state_of s' q ≡ set_if (p == q) ready (state_of s q))))
  unfolding free_mutex
  free_mutex_lem i t s valid c = elim (count_cases (t i).cardinal_blocked) [
    | inl z ↦
        let m : Mutex = record (t i) { mutex = 0 } in
        rw (free_mutex_idle i t s valid z, update_self t i m)
          (
            record {
              places = c.places;
              counted = c.counted;
              held = λ h. absurd (omega arith);
              flag = omega arith;
            },
            inl (c.counted ∙ z, refl, refl),
          )
    | inr some_wait ↦
        let r = take_waiting_lem (t i).queue (omega (arith, c.counted)) in
        let m : Mutex = served (t i) in
        rw (free_mutex_busy i t s valid some_wait, update_self t i m, r.found)
          (
            Taken-IsConsistent (t i) c some_wait r,
            inr (
              r.pid,
              c.held some_wait,
              r.entries,
              λ q.
                  P.state_of-change_state s (some r.pid) ready q
                  ∙ ap (λ b. set_if b ready (state_of s q)) (eq_sym q r.pid),
            ),
          )
  ]
    where
      count_cases : (n : ℕ) → (n ≡ 0) ⊎ (0 < n)
      count_cases n = grind arith

      eq_sym : (a b : ℕ) → (a == b) ≡ (b == a)
      eq_sym a b = ground arith
