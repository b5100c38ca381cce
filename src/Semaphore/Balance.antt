-- ===== src/Semaphore/Balance.antt =====
-- The value of a semaphore: below zero it counts the processes that wait.
use gat_os_v.Base.{
  ℕ, suc, ◌+◌, ◌-◌, ◌<◌, ◌≡◌, ◌⊎◌, inl, inr, true, some, arith, refl, sym, ap, ◌∙◌, length, lt→ltb,
  ◌==◌, if◌then◌else◌, update, update_self, pos, pos_part, neg_part, ◌+ℤ◌, ◌-ℤ◌, ◌≤◌, to_int,
  to_int-fits, int_max, up_pos, up_neg, down_neg, down_pos,
}
use gat_os_v.Process.{blocked, ready, Processes, set_if}
use gat_os_v.Outcome.{goes_on, after_yield}
use gat_os_v.Mutex.{Table, max_blocked_queue_size, take_waiting, free_mutex}
use gat_os_v.Mutex.Waiting.{waiting, waiting-le, times, add_waiting_lem, Taken, take_waiting_lem}
use gat_os_v.Semaphore.{
  Semaphore, Semaphores, is_valid_semaphore, add_to_sem_blocked, signal, wait_locked,
}

-- The value is the free units, or minus the number of processes in the queue.
pub record IsBalanced (s : Semaphore) : Type 0 where
  pub places : length s.queue ≡ max_blocked_queue_size
  pub counted : waiting s.queue ≡ s.cardinal_blocked
  pub deficit : neg_part s.semaphore ≡ s.cardinal_blocked

-- The semaphore after `unblockProcessSemaphore`, the decrement and the increment.
abbrev served : Semaphore → Semaphore
served s = record s {
  queue = (take_waiting s.queue).1;
  cardinal_blocked = s.cardinal_blocked - 1;
  semaphore = to_int (s.semaphore +ℤ pos 1);
}

served-IsBalanced :
    (s : Semaphore)
    → IsBalanced s
    → to_int (s.semaphore +ℤ pos 1) ≡ s.semaphore +ℤ pos 1
    → Taken s.queue (take_waiting s.queue)
    → IsBalanced (served s)
served-IsBalanced s b fits r = record {
  places = r.same_length ∙ b.places;
  counted = omega (arith, r.less, b.counted);
  deficit = omega (arith, ap neg_part fits, up_neg s.semaphore, b.deficit);
}

module _ (P : Processes) where
  open P use {State, current_pid, change_state, yield_process, state_of}

  signal_idle :
      (i : ℕ) (sems : Semaphores) (t : Table) (s : State)
      → is_valid_semaphore i sems ≡ true
      → (sems i).cardinal_blocked ≡ 0
      → signal P i (sems, (t, s)) ≡ (
        update sems i (record (sems i) { semaphore = to_int ((sems i).semaphore +ℤ pos 1) }),
        (t, s),
      )
  unfolding signal
  signal_idle i sems t s valid z = rw (valid, z)

  signal_busy :
      (i : ℕ) (sems : Semaphores) (t : Table) (s : State)
      → is_valid_semaphore i sems ≡ true
      → 0 < (sems i).cardinal_blocked
      → signal P i (sems, (t, s)) ≡ (
        update sems i (served (sems i)),
        (t, change_state (take_waiting (sems i).queue).0 ready s),
      )
  unfolding signal
  signal_busy i sems t s valid h = rw (valid, lt→ltb 0 (sems i).cardinal_blocked h)

  -- `signal` on a valid, balanced semaphore whose value is below the greatest `int` adds one to the
  -- value, keeps the semaphore balanced and touches no mutex. When somebody waits, one process
  -- leaves the queue and becomes READY, where there is such a process, and no other state changes;
  -- otherwise no process changes.
  pub signal_lem :
      (i : ℕ) (sems : Semaphores) (t : Table) (s : State)
      → is_valid_semaphore i sems ≡ true
      → IsBalanced (sems i)
      → pos_part (sems i).semaphore < int_max
      → let (sems', (t', s')) = signal P i (sems, (t, s)) in
        IsBalanced (sems' i)
        × ((sems' i).semaphore ≡ (sems i).semaphore +ℤ pos 1)
        × (t' ≡ t)
        × (((waiting (sems i).queue ≡ 0) × (s' ≡ s))
            ⊎ ((p : ℕ) × ((q : ℕ)
                  → times q (sems' i).queue + (if q == p then 1 else 0) ≡ times q (sems i).queue)
                × ((q : ℕ) → state_of s' q ≡ set_if (q == p) ready (state_of s q))))
  unfolding signal
  signal_lem i sems t s valid b below =
      let queue_in : neg_part (sems i).semaphore ≤ 20 =
        omega (arith, b.deficit, b.counted, b.places, waiting-le (sems i).queue) in
      let fits : to_int ((sems i).semaphore +ℤ pos 1) ≡ (sems i).semaphore +ℤ pos 1 =
        to_int-fits ((sems i).semaphore +ℤ pos 1) (omega (arith, up_pos (sems i).semaphore))
          (omega (arith, up_neg (sems i).semaphore)) in
      elim (zero_or_pos (sems i).cardinal_blocked) [
        | inl z ↦
            let m : Semaphore = record (sems i) {
              semaphore = to_int ((sems i).semaphore +ℤ pos 1);
            } in
            rw (signal_idle i sems t s valid z, update_self sems i m)
              (
                record {
                  places = b.places;
                  counted = b.counted;
                  deficit =
                      omega (arith, ap neg_part fits, up_neg (sems i).semaphore, b.deficit, z);
                },
                fits,
                refl,
                inl (b.counted ∙ z, refl),
              )
        | inr some_wait ↦
            let r = take_waiting_lem (sems i).queue (omega (arith, b.counted)) in
            let m : Semaphore = served (sems i) in
            rw (signal_busy i sems t s valid some_wait, update_self sems i m, r.found)
              (
                served-IsBalanced (sems i) b fits r,
                fits,
                refl,
                inr (r.pid, r.entries, λ q. P.state_of-change_state s (some r.pid) ready q),
              )
      ]
    where
      zero_or_pos : (n : ℕ) → (n ≡ 0) ⊎ (0 < n)
      zero_or_pos n = grind arith

  -- `wait`, once it holds the mutex of a balanced semaphore with a free unit, takes the unit, frees
  -- the mutex and keeps the processor; the semaphore stays balanced.
  wait_locked_free :
      (i n : ℕ) (sems : Semaphores) (t : Table) (s : State)
      → IsBalanced (sems i)
      → (sems i).semaphore ≡ pos (suc n)
      → n ≤ int_max
      → (m : Semaphore) × (wait_locked P i (sems, (t, s))
          ≡ goes_on (update sems i m, free_mutex P (sems i).mutex (t, s)))
        × (m.semaphore ≡ pos n)
        × IsBalanced m
  unfolding wait_locked
  wait_locked_free i n sems t s b value small = (
    record (sems i) { semaphore = pos n },
    rw (value, down_pos n, to_int-fits (pos n) small (omega arith), wait_locked),
    refl,
    record { places = b.places; counted = b.counted; deficit = sym_deficit },
  )
    where
      sym_deficit : 0 ≡ (sems i).cardinal_blocked
      sym_deficit = ap neg_part (sym value) ∙ b.deficit

  -- `wait`, once it holds the mutex of a balanced semaphore without a free unit and with room in
  -- the queue, takes one from the value, puts the caller into the queue once, blocks it, frees the
  -- mutex and gives up the processor; the semaphore stays balanced.
  pub wait_locked_empty :
      (i p : ℕ) (sems : Semaphores) (t : Table) (s : State)
      → IsBalanced (sems i)
      → pos_part (sems i).semaphore ≡ 0
      → (sems i).cardinal_blocked < max_blocked_queue_size
      → current_pid s ≡ some p
      → let (t', s') = free_mutex P (sems i).mutex (t, change_state (some p) blocked s) in
        (m : Semaphore) × (wait_locked P i (sems, (t, s))
          ≡ after_yield (yield_process s') (λ s2. (update sems i m, (t', s2))))
        × (m.semaphore ≡ (sems i).semaphore -ℤ pos 1)
        × IsBalanced m
        × ((q : ℕ) → times q m.queue ≡ times q (sems i).queue + (if q == p then 1 else 0))
  unfolding wait_locked add_to_sem_blocked
  wait_locked_empty i p sems t s b no_unit room cur =
      let a =
        add_waiting_lem p (sems i).queue (sems i).cardinal_blocked
          (omega (arith, b.counted, b.places)) in
      let down = down_neg (sems i).semaphore no_unit in
      let fits : to_int ((sems i).semaphore -ℤ pos 1) ≡ (sems i).semaphore -ℤ pos 1 =
        to_int-fits ((sems i).semaphore -ℤ pos 1) (omega (arith, ap pos_part down))
          (omega (arith, ap neg_part down, b.deficit)) in
      (
        add_to_sem_blocked (some p)
            (record (sems i) { semaphore = to_int ((sems i).semaphore -ℤ pos 1) }),
        rw (fits ∙ down, cur),
        fits,
        record {
          places = a.same_length ∙ b.places;
          counted = omega (arith, a.more, a.counted, b.counted);
          deficit = ap neg_part (fits ∙ down) ∙ omega (arith, a.counted, b.deficit);
        },
        a.entries,
      )
