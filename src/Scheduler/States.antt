-- ===== src/Scheduler/States.antt =====
-- The states of the processes as a client sees them, by pid.
use gat_os_v.Base.{
  ℕ, zero, suc, ◌≡◌, inl, inr, true, false, Option, none, some, arith, refl, ap, ◌∙◌, Bool-cases,
  ne→==-false, ◌==◌, if◌then◌else◌,
}
use gat_os_v.Process.{ProcessState, Pid, same_pid, set_if, Processes, Pointers, is_dead}
use gat_os_v.Scheduler.{
  Scheduler, next_of, pid_at, state_at, set_state, get_current_pid, get_current_process,
  change_loop, change_process_state, next_process,
}

state_loop : ℕ → ℕ → ℕ → Scheduler → Option ProcessState
state_loop zero slot q s = none
state_loop (suc n) slot q s =
    let rest = state_loop n (next_of s slot) q s in
    if pid_at s slot == q then some (state_at s slot) else rest

-- The state of the first process of the ring that has the pid.
unfoldable pub state_of : Scheduler → ℕ → Option ProcessState
unfolding state_loop
state_of s q = state_loop s.cardinal_processes s.current q s

pub next-set_state :
    (a : ℕ) (v : ProcessState) (s : Scheduler) (j : ℕ) → next_of (set_state a v s) j ≡ next_of s j
next-set_state a v s j = ground arith

pub pid-set_state :
    (a : ℕ) (v : ProcessState) (s : Scheduler) (j : ℕ) → pid_at (set_state a v s) j ≡ pid_at s j
pid-set_state a v s j = ground arith

pub state-set_state :
    (a : ℕ) (v : ProcessState) (s : Scheduler) (j : ℕ)
    → state_at (set_state a v s) j ≡ (if a == j then v else state_at s j)
state-set_state a v s j = ground arith

module _ (p : Pid) (v : ProcessState) (s : Scheduler) where
  next-change_loop : (n slot j : ℕ) → next_of (change_loop n slot p v s) j ≡ next_of s j
  unfolding change_loop
  next-change_loop zero slot j = refl
  next-change_loop (suc n) slot j = elim (Bool-cases (same_pid p (pid_at s slot))) [
    | inl e ↦ rw e (next-set_state slot v s j)
    | inr e ↦ rw e (next-change_loop n (next_of s slot) j)
  ]

  pid-change_loop : (n slot j : ℕ) → pid_at (change_loop n slot p v s) j ≡ pid_at s j
  unfolding change_loop
  pid-change_loop zero slot j = refl
  pid-change_loop (suc n) slot j = elim (Bool-cases (same_pid p (pid_at s slot))) [
    | inl e ↦ rw e (pid-set_state slot v s j)
    | inr e ↦ rw e (pid-change_loop n (next_of s slot) j)
  ]

  current-change_loop : (n slot : ℕ) → (change_loop n slot p v s).current ≡ s.current
  unfolding change_loop
  current-change_loop zero slot = refl
  current-change_loop (suc n) slot = elim (Bool-cases (same_pid p (pid_at s slot))) [
    | inl e ↦ rw e
    | inr e ↦ rw e (current-change_loop n (next_of s slot))
  ]

  cardinal-change_loop :
      (n slot : ℕ) → (change_loop n slot p v s).cardinal_processes ≡ s.cardinal_processes
  unfolding change_loop
  cardinal-change_loop zero slot = refl
  cardinal-change_loop (suc n) slot = elim (Bool-cases (same_pid p (pid_at s slot))) [
    | inl e ↦ rw e
    | inr e ↦ rw e (cardinal-change_loop n (next_of s slot))
  ]

  -- A slot whose process has another pid keeps its state.
  state-change_loop_ne :
      (n slot j : ℕ)
      → same_pid p (pid_at s j) ≡ false
      → state_at (change_loop n slot p v s) j ≡ state_at s j
  unfolding change_loop
  state-change_loop_ne zero slot j out = refl
  state-change_loop_ne (suc n) slot j out = elim (Bool-cases (same_pid p (pid_at s slot))) [
    | inl e ↦ rw e (
        state-set_state slot v s j
        ∙ rw (ne→==-false slot j (λ same. cc (e, out, ap (λ t. same_pid p (pid_at s t)) same))))
    | inr e ↦ rw e (state-change_loop_ne n (next_of s slot) j out)
  ]

-- The look-up of a pid passes over a change to a process with another pid.
state_loop-set_state :
    (n slot a q : ℕ) (v : ProcessState) (s : Scheduler)
    → (pid_at s a == q) ≡ false
    → state_loop n slot q (set_state a v s) ≡ state_loop n slot q s
unfolding state_loop
state_loop-set_state zero slot a q v s ne = refl
state_loop-set_state (suc n) slot a q v s ne = elim (Bool-cases (pid_at s slot == q)) [
  | inl e ↦ rw (
    pid-set_state a v s slot,
    e,
    state-set_state a v s slot,
    ne→==-false a slot (λ same. cc (e, ne, ap (λ t. pid_at s t == q) same)),
  )
  | inr e ↦
      rw (pid-set_state a v s slot, e, next-set_state a v s slot)
        (state_loop-set_state n (next_of s slot) a q v s ne)
]

set_if-false : (v : ProcessState) (r : Option ProcessState) → set_if false v r ≡ r
set_if-false v none = refl
set_if-false v (some x) = refl

same_pid_at : (p : Pid) (a q : ℕ) → (a == q) ≡ true → same_pid p q ≡ same_pid p a
same_pid_at p a q e = ap (same_pid p) (ground arith)

-- One pid cannot be that of two different numbers.
same_pid_ne : (p : Pid) (a q : ℕ) → (a == q) ≡ false → same_pid p a ≡ true → same_pid p q ≡ false
same_pid_ne none a q ne e = cc
same_pid_ne (some x) a q ne e = ground arith

change_loop_hit :
    (n slot : ℕ) (p : Pid) (v : ProcessState) (s : Scheduler)
    → same_pid p (pid_at s slot) ≡ true
    → change_loop (suc n) slot p v s ≡ set_state slot v s
unfolding change_loop
change_loop_hit n slot p v s e = rw e

change_loop_miss :
    (n slot : ℕ) (p : Pid) (v : ProcessState) (s : Scheduler)
    → same_pid p (pid_at s slot) ≡ false
    → change_loop (suc n) slot p v s ≡ change_loop n (next_of s slot) p v s
unfolding change_loop
change_loop_miss n slot p v s e = rw e

state_loop-change_loop :
    (n slot q : ℕ) (p : Pid) (v : ProcessState) (s : Scheduler)
    → state_loop n slot q (change_loop n slot p v s)
      ≡ set_if (same_pid p q) v (state_loop n slot q s)
unfolding state_loop
state_loop-change_loop zero slot q p v s = refl
state_loop-change_loop (suc n) slot q p v s =
    rw (pid-change_loop p v s (suc n) slot slot, next-change_loop p v s (suc n) slot slot)
      (elim (Bool-cases (pid_at s slot == q)) [
        | inl here ↦ elim (Bool-cases (same_pid p (pid_at s slot))) [
          | inl hit ↦
              rw (here, same_pid_at p (pid_at s slot) q here, hit)
                (ap some (rw (change_loop_hit n slot p v s hit) (ground arith)))
          | inr miss ↦
              rw (here, same_pid_at p (pid_at s slot) q here, miss)
                (ap some (state-change_loop_ne p v s (suc n) slot slot miss))
        ]
        | inr away ↦ elim (Bool-cases (same_pid p (pid_at s slot))) [
          | inl hit ↦
              rw (away, same_pid_ne p (pid_at s slot) q away hit)
                (rw
                  (
                    change_loop_hit n slot p v s hit,
                    set_if-false v (state_loop n (next_of s slot) q s),
                  )
                  (state_loop-set_state n (next_of s slot) slot q v s away))
          | inr miss ↦
              rw (away, change_loop_miss n slot p v s miss)
                (state_loop-change_loop n (next_of s slot) q p v s)
        ]
      ])

-- `changeProcessState` sets the state that is seen for the pid it is given, where there is a process
-- with that pid, and changes no other.
pub state_of-change_process_state :
    (s : Scheduler) (p : Pid) (v : ProcessState) (q : ℕ)
    → state_of (change_process_state p v s) q ≡ set_if (same_pid p q) v (state_of s q)
unfolding state_of change_process_state
state_of-change_process_state s p v q =
    rw
      (
        current-change_loop p v s s.cardinal_processes s.current,
        cardinal-change_loop p v s s.cardinal_processes s.current,
      )
      (state_loop-change_loop s.cardinal_processes s.current q p v s)

pub get_current_pid-change_process_state :
    (s : Scheduler) (p : Pid) (v : ProcessState)
    → get_current_pid (change_process_state p v s) ≡ get_current_pid s
unfolding get_current_pid change_process_state
get_current_pid-change_process_state s p v = rw (
  current-change_loop p v s s.cardinal_processes s.current,
  pid-change_loop p v s s.cardinal_processes s.current s.current,
)

-- The scheduler as the synchronisation code uses it. `rsp` is the stack pointer that a yield saves.
abbrev pub scheduler : ℕ → Processes
scheduler rsp = record {
  State = Scheduler;
  current_pid = get_current_pid;
  state_of = state_of;
  change_state = change_process_state;
  yield_process = next_process rsp;
  state_of-change_state = state_of-change_process_state;
  current_pid-change_state = get_current_pid-change_process_state;
}

abbrev pub scheduler_pointers : (rsp : ℕ) → Pointers (scheduler rsp)
scheduler_pointers rsp = record {
  current_process = get_current_process;
  pid_of = pid_at;
  is_dead = λ s a. is_dead (state_at s a);
}
