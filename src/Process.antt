-- ===== src/Process.antt =====
-- Kernel/include/structs.h and scheduler.h: processes, their states, and what the synchronisation
-- code uses of the scheduler, as an interface with its laws.
use gat_os_v.Base.{ℕ, ◌≡◌, refl, ◌||◌, Bool, true, false, Option, none, some, ◌==◌, if◌then◌else◌}

-- `processState`
pub data ProcessState : Type 0 where
  running ready blocked dead sleeping : ProcessState

abbrev pub is_running : ProcessState → Bool
is_running running = true
is_running _ = false

abbrev pub is_ready : ProcessState → Bool
is_ready ready = true
is_ready _ = false

abbrev pub is_dead : ProcessState → Bool
is_dead dead = true
is_dead _ = false

-- `Thread`
pub record Thread : Type 0 where
  pub user_stack : ℕ
  pub kernel_stack : ℕ
  pub entry_point : ℕ

-- `Process`, less the fields that belong to pipes and to the heap. `thread` is an array of
-- MAX_THREADS pointers; `none` is NULL.
pub record Process : Type 0 where
  pub pid : ℕ
  pub state : ProcessState
  pub active_thread : ℕ
  pub number_of_threads : ℕ
  pub thread : ℕ → Option Thread

-- A pid of -1 is `none`: `getCurrentPid` returns it when there is no process, and the arrays of
-- waiting processes hold it in their free places.
abbrev pub Pid : Type 0
Pid = Option ℕ

abbrev pub same_pid : Pid → ℕ → Bool
same_pid none p = false
same_pid (some q) p = p == q

-- `a == b` on pids
abbrev pub eq_pid : Pid → Pid → Bool
eq_pid none none = true
eq_pid none (some b) = false
eq_pid (some a) none = false
eq_pid (some a) (some b) = a == b

abbrev pub set_if {ℓ} : {A : Type ℓ} → Bool → A → Option A → Option A
set_if b a none = none
set_if b a (some x) = some (if b then a else x)

pub set_if-twice {ℓ} :
    {A : Type ℓ} (v : A) (a b : Bool) (o : Option A)
    → set_if b v (set_if a v o) ≡ set_if (a || b) v o
set_if-twice v a b none = refl
set_if-twice v true true (some x) = refl
set_if-twice v true false (some x) = refl
set_if-twice v false b (some x) = refl

pub set_if-nobody {ℓ} : {A : Type ℓ} (v : A) (o : Option A) → o ≡ set_if false v o
set_if-nobody v none = refl
set_if-nobody v (some x) = refl

-- `getCurrentPid`, `changeProcessState` and `_yield`. A yield is `none` when no process is READY,
-- where the scheduler goes round for ever.
pub record Processes : Type 1 where
  pub State : Type 0
  pub current_pid : State → Pid
  pub state_of : State → ℕ → Option ProcessState
  pub change_state : Pid → ProcessState → State → State
  pub yield_process : State → Option State
  pub state_of-change_state :
      (s : State) (p : Pid) (v : ProcessState) (q : ℕ)
      → state_of (change_state p v s) q ≡ set_if (same_pid p q) v (state_of s q)
  pub current_pid-change_state :
      (s : State) (p : Pid) (v : ProcessState) → current_pid (change_state p v s) ≡ current_pid s

-- What the code does with a `Process *`: `getCurrentProcess`, `p->pid`, and `p->state == DEAD`. A
-- process is named by its address; at NULL they read what lies there.
pub record Pointers (P : Processes) : Type 0 where
  pub current_process : P.State → ℕ
  pub pid_of : P.State → ℕ → ℕ
  pub is_dead : P.State → ℕ → Bool
