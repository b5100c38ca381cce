-- ===== src/Scheduler.antt =====
-- Kernel/scheduler.c: the ring of process slots. Slots lie in a store, by address; 0 is NULL.
-- Each slot has its own process (`newProcessSlot` is the only writer of `slot->process`), so the
-- process is kept in the slot. `_yield` raises the timer interrupt, whose handler calls `schedule`.
pub mod Ring
pub mod States
pub mod Schedule
pub mod Fair
pub mod Edit
pub mod Remove
use gat_os_v.Base.{
  ℕ, zero, suc, ◌+◌, ◌-◌, ◌%◌, Bool, true, false, ◌&&◌, Option, none, some, not, ◌==◌, ltb,
  if◌then◌else◌, update,
}
use gat_os_v.Process.{
  ProcessState, running, ready, blocked, dead, sleeping, is_running, is_ready, Thread, Process, Pid,
  same_pid,
}

abbrev pub null : ℕ
null = 0

-- `ProcessSlot`
pub record Slot : Type 0 where
  pub next : ℕ
  pub process : Process

-- The static variables of scheduler.c, the slots, and the counter `pid` of process.c.
pub record Scheduler : Type 0 where
  pub slots : ℕ → Slot
  pub current : ℕ
  pub cardinal_processes : ℕ
  pub next_pid : ℕ

abbrev pub next_of : Scheduler → ℕ → ℕ
next_of s a = (s.slots a).next

abbrev pub process_at : Scheduler → ℕ → Process
process_at s a = (s.slots a).process

abbrev pub pid_at : Scheduler → ℕ → ℕ
pid_at s a = (process_at s a).pid

abbrev pub state_at : Scheduler → ℕ → ProcessState
state_at s a = (process_at s a).state

-- `slot->process->state = v` and `slot->next = n`
abbrev pub set_state : ℕ → ProcessState → Scheduler → Scheduler
set_state a v s = record s {
  slots = update s.slots a (record (s.slots a) { process = record (process_at s a) { state = v } });
}

abbrev pub set_next : ℕ → ℕ → Scheduler → Scheduler
set_next a n s = record s { slots = update s.slots a (record (s.slots a) { next = n }) }

-- `getCurrentPid`
unfoldable pub get_current_pid : Scheduler → Pid
get_current_pid s = if s.current == null then none else some (pid_at s s.current)

-- `newProcessSlot`, at the address that `allocPage` returns. The `next` of a new slot is not set.
unfoldable pub new_process_slot : ℕ → Process → Scheduler → Scheduler
new_process_slot a p s = record s { slots = update s.slots a (record (s.slots a) { process = p }) }

-- `addProcess`
unfoldable pub add_process : ℕ → Process → Scheduler → Scheduler
unfolding new_process_slot
add_process a p s =
    let s1 = new_process_slot a p s in
    if s1.current == null
    then set_next a a (record s1 { current = a })
    else let next = next_of s1 s1.current in set_next a next (set_next s1.current a s1)

-- The fields that `getProcess` sets for a process with one thread.
unfoldable pub get_process : Thread → Scheduler → Process × Scheduler
get_process t s = (
  record {
    pid = s.next_pid;
    state = ready;
    active_thread = 0;
    number_of_threads = 1;
    thread = update (λ _. none) 0 (some t);
  },
  record s { next_pid = s.next_pid + 1 },
)

-- `createProcess`
unfoldable pub create_process : ℕ → Thread → Scheduler → ℕ × Scheduler
unfolding get_process add_process
create_process a t s =
    let (p, s1) = get_process t s in
    let s2 = add_process a p s1 in
    (p.pid, record s2 { cardinal_processes = s2.cardinal_processes + 1 })

-- `getProcessById`: the code indexes the slots as an array from `current` on, and a slot has 16
-- bytes. The result is the address of the slot whose process it returns.
unfoldable pub get_process_by_id_loop : ℕ → ℕ → ℕ → Scheduler → Option ℕ
get_process_by_id_loop zero slot pid s = none
get_process_by_id_loop (suc n) slot pid s =
    let rest = get_process_by_id_loop n (slot + 16) pid s in
    if pid_at s slot == pid then some slot else rest

unfoldable pub get_process_by_id : ℕ → Scheduler → Option ℕ
unfolding get_process_by_id_loop
get_process_by_id pid s = get_process_by_id_loop s.cardinal_processes s.current pid s

-- The loop of `changeProcessState`.
unfoldable pub change_loop : ℕ → ℕ → Pid → ProcessState → Scheduler → Scheduler
change_loop zero slot pid v s = s
change_loop (suc n) slot pid v s =
    let rest = change_loop n (next_of s slot) pid v s in
    if same_pid pid (pid_at s slot) then set_state slot v s else rest

-- `getCurrentProcess`; a process is named by the address of its slot.
unfoldable pub get_current_process : Scheduler → ℕ
get_current_process s = s.current

-- `changeProcessState`
unfoldable pub change_process_state : Pid → ProcessState → Scheduler → Scheduler
unfolding change_loop
change_process_state pid v s = change_loop s.cardinal_processes s.current pid v s

-- The loop of `schedule`: the first READY slot from `slot` on, on fuel.
unfoldable pub schedule_loop : ℕ → ℕ → Scheduler → Option ℕ
schedule_loop zero slot s = none
schedule_loop (suc fuel) slot s =
    let rest = schedule_loop fuel (next_of s slot) s in
    if is_ready (state_at s slot) then some slot else rest

-- The first statement of `schedule`.
unfoldable pub demote_current : Scheduler → Scheduler
demote_current s = if is_running (state_at s s.current) then set_state s.current ready s else s

-- `schedule`. One turn round the ring is fuel enough: from then on the loop sees the same slots.
unfoldable pub schedule : Scheduler → Option Scheduler
unfolding schedule_loop demote_current
schedule s =
    let s1 = demote_current s in
    elim (schedule_loop s1.cardinal_processes (next_of s1 s1.current) s1) [
      | none ↦ none
      | some slot ↦ some (set_state slot running (record s1 { current = slot }))
    ]

-- `current->process->thread[current->process->activeThread]->userStack = rsp`
abbrev pub save_stack : ℕ → Scheduler → Scheduler
save_stack rsp s =
    let p = process_at s s.current in
    elim (p.thread p.active_thread) [
      | none ↦ s
      | some t ↦ record s {
        slots = update s.slots s.current (record (s.slots s.current) {
          process = record p {
            thread = update p.thread p.active_thread (some (record t { user_stack = rsp }));
          };
        });
      }
    ]

-- `next_process`, called by `_yield` and by the timer interrupt with the stack pointer of the
-- process that stops. The stack that it returns is that of the process that goes on.
unfoldable pub next_process : ℕ → Scheduler → Option Scheduler
unfolding schedule
next_process rsp s = if s.current == null then some s else schedule (save_stack rsp s)

-- The search loop of `removeProcess`: `prevSlot`, `slotToRemove` and `i` when it ends.
unfoldable pub remove_loop : ℕ → ℕ → ℕ → ℕ → ℕ → Scheduler → ℕ × ℕ × ℕ
remove_loop zero pid prev slot i s = (prev, slot, i)
remove_loop (suc n) pid prev slot i s =
    let rest = remove_loop n pid slot (next_of s slot) (i + 1) s in
    if pid_at s slot == pid then (prev, slot, i) else rest

-- The end of `removeProcess`, from the search loop on.
unfoldable pub unlink_found : ℕ → ℕ → ℕ → ℕ → Scheduler → Option Scheduler
unfolding next_process
unlink_found rsp prev slot i s =
    if i == s.cardinal_processes
    then some s
    else let s1 = set_next prev (next_of s slot) s in
      let s2 = record s1 { cardinal_processes = s1.cardinal_processes - 1 } in
      if pid_at s2 slot == pid_at s2 s2.current then next_process rsp s2 else some s2

-- `removeProcess`, with the stack pointer that a `_yield` saves. `freeProcessPages`, which it calls
-- for the last process, writes to the page allocator only, and is not modelled here.
unfoldable pub remove_process : ℕ → ℕ → Scheduler → Option Scheduler
unfolding next_process remove_loop unlink_found
remove_process rsp pid s =
    if pid == 0
    then next_process rsp s
    else if s.current == null
    then some s
    else if pid_at s s.current == pid_at s (next_of s s.current) && pid_at s s.current == pid
    then some (record s { current = null; cardinal_processes = s.cardinal_processes - 1 })
    else let found = remove_loop s.cardinal_processes pid s.current (next_of s s.current) 0 s in
      unlink_found rsp found.0 found.1 found.2 s
