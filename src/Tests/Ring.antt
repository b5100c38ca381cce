-- ===== src/Tests/Ring.antt =====
-- Kernel/scheduler.c at a ring of three processes, of which the second is BLOCKED.
use gat_os_v.Base.{
  ℕ, suc, ◌≤◌, ◌≡◌, ◌⊎◌, Option, none, some, refl, [], ◌∷◌, All, ◌==◌, if◌then◌else◌, false,
}
use gat_os_v.Process.{ProcessState, running, ready, blocked, Thread, is_ready}
use gat_os_v.Scheduler.{
  Slot, Scheduler, process_at, state_at, demote_current, schedule, schedule_loop, remove_process,
}
use gat_os_v.Scheduler.Ring.{IsRing}
use gat_os_v.Scheduler.Schedule.{Scheduled, schedule_lem}
use gat_os_v.Scheduler.Fair.{schedule_times, schedule_serves}
use gat_os_v.Scheduler.Remove.{remove_process_lem}

abbrev pub slot : ℕ → ℕ → ProcessState → Slot
slot next pid state = record {
  next = next;
  process = record {
    pid = pid;
    state = state;
    active_thread = 0;
    number_of_threads = 1;
    thread = λ _. none;
  };
}

abbrev pub three : Scheduler
three = record {
  slots = λ a.
      if a == 10 then slot 20 1 running else if a == 20 then slot 30 2 blocked else slot 10 3 ready;
  current = 10;
  cardinal_processes = 3;
  next_pid = 4;
}

abbrev main_thread : Thread
main_thread = record { user_stack = 4096; kernel_stack = 8192; entry_point = 64 }

three-IsRing : IsRing three (10 ∷ 20 ∷ 30 ∷ [])
three-IsRing = record {
  links = (refl, (refl, (refl, refl)));
  count = refl;
  distinct = ((λ e. cc, (λ e. cc, tt)), ((λ e. cc, tt), (tt, tt)));
  used = (λ e. cc, (λ e. cc, (λ e. cc, tt)));
}

chosen : Option Scheduler → ℕ
chosen none = 0
chosen (some s) = s.current

schedule_skips_blocked : chosen (schedule three) ≡ 30
unfolding chosen schedule schedule_loop demote_current
schedule_skips_blocked = refl

schedule_lem_example :
    ((schedule three ≡ none)
      × All (λ b. is_ready (state_at (demote_current three) b) ≡ false) (20 ∷ 30 ∷ 10 ∷ []))
    ⊎ ((s' : Scheduler) × (schedule three ≡ some s') × Scheduled three 10 (20 ∷ 30 ∷ []) s')
schedule_lem_example = schedule_lem three 10 (20 ∷ 30 ∷ []) three-IsRing

schedule_serves_example :
    (k : ℕ) × (k ≤ 1)
    × (s' : Scheduler) × (schedule_times (suc k) three ≡ some s')
    × (s'.current ≡ 30)
schedule_serves_example =
    schedule_serves three 10 (20 ∷ 30 ∷ []) (20 ∷ []) 30 (10 ∷ []) three-IsRing refl refl

remove_process_lem_example :
    (s' : Scheduler) × (remove_process 0 3 three ≡ some s')
    × IsRing s' (10 ∷ 20 ∷ [])
    × ((j : ℕ) → process_at s' j ≡ process_at three j)
remove_process_lem_example =
    remove_process_lem 0 3 three 10 (20 ∷ []) 30 [] three-IsRing (λ e. cc) (λ e. cc) (λ e. cc, tt)
      refl
