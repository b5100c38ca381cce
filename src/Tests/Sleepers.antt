-- ===== src/Tests/Sleepers.antt =====
-- Kernel/interrupts.c over the scheduler of `Ring`: the process 3 waits for its second tick, and the
-- process 2 for its third.
use gat_os_v.Base.{
  ℕ, ◌≡◌, Bool, Option, none, some, false, List, [], ◌∷◌, refl, arith, ◌==◌, ltb, if◌then◌else◌,
  pos, true,
}
use gat_os_v.Process.{ready, Pid, Processes, set_if}
use gat_os_v.Scheduler.{Scheduler}
use gat_os_v.Scheduler.States.{state_of, scheduler}
use gat_os_v.Video.{print_msg}
use gat_os_v.Sleep.{
  Sleepers, add_sleep, tick_round, done_sleeping, delete_sleep, tick_loop, timer_tick_handler,
}
use gat_os_v.Sleep.Tally.{Entry, tally}
use gat_os_v.Sleep.Tick.{picked, stays, wakes, timer_tick_handler_lem}
use gat_os_v.Sleep.Alarm.{ticks, add_sleep-ticks}
use gat_os_v.Tests.Ring.{three}
use gat_os_v.Tests.Screens.{letters}

abbrev os : Processes
os = scheduler 4096

abbrev two_sleepers : Sleepers
two_sleepers = record {
  sleep_listeners = 2;
  sleep_pids = λ i. some (if i == 0 then 3 else 2);
  sleep_counter = λ i. if i == 0 then 1 else 0;
  alarm_sleep = λ i. pos (if i == 0 then 2 else 3);
}

abbrev clock : List ℕ
clock = 49 ∷ 50 ∷ []

abbrev left : Option (Sleepers × Scheduler) → ℕ × Pid × ℕ
left o = elim o [
  | none ↦ (0, none, 0)
  | some m ↦ (m.0.sleep_listeners, m.0.sleep_pids 0, m.0.sleep_counter 0)
]

-- The first entry rings, and the second takes its place and is counted in the same tick.
tick_moves_last : left (tick_loop os 3 0 (two_sleepers, three)) ≡ (1, some 2, 1)
unfolding tick_loop tick_round done_sleeping delete_sleep
tick_moves_last = refl

abbrev of_process_2 : Entry → Bool
of_process_2 e = elim e.0 [ none ↦ false | some p ↦ p == 2 ]

timer_tick_handler_lem_example :
    (z' : Sleepers) × (s' : Scheduler) × (timer_tick_handler os 3 clock letters
        (two_sleepers, three)
      ≡ (print_msg (pos 2) (pos 0) clock letters, some (z', s')))
    × (tally (picked of_process_2) z' 0 z'.sleep_listeners
        ≡ tally (stays of_process_2) two_sleepers 0 2)
    × (state_of s' 3 ≡ set_if (ltb 0 (tally (wakes 3) two_sleepers 0 2)) ready (state_of three 3))
timer_tick_handler_lem_example =
    timer_tick_handler_lem os of_process_2 3 3 clock letters two_sleepers three (omega arith)

add_sleep-ticks_example :
    (z' : Sleepers) × (s' : Scheduler) × (ticks os 4 5
        (add_sleep (some 2) (pos 5) two_sleepers, three)
      ≡ some (z', s'))
    × (state_of s' 2 ≡ set_if true ready (state_of three 2))
add_sleep-ticks_example =
    add_sleep-ticks os 2 5 4 two_sleepers three (omega arith) (omega arith) (omega arith)
