-- ===== src/Sleep.antt =====
-- Kernel/interrupts.c: the processes that sleep, and the handler of the timer. The string that `getTime`
-- reads from the clock is an argument.
pub mod Tally
pub mod Tick
pub mod Alarm
use gat_os_v.Base.{
  ℕ, zero, suc, ◌+◌, ◌-◌, Bool, Option, none, some, List, ltb, leb, if◌then◌else◌, update, ℤ, pos,
  eq_ℤ,
}
use gat_os_v.Process.{ready, sleeping, Pid, Processes}
use gat_os_v.Outcome.{Outcome, after_yield}
use gat_os_v.Video.{Video, print_msg}

abbrev pub max_listeners : ℕ
max_listeners = 50

-- `sleepListeners`, `sleepPIDS`, `sleepCounter` and `alarmSleep`
pub record Sleepers : Type 0 where
  pub sleep_listeners : ℕ
  pub sleep_pids : ℕ → Pid
  pub sleep_counter : ℕ → ℕ
  pub alarm_sleep : ℕ → ℤ

unfoldable pub delete_sleep : ℕ → Sleepers → Sleepers
delete_sleep index z =
    let last = z.sleep_listeners - 1 in
    if leb z.sleep_listeners index then z else record z {
      alarm_sleep = update z.alarm_sleep index (z.alarm_sleep last);
      sleep_pids = update z.sleep_pids index (z.sleep_pids last);
      sleep_counter = update z.sleep_counter index (z.sleep_counter last);
      sleep_listeners = last;
    }

unfoldable pub add_sleep : Pid → ℤ → Sleepers → Sleepers
add_sleep pid interval z = if leb max_listeners z.sleep_listeners then z else record z {
  alarm_sleep = update z.alarm_sleep z.sleep_listeners interval;
  sleep_pids = update z.sleep_pids z.sleep_listeners pid;
  sleep_counter = update z.sleep_counter z.sleep_listeners 0;
  sleep_listeners = z.sleep_listeners + 1;
}

-- `sleepCounter[auxj] += 1`
abbrev pub count_up : ℕ → Sleepers → Sleepers
count_up j z = record z { sleep_counter = update z.sleep_counter j (z.sleep_counter j + 1) }

module _ (P : Processes) where
  open P use {State, current_pid, change_state, yield_process}

  unfoldable pub done_sleeping : ℕ → Sleepers × State → Sleepers × State
  done_sleeping index (z, s) = (delete_sleep index z, change_state (z.sleep_pids index) ready s)

  -- One round of the loop of `timerTickHandlerC`, with `auxj` for the next round.
  unfoldable pub tick_round : ℕ → Sleepers × State → ℕ × Sleepers × State
  tick_round j (z, s) =
      let z1 = count_up j z in
      if eq_ℤ (pos (z1.sleep_counter j)) (z1.alarm_sleep j)
      then (let (z2, s2) = done_sleeping j (z1, s) in (j, z2, s2))
      else (j + 1, z1, s)

  -- The loop; `none` when `fuel` rounds are not enough.
  unfoldable pub tick_loop : ℕ → ℕ → Sleepers × State → Option (Sleepers × State)
  tick_loop zero j m = none
  tick_loop (suc fuel) j (z, s) =
      let (next, z1, s1) = tick_round j (z, s) in
      let rest = tick_loop fuel next (z1, s1) in
      if ltb j z.sleep_listeners then rest else some (z, s)

  -- `timerTickHandlerC`
  unfoldable pub timer_tick_handler :
      ℕ → List ℕ → Video → Sleepers × State → Video × Option (Sleepers × State)
  timer_tick_handler fuel time v m = (print_msg (pos 2) (pos 0) time v, tick_loop fuel 0 m)

  -- `sleep`
  unfoldable pub sleep : ℤ → Sleepers × State → Outcome (Sleepers × State)
  sleep time (z, s) =
      let pid = current_pid s in
      let z1 = add_sleep pid time z in
      after_yield (yield_process (change_state pid sleeping s)) (λ s'. (z1, s'))
