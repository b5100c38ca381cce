-- ===== src/Sleep/Alarm.antt =====
-- Kernel/interrupts.c: a process that sleeps for some ticks of the timer, among other sleepers.
use gat_os_v.Base.{
  ℕ, zero, suc, ◌+◌, ◌≤◌, ◌<◌, ◌≡◌, ◌≢◌, arith, refl, ap, ◌∙◌, Bool, Option, none, some, true,
  false, ◌&&◌, ◌==◌, ltb, leb, pos, negsuc, eq_ℤ, ==_iff,
}
use gat_os_v.Process.{ProcessState, ready, same_pid, set_if, Processes}
use gat_os_v.Sleep.{Sleepers, max_listeners, add_sleep, tick_loop}
use gat_os_v.Sleep.Tally.{Entry, entry, tally, tally-nil, tally-snoc}
use gat_os_v.Sleep.Tick.{picked, stays, wakes, one, tick_loop-from}

-- The test that an entry belongs to `pid`, has counted `c` ticks and rings at `a`.
abbrev rings : ℕ → ℕ → ℕ → Entry → Bool
rings pid c a e = same_pid e.0 pid && (e.1 == c) && eq_ℤ (pos a) e.2

tally_mono :
    (w w' : Entry → ℕ)
    → ((e : Entry) → w e ≤ w' e)
    → (z : Sleepers) (i n : ℕ) → tally w z i n ≤ tally w' z i n
unfolding tally
tally_mono w w' le z i zero = omega arith
tally_mono w w' le z i (suc n) = omega (arith, le (entry z i), tally_mono w w' le z (i + 1) n)

tally-ones : (z : Sleepers) (i n : ℕ) → tally (picked (λ _. true)) z i n ≡ n
unfolding tally
tally-ones z i zero = refl
tally-ones z i (suc n) = omega (arith, tally-ones z (i + 1) n)

one-le : (b c : Bool) → (b ≡ true → c ≡ true) → one b ≤ one c
one-le true c imp = rw (imp refl) (omega arith)
one-le false c imp = omega arith

rings-stays :
    (pid c a : ℕ)
    → suc c ≢ a
    → (e : Entry) → picked (rings pid c a) e ≤ stays (rings pid (suc c) a) e
rings-stays pid c a ne (p, c', pos b) = ground arith
rings-stays pid c a ne (p, c', negsuc b) = ground arith

rings-wakes : (pid c a : ℕ) → suc c ≡ a → (e : Entry) → picked (rings pid c a) e ≤ wakes pid e
rings-wakes pid c a last (p, c', pos b) = ground arith
rings-wakes pid c a last (p, c', negsuc b) = ground arith

added-listeners :
    (pid time : ℕ) (z : Sleepers)
    → z.sleep_listeners < max_listeners
    → (add_sleep (some pid) (pos time) z).sleep_listeners ≡ suc z.sleep_listeners
unfolding add_sleep
added-listeners pid time z room =
    let fits : leb max_listeners z.sleep_listeners ≡ false = ground arith in rw fits (omega arith)

added-entry :
    (pid time : ℕ) (z : Sleepers)
    → z.sleep_listeners < max_listeners
    → entry (add_sleep (some pid) (pos time) z) z.sleep_listeners ≡ (some pid, 0, pos time)
unfolding add_sleep
added-entry pid time z room =
    let fits : leb max_listeners z.sleep_listeners ≡ false = ground arith in
    rw (fits, (==_iff z.sleep_listeners z.sleep_listeners).1 refl) refl

rings-added : (pid a : ℕ) → picked (rings pid 0 a) (some pid, 0, pos a) ≡ 1
rings-added pid a = rw ((==_iff pid pid).1 refl, (==_iff a a).1 refl) refl

abbrev pub and_then : {A : Type 0} → Option A → (A → Option A) → Option A
and_then none f = none
and_then (some m) f = f m

set_if-always :
    (b : Bool) (o : Option ProcessState)
    → set_if true ready (set_if b ready o) ≡ set_if true ready o
set_if-always b none = refl
set_if-always b (some x) = refl

module _ (P : Processes) where
  open P use {State, state_of}

  -- `k` runs of the loop of `timerTickHandlerC`
  unfoldable pub ticks : ℕ → ℕ → Sleepers × State → Option (Sleepers × State)
  ticks fuel zero m = some m
  ticks fuel (suc k) m = and_then (tick_loop P fuel 0 m) (ticks fuel k)

  ticks-next :
      (fuel k : ℕ) (m m' : Sleepers × State)
      → tick_loop P fuel 0 m ≡ some m'
      → ticks fuel (suc k) m ≡ ticks fuel k m'
  unfolding ticks
  ticks-next fuel k m m' runs = ap (λ r. and_then r (ticks fuel k)) runs

  ticks-one :
      (fuel : ℕ) (m m' : Sleepers × State)
      → tick_loop P fuel 0 m ≡ some m'
      → ticks fuel 1 m ≡ some m'
  unfolding ticks
  ticks-one fuel m m' runs = ap (λ r. and_then r some) runs

  -- An entry that rings in `k + 1` ticks has woken its process after them.
  ticks-wake :
      (pid a k c fuel : ℕ) (z : Sleepers) (s : State)
      → suc (k + c) ≡ a
      → 0 < tally (picked (rings pid c a)) z 0 z.sleep_listeners
      → z.sleep_listeners < fuel
      → (z' : Sleepers) × (s' : State) × (ticks fuel (suc k) (z, s) ≡ some (z', s'))
        × (state_of s' pid ≡ set_if true ready (state_of s pid))
  ticks-wake pid a zero c fuel z s left there enough =
      let all : z.sleep_listeners ≡ 0 + z.sleep_listeners = omega arith in
      let (z1, s1, runs, fewer, table, state) =
        tick_loop-from P (λ _. true) pid fuel z.sleep_listeners 0 z s all enough in
      let more =
        tally_mono (picked (rings pid c a)) (wakes pid) (rings-wakes pid c a (omega arith)) z 0
          z.sleep_listeners in
      let on : ltb 0 (tally (wakes pid) z 0 z.sleep_listeners) ≡ true = ground arith in
      (
        z1,
        s1,
        ticks-one fuel (z, s) (z1, s1) runs,
        state ∙ ap (λ b. set_if b ready (state_of s pid)) on,
      )
  ticks-wake pid a (suc k) c fuel z s left there enough =
      let all : z.sleep_listeners ≡ 0 + z.sleep_listeners = omega arith in
      let t = rings pid (suc c) a in
      let (z1, s1, runs, fewer, table, state) =
        tick_loop-from P t pid fuel z.sleep_listeners 0 z s all enough in
      let ages =
        tally_mono (picked (rings pid c a)) (stays t) (rings-stays pid c a (λ e. omega arith)) z 0
          z.sleep_listeners in
      let (z2, s2, runs2, state2) =
        ticks-wake pid a k (suc c) fuel z1 s1 (omega arith)
          (omega (arith, table, ages, tally-nil (picked t) z 0)) (omega arith) in
      (
        z2,
        s2,
        ticks-next fuel (suc k) (z, s) (z1, s1) runs ∙ runs2,
        state2 ∙ ap (set_if true ready) state ∙ set_if-always _ (state_of s pid),
      )

  -- A process that is put to sleep for `time` ticks, in a table that has room, is READY after that many
  -- ticks, whatever the other sleepers are and whichever of them wake on the way.
  pub add_sleep-ticks :
      (pid time fuel : ℕ) (z : Sleepers) (s : State)
      → z.sleep_listeners < max_listeners
      → 0 < time
      → z.sleep_listeners + 1 < fuel
      → (z' : Sleepers) × (s' : State) × (ticks fuel time (add_sleep (some pid) (pos time) z, s)
          ≡ some (z', s'))
        × (state_of s' pid ≡ set_if true ready (state_of s pid))
  add_sleep-ticks pid zero fuel z s room some_time enough = absurd (omega arith)
  add_sleep-ticks pid (suc k) fuel z s room some_time enough =
      let z1 = add_sleep (some pid) (pos (suc k)) z in
      let w = picked (rings pid 0 (suc k)) in
      let count = added-listeners pid (suc k) z room in
      let rung : w (entry z1 (0 + z.sleep_listeners)) ≡ 1 =
        ap (λ e. w (entry z1 e)) (omega arith)
        ∙ ap w (added-entry pid (suc k) z room)
        ∙ rings-added pid (suc k) in
      let there : 0 < tally w z1 0 z1.sleep_listeners =
        omega (arith, rung, tally-snoc w z1 0 z.sleep_listeners, ap (tally w z1 0) count) in
      ticks-wake pid (suc k) k 0 fuel z1 s (omega arith) there (omega (arith, count))
