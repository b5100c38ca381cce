-- ===== src/Sleep/Tick.antt =====
-- One tick of the timer of Kernel/interrupts.c, whatever the order of the table of sleepers.
use gat_os_v.Base.{
  ℕ, zero, suc, ◌+◌, ◌≤◌, ◌<◌, ◌≡◌, arith, refl, sym, ap, ap₂, ◌∙◌, Bool, List, true, false, not,
  ◌&&◌, ◌||◌, inl, inr, some, ltb, if◌then◌else◌, pos, eq_ℤ, Bool-cases, update_self,
}
use gat_os_v.Process.{ready, same_pid, set_if, set_if-twice, set_if-nobody, Processes}
use gat_os_v.Sleep.{
  Sleepers, count_up, delete_sleep, done_sleeping, tick_round, tick_loop, timer_tick_handler,
}
use gat_os_v.Video.{Video, print_msg}
use gat_os_v.Sleep.Tally.{
  Entry, entry, tally, tally-nil, tally-cons, tally-due-below, tally-due-above,
  tally-count_up-above, tally-count_up-upto, delete_sleep-listeners,
}

-- Whether the alarm of an entry is due at this tick, and the entry a tick later.
abbrev pub is_due : Entry → Bool
is_due e = eq_ℤ (pos (e.1 + 1)) e.2

abbrev pub aged : Entry → Entry
aged e = (e.0, e.1 + 1, e.2)

abbrev pub one : Bool → ℕ
one b = if b then 1 else 0

-- The weights of an entry that the test `t` picks, of one that it picks once it has aged without being
-- due, and of one that is due and belongs to `q`.
abbrev pub picked : (Entry → Bool) → Entry → ℕ
picked t e = one (t e)

abbrev pub stays : (Entry → Bool) → Entry → ℕ
stays t e = one (not (is_due e) && t (aged e))

abbrev pub wakes : ℕ → Entry → ℕ
wakes q e = one (is_due e && same_pid e.0 q)

stays-due : (t : Entry → Bool) (e : Entry) → is_due e ≡ true → stays t e ≡ 0
stays-due t e due = rw due refl

stays-not_due : (t : Entry → Bool) (e : Entry) → is_due e ≡ false → stays t e ≡ picked t (aged e)
stays-not_due t e not_due = rw not_due refl

wakes-due : (q : ℕ) (e : Entry) → is_due e ≡ true → wakes q e ≡ one (same_pid e.0 q)
wakes-due q e due = rw due refl

wakes-not_due : (q : ℕ) (e : Entry) → is_due e ≡ false → wakes q e ≡ 0
wakes-not_due q e not_due = rw not_due refl

one-or : (b : Bool) (n : ℕ) → (b || ltb 0 n) ≡ ltb 0 (one b + n)
one-or true n = let some_one : ltb 0 (1 + n) ≡ true = ground arith in sym some_one
one-or false n = let same : n ≡ 0 + n = omega arith in ap (ltb 0) same

module _ (P : Processes) where
  open P use {State, change_state, state_of, state_of-change_state}

  round-stays :
      (j : ℕ) (z : Sleepers) (s : State)
      → is_due (entry z j) ≡ false
      → tick_round P j (z, s) ≡ (j + 1, count_up j z, s)
  unfolding tick_round
  round-stays j z s no' = rw (update_self z.sleep_counter j (z.sleep_counter j + 1), no') refl

  round-due :
      (j : ℕ) (z : Sleepers) (s : State)
      → is_due (entry z j) ≡ true
      → tick_round P j (z, s)
        ≡ (j, delete_sleep j (count_up j z), change_state (z.sleep_pids j) ready s)
  unfolding tick_round done_sleeping
  round-due j z s yes' = rw (update_self z.sleep_counter j (z.sleep_counter j + 1), yes') refl

  loop-due :
      (fuel j : ℕ) (z : Sleepers) (s : State)
      → j < z.sleep_listeners
      → is_due (entry z j) ≡ true
      → tick_loop P (suc fuel) j (z, s)
        ≡ tick_loop P fuel j (delete_sleep j (count_up j z), change_state (z.sleep_pids j) ready s)
  unfolding tick_loop
  loop-due fuel j z s lt due =
      let on : ltb j z.sleep_listeners ≡ true = ground arith in rw (on, round-due j z s due) refl

  loop-stays :
      (fuel j : ℕ) (z : Sleepers) (s : State)
      → j < z.sleep_listeners
      → is_due (entry z j) ≡ false
      → tick_loop P (suc fuel) j (z, s) ≡ tick_loop P fuel (j + 1) (count_up j z, s)
  unfolding tick_loop
  loop-stays fuel j z s lt not_due =
      let on : ltb j z.sleep_listeners ≡ true = ground arith in
      rw (on, round-stays j z s not_due) refl

  loop-ends :
      (fuel j : ℕ) (z : Sleepers) (s : State)
      → z.sleep_listeners ≡ j
      → tick_loop P (suc fuel) j (z, s) ≡ some (z, s)
  unfolding tick_loop
  loop-ends fuel j z s e = let stop : ltb j z.sleep_listeners ≡ false = ground arith in rw stop refl

  -- What the loop does from index `j` on, with `n` entries left.
  pub tick_loop-from :
      (t : Entry → Bool) (q fuel n j : ℕ) (z : Sleepers) (s : State)
      → z.sleep_listeners ≡ j + n
      → n < fuel
      → (z' : Sleepers) × (s' : State) × (tick_loop P fuel j (z, s) ≡ some (z', s'))
        × (z'.sleep_listeners ≤ z.sleep_listeners)
        × (tally (picked t) z' 0 z'.sleep_listeners
            ≡ tally (picked t) z 0 j + tally (stays t) z j n)
        × (state_of s' q ≡ set_if (ltb 0 (tally (wakes q) z j n)) ready (state_of s q))
  tick_loop-from t q zero n j z s e enough = absurd (omega arith)
  tick_loop-from t q (suc fuel) zero j z s e enough =
      let here : z.sleep_listeners ≡ j = omega arith in
      (
        z,
        s,
        loop-ends fuel j z s here,
        omega arith,
        ap (tally (picked t) z 0) here ∙ omega (arith, tally-nil (stays t) z j),
        rw tally-nil (set_if-nobody ready (state_of s q)),
      )
  tick_loop-from t q (suc fuel) (suc n) j z s e enough = elim (Bool-cases (is_due (entry z j))) [
    | inl due ↦
        let z1 = delete_sleep j (count_up j z) in
        let s1 = change_state (z.sleep_pids j) ready s in
        let lt : j < z.sleep_listeners = omega arith in
        let shorter : z1.sleep_listeners ≡ j + n =
          omega (arith, delete_sleep-listeners j (count_up j z) lt) in
        let (z', s', runs, fewer, table, state) =
          tick_loop-from t q fuel n j z1 s1 shorter (omega arith) in
        (
          z',
          s',
          loop-due fuel j z s lt due ∙ runs,
          omega arith,
          omega (
            arith,
            table,
            tally-due-below (picked t) j z lt,
            tally-due-above (stays t) j n z e,
            tally-cons (stays t) z j n,
            stays-due t (entry z j) due,
          ),
          state
              ∙ ap₂ (λ k o. set_if (ltb 0 k) ready o) (tally-due-above (wakes q) j n z e)
                  (state_of-change_state s (z.sleep_pids j) ready q)
              ∙ set_if-twice ready (same_pid (z.sleep_pids j) q) _ (state_of s q)
              ∙ ap (λ b. set_if b ready (state_of s q))
                  (one-or (same_pid (z.sleep_pids j) q) _
                    ∙ ap (ltb 0)
                        (omega (arith, wakes-due q (entry z j) due, tally-cons (wakes q) z j n))),
        )
    | inr not_due ↦
        let z1 = count_up j z in
        let next : j + 1 ≡ suc j = omega arith in
        let lt : j < z.sleep_listeners = omega arith in
        let (z', s', runs, fewer, table, state) =
          tick_loop-from t q fuel n (j + 1) z1 s (omega arith) (omega arith) in
        (
          z',
          s',
          loop-stays fuel j z s lt not_due ∙ runs,
          omega arith,
          omega (
            arith,
            table,
            ap (tally (picked t) z1 0) next,
            tally-count_up-upto (picked t) j z,
            tally-count_up-above (stays t) j n z,
            tally-cons (stays t) z j n,
            stays-not_due t (entry z j) not_due,
          ),
          state
              ∙ ap (λ k. set_if (ltb 0 k) ready (state_of s q))
                  (omega (
                    arith,
                    tally-count_up-above (wakes q) j n z,
                    tally-cons (wakes q) z j n,
                    wakes-not_due q (entry z j) not_due,
                  )),
        )
  ]

  -- `timerTickHandlerC` ends after at most as many rounds as processes sleep, and one more, and prints
  -- the time. The entries left in the table are, whatever the order, those that were not due at this
  -- tick, each a tick older: any test `t` picks as many of the ones as of the others. A process `q`
  -- becomes READY when an entry of `q` was due, and keeps its state otherwise.
  pub timer_tick_handler_lem :
      (t : Entry → Bool) (q fuel : ℕ) (time : List ℕ) (v : Video) (z : Sleepers) (s : State)
      → z.sleep_listeners < fuel
      → (z' : Sleepers) × (s' : State) × (timer_tick_handler P fuel time v (z, s)
          ≡ (print_msg (pos 2) (pos 0) time v, some (z', s')))
        × (tally (picked t) z' 0 z'.sleep_listeners ≡ tally (stays t) z 0 z.sleep_listeners)
        × (state_of s' q
            ≡ set_if (ltb 0 (tally (wakes q) z 0 z.sleep_listeners)) ready (state_of s q))
  unfolding timer_tick_handler
  timer_tick_handler_lem t q fuel time v z s enough =
      let all : z.sleep_listeners ≡ 0 + z.sleep_listeners = omega arith in
      let (z', s', runs, fewer, table, state) =
        tick_loop-from t q fuel z.sleep_listeners 0 z s all enough in
      (
        z',
        s',
        ap (λ m. (print_msg (pos 2) (pos 0) time v, m)) runs,
        omega (arith, table, tally-nil (picked t) z 0),
        state,
      )
