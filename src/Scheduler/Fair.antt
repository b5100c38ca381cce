-- ===== src/Scheduler/Fair.antt =====
-- Round robin: a READY process gets the processor after at most one turn of the ring.
use mathlib.Core.List.{append_assoc}
use gat_os_v.Base.{
  ℕ, zero, suc, ◌≤◌, ◌<◌, ◌≡◌, ◌≢◌, ◌⊎◌, inl, inr, Bool, true, false, Option, none, some, arith,
  sym, subst, ap, ◌∙◌, List, [], ◌∷◌, ◌++◌, All, All-split, length, length-append,
}
use gat_os_v.Process.{ready, is_ready}
use gat_os_v.Scheduler.{Scheduler, state_at, demote_current, schedule}
use gat_os_v.Scheduler.Ring.{IsRing}
use gat_os_v.Scheduler.Schedule.{Scheduled, state-demote_current, schedule_lem}

-- `schedule`, `n` times in a row; `none` as soon as one of the calls finds nobody.
pub schedule_times : ℕ → Scheduler → Option Scheduler
schedule_times zero s = some s
schedule_times (suc n) s = elim (schedule s) [ none ↦ none | some s' ↦ schedule_times n s' ]

-- Two ways to part a list: the first entry that `P` accepts comes no later than another.
align :
    (P : ℕ → Bool) (xs : List ℕ) (a : ℕ) (ys pre : List ℕ) (y : ℕ) (post : List ℕ)
    → xs ++ a ∷ ys ≡ pre ++ y ∷ post
    → All (λ x. P x ≡ false) xs
    → P y ≡ true
    → (a ≡ y) ⊎ ((mid : List ℕ) × (pre ≡ xs ++ a ∷ mid) × (ys ≡ mid ++ y ∷ post))
align P [] a ys [] y post e all yes' = inl (cc)
align P [] a ys (p ∷ pre) y post e all yes' = inr (pre, cc, cc)
align P (x ∷ xs) a ys [] y post e (h, all) yes' = let same : x ≡ y = cc in cc (h, yes', ap P same)
align P (x ∷ xs) a ys (p ∷ pre) y post e (h, all) yes' =
    elim (align P xs a ys pre y post (cc) all yes') [
      | inl same ↦ inl same
      | inr (mid, f, g) ↦ inr (mid, cc, g)
    ]

ready-demote_current :
    (s : Scheduler) (y : ℕ) → state_at s y ≡ ready → state_at (demote_current s) y ≡ ready
ready-demote_current s y e = state-demote_current s y ∙ ground arith

All-mid : (P : ℕ → Type 0) (xs : List ℕ) (y : ℕ) (ys : List ℕ) → All P (xs ++ y ∷ ys) → P y
All-mid P xs y ys a = (All-split P xs (y ∷ ys) a).1.0

-- What holds of a READY process `y` that the ring reaches after the slots `pre`.
record Waits (s : Scheduler) (y : ℕ) (pre : List ℕ) : Type 0 where
  c : ℕ
  rest : List ℕ
  post : List ℕ
  ring : IsRing s (c ∷ rest)
  place : rest ++ c ∷ [] ≡ pre ++ y ∷ post
  waiting : state_at s y ≡ ready

next-Waits :
    (s : Scheduler) (y : ℕ) (pre mid : List ℕ) (w : Waits s y pre) (s' : Scheduler)
    (k : Scheduled s w.c w.rest s')
    → pre ≡ k.before ++ k.a ∷ mid
    → k.after ≡ mid ++ y ∷ w.post
    → Waits s' y mid
next-Waits s y pre mid w s' k f g =
    let away = All-split (λ x. k.a ≢ x) k.after k.before k.ring.distinct.0 in
    let ne = All-mid (λ x. k.a ≢ x) mid y w.post (subst (All (λ x. k.a ≢ x)) g away.0) in
    record {
      c = k.a;
      rest = k.after ++ k.before;
      post = w.post ++ (k.before ++ k.a ∷ []);
      ring = k.ring;
      place = rw g (simp append_assoc);
      waiting = k.others y ne ∙ ready-demote_current s y w.waiting;
    }

-- One call of `schedule` gives `y` the processor or brings it nearer.
step-Waits :
    (s : Scheduler) (y : ℕ) (pre : List ℕ)
    → Waits s y pre
    → (s' : Scheduler) × (schedule s ≡ some s')
      × ((s'.current ≡ y) ⊎ ((mid : List ℕ) × (length mid < length pre) × Waits s' y mid))
step-Waits s y pre w = elim (schedule_lem s w.c w.rest w.ring) [
  | inl (_, all) ↦
      let h =
        All-mid (λ b. is_ready (state_at (demote_current s) b) ≡ false) pre y w.post
          (subst (All (λ b. is_ready (state_at (demote_current s) b) ≡ false)) w.place all) in
      absurd (cc (h, ready-demote_current s y w.waiting))
  | inr (s', e, k) ↦ (
    s',
    e,
    elim (align (λ b. is_ready (state_at (demote_current s) b)) k.before k.a k.after pre y w.post
        (sym k.split ∙ w.place) k.skipped (rw (ready-demote_current s y w.waiting))) [
          | inl same ↦ inl (k.goes_on ∙ same)
          | inr (mid, f, g) ↦ inr (
            mid,
            omega (arith, ap length f, length-append k.before (k.a ∷ mid)),
            next-Waits s y pre mid w s' k f g,
          )
        ],
  )
]

-- After `k + 1` calls `y` has the processor, with `k` no more than its distance.
abbrev Served : Scheduler → ℕ → List ℕ → Type 0
Served s y pre =
    (k : ℕ) × (k ≤ length pre)
    × (s' : Scheduler) × (schedule_times (suc k) s ≡ some s')
    × (s'.current ≡ y)

schedule_times-suc :
    (n : ℕ) (s s' : Scheduler)
    → schedule s ≡ some s'
    → schedule_times (suc n) s ≡ schedule_times n s'
unfolding schedule_times
schedule_times-suc n s s' e = rw (e, schedule_times)

at_once : (s s' : Scheduler) → schedule s ≡ some s' → schedule_times 1 s ≡ some s'
unfolding schedule_times
at_once s s' e = rw (e, schedule_times)

turn-Waits :
    (n : ℕ) (s : Scheduler) (y : ℕ) (pre : List ℕ) → length pre ≤ n → Waits s y pre → Served s y pre
turn-Waits zero s y pre le w =
    let (s', e, outcome) = step-Waits s y pre w in
    elim outcome [
      | inl here ↦ (0, omega arith, s', at_once s s' e, here)
      | inr (mid, lt, w') ↦ absurd (omega arith)
    ]
turn-Waits (suc n) s y pre le w =
    let (s', e, outcome) = step-Waits s y pre w in
    elim outcome [
      | inl here ↦ (0, omega arith, s', at_once s s' e, here)
      | inr (mid, lt, w') ↦
          let (k, close, s2, run, here) = turn-Waits n s' y mid (omega arith) w' in
          (suc k, omega arith, s2, schedule_times-suc (suc k) s s' e ∙ run, here)
    ]

-- A READY process that the ring reaches after the slots `pre` gets the processor within
-- `length pre + 1` calls of `schedule`, as long as nothing else changes the ring or a state.
pub schedule_serves :
    (s : Scheduler) (c : ℕ) (rest pre : List ℕ) (y : ℕ) (post : List ℕ)
    → IsRing s (c ∷ rest)
    → rest ++ c ∷ [] ≡ pre ++ y ∷ post
    → state_at s y ≡ ready
    → (k : ℕ) × (k ≤ length pre)
      × (s' : Scheduler) × (schedule_times (suc k) s ≡ some s')
      × (s'.current ≡ y)
schedule_serves s c rest pre y post r place e =
    turn-Waits (length pre) s y pre (omega arith)
      (record { c = c; rest = rest; post = post; ring = r; place = place; waiting = e })
