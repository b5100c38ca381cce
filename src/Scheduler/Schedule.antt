-- ===== src/Scheduler/Schedule.antt =====
-- `schedule`: which process runs next, and what becomes of the ring.
use gat_os_v.Base.{
  ℕ, ◌≡◌, ◌≢◌, ◌⊎◌, inl, inr, true, false, Option, none, some, arith, refl, sym, subst, ap, ◌∙◌,
  List, [], ◌∷◌, ◌++◌, All, Fresh, Distinct, Distinct-swap, All-swap, length, length-append,
  Bool-cases, ne→==-false, ◌==◌, if◌then◌else◌,
}
use gat_os_v.Process.{running, ready, is_ready, is_running}
use gat_os_v.Scheduler.{
  null, Scheduler, next_of, state_at, set_state, schedule_loop, demote_current, schedule,
}
use gat_os_v.Scheduler.States.{state-set_state}
use gat_os_v.Base.Links.{Links, Links-rotate}
use gat_os_v.Scheduler.Ring.{
  IsRing, Picked, nobody, picked, next-set_state, schedule_loop-Picked, from_next,
}

-- The ring goes on at slot `a`: the slots before it, in ring order from the one after the running
-- process, had no READY process; `a` had one, which is now RUNNING; no other state has changed.
pub record Scheduled (s : Scheduler) (c : ℕ) (rest : List ℕ) (s' : Scheduler) : Type 0 where
  pub before : List ℕ
  pub a : ℕ
  pub after : List ℕ
  pub split : rest ++ c ∷ [] ≡ before ++ a ∷ after
  pub skipped : All (λ b. is_ready (state_at (demote_current s) b) ≡ false) before
  pub was_ready : is_ready (state_at (demote_current s) a) ≡ true
  pub goes_on : s'.current ≡ a
  pub ring : IsRing s' (a ∷ after ++ before)
  pub now_running : state_at s' a ≡ running
  pub others : (j : ℕ) → a ≢ j → state_at s' j ≡ state_at (demote_current s) j

-- The process that stops is READY from now on if it was RUNNING; no other state changes.
pub state-demote_current :
    (s : Scheduler) (j : ℕ)
    → state_at (demote_current s) j ≡ (
        if s.current == j
        then (if is_running (state_at s j) then ready else state_at s j)
        else state_at s j)
unfolding demote_current
state-demote_current s j = ground arith

next-demote_current : (s : Scheduler) → next_of (demote_current s) ≡ next_of s
unfolding demote_current
next-demote_current s = elim (Bool-cases (is_running (state_at s s.current))) [
  | inl e ↦ rw e (next-set_state s.current ready s)
  | inr e ↦ rw e
]

demote_current-IsRing : (s : Scheduler) (xs : List ℕ) → IsRing s xs → IsRing (demote_current s) xs
unfolding demote_current
demote_current-IsRing s xs r = elim (Bool-cases (is_running (state_at s s.current))) [
  | inl e ↦ rw e (record {
    links = rw (next-set_state s.current ready s) r.links;
    count = r.count;
    distinct = r.distinct;
    used = r.used;
  })
  | inr e ↦ rw e r
]

-- A ring that goes on at another of its slots.
IsRing-at :
    (s : Scheduler) (xs before : List ℕ) (a : ℕ) (after : List ℕ) (p : ℕ)
    → Links (next_of s) p (before ++ a ∷ after) p
    → s.cardinal_processes ≡ length (before ++ a ∷ after)
    → Distinct (before ++ a ∷ after)
    → Fresh null (before ++ a ∷ after)
    → IsRing (set_state a running (record s { current = a })) (a ∷ after ++ before)
IsRing-at s xs before a after p l n d u = record {
  links =
      subst (λ f. Links f a (a ∷ after ++ before) a)
        (sym (next-set_state a running (record s { current = a })))
        (Links-rotate (next_of s) p before a after l);
  count = omega (arith, n, length-append before (a ∷ after), length-append after before);
  distinct = Distinct-swap before (a ∷ after) d;
  used = All-swap (λ x. null ≢ x) before (a ∷ after) u;
}

picked-Scheduled :
    (s : Scheduler) (c : ℕ) (rest before : List ℕ) (a : ℕ) (after : List ℕ)
    → IsRing (demote_current s) (c ∷ rest)
    → rest ++ c ∷ [] ≡ before ++ a ∷ after
    → All (λ b. is_ready (state_at (demote_current s) b) ≡ false) before
    → is_ready (state_at (demote_current s) a) ≡ true
    → Scheduled s c rest (set_state a running (record (demote_current s) { current = a }))
picked-Scheduled s c rest before a after r split skipped was = record {
  before = before;
  a = a;
  after = after;
  split = split;
  skipped = skipped;
  was_ready = was;
  goes_on = refl;
  ring =
      IsRing-at (demote_current s) (c ∷ rest) before a after (next_of (demote_current s) c)
        (subst
          (λ ys.
            Links (next_of (demote_current s)) (next_of (demote_current s) c) ys
              (next_of (demote_current s) c))
          split (from_next (demote_current s) c rest r.links))
        (omega (arith, r.count, ap length (sym split), length-append rest (c ∷ [])))
        (subst Distinct split (Distinct-swap (c ∷ []) rest r.distinct))
        (subst (Fresh null) split (All-swap (λ x. null ≢ x) (c ∷ []) rest r.used));
  now_running =
      state-set_state a running (record (demote_current s) { current = a }) a ∙ ground arith;
  others = λ j ne.
      state-set_state a running (record (demote_current s) { current = a }) j
      ∙ rw (ne→==-false a j ne);
}

-- On a ring `schedule` finds nobody only when no process of the ring is READY once the running one
-- has been put back; otherwise it gives the processor to the first READY one in ring order, the one
-- that stopped last, and keeps the ring.
pub schedule_lem :
    (s : Scheduler) (c : ℕ) (rest : List ℕ)
    → IsRing s (c ∷ rest)
    → ((schedule s ≡ none)
        × All (λ b. is_ready (state_at (demote_current s) b) ≡ false) (rest ++ c ∷ []))
      ⊎ ((s' : Scheduler) × (schedule s ≡ some s') × Scheduled s c rest s')
unfolding schedule
schedule_lem s c rest r = go _ (found) refl
  where
    d : Scheduler
    d = demote_current s

    rd : IsRing d (c ∷ rest)
    rd = demote_current-IsRing s (c ∷ rest) r

    found : Picked d (rest ++ c ∷ []) (schedule_loop d.cardinal_processes (next_of d d.current) d)
    found =
        subst (λ n. Picked d (rest ++ c ∷ []) (schedule_loop n (next_of d d.current) d))
          (omega (arith, rd.count, length-append rest (c ∷ [])))
          (subst
            (λ q.
              Picked d (rest ++ c ∷ []) (schedule_loop (length (rest ++ c ∷ [])) (next_of d q) d))
            (sym (rd.links).0)
            (schedule_loop-Picked d (rest ++ c ∷ []) (next_of d c) (next_of d c)
              (from_next d c rest rd.links)))

    go :
        (o : Option ℕ)
        → Picked d (rest ++ c ∷ []) o
        → schedule_loop d.cardinal_processes (next_of d d.current) d ≡ o
        → ((schedule s ≡ none) × All (λ b. is_ready (state_at d b) ≡ false) (rest ++ c ∷ []))
          ⊎ ((s' : Scheduler) × (schedule s ≡ some s') × Scheduled s c rest s')
    go _ (nobody all) e = inl (rw (e, schedule), all)
    go _ (picked before a after split skipped was) e =
        inr (_, rw (e, schedule), picked-Scheduled s c rest before a after rd split skipped was)
