-- ===== src/Scheduler/Ring.antt =====
-- The ring of slots as the list of their addresses, from `current` on.
use gat_os_v.Base.{
  ℕ, ◌≡◌, inl, inr, true, false, Option, none, some, refl, ap, fun_ext, List, [], ◌∷◌, ◌++◌, All,
  Fresh, Distinct, length, Bool-cases,
}
use gat_os_v.Base.Links.{Links, Links-append}
use gat_os_v.Scheduler.States
use gat_os_v.Process.{ProcessState, is_ready}
use gat_os_v.Scheduler.{null, Scheduler, next_of, state_at, set_state, schedule_loop}

pub record IsRing (s : Scheduler) (xs : List ℕ) : Type 0 where
  pub links : Links (next_of s) s.current xs s.current
  pub count : s.cardinal_processes ≡ length xs
  pub distinct : Distinct xs
  pub used : Fresh null xs

-- A write of a state leaves the links alone.
pub next-set_state :
    (a : ℕ) (v : ProcessState) (s : Scheduler) → next_of (set_state a v s) ≡ next_of s
next-set_state a v s = fun_ext (States.next-set_state a v s)

-- What the loop of `schedule` finds among the slots `xs`.
pub data Picked (s : Scheduler) : List ℕ → Option ℕ → Type 0 where
  nobody : {xs : List ℕ} → All (λ a. is_ready (state_at s a) ≡ false) xs → Picked s xs none
  picked :
      {xs : List ℕ} (before : List ℕ) (a : ℕ) (after : List ℕ)
      → xs ≡ before ++ a ∷ after
      → All (λ b. is_ready (state_at s b) ≡ false) before
      → is_ready (state_at s a) ≡ true
      → Picked s xs (some a)

skip-Picked :
    (s : Scheduler) (x : ℕ) (xs : List ℕ) (r : Option ℕ)
    → is_ready (state_at s x) ≡ false
    → Picked s xs r
    → Picked s (x ∷ xs) r
skip-Picked s x xs r e (nobody all) = nobody (e, all)
skip-Picked s x xs r e (picked before a after split all yes') =
    picked (x ∷ before) a after (ap (◌∷◌ x) split) (e, all) yes'

pub schedule_loop-Picked :
    (s : Scheduler) (xs : List ℕ) (p q : ℕ)
    → Links (next_of s) p xs q
    → Picked s xs (schedule_loop (length xs) p s)
unfolding schedule_loop
schedule_loop-Picked s [] p q l = nobody tt
schedule_loop-Picked s (x ∷ xs) p q (e, l) = elim (Bool-cases (is_ready (state_at s x))) [
  | inl r ↦ rw (e, r) (picked [] x xs refl tt r)
  | inr r ↦ rw (e, r) (skip-Picked s x xs _ r (schedule_loop-Picked s xs (next_of s x) q l))
]

-- The slots of the ring from the one after `current` on, `current` last.
pub from_next :
    (s : Scheduler) (c : ℕ) (rest : List ℕ)
    → Links (next_of s) s.current (c ∷ rest) s.current
    → Links (next_of s) (next_of s c) (rest ++ c ∷ []) (next_of s c)
from_next s c rest (e, l) =
    Links-append (next_of s) (next_of s c) s.current (next_of s c) rest (c ∷ []) l (e, refl)
