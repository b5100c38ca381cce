-- ===== src/Outcome.antt =====
-- How a kernel routine that may give up the processor ends.
use gat_os_v.Base.{Option, none, some}

-- `goes_on`: the caller keeps the processor. `switched`: it stands in a `_yield`, and the rest of the
-- routine runs when it is chosen again. `spins`: the scheduler finds no READY process and never ends.
pub data Outcome (A : Type 0) : Type 0 where
  goes_on : A → Outcome A
  switched : A → Outcome A
  spins : Outcome A

infixl 5 ◌>>=◌
abbrev pub ◌>>=◌ : {A : Type 0} → Outcome A → (A → Outcome A) → Outcome A
goes_on a >>= f = f a
switched a >>= f = switched a
spins >>= f = spins

-- What a `_yield` gives, with the memory that goes with the new scheduler state.
abbrev pub after_yield : {A S : Type 0} → Option S → (S → A) → Outcome A
after_yield none f = spins
after_yield (some s) f = switched (f s)

abbrev pub map_outcome : {A B : Type 0} → (A → B) → Outcome A → Outcome B
map_outcome f (goes_on a) = goes_on (f a)
map_outcome f (switched a) = switched (f a)
map_outcome f spins = spins
