-- ===== src/Lock/Names.antt =====
-- `mutex_open`: mutexes by name.
use gat_os_v.Base.{
  ℕ, zero, suc, ◌+◌, ◌≤◌, ◌<◌, ◌≡◌, ◌≢◌, ◌⊎◌, inl, inr, true, false, ◌&&◌, arith, refl, ap, ◌∙◌,
  List, Bool-cases, lt→ltb, update, update_self, update_ne, ltb, ◌==◌, ℤ, pos, negsuc, is_zero,
}
use gat_os_v.Process.{Processes, Pointers}
use gat_os_v.Outcome.{goes_on}
use gat_os_v.Strings.{strcmp, IsBytes, strcmp_zero}
use gat_os_v.Lock.{
  Lock, Memory, Place, found, vacant, exhausted, is_open, open_loop, open_state, unlocked_word,
  locked_word, create_new_mutex, open_at, open_locked, mutex_open, lock_array, max_mutexes,
}

-- The test of the loop.
abbrev Named : List ℕ → Lock → Type 0
Named name l = is_zero (strcmp name l.name) ≡ true

-- The three ways that a round goes.
module _ (rounds k : ℕ) (name : List ℕ) (locks : ℕ → Lock) where
  at_closed : is_open k locks ≡ false → open_loop (suc rounds) k name locks ≡ vacant k
  unfolding open_loop
  at_closed e = rw e refl

  stops_there :
      is_open k locks ≡ true → Named name (locks k) → open_loop (suc rounds) k name locks ≡ found k
  unfolding open_loop
  stops_there e f = rw (e, f) refl

  at_other :
      is_open k locks ≡ true
      → is_zero (strcmp name (locks k).name) ≡ false
      → open_loop (suc rounds) k name locks ≡ open_loop rounds (k + 1) name locks
  unfolding open_loop
  at_other e f = rw (e, f) refl

-- An open mutex of that name.
record IsOpened (name : List ℕ) (l : Lock) : Type 0 where
  opened : (l.state == open_state) ≡ true
  named : Named name l

-- What the result of the loop says: at a closed mutex it would find one that is opened there.
data Ended (rounds i : ℕ) (name : List ℕ) (locks : ℕ → Lock) : Place → Type 0 where
  is_found :
      (k : ℕ) → is_open k locks ≡ true → Named name (locks k) → Ended rounds i name locks (found k)
  is_vacant :
      (k : ℕ)
      → i ≤ k
      → k < i + rounds
      → ((new : Lock) → IsOpened name new → open_loop rounds i name (update locks k new) ≡ found k)
      → Ended rounds i name locks (vacant k)
  is_exhausted : Ended rounds i name locks exhausted

is_open-new :
    (i : ℕ) (new : Lock) (locks : ℕ → Lock)
    → i < max_mutexes
    → (new.state == open_state) ≡ true
    → is_open i (update locks i new) ≡ true
unfolding is_open
is_open-new i new locks lt o =
    let here = ap (λ (l : Lock). l.state == open_state) (update_self locks i new) ∙ o in
    rw (here, lt→ltb i max_mutexes lt) refl

is_open-other :
    (i k : ℕ) (new : Lock) (locks : ℕ → Lock)
    → k ≢ i
    → is_open i (update locks k new) ≡ is_open i locks
unfolding is_open
is_open-other i k new locks ne =
    ap (λ (l : Lock). ltb i max_mutexes && l.state == open_state) (update_ne locks k i new ne)

later :
    (rounds i : ℕ) (name : List ℕ) (locks : ℕ → Lock) (p : Place)
    → is_open i locks ≡ true
    → is_zero (strcmp name (locks i).name) ≡ false
    → Ended rounds (i + 1) name locks p
    → Ended (suc rounds) i name locks p
later rounds i name locks p o other (is_found k a b) = is_found k a b
later rounds i name locks p o other (is_vacant k lo hi again) =
    let ne : k ≢ i = λ e. omega (arith, e, lo) in
    is_vacant k (omega (arith, lo)) (omega (arith, hi)) (λ new new_open.
      at_other rounds i name (update locks k new) (is_open-other i k new locks ne ∙ o)
        (ap (λ (l : Lock). is_zero (strcmp name l.name)) (update_ne locks k i new ne) ∙ other)
      ∙ again new new_open)
later rounds i name locks p o other is_exhausted = is_exhausted

at_closed-again :
    (rounds i : ℕ) (name : List ℕ) (locks : ℕ → Lock)
    → i < max_mutexes
    → Ended (suc rounds) i name locks (vacant i)
at_closed-again rounds i name locks lt = is_vacant i (omega arith) (omega arith) (λ new o.
    stops_there rounds i name (update locks i new) (is_open-new i new locks lt o.opened)
      (ap (λ (l : Lock). is_zero (strcmp name l.name)) (update_self locks i new) ∙ o.named))

open_loop-Ended :
    (rounds i : ℕ) (name : List ℕ) (locks : ℕ → Lock)
    → i + rounds ≤ max_mutexes
    → Ended rounds i name locks (open_loop rounds i name locks)
unfolding open_loop
open_loop-Ended zero i name locks le = is_exhausted
open_loop-Ended (suc rounds) i name locks le = elim (Bool-cases (is_open i locks)) [
  | inr closed ↦ rw closed (at_closed-again rounds i name locks (omega (arith, le)))
  | inl o ↦ elim (Bool-cases (is_zero (strcmp name (locks i).name))) [
    | inl same ↦ rw (o, same) (is_found i o same)
    | inr other ↦
        rw (o, other)
          (later rounds i name locks _ o other
            (open_loop-Ended rounds (i + 1) name locks (omega (arith, le))))
  ]
]

-- What the key that `mutex_open` returns means.
abbrev pub Holds : List ℕ → (ℕ → Lock) → ℤ → Type 0
Holds name locks (pos k) = (is_open k locks ≡ true) × (is_zero (strcmp name (locks k).name) ≡ true)
Holds name locks (negsuc n) = n ≡ 1

module _ (P : Processes) (X : Pointers P) where
  -- What `mutex_open` has returned holds, and it returns the same again.
  Opened : List ℕ → ℕ → ℤ × Memory P → Type 0
  Opened name page (key, m1) =
      Holds name m1.locks key
      × (m1.array_mutex ≡ unlocked_word)
      × (open_locked P X name page (record m1 { array_mutex = locked_word }) ≡ (key, m1))

  open_at-Opened :
      (name : List ℕ) (page page' : ℕ) (m : Memory P) (p : Place)
      → is_zero (strcmp name name) ≡ true
      → open_loop max_mutexes 0 name m.locks ≡ p
      → Ended max_mutexes 0 name m.locks p
      → Opened name page' (open_at P X p name page m)
  unfolding open_at open_locked Opened
  open_at-Opened name page page' m _ self e (is_found k o n) =
      ((o, n), refl, ap (λ p. open_at P X p name page' (record m { array_mutex = locked_word })) e)
  open_at-Opened name page page' m _ self e (is_vacant k lo hi again) =
      let new = create_new_mutex P X name page in
      let is_new : IsOpened name new = record { opened = refl; named = self } in
      let m1 = (open_at P X (vacant k) name page m).1 in
      (
        (
          is_open-new k new m.locks hi refl,
          ap (λ (l : Lock). is_zero (strcmp name l.name)) (update_self m.locks k new) ∙ self,
        ),
        refl,
        ap (λ p. open_at P X p name page' (record m1 { array_mutex = locked_word }))
            (again new is_new),
      )
  open_at-Opened name page page' m _ self e is_exhausted =
      (refl, refl, ap (λ p. open_at P X p name page' (record m { array_mutex = locked_word })) e)

  -- `mutex_open` with the lock of the array free ends, and leaves it free. It returns the key of an
  -- open mutex of that name, or the error when all are open with other names, and to open the same
  -- name once more returns the same and changes nothing.
  mutex_open_again :
      (name : List ℕ) (page page' : ℕ) (m : Memory P)
      → IsBytes name
      → m.array_mutex ≡ unlocked_word
      → (key : ℤ) × (m1 : Memory P) × (mutex_open P X name page m ≡ goes_on (key, m1))
        × Holds name m1.locks key
        × (m1.array_mutex ≡ unlocked_word)
        × (mutex_open P X name page' m1 ≡ goes_on (key, m1))
  unfolding mutex_open lock_array open_locked Opened
  mutex_open_again name page page' m bytes free =
      let unlocked : (m.array_mutex == locked_word) ≡ false = ground (arith, free) in
      let (key, m1) = open_locked P X name page (record m { array_mutex = locked_word }) in
      let same = ap is_zero ((strcmp_zero name name bytes bytes).1 refl) in
      let (holds, left_free, again) =
        open_at-Opened name page page' (record m { array_mutex = locked_word }) _ same refl
          (open_loop-Ended max_mutexes 0 name m.locks (omega arith)) in
      let unlocked1 : (m1.array_mutex == locked_word) ≡ false = ground (arith, left_free) in
      (key, m1, rw unlocked refl, holds, left_free, rw unlocked1 (ap goes_on again))

-- The loop stops at the first mutex that is closed, where those before it have other names.
open_loop-vacant :
    (rounds i j : ℕ) (name : List ℕ) (locks : ℕ → Lock)
    → i ≤ j
    → j < i + rounds
    → ((x : ℕ) → x < j → (is_open x locks ≡ true) × (is_zero (strcmp name (locks x).name) ≡ false))
    → is_open j locks ≡ false
    → open_loop rounds i name locks ≡ vacant j
open_loop-vacant zero i j name locks lo hi before closed = absurd (omega (arith, lo, hi))
open_loop-vacant (suc rounds) i j name locks lo hi before closed = elim (here i j lo) [
  | inl same ↦
      at_closed rounds i name locks (ap (λ x. is_open x locks) same ∙ closed) ∙ ap vacant same
  | inr less ↦
      let (o, other) = before i less in
      at_other rounds i name locks o other
      ∙ open_loop-vacant rounds (i + 1) j name locks (omega (arith, less)) (omega (arith, hi))
          before closed
]
  where
    here : (i j : ℕ) → i ≤ j → (i ≡ j) ⊎ (i < j)
    here i j lo = grind arith

-- When a mutex before the one of the name is closed, `mutex_open` opens a second one of the same name
-- there, and leaves the first one open.
mutex_open_twice :
    (P : Processes) (X : Pointers P) (name : List ℕ) (page j k : ℕ) (m : Memory P)
    → m.array_mutex ≡ unlocked_word
    → j < k
    → k < max_mutexes
    → ((x : ℕ)
        → x < j
        → (is_open x m.locks ≡ true) × (is_zero (strcmp name (m.locks x).name) ≡ false))
    → is_open j m.locks ≡ false
    → is_open k m.locks ≡ true
    → (m.locks k).name ≡ name
    → (m1 : Memory P) × (mutex_open P X name page m ≡ goes_on (pos j, m1))
      × (is_open j m1.locks ≡ true)
      × ((m1.locks j).name ≡ name)
      × (is_open k m1.locks ≡ true)
      × ((m1.locks k).name ≡ name)
unfolding mutex_open lock_array open_locked open_at
mutex_open_twice P X name page j k m free lt le before closed opened named =
    let unlocked : (m.array_mutex == locked_word) ≡ false = ground (arith, free) in
    let place =
      open_loop-vacant max_mutexes 0 j name m.locks (omega arith) (omega (arith, lt, le)) before
        closed in
    let new = create_new_mutex P X name page in
    let m0 = record m { array_mutex = locked_word } in
    let ne : j ≢ k = λ e. omega (arith, e, lt) in
    (
      (open_at P X (vacant j) name page m0).1,
      rw unlocked (ap (λ p. goes_on (open_at P X p name page m0)) place),
      is_open-new j new m.locks (omega (arith, lt, le)) refl,
      ap (λ (l : Lock). l.name) (update_self m.locks j new),
      is_open-other k j new m.locks ne ∙ opened,
      ap (λ (l : Lock). l.name) (update_ne m.locks j k new ne) ∙ named,
    )
