-- ===== src/Sleep/Tally.antt =====
-- Sums over stretches of the table of sleepers, which do not depend on the order of its entries.
use gat_os_v.Base.{
  ℕ, zero, suc, ◌+◌, ◌-◌, ◌≤◌, ◌<◌, ◌≡◌, ◌≢◌, arith, refl, ap, ap₂, ◌∙◌, leb, update_self,
  update_ne, ℤ, false, ne→==-false, ==_iff,
}
use gat_os_v.Process.{Pid}
use gat_os_v.Sleep.{Sleepers, delete_sleep, count_up}

abbrev pub Entry : Type 0
Entry = Pid × ℕ × ℤ

abbrev pub entry : Sleepers → ℕ → Entry
entry z i = (z.sleep_pids i, z.sleep_counter i, z.alarm_sleep i)

-- The sum of the weights of `n` entries from index `i` on.
unfoldable pub tally : (Entry → ℕ) → Sleepers → ℕ → ℕ → ℕ
tally w z i zero = 0
tally w z i (suc n) = w (entry z i) + tally w z (i + 1) n

pub tally-nil : (w : Entry → ℕ) (z : Sleepers) (i : ℕ) → tally w z i 0 ≡ 0
unfolding tally
tally-nil w z i = refl

pub tally-cons :
    (w : Entry → ℕ) (z : Sleepers) (i n : ℕ)
    → tally w z i (suc n) ≡ w (entry z i) + tally w z (i + 1) n
unfolding tally
tally-cons w z i n = refl

pub tally-cong :
    (w : Entry → ℕ) (z z' : Sleepers) (i n : ℕ)
    → ((k : ℕ) → i ≤ k → k < i + n → entry z' k ≡ entry z k)
    → tally w z' i n ≡ tally w z i n
unfolding tally
tally-cong w z z' i zero same = refl
tally-cong w z z' i (suc n) same =
    ap₂ ◌+◌ (ap w (same i (omega arith) (omega arith)))
      (tally-cong w z z' (i + 1) n (λ k le lt. same k (omega arith) (omega arith)))

pub tally-snoc :
    (w : Entry → ℕ) (z : Sleepers) (i n : ℕ)
    → tally w z i (suc n) ≡ tally w z i n + w (entry z (i + n))
unfolding tally
tally-snoc w z i zero = omega (arith, ap (λ k. w (entry z k)) (add_zero i))
  where
    add_zero : (i : ℕ) → i + 0 ≡ i
    add_zero i = omega arith
tally-snoc w z i (suc n) =
    omega (arith, tally-snoc w z (i + 1) n, ap (λ k. w (entry z k)) (move_one i n))
  where
    move_one : (i n : ℕ) → i + 1 + n ≡ i + suc n
    move_one i n = omega arith

pub entry-count_up : (j k : ℕ) (z : Sleepers) → j ≢ k → entry (count_up j z) k ≡ entry z k
entry-count_up j k z ne =
    ap (λ c. (z.sleep_pids k, c, z.alarm_sleep k)) (update_ne z.sleep_counter j k _ ne)

pub entry-counted :
    (j : ℕ) (z : Sleepers)
    → entry (count_up j z) j ≡ (z.sleep_pids j, z.sleep_counter j + 1, z.alarm_sleep j)
entry-counted j z = ap (λ c. (z.sleep_pids j, c, z.alarm_sleep j)) (update_self z.sleep_counter j _)

-- The last entry takes the place of the one that is deleted.
pub entry-delete :
    (j k : ℕ) (z : Sleepers)
    → j < z.sleep_listeners
    → j ≢ k
    → entry (delete_sleep j z) k ≡ entry z k
unfolding delete_sleep
entry-delete j k z lt ne =
    let inside : leb z.sleep_listeners j ≡ false = ground arith in
    rw (inside, ne→==-false j k ne) refl

pub entry-deleted :
    (j : ℕ) (z : Sleepers)
    → j < z.sleep_listeners
    → entry (delete_sleep j z) j ≡ entry z (z.sleep_listeners - 1)
unfolding delete_sleep
entry-deleted j z lt =
    let inside : leb z.sleep_listeners j ≡ false = ground arith in
    rw (inside, (==_iff j j).1 refl) refl

-- What remains behind a deleted entry weighs what stood behind it.
pub tally-delete :
    (w : Entry → ℕ) (j n : ℕ) (z : Sleepers)
    → z.sleep_listeners ≡ j + 1 + n
    → tally w (delete_sleep j z) j n ≡ tally w z (j + 1) n
unfolding tally
tally-delete w j zero z e = refl
tally-delete w j (suc n) z e =
    let last : z.sleep_listeners - 1 ≡ j + 1 + n = omega arith in
    omega (
      arith,
      ap w (entry-deleted j z (omega arith)),
      ap (λ k. w (entry z k)) last,
      tally-cong w z (delete_sleep j z) (j + 1) n
          (λ k le lt. entry-delete j k z (omega arith) (λ d. omega arith)),
      tally-snoc w z (j + 1) n,
    )

-- A round on an entry that is due leaves the entries below it, and brings those behind it into its place.
pub tally-due-below :
    (w : Entry → ℕ) (j : ℕ) (z : Sleepers)
    → j < z.sleep_listeners
    → tally w (delete_sleep j (count_up j z)) 0 j ≡ tally w z 0 j
tally-due-below w j z lt = tally-cong w z (delete_sleep j (count_up j z)) 0 j (λ k le below.
    let ne : j ≢ k = λ d. omega arith in
    entry-delete j k (count_up j z) lt ne ∙ entry-count_up j k z ne)

pub tally-count_up-above :
    (w : Entry → ℕ) (j n : ℕ) (z : Sleepers)
    → tally w (count_up j z) (j + 1) n ≡ tally w z (j + 1) n
tally-count_up-above w j n z =
    tally-cong w z (count_up j z) (j + 1) n (λ k le lt. entry-count_up j k z (λ d. omega arith))

pub tally-due-above :
    (w : Entry → ℕ) (j n : ℕ) (z : Sleepers)
    → z.sleep_listeners ≡ j + suc n
    → tally w (delete_sleep j (count_up j z)) j n ≡ tally w z (j + 1) n
tally-due-above w j n z e =
    tally-delete w j n (count_up j z) (omega arith) ∙ tally-count_up-above w j n z

-- A round on an entry that is not due ages it.
pub tally-count_up-upto :
    (w : Entry → ℕ) (j : ℕ) (z : Sleepers)
    → tally w (count_up j z) 0 (suc j)
      ≡ tally w z 0 j + w (z.sleep_pids j, z.sleep_counter j + 1, z.alarm_sleep j)
tally-count_up-upto w j z =
    let here : 0 + j ≡ j = omega arith in
    omega (
      arith,
      tally-snoc w (count_up j z) 0 j,
      ap (λ k. w (entry (count_up j z) k)) here,
      ap w (entry-counted j z),
      tally-cong w z (count_up j z) 0 j (λ k le lt. entry-count_up j k z (λ d. omega arith)),
    )

pub delete_sleep-listeners :
    (j : ℕ) (z : Sleepers)
    → j < z.sleep_listeners
    → (delete_sleep j z).sleep_listeners ≡ z.sleep_listeners - 1
unfolding delete_sleep
delete_sleep-listeners j z lt =
    let inside : leb z.sleep_listeners j ≡ false = ground arith in rw inside refl
