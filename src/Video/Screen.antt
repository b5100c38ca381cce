-- ===== src/Video/Screen.antt =====
-- What `updateScreen` of Kernel/video.c writes.
use gat_os_v.Base.{
  ℕ, zero, suc, ◌+◌, ◌≤◌, ◌*◌, ◌<◌, ◌≡◌, ◌≢◌, ◌⊎◌, inl, inr, arith, refl, ◌∙◌, subst, update,
  update_self, update_ne,
}
use gat_os_v.Copy.{Bytes}
use gat_os_v.Video.{
  Video, width, height, screen_address, cell_address, rows_loop, columns_loop, update_screen,
}

-- A loop whose counter is at `k` has its round for `n` now or later.
pub now_or_later : (k n : ℕ) → k ≤ n → (k ≡ n) ⊎ (k + 1 ≤ n)
now_or_later k n le = ground arith

-- The address is neither of the two for the row and the column.
abbrev pub Misses : ℕ → ℕ → ℕ → Type 0
Misses p f c = (cell_address f c ≢ p) × (cell_address f c + 1 ≢ p)

pub rows_loop-miss :
    (n f c : ℕ) (v : Video) (m : Bytes) (p : ℕ)
    → ((g : ℕ) → f ≤ g → g < f + n → Misses p g c)
    → rows_loop n f c v m p ≡ m p
unfolding rows_loop
rows_loop-miss zero f c v m p miss = refl
rows_loop-miss (suc n) f c v m p miss =
    let (here, here') = miss f (omega arith) (omega arith) in
    let m1 : Bytes = update m (cell_address f c) (v.video f c) in
    rows_loop-miss n (f + 1) c v (update m1 (cell_address f c + 1) (v.attributes f c)) p
      (λ g le lt. miss g (omega arith) (omega arith))
    ∙ update_ne m1 (cell_address f c + 1) p (v.attributes f c) here'
    ∙ update_ne m (cell_address f c) p (v.video f c) here

pub rows_loop-hit :
    (n f c g : ℕ) (v : Video) (m : Bytes)
    → f ≤ g
    → g < f + n
    → (rows_loop n f c v m (cell_address g c) ≡ v.video g c)
      × (rows_loop n f c v m (cell_address g c + 1) ≡ v.attributes g c)
unfolding rows_loop
rows_loop-hit zero f c g v m le lt = absurd (omega arith)
rows_loop-hit (suc n) f c g v m le lt =
    let m1 : Bytes = update m (cell_address f c) (v.video f c) in
    let m2 : Bytes = update m1 (cell_address f c + 1) (v.attributes f c) in
    elim (now_or_later f g le) [
      | inl e ↦
          subst
            (λ r.
              (rows_loop n (f + 1) c v m2 (cell_address r c) ≡ v.video r c)
              × (rows_loop n (f + 1) c v m2 (cell_address r c + 1) ≡ v.attributes r c))
            e
            (
              rows_loop-miss n (f + 1) c v m2 (cell_address f c)
                    (λ r le' lt'. (λ d. omega arith, λ d. omega arith))
                  ∙ update_ne m1 (cell_address f c + 1) (cell_address f c) (v.attributes f c)
                      (λ d. omega arith)
                  ∙ update_self m (cell_address f c) (v.video f c),
              rows_loop-miss n (f + 1) c v m2 (cell_address f c + 1)
                    (λ r le' lt'. (λ d. omega arith, λ d. omega arith))
                  ∙ update_self m1 (cell_address f c + 1) (v.attributes f c),
            )
      | inr later ↦ rows_loop-hit n (f + 1) c g v m2 later (omega arith)
    ]

columns_loop-miss :
    (n c : ℕ) (v : Video) (m : Bytes) (p : ℕ)
    → ((f d : ℕ) → f < height → c ≤ d → d < c + n → Misses p f d)
    → columns_loop n c v m p ≡ m p
unfolding columns_loop
columns_loop-miss zero c v m p miss = refl
columns_loop-miss (suc n) c v m p miss =
    columns_loop-miss n (c + 1) v (rows_loop height 0 c v m) p
      (λ f d lf le lt. miss f d lf (omega arith) (omega arith))
    ∙ rows_loop-miss height 0 c v m p
        (λ g le lt. miss g c (omega arith) (omega arith) (omega arith))

columns_loop-hit :
    (n c f d : ℕ) (v : Video) (m : Bytes)
    → f < height
    → c ≤ d
    → d < c + n
    → c + n ≤ width
    → (columns_loop n c v m (cell_address f d) ≡ v.video f d)
      × (columns_loop n c v m (cell_address f d + 1) ≡ v.attributes f d)
unfolding columns_loop
columns_loop-hit zero c f d v m lf le lt fine = absurd (omega arith)
columns_loop-hit (suc n) c f d v m lf le lt fine =
    let m1 : Bytes = rows_loop height 0 c v m in
    elim (now_or_later c d le) [
      | inl e ↦
          let (char', attribute) = rows_loop-hit height 0 c f v m (omega arith) (omega arith) in
          subst
            (λ k.
              (columns_loop n (c + 1) v m1 (cell_address f k) ≡ v.video f k)
              × (columns_loop n (c + 1) v m1 (cell_address f k + 1) ≡ v.attributes f k))
            e
            (
              columns_loop-miss n (c + 1) v m1 (cell_address f c)
                    (λ g k lg le' lt'. (λ z. omega arith, λ z. omega arith))
                  ∙ char',
              columns_loop-miss n (c + 1) v m1 (cell_address f c + 1)
                    (λ g k lg le' lt'. (λ z. omega arith, λ z. omega arith))
                  ∙ attribute,
            )
      | inr later ↦ columns_loop-hit n (c + 1) f d v m1 lf later (omega arith) (omega arith)
    ]

-- After `updateScreen` the memory of the screen holds, at each row and column, the character and
-- behind it its attribute, and every byte outside the screen is what it was.
pub update_screen_lem :
    (v : Video) (f c p : ℕ)
    → f < height
    → c < width
    → (p < screen_address) ⊎ (screen_address + height * width * 2 ≤ p)
    → ((update_screen v).screen (cell_address f c) ≡ v.video f c)
      × ((update_screen v).screen (cell_address f c + 1) ≡ v.attributes f c)
      × ((update_screen v).screen p ≡ v.screen p)
unfolding update_screen
update_screen_lem v f c p lf lc out =
    let (char', attribute) =
      columns_loop-hit width 0 f c v v.screen lf (omega arith) (omega arith) (omega arith) in
    (
      char',
      attribute,
      columns_loop-miss width 0 v v.screen p
          (λ g d lg le lt. (λ z. ground arith, λ z. ground arith)),
    )
