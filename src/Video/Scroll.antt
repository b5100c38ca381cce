-- ===== src/Video/Scroll.antt =====
-- `scroll` of Kernel/video.c, and a character put at the cursor.
use gat_os_v.Base.{
  ℕ, zero, suc, ◌+◌, ◌-◌, ◌≤◌, ◌<◌, ◌≡◌, ◌≢◌, ◌⊎◌, inl, inr, true, if◌then◌else◌, ltb, arith, refl,
  ap, ◌∙◌, subst, Bool-cases, ◌==◌, update, update_self, update_ne, pos,
}
use gat_os_v.Video.{
  Video, Cells, width, height, space_char, valid_position, set_cell, clear_position, copy_row_loop,
  clear_row_loop, copy_row, scroll_loop, scroll,
}
use gat_os_v.Video.Screen.{now_or_later}

pub set_cell_self : (f c a : ℕ) (cells : Cells) → set_cell f c a cells f c ≡ a
set_cell_self f c a cells =
    ap (λ row. row c) (update_self cells f (update (cells f) c a)) ∙ update_self (cells f) c a

pub set_cell_ne :
    (f c a g d : ℕ) (cells : Cells) → (f ≢ g) ⊎ (c ≢ d) → set_cell f c a cells g d ≡ cells g d
set_cell_ne f c a g d cells (inl ne) =
    ap (λ row. row d) (update_ne cells f g (update (cells f) c a) ne)
set_cell_ne f c a g d cells (inr ne) = elim (Bool-cases (f == g)) [
  | inl same ↦
      let e : f ≡ g = ground arith in
      subst (λ r. set_cell f c a cells r d ≡ cells r d) e
        (ap (λ row. row d) (update_self cells f (update (cells f) c a))
          ∙ update_ne (cells f) c d a ne)
  | inr other ↦
      ap (λ row. row d) (update_ne cells f g (update (cells f) c a) (λ e. ground (arith, e, other)))
]

pub valid_pos : (f c : ℕ) → f < height → c < width → valid_position (pos f) (pos c) ≡ true
unfolding valid_position
valid_pos f c lf lc = ground arith

clear_position_lem :
    (f c : ℕ) (cells : Cells)
    → f < height
    → c < width
    → clear_position f c cells ≡ set_cell f c space_char cells
unfolding clear_position
clear_position_lem f c cells lf lc = rw (valid_pos f c lf lc) refl

-- One round of `copyRow`.
abbrev round : ℕ → ℕ → ℕ → Cells → Cells
round k from to cells = clear_position from k (set_cell to k (cells from k) cells)

round_lem :
    (k from to : ℕ) (cells : Cells)
    → from < height
    → k < width
    → from ≢ to
    → (round k from to cells to k ≡ cells from k) × (round k from to cells from k ≡ space_char)
round_lem k from to cells lf lk ne =
    let moved : Cells = set_cell to k (cells from k) cells in
    let e = clear_position_lem from k moved lf lk in
    (
      ap (λ (now : Cells). now to k) e
          ∙ set_cell_ne from k space_char to k moved (inl ne)
          ∙ set_cell_self to k (cells from k) cells,
      ap (λ (now : Cells). now from k) e ∙ set_cell_self from k space_char moved,
    )

-- A place that a round of `copyRow` does not touch.
abbrev Apart : ℕ → ℕ → ℕ → ℕ → ℕ → Type 0
Apart k from to g c = (k ≢ c) ⊎ ((from ≢ g) × (to ≢ g))

round_else :
    (k from to g c : ℕ) (cells : Cells)
    → from < height
    → k < width
    → Apart k from to g c
    → round k from to cells g c ≡ cells g c
round_else k from to g c cells lf lk apart =
    let moved : Cells = set_cell to k (cells from k) cells in
    let (one, two) : ((from ≢ g) ⊎ (k ≢ c)) × ((to ≢ g) ⊎ (k ≢ c)) = elim apart [
      | inl ne ↦ (inr ne, inr ne)
      | inr (ne, ne') ↦ (inl ne, inl ne')
    ] in
    ap (λ (now : Cells). now g c) (clear_position_lem from k moved lf lk)
    ∙ set_cell_ne from k space_char g c moved one
    ∙ set_cell_ne to k (cells from k) g c cells two

copy_row_loop-miss :
    (n k from to g c : ℕ) (cells : Cells)
    → from < height
    → k + n ≤ width
    → (c < k) ⊎ ((from ≢ g) × (to ≢ g))
    → copy_row_loop n k from to cells g c ≡ cells g c
unfolding copy_row_loop
copy_row_loop-miss zero k from to g c cells lf fine apart = refl
copy_row_loop-miss (suc n) k from to g c cells lf fine apart =
    let (later, now') : ((c < k + 1) ⊎ ((from ≢ g) × (to ≢ g))) × Apart k from to g c = elim apart [
      | inl lt ↦ (inl (omega arith), inl (λ e. omega arith))
      | inr ne ↦ (inr ne, inr ne)
    ] in
    copy_row_loop-miss n (k + 1) from to g c (round k from to cells) lf (omega arith) later
    ∙ round_else k from to g c cells lf (omega arith) now'

copy_row_loop-hit :
    (n k from to c : ℕ) (cells : Cells)
    → from < height
    → k + n ≤ width
    → from ≢ to
    → k ≤ c
    → c < k + n
    → (copy_row_loop n k from to cells to c ≡ cells from c)
      × (copy_row_loop n k from to cells from c ≡ space_char)
unfolding copy_row_loop
copy_row_loop-hit zero k from to c cells lf fine ne le lt = absurd (omega arith)
copy_row_loop-hit (suc n) k from to c cells lf fine ne le lt =
    let next : Cells = round k from to cells in
    elim (now_or_later k c le) [
      | inl e ↦
          let (at_to, at_from) = round_lem k from to cells lf (omega arith) ne in
          let stays = λ (g : ℕ).
            copy_row_loop-miss n (k + 1) from to g k next lf (omega arith) (inl (omega arith)) in
          subst
            (λ d.
              (copy_row_loop n (k + 1) from to next to d ≡ cells from d)
              × (copy_row_loop n (k + 1) from to next from d ≡ space_char))
            e (stays to ∙ at_to, stays from ∙ at_from)
      | inr later ↦
          let (at_to, at_from) =
            copy_row_loop-hit n (k + 1) from to c next lf (omega arith) ne later (omega arith) in
          (
            at_to ∙ round_else k from to from c cells lf (omega arith) (inl (λ e. omega arith)),
            at_from,
          )
    ]

clear_row_loop-miss :
    (n k f g c : ℕ) (cells : Cells)
    → f < height
    → k + n ≤ width
    → (c < k) ⊎ (f ≢ g)
    → clear_row_loop n k f cells g c ≡ cells g c
unfolding clear_row_loop
clear_row_loop-miss zero k f g c cells lf fine apart = refl
clear_row_loop-miss (suc n) k f g c cells lf fine apart =
    let (later, now') : ((c < k + 1) ⊎ (f ≢ g)) × ((f ≢ g) ⊎ (k ≢ c)) = elim apart [
      | inl lt ↦ (inl (omega arith), inr (λ e. omega arith))
      | inr ne ↦ (inr ne, inl ne)
    ] in
    clear_row_loop-miss n (k + 1) f g c (clear_position f k cells) lf (omega arith) later
    ∙ ap (λ (now : Cells). now g c) (clear_position_lem f k cells lf (omega arith))
    ∙ set_cell_ne f k space_char g c cells now'

clear_row_loop-hit :
    (n k f c : ℕ) (cells : Cells)
    → f < height
    → k + n ≤ width
    → k ≤ c
    → c < k + n
    → clear_row_loop n k f cells f c ≡ space_char
unfolding clear_row_loop
clear_row_loop-hit zero k f c cells lf fine le lt = absurd (omega arith)
clear_row_loop-hit (suc n) k f c cells lf fine le lt = elim (now_or_later k c le) [
  | inl e ↦
      subst (λ d. clear_row_loop n (k + 1) f (clear_position f k cells) f d ≡ space_char) e
        (clear_row_loop-miss n (k + 1) f f k (clear_position f k cells) lf (omega arith)
            (inl (omega arith))
          ∙ ap (λ (now : Cells). now f k) (clear_position_lem f k cells lf (omega arith))
          ∙ set_cell_self f k space_char cells)
  | inr later ↦
      clear_row_loop-hit n (k + 1) f c (clear_position f k cells) lf (omega arith) later
        (omega arith)
]

-- The loop of `scroll` from the row `f` on leaves the rows above the first target alone, and moves
-- the others up by one.
scroll_loop-above :
    (n f g c : ℕ) (cells : Cells)
    → f + n ≤ height
    → g + 1 < f
    → c < width
    → scroll_loop n f cells g c ≡ cells g c
unfolding scroll_loop
scroll_loop-above zero f g c cells fine lt lc = refl
scroll_loop-above (suc n) f g c cells fine lt lc =
    scroll_loop-above n (f + 1) g c (copy_row f (f - 1) cells) (omega arith) (omega arith) lc
    ∙ copy_row_loop-miss width 0 f (f - 1) g c cells (omega arith) (omega arith)
        (inr (λ e. omega arith, λ e. omega arith))

scroll_loop-moved :
    (n f g c : ℕ) (cells : Cells)
    → 1 ≤ f
    → f + n ≤ height
    → f ≤ g + 1
    → g + 1 < f + n
    → c < width
    → scroll_loop n f cells g c ≡ cells (g + 1) c
unfolding scroll_loop
scroll_loop-moved zero f g c cells pos' fine le lt lc = absurd (omega arith)
scroll_loop-moved (suc n) f g c cells pos' fine le lt lc =
    let next : Cells = copy_row f (f - 1) cells in
    elim (now_or_later f (g + 1) le) [
      | inl e ↦
          scroll_loop-above n (f + 1) g c next (omega arith) (omega arith) lc
          ∙ ap (λ r. next r c) (row_before f g e)
          ∙ (copy_row_loop-hit width 0 f (f - 1) c cells (omega arith) (omega arith)
              (λ z. omega arith) (omega arith) (omega arith)).0
          ∙ ap (λ r. cells r c) e
      | inr later ↦
          scroll_loop-moved n (f + 1) g c next (omega arith) (omega arith) later (omega arith) lc
          ∙ copy_row_loop-miss width 0 f (f - 1) (g + 1) c cells (omega arith) (omega arith)
              (inr (λ z. omega arith, λ z. omega arith))
    ]
  where
    row_before : (f g : ℕ) → f ≡ g + 1 → g ≡ f - 1
    row_before f g e = omega arith

-- What stands at a row and a column once the rows from `start` on are moved up by one.
abbrev pub moved_up : ℕ → Cells → ℕ → ℕ → ℕ
moved_up start cells r c =
    if ltb r start then cells r c else (if r == height - 1 then space_char else cells (r + 1) c)

-- `scroll` of a pane that starts on the screen, be it one row only, moves each of its rows up by one,
-- over the first, leaves blanks in the last and the rows above the pane alone, and puts the cursor at
-- the start of the last row.
pub scroll_lem :
    (v : Video) (r c : ℕ)
    → v.j_start_module < height
    → r < height
    → c < width
    → ((scroll v).video r c ≡ moved_up v.j_start_module v.video r c)
      × ((scroll v).j ≡ pos (height - 1))
      × ((scroll v).i ≡ pos v.i_start_module)
unfolding scroll
scroll_lem v r c pane lr lc =
    let n : ℕ = height - (v.j_start_module + 1) in
    let f : ℕ = v.j_start_module + 1 in
    let rows : Cells = scroll_loop n f v.video in
    let kept = λ (ne : height - 1 ≢ r).
      clear_row_loop-miss width 0 (height - 1) r c rows (omega arith) (omega arith) (inr ne) in
    elim (Bool-cases (ltb r v.j_start_module)) [
      | inl above ↦
          let high : r + 1 < f = ground (arith, above) in
          (
            rw above (
                kept (λ e. omega (arith, high, e))
                ∙ scroll_loop-above n f r c v.video (omega arith) high lc),
            refl,
            refl,
          )
      | inr inside ↦
          let low : f ≤ r + 1 = ground (arith, inside) in
          elim (Bool-cases (r == height - 1)) [
            | inl last ↦
                let here : height - 1 ≡ r = ground (arith, last) in
                (
                  rw (inside, last)
                      (subst (λ g. clear_row_loop width 0 (height - 1) rows g c ≡ space_char) here
                        (clear_row_loop-hit width 0 (height - 1) c rows (omega arith) (omega arith)
                          (omega arith) (omega arith))),
                  refl,
                  refl,
                )
            | inr before ↦
                let ne : height - 1 ≢ r = λ e. ground (arith, before, e) in
                let next : r + 1 < height = ground (arith, before, lr) in
                (
                  rw (inside, before)
                      (kept ne
                        ∙ scroll_loop-moved n f r c v.video (omega arith) (omega arith) low
                            (omega (arith, next)) lc),
                  refl,
                  refl,
                )
          ]
    ]
