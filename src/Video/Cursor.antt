-- ===== src/Video/Cursor.antt =====
-- The cursor of Kernel/video.c in the pane of the module that runs.
use gat_os_v.Base.{
  ℕ, zero, suc, ◌+◌, ◌-◌, ◌^◌, ◌≤◌, ◌<◌, ◌≡◌, ◌≢◌, inl, inr, true, false, none, some, List, [], ◌∷◌,
  arith, refl, sym, ap, ◌∙◌, subst, Bool-cases, ne→==-false, ==_iff, ◌==◌, if◌then◌else◌, ltb, ℤ,
  pos, ◌+ℤ◌, ◌-ℤ◌, eq_ℤ, pos_up, pos_down,
}
use gat_os_v.Terminal.{Drawing, put_char, line_jump, back_in_line}
use gat_os_v.Video.{
  Video, width, height, change_start_module, valid_position, forward_cursor, forward_until,
  jump_line, back_in_row, print_char, put_at_cursor, scroll, update_screen, draw, and_then,
}

-- The cursor is in the pane, which has a column and a row at least.
pub record IsInPane (v : Video) (a b : ℕ) : Type 0 where
  pub column : v.i ≡ pos a
  pub row : v.j ≡ pos b
  pub left : v.i_start_module ≤ a
  pub right : a < width
  pub top : v.j_start_module ≤ b
  pub bottom : b < height

abbrev at_column : Video → ℤ → Video
at_column v n = record v { i = n }

abbrev at_row : Video → ℤ → Video
at_row v n = record v { j = n; i = pos v.i_start_module }

abbrev row_end : Video → ℤ → Video
row_end v n = record v { j = n; i = pos (width - 1) }

is_at : (n : ℤ) (k : ℕ) → n ≡ pos k → eq_ℤ n (pos k) ≡ true
is_at n k e = rw e ((==_iff k k).1 refl)

is_not_at : (n : ℤ) (a k : ℕ) → n ≡ pos a → a ≢ k → eq_ℤ n (pos k) ≡ false
is_not_at n a k e ne = rw e (ne→==-false a k ne)

-- `forwardCursor` from each of the places of the pane.
pub forward-along :
    (v : Video) (a : ℕ)
    → v.i ≡ pos a
    → a ≢ width - 1
    → forward_cursor v ≡ record v { i = pos (a + 1) }
unfolding forward_cursor
forward-along v a e ne =
    rw (is_not_at v.i a (width - 1) e ne) (ap (at_column v) (ap (λ n. n +ℤ pos 1) e ∙ pos_up a))

forward-wraps :
    (v : Video) (b : ℕ)
    → v.i ≡ pos (width - 1)
    → v.j ≡ pos b
    → b ≢ height - 1
    → forward_cursor v ≡ record v { j = pos (b + 1); i = pos v.i_start_module }
unfolding forward_cursor
forward-wraps v b e f ne =
    rw (is_at v.i (width - 1) e, is_not_at v.j b (height - 1) f ne)
      (ap (at_row v) (ap (λ n. n +ℤ pos 1) f ∙ pos_up b))

forward-scrolls :
    (v : Video)
    → v.i ≡ pos (width - 1)
    → v.j ≡ pos (height - 1)
    → forward_cursor v ≡ update_screen (scroll v)
unfolding forward_cursor
forward-scrolls v e f = rw (is_at v.i (width - 1) e, is_at v.j (height - 1) f) refl

-- The rounds of `lineJump` go to the end of the row and one step further.
forward_until_lem :
    (fuel a b : ℕ) (v : Video)
    → v.i ≡ pos a
    → v.j ≡ pos b
    → a < width
    → b + 1 < height
    → width + 1 ≤ fuel + a
    → forward_until fuel (pos (b + 1)) v
      ≡ some (record v { j = pos (b + 1); i = pos v.i_start_module })
unfolding forward_until
forward_until_lem zero a b v e f lt lt' enough = absurd (omega arith)
forward_until_lem (suc zero) a b v e f lt lt' enough = absurd (omega arith)
forward_until_lem (suc (suc fuel)) a b v e f lt lt' enough = elim (Bool-cases (a == width - 1)) [
  | inl last ↦
      let step = forward-wraps v b (e ∙ ap pos (ground arith)) f (λ z. omega arith) in
      rw (is_not_at v.j b (b + 1) f (λ z. omega arith), step, (==_iff (b + 1) (b + 1)).1 refl) refl
  | inr more ↦
      let step = forward-along v a e (λ z. ground (arith, z, more)) in
      rw (is_not_at v.j b (b + 1) f (λ z. omega arith), step)
        (forward_until_lem (suc fuel) (a + 1) b (at_column v (pos (a + 1))) refl f
          (ground (arith, more)) lt' (omega arith))
]

-- `lineJump` ends within 81 rounds: on the next row, or after a scroll on the last one.
pub jump_line_lem :
    (fuel a b : ℕ) (v : Video)
    → v.i ≡ pos a
    → v.j ≡ pos b
    → a < width
    → b < height
    → width + 1 ≤ fuel
    → jump_line fuel v
      ≡ some (
          if b == height - 1
          then scroll v
          else record v { j = pos (b + 1); i = pos v.i_start_module })
unfolding jump_line
jump_line_lem fuel a b v e f lt lt' enough = elim (Bool-cases (b == height - 1)) [
  | inl last ↦ rw (is_at v.j (height - 1) (f ∙ ap pos (ground arith)), last) refl
  | inr more ↦
      let next : v.j +ℤ pos 1 ≡ pos (b + 1) = ap (λ n. n +ℤ pos 1) f ∙ pos_up b in
      rw (is_not_at v.j b (height - 1) f (λ z. ground (arith, z, more)), more, next)
        (forward_until_lem fuel a b v e f lt (ground (arith, more)) (omega arith))
]

abbrev pub InPane : Video → Type 0
InPane v = (a : ℕ) × (b : ℕ) × IsInPane v a b

scroll-InPane : (v : Video) → InPane v → InPane (scroll v)
unfolding scroll
scroll-InPane v (a, b, c) = (
  v.i_start_module,
  height - 1,
  record {
    column = refl;
    row = refl;
    left = omega arith;
    right = omega (arith, c.left, c.right);
    top = omega (arith, c.top, c.bottom);
    bottom = omega arith;
  },
)

update_screen-InPane : (v : Video) → InPane v → InPane (update_screen v)
unfolding update_screen
update_screen-InPane v (a, b, c) = (
  a,
  b,
  record {
    column = c.column;
    row = c.row;
    left = c.left;
    right = c.right;
    top = c.top;
    bottom = c.bottom;
  },
)

print_char-InPane : (f c : ℤ) (x : ℕ) (v : Video) → InPane v → InPane (print_char f c x v)
unfolding print_char update_screen
print_char-InPane f c x v (a, b, p) = elim (Bool-cases (valid_position f c)) [
  | inl yes' ↦ rw yes' (
    a,
    b,
    record {
      column = p.column;
      row = p.row;
      left = p.left;
      right = p.right;
      top = p.top;
      bottom = p.bottom;
    },
  )
  | inr no' ↦ rw no' (a, b, p)
]

next_row-InPane :
    (v : Video) (a b : ℕ)
    → IsInPane v a b
    → b ≢ height - 1
    → InPane (record v { j = pos (b + 1); i = pos v.i_start_module })
next_row-InPane v a b c ne = (
  v.i_start_module,
  b + 1,
  record {
    column = refl;
    row = refl;
    left = omega arith;
    right = omega (arith, c.left, c.right);
    top = omega (arith, c.top);
    bottom = omega (arith, c.bottom);
  },
)

forward-InPane : (v : Video) → InPane v → InPane (forward_cursor v)
forward-InPane v (a, b, c) = elim (Bool-cases (a == width - 1)) [
  | inl last ↦
      let e : v.i ≡ pos (width - 1) = c.column ∙ ap pos (ground arith) in
      elim (Bool-cases (b == height - 1)) [
        | inl lowest ↦
            subst InPane (sym (forward-scrolls v e (c.row ∙ ap pos (ground arith))))
              (update_screen-InPane (scroll v) (scroll-InPane v (a, b, c)))
        | inr higher ↦
            subst InPane (sym (forward-wraps v b e c.row (λ z. ground (arith, z, higher))))
              (next_row-InPane v a b c (λ z. ground (arith, z, higher)))
      ]
  | inr more ↦ subst InPane (sym (forward-along v a c.column (λ z. ground (arith, z, more)))) (
    a + 1,
    b,
    record {
      column = refl;
      row = c.row;
      left = omega (arith, c.left);
      right = ground (arith, more, c.right);
      top = c.top;
      bottom = c.bottom;
    },
  )
]

back-InPane : (v : Video) → InPane v → InPane (back_in_row v)
unfolding back_in_row
back-InPane v (a, b, c) = elim (Bool-cases (a == v.i_start_module)) [
  | inl first ↦ rw (is_at v.i v.i_start_module (c.column ∙ ap pos (ground arith))) (a, b, c)
  | inr more ↦
      let left' : v.i -ℤ pos 1 ≡ pos (a - 1) =
        ap (λ n. n -ℤ pos 1) c.column ∙ pos_down a (ground (arith, more, c.left)) in
      rw (is_not_at v.i a v.i_start_module c.column (λ z. ground (arith, z, more))) (
        a - 1,
        b,
        record {
          column = left';
          row = c.row;
          left = ground (arith, more, c.left);
          right = omega (arith, c.right);
          top = c.top;
          bottom = c.bottom;
        },
      )
]

jump-InPane :
    (v : Video) → InPane v → (v' : Video) × (jump_line (width + 1) v ≡ some v') × InPane v'
jump-InPane v (a, b, c) =
    let ends = jump_line_lem (width + 1) a b v c.column c.row c.right c.bottom (omega arith) in
    elim (Bool-cases (b == height - 1)) [
      | inl last ↦ (
        scroll v,
        ends
            ∙ ap
                (λ t.
                  some (
                    if t then scroll v else record v { j = pos (b + 1); i = pos v.i_start_module }))
                last,
        scroll-InPane v (a, b, c),
      )
      | inr more ↦ (
        record v { j = pos (b + 1); i = pos v.i_start_module },
        ends
            ∙ ap
                (λ t.
                  some (
                    if t then scroll v else record v { j = pos (b + 1); i = pos v.i_start_module }))
                more,
        next_row-InPane v a b c (λ z. ground (arith, z, more)),
      )
    ]

-- From a cursor in the pane of its module, whatever the terminal asks to draw is drawn, with 81
-- rounds for each `lineJump`, and the cursor is in the pane again.
pub draw-InPane :
    (ds : List Drawing) (v : Video)
    → InPane v
    → (v' : Video) × (draw (width + 1) ds v ≡ some v') × InPane v'
unfolding draw put_at_cursor
draw-InPane [] v c = (v, refl, c)
draw-InPane (put_char x ∷ ds) v c =
    draw-InPane ds (put_at_cursor x v) (forward-InPane _ (print_char-InPane v.j v.i x v c))
draw-InPane (line_jump ∷ ds) v c =
    let (v1, jumped, c1) = jump-InPane v c in
    let (v2, drawn, c2) = draw-InPane ds v1 c1 in
    (v2, ap (λ o. and_then o (draw (width + 1) ds)) jumped ∙ drawn, c2)
draw-InPane (back_in_line ∷ ds) v c = draw-InPane ds (back_in_row v) (back-InPane v c)

-- Where the column is behind the last one, `forwardCursor` never comes to the end of the row.
forward_until_stuck :
    (fuel a b : ℕ) (aux : ℕ) (v : Video)
    → v.i ≡ pos a
    → v.j ≡ pos b
    → width ≤ a
    → b ≢ aux
    → forward_until fuel (pos aux) v ≡ none
unfolding forward_until
forward_until_stuck zero a b aux v e f le ne = refl
forward_until_stuck (suc fuel) a b aux v e f le ne =
    let step = forward-along v a e (λ z. omega arith) in
    rw (is_not_at v.j b aux f ne, step)
      (forward_until_stuck fuel (a + 1) b aux (at_column v (pos (a + 1))) refl f (omega arith) ne)

abbrev behind_last : Video → ℕ → Video
behind_last v c = record v { j_start_module = c; i_start_module = width; i = pos width }

accepts_width :
    (c : ℕ) (v : Video)
    → 3 ≤ c
    → c ≤ height
    → change_start_module (pos width) (pos c) v ≡ behind_last v c
unfolding change_start_module
accepts_width c v le le' =
    let low : ltb (c + 0) 3 ≡ false = ground arith in
    let high : ltb height (c + 0) ≡ false = ground arith in rw (low, high) refl

-- `changeStartModule` accepts the column 80, which is none, and puts the cursor there: on every row
-- but the last, `lineJump` has then not ended after any number of rounds, as long as the column is
-- below 2 ^ 31.
pub change_start_module_stuck :
    (fuel c b : ℕ) (v : Video)
    → 3 ≤ c
    → c ≤ height
    → v.j ≡ pos b
    → b + 1 < height
    → fuel + width < 2 ^ 31
    → jump_line fuel (change_start_module (pos width) (pos c) v) ≡ none
unfolding jump_line
change_start_module_stuck fuel c b v le le' f lt _ =
    let moved : Video = behind_last v c in
    let next : v.j +ℤ pos 1 ≡ pos (b + 1) = ap (λ n. n +ℤ pos 1) f ∙ pos_up b in
    rw (accepts_width c v le le', is_not_at v.j b (height - 1) f (λ z. omega (arith, z)), next)
      (forward_until_stuck fuel width b (b + 1) moved refl f (omega arith) (λ z. omega arith))
