-- ===== src/Video/Put.antt =====
-- A character put at the cursor of Kernel/video.c.
use gat_os_v.Base.{ℕ, ◌+◌, ◌<◌, ◌≡◌, ◌≢◌, ◌⊎◌, inl, arith, refl, ap, ◌∙◌, pos}
use gat_os_v.Video.{
  Video, width, height, cell_address, set_cell, update_screen, put_at_cursor, print_char,
  forward_cursor,
}
use gat_os_v.Video.Screen.{update_screen_lem}
use gat_os_v.Video.Scroll.{valid_pos, set_cell_self, set_cell_ne}
use gat_os_v.Video.Cursor.{IsInPane, forward-along}

print-at :
    (x a b : ℕ) (v : Video)
    → IsInPane v a b
    → print_char v.j v.i x v ≡ update_screen (record v { video = set_cell b a x v.video })
unfolding print_char
print-at x a b v c = let valid = valid_pos b a c.bottom c.right in rw (c.column, c.row, valid) refl

-- `putChar` at a cursor in the pane, but for the last column: the screen shows the character at the
-- place of the cursor, the characters of the screen at every other place, and the cursor is one
-- column further.
put_at_cursor_lem :
    (x a b g c : ℕ) (v : Video)
    → IsInPane v a b
    → a + 1 < width
    → g < height
    → c < width
    → (b ≢ g) ⊎ (a ≢ c)
    → let v' = put_at_cursor x v in
      (v'.screen (cell_address b a) ≡ x)
      × (v'.screen (cell_address g c) ≡ v.video g c)
      × (v'.i ≡ pos (a + 1))
      × (v'.j ≡ pos b)
unfolding put_at_cursor update_screen
put_at_cursor_lem x a b g c v p more lg lc apart =
    let drawn : Video = record v { video = set_cell b a x v.video } in
    let shown : Video = update_screen drawn in
    let same : put_at_cursor x v ≡ record shown { i = pos (a + 1) } =
      ap forward_cursor (print-at x a b v p)
      ∙ forward-along shown a p.column (λ e. omega (arith, e, more)) in
    let (here, _, _) = update_screen_lem drawn b a 0 p.bottom p.right (inl (omega arith)) in
    let (there, _, _) = update_screen_lem drawn g c 0 lg lc (inl (omega arith)) in
    (
      ap (λ (w : Video). w.screen (cell_address b a)) same ∙ here ∙ set_cell_self b a x v.video,
      ap (λ (w : Video). w.screen (cell_address g c)) same
          ∙ there
          ∙ set_cell_ne b a x g c v.video apart,
      ap (λ (w : Video). w.i) same,
      ap (λ (w : Video). w.j) same ∙ p.row,
    )
