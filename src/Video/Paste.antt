-- ===== src/Video/Paste.antt =====
-- What `copyMouse` of Kernel/video.c keeps of the screen, and `paste` puts into the terminal.
use gat_os_v.Base.{
  ℕ, zero, suc, ◌+◌, ◌-◌, ◌*◌, ◌/◌, ◌%◌, ◌≤◌, ◌<◌, ◌≡◌, inl, inr, length, length-append, List, [],
  ◌∷◌, ◌++◌, arith, refl, sym, ap, ◌∙◌, subst, update, update_self, update_ne, ◌==◌, if◌then◌else◌,
  ℤ, pos, ◌+ℤ◌, ◌-ℤ◌, pos_up, pos_diff, pos_sum, pos_part,
}
use mathlib.Core.List.{append_assoc, append-nil}
use gat_os_v.Base.Rings.{length-stretch}
use gat_os_v.Terminal.{Terminal, buffer_size, put_terminal_buffer}
use gat_os_v.Terminal.Contents.{IsTerminal, waiting, contents}
use gat_os_v.Terminal.Queue.{put_room}
use gat_os_v.Copy.{to_byte}
use gat_os_v.Video.{
  Video, Cells, width, height, space_char, copy_mouse, select_loop, selected, get_screen, to_char,
  paste, paste_loop,
}
use gat_os_v.Video.Screen.{now_or_later}
use gat_os_v.Video.Scroll.{valid_pos}

-- The characters from a place on, blanks where there is nothing.
abbrev pub shown : ℕ → ℕ
shown b = if b == 0 then space_char else b

unfoldable pub text_at : ℕ → ℕ → Cells → List ℕ
text_at k zero cells = []
text_at k (suc n) cells = shown (cells (k / width) (k % width)) ∷ text_at (k + 1) n cells

byte-char : (b : ℕ) → b < 256 → to_byte (to_char b) ≡ b
byte-char b lt = ground arith

selected_lem :
    (h k : ℕ) (v : Video)
    → h + k < width * height
    → v.video ((h + k) / width) ((h + k) % width) < 256
    → selected (pos h +ℤ pos k) v ≡ shown (v.video ((h + k) / width) ((h + k) % width))
unfolding get_screen
selected_lem h k v lt byte =
    let valid = valid_pos ((h + k) / width) ((h + k) % width) (omega arith) (omega arith) in
    rw (pos_sum h k, valid, byte-char _ byte) refl

select_loop-below :
    (rounds h n : ℕ) (initial : ℤ) (v : Video) (chosen : ℕ → ℕ)
    → n < h
    → select_loop rounds h initial v chosen n ≡ chosen n
unfolding select_loop
select_loop-below zero h n initial v chosen lt = refl
select_loop-below (suc rounds) h n initial v chosen lt =
    select_loop-below rounds (h + 1) n initial v _ (omega arith)
    ∙ update_ne chosen h n _ (λ e. omega arith)

select_loop-at :
    (rounds h n : ℕ) (initial : ℤ) (v : Video) (chosen : ℕ → ℕ)
    → h ≤ n
    → n < h + rounds
    → select_loop rounds h initial v chosen n ≡ selected (pos n +ℤ initial) v
unfolding select_loop
select_loop-at zero h n initial v chosen le lt = absurd (omega arith)
select_loop-at (suc rounds) h n initial v chosen le lt = elim (now_or_later h n le) [
  | inl e ↦
      subst
        (λ r.
          select_loop rounds (h + 1) initial v (update chosen h (selected (pos h +ℤ initial) v)) r
          ≡ selected (pos r +ℤ initial) v)
        e
        (select_loop-below rounds (h + 1) h initial v _ (omega arith)
          ∙ update_self chosen h (selected (pos h +ℤ initial) v))
  | inr later ↦ select_loop-at rounds (h + 1) n initial v _ later (omega arith)
]

-- The characters that wait are one more after each that is put.
room-put :
    (c n : ℕ) (t t' : Terminal)
    → contents t' ≡ contents t ++ c ∷ []
    → waiting t + suc n < buffer_size
    → waiting t' + n < buffer_size
room-put c n t t' e room =
    let lengths : length (contents t') ≡ length (contents t) + 1 =
      ap length e ∙ length-append (contents t) (c ∷ []) in
    omega (
      arith,
      room,
      lengths,
      length-stretch buffer_size t.buffer t.buffer_consume (waiting t),
      length-stretch buffer_size t'.buffer t'.buffer_consume (waiting t'),
    )

add_zero : (a : ℕ) → a ≡ a + 0
add_zero a = omega arith

move_one : (a r : ℕ) → a + 1 + r ≡ a + (r + 1)
move_one a r = omega arith

turn : (r k : ℕ) → 0 + r + k ≡ k + r
turn r k = omega arith

paste_loop_lem :
    (n h k : ℕ) (v : Video) (t : Terminal) (cells : Cells)
    → ((r : ℕ) → r < n → v.mouse_select (h + r) ≡ shown (cells ((k + r) / width) ((k + r) % width)))
    → IsTerminal t
    → waiting t + n < buffer_size
    → IsTerminal (paste_loop n h v t)
      × (contents (paste_loop n h v t) ≡ contents t ++ text_at k n cells)
unfolding paste_loop text_at
paste_loop_lem zero h k v t cells kept valid room = (valid, sym (append-nil (contents t)))
paste_loop_lem (suc n) h k v t cells kept valid room =
    let c : ℕ = v.mouse_select h in
    let (valid', put, _, _) = put_room c t valid (omega arith) in
    let (valid2, rest) =
      paste_loop_lem n (h + 1) (k + 1) v (put_terminal_buffer c t) cells
        (λ r lt.
          ap v.mouse_select (move_one h r)
          ∙ kept (r + 1) (omega arith)
          ∙ ap (λ q. shown (cells (q / width) (q % width))) (sym (move_one k r)))
        valid' (room-put c n t (put_terminal_buffer c t) put room) in
    let first : c ≡ shown (cells (k / width) (k % width)) =
      ap v.mouse_select (add_zero h)
      ∙ kept 0 (omega arith)
      ∙ ap (λ q. shown (cells (q / width) (q % width))) (sym (add_zero k)) in
    (
      valid2,
      rest
          ∙ ap (λ l. l ++ text_at (k + 1) n cells) put
          ∙ append_assoc (contents t) (c ∷ []) (text_at (k + 1) n cells)
          ∙ ap (λ x. contents t ++ x ∷ text_at (k + 1) n cells) first,
    )

-- Where the places from `k` to `e` are on the screen and hold bytes, and the terminal has room for
-- them: `paste` after `copyMouse` of these places puts their characters behind those that wait, a blank
-- where there is none.
pub paste-copy_mouse :
    (k e : ℕ) (v : Video) (t : Terminal)
    → k ≤ e
    → e < width * height
    → ((f c : ℕ) → v.video f c < 256)
    → IsTerminal t
    → waiting t + (e + 1 - k) < buffer_size
    → IsTerminal (paste (copy_mouse (pos k) (pos e) v) t)
      × (contents (paste (copy_mouse (pos k) (pos e) v) t)
          ≡ contents t ++ text_at k (e + 1 - k) v.video)
unfolding copy_mouse
paste-copy_mouse k e v t le lt bytes valid room =
    let n : ℕ = e + 1 - k in
    let size : pos_part (pos e -ℤ pos k +ℤ pos 1) ≡ n =
      ap pos_part (ap (λ d. d +ℤ pos 1) (pos_diff e k le) ∙ pos_up (e - k)) ∙ omega arith in
    let chosen : Video = record v {
      mouse_select = select_loop n 0 (pos k) v v.mouse_select;
      size = pos e -ℤ pos k +ℤ pos 1;
    } in
    rw size (
      paste_loop_lem n 0 k chosen t v.video
        (λ r lr.
          select_loop-at n 0 (0 + r) (pos k) v v.mouse_select (omega arith) (omega arith)
          ∙ selected_lem (0 + r) k v (omega arith)
              (bytes ((0 + r + k) / width) ((0 + r + k) % width))
          ∙ ap (λ q. shown (v.video (q / width) (q % width))) (turn r k))
        valid room)
