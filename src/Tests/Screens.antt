-- ===== src/Tests/Screens.antt =====
-- Kernel/video.c: a screen with letters, the cursor in the middle, and a pane from the third row on.
use gat_os_v.Base.{◌+◌, ◌*◌, ◌%◌, ◌≡◌, arith, refl, true, none, some, [], ◌∷◌, pos, negsuc}
use gat_os_v.Terminal.{Terminal, put_char, line_jump, back_in_line}
use gat_os_v.Video.{Video, width, change_start_module, jump_line, scroll, draw}
use gat_os_v.Video.Cursor.{IsInPane, InPane, draw-InPane, change_start_module_stuck}
use gat_os_v.Video.Scroll.{moved_up, scroll_lem}

abbrev pub letters : Video
letters = record {
  video = λ f c. (f * width + c) % 128;
  attributes = λ f c. 0;
  screen = λ a. 0;
  i = pos 40;
  j = pos 10;
  mouse_select = λ h. 0;
  size = pos 0;
  i_start_module = 0;
  j_start_module = 3;
  stop_backwards = negsuc 0;
}

letters-IsInPane : IsInPane letters 40 10
letters-IsInPane = record {
  column = refl;
  row = refl;
  left = omega arith;
  right = omega arith;
  top = omega arith;
  bottom = omega arith;
}

abbrev pub quiet : Terminal
quiet = record {
  buffer = λ _. 0;
  buffer_consume = 0;
  buffer_position = 0;
  is_echo = true;
  interrupts = true;
  drawn = [];
}

draw-InPane_example :
    (v' : Video) × (draw 81 (put_char 65 ∷ line_jump ∷ back_in_line ∷ []) letters ≡ some v')
    × InPane v'
draw-InPane_example =
    draw-InPane (put_char 65 ∷ line_jump ∷ back_in_line ∷ []) letters (40, 10, letters-IsInPane)

change_start_module_stuck_example :
    jump_line 1000000 (change_start_module (pos width) (pos 3) letters) ≡ none
change_start_module_stuck_example =
    change_start_module_stuck 1000000 3 10 letters (omega arith) (omega arith) refl (omega arith)
      (omega arith)

-- A pane of one row
abbrev last_row : Video
last_row = record letters { j_start_module = 24 }

scroll_lem_example :
    ((scroll last_row).video 24 7 ≡ moved_up 24 letters.video 24 7)
    × ((scroll last_row).j ≡ pos 24)
    × ((scroll last_row).i ≡ pos 0)
scroll_lem_example = scroll_lem last_row 24 7 (omega arith) (omega arith) (omega arith)
