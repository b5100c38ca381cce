-- ===== src/Tests/Keys.antt =====
-- Kernel/keyboard.c and Kernel/terminal.c: characters that go over the end of the ring, and keys.
use gat_os_v.Base.{
  ℕ, ◌+◌, ◌≡◌, ◌<◌, true, false, arith, refl, [], ◌∷◌, ◌++◌, take, drop, if◌then◌else◌, ◌==◌, leb,
  ◌&&◌,
}
use gat_os_v.Terminal.{Terminal, buffer_size, get_terminal_buffer, get_loop, is_buffer_empty}
use gat_os_v.Terminal.Contents.{IsTerminal, waiting, contents}
use gat_os_v.Terminal.Queue.{get_terminal_buffer_lem}
use gat_os_v.Keyboard.{Keyboard, row, keyboard_handler}
use gat_os_v.Keyboard.Layout.{Key, kbd_en}
use gat_os_v.Keyboard.Letters.{in_case, differ, keyboard_handler_lem}

-- Two characters wait, at 2499 and 0.
abbrev over_end : Terminal
over_end = record {
  buffer = λ i. if i == 0 then 98 else 97;
  buffer_consume = 2499;
  buffer_position = 1;
  is_echo = true;
  interrupts = true;
  drawn = [];
}

over_end-IsTerminal : IsTerminal over_end
over_end-IsTerminal = record { consume_in = omega arith; position_in = omega arith }

over_end-room : waiting over_end + 1 < buffer_size
unfolding waiting
over_end-room = omega arith

-- The ring without a free place, from its start to its end.
abbrev brim : Terminal
brim = record {
  buffer = λ i. 97;
  buffer_consume = 0;
  buffer_position = 2499;
  is_echo = false;
  interrupts = true;
  drawn = [];
}

got_two : (get_terminal_buffer 5 over_end).0 ≡ 97 ∷ 98 ∷ []
unfolding get_terminal_buffer get_loop is_buffer_empty
got_two = refl

get_terminal_buffer_lem_example :
    let (characters, t') = get_terminal_buffer 1 over_end in
    (characters ≡ take 1 (contents over_end))
    × (contents t' ≡ drop 1 (contents over_end))
    × IsTerminal t'
    × (t'.interrupts ≡ true)
get_terminal_buffer_lem_example = get_terminal_buffer_lem 1 over_end over_end-IsTerminal

abbrev behind : ℕ → Key
behind c = record { code = 0; alone = 255; shifted = 255; capped = 255; both = 255 }

abbrev keys : Keyboard
keys = record { shift = true; caps = false; terminal = over_end; restarts = 0 }

key_of_a : (row behind 0x1e).alone ≡ 97
unfolding row kbd_en
key_of_a = refl

key_of_a-is_lower : (leb 97 (row behind 0x1e).alone && leb (row behind 0x1e).alone 122) ≡ true
unfolding row kbd_en
key_of_a-is_lower = refl

keyboard_handler_lem_example :
    let k' = keyboard_handler behind 0x1e keys in
    (contents k'.terminal
      ≡ contents over_end ++ in_case (differ false true) (row behind 0x1e).alone ∷ [])
    × IsTerminal k'.terminal
    × (k'.shift ≡ true)
    × (k'.caps ≡ false)
    × (k'.restarts ≡ 0)
keyboard_handler_lem_example =
    keyboard_handler_lem behind 0x1e keys (omega arith) key_of_a-is_lower over_end-IsTerminal
      over_end-room
