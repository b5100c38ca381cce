-- ===== src/Keyboard.antt =====
-- Kernel/keyboard.c: the handler of the keyboard interrupt, on the byte that it reads from port 0x60.
-- A `char` is a byte here; it is negative in C where it is 128 or more.
pub mod Layout
pub mod Letters
use gat_os_v.Base.{
  ℕ, zero, suc, ◌+◌, Bool, true, false, ◌&&◌, ◌||◌, not, List, [], ◌∷◌, Option, none, some, ◌==◌,
  ltb, if◌then◌else◌, get_or,
}
use gat_os_v.Terminal.{Terminal, put_terminal_buffer}
use gat_os_v.Keyboard.Layout.{Key, kbd_en}

abbrev pub left_shift_make : ℕ
left_shift_make = 0x2A

abbrev pub right_shift_make : ℕ
right_shift_make = 0x36

abbrev pub caps_lock : ℕ
caps_lock = 0x3A

abbrev pub left_shift_break : ℕ
left_shift_break = 0xAA

abbrev pub right_shift_break : ℕ
right_shift_break = 0xB6

abbrev pub nochar : ℕ
nochar = 255

-- The static variables, the terminal, and how often `restartSHELL` was called.
pub record Keyboard : Type 0 where
  pub shift : Bool
  pub caps : Bool
  pub terminal : Terminal
  pub restarts : ℕ

-- `kbd_EN[c]`; `outside` is what lies in memory where the table has no row.
unfoldable pub row : (ℕ → Key) → ℕ → Key
unfolding kbd_en
row outside c = get_or kbd_en c (outside c)

-- The column that the `if`s choose.
abbrev pub character : Bool → Bool → Key → ℕ
character true true k = k.both
character true false k = k.capped
character false true k = k.shifted
character false false k = k.alone

-- `keyboardHandlerC` from `toSend` on.
unfoldable pub send_key : (ℕ → Key) → ℕ → Keyboard → Keyboard
send_key outside c k =
    let k1 = if k.shift && c == 0x3b then record k { restarts = k.restarts + 1 } else k in
    if ltb c 0x80 && not ((row outside c).alone == nochar)
    then record k1 {
      terminal = put_terminal_buffer (character k1.caps k1.shift (row outside c)) k1.terminal;
    }
    else k1

-- `keyboardHandlerC`
unfoldable pub keyboard_handler : (ℕ → Key) → ℕ → Keyboard → Keyboard
unfolding send_key
keyboard_handler outside c k =
    if c == caps_lock
    then record k { caps = not k.caps }
    else if c == left_shift_make || c == right_shift_make
    then record k { shift = true }
    else if c == left_shift_break || c == right_shift_break
    then record k { shift = false }
    else send_key outside c k
