-- ===== src/Terminal.antt =====
-- Kernel/terminal.c: the ring of characters between the keyboard and `read`. Pointers into `Buffer`
-- are offsets. What the handlers of Kernel/video.c are asked to draw is a list of events.
pub mod Contents
pub mod Queue
use gat_os_v.Base.{
  ℕ, zero, suc, ◌+◌, ◌-◌, Bool, true, false, ◌&&◌, ◌||◌, List, [], ◌∷◌, ◌++◌, ◌==◌, if◌then◌else◌,
  update,
}

abbrev pub buffer_size : ℕ
buffer_size = 2500

abbrev pub backspace : ℕ
backspace = 8

abbrev pub newline : ℕ
newline = 10

-- The calls of `putChar`, `lineJump` and `backInLine`.
pub data Drawing : Type 0 where
  put_char : ℕ → Drawing
  line_jump back_in_line : Drawing

-- The static variables, the interrupt flag that `cli` and `sti` change, and the events so far.
pub record Terminal : Type 0 where
  pub buffer : ℕ → ℕ
  pub buffer_consume : ℕ
  pub buffer_position : ℕ
  pub is_echo : Bool
  pub interrupts : Bool
  pub drawn : List Drawing

abbrev pub cli : Terminal → Terminal
cli t = record t { interrupts = false }

abbrev pub sti : Terminal → Terminal
sti t = record t { interrupts = true }

-- `isBufferFull` and `isBufferEmpty` return in front of their `sti`.
unfoldable pub is_buffer_full : Terminal → Bool × Terminal
is_buffer_full t = (
  t.buffer_consume == t.buffer_position + 1
      || (t.buffer_consume == buffer_size && t.buffer_position == 0),
  cli t,
)

unfoldable pub is_buffer_empty : Terminal → Bool × Terminal
is_buffer_empty t = (t.buffer_consume == t.buffer_position, cli t)

-- `echoON` and `echoOF`
unfoldable pub set_echo : Bool → Terminal → Terminal
set_echo on t = record t { is_echo = on }

-- `terminalInitializeC`; the contents of `Buffer`, the interrupt flag and the screen stay.
unfoldable pub terminal_initialize : Terminal → Terminal
terminal_initialize t = record t { buffer_consume = 0; buffer_position = 0; is_echo = true }

unfoldable pub reset_buffer : Terminal → Terminal
reset_buffer t = record t { buffer_position = 0; buffer_consume = 0 }

-- What a character draws.
abbrev pub drawing_of : Bool → ℕ → List Drawing
drawing_of echo c =
    if c == backspace
    then back_in_line ∷ put_char 32 ∷ back_in_line ∷ []
    else if c == newline
    then line_jump ∷ []
    else if echo
    then put_char c ∷ []
    else []

-- The end of `putTerminalBuffer`, from the second `cli` on.
unfoldable pub put_character : ℕ → Terminal → Terminal
put_character c t =
    let position = t.buffer_position + 1 in
    record t {
      buffer = update t.buffer t.buffer_position c;
      drawn = t.drawn ++ drawing_of t.is_echo c;
      buffer_position = if position == buffer_size then 0 else position;
      interrupts = true;
    }

unfoldable pub put_terminal_buffer : ℕ → Terminal → Terminal
unfolding is_buffer_full put_character
put_terminal_buffer c t =
    let (full, t1) = is_buffer_full t in if full then sti t1 else put_character c t1

-- One round of the loop of `getTerminalBuffer` where the buffer is not empty.
abbrev pub consume : Terminal → Terminal
consume t =
    let next = t.buffer_consume + 1 in
    record t { buffer_consume = if next == buffer_size then 0 else next }

-- The loop of `getTerminalBuffer`: the characters that it stores, and the terminal.
unfoldable pub get_loop : ℕ → Terminal → List ℕ × Terminal
unfolding is_buffer_empty
get_loop zero t = ([], sti t)
get_loop (suc length) t =
    let (empty, t1) = is_buffer_empty t in
    let (rest, t2) = get_loop length (consume t1) in
    if empty then ([], sti t1) else (t1.buffer t1.buffer_consume ∷ rest, t2)

-- `getTerminalBuffer`; the number that it returns is the length of the list.
unfoldable pub get_terminal_buffer : ℕ → Terminal → List ℕ × Terminal
unfolding get_loop
get_terminal_buffer length t = get_loop length (cli t)
