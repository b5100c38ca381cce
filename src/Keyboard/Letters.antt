-- ===== src/Keyboard/Letters.antt =====
-- What the keys of the table send.
use gat_os_v.Base.{
  ℕ, ◌+◌, ◌-◌, ◌≤◌, ◌<◌, ◌≡◌, Bool, true, false, ◌&&◌, ◌||◌, not, arith, refl, ap, [], ◌∷◌, ◌++◌,
  ltb, leb, ◌==◌, if◌then◌else◌, holds_up_to, holds_at, ==_iff, get_or_beyond,
}
use gat_os_v.Terminal.{buffer_size, put_terminal_buffer}
use gat_os_v.Terminal.Contents.{IsTerminal, waiting, contents}
use gat_os_v.Terminal.Queue.{put_room}
use gat_os_v.Keyboard.Layout.{Key, kbd_en}
use gat_os_v.Keyboard.{
  Keyboard, row, character, keyboard_handler, caps_lock, left_shift_make, right_shift_make,
  left_shift_break, right_shift_break, nochar,
}

abbrev pub is_lower : ℕ → Bool
is_lower c = leb 97 c && leb c 122

-- The letter in the case that shift and caps lock choose.
abbrev pub in_case : Bool → ℕ → ℕ
in_case true c = c - 32
in_case false c = c

abbrev pub differ : Bool → Bool → Bool
differ true b = not b
differ false b = b

abbrev is_modifier : ℕ → Bool
is_modifier c =
    c == caps_lock
    || ((c == left_shift_make || c == right_shift_make)
        || (c == left_shift_break || c == right_shift_break))

-- A row with a letter: its code is that of no modifier, and its columns are the cases of the letter.
abbrev letter_row : ℕ → Key → Bool
letter_row c k =
    if is_lower k.alone
    then not (is_modifier c)
      && (not (c == 0x3b)
          && (k.shifted == k.alone - 32 && (k.capped == k.alone - 32 && k.both == k.alone)))
    else true

letter_rows : (outside : ℕ → Key) → holds_up_to (λ c. letter_row c (row outside c)) 86 ≡ true
unfolding row holds_up_to
letter_rows outside = refl

code_rows : (outside : ℕ → Key) → holds_up_to (λ c. (row outside c).code == c) 84 ≡ true
unfolding row holds_up_to
code_rows outside = refl

row_outside : (outside : ℕ → Key) (c : ℕ) → 86 ≤ c → row outside c ≡ outside c
unfolding row
row_outside outside c beyond = get_or_beyond kbd_en c (outside c) beyond

-- The rows of the table up to that of the point of the keypad stand at the index of their code. The
-- two rows behind, of F11 and F12, stand at 84 and 85, and for their codes, 0x57 and 0x58, as for any
-- from 86 on, the handler reads what lies behind the table.
row-code :
    (outside : ℕ → Key) (c : ℕ)
    → (c < 84 → (row outside c).code ≡ c)
      × (86 ≤ c → row outside c ≡ outside c)
      × ((row outside 84).code ≡ 0x57)
      × ((row outside 85).code ≡ 0x58)
unfolding row
row-code outside c = (
  λ lt. (==_iff _ c).0 (holds_at (λ c. (row outside c).code == c) 84 c lt (code_rows outside)),
  row_outside outside c,
  refl,
  refl,
)

character-in_case :
    (c : ℕ) (r : Key) (caps shift : Bool)
    → letter_row c r ≡ true
    → is_lower r.alone ≡ true
    → character caps shift r ≡ in_case (differ caps shift) r.alone
character-in_case c r true true e l = ground arith
character-in_case c r true false e l = ground arith
character-in_case c r false true e l = ground arith
character-in_case c r false false e l = ground arith

module _ (outside : ℕ → Key) (c : ℕ) (k : Keyboard) (small : c < 86)
    (letter : is_lower (row outside c).alone ≡ true) where
  checked : letter_row c (row outside c) ≡ true
  checked = holds_at (λ c. letter_row c (row outside c)) 86 c small (letter_rows outside)

  keyboard_handler-letter : keyboard_handler outside c k ≡ record k {
    terminal =
        put_terminal_buffer (in_case (differ k.caps k.shift) (row outside c).alone) k.terminal;
  }
  unfolding keyboard_handler
  keyboard_handler-letter =
      let same = character-in_case c (row outside c) k.caps k.shift checked letter in
      let not_caps : (c == caps_lock) ≡ false = ground (arith, checked) in
      let not_shift : (c == left_shift_make || c == right_shift_make) ≡ false =
        ground (arith, checked) in
      let not_break : (c == left_shift_break || c == right_shift_break) ≡ false =
        ground (arith, checked) in
      let not_f1 : (k.shift && c == 0x3b) ≡ false = ground (arith, checked) in
      let sent : (ltb c 0x80 && not ((row outside c).alone == nochar)) ≡ true = ground arith in
      rw (not_caps, not_shift, not_break, not_f1, sent)
        (ap (λ x. record k { terminal = put_terminal_buffer x k.terminal }) same)

-- The code of a key with a letter puts the letter behind the characters that wait, if there is room:
-- the capital where exactly one of shift and caps lock is on. Nothing else of the keyboard changes.
pub keyboard_handler_lem :
    (outside : ℕ → Key) (c : ℕ) (k : Keyboard)
    → c < 86
    → is_lower (row outside c).alone ≡ true
    → IsTerminal k.terminal
    → waiting k.terminal + 1 < buffer_size
    → let k' = keyboard_handler outside c k in
      (contents k'.terminal
        ≡ contents k.terminal ++ in_case (differ k.caps k.shift) (row outside c).alone ∷ [])
      × IsTerminal k'.terminal
      × (k'.shift ≡ k.shift)
      × (k'.caps ≡ k.caps)
      × (k'.restarts ≡ k.restarts)
keyboard_handler_lem outside c k small letter v room =
    let sent = keyboard_handler-letter outside c k small letter in
    let (terminal, held, _, _) =
      put_room (in_case (differ k.caps k.shift) (row outside c).alone) k.terminal v room in
    rw sent (held, terminal, refl, refl, refl)
