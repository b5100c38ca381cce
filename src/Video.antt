-- ===== src/Video.antt =====
-- Kernel/video.c: the characters of the screen, the cursor, and the selection of the mouse. The
-- memory of the screen holds a byte at each address.
pub mod Screen
pub mod Scroll
pub mod Put
pub mod Cursor
pub mod Selection
pub mod Paste
use gat_os_v.Base.{
  ℕ, zero, suc, ◌+◌, ◌-◌, ◌*◌, ◌/◌, ◌%◌, Bool, true, false, ◌&&◌, ◌||◌, not, Option, none, some,
  List, [], ◌∷◌, ◌==◌, ltb, leb, if◌then◌else◌, update, ℤ, pos, negsuc, ◌+ℤ◌, ◌-ℤ◌, ltb_ℤ, eq_ℤ,
  is_negative, pos_part,
}
use gat_os_v.Copy.{Bytes, to_byte}
use gat_os_v.Terminal.{Terminal, Drawing, put_char, line_jump, back_in_line, put_terminal_buffer}

abbrev pub screen_address : ℕ
screen_address = 0xB8000

abbrev pub space_char : ℕ
space_char = 0x20

abbrev pub default_color : ℕ
default_color = 0x0F

abbrev pub mouse_color : ℕ
mouse_color = 0x30

abbrev pub width : ℕ
width = 80

abbrev pub height : ℕ
height = 25

abbrev pub Cells : Type 0
Cells = ℕ → ℕ → ℕ

-- The static variables, and the memory that the screen shows.
pub record Video : Type 0 where
  pub video : Cells
  pub attributes : Cells
  pub screen : Bytes
  pub i : ℤ
  pub j : ℤ
  pub mouse_select : ℕ → ℕ
  pub size : ℤ
  pub i_start_module : ℕ
  pub j_start_module : ℕ
  pub stop_backwards : ℤ

-- The address of the character at a row and a column; its attribute is behind it.
abbrev pub cell_address : ℕ → ℕ → ℕ
cell_address f c = screen_address + f * width * 2 + c * 2

abbrev pub set_cell : ℕ → ℕ → ℕ → Cells → Cells
set_cell f c a cells = update cells f (update (cells f) c a)

-- `changeStartModule`
unfoldable pub change_start_module : ℤ → ℤ → Video → Video
change_start_module f c v =
    if is_negative f || ltb_ℤ (pos width) f || ltb_ℤ c (pos 3) || ltb_ℤ (pos height) c
    then v
    else record v { j_start_module = pos_part c; i_start_module = pos_part f; i = f }

-- `changeStopBackwards` and `isBackwardsOn`
abbrev pub change_stop_backwards : ℤ → Video → Video
change_stop_backwards from v = record v { stop_backwards = from }

unfoldable pub is_backwards_on : Video → Bool
is_backwards_on v = eq_ℤ v.stop_backwards (negsuc 0) || not (ltb_ℤ v.i v.stop_backwards)

-- `validPosition`
unfoldable pub valid_position : ℤ → ℤ → Bool
valid_position f c =
    not (not (ltb_ℤ f (pos height)) || not (ltb_ℤ c (pos width)) || is_negative f || is_negative c)

unfoldable pub set_cursor : ℤ → ℤ → Video → Video
set_cursor f c v = if valid_position f c then record v { i = c; j = f } else v

-- The inner loop of `updateScreen`, over the rows, and the outer one, over the columns.
unfoldable pub rows_loop : ℕ → ℕ → ℕ → Video → Bytes → Bytes
rows_loop zero f c v m = m
rows_loop (suc rounds) f c v m =
    rows_loop rounds (f + 1) c v
      (update (update m (cell_address f c) (v.video f c)) (cell_address f c + 1) (v.attributes f c))

unfoldable pub columns_loop : ℕ → ℕ → Video → Bytes → Bytes
unfolding rows_loop
columns_loop zero c v m = m
columns_loop (suc rounds) c v m = columns_loop rounds (c + 1) v (rows_loop height 0 c v m)

unfoldable pub update_screen : Video → Video
update_screen v = record v { screen = columns_loop width 0 v v.screen }

-- `getScreen`: a `char` is signed.
abbrev pub to_char : ℕ → ℤ
to_char b = if ltb b 128 then pos b else negsuc (255 - b)

unfoldable pub get_screen : ℤ → ℤ → Video → ℤ
get_screen f c v =
    if valid_position f c then to_char (v.video (pos_part f) (pos_part c)) else negsuc 0

-- `changeColor`, at a row and a column that are not negative
abbrev pub change_color : ℕ → ℕ → ℕ → Video → Video
change_color f c color v = record v { screen = update v.screen (cell_address f c + 1) color }

unfoldable pub clear_position : ℕ → ℕ → Cells → Cells
clear_position f c cells =
    if valid_position (pos f) (pos c) then set_cell f c space_char cells else cells

-- The loops of `copyRow` and `clearRow`, with the rounds left.
unfoldable pub copy_row_loop : ℕ → ℕ → ℕ → ℕ → Cells → Cells
copy_row_loop zero k from to cells = cells
copy_row_loop (suc rounds) k from to cells =
    copy_row_loop rounds (k + 1) from to
      (clear_position from k (set_cell to k (cells from k) cells))

unfoldable pub clear_row_loop : ℕ → ℕ → ℕ → Cells → Cells
clear_row_loop zero k f cells = cells
clear_row_loop (suc rounds) k f cells = clear_row_loop rounds (k + 1) f (clear_position f k cells)

abbrev pub copy_row : ℕ → ℕ → Cells → Cells
copy_row from to cells = copy_row_loop width 0 from to cells

abbrev pub clear_row : ℕ → Cells → Cells
clear_row f cells = clear_row_loop width 0 f cells

-- The loop of `scroll` from the row `f` on.
unfoldable pub scroll_loop : ℕ → ℕ → Cells → Cells
scroll_loop zero f cells = cells
scroll_loop (suc rounds) f cells = scroll_loop rounds (f + 1) (copy_row f (f - 1) cells)

unfoldable pub scroll : Video → Video
scroll v = record v {
  video =
      clear_row (height - 1)
        (scroll_loop (height - (v.j_start_module + 1)) (v.j_start_module + 1) v.video);
  j = pos (height - 1);
  i = pos v.i_start_module;
}

unfoldable pub forward_cursor : Video → Video
forward_cursor v =
    if eq_ℤ v.i (pos (width - 1))
    then (if eq_ℤ v.j (pos (height - 1))
        then update_screen (scroll v)
        else record v { j = v.j +ℤ pos 1; i = pos v.i_start_module })
    else record v { i = v.i +ℤ pos 1 }

-- The loop of `lineJump`; `none` when `fuel` rounds are not enough.
unfoldable pub forward_until : ℕ → ℤ → Video → Option Video
forward_until zero aux v = none
forward_until (suc fuel) aux v =
    let rest = forward_until fuel aux (forward_cursor v) in if eq_ℤ v.j aux then some v else rest

unfoldable pub jump_line : ℕ → Video → Option Video
jump_line fuel v =
    if eq_ℤ v.j (pos (height - 1)) then some (scroll v) else forward_until fuel (v.j +ℤ pos 1) v

unfoldable pub backward_cursor : Video → Video
backward_cursor v =
    if eq_ℤ v.i (pos v.i_start_module)
    then (if eq_ℤ v.j (pos v.j_start_module)
        then v
        else record v { j = v.j -ℤ pos 1; i = pos (width - 1) })
    else record v { i = v.i -ℤ pos 1 }

unfoldable pub back_in_row : Video → Video
back_in_row v = if eq_ℤ v.i (pos v.i_start_module) then v else record v { i = v.i -ℤ pos 1 }

-- `printChar`; the code does not use the color.
unfoldable pub print_char : ℤ → ℤ → ℕ → Video → Video
print_char f c a v =
    if valid_position f c
    then update_screen (record v { video = set_cell (pos_part f) (pos_part c) a v.video })
    else v

unfoldable pub put_at_cursor : ℕ → Video → Video
put_at_cursor a v = forward_cursor (print_char v.j v.i a v)

-- `printMsgCursor` of the bytes of a string
unfoldable pub print_msg_cursor : List ℕ → Video → Video
print_msg_cursor [] v = v
print_msg_cursor (a ∷ msg) v = print_msg_cursor msg (put_at_cursor a v)

-- The loop of `printMsg`, from the place `n` on
unfoldable pub msg_loop : List ℕ → ℕ → Video → Video
msg_loop [] n v = v
msg_loop (a ∷ msg) n v =
    let f = pos (n / width) in
    let c = pos (n % width) in
    let rest = msg_loop msg (n + 1) (print_char f c a v) in if valid_position f c then rest else v

unfoldable pub print_msg : ℤ → ℤ → List ℕ → Video → Video
print_msg f c msg v =
    if valid_position f c then msg_loop msg (pos_part f * width + pos_part c) v else v

-- `clear`: its loops write every place of the screen once.
unfoldable pub clear : Video → Video
clear v =
    let blank : Cells → ℕ → Cells =
      λ cells a f c. if ltb f height && ltb c width then a else cells f c in
    update_screen
      (record v { video = blank v.video space_char; attributes = blank v.attributes default_color })

abbrev pub and_then : Option Video → (Video → Option Video) → Option Video
and_then none f = none
and_then (some v) f = f v

-- What the terminal asks for, one after the other. Each `lineJump` has `fuel` rounds.
unfoldable pub draw : ℕ → List Drawing → Video → Option Video
draw fuel [] v = some v
draw fuel (put_char a ∷ rest) v = draw fuel rest (put_at_cursor a v)
draw fuel (line_jump ∷ rest) v = and_then (jump_line fuel v) (draw fuel rest)
draw fuel (back_in_line ∷ rest) v = draw fuel rest (back_in_row v)

-- `n * WIDTH`, `n / WIDTH` and `n % WIDTH` on `int`: division goes towards 0.
abbrev pub times_width : ℤ → ℤ
times_width (pos n) = pos (n * width)
times_width (negsuc n) = negsuc (n * width + (width - 1))

abbrev pub minus_int : ℕ → ℤ
minus_int zero = pos 0
minus_int (suc n) = negsuc n

abbrev pub row_of : ℤ → ℤ
row_of (pos n) = pos (n / width)
row_of (negsuc n) = minus_int ((n + 1) / width)

abbrev pub column_of : ℤ → ℤ
column_of (pos n) = pos (n % width)
column_of (negsuc n) = minus_int ((n + 1) % width)

-- `drawMouse` and `udrawMouse`
unfoldable pub set_attribute : ℕ → ℤ → ℤ → Video → Video
set_attribute color f c v =
    if valid_position f c
    then record v { attributes = set_cell (pos_part f) (pos_part c) color v.attributes }
    else v

-- The loops of `selection` and `undoSelection`; `none` when `fuel` rounds are not enough.
unfoldable pub attribute_loop : ℕ → ℕ → ℤ → ℤ → Video → Option Video
attribute_loop zero color n fin v = none
attribute_loop (suc fuel) color n fin v =
    let rest =
      attribute_loop fuel color (n +ℤ pos 1) fin (set_attribute color (row_of n) (column_of n) v) in
    if valid_position (row_of n) (column_of n) && not (ltb_ℤ fin n) then rest else some v

-- The byte that `copyMouse` stores.
abbrev pub selected : ℤ → Video → ℕ
selected n v =
    let c = to_byte (get_screen (row_of n) (column_of n) v) in if c == 0 then space_char else c

-- The loop of `copyMouse`, with the rounds left.
unfoldable pub select_loop : ℕ → ℕ → ℤ → Video → (ℕ → ℕ) → ℕ → ℕ
select_loop zero h initial v chosen = chosen
select_loop (suc rounds) h initial v chosen =
    select_loop rounds (h + 1) initial v (update chosen h (selected (pos h +ℤ initial) v))

unfoldable pub copy_mouse : ℤ → ℤ → Video → Video
unfolding select_loop
copy_mouse initial end v =
    let size = end -ℤ initial +ℤ pos 1 in
    record v { size = size; mouse_select = select_loop (pos_part size) 0 initial v v.mouse_select }

unfoldable pub selection : ℕ → ℤ → ℤ → ℤ → ℤ → Video → Option Video
selection fuel finit cinit ffin cfin v =
    let n = times_width finit +ℤ cinit in
    let fin = times_width ffin +ℤ cfin in attribute_loop fuel mouse_color n fin (copy_mouse n fin v)

unfoldable pub undo_selection : ℕ → ℤ → ℤ → ℤ → ℤ → Video → Option Video
undo_selection fuel finit cinit ffin cfin v =
    attribute_loop fuel default_color (times_width finit +ℤ cinit) (times_width ffin +ℤ cfin) v

-- The loop of `paste`, with the rounds left.
unfoldable pub paste_loop : ℕ → ℕ → Video → Terminal → Terminal
paste_loop zero h v t = t
paste_loop (suc rounds) h v t =
    paste_loop rounds (h + 1) v (put_terminal_buffer (v.mouse_select h) t)

abbrev pub paste : Video → Terminal → Terminal
paste v t = paste_loop (pos_part v.size) 0 v t
