-- ===== src/Mouse.antt =====
-- Kernel/mouse.c: the packets of the mouse, its place on the screen, and the selection. What the
-- handler reads from the ports 0x64 and 0x60 is an argument, a pair for each round of its loop. A byte
-- is what the port gives, from 0 to 255.
pub mod Bounds
pub mod Drag
pub mod Chosen
pub mod Packets
pub mod Handler
use gat_os_v.Base.{
  ℕ, zero, suc, ◌+◌, ◌-◌, ◌*◌, ◌/◌, ◌%◌, Bool, true, false, ◌&&◌, ◌||◌, not, Option, none, some,
  ◌==◌, ltb, leb, if◌then◌else◌, ℤ, pos, negsuc, sub_ℕ, ◌+ℤ◌, ◌-ℤ◌, ltb_ℤ, eq_ℤ,
}
use gat_os_v.Video.{
  Video, width, height, default_color, mouse_color, set_attribute, selection, undo_selection,
  update_screen, paste, minus_int,
}
use gat_os_v.Terminal.{Terminal}

-- `mouse_cycle`, `mouse_byte` and the static variables of the handler
pub record Mouse : Type 0 where
  pub mouse_cycle : ℕ
  pub byte_0 : ℕ
  pub byte_1 : ℕ
  pub byte_2 : ℕ
  pub flag : Bool
  pub x : ℤ
  pub y : ℤ
  pub xinit : ℤ
  pub yinit : ℤ
  pub xfin : ℤ
  pub yfin : ℤ
  pub selecting : Bool

-- Whether a byte has the bit of value `v`
abbrev pub has_bit : ℕ → ℕ → Bool
has_bit v b = b / v % 2 == 1

-- `yfin < yinit || (yfin == yinit && xfin < xinit)`
unfoldable pub is_backward : Mouse → Bool
is_backward m = ltb_ℤ m.yfin m.yinit || (eq_ℤ m.yfin m.yinit && ltb_ℤ m.xfin m.xinit)

-- The selection from the mouse's first place to its last, in the order of the screen
unfoldable pub select_range : ℕ → Mouse → Video → Option Video
select_range fuel m v =
    if is_backward m
    then selection fuel m.yfin m.xfin m.yinit m.xinit v
    else selection fuel m.yinit m.xinit m.yfin m.xfin v

unfoldable pub undo_range : ℕ → Mouse → Video → Option Video
undo_range fuel m v =
    if is_backward m
    then undo_selection fuel m.yfin m.xfin m.yinit m.xinit v
    else undo_selection fuel m.yinit m.xinit m.yfin m.xfin v

abbrev pub then_with : {A B : Type 0} → Option A → (A → Option B) → Option B
then_with none f = none
then_with (some a) f = f a

-- The left button is down: the selection goes to where the mouse is.
unfoldable pub drag : ℕ → Mouse → Video → Option (Mouse × Video)
drag fuel m v =
    let moved = record m { xfin = m.x; yfin = m.y } in
    let started = record m { selecting = true; xinit = m.x; yinit = m.y; xfin = m.x; yfin = m.y } in
    let extended =
      then_with (undo_range fuel m v)
        (λ v1. then_with (select_range fuel moved v1) (λ v2. some (moved, v2))) in
    let begun = then_with (select_range fuel started v) (λ v1. some (started, v1)) in
    if m.selecting then extended else begun

-- The left button is up.
unfoldable pub drop_selection : ℕ → Mouse → Video → Option (Mouse × Video)
drop_selection fuel m v =
    let dropped =
      then_with (undo_range fuel m v)
        (λ v1. some (record m { selecting = false }, update_screen v1)) in
    if m.selecting then dropped else some (m, v)

-- The right button: `paste` when it goes up.
unfoldable pub paste_button : Mouse → Video → Terminal → Mouse × Terminal
paste_button m v t =
    if has_bit 0x02 m.byte_0
    then (record m { flag = true }, t)
    else (if m.flag then (record m { flag = false }, paste v t) else (m, t))

-- The byte of a way, and the sign that the first byte of the packet gives it
unfoldable pub relative : Bool → ℕ → ℤ
relative negative b = if negative then sub_ℕ b 256 else (if ltb b 128 then pos b else sub_ℕ b 256)

-- `n / 10` on `int`: towards 0
abbrev pub tenth : ℤ → ℤ
tenth (pos n) = pos (n / 10)
tenth (negsuc n) = minus_int ((n + 1) / 10)

unfoldable pub move : Mouse → Mouse
move m =
    let x' = m.x +ℤ tenth (relative (has_bit 0x10 m.byte_0) m.byte_1) in
    let y' = m.y -ℤ tenth (relative (has_bit 0x20 m.byte_0) m.byte_2) in
    record m {
      x = if ltb_ℤ x' (pos width) && not (ltb_ℤ x' (pos 0)) then x' else m.x;
      y = if ltb_ℤ y' (pos height) && not (ltb_ℤ y' (pos 0)) then y' else m.y;
    }

abbrev pub Desk : Type 0
Desk = Mouse × Video × Terminal

-- The rest of a packet, once its three bytes are there
unfoldable pub end_packet : Desk → Desk
end_packet (m, v, t) =
    let (m1, t1) = paste_button m v t in
    let m2 = move m1 in
    let v1 = set_attribute default_color m1.y m1.x v in
    let v2 = update_screen (set_attribute mouse_color m2.y m2.x v1) in
    (record m2 { mouse_cycle = 4 }, v2, t1)

unfoldable pub third_byte : ℕ → ℕ → Desk → Option Desk
third_byte fuel b (m, v, t) =
    let m1 = record m { byte_2 = b } in
    let left = if has_bit 0x01 m1.byte_0 then drag fuel m1 v else drop_selection fuel m1 v in
    let done = then_with left (λ p. some (end_packet (p.0, p.1, t))) in
    if has_bit 0x80 m1.byte_0 || has_bit 0x40 m1.byte_0
    then some (record m1 { mouse_cycle = 4 }, v, t)
    else done

-- The body of the loop for a byte of the mouse; `true` where the handler returns from it.
unfoldable pub mouse_round : ℕ → ℕ → Desk → Option (Bool × Desk)
mouse_round fuel b (m, v, t) =
    let first = record m { byte_0 = b } in
    let third = then_with (third_byte fuel b (m, v, t)) (λ d. some (false, d)) in
    if m.mouse_cycle == 0
    then (if has_bit 0x08 b
        then some (false, (record first { mouse_cycle = 1 }, v, t))
        else some (true, (first, v, t)))
    else (if m.mouse_cycle == 1
        then some (false, (record m { byte_1 = b; mouse_cycle = 2 }, v, t))
        else (if m.mouse_cycle == 2 then third else some (false, (m, v, t))))

-- What follows the body: `return`, or the end of a packet, or another round
unfoldable pub next_round : (Desk → Option Desk) → Bool × Desk → Option Desk
next_round go (returns, (m, v, t)) =
    let ended = some (record m { mouse_cycle = 0 }, v, t) in
    if returns then some (m, v, t) else (if leb 4 m.mouse_cycle then ended else go (m, v, t))

-- What the two ports give, round by round
abbrev pub Readings : Type 0
Readings = ℕ → ℕ × ℕ

abbrev pub later : Readings → Readings
later readings k = readings (k + 1)

-- `mouse_handlerC`; `none` when it has not ended within so many rounds of its loop, or a selection has
-- not within `fuel` rounds of its own.
unfoldable pub mouse_handler : ℕ → ℕ → Readings → Desk → Option Desk
mouse_handler zero fuel readings d = none
mouse_handler (suc rounds) fuel readings d =
    let (status, b) = readings 0 in
    let go = mouse_handler rounds fuel (later readings) in
    let body = if has_bit 0x20 status then mouse_round fuel b d else some (false, d) in
    if has_bit 0x01 status then then_with body (next_round go) else some d
