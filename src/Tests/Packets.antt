-- ===== src/Tests/Packets.antt =====
-- Kernel/mouse.c with the left button down, over the screen of `Screens`.
use gat_os_v.Base.{
  ℕ, ◌≤◌, ◌≡◌, Option, none, some, refl, arith, inr, ◌==◌, if◌then◌else◌, true, false, pos, ◌++◌,
}
use gat_os_v.Video.{Video, paste}
use gat_os_v.Video.Paste.{text_at}
use gat_os_v.Terminal.{Terminal}
use gat_os_v.Terminal.Contents.{waiting, contents}
use gat_os_v.Mouse.{Mouse, Desk, Readings, select_range, mouse_handler, mouse_round, next_round}
use gat_os_v.Mouse.Bounds.{IsPlaced}
use gat_os_v.Mouse.Handler.{mouse_rounds, mouse_handler-ends}
use gat_os_v.Mouse.Chosen.{select_range-paste}
use gat_os_v.Tests.Screens.{letters, quiet}

abbrev mouse : Mouse
mouse = record {
  mouse_cycle = 0;
  byte_0 = 0;
  byte_1 = 0;
  byte_2 = 0;
  flag = false;
  x = pos 10;
  y = pos 10;
  xinit = pos 0;
  yinit = pos 0;
  xfin = pos 0;
  yfin = pos 0;
  selecting = false;
}

mouse-IsPlaced : IsPlaced mouse
mouse-IsPlaced = record {
  column = (10, refl, omega arith);
  row = (10, refl, omega arith);
  first_column = (0, refl, omega arith);
  first_row = (0, refl, omega arith);
  last_column = (0, refl, omega arith);
  last_row = (0, refl, omega arith);
}

abbrev cycle_of : Option Desk → ℕ
cycle_of none = 9
cycle_of (some d) = d.0.mouse_cycle

-- At a first byte without the bit 3 the handler returns, and waits for a first byte again.
drops_bad_byte : cycle_of (mouse_handler 2 9 (λ k. (0x21, 0x07)) (mouse, letters, quiet)) ≡ 0
unfolding mouse_handler mouse_round next_round
drops_bad_byte = refl

-- A packet, and a byte of the keyboard between its bytes
abbrev pressed : Readings
pressed k = (if k == 1 then 0x01 else 0x21, if k == 0 then 0x09 else 40)

pressed-rounds : mouse_rounds 4 pressed ≡ 3
unfolding mouse_rounds
pressed-rounds = refl

mouse_handler-ends_example :
    (m : Mouse) × (v : Video) × (t : Terminal) × (mouse_handler 4 2001 pressed
        (mouse, letters, quiet)
      ≡ some (m, v, t))
    × IsPlaced m
    × (m.mouse_cycle ≤ 2)
mouse_handler-ends_example =
    mouse_handler-ends 4 2001 pressed mouse letters quiet (omega arith) mouse-IsPlaced (omega arith)
      (inr (omega (arith, pressed-rounds)))

-- A selection that was drawn from the column 9 to the left.
abbrev drawn_back : Mouse
drawn_back = record mouse {
  selecting = true;
  xinit = pos 9;
  yinit = pos 4;
  xfin = pos 6;
  yfin = pos 4;
}

quiet-room : waiting quiet ≡ 0
unfolding waiting
quiet-room = refl

select_range-paste_example :
    (v : Video) × (select_range 2001 drawn_back letters ≡ some v)
    × (contents (paste v quiet) ≡ contents quiet ++ text_at 326 4 letters.video)
select_range-paste_example =
    select_range-paste 2001 4 9 4 6 drawn_back letters quiet (omega arith) refl refl refl refl
      (omega arith) (omega arith) (omega arith) (omega arith) (λ f c. omega arith)
      (record { consume_in = omega arith; position_in = omega arith }) (omega (arith, quiet-room))
