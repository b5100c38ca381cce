-- ===== src/Terminal/Contents.antt =====
-- The characters that wait in the terminal, oldest first.
use gat_os_v.Base.{ℕ, ◌+◌, ◌-◌, ◌<◌, ◌≡◌, arith, List, leb, if◌then◌else◌}
use gat_os_v.Base.Rings.{stretch, place}
use gat_os_v.Terminal.{Terminal, buffer_size}

pub record IsTerminal (t : Terminal) : Type 0 where
  pub consume_in : t.buffer_consume < buffer_size
  pub position_in : t.buffer_position < buffer_size

-- How many characters wait.
unfoldable pub waiting : Terminal → ℕ
waiting t =
    if leb t.buffer_consume t.buffer_position
    then t.buffer_position - t.buffer_consume
    else t.buffer_position + buffer_size - t.buffer_consume

abbrev pub contents : Terminal → List ℕ
contents t = stretch buffer_size t.buffer t.buffer_consume (waiting t)

pub waiting-lt : (t : Terminal) → IsTerminal t → waiting t < buffer_size
unfolding waiting
waiting-lt t v = ground (arith, v.consume_in, v.position_in)

pub position-waiting :
    (t : Terminal)
    → IsTerminal t
    → t.buffer_position ≡ place buffer_size t.buffer_consume (waiting t)
unfolding waiting
position-waiting t v = ground (arith, v.consume_in, v.position_in)
