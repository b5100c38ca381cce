-- ===== src/Terminal/Queue.antt =====
-- The terminal is a queue of at most 2499 characters, but for one place of the ring.
use gat_os_v.Base.{
  ℕ, zero, suc, ◌+◌, ◌-◌, ◌<◌, ◌≡◌, inl, inr, true, false, arith, refl, sym, ap, ◌∙◌, List, [], ◌∷◌,
  ◌++◌, take, drop, Bool-cases, ◌==◌, update,
}
use gat_os_v.Base.Rings.{stretch, stretch-snoc, stretch_eq}
use gat_os_v.Terminal.{
  Terminal, buffer_size, cli, is_buffer_full, is_buffer_empty, drawing_of, put_character,
  put_terminal_buffer, consume, get_loop, get_terminal_buffer,
}
use gat_os_v.Terminal.Contents.{IsTerminal, waiting, contents, waiting-lt, position-waiting}

put_character-waiting :
    (c : ℕ) (t : Terminal)
    → IsTerminal t
    → waiting t + 1 < buffer_size
    → (waiting (put_character c t) ≡ suc (waiting t)) × IsTerminal (put_character c t)
unfolding put_character waiting
put_character-waiting c t v room = (
  ground (arith, v.consume_in, v.position_in),
  record { consume_in = v.consume_in; position_in = ground (arith, v.position_in) },
)

put_character-contents :
    (c : ℕ) (t : Terminal)
    → IsTerminal t
    → waiting t + 1 < buffer_size
    → contents (put_character c t) ≡ contents t ++ c ∷ []
unfolding put_character
put_character-contents c t v room =
    stretch_eq buffer_size (update t.buffer t.buffer_position c) t.buffer_consume t.buffer_consume _
      (suc (waiting t)) refl (put_character-waiting c t v room).0
    ∙ stretch-snoc buffer_size t.buffer t.buffer_consume (waiting t) c t.buffer_position
        v.consume_in (waiting-lt t v) (position-waiting t v)

not_full :
    (t : Terminal) → IsTerminal t → waiting t + 1 < buffer_size → (is_buffer_full t).0 ≡ false
unfolding is_buffer_full waiting
not_full t v room = ground (arith, v.consume_in, v.position_in)

-- With room for it, `putTerminalBuffer` puts the character behind those that wait, draws it, and
-- leaves the interrupts on.
pub put_room :
    (c : ℕ) (t : Terminal)
    → IsTerminal t
    → waiting t + 1 < buffer_size
    → let t' = put_terminal_buffer c t in
      IsTerminal t'
      × (contents t' ≡ contents t ++ c ∷ [])
      × (t'.drawn ≡ t.drawn ++ drawing_of t.is_echo c)
      × (t'.interrupts ≡ true)
unfolding put_terminal_buffer waiting
put_room c t v room =
    let v1 : IsTerminal (cli t) = record {
      consume_in = v.consume_in;
      position_in = v.position_in;
    } in
    rw (not_full t v room) (
      (put_character-waiting c (cli t) v1 room).1,
      put_character-contents c (cli t) v1 room,
      refl,
      refl,
    )

-- Where the writer stands right before the reader, `putTerminalBuffer` drops the character: what
-- waits and what is drawn stay, and the interrupts are on.
put_full :
    (c : ℕ) (t : Terminal)
    → t.buffer_consume ≡ t.buffer_position + 1
    → put_terminal_buffer c t ≡ record t { interrupts = true }
unfolding put_terminal_buffer is_buffer_full
put_full c t e =
    let full : (t.buffer_consume == t.buffer_position + 1) ≡ true = ground (arith, e) in rw full

-- A full ring with the reader at its start and the writer at its last place does not count as full:
-- one more character, and all that wait are lost.
put_loses_all :
    (c : ℕ) (t : Terminal)
    → t.buffer_consume ≡ 0
    → t.buffer_position ≡ buffer_size - 1
    → (waiting t ≡ buffer_size - 1) × (contents (put_terminal_buffer c t) ≡ [])
unfolding put_terminal_buffer is_buffer_full put_character waiting stretch
put_loses_all c t start last =
    let full_ring : waiting t ≡ buffer_size - 1 = ground (arith, start, last) in
    let out = put_terminal_buffer c t in
    let none_wait : waiting out ≡ 0 = ground (arith, start, last) in
    (full_ring, ap (stretch buffer_size out.buffer out.buffer_consume) none_wait)

is_empty-waiting : (t : Terminal) → IsTerminal t → (is_buffer_empty t).0 ≡ true → waiting t ≡ 0
unfolding is_buffer_empty waiting
is_empty-waiting t v e = ground (arith, v.consume_in, v.position_in)

some-waiting :
    (t : Terminal)
    → IsTerminal t
    → (is_buffer_empty t).0 ≡ false
    → (waiting t ≡ suc (waiting (consume (cli t)))) × IsTerminal (consume (cli t))
unfolding is_buffer_empty waiting
some-waiting t v e = (
  ground (arith, v.consume_in, v.position_in),
  record { consume_in = ground (arith, v.consume_in); position_in = v.position_in },
)

-- What the loop of `getTerminalBuffer` has done when it ends.
pub record Got (length : ℕ) (t : Terminal) (out : List ℕ × Terminal) : Type 0 where
  pub taken : out.0 ≡ take length (contents t)
  pub left : contents out.1 ≡ drop length (contents t)
  pub terminal : IsTerminal out.1
  pub interrupts_on : out.1.interrupts ≡ true
  pub drawn : out.1.drawn ≡ t.drawn

contents-cons :
    (t : Terminal)
    → waiting t ≡ suc (waiting (consume (cli t)))
    → contents t ≡ t.buffer t.buffer_consume ∷ contents (consume (cli t))
unfolding stretch
contents-cons t e = ap (stretch buffer_size t.buffer t.buffer_consume) e

no_characters : (t : Terminal) → waiting t ≡ 0 → contents t ≡ []
unfolding stretch
no_characters t e = ap (stretch buffer_size t.buffer t.buffer_consume) e

get_loop-Got : (length : ℕ) (t : Terminal) → IsTerminal t → Got length t (get_loop length t)
unfolding get_loop waiting
get_loop-Got zero t v = record {
  taken = refl;
  left = refl;
  terminal = record { consume_in = v.consume_in; position_in = v.position_in };
  interrupts_on = refl;
  drawn = refl;
}
get_loop-Got (suc length) t v = elim (Bool-cases (is_buffer_empty t).0) [
  | inl empty ↦
      let none = no_characters t (is_empty-waiting t v empty) in
      rw empty (record {
        taken = sym (ap (take (suc length)) none);
        left = none ∙ sym (ap (drop (suc length)) none);
        terminal = record { consume_in = v.consume_in; position_in = v.position_in };
        interrupts_on = refl;
        drawn = refl;
      })
  | inr more ↦
      let (count, v1) = some-waiting t v more in
      let first = contents-cons t count in
      let g = get_loop-Got length (consume (cli t)) v1 in
      rw more (record {
        taken = ap (◌∷◌ (t.buffer t.buffer_consume)) g.taken ∙ sym (ap (take (suc length)) first);
        left = g.left ∙ sym (ap (drop (suc length)) first);
        terminal = g.terminal;
        interrupts_on = g.interrupts_on;
        drawn = g.drawn;
      })
]

-- `getTerminalBuffer` takes the oldest characters out of the terminal, as many as are asked for or as
-- there are, keeps the others in their order, and leaves the interrupts on.
pub get_terminal_buffer_lem :
    (length : ℕ) (t : Terminal)
    → IsTerminal t
    → let (characters, t') = get_terminal_buffer length t in
      (characters ≡ take length (contents t))
      × (contents t' ≡ drop length (contents t))
      × IsTerminal t'
      × (t'.interrupts ≡ true)
unfolding get_terminal_buffer waiting
get_terminal_buffer_lem length t v =
    let g =
      get_loop-Got length (cli t)
        (record { consume_in = v.consume_in; position_in = v.position_in }) in
    (g.taken, g.left, g.terminal, g.interrupts_on)
