-- ===== src/Pipe/Write.antt =====
-- `write` appends to the queue of at most 10 bytes that a pipe is.
use mathlib.Core.List.{append_assoc, append-nil}
use gat_os_v.Base.{
  Bool-cases, ℕ, suc, ◌+◌, ◌-◌, ◌%◌, ◌≤◌, ◌<◌, ◌≡◌, ◌⊎◌, inl, inr, true, false, ◌||◌, not, arith,
  refl, sym, ap, ◌∙◌, List, [], ◌∷◌, ◌++◌, length, take, ◌==◌, update, min,
}
use gat_os_v.Pipe.{Pipe, pipe_length, next, write_loop, written, is_full, write}
use gat_os_v.Pipe.Contents.{
  IsPipe, size, stretch, contents, size-le, end-size, stretch_eq, stretch-snoc,
}

-- What the loop of `write` has done when it ends.
record Wrote (p : Pipe) (at n bytes : ℕ) (cs : List ℕ) (out : ℕ × Pipe) : Type 0 where
  taken : ℕ
  all_or_full : taken ≡ min (length cs) (pipe_length - n)
  count : out.0 ≡ bytes + taken
  same_position : out.1.position ≡ p.position
  same_end : out.1.end ≡ p.end
  same_flag : out.1.read_flag ≡ p.read_flag
  bytes_now : stretch out.1.pipe at (n + taken) ≡ stretch p.pipe at n ++ take taken cs

goes_on :
    (at e n bytes : ℕ)
    → at < pipe_length
    → n < pipe_length
    → bytes ≤ n
    → (e + bytes) % pipe_length ≡ (at + n) % pipe_length
    → (not ((e + bytes) % pipe_length == at) || bytes == 0) ≡ true
goes_on at e n bytes lt room le eq = ground arith

stops :
    (at e bytes : ℕ)
    → at < pipe_length
    → 1 ≤ bytes
    → (e + bytes) % pipe_length ≡ (at + pipe_length) % pipe_length
    → (not ((e + bytes) % pipe_length == at) || bytes == 0) ≡ false
stops at e bytes lt some_taken eq = ground arith

write_loop-Wrote :
    (cs : List ℕ) (p : Pipe) (n bytes aux : ℕ)
    → p.position < pipe_length
    → n ≤ pipe_length
    → bytes ≤ n
    → (n ≡ pipe_length → 1 ≤ bytes)
    → aux ≡ (p.position + n) % pipe_length
    → (p.end + bytes) % pipe_length ≡ aux
    → Wrote p p.position n bytes cs (write_loop cs aux bytes p)
unfolding write_loop next
write_loop-Wrote [] p n bytes aux lt le part used here there = record {
  taken = 0;
  all_or_full = omega arith;
  count = omega arith;
  same_position = refl;
  same_end = refl;
  same_flag = refl;
  bytes_now = ap (stretch p.pipe p.position) (omega arith) ∙ sym (append-nil _);
}
write_loop-Wrote (c ∷ cs) p n bytes aux lt le part used here there = elim (room_or_full n le) [
  | inl room ↦
      let w =
        write_loop-Wrote cs (record p { pipe = update p.pipe aux c }) (n + 1) (bytes + 1) (next aux)
          lt (omega arith) (omega arith) (λ e. omega arith) (ground arith) (ground arith) in
      rw (goes_on p.position p.end n bytes lt room part (there ∙ here)) (record {
        taken = suc w.taken;
        all_or_full = omega (arith, w.all_or_full);
        count = omega (arith, w.count);
        same_position = w.same_position;
        same_end = w.same_end;
        same_flag = w.same_flag;
        bytes_now =
            ap (stretch _ p.position) (omega arith)
            ∙ w.bytes_now
            ∙ ap (λ xs. xs ++ take w.taken cs)
                (ap (stretch _ p.position) (omega arith)
                  ∙ stretch-snoc p.pipe p.position n c aux lt room here)
            ∙ append_assoc (stretch p.pipe p.position n) (c ∷ []) (take w.taken cs);
      })
  | inr full ↦
      rw (stops p.position p.end bytes lt (used full) (omega (arith, full, here, there))) (record {
        taken = 0;
        all_or_full = omega (arith, full);
        count = omega arith;
        same_position = refl;
        same_end = refl;
        same_flag = refl;
        bytes_now = ap (stretch p.pipe p.position) (omega arith) ∙ sym (append-nil _);
      })
]
  where
    room_or_full : (n : ℕ) → n ≤ pipe_length → (n < pipe_length) ⊎ (n ≡ pipe_length)
    room_or_full n le = grind arith

size-written :
    (p : Pipe) (k : ℕ)
    → IsPipe p
    → 1 ≤ k
    → size p + k ≤ pipe_length
    → (size (written k p) ≡ size p + k) × IsPipe (written k p)
unfolding size
size-written p k v some_taken room = elim (Bool-cases ((p.end + k) % pipe_length == p.position)) [
  | inl met ↦ rw met (
    ground (arith, v.position_in, v.end_in, v.flag),
    record { position_in = v.position_in; end_in = omega arith; flag = omega arith },
  )
  | inr apart ↦ rw apart (
    ground (arith, v.position_in, v.end_in, v.flag),
    record { position_in = v.position_in; end_in = omega arith; flag = v.flag },
  )
]

is_full-size : (p : Pipe) → IsPipe p → (is_full p ≡ true) → size p ≡ pipe_length
unfolding size
is_full-size p v e = ground (arith, v.flag)

room-size : (p : Pipe) → IsPipe p → (is_full p ≡ false) → size p < pipe_length
unfolding size
room-size p v e = ground (arith, v.position_in, v.end_in, v.flag)

size_same :
    (p q : Pipe)
    → p.position ≡ q.position
    → p.end ≡ q.end
    → p.read_flag ≡ q.read_flag
    → size p ≡ size q
unfolding size
size_same p q e f g = rw (e, f, g)

written-same :
    (k : ℕ) (p : Pipe) → ((written k p).pipe ≡ p.pipe) × ((written k p).position ≡ p.position)
written-same k p = elim (Bool-cases ((p.end + k) % pipe_length == p.position)) [
  | inl met ↦ rw met (refl, refl)
  | inr apart ↦ rw apart (refl, refl)
]

Wrote-result :
    (message : List ℕ) (p : Pipe)
    → IsPipe p
    → 1 ≤ length message
    → size p < pipe_length
    → (out : ℕ × Pipe) → Wrote p p.position (size p) 0 message out
    → IsPipe (written out.0 out.1)
      × (out.0 ≡ min (length message) (pipe_length - size p))
      × (contents (written out.0 out.1) ≡ contents p ++ take out.0 message)
Wrote-result message p v some_message room (k, q) w =
    let qv : IsPipe q = record {
      position_in = omega (arith, w.same_position, v.position_in);
      end_in = omega (arith, w.same_end, v.end_in);
      flag = omega (arith, w.same_flag, v.flag);
    } in
    let same : size q ≡ size p = size_same q p w.same_position w.same_end w.same_flag in
    let (grown, pv) =
      size-written q k qv (omega (arith, w.count, w.all_or_full))
        (omega (arith, same, w.count, w.all_or_full)) in
    let (pipe_same, position_same) = written-same k q in
    (
      pv,
      omega (arith, w.count, w.all_or_full),
      ap (λ f. stretch f (written k q).position (size (written k q))) pipe_same
          ∙ stretch_eq q.pipe _ p.position _ (size p + w.taken) (position_same ∙ w.same_position)
              (omega (arith, grown, same, w.count))
          ∙ w.bytes_now
          ∙ ap (λ j. contents p ++ take j message) (omega (arith, w.count)),
    )

-- `write` of a message that is not empty appends to the bytes that wait as many bytes of the message
-- as the pipe has room for, and returns their number; a full pipe takes none.
pub write_lem :
    (message : List ℕ) (p : Pipe)
    → IsPipe p
    → 1 ≤ length message
    → let (bytes, p') = write message p in
      IsPipe p'
      × (bytes ≡ min (length message) (pipe_length - size p))
      × (contents p' ≡ contents p ++ take bytes message)
unfolding write
write_lem message p v some_message = elim (Bool-cases (is_full p)) [
  | inl full ↦ rw full (v, omega (arith, is_full-size p v full), sym (append-nil (contents p)))
  | inr room ↦ rw room (
      Wrote-result message p v some_message (room-size p v room) (write_loop message p.end 0 p) (
        write_loop-Wrote message p (size p) 0 p.end v.position_in (size-le p v) (omega arith)
          (λ e. absurd (omega (arith, e, room-size p v room))) (end-size p v)
          (omega (arith, v.end_in))))
]
