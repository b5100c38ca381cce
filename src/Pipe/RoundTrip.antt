-- ===== src/Pipe/RoundTrip.antt =====
-- `write` and `read` of Kernel/IPC.c in a row, and what a message without bytes does.
use gat_os_v.Base.{
  ℕ, ◌+◌, ◌%◌, ◌≤◌, ◌≡◌, true, false, arith, sym, ap, ◌∙◌, List, [], ◌++◌, length, take, drop,
  take-all, drop-all, negsuc, ◌==◌,
}
use gat_os_v.Pipe.{Pipe, pipe_length, write, write_loop, is_full, read}
use gat_os_v.Pipe.Contents.{IsPipe, size, contents, length-stretch}
use gat_os_v.Pipe.Write.{write_lem}
use gat_os_v.Pipe.Read.{no_bytes, read_lem}

-- A message of 1 to 10 bytes that `write` puts into a pipe without bytes is taken whole, and a `read`
-- of all bytes gives it back and leaves the pipe without bytes.
write-read :
    (message : List ℕ) (p : Pipe)
    → IsPipe p
    → size p ≡ 0
    → 1 ≤ length message
    → length message ≤ pipe_length
    → let (bytes, p1) = write message p in
      let (result, p2) = read (negsuc 0) p1 in
      (bytes ≡ length message) × (result ≡ message) × (size p2 ≡ 0)
write-read message p v z some_message fits =
    let (v1, count, held) = write_lem message p v some_message in
    let (v2, result, left) = read_lem (negsuc 0) (write message p).1 v1 (omega arith) in
    let whole : (write message p).0 ≡ length message = omega (arith, count, z) in
    let waiting : contents (write message p).1 ≡ message =
      held
      ∙ ap (λ xs. xs ++ take (write message p).0 message) (no_bytes p z)
      ∙ take-all (write message p).0 message (omega (arith, whole)) in
    (
      whole,
      result ∙ ap (take pipe_length) waiting ∙ take-all pipe_length message fits,
      sym (length-stretch _ _ _)
          ∙ ap length (left ∙ ap (drop pipe_length) waiting ∙ drop-all pipe_length message fits),
    )

-- A message without bytes that `write` puts into a pipe without bytes makes the pipe full.
write_nothing_fills : (p : Pipe) → IsPipe p → size p ≡ 0 → is_full (write [] p).1 ≡ true
unfolding write write_loop size
write_nothing_fills p v z =
    let room : is_full p ≡ false = ground (arith, z, v.flag) in
    let met : ((p.end + 0) % pipe_length == p.position) ≡ true =
      ground (arith, z, v.position_in, v.end_in, v.flag) in
    rw (room, met) (ground arith)
