-- ===== src/Pipe.antt =====
-- Kernel/IPC.c: the ring of bytes of a pipe, as `write` and `read` use it. The blocking of processes
-- around it is not in this file. A pointer into the ring is its offset.
pub mod Contents
pub mod Write
pub mod Read
pub mod RoundTrip
use gat_os_v.Base.{
  ℕ, zero, suc, ◌+◌, ◌%◌, Bool, true, false, ◌&&◌, ◌||◌, not, List, [], ◌∷◌, ◌==◌, if◌then◌else◌,
  update, length, ℤ, pos, negsuc,
}

abbrev pub pipe_length : ℕ
pipe_length = 10

-- The fields of `Pipe` that belong to the ring.
pub record Pipe : Type 0 where
  pub position : ℕ
  pub end : ℕ
  pub read_flag : ℕ
  pub pipe : ℕ → ℕ

-- `next`
unfoldable pub next : ℕ → ℕ
next aux = if aux + 1 == pipe_length then 0 else aux + 1

-- The loop of `write`: the rest of the message, `aux` and `bytes`; the result holds `bytes`.
unfoldable pub write_loop : List ℕ → ℕ → ℕ → Pipe → ℕ × Pipe
unfolding next
write_loop [] aux bytes p = (bytes, p)
write_loop (c ∷ cs) aux bytes p =
    let rest = write_loop cs (next aux) (bytes + 1) (record p { pipe = update p.pipe aux c }) in
    if not ((p.end + bytes) % pipe_length == p.position) || bytes == 0 then rest else (bytes, p)

-- The two assignments behind the loop.
abbrev pub written : ℕ → Pipe → Pipe
written bytes p =
    let p1 = record p { end = (p.end + bytes) % pipe_length } in
    if p1.end == p1.position then record p1 { read_flag = 1 } else p1

-- The test at the head of `write`.
abbrev pub is_full : Pipe → Bool
is_full p = p.position == p.end && p.read_flag == 1

-- `write` of the bytes of a string before its 0: the number of bytes taken, and the ring.
unfoldable pub write : List ℕ → Pipe → ℕ × Pipe
unfolding write_loop
write message p =
    if is_full p
    then (0, p)
    else let (bytes, p') = write_loop message p.end 0 p in (bytes, written bytes p')

-- The loop of `read`, with `bytes - i` rounds at most: the bytes of `result` from `i` on.
unfoldable pub read_loop : ℕ → ℕ → ℕ → Pipe → List ℕ
unfolding next
read_loop zero aux i p = []
read_loop (suc left) aux i p =
    let rest = read_loop left (next aux) (i + 1) p in
    if not ((i + p.position) % pipe_length == p.end) || i == 0 then p.pipe aux ∷ rest else []

-- The rounds that the parameter `bytes` allows; -1 stands for the whole ring.
abbrev pub rounds : ℤ → ℕ
rounds (pos n) = n
rounds (negsuc zero) = pipe_length
rounds (negsuc (suc n)) = 0

-- The test at the head of `read`.
abbrev pub is_drained : Pipe → Bool
is_drained p = p.position == p.end && p.read_flag == 0

-- `read`: the bytes written to `result`, whose number is returned, and the ring.
unfoldable pub read : ℤ → Pipe → List ℕ × Pipe
unfolding read_loop
read bytes p =
    if is_drained p
    then ([], p)
    else let result = read_loop (rounds bytes) p.position 0 p in
      (result, record p { position = (p.position + length result) % pipe_length; read_flag = 0 })
