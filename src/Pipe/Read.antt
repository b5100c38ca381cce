-- ===== src/Pipe/Read.antt =====
-- `read` takes from the front of the queue of bytes that a pipe is.
use gat_os_v.Base.{
  Bool-cases, length-take, take-nil, drop-nil, ℕ, zero, suc, ◌+◌, ◌-◌, ◌%◌, ◌≤◌, ◌<◌, ◌≡◌, inl, inr,
  true, false, ◌||◌, not, arith, refl, sym, ap, ◌∙◌, List, [], ◌∷◌, length, take, drop, ◌==◌, min,
  ℤ,
}
use gat_os_v.Pipe.{Pipe, pipe_length, next, read_loop, rounds, is_drained, read}
use gat_os_v.Pipe.Contents.{
  IsPipe, size, contents, size-le, end-size, length-stretch, stretch_eq, stretch,
}

read_stops :
    (at e i : ℕ)
    → 1 ≤ i
    → e ≡ (at + i) % pipe_length
    → (not ((i + at) % pipe_length == e) || i == 0) ≡ false
read_stops at e i some_read last = ground arith

read_goes_on :
    (at e i d : ℕ)
    → i + suc d ≤ pipe_length
    → e ≡ (at + (i + suc d)) % pipe_length
    → (not ((i + at) % pipe_length == e) || i == 0) ≡ true
read_goes_on at e i d le last = ground arith

read_loop-take :
    (left d i aux : ℕ) (p : Pipe)
    → p.position < pipe_length
    → 1 ≤ i + d
    → i + d ≤ pipe_length
    → aux ≡ (p.position + i) % pipe_length
    → p.end ≡ (p.position + (i + d)) % pipe_length
    → read_loop left aux i p ≡ take left (stretch p.pipe aux d)
unfolding read_loop next stretch
read_loop-take zero d i aux p lt some_bytes le here last = refl
read_loop-take (suc left) zero i aux p lt some_bytes le here last =
    rw (read_stops p.position p.end i (omega arith) (omega (arith, last)))
read_loop-take (suc left) (suc d) i aux p lt some_bytes le here last =
    let step : next aux ≡ (aux + 1) % pipe_length = ground arith in
    let rest =
      read_loop-take left d (i + 1) (next aux) p lt (omega arith) (omega arith) (ground arith)
        (omega (arith, last)) in
    rw (read_goes_on p.position p.end i d le last)
      (ap (◌∷◌ (p.pipe aux)) (rest ∙ ap (λ j. take left (stretch p.pipe j d)) step))

drop-stretch :
    (left d i : ℕ) (ring : ℕ → ℕ)
    → i < pipe_length
    → drop left (stretch ring i d) ≡ stretch ring ((i + min left d) % pipe_length) (d - min left d)
unfolding stretch
drop-stretch zero d i ring lt = stretch_eq ring i _ d _ (omega arith) (omega arith)
drop-stretch (suc left) zero i ring lt =
    let nothing : 0 ≡ 0 - min (suc left) 0 = omega arith in
    ap (stretch ring ((i + min (suc left) 0) % pipe_length)) nothing
drop-stretch (suc left) (suc d) i ring lt =
    drop-stretch left d ((i + 1) % pipe_length) ring (omega arith)
    ∙ stretch_eq ring _ _ _ _ (omega arith) (omega arith)

is_drained-size : (p : Pipe) → IsPipe p → (is_drained p ≡ true) → size p ≡ 0
unfolding size
is_drained-size p v e = ground (arith, v.flag)

bytes-size : (p : Pipe) → IsPipe p → (is_drained p ≡ false) → 1 ≤ size p
unfolding size
bytes-size p v e = ground (arith, v.position_in, v.end_in, v.flag)

size-read :
    (p : Pipe) (k : ℕ)
    → IsPipe p
    → 1 ≤ k
    → k ≤ size p
    → size (record p { position = (p.position + k) % pipe_length; read_flag = 0 }) ≡ size p - k
unfolding size
size-read p k v some_read le = ground (arith, v.position_in, v.end_in, v.flag)

pub no_bytes : (p : Pipe) → size p ≡ 0 → contents p ≡ []
unfolding stretch
no_bytes p z = ap (stretch p.pipe p.position) z

read-result :
    (p : Pipe) (n : ℕ)
    → IsPipe p
    → 1 ≤ n
    → 1 ≤ size p
    → (result : List ℕ) → result ≡ take n (contents p)
    → let p' = record p { position = (p.position + length result) % pipe_length; read_flag = 0 } in
      IsPipe p' × (result ≡ take n (contents p)) × (contents p' ≡ drop n (contents p))
read-result p n v some_bytes some_wait result e =
    let count : length result ≡ min n (size p) =
      ap length e
      ∙ length-take n (contents p)
      ∙ ap (min n) (length-stretch p.pipe p.position (size p)) in
    (
      record { position_in = omega arith; end_in = v.end_in; flag = omega arith },
      e,
      stretch_eq p.pipe _ _ _ _ (omega (arith, count)) (
            size-read p (length result) v (omega (arith, count)) (omega (arith, count))
            ∙ omega (arith, count))
          ∙ sym (drop-stretch n (size p) p.position p.pipe v.position_in),
    )

-- `read` of at least one byte, or of -1 for all, takes the oldest of the bytes that wait out of the
-- pipe, as many as are asked for or as there are; the others stay in their order.
pub read_lem :
    (bytes : ℤ) (p : Pipe)
    → IsPipe p
    → 1 ≤ rounds bytes
    → let (result, p') = read bytes p in
      IsPipe p'
      × (result ≡ take (rounds bytes) (contents p))
      × (contents p' ≡ drop (rounds bytes) (contents p))
unfolding read
read_lem bytes p v some_bytes = elim (Bool-cases (is_drained p)) [
  | inl drained ↦ rw drained (
    v,
    sym (
        ap (take (rounds bytes)) (no_bytes p (is_drained-size p v drained))
        ∙ take-nil (rounds bytes)),
    no_bytes p (is_drained-size p v drained)
        ∙ sym (
            ap (drop (rounds bytes)) (no_bytes p (is_drained-size p v drained))
            ∙ drop-nil (rounds bytes)),
  )
  | inr left ↦ rw left (
      read-result p (rounds bytes) v some_bytes (bytes-size p v left)
        (read_loop (rounds bytes) p.position 0 p)
        (read_loop-take (rounds bytes) (size p) 0 p.position p v.position_in
          (omega (arith, bytes-size p v left)) (omega (arith, size-le p v))
          (omega (arith, v.position_in)) (omega (arith, end-size p v))))
]
