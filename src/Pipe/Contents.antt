-- ===== src/Pipe/Contents.antt =====
-- The bytes that wait in a pipe, oldest first.
use gat_os_v.Base.{
  ℕ, zero, suc, ◌+◌, ◌-◌, ◌%◌, ◌≤◌, ◌<◌, ◌≡◌, arith, refl, sym, ap, ◌∙◌, List, [], ◌∷◌, ◌++◌,
  length, ◌==◌, if◌then◌else◌, update, update_self, update_ne,
}
use gat_os_v.Pipe.{Pipe, pipe_length}

pub record IsPipe (p : Pipe) : Type 0 where
  pub position_in : p.position < pipe_length
  pub end_in : p.end < pipe_length
  pub flag : p.read_flag ≤ 1

-- How many bytes wait.
unfoldable pub size : Pipe → ℕ
size p =
    if p.position == p.end
    then (if p.read_flag == 1 then pipe_length else 0)
    else (p.end + pipe_length - p.position) % pipe_length

-- `n` bytes of the ring, from offset `i` on.
unfoldable pub stretch : (ℕ → ℕ) → ℕ → ℕ → List ℕ
stretch ring i zero = []
stretch ring i (suc n) = ring i ∷ stretch ring ((i + 1) % pipe_length) n

abbrev pub contents : Pipe → List ℕ
contents p = stretch p.pipe p.position (size p)

pub size-le : (p : Pipe) → IsPipe p → size p ≤ pipe_length
unfolding size
size-le p v = ground (arith, v.position_in, v.end_in)

pub end-size : (p : Pipe) → IsPipe p → p.end ≡ (p.position + size p) % pipe_length
unfolding size
end-size p v = ground (arith, v.position_in, v.end_in)

pub length-stretch : (ring : ℕ → ℕ) (i n : ℕ) → length (stretch ring i n) ≡ n
unfolding stretch
length-stretch ring i zero = refl
length-stretch ring i (suc n) = ap suc (length-stretch ring ((i + 1) % pipe_length) n)

pub stretch-append :
    (ring : ℕ → ℕ) (i n : ℕ)
    → i < pipe_length
    → stretch ring i (suc n) ≡ stretch ring i n ++ ring ((i + n) % pipe_length) ∷ []
unfolding stretch
stretch-append ring i zero lt = ap (λ j. ring j ∷ []) (omega arith)
stretch-append ring i (suc n) lt = ap (◌∷◌ (ring i)) (
    stretch-append ring ((i + 1) % pipe_length) n (omega arith)
    ∙ ap (λ j. stretch ring ((i + 1) % pipe_length) n ++ ring j ∷ []) (omega arith))

-- A write behind a stretch leaves it alone.
pub stretch-update :
    (ring : ℕ → ℕ) (i n m c j : ℕ)
    → i < pipe_length
    → n ≤ m
    → m < pipe_length
    → j ≡ (i + m) % pipe_length
    → stretch (update ring j c) i n ≡ stretch ring i n
unfolding stretch
stretch-update ring i zero m c j lt le small e = refl
stretch-update ring i (suc n) m c j lt le small e =
    let next : ℕ = (i + 1) % pipe_length in
    ap (λ x. x ∷ stretch (update ring j c) next n) (update_ne ring j i c (λ d. omega (arith, d, e)))
    ∙ ap (◌∷◌ (ring i)) (
        stretch-update ring next n (m - 1) c j (omega arith) (omega arith) (omega arith)
          (omega (arith, e)))

-- A write right behind a stretch makes it longer.
pub stretch-snoc :
    (ring : ℕ → ℕ) (i n c j : ℕ)
    → i < pipe_length
    → n < pipe_length
    → j ≡ (i + n) % pipe_length
    → stretch (update ring j c) i (suc n) ≡ stretch ring i n ++ c ∷ []
stretch-snoc ring i n c j lt small e =
    stretch-append (update ring j c) i n lt
    ∙ ap (λ xs. xs ++ update ring j c ((i + n) % pipe_length) ∷ [])
        (stretch-update ring i n n c j lt (omega arith) small e)
    ∙ ap (λ k. stretch ring i n ++ update ring j c k ∷ []) (sym e)
    ∙ ap (λ x. stretch ring i n ++ x ∷ []) (update_self ring j c)

pub stretch_eq : (ring : ℕ → ℕ) (i j n m : ℕ) → i ≡ j → n ≡ m → stretch ring i n ≡ stretch ring j m
stretch_eq ring i j n m e f = ap (λ k. stretch ring k n) e ∙ ap (stretch ring j) f
