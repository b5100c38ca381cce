-- ===== src/Copy/Regions.antt =====
-- What the copies of Kernel/lib.c leave in memory, whichever way they go.
use gat_os_v.Base.{
  ℕ, zero, suc, ◌+◌, ◌-◌, ◌*◌, ◌/◌, ◌%◌, ◌≤◌, ◌<◌, ◌≡◌, ◌⊎◌, inl, inr, ◌&&◌, arith, refl, sym, ap,
  ◌∙◌, fun_ext, ltb, leb, ◌==◌, if◌then◌else◌, update, ℤ, pos, negsuc, Bool-cases,
}
use gat_os_v.Copy.{
  Bytes, to_byte, set_loop, memset, move_byte, move_word, byte_loop, word_loop, memcpy,
}

-- `k` bytes from `d` on are those that lie from `s` on in `m`, and all else is as in `m`.
abbrev pub copied : ℕ → ℕ → ℕ → Bytes → Bytes
copied d s k m j = if leb d j && ltb j (d + k) then m (s + (j - d)) else m j

-- `k` bytes from `d` on are `c`, and all else is as in `m`.
abbrev pub filled : ℕ → ℕ → ℕ → Bytes → Bytes
filled d c k m j = if leb d j && ltb j (d + k) then c else m j

-- The two regions have no byte in common.
abbrev pub Disjoint : ℕ → ℕ → ℕ → Type 0
Disjoint d s k = (d + k ≤ s) ⊎ (s + k ≤ d)

-- A copy does not reach the bytes that it reads.
pub copied-source :
    (d s n k x : ℕ) (m : Bytes)
    → n ≤ k
    → x < k
    → Disjoint d s k
    → copied d s n m (s + x) ≡ m (s + x)
copied-source d s n k x m le lt apart = ground arith

-- Where the copy goes on, it is what the copy of one byte more is there.
copied-next : (d s x : ℕ) (m : Bytes) (j : ℕ) → d + x ≡ j → m (s + x) ≡ m (s + (j - d))
copied-next d s x m j e = ap m (omega arith)

move_byte-copied :
    (d s i k : ℕ) (m : Bytes) (j : ℕ)
    → i < k
    → Disjoint d s k
    → move_byte d s i (copied d s i m) j ≡ copied d s (i + 1) m j
move_byte-copied d s i k m j lt apart =
    ap (λ c. if d + i == j then c else copied d s i m j)
      (copied-source d s i k i m (omega arith) lt apart)
    ∙ ground (arith, copied-next d s i m j)

byte_loop-copied :
    (rounds d s i k : ℕ) (m : Bytes)
    → i + rounds ≤ k
    → Disjoint d s k
    → byte_loop rounds d s i (copied d s i m) ≡ copied d s (i + rounds) m
unfolding byte_loop
byte_loop-copied zero d s i k m le apart = ap (λ n. copied d s n m) (omega arith)
byte_loop-copied (suc rounds) d s i k m le apart =
    ap (byte_loop rounds d s (i + 1))
      (fun_ext (λ j. move_byte-copied d s i k m j (omega arith) apart))
    ∙ byte_loop-copied rounds d s (i + 1) k m (omega arith) apart
    ∙ ap (λ n. copied d s n m) (omega arith)

-- One more byte, at address `a` and of value `v`.
pub copied-grow :
    (d s n a v : ℕ) (m : Bytes)
    → a ≡ d + n
    → v ≡ m (s + n)
    → update (copied d s n m) a v ≡ copied d s (n + 1) m
copied-grow d s n a v m here same = fun_ext (λ j. ground (arith, copied-next d s n m j))

-- A word is four bytes, as the source is out of reach.
move_word-copied :
    (d s i k : ℕ) (m : Bytes)
    → 4 * i + 4 ≤ k
    → Disjoint d s k
    → move_word d s i (copied d s (4 * i) m) ≡ copied d s (4 * (i + 1)) m
move_word-copied d s i k m le apart =
    ap
      (λ t.
        update
          (update (update t (d + 4 * i + 1) (before (s + 4 * i + 1))) (d + 4 * i + 2)
            (before (s + 4 * i + 2)))
          (d + 4 * i + 3) (before (s + 4 * i + 3)))
      (copied-grow d s (4 * i) (d + 4 * i) _ m refl (source (4 * i) (s + 4 * i) refl (omega arith)))
    ∙ ap
        (λ t.
          update (update t (d + 4 * i + 2) (before (s + 4 * i + 2))) (d + 4 * i + 3)
            (before (s + 4 * i + 3)))
        (copied-grow d s (4 * i + 1) (d + 4 * i + 1) _ m (omega arith)
          (source (4 * i + 1) (s + 4 * i + 1) (omega arith) (omega arith)))
    ∙ ap (λ t. update t (d + 4 * i + 3) (before (s + 4 * i + 3)))
        (copied-grow d s (4 * i + 1 + 1) (d + 4 * i + 2) _ m (omega arith)
          (source (4 * i + 1 + 1) (s + 4 * i + 2) (omega arith) (omega arith)))
    ∙ copied-grow d s (4 * i + 1 + 1 + 1) (d + 4 * i + 3) _ m (omega arith)
        (source (4 * i + 1 + 1 + 1) (s + 4 * i + 3) (omega arith) (omega arith))
    ∙ ap (λ n. copied d s n m) (omega arith)
  where
    before : Bytes
    before = copied d s (4 * i) m

    source : (n a : ℕ) → a ≡ s + n → n < k → before a ≡ m (s + n)
    source n a e lt = ap before e ∙ copied-source d s (4 * i) k n m (omega arith) lt apart

word_loop-copied :
    (rounds d s i k : ℕ) (m : Bytes)
    → 4 * (i + rounds) ≤ k
    → Disjoint d s k
    → word_loop rounds d s i (copied d s (4 * i) m) ≡ copied d s (4 * (i + rounds)) m
unfolding word_loop
word_loop-copied zero d s i k m le apart = ap (λ n. copied d s (4 * n) m) (omega arith)
word_loop-copied (suc rounds) d s i k m le apart =
    ap (word_loop rounds d s (i + 1)) (move_word-copied d s i k m (omega arith) apart)
    ∙ word_loop-copied rounds d s (i + 1) k m (omega arith) apart
    ∙ ap (λ n. copied d s (4 * n) m) (omega arith)

pub copied-none : (d s : ℕ) (m : Bytes) → copied d s 0 m ≡ m
copied-none d s m = fun_ext (λ j. ground arith)

-- For regions that have no byte in common `memcpy` copies the `length` bytes and writes no other,
-- whether it goes by words or by bytes.
pub memcpy_lem :
    (destination source length : ℕ) (m : Bytes)
    → Disjoint destination source length
    → memcpy destination source length m ≡ copied destination source length m
unfolding memcpy
memcpy_lem d s k m apart = elim (Bool-cases (d % 4 == 0 && s % 4 == 0 && k % 4 == 0)) [
  | inl aligned ↦
      let whole : 4 * (0 + k / 4) ≡ k = ground (arith, aligned) in
      rw aligned (
        ap (word_loop (k / 4) d s 0) (sym (copied-none d s m))
        ∙ word_loop-copied (k / 4) d s 0 k m (omega (arith, whole)) apart
        ∙ ap (λ n. copied d s n m) whole)
  | inr bytes ↦ rw bytes (
      ap (byte_loop k d s 0) (sym (copied-none d s m))
      ∙ byte_loop-copied k d s 0 k m (omega arith) apart
      ∙ ap (λ n. copied d s n m) (omega arith))
]

set_loop-filled :
    (length d c : ℕ) (m : Bytes) (j : ℕ) → set_loop length d c m j ≡ filled d c length m j
unfolding set_loop
set_loop-filled zero d c m j = ground arith
set_loop-filled (suc n) d c m j = set_loop-filled n d c (update m (d + n) c) j ∙ ground arith

-- `memset` sets the `length` bytes to the low byte of `c` and writes no other.
memset_lem :
    (destination : ℕ) (c : ℤ) (length : ℕ) (m : Bytes)
    → (memset destination c length m ≡ filled destination (to_byte c) length m) × (to_byte c < 256)
unfolding memset
memset_lem d c n m = (fun_ext (set_loop-filled n d (to_byte c) m), byte_range c)
  where
    byte_range : (c : ℤ) → to_byte c < 256
    byte_range (pos n) = omega arith
    byte_range (negsuc n) = omega arith
