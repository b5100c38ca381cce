-- ===== src/Copy.antt =====
-- `memset` and `memcpy` of Kernel/lib.c, and `strcpy` of Kernel/stdio.c. Memory is a function from
-- addresses to bytes.
pub mod Regions
use gat_os_v.Base.{
  ℕ, zero, suc, ◌+◌, ◌-◌, ◌*◌, ◌/◌, ◌%◌, Bool, true, false, ◌&&◌, List, [], ◌∷◌, ◌==◌,
  if◌then◌else◌, update, ℤ, pos, negsuc,
}

abbrev pub Bytes : Type 0
Bytes = ℕ → ℕ

-- `(uint8_t) c` of an `int32_t`
abbrev pub to_byte : ℤ → ℕ
to_byte (pos n) = n % 256
to_byte (negsuc n) = 255 - n % 256

-- The loop of `memset`, from the last byte down.
unfoldable pub set_loop : ℕ → ℕ → ℕ → Bytes → Bytes
set_loop zero dst chr m = m
set_loop (suc length) dst chr m = set_loop length dst chr (update m (dst + length) chr)

unfoldable pub memset : ℕ → ℤ → ℕ → Bytes → Bytes
unfolding set_loop
memset destination c length m = set_loop length destination (to_byte c) m

-- `d[i] = s[i]` on bytes
abbrev pub move_byte : ℕ → ℕ → ℕ → Bytes → Bytes
move_byte d s i m = update m (d + i) (m (s + i))

-- `d[i] = s[i]` on 32-bit words: all four bytes are read before one is written.
abbrev pub move_word : ℕ → ℕ → ℕ → Bytes → Bytes
move_word d s i m =
    update
      (update (update (update m (d + 4 * i) (m (s + 4 * i))) (d + 4 * i + 1) (m (s + 4 * i + 1)))
        (d + 4 * i + 2) (m (s + 4 * i + 2)))
      (d + 4 * i + 3) (m (s + 4 * i + 3))

-- The two loops of `memcpy`, with the rounds left.
unfoldable pub byte_loop : ℕ → ℕ → ℕ → ℕ → Bytes → Bytes
byte_loop zero d s i m = m
byte_loop (suc rounds) d s i m = byte_loop rounds d s (i + 1) (move_byte d s i m)

unfoldable pub word_loop : ℕ → ℕ → ℕ → ℕ → Bytes → Bytes
word_loop zero d s i m = m
word_loop (suc rounds) d s i m = word_loop rounds d s (i + 1) (move_word d s i m)

unfoldable pub memcpy : ℕ → ℕ → ℕ → Bytes → Bytes
unfolding byte_loop word_loop
memcpy destination source length m =
    if destination % 4 == 0 && source % 4 == 0 && length % 4 == 0
    then word_loop (length / 4) destination source 0 m
    else byte_loop length destination source 0 m
