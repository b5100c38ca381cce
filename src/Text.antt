-- ===== src/Text.antt =====
-- Kernel/stdio.c: numbers as text, and formatted output; `intToString` of Kernel/lib.c. `putchar`
-- appends a byte to the output. The negation of the least `int` is again the least `int`.
pub mod Digits
pub mod Print
pub mod Itoa
pub mod Strcpy
use gat_os_v.Base.{
  ℕ, zero, suc, ◌+◌, ◌-◌, ◌*◌, ◌/◌, ◌%◌, Bool, true, false, ◌&&◌, Option, none, some, List, [], ◌∷◌,
  ◌++◌, ◌==◌, ltb, if◌then◌else◌, update, ℤ, pos, negsuc, pos_part, neg_part, is_negative, negate,
}
use gat_os_v.Copy.{Bytes}

abbrev pub char_0 : ℕ
char_0 = 48

abbrev pub minus : ℕ
minus = 45

abbrev pub percent : ℕ
percent = 37

abbrev pub char_d : ℕ
char_d = 100

abbrev pub char_s : ℕ
char_s = 115

abbrev pub magnitude : ℤ → ℕ
magnitude n = pos_part n + neg_part n

-- The byte of a remainder by 10; in C the remainder of a negative number is not positive.
abbrev pub decimal_byte : Bool → ℕ → ℕ
decimal_byte negative r = if negative then char_0 - r else r + char_0

-- The first loop of `putNumber`, on fuel, for the magnitude of `n`: `n`, `buffer`, `size` and the memory when it ends.
unfoldable pub store_loop : ℕ → Bool → ℕ → ℕ → ℕ → Bytes → ℕ × ℕ × ℕ × Bytes
store_loop zero negative n buffer size m = (n, buffer, size, m)
store_loop (suc fuel) negative n buffer size m =
    let rest =
      store_loop fuel negative (n / 10) (buffer + 1) (size + 1)
        (update m buffer (decimal_byte negative (n % 10))) in
    if n / 10 == 0 then (n, buffer, size, m) else rest

-- The second loop: the bytes it puts out.
unfoldable pub emit_loop : ℕ → ℕ → Bytes → List ℕ
emit_loop zero buffer m = []
emit_loop (suc size) buffer m = m buffer ∷ emit_loop size (buffer - 1) m

-- `putNumber` from the sign on, with the room that `kmalloc` gives at `buffer`.
unfoldable pub put_digits : Bool → ℕ → ℕ → Bytes → List ℕ
unfolding store_loop emit_loop
put_digits negative n buffer m =
    let (last, at, size, m1) = store_loop n negative n buffer 0 m in
    emit_loop (size + 1) at (update m1 at (decimal_byte negative last))

unfoldable pub put_number : ℤ → ℕ → Bytes → List ℕ
unfolding put_digits
put_number n buffer m =
    let v = negate n in
    if is_negative n
    then minus ∷ put_digits (is_negative v) (magnitude v) buffer m
    else put_digits false (magnitude n) buffer m

-- `printFF`. An argument of `none` is a NULL pointer; arrays are functions of the index.
pub data FormatState : Type 0 where
  letter format : FormatState

abbrev pub Strings : Type 0
Strings = Option (ℕ → List ℕ)

abbrev pub Numbers : Type 0
Numbers = Option (ℕ → ℤ)

-- `s++` and `n++`
abbrev pub advance : {A : Type 0} → (ℕ → A) → ℕ → A
advance f i = f (i + 1)

abbrev pub prepend : List ℕ → Option (List ℕ) → Option (List ℕ)
prepend xs none = none
prepend xs (some ys) = some (xs ++ ys)

-- The test behind the loop: the byte before the end, `last`, is a '%'.
abbrev pub trailing : ℕ → List ℕ
trailing last = if last == percent then percent ∷ [] else []

-- The loop of `printFF`, with the byte read before; `none` where it never ends: at an 's' without
-- strings no variable changes.
unfoldable pub print_loop :
    ℕ → Bytes → FormatState → ℕ → List ℕ → Strings → Numbers → Option (List ℕ)
unfolding put_number
print_loop b m state last [] s n = some (trailing last)
print_loop b m letter last (c ∷ fs) s n =
    let directive = print_loop b m format c fs s n in
    let text = print_loop b m letter c fs s n in
    if c == percent then directive else prepend (c ∷ []) text
print_loop b m format last (c ∷ fs) none none =
    let unknown = print_loop b m format c fs none none in
    if c == char_s then none else prepend (percent ∷ []) unknown
print_loop b m format last (c ∷ fs) (some strings) none =
    let string = print_loop b m letter c fs (some (advance strings)) none in
    let unknown = print_loop b m format c fs (some strings) none in
    if c == char_s then prepend (strings 0) string else prepend (percent ∷ []) unknown
print_loop b m format last (c ∷ fs) none (some numbers) =
    let number = print_loop b m letter c fs none (some (advance numbers)) in
    let unknown = print_loop b m format c fs none (some numbers) in
    if c == char_d
    then prepend (put_number (numbers 0) b m) number
    else if c == char_s
    then none
    else prepend (percent ∷ []) unknown
print_loop b m format last (c ∷ fs) (some strings) (some numbers) =
    let number = print_loop b m letter c fs (some strings) (some (advance numbers)) in
    let string = print_loop b m letter c fs (some (advance strings)) (some numbers) in
    let unknown = print_loop b m format c fs (some strings) (some numbers) in
    if c == char_d
    then prepend (put_number (numbers 0) b m) number
    else if c == char_s
    then prepend (strings 0) string
    else prepend (percent ∷ []) unknown

-- `printFF`; `before` is the byte in front of the format.
unfoldable pub print_ff : ℕ → Bytes → ℕ → List ℕ → Strings → Numbers → Option (List ℕ)
unfolding print_loop
print_ff b m before fs s n = print_loop b m letter before fs s n

-- The byte of a remainder in `itoa`; in C the remainder of a negative value is not positive.
abbrev pub digit_byte : Bool → ℕ → ℕ
digit_byte negative r =
    if negative then char_0 - r else (if ltb r 10 then r + char_0 else r + 65 - 10)

-- The `do` loop of `itoa`, on fuel: `p`, `len` and the memory when it ends.
unfoldable pub digit_loop : ℕ → Bool → ℕ → ℕ → ℕ → ℕ → Bytes → ℕ × ℕ × Bytes
digit_loop zero negative base v p len m = (p, len, m)
digit_loop (suc fuel) negative base v p len m =
    let m1 = update m p (digit_byte negative (v % base)) in
    let rest = digit_loop fuel negative base (v / base) (p + 1) (len + 1) m1 in
    if v / base == 0 then (p + 1, len + 1, m1) else rest

-- The loop that reverses the string, on fuel.
unfoldable pub swap_loop : ℕ → ℕ → ℕ → Bytes → Bytes
swap_loop zero p1 p2 m = m
swap_loop (suc fuel) p1 p2 m =
    let rest = swap_loop fuel (p1 + 1) (p2 - 1) (update (update m p1 (m p2)) p2 (m p1)) in
    if ltb p1 p2 then rest else m

-- `itoa` behind its first `if`, with `str` and `len` as that leaves them.
unfoldable pub write_digits : Bool → ℕ → ℕ → ℕ → ℕ → Bytes → ℕ × Bytes
unfolding digit_loop swap_loop
write_digits negative base v str len m =
    let (p, len1, m1) = digit_loop (suc v) negative base v str len m in
    (len1, swap_loop (p - str) str (p - 1) (update m1 p 0))

unfoldable pub itoa : ℤ → ℕ → ℕ → Bytes → ℕ × Bytes
unfolding write_digits
itoa value str base m =
    let v = negate value in
    if is_negative value && base == 10
    then write_digits (is_negative v) base (magnitude v) (str + 1) 1 (update m str minus)
    else write_digits (is_negative value) base (magnitude value) str 0 m

-- `intToString` for an `n` that is not negative; `digits` is not used.
unfoldable pub int_to_string : ℕ → ℕ → Bytes → Bytes
int_to_string n buffer m =
    update (update (update m buffer (n / 10 % 10 + char_0)) (buffer + 1) (n % 10 + char_0))
      (buffer + 2) 0

-- The loop of `strcpy`, on fuel: `i` and the memory when it ends.
unfoldable pub copy_loop : ℕ → ℕ → ℕ → ℕ → Bytes → ℕ × Bytes
copy_loop zero to from i m = (i, m)
copy_loop (suc fuel) to from i m =
    let rest = copy_loop fuel to from (i + 1) (update m (to + i) (m (from + i))) in
    if m (from + i) == 0 then (i, m) else rest

-- `strcpy`, with as many rounds as the string may have bytes.
unfoldable pub strcpy : ℕ → ℕ → ℕ → Bytes → ℕ × Bytes
unfolding copy_loop
strcpy fuel to from m = let (i, m1) = copy_loop fuel to from 0 m in (i, update m1 (to + i) 0)
