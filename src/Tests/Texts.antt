-- ===== src/Tests/Texts.antt =====
-- Kernel/lib.c and Kernel/stdio.c on memory that holds 7 everywhere but for a string at 100.
use gat_os_v.Base.{
  ℕ, ◌≤◌, ◌≡◌, ◌+ℤ◌, ◌-ℤ◌, to_int, negate, int_max, inr, arith, refl, some, List, [], ◌∷◌, ◌==◌,
  if◌then◌else◌, ℤ, pos, negsuc,
}
use gat_os_v.Copy.{Bytes, memcpy}
use gat_os_v.Copy.Regions.{copied, memcpy_lem}
use gat_os_v.Text.{
  magnitude, put_number, put_digits, store_loop, emit_loop, print_loop, print_ff, itoa,
  write_digits, digit_loop, swap_loop,
}
use gat_os_v.Text.Print.{Piece, plain, string, number, format_of, Expands, print_ff_lem}
use gat_os_v.Text.Itoa.{Spelled, itoa_lem}
use gat_os_v.Text.Strcpy.{IsString}

-- The string "ab".
abbrev memory : Bytes
memory j = if j == 100 then 97 else if j == 101 then 98 else if j == 102 then 0 else 7

memory-IsString : IsString memory 100 2
memory-IsString = record { bytes = λ j lt e. ground (arith, e, lt); ended = refl }

put_minus_305 : put_number (negsuc 304) 50 memory ≡ 45 ∷ 51 ∷ 48 ∷ 53 ∷ []
unfolding put_number put_digits store_loop emit_loop negate to_int ◌-ℤ◌
put_minus_305 = refl

itoa_minus_48 : (itoa (negsuc 47) 200 10 memory).1 201 ≡ 52
unfolding itoa write_digits digit_loop swap_loop negate to_int ◌-ℤ◌
itoa_minus_48 = refl

itoa_lem_example : Spelled (negsuc 47) 200 memory (itoa (negsuc 47) 200 10 memory)
itoa_lem_example = itoa_lem (negsuc 47) 200 memory (omega arith)

-- The negation of the least `int` is the least `int`, and its digits come out by remainders below 0.
put_least :
    put_number (negsuc 2147483647) 50 memory
    ≡ 45 ∷ 46 ∷ 47 ∷ 44 ∷ 41 ∷ 44 ∷ 40 ∷ 45 ∷ 42 ∷ 44 ∷ 40 ∷ []
unfolding put_number put_digits store_loop emit_loop negate to_int ◌+ℤ◌ ◌-ℤ◌
put_least = refl

-- "x%s%d"
abbrev pieces : List Piece
pieces = plain 120 (λ e. ground (arith, e)) ∷ string ∷ number ∷ []

abbrev words : ℕ → List ℕ
words i = 104 ∷ 105 ∷ []

abbrev numbers : ℕ → ℤ
numbers i = if i == 0 then negsuc 5 else pos 6

printed :
    print_ff 50 memory 7 (format_of pieces) (some words) (some numbers)
    ≡ some (120 ∷ 104 ∷ 105 ∷ 45 ∷ 54 ∷ [])
unfolding print_ff print_loop format_of put_number put_digits store_loop emit_loop negate to_int
    ◌-ℤ◌
printed = refl

small_numbers : (i : ℕ) → magnitude (numbers i) ≤ int_max
small_numbers i = ground arith

print_ff_lem_example :
    (out : List ℕ) × (print_ff 50 memory 7 (format_of pieces) (some words) (some numbers)
      ≡ some out)
    × Expands pieces words numbers out
print_ff_lem_example =
    print_ff_lem 50 memory 7 pieces words numbers (λ e. ground (arith, e)) small_numbers

memcpy_lem_example : memcpy 300 100 8 memory ≡ copied 300 100 8 memory
memcpy_lem_example = memcpy_lem 300 100 8 memory (inr (omega arith))
