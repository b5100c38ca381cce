-- ===== src/Text/Print.antt =====
-- `printFF`: what a format makes of the strings and the numbers.
use gat_os_v.Text.Digits.{IsNumeral, put_number_lem}
use gat_os_v.Base.{
  ℕ, ◌+◌, ◌≤◌, int_max, ◌≡◌, ◌≢◌, refl, ap, ◌∙◌, none, some, List, [], ◌∷◌, ◌++◌, ℤ, ne→==-false,
  All,
}
use gat_os_v.Copy.{Bytes}
use gat_os_v.Text.{
  percent, char_d, char_s, letter, format, Strings, Numbers, advance, prepend, magnitude,
  put_number, print_loop, print_ff,
}

-- The parts of a format: a byte that is no '%', "%s" and "%d".
pub data Piece : Type 0 where
  plain : (c : ℕ) → c ≢ percent → Piece
  string number : Piece

unfoldable pub format_of : List Piece → List ℕ
format_of [] = []
format_of (plain c ne ∷ ps) = c ∷ format_of ps
format_of (string ∷ ps) = percent ∷ char_s ∷ format_of ps
format_of (number ∷ ps) = percent ∷ char_d ∷ format_of ps

-- What the loop puts out for the parts.
unfoldable expand : ℕ → Bytes → List Piece → (ℕ → List ℕ) → (ℕ → ℤ) → List ℕ
expand b m [] s n = []
expand b m (plain c ne ∷ ps) s n = (c ∷ []) ++ expand b m ps s n
expand b m (string ∷ ps) s n = s 0 ++ expand b m ps (advance s) n
expand b m (number ∷ ps) s n = put_number (n 0) b m ++ expand b m ps s (advance n)

-- The text of the parts: each string as it is, and each number as a numeral.
unfoldable pub Expands : List Piece → (ℕ → List ℕ) → (ℕ → ℤ) → List ℕ → Type 0
Expands [] s n out = out ≡ []
Expands (plain c ne ∷ ps) s n out = (rest : List ℕ) × (out ≡ c ∷ rest) × Expands ps s n rest
Expands (string ∷ ps) s n out =
    (rest : List ℕ) × (out ≡ s 0 ++ rest) × Expands ps (advance s) n rest
Expands (number ∷ ps) s n out =
    (numeral rest : List ℕ) × (out ≡ numeral ++ rest)
    × IsNumeral (n 0) numeral
    × Expands ps s (advance n) rest

-- The steps of the loop.
module _ (b : ℕ) (m : Bytes) (last : ℕ) (fs : List ℕ) where
  at_text :
      (c : ℕ) (s : Strings) (n : Numbers)
      → c ≢ percent
      → print_loop b m letter last (c ∷ fs) s n ≡ prepend (c ∷ []) (print_loop b m letter c fs s n)
  unfolding print_loop
  at_text c s n ne = rw (ne→==-false c percent ne)

  at_percent :
      (s : Strings) (n : Numbers)
      → print_loop b m letter last (percent ∷ fs) s n ≡ print_loop b m format percent fs s n
  unfolding print_loop
  at_percent s n = refl

  at_string :
      (s : ℕ → List ℕ) (n : ℕ → ℤ)
      → print_loop b m format last (char_s ∷ fs) (some s) (some n)
        ≡ prepend (s 0) (print_loop b m letter char_s fs (some (advance s)) (some n))
  unfolding print_loop
  at_string s n = refl

  at_number :
      (s : Strings) (n : ℕ → ℤ)
      → print_loop b m format last (char_d ∷ fs) s (some n)
        ≡ prepend (put_number (n 0) b m) (print_loop b m letter char_d fs s (some (advance n)))
  unfolding print_loop
  at_number none n = refl
  at_number (some s) n = refl

  -- Without strings the loop stays at an 's' for ever.
  at_string_without : (n : Numbers) → print_loop b m format last (char_s ∷ fs) none n ≡ none
  unfolding print_loop
  at_string_without none = refl
  at_string_without (some n) = refl

at_end :
    (b : ℕ) (m : Bytes) (last : ℕ) (s : Strings) (n : Numbers)
    → last ≢ percent
    → print_loop b m letter last [] s n ≡ some []
unfolding print_loop
at_end b m last s n ne = rw (ne→==-false last percent ne)

-- One part of the format, where the rest of it gives `out`.
module _ (b : ℕ) (m : Bytes) (last : ℕ) (fs out : List ℕ) (s : ℕ → List ℕ) (n : ℕ → ℤ) where
  then_text :
      (c : ℕ)
      → c ≢ percent
      → print_loop b m letter c fs (some s) (some n) ≡ some out
      → print_loop b m letter last (c ∷ fs) (some s) (some n) ≡ some (c ∷ out)
  then_text c other rest =
      at_text b m last fs c (some s) (some n) other ∙ ap (prepend (c ∷ [])) rest

  then_string :
      print_loop b m letter char_s fs (some (advance s)) (some n) ≡ some out
      → print_loop b m letter last (percent ∷ char_s ∷ fs) (some s) (some n) ≡ some (s 0 ++ out)
  then_string rest =
      at_percent b m last (char_s ∷ fs) (some s) (some n)
      ∙ at_string b m percent fs s n
      ∙ ap (prepend (s 0)) rest

  then_number :
      print_loop b m letter char_d fs (some s) (some (advance n)) ≡ some out
      → print_loop b m letter last (percent ∷ char_d ∷ fs) (some s) (some n)
        ≡ some (put_number (n 0) b m ++ out)
  then_number rest =
      at_percent b m last (char_d ∷ fs) (some s) (some n)
      ∙ at_number b m percent fs (some s) n
      ∙ ap (prepend (put_number (n 0) b m)) rest

s_ne : char_s ≢ percent
s_ne e = cc

d_ne : char_d ≢ percent
d_ne e = cc

Prints : ℕ → Bytes → ℕ → List Piece → (ℕ → List ℕ) → (ℕ → ℤ) → Type 0
Prints b m last ps s n =
    print_loop b m letter last (format_of ps) (some s) (some n) ≡ some (expand b m ps s n)

print_loop-expand :
    (ps : List Piece) (b : ℕ) (m : Bytes) (last : ℕ) (s : ℕ → List ℕ) (n : ℕ → ℤ)
    → last ≢ percent
    → Prints b m last ps s n
unfolding format_of expand Prints
print_loop-expand [] b m last s n ne = at_end b m last (some s) (some n) ne
print_loop-expand (plain c other ∷ ps) b m last s n ne =
    then_text b m last (format_of ps) (expand b m ps s n) s n c other
      (print_loop-expand ps b m c s n other)
print_loop-expand (string ∷ ps) b m last s n ne =
    then_string b m last (format_of ps) (expand b m ps (advance s) n) s n
      (print_loop-expand ps b m char_s (advance s) n s_ne)
print_loop-expand (number ∷ ps) b m last s n ne =
    then_number b m last (format_of ps) (expand b m ps s (advance n)) s n
      (print_loop-expand ps b m char_d s (advance n) d_ne)

expand-Expands :
    (ps : List Piece) (b : ℕ) (m : Bytes) (s : ℕ → List ℕ) (n : ℕ → ℤ)
    → ((i : ℕ) → magnitude (n i) ≤ int_max)
    → Expands ps s n (expand b m ps s n)
unfolding Expands expand
expand-Expands [] b m s n small = refl
expand-Expands (plain c ne ∷ ps) b m s n small =
    (expand b m ps s n, refl, expand-Expands ps b m s n small)
expand-Expands (string ∷ ps) b m s n small =
    (expand b m ps (advance s) n, refl, expand-Expands ps b m (advance s) n small)
expand-Expands (number ∷ ps) b m s n small = (
  put_number (n 0) b m,
  expand b m ps s (advance n),
  refl,
  put_number_lem (n 0) b m (small 0),
  expand-Expands ps b m s (advance n) (λ i. small (i + 1)),
)

-- For a format made of bytes other than '%', of "%s" and of "%d", with no '%' in front of it in
-- memory, `printFF` with both arrays ends. It puts out the format with the strings in place of the
-- "%s", in order, and in place of the "%d" the numbers in decimal, in order, with a '-' for one below 0.
-- The numbers are `int`s other than the least one.
pub print_ff_lem :
    (b : ℕ) (m : Bytes) (before : ℕ) (ps : List Piece) (s : ℕ → List ℕ) (n : ℕ → ℤ)
    → before ≢ percent
    → ((i : ℕ) → magnitude (n i) ≤ int_max)
    → (out : List ℕ) × (print_ff b m before (format_of ps) (some s) (some n) ≡ some out)
      × Expands ps s n out
unfolding print_ff Prints
print_ff_lem b m before ps s n ne small =
    (expand b m ps s n, print_loop-expand ps b m before s n ne, expand-Expands ps b m s n small)

-- `printFF` without strings never ends on a format with "%s" behind bytes other than '%'.
print_ff_stuck :
    (b : ℕ) (m : Bytes) (before : ℕ) (text fs : List ℕ) (n : Numbers)
    → All (λ c. c ≢ percent) text
    → print_ff b m before (text ++ percent ∷ char_s ∷ fs) none n ≡ none
unfolding print_ff
print_ff_stuck b m before [] fs n plain_text =
    at_percent b m before (char_s ∷ fs) none n ∙ at_string_without b m percent fs n
print_ff_stuck b m before (c ∷ cs) fs n (ne, plain_text) =
    at_text b m before (cs ++ percent ∷ char_s ∷ fs) c none n ne
    ∙ ap (prepend (c ∷ [])) (print_ff_stuck b m c cs fs n plain_text)
