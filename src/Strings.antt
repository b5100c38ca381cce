-- ===== src/Strings.antt =====
-- `strcmp` and `strcmpN` of Kernel/stdio.c. A string is the list of its bytes before the terminating 0; a `char`
-- is signed.
use gat_os_v.Base.{
  ℕ, zero, suc, ◌+◌, ◌%◌, ◌<◌, ◌≡◌, ◌↔◌, arith, refl, List, [], ◌∷◌, All, take, ℤ, pos, negsuc, ltb,
  if◌then◌else◌,
}

-- The order of signed bytes is that of these numbers.
abbrev signed_key : ℕ → ℕ
signed_key c = (c + 128) % 256

unfoldable pub strcmp : List ℕ → List ℕ → ℤ
strcmp [] [] = pos 0
strcmp [] (y ∷ ys) = negsuc 0
strcmp (x ∷ xs) [] = pos 1
strcmp (x ∷ xs) (y ∷ ys) =
    let rest = strcmp xs ys in
    if ltb (signed_key y) (signed_key x)
    then pos 1
    else if ltb (signed_key x) (signed_key y)
    then negsuc 0
    else rest

-- `strcmpN`, for a number that is not negative.
unfoldable strcmp_n : List ℕ → List ℕ → ℕ → ℤ
strcmp_n xs ys zero = pos 0
strcmp_n [] [] (suc number) = pos 0
strcmp_n [] (y ∷ ys) (suc number) = negsuc 0
strcmp_n (x ∷ xs) [] (suc number) = pos 1
strcmp_n (x ∷ xs) (y ∷ ys) (suc number) =
    let rest = strcmp_n xs ys number in
    if ltb (signed_key y) (signed_key x)
    then pos 1
    else if ltb (signed_key x) (signed_key y)
    then negsuc 0
    else rest

abbrev pub IsBytes : List ℕ → Type 0
IsBytes = All (λ c. c < 256)

abbrev pub opposite : ℤ → ℤ
opposite (pos n) = elim n [ zero ↦ pos 0 | suc m ↦ negsuc m ]
opposite (negsuc n) = pos (n + 1)

-- For strings of bytes `strcmp` returns 0 exactly when they are equal.
pub strcmp_zero : (xs ys : List ℕ) → IsBytes xs → IsBytes ys → (strcmp xs ys ≡ pos 0) ↔ (xs ≡ ys)
unfolding strcmp
strcmp_zero [] [] a b = (λ _. refl, λ _. refl)
strcmp_zero [] (y ∷ ys) a b = (λ e. cc, λ e. cc)
strcmp_zero (x ∷ xs) [] a b = (λ e. cc, λ e. cc)
strcmp_zero (x ∷ xs) (y ∷ ys) (hx, a) (hy, b) =
    let ih = strcmp_zero xs ys a b in (λ e. ground (arith, ih), λ e. ground (arith, ih))

-- To exchange the strings turns the sign of the result.
strcmp_swap : (xs ys : List ℕ) → strcmp ys xs ≡ opposite (strcmp xs ys)
unfolding strcmp
strcmp_swap [] [] = refl
strcmp_swap [] (y ∷ ys) = refl
strcmp_swap (x ∷ xs) [] = refl
strcmp_swap (x ∷ xs) (y ∷ ys) = ground (arith, strcmp_swap xs ys)

-- `strcmpN` is `strcmp` on the first bytes of the strings.
strcmp_n_lem : (xs ys : List ℕ) (n : ℕ) → strcmp_n xs ys n ≡ strcmp (take n xs) (take n ys)
unfolding strcmp strcmp_n
strcmp_n_lem xs ys zero = refl
strcmp_n_lem [] [] (suc n) = refl
strcmp_n_lem [] (y ∷ ys) (suc n) = refl
strcmp_n_lem (x ∷ xs) [] (suc n) = refl
strcmp_n_lem (x ∷ xs) (y ∷ ys) (suc n) = ground (arith, strcmp_n_lem xs ys n)
