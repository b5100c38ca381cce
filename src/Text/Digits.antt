-- ===== src/Text/Digits.antt =====
-- Decimal digits in memory, the last one first, and the text that is read off them.
use gat_os_v.Base.{
  ℕ, zero, suc, ◌+◌, ◌-◌, ◌*◌, ◌/◌, ◌%◌, ◌≤◌, ◌<◌, ◌≡◌, ◌≢◌, inl, inr, true, false, arith, refl,
  sym, subst, ap, ltb, ◌∙◌, List, [], ◌∷◌, All, Bool-cases, ◌==◌, update, update_self, ℤ, pos,
  negsuc, is_negative, int_max, negate, negate-fits,
}
use gat_os_v.Copy.{Bytes}
use gat_os_v.Text.{
  char_0, minus, magnitude, store_loop, emit_loop, put_digits, put_number, digit_loop,
}

-- The number whose digits lie in the `k` bytes from `b` on, the last one first.
unfoldable pub value_from : Bytes → ℕ → ℕ → ℕ
value_from m b zero = 0
value_from m b (suc k) = (m b - char_0) + 10 * value_from m (b + 1) k

abbrev pub IsDigit : ℕ → Type 0
IsDigit c = (48 ≤ c) × (c ≤ 57)

-- The digits of `n` from `b` on, `k + 1` bytes, without a zero in front; below `b` all is as in `m`.
pub record Digits (n b k : ℕ) (m m' : Bytes) : Type 0 where
  pub value : value_from m' b (suc k) ≡ n
  pub digits : (j : ℕ) → j ≤ k → IsDigit (m' (b + j))
  pub leading : 1 ≤ k → m' (b + k) ≢ 48
  pub below : (j : ℕ) → j < b → m' j ≡ m j

Digits-one : (n b : ℕ) (m : Bytes) → n < 10 → Digits n b 0 m (update m b (n + char_0))
unfolding value_from
Digits-one n b m small = record {
  value = ground arith;
  digits = λ j le. ground arith;
  leading = λ h. absurd (omega arith);
  below = λ j lt. ground arith;
}

Digits-more :
    (n b k : ℕ) (m m' : Bytes)
    → 10 ≤ n
    → Digits (n / 10) (b + 1) k (update m b (n % 10 + char_0)) m'
    → Digits n b (suc k) m m'
unfolding value_from
Digits-more n b k m m' big d = record {
  value = omega (arith, first, d.value);
  digits = digit_at;
  leading = λ h. top k d;
  below = λ j lt. d.below j (omega arith) ∙ ground arith;
}
  where
    first : m' b ≡ n % 10 + char_0
    first = d.below b (omega arith) ∙ update_self m b (n % 10 + char_0)

    b_here : b ≡ b + 0
    b_here = omega arith

    later : (j : ℕ) → b + 1 + j ≡ b + suc j
    later j = omega arith

    one : b + 1 + 0 ≡ b + 1
    one = omega arith

    digit_at : (j : ℕ) → j ≤ suc k → IsDigit (m' (b + j))
    digit_at zero le = subst (λ a. IsDigit (m' a)) b_here (rw first (omega arith, omega arith))
    digit_at (suc j) le = subst (λ a. IsDigit (m' a)) (later j) (d.digits j (omega arith))

    top :
        (k : ℕ) → Digits (n / 10) (b + 1) k (update m b (n % 10 + char_0)) m' → m' (b + suc k) ≢ 48
    top zero e = λ z. omega (arith, e.value, big, sym z ∙ ap m' (sym (later 0)) ∙ ap m' one)
    top (suc k) e = λ z. e.leading (omega arith) (ap m' (later (suc k)) ∙ z)

pub store_loop-Digits :
    (fuel n b size : ℕ) (m : Bytes)
    → n ≤ fuel
    → let (last, at, size', m1) = store_loop fuel false n b size m in
      (k : ℕ) × (at ≡ b + k) × (size' ≡ size + k) × Digits n b k m (update m1 at (last + char_0))
unfolding store_loop
store_loop-Digits zero n b size m le = (0, omega arith, omega arith, Digits-one n b m (omega arith))
store_loop-Digits (suc fuel) n b size m le = elim (Bool-cases (n / 10 == 0)) [
  | inl done ↦ rw done (0, omega arith, omega arith, Digits-one n b m (ground (arith, done)))
  | inr more ↦
      let (k, at, size_at, d) =
        store_loop-Digits fuel (n / 10) (b + 1) (size + 1) (update m b (n % 10 + char_0))
          (omega arith) in
      rw more (
        suc k,
        omega (arith, at),
        omega (arith, size_at),
        Digits-more n b k m _ (ground (arith, more)) d,
      )
]

-- The same for the loop of `itoa`, in base 10.
pub digit_loop-Digits :
    (fuel n b len : ℕ) (m : Bytes)
    → n < fuel
    → let (p, len', m1) = digit_loop fuel false 10 n b len m in
      (k : ℕ) × (p ≡ b + suc k) × (len' ≡ len + suc k) × Digits n b k m m1
unfolding digit_loop
digit_loop-Digits zero n b len m lt = absurd (omega arith)
digit_loop-Digits (suc fuel) n b len m lt = elim (Bool-cases (n / 10 == 0)) [
  | inl done ↦
      rw (digit_below n, done)
        (
          0,
          omega arith,
          omega arith,
          subst (λ c. Digits n b 0 m (update m b c)) (small n (ground (arith, done)))
              (Digits-one n b m (ground (arith, done))),
        )
  | inr more ↦
      let (k, at, len_at, d) =
        digit_loop-Digits fuel (n / 10) (b + 1) (len + 1) (update m b (n % 10 + char_0))
          (ground (arith, more)) in
      rw (digit_below n, more)
        (
          suc k,
          omega (arith, at),
          omega (arith, len_at),
          Digits-more n b k m _ (ground (arith, more)) d,
        )
]
  where
    digit_below : (n : ℕ) → ltb (n % 10) 10 ≡ true
    digit_below n = ground arith

    small : (n : ℕ) → n < 10 → n + char_0 ≡ n % 10 + char_0
    small n lt = omega arith

-- Reading text: the value of digits, the first one first, after the value `acc`.
unfoldable pub list_value : ℕ → List ℕ → ℕ
list_value acc [] = acc
list_value acc (c ∷ cs) = list_value (acc * 10 + (c - char_0)) cs

list_value-emit_loop :
    (s b r : ℕ) (m : Bytes)
    → list_value (value_from m (b + s) r) (emit_loop s (b + s - 1) m) ≡ value_from m b (s + r)
unfolding list_value emit_loop value_from
list_value-emit_loop zero b r m =
    ap (λ a. value_from m a r) (omega arith) ∙ ap (value_from m b) (omega arith)
list_value-emit_loop (suc s) b r m =
    ap (λ a. list_value a (emit_loop s (b + suc s - 1 - 1) m))
      (omega (arith, ap m here, ap (λ a. value_from m a r) next))
    ∙ ap (λ a. list_value (value_from m (b + s) (suc r)) (emit_loop s a m)) before
    ∙ list_value-emit_loop s b (suc r) m
    ∙ ap (value_from m b) (omega arith)
  where
    here : b + suc s - 1 ≡ b + s
    here = omega arith

    next : b + suc s ≡ b + s + 1
    next = omega arith

    before : b + suc s - 1 - 1 ≡ b + s - 1
    before = omega arith

emit_loop-IsDigit :
    (s b : ℕ) (m : Bytes)
    → ((j : ℕ) → j < s → IsDigit (m (b + j)))
    → All IsDigit (emit_loop s (b + s - 1) m)
unfolding emit_loop
emit_loop-IsDigit zero b m d = tt
emit_loop-IsDigit (suc s) b m d = (
  subst (λ a. IsDigit (m a)) here (d s (omega arith)),
  subst (λ a. All IsDigit (emit_loop s a m)) before
      (emit_loop-IsDigit s b m (λ j lt. d j (omega arith))),
)
  where
    here : b + s ≡ b + suc s - 1
    here = omega arith

    before : b + s - 1 ≡ b + suc s - 1 - 1
    before = omega arith

-- Digits, one at least, that stand for `n`
abbrev pub IsDecimal : ℕ → List ℕ → Type 0
IsDecimal n xs = (list_value 0 xs ≡ n) × All IsDigit xs × (xs ≢ [])

-- Such digits, behind a '-' for a number below 0
abbrev pub IsNumeral : ℤ → List ℕ → Type 0
IsNumeral (pos n) xs = IsDecimal n xs
IsNumeral (negsuc n) xs = (ds : List ℕ) × (xs ≡ minus ∷ ds) × IsDecimal (suc n) ds

not_empty : (k buffer : ℕ) (m : Bytes) → emit_loop (suc k) buffer m ≢ []
unfolding emit_loop
not_empty k buffer m e = cc

-- `putNumber` of a number that is not negative puts out digits, and they stand for the number.
put_digits_lem : (n buffer : ℕ) (m : Bytes) → IsDecimal n (put_digits false n buffer m)
unfolding put_digits value_from
put_digits_lem n b m = go (store_loop-Digits n n b 0 m (omega arith))
  where
    at_end : ℕ
    at_end = (store_loop n false n b 0 m).1

    count : ℕ
    count = (store_loop n false n b 0 m).2

    stored : Bytes
    stored = update (store_loop n false n b 0 m).3 at_end ((store_loop n false n b 0 m).0 + char_0)

    placed :
        (k : ℕ)
        → at_end ≡ b + k
        → emit_loop (count + 1) at_end stored ≡ emit_loop (count + 1) (b + suc k - 1) stored
    placed k e = ap (λ a. emit_loop (count + 1) a stored) (e ∙ omega arith)

    counted :
        (k : ℕ)
        → count ≡ 0 + k
        → emit_loop (count + 1) (b + suc k - 1) stored ≡ emit_loop (suc k) (b + suc k - 1) stored
    counted k e =
        let one_more : count + 1 ≡ suc k = omega (arith, e) in
        ap (λ z. emit_loop z (b + suc k - 1) stored) one_more

    go :
        ((k : ℕ) × (at_end ≡ b + k) × (count ≡ 0 + k) × Digits n b k m stored)
        → IsDecimal n (put_digits false n b m)
    go (k, at, size, d) =
        let whole : suc k + 0 ≡ suc k = omega arith in
        subst (IsDecimal n) (sym (counted k size) ∙ sym (placed k at)) (
          list_value-emit_loop (suc k) b 0 stored ∙ ap (value_from stored b) whole ∙ d.value,
          emit_loop-IsDigit (suc k) b stored (λ j lt. d.digits j (omega arith)),
          not_empty k (b + suc k - 1) stored,
        )

-- What `putNumber` puts out is its argument in decimal, but for the least `int`.
pub put_number_lem :
    (n : ℤ) (buffer : ℕ) (m : Bytes) → magnitude n ≤ int_max → IsNumeral n (put_number n buffer m)
unfolding put_number
put_number_lem (pos n) buffer m small =
    let same : magnitude (pos n) ≡ n = omega arith in
    subst (λ k. IsDecimal k (put_digits false (magnitude (pos n)) buffer m)) same
      (put_digits_lem (magnitude (pos n)) buffer m)
put_number_lem (negsuc n) buffer m small =
    let back : negate (negsuc n) ≡ pos (suc n) = negate-fits n (omega (arith, small)) in
    let same : magnitude (pos (suc n)) ≡ suc n = omega arith in
    let out = λ (v : ℤ). put_digits (is_negative v) (magnitude v) buffer m in
    (
      out (negate (negsuc n)),
      refl,
      subst (IsDecimal (suc n)) (ap out (sym back)) (
          subst (λ k. IsDecimal k (out (pos (suc n)))) same
            (put_digits_lem (magnitude (pos (suc n))) buffer m)),
    )
