-- ===== src/Text/Itoa.antt =====
-- `itoa` in base 10: the string that it leaves in memory.
use gat_os_v.Base.{
  ℕ, zero, suc, ◌+◌, ◌-◌, ◌*◌, ◌≤◌, ◌<◌, ◌≡◌, inl, inr, true, false, ◌&&◌, arith, refl, sym, subst,
  ap, ◌∙◌, ltb, leb, Bool-cases, ◌==◌, if◌then◌else◌, update, ℤ, pos, negsuc, sub_ℕ, int_max,
  negate, negate-fits, is_negative,
}
use gat_os_v.Copy.{Bytes}
use gat_os_v.Text.{minus, char_0, magnitude, swap_loop, write_digits, itoa}
use gat_os_v.Text.Digits.{value_from, IsDigit, Digits, digit_loop-Digits}

-- The bytes from `p1` to `p2` the other way round.
abbrev pub turned : ℕ → ℕ → Bytes → Bytes
turned p1 p2 m j = if leb p1 j && leb j p2 then m (p1 + p2 - j) else m j

turned_short : (p1 p2 : ℕ) (m : Bytes) (j : ℕ) → p2 ≤ p1 → m j ≡ turned p1 p2 m j
turned_short p1 p2 m j le = ground (arith, λ (e : j ≡ p1 + p2 - j). ap m e)

-- To turn the inner bytes and to exchange the outer ones.
turned_outer :
    (p1 p2 : ℕ) (m : Bytes) (j : ℕ)
    → p1 < p2
    → turned (p1 + 1) (p2 - 1) (update (update m p1 (m p2)) p2 (m p1)) j ≡ turned p1 p2 m j
turned_outer p1 p2 m j lt = ground (
  arith,
  λ (e : p1 + 1 + (p2 - 1) - j ≡ p1 + p2 - j). ap m e,
  λ (e : p2 ≡ p1 + p2 - j). ap m e,
  λ (e : p1 ≡ p1 + p2 - j). ap m e,
)

swap_loop-turned :
    (fuel p1 p2 : ℕ) (m : Bytes) (j : ℕ)
    → p2 ≤ p1 + fuel
    → swap_loop fuel p1 p2 m j ≡ turned p1 p2 m j
unfolding swap_loop
swap_loop-turned zero p1 p2 m j le = turned_short p1 p2 m j (omega arith)
swap_loop-turned (suc fuel) p1 p2 m j le = elim (Bool-cases (ltb p1 p2)) [
  | inl apart ↦ rw apart (
      swap_loop-turned fuel (p1 + 1) (p2 - 1) (update (update m p1 (m p2)) p2 (m p1)) j
        (ground (arith, apart))
      ∙ turned_outer p1 p2 m j (ground (arith, apart)))
  | inr met ↦ rw met (turned_short p1 p2 m j (ground (arith, met)))
]

-- The number whose `k` digits lie from `p` on, the first one first.
unfoldable pub value_ahead : Bytes → ℕ → ℕ → ℕ
value_ahead m p zero = 0
value_ahead m p (suc k) = value_ahead m p k * 10 + (m (p + k) - char_0)

value_ahead-value_from :
    (m m' : Bytes) (p k i : ℕ)
    → ((j : ℕ) → j ≤ k → m' (p + j) ≡ m (p + (k - j)))
    → i ≤ suc k
    → value_ahead m' p i ≡ value_from m (p + (suc k - i)) i
unfolding value_ahead value_from
value_ahead-value_from m m' p k zero turn le = refl
value_ahead-value_from m m' p k (suc i) turn le = omega (
  arith,
  value_ahead-value_from m m' p k i turn (omega arith),
  turn i (omega arith),
  ap m here,
  ap (λ a. value_from m a i) next,
)
  where
    here : p + (k - i) ≡ p + (suc k - suc i)
    here = omega arith

    next : p + (suc k - i) ≡ p + (suc k - suc i) + 1
    next = omega arith

-- A string of decimal digits with a 0 behind it, `k + 1` digits from `str` on.
record Written (n str k : ℕ) (m m' : Bytes) : Type 0 where
  value : value_ahead m' str (suc k) ≡ n
  digits : (j : ℕ) → j ≤ k → IsDigit (m' (str + j))
  ended : m' (str + suc k) ≡ 0
  below : (j : ℕ) → j < str → m' j ≡ m j

turned-Written :
    (n str k p : ℕ) (m m1 : Bytes)
    → p ≡ str + suc k
    → Digits n str k m m1
    → Written n str k m (swap_loop (p - str) str (p - 1) (update m1 p 0))
turned-Written n str k p m m1 at d = record {
  value =
      value_ahead-value_from m1 out str k (suc k) mirrored (omega arith)
      ∙ ap (λ a. value_from m1 a (suc k)) whole
      ∙ d.value;
  digits = λ j le. subst IsDigit (sym (mirrored j le)) (d.digits (k - j) (omega arith));
  ended = turns (str + suc k) ∙ ground (arith, at);
  below = λ j lt. turns j ∙ ground (arith, at, d.below j lt);
}
  where
    out : Bytes
    out = swap_loop (p - str) str (p - 1) (update m1 p 0)

    turns : (j : ℕ) → out j ≡ turned str (p - 1) (update m1 p 0) j
    turns j = swap_loop-turned (p - str) str (p - 1) (update m1 p 0) j (omega (arith, at))

    same : (a b : ℕ) → a ≡ b → m1 a ≡ m1 b
    same a b e = ap m1 e

    mirrored : (j : ℕ) → j ≤ k → out (str + j) ≡ m1 (str + (k - j))
    mirrored j le =
        turns (str + j) ∙ ground (arith, at, same (str + (p - 1) - (str + j)) (str + (k - j)))

    whole : str + (suc k - suc k) ≡ str
    whole = omega arith

write_digits-Written :
    (n str len : ℕ) (m : Bytes)
    → let (len', m') = write_digits false 10 n str len m in
      (k : ℕ) × (len' ≡ len + suc k) × Written n str k m m'
unfolding write_digits
write_digits-Written n str len m =
    let (k, at, len_at, d) = digit_loop-Digits (suc n) n str len m (omega arith) in
    (k, len_at, turned-Written n str k _ m _ at d)

-- The integer that a string of `len` bytes at `str` stands for.
unfoldable pub string_value : Bytes → ℕ → ℕ → ℤ
unfolding value_ahead
string_value m str len =
    if m str == minus
    then sub_ℕ 0 (value_ahead m (str + 1) (len - 1))
    else pos (value_ahead m str len)

abbrev pub sign_bytes : ℤ → ℕ
sign_bytes (pos n) = 0
sign_bytes (negsuc n) = 1

-- The string of `len` bytes at `str` is digits, one at least, behind a '-' where `v` is below 0. It
-- stands for `v`, ends in a 0, and nothing below it is written.
abbrev pub Spelled : ℤ → ℕ → Bytes → ℕ × Bytes → Type 0
Spelled v str m out =
    (string_value out.1 str out.0 ≡ v)
    × (sign_bytes v < out.0)
    × ((j : ℕ) → sign_bytes v ≤ j → j < out.0 → IsDigit (out.1 (str + j)))
    × (out.1 (str + out.0) ≡ 0)
    × ((j : ℕ) → j < str → out.1 j ≡ m j)

Spelled-plain :
    (n str k : ℕ) (m : Bytes) (out : ℕ × Bytes)
    → out.0 ≡ 0 + suc k
    → Written n str k m out.1
    → Spelled (pos n) str m out
unfolding string_value
Spelled-plain n str k m out len w =
    let front : str + 0 ≡ str = omega arith in
    let first : IsDigit (out.1 str) =
      subst (λ a. IsDigit (out.1 a)) front (w.digits 0 (omega arith)) in
    let no_sign : (out.1 str == minus) ≡ false = ground (arith, first) in
    let whole : out.0 ≡ suc k = omega (arith, len) in
    (
      rw no_sign (ap pos (ap (value_ahead out.1 str) whole ∙ w.value)),
      omega (arith, whole),
      λ j le lt. w.digits j (omega (arith, whole)),
      ap (λ l. out.1 (str + l)) whole ∙ w.ended,
      w.below,
    )

Spelled-minus :
    (n str k : ℕ) (m : Bytes) (out : ℕ × Bytes)
    → out.0 ≡ 1 + suc k
    → Written (suc n) (str + 1) k (update m str minus) out.1
    → Spelled (negsuc n) str m out
unfolding string_value
Spelled-minus n str k m out len w =
    let sign : (out.1 str == minus) ≡ true = ground (arith, w.below str (omega arith)) in
    let whole : out.0 - 1 ≡ suc k = omega (arith, len) in
    let end : str + out.0 ≡ str + 1 + suc k = omega (arith, len) in
    let below_zero : sub_ℕ 0 (suc n) ≡ negsuc n = ground arith in
    (
      rw sign (ap (sub_ℕ 0) (ap (value_ahead out.1 (str + 1)) whole ∙ w.value) ∙ below_zero),
      omega (arith, len),
      λ j le lt.
          let place : str + 1 + (j - 1) ≡ str + j = omega (arith, le) in
          subst (λ a. IsDigit (out.1 a)) place (w.digits (j - 1) (omega (arith, le, lt, len))),
      ap out.1 end ∙ w.ended,
      λ j lt. w.below j (omega arith) ∙ ground arith,
    )

-- In base 10, and for an `int` other than the least one, `itoa` writes the digits of the value, behind a
-- '-' where it is below 0, with a 0 behind them, returns the number of bytes before that 0, and writes
-- nothing below the string. Read as a number the string is the value.
pub itoa_lem :
    (value : ℤ) (str : ℕ) (m : Bytes)
    → magnitude value ≤ int_max
    → Spelled value str m (itoa value str 10 m)
unfolding itoa
itoa_lem (pos n) str m small =
    let (k, len, w) = write_digits-Written (magnitude (pos n)) str 0 m in
    let v : pos (magnitude (pos n)) ≡ pos n = ap pos (omega arith) in
    subst (λ v. Spelled v str m (write_digits false 10 (magnitude (pos n)) str 0 m)) v
      (Spelled-plain (magnitude (pos n)) str k m _ len w)
itoa_lem (negsuc n) str m small =
    let back : negate (negsuc n) ≡ pos (suc n) = negate-fits n (omega (arith, small)) in
    let same : suc n ≡ magnitude (pos (suc n)) = omega arith in
    let out =
      λ (v : ℤ). write_digits (is_negative v) 10 (magnitude v) (str + 1) 1 (update m str minus) in
    let (k, len, w) = write_digits-Written (suc n) (str + 1) 1 (update m str minus) in
    subst (Spelled (negsuc n) str m) (ap out (sym back)) (
      subst
        (λ v. Spelled (negsuc n) str m (write_digits false 10 v (str + 1) 1 (update m str minus)))
        same (Spelled-minus n str k m _ len w))
