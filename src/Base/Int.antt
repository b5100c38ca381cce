-- ===== src/Base/Int.antt =====
-- Signed integers over the native numbers, under the library's names.
use Prim.Native.Nat.{ℕ, suc, ◌+◌, ◌-◌, ◌≤◌}
use mathlib.Core.Path.{◌≡◌, ap, ◌∙◌}
use mathlib.Core.Bool.{Bool, true, false}
use native.Mathlib.Omega.{arith}
use gat_os_v.Base.Tests.{ltb, leb, ◌==◌, if◌then◌else◌}

-- `negsuc n` is -(n + 1).
pub data ℤ : Type 0 where
  pos : ℕ → ℤ
  negsuc : ℕ → ℤ

abbrev pub pos_part : ℤ → ℕ
pos_part (pos n) = n
pos_part (negsuc n) = 0

abbrev pub neg_part : ℤ → ℕ
neg_part (pos n) = 0
neg_part (negsuc n) = suc n

-- a - b, as an integer.
abbrev pub sub_ℕ : ℕ → ℕ → ℤ
sub_ℕ a b = if leb b a then pos (a - b) else negsuc (b - a - 1)

infixl 65 ◌+ℤ◌ ◌-ℤ◌
infix 50 ◌≤ℤ◌
unfoldable pub ◌+ℤ◌ : ℤ → ℤ → ℤ
a +ℤ b = sub_ℕ (pos_part a + pos_part b) (neg_part a + neg_part b)

unfoldable pub ◌-ℤ◌ : ℤ → ℤ → ℤ
a -ℤ b = sub_ℕ (pos_part a + neg_part b) (neg_part a + pos_part b)

abbrev pub ◌≤ℤ◌ : ℤ → ℤ → Type 0
a ≤ℤ b = pos_part a + neg_part b ≤ pos_part b + neg_part a

abbrev pub ltb_ℤ : ℤ → ℤ → Bool
ltb_ℤ a b = ltb (pos_part a + neg_part b) (pos_part b + neg_part a)

-- One lemma for each operation lets `omega` work with the operations shut, at any depth.
pub +ℤ_parts :
    (a b : ℤ)
    → pos_part (a +ℤ b) + neg_part a + neg_part b ≡ neg_part (a +ℤ b) + pos_part a + pos_part b
unfolding ◌+ℤ◌
+ℤ_parts a b = ground arith

pub -ℤ_parts :
    (a b : ℤ)
    → pos_part (a -ℤ b) + neg_part a + pos_part b ≡ neg_part (a -ℤ b) + pos_part a + neg_part b
unfolding ◌-ℤ◌
-ℤ_parts a b = ground arith

pub eq_of_parts : (a b : ℤ) → pos_part a + neg_part b ≡ pos_part b + neg_part a → a ≡ b
eq_of_parts a b h = ground arith

abbrev pub is_zero : ℤ → Bool
is_zero (pos n) = n == 0
is_zero (negsuc n) = false

abbrev pub is_negative : ℤ → Bool
is_negative (pos n) = false
is_negative (negsuc n) = true

-- One step up and one step down.
pub up_neg : (v : ℤ) → neg_part (v +ℤ pos 1) ≡ neg_part v - 1
unfolding ◌+ℤ◌
up_neg (pos n) = ground arith
up_neg (negsuc n) = ground arith

pub down_neg : (v : ℤ) → pos_part v ≡ 0 → v -ℤ pos 1 ≡ negsuc (neg_part v)
unfolding ◌-ℤ◌
down_neg (pos n) h = ground arith
down_neg (negsuc n) h = ground arith

pub down_pos : (n : ℕ) → pos (suc n) -ℤ pos 1 ≡ pos n
unfolding ◌-ℤ◌
down_pos n = ground arith

abbrev pub eq_ℤ : ℤ → ℤ → Bool
eq_ℤ (pos a) (pos b) = a == b
eq_ℤ (pos a) (negsuc b) = false
eq_ℤ (negsuc a) (pos b) = false
eq_ℤ (negsuc a) (negsuc b) = a == b

pub pos_up : (n : ℕ) → pos n +ℤ pos 1 ≡ pos (n + 1)
unfolding ◌+ℤ◌
pos_up n = ground arith

pub pos_down : (n : ℕ) → 1 ≤ n → pos n -ℤ pos 1 ≡ pos (n - 1)
unfolding ◌-ℤ◌
pos_down n h = ground arith

pub pos_sum : (a b : ℕ) → pos a +ℤ pos b ≡ pos (a + b)
unfolding ◌+ℤ◌
pos_sum a b = ground arith

pub pos_diff : (a b : ℕ) → b ≤ a → pos a -ℤ pos b ≡ pos (a - b)
unfolding ◌-ℤ◌
pos_diff a b le = ground arith

-- The greatest `int`; the least is one more below zero.
abbrev pub int_max : ℕ
int_max = 2147483647

-- The `int` that an addition or a negation leaves. Out of its range C leaves the result undefined, and
-- the machine keeps the low 32 bits.
unfoldable pub to_int : ℤ → ℤ
to_int z =
    if ltb_ℤ (pos int_max) z
    then z -ℤ pos 4294967296
    else if ltb_ℤ z (negsuc int_max)
    then z +ℤ pos 4294967296
    else z

pub to_int-fits : (z : ℤ) → pos_part z ≤ int_max → neg_part z ≤ int_max + 1 → to_int z ≡ z
unfolding to_int
to_int-fits (pos n) hi lo = ground arith
to_int-fits (negsuc n) hi lo = ground arith

pub up_pos : (v : ℤ) → pos_part (v +ℤ pos 1) ≤ pos_part v + 1
unfolding ◌+ℤ◌
up_pos (pos n) = ground arith
up_pos (negsuc n) = ground arith

-- `-n` on `int`
unfoldable pub negate : ℤ → ℤ
negate n = to_int (pos 0 -ℤ n)

negated_parts : (n : ℕ) → pos 0 -ℤ negsuc n ≡ pos (suc n)
unfolding ◌-ℤ◌
negated_parts n = ground arith

pub negate-fits : (n : ℕ) → suc n ≤ int_max → negate (negsuc n) ≡ pos (suc n)
unfolding negate
negate-fits n small = ap to_int (negated_parts n) ∙ to_int-fits (pos (suc n)) small (omega arith)
