-- ===== src/Base/Powers.antt =====
-- Powers of two.
use Prim.Native.Nat.{ℕ, zero, suc, ◌+◌, ◌*◌, ◌^◌, ◌≤◌}
use mathlib.Core.Path.{◌≡◌, ap, ◌∙◌}
use native.Mathlib.Nat.{pow-suc}
use native.Mathlib.Omega.{arith}

pub pow-pos : (k : ℕ) → 1 ≤ 2 ^ k
pow-pos zero = omega arith
pow-pos (suc k) = omega (arith, pow-suc 2 k, pow-pos k)

pub pow-mul : (a b : ℕ) → 2 ^ a * 2 ^ b ≡ 2 ^ (a + b)
pow-mul zero b = omega (arith, ap (◌^◌ 2) (zero_add b))
  where
    zero_add : (b : ℕ) → 0 + b ≡ b
    zero_add b = omega arith
pow-mul (suc a) b =
    ap (λ t. t * 2 ^ b) (pow-suc 2 a)
    ∙ omega (arith, ap (λ t. t * 2) (pow-mul a b), pow-suc 2 (a + b), ap (◌^◌ 2) (suc_add a b))
  where
    suc_add : (a b : ℕ) → suc a + b ≡ suc (a + b)
    suc_add a b = omega arith
