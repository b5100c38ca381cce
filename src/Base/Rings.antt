-- ===== src/Base/Rings.antt =====
-- Rings of `cap` places, with indices that go back to 0 by a test.
use Prim.Native.Nat.{ℕ, zero, suc, ◌+◌, ◌-◌, ◌≤◌, ◌<◌}
use mathlib.Core.Path.{◌≡◌, refl, sym, ap, ◌∙◌}
use mathlib.Core.List.{List, [], ◌∷◌, ◌++◌}
use native.Mathlib.Omega.{arith}
use gat_os_v.Base.Tests.{ltb, ◌==◌, if◌then◌else◌}
use gat_os_v.Base.Lists.{length}
use gat_os_v.Base.Store.{update, update_self, update_ne}

module _ (cap : ℕ) where
  -- The next place, and the place `n` places on.
  abbrev pub after : ℕ → ℕ
  after i = if i + 1 == cap then 0 else i + 1

  abbrev pub place : ℕ → ℕ → ℕ
  place i n = if ltb (i + n) cap then i + n else i + n - cap

module _ {ℓ} {A : Type ℓ} (cap : ℕ) where
  -- The entries of `n` places from `i` on.
  unfoldable pub stretch : (ℕ → A) → ℕ → ℕ → List A
  stretch ring i zero = []
  stretch ring i (suc n) = ring i ∷ stretch ring (after cap i) n

  pub length-stretch : (ring : ℕ → A) (i n : ℕ) → length (stretch ring i n) ≡ n
  unfolding stretch
  length-stretch ring i zero = refl
  length-stretch ring i (suc n) = ap suc (length-stretch ring (after cap i) n)

  pub stretch-append :
      (ring : ℕ → A) (i n : ℕ)
      → i < cap
      → n < cap
      → stretch ring i (suc n) ≡ stretch ring i n ++ ring (place cap i n) ∷ []
  unfolding stretch
  stretch-append ring i zero lt small = ap (λ j. ring j ∷ []) (ground arith)
  stretch-append ring i (suc n) lt small = ap (◌∷◌ (ring i)) (
      stretch-append ring (after cap i) n (ground arith) (omega arith)
      ∙ ap (λ j. stretch ring (after cap i) n ++ ring j ∷ []) (ground arith))

  -- A write behind a stretch leaves it alone.
  pub stretch-update :
      (ring : ℕ → A) (i n k : ℕ) (c : A) (j : ℕ)
      → i < cap
      → n ≤ k
      → k < cap
      → j ≡ place cap i k
      → stretch (update ring j c) i n ≡ stretch ring i n
  unfolding stretch
  stretch-update ring i zero k c j lt le small e = refl
  stretch-update ring i (suc n) k c j lt le small e =
      ap (λ x. x ∷ stretch (update ring j c) (after cap i) n)
        (update_ne ring j i c (λ d. ground (arith, d, e)))
      ∙ ap (◌∷◌ (ring i)) (
          stretch-update ring (after cap i) n (k - 1) c j (ground arith) (omega arith) (omega arith)
            (ground (arith, e)))

  -- A write right behind a stretch makes it longer.
  pub stretch-snoc :
      (ring : ℕ → A) (i n : ℕ) (c : A) (j : ℕ)
      → i < cap
      → n < cap
      → j ≡ place cap i n
      → stretch (update ring j c) i (suc n) ≡ stretch ring i n ++ c ∷ []
  stretch-snoc ring i n c j lt small e =
      stretch-append (update ring j c) i n lt small
      ∙ ap (λ xs. xs ++ update ring j c (place cap i n) ∷ [])
          (stretch-update ring i n n c j lt (omega arith) small e)
      ∙ ap (λ k. stretch ring i n ++ update ring j c k ∷ []) (sym e)
      ∙ ap (λ x. stretch ring i n ++ x ∷ []) (update_self ring j c)

  pub stretch_eq :
      (ring : ℕ → A) (i j n k : ℕ) → i ≡ j → n ≡ k → stretch ring i n ≡ stretch ring j k
  stretch_eq ring i j n k e f = ap (λ a. stretch ring a n) e ∙ ap (stretch ring j) f
