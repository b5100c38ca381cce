-- ===== src/Buddy/Pages.antt =====
-- The nodes above a page, and the pages of a block.
use native.Mathlib.Nat.{pow-suc}
use gat_os_v.Base.{
  ℕ, zero, suc, ◌+◌, ◌-◌, ◌*◌, ◌/◌, ◌^◌, ◌≤◌, ◌<◌, ◌≡◌, ◌⊎◌, inl, inr, arith, sym, ap, ◌∙◌,
}
use gat_os_v.Buddy.Walk.{above}

-- `leaf` is the node of a page of the block of node `n`.
pub record Under (leaf n : ℕ) : Type 0 where
  pub steps : ℕ
  pub reaches : above steps leaf ≡ n

pub above-add : (j k m : ℕ) → above (j + k) m ≡ above j (above k m)
above-add zero k m = ap (λ t. above t m) (omega arith)
above-add (suc j) k m = ap (λ t. above t m) (suc_add j k) ∙ ap (λ t. t / 2) (above-add j k m)
  where
    suc_add : (j k : ℕ) → suc j + k ≡ suc (j + k)
    suc_add j k = omega arith

-- Of two nodes above one leaf, one is above the other.
pub Under-chain :
    (leaf n m : ℕ)
    → Under leaf n
    → Under leaf m
    → ((j : ℕ) × (above j n ≡ m)) ⊎ ((j : ℕ) × (above j m ≡ n))
Under-chain leaf n m u v = elim (order u.steps v.steps) [
  | inl (k, e) ↦ inl (k, chain u.steps v.steps k n m e u.reaches v.reaches)
  | inr (k, e) ↦ inr (k, chain v.steps u.steps k m n e v.reaches u.reaches)
]
  where
    order : (i j : ℕ) → ((k : ℕ) × (j ≡ k + i)) ⊎ ((k : ℕ) × (i ≡ k + j))
    order i j = elim (le_total i j) [
      | inl h ↦ inl (j - i, omega arith)
      | inr h ↦ inr (i - j, omega arith)
    ]
      where
        le_total : (i j : ℕ) → (i ≤ j) ⊎ (j ≤ i)
        le_total i j = omega arith

    chain : (i j k n m : ℕ) → j ≡ k + i → above i leaf ≡ n → above j leaf ≡ m → above k n ≡ m
    chain i j k n m e p q = rw (← p) (sym (above-add k i leaf) ∙ ap (λ t. above t leaf) (sym e) ∙ q)

-- The `k`-th of the nodes `j` levels below `n`.
pub above-block : (j n k : ℕ) → k < 2 ^ j → above j (n * 2 ^ j + k) ≡ n
above-block zero n k h = omega arith
above-block (suc j) n k h = elim (halves k) [
  | inl lt ↦
      ap (λ t. t / 2)
        (ap (above j) (omega (arith, pow-suc 2 j, ap (λ t. n * t) (pow-suc 2 j)))
          ∙ above-block j (n * 2) k lt)
      ∙ even n
  | inr ge ↦
      ap (λ t. t / 2)
        (ap (above j) (omega (arith, pow-suc 2 j, ap (λ t. n * t) (pow-suc 2 j)))
          ∙ above-block j (n * 2 + 1) (k - 2 ^ j) (omega (arith, pow-suc 2 j)))
      ∙ odd n
]
  where
    halves : (k : ℕ) → (k < 2 ^ j) ⊎ (2 ^ j ≤ k)
    halves k = grind arith

    even : (n : ℕ) → n * 2 / 2 ≡ n
    even n = omega arith

    odd : (n : ℕ) → (n * 2 + 1) / 2 ≡ n
    odd n = omega arith
