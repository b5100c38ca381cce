-- ===== src/Buddy/Level.antt =====
-- `getLevel`: the level whose blocks are the smallest that hold the pages asked for.
use native.Mathlib.Nat.{pow-suc, pow-le-pow_right}
use gat_os_v.Base.{
  ℕ, zero, suc, ◌+◌, ◌-◌, ◌*◌, ◌/◌, ◌%◌, ◌^◌, ◌≤◌, ◌<◌, ◌≡◌, ◌⊎◌, inl, inr, arith, ap, ap₂, ◌∙◌,
  some, ◌==◌, Bool-cases, if◌then◌else◌,
}
use gat_os_v.Buddy.{Buddy, number_of_pages, halving_loop, level_above, get_level}

-- `c` is the logarithm of `n` to the base 2, rounded up.
pub record IsLog (n c : ℕ) : Type 0 where
  pub holds : n ≤ 2 ^ c
  pub least : 2 ^ c < 2 * n

pow_parity : (c : ℕ) → (2 ^ c ≡ 1) ⊎ (2 ^ c % 2 ≡ 0)
pow_parity zero = inl (omega arith)
pow_parity (suc c) = inr (omega (arith, pow-suc 2 c))

IsLog-half : (n c : ℕ) → 1 < n → IsLog (if n % 2 == 1 then n / 2 + 1 else n / 2) c → IsLog n (suc c)
IsLog-half n c h v = elim (pow_parity c) [
  | inl e ↦ ground (arith, pow-suc 2 c)
  | inr e ↦ ground (arith, pow-suc 2 c)
]

pub halving_loop-IsLog :
    (fuel n i : ℕ) → 1 ≤ n → n ≤ fuel → (c : ℕ) × (halving_loop fuel n i ≡ some (i + c)) × IsLog n c
unfolding halving_loop
halving_loop-IsLog zero n i h f = absurd (omega arith)
halving_loop-IsLog (suc fuel) n i h f = elim (Bool-cases (n == 1)) [
  | inl e ↦ (0, rw e (ap some (omega arith)), record { holds = ground arith; least = ground arith })
  | inr e ↦
      let half : ℕ = if n % 2 == 1 then n / 2 + 1 else n / 2 in
      let (c, eq, v) = halving_loop-IsLog fuel half (i + 1) (ground arith) (ground arith) in
      (suc c, rw e (eq ∙ ap some (omega arith)), IsLog-half n c (ground arith) v)
]

pub IsLog-le : (n c : ℕ) → n ≤ 1024 → IsLog n c → c ≤ 10
IsLog-le n c h v = elim (cases c) [ inl le ↦ le | inr ge ↦ absurd (omega (arith, big ge)) ]
  where
    cases : (c : ℕ) → (c ≤ 10) ⊎ (11 ≤ c)
    cases c = grind arith

    big : 11 ≤ c → 2 ^ 11 ≤ 2 ^ c
    big ge = pow-le-pow_right (omega arith) ge

-- In a heap of 11 levels the level for 1 to 1024 pages is one of the tree, its blocks of
-- `2 ^ (11 - level)` pages hold the pages asked for, and blocks of half that size would not.
pub get_level-IsLog :
    (b : Buddy) (pages : ℕ)
    → b.heap_level ≡ 11
    → 1 ≤ pages
    → pages ≤ number_of_pages
    → (level : ℕ) × (get_level b pages ≡ some level)
      × (1 ≤ level)
      × (level ≤ 11)
      × IsLog pages (11 - level)
unfolding get_level
get_level-IsLog b pages e h le =
    let (c, eq, v) = halving_loop-IsLog pages pages 0 h (omega arith) in
    let small = IsLog-le pages c (omega arith) v in
    (11 - (0 + c), ap₂ level_above e eq, omega arith, omega arith, rw (back c small) v)
  where
    back : (c : ℕ) → c ≤ 10 → 11 - (11 - (0 + c)) ≡ c
    back c le = omega arith
