-- ===== src/Buddy/Layout.antt =====
-- `createHeap`: an empty tree of 11 levels, and the address of each node.
use native.Mathlib.Nat.{add_comm, pow-suc, pow-le-pow_right}
use gat_os_v.Base.{
  ℕ, zero, suc, ◌+◌, ◌-◌, ◌*◌, ◌/◌, ◌^◌, ◌≤◌, ◌<◌, ◌≡◌, ◌⊎◌, inl, inr, arith, pow-pos, ap, ◌∙◌,
  ◌==◌, Bool-cases, refl, update_self, update_ne,
}
use gat_os_v.Buddy.{
  memory, base_memory, heap_size, empty, Buddy, Cursor, next_level, fill_entry,
  get_base_memory_with_index, create_loop, create_heap,
}

-- The address of node `2 ^ d + e`, the `e`-th of the level at depth `d`.
abbrev pub layout : ℕ → ℕ → ℕ
layout d e = base_memory + memory / 2 ^ d * e

-- What the loop has done when `i` entries are filled.
record Filled (c : Cursor) (b : Buddy) : Type 0 where
  level_pos : 1 ≤ c.level
  max_pow : c.max ≡ 2 ^ (c.level - 1)
  split : c.i + 1 ≡ c.max + c.current
  within : c.current ≤ c.max
  begun : 1 ≤ c.i → 1 ≤ c.current
  empties : (j : ℕ) → j < c.i → b.occupied j ≡ empty
  placed : (d e j : ℕ) → e < 2 ^ d → j + 1 ≡ 2 ^ d + e → j < c.i → b.base j ≡ layout d e

-- After the level test the entry belongs to the current level.
record AtEntry (c : Cursor) (b : Buddy) : Type 0 where
  level_pos : 1 ≤ c.level
  max_pow : c.max ≡ 2 ^ (c.level - 1)
  split : c.i + 1 ≡ c.max + c.current
  within : c.current < c.max
  empties : (j : ℕ) → j < c.i → b.occupied j ≡ empty
  placed : (d e j : ℕ) → e < 2 ^ d → j + 1 ≡ 2 ^ d + e → j < c.i → b.base j ≡ layout d e

pow_up : (l : ℕ) → 1 ≤ l → 2 ^ (l + 1 - 1) ≡ 2 ^ (l - 1) * 2
pow_up l h = ap (◌^◌ 2) (back l h) ∙ pow-suc 2 (l - 1)
  where
    back : (l : ℕ) → 1 ≤ l → l + 1 - 1 ≡ suc (l - 1)
    back l h = omega arith

next_level-AtEntry : (c : Cursor) (b : Buddy) → Filled c b → AtEntry (next_level c) b
next_level-AtEntry c b f = elim (Bool-cases (c.max == c.current)) [
  | inl e ↦ rw e (record {
    level_pos = omega arith;
    max_pow = omega (arith, f.max_pow, pow_up c.level f.level_pos);
    split = ground (arith, f.split);
    within = ground (arith, f.max_pow, pow-pos (c.level - 1));
    empties = f.empties;
    placed = f.placed;
  })
  | inr e ↦ rw e (record {
    level_pos = f.level_pos;
    max_pow = f.max_pow;
    split = f.split;
    within = ground (arith, f.within);
    empties = f.empties;
    placed = f.placed;
  })
]

pow_mono : (d d' : ℕ) → d < d' → 2 ^ d + 2 ^ d ≤ 2 ^ d'
pow_mono d d' h = omega (arith, pow-suc 2 d, pow-le-pow_right {n = 2} (omega arith) h)

depth_unique : (d d' e e' : ℕ) → e < 2 ^ d → e' < 2 ^ d' → 2 ^ d + e ≡ 2 ^ d' + e' → d ≡ d'
depth_unique d d' e e' h h' eq = elim (cases d d') [
  | inl same ↦ same
  | inr (inl lt) ↦ absurd (omega (arith, pow_mono d d' lt))
  | inr (inr gt) ↦ absurd (omega (arith, pow_mono d' d gt))
]
  where
    cases : (a b : ℕ) → (a ≡ b) ⊎ ((a < b) ⊎ (b < a))
    cases a b = grind arith

-- The entry just written is the one that `layout` gives.
new_entry :
    (c : Cursor) (b : Buddy) (d e : ℕ)
    → AtEntry c b
    → e < 2 ^ d
    → c.i + 1 ≡ 2 ^ d + e
    → get_base_memory_with_index (c.i + 1) c.max c.current ≡ layout d e
unfolding get_base_memory_with_index
new_entry c b d e f small eq =
    let same : c.level - 1 ≡ d =
      depth_unique (c.level - 1) d c.current e (omega (arith, f.max_pow, f.within)) small
        (omega (arith, f.max_pow, f.split)) in
    let pow : c.max ≡ 2 ^ d = f.max_pow ∙ ap (◌^◌ 2) same in
    let offset : c.current ≡ e = omega (arith, f.split) in rw (pow, offset) (add_comm _ _)

fill_entry-Filled :
    (c : Cursor) (b : Buddy)
    → AtEntry c b
    → Filled (record c { i = c.i + 1; current = c.current + 1 }) (fill_entry b c)
fill_entry-Filled c b f = record {
  level_pos = f.level_pos;
  max_pow = f.max_pow;
  split = omega (arith, f.split);
  within = omega (arith, f.within);
  begun = λ h. omega arith;
  empties = λ j lt. elim (le_cases j c.i lt) [
    | inl e ↦ rw e (update_self b.occupied c.i empty)
    | inr below ↦ update_ne b.occupied c.i j empty (λ e. absurd (omega arith)) ∙ f.empties j below
  ];
  placed = λ d e j small eq lt. elim (le_cases j c.i lt) [
    | inl same ↦ rw same (update_self b.base c.i _) ∙ new_entry c b d e f small (omega arith)
    | inr below ↦
        update_ne b.base c.i j _ (λ same. absurd (omega arith)) ∙ f.placed d e j small eq below
  ];
}
  where
    le_cases : (j i : ℕ) → j < i + 1 → (j ≡ i) ⊎ (j < i)
    le_cases j i h = grind arith

i-next_level : (c : Cursor) → (next_level c).i ≡ c.i
i-next_level c = ground arith

create_loop-Filled :
    (r : ℕ) (c : Cursor) (b : Buddy)
    → Filled c b
    → let (c', b') = create_loop r c b in Filled c' b' × (c'.i ≡ c.i + r)
unfolding create_loop
create_loop-Filled zero c b f = (f, omega arith)
create_loop-Filled (suc r) c b f =
    let c1 = next_level c in
    let (g, e) =
      create_loop-Filled r (record c1 { i = c1.i + 1; current = c1.current + 1 }) (fill_entry b c1)
        (fill_entry-Filled c1 b (next_level-AtEntry c b f)) in
    (g, omega (arith, e, i-next_level c))

start-Filled : (b : Buddy) → Filled (record { i = 0; level = 1; current = 0; max = 1 }) b
start-Filled b = record {
  level_pos = omega arith;
  max_pow = refl;
  split = refl;
  within = omega arith;
  begun = λ h. absurd (omega arith);
  empties = λ j lt. absurd (omega arith);
  placed = λ d e j small eq lt. absurd (omega arith);
}

-- A tree as `createHeap` leaves it: every node at its place.
pub record IsLaidOut (b : Buddy) : Type 0 where
  pub levels : b.heap_level ≡ 11
  pub placed : (d e : ℕ) → e < 2 ^ d → d ≤ 10 → b.base (2 ^ d + e - 1) ≡ layout d e

last_level :
    (l max current : ℕ)
    → 1 ≤ l
    → max ≡ 2 ^ (l - 1)
    → max + current ≡ 2048
    → 1 ≤ current
    → current ≤ max
    → l ≡ 11
last_level l max current h p s pos le = elim (cases l) [
  | inl e ↦ e
  | inr (inl lt) ↦ absurd (omega (arith, pow-le-pow_right {n = 2} (omega arith) (low l h lt)))
  | inr (inr gt) ↦ absurd (omega (arith, pow-le-pow_right {n = 2} (omega arith) (high l gt)))
]
  where
    low : (l : ℕ) → 1 ≤ l → l < 11 → l - 1 ≤ 9
    low l h lt = omega arith

    high : (l : ℕ) → 11 < l → 11 ≤ l - 1
    high l gt = omega arith

    cases : (l : ℕ) → (l ≡ 11) ⊎ ((l < 11) ⊎ (11 < l))
    cases l = grind arith

-- `createHeap` leaves every node EMPTY and at its place in the memory.
pub create_heap_lem :
    (b : Buddy)
    → IsLaidOut (create_heap b) × ((j : ℕ) → j < heap_size → (create_heap b).occupied j ≡ empty)
unfolding create_heap
create_heap_lem b =
    let (f, e) =
      create_loop-Filled heap_size (record { i = 0; level = 1; current = 0; max = 1 }) b
        (start-Filled b) in
    (
      record {
        levels =
            last_level _ _ _ f.level_pos f.max_pow (omega (arith, f.split, e))
              (f.begun (omega (arith, e))) f.within;
        placed = λ d i small le.
            f.placed d i (2 ^ d + i - 1) small (omega (arith, pow-pos d))
              (omega (arith, e, pow-le-pow_right {n = 2} (omega arith) le));
      },
      λ j lt. f.empties j (omega (arith, e)),
    )
