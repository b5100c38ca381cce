-- ===== src/Block/Layout.antt =====
-- The blocks of one region of memory, back to back, as the list of their sizes and marks.
use gat_os_v.Base.{
  ℕ, zero, suc, ◌+◌, ◌-◌, ◌≤◌, ◌<◌, ◌≡◌, Bool, ◌&&◌, not, Option, none, some, List, [], ◌∷◌, arith,
  refl, sym, ap, ap₂, ◌∙◌, subst, length, ◌==◌, ltb, if◌then◌else◌, Bool-cases, inl, inr,
  ne→==-false,
}
use gat_os_v.Buddy.{null}
use gat_os_v.Block.{Block, Blocks, block_struct_size, data_start, fits, find_first_free_block}

-- The size of a block and its mark `free`.
abbrev pub Cell : Type 0
Cell = ℕ × ℕ

-- The pointer `p` leads to the blocks `cells`, back to back from `a` on, the last with next NULL.
abbrev pub Lays : Blocks → ℕ → ℕ → List Cell → Type 0
Lays m p a [] = p ≡ null
Lays m p a ((size, free) ∷ cells) =
    (p ≡ a)
    × ((m a).size ≡ size)
    × ((m a).free ≡ free)
    × Lays m (m a).next (data_start a + size) cells

-- The bytes that the blocks and their headers take.
abbrev pub span : List Cell → ℕ
span [] = 0
span ((size, _) ∷ cells) = block_struct_size + size + span cells

abbrev pub cell_fits : ℕ → Cell → Bool
cell_fits s (size, free) = not (free == 0) && ltb s size

-- First fit: the address of the first block that is free and larger than `s`.
abbrev pub place : ℕ → ℕ → List Cell → Option ℕ
place s a [] = none
place s a (c ∷ cells) =
    let rest = place s (data_start a + c.0) cells in if cell_fits s c then some a else rest

-- That block gives `s` bytes and keeps the others as a free block, or is given whole when not more
-- than a header and 4 bytes would be left.
abbrev pub carve : ℕ → ℕ → List Cell → List Cell
carve s size cells =
    if ltb (s + 4 + block_struct_size) size
    then (s, 0) ∷ (size - s - block_struct_size, 1) ∷ cells
    else (size, 0) ∷ cells

abbrev pub allot : ℕ → List Cell → List Cell
allot s [] = []
allot s (c ∷ cells) =
    let rest = allot s cells in if cell_fits s c then carve s c.0 cells else c ∷ rest

-- The headers from `a` on are all that the blocks from `a` on consist of.
pub Lays-cong :
    (m m' : Blocks) (p a : ℕ) (cells : List Cell)
    → ((x : ℕ) → a ≤ x → m' x ≡ m x)
    → Lays m p a cells
    → Lays m' p a cells
Lays-cong m m' p a [] same l = l
Lays-cong m m' p a ((size, free) ∷ cells) same (e, s, f, l) =
    let here = same a (omega arith) in
    (
      e,
      ap (λ (b : Block). b.size) here ∙ s,
      ap (λ (b : Block). b.free) here ∙ f,
      subst (λ t. Lays m' t (data_start a + size) cells) (sym (ap (λ (b : Block). b.next) here))
          (Lays-cong m m' (m a).next (data_start a + size) cells (λ x le. same x (omega arith)) l),
    )

-- A pointer to what is found, or NULL.
abbrev pub found : Option ℕ → ℕ
found none = null
found (some x) = x

-- The same lists at an address that is equal.
pub Lays-at :
    (m : Blocks) (p a b : ℕ) (cells : List Cell) → a ≡ b → Lays m p a cells → Lays m p b cells
Lays-at m p a b cells e l = subst (λ t. Lays m p t cells) e l

-- A search of blocks back to back is first fit.
pub find-Lays :
    (fuel s p a : ℕ) (m : Blocks) (cells : List Cell)
    → 1 ≤ a
    → length cells < fuel
    → Lays m p a cells
    → find_first_free_block fuel p s m ≡ some (found (place s a cells))
unfolding find_first_free_block
find-Lays zero s p a m cells pos enough l = absurd (omega arith)
find-Lays (suc fuel) s p a m [] pos enough l = rw l refl
find-Lays (suc fuel) s p a m ((size, free) ∷ cells) pos enough (e, sz, f, l) =
    let next =
      find-Lays fuel s (m a).next (data_start a + size) m cells (omega arith) (omega arith) l in
    let here : fits s (m a) ≡ cell_fits s (size, free) =
      ap₂ (λ x y. not (x == 0) && ltb s y) f sz in
    elim (Bool-cases (cell_fits s (size, free))) [
      | inl yes' ↦ rw (e, ne→==-false a null (omega arith), here, yes') refl
      | inr no' ↦ rw (e, ne→==-false a null (omega arith), here, no') next
    ]

pub span-allot : (s : ℕ) (cells : List Cell) → span (allot s cells) ≡ span cells
span-allot s [] = refl
span-allot s ((size, free) ∷ cells) = ground (arith, span-allot s cells)
