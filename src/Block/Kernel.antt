-- ===== src/Block/Kernel.antt =====
-- `kmalloc` of Kernel/malloc.c on a kernel heap.
use gat_os_v.Base.{
  ℕ, ◌+◌, ◌%◌, ◌≤◌, ◌<◌, ◌≡◌, ◌≢◌, true, false, Option, none, some, List, [], ◌∷◌, arith, refl, sym,
  ap, ◌∙◌, All, length, ltb, if◌then◌else◌, update, update_ne, ◌⊎◌, Option-cases, Bool-cases, inl,
  inr, ne→==-false, update_self,
}
use mathlib.Core.Option.{none-ne-some}
use gat_os_v.Buddy.{null}
use gat_os_v.Block.{
  Space, align4, grant, kmalloc, Block, Blocks, word, block_struct_size, data_start, sub_word,
  split_block, take_block,
}
use gat_os_v.Block.Layout.{
  Cell, Lays, span, cell_fits, place, carve, found, span, allot, span-allot, find-Lays, Lays-cong,
  Lays-at,
}

-- A write at `b`, and then two at `a` that change what is there.
write_twice :
    (m : Blocks) (a b : ℕ) (new : Block) (f g : Block → Block)
    → a ≢ b
    → let m1 = update m b new in
      let m2 = update m1 a (f (m1 a)) in
      (update m2 a (g (m2 a)) a ≡ g (f (m a))) × (update m2 a (g (m2 a)) b ≡ new)
write_twice m a b new f g ne =
    let m1 : Blocks = update m b new in
    let m2 : Blocks = update m1 a (f (m1 a)) in
    (
      update_self m2 a (g (m2 a))
          ∙ ap g (update_self m1 a (f (m1 a)) ∙ ap f (update_ne m b a new (λ e. ne (sym e)))),
      update_ne m2 a b (g (m2 a)) ne ∙ update_ne m1 a b (f (m1 a)) ne ∙ update_self m b new,
    )

-- Where a block is split, its own header and that of the block behind it.
pub take-split :
    (a s : ℕ) (m : Blocks)
    → s + 32 < (m a).size
    → (m a).size < word
    → (take_block a s m a
        ≡ record { size = s; next = data_start a + s; prev = (m a).prev; free = 0 })
      × (take_block a s m (data_start a + s) ≡ record {
        size = sub_word (m a).size (s + block_struct_size);
        next = (m a).next;
        prev = a;
        free = 1;
      })
unfolding take_block split_block
take-split a s m room small =
    let test : ltb ((s + 4 + block_struct_size) % word) (m a).size ≡ true = ground arith in
    let other : ltb (m a).size s ≡ false = ground arith in
    let behind : Block = record {
      next = (m a).next;
      free = 1;
      size = sub_word (m a).size (s + block_struct_size);
      prev = a;
    } in
    rw (test, other)
      (write_twice m a (data_start a + s) behind
        (λ b. record b { next = data_start a + s; size = s }) (λ b. record b { free = 0 })
        (λ e. omega arith))

-- Where it is not, it keeps all but its mark.
pub take-whole :
    (a s : ℕ) (m : Blocks)
    → (m a).size ≤ s + 32
    → s + 32 < word
    → take_block a s m a ≡ record (m a) { free = 0 }
unfolding take_block split_block
take-whole a s m few small =
    let test : ltb ((s + 4 + block_struct_size) % word) (m a).size ≡ false = ground arith in
    rw test (update_self m a (record (m a) { free = 0 }))

-- Headers before a block stay when it is given, and so do those behind it.
pub take-below : (a s x : ℕ) (m : Blocks) → x < a → take_block a s m x ≡ m x
unfolding take_block split_block
take-below a s x m lt = ground arith

pub take-behind :
    (a s x : ℕ) (m : Blocks)
    → s < (m a).size
    → data_start a + (m a).size ≤ x
    → take_block a s m x ≡ m x
unfolding take_block split_block
take-behind a s x m lt le = ground arith

cell_fits-lt : (s size free : ℕ) → cell_fits s (size, free) ≡ true → s < size
cell_fits-lt s size free h = ground arith

-- To give the first block carves it.
Lays-carve :
    (a s size free : ℕ) (m : Blocks) (cells : List Cell)
    → s < size
    → size < word
    → s + 32 < word
    → Lays m a a ((size, free) ∷ cells)
    → Lays (take_block a s m) a a (carve s size cells)
Lays-carve a s size free m cells lt small fine (_, sz, f, l) =
    let l' : Lays (take_block a s m) (m a).next (data_start a + size) cells =
      Lays-cong m (take_block a s m) (m a).next (data_start a + size) cells
        (λ x le. take-behind a s x m (omega arith) (omega arith)) l in
    elim (Bool-cases (ltb (s + 4 + block_struct_size) size)) [
      | inl yes' ↦
          let (head, behind) = take-split a s m (ground arith) (omega arith) in
          rw (yes', head, behind)
            (
              refl,
              refl,
              refl,
              (
                refl,
                ground arith,
                refl,
                Lays-at (take_block a s m) (m a).next (data_start a + size) _ cells (ground arith)
                    l',
              ),
            )
      | inr no' ↦ rw (no', take-whole a s m (ground arith) fine) (refl, sz, refl, l')
    ]

-- To give the first block that fits does so in the list.
pub Lays-allot :
    (s x p a : ℕ) (m : Blocks) (cells : List Cell)
    → s + 32 < word
    → All (λ c. c.0 < word) cells
    → place s a cells ≡ some x
    → Lays m p a cells
    → Lays (take_block x s m) p a (allot s cells) × (a ≤ x)
Lays-allot s x p a m [] fine small h l = absurd (none-ne-some x h)
Lays-allot s x p a m ((size, free) ∷ cells) fine (lt, small) h (e, sz, f, l) =
    let rest : Option ℕ = place s (data_start a + size) cells in
    elim (Bool-cases (cell_fits s (size, free))) [
      | inl yes' ↦
          let here : a ≡ x = ap (λ b. found (if b then some a else rest)) (sym yes') ∙ ap found h in
          rw (yes', e, sym here)
            (
              Lays-carve a s size free m cells (cell_fits-lt s size free yes') lt fine
                  (refl, sz, f, l),
              omega arith,
            )
      | inr no' ↦
          let (l', le) =
            Lays-allot s x (m a).next (data_start a + size) m cells fine small
              (ap (λ b. if b then some a else rest) (sym no') ∙ h) l in
          let same : take_block x s m a ≡ m a = take-below x s a m (omega (arith, le)) in
          rw (no', same) ((e, sz, f, l'), omega (arith, le))
    ]

-- For a size that is not 0 and fits the 32 bits with a header, on a kernel heap whose blocks lie back
-- to back, `kmalloc` is first fit: it returns NULL and changes nothing when no free block is larger
-- than the size, rounded up to a multiple of 4; otherwise the bytes of the first such block, which it
-- carves. The blocks still lie back to back and take as many bytes as before.
pub kmalloc_lem :
    (fuel size : ℕ) (sp : Space) (cells : List Cell)
    → 1 ≤ sp.kernel_base
    → Lays sp.block sp.kernel_base sp.kernel_base cells
    → All (λ c. c.0 < word) cells
    → 1 ≤ size
    → size ≤ 0xffffff00
    → length cells < fuel
    → (size ≤ align4 size)
      × (((place (align4 size) sp.kernel_base cells ≡ none)
            × (kmalloc fuel size sp ≡ some (null, sp)))
          ⊎ ((x : ℕ) × (sp' : Space) × (place (align4 size) sp.kernel_base cells ≡ some x)
              × (kmalloc fuel size sp ≡ some (data_start x, sp'))
              × (sp'.kernel_base ≡ sp.kernel_base)
              × Lays sp'.block sp.kernel_base sp.kernel_base (allot (align4 size) cells)
              × (span (allot (align4 size) cells) ≡ span cells)))
unfolding kmalloc grant
kmalloc_lem fuel size sp cells pos lays small some_bytes fine enough =
    let s : ℕ = align4 size in
    let base : ℕ = sp.kernel_base in
    let search = find-Lays fuel s base base sp.block cells pos enough lays in
    (
      omega arith,
      elim (Option-cases (place s base cells)) [
        | inl nothing ↦ inl (
          nothing,
          rw
              (
                ne→==-false base null (omega arith),
                ne→==-false size 0 (omega arith),
                search,
                nothing,
              )
              refl,
        )
        | inr (x, hit) ↦
            let (lays', le) =
              Lays-allot s x base base sp.block cells (omega arith) small hit lays in
            inr (
              x,
              record sp { block = take_block x s sp.block },
              hit,
              rw
                  (
                    ne→==-false base null (omega arith),
                    ne→==-false size 0 (omega arith),
                    search,
                    hit,
                    ne→==-false x null (omega (arith, le)),
                  )
                  refl,
              refl,
              lays',
              span-allot s cells,
            )
      ],
    )
