-- ===== src/Block/Release.antt =====
-- `free` of Kernel/malloc.c, and `mallock` before it.
use gat_os_v.Base.{
  ℕ, zero, suc, ◌+◌, ◌%◌, ◌≤◌, ◌<◌, ◌≡◌, ◌≢◌, true, false, ◌&&◌, not, some, List, [], ◌∷◌, ◌++◌,
  arith, refl, sym, ap, ◌∙◌, subst, length, ◌==◌, ltb, if◌then◌else◌, update, update_ne, Bool-cases,
  inl, inr, ne→==-false, update_self, ◌⊎◌,
}
use gat_os_v.Buddy.{null}
use gat_os_v.Block.{
  Block, Blocks, Space, word, block_struct_size, data_start, get_block, merge_blocks, merge_next,
  merge_prev, release_block, free_memory, is_valid_address,
}
use gat_os_v.Block.Layout.{Cell, Lays, span, Lays-cong, Lays-at}

-- The first pointer of a list that is not empty.
pub head_at :
    (m : Blocks) (p a : ℕ) (pre : List Cell) (c : Cell) (post : List Cell)
    → Lays m p a (pre ++ c ∷ post)
    → p ≡ a
head_at m p a [] c post l = l.0
head_at m p a (d ∷ pre) c post l = l.0

add_zero : (a : ℕ) → a ≡ a + 0
add_zero a = omega arith

-- `getBlock` finds the block whose bytes begin at the address, where another block is behind it.
get_block-Lays :
    (fuel q a : ℕ) (m : Blocks) (pre : List Cell) (c d : Cell) (post : List Cell)
    → 1 ≤ a
    → length pre < fuel
    → Lays m q a (pre ++ c ∷ d ∷ post)
    → get_block fuel (data_start (a + span pre)) q m ≡ some (a + span pre)
unfolding get_block
get_block-Lays zero q a m pre c d post pos enough l = absurd (omega arith)
get_block-Lays (suc fuel) q a m [] c d post pos enough (e, _, _, l) =
    let f : (m a).next ≡ data_start a + c.0 = l.0 in
    let stop : ltb (m a).next (data_start (a + 0)) ≡ false = ground (arith, f) in
    rw (e, ne→==-false a null (omega arith), stop) (ap some (add_zero a))
get_block-Lays (suc fuel) q a m ((size, free) ∷ pre) c d post pos enough (e, _, _, l) =
    let f : (m a).next ≡ data_start a + size =
      head_at m (m a).next (data_start a + size) pre c (d ∷ post) l in
    let next =
      get_block-Lays fuel (m a).next (data_start a + size) m pre c d post (omega arith)
        (omega arith) l in
    let same : data_start a + size + span pre ≡ a + (block_struct_size + size + span pre) =
      omega arith in
    let on : ltb (m a).next (data_start (a + (block_struct_size + size + span pre))) ≡ true =
      ground (arith, f) in
    rw (e, ne→==-false a null (omega arith), on)
      (subst (λ x. get_block fuel (data_start x) (m a).next m ≡ some x) same next)

-- The same headers up to the block at `a + span pre`, and other blocks from there on.
Lays-replace :
    (m m' : Blocks) (q a : ℕ) (pre : List Cell) (c : Cell) (post cells : List Cell)
    → ((y : ℕ) → y < a + span pre → m' y ≡ m y)
    → Lays m q a (pre ++ c ∷ post)
    → Lays m' (a + span pre) (a + span pre) cells
    → Lays m' q a (pre ++ cells)
Lays-replace m m' q a [] c post cells same (e, _, _, _) l' =
    rw e (subst (λ x. Lays m' x x cells) (omega arith) l')
Lays-replace m m' q a ((size, free) ∷ pre) c post cells same (e, sz, f, l) l' =
    let here : m' a ≡ m a = same a (omega arith) in
    let there : a + (block_struct_size + size + span pre) ≡ data_start a + size + span pre =
      omega arith in
    rw (e, here)
      (
        refl,
        sz,
        f,
        Lays-replace m m' (m a).next (data_start a + size) pre c post cells
            (λ y lt. same y (omega arith)) l (subst (λ x. Lays m' x x cells) there l'),
      )

-- What becomes of a block that is freed, with `d` behind it.
abbrev pub joined : ℕ → Cell → List Cell → List Cell
joined size d post =
    if d.1 == 1 then (size + d.0 + block_struct_size, 1) ∷ post else (size, 1) ∷ d ∷ post

-- The block before `x` is none, or is before it and in use.
abbrev pub StandsAlone : ℕ → Blocks → Type 0
StandsAlone x m = ((m x).prev ≡ null) ⊎ (((m x).prev < x) × ((m (m x).prev).free ≡ 0))

merge_next-prev : (x : ℕ) (m : Blocks) → (merge_next x m x).prev ≡ (m x).prev
unfolding merge_next merge_blocks
merge_next-prev x m = ground arith

merge_next_ne : (x y : ℕ) (m : Blocks) → x ≢ y → merge_next x m y ≡ m y
unfolding merge_next merge_blocks
merge_next_ne x y m ne = ground arith

update_prev : (x : ℕ) (m : Blocks) → (update m x (record (m x) { free = 1 }) x).prev ≡ (m x).prev
update_prev x m = ap (λ (b : Block). b.prev) (update_self m x (record (m x) { free = 1 }))

merge_prev-alone :
    (x : ℕ) (m : Blocks) → ((m x).prev ≡ null) ⊎ ((m (m x).prev).free ≡ 0) → merge_prev x m ≡ m
unfolding merge_prev
merge_prev-alone x m alone =
    let test : (not ((m x).prev == null) && (m (m x).prev).free == 1) ≡ false = ground arith in
    rw test refl

-- Without a free block before it only its own header changes.
pub release-alone :
    (x : ℕ) (m : Blocks)
    → x ≢ null
    → StandsAlone x m
    → release_block x m ≡ merge_next x (update m x (record (m x) { free = 1 }))
unfolding release_block
release-alone x m some_block alone =
    let m1 : Blocks = update m x (record (m x) { free = 1 }) in
    let m2 : Blocks = merge_next x m1 in
    let before : (m2 x).prev ≡ (m x).prev = merge_next-prev x m1 ∙ update_prev x m in
    let alone' : ((m2 x).prev ≡ null) ⊎ ((m2 (m2 x).prev).free ≡ 0) = elim alone [
      | inl none_before ↦ inl (before ∙ none_before)
      | inr (lt, used) ↦ inr (
          ap (λ y. (m2 y).free) before
          ∙ ap (λ (b : Block). b.free)
              (merge_next_ne x (m x).prev m1 (λ e. omega arith)
                ∙ update_ne m x (m x).prev (record (m x) { free = 1 }) (λ e. omega arith))
          ∙ used)
    ] in
    rw (ne→==-false x null some_block) (merge_prev-alone x m2 alone')

release-elsewhere :
    (x y : ℕ) (m : Blocks) → x ≢ null → StandsAlone x m → x ≢ y → release_block x m y ≡ m y
release-elsewhere x y m some_block alone ne =
    ap (λ (now : Blocks). now y) (release-alone x m some_block alone)
    ∙ merge_next_ne x y (update m x (record (m x) { free = 1 })) ne
    ∙ update_ne m x y (record (m x) { free = 1 }) ne

-- The header of a block, once it is joined with a free one behind it.
merge_next_at :
    (x y : ℕ) (m : Blocks)
    → (m x).next ≡ y
    → y ≢ null
    → (m y).free ≡ 1
    → merge_next x m x ≡ record (m x) {
      size = ((m x).size + (m y).size + block_struct_size) % word;
      next = (m y).next;
    }
unfolding merge_next merge_blocks
merge_next_at x y m e some_next f =
    let test : (not (y == null) && (m y).free == 1) ≡ true = ground arith in
    let b : Block = record (m x) {
      size = ((m x).size + (m y).size + block_struct_size) % word;
      next = (m y).next;
    } in
    rw (e, test) (update_self m x b)

pub merge_next_used :
    (x y : ℕ) (m : Blocks) → (m x).next ≡ y → ((m y).free == 1) ≡ false → merge_next x m ≡ m
unfolding merge_next
merge_next_used x y m e f =
    let test : (not (y == null) && (m y).free == 1) ≡ false = ground arith in rw (e, test) refl

-- To mark the first block as free.
Lays-mark :
    (x size free : ℕ) (m : Blocks) (cells : List Cell)
    → Lays m x x ((size, free) ∷ cells)
    → Lays (update m x (record (m x) { free = 1 })) x x ((size, 1) ∷ cells)
Lays-mark x size free m cells (_, sz, f, l) =
    let m1 : Blocks = update m x (record (m x) { free = 1 }) in
    let l' : Lays m1 (m x).next (data_start x + size) cells =
      Lays-cong m m1 (m x).next (data_start x + size) cells
        (λ y le. update_ne m x y (record (m x) { free = 1 }) (λ e. omega arith)) l in
    let here : m1 x ≡ record (m x) { free = 1 } = update_self m x (record (m x) { free = 1 }) in
    rw here (refl, sz, refl, l')

Lays-merge :
    (x size size' free' : ℕ) (m : Blocks) (post : List Cell)
    → size + size' + block_struct_size < word
    → Lays m x x ((size, 1) ∷ (size', free') ∷ post)
    → Lays (merge_next x m) x x (joined size (size', free') post)
Lays-merge x size size' free' m post small (_, sz, f, (e, sz', f', l)) =
    let y : ℕ = data_start x + size in
    let at_y : (m y).free ≡ free' = f' in
    elim (Bool-cases (free' == 1)) [
      | inl yes' ↦
          let here = merge_next_at x y m e (λ z. omega arith) (ground arith) in
          let l' : Lays (merge_next x m) (m y).next
              (data_start x + (size + size' + block_struct_size)) post =
            Lays-cong m (merge_next x m) (m y).next _ post
              (λ z le. merge_next_ne x z m (λ d. omega arith))
              (Lays-at m (m y).next (data_start y + size') _ post (omega arith) l) in
          rw (yes', here) (refl, ground (arith, sz, sz'), f, l')
      | inr no' ↦ rw no' (
          subst (λ now. Lays now x x ((size, 1) ∷ (size', free') ∷ post))
            (sym (merge_next_used x y m e (ground arith))) (refl, sz, f, (e, sz', f', l)))
    ]

-- The blocks from the one behind `pre` on.
pub Lays-drop :
    (m : Blocks) (q a : ℕ) (pre : List Cell) (c : Cell) (post : List Cell)
    → Lays m q a (pre ++ c ∷ post)
    → Lays m (a + span pre) (a + span pre) (c ∷ post)
Lays-drop m q a [] c post (e, sz, f, l) =
    subst (λ x. Lays m x x (c ∷ post)) (add_zero a) (refl, sz, f, l)
Lays-drop m q a ((size, free) ∷ pre) c post (_, _, _, l) =
    subst (λ x. Lays m x x (c ∷ post)) (span_cons a size (span pre))
      (Lays-drop m (m a).next (data_start a + size) pre c post l)
  where
    span_cons : (a size n : ℕ) → data_start a + size + n ≡ a + (block_struct_size + size + n)
    span_cons a size n = omega arith

-- A block behind the base of the heap is in the range of `free`.
pub valid_in_heap :
    (sp : Space) (n : ℕ) → is_valid_address (data_start (sp.heap_base + n)) sp ≡ true
unfolding is_valid_address
valid_in_heap sp n = ground arith

-- On the heap that was used last, with its blocks back to back: `free` of a block in use that is not
-- the last one, where the block before it is none or in use, marks it as free, and joins it with the
-- block behind it when that is free.
pub free_memory_lem :
    (fuel size size' free' : ℕ) (sp : Space) (pre post : List Cell)
    → 1 ≤ sp.heap_base
    → Lays sp.block sp.heap_base sp.heap_base (pre ++ (size, 0) ∷ (size', free') ∷ post)
    → size + size' + block_struct_size < word
    → StandsAlone (sp.heap_base + span pre) sp.block
    → length pre < fuel
    → (sp' : Space) × (free_memory fuel (data_start (sp.heap_base + span pre)) sp ≡ some sp')
      × Lays sp'.block sp.heap_base sp.heap_base (pre ++ joined size (size', free') post)
unfolding free_memory
free_memory_lem fuel size size' free' sp pre post pos lays small alone enough =
    let a : ℕ = sp.heap_base in
    let x : ℕ = a + span pre in
    let m : Blocks = sp.block in
    let m1 : Blocks = update m x (record (m x) { free = 1 }) in
    let some_block : x ≢ null = λ e. omega arith in
    let here : Lays (merge_next x m1) x x (joined size (size', free') post) =
      Lays-merge x size size' free' m1 post small (
        Lays-mark x size 0 m ((size', free') ∷ post)
          (Lays-drop m a a pre (size, 0) ((size', free') ∷ post) lays)) in
    (
      record sp { block = release_block x m },
      rw
          (
            valid_in_heap sp (span pre),
            get_block-Lays fuel a a m pre (size, 0) (size', free') post pos enough lays,
          )
          refl,
      Lays-replace m (release_block x m) a a pre (size, 0) ((size', free') ∷ post) _
          (λ y lt. release-elsewhere x y m some_block alone (λ e. omega arith)) lays
          (subst (λ now. Lays now x x (joined size (size', free') post))
            (sym (release-alone x m some_block alone)) here),
    )
