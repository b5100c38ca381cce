-- ===== src/Block/Stale.antt =====
-- `split_block` of Kernel/malloc.c and the field `prev` of the block behind.
use gat_os_v.Base.{
  ℕ, ◌+◌, ◌-◌, ◌%◌, ◌≤◌, ◌<◌, ◌≡◌, ◌≢◌, true, ◌&&◌, not, arith, ap, ap₂, ◌∙◌, ◌==◌, update,
  update_ne, inl, ne→==-false, update_self,
}
use gat_os_v.Buddy.{null}
use gat_os_v.Block.{
  Block, Blocks, word, block_struct_size, data_start, sub_word, take_block, merge_blocks,
  merge_next, merge_prev, release_block,
}
use gat_os_v.Block.Kernel.{take-split, take-whole, take-below, take-behind}
use gat_os_v.Block.Release.{release-alone, merge_next_used}

-- A header after `mergeBlocks`, with the header behind it.
abbrev join : Block → Block → Block
join b c = record b { size = (b.size + c.size + block_struct_size) % word; next = c.next }

abbrev freed : Block → Block
freed b = record b { free = 1 }

abbrev taken : Block → Block
taken b = record b { free = 0 }

-- Where the block that `prev` names is free, it takes in the block that its own `next` names.
merge_prev_at :
    (z x y : ℕ) (m : Blocks)
    → (m z).prev ≡ x
    → x ≢ null
    → (m x).free ≡ 1
    → (m x).next ≡ y
    → merge_prev z m x ≡ join (m x) (m y)
unfolding merge_prev merge_blocks
merge_prev_at z x y m e some_prev f g =
    let test : (not (x == null) && (m x).free == 1) ≡ true = ground arith in
    rw (e, test) (update_self m x (join (m x) (m (m x).next)) ∙ ap (λ v. join (m x) (m v)) g)

merge_prev_ne : (z x y : ℕ) (m : Blocks) → (m z).prev ≡ x → x ≢ y → merge_prev z m y ≡ m y
unfolding merge_prev merge_blocks
merge_prev_ne z x y m e ne = ground arith

-- `free` of a block with one in use behind it, and with a free one where its `prev` leads.
release-swallows :
    (x y z w : ℕ) (m : Blocks)
    → x < y
    → y < z
    → 1 ≤ x
    → (m x).free ≡ 1
    → (m x).next ≡ y
    → (m z).prev ≡ x
    → (m z).next ≡ w
    → z ≢ w
    → (m w).free ≡ 0
    → (release_block z m x ≡ join (m x) (m y)) × (release_block z m y ≡ m y)
unfolding release_block
release-swallows x y z w m lt lt' pos f g h k ne u =
    let b : Block = record (m z) { free = 1 } in
    let m1 : Blocks = update m z b in
    let at_z : m1 z ≡ b = update_self m z b in
    let at_x : m1 x ≡ m x = update_ne m z x b (λ e. omega arith) in
    let at_y : m1 y ≡ m y = update_ne m z y b (λ e. omega arith) in
    let at_w : m1 w ≡ m w = update_ne m z w b ne in
    let stays : merge_next z m1 ≡ m1 =
      merge_next_used z w m1 (ap (λ (c : Block). c.next) at_z ∙ k)
        (ap (λ (c : Block). c.free == 1) at_w ∙ ap (λ n. n == 1) u) in
    let before : (m1 z).prev ≡ x = ap (λ (c : Block). c.prev) at_z ∙ h in
    rw (ne→==-false z null (omega arith), stays)
      (
        merge_prev_at z x y m1 before (omega arith) (ap (λ (c : Block). c.free) at_x ∙ f)
              (ap (λ (c : Block). c.next) at_x ∙ g)
            ∙ ap₂ join at_x at_y,
        merge_prev_ne z x y m1 before (λ e. omega arith) ∙ at_y,
      )

-- The headers after the split of `x`, the grant of its rest, and the release of `x`.
after_split :
    (x s t w : ℕ) (m : Blocks)
    → let y = data_start x + s in
      let z = data_start x + (m x).size in
      1 ≤ x
      → s + 32 < (m x).size
      → (m x).size < word
      → t < (m x).size - s - block_struct_size
      → (m x).size - s - block_struct_size ≤ t + 32
      → t + 32 < word
      → (m x).prev ≡ null
      → z < w
      → let m3 = release_block x (take_block y t (take_block x s m)) in
        (m3 x ≡ record { size = s; next = y; prev = (m x).prev; free = 1 })
        × (m3 y ≡ record {
          size = sub_word (m x).size (s + block_struct_size);
          next = (m x).next;
          prev = x;
          free = 0;
        })
        × (m3 z ≡ m z)
        × (m3 w ≡ m w)
after_split x s t w m pos room under few few' fine first lt =
    let y : ℕ = data_start x + s in
    let z : ℕ = data_start x + (m x).size in
    let m1 : Blocks = take_block x s m in
    let m2 : Blocks = take_block y t m1 in
    let m3 : Blocks = release_block x m2 in
    let m2' : Blocks = update m2 x (freed (m2 x)) in
    let (x1, y1) = take-split x s m room under in
    let rest : (m1 y).size ≡ (m x).size - s - block_struct_size =
      ap (λ (c : Block). c.size) y1 ∙ omega arith in
    let x2 = take-below y t x m1 (omega arith) ∙ x1 in
    let y2 = take-whole y t m1 (omega (arith, rest)) fine ∙ ap taken y1 in
    let behind : (v : ℕ) → z ≤ v → m2 v ≡ m v = λ v le.
      take-behind y t v m1 (omega (arith, rest)) (omega (arith, rest))
      ∙ take-behind x s v m (omega arith) (omega arith) in
    let at_x = update_self m2 x (freed (m2 x)) in
    let elsewhere : (v : ℕ) → x ≢ v → m2' v ≡ m2 v = λ v ne. update_ne m2 x v (freed (m2 x)) ne in
    let same : m3 ≡ m2' =
      release-alone x m2 (λ e. omega arith) (inl (ap (λ (c : Block). c.prev) x2 ∙ first))
      ∙ merge_next_used x y m2' (ap (λ (c : Block). c.next) at_x ∙ ap (λ (c : Block). c.next) x2)
          (ap (λ (c : Block). c.free == 1) (elsewhere y (λ e. omega arith) ∙ y2)) in
    (
      ap (λ now. now x) same ∙ at_x ∙ ap freed x2,
      ap (λ now. now y) same ∙ elsewhere y (λ e. omega arith) ∙ y2,
      ap (λ now. now z) same ∙ elsewhere z (λ e. omega arith) ∙ behind z (omega arith),
      ap (λ now. now w) same ∙ elsewhere w (λ e. omega arith) ∙ behind w (omega arith),
    )

-- When the block `x`, which has no block before it, is split for `s` bytes, its rest is given whole,
-- and then `x` and the block `z` that was behind it are freed: `z` still points back to `x`, and `x`
-- becomes a free block that spans the rest, which is in use.
pub split_block_stale :
    (x s t w : ℕ) (m : Blocks)
    → let y = data_start x + s in
      let z = data_start x + (m x).size in
      1 ≤ x
      → s + 32 < (m x).size
      → (m x).size < word
      → t < (m x).size - s - block_struct_size
      → (m x).size - s - block_struct_size ≤ t + 32
      → t + 32 < word
      → (m x).prev ≡ null
      → (m x).next ≡ z
      → (m z).prev ≡ x
      → (m z).next ≡ w
      → z < w
      → (m w).free ≡ 0
      → let m' = release_block z (release_block x (take_block y t (take_block x s m))) in
        ((m' x).free ≡ 1) × ((m' x).size ≡ (m x).size) × ((m' x).next ≡ z) × ((m' y).free ≡ 0)
split_block_stale x s t w m pos room under few few' fine first link back next lt used =
    let y : ℕ = data_start x + s in
    let z : ℕ = data_start x + (m x).size in
    let m3 : Blocks = release_block x (take_block y t (take_block x s m)) in
    let (at_x, at_y, at_z, at_w) = after_split x s t w m pos room under few few' fine first lt in
    let (whole, part) =
      release-swallows x y z w m3 (omega arith) (omega arith) pos (ap (λ (c : Block). c.free) at_x)
        (ap (λ (c : Block). c.next) at_x) (ap (λ (c : Block). c.prev) at_z ∙ back)
        (ap (λ (c : Block). c.next) at_z ∙ next) (λ e. omega arith)
        (ap (λ (c : Block). c.free) at_w ∙ used) in
    let joined = whole ∙ ap₂ join at_x at_y in
    (
      ap (λ (c : Block). c.free) joined,
      ap (λ (c : Block). c.size) joined ∙ omega arith,
      ap (λ (c : Block). c.next) joined ∙ link,
      ap (λ (c : Block). c.free) (part ∙ at_y),
    )
