-- ===== src/Block/RoundTrip.antt =====
-- What `free` of Kernel/malloc.c does for the last block of a heap, after `mallock`, and where the
-- block behind a split still points to the one that was split.
use gat_os_v.Base.{
  ℕ, zero, suc, ◌+◌, ◌-◌, ◌≤◌, ◌<◌, ◌≡◌, ◌≢◌, true, false, Option, some, List, [], ◌∷◌, ◌++◌, arith,
  refl, ap, ◌∙◌, subst, All, length, ltb, inl, inr, ne→==-false,
}
use gat_os_v.Buddy.{null}
use gat_os_v.Block.{
  Block, Blocks, Space, word, block_struct_size, data_start, align4, take_block, get_block,
  release_block, free_memory, mallock, ensure_heap, take_or_extend,
}
use gat_os_v.Block.Layout.{Cell, Lays, span, cell_fits, place, carve, allot}
use gat_os_v.Block.Layout.{find-Lays}
use gat_os_v.Block.Kernel.{Lays-allot, take-split, take-below}
use gat_os_v.Block.Release.{head_at, Lays-drop, valid_in_heap, StandsAlone, free_memory_lem}

get_block_last :
    (fuel q a : ℕ) (m : Blocks) (pre : List Cell) (c : Cell)
    → 1 ≤ a
    → length pre + 1 < fuel
    → Lays m q a (pre ++ c ∷ [])
    → get_block fuel (data_start (a + span pre)) q m ≡ some null
unfolding get_block
get_block_last zero q a m pre c pos enough l = absurd (omega arith)
get_block_last (suc zero) q a m pre c pos enough l = absurd (omega arith)
get_block_last (suc (suc fuel)) q a m [] c pos enough (e, _, _, l) =
    let on : ltb null (data_start (a + 0)) ≡ true = ground arith in
    rw (e, ne→==-false a null (omega arith), l, on) refl
get_block_last (suc (suc fuel)) q a m ((size, free) ∷ pre) c pos enough (e, _, _, l) =
    let f : (m a).next ≡ data_start a + size =
      head_at m (m a).next (data_start a + size) pre c [] l in
    let next =
      get_block_last (suc fuel) (m a).next (data_start a + size) m pre c (omega arith) (omega arith)
        l in
    let same : data_start a + size + span pre ≡ a + (block_struct_size + size + span pre) =
      omega arith in
    let on : ltb (m a).next (data_start (a + (block_struct_size + size + span pre))) ≡ true =
      ground (arith, f) in
    rw (e, ne→==-false a null (omega arith), on)
      (subst (λ x. get_block (suc fuel) (data_start x) (m a).next m ≡ some null) same next)

-- `free` of the last block of a heap changes nothing: `getBlock` runs past it.
free_memory_last :
    (fuel size : ℕ) (sp : Space) (pre : List Cell)
    → 1 ≤ sp.heap_base
    → Lays sp.block sp.heap_base sp.heap_base (pre ++ (size, 0) ∷ [])
    → length pre + 1 < fuel
    → free_memory fuel (data_start (sp.heap_base + span pre)) sp ≡ some sp
unfolding free_memory release_block
free_memory_last fuel size sp pre pos lays enough =
    let a : ℕ = sp.heap_base in
    rw (valid_in_heap sp (span pre), get_block_last fuel a a sp.block pre (size, 0) pos enough lays)
      refl

-- What the list looks like when the first block that fits is the one behind `pre`.
place-append :
    (s a : ℕ) (pre : List Cell) (c : Cell) (post : List Cell)
    → All (λ d. cell_fits s d ≡ false) pre
    → cell_fits s c ≡ true
    → (place s a (pre ++ c ∷ post) ≡ some (a + span pre))
      × (allot s (pre ++ c ∷ post) ≡ pre ++ carve s c.0 post)
place-append s a [] c post none_fits hit = rw hit (ap some (omega arith), refl)
place-append s a (d ∷ pre) c post (no', none_fits) hit =
    let (p, q) = place-append s (data_start a + d.0) pre c post none_fits hit in
    rw no' (p ∙ ap some (omega arith), ap (◌∷◌ d) q)

length-joined :
    (pre : List Cell) (c : Cell) (post : List Cell) → length pre < length (pre ++ c ∷ post)
length-joined [] c post = omega arith
length-joined (d ∷ pre) c post = omega (arith, length-joined pre c post)

carve-split :
    (s total : ℕ) (post : List Cell)
    → s + 32 < total
    → carve s total post ≡ (s, 0) ∷ (total - s - block_struct_size, 1) ∷ post
carve-split s total post room =
    let test : ltb (s + 4 + block_struct_size) total ≡ true = ground arith in rw test refl

alone_after_split :
    (s x : ℕ) (m : Blocks)
    → s + 32 < (m x).size
    → (m x).size < word
    → StandsAlone x m
    → StandsAlone x (take_block x s m)
alone_after_split s x m room small alone =
    let prev : (take_block x s m x).prev ≡ (m x).prev =
      ap (λ (b : Block). b.prev) (take-split x s m room small).0 in
    elim alone [
      | inl none_before ↦ inl (prev ∙ none_before)
      | inr (lt, used) ↦ inr (
        omega (arith, prev),
        ap (λ y. (take_block x s m y).free) prev
            ∙ ap (λ (b : Block). b.free) (take-below x s (m x).prev m lt)
            ∙ used,
      )
    ]

-- For a process whose heap is one region with the blocks back to back, where the first block that
-- fits is split and the block before it is none or in use: `mallock` hands out the bytes of that
-- block, and `free` of them right after makes the heap what it was.
pub free-mallock :
    (find : ℕ → Option ℕ) (stray fuel p size total : ℕ) (sp : Space) (pre post : List Cell)
    → let a = (sp.owner p).heap in
      p ≢ null
      → 1 ≤ a
      → 1 ≤ size
      → size ≤ 0xffffff00
      → Lays sp.block a a (pre ++ (total, 1) ∷ post)
      → All (λ d. cell_fits (align4 size) d ≡ false) pre
      → All (λ d. d.0 < word) (pre ++ (total, 1) ∷ post)
      → align4 size + 32 < total
      → total < word
      → StandsAlone (a + span pre) sp.block
      → length (pre ++ (total, 1) ∷ post) < fuel
      → (sp1 : Space) × (sp2 : Space) × (mallock find stray fuel p size sp
          ≡ some (data_start (a + span pre), sp1))
        × (free_memory fuel (data_start (a + span pre)) sp1 ≡ some sp2)
        × Lays sp2.block a a (pre ++ (total, 1) ∷ post)
unfolding mallock ensure_heap take_or_extend
free-mallock find stray fuel p size total sp pre post process pos some_bytes fine lays none_fits
      small room under alone enough =
    let s : ℕ = align4 size in
    let a : ℕ = (sp.owner p).heap in
    let x : ℕ = a + span pre in
    let m1 : Blocks = take_block x s sp.block in
    let hit : cell_fits s (total, 1) ≡ true = ground arith in
    let (at', like) = place-append s a pre (total, 1) post none_fits hit in
    let search = find-Lays fuel s a a sp.block (pre ++ (total, 1) ∷ post) pos enough lays in
    let (lays1, _) =
      Lays-allot s x a a sp.block (pre ++ (total, 1) ∷ post) (omega arith) small at' lays in
    let sp1 : Space = record sp { heap_base = a; block = m1 } in
    let carved : carve s total post ≡ (s, 0) ∷ (total - s - block_struct_size, 1) ∷ post =
      carve-split s total post room in
    let (sp2, freed, lays2) =
      free_memory_lem fuel s (total - s - block_struct_size) 1 sp1 pre post pos
        (subst (λ cells. Lays m1 a a cells) (like ∙ ap (λ t. pre ++ t) carved) lays1) (omega arith)
        (alone_after_split s x sp.block
          (omega (arith, (Lays-drop sp.block a a pre (total, 1) post lays).1))
          (omega (arith, (Lays-drop sp.block a a pre (total, 1) post lays).1)) alone)
        (omega (arith, length-joined pre (total, 1) post)) in
    (
      sp1,
      sp2,
      rw
          (
            ne→==-false p null process,
            ne→==-false size 0 (omega arith),
            ne→==-false a null (omega arith),
            search,
            at',
            ne→==-false x null (omega arith),
          )
          refl,
      freed,
      subst (λ n. Lays sp2.block a a (pre ++ (n, 1) ∷ post)) (omega arith) lays2,
    )
