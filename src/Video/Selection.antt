-- ===== src/Video/Selection.antt =====
-- The selection of the mouse in Kernel/video.c, and its `paste` into the terminal.
use gat_os_v.Base.{
  ℕ, zero, suc, ◌+◌, ◌*◌, ◌/◌, ◌%◌, ◌≤◌, ◌<◌, ◌≡◌, ◌≢◌, ◌⊎◌, inl, inr, true, false, not, ◌&&◌, some,
  arith, refl, ap, ◌∙◌, subst, Bool-cases, leb, ltb, ◌==◌, if◌then◌else◌, pos, ◌+ℤ◌, pos_up,
  pos_sum,
}
use gat_os_v.Video.{
  Video, Cells, width, height, mouse_color, default_color, valid_position, set_cell, set_attribute,
  attribute_loop, selection, undo_selection, copy_mouse, times_width,
}
use gat_os_v.Video.Scroll.{set_cell_self, set_cell_ne, valid_pos}

-- The attribute of the place `q` once the places from `k` to `e` have the color.
abbrev pub colored : ℕ → ℕ → ℕ → ℕ → Cells → ℕ
colored color k e q cells = if leb k q && leb q e then color else cells (q / width) (q % width)

set_attribute_lem :
    (color f c : ℕ) (v : Video)
    → valid_position (pos f) (pos c) ≡ true
    → set_attribute color (pos f) (pos c) v
      ≡ record v { attributes = set_cell f c color v.attributes }
unfolding set_attribute
set_attribute_lem color f c v valid = rw valid refl

past : (k : ℕ) → leb (k + 1) k ≡ false
past k = ground arith

within : (k e : ℕ) → k ≤ e → (leb k k && leb k e) ≡ true
within k e le = ground arith

other_place : (k q : ℕ) → k ≢ q → (k / width ≢ q / width) ⊎ (k % width ≢ q % width)
other_place k q ne = elim (Bool-cases (k / width == q / width)) [
  | inl same ↦ inr (λ z. ne (ground arith))
  | inr other ↦ inl (λ z. ground (arith, z, other))
]

colored_step :
    (color k e q : ℕ) (cells : Cells)
    → k ≤ e
    → colored color (k + 1) e q (set_cell (k / width) (k % width) color cells)
      ≡ colored color k e q cells
colored_step color k e q cells le = elim (Bool-cases (k == q)) [
  | inl same ↦
      let here : k ≡ q = ground arith in
      subst
        (λ r.
          colored color (k + 1) e r (set_cell (k / width) (k % width) color cells)
          ≡ colored color k e r cells)
        here (rw (past k, within k e le) (set_cell_self (k / width) (k % width) color cells))
  | inr other ↦
      let test : leb (k + 1) q ≡ leb k q = ground arith in
      rw test (
        ap (λ x. if leb k q && leb q e then color else x)
          (set_cell_ne (k / width) (k % width) color (q / width) (q % width) cells
            (other_place k q (λ z. ground (arith, z, other)))))
]

colored_none :
    (color k e q : ℕ) (cells : Cells)
    → q < width * height
    → (leb k e && ltb k (width * height)) ≡ false
    → cells (q / width) (q % width) ≡ colored color k e q cells
colored_none color k e q cells lq stops =
    let out : (leb k q && leb q e) ≡ false = ground arith in rw out refl

stop_lem :
    (fuel color k e : ℕ) (v : Video)
    → (leb k e && ltb k (width * height)) ≡ false
    → attribute_loop (suc fuel) color (pos k) (pos e) v ≡ some v
unfolding attribute_loop valid_position
stop_lem fuel color k e v stops =
    let test : (valid_position (pos (k / width)) (pos (k % width)) && not (ltb (e + 0) (k + 0)))
        ≡ false =
      ground arith in
    rw test refl

-- Enough rounds for the loop, and the attribute of the place `q` behind it.
attribute_loop_lem :
    (fuel color k e q : ℕ) (v : Video)
    → width * height + 1 ≤ fuel + k
    → k ≤ width * height
    → q < width * height
    → (cells : Cells) × (attribute_loop fuel color (pos k) (pos e) v
        ≡ some (record v { attributes = cells }))
      × (cells (q / width) (q % width) ≡ colored color k e q v.attributes)
unfolding attribute_loop
attribute_loop_lem zero color k e q v enough le lq = absurd (omega arith)
attribute_loop_lem (suc fuel) color k e q v enough le lq =
    elim (Bool-cases (leb k e && ltb k (width * height))) [
      | inl goes ↦
          let valid = valid_pos (k / width) (k % width) (ground (arith, goes)) (omega arith) in
          let in_range : ltb (e + 0) (k + 0) ≡ false = ground (arith, goes) in
          let marked : set_attribute color (pos (k / width)) (pos (k % width)) v
              ≡ record v { attributes = set_cell (k / width) (k % width) color v.attributes } =
            set_attribute_lem color (k / width) (k % width) v valid in
          let (cells, loop, at_q) =
            attribute_loop_lem fuel color (k + 1) e q
              (record v { attributes = set_cell (k / width) (k % width) color v.attributes })
              (omega arith) (ground (arith, goes)) lq in
          (
            cells,
            rw (valid, in_range, pos_up k, marked) loop,
            at_q ∙ colored_step color k e q v.attributes (ground (arith, goes)),
          )
      | inr stops ↦ (
        v.attributes,
        stop_lem fuel color k e v stops,
        colored_none color k e q v.attributes lq stops,
      )
    ]

colored_twice :
    (color color' k e q : ℕ) (cells cells' : Cells)
    → cells' (q / width) (q % width) ≡ colored color k e q cells
    → colored color' k e q cells' ≡ colored color' k e q cells
colored_twice color color' k e q cells cells' h = elim (Bool-cases (leb k q && leb q e)) [
  | inl in' ↦ rw in' refl
  | inr out ↦ rw out (h ∙ ap (λ t. if t then color else cells (q / width) (q % width)) out)
]

place_number : (f c : ℕ) → times_width (pos f) +ℤ pos c ≡ pos (f * width + c)
place_number f c = pos_sum (f * width) c

pub selection-ends :
    (fuel f c f' c' : ℕ) (v : Video)
    → width * height + 1 ≤ fuel
    → f < height
    → c < width
    → (cells : Cells) × (selection fuel (pos f) (pos c) (pos f') (pos c') v
        ≡ some (record (copy_mouse (pos (f * width + c)) (pos (f' * width + c')) v) {
          attributes = cells;
        }))
unfolding selection
selection-ends fuel f c f' c' v enough lf lc =
    let first : ℕ = f * width + c in
    let last : ℕ = f' * width + c' in
    let chosen : Video = copy_mouse (pos first) (pos last) v in
    let (cells, loop, at_0) =
      attribute_loop_lem fuel mouse_color first last 0 chosen (omega arith) (omega arith)
        (omega arith) in
    (cells, rw (place_number f c, place_number f' c') loop)

pub undo_selection-ends :
    (fuel f c f' c' : ℕ) (v : Video)
    → width * height + 1 ≤ fuel
    → f < height
    → c < width
    → (v1 : Video) × (undo_selection fuel (pos f) (pos c) (pos f') (pos c') v ≡ some v1)
unfolding undo_selection
undo_selection-ends fuel f c f' c' v enough lf lc =
    let first : ℕ = f * width + c in
    let last : ℕ = f' * width + c' in
    let (cells, loop, at_0) =
      attribute_loop_lem fuel default_color first last 0 v (omega arith) (omega arith)
        (omega arith) in
    (record v { attributes = cells }, rw (place_number f c, place_number f' c') loop)

-- On the screen, and with 2001 rounds, `selection` ends, gives the attribute of the mouse to the places
-- from the first to the last, and `undoSelection` of the same places ends and gives them the default
-- attribute; every other attribute, and every character, is what it was.
undo-selection :
    (fuel f c f' c' q : ℕ) (v : Video)
    → width * height + 1 ≤ fuel
    → f < height
    → c < width
    → q < width * height
    → let first = f * width + c in
      let last = f' * width + c' in
      (v1 : Video) × (v2 : Video) × (selection fuel (pos f) (pos c) (pos f') (pos c') v ≡ some v1)
      × (v1.attributes (q / width) (q % width) ≡ colored mouse_color first last q v.attributes)
      × (undo_selection fuel (pos f) (pos c) (pos f') (pos c') v1 ≡ some v2)
      × (v2.attributes (q / width) (q % width) ≡ colored default_color first last q v.attributes)
      × (v2.video ≡ v.video)
unfolding selection undo_selection copy_mouse
undo-selection fuel f c f' c' q v enough lf lc lq =
    let first : ℕ = f * width + c in
    let last : ℕ = f' * width + c' in
    let chosen : Video = copy_mouse (pos first) (pos last) v in
    let (cells1, loop1, at1) =
      attribute_loop_lem fuel mouse_color first last q chosen (omega arith) (omega arith) lq in
    let (cells2, loop2, at2) =
      attribute_loop_lem fuel default_color first last q (record chosen { attributes = cells1 })
        (omega arith) (omega arith) lq in
    (
      record chosen { attributes = cells1 },
      record chosen { attributes = cells2 },
      rw (place_number f c, place_number f' c') loop1,
      at1,
      rw (place_number f c, place_number f' c') loop2,
      at2 ∙ colored_twice mouse_color default_color first last q chosen.attributes cells1 at1,
      refl,
    )
