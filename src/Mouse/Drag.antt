-- ===== src/Mouse/Drag.antt =====
-- What Kernel/mouse.c does with the selection while the left button is down, and when it goes up.
use gat_os_v.Base.{
  ℕ, ◌+◌, ◌*◌, ◌≤◌, ◌≡◌, refl, if_true, if_false, ◌∙◌, true, false, Option, some, pos, inl, inr,
  Bool-cases,
}
use gat_os_v.Video.{Video, width, height, update_screen, copy_mouse}
use gat_os_v.Video.Selection.{selection-ends, undo_selection-ends}
use gat_os_v.Mouse.{Mouse, is_backward, select_range, undo_range, drag, drop_selection}
use gat_os_v.Mouse.Bounds.{IsPlaced, same_place}

select_range-ends :
    (fuel : ℕ) (m : Mouse) (v : Video)
    → width * height + 1 ≤ fuel
    → IsPlaced m
    → (v1 : Video) × (select_range fuel m v ≡ some v1)
unfolding select_range
select_range-ends fuel m v enough p =
    let (c, ec, lc) = p.first_column in
    let (f, ef, lf) = p.first_row in
    let (c', ec', lc') = p.last_column in
    let (f', ef', lf') = p.last_row in
    elim (Bool-cases (is_backward m)) [
      | inl back ↦
          let (cells, runs) = selection-ends fuel f' c' f c v enough lf' lc' in
          (
            record (copy_mouse (pos (f' * width + c')) (pos (f * width + c)) v) {
              attributes = cells;
            },
            rw (back, ec, ef, ec', ef') runs,
          )
      | inr on ↦
          let (cells, runs) = selection-ends fuel f c f' c' v enough lf lc in
          (
            record (copy_mouse (pos (f * width + c)) (pos (f' * width + c')) v) {
              attributes = cells;
            },
            rw (on, ec, ef, ec', ef') runs,
          )
    ]

undo_range-ends :
    (fuel : ℕ) (m : Mouse) (v : Video)
    → width * height + 1 ≤ fuel
    → IsPlaced m
    → (v1 : Video) × (undo_range fuel m v ≡ some v1)
unfolding undo_range
undo_range-ends fuel m v enough p =
    let (c, ec, lc) = p.first_column in
    let (f, ef, lf) = p.first_row in
    let (c', ec', lc') = p.last_column in
    let (f', ef', lf') = p.last_row in
    elim (Bool-cases (is_backward m)) [
      | inl back ↦
          let (v1, runs) = undo_selection-ends fuel f' c' f c v enough lf' lc' in
          (v1, rw (back, ec, ef, ec', ef') runs)
      | inr on ↦
          let (v1, runs) = undo_selection-ends fuel f c f' c' v enough lf lc in
          (v1, rw (on, ec, ef, ec', ef') runs)
    ]

-- What a change of the selection to where the mouse is needs.
abbrev pub Ends : Option (Mouse × Video) → Type 0
Ends r = (m : Mouse) × (v : Video) × (r ≡ some (m, v)) × IsPlaced m

pub drag-Ends :
    (fuel : ℕ) (m : Mouse) (v : Video)
    → width * height + 1 ≤ fuel
    → IsPlaced m
    → Ends (drag fuel m v)
unfolding drag
drag-Ends fuel m v enough p =
    let moved = record m { xfin = m.x; yfin = m.y } in
    let started = record m { selecting = true; xinit = m.x; yinit = m.y; xfin = m.x; yfin = m.y } in
    let moved-IsPlaced : IsPlaced moved = record {
      column = p.column;
      row = p.row;
      first_column = p.first_column;
      first_row = p.first_row;
      last_column = p.column;
      last_row = p.row;
    } in
    let started-IsPlaced : IsPlaced started = record {
      column = p.column;
      row = p.row;
      first_column = p.column;
      first_row = p.row;
      last_column = p.column;
      last_row = p.row;
    } in
    elim (Bool-cases m.selecting) [
      | inl on ↦
          let (v1, undone) = undo_range-ends fuel m v enough p in
          let (v2, chosen) = select_range-ends fuel moved v1 enough moved-IsPlaced in
          (moved, v2, if_true m.selecting _ _ on ∙ rw undone (rw chosen refl), moved-IsPlaced)
      | inr off ↦
          let (v1, chosen) = select_range-ends fuel started v enough started-IsPlaced in
          (started, v1, if_false m.selecting _ _ off ∙ rw chosen refl, started-IsPlaced)
    ]

pub drop_selection-Ends :
    (fuel : ℕ) (m : Mouse) (v : Video)
    → width * height + 1 ≤ fuel
    → IsPlaced m
    → Ends (drop_selection fuel m v)
unfolding drop_selection
drop_selection-Ends fuel m v enough p = elim (Bool-cases m.selecting) [
  | inl on ↦
      let (v1, undone) = undo_range-ends fuel m v enough p in
      (
        record m { selecting = false },
        update_screen v1,
        if_true m.selecting _ _ on ∙ rw undone refl,
        same_place m (record m { selecting = false }) refl refl refl refl refl refl p,
      )
  | inr off ↦ (m, v, if_false m.selecting _ _ off, p)
]
