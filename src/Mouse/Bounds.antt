-- ===== src/Mouse/Bounds.antt =====
-- Where the mouse of Kernel/mouse.c can be.
use gat_os_v.Base.{
  ℕ, suc, ◌+◌, ◌<◌, ◌≡◌, arith, refl, sym, ◌∙◌, subst, if_true, if_false, true, false, not, ◌&&◌,
  inl, inr, Bool-cases, ltb, if◌then◌else◌, ℤ, pos, negsuc, ltb_ℤ, ◌+ℤ◌, ◌-ℤ◌,
}
use gat_os_v.Video.{Video, width, height}
use gat_os_v.Terminal.{Terminal}
use gat_os_v.Mouse.{Mouse, has_bit, paste_button, tenth, relative, move, end_packet}

-- An integer from 0 up to a bound.
abbrev pub Below : ℕ → ℤ → Type 0
Below n z = (k : ℕ) × (z ≡ pos k) × (k < n)

-- The mouse and both ends of the selection are on the screen.
pub record IsPlaced (m : Mouse) : Type 0 where
  pub column : Below width m.x
  pub row : Below height m.y
  pub first_column : Below width m.xinit
  pub first_row : Below height m.yinit
  pub last_column : Below width m.xfin
  pub last_row : Below height m.yfin

-- A step that would leave the range is not taken.
stays_below :
    (n : ℕ) (z z' : ℤ)
    → Below n z
    → Below n (if ltb_ℤ z' (pos n) && not (ltb_ℤ z' (pos 0)) then z' else z)
stays_below n z (pos k) b = elim (Bool-cases (ltb k n)) [
  | inl below ↦
      let taken : (ltb (k + 0) (n + 0) && not (ltb (k + 0) 0)) ≡ true = ground arith in
      (k, rw taken refl, ground (arith, below))
  | inr above ↦
      let kept : (ltb (k + 0) (n + 0) && not (ltb (k + 0) 0)) ≡ false = ground arith in
      (b.0, rw kept b.1, b.2)
]
stays_below n z (negsuc k) b =
    let kept : (ltb 0 (n + suc k) && not (ltb 0 (0 + suc k))) ≡ false = ground arith in
    (b.0, rw kept b.1, b.2)

move-IsPlaced : (m : Mouse) → IsPlaced m → IsPlaced (move m)
unfolding move
move-IsPlaced m p = record {
  column =
      stays_below width m.x (m.x +ℤ tenth (relative (has_bit 0x10 m.byte_0) m.byte_1)) p.column;
  row = stays_below height m.y (m.y -ℤ tenth (relative (has_bit 0x20 m.byte_0) m.byte_2)) p.row;
  first_column = p.first_column;
  first_row = p.first_row;
  last_column = p.last_column;
  last_row = p.last_row;
}

-- What changes neither the place of the mouse nor the selection.
pub same_place :
    (m m' : Mouse)
    → m'.x ≡ m.x
    → m'.y ≡ m.y
    → m'.xinit ≡ m.xinit
    → m'.yinit ≡ m.yinit
    → m'.xfin ≡ m.xfin
    → m'.yfin ≡ m.yfin
    → IsPlaced m
    → IsPlaced m'
same_place m m' x y xi yi xf yf p = record {
  column = (p.column.0, x ∙ p.column.1, p.column.2);
  row = (p.row.0, y ∙ p.row.1, p.row.2);
  first_column = (p.first_column.0, xi ∙ p.first_column.1, p.first_column.2);
  first_row = (p.first_row.0, yi ∙ p.first_row.1, p.first_row.2);
  last_column = (p.last_column.0, xf ∙ p.last_column.1, p.last_column.2);
  last_row = (p.last_row.0, yf ∙ p.last_row.1, p.last_row.2);
}

paste_button-IsPlaced :
    (m : Mouse) (v : Video) (t : Terminal) → IsPlaced m → IsPlaced (paste_button m v t).0
unfolding paste_button
paste_button-IsPlaced m v t p = elim (Bool-cases (has_bit 0x02 m.byte_0)) [
  | inl down ↦ rw down (same_place m (record m { flag = true }) refl refl refl refl refl refl p)
  | inr up ↦ elim (Bool-cases m.flag) [
    | inl was_down ↦ rw up (
        subst (λ (r : Mouse × Terminal). IsPlaced r.0) (sym (if_true m.flag _ _ was_down))
          (same_place m (record m { flag = false }) refl refl refl refl refl refl p))
    | inr was_up ↦
        rw up (subst (λ (r : Mouse × Terminal). IsPlaced r.0) (sym (if_false m.flag _ _ was_up)) p)
  ]
]

pub end_packet-IsPlaced :
    (m : Mouse) (v : Video) (t : Terminal)
    → IsPlaced m
    → IsPlaced (end_packet (m, v, t)).0 × ((end_packet (m, v, t)).0.mouse_cycle ≡ 4)
unfolding end_packet
end_packet-IsPlaced m v t p =
    let q = move-IsPlaced (paste_button m v t).0 (paste_button-IsPlaced m v t p) in
    (same_place _ _ refl refl refl refl refl refl q, refl)
