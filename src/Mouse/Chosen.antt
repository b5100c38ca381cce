-- ===== src/Mouse/Chosen.antt =====
-- What a selection of Kernel/mouse.c pastes, whichever of its ends comes first on the screen.
use gat_os_v.Base.{
  ℕ, zero, suc, ◌+◌, ◌-◌, ◌*◌, ◌≤◌, ◌<◌, ◌≡◌, arith, refl, sym, ap, ap₂, if_true, if_false, ◌∙◌,
  some, ◌++◌, inl, inr, Bool-cases, ltb, if◌then◌else◌, pos, pos_part,
}
use gat_os_v.Video.{Video, Cells, width, height, selection, copy_mouse, paste, paste_loop}
use gat_os_v.Video.Selection.{selection-ends}
use gat_os_v.Video.Paste.{text_at, paste-copy_mouse}
use gat_os_v.Terminal.{Terminal, buffer_size, put_terminal_buffer}
use gat_os_v.Terminal.Contents.{IsTerminal, waiting, contents}
use gat_os_v.Mouse.{Mouse, is_backward, select_range}

-- The lower and the higher of two places
abbrev pub lower : ℕ → ℕ → ℕ
lower p q = if ltb q p then q else p

abbrev pub higher : ℕ → ℕ → ℕ
higher p q = if ltb q p then p else q

paste_loop-attributes :
    (n h : ℕ) (cells : Cells) (v : Video) (t : Terminal)
    → paste_loop n h (record v { attributes = cells }) t ≡ paste_loop n h v t
unfolding paste_loop
paste_loop-attributes zero h cells v t = refl
paste_loop-attributes (suc n) h cells v t =
    paste_loop-attributes n (h + 1) cells v (put_terminal_buffer (v.mouse_select h) t)

-- What a selection from the place `k` to the place `e` pastes
pasted :
    (fuel f c f' c' : ℕ) (v : Video) (t : Terminal)
    → width * height + 1 ≤ fuel
    → f < height
    → c < width
    → f' < height
    → c' < width
    → f * width + c ≤ f' * width + c'
    → ((i j : ℕ) → v.video i j < 256)
    → IsTerminal t
    → waiting t + (f' * width + c' + 1 - (f * width + c)) < buffer_size
    → (v1 : Video) × (selection fuel (pos f) (pos c) (pos f') (pos c') v ≡ some v1)
      × (contents (paste v1 t)
          ≡ contents t ++ text_at (f * width + c) (f' * width + c' + 1 - (f * width + c)) v.video)
pasted fuel f c f' c' v t enough lf lc lf' lc' le bytes valid room =
    let k : ℕ = f * width + c in
    let e : ℕ = f' * width + c' in
    let (cells, runs) = selection-ends fuel f c f' c' v enough lf lc in
    let chosen : Video = copy_mouse (pos k) (pos e) v in
    let (_, text) = paste-copy_mouse k e v t le (omega arith) bytes valid room in
    (
      record chosen { attributes = cells },
      runs,
      ap contents (paste_loop-attributes (pos_part chosen.size) 0 cells chosen t) ∙ text,
    )

backward-places :
    (f c f' c' : ℕ) (m : Mouse)
    → m.yinit ≡ pos f
    → m.xinit ≡ pos c
    → m.yfin ≡ pos f'
    → m.xfin ≡ pos c'
    → c < width
    → c' < width
    → is_backward m ≡ ltb (f' * width + c') (f * width + c)
unfolding is_backward
backward-places f c f' c' m yi xi yf xf lc lc' = rw (yi, xi, yf, xf) (ground arith)

-- The mouse pastes the characters between the two ends of its selection, both of them on the screen, in
-- the order of the screen and whichever end was set first, behind those that wait in the terminal; a
-- blank stands where there is no character. The screen holds bytes, the terminal has room for them, and
-- `fuel` is at least 2001.
pub select_range-paste :
    (fuel f c f' c' : ℕ) (m : Mouse) (v : Video) (t : Terminal)
    → width * height + 1 ≤ fuel
    → m.yinit ≡ pos f
    → m.xinit ≡ pos c
    → m.yfin ≡ pos f'
    → m.xfin ≡ pos c'
    → f < height
    → c < width
    → f' < height
    → c' < width
    → ((i j : ℕ) → v.video i j < 256)
    → IsTerminal t
    → let p = f * width + c in
      let q = f' * width + c' in
      waiting t + (higher p q + 1 - lower p q) < buffer_size
      → (v1 : Video) × (select_range fuel m v ≡ some v1)
        × (contents (paste v1 t)
            ≡ contents t ++ text_at (lower p q) (higher p q + 1 - lower p q) v.video)
unfolding select_range
select_range-paste fuel f c f' c' m v t enough yi xi yf xf lf lc lf' lc' bytes valid room =
    let p : ℕ = f * width + c in
    let q : ℕ = f' * width + c' in
    let order = backward-places f c f' c' m yi xi yf xf lc lc' in
    let text = λ (a b : ℕ). contents t ++ text_at a (b + 1 - a) v.video in
    elim (Bool-cases (ltb q p)) [
      | inl back ↦
          let low : lower p q ≡ q = if_true (ltb q p) q p back in
          let high : higher p q ≡ p = if_true (ltb q p) p q back in
          let (v1, runs, result) =
            pasted fuel f' c' f c v t enough lf' lc' lf lc (ground (arith, back)) bytes valid
              (omega (arith, low, high, room)) in
          (
            v1,
            if_true _ _ _ (order ∙ back) ∙ rw (yi, xi, yf, xf) runs,
            result ∙ sym (ap₂ text low high),
          )
      | inr on ↦
          let low : lower p q ≡ p = if_false (ltb q p) q p on in
          let high : higher p q ≡ q = if_false (ltb q p) p q on in
          let (v1, runs, result) =
            pasted fuel f c f' c' v t enough lf lc lf' lc' (ground (arith, on)) bytes valid
              (omega (arith, low, high, room)) in
          (
            v1,
            if_false _ _ _ (order ∙ on) ∙ rw (yi, xi, yf, xf) runs,
            result ∙ sym (ap₂ text low high),
          )
    ]
