-- ===== src/Mouse/Packets.antt =====
-- One round of the handler of Kernel/mouse.c, for a byte of the mouse.
use gat_os_v.Base.{
  ℕ, suc, ◌+◌, ◌*◌, ◌≤◌, ◌≡◌, ◌⊎◌, arith, refl, if_true, if_false, ap, ◌∙◌, Bool, true, false, ◌||◌,
  Option, some, inl, inr, Bool-cases, ◌==◌,
}
use gat_os_v.Video.{Video, width, height}
use gat_os_v.Terminal.{Terminal}
use gat_os_v.Mouse.{Mouse, Desk, has_bit, then_with, end_packet, third_byte, mouse_round}
use gat_os_v.Mouse.Bounds.{IsPlaced, same_place, end_packet-IsPlaced}
use gat_os_v.Mouse.Drag.{drag-Ends, drop_selection-Ends}

-- A run that ends, in a cycle that `good` allows.
abbrev pub Settled : (ℕ → Type 0) → Option Desk → Type 0
Settled good r =
    (m : Mouse) × (v : Video) × (t : Terminal) × (r ≡ some (m, v, t))
    × IsPlaced m
    × good m.mouse_cycle

third_byte-ends :
    (fuel b : ℕ) (m : Mouse) (v : Video) (t : Terminal)
    → width * height + 1 ≤ fuel
    → IsPlaced m
    → Settled (λ c. c ≡ 4) (third_byte fuel b (m, v, t))
unfolding third_byte
third_byte-ends fuel b m v t enough p =
    let m1 = record m { byte_2 = b } in
    let p1 : IsPlaced m1 = same_place m m1 refl refl refl refl refl refl p in
    elim (Bool-cases (has_bit 0x80 m.byte_0 || has_bit 0x40 m.byte_0)) [
      | inl over ↦
          let m2 = record m1 { mouse_cycle = 4 } in
          (m2, v, t, if_true _ _ _ over, same_place m m2 refl refl refl refl refl refl p, refl)
      | inr fits ↦ elim (Bool-cases (has_bit 0x01 m.byte_0)) [
        | inl down ↦
            let (m2, v2, runs, q) = drag-Ends fuel m1 v enough p1 in
            let e = end_packet (m2, v2, t) in
            let (q1, c) = end_packet-IsPlaced m2 v2 t q in
            (e.0, e.1, e.2, if_false _ _ _ fits ∙ ap ended (if_true _ _ _ down ∙ runs), q1, c)
        | inr up ↦
            let (m2, v2, runs, q) = drop_selection-Ends fuel m1 v enough p1 in
            let e = end_packet (m2, v2, t) in
            let (q1, c) = end_packet-IsPlaced m2 v2 t q in
            (e.0, e.1, e.2, if_false _ _ _ fits ∙ ap ended (if_false _ _ _ up ∙ runs), q1, c)
      ]
    ]
  where
    ended : Option (Mouse × Video) → Option Desk
    ended r = then_with r (λ p. some (end_packet (p.0, p.1, t)))

-- A round reads one more byte of the packet, or completes it, or it returns.
abbrev pub Follows : ℕ → Bool → ℕ → Type 0
Follows c returns c' =
    ((returns ≡ true) × (c' ≤ 2))
    ⊎ (((returns ≡ false) × (c' ≡ suc c) × (c' ≤ 2)) ⊎ ((returns ≡ false) × (c' ≡ 4)))

pub mouse_round-ends :
    (fuel b : ℕ) (m : Mouse) (v : Video) (t : Terminal)
    → width * height + 1 ≤ fuel
    → IsPlaced m
    → m.mouse_cycle ≤ 2
    → (returns : Bool) × (m' : Mouse) × (v' : Video) × (t' : Terminal) × (mouse_round fuel b
          (m, v, t)
        ≡ some (returns, (m', v', t')))
      × IsPlaced m'
      × Follows m.mouse_cycle returns m'.mouse_cycle
unfolding mouse_round
mouse_round-ends fuel b m v t enough p le = elim (Bool-cases (m.mouse_cycle == 0)) [
  | inl zeroth ↦ elim (Bool-cases (has_bit 0x08 b)) [
    | inl good ↦
        let m1 = record m { byte_0 = b; mouse_cycle = 1 } in
        let next : 1 ≡ suc m.mouse_cycle = ground (arith, zeroth) in
        (
          false,
          m1,
          v,
          t,
          if_true _ _ _ zeroth ∙ if_true _ _ _ good,
          same_place m m1 refl refl refl refl refl refl p,
          inr (inl (refl, next, omega arith)),
        )
    | inr bad ↦
        let m1 = record m { byte_0 = b } in
        (
          true,
          m1,
          v,
          t,
          if_true _ _ _ zeroth ∙ if_false _ _ _ bad,
          same_place m m1 refl refl refl refl refl refl p,
          inl (refl, le),
        )
  ]
  | inr not_zeroth ↦ elim (Bool-cases (m.mouse_cycle == 1)) [
    | inl first ↦
        let m1 = record m { byte_1 = b; mouse_cycle = 2 } in
        let next : 2 ≡ suc m.mouse_cycle = ground (arith, first) in
        (
          false,
          m1,
          v,
          t,
          if_false _ _ _ not_zeroth ∙ if_true _ _ _ first,
          same_place m m1 refl refl refl refl refl refl p,
          inr (inl (refl, next, omega arith)),
        )
    | inr not_first ↦
        let second : (m.mouse_cycle == 2) ≡ true = ground (arith, not_zeroth, not_first) in
        let (m1, v1, t1, runs, q, c) = third_byte-ends fuel b m v t enough p in
        (
          false,
          m1,
          v1,
          t1,
          if_false _ _ _ not_zeroth
              ∙ if_false _ _ _ not_first
              ∙ if_true _ _ _ second
              ∙ ap (λ r. then_with r (λ d. some (false, d))) runs,
          q,
          inr (inr (refl, c)),
        )
  ]
]
