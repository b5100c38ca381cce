-- ===== src/Mouse/Handler.antt =====
-- The loop of the handler of Kernel/mouse.c, and when it ends.
use gat_os_v.Base.{
  ℕ, zero, suc, ◌+◌, ◌*◌, ◌≤◌, ◌<◌, ◌≡◌, ◌⊎◌, arith, refl, sym, if_true, if_false, ap, ◌∙◌, Bool,
  true, false, Option, none, some, inl, inr, Bool-cases, leb, if◌then◌else◌,
}
use gat_os_v.Video.{Video, width, height}
use gat_os_v.Terminal.{Terminal}
use gat_os_v.Mouse.{Mouse, Desk, has_bit, then_with, next_round, Readings, later, mouse_handler}
use gat_os_v.Mouse.Bounds.{IsPlaced, same_place}
use gat_os_v.Mouse.Packets.{Settled, Follows, mouse_round-ends}

-- The rounds, of so many, whose byte comes from the mouse
unfoldable pub mouse_rounds : ℕ → Readings → ℕ
mouse_rounds zero readings = 0
mouse_rounds (suc rounds) readings =
    (if has_bit 0x20 (readings 0).0 then 1 else 0) + mouse_rounds rounds (later readings)

-- Within so many rounds the controller has nothing left, or the mouse has sent what a packet of which
-- `c` bytes are read still lacks.
abbrev pub Stops : ℕ → ℕ → Readings → Type 0
Stops c rounds readings =
    ((k : ℕ) × (k < rounds) × (has_bit 0x01 (readings k).0 ≡ false))
    ⊎ (3 ≤ c + mouse_rounds rounds readings)

-- A run that ends between two bytes of a packet
abbrev Ended : Option Desk → Type 0
Ended r = Settled (λ c. c ≤ 2) r

goes_on-Ended :
    (go : Desk → Option Desk) (m : Mouse) (v : Video) (t : Terminal)
    → m.mouse_cycle ≤ 2
    → Ended (go (m, v, t))
    → Ended (next_round go (false, (m, v, t)))
unfolding next_round
goes_on-Ended go m v t le (m1, v1, t1, runs, q, c) =
    let on : leb 4 m.mouse_cycle ≡ false = ground arith in
    (m1, v1, t1, if_false _ _ _ on ∙ runs, q, c)

next_round-Ended :
    (go : Desk → Option Desk) (c : ℕ) (returns : Bool) (m : Mouse) (v : Video) (t : Terminal)
    → ((m.mouse_cycle ≡ suc c) → (m.mouse_cycle ≤ 2) → Ended (go (m, v, t)))
    → IsPlaced m
    → Follows c returns m.mouse_cycle
    → Ended (next_round go (returns, (m, v, t)))
unfolding next_round
next_round-Ended go c true m v t ih p (inl (e, le)) = (m, v, t, refl, p, le)
next_round-Ended go c true m v t ih p (inr (inl (e, next, le))) = absurd cc
next_round-Ended go c true m v t ih p (inr (inr (e, four))) = absurd cc
next_round-Ended go c false m v t ih p (inl (e, le)) = absurd cc
next_round-Ended go c false m v t ih p (inr (inl (e, next, le))) =
    goes_on-Ended go m v t le (ih next le)
next_round-Ended go c false m v t ih p (inr (inr (e, four))) =
    let m1 = record m { mouse_cycle = 0 } in
    let complete : leb 4 m.mouse_cycle ≡ true = ground arith in
    (m1, v, t, if_true _ _ _ complete, same_place m m1 refl refl refl refl refl refl p, omega arith)

-- The condition behind a round whose status is not the reason to end.
Stops-later :
    (c c' rounds : ℕ) (readings : Readings)
    → has_bit 0x01 (readings 0).0 ≡ true
    → c' ≡ c + (if has_bit 0x20 (readings 0).0 then 1 else 0)
    → Stops c (suc rounds) readings
    → Stops c' rounds (later readings)
unfolding mouse_rounds
Stops-later c c' rounds readings full more (inl (zero, lt, clear)) = absurd cc
Stops-later c c' rounds readings full more (inl (suc k, lt, clear)) =
    let next : suc k ≡ k + 1 = omega arith in
    inl (k, omega arith, ap (λ j. has_bit 0x01 (readings j).0) (sym next) ∙ clear)
Stops-later c c' rounds readings full more (inr bytes) = inr (omega (arith, more, bytes))

-- With 2001 rounds for each selection, the handler ends within any number of rounds in which the
-- controller has nothing left once, or the mouse sends the bytes that the packet lacks. A mouse and a
-- selection that are on the screen stay there, and at most two bytes of a packet are left read.
pub mouse_handler-ends :
    (rounds fuel : ℕ) (readings : Readings) (m : Mouse) (v : Video) (t : Terminal)
    → width * height + 1 ≤ fuel
    → IsPlaced m
    → m.mouse_cycle ≤ 2
    → Stops m.mouse_cycle rounds readings
    → (m' : Mouse) × (v' : Video) × (t' : Terminal) × (mouse_handler rounds fuel readings (m, v, t)
        ≡ some (m', v', t'))
      × IsPlaced m'
      × (m'.mouse_cycle ≤ 2)
unfolding mouse_handler mouse_rounds
mouse_handler-ends zero fuel readings m v t enough p le (inl (k, lt, clear)) = absurd (omega arith)
mouse_handler-ends zero fuel readings m v t enough p le (inr bytes) = absurd (omega arith)
mouse_handler-ends (suc rounds) fuel readings m v t enough p le stops =
    elim (Bool-cases (has_bit 0x01 (readings 0).0)) [
      | inr nothing ↦ (m, v, t, if_false _ _ _ nothing, p, le)
      | inl full ↦ elim (Bool-cases (has_bit 0x20 (readings 0).0)) [
        | inr other_device ↦
            let same : m.mouse_cycle
                ≡ m.mouse_cycle + (if has_bit 0x20 (readings 0).0 then 1 else 0) =
              ground (arith, other_device) in
            let rest = Stops-later m.mouse_cycle m.mouse_cycle rounds readings full same stops in
            let (m1, v1, t1, runs, q, c) =
              goes_on-Ended (mouse_handler rounds fuel (later readings)) m v t le
                (mouse_handler-ends rounds fuel (later readings) m v t enough p le rest) in
            (m1, v1, t1, if_true _ _ _ full ∙ ap next (if_false _ _ _ other_device) ∙ runs, q, c)
        | inl mouse ↦
            let (returns, m1, v1, t1, round, p1, follows) =
              mouse_round-ends fuel (readings 0).1 m v t enough p le in
            let ih = λ (more : m1.mouse_cycle ≡ suc m.mouse_cycle) (le' : m1.mouse_cycle ≤ 2).
              mouse_handler-ends rounds fuel (later readings) m1 v1 t1 enough p1 le' (
                Stops-later m.mouse_cycle m1.mouse_cycle rounds readings full
                  (ground (arith, more, mouse)) stops) in
            let (m2, v2, t2, runs, q, c) =
              next_round-Ended (mouse_handler rounds fuel (later readings)) m.mouse_cycle returns m1
                v1 t1 ih p1 follows in
            (m2, v2, t2, if_true _ _ _ full ∙ ap next (if_true _ _ _ mouse ∙ round) ∙ runs, q, c)
      ]
    ]
  where
    next : Option (Bool × Desk) → Option Desk
    next r = then_with r (next_round (mouse_handler rounds fuel (later readings)))

-- As long as the controller holds bytes that do not come from the mouse, the handler goes on reading
-- them: it ends within no number of rounds.
mouse_handler_stuck :
    (rounds fuel : ℕ) (readings : Readings) (m : Mouse) (v : Video) (t : Terminal)
    → m.mouse_cycle ≤ 2
    → ((k : ℕ) → has_bit 0x01 (readings k).0 ≡ true)
    → ((k : ℕ) → has_bit 0x20 (readings k).0 ≡ false)
    → mouse_handler rounds fuel readings (m, v, t) ≡ none
unfolding mouse_handler next_round
mouse_handler_stuck zero fuel readings m v t le full other = refl
mouse_handler_stuck (suc rounds) fuel readings m v t le full other =
    let on : leb 4 m.mouse_cycle ≡ false = ground arith in
    if_true _ _ _ (full 0)
    ∙ ap (λ r. then_with r (next_round (mouse_handler rounds fuel (later readings))))
        (if_false _ _ _ (other 0))
    ∙ if_false _ _ _ on
    ∙ mouse_handler_stuck rounds fuel (later readings) m v t le (λ k. full (k + 1))
        (λ k. other (k + 1))
