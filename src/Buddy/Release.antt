-- ===== src/Buddy/Release.antt =====
-- `deallocPage`: the leaf that it frees, and what its climb does to the tree.
use gat_os_v.Base.{
  ℕ, zero, suc, ◌+◌, ◌-◌, ◌≤◌, ◌≡◌, ◌≢◌, ◌⊎◌, inl, inr, arith, refl, sym, subst, ap, ◌∙◌, ◌==◌,
  Bool-cases, update_self,
}
use gat_os_v.Buddy.{
  heap_size, parent, sibling, Occupied, empty, partially_full, buddy_full, Buddy, node,
  free_up_step, free_up_recursive,
}
use gat_os_v.Buddy.Search.{mark_ne}
use gat_os_v.Buddy.Walk.{above}
use gat_os_v.Buddy.Pages.{above-add}
use gat_os_v.Buddy.Ordered.{above-le}

-- Every node in use lies above `i`.
abbrev pub OnlyAbove : ℕ → Buddy → Type 0
OnlyAbove i b = (m : ℕ) → 1 ≤ m → m ≤ heap_size → ((j : ℕ) → above (suc j) i ≢ m) → node b m ≡ empty

above-parent : (j m : ℕ) → above (suc j) m ≡ above j (parent m)
above-parent j m = ap (λ t. above t m) (suc_add j) ∙ above-add j 1 m
  where
    suc_add : (j : ℕ) → suc j ≡ j + 1
    suc_add j = omega arith

-- A step at `i` empties the parent, whose other child is EMPTY, and leaves the rest alone.
step-parent :
    (i : ℕ) (b : Buddy)
    → node b (sibling i) ≡ empty
    → (node (free_up_step i b) (parent i) ≡ empty)
      × ((m : ℕ) → 1 ≤ parent i → 1 ≤ m → parent i ≢ m → node (free_up_step i b) m ≡ node b m)
unfolding free_up_step
step-parent i b free = go (node b (parent i)) refl
  where
    go :
        (o : Occupied)
        → node b (parent i) ≡ o
        → (node (free_up_step i b) (parent i) ≡ empty)
          × ((m : ℕ) → 1 ≤ parent i → 1 ≤ m → parent i ≢ m → node (free_up_step i b) m ≡ node b m)
    go empty e = rw e (e, λ m p pos ne. refl)
    go partially_full e =
        rw (e, free)
          (
            update_self b.occupied (parent i - 1) empty,
            λ m p pos ne. mark_ne b (parent i) m empty p pos ne,
          )
    go buddy_full e =
        rw (e, free)
          (
            update_self b.occupied (parent i - 1) empty,
            λ m p pos ne. mark_ne b (parent i) m empty p pos ne,
          )

sibling-empty :
    (i : ℕ) (b : Buddy) → 2 ≤ i → i ≤ heap_size → OnlyAbove i b → node b (sibling i) ≡ empty
sibling-empty i b two le only =
    only (sibling i) (ground arith) (ground arith)
      (λ j up. beyond i j two (above-le j (parent i)) (sym (above-parent j i) ∙ up))
  where
    beyond : (i j : ℕ) → 2 ≤ i → above j (parent i) ≤ parent i → above j (parent i) ≡ sibling i → ⊥
    beyond i j two le e = ground arith

step-OnlyAbove :
    (i : ℕ) (b : Buddy)
    → 2 ≤ i
    → i ≤ heap_size
    → OnlyAbove i b
    → OnlyAbove (parent i) (free_up_step i b)
step-OnlyAbove i b two le only m pos mle out =
    let (emptied, rest) = step-parent i b (sibling-empty i b two le only) in
    elim (same_or_not (parent i) m) [
      | inl e ↦ subst (λ t. node (free_up_step i b) t ≡ empty) e emptied
      | inr ne ↦ rest m (omega arith) pos ne ∙ only m pos mle (λ j up. higher j ne up)
    ]
  where
    same_or_not : (a b : ℕ) → (a ≡ b) ⊎ (a ≢ b)
    same_or_not a b = ground arith

    higher : (j : ℕ) → parent i ≢ m → above (suc j) i ≡ m → ⊥
    higher zero ne up = ne up
    higher (suc j) ne up = out j (sym (above-parent (suc j) i) ∙ up)

-- The climb from a node with nothing in use but the nodes above it empties the tree.
pub climb-empty :
    (fuel i : ℕ) (b : Buddy)
    → 1 ≤ i
    → i ≤ fuel
    → i ≤ heap_size
    → OnlyAbove i b
    → (m : ℕ) → 1 ≤ m
    → m ≤ heap_size
    → node (free_up_recursive fuel i b) m ≡ empty
unfolding free_up_recursive
climb-empty zero i b pos f le only m mp ml = absurd (omega arith)
climb-empty (suc fuel) i b pos f le only m mp ml = elim (Bool-cases (i == 1)) [
  | inl e ↦ rw e (only m mp ml (λ j up. top j (ground arith) up))
  | inr e ↦ rw e (
      climb-empty fuel (parent i) (free_up_step i b) (ground arith) (ground arith) (ground arith)
        (step-OnlyAbove i b (ground arith) le only) m mp ml)
]
  where
    top : (j : ℕ) → i ≡ 1 → above (suc j) i ≡ m → ⊥
    top j one up = absurd (omega (arith, above-le j i))
