-- ===== src/Buddy/RoundTrip.antt =====
-- `deallocPage` after `allocPage`.
use gat_os_v.Base.{
  ℕ, zero, suc, ◌+◌, ◌-◌, ◌*◌, ◌^◌, ◌≤◌, ◌<◌, ◌≡◌, ◌≢◌, ◌⊎◌, inl, inr, arith, pow-pos, some, sym,
  subst, ap, ◌∙◌, update_self,
}
use gat_os_v.Buddy.{
  null, heap_size, number_of_pages, empty, Buddy, node, mark, alloc_page, create_heap, leaf_of,
  dealloc_page,
}
use gat_os_v.Buddy.Walk.{above}
use gat_os_v.Buddy.Pages.{above-add, above-block}
use gat_os_v.Buddy.Search.{mark_ne}
use gat_os_v.Buddy.Layout.{layout, create_heap_lem}
use gat_os_v.Buddy.Ordered.{empty-Free}
use gat_os_v.Buddy.Alloc.{alloc_page_lem, root-Fits}
use gat_os_v.Buddy.Blocks.{page_node, page_address, page_node-le, block_pages}
use gat_os_v.Buddy.Sequence.{create_heap-IsOrdered}
use gat_os_v.Buddy.Release.{climb-empty}

-- For a node at depth at most 10, `deallocPage` computes from the address of its block the leaf of
-- the first page of the block.
leaf_of-layout : (d e : ℕ) → d ≤ 10 → e < 2 ^ d → leaf_of (layout d e) ≡ (2 ^ d + e) * 2 ^ (10 - d)
leaf_of-layout d e le small = omega (arith, page_address d e 0 le, block_pages d le)

-- With one block in use, freeing that block leaves every node EMPTY.
dealloc_only :
    (d e : ℕ) (b : Buddy)
    → d ≤ 10
    → e < 2 ^ d
    → ((m : ℕ) → 1 ≤ m → m ≤ heap_size → ((j : ℕ) → above j (2 ^ d + e) ≢ m) → node b m ≡ empty)
    → (m : ℕ) → 1 ≤ m
    → m ≤ heap_size
    → node (dealloc_page (layout d e) b) m ≡ empty
unfolding dealloc_page
dealloc_only d e b le small only m mp ml =
    let leaf = leaf_of (layout d e) in
    let first : page_node d e 0 ≡ leaf = omega (arith, leaf_of-layout d e le small) in
    let inside : leaf ≤ heap_size =
      omega (arith, first, page_node-le d e 0 le small (pow-pos (10 - d))) in
    climb-empty leaf leaf (mark b leaf empty) (omega arith) (omega arith) inside
      (λ k pos kle out. elim (same_or_not leaf k) [
        | inl same ↦
            subst (λ t. node (mark b leaf empty) t ≡ empty) same
              (update_self b.occupied (leaf - 1) empty)
        | inr ne ↦
            mark_ne b leaf k empty (omega arith) pos ne
            ∙ only k pos kle (λ j up. higher leaf k first ne out j up)
      ])
      m mp ml
  where
    same_or_not : (a b : ℕ) → (a ≡ b) ⊎ (a ≢ b)
    same_or_not a b = ground arith

    -- A node above the block is above its first leaf.
    higher :
        (leaf k : ℕ)
        → page_node d e 0 ≡ leaf
        → leaf ≢ k
        → ((j : ℕ) → above (suc j) leaf ≢ k)
        → (j : ℕ) → above j (2 ^ d + e) ≢ k
    higher leaf k first ne out j up =
        let chain : above (j + (10 - d)) leaf ≡ k =
          above-add j (10 - d) leaf
          ∙ ap (above j) (
              ap (above (10 - d)) (sym first)
              ∙ above-block (10 - d) (2 ^ d + e) 0 (pow-pos (10 - d)))
          ∙ up in
        last (j + (10 - d)) chain
      where
        last : (i : ℕ) → above i leaf ≡ k → ⊥
        last zero e = ne e
        last (suc i) e = out i e

-- On a heap that `createHeap` has set up, a request of 1 to 1024 pages succeeds, and to free the
-- block handed out makes the whole tree EMPTY again.
pub alloc-dealloc :
    (pages : ℕ) (b0 : Buddy)
    → 1 ≤ pages
    → pages ≤ number_of_pages
    → (p : ℕ) × (b : Buddy) × (alloc_page pages (create_heap b0) ≡ some (p, b))
      × (p ≢ null)
      × ((m : ℕ) → 1 ≤ m → m ≤ heap_size → node (dealloc_page p b) m ≡ empty)
alloc-dealloc pages b0 lo hi =
    let (laid, empties) = create_heap_lem b0 in
    let o = create_heap-IsOrdered b0 in
    let (p, b, runs, result) = alloc_page_lem pages (create_heap b0) laid o in
    elim result [
      | inl (z, same, inl no_pages) ↦ absurd (omega (arith, lo, no_pages))
      | inl (z, same, inr (inl too_many)) ↦ absurd (omega (arith, hi, too_many))
      | inl (z, same, inr (inr (c, log, le, no_node))) ↦
          let (n, f) =
            empty-Free (10 - c) 1 (create_heap b0) o (root-Fits _ (omega arith))
              (empties 0 (omega arith)) in
          absurd (no_node n f)
      | inr (ne, g) ↦ (
        p,
        b,
        runs,
        ne,
        rw (g.address) (
            dealloc_only g.depth g.offset b g.deep g.small
              (λ m pos mle out. g.kept m pos out ∙ empties (m - 1) (omega arith))),
      )
    ]
