-- ===== src/Buddy/Walk.antt =====
-- The runs of `getNextPageRecursive` as a relation, and the nodes that a run looks at.
use gat_os_v.Base.{
  ℕ, zero, suc, ◌-◌, ◌/◌, ◌≡◌, ◌≢◌, ◌⊎◌, inl, inr, true, false, arith, ◌==◌, Bool-cases, refl,
  if◌then◌else◌,
}
use gat_os_v.Buddy.{
  null, lchild, rchild, Occupied, empty, partially_full, buddy_full, is_full, is_empty, Buddy, node,
  mark, get_next_page_recursive,
}

-- `n` lies `k` levels below `i`, is EMPTY, and no node on the way is BUDDY_FULL.
abbrev pub Free : Buddy → ℕ → ℕ → ℕ → Type 0
Free b zero i n = (n ≡ i) × (node b i ≡ empty)
Free b (suc k) i n = (is_full (node b i) ≡ false) × (Free b k (lchild i) n ⊎ Free b k (rchild i) n)

-- The node `j` levels above `m`.
abbrev pub above : ℕ → ℕ → ℕ
above zero m = m
above (suc j) m = above j m / 2

-- One constructor for each way through the function: level, node, heap; result and heap after.
pub data Walk : ℕ → ℕ → Buddy → ℕ → Buddy → Type 0 where
  refused : {i : ℕ} {b : Buddy} → is_empty (node b i) ≡ false → Walk zero i b null b
  taken :
      {i : ℕ} {b : Buddy} → node b i ≡ empty → Walk zero i b (b.base (i - 1)) (mark b i buddy_full)
  full : {k i : ℕ} {b : Buddy} → is_full (node b i) ≡ true → Walk (suc k) i b null b
  went_left :
      {k i p : ℕ} {b b1 : Buddy}
      → is_full (node b i) ≡ false
      → Walk k (lchild i) b p b1
      → p ≢ null
      → Walk (suc k) i b p (mark b1 i partially_full)
  went_right :
      {k i p q : ℕ} {b b1 b2 : Buddy}
      → is_full (node b i) ≡ false
      → Walk k (lchild i) b p b1
      → p ≡ null
      → Walk k (rchild i) b1 q b2
      → q ≢ null
      → Walk (suc k) i b q (if is_full (node b2 (rchild i)) then mark b2 i buddy_full else b2)
  exhausted :
      {k i p q : ℕ} {b b1 b2 : Buddy}
      → is_full (node b i) ≡ false
      → Walk k (lchild i) b p b1
      → p ≡ null
      → Walk k (rchild i) b1 q b2
      → q ≡ null
      → Walk (suc k) i b null b2

leaf-Walk :
    (i : ℕ) (b : Buddy) → let (p, b') = get_next_page_recursive zero i b in Walk zero i b p b'
unfolding get_next_page_recursive
leaf-Walk i b = go (node b i) refl
  where
    go :
        (o : Occupied)
        → node b i ≡ o
        → Walk zero i b (get_next_page_recursive zero i b).0 (get_next_page_recursive zero i b).1
    go empty e = rw e (taken e)
    go partially_full e = rw e (refused (rw e))
    go buddy_full e = rw e (refused (rw e))

pub search-Walk :
    (k i : ℕ) (b : Buddy) → let (p, b') = get_next_page_recursive k i b in Walk k i b p b'
unfolding get_next_page_recursive
search-Walk zero i b = leaf-Walk i b
search-Walk (suc k) i b = elim (Bool-cases (is_full (node b i))) [
  | inl e ↦ rw (e, get_next_page_recursive) (full e)
  | inr e ↦
      let (p, b1) = get_next_page_recursive k (lchild i) b in
      elim (Bool-cases (p == null)) [
        | inr e1 ↦
            rw (e, e1, get_next_page_recursive)
              (went_left e (search-Walk k (lchild i) b) (ground arith))
        | inl e1 ↦
            let (q, b2) = get_next_page_recursive k (rchild i) b1 in
            elim (Bool-cases (q == null)) [
              | inl e2 ↦
                  rw (e, e1, e2, get_next_page_recursive)
                    (exhausted e (search-Walk k (lchild i) b) (ground arith)
                      (search-Walk k (rchild i) b1) (ground arith))
              | inr e2 ↦
                  rw (e, e1, e2, get_next_page_recursive)
                    (went_right e (search-Walk k (lchild i) b) (ground arith)
                      (search-Walk k (rchild i) b1) (ground arith))
            ]
      ]
]
