-- ===== src/Buddy/Ordered.antt =====
-- The order that allocation keeps: below an EMPTY node all is EMPTY.
use gat_os_v.Base.{
  ℕ, zero, suc, ◌-◌, ◌*◌, ◌/◌, ◌≤◌, ◌<◌, ◌≡◌, ◌≢◌, ◌⊎◌, inl, inr, Bool, true, false, arith, refl,
  subst, sym, ◌∙◌, update_self, if◌then◌else◌,
}
use gat_os_v.Buddy.{
  null, parent, lchild, rchild, heap_size, Occupied, empty, partially_full, buddy_full, is_full,
  Buddy, node, mark,
}
use gat_os_v.Buddy.Walk.{Free, above, Walk, refused, taken, full, went_left, went_right, exhausted}
use gat_os_v.Buddy.Search.{
  Addressed, Fits, Fits-left, Fits-right, Fits-le, Walk-Missed, mark_ne, if-mark_ne,
}

pub record IsOrdered (b : Buddy) : Type 0 where
  pub down : (m : ℕ) → 2 ≤ m → m ≤ heap_size → node b (parent m) ≡ empty → node b m ≡ empty

-- The same, but for the edge above `i`.
record OrderedBut (i : ℕ) (b : Buddy) : Type 0 where
  down : (m : ℕ) → 2 ≤ m → m ≤ heap_size → m ≢ i → node b (parent m) ≡ empty → node b m ≡ empty
  used : node b i ≢ empty

half_double : (i : ℕ) → i * 2 / 2 ≡ i
half_double i = omega arith

lchild-empty :
    (k i : ℕ) (b : Buddy)
    → IsOrdered b
    → Fits (suc k) i
    → node b i ≡ empty
    → node b (lchild i) ≡ empty
lchild-empty k i b o h e =
    o.down (lchild i) (omega (arith, h.0)) (Fits-le k (lchild i) (Fits-left k i h))
      (rw (half_double i) e)

pub empty-Free :
    (k i : ℕ) (b : Buddy) → IsOrdered b → Fits k i → node b i ≡ empty → (n : ℕ) × Free b k i n
empty-Free zero i b o h e = (i, (refl, e))
empty-Free (suc k) i b o h e =
    let (n, f) = empty-Free k (lchild i) b o (Fits-left k i h) (lchild-empty k i b o h e) in
    (n, (rw e, inl f))

-- A run writes nothing above the node where it starts.
Walk-lower :
    {k i p : ℕ} {b b' : Buddy} → Walk k i b p b' → (m : ℕ) → 1 ≤ m → m < i → node b' m ≡ node b m
Walk-lower (refused e) m h lt = refl
Walk-lower (taken {i} {b} e) m h lt =
    mark_ne b i m buddy_full (omega arith) h (λ e. absurd (omega arith))
Walk-lower (full e) m h lt = refl
Walk-lower (went_left {i} {b1} e w ne) m h lt =
    mark_ne b1 i m partially_full (omega arith) h (λ e. absurd (omega arith))
    ∙ Walk-lower w m h (omega arith)
Walk-lower (went_right {i} {b2} e w z v ne) m h lt =
    if-mark_ne (is_full (node b2 (rchild i))) b2 i m (omega arith) h (λ e. absurd (omega arith))
    ∙ Walk-lower v m h (omega arith)
    ∙ Walk-lower w m h (omega arith)
Walk-lower (exhausted e w z v z') m h lt =
    Walk-lower v m h (omega arith) ∙ Walk-lower w m h (omega arith)

mark_self : (b : Buddy) (i : ℕ) (o : Occupied) → node (mark b i o) i ≡ o
mark_self b i o = update_self b.occupied (i - 1) o

-- To mark `i` as used repairs the edges below it.
mark-OrderedBut :
    (i c : ℕ) (b : Buddy) (o : Occupied)
    → 1 ≤ i
    → c / 2 ≡ i
    → o ≢ empty
    → ((m : ℕ) → 2 ≤ m → m ≤ heap_size → m ≢ c → node b (parent m) ≡ empty → node b m ≡ empty)
    → OrderedBut i (mark b i o)
mark-OrderedBut i c b o h half ne down = record {
  down = λ m two le out e. elim (same_or_not (parent m) i) [
    | inl p ↦ absurd (ne (sym (mark_self b i o) ∙ subst (λ q. node (mark b i o) q ≡ empty) p e))
    | inr np ↦
        mark_ne b i m o h (omega arith) (λ e. out (sym e))
        ∙ down m two le (λ e. np (omega arith))
            (sym (mark_ne b i (parent m) o h (omega arith) (λ e. np (sym e))) ∙ e)
  ];
  used = λ e. ne (sym (mark_self b i o) ∙ e);
}
  where
    same_or_not : (a b : ℕ) → (a ≡ b) ⊎ (a ≢ b)
    same_or_not a b = ground arith

keep-OrderedBut :
    (i c : ℕ) (b : Buddy) → c / 2 ≡ i → node b i ≢ empty → OrderedBut c b → OrderedBut i b
keep-OrderedBut i c b half used o = record {
  down = λ m two le out e. elim (same_or_not (parent m) i) [
    | inl p ↦ absurd (used (subst (λ q. node b q ≡ empty) p e))
    | inr np ↦ o.down m two le (λ e. np (omega arith)) e
  ];
  used = used;
}
  where
    same_or_not : (a b : ℕ) → (a ≡ b) ⊎ (a ≢ b)
    same_or_not a b = ground arith

if-mark-OrderedBut :
    (t : Bool) (i c : ℕ) (b : Buddy)
    → 1 ≤ i
    → c / 2 ≡ i
    → node b i ≢ empty
    → OrderedBut c b
    → OrderedBut i (if t then mark b i buddy_full else b)
if-mark-OrderedBut true i c b h half used o =
    mark-OrderedBut i c b buddy_full h half (λ e. cc) o.down
if-mark-OrderedBut false i c b h half used o = keep-OrderedBut i c b half used o

Walk-OrderedBut :
    {k i p : ℕ} {b b' : Buddy}
    → Walk k i b p b'
    → Addressed b
    → Fits k i
    → IsOrdered b
    → p ≢ null
    → OrderedBut i b'
Walk-OrderedBut (refused e) a h o ne = absurd (ne refl)
Walk-OrderedBut (taken {i} {b} e) a h o ne =
    mark-OrderedBut i (lchild i) b buddy_full h.0 (omega arith) (λ e. cc)
      (λ m two le out e. o.down m two le e)
Walk-OrderedBut (full e) a h o ne = absurd (ne refl)
Walk-OrderedBut (went_left {k} {i} {b1} e w ne') a h o ne =
    mark-OrderedBut i (lchild i) b1 partially_full h.0 (omega arith) (λ e. cc)
      (Walk-OrderedBut w a (Fits-left k i h) o ne).down
Walk-OrderedBut (went_right {k} {i} {b} {b1} {b2} e w z v ne') a h o ne =
    let l = Walk-Missed w a (Fits-left k i h) z in
    let o1 : IsOrdered b1 = rw l.same o in
    let a1 : Addressed b1 = rw l.same a in
    if-mark-OrderedBut (is_full (node b2 (rchild i))) i (rchild i) b2 h.0 (omega arith)
      (λ e2.
        used l.nowhere (Walk-lower w i h.0 (omega arith)) (Walk-lower v i h.0 (omega arith)) e2)
      (Walk-OrderedBut v a1 (Fits-right k i h) o1 ne)
  where
    used :
        ((n : ℕ) → ¬ Free b k (lchild i) n)
        → node b1 i ≡ node b i
        → node b2 i ≡ node b1 i
        → node b2 i ≡ empty
        → ⊥
    used nowhere p q e2 =
        let l = lchild-empty k i b o h (sym p ∙ sym q ∙ e2) in
        let (n, f) = empty-Free k (lchild i) b o (Fits-left k i h) l in nowhere n f
Walk-OrderedBut (exhausted e w z v z') a h o ne = absurd (ne refl)

-- A successful search from the root keeps the order.
pub Walk-IsOrdered :
    {k p : ℕ} {b b' : Buddy}
    → Walk k 1 b p b'
    → Addressed b
    → Fits k 1
    → IsOrdered b
    → p ≢ null
    → IsOrdered b'
Walk-IsOrdered w a h o ne = record {
  down = λ m two le e. (Walk-OrderedBut w a h o ne).down m two le (λ e. absurd (omega arith)) e;
}

pub above-le : (j m : ℕ) → above j m ≤ m
above-le zero m = omega arith
above-le (suc j) m = omega (arith, above-le j m)

-- Below an EMPTY node every node is EMPTY.
pub empty_below :
    (b : Buddy) (j m n : ℕ)
    → IsOrdered b
    → m ≤ heap_size
    → 1 ≤ n
    → above j m ≡ n
    → node b n ≡ empty
    → node b m ≡ empty
empty_below b zero m n o le pos e v = rw e v
empty_below b (suc j) m n o le pos e v =
    empty_below b j m (above j m) o le (omega arith) refl
      (o.down (above j m) (omega arith) (omega (arith, above-le j m)) (rw e v))
