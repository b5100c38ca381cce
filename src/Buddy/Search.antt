-- ===== src/Buddy/Search.antt =====
-- What `getNextPageRecursive` finds: the first free node of the level asked for.
use native.Mathlib.Nat.{pow-suc}
use gat_os_v.Base.{
  ℕ, zero, suc, ◌+◌, ◌-◌, ◌*◌, ◌^◌, ◌≤◌, ◌<◌, ◌≡◌, ◌≢◌, ◌⊎◌, inl, inr, true, false, arith, pow-pos,
  Bool, refl, ◌∙◌, subst, update_self, update_ne, if◌then◌else◌,
}
use gat_os_v.Buddy.{
  null, lchild, rchild, heap_size, Occupied, empty, partially_full, buddy_full, is_full, is_empty,
  Buddy, node, mark, get_next_page_recursive,
}
use gat_os_v.Buddy.Walk.{
  Free, above, Walk, refused, taken, full, went_left, went_right, exhausted, search-Walk,
}

-- No node of the tree has the address NULL.
abbrev pub Addressed : Buddy → Type 0
Addressed b = (j : ℕ) → j < heap_size → b.base j ≢ null

-- The subtree of `k` levels below `i` lies inside the tree.
abbrev pub Fits : ℕ → ℕ → Type 0
Fits k i = (1 ≤ i) × ((i + 1) * 2 ^ k ≤ 2048)

pow_step : (k a : ℕ) → a * 2 ^ suc k ≡ a * 2 ^ k + a * 2 ^ k
pow_step k a = rw pow-suc (omega arith)

pub Fits-left : (k i : ℕ) → Fits (suc k) i → Fits k (lchild i)
Fits-left k i h = (omega arith, omega (arith, h.1, pow_step k (i + 1)))

pub Fits-right : (k i : ℕ) → Fits (suc k) i → Fits k (rchild i)
Fits-right k i h = (omega arith, omega (arith, h.1, pow_step k (i + 1)))

pub Fits-le : (k i : ℕ) → Fits k i → i ≤ heap_size
Fits-le zero i h = omega arith
Fits-le (suc k) i h = omega (arith, Fits-le k (lchild i) (Fits-left k i h))

-- The nodes `k` levels below `i` are numbered from `i * 2 ^ k` on.
pub Free-range : (b : Buddy) (k i n : ℕ) → Free b k i n → (i * 2 ^ k ≤ n) × (n < (i + 1) * 2 ^ k)
Free-range b zero i n (e, _) = omega arith
Free-range b (suc k) i n (_, inl f) =
    let (lo, hi) = Free-range b k (lchild i) n f in
    (omega (arith, pow_step k i), omega (arith, pow_step k (i + 1), pow-pos k))
Free-range b (suc k) i n (_, inr f) =
    let (lo, hi) = Free-range b k (rchild i) n f in
    (omega (arith, pow_step k i, pow-pos k), omega (arith, pow_step k (i + 1)))

pub Free-above : (b : Buddy) (k i n : ℕ) → Free b k i n → above k n ≡ i
Free-above b zero i n (e, _) = e
Free-above b (suc k) i n (_, inl f) = omega (arith, Free-above b k (lchild i) n f)
Free-above b (suc k) i n (_, inr f) = omega (arith, Free-above b k (rchild i) n f)

pub Free-empty : (b : Buddy) (k i n : ℕ) → Free b k i n → node b n ≡ empty
Free-empty b zero i n (e, v) = rw e v
Free-empty b (suc k) i n (_, inl f) = Free-empty b k (lchild i) n f
Free-empty b (suc k) i n (_, inr f) = Free-empty b k (rchild i) n f

le_cases : (j k : ℕ) → j ≤ suc k → (j ≤ k) ⊎ (j ≡ suc k)
le_cases j k h = grind arith

-- No node on the way from `i` to a free node is full.
pub Free-path :
    (b : Buddy) (k i n : ℕ) → Free b k i n → (j : ℕ) → j ≤ k → is_full (node b (above j n)) ≡ false
Free-path b zero i n (e, v) zero h = rw (e, v)
Free-path b zero i n f (suc j) h = absurd (omega arith)
Free-path b (suc k) i n (o, inl f) j h = elim (le_cases j k h) [
  | inl le ↦ Free-path b k (lchild i) n f j le
  | inr e ↦ rw (e, Free-above b (suc k) i n (o, inl f)) o
]
Free-path b (suc k) i n (o, inr f) j h = elim (le_cases j k h) [
  | inl le ↦ Free-path b k (rchild i) n f j le
  | inr e ↦ rw (e, Free-above b (suc k) i n (o, inr f)) o
]

-- The conditional write after a success on the right.
if-mark-base : (t : Bool) (b : Buddy) (i : ℕ) → (if t then mark b i buddy_full else b).base ≡ b.base
if-mark-base true b i = refl
if-mark-base false b i = refl

if-mark-level :
    (t : Bool) (b : Buddy) (i : ℕ)
    → (if t then mark b i buddy_full else b).heap_level ≡ b.heap_level
if-mark-level true b i = refl
if-mark-level false b i = refl

pub mark_ne :
    (b : Buddy) (i m : ℕ) (o : Occupied) → 1 ≤ i → 1 ≤ m → i ≢ m → node (mark b i o) m ≡ node b m
mark_ne b i m o hi hm ne = update_ne b.occupied (i - 1) (m - 1) o (λ e. ne (omega arith))

pub if-mark_ne :
    (t : Bool) (b : Buddy) (i m : ℕ)
    → 1 ≤ i
    → 1 ≤ m
    → i ≢ m
    → node (if t then mark b i buddy_full else b) m ≡ node b m
if-mark_ne true b i m hi hm ne = mark_ne b i m buddy_full hi hm ne
if-mark_ne false b i m hi hm ne = refl

pub Walk-base : {k i p : ℕ} {b b' : Buddy} → Walk k i b p b' → b'.base ≡ b.base
Walk-base (refused e) = refl
Walk-base (taken e) = refl
Walk-base (full e) = refl
Walk-base (went_left e w ne) = Walk-base w
Walk-base (went_right {i} {b2} e w z v ne) =
    if-mark-base (is_full (node b2 (rchild i))) b2 i ∙ Walk-base v ∙ Walk-base w
Walk-base (exhausted e w z v z') = Walk-base v ∙ Walk-base w

pub Walk-level : {k i p : ℕ} {b b' : Buddy} → Walk k i b p b' → b'.heap_level ≡ b.heap_level
Walk-level (refused e) = refl
Walk-level (taken e) = refl
Walk-level (full e) = refl
Walk-level (went_left e w ne) = Walk-level w
Walk-level (went_right {i} {b2} e w z v ne) =
    if-mark-level (is_full (node b2 (rchild i))) b2 i ∙ Walk-level v ∙ Walk-level w
Walk-level (exhausted e w z v z') = Walk-level v ∙ Walk-level w

not-empty : (o : Occupied) → is_empty o ≡ false → o ≢ empty
not-empty empty h e = cc
not-empty partially_full h e = cc
not-empty buddy_full h e = cc

-- A run that returns NULL has changed nothing, and there was no free node to find.
pub record Missed (k i : ℕ) (b b' : Buddy) : Type 0 where
  pub same : b' ≡ b
  pub nowhere : (n : ℕ) → ¬ Free b k i n

pub Walk-Missed :
    {k i p : ℕ} {b b' : Buddy}
    → Walk k i b p b'
    → Addressed b
    → Fits k i
    → p ≡ null
    → Missed k i b b'
Walk-Missed (refused {i} {b} e) a h z = record {
  same = refl;
  nowhere = λ n f. not-empty (node b i) e f.1;
}
Walk-Missed (taken {i} e) a h z = absurd (a (i - 1) (omega (arith, Fits-le 0 i h, h.0)) z)
Walk-Missed (full e) a h z = record { same = refl; nowhere = λ n f. cc (f.0) }
Walk-Missed (went_left e w ne) a h z = absurd (ne z)
Walk-Missed (went_right e w z' v ne) a h z = absurd (ne z)
Walk-Missed (exhausted {k} {i} {b} e w z' v z2) a h z =
    let l = Walk-Missed w a (Fits-left k i h) z' in
    let r = Walk-Missed v (rw l.same a) (Fits-right k i h) z2 in
    record {
      same = r.same ∙ l.same;
      nowhere = λ n f. elim (f.1) [ inl g ↦ l.nowhere n g | inr g ↦ r.nowhere n (rw l.same g) ];
    }

-- A run that returns an address has taken the first free node, and has written only to it and to
-- the nodes above it.
pub record Found (k i p : ℕ) (b b' : Buddy) : Type 0 where
  pub n : ℕ
  pub free : Free b k i n
  pub first : (m : ℕ) → Free b k i m → n ≤ m
  pub address : p ≡ b.base (n - 1)
  pub now_full : node b' n ≡ buddy_full
  pub kept : (m : ℕ) → 1 ≤ m → ((j : ℕ) → j ≤ k → above j n ≢ m) → node b' m ≡ node b m

le-mul-pow : (k a : ℕ) → a ≤ a * 2 ^ k
le-mul-pow zero a = omega arith
le-mul-pow (suc k) a = omega (arith, pow_step k a, le-mul-pow k a)

i-lt-Free : (b : Buddy) (k i c n : ℕ) → 1 ≤ i → i * 2 ≤ c → Free b k c n → i < n
i-lt-Free b k i c n h le f = omega (arith, (Free-range b k c n f).0, le-mul-pow k c)

module _ (k i : ℕ) {p : ℕ} {b b1 : Buddy} (h : Fits (suc k) i)
    (o : is_full (node b i) ≡ false) where
  left-Found : Found k (lchild i) p b b1 → Found (suc k) i p b (mark b1 i partially_full)
  left-Found l =
      let up = i-lt-Free b k i (lchild i) l.n h.0 (omega arith) l.free in
      record {
        n = l.n;
        free = (o, inl l.free);
        first = λ m f. elim (f.1) [
          | inl g ↦ l.first m g
          | inr g ↦
              omega
                (arith, (Free-range b k (lchild i) l.n l.free).1, (Free-range b k (rchild i) m g).0)
        ];
        address = l.address;
        now_full =
            mark_ne b1 i l.n partially_full h.0 (omega arith) (λ e. absurd (omega arith))
            ∙ l.now_full;
        kept = λ m hm out.
            mark_ne b1 i m partially_full h.0 hm
              (λ e. out (suc k) (omega arith) (Free-above b (suc k) i l.n (o, inl l.free) ∙ e))
            ∙ l.kept m hm (λ j le. out j (omega arith));
      }

  right-Found :
      ((n : ℕ) → ¬ Free b k (lchild i) n)
      → Found k (rchild i) p b b1
      → Found (suc k) i p b (if is_full (node b1 (rchild i)) then mark b1 i buddy_full else b1)
  right-Found missed r =
      let up = i-lt-Free b k i (rchild i) r.n h.0 (omega arith) r.free in
      let full = is_full (node b1 (rchild i)) in
      record {
        n = r.n;
        free = (o, inr r.free);
        first = λ m f. elim (f.1) [ inl g ↦ absurd (missed m g) | inr g ↦ r.first m g ];
        address = r.address;
        now_full =
            if-mark_ne full b1 i r.n h.0 (omega arith) (λ e. absurd (omega arith)) ∙ r.now_full;
        kept = λ m hm out.
            if-mark_ne full b1 i m h.0 hm
              (λ e. out (suc k) (omega arith) (Free-above b (suc k) i r.n (o, inr r.free) ∙ e))
            ∙ r.kept m hm (λ j le. out j (omega arith));
      }

pub Walk-Found :
    {k i p : ℕ} {b b' : Buddy}
    → Walk k i b p b'
    → Addressed b
    → Fits k i
    → p ≢ null
    → Found k i p b b'
Walk-Found (refused e) a h ne = absurd (ne refl)
Walk-Found (taken {i} {b} e) a h ne = record {
  n = i;
  free = (refl, e);
  first = λ m f. omega arith;
  address = refl;
  now_full = update_self b.occupied (i - 1) buddy_full;
  kept = λ m hm out. mark_ne b i m buddy_full h.0 hm (out 0 (omega arith));
}
Walk-Found (full e) a h ne = absurd (ne refl)
Walk-Found (went_left {k} {i} e w ne') a h ne =
    left-Found k i h e (Walk-Found w a (Fits-left k i h) ne)
Walk-Found (went_right {k} {i} {q} {b} {b1} {b2} e w z v ne') a h ne =
    let l = Walk-Missed w a (Fits-left k i h) z in
    right-Found k i h e l.nowhere (
      subst (λ c. Found k (rchild i) q c b2) l.same
        (Walk-Found v (rw l.same a) (Fits-right k i h) ne))
Walk-Found (exhausted e w z v z') a h ne = absurd (ne refl)

-- In a tree without the address NULL, for levels inside the tree, `getNextPageRecursive` returns
-- NULL only if no node of the level below the index is free, and then changes nothing; otherwise it
-- takes the first free one.
pub search_lem :
    (k i : ℕ) (b : Buddy)
    → Addressed b
    → Fits k i
    → let (p, b') = get_next_page_recursive k i b in
      ((p ≡ null) × Missed k i b b') ⊎ ((p ≢ null) × Found k i p b b')
search_lem k i b a h = elim (null_cases (get_next_page_recursive k i b).0) [
  | inl z ↦ inl (z, Walk-Missed (search-Walk k i b) a h z)
  | inr ne ↦ inr (ne, Walk-Found (search-Walk k i b) a h ne)
]
  where
    null_cases : (p : ℕ) → (p ≡ null) ⊎ (p ≢ null)
    null_cases zero = inl refl
    null_cases (suc p) = inr (omega arith)
