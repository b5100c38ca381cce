-- ===== src/Buddy/Alloc.antt =====
-- `allocPage`: the block that it hands out, and why no page is handed out twice.
use native.Mathlib.Nat.{pow-suc, pow-le-pow_right}
use gat_os_v.Base.{
  ℕ, zero, suc, ◌+◌, ◌-◌, ◌*◌, ◌^◌, ◌≤◌, ◌<◌, ◌≡◌, ◌≢◌, ◌⊎◌, inl, inr, true, false, arith, pow-pos,
  ◌||◌, ltb, Bool-cases, refl, subst, some, sym, ap, ◌∙◌, ◌==◌,
}
use gat_os_v.Buddy.{
  null, heap_size, number_of_pages, Occupied, empty, buddy_full, is_full, Buddy, node,
  get_next_page_recursive, alloc_page,
}
use gat_os_v.Buddy.Walk.{Free, above, Walk, search-Walk}
use gat_os_v.Buddy.Search.{
  Addressed, Fits, Found, search_lem, Walk-base, Walk-level, Free-range, Free-above, Free-path,
  Free-empty,
}
use gat_os_v.Buddy.Level.{IsLog, get_level-IsLog}
use gat_os_v.Buddy.Layout.{IsLaidOut, layout}
use gat_os_v.Buddy.Pages.{Under, Under-chain, above-add}
use gat_os_v.Buddy.Ordered.{IsOrdered, Walk-IsOrdered, empty_below, above-le}

-- The block of node `2 ^ depth + offset`, handed out at address `p`.
pub record Granted (pages p : ℕ) (b b' : Buddy) : Type 0 where
  pub depth : ℕ
  pub offset : ℕ
  pub deep : depth ≤ 10
  pub small : offset < 2 ^ depth
  pub enough : pages ≤ 2 ^ (10 - depth)
  pub least : 2 ^ (10 - depth) < 2 * pages
  pub address : p ≡ layout depth offset
  pub now_full : node b' (2 ^ depth + offset) ≡ buddy_full
  pub laid_out : IsLaidOut b'
  pub ordered : IsOrdered b'
  pub kept : (m : ℕ) → 1 ≤ m → ((j : ℕ) → above j (2 ^ depth + offset) ≢ m) → node b' m ≡ node b m
  pub full_kept : (m : ℕ) → 1 ≤ m → node b m ≡ buddy_full → node b' m ≡ buddy_full
  pub apart :
      (leaf m : ℕ)
      → leaf ≤ heap_size
      → 1 ≤ m
      → m ≤ heap_size
      → node b m ≡ buddy_full
      → Under leaf (2 ^ depth + offset)
      → ¬ Under leaf m

-- Each number from 1 on is a power of two and a rest.
binary : (n : ℕ) → 1 ≤ n → (d : ℕ) × (e : ℕ) × (n ≡ 2 ^ d + e) × (e < 2 ^ d)
binary zero h = absurd (omega arith)
binary (suc zero) h = (0, 0, omega arith, omega arith)
binary (suc (suc n)) h =
    let (d, e, eq, lt) = binary (suc n) (omega arith) in
    elim (next d e lt) [
      | inl small ↦ (d, e + 1, omega (arith, eq), small)
      | inr last ↦ (suc d, 0, omega (arith, eq, pow-suc 2 d), pow-pos (suc d))
    ]
  where
    next : (d e : ℕ) → e < 2 ^ d → (e + 1 < 2 ^ d) ⊎ (e + 1 ≡ 2 ^ d)
    next d e lt = grind arith

le_ten : (d : ℕ) → 2 ^ d < 2048 → d ≤ 10
le_ten d h = elim (cases d) [
  | inl le ↦ le
  | inr ge ↦ absurd (omega (arith, pow-le-pow_right {n = 2} (omega arith) ge))
]
  where
    cases : (d : ℕ) → (d ≤ 10) ⊎ (11 ≤ d)
    cases d = grind arith

pub laid_out-Addressed : (b : Buddy) → IsLaidOut b → Addressed b
laid_out-Addressed b l j lt z =
    let (d, e, eq, small) = binary (j + 1) (omega arith) in
    let at = l.placed d e small (le_ten d (omega (arith, eq))) in
    nonzero d e (sym at ∙ ap b.base (omega (arith, eq)) ∙ z)
  where
    nonzero : (d e : ℕ) → layout d e ≡ null → ⊥
    nonzero d e h = absurd (omega arith)

pub root-Fits : (k : ℕ) → k ≤ 10 → Fits k 1
root-Fits k le = (omega arith, omega (arith, pow-le-pow_right {n = 2} (omega arith) le))

is_full-eq : (o : Occupied) → o ≡ buddy_full → is_full o ≡ true
is_full-eq o e = rw e

-- A full node is neither above the node taken nor below it, so no page lies under both.
Found-apart :
    (k p : ℕ) (b b' : Buddy)
    → k ≤ 10
    → IsOrdered b
    → (f : Found k 1 p b b') → (leaf m : ℕ) → leaf ≤ heap_size
    → 1 ≤ m
    → m ≤ heap_size
    → node b m ≡ buddy_full
    → Under leaf f.n
    → ¬ Under leaf m
Found-apart k p b b' le o f leaf m lle pos mle e u v = elim (Under-chain leaf f.n m u v) [
  | inl (j, up) ↦ elim (within j) [
    | inl short ↦ absurd (clash j (Free-path b k 1 f.n f.free j short) up)
    | inr (i, long) ↦ absurd (past_root i j up long)
  ]
  | inr (j, down) ↦
      let v : node b f.n ≡ empty = Free-empty b k 1 f.n f.free in
      absurd (differ (sym (empty_below b j m f.n o mle (Found-pos k f.free) down v) ∙ e))
]
  where
    within : (j : ℕ) → (j ≤ k) ⊎ ((i : ℕ) × (j ≡ suc i + k))
    within j = elim (le_or j) [ inl h ↦ inl h | inr h ↦ inr (j - k - 1, omega arith) ]
      where
        le_or : (j : ℕ) → (j ≤ k) ⊎ (k < j)
        le_or j = grind arith

    clash : (j : ℕ) → is_full (node b (above j f.n)) ≡ false → above j f.n ≡ m → ⊥
    clash j shut up = cc (shut, ap (λ t. is_full (node b t)) up, is_full-eq (node b m) e)

    past_root : (i j : ℕ) → above j f.n ≡ m → j ≡ suc i + k → ⊥
    past_root i j up long =
        let top : above j f.n ≡ above (suc i) (above k f.n) =
          ap (λ t. above t f.n) long ∙ above-add (suc i) k f.n in
        let zero_there : above (suc i) (above k f.n) ≡ above (suc i) 1 =
          ap (above (suc i)) (Free-above b k 1 f.n f.free) in
        absurd (omega (arith, top, zero_there, above-le i 1))

    differ : empty ≡ buddy_full → ⊥
    differ h = cc

    Found-pos : (k : ℕ) → Free b k 1 f.n → 1 ≤ f.n
    Found-pos k g = omega (arith, (Free-range b k 1 f.n g).0, pow-pos k)

Found-Granted :
    (k pages p : ℕ) (b b' : Buddy)
    → k ≤ 10
    → IsLog pages (10 - k)
    → IsLaidOut b
    → IsOrdered b
    → p ≢ null
    → Walk k 1 b p b'
    → Found k 1 p b b'
    → Granted pages p b b'
Found-Granted k pages p b b' le log l o ne w f =
    let (lo, hi) = Free-range b k 1 f.n f.free in
    let split : f.n ≡ 2 ^ k + (f.n - 2 ^ k) = omega (arith, lo) in
    let small : f.n - 2 ^ k < 2 ^ k = omega (arith, lo, hi) in
    record {
      depth = k;
      offset = f.n - 2 ^ k;
      deep = le;
      small = small;
      enough = log.holds;
      least = log.least;
      address = f.address ∙ ap (λ n. b.base (n - 1)) split ∙ l.placed k (f.n - 2 ^ k) small le;
      now_full = rw (← split) f.now_full;
      laid_out = record { levels = Walk-level w ∙ l.levels; placed = rw (Walk-base w) l.placed };
      ordered = Walk-IsOrdered w (laid_out-Addressed b l) (root-Fits k le) o ne;
      kept = λ m pos out. f.kept m pos (λ j short up. out j (ap (above j) (sym split) ∙ up));
      full_kept = λ m pos e. f.kept m pos (λ j short up. path_open j m short up e) ∙ e;
      apart =
          λ leaf m lle pos mle e u. Found-apart k p b b' le o f leaf m lle pos mle e (rw split u);
    }
  where
    path_open : (j m : ℕ) → j ≤ k → above j f.n ≡ m → node b m ≡ buddy_full → ⊥
    path_open j m short up e = cc (
      Free-path b k 1 f.n f.free j short,
      ap (λ t. is_full (node b t)) up,
      is_full-eq (node b m) e,
    )

-- A request that is empty or larger than the memory, or one for which no node is free whose block is the
-- smallest power of two of pages that holds it.
abbrev pub Refused : ℕ → Buddy → Type 0
Refused pages b =
    (pages ≡ 0)
    ⊎ ((number_of_pages < pages)
        ⊎ ((c : ℕ) × IsLog pages c × (c ≤ 10) × ((n : ℕ) → ¬ Free b (10 - c) 1 n)))

-- In an ordered tree with every node at its place, `allocPage` ends. Either it returns NULL and
-- changes nothing, and the request is empty or larger than the memory, or no node is free whose
-- block is the smallest power of two of pages that holds the request; or it grants such a block,
-- which has no page of a block in use.
pub alloc_page_lem :
    (pages : ℕ) (b : Buddy)
    → IsLaidOut b
    → IsOrdered b
    → (p : ℕ) × (b' : Buddy) × (alloc_page pages b ≡ some (p, b'))
      × (((p ≡ null) × (b' ≡ b) × Refused pages b) ⊎ ((p ≢ null) × Granted pages p b b'))
unfolding alloc_page
alloc_page_lem pages b l o = elim (Bool-cases (pages == 0 || ltb number_of_pages pages)) [
  | inl bad ↦ (null, b, rw bad refl, inl (refl, refl, out_of_range bad))
  | inr good ↦
      let (lo, hi) = in_range good in
      let (level, found, one, le, log) = get_level-IsLog b pages l.levels lo hi in
      let k = level - 1 in
      let fits : ltb b.heap_level level ≡ false = ground (arith, l.levels, le) in
      let deep : k ≤ 10 = omega (arith, le) in
      let depth : 11 - level ≡ 10 - k = omega (arith, one, le) in
      let back : k ≡ 10 - (10 - k) = omega (arith, deep) in
      let log' : IsLog pages (10 - k) = subst (IsLog pages) depth log in
      let (p, b') = get_next_page_recursive k 1 b in
      (
        p,
        b',
        rw (good, found, fits) refl,
        elim (search_lem k 1 b (laid_out-Addressed b l) (root-Fits k deep)) [
          | inl (z, miss) ↦ inl (
            z,
            miss.same,
            inr (
                inr (
                  10 - k,
                  log',
                  omega arith,
                  λ n. subst (λ d. ¬ Free b d 1 n) back (miss.nowhere n),
                )),
          )
          | inr (ne, found') ↦
              inr (ne, Found-Granted k pages p b b' deep log' l o ne (search-Walk k 1 b) found')
        ],
      )
]
  where
    out_of_range : (pages == 0 || ltb number_of_pages pages) ≡ true → Refused pages b
    out_of_range h = elim (Bool-cases (pages == 0)) [
      | inl none_asked ↦ inl (ground arith)
      | inr some_asked ↦ inr (inl (ground (arith, h, some_asked)))
    ]

    in_range :
        (pages == 0 || ltb number_of_pages pages) ≡ false → (1 ≤ pages) × (pages ≤ number_of_pages)
    in_range h = ground arith
