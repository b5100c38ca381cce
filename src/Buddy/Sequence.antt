-- ===== src/Buddy/Sequence.antt =====
-- Requests in a row: no page is handed out twice.
use native.Mathlib.Nat.{mul-le-mul_left}
use gat_os_v.Base.{
  ℕ, ◌+◌, ◌-◌, ◌*◌, ◌^◌, ◌≤◌, ◌<◌, ◌≡◌, ◌≢◌, inl, inr, arith, pow-pos, refl, sym, ap, subst, Option,
  none, some, List, [], ◌∷◌, All,
}
use gat_os_v.Buddy.{null, page_size, buddy_full, Buddy, node, alloc_page, create_heap}
use gat_os_v.Buddy.Pages.{Under}
use gat_os_v.Buddy.Blocks.{page_node, page_node-le, page_address, page_node-Under}
use gat_os_v.Buddy.Layout.{IsLaidOut, layout, create_heap_lem}
use gat_os_v.Buddy.Ordered.{IsOrdered}
use gat_os_v.Buddy.Alloc.{Granted, alloc_page_lem}

abbrev pub behind : ℕ × ℕ → Option (List (ℕ × ℕ)) → Option (List (ℕ × ℕ))
behind g none = none
behind g (some gs) = some (g ∷ gs)

abbrev pub answer : ℕ → (Buddy → Option (List (ℕ × ℕ))) → Option (ℕ × Buddy) → Option (List (ℕ × ℕ))
answer pages go none = none
answer pages go (some (p, b)) = behind (pages, p) (go b)

-- The requests one after the other; each answer is the number of pages with the address.
pub alloc_all : List ℕ → Buddy → Option (List (ℕ × ℕ))
alloc_all [] b = some []
alloc_all (pages ∷ rest) b = answer pages (alloc_all rest) (alloc_page pages b)

-- No page of one block is a page of the other.
abbrev pub SharesNoPage : ℕ × ℕ → ℕ × ℕ → Type 0
SharesNoPage (pages, p) (pages', p') =
    p ≢ null
    → p' ≢ null
    → (k k' : ℕ) → k < pages
    → k' < pages'
    → p + k * page_size ≢ p' + k' * page_size

abbrev pub AllApart : List (ℕ × ℕ) → Type 0
AllApart [] = Unit
AllApart (g ∷ gs) = All (SharesNoPage g) gs × AllApart gs

-- A block that was granted while node `2 ^ d + e` was full has none of that node's pages.
abbrev Avoids : ℕ → ℕ → ℕ → ℕ × ℕ → Type 0
Avoids pages d e g = SharesNoPage (pages, layout d e) g

Granted-Avoids :
    {pages pages' p' : ℕ} {b b' : Buddy} (d e : ℕ)
    → d ≤ 10
    → e < 2 ^ d
    → pages ≤ 2 ^ (10 - d)
    → node b (2 ^ d + e) ≡ buddy_full
    → Granted pages' p' b b'
    → SharesNoPage (pages, layout d e) (pages', p')
Granted-Avoids {pages} {pages'} {p'} {b} {b'} d e le small fit full g ne ne' k k' lt lt' same =
    g.apart (page_node g.depth g.offset k') (2 ^ d + e)
      (page_node-le g.depth g.offset k' g.deep g.small (omega (arith, g.enough)))
      (omega (arith, pow-pos d))
      (omega (arith, page_node-le d e 0 le small (pow-pos (10 - d)), self_le d e)) full
      (page_node-Under g.depth g.offset k' (omega (arith, g.enough)))
      (subst (λ t. Under t (2 ^ d + e)) meet (page_node-Under d e k (omega arith)))
  where
    self_le : (d e : ℕ) → 2 ^ d + e ≤ (2 ^ d + e) * 2 ^ (10 - d) + 0
    self_le d e = omega (arith, mul-le-mul_left (2 ^ d + e) (pow-pos (10 - d)))

    meet : page_node d e k ≡ page_node g.depth g.offset k'
    meet =
        omega
          (arith, same, g.address, page_address d e k le, page_address g.depth g.offset k' g.deep)

unused-SharesNoPage : (g : ℕ × ℕ) (pages p : ℕ) → p ≡ null → SharesNoPage g (pages, p)
unused-SharesNoPage g pages p z ne ne' k k' lt lt' same = absurd (ne' z)

null-SharesNoPage :
    (pages p : ℕ) → p ≡ null → (gs : List (ℕ × ℕ)) → All (SharesNoPage (pages, p)) gs
null-SharesNoPage pages p z [] = tt
null-SharesNoPage pages p z (g ∷ gs) =
    (λ ne ne' k k' lt lt' same. absurd (ne z), null-SharesNoPage pages p z gs)

-- The requests are all answered, with answers of which `Q` holds.
Answered : (List (ℕ × ℕ) → Type 0) → Option (List (ℕ × ℕ)) → Type 0
Answered Q none = ⊥
Answered Q (some gs) = Q gs

Answered-behind :
    (Q Q' R : List (ℕ × ℕ) → Type 0) (g : ℕ × ℕ) (r : Option (List (ℕ × ℕ)))
    → ((gs : List (ℕ × ℕ)) → Q gs → Q' gs → R (g ∷ gs))
    → Answered Q r
    → Answered Q' r
    → Answered R (behind g r)
unfolding Answered
Answered-behind Q Q' R g none f a a' = absurd a
Answered-behind Q Q' R g (some gs) f a a' = f gs a a'

alloc_all-next :
    (r p : ℕ) (rest : List ℕ) (b b' : Buddy)
    → alloc_page r b ≡ some (p, b')
    → alloc_all (r ∷ rest) b ≡ behind (r, p) (alloc_all rest b')
unfolding alloc_all
alloc_all-next r p rest b b' runs = ap (answer r (alloc_all rest)) runs

alloc_all-Avoids :
    (requests : List ℕ) (b : Buddy) {pages : ℕ} (d e : ℕ)
    → IsLaidOut b
    → IsOrdered b
    → d ≤ 10
    → e < 2 ^ d
    → pages ≤ 2 ^ (10 - d)
    → node b (2 ^ d + e) ≡ buddy_full
    → Answered (All (SharesNoPage (pages, layout d e))) (alloc_all requests b)
unfolding alloc_all Answered
alloc_all-Avoids [] b d e l o le small fit full = tt
alloc_all-Avoids (r ∷ rest) b {pages} d e l o le small fit full =
    let (p, b', runs, result) = alloc_page_lem r b l o in
    let Avoided : List (ℕ × ℕ) → Type 0 = All (SharesNoPage (pages, layout d e)) in
    let later =
      λ (l' : IsLaidOut b') (o' : IsOrdered b') (full' : node b' (2 ^ d + e) ≡ buddy_full)
          (apart : SharesNoPage (pages, layout d e) (r, p)).
        let rest_apart = alloc_all-Avoids rest b' {pages = pages} d e l' o' le small fit full' in
        subst (Answered (All (SharesNoPage (pages, layout d e))))
          (sym (alloc_all-next r p rest b b' runs))
          (Answered-behind Avoided Avoided (All (SharesNoPage (pages, layout d e))) (r, p)
            (alloc_all rest b') (λ gs here all. (apart, all)) rest_apart rest_apart) in
    elim result [
      | inl (z, same, _) ↦
          later (rw same l) (rw same o) (rw same full)
            (unused-SharesNoPage (pages, layout d e) r p z)
      | inr (ne, g) ↦
          later g.laid_out g.ordered (g.full_kept (2 ^ d + e) (omega (arith, pow-pos d)) full)
            (Granted-Avoids d e le small fit full g)
    ]

alloc_all-AllApart :
    (requests : List ℕ) (b : Buddy)
    → IsLaidOut b
    → IsOrdered b
    → Answered AllApart (alloc_all requests b)
unfolding alloc_all Answered
alloc_all-AllApart [] b l o = tt
alloc_all-AllApart (r ∷ rest) b l o =
    let (p, b', runs, result) = alloc_page_lem r b l o in
    let later =
      λ (l' : IsLaidOut b') (o' : IsOrdered b')
          (apart : Answered (All (SharesNoPage (r, p))) (alloc_all rest b')).
        subst (Answered AllApart) (sym (alloc_all-next r p rest b b' runs)) (
          Answered-behind (All (SharesNoPage (r, p))) AllApart AllApart (r, p) (alloc_all rest b')
            (λ gs here all. (here, all)) apart (alloc_all-AllApart rest b' l' o')) in
    elim result [
      | inl (z, same, _) ↦ later (rw same l) (rw same o) (
          every (All (SharesNoPage (r, p))) AllApart (alloc_all rest b') (null-SharesNoPage r p z)
            (alloc_all-AllApart rest b' (rw same l) (rw same o)))
      | inr (ne, g) ↦ later g.laid_out g.ordered (
          subst (λ q. Answered (All (SharesNoPage (r, q))) (alloc_all rest b')) (sym g.address)
            (alloc_all-Avoids rest b' g.depth g.offset g.laid_out g.ordered g.deep g.small g.enough
              g.now_full))
    ]
  where
    every :
        (Q R : List (ℕ × ℕ) → Type 0) (answers : Option (List (ℕ × ℕ)))
        → ((gs : List (ℕ × ℕ)) → Q gs)
        → Answered R answers
        → Answered Q answers
    every Q R none f a = absurd a
    every Q R (some gs) f a = f gs

pub create_heap-IsOrdered : (b : Buddy) → IsOrdered (create_heap b)
create_heap-IsOrdered b = record {
  down = λ m two le e. (create_heap_lem b).1 (m - 1) (omega arith);
}

answers :
    (Q : List (ℕ × ℕ) → Type 0) (r : Option (List (ℕ × ℕ)))
    → Answered Q r
    → (gs : List (ℕ × ℕ)) × (r ≡ some gs) × Q gs
unfolding Answered
answers Q none a = absurd a
answers Q (some gs) a = (gs, refl, a)

-- On a heap that `createHeap` has set up, however many requests of whatever size are made one after
-- the other with nothing freed in between, all are answered, and no two of the blocks handed out have
-- a page in common.
pub alloc_all_no_overlap :
    (requests : List ℕ) (b : Buddy)
    → (gs : List (ℕ × ℕ)) × (alloc_all requests (create_heap b) ≡ some gs) × AllApart gs
alloc_all_no_overlap requests b =
    answers AllApart (alloc_all requests (create_heap b))
      (alloc_all-AllApart requests (create_heap b) (create_heap_lem b).0 (create_heap-IsOrdered b))
