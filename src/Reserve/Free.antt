-- ===== src/Reserve/Free.antt =====
-- The pages that are free, as a list.
use mathlib.Core.List.{nil≢cons}
use gat_os_v.Base.{
  drop, get_or, leb, ◌&&◌, ℕ, zero, suc, ◌+◌, ◌-◌, ◌*◌, ◌%◌, ◌≤◌, ◌<◌, ◌≡◌, ◌⊎◌, inl, inr, arith,
  refl, sym, ap, ◌∙◌, List, [], ◌∷◌, ◌++◌, ltb, if◌then◌else◌, update, update_ne, update_self,
  Bool-cases, lt→ltb,
}
use gat_os_v.Reserve.{
  Reserve, lock_call, unlock_call, at_start, page_size, data_address, stack_size, number_loop,
  initialize_memory_allocator, get_page, page_number, store_page,
}

-- The entries of `n` places from `i` on.
unfoldable pub slice : (ℕ → ℕ) → ℕ → ℕ → List ℕ
slice f i zero = []
slice f i (suc n) = f i ∷ slice f (i + 1) n

slice-update : (f : ℕ → ℕ) (k v i n : ℕ) → k < i → slice (update f k v) i n ≡ slice f i n
unfolding slice
slice-update f k v i zero lt = refl
slice-update f k v i (suc n) lt =
    ap (λ x. x ∷ slice (update f k v) (i + 1) n) (update_ne f k i v (λ e. omega (arith, e, lt)))
    ∙ ap (◌∷◌ (f i)) (slice-update f k v (i + 1) n (omega arith))

-- The free pages of a stack with `size` places, the next one first.
abbrev pub free : ℕ → Reserve → List ℕ
free size r = slice r.pages r.current_index (size - r.current_index)

free-cons :
    (size : ℕ) (r : Reserve)
    → r.current_index < size
    → free size r
      ≡ r.pages r.current_index ∷ slice r.pages (r.current_index + 1) (size - (r.current_index + 1))
unfolding slice
free-cons size r lt =
    let count : size - r.current_index ≡ suc (size - (r.current_index + 1)) = omega (arith, lt) in
    ap (slice r.pages r.current_index) count

-- A page that is put on the stack.
free-push :
    (size v : ℕ) (r : Reserve)
    → 0 < r.current_index
    → r.current_index ≤ size
    → slice
        (update r.pages (r.current_index - 1) v)
        (r.current_index - 1)
        (size - (r.current_index - 1))
      ≡ v ∷ free size r
unfolding slice
free-push size v r used le =
    let i = r.current_index in
    let count : size - (i - 1) ≡ suc (size - i) = omega (arith, used, le) in
    let next : i - 1 + 1 ≡ i = omega (arith, used) in
    ap (slice (update r.pages (i - 1) v) (i - 1)) count
    ∙ ap (λ x. x ∷ slice (update r.pages (i - 1) v) (i - 1 + 1) (size - i))
        (update_self r.pages (i - 1) v)
    ∙ ap (λ j. v ∷ slice (update r.pages (i - 1) v) j (size - i)) next
    ∙ ap (◌∷◌ v) (slice-update r.pages (i - 1) v i (size - i) (omega (arith, used)))

-- What taking a page does where there is one: the first free page, and the mutex given back.
pub record Taken (size : ℕ) (address : ℕ → ℕ) (r : Reserve) (out : ℕ × Reserve) : Type 0 where
  pub page : ℕ
  pub rest : List ℕ
  pub before : free size r ≡ page ∷ rest
  pub result : out.0 ≡ address page
  pub left : free size out.1 ≡ rest
  pub given_back : out.1.calls ≡ (r.calls ++ lock_call ∷ []) ++ unlock_call ∷ []

-- `get_page` takes the first free page and gives back the mutex; when none is free, it returns 0,
-- keeps the stack, and locks the mutex a second time in place of giving it back.
get_page_lem :
    (r : Reserve)
    → r.current_index ≤ stack_size
    → Taken stack_size (λ p. p * page_size + data_address) r (get_page r)
      ⊎ ((free stack_size r ≡ [])
          × ((get_page r).0 ≡ 0)
          × (free stack_size (get_page r).1 ≡ [])
          × ((get_page r).1.calls ≡ (r.calls ++ lock_call ∷ []) ++ lock_call ∷ []))
unfolding get_page slice
get_page_lem r le = elim (Bool-cases (ltb r.current_index stack_size)) [
  | inl some ↦
      let lt : r.current_index < stack_size = ground (arith, some) in
      inl (
        rw some (record {
          page = r.pages r.current_index;
          rest = slice r.pages (r.current_index + 1) (stack_size - (r.current_index + 1));
          before = free-cons stack_size r lt;
          result = refl;
          left = refl;
          given_back = refl;
        }))
  | inr none ↦
      let count : stack_size - r.current_index ≡ 0 = ground (arith, none) in
      let empty = ap (slice r.pages r.current_index) count in
      inr (rw none (empty, refl, empty, refl))
]

-- What putting a page back does.
record Stored (size page : ℕ) (r : Reserve) (out : ℕ × Reserve) : Type 0 where
  result : out.0 ≡ 1
  pushed : free size out.1 ≡ page ∷ free size r
  given_back : out.1.calls ≡ (r.calls ++ lock_call ∷ []) ++ unlock_call ∷ []
  in_range : out.1.current_index ≤ size

page_number_lem : (p : ℕ) → p < 256 → page_number (p * page_size + data_address) ≡ p
page_number_lem p small = omega arith

store_page-Stored :
    (p : ℕ) (r : Reserve)
    → p < 256
    → 0 < r.current_index
    → r.current_index ≤ stack_size
    → Stored stack_size p r (store_page (p * page_size + data_address) r)
unfolding store_page
store_page-Stored p r small used le =
    let number = page_number_lem p small in
    rw (lt→ltb 0 r.current_index used) (record {
      result = refl;
      pushed =
          free-push stack_size (page_number (p * page_size + data_address)) r used le
          ∙ ap (λ v. v ∷ free stack_size r) number;
      given_back = refl;
      in_range = omega (arith, le);
    })

-- `store_page` of a page that `get_page` may hand out, when some page is out, puts it first among the
-- free ones and gives back the mutex, and the next `get_page` hands it out again.
pub store-get_page :
    (p : ℕ) (r : Reserve)
    → p < 256
    → 0 < r.current_index
    → r.current_index ≤ stack_size
    → let (stored, r1) = store_page (p * page_size + data_address) r in
      (stored ≡ 1)
      × (free stack_size r1 ≡ p ∷ free stack_size r)
      × (r1.calls ≡ (r.calls ++ lock_call ∷ []) ++ unlock_call ∷ [])
      × ((get_page r1).0 ≡ p * page_size + data_address)
      × (free stack_size (get_page r1).1 ≡ free stack_size r)
store-get_page p r small used le =
    let s = store_page-Stored p r small used le in
    let r1 = (store_page (p * page_size + data_address) r).1 in
    elim (get_page_lem r1 s.in_range) [
      | inl t ↦
          let same = sym t.before ∙ s.pushed in
          (
            s.result,
            s.pushed,
            s.given_back,
            t.result ∙ ap (λ (l : List ℕ). get_or l 0 0 * page_size + data_address) same,
            t.left ∙ ap (drop 1) same,
          )
      | inr none ↦ absurd (nil≢cons (sym none.0 ∙ s.pushed))
    ]

number_loop-numbered :
    (rounds i k : ℕ) (f : ℕ → ℕ)
    → number_loop rounds i f k ≡ (if leb i k && ltb k (i + rounds) then k + 1 else f k)
unfolding number_loop
number_loop-numbered zero i k f = ground arith
number_loop-numbered (suc rounds) i k f =
    number_loop-numbered rounds (i + 1) k (update f i (i + 1)) ∙ ground arith

get_page-next :
    (r : Reserve)
    → r.current_index < stack_size
    → ((get_page r).0 ≡ r.pages r.current_index * page_size + data_address)
      × ((get_page r).1.current_index ≡ r.current_index + 1)
      × ((get_page r).1.pages ≡ r.pages)
unfolding get_page
get_page-next r lt = rw (lt→ltb r.current_index stack_size lt) (refl, refl, refl)

-- `get_page`, `n` times after the initialisation.
unfoldable pub gets : ℕ → Reserve
gets zero = initialize_memory_allocator at_start
gets (suc n) = (get_page (gets n)).1

gets-index :
    (n : ℕ) → n ≤ stack_size → ((gets n).current_index ≡ n) × ((gets n).pages ≡ (gets 0).pages)
unfolding gets initialize_memory_allocator
gets-index zero le = (refl, refl)
gets-index (suc n) le =
    let (index, pages) = gets-index n (omega (arith, le)) in
    let (result, next, same) = get_page-next (gets n) (omega (arith, index, le)) in
    (next ∙ omega (arith, index), same ∙ pages)

-- Of 255 calls of `get_page` right after the initialisation, each hands out another page: the pages
-- from 1 to 254, and then page 0, which the loop of the initialisation leaves at the end.
get_page_each :
    (n : ℕ) → n < stack_size → (get_page (gets n)).0 ≡ (n + 1) % 255 * page_size + data_address
unfolding gets initialize_memory_allocator
get_page_each n lt =
    let (index, pages) = gets-index n (omega (arith, lt)) in
    let (result, next, same) = get_page-next (gets n) (omega (arith, index, lt)) in
    let number : (gets n).pages (gets n).current_index ≡ (n + 1) % 255 =
      ap (λ (f : ℕ → ℕ). f (gets n).current_index) pages
      ∙ ap (number_loop (stack_size - 1) 0 (λ _. 0)) index
      ∙ number_loop-numbered (stack_size - 1) 0 n (λ _. 0)
      ∙ ground (arith, lt) in
    result ∙ ap (λ p. p * page_size + data_address) number
