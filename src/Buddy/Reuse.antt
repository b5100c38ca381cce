-- ===== src/Buddy/Reuse.antt =====
-- What `allocPage` hands out after a `deallocPage`, with another block in use.

use gat_os_v.Base.{ℕ, zero, suc, ◌+◌, ◌-◌, ◌≤◌, ◌≡◌, arith, refl, ap, some, ◌||◌, ◌==◌, ltb, false}
use gat_os_v.Buddy.{
  page_size, number_of_pages, base_memory, Buddy, create_loop, create_heap,
  get_base_memory_with_index, get_next_page_recursive, halving_loop, get_level, alloc_page,
  free_up_step, free_up_recursive, dealloc_page,
}
use gat_os_v.Buddy.Level.{IsLog, get_level-IsLog}

-- The heap with the first two pages in use, and with the first of them freed
one_page : Buddy → Buddy
one_page b = (get_next_page_recursive 10 1 (create_heap b)).1

two_pages : Buddy → Buddy
two_pages b = (get_next_page_recursive 10 1 (one_page b)).1

first_freed : Buddy → Buddy
first_freed b = dealloc_page base_memory (two_pages b)

first_answer : (b : Buddy) → alloc_page 1 (create_heap b) ≡ some (base_memory, one_page b)
unfolding one_page alloc_page get_level halving_loop get_next_page_recursive create_heap create_loop
    get_base_memory_with_index
first_answer b = refl

second_answer :
    (b : Buddy) → alloc_page 1 (one_page b) ≡ some (base_memory + page_size, two_pages b)
unfolding one_page two_pages alloc_page get_level halving_loop get_next_page_recursive create_heap
    create_loop get_base_memory_with_index
second_answer b = refl

search-first_freed :
    (k : ℕ) (b : Buddy) → k ≤ 8 → (get_next_page_recursive k 1 (first_freed b)).0 ≡ base_memory
unfolding one_page two_pages first_freed dealloc_page free_up_recursive free_up_step
    get_next_page_recursive create_heap create_loop get_base_memory_with_index
search-first_freed zero b le = refl
search-first_freed (suc zero) b le = refl
search-first_freed (suc (suc zero)) b le = refl
search-first_freed (suc (suc (suc zero))) b le = refl
search-first_freed (suc (suc (suc (suc zero)))) b le = refl
search-first_freed (suc (suc (suc (suc (suc zero))))) b le = refl
search-first_freed (suc (suc (suc (suc (suc (suc zero)))))) b le = refl
search-first_freed (suc (suc (suc (suc (suc (suc (suc zero))))))) b le = refl
search-first_freed (suc (suc (suc (suc (suc (suc (suc (suc zero)))))))) b le = refl
search-first_freed (suc (suc (suc (suc (suc (suc (suc (suc (suc k))))))))) b le =
    absurd (omega arith)

first_freed-levels : (b : Buddy) → (first_freed b).heap_level ≡ 11
unfolding one_page two_pages first_freed dealloc_page free_up_recursive free_up_step
    get_next_page_recursive create_heap create_loop get_base_memory_with_index
first_freed-levels b = refl

at_least_two : (c pages : ℕ) → 3 ≤ pages → IsLog pages c → 2 ≤ c
at_least_two zero pages three log = absurd (omega (arith, log.holds, three))
at_least_two (suc zero) pages three log = absurd (omega (arith, log.holds, three))
at_least_two (suc (suc c)) pages three log = omega arith

-- Where every search down to a block of four pages gives the first page, so does `allocPage`.
alloc_page-first :
    (pages : ℕ) (heap : Buddy)
    → heap.heap_level ≡ 11
    → 3 ≤ pages
    → pages ≤ number_of_pages
    → ((k : ℕ) → k ≤ 8 → (get_next_page_recursive k 1 heap).0 ≡ base_memory)
    → (heap' : Buddy) × (alloc_page pages heap ≡ some (base_memory, heap'))
unfolding alloc_page
alloc_page-first pages heap levels three in' first =
    let (level, found, one, le, log) = get_level-IsLog heap pages levels (omega arith) in' in
    let k = level - 1 in
    let asked : (pages == 0 || ltb number_of_pages pages) ≡ false = ground arith in
    let fits : ltb heap.heap_level level ≡ false = ground (arith, levels, le) in
    let deep : k ≤ 8 = omega (arith, le, one, at_least_two (11 - level) pages three log) in
    let heap' = (get_next_page_recursive k 1 heap).1 in
    (heap', rw (asked, found, fits) (ap (λ a. some (a, heap')) (first k deep)))

-- On a heap that `createHeap` has set up, two requests for a page get two pages that stand one behind
-- the other. With the first of them freed and the second still in use, a request for 3 to 1024 pages
-- gets a block that begins at the first and has the second among its pages.
pub dealloc_page_reuse :
    (pages : ℕ) (b : Buddy)
    → 3 ≤ pages
    → pages ≤ number_of_pages
    → (p q : ℕ) × (b1 b2 b3 : Buddy) × (alloc_page 1 (create_heap b) ≡ some (p, b1))
      × (alloc_page 1 b1 ≡ some (q, b2))
      × (alloc_page pages (dealloc_page p b2) ≡ some (p, b3))
      × (q ≡ p + page_size)
unfolding first_freed
dealloc_page_reuse pages b three in' =
    let (b3, third) =
      alloc_page-first pages (first_freed b) (first_freed-levels b) three in'
        (λ k le. search-first_freed k b le) in
    (
      base_memory,
      base_memory + page_size,
      one_page b,
      two_pages b,
      b3,
      first_answer b,
      second_answer b,
      third,
      refl,
    )
