-- ===== src/Tests/Heap.antt =====
-- Kernel/buddyAllocator.c at concrete heaps.
use gat_os_v.Base.{
  ℕ, ◌+◌, ◌≤◌, ◌≡◌, ◌≢◌, ◌⊎◌, refl, arith, some, List, [], ◌∷◌, ◌==◌, if◌then◌else◌,
}
use gat_os_v.Buddy.{
  page_size, null, heap_size, base_memory, empty, partially_full, buddy_full, Buddy, node,
  create_heap, get_next_page_recursive, get_level, halving_loop, alloc_page, dealloc_page,
}
use gat_os_v.Buddy.Layout.{create_heap_lem}
use gat_os_v.Buddy.Alloc.{Granted, Refused, alloc_page_lem}
use gat_os_v.Buddy.Sequence.{AllApart, alloc_all, create_heap-IsOrdered, alloc_all_no_overlap}
use gat_os_v.Buddy.RoundTrip.{alloc-dealloc}
use gat_os_v.Buddy.Reuse.{dealloc_page_reuse}

-- Memory as it is before `createHeap`.
abbrev raw : Buddy
raw = record { occupied = λ _. buddy_full; base = λ _. 0; heap_level = 0 }

level_of_3 : get_level (record raw { heap_level = 11 }) 3 ≡ some 9
unfolding get_level halving_loop
level_of_3 = refl

alloc_all_no_overlap_example :
    (gs : List (ℕ × ℕ)) × (alloc_all (3 ∷ 1 ∷ 512 ∷ []) (create_heap raw) ≡ some gs) × AllApart gs
alloc_all_no_overlap_example = alloc_all_no_overlap (3 ∷ 1 ∷ 512 ∷ []) raw

alloc-dealloc_example :
    (p : ℕ) × (b : Buddy) × (alloc_page 3 (create_heap raw) ≡ some (p, b))
    × (p ≢ null)
    × ((m : ℕ) → 1 ≤ m → m ≤ heap_size → node (dealloc_page p b) m ≡ empty)
alloc-dealloc_example = alloc-dealloc 3 raw (omega arith) (omega arith)

alloc_page_lem_example :
    (p : ℕ) × (b' : Buddy) × (alloc_page 3 (create_heap raw) ≡ some (p, b'))
    × (((p ≡ null) × (b' ≡ create_heap raw) × Refused 3 (create_heap raw))
        ⊎ ((p ≢ null) × Granted 3 p (create_heap raw) b'))
alloc_page_lem_example =
    alloc_page_lem 3 (create_heap raw) (create_heap_lem raw).0 (create_heap-IsOrdered raw)

-- Node 2 is full, and all else below the root is free.
abbrev half_full : Buddy
half_full = record {
  occupied = λ j. if j == 0 then partially_full else if j == 1 then buddy_full else empty;
  base = λ j. base_memory + j;
  heap_level = 11;
}

search_half_full : (get_next_page_recursive 2 1 half_full).0 ≡ base_memory + 5
unfolding get_next_page_recursive
search_half_full = refl

dealloc_page_reuse_example :
    (p q : ℕ) × (b1 b2 b3 : Buddy) × (alloc_page 1 (create_heap raw) ≡ some (p, b1))
    × (alloc_page 1 b1 ≡ some (q, b2))
    × (alloc_page 8 (dealloc_page p b2) ≡ some (p, b3))
    × (q ≡ p + page_size)
dealloc_page_reuse_example = dealloc_page_reuse 8 raw (omega arith) (omega arith)
