-- ===== src/Tests/Heaps.antt =====
-- Kernel/malloc.c: the kernel heap at its start, and a heap of a process with three blocks.
use gat_os_v.Base.{
  ℕ, ◌+◌, ◌≡◌, ◌⊎◌, ◌≤◌, inr, arith, refl, none, some, [], ◌∷◌, ◌==◌, if◌then◌else◌,
}
use gat_os_v.Buddy.{null, buddy_full, Buddy}
use gat_os_v.Block.{
  Block, Blocks, Space, align4, data_start, kernel_heap_start, kernel_heap_size,
  initialize_kernel_heap, kmalloc, take_block, mallock, free_memory, release_block,
}
use gat_os_v.Block.Layout.{Lays, place, allot, span}
use gat_os_v.Block.Kernel.{kmalloc_lem}
use gat_os_v.Block.RoundTrip.{free-mallock}
use gat_os_v.Block.Stale.{split_block_stale}

abbrev nothing : Block
nothing = record { size = 0; next = 0; prev = 0; free = 0 }

abbrev no_tree : Buddy
no_tree = record { occupied = λ _. buddy_full; base = λ _. 0; heap_level = 0 }

-- A block in use of 100 bytes at 1000, a free one of 500 at 1128, and one in use of 40 at 1656.
abbrev three_blocks : Blocks
three_blocks a =
    if a == 1000
    then record { size = 100; next = 1128; prev = 0; free = 0 }
    else if a == 1128
    then record { size = 500; next = 1656; prev = 1000; free = 1 }
    else if a == 1656
    then record { size = 40; next = 0; prev = 1128; free = 0 }
    else nothing

abbrev space : Space
space = record {
  block = three_blocks;
  heap_base = 1000;
  kernel_base = 0;
  buddy = no_tree;
  owner = λ _. record { pid = 1; heap = 1000; pages_index = 0; pages = λ _. 0 };
}

abbrev kernel_space : Space
kernel_space = record space {
  kernel_base = kernel_heap_start;
  block = λ _. record { size = kernel_heap_size; next = null; prev = null; free = 1 };
}

starts :
    (initialize_kernel_heap space).block kernel_heap_start
    ≡ record { size = kernel_heap_size; next = null; prev = null; free = 1 }
unfolding initialize_kernel_heap
starts = refl

kmalloc_lem_example :
    (20 ≤ align4 20)
    × (((place (align4 20) kernel_heap_start ((kernel_heap_size, 1) ∷ []) ≡ none)
          × (kmalloc 2 20 kernel_space ≡ some (null, kernel_space)))
        ⊎ ((x : ℕ) × (sp' : Space) × (place
                (align4 20)
                kernel_heap_start
                ((kernel_heap_size, 1) ∷ [])
              ≡ some x)
            × (kmalloc 2 20 kernel_space ≡ some (data_start x, sp'))
            × (sp'.kernel_base ≡ kernel_heap_start)
            × Lays sp'.block kernel_heap_start kernel_heap_start
                (allot (align4 20) ((kernel_heap_size, 1) ∷ []))
            × (span (allot (align4 20) ((kernel_heap_size, 1) ∷ []))
                ≡ span ((kernel_heap_size, 1) ∷ []))))
kmalloc_lem_example =
    kmalloc_lem 2 20 kernel_space ((kernel_heap_size, 1) ∷ []) (omega arith)
      (refl, refl, refl, refl) (omega arith, tt) (omega arith) (omega arith) (omega arith)

free-mallock_example :
    (sp1 : Space) × (sp2 : Space) × (mallock (λ _. none) 0 4 1 10 space
      ≡ some (data_start (1000 + span ((100, 0) ∷ [])), sp1))
    × (free_memory 4 (data_start (1000 + span ((100, 0) ∷ []))) sp1 ≡ some sp2)
    × Lays sp2.block 1000 1000 ((100, 0) ∷ (500, 1) ∷ (40, 0) ∷ [])
free-mallock_example =
    free-mallock (λ _. none) 0 4 1 10 500 space ((100, 0) ∷ []) ((40, 0) ∷ [])
      (λ e. omega (arith, e)) (omega arith) (omega arith) (omega arith)
      (refl, refl, refl, (refl, refl, refl, (refl, refl, refl, refl))) (refl, tt)
      (omega arith, (omega arith, (omega arith, tt))) (omega arith) (omega arith)
      (inr (omega arith, refl)) (omega arith)

-- The block of 500 bytes at 1000, and two more in use behind it.
abbrev behind_free : Blocks
behind_free a =
    if a == 1000
    then record { size = 500; next = 1528; prev = 0; free = 1 }
    else if a == 1528
    then record { size = 40; next = 1596; prev = 1000; free = 0 }
    else nothing

split_block_stale_example :
    let m' =
      release_block 1528
        (release_block 1000 (take_block 1128 360 (take_block 1000 100 behind_free))) in
    ((m' 1000).free ≡ 1) × ((m' 1000).size ≡ 500) × ((m' 1000).next ≡ 1528) × ((m' 1128).free ≡ 0)
split_block_stale_example =
    split_block_stale 1000 100 360 1596 behind_free (omega arith) (omega arith) (omega arith)
      (omega arith) (omega arith) (omega arith) refl refl refl refl (omega arith) refl
