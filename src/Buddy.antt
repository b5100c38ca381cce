-- ===== src/Buddy.antt =====
-- Kernel/buddyAllocator.c: the page allocator. Node `i` of the tree, counted from 1, has its state
-- and its address at index `i - 1` of the two arrays; the children of `i` are `2 * i` and
-- `2 * i + 1`. The arrays are functions of the index, of which C has `heap_size` entries.
pub mod Walk
pub mod Search
pub mod Level
pub mod Layout
pub mod Ordered
pub mod Pages
pub mod Blocks
pub mod Alloc
pub mod Sequence
pub mod Release
pub mod RoundTrip
pub mod Reuse
use gat_os_v.Base.{
  ℕ, zero, suc, ◌+◌, ◌-◌, ◌*◌, ◌/◌, ◌%◌, Bool, true, false, ◌&&◌, ◌||◌, ◌==◌, ltb, if◌then◌else◌,
  update, Option, none, some,
}

abbrev pub null : ℕ
null = 0

-- PAGE_SIZE, MEMORY, NUMBER_OF_PAGES, HEAPSIZE and the address that `createHeap` sets
abbrev pub page_size : ℕ
page_size = 1024 * 4

abbrev pub memory : ℕ
memory = page_size * 1024

abbrev pub number_of_pages : ℕ
number_of_pages = memory / page_size

abbrev pub heap_size : ℕ
heap_size = number_of_pages * 2 - 1

abbrev pub base_memory : ℕ
base_memory = 0x1000000

-- NUMBER_OF_PAGES_TO_ALLOC
abbrev pub number_of_pages_to_alloc : ℕ → ℕ
number_of_pages_to_alloc size =
    if size % page_size == 0 then size / page_size else size / page_size + 1

-- PARENT, LCHILD, RCHILD, SIBLING
abbrev pub parent : ℕ → ℕ
parent i = i / 2

abbrev pub lchild : ℕ → ℕ
lchild i = i * 2

abbrev pub rchild : ℕ → ℕ
rchild i = i * 2 + 1

abbrev pub sibling : ℕ → ℕ
sibling i = if i % 2 == 0 then i + 1 else i - 1

pub data Occupied : Type 0 where
  empty partially_full buddy_full : Occupied

abbrev pub is_full : Occupied → Bool
is_full buddy_full = true
is_full _ = false

abbrev pub is_partial : Occupied → Bool
is_partial partially_full = true
is_partial _ = false

abbrev pub is_empty : Occupied → Bool
is_empty empty = true
is_empty _ = false

-- `typeBuddyArray`
pub record Buddy : Type 0 where
  pub occupied : ℕ → Occupied
  pub base : ℕ → ℕ
  pub heap_level : ℕ

-- The state of node `i`, and a write to it.
abbrev pub node : Buddy → ℕ → Occupied
node b i = b.occupied (i - 1)

abbrev pub mark : Buddy → ℕ → Occupied → Buddy
mark b i o = record b { occupied = update b.occupied (i - 1) o }

-- `getBaseMemoryWithIndex`; its first parameter is not used.
unfoldable pub get_base_memory_with_index : ℕ → ℕ → ℕ → ℕ
get_base_memory_with_index i max_elements_in_level element_number =
    memory / max_elements_in_level * element_number + base_memory

-- The variables of the loop of `createHeap`.
pub record Cursor : Type 0 where
  pub i : ℕ
  pub level : ℕ
  pub current : ℕ
  pub max : ℕ

-- The `if` at the head of the body: the next level begins.
abbrev pub next_level : Cursor → Cursor
next_level c =
    if c.max == c.current then record c { current = 0; max = c.max * 2; level = c.level + 1 } else c

abbrev pub fill_entry : Buddy → Cursor → Buddy
fill_entry b c = record b {
  occupied = update b.occupied c.i empty;
  base = update b.base c.i (get_base_memory_with_index (c.i + 1) c.max c.current);
}

-- The loop, with the number of rounds left; the result holds `level` beside the arrays.
unfoldable pub create_loop : ℕ → Cursor → Buddy → Cursor × Buddy
create_loop zero c b = (c, b)
create_loop (suc rounds) c b =
    let c' = next_level c in
    create_loop rounds (record c' { i = c'.i + 1; current = c'.current + 1 }) (fill_entry b c')

-- `createHeap`, over what the static array held before.
unfoldable pub create_heap : Buddy → Buddy
create_heap b =
    let (c, b') = create_loop heap_size (record { i = 0; level = 1; current = 0; max = 1 }) b in
    record b' { heap_level = c.level }

-- `getNextPageRecursive`; `left` is `level - currentLevel`.
unfoldable pub get_next_page_recursive : ℕ → ℕ → Buddy → ℕ × Buddy
get_next_page_recursive zero index b =
    if is_full (node b index)
    then (null, b)
    else if is_partial (node b index)
    then (null, b)
    else (b.base (index - 1), mark b index buddy_full)
get_next_page_recursive (suc left) index b = elim (is_full (node b index)) [
  | true ↦ (null, b)
  | false ↦
      let (l, b1) = get_next_page_recursive left (lchild index) b in
      elim (l == null) [
        | true ↦
            let (r, b2) = get_next_page_recursive left (rchild index) b1 in
            if r == null
            then (null, b2)
            else (r, if is_full (node b2 (rchild index)) then mark b2 index buddy_full else b2)
        | false ↦ (l, mark b1 index partially_full)
      ]
]

-- The loop of `getLevel`, on fuel: the result is its counter `i`.
unfoldable pub halving_loop : ℕ → ℕ → ℕ → Option ℕ
halving_loop zero rta i = none
halving_loop (suc fuel) rta i =
    let rest = halving_loop fuel (if rta % 2 == 1 then rta / 2 + 1 else rta / 2) (i + 1) in
    if rta == 1 then some i else rest

abbrev pub level_above : ℕ → Option ℕ → Option ℕ
level_above levels none = none
level_above levels (some i) = some (levels - i)

-- `getLevel`; `none` for 0 pages, where its loop never ends.
unfoldable pub get_level : Buddy → ℕ → Option ℕ
unfolding halving_loop
get_level b pages = level_above b.heap_level (halving_loop pages pages 0)

-- `allocPage`, once `getLevel` has given the level
abbrev pub alloc_at : Option ℕ → Buddy → Option (ℕ × Buddy)
alloc_at none b = none
alloc_at (some level) b =
    some (if ltb b.heap_level level then (null, b) else get_next_page_recursive (level - 1) 1 b)

-- `allocPage`; a pointer of 0 is NULL, and `none` stands for a run that never ends.
unfoldable pub alloc_page : ℕ → Buddy → Option (ℕ × Buddy)
unfolding get_level get_next_page_recursive
alloc_page pages b =
    let found = alloc_at (get_level b pages) b in
    if pages == 0 || ltb number_of_pages pages then some (null, b) else found

-- One round of `freeUpRecursive` at a node that is not the root.
unfoldable pub free_up_step : ℕ → Buddy → Buddy
free_up_step index b =
    if is_full (node b (parent index)) && is_empty (node b (sibling index))
    then mark b (parent index) empty
    else if is_full (node b (parent index)) && is_full (node b (sibling index))
    then mark b (parent index) partially_full
    else if is_partial (node b (parent index)) && is_empty (node b (sibling index))
    then mark b (parent index) empty
    else b

-- `freeUpRecursive`, on fuel: the index halves in each call.
unfoldable pub free_up_recursive : ℕ → ℕ → Buddy → Buddy
unfolding free_up_step
free_up_recursive zero index b = b
free_up_recursive (suc fuel) index b =
    let rest = free_up_recursive fuel (parent index) (free_up_step index b) in
    if index == 1 then b else rest

-- The leaf that `deallocPage` computes from an address; `isValid` accepts every address.
abbrev pub leaf_of : ℕ → ℕ
leaf_of page = (page - base_memory) / page_size + heap_size / 2 + 1

-- `deallocPage` at an address from `base_memory` on. Its result is always 0.
unfoldable pub dealloc_page : ℕ → Buddy → Buddy
unfolding free_up_recursive
dealloc_page page b = free_up_recursive (leaf_of page) (leaf_of page) (mark b (leaf_of page) empty)
