-- ===== src/Block.antt =====
-- Kernel/malloc.c: the lists of blocks of the kernel heap and of the heap of a process. The memory
-- holds a header at each address; the bytes behind a header are not modelled. `size_t` has 32 bits.
pub mod Layout
pub mod Kernel
pub mod Release
pub mod RoundTrip
pub mod Stale
use gat_os_v.Base.{
  ℕ, zero, suc, ◌+◌, ◌-◌, ◌*◌, ◌/◌, ◌%◌, Bool, true, false, ◌&&◌, ◌||◌, not, Option, none, some,
  ◌==◌, ltb, if◌then◌else◌, update,
}
use gat_os_v.Buddy.{null, page_size, number_of_pages_to_alloc, Buddy, alloc_page}

-- 2 ^ 32
abbrev pub word : ℕ
word = 0x100000000

abbrev pub block_struct_size : ℕ
block_struct_size = 28

-- `sizeof(t_block)`, with the padding behind `dataStart`
abbrev pub size_of_block : ℕ
size_of_block = 32

abbrev pub kernel_heap_start : ℕ
kernel_heap_start = 0x4000

abbrev pub kernel_heap_size : ℕ
kernel_heap_size = page_size * 17

abbrev pub max_pages_per_process : ℕ
max_pages_per_process = 10

-- `t_block`
pub record Block : Type 0 where
  pub size : ℕ
  pub next : ℕ
  pub prev : ℕ
  pub free : ℕ

abbrev pub data_start : ℕ → ℕ
data_start a = a + block_struct_size

abbrev pub Blocks : Type 0
Blocks = ℕ → Block

-- The fields of `Process` that the allocator uses.
pub record HeapOwner : Type 0 where
  pub pid : ℕ
  pub heap : ℕ
  pub pages_index : ℕ
  pub pages : ℕ → ℕ

-- The headers, `heapBase`, `kernelBase`, the page allocator, and the processes by address.
pub record Space : Type 0 where
  pub block : Blocks
  pub heap_base : ℕ
  pub kernel_base : ℕ
  pub buddy : Buddy
  pub owner : ℕ → HeapOwner

-- `align4`, and `a - b` on `size_t`
abbrev pub align4 : ℕ → ℕ
align4 x = ((x + word - 1) % word / 4 * 4 + 4) % word

abbrev pub sub_word : ℕ → ℕ → ℕ
sub_word a b = (a + word - b % word) % word

abbrev pub fits : ℕ → Block → Bool
fits size b = not (b.free == 0) && ltb size b.size

-- `findFirstFreeBlock`; `none` when `fuel` headers are not enough.
unfoldable pub find_first_free_block : ℕ → ℕ → ℕ → Blocks → Option ℕ
find_first_free_block zero current size m = none
find_first_free_block (suc fuel) current size m =
    let rest = find_first_free_block fuel (m current).next size m in
    if current == null || fits size (m current) then some current else rest

-- `split_block`
unfoldable pub split_block : ℕ → ℕ → Blocks → Blocks
split_block block size m =
    if ltb (m block).size size
    then m
    else let new_block = data_start block + size in
      let m1 = update m new_block (record {
        next = (m block).next;
        free = 1;
        size = sub_word (m block).size (size + block_struct_size);
        prev = block;
      }) in
      update m1 block (record (m1 block) { next = new_block; size = size })

-- What `kmalloc` and `mallock` do with the block they have found.
unfoldable pub take_block : ℕ → ℕ → Blocks → Blocks
unfolding split_block
take_block block s m =
    let m1 =
      if ltb ((s + 4 + block_struct_size) % word) (m block).size
      then split_block block s m
      else m in
    update m1 block (record (m1 block) { free = 0 })

-- The end of `kmalloc`, once the search has given `block`.
unfoldable pub grant : ℕ → ℕ → Space → ℕ × Space
grant block s sp =
    if block == null
    then (null, sp)
    else (data_start block, record sp { block = take_block block s sp.block })

unfoldable pub kmalloc : ℕ → ℕ → Space → Option (ℕ × Space)
kmalloc fuel size sp =
    if sp.kernel_base == null
    then some (kernel_heap_start, sp)
    else if size == 0
    then some (null, sp)
    else elim (find_first_free_block fuel sp.kernel_base (align4 size) sp.block) [
      | none ↦ none
      | some block ↦ some (grant block (align4 size) sp)
    ]

unfoldable pub initialize_kernel_heap : Space → Space
initialize_kernel_heap sp = record sp {
  kernel_base = kernel_heap_start;
  block =
      update sp.block kernel_heap_start
        (record { size = kernel_heap_size; free = 1; next = null; prev = null });
}

-- `findLastInHeap`, from `current` on
unfoldable pub find_last_in_heap : ℕ → ℕ → Blocks → Option ℕ
find_last_in_heap zero current m = none
find_last_in_heap (suc fuel) current m =
    let rest = find_last_in_heap fuel (m current).next m in
    if (m current).next == null then some current else rest

-- `addPagesToProcess` of Kernel/process.c, for the address that `getProcessById` gives.
unfoldable pub add_pages_to_process : ℕ → Option ℕ → (ℕ → HeapOwner) → ℕ → HeapOwner
add_pages_to_process page_base none owner = owner
add_pages_to_process page_base (some p) owner =
    let own = owner p in
    if ltb own.pages_index max_pages_per_process
    then update owner p (record own {
      pages = update own.pages own.pages_index page_base;
      pages_index = own.pages_index + 1;
    })
    else owner

-- The header that `extendHeap` writes: `pages * PAGE_SIZE - BLOCK_STRUCT_SIZE` bytes behind it.
abbrev pub fresh_block : ℕ → Block → Block
fresh_block pages b = record b {
  size = sub_word (pages * page_size % word) block_struct_size;
  free = 1;
  next = null;
}

-- `last->next = newBlock; newBlock->prev = last;`
abbrev pub hang_on : ℕ → ℕ → Blocks → Blocks
hang_on last base m =
    let m1 = update m last (record (m last) { next = base }) in
    update m1 base (record (m1 base) { prev = last })

-- `find` is `getProcessById`.
module _ (find : ℕ → Option ℕ) where
  -- `extendHeap`, once `allocPage` has given `base`
  unfoldable pub hang_pages : ℕ → ℕ → ℕ → ℕ → Space → Option (ℕ × Space)
  hang_pages fuel pages p base sp =
      let m = update sp.block base (fresh_block pages (sp.block base)) in
      if sp.heap_base == null
      then (let owner = update sp.owner p (record (sp.owner p) { heap = base }) in
          some (
            base,
            record sp {
              block = update m base (record (m base) { prev = null });
              heap_base = base;
              owner = add_pages_to_process base (find (owner p).pid) owner;
            },
          ))
      else elim (find_last_in_heap fuel sp.heap_base m) [
        | none ↦ none
        | some last ↦ some (
          base,
          record sp {
            block = hang_on last base m;
            owner = add_pages_to_process base (find (sp.owner p).pid) sp.owner;
          },
        )
      ]

  -- `extendHeap` for the process at `p`
  unfoldable pub extend_heap : ℕ → ℕ → ℕ → Space → Option (ℕ × Space)
  extend_heap fuel size p sp =
      let pages = number_of_pages_to_alloc ((size + block_struct_size) % word) in
      elim (alloc_page pages sp.buddy) [
        | none ↦ none
        | some (base, buddy) ↦ hang_pages fuel pages p base (record sp { buddy = buddy })
      ]

  -- The end of `mallock`. `stray` stands for the second argument of `extendHeap(size)`, which the
  -- call leaves out.
  unfoldable pub take_or_extend : ℕ → ℕ → ℕ → ℕ → Space → Option (ℕ × Space)
  take_or_extend stray fuel size block sp =
      let take : ℕ → Space → ℕ × Space =
        λ b now. (data_start b, record now { block = take_block b (align4 size) now.block }) in
      if block == null
      then elim (extend_heap fuel size stray sp) [ none ↦ none | some (b, now) ↦ some (take b now) ]
      else some (take block sp)

  -- The first use of `extendHeap` in `mallock`: its result is not looked at.
  unfoldable pub ensure_heap : ℕ → ℕ → ℕ → Space → Option Space
  ensure_heap fuel size p sp =
      if sp.heap_base == null
      then elim (extend_heap fuel size p sp) [ none ↦ none | some (b, now) ↦ some now ]
      else some sp

  -- `mallock`, where `getCurrentProcess` gives `p`.
  unfoldable pub mallock : ℕ → ℕ → ℕ → ℕ → Space → Option (ℕ × Space)
  mallock stray fuel p size sp =
      let sp1 = record sp { heap_base = (sp.owner p).heap } in
      if p == null
      then some (sp.kernel_base, record sp { kernel_base = sp.kernel_base + size * size_of_block })
      else if size == 0
      then some (null, sp1)
      else elim (ensure_heap fuel size p sp1) [
        | none ↦ none
        | some sp2 ↦ elim (find_first_free_block fuel sp2.heap_base (align4 size) sp2.block) [
          | none ↦ none
          | some block ↦ take_or_extend stray fuel size block sp2
        ]
      ]

-- `getBlock`, from `current` on
unfoldable pub get_block : ℕ → ℕ → ℕ → Blocks → Option ℕ
get_block zero p current m = none
get_block (suc fuel) p current m =
    let rest = get_block fuel p (m current).next m in
    if current == null || not (ltb (m current).next p) then some current else rest

unfoldable pub is_valid_address : ℕ → Space → Bool
is_valid_address p sp = not (p == null || ltb p (data_start sp.heap_base))

-- `mergeBlocks`
unfoldable pub merge_blocks : ℕ → Blocks → Blocks
merge_blocks a m =
    let b = m (m a).next in
    update m a
      (record (m a) { size = ((m a).size + b.size + block_struct_size) % word; next = b.next })

-- `free`, once `getBlock` has given `a`
unfoldable pub merge_next : ℕ → Blocks → Blocks
merge_next a m =
    if not ((m a).next == null) && (m (m a).next).free == 1 then merge_blocks a m else m

unfoldable pub merge_prev : ℕ → Blocks → Blocks
merge_prev a m =
    if not ((m a).prev == null) && (m (m a).prev).free == 1 then merge_blocks (m a).prev m else m

unfoldable pub release_block : ℕ → Blocks → Blocks
release_block a m =
    if a == null then m else merge_prev a (merge_next a (update m a (record (m a) { free = 1 })))

-- `free`
unfoldable pub free_memory : ℕ → ℕ → Space → Option Space
unfolding is_valid_address
free_memory fuel p sp =
    if is_valid_address p sp
    then elim (get_block fuel p sp.heap_base sp.block) [
      | none ↦ none
      | some a ↦ some (record sp { block = release_block a sp.block })
    ]
    else some sp
