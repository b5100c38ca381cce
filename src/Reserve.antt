-- ===== src/Reserve.antt =====
-- Kernel/memoryAllocator.c: the pages that are free, as a stack of their numbers, and the same for
-- the stacks of processes. The calls of `mutex_lock` and `mutex_unlock` on the mutex of a stack are a
-- list of events.
pub mod Free
use gat_os_v.Base.{
  ℕ, zero, suc, ◌+◌, ◌-◌, ◌*◌, ◌/◌, ◌%◌, ◌^◌, List, [], ◌∷◌, ◌++◌, ltb, if◌then◌else◌, update,
}

abbrev pub page_size : ℕ
page_size = 0x1000

abbrev pub stack_page_size : ℕ
stack_page_size = 0x100000

abbrev pub data_address : ℕ
data_address = 0x500000

-- `(page_index_t) - 1`
abbrev pub stack_size : ℕ
stack_size = 255

abbrev pub memory_pages_end : ℕ
memory_pages_end = (stack_size + 1) * page_size + data_address

abbrev pub stack_address : ℕ
stack_address = memory_pages_end + page_size

abbrev pub max_processes : ℕ
max_processes = 128

pub data Call : Type 0 where
  lock_call unlock_call : Call

-- `pages_stack` and `current_index`, or `stack_pages_stack` and `current_stack_index`.
pub record Reserve : Type 0 where
  pub pages : ℕ → ℕ
  pub current_index : ℕ
  pub calls : List Call

-- The static variables before the first call.
abbrev pub at_start : Reserve
at_start = record { pages = λ _. 0; current_index = 0; calls = [] }

abbrev call : Call → Reserve → Reserve
call c r = record r { calls = r.calls ++ c ∷ [] }

-- `mutex_lock` and `mutex_unlock` of the key of the stack
abbrev pub lock : Reserve → Reserve
lock r = call lock_call r

abbrev pub unlock : Reserve → Reserve
unlock r = call unlock_call r

-- The loop of `initialize_memory_allocator`, with the rounds left.
unfoldable pub number_loop : ℕ → ℕ → (ℕ → ℕ) → ℕ → ℕ
number_loop zero i pages = pages
number_loop (suc rounds) i pages = number_loop rounds (i + 1) (update pages i (i + 1))

unfoldable pub initialize_memory_allocator : Reserve → Reserve
unfolding number_loop
initialize_memory_allocator r = record r { pages = number_loop (stack_size - 1) 0 r.pages }

unfoldable pub get_page : Reserve → ℕ × Reserve
get_page r =
    let r1 = lock r in
    if ltb r1.current_index stack_size
    then (
      r1.pages r1.current_index * page_size + data_address,
      unlock (record r1 { current_index = r1.current_index + 1 }),
    )
    else (0, lock r1)

-- The number of the page at an address, on 64 bits, and cut to a `page_index_t`.
abbrev pub page_number : ℕ → ℕ
page_number address = (address + 2 ^ 64 - data_address) % 2 ^ 64 / page_size % 256

unfoldable pub store_page : ℕ → Reserve → ℕ × Reserve
store_page address r =
    let r1 = lock r in
    if ltb 0 r1.current_index
    then (
      1,
      unlock (record r1 {
        pages = update r1.pages (r1.current_index - 1) (page_number address);
        current_index = r1.current_index - 1;
      }),
    )
    else (0, unlock r1)

-- The loop of `initialize_stack_memory_allocator`, with the rounds left.
unfoldable pub address_loop : ℕ → ℕ → (ℕ → ℕ) → ℕ → ℕ
address_loop zero i pages = pages
address_loop (suc rounds) i pages =
    address_loop rounds (i + 1) (update pages i ((i + 1) * stack_page_size + stack_address))

unfoldable pub initialize_stack_memory_allocator : Reserve → Reserve
unfolding address_loop
initialize_stack_memory_allocator r = record r { pages = address_loop max_processes 0 r.pages }

unfoldable pub get_stack_page : Reserve → ℕ × Reserve
get_stack_page r =
    let r1 = lock r in
    if ltb r1.current_index max_processes
    then (r1.pages r1.current_index, unlock (record r1 { current_index = r1.current_index + 1 }))
    else (0, unlock r1)

unfoldable pub store_stack_page : ℕ → Reserve → ℕ × Reserve
store_stack_page address r =
    let r1 = lock r in
    if ltb 0 r1.current_index
    then (
      1,
      unlock (record r1 {
        pages = update r1.pages (r1.current_index - 1) address;
        current_index = r1.current_index - 1;
      }),
    )
    else (0, unlock r1)
