-- ===== src/Tests/Reserves.antt =====
-- Kernel/memoryAllocator.c, at its start and with pages out.
use gat_os_v.Base.{◌+◌, ◌*◌, ◌≡◌, arith, refl, [], ◌∷◌, ◌++◌, ◌==◌, if◌then◌else◌}
use gat_os_v.Reserve.{
  Reserve, lock_call, unlock_call, at_start, page_size, data_address, stack_size,
  initialize_memory_allocator, number_loop, get_page, store_page,
}
use gat_os_v.Reserve.Free.{free, store-get_page}

-- Two pages are free, 254 and 0; the pages from 1 on are out.
abbrev low : Reserve
low = record { pages = λ i. if i == 254 then 0 else i + 1; current_index = 253; calls = [] }

first_page : (get_page (initialize_memory_allocator at_start)).0 ≡ 0x501000
unfolding get_page initialize_memory_allocator number_loop
first_page = refl

store-get_page_example :
    let (stored, r1) = store_page (7 * page_size + data_address) low in
    (stored ≡ 1)
    × (free stack_size r1 ≡ 7 ∷ free stack_size low)
    × (r1.calls ≡ (low.calls ++ lock_call ∷ []) ++ unlock_call ∷ [])
    × ((get_page r1).0 ≡ 7 * page_size + data_address)
    × (free stack_size (get_page r1).1 ≡ free stack_size low)
store-get_page_example = store-get_page 7 low (omega arith) (omega arith) (omega arith)
