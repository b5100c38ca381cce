-- ===== src/Queue.antt =====
-- Kernel/queue.c: a queue as a chain of nodes in memory. The fields of the nodes and of the queues
-- are functions of the address. What `allocPage` returns is an argument, NULL included, and the calls
-- of `deallocPage` are a list of the addresses that it was given.
pub mod Contents
pub mod Order
use gat_os_v.Base.{
  ℕ, zero, suc, Bool, true, false, ◌||◌, List, [], ◌∷◌, ◌++◌, ◌==◌, if◌then◌else◌, update,
}

abbrev pub null : ℕ
null = 0

pub record Heap : Type 0 where
  -- of a `node`
  pub elem : ℕ → ℕ
  pub next : ℕ → ℕ
  -- of a `struct queue`
  pub first : ℕ → ℕ
  pub last : ℕ → ℕ
  pub freed : List ℕ

abbrev pub give_back : ℕ → Heap → Heap
give_back a h = record h { freed = h.freed ++ a ∷ [] }

-- `create_queue`, with the page `q` from `allocPage`, which it returns.
unfoldable pub create_queue : ℕ → Heap → Heap
create_queue q h =
    if q == null then h else record h { first = update h.first q null; last = update h.last q null }

unfoldable pub is_empty : ℕ → Heap → Bool
is_empty q h = q == null || h.first q == null

-- `enqueue`, with the page `a` from `allocPage` for the node.
unfoldable pub enqueue : ℕ → ℕ → ℕ → Heap → Heap
enqueue q elem a h =
    let h1 = record h { elem = update h.elem a elem; next = update h.next a null } in
    if q == null
    then h
    else if h.first q == null
    then record h1 { first = update h1.first q a; last = update h1.last q a }
    else record h1 { next = update h1.next (h1.last q) a; last = update h1.last q a }

unfoldable pub peek : ℕ → Heap → ℕ
unfolding is_empty
peek q h = if is_empty q h then null else h.elem (h.first q)

-- `dequeue` where the queue is not empty.
unfoldable pub unlink_first : ℕ → Heap → Heap
unlink_first q h =
    let f = h.first q in
    let h1 = record h { first = update h.first q (h.next f) } in
    let h2 = if h1.first q == null then record h1 { last = update h1.last q null } else h1 in
    give_back f h2

unfoldable pub dequeue : ℕ → Heap → ℕ × Heap
unfolding is_empty unlink_first
dequeue q h = if is_empty q h then (null, h) else (h.elem (h.first q), unlink_first q h)

-- The loop of `destroy_queue`, on fuel.
unfoldable pub empty_loop : ℕ → ℕ → Heap → Heap
unfolding is_empty dequeue
empty_loop zero q h = h
empty_loop (suc fuel) q h =
    let rest = empty_loop fuel q (dequeue q h).1 in if is_empty q h then h else rest

unfoldable pub destroy_queue : ℕ → ℕ → Heap → Heap
unfolding empty_loop
destroy_queue fuel q h = give_back q (empty_loop fuel q h)
