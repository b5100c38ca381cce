-- ===== src/Threads.antt =====
-- Kernel/threads.c, and `fillStackFrame` and `initializeThreadArray` of Kernel/process.c: the threads
-- of one process, by the addresses of their structures. The pages that `allocPage` returns are
-- arguments, and the calls of `deallocPage` are a list of the addresses that it was given.
pub mod Slots
use gat_os_v.Base.{
  ℕ, zero, suc, ◌+◌, ◌-◌, ◌*◌, Option, none, some, List, [], ◌∷◌, ◌++◌, ◌==◌, if◌then◌else◌, update,
  ℤ, pos, negsuc,
}
use gat_os_v.Process.{Thread}

abbrev pub null : ℕ
null = 0

abbrev pub page_size : ℕ
page_size = 0x1000

-- `StackFrame_s`: 23 words of 8 bytes
pub record StackFrame : Type 0 where
  pub gs : ℕ
  pub fs : ℕ
  pub r15 : ℕ
  pub r14 : ℕ
  pub r13 : ℕ
  pub r12 : ℕ
  pub r11 : ℕ
  pub r10 : ℕ
  pub r9 : ℕ
  pub r8 : ℕ
  pub rsi : ℕ
  pub rdi : ℕ
  pub rbp : ℕ
  pub rdx : ℕ
  pub rcx : ℕ
  pub rbx : ℕ
  pub rax : ℕ
  pub rip : ℕ
  pub cs : ℕ
  pub eflags : ℕ
  pub rsp : ℕ
  pub ss : ℕ
  pub base : ℕ

abbrev pub frame_size : ℕ
frame_size = 23 * 8

-- `fillStackFrame`: the address that it returns, and what it writes there. `call_process` is the
-- address of `callProcess`. The stacks lie above the first 51 frames of the memory.
unfoldable pub fill_stack_frame : ℕ → ℕ → ℕ → ℕ → ℕ × StackFrame
fill_stack_frame call_process entry_point user_stack args =
    let frame = user_stack - 2 * frame_size in
    (
      frame,
      record {
        gs = 0x001;
        fs = 0x002;
        r15 = 0x003;
        r14 = 0x004;
        r13 = 0x005;
        r12 = 0x006;
        r11 = 0x007;
        r10 = 0x008;
        r9 = 0x009;
        r8 = 0x00A;
        rsi = entry_point;
        rdi = entry_point;
        rbp = 0x00D;
        rdx = args;
        rcx = args;
        rbx = 0x010;
        rax = 0x011;
        rip = call_process;
        cs = 0x008;
        eflags = 0x202;
        base = user_stack - 51 * frame_size;
        rsp = frame + 22 * 8;
        ss = 0x000;
      },
    )

-- The fields of a process that belong to its threads, and memory: the threads and the frames by their
-- addresses.
pub record Threads : Type 0 where
  pub thread : ℕ → ℕ
  pub active_thread : ℕ
  pub number_of_threads : ℕ
  pub threads : ℕ → Thread
  pub frames : ℕ → StackFrame
  pub freed : List ℕ

-- `initializeThreadArray`, from index `i` on, with the rounds left.
unfoldable pub clear_loop : ℕ → ℕ → (ℕ → ℕ) → ℕ → ℕ
clear_loop zero i t = t
clear_loop (suc rounds) i t = clear_loop rounds (i + 1) (update t i null)

-- The loop of `findNextSpot`, from index `i` on, with the rounds left. It leaves the pointer 1 in the
-- place that it finds; `none` is -1.
unfoldable pub spot_loop : ℕ → ℕ → (ℕ → ℕ) → Option ℕ × (ℕ → ℕ)
spot_loop zero i t = (none, t)
spot_loop (suc rounds) i t =
    let rest = spot_loop rounds (i + 1) t in if t i == null then (some i, update t i 1) else rest

unfoldable pub find_next_spot : (ℕ → ℕ) → ℕ → Option ℕ × (ℕ → ℕ)
unfolding spot_loop
find_next_spot t dim = spot_loop dim 0 t

-- The end of `createThread`, with what `findNextSpot` gives.
unfoldable pub fill_spot : Option ℕ × (ℕ → ℕ) → ℕ → Thread → Threads → ℤ × Threads
fill_spot (none, spots) t new p = (negsuc 0, record p { thread = spots })
fill_spot (some index, spots) t new p = (
  pos 0,
  record p {
    number_of_threads = p.number_of_threads + 1;
    thread = update spots index t;
    threads = update p.threads t new;
  },
)

-- `createThread`, with the page of its structure and those of its stacks.
unfoldable pub create_thread : ℕ → ℕ → ℕ → ℕ → ℕ → ℕ → Threads → ℤ × Threads
unfolding fill_stack_frame find_next_spot fill_spot
create_thread call_process entry_point args t page1 page2 p =
    let (stack, frame) = fill_stack_frame call_process entry_point (page1 + 2 * page_size) args in
    let new : Thread = record {
      user_stack = stack;
      kernel_stack = page2 + 2 * page_size;
      entry_point = entry_point;
    } in
    fill_spot (find_next_spot p.thread 3) t new (record p { frames = update p.frames stack frame })

unfoldable pub free_thread_pages : ℕ → Threads → Threads
free_thread_pages t p = record p {
  freed = ((p.freed ++ (p.threads t).user_stack ∷ []) ++ (p.threads t).kernel_stack ∷ []) ++ t ∷ [];
}

-- `terminateThread`; `none` where it calls `removeProcess`.
unfoldable pub terminate_thread : Threads → Option Threads
unfolding free_thread_pages
terminate_thread p =
    let i = p.active_thread in
    let p1 = free_thread_pages (p.thread i) p in
    if i == 0
    then none
    else some (record p1 {
      thread = update p1.thread i null;
      number_of_threads = p1.number_of_threads - 1;
    })
