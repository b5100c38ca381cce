-- ===== src/Lib.antt =====
-- Verification of the kernel of gatOS: memory pages, processes and their scheduling, the mutexes,
-- semaphores, condition variables and pipes above them, the heaps, and the terminal and the screen
-- with the routines on text, the mouse, and the processes that sleep.
--
-- The parts and how they interact. Kernel/buddyAllocator.c hands out pages to every other part.
-- Kernel/scheduler.c keeps the processes in a ring of slots and gives the processor to one of them.
-- Kernel/mutex.c, Kernel/semaphores.c and Kernel/condVariable.c block a process with
-- `changeProcessState`, give up the processor with `_yield`, and make a waiting process READY again;
-- they find each other by name, with the `strcmp` of Kernel/stdio.c. The mutexes at the head of
-- Kernel/mutex.c and the condition variables keep those that wait in queues of Kernel/queue.c.
-- Kernel/IPC.c passes bytes through rings of 10, finds the pipes by name, and wakes those that wait.
-- Kernel/malloc.c cuts the pages of a process into blocks, and the kernel heap too.
-- Kernel/keyboard.c turns scan codes into characters and puts them into the ring of
-- Kernel/terminal.c, which `read` empties; Kernel/video.c draws what the terminal asks for, and
-- pastes a selection of the screen back into it, which Kernel/mouse.c draws. Kernel/interrupts.c wakes
-- the processes that sleep as the timer ticks. Kernel/stdio.c and Kernel/lib.c hold the routines on
-- strings, numbers and memory that all of them share.
--
-- Files.
--   Base        shared names; arrays, memory as functions, signed integers, lists.
--   Buddy       Kernel/buddyAllocator.c and its header: `create_heap`, `alloc_page`, `dealloc_page`
--               and their parts, on the two arrays of the tree. The children say what a search finds,
--               where a level and a node lie, how allocation and release treat the tree, and
--               what is handed out after a release.
--   Process     Kernel/include/structs.h: processes, and the interface `Processes`, which is all that
--               the synchronisation code uses of the scheduler.
--   Scheduler   Kernel/scheduler.c with `getProcess` of Kernel/process.c: the ring of slots by
--               address. `Scheduler.States.scheduler` fills the interface.
--   Outcome     how a routine ends that may give up the processor.
--   Strings     Kernel/stdio.c: `strcmp` and `strcmpN`.
--   Queue       Kernel/queue.c: a chain of nodes in memory, whose pages are arguments.
--   Lock        Kernel/mutex.c up to the old implementation, over those queues.
--   Reserve     Kernel/memoryAllocator.c: the stacks of free pages.
--   Threads     Kernel/threads.c and `fillStackFrame` of Kernel/process.c.
--   Cond        Kernel/condVariable.c, over `Lock` and `Queue`.
--   Mutex       Kernel/mutex.c from `initializeMutexes` on, and Kernel/asm/lock.asm.
--   Semaphore   Kernel/semaphores.c.
--   Pipe        Kernel/IPC.c: `write` and `read` on the ring of bytes, less the blocking around them.
--   Ipc         Kernel/IPC.c: the table of names, the structures and lists of the pipes, and in
--               `Ipc.Calls` the calls, over `Pipe`, `Mutex` and the interface `Processes`.
--   Block       Kernel/malloc.c with `addPagesToProcess` of Kernel/process.c, over `Buddy`: the
--               headers of the blocks by address.
--   Sleep       Kernel/interrupts.c: the processes that sleep, and the handler of the timer.
--   Video       Kernel/video.c: the cells, the cursor, the selection, and the memory of the screen.
--   Mouse       Kernel/mouse.c: the handler, on the readings of the two ports, over Video and Terminal.
--   Copy        Kernel/lib.c: `memset` and `memcpy`, on memory as a function of the address.
--   Text        Kernel/stdio.c: `putNumber`, `printFF`, `itoa` and `strcpy`; `intToString`.
--   Terminal    Kernel/terminal.c: the ring of characters; what is drawn is a list of events.
--   Keyboard    Kernel/keyboard.c: the table of keys and the handler of the interrupt.
--   Tests       runs, and the theorems at concrete data.
--
-- Numbers and fuel. Addresses, indices and pids are natural numbers; -1 is `none` where the code
-- uses it for an absent pid or index; the value of a semaphore is an integer, and so are the cursor
-- and the places of a selection. The sizes of blocks, the pids in the lists of pipes, the value of a
-- semaphore and the negations in `putNumber` and `itoa` have their 32 bits; where C leaves a signed
-- result undefined, they are the low ones. The loops of the scheduler are bounded by the number of processes: after one turn of
-- the ring the search of `schedule` sees the same slots again, so `none` stands for a search that
-- does not end. `getLevel` has the number of pages as fuel, and each round halves the number,
-- rounding up, until it is 1 (for 0 pages it never is: `none`); `freeUpRecursive` has the index of its node, which halves. The loops
-- of `putNumber` and `itoa` have the number as fuel, which every round divides by the base, the one
-- that reverses a string has its length, and `strcpy` has an argument, one more than the length of
-- the string. The loops over a queue have a bound as an argument, the number of its elements; where
-- the last round looks at an empty queue, one more. The searches of a heap have more than its number
-- of blocks, `lineJump` has 81 rounds, one more than a row has columns, and the loop of a selection
-- 2001, one more than the screen has places; `freeSpace` has an argument. The loop of the timer has
-- more rounds than processes sleep; that of the mouse has a bound on
-- its rounds, and `none` stands for a run that has not ended within it.
--
-- Not modelled: the pages that a new process takes for its stacks and its pipes (the address of a
-- slot is an argument), `freeProcessPages`, what `cond_wait` does after it is chosen again, `scanFF`,
-- Kernel/naiveConsole.c, the commands that turn the mouse on, the clock, system calls, the programs
-- of Userland, and the boot loaders, which are third-party. The `int` that counts the ticks of a
-- sleeper has no bound. An interrupt between two statements of a routine is not modelled
-- either: a routine gives up the processor at its `_yield` only, and what it does when it is chosen
-- again is left out.
pub mod Base
pub mod Buddy
pub mod Process
pub mod Scheduler
pub mod Strings
pub mod Outcome
pub mod Mutex
pub mod Semaphore
pub mod Pipe
pub mod Tests
pub mod Copy
pub mod Text
pub mod Terminal
pub mod Keyboard
pub mod Queue
pub mod Lock
pub mod Reserve
pub mod Threads
pub mod Cond
pub mod Block
pub mod Video
pub mod Ipc
pub mod Sleep
pub mod Mouse
