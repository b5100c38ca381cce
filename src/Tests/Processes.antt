-- ===== src/Tests/Processes.antt =====
-- Kernel/threads.c at a process with one thread.
use gat_os_v.Base.{◌≡◌, arith, refl, [], ◌==◌, if◌then◌else◌, update}
use gat_os_v.Threads.{
  StackFrame, Threads, create_thread, fill_stack_frame, find_next_spot, spot_loop, fill_spot,
}
use gat_os_v.Threads.Slots.{Created, new_thread, Ended, create_thread_lem}

abbrev some_frame : StackFrame
some_frame = (fill_stack_frame 0 0 0x100000 0).1

abbrev one_thread : Threads
one_thread = record {
  thread = λ i. if i == 0 then 0x600000 else 0;
  active_thread = 0;
  number_of_threads = 1;
  threads = λ a. new_thread 0x601000 0x603000 64;
  frames = λ a. some_frame;
  freed = [];
}

second_place : (create_thread 9 64 5 0x700000 0x701000 0x703000 one_thread).1.thread 1 ≡ 0x700000
unfolding create_thread fill_stack_frame find_next_spot spot_loop fill_spot
second_place = refl

create_thread_lem_example :
    Ended 0x700000 0x701000 0x703000 64 one_thread
      (create_thread 9 64 5 0x700000 0x701000 0x703000 one_thread)
create_thread_lem_example = create_thread_lem 9 64 5 0x700000 0x701000 0x703000 one_thread

abbrev two_threads : Threads
two_threads = record one_thread {
  thread = update one_thread.thread 1 0x700000;
  number_of_threads = 2;
  threads = update one_thread.threads 0x700000 (new_thread 0x701000 0x703000 64);
}

two_threads-Created : Created 1 0x700000 0x701000 0x703000 64 one_thread two_threads
two_threads-Created = record {
  first = (omega arith, refl, λ j lt e. ground (arith, lt, e));
  places = refl;
  counted = refl;
  structure = refl;
  kept = (refl, refl);
}
