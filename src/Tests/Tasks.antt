-- ===== src/Tests/Tasks.antt =====
-- The scheduler of src/kernel/multitasking.c with two threads.
use c4os.Common.{◌∷◌, [], ◌==◌, if◌then◌else◌, refl, arith, false, true, Ensures}
use c4os.Stdlib.Lists.{Heap}
use c4os.Multitasking.{Registers, Tasks, is_suspended, switch_task, initial_state}
use c4os.Multitasking.Schedule.{first_ready}
use c4os.Multitasking.Switch.{Switched, switch_task-Switched}

abbrev pub ring : Heap
ring = record {
  next = λ a. if a == 100 then 200 else 100;
  prev = λ a. if a == 100 then 200 else 100;
  list = λ a. 5;
  first = λ l. 100;
  count = λ l. 2;
  mutex = λ l. false;
}

-- The thread 100 of the process 1 is current; the thread 200 belongs to the process 2.
abbrev pub two_threads : Tasks
two_threads = record {
  multitasking_enabled = true;
  items = ring;
  process = λ a. if a == 100 then 1 else 2;
  thread_suspend = λ a. false;
  state = λ a. initial_state false 0x400 0x8000 1;
  process_suspend = λ p. false;
  page_dir = λ p. if p == 1 then 0x1000 else 0x7000;
  current_process = 1;
  current_thread = 100;
  cr3 = 0x1000;
  ss0 = 0;
  esp0 = 0;
  indicator = 0;
}

abbrev pub kernel_registers : Registers
kernel_registers = initial_state true 0x400 0x9000 1

switch_task-Switched_example :
    Ensures
      (Switched two_threads kernel_registers 200)
      (switch_task kernel_registers 0xa000 two_threads)
unfolding first_ready is_suspended
switch_task-Switched_example =
    switch_task-Switched kernel_registers 0xa000 two_threads (200 ∷ []) 200 refl
      (refl, refl, (refl, refl)) (omega arith) refl
