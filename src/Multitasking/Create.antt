-- ===== src/Multitasking/Create.antt =====
-- How src/kernel/multitasking.c makes threads and processes (`create_thread`, `run_image`,
-- `init_address_space`, `init_multitasking`). The names of processes, which `strncpy` writes, are
-- left out. An allocation is not tested for the null pointer.

pub mod Threads
use c4os.Common.{
  ℕ, ◌+◌, ◌-◌, ◌/◌, Bool, true, false, Option, none, some, if◌then◌else◌, ◌>>=◌, update, add32, u32,
  shl, minus_one, bit_or,
}
use c4os.Stdlib.Lists.{Heap, list_init, list_append}
use c4os.Memory.Window.{Machine, page_present, page_writable, page_user, page_global}
use c4os.Memory.Virtual.{VirtMemoryBlock, AddressSpace}
use c4os.Memory.Virtual.Alloc.{alloc_kernel_pages, alloc_virt_pages}
use c4os.Multitasking.{Registers, Tasks, initial_state}
use c4os.Multitasking.Tables.{init_page_tables}

-- The threads and processes, with what the memory manager keeps: the address space of each process,
-- the kernel's own, and the one for user memory. The page directory of a process in `tasks` is the
-- one of its address space.
pub record System : Type 0 where
  pub tasks : Tasks
  pub machine : Machine
  pub kernel_address_space : AddressSpace
  pub user_address_space : AddressSpace
  pub address_space : ℕ → AddressSpace
  pub stack_base : ℕ → ℕ
  pub stack_size : ℕ → ℕ
  pub thread_count : ℕ → ℕ

abbrev pub user_program_base : ℕ
user_program_base = 0x10_0000

-- A page of the kernel's: its address.
unfoldable pub kernel_page : ℕ → System → Option (ℕ × System)
unfolding alloc_kernel_pages
kernel_page flags sys =
    alloc_kernel_pages 0 minus_one 1 flags sys.machine sys.kernel_address_space >>= λ r.
    some (r.0, record sys { machine = r.1; kernel_address_space = r.2 })

-- The stack of a thread of the process.
unfoldable pub stack_pages : ℕ → ℕ → Bool → System → Option (ℕ × System)
unfolding alloc_virt_pages
stack_pages process pages kernel sys =
    alloc_virt_pages 0x20_0000 minus_one pages
      (bit_or (bit_or page_present page_writable) (if kernel then 0 else page_user))
      sys.kernel_address_space sys.machine (sys.address_space process)
    >>= λ r. some (
      r.0,
      record sys {
        kernel_address_space = r.1;
        machine = r.2;
        address_space = update sys.address_space process r.3;
      },
    )

-- The fields of the new thread.
unfoldable pub set_thread : ℕ → ℕ → Bool → ℕ → ℕ → Registers → System → System
set_thread thread process suspend stack_base stack_size state sys = record sys {
  tasks = record sys.tasks {
    process = update sys.tasks.process thread process;
    thread_suspend = update sys.tasks.thread_suspend thread suspend;
    state = update sys.tasks.state thread state;
  };
  stack_base = update sys.stack_base thread stack_base;
  stack_size = update sys.stack_size thread stack_size;
}

unfoldable pub append_item : ℕ → ℕ → System → Option System
unfolding list_append
append_item l item sys = list_append l item sys.tasks.items >>= λ items.
    some (record sys { tasks = record sys.tasks { items = items } })

unfoldable pub count_thread : ℕ → System → System
count_thread process sys = record sys {
  thread_count = update sys.thread_count process (add32 (sys.thread_count process) 1);
}

module _ (thread_list : ℕ) where
  unfoldable pub create_thread : ℕ → ℕ → ℕ → Bool → Bool → System → Option (ℕ × System)
  unfolding kernel_page stack_pages set_thread append_item count_thread initial_state
  create_thread process entry_point stack_size_in_pages kernel suspend sys0 =
      kernel_page (bit_or page_present page_writable) sys0 >>= λ t.
      stack_pages process stack_size_in_pages kernel t.1 >>= λ s.
      append_item thread_list t.0 (
        set_thread t.0 process suspend s.0 (u32 (shl stack_size_in_pages 12))
          (initial_state kernel entry_point s.0 stack_size_in_pages) s.1)
      >>= λ sys3. some (t.0, count_thread process sys3)

-- `init_address_space` and, with other bounds, `init_kernel_address_space`. The mutex keeps what the
-- page held.
unfoldable pub init_space : ℕ → ℕ → ℕ → AddressSpace → System → Option (AddressSpace × System)
unfolding kernel_page
init_space start end_ page_dir space sys =
    kernel_page (bit_or (bit_or page_present page_writable) page_global) sys >>= λ t. some (
      record space {
        page_dir = page_dir;
        start = start;
        end_ = end_;
        block_table_size = 0x1000 / 12;
        blocks_address = t.0;
        block_count = 0;
      },
      t.1,
    )

-- The address space of a process.
unfoldable pub set_space : ℕ → AddressSpace → System → System
set_space process space sys = record sys {
  address_space = update sys.address_space process space;
  tasks = record sys.tasks { page_dir = update sys.tasks.page_dir process space.page_dir };
}

unfoldable pub set_process : ℕ → ℕ → System → System
set_process process thread_count sys = record sys {
  thread_count = update sys.thread_count process thread_count;
  tasks = record sys.tasks { process_suspend = update sys.tasks.process_suspend process false };
}

-- The thread that runs already: its registers are saved when it is left.
unfoldable pub first_thread : ℕ → ℕ → System → System
first_thread thread process sys = record sys {
  tasks = record sys.tasks {
    process = update sys.tasks.process thread process;
    thread_suspend = update sys.tasks.thread_suspend thread false;
  };
  stack_size = update sys.stack_size thread 0x1000;
}

module _ (process_list thread_list kernel_page_dir : ℕ) where
  unfoldable pub run_image : ℕ → System → Option System
  unfolding init_page_tables kernel_page init_space set_space set_process append_item create_thread
  run_image proc_image_start sys0 =
      init_page_tables kernel_page_dir proc_image_start sys0.machine >>= λ d.
      kernel_page (bit_or page_present page_writable) (record sys0 { machine = d.1 }) >>= λ p.
      init_space 0 0x7fff_ffff d.0 (p.1.address_space p.0) p.1 >>= λ a.
      append_item process_list p.0 (set_process p.0 0 (set_space p.0 a.0 a.1)) >>= λ sys4.
      create_thread thread_list p.0 user_program_base 1 false false sys4 >>= λ r. some r.1

  -- The first process and thread, on the stack that is in use; `kernel_base` is the address
  -- `KERNEL_BASE` of the linker.
  unfoldable pub init_multitasking : ℕ → System → Option System
  unfolding list_init kernel_page init_space set_space set_process append_item first_thread
  init_multitasking kernel_base sys0 =
      let items = list_init thread_list (list_init process_list sys0.tasks.items) in
      let sys1 = record sys0 { tasks = record sys0.tasks { items = items } } in
      kernel_page (bit_or page_present page_writable) sys1 >>= λ p.
      init_space 0x8000_0000 (kernel_base - 1) kernel_page_dir (p.1.address_space p.0) p.1 >>= λ a.
      init_space 0 0x7fff_ffff kernel_page_dir a.1.user_address_space (set_space p.0 a.0 a.1)
      >>= λ u.
          append_item process_list p.0 (set_process p.0 1 (record u.1 { user_address_space = u.0 }))
          >>= λ sys4. kernel_page (bit_or page_present page_writable) sys4 >>= λ t.
              append_item thread_list t.0 (first_thread t.0 p.0 t.1) >>= λ sys6. some (record sys6 {
                tasks = record sys6.tasks {
                  current_process = p.0;
                  current_thread = t.0;
                  multitasking_enabled = true;
                };
              })
