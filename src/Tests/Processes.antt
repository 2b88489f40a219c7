-- ===== src/Tests/Processes.antt =====
-- A thread that src/kernel/multitasking.c makes, at a concrete memory.
use c4os.Common.{
  ℕ, ◌≡◌, refl, arith, false, Option, none, some, [], ◌∷◌, ◌==◌, if◌then◌else◌, Ensures,
}
use c4os.Memory.Window.{Machine}
use c4os.Memory.Virtual.{AddressSpace, vmb_memory}
use c4os.Memory.Window.{temp_entry, temp_map_page}
use c4os.Memory.Phys
use c4os.Memory.Phys.{alloc_phys_pages, alloc_scan, cut_block, take_block, alloc_finish}
use c4os.Memory.Paging.{
  map_pages, find_page_table, set_entry, clear_offset_bits, get_page_directory_index,
  get_page_table_index,
}
use c4os.Memory.Virtual.{
  lock_space, choose_vaddr, top_search, given_search, is_blocks_overlapped, add_block,
}
use c4os.Memory.Virtual.Alloc.{
  alloc_kernel_pages, alloc_virt_pages, alloc_virt_pages_by, alloc_pages, map_block, grow_kernel,
  grow_other,
}
use c4os.Stdlib.Lists.{Heap}
use c4os.Stdlib.Lists.Rings.{IsRing}
use c4os.Multitasking.Create.{System, kernel_page, stack_pages, create_thread}
use c4os.Multitasking.Create.Threads.{Created, create_thread-Created}
use c4os.Tests.Tasks.{ring, two_threads}

-- One free block of eight pages at 0x3000; a page directory at 0x1000, all of whose entries lead to
-- the table at 0x2000.
abbrev one_block : Machine
one_block = record {
  word = λ i f. if f == 0x1000 then 0x2003 else (if i == 2 then 8 else 0x3000);
  temp_page_info = 0;
  free_page_count = 8;
  free_phys_memory_pointer = 0x3000;
  phys_memory_mutex = false;
}

abbrev space : ℕ → ℕ → AddressSpace
space start end_ = record {
  page_dir = 0x1000;
  start = start;
  end_ = end_;
  block_table_size = 341;
  block_count = 0;
  blocks_address = 0x8000_1000;
  block = λ i. record { type_ = vmb_memory; base = 0; length_ = 0 };
  mutex = false;
}

-- The threads 100 and 200 are in the list at 5, and all else is in none.
abbrev pub two_items : Heap
two_items = record ring { list = λ a. if a == 100 then 5 else (if a == 200 then 5 else 0) }

abbrev pub system : System
system = record {
  tasks = record two_threads { items = two_items };
  machine = one_block;
  kernel_address_space = space 0x8000_0000 0xffff_bfff;
  user_address_space = space 0 0x7fff_ffff;
  address_space = λ p. space 0 0x7fff_ffff;
  stack_base = λ t. 0;
  stack_size = λ t. 0;
  thread_count = λ p. 1;
}

abbrev outcome : Option (ℕ × System) → System
outcome none = system
outcome (some (a, sys)) = sys

abbrev with_page : System
with_page = outcome (kernel_page 3 system)

with_page_at : kernel_page 3 system ≡ some (0xffff_b000, with_page)
unfolding kernel_page alloc_kernel_pages alloc_virt_pages_by lock_space choose_vaddr top_search
    is_blocks_overlapped alloc_pages alloc_phys_pages Phys.lock Phys.release alloc_scan cut_block
    take_block alloc_finish temp_map_page map_block map_pages find_page_table set_entry add_block
    temp_entry grow_kernel clear_offset_bits get_page_directory_index get_page_table_index
with_page_at = refl

abbrev with_stack : System
with_stack = outcome (stack_pages 2 4 false with_page)

with_stack_at : stack_pages 2 4 false with_page ≡ some (0x20_0000, with_stack)
unfolding stack_pages kernel_page alloc_kernel_pages alloc_virt_pages alloc_virt_pages_by lock_space
    choose_vaddr top_search given_search is_blocks_overlapped alloc_pages alloc_phys_pages Phys.lock
    Phys.release alloc_scan cut_block take_block alloc_finish temp_map_page map_block map_pages
    find_page_table set_entry add_block temp_entry grow_kernel grow_other clear_offset_bits
    get_page_directory_index get_page_table_index
with_stack_at = refl

pub two_items-IsRing : IsRing two_items 5 (100 ∷ 200 ∷ [])
two_items-IsRing = record {
  links = (refl, (refl, refl, (refl, refl)));
  distinct = ((λ e. omega arith, tt), (tt, tt));
  not_null = (λ e. omega arith, (λ e. omega arith, tt));
  counted = refl;
  unlocked = refl;
}

create_thread-Created_example :
    Ensures
      (Created 5 (100 ∷ 200 ∷ []) 2 0x10_0000 4 false false 0xffff_b000 0x20_0000 system)
      (create_thread 5 2 0x10_0000 4 false false system)
create_thread-Created_example =
    create_thread-Created 5 2 0x10_0000 4 false false 0xffff_b000 0x20_0000 (100 ∷ 200 ∷ []) system
      with_page with_stack two_items-IsRing with_page_at with_stack_at
      (λ e. omega arith, (λ e. omega arith, tt)) (λ e. omega arith) refl (omega arith)
