-- ===== src/Memory/Virtual/Alloc.antt =====
-- `alloc_virt_pages` and `free_virt_pages` of src/kernel/memory_manager.c, with the growth of a full
-- table of blocks.
use c4os.Common.{
  ℕ, ◌-◌, ◌*◌, ◌/◌, Bool, true, false, not, Option, some, ◌==◌, ltb, if◌then◌else◌, ◌>>=◌, add32,
  u32, minus_one, update, bit_or, shr,
}
use c4os.Memory.Window.{Machine, page_base, page_present, page_writable}
use c4os.Memory.Phys.{bytes_of, alloc_phys_pages, free_phys_pages}
use c4os.Memory.Paging.{map_pages, get_page_info}
use c4os.Memory.Virtual.{
  VirtMemoryBlockType, vmb_memory, vmb_io_memory, AddressSpace, choose_vaddr, add_block, grown_size,
  unlock, lock_space, find_block, remove_block,
}

-- `fail`: the mapping is overwritten with entries that are not present, and the pages are freed.
unfoldable pub unmap : ℕ → ℕ → ℕ → AddressSpace → Machine → Option Machine
unfolding map_pages free_phys_pages
unmap vaddr paddr count s m = do
  (ok, m1) ← map_pages s.page_dir vaddr 0 count 0 m
  free_phys_pages paddr count m1

-- `alloc_virt_pages`, where `grow` is what is done about a full table: its flag tells if it
-- succeeded. `K` is the state that growing needs beside the machine and the address space.
module _ {K : Type 0}
    (grow : K → Machine → AddressSpace → Option (Bool × K × Machine × AddressSpace)) where
  -- The physical pages are there: they are mapped, and the block is entered.
  unfoldable pub map_block :
      VirtMemoryBlockType
      → ℕ
      → ℕ
      → ℕ
      → ℕ
      → ℕ
      → K
      → Machine
      → AddressSpace
      → Option (ℕ × K × Machine × AddressSpace)
  unfolding map_pages unmap add_block
  map_block type_ i vaddr paddr count flags k m0 s0 = do
    (ok, m1) ← map_pages s0.page_dir vaddr paddr count flags m0
    (grown, k1, m2, s1) ←
        (if not ok
          then some (false, k, m1, s0)
          else (if s0.block_count == s0.block_table_size
              then grow k m1 s0
              else some (true, k, m1, s0)))
    let entered = add_block i (record { type_ = type_; base = vaddr; length_ = bytes_of count }) s1
    let failed = unmap vaddr paddr count s1 m2
    if grown then some (vaddr, k1, m2, entered) else (failed >>= λ m3. some (0, k1, m3, s1))

  -- Without physical pages the address is returned all the same.
  unfoldable pub alloc_pages :
      ℕ → ℕ → ℕ → ℕ → ℕ → K → Machine → AddressSpace → Option (ℕ × K × Machine × AddressSpace)
  unfolding alloc_phys_pages map_block
  alloc_pages i vaddr paddr count flags k m0 s = do
    (found, m1) ← (if paddr == minus_one then alloc_phys_pages count m0 else some (paddr, m0))
    let type_ = if paddr == minus_one then vmb_memory else vmb_io_memory
    let mapped = map_block type_ i vaddr found count flags k m1 s
    if found == minus_one then some (vaddr, k, m1, s) else mapped

  unfoldable pub alloc_virt_pages_by :
      ℕ → ℕ → ℕ → ℕ → K → Machine → AddressSpace → Option (ℕ × K × Machine × AddressSpace)
  unfolding choose_vaddr alloc_pages lock_space
  alloc_virt_pages_by vaddr paddr count flags k m s0 = do
    s1 ← lock_space s0
    let (chosen, i) = choose_vaddr vaddr count s1
    let allocated = alloc_pages i chosen paddr count flags k m s1
    (result, k', m', s2) ← (if chosen == 0 then some (0, k, m, s1) else allocated)
    some (result, k', m', unlock s2)

-- The last block, which holds the kernel's own table, gets a page more. If that cannot be mapped it
-- is freed.
unfoldable pub extend_main_block : ℕ → Machine → AddressSpace → Option (Machine × AddressSpace)
unfolding map_pages free_phys_pages
extend_main_block new_page m0 s = do
  let main_block = s.block (s.block_count - 1)
  let longer = record s {
    block =
        update s.block (s.block_count - 1)
          (record main_block { length_ = add32 main_block.length_ 0x1000 });
  }
  (ok, m1) ←
      map_pages s.page_dir (add32 main_block.base main_block.length_) new_page 1
        (bit_or page_present page_writable) m0
  let freed = free_phys_pages new_page 1 m1
  if ok then some (m1, longer) else (freed >>= λ m2. some (m2, s))

-- The kernel's own table: its size grows also where the page could not be mapped.
unfoldable pub grow_kernel :
    Unit {0} → Machine → AddressSpace → Option (Bool × Unit {0} × Machine × AddressSpace)
unfolding alloc_phys_pages extend_main_block grown_size
grow_kernel k m0 s = do
  (new_page, m1) ← alloc_phys_pages 1 m0
  let size = u32 (grown_size s * 0x1000) / 12
  let extended = extend_main_block new_page m1 s
  if new_page == minus_one
      then some (false, k, m1, s)
      else (extended >>= λ r. some (true, k, r.0, record r.1 { block_table_size = size }))

-- `alloc_virt_pages(&kernel_address_space, …)`
unfoldable pub alloc_kernel_pages :
    ℕ → ℕ → ℕ → ℕ → Machine → AddressSpace → Option (ℕ × Machine × AddressSpace)
unfolding alloc_virt_pages_by grow_kernel
alloc_kernel_pages vaddr paddr count flags m s = do
  (result, k, m', s') ← alloc_virt_pages_by grow_kernel vaddr paddr count flags tt m s
  some (result, m', s')

-- The test of the type is an assignment, which makes every block one of memory.
unfoldable pub free_virt_pages : ℕ → Machine → AddressSpace → Option (Bool × Machine × AddressSpace)
unfolding find_block remove_block lock_space get_page_info free_phys_pages
free_virt_pages vaddr m0 s0 = do
  s1 ← lock_space s0
  let i = find_block s1.block_count 0 vaddr s1
  let (info, m1) = get_page_info s1.page_dir vaddr m0
  let typed = record s1 { block = update s1.block i (record (s1.block i) { type_ = vmb_memory }) }
  let freed = free_phys_pages (page_base info) (shr (s1.block i).length_ 12) m1 >>= λ m2.
      some (true, m2, unlock (remove_block i typed))
  if ltb i s1.block_count then freed else some (false, m0, unlock s1)

-- Another table moves to pages of the kernel's, and its old pages are freed.
unfoldable pub grow_other :
    AddressSpace → Machine → AddressSpace → Option (Bool × AddressSpace × Machine × AddressSpace)
unfolding alloc_kernel_pages free_virt_pages grown_size
grow_other kernel m0 s = do
  let size = grown_size s
  (new_table, m1, kernel1) ←
      alloc_kernel_pages 0 minus_one size (bit_or page_present page_writable) m0 kernel
  let moved = free_virt_pages s.blocks_address m1 kernel1 >>= λ r. some (
    true,
    r.2,
    r.1,
    record s { blocks_address = new_table; block_table_size = u32 (size * 0x1000) / 12 },
  )
  if new_table == 0 then some (false, kernel1, m1, s) else moved

-- `alloc_virt_pages` of an address space other than the kernel's, which is the fifth argument.
unfoldable pub alloc_virt_pages :
    ℕ
    → ℕ
    → ℕ
    → ℕ
    → AddressSpace
    → Machine
    → AddressSpace
    → Option (ℕ × AddressSpace × Machine × AddressSpace)
unfolding alloc_virt_pages_by grow_other
alloc_virt_pages vaddr paddr count flags kernel m s =
    alloc_virt_pages_by grow_other vaddr paddr count flags kernel m s
