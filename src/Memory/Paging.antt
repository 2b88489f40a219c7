-- ===== src/Memory/Paging.antt =====
-- The page tables of src/kernel/memory_manager.c (`map_pages`, `get_page_info`). A page directory
-- and a page table are page frames of 1024 entries.
pub mod Lookup
pub mod Runs
use c4os.Common.{
  ℕ, zero, suc, ◌+◌, ◌*◌, ◌/◌, ◌%◌, Bool, true, false, ◌&&◌, Option, none, some, ◌==◌, ltb,
  if◌then◌else◌, ◌>>=◌, add32, shr, bit_or, minus_one,
}
use c4os.Memory.Window.{
  Machine, page_size, page_base, page_present, page_writable, page_user, temp_map_page, page_word,
  set_page_word,
}
use c4os.Memory.Phys.{alloc_phys_pages}

-- `(size_t)vaddr >> 22 & PAGE_TABLE_INDEX_MASK`
unfoldable pub get_page_directory_index : ℕ → ℕ
get_page_directory_index vaddr = shr vaddr 22 % 0x400

-- `(size_t)vaddr >> 12 & PAGE_TABLE_INDEX_MASK`
unfoldable pub get_page_table_index : ℕ → ℕ
get_page_table_index vaddr = shr vaddr 12 % 0x400

-- `paddr & ~PAGE_OFFSET_BITS`. The constant is 12, so the bits 2 and 3 are cleared and no others.
unfoldable pub clear_offset_bits : ℕ → ℕ
clear_offset_bits paddr = paddr / 16 * 16 + paddr % 4

-- `memset((void*)TEMP_PAGE, 0, PAGE_SIZE)`
unfoldable pub zero_page : Machine → Machine
zero_page m =
    let frame = page_base m.temp_page_info in
    record m { word = λ i f. if ltb i 0x400 && f == frame then 0 else m.word i f }

-- A new page table for the entry `index` of the directory, or no table if there is no memory.
unfoldable pub add_page_table : ℕ → ℕ → Machine → Option (Option ℕ × Machine)
unfolding temp_map_page zero_page
add_page_table page_dir index m0 = do
  (addr, m1) ← alloc_phys_pages 1 m0
  if addr == minus_one
      then some (none, m1)
      else (let m2 = zero_page (temp_map_page addr m1) in
          let m3 = temp_map_page page_dir m2 in
          let flags = bit_or (bit_or page_present page_writable) page_user in
          some (some addr, set_page_word index (bit_or addr flags) m3))

-- The page table that the directory names for the address, made if there is none. Bit 0 of an
-- entry is `PAGE_PRESENT`.
unfoldable pub find_page_table : ℕ → ℕ → Machine → Option (Option ℕ × Machine)
unfolding temp_map_page add_page_table
find_page_table page_dir vaddr m0 =
    let index = get_page_directory_index vaddr in
    let m = temp_map_page page_dir m0 in
    let page_table = page_word index m in
    if page_table % 2 == 0 then add_page_table page_dir index m else some (some page_table, m)

-- The entry of the page table is written.
unfoldable pub set_entry : ℕ → ℕ → ℕ → ℕ → Machine → Machine
unfolding temp_map_page clear_offset_bits
set_entry page_table vaddr paddr flags m =
    set_page_word (get_page_table_index vaddr) (bit_or (clear_offset_bits paddr) flags)
      (temp_map_page page_table m)

-- The loop of `map_pages`; the flag is its result.
unfoldable pub map_pages : ℕ → ℕ → ℕ → ℕ → ℕ → Machine → Option (Bool × Machine)
unfolding find_page_table set_entry
map_pages page_dir vaddr paddr zero flags m0 = some (true, m0)
map_pages page_dir vaddr paddr (suc count) flags m0 = do
  (found, m1) ← find_page_table page_dir vaddr m0
  elim found [
    | none ↦ some (false, m1)
    | some page_table ↦
        map_pages page_dir (add32 vaddr page_size) (add32 paddr page_size) count flags
          (set_entry page_table vaddr paddr flags m1)
  ]

unfoldable pub get_page_info : ℕ → ℕ → Machine → ℕ × Machine
unfolding temp_map_page get_page_directory_index get_page_table_index
get_page_info page_dir vaddr m0 =
    let m1 = temp_map_page page_dir m0 in
    let pde = page_word (get_page_directory_index vaddr) m1 in
    if pde % 2 == 0
    then (0, m1)
    else (let m2 = temp_map_page (page_base pde) m1 in
        (page_word (get_page_table_index vaddr) m2, m2))
