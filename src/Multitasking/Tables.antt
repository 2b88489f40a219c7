-- ===== src/Multitasking/Tables.antt =====
-- The page tables of a new process (`init_page_tables` of src/kernel/multitasking.c).
pub mod Entries
pub mod Mapped
pub mod Made
use c4os.Common.{ℕ, zero, suc, ◌+◌, ◌*◌, ◌/◌, Option, some, ◌>>=◌, add32, bit_or}
use c4os.Memory.Window.{
  Machine, page_present, page_writable, page_user, page_size, temp_map_page, page_word,
  set_page_word,
}
use c4os.Memory.Phys.{alloc_phys_pages}

abbrev pub kernel_pte_settings : ℕ
kernel_pte_settings = bit_or page_present page_writable

abbrev pub user_mode_pte_settings : ℕ
user_mode_pte_settings = bit_or (bit_or page_present page_writable) page_user

-- The entries of the kernel's page directory that a new process shares.
unfoldable pub get_kernel_page_table_addr : ℕ → Machine → ℕ × Machine
unfolding temp_map_page
get_kernel_page_table_addr kernel_page_dir m0 =
    let m = temp_map_page kernel_page_dir m0 in (page_word 1022 m, m)

unfoldable pub get_last_page_table_addr : ℕ → Machine → ℕ × Machine
unfolding temp_map_page
get_last_page_table_addr kernel_page_dir m0 =
    let m = temp_map_page kernel_page_dir m0 in (page_word 1023 m, m)

-- The four entries of the new directory; the others keep what the page held.
unfoldable pub fill_directory : ℕ → ℕ → ℕ → ℕ → ℕ → Machine → Machine
unfolding temp_map_page
fill_directory page_dir first_table tss_table kernel_table last_table m0 =
    let m1 = temp_map_page page_dir m0 in
    let m2 = set_page_word 0 (bit_or first_table user_mode_pte_settings) m1 in
    let m3 = set_page_word 511 (bit_or tss_table kernel_pte_settings) m2 in
    set_page_word 1023 last_table (set_page_word 1022 kernel_table m3)

-- A loop over the entries of the table in the window: `n` of them from `i` on, the values going up
-- by a page.
unfoldable pub fill_entries : ℕ → ℕ → ℕ → Machine → Machine
fill_entries zero i entry_value m = m
fill_entries (suc n) i entry_value m =
    fill_entries n (i + 1) (add32 entry_value page_size) (set_page_word i entry_value m)

-- The first megabyte is mapped to itself, the three behind it to the memory of the process.
unfoldable pub fill_first_table : ℕ → ℕ → Machine → Machine
unfolding temp_map_page
fill_first_table first_table memory_location_start m0 =
    let m1 = fill_entries 256 0 user_mode_pte_settings (temp_map_page first_table m0) in
    fill_entries 768 256 (bit_or memory_location_start user_mode_pte_settings) m1

-- None of the allocations is tested for -1.
unfoldable pub init_page_tables : ℕ → ℕ → Machine → Option (ℕ × Machine)
unfolding alloc_phys_pages get_kernel_page_table_addr get_last_page_table_addr fill_directory
    fill_first_table temp_map_page
init_page_tables kernel_page_dir memory_location_start m0 = do
  (first_table, m1) ← alloc_phys_pages 1 m0
  (tss_table, m2) ← alloc_phys_pages 1 m1
  let (kernel_table, m3) = get_kernel_page_table_addr kernel_page_dir m2
  let (last_table, m4) = get_last_page_table_addr kernel_page_dir m3
  (page_dir, m5) ← alloc_phys_pages 1 m4
  let m6 = fill_directory page_dir first_table tss_table kernel_table last_table m5
  (page_for_tss, m7) ← alloc_phys_pages 1 (fill_first_table first_table memory_location_start m6)
  some (
    page_dir,
    set_page_word 1021 (bit_or page_for_tss kernel_pte_settings) (temp_map_page tss_table m7),
  )
