-- ===== src/Memory/Window.antt =====
-- Physical memory and the one page through which src/kernel/memory_manager.c reaches it
-- (`TEMP_PAGE`, `temp_map_page`), with the constants of src/include/memory_manager.h.
use c4os.Common.{
  ℕ, ◌*◌, ◌/◌, ◌%◌, ◌≡◌, Bool, arith, if◌then◌else◌, ◌==◌, ◌&&◌, update, bit_or, bit_or_disjoint,
}

abbrev pub page_size : ℕ
page_size = 0x1000

abbrev pub page_present : ℕ
page_present = 1

abbrev pub page_writable : ℕ
page_writable = 2

abbrev pub page_user : ℕ
page_user = 4

abbrev pub page_global : ℕ
page_global = 256

-- `addr & ~PAGE_OFFSET_MASK`: the low twelve bits cleared
abbrev pub page_base : ℕ → ℕ
page_base addr = addr / 0x1000 * 0x1000

-- The state of the physical allocator beside the memory itself. `word i f` is the 32-bit word
-- number `i` of the page frame at `f`; `temp_page_info` is the page table entry of `TEMP_PAGE`, kept
-- beside the other words: `memory` below puts it in its place.
pub record Machine : Type 0 where
  pub word : ℕ → ℕ → ℕ
  pub temp_page_info : ℕ
  pub free_page_count : ℕ
  pub free_phys_memory_pointer : ℕ
  pub phys_memory_mutex : Bool

-- `(addr & ~PAGE_OFFSET_MASK) | PAGE_PRESENT | PAGE_WRITABLE`, the two flags joined first
unfoldable pub temp_entry : ℕ → ℕ
temp_entry addr = bit_or (page_base addr) (bit_or page_present page_writable)

-- The flush of the TLB entry has no effect in the model: an access reads the entry itself.
unfoldable pub temp_map_page : ℕ → Machine → Machine
temp_map_page addr m = record m { temp_page_info = temp_entry addr }

-- The memory as it is: `TEMP_PAGE_INFO` is the last entry, number 1023, of the kernel's page table
-- that `KERNEL_PAGE_TABLE` shows, whose frame is `table`.
unfoldable pub memory : ℕ → Machine → ℕ → ℕ → ℕ
memory table m i f = if i == 1023 && f == table then m.temp_page_info else m.word i f

-- `((phyaddr*)TEMP_PAGE)[i]`
abbrev pub page_word : ℕ → Machine → ℕ
page_word i m = m.word i (page_base m.temp_page_info)

abbrev pub set_page_word : ℕ → ℕ → Machine → Machine
set_page_word i v m = record m {
  word = update m.word i (update (m.word i) (page_base m.temp_page_info) v);
}

-- The window shows the frame that holds the address.
pub page_base-temp_entry : (a : ℕ) → page_base (temp_entry a) ≡ page_base a
unfolding temp_entry
page_base-temp_entry a = omega (arith, bit_or_disjoint 12 (a / 0x1000) 3 (omega arith))

-- At an aligned address the frame is the address.
pub window_at : (a : ℕ) → a % 0x1000 ≡ 0 → page_base (temp_entry a) ≡ a
window_at a h = omega (arith, page_base-temp_entry a)
