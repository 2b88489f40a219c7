-- ===== src/Memory/Boot.antt =====
-- The set-up of the memory (`init_memory_manager` of src/kernel/memory_manager.c).
pub mod Regions
use c4os.Common.{
  ℕ, zero, suc, ◌+◌, ◌-◌, ◌/◌, Bool, ◌&&◌, List, [], ◌∷◌, Option, none, some, ◌==◌, leb,
  if◌then◌else◌, ◌>>=◌, u32, add32, sub32, shr, bit_or,
}
use c4os.Memory.Window.{Machine, page_present, page_writable, page_global}
use c4os.Memory.Phys.{alloc_phys_pages, free_phys_pages}
use c4os.Memory.Paging.{map_pages, get_page_info}
use c4os.Memory.Virtual.{vmb_reserved, AddressSpace}

-- `MemoryMapEntry`: an area of the memory map that the boot loader leaves.
pub record MemoryMapEntry : Type 0 where
  pub base : ℕ
  pub length_ : ℕ
  pub type_ : ℕ

unfoldable pub is_available : MemoryMapEntry → Bool
is_available entry = entry.type_ == 1 && leb 0x10_0000 entry.base

-- The loop over the map, up to an entry of type 0: the size of the memory, and the machine. A map
-- without such an entry is a fault.
unfoldable pub free_regions : List MemoryMapEntry → ℕ → Machine → Option (ℕ × Machine)
free_regions [] memory_size m = none
free_regions (entry ∷ map_) memory_size m =
    let freed =
      free_phys_pages (u32 entry.base) (u32 (shr entry.length_ 12)) m
      >>= free_regions map_ (u32 (memory_size + entry.length_)) in
    let skipped = free_regions map_ memory_size m in
    if entry.type_ == 0
    then some (memory_size, m)
    else (if is_available entry then freed else skipped)

abbrev pub kernel_memory_start : ℕ
kernel_memory_start = 0x8000_0000

abbrev pub kernel_page_table : ℕ
kernel_page_table = 0xffff_e000

-- The pages from `vaddr` on are mapped again to where the boot loader has put them.
unfoldable pub remap : ℕ → ℕ → ℕ → ℕ → Machine → Option Machine
unfolding get_page_info map_pages
remap kernel_page_dir vaddr count flags m =
    let info = get_page_info kernel_page_dir vaddr m in
    map_pages kernel_page_dir vaddr info.0 count flags info.1 >>= λ r. some r.1

-- The kernel's address space, with the page of its table as the first block.
unfoldable pub first_space : ℕ → ℕ → AddressSpace → AddressSpace
first_space kernel_page_dir kernel_base s = record s {
  page_dir = kernel_page_dir;
  start = kernel_memory_start;
  end_ = kernel_base - 1;
  block_table_size = 0x1000 / 12;
  blocks_address = kernel_memory_start;
  block_count = 1;
  block = λ i.
      if i == 0
      then (record { type_ = vmb_reserved; base = kernel_memory_start; length_ = 0x1000 })
      else s.block i;
}

-- `code`, `data_`, `end_` and `kernel_base` are the addresses of the linker. The result is the size
-- of the memory, with the machine and the kernel's address space.
unfoldable pub init_memory_manager :
    ℕ
    → ℕ
    → ℕ
    → ℕ
    → ℕ
    → List MemoryMapEntry
    → Machine
    → AddressSpace
    → Option (ℕ × Machine × AddressSpace)
unfolding free_regions remap alloc_phys_pages map_pages first_space
init_memory_manager kernel_page_dir code data_ end_ kernel_base memory_map m0 s =
    free_regions memory_map 0x10_0000 m0 >>= λ r.
    remap kernel_page_dir code (shr (sub32 data_ code) 12) (bit_or page_present page_global) r.1
    >>= λ m2.
        remap kernel_page_dir data_ (shr (sub32 end_ data_) 12)
          (bit_or (bit_or page_present page_writable) page_global) m2
        >>= λ m3.
            remap kernel_page_dir kernel_page_table 1
              (bit_or (bit_or page_present page_writable) page_global) m3
            >>= λ m4. alloc_phys_pages 1 m4 >>= λ p.
                map_pages kernel_page_dir kernel_memory_start p.0 1
                  (bit_or page_present page_writable) p.1
                >>= λ q. some (r.0, q.1, first_space kernel_page_dir kernel_base s)
