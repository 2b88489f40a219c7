-- ===== src/Tests/Virtual.antt =====
-- Virtual memory and page tables of src/kernel at concrete tables.
use c4os.Common.{ℕ, ◌+◌, ◌≡◌, ◌≤◌, ◌<◌, refl, arith, false, [], ◌∷◌, ◌==◌, if◌then◌else◌, All}
use c4os.Memory.Phys.{bytes_of}
use c4os.Memory.Virtual.{
  VirtMemoryBlock, vmb_memory, AddressSpace, choose_vaddr, add_block, remove_block, given_search,
  is_blocks_overlapped,
}
use c4os.Memory.Virtual.Tables.{IsTable, remove_block-IsTable, add_block_smears}
use c4os.Memory.Virtual.Given.{Disjoint, choose_vaddr-Disjoint}

abbrev block_at : ℕ → VirtMemoryBlock
block_at a = record { type_ = vmb_memory; base = a; length_ = 0x1000 }

-- Blocks of one page at 0x5000 and 0x2000.
abbrev two_pages : AddressSpace
two_pages = record {
  page_dir = 0x1000;
  start = 0x1000;
  end_ = 0x9000;
  block_table_size = 341;
  block_count = 2;
  blocks_address = 0x10000;
  block = λ i. if i == 0 then block_at 0x5000 else block_at 0x2000;
  mutex = false;
}

two_pages-IsTable : IsTable two_pages (block_at 0x5000 ∷ block_at 0x2000 ∷ [])
two_pages-IsTable = record { entries = (refl, (refl, tt)); counted = refl }

choose_vaddr-Disjoint_example :
    ((choose_vaddr 0x3000 2 two_pages).0 ≡ 0x3000)
    × (0x1000 ≤ 0x3000)
    × (0x3000 + bytes_of 2 < 0x9000)
    × All
        (λ b. Disjoint b.base b.length_ 0x3000 (bytes_of 2))
        (block_at 0x5000 ∷ block_at 0x2000 ∷ [])
unfolding choose_vaddr given_search is_blocks_overlapped
choose_vaddr-Disjoint_example =
    choose_vaddr-Disjoint 0x3000 2 two_pages (block_at 0x5000 ∷ block_at 0x2000 ∷ [])
      two_pages-IsTable (omega arith, (omega arith, tt)) (omega arith) (λ e. omega arith)
      (omega arith) (λ e. omega arith)

remove_block-IsTable_example : IsTable (remove_block 0 two_pages) (block_at 0x2000 ∷ [])
remove_block-IsTable_example =
    remove_block-IsTable two_pages [] (block_at 0x5000) (block_at 0x2000 ∷ []) two_pages-IsTable

add_block_smears_example :
    ((add_block 0 (block_at 0x7000) two_pages).block 0 ≡ block_at 0x7000)
    × ((add_block 0 (block_at 0x7000) two_pages).block 2 ≡ block_at 0x5000)
add_block_smears_example =
    add_block_smears two_pages 0 (block_at 0x7000) 2 (omega arith) (omega arith)
