-- ===== src/Tests/Memory.antt =====
-- The memory manager of src/kernel/memory_manager.c at a concrete free list and page table.
use c4os.Common.{◌∷◌, [], ◌==◌, if◌then◌else◌, ◌≡◌, refl, arith, false, true, Ensures, ◌/◌, ◌%◌}
use c4os.Memory.Window.{Machine}
use c4os.Memory.Phys.{alloc_phys_pages}
use c4os.Memory.Phys.Blocks.{IsFreeList, IsBlockRing, first_fit}
use c4os.Memory.Phys.Refine.{AllocatesAs, alloc_phys_pages-AllocatesAs}
use c4os.Memory.Paging.{map_pages, get_page_info, get_page_directory_index}
use c4os.Memory.Paging.Lookup.{HasTable, map_pages_keeps_writable}

-- Free blocks of 4 pages at 0x3000 and of 2 pages at 0x9000; in the words 1022 and 1023 of the
-- frame 0x1000, page tables.
abbrev pub two_blocks : Machine
two_blocks = record {
  word = λ i f.
      if i == 2
      then (if f == 0x3000 then 4 else 2)
      else (if i == 1022 then 0x2003 else (if f == 0x3000 then 0x9000 else 0x3000));
  temp_page_info = 0;
  free_page_count = 6;
  free_phys_memory_pointer = 0x3000;
  phys_memory_mutex = false;
}

two_blocks-IsBlockRing : IsBlockRing two_blocks ((0x3000, 4) ∷ (0x9000, 2) ∷ [])
two_blocks-IsBlockRing = record {
  links = (refl, (refl, refl, (refl, refl)));
  sizes = (refl, (refl, tt));
  blocks = ((refl, omega arith, omega arith), ((refl, omega arith, omega arith), tt));
  distinct = ((λ e. omega arith, tt), (tt, tt));
}

pub two_blocks-IsFreeList : IsFreeList two_blocks ((0x3000, 4) ∷ (0x9000, 2) ∷ [])
two_blocks-IsFreeList = record {
  ring = two_blocks-IsBlockRing;
  counted = refl;
  bounded = omega arith;
  unlocked = refl;
}

alloc_phys_pages-AllocatesAs_example :
    Ensures
      (AllocatesAs ((0x3000, 4) ∷ (0x9000, 2) ∷ []) (first_fit 2 ((0x3000, 4) ∷ (0x9000, 2) ∷ [])))
      (alloc_phys_pages 2 two_blocks)
alloc_phys_pages-AllocatesAs_example =
    alloc_phys_pages-AllocatesAs 2 two_blocks ((0x3000, 4) ∷ (0x9000, 2) ∷ []) two_blocks-IsFreeList

two_blocks-HasTable : HasTable 0x1000 0xff80_3000 two_blocks
unfolding get_page_directory_index
two_blocks-HasTable = record { present = refl; apart = λ e. omega arith }

map_pages_keeps_writable_example :
    Ensures
      (λ (ok, g). (ok ≡ true) × ((get_page_info 0x1000 0xff80_3000 g).0 / 2 % 2 ≡ 1))
      (map_pages 0x1000 0xff80_3000 0x5003 1 1 two_blocks)
map_pages_keeps_writable_example =
    map_pages_keeps_writable 0x1000 0xff80_3000 0x5003 1 two_blocks two_blocks-HasTable refl
