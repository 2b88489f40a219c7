-- ===== src/Tests/Free.antt =====
-- Pages that src/kernel/memory_manager.c frees, at concrete free lists and memory maps.
use c4os.Common.{◌∷◌, [], refl, arith, Ensures}
use c4os.Memory.Window.{Machine}
use c4os.Memory.Phys.{alloc_phys_pages, free_phys_pages}
use c4os.Memory.Phys.Blocks.{IsFreeList, first_fit}
use c4os.Memory.Phys.Freed.{free_phys_pages-IsFreeList}
use c4os.Memory.Phys.Joined.{free_phys_pages_joins}
use c4os.Memory.Phys.Restored.{free_phys_pages-alloc_phys_pages}
use c4os.Memory.Boot.{MemoryMapEntry, free_regions, is_available}
use c4os.Memory.Boot.Regions.{Found, free_regions-Found}
use c4os.Tests.Memory.{two_blocks, two_blocks-IsFreeList}

free_phys_pages-alloc_phys_pages_example :
    Ensures
      (λ found.
        Ensures
          (λ g. IsFreeList g ((0x3000, 4) ∷ (0x9000, 2) ∷ []))
          (free_phys_pages found.0 1 found.1))
      (alloc_phys_pages 1 two_blocks)
unfolding first_fit
free_phys_pages-alloc_phys_pages_example =
    free_phys_pages-alloc_phys_pages 1 two_blocks ((0x3000, 4) ∷ (0x9000, 2) ∷ []) 0x6000
      ((0x3000, 3) ∷ (0x9000, 2) ∷ []) two_blocks-IsFreeList (omega arith, (tt, tt))
      ((λ e. omega arith), ((λ e. omega arith), tt)) refl

-- Three pages behind the block at 0x9000 make it longer.
free_phys_pages-IsFreeList_example :
    Ensures
      (λ g. IsFreeList g ((0x3000, 4) ∷ (0x9000, 5) ∷ []))
      (free_phys_pages 0xb000 3 two_blocks)
free_phys_pages-IsFreeList_example =
    free_phys_pages-IsFreeList 3 0x9000 2 [] (omega arith) ((0x3000, 4) ∷ []) two_blocks
      two_blocks-IsFreeList (omega arith, tt) tt (omega arith)

-- Two pages fill the gap between the blocks.
free_phys_pages_joins_example :
    Ensures (λ g. IsFreeList g ((0x3000, 8) ∷ [])) (free_phys_pages 0x7000 2 two_blocks)
free_phys_pages_joins_example =
    free_phys_pages_joins 2 0x3000 4 0x9000 2 [] refl [] two_blocks two_blocks-IsFreeList tt
      (omega arith)

-- Nothing is free yet.
abbrev no_blocks : Machine
no_blocks = record two_blocks { free_page_count = 0; free_phys_memory_pointer = 0xffff_ffff }

no_blocks-IsFreeList : IsFreeList no_blocks []
no_blocks-IsFreeList = record {
  ring = record { links = refl; sizes = tt; blocks = tt; distinct = tt };
  counted = refl;
  bounded = omega arith;
  unlocked = refl;
}

-- The first 640 KB are in use, 15 MB from 1 MB on are available, and the map ends.
abbrev low_memory : MemoryMapEntry
low_memory = record { base = 0; length_ = 0xa_0000; type_ = 1 }

abbrev high_memory : MemoryMapEntry
high_memory = record { base = 0x10_0000; length_ = 0xf0_0000; type_ = 1 }

abbrev end_of_map : MemoryMapEntry
end_of_map = record { base = 0; length_ = 0; type_ = 0 }

free_regions-Found_example :
    Ensures
      (Found high_memory)
      (free_regions (low_memory ∷ high_memory ∷ end_of_map ∷ []) 0x10_0000 no_blocks)
unfolding is_available
free_regions-Found_example =
    free_regions-Found (low_memory ∷ []) [] [] high_memory end_of_map no_blocks
      (((λ e. omega arith), refl), tt) tt refl (omega arith) (refl, omega arith, omega arith)
      (omega arith) refl no_blocks-IsFreeList
