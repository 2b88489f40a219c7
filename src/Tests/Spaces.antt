-- ===== src/Tests/Spaces.antt =====
-- Runs of pages in a page directory of one table, and the first block of an address space
-- (src/kernel/memory_manager.c).
use c4os.Common.{
  ℕ, ◌+◌, ◌*◌, ◌%◌, ◌<◌, ◌≡◌, refl, arith, false, Bool, Bool-cases, inl, inr, Option, none, [], ◌∷◌,
  ◌==◌, ◌&&◌, ==→eq, if◌then◌else◌, Ensures, ◌∙◌, sym, ◌≢◌, minus_one,
}
use c4os.Memory.Window.{Machine, memory, page_base}
use c4os.Memory.Paging.{map_pages, get_page_directory_index}
use c4os.Memory.Paging.Lookup.{directory_entry, HasTable}
use c4os.Memory.Paging.Runs.{OwnTables, Mapped, map_pages-Mapped}
use c4os.Memory.Virtual.{AddressSpace, vmb_memory}
use c4os.Memory.Virtual.Alloc.{alloc_virt_pages_by}
use c4os.Memory.Virtual.Allocated.{AreApart, alloc_virt_pages_by-Allocated}
use c4os.Memory.Phys.{alloc_phys_pages, free_phys_pages}
use c4os.Memory.Phys.Overlaps.{free_phys_pages_overlaps}
use c4os.Multitasking.Tables.{init_page_tables}
use c4os.Multitasking.Tables.Made.{IsMade, init_page_tables-IsMade}
use c4os.Memory.Phys.Kept.{alloc_phys_pages-memory}
use c4os.Memory.Phys.Blocks.{IsBlockRing, IsFreeList, first_fit}
use c4os.Memory.Virtual.Entered.{Entered, HasPlace}

-- The directory at 0x1000 names one page table, at 0x2000; eight pages are free at 0x3000.
abbrev one_table : Machine
one_table = record {
  word = λ i f.
      if f == 0x3000
      then (if i == 2 then 8 else 0x3000)
      else (if i == 0 && f == 0x1000 then 0x2003 else 0);
  temp_page_info = 0;
  free_page_count = 8;
  free_phys_memory_pointer = 0x3000;
  phys_memory_mutex = false;
}

in_table : (i : ℕ) → i < 2 → HasTable 0x1000 (0x10_0000 + i * 0x1000) one_table
in_table i k =
    let first_entry : get_page_directory_index (0x10_0000 + i * 0x1000) ≡ 0 =
      unfold get_page_directory_index in omega arith in
    record { present = rw first_entry refl; apart = rw first_entry (λ e. omega (arith, e)) }

only_entry : (i : ℕ) → one_table.word i 0x1000 % 2 ≡ 1 → i ≡ 0
only_entry i h = elim (Bool-cases (i == 0)) [
  | inl e ↦ ==→eq i 0 e
  | inr e ↦ absurd (omega (arith, rw e at h))
]

one_table-OwnTables : OwnTables 0x1000 one_table
one_table-OwnTables v w hv hw e =
    only_entry (get_page_directory_index v) hv.present
    ∙ sym (only_entry (get_page_directory_index w) hw.present)

map_pages-Mapped_example :
    Ensures
      (Mapped 0x1000 0x10_0000 0x9000 2 7 one_table)
      (map_pages 0x1000 0x10_0000 0x9000 2 7 one_table)
map_pages-Mapped_example =
    map_pages-Mapped 2 0x1000 0x10_0000 0x9000 7 one_table in_table one_table-OwnTables
      (omega arith) (omega arith)

-- The address space of a new process.
abbrev empty_space : AddressSpace
empty_space = record {
  page_dir = 0x1000;
  start = 0;
  end_ = 0x7fff_ffff;
  block_table_size = 341;
  block_count = 0;
  blocks_address = 0x8000_1000;
  block = λ i. record { type_ = vmb_memory; base = 0; length_ = 0 };
  mutex = false;
}

empty_space-HasPlace : HasPlace 0x10_0000 2 empty_space []
empty_space-HasPlace = record {
  table = record { entries = tt; counted = refl };
  few = omega arith;
  room = λ e. omega arith;
  free = refl;
  not_null = λ e. omega arith;
  some_pages = omega arith;
  from = omega arith;
  until = omega arith;
  end_ = omega arith;
  below = tt;
  bases = tt;
}

abbrev no_growth : ℕ → Machine → AddressSpace → Option (Bool × ℕ × Machine × AddressSpace)
no_growth k m s = none

one_table-IsFreeList : IsFreeList one_table ((0x3000, 8) ∷ [])
one_table-IsFreeList = record {
  ring = record {
    links = (refl, (refl, refl));
    sizes = (refl, tt);
    blocks = ((refl, omega arith, omega arith), tt);
    distinct = (tt, tt);
  };
  counted = refl;
  bounded = omega arith;
  unlocked = refl;
}

table_at :
    (v : ℕ) → HasTable 0x1000 v one_table → 0x3000 ≢ page_base (directory_entry 0x1000 v one_table)
table_at v h e =
    let i : get_page_directory_index v ≡ 0 = only_entry (get_page_directory_index v) h.present in
    omega (arith, rw i at e)

one_table-AreApart : AreApart 0x1000 one_table ((0x3000, 8) ∷ [])
one_table-AreApart = record {
  directory = (λ e. omega arith, tt);
  tables = λ v h. (table_at v h, tt);
}

alloc_virt_pages_by-Allocated_example :
    Ensures
      (Entered vmb_memory 0x10_0000 0x9000 2 7 5 one_table empty_space [])
      (alloc_virt_pages_by no_growth 0x10_0000 minus_one 2 7 5 one_table empty_space)
unfolding first_fit
alloc_virt_pages_by-Allocated_example =
    alloc_virt_pages_by-Allocated no_growth 0x10_0000 2 7 5 one_table [] empty_space
      ((0x3000, 8) ∷ []) 0x9000 ((0x3000, 6) ∷ []) empty_space-HasPlace one_table-IsFreeList refl
      one_table-AreApart in_table one_table-OwnTables

-- The entry of the window is in the frame of the last page table, at 0x2000.
alloc_phys_pages-memory_example :
    Ensures
      (λ r. memory 0x2000 r.1 5 0x2000 ≡ memory 0x2000 one_table 5 0x2000)
      (alloc_phys_pages 2 one_table)
alloc_phys_pages-memory_example =
    alloc_phys_pages-memory 0x2000 5 0x2000 2 one_table ((0x3000, 8) ∷ []) one_table-IsFreeList
      (λ e. omega arith, tt) refl

-- The memory of the process is at 0x200000; the kernel's directory is at 0x1000.
init_page_tables-IsMade_example :
    Ensures (IsMade 0x8000 0x7000 0x20_0000 0x10_0000) (init_page_tables 0x1000 0x20_0000 one_table)
init_page_tables-IsMade_example =
    init_page_tables-IsMade 0x1000 0x20_0000 0x10_0000 0x3000 3 [] one_table one_table-IsFreeList tt
      tt (omega arith) (omega arith)

-- A page in front of the eight.
free_phys_pages_overlaps_example :
    Ensures
      (λ g. IsBlockRing g ((0x2000, 9) ∷ (0x3000, 8) ∷ []) × (g.free_page_count ≡ 9))
      (free_phys_pages 0x2000 1 one_table)
free_phys_pages_overlaps_example =
    free_phys_pages_overlaps 0x2000 1 0x3000 8 one_table one_table-IsFreeList (omega arith) refl
