-- ===== src/Kernel/Console.antt =====
-- What the console of src/kernel/kernel.c shows: files, processes, ticks and the memory map.
pub mod Listing
pub mod Processes
pub mod Commands
use c4os.Common.{
  ℕ, zero, suc, ◌+◌, ◌-◌, ◌/◌, ◌%◌, Bool, List, [], ◌∷◌, ◌++◌, Option, none, some, ◌==◌, ltb, leb,
  if◌then◌else◌, ◌>>=◌, u32, get_or, get_elem?,
}
use c4os.Stdlib.Lists.{Heap}
use c4os.Tty.{Tty}
use c4os.Tty.Format.{codes, printf}
use c4os.Devices.Timer.{Timer, get_tick_count}
use c4os.Kernel.Files.{FileHeader, indicator}

-- What the sectors of the disk hold, once they are read, and whether a read gives the address of the
-- buffer or 0.
pub record Disk : Type 0 where
  pub readable : ℕ → Bool
  pub header_at : ℕ → FileHeader
  -- the 64-bit numbers, the bytes and the 32-bit words of a sector
  pub word_at : ℕ → ℕ → ℕ
  pub byte_at : ℕ → ℕ → ℕ
  pub buffer_word : ℕ → ℕ → ℕ

-- A `printf` whose arguments are numbers, and one whose argument is a text.
abbrev pub print : List ℕ → List ℕ → Tty → Option Tty
print fmt args t = printf (λ a. []) fmt args t

abbrev pub print_text : List ℕ → List ℕ → Tty → Option Tty
print_text fmt text t = printf (λ a. text) fmt (0 ∷ []) t

abbrev pub line : List ℕ → List ℕ
line s = s ++ 10 ∷ []

-- `CHECK_BIT(var, 1)`: the bit of value 2
unfoldable pub check_bit_1 : ℕ → Bool
check_bit_1 var = var / 2 % 2 == 1

unfoldable pub show_type : FileHeader → Tty → Option Tty
unfolding check_bit_1
show_type file_header t =
    if check_bit_1 file_header.flags
    then print (codes " type: directory") [] t
    else print (line (codes " type: file")) [] t

unfoldable pub show_parent : FileHeader → Tty → Option Tty
show_parent file_header t =
    if file_header.parent == indicator
    then print (line (codes " directory: root")) [] t
    else print (line (codes " directory: not root")) [] t

unfoldable pub show_size : FileHeader → Tty → Option Tty
show_size file_header t = print (line (codes " size: %d bytes")) (u32 file_header.size ∷ []) t

-- The lines about one file.
unfoldable pub show_file : FileHeader → Tty → Option Tty
unfolding show_type show_parent show_size
show_file file_header t = print_text (line (codes "name: %s")) file_header.name t >>= λ t1.
    show_type file_header t1 >>= λ t2. show_parent file_header t2 >>= λ t3. show_size file_header t3

-- The recursion goes on for as long as the files do: the fuel is their number.
unfoldable pub show_files : Disk → ℕ → ℕ → Tty → Option Tty
unfolding show_file
show_files disk zero file_sector_number t = none
show_files disk (suc fuel) file_sector_number t =
    let file_header = disk.header_at file_sector_number in
    let rest = λ (u : Tty). show_files disk fuel (u32 file_header.next) u in
    let shown = show_file file_header t >>= λ u.
    (if file_header.next == indicator then some u else (print (10 ∷ []) [] u >>= rest)) in
    if disk.readable file_sector_number then shown else some t

-- `for (i = 0; i < process_list.count; i++)`
unfoldable pub process_loop : (ℕ → List ℕ) → (ℕ → ℕ) → ℕ → ℕ → Tty → Option Tty
process_loop process_name next zero process_item t = some t
process_loop process_name next (suc n) process_item t = do
  u ← print_text (line (codes "  process - %s")) (process_name process_item) t
  process_loop process_name next n (next process_item) u

unfoldable pub show_process_list : (ℕ → List ℕ) → ℕ → Heap → Tty → Option Tty
unfolding process_loop
show_process_list process_name process_list items t =
    process_loop process_name items.next (items.count process_list) (items.first process_list) t

unfoldable pub cmd_get_ticks : Timer → Tty → Option Tty
unfolding get_tick_count
cmd_get_ticks timer t = print (10 ∷ line (codes "ticks: %d")) (get_tick_count timer ∷ []) t

-- `struct memory_map_entry`
pub record MemoryMapEntry : Type 0 where
  pub base : ℕ
  pub length_ : ℕ
  pub type_ : ℕ

abbrev pub memory_types : List (List ℕ)
memory_types =
    codes "Available" ∷ codes "Reserved" ∷ codes "ACPI Reclaim" ∷ codes "ACPI NVS Memory" ∷ []

unfoldable pub is_last_memory_map_entry : MemoryMapEntry → Bool
is_last_memory_map_entry entry = entry.length_ == 0

-- A type beyond the table, and a map without a last entry, are faults.
unfoldable pub region_loop : ℕ → List MemoryMapEntry → Tty → Option Tty
unfolding is_last_memory_map_entry
region_loop region_number [] t = none
region_loop region_number (entry ∷ map_) t =
    let shown = get_elem? memory_types (entry.type_ - 1) >>= λ name.
    printf (λ a. name) (line (codes "region %d: start - %u; length (bytes) - %u; type - %d (%s)"))
      (region_number ∷ u32 entry.base ∷ u32 entry.length_ ∷ entry.type_ ∷ 0 ∷ []) t
    >>= region_loop (region_number + 1) map_ in
    if is_last_memory_map_entry entry then some t else (if entry.type_ == 0 then none else shown)

unfoldable pub display_memory_map : List MemoryMapEntry → Tty → Option Tty
unfolding region_loop
display_memory_map memory_map t = region_loop 1 memory_map t >>= print (10 ∷ []) []
