-- ===== src/Memory/Phys.antt =====
-- The physical page allocator of src/kernel/memory_manager.c (`alloc_phys_pages`,
-- `free_phys_pages`). The first three words of a free block's first page are its
-- `PhysMemoryBlock`: `next`, `prev` and `size` (in pages).
pub mod Blocks
pub mod Alloc
pub mod Refine
pub mod Free
pub mod Freed
pub mod Restored
pub mod Kept
pub mod Same
pub mod Joined
pub mod Overlaps
use c4os.Common.{
  ℕ, zero, suc, true, ◌||◌, Option, none, some, ◌==◌, ltb, if◌then◌else◌, ◌>>=◌, add32, sub32, u32,
  shl, minus_one,
}
use c4os.Stdlib.Mutex.{mutex_get, mutex_release}
use c4os.Memory.Window.{Machine, temp_map_page, page_word, set_page_word}

-- `count << PAGE_OFFSET_BITS`
abbrev pub bytes_of : ℕ → ℕ
bytes_of count = u32 (shl count 12)

-- No block is smaller than a page, so a list of free blocks below 4 GB has at most this many.
abbrev pub max_blocks : ℕ
max_blocks = 0x10_0001

abbrev pub set_pointer : ℕ → Machine → Machine
set_pointer a m = record m { free_phys_memory_pointer = a }

unfoldable pub lock : Machine → Option Machine
unfolding mutex_get
lock m = do (_, x) ← mutex_get m.phys_memory_mutex true; some (record m { phys_memory_mutex = x })

unfoldable pub release : Machine → Machine
unfolding mutex_release
release m = record m { phys_memory_mutex = mutex_release m.phys_memory_mutex }

-- The block in the window, of exactly the size asked for, is unlinked.
unfoldable pub take_block : ℕ → Machine → Machine
unfolding temp_map_page
take_block cur_block m0 =
    let next = page_word 0 m0 in
    let prev = page_word 1 m0 in
    let m1 = set_page_word 1 prev (temp_map_page next m0) in
    let m2 = set_page_word 0 next (temp_map_page prev m1) in
    if cur_block == m2.free_phys_memory_pointer
    then (let m3 = set_pointer next m2 in
        if cur_block == m3.free_phys_memory_pointer then set_pointer minus_one m3 else m3)
    else m2

-- The last pages of the block in the window are cut off.
unfoldable pub cut_block : ℕ → ℕ → Machine → ℕ × Machine
cut_block count cur_block m0 =
    let m = set_page_word 2 (sub32 (page_word 2 m0) count) m0 in
    (add32 cur_block (bytes_of (page_word 2 m)), m)

-- The search of `alloc_phys_pages`, from the block `cur_block` on.
unfoldable pub alloc_scan : ℕ → ℕ → ℕ → Machine → Option (ℕ × Machine)
unfolding temp_map_page
alloc_scan zero count cur_block m0 = none
alloc_scan (suc fuel) count cur_block m0 =
    let m = temp_map_page cur_block m0 in
    let next = page_word 0 m in
    let rest = alloc_scan fuel count next m in
    if page_word 2 m == count
    then some (cur_block, take_block cur_block m)
    else (if ltb count (page_word 2 m)
        then some (cut_block count cur_block m)
        else (if next == m.free_phys_memory_pointer then some (minus_one, m) else rest))

-- `if (result != -1) free_page_count -= count;` and the release of the mutex
unfoldable pub alloc_finish : ℕ → ℕ × Machine → ℕ × Machine
unfolding release
alloc_finish count (result, m) =
    if result == minus_one
    then (result, release m)
    else (result, release (record m { free_page_count = sub32 m.free_page_count count }))

unfoldable pub alloc_phys_pages : ℕ → Machine → Option (ℕ × Machine)
unfolding lock
alloc_phys_pages count m0 = if ltb m0.free_page_count count then some (minus_one, m0) else (do
  m ← lock m0
  found ←
      (if m.free_phys_memory_pointer == minus_one
        then some (minus_one, m)
        else alloc_scan max_blocks count m.free_phys_memory_pointer m)
  some (alloc_finish count found))

-- The block in the window ends where the freed pages begin: it grows, and takes in the block
-- behind if that one begins where they end.
unfoldable pub extend_block : ℕ → ℕ → ℕ → Machine → Machine
unfolding temp_map_page
extend_block base count cur_block m0 =
    let m1 = set_page_word 2 (add32 (page_word 2 m0) count) m0 in
    if page_word 0 m1 == add32 base (bytes_of count)
    then (let next1 = page_word 0 m1 in
        let m2 = temp_map_page next1 m1 in
        let next2 = page_word 0 m2 in
        let new_count = page_word 2 m2 in
        let m3 = set_page_word 1 cur_block (temp_map_page next2 m2) in
        let m4 = set_page_word 0 next2 (temp_map_page cur_block m3) in
        set_page_word 2 (add32 (page_word 2 m4) new_count) m4)
    else m1

-- The freed pages end where the block in the window begins: they become its head.
unfoldable pub prepend_block : ℕ → ℕ → Machine → Machine
unfolding temp_map_page
prepend_block base count m0 =
    let old_count = page_word 2 m0 in
    let next = page_word 0 m0 in
    let prev = page_word 1 m0 in
    let m1 = set_page_word 1 base (temp_map_page next m0) in
    let m2 = set_page_word 0 base (temp_map_page prev m1) in
    let m3 = set_page_word 0 next (temp_map_page base m2) in
    let m4 = set_page_word 1 prev m3 in set_page_word 2 (add32 count old_count) m4

-- A block of its own before the block in the window. `prev` is read from the field `next`.
unfoldable pub insert_block : ℕ → ℕ → ℕ → Machine → Machine
unfolding temp_map_page
insert_block base count cur_block m0 =
    let prev = page_word 0 m0 in
    let m1 = set_page_word 1 base m0 in
    let m2 = set_page_word 0 base (temp_map_page prev m1) in
    let m3 = set_page_word 0 cur_block (temp_map_page base m2) in
    let m4 = set_page_word 1 prev m3 in set_page_word 2 count m4

-- The search of `free_phys_pages`, from the block `cur_block` on.
unfoldable pub free_scan : ℕ → ℕ → ℕ → ℕ → Machine → Option Machine
unfolding temp_map_page
free_scan zero base count cur_block m0 = none
free_scan (suc fuel) base count cur_block m0 =
    let m = temp_map_page cur_block m0 in
    let next = page_word 0 m in
    let rest = free_scan fuel base count next m in
    if add32 cur_block (bytes_of (page_word 2 m)) == base
    then some (extend_block base count cur_block m)
    else (if add32 base (bytes_of count) == cur_block
        then some (prepend_block base count m)
        else (if ltb base cur_block || next == m.free_phys_memory_pointer
            then some (insert_block base count cur_block m)
            else (if next == m.free_phys_memory_pointer then some m else rest)))

-- The freed pages as the only block.
unfoldable pub first_block : ℕ → ℕ → Machine → Machine
unfolding temp_map_page
first_block base count m0 =
    let m1 = set_page_word 0 base (temp_map_page base m0) in
    set_pointer base (set_page_word 2 count (set_page_word 1 base m1))

unfoldable pub lower_pointer : ℕ → Machine → Machine
lower_pointer base m = if ltb base m.free_phys_memory_pointer then set_pointer base m else m

unfoldable pub free_phys_pages : ℕ → ℕ → Machine → Option Machine
unfolding lock release lower_pointer
free_phys_pages base count m0 = do
  m ← lock m0
  freed ←
      (if m.free_phys_memory_pointer == minus_one then some (first_block base count m) else (do
        m' ← free_scan max_blocks base count m.free_phys_memory_pointer m
        some (lower_pointer base m')))
  some (release (record freed { free_page_count = add32 freed.free_page_count count }))

-- `get_free_memory_size`
unfoldable pub get_free_memory_size : Machine → ℕ
get_free_memory_size m = bytes_of m.free_page_count
