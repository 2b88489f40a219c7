-- ===== src/MakeListfs.antt =====
-- The tool that writes disk images, make_listfs/make_listfs.c: its map of the blocks in use
-- (`alloc_disk_block`, `get_disk_block`, `init_disk_map`) and the test of its options.
pub mod DiskMap
pub mod Directories
pub mod Files
pub mod Options
pub mod Header
use c4os.Common.{
  ℕ, zero, suc, ◌+◌, ◌*◌, ◌/◌, ◌%◌, ◌^◌, Bool, true, false, not, Option, none, some, ◌==◌, ltb, leb,
  if◌then◌else◌, bit_and, bit_or, update, shl, shr, ◌&&◌, ◌>>=◌,
}

-- `disk_map[index >> 3] & (1 << (index & 7))` is not 0: the bit is 1.
unfoldable pub is_used : (ℕ → ℕ) → ℕ → Bool
is_used disk_map index = disk_map (index / 8) / 2 ^ (index % 8) % 2 == 1

-- `disk_map[index >> 3] |= 1 << (index & 7)`
unfoldable pub get_disk_block : ℕ → (ℕ → ℕ) → ℕ → ℕ
get_disk_block index disk_map =
    update disk_map (index / 8) (bit_or (disk_map (index / 8)) (2 ^ (index % 8)))

-- The outer `none` is the end of the fuel, the inner one `exit(-3)`: the disk is full.
unfoldable pub alloc_loop : ℕ → ℕ → ℕ → (ℕ → ℕ) → Option (Option ℕ)
unfolding is_used
alloc_loop zero size index disk_map = none
alloc_loop (suc fuel) size index disk_map =
    let rest = alloc_loop fuel size (index + 1) disk_map in
    if is_used disk_map index
    then (if leb size (index + 1) then some none else rest)
    else some (some index)

unfoldable pub mark_found : (ℕ → ℕ) → Option ℕ → Option (ℕ × (ℕ → ℕ))
mark_found disk_map none = none
mark_found disk_map (some index) = some (index, get_disk_block index disk_map)

-- The index goes up to the size: one round for each block, and one for an empty disk.
unfoldable pub alloc_disk_block : ℕ → (ℕ → ℕ) → Option (Option (ℕ × (ℕ → ℕ)))
unfolding alloc_loop mark_found
alloc_disk_block size disk_map = do
  found ← alloc_loop (size + 1) size 0 disk_map
  some (mark_found disk_map found)

-- `map_size` in blocks
unfoldable pub map_size : ℕ → ℕ → ℕ
map_size block_size block_count =
    let bytes = block_count / 8 in
    if bytes % block_size == 0 then bytes / block_size else (bytes + block_size) / block_size

-- The loop over the blocks of the map: the first `n` are marked.
unfoldable pub mark_first : ℕ → (ℕ → ℕ) → ℕ → ℕ
unfolding get_disk_block
mark_first zero disk_map = disk_map
mark_first (suc n) disk_map = get_disk_block n (mark_first n disk_map)

-- The map after `init_disk_map`: it begins at the number of the boot loader's extra blocks. Its buffer
-- has `block_size * map_size` bytes; those behind it read as 0 here, and `in_buffers` turns a run away
-- that has set one.
unfoldable pub init_disk_map : ℕ → ℕ → ℕ → ℕ → ℕ
unfolding mark_first map_size
init_disk_map boot_loader_extra_blocks block_size block_count =
    mark_first (boot_loader_extra_blocks + map_size block_size block_count) (λ i. 0)

-- `block_size & 7` is 0 for a multiple of 8.
unfoldable pub check_options : ℕ → ℕ → Bool
check_options block_size block_count =
    if ltb block_size 512 && (block_size % 8 == 0)
    then false
    else (if ltb block_count 2 then false else true)
