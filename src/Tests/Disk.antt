-- ===== src/Tests/Disk.antt =====
-- The map of a disk image at a concrete state.
use c4os.Common.{ℕ, ◌==◌, if◌then◌else◌, arith, refl, Ensures, ◌≡◌, ltb, ◌+◌, ◌*◌, ◌≤◌, ◌<◌}
use c4os.MakeListfs.{alloc_disk_block, is_used, init_disk_map, map_size}
use c4os.MakeListfs.DiskMap.{Allocates, alloc_disk_block-Allocates, init_disk_map-Covers}

-- Of 20 blocks the first ten are in use.
abbrev ten_used : ℕ → ℕ
ten_used i = if i == 0 then 0xff else (if i == 1 then 3 else 0)

alloc_disk_block-Allocates_example : Ensures (Allocates 20 ten_used) (alloc_disk_block 20 ten_used)
alloc_disk_block-Allocates_example = alloc_disk_block-Allocates 20 ten_used (omega arith)

-- No blocks of the boot loader, and a map of one block for 2880 blocks.
init_disk_map-Covers_example :
    (2880 ≤ 8 * (512 * map_size 512 2880))
    × (8 * (512 * map_size 512 2880) < 2880 + 8 * 512)
    × (2 + map_size 512 2880 ≤ 8 * (512 * map_size 512 2880))
    × (is_used (init_disk_map 2 512 2880) 1 ≡ ltb 1 (2 + map_size 512 2880))
unfolding map_size
init_disk_map-Covers_example =
    init_disk_map-Covers 2 512 2880 1 (omega arith) refl (omega arith) (omega arith)
