-- ===== src/MakeListfs/Files.antt =====
-- How make_listfs/make_listfs.c writes the contents of a file (`store_file_data`, `write_block`).
-- `feof` and `fread` are those of the C library, on any type of open files: `fread` gives the bytes
-- of the next block, fewer at the end of the file, and none behind it.
pub mod Kept
pub mod Stored
pub mod Room
use c4os.Common.{
  ℕ, zero, suc, ◌-◌, ◌/◌, ◌^◌, Bool, true, false, Option, none, some, List, [], ◌∷◌, ◌++◌,
  if◌then◌else◌, ◌>>=◌, length, ◌==◌, ◌+◌,
}
use c4os.MakeListfs.{alloc_disk_block}

-- `listfs_file_header`
pub record ListfsFileHeader : Type 0 where
  pub name : List ℕ
  pub next : ℕ
  pub prev : ℕ
  pub parent : ℕ
  pub flags : ℕ
  pub data_ : ℕ
  pub size : ℕ
  pub create_time : ℕ
  pub modify_time : ℕ
  pub access_time : ℕ

-- A block of the image: bytes, padded with zeros, a list of 64-bit block numbers, or a header.
-- A header is whole: it has 328 bytes, and a run with smaller blocks is turned away by `copy_source`.
pub data Content : Type 0 where
  bytes : List ℕ → Content
  numbers : List ℕ → Content
  header : ListfsFileHeader → Content

-- `block_count`, the map of the blocks in use, the blocks of the output file and the block behind the
-- last write. The map is taken to have a bit for every block; `in_buffers` turns a run away that has
-- used one behind its end.
pub record Image : Type 0 where
  pub size : ℕ
  pub disk_map : ℕ → ℕ
  pub disk : ℕ → Content
  -- the block at which the output file stands
  pub position : ℕ

-- -1 as a `uint64`
abbrev pub no_block : ℕ
no_block = 2 ^ 64 - 1

unfoldable pub write_block : ℕ → Content → Image → Image
write_block index content image = record image {
  disk = λ i. if i == index then content else image.disk i;
  position = index + 1;
}

-- `exit(-3)` on a full disk ends the run: `none`.
unfoldable pub take_disk_block : Image → Option (ℕ × Image)
unfolding alloc_disk_block
take_disk_block image = do
  found ← alloc_disk_block image.size image.disk_map
  (index, disk_map) ← found
  some (index, record image { disk_map = disk_map })

module _ {F : Type 0} (feof : F → Bool) (fread : F → List ℕ × F) where
  -- The loop over the entries of one list of blocks.
  unfoldable pub store_blocks : ℕ → F → Image → Option (List ℕ × F × Image)
  unfolding take_disk_block write_block
  store_blocks zero file image = some ([], file, image)
  store_blocks (suc n) file image =
      let (block_data, file') = fread file in
      let at_end = store_blocks n file image >>= (λ r. some (no_block ∷ r.0, r.1, r.2)) in
      let nothing_read = store_blocks n file' image >>= (λ r. some (no_block ∷ r.0, r.1, r.2)) in
      let stored = take_disk_block image >>= (λ t.
        store_blocks n file' (write_block t.0 (bytes block_data) t.1)
        >>= (λ r. some (t.0 ∷ r.0, r.1, r.2))) in
      if feof file then at_end else (if length block_data == 0 then nothing_read else stored)

  -- A list of blocks ends with the number of the next list; each list has at least one block of data
  -- but the last, so that the fuel is the number of lists and one more.
  unfoldable pub store_file_data : ℕ → ℕ → F → Image → Option (ℕ × F × Image)
  unfolding store_blocks
  store_file_data zero block_size file image0 = none
  store_file_data (suc fuel) block_size file image0 =
      let listed = take_disk_block image0 >>= (λ t.
        store_blocks (block_size / 8 - 1) file t.1 >>= (λ b.
          store_file_data fuel block_size b.1 b.2
          >>= (λ n. some (t.0, n.1, write_block t.0 (numbers (b.0 ++ n.0 ∷ [])) n.2)))) in
      if feof file then some (no_block, file, image0) else listed
