-- ===== src/Tests/Image.antt =====
-- Files and directories that make_listfs/make_listfs.c copies, at a concrete image.
use c4os.Common.{
  ◌+◌, Ensures, some, ℕ, ◌≡◌, refl, arith, Bool, true, false, List, [], ◌∷◌, ◌==◌, if◌then◌else◌,
  u32, some, inl,
}
use c4os.Kernel.Files.{FileHeader, get_file_data_pointer}
use c4os.MakeListfs.DiskMap.{init_disk_map-is_used}
use c4os.MakeListfs.{
  init_disk_map, map_size, alloc_disk_block, alloc_loop, mark_found, is_used, get_disk_block,
}
use c4os.MakeListfs.Files.{ListfsFileHeader, bytes, Image, take_disk_block, store_file_data}
use c4os.MakeListfs.Files.Kept.{Keeps, store_file_data-Keeps}
use c4os.MakeListfs.Files.Stored.{IsOneBlock, word_of, after, store_file_data-get_file_data_pointer}
use c4os.MakeListfs.Directories.{Times, Listing, done, dots, directory, regular, other}
use c4os.MakeListfs.Directories.Copied.{Copied}
use c4os.MakeListfs.Files.Room.{Room}

-- A file of three bytes: open, read to the end.
abbrev feof : Bool → Bool
feof at_end = at_end

abbrev fread : Bool → List ℕ × Bool
fread at_end = if at_end then ([], true) else (1 ∷ 2 ∷ 3 ∷ [], true)

file-IsOneBlock : IsOneBlock feof fread false (1 ∷ 2 ∷ 3 ∷ [])
file-IsOneBlock = record { open_ = refl; read_ = refl; full = λ e. omega arith; drained = inl refl }

-- Block 0 is in use.
abbrev image : Image
image = record {
  size = 16;
  disk_map = λ i. if i == 0 then 1 else 0;
  disk = λ i. bytes [];
  position = 16;
}

-- The image with one block more in use.
abbrev taken : ℕ → Image → Image
taken i m = record m { disk_map = get_disk_block i m.disk_map }

take_1 : take_disk_block image ≡ some (1, taken 1 image)
unfolding take_disk_block alloc_disk_block alloc_loop mark_found is_used get_disk_block
take_1 = refl

take_2 : take_disk_block (taken 1 image) ≡ some (2, taken 2 (taken 1 image))
unfolding take_disk_block alloc_disk_block alloc_loop mark_found is_used get_disk_block
take_2 = refl

no_header : ℕ → FileHeader
no_header sector = record { name = []; next = 0; parent = 0; flags = 0; data_ = 0; size = 0 }

store_file_data-get_file_data_pointer_example :
    (g : Bool) × (final : Image) × (store_file_data feof fread 2 512 false image
      ≡ some (1, g, final))
    × (final.disk 2 ≡ bytes (1 ∷ 2 ∷ 3 ∷ []))
    × (get_file_data_pointer no_header (λ s. word_of (final.disk s)) 1 ≡ some (u32 2))
store_file_data-get_file_data_pointer_example =
    store_file_data-get_file_data_pointer feof fread 0 false (1 ∷ 2 ∷ 3 ∷ []) image (taken 1 image)
      (taken 2 (taken 1 image)) 1 2 no_header file-IsOneBlock (omega arith) take_1 take_2
      (omega arith)

abbrev times : Times
times = record { created = 0; modified = 0; accessed = 0 }

abbrev junk : ListfsFileHeader
junk = record {
  name = [];
  next = 0;
  prev = 0;
  parent = 0;
  flags = 0;
  data_ = 0;
  size = 0;
  create_time = 0;
  modify_time = 0;
  access_time = 0;
}

-- Behind the file of block 1, with its list in block 2 and its data in block 3.
abbrev stored : Image
stored = after 2 3 (1 ∷ 2 ∷ 3 ∷ []) (taken 3 (taken 2 (taken 1 image)))

abbrev two_files : Listing Bool
two_files = dots (regular (b'a' ∷ []) times 3 false (other (b'p' ∷ []) times done))

-- The disk after `init_disk_map`: its map is in the first block.
abbrev fresh : Image
fresh = record { size = 16; disk_map = init_disk_map 0 512 16; disk = λ i. bytes []; position = 16 }

fresh-Room : Room 8 fresh
unfolding map_size
fresh-Room = record {
  in_use = 0 + map_size 512 16;
  first_ = init_disk_map-is_used 0 512 16;
  left_over = omega arith;
}

store_file_data-Keeps_example :
    Ensures (λ r. Keeps fresh r.2 × Room 6 r.2) (store_file_data feof fread 2 512 false fresh)
store_file_data-Keeps_example =
    store_file_data-Keeps feof fread 2 1 6 512 false fresh (omega arith) (λ e. refl) (omega arith)
      fresh-Room (omega arith)

-- A file, and a directory that holds another one.
abbrev nested : Listing Bool
nested =
    regular (b'a' ∷ []) times 3 false
      (directory (b'd' ∷ []) times (dots (regular (b'b' ∷ []) times 3 false done)) done)
