-- ===== src/MakeListfs/Header.antt =====
-- The header of the image in make_listfs/make_listfs.c, the boot loader (`init_listfs_header`), and
-- the whole run (`main`). `F` is the type of open files, as in Files.
pub mod Fields
pub mod Bare
pub mod Loaded
use c4os.Common.{
  ℕ, zero, suc, ◌+◌, ◌*◌, ◌/◌, ◌%◌, Bool, true, false, Option, none, some, List, [], ◌∷◌, ◌++◌,
  ◌>>=◌, if◌then◌else◌, replicate, bit_and, bit_or, ltb, ◌||◌,
}
use c4os.MakeListfs.{check_options, init_disk_map, is_used, map_size}
use c4os.MakeListfs.Options.{Options, behind, get_commandline_options}
use c4os.MakeListfs.Files.{
  Content, bytes, ListfsFileHeader, Image, no_block, write_block, store_file_data,
}
use c4os.MakeListfs.Directories.{Listing, cut, process_dir}

-- `listfs_header`, in the block that begins with the boot loader, `boot`: of its bytes the first four
-- and those behind the fields are kept.
pub record ListfsHeader : Type 0 where
  pub boot : List ℕ
  pub magic : ℕ
  pub version : ℕ
  pub flags : ℕ
  pub base : ℕ
  pub size : ℕ
  pub map_base : ℕ
  pub map_size : ℕ
  pub first_file : ℕ
  pub uid : ℕ
  pub block_size : ℕ

abbrev pub listfs_magic : ℕ
listfs_magic = 0x8483_7376

abbrev pub listfs_version : ℕ
listfs_version = 1

-- A number in `n` bytes, the lowest first.
abbrev pub number_bytes : ℕ → ℕ → List ℕ
number_bytes zero v = []
number_bytes (suc n) v = v % 256 ∷ number_bytes n (v / 256)

-- The packed structure in its block. A block of fewer than its 68 bytes, which the fields would
-- overflow, is turned away by `in_buffers`.
unfoldable pub header_bytes : ListfsHeader → List ℕ
unfolding cut
header_bytes h =
    cut 4 h.boot
    ++ number_bytes 4 h.magic
    ++ number_bytes 4 h.version
    ++ number_bytes 4 h.flags
    ++ number_bytes 8 h.base
    ++ number_bytes 8 h.size
    ++ number_bytes 8 h.map_base
    ++ number_bytes 8 h.map_size
    ++ number_bytes 8 h.first_file
    ++ number_bytes 8 h.uid
    ++ number_bytes 4 h.block_size
    ++ behind 68 h.boot

-- What a buffer holds after a read that gives fewer bytes than it has.
abbrev pub overlay : List ℕ → List ℕ → List ℕ
overlay [] buffer = buffer
overlay (b ∷ block_data) [] = b ∷ block_data
overlay (b ∷ block_data) (c ∷ buffer) = b ∷ overlay block_data buffer

-- The block `j` of the map.
abbrev pub disk_map_block : ℕ → ℕ → (ℕ → ℕ) → List ℕ
disk_map_block zero i disk_map = []
disk_map_block (suc n) i disk_map = disk_map i ∷ disk_map_block n (i + 1) disk_map

-- `fwrite` of the first `n` blocks of the map.
unfoldable pub store_map : ℕ → ℕ → ℕ → (ℕ → ℕ) → Image → Image
unfolding write_block
store_map zero block_size map_base disk_map image = image
store_map (suc n) block_size map_base disk_map image =
    write_block (map_base + n) (bytes (disk_map_block block_size (n * block_size) disk_map))
      (store_map n block_size map_base disk_map image)

unfoldable pub store_disk_map : ListfsHeader → Image → Image
unfolding store_map
store_disk_map h image =
    store_map h.map_size h.block_size h.map_base image.disk_map
      (record image { position = h.map_base })

unfoldable pub store_listfs_header : ListfsHeader → Image → Image
unfolding header_bytes write_block
store_listfs_header h image = write_block 0 (bytes (header_bytes h)) image

-- What `calloc` and the map's loops need: `none` where the header's block has fewer than the 68 bytes of
-- the structure, or the bytes behind the map were used. The blocks are taken upwards, and a byte
-- behind the map reads as 0 in the model, so then its first bit is set.
unfoldable pub in_buffers : ListfsHeader × Image → Option (ListfsHeader × Image)
unfolding is_used
in_buffers (h, image) =
    if ltb h.block_size 68 || is_used image.disk_map (8 * (h.block_size * h.map_size))
    then none
    else some (h, image)

-- How a run ends: with the usage, with -1, with -2, or with an image.
pub data Outcome : Type 0 where
  usage bad_options no_output_file : Outcome
  written : Image → Outcome

-- A new image: `open_output_file` writes its last block, and the rest of the file is zeros.
abbrev pub new_image : Options → Image
new_image o = record {
  size = o.block_count;
  disk_map = λ i. 0;
  disk = λ i. bytes (replicate o.block_size 0);
  position = o.block_count;
}

module _ {F : Type 0} (feof : F → Bool) (fread : F → List ℕ × F) where
  -- The blocks behind the first go to the blocks from `i` on; a short read leaves the end of the buffer
  -- as it was. There is a round for each read.
  unfoldable pub boot_loop : ℕ → ℕ → ℕ → List ℕ → F → Image → Option (ℕ × Image)
  unfolding write_block
  boot_loop zero i boot_loader_extra_blocks buffer file image = none
  boot_loop (suc n) i boot_loader_extra_blocks buffer file image =
      let (block_data, file') = fread file in
      let block = overlay block_data buffer in
      let rest =
        boot_loop n (i + 1) (boot_loader_extra_blocks + 1) block file'
          (write_block i (bytes block) image) in
      if feof file then some (boot_loader_extra_blocks, image) else rest

  -- The first block, the number of the others, and the image.
  unfoldable pub load_boot : ℕ → ℕ → Option F → Image → Option (List ℕ × ℕ × Image)
  unfolding boot_loop
  load_boot fuel block_size none image = some (replicate block_size 0, 0, image)
  load_boot fuel block_size (some file) image =
      let (block_data, file') = fread file in
      boot_loop fuel 1 0 (replicate block_size 0) file' image >>= λ r.
      some (overlay block_data (replicate block_size 0), r.0, r.1)

-- `created` says whether the output file could be made, and `boot_file` and `listing` give the open boot
-- loader and the source directory; `uid` stands for what the clock and `rand` make.
module _ {F : Type 0} (feof : F → Bool) (fread : F → List ℕ × F) (fuel : ℕ)
    (garbage : ListfsFileHeader) (strncmp : List ℕ → List ℕ → ℕ → ℕ) (atoi : List ℕ → ℕ)
    (created : Options → Bool) (boot_file : List ℕ → Option F)
    (listing : List ℕ → Option (Listing F)) (uid : ℕ) where
  abbrev boot_of : Options → Option F
  boot_of o = o.boot_loader_file_name >>= boot_file

  -- `init_listfs_header`, and the fields that `init_disk_map` sets.
  unfoldable pub init_listfs_header : Options → Image → Option (ListfsHeader × Image)
  unfolding load_boot map_size init_disk_map
  init_listfs_header o image = load_boot feof fread fuel o.block_size (boot_of o) image >>= λ r.
      some (
        record {
          boot = r.0;
          magic = listfs_magic;
          version = listfs_version;
          flags = 0;
          base = 0;
          size = o.block_count;
          map_base = r.1;
          map_size = map_size o.block_size o.block_count;
          first_file = no_block;
          uid = uid;
          block_size = o.block_size;
        },
        record r.2 { disk_map = init_disk_map r.1 o.block_size o.block_count },
      )

  -- A directory that cannot be opened gives -1. The 328 bytes of a file header are kept in a buffer of
  -- one block: `none` for a source directory whose headers would not fit.
  unfoldable pub copy_source : Options → ListfsHeader × Image → Option (ListfsHeader × Image)
  unfolding process_dir
  copy_source o (h, image) = elim (o.source_dir_name) [
    | none ↦ some (h, image)
    | some name ↦ elim (listing name) [
      | none ↦ some (record h { first_file = no_block }, image)
      | some entries ↦
          let copied = process_dir feof fread fuel o.block_size garbage no_block entries image in
          if ltb o.block_size 328
          then none
          else (copied >>= λ d. some (record h { first_file = d.0 }, d.1))
    ]
  ]

  unfoldable pub write_image : Options → Option Image
  unfolding init_listfs_header copy_source in_buffers store_disk_map store_listfs_header
  write_image o = init_listfs_header o (new_image o) >>= copy_source o >>= in_buffers >>= λ r.
      some (store_listfs_header r.0 (store_disk_map r.0 r.1))

  -- After the command line; `none` is a full disk, the end of the fuel, and a buffer that is too small.
  unfoldable pub run : Bool × Options → Option Outcome
  unfolding check_options write_image
  run (ok, o) =
      let made = write_image o >>= λ image. some (written image) in
      if ok
      then (if check_options o.block_size o.block_count
          then (if created o then made else some no_output_file)
          else some bad_options)
      else some usage

  unfoldable pub main : List (List ℕ) → Option Outcome
  unfolding get_commandline_options run
  main args = run (get_commandline_options strncmp atoi args)
