-- ===== src/MakeListfs/Header/Bare.antt =====
-- The image that make_listfs/make_listfs.c makes without a boot loader and a source directory.
use c4os.Common.{
  ℕ, zero, suc, ◌+◌, ◌*◌, false, ltb, ◌≤◌, ◌≡◌, ◌≢◌, refl, arith, Bool, true, Option, none, some,
  List, replicate, ==_ne, ap, ◌∙◌,
}
use c4os.MakeListfs.{check_options, init_disk_map, is_used, map_size}
use c4os.MakeListfs.DiskMap.{init_disk_map-is_used}
use c4os.MakeListfs.Options.{Options, get_commandline_options}
use c4os.MakeListfs.Files.{bytes, ListfsFileHeader, Image, no_block, write_block}
use c4os.MakeListfs.Directories.{Listing}
use c4os.MakeListfs.Header.{
  ListfsHeader, listfs_magic, listfs_version, header_bytes, store_map, store_disk_map,
  store_listfs_header, written, load_boot, init_listfs_header, copy_source, in_buffers, new_image,
  write_image, run, main,
}

-- The header of an image without a boot loader and files.
abbrev pub bare_header : Options → ℕ → ListfsHeader
bare_header o uid = record {
  boot = replicate o.block_size 0;
  magic = listfs_magic;
  version = listfs_version;
  flags = 0;
  base = 0;
  size = o.block_count;
  map_base = 0;
  map_size = map_size o.block_size o.block_count;
  first_file = no_block;
  uid = uid;
  block_size = o.block_size;
}

-- A map of at most one block is written to its first block alone.
store_map-apart :
    (n block_size : ℕ) (disk_map : ℕ → ℕ) (image : Image) (i : ℕ)
    → n ≤ 1
    → i ≢ 0
    → (store_map n block_size 0 disk_map image).disk i ≡ image.disk i
unfolding store_map write_block
store_map-apart zero block_size disk_map image i h ne = refl
store_map-apart (suc zero) block_size disk_map image i h ne = rw (==_ne i 0 ne) refl
store_map-apart (suc (suc n)) block_size disk_map image i h ne = absurd (omega arith)

-- The bit behind a map of at most one block is clear at first.
behind_map :
    (block_size block_count : ℕ)
    → 68 ≤ block_size
    → map_size block_size block_count ≤ 1
    → is_used
        (init_disk_map 0 block_size block_count)
        (8 * (block_size * map_size block_size block_count))
      ≡ false
behind_map size count big few =
    init_disk_map-is_used 0 size count (8 * (size * map_size size count))
    ∙ clear (map_size size count) few
  where
    clear : (n : ℕ) → n ≤ 1 → ltb (8 * (size * n)) (0 + n) ≡ false
    clear zero h = ground arith
    clear (suc zero) h = ground (arith, big)
    clear (suc (suc n)) h = absurd (omega arith)

-- The first block, then the others.
abbrev pub IsBare : Options → ℕ → Image → Type 0
IsBare o uid image =
    (image.disk 0 ≡ bytes (header_bytes (bare_header o uid)))
    × ((i : ℕ) → i ≢ 0 → image.disk i ≡ bytes (replicate o.block_size 0))

module _ {F : Type 0} (feof : F → Bool) (fread : F → List ℕ × F) (fuel : ℕ)
    (garbage : ListfsFileHeader) (strncmp : List ℕ → List ℕ → ℕ → ℕ) (atoi : List ℕ → ℕ)
    (created : Options → Bool) (boot_file : List ℕ → Option F)
    (listing : List ℕ → Option (Listing F)) (uid : ℕ) where
  write_image-IsBare :
      (o : Options)
      → o.boot_loader_file_name ≡ none
      → o.source_dir_name ≡ none
      → 68 ≤ o.block_size
      → map_size o.block_size o.block_count ≤ 1
      → (final : Image) × (write_image feof fread fuel garbage strncmp atoi created boot_file
            listing uid o
          ≡ some final)
        × IsBare o uid final
  unfolding write_image init_listfs_header load_boot copy_source in_buffers store_listfs_header
      store_disk_map write_block
  write_image-IsBare o nb ns big few =
      let h = bare_header o uid in
      let wide : ltb o.block_size 68 ≡ false = ground (arith, big) in
      let marked = record (new_image o) { disk_map = init_disk_map 0 o.block_size o.block_count } in
      (
        store_listfs_header h (store_disk_map h marked),
        rw (nb, ns, wide, behind_map o.block_size o.block_count big few) refl,
        (
          refl,
          λ i ne. rw (==_ne i 0 ne) (
              store_map-apart h.map_size o.block_size marked.disk_map
                (record marked { position = 0 }) i few ne),
        ),
      )

  -- With options that are accepted, blocks of at least the 68 bytes of the header, an output file, no
  -- boot loader, no source directory, and a map that fits a block, the run ends with an image whose first block is the header; every other
  -- block is zeros, so that the map of the blocks in use is in none.
  pub main-IsBare :
      (args : List (List ℕ)) (o : Options)
      → get_commandline_options strncmp atoi args ≡ (true, o)
      → check_options o.block_size o.block_count ≡ true
      → created o ≡ true
      → o.boot_loader_file_name ≡ none
      → o.source_dir_name ≡ none
      → 68 ≤ o.block_size
      → map_size o.block_size o.block_count ≤ 1
      → (final : Image) × (main feof fread fuel garbage strncmp atoi created boot_file listing uid
            args
          ≡ some (written final))
        × IsBare o uid final
  unfolding main
  main-IsBare args o given fine made nb ns big few =
      let (final, e, bare) = write_image-IsBare o nb ns big few in
      let ran : run feof fread fuel garbage strncmp atoi created boot_file listing uid (true, o)
          ≡ some (written final) =
        unfold run in rw (fine, made, e) refl in
      (
        final,
        ap (λ r. run feof fread fuel garbage strncmp atoi created boot_file listing uid r) given
            ∙ ran,
        bare,
      )
