-- ===== src/MakeListfs/Directories.antt =====
-- How make_listfs/make_listfs.c copies a directory into the image (`process_dir`).
pub mod Emptied
pub mod Chained
pub mod Listed
pub mod Found
pub mod Returns
pub mod Copied
use c4os.Common.{
  ℕ, zero, suc, ◌+◌, Bool, true, false, not, Option, none, some, List, [], ◌∷◌, if◌then◌else◌,
  ◌>>=◌, ◌==◌,
}
use c4os.MakeListfs.Files.{
  ListfsFileHeader, Content, header, Image, no_block, write_block, take_disk_block, store_file_data,
}

-- `st_ctime`, `st_mtime` and `st_atime`
pub record Times : Type 0 where
  pub created : ℕ
  pub modified : ℕ
  pub accessed : ℕ

-- What `readdir` gives, in its order, with what `stat`, `opendir` and `fopen` then say: a directory
-- with its own entries, a directory that cannot be opened, a regular file with its size, one that
-- cannot be opened, or anything else. `dots` stands for the entries . and ..
pub data Listing (F : Type 0) : Type 0 where
  done : Listing F
  dots : Listing F → Listing F
  directory : List ℕ → Times → Listing F → Listing F → Listing F
  closed : List ℕ → Times → Listing F → Listing F
  regular : List ℕ → Times → ℕ → F → Listing F → Listing F
  unread : List ℕ → Times → Listing F → Listing F
  other : List ℕ → Times → Listing F → Listing F

-- The state of the loop.
pub record Walk : Type 0 where
  pub prev_file : ℕ
  pub first_file : ℕ
  pub file_header : ListfsFileHeader

-- The name is cut to 255 characters.
unfoldable pub cut : ℕ → List ℕ → List ℕ
cut zero s = []
cut (suc n) [] = []
cut (suc n) (c ∷ s) = c ∷ cut n s

unfoldable pub new_header : ℕ → ℕ → List ℕ → Times → ListfsFileHeader
unfolding cut
new_header parent prev_file name times = record {
  name = cut 255 name;
  next = no_block;
  prev = prev_file;
  parent = parent;
  flags = 0;
  data_ = 0;
  size = 0;
  create_time = times.created;
  modify_time = times.modified;
  access_time = times.accessed;
}

-- The header of the file before gets its `next` and is written.
unfoldable pub link_file : ℕ → Walk → Image → Walk × Image
unfolding write_block
link_file cur_file w image =
    if not (w.prev_file == no_block)
    then (w, write_block w.prev_file (header (record w.file_header { next = cur_file })) image)
    else (record w { first_file = cur_file }, image)

-- The beginning of a round of the loop: the block of the new file, and its header so far.
unfoldable pub begin_file : ℕ → List ℕ → Times → Walk → Image → Option (ℕ × Walk × Image)
unfolding take_disk_block link_file new_header
begin_file parent name times w image = do
  (cur_file, image1) ← take_disk_block image
  let linked = link_file cur_file w image1
  some (
    cur_file,
    record linked.0 {
      prev_file = cur_file;
      file_header = new_header parent w.prev_file name times;
    },
    linked.1,
  )

unfoldable pub set_data : ℕ → ℕ → ℕ → Walk → Walk
set_data flags size data_ w = record w {
  file_header = record w.file_header { flags = flags; size = size; data_ = data_ };
}

-- A seek to block -1 fails, and the header is written where the last write ended.
unfoldable pub write_last : Walk → Image → Image
unfolding write_block
write_last w image =
    write_block (if w.prev_file == no_block then image.position else w.prev_file)
      (header w.file_header) image

module _ {F : Type 0} (feof : F → Bool) (fread : F → List ℕ × F) (fuel block_size : ℕ)
    (garbage : ListfsFileHeader) where
  -- `garbage` is what `malloc` gives.
  unfoldable pub walk_start : Walk
  walk_start = record { prev_file = no_block; first_file = no_block; file_header = garbage }

  unfoldable pub walk : ℕ → Listing F → Walk → Image → Option (ℕ × Image)
  unfolding begin_file set_data write_last store_file_data walk_start
  walk parent done w image = some (w.first_file, write_last w image)
  walk parent (dots rest) w image = walk parent rest w image
  walk parent (directory name times inside rest) w image =
      begin_file parent name times w image >>= (λ t.
        walk t.0 inside walk_start t.2 >>= (λ d. walk parent rest (set_data 1 0 d.0 t.1) d.1))
  walk parent (closed name times rest) w image =
      begin_file parent name times w image
      >>= (λ t. walk parent rest (set_data 1 0 no_block t.1) t.2)
  walk parent (regular name times size file rest) w image =
      begin_file parent name times w image >>= (λ t.
        store_file_data feof fread fuel block_size file t.2
        >>= (λ d. walk parent rest (set_data 0 size d.0 t.1) d.2))
  walk parent (unread name times rest) w image =
      begin_file parent name times w image
      >>= (λ t. walk parent rest (set_data 0 0 no_block t.1) t.2)
  walk parent (other name times rest) w image =
      begin_file parent name times w image >>= (λ t. walk parent rest t.1 t.2)

  -- The first file of the directory, which has been opened, and the image. The buffer of the header is
  -- taken to hold its 328 bytes, which `copy_source` sees to.
  unfoldable pub process_dir : ℕ → Listing F → Image → Option (ℕ × Image)
  unfolding walk walk_start
  process_dir parent listing image = walk parent listing walk_start image
