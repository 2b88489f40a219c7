-- ===== src/MakeListfs/Directories/Emptied.antt =====
-- An empty directory behind a file, as `process_dir` of make_listfs/make_listfs.c copies it.
use c4os.Common.{ℕ, ◌≡◌, ◌≢◌, refl, Bool, some, List, ==_ne}
use c4os.MakeListfs.Files.{ListfsFileHeader, header, Image, no_block, write_block, take_disk_block}
use c4os.MakeListfs.Directories.{Times, Walk, new_header, link_file, begin_file}

-- The first file of a directory is not linked to; the next is.
pub begin_first :
    (parent c : ℕ) (name : List ℕ) (times : Times) (garbage : ListfsFileHeader)
    (image image1 : Image)
    → take_disk_block image ≡ some (c, image1)
    → begin_file parent name times
        (record { prev_file = no_block; first_file = no_block; file_header = garbage })
        image
      ≡ some (
        c,
        record {
          prev_file = c;
          first_file = c;
          file_header = new_header parent no_block name times;
        },
        image1,
      )
unfolding begin_file link_file
begin_first parent c name times garbage image image1 a = rw a refl

pub begin_next :
    (parent d : ℕ) (name : List ℕ) (times : Times) (w : Walk) (image image1 : Image)
    → take_disk_block image ≡ some (d, image1)
    → w.prev_file ≢ no_block
    → begin_file parent name times w image
      ≡ some (
        d,
        record w { prev_file = d; file_header = new_header parent w.prev_file name times },
        write_block w.prev_file (header (record w.file_header { next = d })) image1,
      )
unfolding begin_file link_file
begin_next parent d name times w image image1 a ne = rw (a, ==_ne w.prev_file no_block ne) refl

module _ {F : Type 0} (feof : F → Bool) (fread : F → List ℕ × F) (fuel block_size : ℕ)
    (garbage : ListfsFileHeader) where
  after_file : ℕ → ℕ → ℕ → ℕ → List ℕ → Times → Walk
  after_file c l size parent name times = record {
    prev_file = c;
    first_file = c;
    file_header = record (new_header parent no_block name times) {
      flags = 0;
      size = size;
      data_ = l;
    };
  }
