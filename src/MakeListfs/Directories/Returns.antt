-- ===== src/MakeListfs/Directories/Returns.antt =====
-- The disk blocks that `process_dir` of make_listfs/make_listfs.c needs.
use c4os.Common.{ℕ, ◌+◌, ◌-◌, ◌*◌, ◌<◌, ◌≤◌, Bool, Option, List}
use c4os.MakeListfs.Files.{ListfsFileHeader, Image}
use c4os.MakeListfs.Files.Room.{Room, Ends}
use c4os.MakeListfs.Directories.{
  Listing, done, dots, directory, closed, regular, unread, other, Walk, walk,
}

-- What is left beside the block of the file and the walk.
abbrev BeginLeaves : ℕ → ℕ × Walk × Image → Type 0
BeginLeaves k t = Room k t.2

module _ {F : Type 0} (feof : F → Bool) (fread : F → List ℕ × F) (fuel block_size : ℕ)
    (garbage : ListfsFileHeader) where
  -- With `k` blocks the entries can be stored: one for each, two more for each read of a file, and those of the
  -- directories in it. The files end in less than `fuel` reads.
  abbrev pub Suffices : ℕ → Listing F → Type 0
  Suffices k done = Unit
  Suffices k (dots rest) = Suffices k rest
  Suffices k (directory name times inside rest) =
      (n : ℕ) × (1 + n ≤ k) × Suffices n inside × Suffices (k - (1 + n)) rest
  Suffices k (closed name times rest) = (1 ≤ k) × Suffices (k - 1) rest
  Suffices k (regular name times size file rest) =
      (n : ℕ) × (n < fuel)
      × Ends feof fread n file
      × (1 + 2 * n ≤ k)
      × Suffices (k - (1 + 2 * n)) rest
  Suffices k (unread name times rest) = (1 ≤ k) × Suffices (k - 1) rest
  Suffices k (other name times rest) = (1 ≤ k) × Suffices (k - 1) rest

  abbrev walked : ℕ → Listing F → Walk → Image → Option (ℕ × Image)
  walked parent listing w image = walk feof fread fuel block_size garbage parent listing w image
