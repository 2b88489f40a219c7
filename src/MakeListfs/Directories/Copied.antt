-- ===== src/MakeListfs/Directories/Copied.antt =====
-- A directory that `process_dir` of make_listfs/make_listfs.c has room for, and the kernel's look at it.
use c4os.Common.{ℕ, some, List}
use c4os.MakeListfs.Files.{Image}
use c4os.MakeListfs.Files.Room.{Room, Leaves}
use c4os.MakeListfs.Directories.Found.{Finds}

-- What the kernel finds, and what is left.
abbrev pub Copied : List (List ℕ) → List ℕ → ℕ → ℕ × Image → Type 0
Copied ns file_name j r = Finds ns file_name (some r) × Leaves j r
