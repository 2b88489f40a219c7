-- ===== src/MakeListfs/Directories/Found.antt =====
-- What `find_file` of src/kernel/kernel.c finds in a directory that `process_dir` of
-- make_listfs/make_listfs.c has written.
use c4os.Common.{
  ℕ, ◌≡◌, ◌≤◌, ◌<◌, refl, arith, Bool, Option, none, some, List, [], ◌∷◌, ap, sym, subst, u32,
  length,
}
use c4os.Kernel.Files.{FileHeader, find_file}
use c4os.Kernel.Files.Chain.{Chain, lookup, answer, find_file-lookup}
use c4os.MakeListfs.Files.{ListfsFileHeader, Content, bytes, numbers, header, Image}
use c4os.MakeListfs.Files.Stored.{word_of}
use c4os.MakeListfs.Directories.{Listing, cut, process_dir}
use c4os.MakeListfs.Directories.Chained.{IsFlat, names, DiskChain}
use c4os.MakeListfs.Directories.Listed.{Listed, process_dir-Listed}

-- A block that is no header.
abbrev pub no_file : FileHeader
no_file = record { name = []; next = 0; parent = 0; flags = 0; data_ = 0; size = 0 }

-- What the kernel reads of a header block.
abbrev pub file_of : Content → FileHeader
file_of (header h) = record {
  name = h.name;
  next = h.next;
  parent = h.parent;
  flags = h.flags;
  data_ = h.data_;
  size = h.size;
}
file_of (bytes b) = no_file
file_of (numbers ns) = no_file

-- The files have the names, cut as they are stored.
abbrev pub Names : List FileHeader → List (List ℕ) → Type 0
Names [] [] = Unit
Names (f ∷ fs) (n ∷ ns) = (f.name ≡ cut 255 n) × Names fs ns
Names [] (n ∷ ns) = ⊥
Names (f ∷ fs) [] = ⊥

-- A chain on the disk is one for the kernel.
DiskChain-Chain :
    (disk : ℕ → Content) (word_at : ℕ → ℕ → ℕ) (block : ℕ) (name : List ℕ) (ns : List (List ℕ))
    → DiskChain disk block (name ∷ ns)
    → (f : FileHeader) × (fs : List FileHeader) × Chain
        (λ s. file_of (disk s))
        word_at
        block
        (f ∷ fs)
      × Names (f ∷ fs) (name ∷ ns)
DiskChain-Chain disk word_at block name [] (low, (h, at, named, end_)) =
    (file_of (header h), [], (ap file_of at, end_), (named, tt))
DiskChain-Chain disk word_at block name (n ∷ ns) (low, (h, at, named, rest)) =
    let (f, fs, c, m) = DiskChain-Chain disk word_at h.next n ns rest in
    (
      file_of (header h),
      f ∷ fs,
      (
        ap file_of at,
        λ e. omega (arith, e, rest.0),
        subst (λ s. Chain (λ x. file_of (disk x)) word_at s (f ∷ fs)) (sym (low_u32 h.next rest.0))
            c,
      ),
      (named, m),
    )
  where
    low_u32 : (s : ℕ) → s < 0x1_0000_0000 → u32 s ≡ s
    low_u32 s p = omega arith

Names-length : (fs : List FileHeader) (ns : List (List ℕ)) → Names fs ns → length fs ≡ length ns
Names-length [] [] m = refl
Names-length (f ∷ fs) (n ∷ ns) m = omega (arith, Names-length fs ns m.1)
Names-length [] (n ∷ ns) m = absurd m
Names-length (f ∷ fs) [] m = absurd m

-- The kernel finds a file by its name among files of these names.
abbrev pub Finds : List (List ℕ) → List ℕ → Option (ℕ × Image) → Type 0
Finds ns file_name none = Unit
Finds ns file_name (some (first, final)) =
    (fs : List FileHeader) × Names fs ns
    × (find_file (λ s. file_of (final.disk s)) (λ s. word_of (final.disk s)) (length ns) first
          file_name
        ≡ answer (λ s. file_of (final.disk s)) (λ s. word_of (final.disk s))
            (lookup (λ s. file_of (final.disk s)) (λ s. word_of (final.disk s)) file_name fs))

Listed-Finds :
    (file_name name : List ℕ) (ns : List (List ℕ)) (o : Option (ℕ × Image))
    → Listed (name ∷ ns) o
    → Finds (name ∷ ns) file_name o
Listed-Finds file_name name ns none h = tt
Listed-Finds file_name name ns (some (first, final)) h =
    let word_at = λ (s : ℕ). word_of (final.disk s) in
    let (f, fs, c, m) = DiskChain-Chain final.disk word_at first name ns h in
    (
      f ∷ fs,
      m,
      find_file-lookup (λ s. file_of (final.disk s)) word_at (length (name ∷ ns)) first file_name
          (f ∷ fs) (Names-length (f ∷ fs) (name ∷ ns) m) c,
    )

-- In a directory of files that `process_dir` has written, `find_file` of the kernel, from the block
-- that `process_dir` returned, finds a file by its name: the files have the names of the entries, in
-- their order, and the result is that of the first whose name is the one asked for, or none. The
-- directory has an entry besides . and .., and the disk has blocks, and at most 2 ^ 32; of a run that
-- ends early, by a full disk or by the fuel, nothing is said.
pub process_dir-Finds :
    {F : Type 0} (feof : F → Bool) (fread : F → List ℕ × F) (fuel block_size : ℕ)
    (garbage : ListfsFileHeader) (parent : ℕ) (listing : Listing F) (image : Image)
    (file_name name : List ℕ) (ns : List (List ℕ))
    → IsFlat listing
    → names listing ≡ name ∷ ns
    → 0 < image.size
    → image.size ≤ 0x1_0000_0000
    → Finds
        (name ∷ ns)
        file_name
        (process_dir feof fread fuel block_size garbage parent listing image)
process_dir-Finds feof fread fuel block_size garbage parent listing image file_name name ns flat e p
      q =
    Listed-Finds file_name name ns
      (process_dir feof fread fuel block_size garbage parent listing image)
      (subst (λ l. Listed l (process_dir feof fread fuel block_size garbage parent listing image)) e
        (process_dir-Listed feof fread fuel block_size garbage parent listing image flat p q))
