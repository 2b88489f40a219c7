-- ===== src/MakeListfs/Directories/Listed.antt =====
-- The loop of `process_dir` of make_listfs/make_listfs.c over a directory of files.
use c4os.Common.{
  ℕ, ◌≤◌, ◌<◌, refl, arith, Bool, Option, none, some, List, [], ◌∷◌, ◌>>=◌, inl, inr, Option-cases,
  sym, subst, ==_ne,
}
use c4os.MakeListfs.Files.{
  ListfsFileHeader, header, Image, no_block, take_disk_block, store_file_data,
}
use c4os.MakeListfs.Files.Kept.{
  Taken, take_disk_block-Taken, Keeps, KeepsIn, store_file_data-KeepsIn, Keeps-refl,
}
use c4os.MakeListfs.Files.Stored.{write_block-at, write_block-apart}
use c4os.MakeListfs.Directories.{
  Times, Listing, done, dots, directory, closed, regular, unread, other, Walk, new_header,
  begin_file, set_data, write_last, walk_start, walk, process_dir,
}
use c4os.MakeListfs.Directories.Emptied.{begin_first}
use c4os.MakeListfs.Directories.Chained.{
  IsFlat, names, DiskChain, Ready, Tail, begun, Tail-Keeps, begun-Ready, begin-Tail, begin_none,
}

-- The last header is written.
write_last-Tail :
    (w : Walk) (image : Image)
    → Ready w image
    → Tail [] w image (some (w.first_file, write_last w image))
unfolding write_last
write_last-Tail w image r = rw (==_ne w.prev_file no_block (λ e. omega (arith, e, r.block))) (
  refl,
  λ j u ne. write_block-apart w.prev_file j (header w.file_header) image (λ e. ne (sym e)),
  (w.file_header, write_block-at w.prev_file (header w.file_header) image, refl, r.ends),
)

set_data-Ready :
    (flags size data_ : ℕ) (w : Walk) (image image' : Image)
    → Keeps image image'
    → Ready w image
    → Ready (set_data flags size data_ w) image'
unfolding set_data
set_data-Ready flags size data_ w image image' k r = record {
  block = r.block;
  used = k.used_ w.prev_file r.used;
  ends = r.ends;
  room = subst (λ n. 0 < n) (sym k.size_) r.room;
  bound = subst (λ n. n ≤ 0x1_0000_0000) (sym k.size_) r.bound;
}

module _ {F : Type 0} (feof : F → Bool) (fread : F → List ℕ × F) (fuel block_size : ℕ)
    (garbage : ListfsFileHeader) (parent : ℕ) where
  -- What the loop leaves of a listing, from any state.
  abbrev Leaves : Listing F → Type 0
  Leaves listing =
      (w : Walk) (image : Image)
      → Ready w image
      → Tail (names listing) w image
          (walk feof fread fuel block_size garbage parent listing w image)

  -- The header is completed, and the loop goes on.
  plain-Tail :
      (rest : Listing F) (flags size data_ : ℕ) (w : Walk) (image image' : Image)
      → Leaves rest
      → Keeps image image'
      → Ready w image
      → Tail
          (names rest)
          w
          image
          (walk feof fread fuel block_size garbage parent rest (set_data flags size data_ w) image')
  plain-Tail rest flags size data_ w image image' ih k r =
      Tail-Keeps (names rest) flags size data_ w image image' _ k
        (ih (set_data flags size data_ w) image'
          (set_data-Ready flags size data_ w image image' k r))
        r.used

  regular-Tail :
      (rest : Listing F) (size : ℕ) (w : Walk) (image : Image) (o : Option (ℕ × F × Image))
      → Leaves rest
      → KeepsIn image o
      → Ready w image
      → Tail (names rest) w image (
          o >>= (λ d.
            walk feof fread fuel block_size garbage parent rest (set_data 0 size d.0 w) d.2))
  regular-Tail rest size w image none ih k r = tt
  regular-Tail rest size w image (some (d, f, image')) ih k r =
      plain-Tail rest 0 size d w image image' ih k r

  walk-Leaves : (listing : Listing F) → IsFlat listing → Leaves listing
  unfolding walk
  walk-Leaves done flat w image r = write_last-Tail w image r
  walk-Leaves (dots rest) flat w image r = walk-Leaves rest flat w image r
  walk-Leaves (directory name times inside rest) flat w image r = absurd flat
  walk-Leaves (closed name times rest) flat w image r =
      begin-Tail (names rest) parent name times w image _ r (λ cur image2 r2.
        plain-Tail rest 1 0 no_block _ image2 image2 (walk-Leaves rest flat) (Keeps-refl image2) r2)
  walk-Leaves (regular name times size file rest) flat w image r =
      begin-Tail (names rest) parent name times w image _ r (λ cur image2 r2.
        regular-Tail rest size _ image2 (store_file_data feof fread fuel block_size file image2)
          (walk-Leaves rest flat)
          (store_file_data-KeepsIn feof fread fuel block_size file image2 r2.room) r2)
  walk-Leaves (unread name times rest) flat w image r =
      begin-Tail (names rest) parent name times w image _ r (λ cur image2 r2.
        plain-Tail rest 0 0 no_block _ image2 image2 (walk-Leaves rest flat) (Keeps-refl image2) r2)
  walk-Leaves (other name times rest) flat w image r =
      begin-Tail (names rest) parent name times w image _ r
        (λ cur image2 r2. walk-Leaves rest flat _ image2 r2)

-- The chain of a whole directory, if the disk had room for it.
abbrev pub Listed : List (List ℕ) → Option (ℕ × Image) → Type 0
Listed ns none = Unit
Listed ns (some (first, final)) = DiskChain final.disk first ns

abbrev start : ListfsFileHeader → Walk
start garbage = record { prev_file = no_block; first_file = no_block; file_header = garbage }

module _ (ns : List (List ℕ)) (parent : ℕ) (name : List ℕ) (times : Times)
    (garbage : ListfsFileHeader) where
  Tail-Listed :
      (cur : ℕ) (image : Image) (o : Option (ℕ × Image))
      → Ready (begun cur parent name times cur (start garbage)) image
      → Tail ns (begun cur parent name times cur (start garbage)) image o
      → Listed (name ∷ ns) o
  unfolding new_header
  Tail-Listed cur image none r t = tt
  Tail-Listed cur image (some (first, final)) r (e, keeps, (h, at, named, chain)) =
      subst (λ b. DiskChain final.disk b (name ∷ ns)) (sym e) (r.block, (h, at, named, chain))

  -- The first file of the directory.
  begin-Listed :
      (image : Image) (k : ℕ × Walk × Image → Option (ℕ × Image))
      → 0 < image.size
      → image.size ≤ 0x1_0000_0000
      → ((cur : ℕ) (image1 : Image)
          → Ready (begun cur parent name times cur (start garbage)) image1
          → Tail ns
              (begun cur parent name times cur (start garbage))
              image1
              (k (cur, begun cur parent name times cur (start garbage), image1)))
      → Listed (name ∷ ns) (begin_file parent name times (start garbage) image >>= k)
  begin-Listed image k p q h = elim (Option-cases (take_disk_block image)) [
    | inl e ↦ rw (begin_none parent name times (start garbage) image e) tt
    | inr ((cur, image1), e) ↦
        let t = subst (Taken image) e (take_disk_block-Taken image p) in
        let r = begun-Ready cur parent cur name times (start garbage) image image1 p q t in
        let w = begun cur parent name times cur (start garbage) in
        subst (λ o. Listed (name ∷ ns) (o >>= k))
          (sym (begin_first parent cur name times garbage image image1 e))
          (Tail-Listed cur image1 (k (cur, w, image1)) r (h cur image1 r))
  ]

module _ {F : Type 0} (feof : F → Bool) (fread : F → List ℕ × F) (fuel block_size : ℕ)
    (garbage : ListfsFileHeader) where
  -- For a directory of files, `process_dir` leaves on the disk, from the block on that it returns, a
  -- header for each entry but . and .., in their order, with its name of at most 255 characters: each
  -- names the block of the next, and the last names none. The disk has blocks, and at most 2 ^ 32;
  -- of a run that ends early, by a full disk or by the fuel, nothing is said.
  pub process_dir-Listed :
      (parent : ℕ) (listing : Listing F) (image : Image)
      → IsFlat listing
      → 0 < image.size
      → image.size ≤ 0x1_0000_0000
      → Listed (names listing) (process_dir feof fread fuel block_size garbage parent listing image)
  unfolding process_dir walk walk_start
  process_dir-Listed parent done image flat p q = refl
  process_dir-Listed parent (dots rest) image flat p q =
      process_dir-Listed parent rest image flat p q
  process_dir-Listed parent (directory name times inside rest) image flat p q = absurd flat
  process_dir-Listed parent (closed name times rest) image flat p q =
      begin-Listed (names rest) parent name times garbage image _ p q (λ cur image1 r.
        plain-Tail feof fread fuel block_size garbage parent rest 1 0 no_block _ image1 image1
          (walk-Leaves feof fread fuel block_size garbage parent rest flat) (Keeps-refl image1) r)
  process_dir-Listed parent (regular name times size file rest) image flat p q =
      begin-Listed (names rest) parent name times garbage image _ p q (λ cur image1 r.
        regular-Tail feof fread fuel block_size garbage parent rest size _ image1
          (store_file_data feof fread fuel block_size file image1)
          (walk-Leaves feof fread fuel block_size garbage parent rest flat)
          (store_file_data-KeepsIn feof fread fuel block_size file image1 r.room) r)
  process_dir-Listed parent (unread name times rest) image flat p q =
      begin-Listed (names rest) parent name times garbage image _ p q (λ cur image1 r.
        plain-Tail feof fread fuel block_size garbage parent rest 0 0 no_block _ image1 image1
          (walk-Leaves feof fread fuel block_size garbage parent rest flat) (Keeps-refl image1) r)
  process_dir-Listed parent (other name times rest) image flat p q =
      begin-Listed (names rest) parent name times garbage image _ p q
        (λ cur image1 r. walk-Leaves feof fread fuel block_size garbage parent rest flat _ image1 r)
