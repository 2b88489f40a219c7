-- ===== src/MakeListfs/Directories/Chained.antt =====
-- The chain of headers that `process_dir` of make_listfs/make_listfs.c leaves for a directory.
use c4os.Common.{
  ℕ, ◌≡◌, ◌≢◌, ◌≤◌, ◌<◌, refl, arith, true, false, Option, none, some, List, [], ◌∷◌, ◌>>=◌, inl,
  inr, Option-cases, ◌∙◌, ap, sym, subst,
}
use c4os.MakeListfs.{is_used}
use c4os.MakeListfs.Files.{
  ListfsFileHeader, Content, header, Image, no_block, write_block, take_disk_block,
}
use c4os.MakeListfs.Files.Kept.{Taken, take_disk_block-Taken, Keeps}
use c4os.MakeListfs.Files.Stored.{write_block-at, write_block-apart}
use c4os.MakeListfs.Directories.{
  Times, Listing, done, dots, directory, closed, regular, unread, other, Walk, cut, new_header,
  begin_file, set_data,
}
use c4os.MakeListfs.Directories.Emptied.{begin_next}

-- A directory without directories that can be opened.
abbrev pub IsFlat : {F : Type 0} → Listing F → Type 0
IsFlat done = Unit
IsFlat (dots rest) = IsFlat rest
IsFlat (directory name times inside rest) = ⊥
IsFlat (closed name times rest) = IsFlat rest
IsFlat (regular name times size file rest) = IsFlat rest
IsFlat (unread name times rest) = IsFlat rest
IsFlat (other name times rest) = IsFlat rest

abbrev pub names : {F : Type 0} → Listing F → List (List ℕ)
names done = []
names (dots rest) = names rest
names (directory name times inside rest) = name ∷ names rest
names (closed name times rest) = name ∷ names rest
names (regular name times size file rest) = name ∷ names rest
names (unread name times rest) = name ∷ names rest
names (other name times rest) = name ∷ names rest

-- From the block on, the disk has a header for each name, linked by `next`.
abbrev pub DiskChain : (ℕ → Content) → ℕ → List (List ℕ) → Type 0
DiskChain disk block [] = block ≡ no_block
DiskChain disk block (name ∷ ns) =
    (block < 0x1_0000_0000)
    × ((h : ListfsFileHeader) × (disk block ≡ header h)
        × (h.name ≡ cut 255 name)
        × DiskChain disk h.next ns)

-- The header that is still to be written has a block of its own.
pub record Ready (w : Walk) (image : Image) : Type 0 where
  pub block : w.prev_file < 0x1_0000_0000
  pub used : is_used image.disk_map w.prev_file ≡ true
  pub ends : w.file_header.next ≡ no_block
  pub room : 0 < image.size
  pub bound : image.size ≤ 0x1_0000_0000

-- What the rest of the loop leaves: that header, linked to those of the names.
abbrev pub Tail : List (List ℕ) → Walk → Image → Option (ℕ × Image) → Type 0
Tail ns w image none = Unit
Tail ns w image (some (first, final)) =
    (first ≡ w.first_file)
    × ((j : ℕ) → is_used image.disk_map j ≡ true → j ≢ w.prev_file → final.disk j ≡ image.disk j)
    × ((h : ListfsFileHeader) × (final.disk w.prev_file ≡ header h)
        × (h.name ≡ w.file_header.name)
        × DiskChain final.disk h.next ns)

-- The state of the loop once a file has its block.
abbrev pub begun : ℕ → ℕ → List ℕ → Times → ℕ → Walk → Walk
begun first parent name times cur w = record {
  prev_file = cur;
  first_file = first;
  file_header = new_header parent w.prev_file name times;
}

-- Work that keeps the blocks in use, and more in the header.
pub Tail-Keeps :
    (ns : List (List ℕ)) (flags size data_ : ℕ) (w : Walk) (image image' : Image)
    (o : Option (ℕ × Image))
    → Keeps image image'
    → Tail ns (set_data flags size data_ w) image' o
    → is_used image.disk_map w.prev_file ≡ true
    → Tail ns w image o
unfolding set_data
Tail-Keeps ns flags size data_ w image image' none k t u = tt
Tail-Keeps ns flags size data_ w image image' (some r) k t u =
    (t.0, λ j v ne. t.1 j (k.used_ j v) ne ∙ k.held j v, t.2)

link :
    (ns : List (List ℕ)) (parent cur : ℕ) (name : List ℕ) (times : Times) (w : Walk)
    (image image1 : Image) (o : Option (ℕ × Image))
    → Ready w image
    → Taken image (some (cur, image1))
    → Tail ns
        (begun w.first_file parent name times cur w)
        (write_block w.prev_file (header (record w.file_header { next = cur })) image1)
        o
    → Tail (name ∷ ns) w image o
unfolding new_header write_block
link ns parent cur name times w image image1 none r t h = tt
link ns parent cur name times w image image1 (some (first, final)) r t h = (
  h.0,
  λ j u ne.
      h.1 j (t.2 j u) (apart j u)
      ∙ write_block-apart w.prev_file j (header (record w.file_header { next = cur })) image1
          (λ e. ne (sym e))
      ∙ ap (λ d. d j) t.4,
  (
    record w.file_header { next = cur },
    h.1 w.prev_file (t.2 w.prev_file r.used) (apart w.prev_file r.used)
        ∙ write_block-at w.prev_file (header (record w.file_header { next = cur })) image1,
    refl,
    (omega (arith, t.5, r.bound), h.2),
  ),
)
  where
    apart : (j : ℕ) → is_used image.disk_map j ≡ true → j ≢ cur
    apart j u e = ground (arith, u, subst (λ n. is_used image.disk_map n ≡ false) (sym e) t.0)

pub begin_none :
    (parent : ℕ) (name : List ℕ) (times : Times) (w : Walk) (image : Image)
    → take_disk_block image ≡ none
    → begin_file parent name times w image ≡ none
unfolding begin_file
begin_none parent name times w image e = rw e refl

-- The new file is ready where the one before it was.
pub begun-Ready :
    (first parent cur : ℕ) (name : List ℕ) (times : Times) (w : Walk) (image image1 : Image)
    → 0 < image.size
    → image.size ≤ 0x1_0000_0000
    → Taken image (some (cur, image1))
    → Ready (begun first parent name times cur w) image1
unfolding new_header
begun-Ready first parent cur name times w image image1 p q t = record {
  block = omega (arith, t.5, q);
  used = t.1;
  ends = refl;
  room = subst (λ n. 0 < n) (sym t.3) p;
  bound = subst (λ n. n ≤ 0x1_0000_0000) (sym t.3) q;
}

written-Ready :
    (p : ℕ) (content : Content) (w : Walk) (image : Image)
    → Ready w image
    → Ready w (write_block p content image)
unfolding write_block
written-Ready p content w image r = record {
  block = r.block;
  used = r.used;
  ends = r.ends;
  room = r.room;
  bound = r.bound;
}

module _ (ns : List (List ℕ)) (parent : ℕ) (name : List ℕ) (times : Times) (w : Walk)
    (image : Image) (k : ℕ × Walk × Image → Option (ℕ × Image)) where
  -- A file behind another.
  pub begin-Tail :
      Ready w image
      → ((cur : ℕ) (image2 : Image)
          → Ready (begun w.first_file parent name times cur w) image2
          → Tail ns
              (begun w.first_file parent name times cur w)
              image2
              (k (cur, begun w.first_file parent name times cur w, image2)))
      → Tail (name ∷ ns) w image (begin_file parent name times w image >>= k)
  begin-Tail r h = elim (Option-cases (take_disk_block image)) [
    | inl e ↦ rw (begin_none parent name times w image e) tt
    | inr ((cur, image1), e) ↦
        let t = subst (Taken image) e (take_disk_block-Taken image r.room) in
        let content = header (record w.file_header { next = cur }) in
        let image2 = write_block w.prev_file content image1 in
        subst (λ o. Tail (name ∷ ns) w image (o >>= k))
          (sym (begin_next parent cur name times w image image1 e (λ z. omega (arith, z, r.block))))
          (link ns parent cur name times w image image1
            (k (cur, begun w.first_file parent name times cur w, image2)) r t
            (h cur image2 (
              written-Ready w.prev_file content (begun w.first_file parent name times cur w) image1
                (begun-Ready w.first_file parent cur name times w image image1 r.room r.bound t))))
  ]
