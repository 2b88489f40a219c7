-- ===== src/MakeListfs/Header/Loaded.antt =====
-- The boot loader in the image of make_listfs/make_listfs.c, and the map of the blocks.
use c4os.Common.{
  ℕ, zero, suc, ◌+◌, ◌<◌, ◌≡◌, refl, arith, Bool, true, false, Option, some, List, [], ◌∷◌,
  replicate, ap, ◌∙◌, length,
}
use c4os.MakeListfs.Files.{Content, bytes, Image, write_block}
use c4os.MakeListfs.Options.{Options}
use c4os.MakeListfs.Files.Stored.{write_block-at, write_block-apart}
use c4os.MakeListfs.Header.{overlay, boot_loop, load_boot}

-- What the buffer holds after each read.
abbrev pub buffers : List ℕ → List (List ℕ) → List (List ℕ)
buffers buffer [] = []
buffers buffer (b ∷ bs) = overlay b buffer ∷ buffers (overlay b buffer) bs

-- From block `i` on the disk holds the blocks.
abbrev pub Blocks : (ℕ → Content) → ℕ → List (List ℕ) → Type 0
Blocks disk i [] = Unit
Blocks disk i (b ∷ bs) = (disk i ≡ bytes b) × Blocks disk (i + 1) bs

abbrev pub last_of : List ℕ → List (List ℕ) → List ℕ
last_of b [] = b
last_of b (c ∷ bs) = last_of c bs

module _ {F : Type 0} (feof : F → Bool) (fread : F → List ℕ × F) where
  -- What the reads of a file give, up to its end.
  abbrev pub Gives : F → List (List ℕ) → Type 0
  Gives file [] = feof file ≡ true
  Gives file (b ∷ bs) = (feof file ≡ false) × ((fread file).0 ≡ b) × Gives (fread file).1 bs

  -- What the loop leaves.
  abbrev Loads : ℕ → ℕ → List (List ℕ) → Image → Option (ℕ × Image) → Type 0
  Loads i extra bs image o =
      (final : Image) × (o ≡ some (extra, final))
      × Blocks final.disk i bs
      × ((j : ℕ) → j < i → final.disk j ≡ image.disk j)

  boot_loop-Loads :
      (n i extra : ℕ) (buffer : List ℕ) (file : F) (bs : List (List ℕ)) (image : Image)
      → length bs < n
      → Gives file bs
      → Loads i
          (extra + length bs)
          (buffers buffer bs)
          image
          (boot_loop feof fread n i extra buffer file image)
  unfolding boot_loop
  boot_loop-Loads zero i extra buffer file bs image few g = absurd (omega arith)
  boot_loop-Loads (suc n) i extra buffer file [] image few g =
      (image, rw g (ap (λ k. some (k, image)) (omega arith)), tt, λ j h. refl)
  boot_loop-Loads (suc n) i extra buffer file (b ∷ bs) image few g =
      let block = overlay b buffer in
      let next = write_block i (bytes block) image in
      let (final, e, at, kept) =
        boot_loop-Loads n (i + 1) (extra + 1) block (fread file).1 bs next (omega (arith, few))
          g.2 in
      (
        final,
        rw (g.0, g.1) (e ∙ ap (λ k. some (k, final)) (omega arith)),
        (kept i (omega arith) ∙ write_block-at i (bytes block) image, at),
        λ j h.
            kept j (omega arith)
            ∙ write_block-apart i j (bytes block) image (λ q. omega (arith, h, q)),
      )

  -- A boot loader whose first read gives `first`, and the others, up to the end of the file, `bs`: the
  -- first block is in the header's, the number of extra blocks is that of the other reads, and
  -- the blocks from 1 on are what the buffer holds after each. More rounds than reads are enough.
  pub load_boot-Loads :
      (fuel block_size : ℕ) (file : F) (first : List ℕ) (bs : List (List ℕ)) (image : Image)
      → (fread file).0 ≡ first
      → Gives (fread file).1 bs
      → length bs < fuel
      → (final : Image) × (load_boot feof fread fuel block_size (some file) image
          ≡ some (overlay first (replicate block_size 0), length bs, final))
        × Blocks final.disk 1 (buffers (replicate block_size 0) bs)
        × (final.disk 0 ≡ image.disk 0)
  unfolding load_boot
  load_boot-Loads fuel block_size file first bs image f g few =
      let (final, e, at, kept) =
        boot_loop-Loads fuel 1 0 (replicate block_size 0) (fread file).1 bs image few g in
      (
        final,
        rw (f, e) (ap (λ k. some (overlay first (replicate block_size 0), k, final)) (omega arith)),
        at,
        kept 0 (omega arith),
      )
