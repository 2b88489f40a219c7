-- ===== src/MakeListfs/Files/Stored.antt =====
-- A file of one block, stored by make_listfs/make_listfs.c and read by src/kernel/kernel.c.
use c4os.Common.{
  ℕ, zero, suc, ◌-◌, ◌/◌, ◌≡◌, ◌≢◌, ◌<◌, ◌⊎◌, refl, arith, Bool, true, false, inl, inr, some, List,
  [], ◌∷◌, ◌++◌, u32, length, replicate, ==_self, ==_ne, ◌∙◌, ap, sym, subst,
}
use c4os.Kernel.Files.{FileHeader, get_file_data_pointer}
use c4os.Kernel.Files.Chain.{get_file_data_pointer-last_word}
use c4os.MakeListfs.{is_used}
use c4os.MakeListfs.Files.Kept.{Taken, take_disk_block-Taken}
use c4os.MakeListfs.Files.{
  Content, bytes, numbers, header, Image, no_block, write_block, take_disk_block, store_blocks,
  store_file_data,
}

-- Two blocks taken one after the other are not the same.
taken_apart :
    (image image1 image2 : Image) (l i : ℕ)
    → 0 < image.size
    → take_disk_block image ≡ some (l, image1)
    → take_disk_block image1 ≡ some (i, image2)
    → l ≢ i
taken_apart image image1 image2 l i h a b =
    let (free1, used1, keep1, size1, disk1, below1) =
      subst (Taken image) a (take_disk_block-Taken image h) in
    let (free2, used2, keep2, size2, disk2, below2) =
      subst (Taken image1) b (take_disk_block-Taken image1 (subst (λ n. 0 < n) (sym size1) h)) in
    λ e. ground (arith, used1, subst (λ j. is_used image1.disk_map j ≡ false) (sym e) free2)

pub write_block-at :
    (index : ℕ) (content : Content) (image : Image)
    → (write_block index content image).disk index ≡ content
unfolding write_block
write_block-at index content image = rw (==_self index) refl

pub write_block-apart :
    (index j : ℕ) (content : Content) (image : Image)
    → index ≢ j
    → (write_block index content image).disk j ≡ image.disk j
unfolding write_block
write_block-apart index j content image ne = rw (==_ne j index (λ e. ne (sym e))) refl

-- The numbers that a reader finds in a block; past its end, or in another block, none.
abbrev pub word_of : Content → ℕ → ℕ
word_of (bytes b) k = no_block
word_of (header h) k = no_block
word_of (numbers []) k = no_block
word_of (numbers (w ∷ ws)) zero = w
word_of (numbers (w ∷ ws)) (suc k) = word_of (numbers ws) k

-- Where the stored file ends up.
abbrev pub after : ℕ → ℕ → List ℕ → Image → Image
after l i block image2 =
    write_block l (numbers (i ∷ replicate 63 no_block)) (write_block i (bytes block) image2)

module _ {F : Type 0} (feof : F → Bool) (fread : F → List ℕ × F) where
  -- No byte is left: the end has been met, or the next read meets it.
  abbrev pub IsDrained : F → Type 0
  IsDrained f =
      (feof f ≡ true) ⊎ ((feof f ≡ false) × ((fread f).0 ≡ []) × (feof (fread f).1 ≡ true))

  at_end-store_blocks :
      (n : ℕ) (f : F) (image : Image)
      → feof f ≡ true
      → store_blocks feof fread n f image ≡ some (replicate n no_block, f, image)
  unfolding store_blocks
  at_end-store_blocks zero f image e = refl
  at_end-store_blocks (suc n) f image e = rw (e, at_end-store_blocks n f image e)

  IsDrained-store_blocks :
      (n : ℕ) (f : F) (image : Image)
      → IsDrained f
      → (g : F) × (feof g ≡ true)
        × (store_blocks feof fread (suc n) f image ≡ some (replicate (suc n) no_block, g, image))
  IsDrained-store_blocks n f image (inl e) = (f, e, at_end-store_blocks (suc n) f image e)
  IsDrained-store_blocks n f image (inr (e, r, d)) =
      ((fread f).1, d, unfold store_blocks in rw (e, r, at_end-store_blocks n (fread f).1 image d))

  -- The file holds one block of data.
  pub record IsOneBlock (f : F) (block : List ℕ) : Type 0 where
    pub open_ : feof f ≡ false
    pub read_ : (fread f).0 ≡ block
    pub full : length block ≢ 0
    pub drained : IsDrained (fread f).1

  IsOneBlock-store_blocks :
      (n : ℕ) (f : F) (block : List ℕ) (image image2 : Image) (i : ℕ)
      → IsOneBlock f block
      → take_disk_block image ≡ some (i, image2)
      → (g : F) × (feof g ≡ true)
        × (store_blocks feof fread (suc (suc n)) f image
            ≡ some (i ∷ replicate (suc n) no_block, g, write_block i (bytes block) image2))
  IsOneBlock-store_blocks n f block image image2 i h t =
      let (g, e, s) =
        IsDrained-store_blocks n (fread f).1 (write_block i (bytes block) image2) h.drained in
      (g, e, unfold store_blocks in rw (h.open_, h.read_, ==_ne (length block) 0 h.full, t, s) refl)

  -- The list after which no byte is left ends with no block.
  last_list :
      (fuel block_size : ℕ) (f g : F) (image image1 image2 : Image) (l : ℕ) (block_list : List ℕ)
      → feof f ≡ false
      → take_disk_block image ≡ some (l, image1)
      → store_blocks feof fread (block_size / 8 - 1) f image1 ≡ some (block_list, g, image2)
      → feof g ≡ true
      → store_file_data feof fread (suc (suc fuel)) block_size f image
        ≡ some (l, g, write_block l (numbers (block_list ++ no_block ∷ [])) image2)
  unfolding store_file_data
  last_list fuel block_size f g image image1 image2 l block_list o a s e = rw (o, a, s, e) refl

  IsOneBlock-store_file_data :
      (fuel : ℕ) (f : F) (block : List ℕ) (image image1 image2 : Image) (l i : ℕ)
      → IsOneBlock f block
      → take_disk_block image ≡ some (l, image1)
      → take_disk_block image1 ≡ some (i, image2)
      → (g : F) × (store_file_data feof fread (suc (suc fuel)) 512 f image
          ≡ some (l, g, after l i block image2))
  IsOneBlock-store_file_data fuel f block image image1 image2 l i h a b =
      let (g, e, s) = IsOneBlock-store_blocks 61 f block image1 image2 i h b in
      (
        g,
        last_list fuel 512 f g image image1 (write_block i (bytes block) image2) l
            (i ∷ replicate 62 no_block) h.open_ a s e,
      )

  -- A file of one block, stored in a disk whose map gives the blocks `l` and then `i`: the result is
  -- `l`, block `i` holds the data, and `get_file_data_pointer` of the kernel, called with `l` on what
  -- the disk then holds, finds `i`, in 32 bits. A block number is below 2 ^ 64 - 1.
  pub store_file_data-get_file_data_pointer :
      (fuel : ℕ) (f : F) (block : List ℕ) (image image1 image2 : Image) (l i : ℕ)
      (header_at : ℕ → FileHeader)
      → IsOneBlock f block
      → 0 < image.size
      → take_disk_block image ≡ some (l, image1)
      → take_disk_block image1 ≡ some (i, image2)
      → i < no_block
      → (g : F) × (final : Image) × (store_file_data feof fread (suc (suc fuel)) 512 f image
          ≡ some (l, g, final))
        × (final.disk i ≡ bytes block)
        × (get_file_data_pointer header_at (λ s. word_of (final.disk s)) l ≡ some (u32 i))
  store_file_data-get_file_data_pointer fuel f block image image1 image2 l i header_at h p a b q =
      let (g, s) = IsOneBlock-store_file_data fuel f block image image1 image2 l i h a b in
      let apart = taken_apart image image1 image2 l i p a b in
      let at_l = write_block-at l list (write_block i (bytes block) image2) in
      (
        g,
        after l i block image2,
        s,
        write_block-apart l i list (write_block i (bytes block) image2) apart
            ∙ write_block-at i (bytes block) image2,
        pointer (λ k. ap (λ c. word_of c k) at_l),
      )
    where
      list : Content
      list = numbers (i ∷ replicate 63 no_block)

      w : ℕ → ℕ → ℕ
      w s = word_of ((after l i block image2).disk s)

      pointer :
          ((k : ℕ) → w l k ≡ word_of list k) → get_file_data_pointer header_at w l ≡ some (u32 i)
      pointer e =
          get_file_data_pointer-last_word header_at w l (i ∷ []) (omega arith)
            (e 0, λ z. omega (arith, q, z), e 1)
