-- ===== src/MakeListfs/Files/Kept.antt =====
-- What make_listfs/make_listfs.c leaves as it is when it stores a file: the blocks in use.
use c4os.Common.{
  ℕ, zero, suc, ◌-◌, ◌/◌, ◌+◌, ◌*◌, ◌≡◌, ◌≤◌, ◌<◌, refl, arith, Bool, true, false, Bool-cases, inl,
  inr, Option, none, some, List, [], ◌∷◌, ◌++◌, if◌then◌else◌, ◌>>=◌, length, ◌==◌, ==_self, ◌∙◌,
  ap, sym, subst, Ensures, ==→eq,
}
use c4os.MakeListfs.{alloc_disk_block, is_used}
use c4os.MakeListfs.DiskMap.{Allocates, alloc_disk_block-Allocates}
use c4os.MakeListfs.Files.Room.{Room, Ends, FileLeaves, store_file_data-Room}
use c4os.MakeListfs.Files.{
  Content, bytes, numbers, Image, no_block, write_block, take_disk_block, store_blocks,
  store_file_data,
}

-- The block taken was free, and is in use; nothing else has changed.
abbrev pub Taken : Image → Option (ℕ × Image) → Type 0
Taken image none = Unit
Taken image (some (i, image1)) =
    (is_used image.disk_map i ≡ false)
    × (is_used image1.disk_map i ≡ true)
    × ((j : ℕ) → is_used image.disk_map j ≡ true → is_used image1.disk_map j ≡ true)
    × (image1.size ≡ image.size)
    × (image1.disk ≡ image.disk)
    × (i < image.size)

stays_used : (i j : ℕ) {b c : Bool} → b ≡ (if j == i then true else c) → c ≡ true → b ≡ true
stays_used i j e u = ground (arith, e, u)

found-Taken :
    (image : Image) (o : Option (Option (ℕ × (ℕ → ℕ))))
    → Ensures (Allocates image.size image.disk_map) o
    → Taken image (o >>= (λ found. found >>= (λ p. some (p.0, record image { disk_map = p.1 }))))
found-Taken image none h = tt
found-Taken image (some none) h = tt
found-Taken image (some (some (i, marked))) h =
    (h.1, rw (h.3 i, ==_self i) refl, λ j u. stays_used i j (h.3 j) u, refl, refl, h.0)

pub take_disk_block-Taken : (image : Image) → 0 < image.size → Taken image (take_disk_block image)
unfolding take_disk_block
take_disk_block-Taken image h =
    found-Taken image (alloc_disk_block image.size image.disk_map)
      (alloc_disk_block-Allocates image.size image.disk_map h)

-- The blocks in use stay in use and hold what they held.
pub record Keeps (a b : Image) : Type 0 where
  pub size_ : b.size ≡ a.size
  pub used_ : (j : ℕ) → is_used a.disk_map j ≡ true → is_used b.disk_map j ≡ true
  pub held : (j : ℕ) → is_used a.disk_map j ≡ true → b.disk j ≡ a.disk j

pub Keeps-refl : (a : Image) → Keeps a a
Keeps-refl a = record { size_ = refl; used_ = λ j u. u; held = λ j u. refl }

Keeps-trans : {a b c : Image} → Keeps a b → Keeps b c → Keeps a c
Keeps-trans h k = record {
  size_ = k.size_ ∙ h.size_;
  used_ = λ j u. k.used_ j (h.used_ j u);
  held = λ j u. k.held j (h.used_ j u) ∙ h.held j u;
}

Taken-Keeps : (a b : Image) (i : ℕ) → Taken a (some (i, b)) → Keeps a b
Taken-Keeps a b i (free, used, keep, size, disk, below) = record {
  size_ = size;
  used_ = keep;
  held = λ j u. ap (λ d. d j) disk;
}

-- A write to a block that was free.
write_block-Keeps :
    {a b : Image} (i : ℕ) (content : Content)
    → is_used a.disk_map i ≡ false
    → Keeps a b
    → Keeps a (write_block i content b)
unfolding write_block
write_block-Keeps {a} {b} i content free h = record {
  size_ = h.size_;
  used_ = h.used_;
  held = λ j u. elim (Bool-cases (j == i)) [
    | inl e ↦
        absurd
          (ground (arith, u, subst (λ n. is_used a.disk_map n ≡ false) (sym (==→eq j i e)) free))
    | inr e ↦ rw e (h.held j u)
  ];
}

module _ {F X : Type 0} where
  -- What a run that does not end early keeps.
  abbrev pub KeepsIn : Image → Option (X × F × Image) → Type 0
  KeepsIn a none = Unit
  KeepsIn a (some (x, f, b)) = Keeps a b

KeepsIn-bind :
    {F X Y : Type 0} (a b : Image) (o : Option (X × F × Image))
    (k : X × F × Image → Option (Y × F × Image))
    → Keeps a b
    → KeepsIn b o
    → ((x : X) (f : F) (c : Image) → Keeps a c → KeepsIn a (k (x, f, c)))
    → KeepsIn a (o >>= k)
KeepsIn-bind a b none k h g n = tt
KeepsIn-bind a b (some (x, f, c)) k h g n = n x f c (Keeps-trans h g)

KeepsIn-take :
    {F Y : Type 0} (a : Image) (k : ℕ × Image → Option (Y × F × Image))
    → 0 < a.size
    → ((i : ℕ) (b : Image) → Taken a (some (i, b)) → KeepsIn a (k (i, b)))
    → KeepsIn a (take_disk_block a >>= k)
KeepsIn-take {F} {Y} a k p n = from (take_disk_block a) (take_disk_block-Taken a p)
  where
    from : (o : Option (ℕ × Image)) → Taken a o → KeepsIn a (o >>= k)
    from none t = tt
    from (some (i, b)) t = n i b t

-- A block is taken and written, and what follows keeps the blocks in use.
KeepsIn-put :
    {F X Y : Type 0} (a : Image) (content : Content) (next : Image → Option (X × F × Image))
    (k : ℕ → X × F × Image → Option (Y × F × Image))
    → 0 < a.size
    → ((b : Image) → 0 < b.size → KeepsIn b (next b))
    → ((i : ℕ) (x : X) (f : F) (c : Image)
        → is_used a.disk_map i ≡ false
        → Keeps a c
        → KeepsIn a (k i (x, f, c)))
    → KeepsIn a (take_disk_block a >>= (λ t. next (write_block t.0 content t.1) >>= k t.0))
unfolding write_block
KeepsIn-put a content next k p ih n =
    KeepsIn-take a (λ t. next (write_block t.0 content t.1) >>= k t.0) p
      (λ i b t.
        KeepsIn-bind a (write_block i content b) (next (write_block i content b)) (k i)
          (write_block-Keeps i content t.0 (Taken-Keeps a b i t))
          (ih (write_block i content b) (subst (λ m. 0 < m) (sym t.3) p))
          (λ x f c h. n i x f c t.0 h))

module _ {F : Type 0} (feof : F → Bool) (fread : F → List ℕ × F) where
  store_blocks-KeepsIn :
      (n : ℕ) (f : F) (a : Image) → 0 < a.size → KeepsIn a (store_blocks feof fread n f a)
  unfolding store_blocks
  store_blocks-KeepsIn zero f a p = Keeps-refl a
  store_blocks-KeepsIn (suc n) f a p =
      let skip = λ (g : F).
        KeepsIn-bind a a (store_blocks feof fread n g a) (λ r. some (no_block ∷ r.0, r.1, r.2))
          (Keeps-refl a) (store_blocks-KeepsIn n g a p) (λ x g2 c h. h) in
      let put =
        KeepsIn-put a (bytes (fread f).0) (store_blocks feof fread n (fread f).1)
          (λ i r. some (i ∷ r.0, r.1, r.2)) p (λ b q. store_blocks-KeepsIn n (fread f).1 b q)
          (λ i x g c free h. h) in
      elim (Bool-cases (feof f)) [
        | inl e ↦ rw e (skip f)
        | inr e ↦ rw e (elim (Bool-cases (length (fread f).0 == 0)) [
          | inl z ↦ rw z (skip (fread f).1)
          | inr z ↦ rw z put
        ])
      ]

  pub store_file_data-KeepsIn :
      (fuel block_size : ℕ) (f : F) (a : Image)
      → 0 < a.size
      → KeepsIn a (store_file_data feof fread fuel block_size f a)
  unfolding store_file_data
  store_file_data-KeepsIn zero block_size f a p = tt
  store_file_data-KeepsIn (suc fuel) block_size f a p = elim (Bool-cases (feof f)) [
    | inl e ↦ rw e (Keeps-refl a)
    | inr e ↦ rw e (
        KeepsIn-take a (λ t. store_blocks feof fread (block_size / 8 - 1) f t.1 >>= then_next t.0) p
          (λ l b t.
            KeepsIn-bind a b (store_blocks feof fread (block_size / 8 - 1) f b) (then_next l)
              (Taken-Keeps a b l t)
              (store_blocks-KeepsIn (block_size / 8 - 1) f b (subst (λ m. 0 < m) (sym t.3) p))
              (λ x g c h.
                KeepsIn-bind a c (store_file_data feof fread fuel block_size g c) (finish l x) h
                  (store_file_data-KeepsIn fuel block_size g c (subst (λ m. 0 < m) (sym h.size_) p))
                  (λ y g2 d h2. write_block-Keeps l (numbers (x ++ y ∷ [])) t.0 h2))))
  ]
    where
      finish : ℕ → List ℕ → ℕ × F × Image → Option (ℕ × F × Image)
      finish l x n = some (l, n.1, write_block l (numbers (x ++ n.0 ∷ [])) n.2)

      then_next : ℕ → List ℕ × F × Image → Option (ℕ × F × Image)
      then_next l b = store_file_data feof fread fuel block_size b.1 b.2 >>= finish l b.0

  returned_Keeps :
      (k : ℕ) (a : Image) (o : Option (ℕ × F × Image))
      → Ensures (FileLeaves feof fread k) o
      → KeepsIn a o
      → Ensures (λ r. Keeps a r.2 × Room k r.2) o
  returned_Keeps k a none h g = absurd h
  returned_Keeps k a (some (x, f, b)) h g = (g, h)

  -- On a disk whose blocks in use are the first ones, and of which 2 * n and `k` more are free, a file
  -- whose end is reached in `n` reads is stored, if a block has room for two numbers and there are more
  -- rounds than reads: every block that was in use before holds what it held and stays in use,
  -- and at least `k` blocks are free afterwards.
  pub store_file_data-Keeps :
      (fuel n k block_size : ℕ) (f : F) (a : Image)
      → n < fuel
      → Ends feof fread n f
      → 16 ≤ block_size
      → Room (2 * n + k) a
      → 0 < a.size
      → Ensures (λ r. Keeps a r.2 × Room k r.2) (store_file_data feof fread fuel block_size f a)
  store_file_data-Keeps fuel n k block_size f a few e big r p =
      returned_Keeps k a (store_file_data feof fread fuel block_size f a)
        (store_file_data-Room feof fread fuel n k block_size f a few e big r)
        (store_file_data-KeepsIn fuel block_size f a p)
