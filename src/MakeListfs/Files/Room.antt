-- ===== src/MakeListfs/Files/Room.antt =====
-- The disk blocks and the reads that make_listfs/make_listfs.c needs to store a file.
use c4os.Common.{
  ℕ, zero, suc, ◌+◌, ◌-◌, ◌*◌, ◌/◌, ◌≡◌, ◌<◌, ◌≤◌, arith, Bool, true, false, Bool-cases, inl, inr,
  Option, none, some, List, [], ◌∷◌, ◌++◌, ◌>>=◌, length, ◌==◌, ltb, Ensures, Ensures-bind,
}
use c4os.MakeListfs.{alloc_disk_block, is_used}
use c4os.MakeListfs.DiskMap.{Allocates, alloc_disk_block-Allocates}
use c4os.MakeListfs.Files.{
  Content, bytes, numbers, Image, no_block, write_block, take_disk_block, store_blocks,
  store_file_data,
}

-- The blocks in use are the first ones, and at least `k` others are left.
pub record Room (k : ℕ) (image : Image) : Type 0 where
  pub in_use : ℕ
  pub first_ : (j : ℕ) → is_used image.disk_map j ≡ ltb j in_use
  pub left_over : in_use + k ≤ image.size

-- What is left beside a result.
abbrev pub Leaves : {A : Type 0} → ℕ → A × Image → Type 0
Leaves k t = Room k t.1

pub Room-le : (j k : ℕ) {image : Image} → j ≤ k → Room k image → Room j image
Room-le j k h r = record {
  in_use = r.in_use;
  first_ = r.first_;
  left_over = omega (arith, r.left_over, h);
}

pub write_block-Room :
    (k index : ℕ) (content : Content) (image : Image)
    → Room k image
    → Room k (write_block index content image)
unfolding write_block
write_block-Room k index content image r = record {
  in_use = r.in_use;
  first_ = r.first_;
  left_over = r.left_over;
}

found-Room :
    (k : ℕ) (image : Image) (o : Option (Option (ℕ × (ℕ → ℕ))))
    → Room (suc k) image
    → Ensures (Allocates image.size image.disk_map) o
    → Ensures
        (Leaves k)
        (o >>= (λ found. found >>= (λ p. some (p.0, record image { disk_map = p.1 }))))
found-Room k image none r h = absurd h
found-Room k image (some none) r h =
    let u = h r.in_use (omega (arith, r.left_over)) in
    let f = r.first_ r.in_use in absurd (ground (arith, u, f))
found-Room k image (some (some (i, marked))) r h =
    let low : r.in_use ≤ i = ground (arith, h.1, r.first_ i) in
    let high : i ≤ r.in_use = elim (Bool-cases (ltb r.in_use i)) [
      | inl q ↦ absurd (ground (arith, h.2 r.in_use (ground (arith, q)), r.first_ r.in_use))
      | inr q ↦ ground (arith, q)
    ] in
    record {
      in_use = suc r.in_use;
      first_ = λ j. ground (arith, h.3 j, r.first_ j, low, high);
      left_over = omega (arith, r.left_over);
    }

-- An allocation takes one block.
pub take_disk_block-Room :
    (k : ℕ) (image : Image) → Room (suc k) image → Ensures (Leaves k) (take_disk_block image)
unfolding take_disk_block
take_disk_block-Room k image r =
    found-Room k image (alloc_disk_block image.size image.disk_map) r
      (alloc_disk_block-Allocates image.size image.disk_map (omega (arith, r.left_over)))

module _ {F : Type 0} (feof : F → Bool) (fread : F → List ℕ × F) where
  -- At most `n` reads lead to the end of the file.
  abbrev pub Ends : ℕ → F → Type 0
  Ends zero file = feof file ≡ true
  Ends (suc n) file = feof file ≡ false → Ends n (fread file).1

  -- What a list of `m` entries leaves of `n` reads and `k` blocks.
  record BlocksLeft (m n k : ℕ) (file : F) (r : List ℕ × F × Image) : Type 0 where
    reads : ℕ
    reads_left : ℕ
    blocks_left : ℕ
    all_reads : reads + reads_left ≡ n
    all_blocks : reads + blocks_left ≡ k
    ends : Ends reads_left r.1
    room : Room blocks_left r.2
    started : feof file ≡ false → 1 ≤ m → 1 ≤ reads

  -- An entry for which the file is at its end.
  no_read :
      (m n k x : ℕ) (file : F) (b : List ℕ × F × Image)
      → feof file ≡ true
      → BlocksLeft m n k file b
      → BlocksLeft (suc m) n k file (x ∷ b.0, b.1, b.2)
  no_read m n k x file b f l = record {
    reads = l.reads;
    reads_left = l.reads_left;
    blocks_left = l.blocks_left;
    all_reads = l.all_reads;
    all_blocks = l.all_blocks;
    ends = l.ends;
    room = l.room;
    started = λ g q. absurd (cc);
  }

  -- An entry with a read before the others.
  one_read :
      (m n k x : ℕ) (file : F) (b : List ℕ × F × Image)
      → BlocksLeft m n k (fread file).1 b
      → BlocksLeft (suc m) (suc n) (suc k) file (x ∷ b.0, b.1, b.2)
  one_read m n k x file b l = record {
    reads = suc l.reads;
    reads_left = l.reads_left;
    blocks_left = l.blocks_left;
    all_reads = omega (arith, l.all_reads);
    all_blocks = omega (arith, l.all_blocks);
    ends = l.ends;
    room = l.room;
    started = λ g q. omega arith;
  }

  store_blocks-BlocksLeft :
      (m n k : ℕ) (file : F) (image : Image)
      → Ends n file
      → n ≤ k
      → Room k image
      → Ensures (BlocksLeft m n k file) (store_blocks feof fread m file image)
  unfolding store_blocks
  store_blocks-BlocksLeft zero n k file image e h r = record {
    reads = 0;
    reads_left = n;
    blocks_left = k;
    all_reads = omega arith;
    all_blocks = omega arith;
    ends = e;
    room = r;
    started = λ f q. absurd (omega arith);
  }
  store_blocks-BlocksLeft (suc m) zero k file image e h r = rw e (
      Ensures-bind (BlocksLeft m zero k file) (BlocksLeft (suc m) zero k file)
        (store_blocks feof fread m file image) (λ b. some (no_block ∷ b.0, b.1, b.2))
        (store_blocks-BlocksLeft m zero k file image e h r)
        (λ b l. no_read m zero k no_block file b e l))
  store_blocks-BlocksLeft (suc m) (suc n) zero file image e h r = absurd (omega arith)
  store_blocks-BlocksLeft (suc m) (suc n) (suc k) file image e h r = elim (Bool-cases (feof file)) [
    | inl f ↦ rw f (
        Ensures-bind (BlocksLeft m (suc n) (suc k) file) (BlocksLeft (suc m) (suc n) (suc k) file)
          (store_blocks feof fread m file image) (λ b. some (no_block ∷ b.0, b.1, b.2))
          (store_blocks-BlocksLeft m (suc n) (suc k) file image e h r)
          (λ b l. no_read m (suc n) (suc k) no_block file b f l))
    | inr f ↦ elim (Bool-cases (length (fread file).0 == 0)) [
      | inl z ↦
          rw (f, z)
            (Ensures-bind (BlocksLeft m n k (fread file).1)
              (BlocksLeft (suc m) (suc n) (suc k) file)
              (store_blocks feof fread m (fread file).1 image)
              (λ b. some (no_block ∷ b.0, b.1, b.2))
              (store_blocks-BlocksLeft m n k (fread file).1 image (e f) (omega arith)
                (Room-le k (suc k) (omega arith) r))
              (λ b l. one_read m n k no_block file b l))
      | inr z ↦
          rw (f, z)
            (Ensures-bind (Leaves k) (BlocksLeft (suc m) (suc n) (suc k) file)
              (take_disk_block image)
              (λ t.
                store_blocks feof fread m (fread file).1
                  (write_block t.0 (bytes (fread file).0) t.1)
                >>= λ b. some (t.0 ∷ b.0, b.1, b.2))
              (take_disk_block-Room k image r)
              (λ t q.
                Ensures-bind (BlocksLeft m n k (fread file).1)
                  (BlocksLeft (suc m) (suc n) (suc k) file)
                  (store_blocks feof fread m (fread file).1
                    (write_block t.0 (bytes (fread file).0) t.1))
                  (λ b. some (t.0 ∷ b.0, b.1, b.2))
                  (store_blocks-BlocksLeft m n k (fread file).1
                    (write_block t.0 (bytes (fread file).0) t.1) (e f) (omega arith)
                    (write_block-Room k t.0 (bytes (fread file).0) t.1 q))
                  (λ b l. one_read m n k t.0 file b l)))
    ]
  ]

  abbrev pub FileLeaves : ℕ → ℕ × F × Image → Type 0
  FileLeaves k s = Room k s.2

  -- A file whose end is reached in `n` reads, on a disk whose blocks in use are the first ones and of
  -- which 2 * n and `k` more are free, is stored, if a block has room for a number besides the one of the next
  -- list and there are more rounds than reads; at least `k` blocks are then free, behind those in use.
  pub store_file_data-Room :
      (fuel n k block_size : ℕ) (file : F) (image : Image)
      → n < fuel
      → Ends n file
      → 16 ≤ block_size
      → Room (2 * n + k) image
      → Ensures (FileLeaves k) (store_file_data feof fread fuel block_size file image)
  unfolding store_file_data
  store_file_data-Room zero n k block_size file image few e big r = absurd (omega arith)
  store_file_data-Room (suc fuel) zero k block_size file image few e big r =
      rw e (Room-le k (2 * 0 + k) (omega arith) r)
  store_file_data-Room (suc fuel) (suc n) k block_size file image few e big r =
      elim (Bool-cases (feof file)) [
        | inl f ↦ rw f (Room-le k (2 * suc n + k) (omega arith) r)
        | inr f ↦ rw f (
            Ensures-bind (Leaves (2 * n + 1 + k)) (FileLeaves k) (take_disk_block image)
              (λ t. store_blocks feof fread (block_size / 8 - 1) file t.1 >>= λ b.
                store_file_data feof fread fuel block_size b.1 b.2 >>= λ s.
                some (t.0, s.1, write_block t.0 (numbers (b.0 ++ s.0 ∷ [])) s.2))
              (take_disk_block-Room (2 * n + 1 + k) image
                (Room-le (suc (2 * n + 1 + k)) (2 * suc n + k) (omega arith) r))
              (λ t q.
                Ensures-bind (BlocksLeft (block_size / 8 - 1) (suc n) (2 * n + 1 + k) file)
                  (FileLeaves k) (store_blocks feof fread (block_size / 8 - 1) file t.1)
                  (λ b. store_file_data feof fread fuel block_size b.1 b.2 >>= λ s.
                    some (t.0, s.1, write_block t.0 (numbers (b.0 ++ s.0 ∷ [])) s.2))
                  (store_blocks-BlocksLeft (block_size / 8 - 1) (suc n) (2 * n + 1 + k) file t.1 e
                    (omega arith) q)
                  (λ b l.
                    let some_read = l.started f (omega (arith, big)) in
                    Ensures-bind (FileLeaves k) (FileLeaves k)
                      (store_file_data feof fread fuel block_size b.1 b.2)
                      (λ s. some (t.0, s.1, write_block t.0 (numbers (b.0 ++ s.0 ∷ [])) s.2))
                      (store_file_data-Room fuel l.reads_left k block_size b.1 b.2
                        (omega (arith, few, some_read, l.all_reads)) l.ends big
                        (Room-le (2 * l.reads_left + k) l.blocks_left
                          (omega (arith, some_read, l.all_reads, l.all_blocks)) l.room))
                      (λ s m. write_block-Room k t.0 (numbers (b.0 ++ s.0 ∷ [])) s.2 m))))
      ]
