-- ===== src/Memory/Phys/Freed.antt =====
-- The pages that `free_phys_pages` of src/kernel/memory_manager.c adds to the list of free blocks.
use c4os.Common.{
  ℕ, ◌+◌, ◌*◌, ◌<◌, ◌≤◌, ◌≡◌, ◌≢◌, refl, arith, some, [], ◌∷◌, ◌++◌, Ensures, Ensures-bind,
  minus_one, length, ltb, ◌==◌, ==_ne, false, true, ◌>>=◌,
}
use c4os.Ring.Links.{head_or}
use c4os.Memory.Window.{Machine, window_at}
use c4os.Memory.Phys.{free_scan, free_phys_pages, lower_pointer, release, max_blocks, first_block}
use c4os.Memory.Phys.Blocks.{
  Blocks, addresses, total, IsBlock, IsBlockRing, IsFreeList, total-append, length-le-total,
  AreBlocks-of_append,
}
use c4os.Memory.Phys.Alloc.{at-IsBlock, at_next}
use c4os.Memory.Phys.Free.{Extended, Below, extend_here, free_scan-all}
use c4os.Memory.Phys.Refine.{locked, IsBlockRing-locked, IsBlockRing-release}

-- The pages end below the next block.
abbrev pub EndsBelow : ℕ → Blocks → Type 0
EndsBelow e [] = Unit
EndsBelow e ((b, t) ∷ vs) = e < b

module _ (count a s : ℕ) (vs : Blocks) (top : a + (s + count) * 0x1000 < 0x1_0000_0000) where
  -- The first block of the list is not above `a`.
  pointer_low :
      (us : Blocks) (m : Machine)
      → IsBlockRing m (us ++ (a, s) ∷ vs)
      → Below a us
      → m.free_phys_memory_pointer ≤ a
  pointer_low [] m ring low = omega (arith, ring.links.0)
  pointer_low ((x, t) ∷ us) m ring low = omega (arith, ring.links.0, low.0)

  next_apart :
      (us : Blocks) (m : Machine)
      → IsBlockRing m (us ++ (a, s) ∷ vs)
      → Below a us
      → EndsBelow (a + (s + count) * 0x1000) vs
      → m.word 0 a ≢ a + (s + count) * 0x1000
  next_apart us m ring low e = λ q.
      let k : IsBlock a s = at-IsBlock m us a s vs ring in
      beyond vs (at_next m us a s vs ring) e (pointer_low us m ring low) q k
    where
      beyond :
          (ws : Blocks)
          → m.word 0 a ≡ head_or m.free_phys_memory_pointer (addresses ws)
          → EndsBelow (a + (s + count) * 0x1000) ws
          → m.free_phys_memory_pointer ≤ a
          → m.word 0 a ≡ a + (s + count) * 0x1000
          → IsBlock a s
          → ⊥
      beyond [] n e p q k = omega arith
      beyond ((b, t) ∷ ws) n e p q k = omega arith

  -- What is left to do once the search has put `res` in the place of the block and those behind it.
  module _ (res : Blocks) (more : total res ≡ total ((a, s) ∷ vs) + count) where
    abbrev IsFree : Blocks → Machine → Machine → Type 0
    IsFree us m g = IsBlockRing g (us ++ res) × (g.free_page_count ≡ m.free_page_count)

    pub free_phys_pages-res :
        (us : Blocks) (m : Machine)
        → IsFreeList m (us ++ (a, s) ∷ vs)
        → Below a us
        → total (us ++ (a, s) ∷ vs) + count ≤ 0x10_0000
        → Ensures
            (Extended (locked m) (us ++ res))
            (free_scan max_blocks (a + s * 0x1000) count m.free_phys_memory_pointer (locked m))
        → Ensures (λ g. IsFreeList g (us ++ res)) (free_phys_pages (a + s * 0x1000) count m)
    unfolding free_phys_pages release
    free_phys_pages-res us m free low fits found =
        let k : IsBlock a s = at-IsBlock m us a s vs free.ring in
        let p : m.free_phys_memory_pointer ≤ a = pointer_low us m free.ring low in
        let some_block : (m.free_phys_memory_pointer == minus_one) ≡ false =
          ==_ne _ _ (λ q. omega (arith, k, p, q)) in
        let many = total-append us ((a, s) ∷ vs) in
        let after = total-append us res in
        rw (free.unlocked, some_block)
          (Ensures-bind (IsFree us m) _
            (free_scan max_blocks (a + s * 0x1000) count m.free_phys_memory_pointer (locked m)
              >>= λ g. some (lower_pointer (a + s * 0x1000) g))
            _
            (Ensures-bind (Extended (locked m) (us ++ res)) (IsFree us m)
              (free_scan max_blocks (a + s * 0x1000) count m.free_phys_memory_pointer (locked m))
              (λ g. some (lower_pointer (a + s * 0x1000) g)) found (λ g h. kept g h))
            (λ g h. record {
              ring = IsBlockRing-release g _ _ h.0;
              counted = omega (arith, h.1, free.counted, many, after, more);
              bounded = omega (arith, many, after, more);
              unlocked = refl;
            }))
      where
        kept :
            (g : Machine)
            → Extended (locked m) (us ++ res) g
            → IsFree us m (lower_pointer (a + s * 0x1000) g)
        kept g h =
            let p : m.free_phys_memory_pointer ≤ a = pointer_low us m free.ring low in
            let stays : ltb (a + s * 0x1000) g.free_phys_memory_pointer ≡ false =
              ground (arith, h.1) in
            unfold lower_pointer in rw stays (h.0, h.2.0)

  -- There are rounds enough to come to the block.
  pub few_before :
      (us : Blocks) (m : Machine) → IsFreeList m (us ++ (a, s) ∷ vs) → length us + 1 < max_blocks
  few_before us m free =
      let k : IsBlock a s = at-IsBlock m us a s vs free.ring in
      omega (
        arith,
        k,
        free.bounded,
        total-append us ((a, s) ∷ vs),
        length-le-total us (AreBlocks-of_append us ((a, s) ∷ vs) free.ring.blocks).0,
      )

  -- Pages that are freed right behind a block of the free list, and that end below the next one, make
  -- that block longer; no other block changes. The blocks before it end below it, and the free pages
  -- are at most 2 ^ 20 afterwards.
  pub free_phys_pages-IsFreeList :
      (us : Blocks) (m : Machine)
      → IsFreeList m (us ++ (a, s) ∷ vs)
      → Below a us
      → EndsBelow (a + (s + count) * 0x1000) vs
      → total (us ++ (a, s) ∷ vs) + count ≤ 0x10_0000
      → Ensures
          (λ g. IsFreeList g (us ++ (a, s + count) ∷ vs))
          (free_phys_pages (a + s * 0x1000) count m)
  free_phys_pages-IsFreeList us m free low e fits =
      free_phys_pages-res ((a, s + count) ∷ vs) (omega arith) us m free low fits (
        free_scan-all count a s vs ((a, s + count) ∷ vs) (λ w. w 0 a ≢ a + (s + count) * 0x1000) top
          (extend_here count a s vs top) us (locked m)
          (IsBlockRing-locked m (us ++ (a, s) ∷ vs) free.ring) low (few_before us m free)
          (next_apart us m free.ring low e))

-- Pages that are freed while no block is free become the only block.
pub free_phys_pages_first :
    (base count : ℕ) (m : Machine)
    → IsFreeList m []
    → IsBlock base count
    → Ensures (λ g. IsFreeList g ((base, count) ∷ [])) (free_phys_pages base count m)
unfolding free_phys_pages release first_block
free_phys_pages_first base count m free k =
    let no_block : (m.free_phys_memory_pointer == minus_one) ≡ true = ground (arith, free.ring) in
    rw (free.unlocked, no_block, window_at base k.0)
      (record {
        ring = record {
          links = (refl, (ground arith, ground arith));
          sizes = (ground arith, tt);
          blocks = (k, tt);
          distinct = (tt, tt);
        };
        counted = omega (arith, free.counted, k);
        bounded = omega (arith, k);
        unlocked = refl;
      })
