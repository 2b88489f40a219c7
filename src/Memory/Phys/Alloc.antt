-- ===== src/Memory/Phys/Alloc.antt =====
-- `alloc_phys_pages` refines first fit on the list of free blocks.
pub mod Scan
use c4os.Common.{
  ℕ, zero, suc, ◌+◌, ◌-◌, ◌*◌, ◌%◌, ◌≤◌, ◌<◌, ◌≡◌, ◌≢◌, refl, arith, Option, none, some, List, [],
  ◌∷◌, ◌++◌, All, Ensures, Ensures-mono, minus_one, update, length, if◌then◌else◌, ◌==◌, ap,
  Distinct, sub32, Distinct-remove, Distinct-of_append, Apart-head,
}
use c4os.Ring.{update_self}
use c4os.Ring.Links.{Links, moved, head_or, Links-next, Links-next_All, Links-prev, Links-remove}
use c4os.Memory.Window.{
  Machine, window_at, temp_map_page, temp_entry, page_word, set_page_word, page_base,
}
use c4os.Memory.Phys.{
  alloc_scan, alloc_finish, alloc_phys_pages, take_block, cut_block, max_blocks, lock,
}
use c4os.Memory.Phys.Blocks.{
  Blocks, addresses, total, Sizes, IsBlock, AreBlocks, IsBlockRing, IsFreeList, first_fit,
  keep_block, addresses-append, AreBlocks-IsAligned, AreBlocks-of_append, Sizes-of_append,
  IsAligned, Sizes-append, AreBlocks-append, Sizes-update,
}

-- `take_block` at an aligned ring: the links as `Ring.Links` spells them.
module _ (cur : ℕ) (m : Machine) (at : IsAligned cur) where
  pub take_block-fields :
      IsAligned (m.word 0 cur)
      → IsAligned (m.word 1 cur)
      → let g = take_block cur (temp_map_page cur m) in
        (g.word
          ≡ update
              (update m.word 1 (update (m.word 1) (m.word 0 cur) (m.word 1 cur)))
              0
              (update (m.word 0) (m.word 1 cur) (m.word 0 cur)))
        × (g.free_phys_memory_pointer ≡ moved minus_one m.free_phys_memory_pointer (m.word 0) cur)
        × (g.free_page_count ≡ m.free_page_count)
        × (g.phys_memory_mutex ≡ m.phys_memory_mutex)
  unfolding take_block
  take_block-fields next_in prev_in =
      rw (window_at cur at, window_at (m.word 0 cur) next_in, window_at (m.word 1 cur) prev_in)
        (ground arith)

-- The current block of a loop, with what its ring says of it.
module _ (m : Machine) (us : Blocks) (a s : ℕ) (vs : Blocks)
    (ring : IsBlockRing m (us ++ (a, s) ∷ vs)) where
  split : addresses (us ++ (a, s) ∷ vs) ≡ addresses us ++ a ∷ addresses vs
  split = addresses-append us ((a, s) ∷ vs)

  pub at-Links :
      Links minus_one m.free_phys_memory_pointer
        (m.word 0)
        (m.word 1)
        (addresses us ++ a ∷ addresses vs)
  at-Links = rw split at ring.links

  pub at-Distinct : Distinct (addresses us ++ a ∷ addresses vs)
  at-Distinct = rw split at ring.distinct

  at-IsAligned : All IsAligned (addresses us ++ a ∷ addresses vs)
  at-IsAligned = rw split at (AreBlocks-IsAligned (us ++ (a, s) ∷ vs) ring.blocks)

  pub at-IsBlock : IsBlock a s
  at-IsBlock = (AreBlocks-of_append us ((a, s) ∷ vs) ring.blocks).1.0

  pub at_size : m.word 2 a ≡ s
  at_size = (Sizes-of_append (m.word 2) us ((a, s) ∷ vs) ring.sizes).1.0

  pub at_next : m.word 0 a ≡ head_or m.free_phys_memory_pointer (addresses vs)
  at_next =
      Links-next minus_one m.free_phys_memory_pointer (m.word 0) (m.word 1) (addresses us) a
        (addresses vs) at-Links

  pub next-IsAligned : IsAligned (m.word 0 a)
  next-IsAligned =
      Links-next_All minus_one m.free_phys_memory_pointer (m.word 0) (m.word 1) IsAligned
        (addresses us) a (addresses vs) at-Links at-IsAligned

  pub prev-IsAligned : IsAligned (m.word 1 a)
  prev-IsAligned =
      Links-prev minus_one m.free_phys_memory_pointer (m.word 0) (m.word 1) IsAligned (addresses us)
        a (addresses vs) at-Links at-IsAligned

  at-Sizes : Sizes (m.word 2) (us ++ vs)
  at-Sizes =
      let (p, q) = Sizes-of_append (m.word 2) us ((a, s) ∷ vs) ring.sizes in
      Sizes-append (m.word 2) us vs p q.1

  at_blocks : AreBlocks (us ++ vs)
  at_blocks =
      let (p, q) = AreBlocks-of_append us ((a, s) ∷ vs) ring.blocks in AreBlocks-append us vs p q.1

  pub take_block-IsBlockRing : IsBlockRing (take_block a (temp_map_page a m)) (us ++ vs)
  take_block-IsBlockRing =
      let f = take_block-fields a m at-IsBlock.0 next-IsAligned prev-IsAligned in
      record {
        links =
            rw (f.0, f.1, addresses-append us vs)
              (Links-remove minus_one m.free_phys_memory_pointer (m.word 0) (m.word 1)
                (addresses us) a (addresses vs) at-Links at-Distinct);
        sizes = rw f.0 at-Sizes;
        blocks = at_blocks;
        distinct =
            rw (addresses-append us vs)
              (Distinct-remove (addresses us) a (addresses vs) at-Distinct);
      }

  -- The block at `a` with another size.
  pub resize-IsBlockRing :
      (n : ℕ) (g : Machine)
      → IsBlock a n
      → g.word ≡ update m.word 2 (update (m.word 2) a n)
      → g.free_phys_memory_pointer ≡ m.free_phys_memory_pointer
      → IsBlockRing g (us ++ (a, n) ∷ vs)
  resize-IsBlockRing n g b w p =
      let (x, y) = Sizes-of_append (m.word 2) us ((a, s) ∷ vs) ring.sizes in
      let (d, c, t) = Distinct-of_append (addresses us) (a ∷ addresses vs) at-Distinct in
      let (q, r) = AreBlocks-of_append us ((a, s) ∷ vs) ring.blocks in
      record {
        links = rw (w, p, addresses-append us ((a, n) ∷ vs)) at-Links;
        sizes = rw w (
            Sizes-append (update (m.word 2) a n) us ((a, n) ∷ vs)
              (Sizes-update (m.word 2) a n us (Apart-head a (addresses us) (addresses vs) t) x)
              (update_self (m.word 2) a n, Sizes-update (m.word 2) a n vs c.0 y.1));
        blocks = AreBlocks-append us ((a, n) ∷ vs) q (b, r.1);
        distinct = rw (addresses-append us ((a, n) ∷ vs)) at-Distinct;
      }

  -- The tail that `cut_block` cuts off, and the block that it leaves.
  module _ (count : ℕ) (small : count < s) where
    pub cut_block-fields :
        let (r, g) = cut_block count a (temp_map_page a m) in
        (r ≡ a + (s - count) * 0x1000)
        × (g.word ≡ update m.word 2 (update (m.word 2) a (s - count)))
        × (g.free_phys_memory_pointer ≡ m.free_phys_memory_pointer)
        × (g.free_page_count ≡ m.free_page_count)
        × (g.phys_memory_mutex ≡ m.phys_memory_mutex)
    unfolding cut_block temp_map_page
    cut_block-fields =
        let b : IsBlock a s = at-IsBlock in
        let e : sub32 s count ≡ s - count = omega arith in
        rw (window_at a b.0, at_size, e) (ground arith, refl, refl, refl, refl)

    pub cut_block-IsBlockRing :
        IsBlockRing (cut_block count a (temp_map_page a m)).1 (us ++ (a, s - count) ∷ vs)
    cut_block-IsBlockRing =
        let f = cut_block-fields in
        let b : IsBlock a s = at-IsBlock in
        resize-IsBlockRing (s - count) (cut_block count a (temp_map_page a m)).1 (omega arith) f.1
          f.2
