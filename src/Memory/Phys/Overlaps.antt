-- ===== src/Memory/Phys/Overlaps.antt =====
-- `free_phys_pages` of src/kernel/memory_manager.c where the pages stood right in front of the only free
-- block.
use c4os.Common.{
  ℕ, suc, ◌+◌, ◌*◌, ◌<◌, ◌≡◌, ◌≢◌, refl, arith, [], ◌∷◌, Ensures, some, ◌==◌, ==_self, ==_ne, subst,
  sym, ◌∙◌, false, true, update, add32, minus_one, ltb,
}
use c4os.Ring.{update_self, update_ne}
use c4os.Memory.Window.{Machine, window_at, temp_map_page}
use c4os.Memory.Phys.{
  bytes_of, free_scan, free_phys_pages, prepend_block, lower_pointer, release, max_blocks,
}
use c4os.Memory.Phys.Blocks.{IsBlock, IsBlockRing, IsFreeList}
use c4os.Memory.Phys.Refine.{locked}

module _ (base count b t : ℕ) (m : Machine) (free : IsFreeList m ((b, t) ∷ []))
    (some_pages : 0 < count) (meets : base + count * 0x1000 ≡ b) where
  b_IsBlock : IsBlock b t
  b_IsBlock = free.ring.blocks.0

  base_IsBlock : IsBlock base (count + t)
  base_IsBlock = omega (arith, b_IsBlock, meets, some_pages)

  -- The words that the branch leaves, in its order.
  abbrev left : ℕ → ℕ → ℕ
  left =
      update
        (update
          (update (update (update m.word 1 (update (m.word 1) b base)) 0 (update (m.word 0) b base))
            0 (update (update (m.word 0) b base) base b))
          1 (update (update (m.word 1) b base) base b))
        2 (update (m.word 2) base (count + t))

  abbrev result : Machine
  result = prepend_block base count (temp_map_page b (locked m))

  -- The search stops at the block.
  free_scan_stops : (fuel : ℕ) → free_scan (suc fuel) base count b (locked m) ≡ some result
  unfolding free_scan temp_map_page
  free_scan_stops fuel =
      let k = b_IsBlock in
      let not_end : (add32 b (bytes_of t) == base) ≡ false =
        ==_ne _ _ (λ e. omega (arith, k, e, meets, some_pages)) in
      let here : (add32 base (bytes_of count) == b) ≡ true =
        subst (λ n. (n == b) ≡ true) (omega (arith, meets, k)) (==_self b) in
      rw (window_at b k.0, free.ring.sizes.0, not_end, here) refl

  result-fields :
      (result.word ≡ left)
      × (result.free_phys_memory_pointer ≡ b)
      × (result.free_page_count ≡ m.free_page_count)
  unfolding prepend_block temp_map_page
  result-fields =
      let k = b_IsBlock in
      let all : add32 count t ≡ count + t = omega (arith, k, meets) in
      let (next, prev) = free.ring.links.1 in
      rw
        (
          window_at b k.0,
          free.ring.sizes.0,
          next,
          prev,
          window_at b k.0,
          window_at base base_IsBlock.0,
          all,
        )
        (refl, free.ring.links.0, refl)

  twice : (f : ℕ → ℕ) → update (update f b base) base b base ≡ b
  twice f = update_self (update f b base) base b

  twice_before : (f : ℕ → ℕ) → update (update f b base) base b b ≡ base
  twice_before f =
      update_ne (update f b base) base b b (λ e. omega (arith, e, meets, some_pages))
      ∙ update_self f b base

  left-IsBlockRing :
      (g : Machine)
      → g.word ≡ left
      → g.free_phys_memory_pointer ≡ base
      → IsBlockRing g ((base, count + t) ∷ (b, t) ∷ [])
  left-IsBlockRing g w p =
      let apart : base ≢ b = λ e. omega (arith, e, meets, some_pages) in
      rw w (record {
        links = (
          p,
          (twice (m.word 0), twice_before (m.word 1), (twice_before (m.word 0), twice (m.word 1))),
        );
        sizes = (
          update_self (m.word 2) base (count + t),
          (update_ne (m.word 2) base (count + t) b (λ e. apart (sym e)) ∙ free.ring.sizes.0, tt),
        );
        blocks = (base_IsBlock, (b_IsBlock, tt));
        distinct = ((apart, tt), (tt, tt));
      })

  -- On a sound free list of one block, pages that are freed right in front of it make a block of
  -- their own with the pages of both, but the old block stays in the ring behind it: its pages are
  -- in two blocks, and they are counted once.
  pub free_phys_pages_overlaps :
      Ensures
        (λ g. IsBlockRing g ((base, count + t) ∷ (b, t) ∷ []) × (g.free_page_count ≡ t + count))
        (free_phys_pages base count m)
  unfolding free_phys_pages release lower_pointer
  free_phys_pages_overlaps =
      let k = b_IsBlock in
      let f = result-fields in
      let some_block : (m.free_phys_memory_pointer == minus_one) ≡ false =
        ==_ne _ _ (λ e. omega (arith, k, e, free.ring.links)) in
      let lower : ltb base result.free_phys_memory_pointer ≡ true = ground (arith, f.1) in
      let searched : free_scan max_blocks base count m.free_phys_memory_pointer (locked m)
          ≡ some result =
        subst (λ p. free_scan max_blocks base count p (locked m) ≡ some result)
          (sym free.ring.links.0) (free_scan_stops 0x10_0000) in
      rw (free.unlocked, some_block, searched, lower)
        (left-IsBlockRing _ f.0 refl, omega (arith, f.2, free.counted, k))
