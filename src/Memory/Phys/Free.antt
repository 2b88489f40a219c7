-- ===== src/Memory/Phys/Free.antt =====
-- `free_phys_pages` of src/kernel/memory_manager.c where the pages stood behind a free block.
use mathlib.Core.List.{append_assoc}
use c4os.Common.{
  ℕ, zero, suc, ◌+◌, ◌*◌, ◌<◌, ◌≡◌, ◌≢◌, refl, arith, [], ◌∷◌, ◌++◌, All, Ensures, Ensures-mono,
  length, ltb, ◌==◌, ==_self, ==_ne, subst, sym, false, true, update, add32,
}
use c4os.Memory.Window.{Machine, window_at, temp_map_page}
use c4os.Memory.Phys.{bytes_of, free_scan, extend_block, max_blocks}
use c4os.Memory.Phys.Blocks.{Blocks, IsBlock, IsBlockRing}
use c4os.Memory.Phys.Alloc.{at-IsBlock, at_size, at_next, resize-IsBlockRing}
use c4os.Memory.Phys.Alloc.Scan.{SameCount, next-ne, IsBlockRing-temp}

-- A block that is passed over: the pages stand behind its end.
pass :
    (fuel base count : ℕ) (m : Machine) (us : Blocks) (x t b u : ℕ) (vs : Blocks)
    → IsBlockRing m (us ++ (x, t) ∷ (b, u) ∷ vs)
    → x + t * 0x1000 < base
    → base + count * 0x1000 < 0x1_0000_0000
    → free_scan (suc fuel) base count x m ≡ free_scan fuel base count b (temp_map_page x m)
unfolding free_scan
pass fuel base count m us x t b u vs ring behind top =
    let k : IsBlock x t = at-IsBlock m us x t ((b, u) ∷ vs) ring in
    let not_end : (add32 x (bytes_of t) == base) ≡ false = ==_ne _ _ (λ e. omega (arith, k, e)) in
    let not_start : (add32 base (bytes_of count) == x) ≡ false =
      ==_ne _ _ (λ e. omega (arith, k, e)) in
    let above : ltb base x ≡ false = ground arith in
    rw
      (
        window_at x k.0,
        at_size m us x t ((b, u) ∷ vs) ring,
        at_next m us x t ((b, u) ∷ vs) ring,
        not_end,
        not_start,
        above,
        next-ne m us x t b u vs ring,
      )
      refl

-- The block that ends where the pages begin grows by them.
module _ (count : ℕ) (m : Machine) (us : Blocks) (a s : ℕ) (vs : Blocks)
    (ring : IsBlockRing m (us ++ (a, s) ∷ vs)) (top : a + (s + count) * 0x1000 < 0x1_0000_0000)
    (gap : m.word 0 a ≢ a + (s + count) * 0x1000) where
  extend_block-fields :
      let g = extend_block (a + s * 0x1000) count a (temp_map_page a m) in
      (g.word ≡ update m.word 2 (update (m.word 2) a (s + count)))
      × (g.free_phys_memory_pointer ≡ m.free_phys_memory_pointer)
      × SameCount m g
  unfolding extend_block temp_map_page
  extend_block-fields =
      let k : IsBlock a s = at-IsBlock m us a s vs ring in
      let e : add32 s count ≡ s + count = omega arith in
      let ne : (m.word 0 a == add32 (a + s * 0x1000) (bytes_of count)) ≡ false =
        ==_ne _ _ (λ q. gap (omega (arith, q))) in
      rw (window_at a k.0, at_size m us a s vs ring, e, ne) (refl, refl, (refl, refl))

  extend_block-IsBlockRing :
      IsBlockRing
        (extend_block (a + s * 0x1000) count a (temp_map_page a m))
        (us ++ (a, s + count) ∷ vs)
  extend_block-IsBlockRing =
      let k : IsBlock a s = at-IsBlock m us a s vs ring in
      let f = extend_block-fields in
      resize-IsBlockRing m us a s vs ring (s + count) _ (omega arith) f.0 f.1

-- The search ends with the block grown.
abbrev pub Extended : Machine → Blocks → Machine → Type 0
Extended m bs g =
    IsBlockRing g bs × (g.free_phys_memory_pointer ≡ m.free_phys_memory_pointer) × SameCount m g

-- The blocks end below the address.
abbrev pub Below : ℕ → Blocks → Type 0
Below a bs = All (λ b. b.0 + b.1 * 0x1000 < a) bs

-- One block further on.
module _ (us : Blocks) (x t : ℕ) (bs : Blocks) (m : Machine) where
  moved :
      IsBlockRing m (us ++ (x, t) ∷ bs)
      → IsBlockRing (temp_map_page x m) ((us ++ (x, t) ∷ []) ++ bs)
  moved ring =
      IsBlockRing-temp x m _ (subst (IsBlockRing m) (sym (append_assoc us ((x, t) ∷ []) bs)) ring)

  back :
      (g : Machine)
      → Extended (temp_map_page x m) ((us ++ (x, t) ∷ []) ++ bs) g
      → Extended m (us ++ (x, t) ∷ bs) g
  unfolding temp_map_page
  back g h = (subst (IsBlockRing g) (append_assoc us ((x, t) ∷ []) bs) h.0, h.1, h.2)

module _ (count a s : ℕ) (vs : Blocks) (top : a + (s + count) * 0x1000 < 0x1_0000_0000) where
  pub extend_here :
      (fuel : ℕ) (m : Machine) (us : Blocks)
      → IsBlockRing m (us ++ (a, s) ∷ vs)
      → m.word 0 a ≢ a + (s + count) * 0x1000
      → Ensures
          (Extended m (us ++ (a, s + count) ∷ vs))
          (free_scan (suc fuel) (a + s * 0x1000) count a m)
  unfolding free_scan
  extend_here fuel m us ring gap =
      let k : IsBlock a s = at-IsBlock m us a s vs ring in
      let f = extend_block-fields count m us a s vs ring top gap in
      let here : (add32 a (bytes_of s) == a + s * 0x1000) ≡ true =
        subst (λ n. (n == a + s * 0x1000) ≡ true) (omega (arith, k)) (==_self (a + s * 0x1000)) in
      rw (window_at a k.0, at_size m us a s vs ring, here)
        (extend_block-IsBlockRing count m us a s vs ring top gap, f.1, f.2)

-- The search comes to the block at `a`, where it leaves `res` for that block and those behind.
module _ (count a s : ℕ) (vs res : Blocks) (G : (ℕ → ℕ → ℕ) → Type 0)
    (top : a + (s + count) * 0x1000 < 0x1_0000_0000)
    (there : (fuel : ℕ) (m : Machine) (us : Blocks)
      → IsBlockRing m (us ++ (a, s) ∷ vs)
      → G m.word
      → Ensures (Extended m (us ++ res)) (free_scan (suc fuel) (a + s * 0x1000) count a m)) where
  free_scan-Extended :
      (pre us : Blocks) (x t : ℕ) (fuel : ℕ) (m : Machine)
      → IsBlockRing m (us ++ (x, t) ∷ (pre ++ (a, s) ∷ vs))
      → Below a ((x, t) ∷ pre)
      → length pre + 1 < fuel
      → G m.word
      → Ensures
          (Extended m (us ++ (x, t) ∷ (pre ++ res)))
          (free_scan fuel (a + s * 0x1000) count x m)
  unfolding temp_map_page
  free_scan-Extended pre us x t zero m ring low few gap = absurd (omega arith)
  free_scan-Extended pre us x t (suc zero) m ring low few gap = absurd (omega arith)
  free_scan-Extended [] us x t (suc (suc fuel)) m ring low few gap =
      rw
        (pass (suc fuel) (a + s * 0x1000) count m us x t a s vs ring (omega (arith, low))
          (omega arith))
        (Ensures-mono _ _ (free_scan (suc fuel) (a + s * 0x1000) count a (temp_map_page x m))
          (there fuel (temp_map_page x m) (us ++ (x, t) ∷ []) (moved us x t ((a, s) ∷ vs) m ring)
            gap)
          (back us x t res m))
  free_scan-Extended ((y, u) ∷ pre) us x t (suc (suc fuel)) m ring low few gap =
      rw
        (pass (suc fuel) (a + s * 0x1000) count m us x t y u (pre ++ (a, s) ∷ vs) ring
          (omega (arith, low)) (omega arith))
        (Ensures-mono _ _ (free_scan (suc fuel) (a + s * 0x1000) count y (temp_map_page x m))
          (free_scan-Extended pre (us ++ (x, t) ∷ []) y u (suc fuel) (temp_map_page x m)
            (moved us x t ((y, u) ∷ (pre ++ (a, s) ∷ vs)) m ring) low.1 (omega arith) gap)
          (back us x t ((y, u) ∷ (pre ++ res)) m))

  pub free_scan-all :
      (us : Blocks) (m : Machine)
      → IsBlockRing m (us ++ (a, s) ∷ vs)
      → Below a us
      → length us + 1 < max_blocks
      → G m.word
      → Ensures
          (Extended m (us ++ res))
          (free_scan max_blocks (a + s * 0x1000) count m.free_phys_memory_pointer m)
  free_scan-all [] m ring low few gap =
      subst (λ p. Ensures (Extended m res) (free_scan max_blocks (a + s * 0x1000) count p m))
        (sym ring.links.0) (there 0x10_0000 m [] ring gap)
  free_scan-all ((x, t) ∷ us) m ring low few gap =
      subst
        (λ p.
          Ensures (Extended m ((x, t) ∷ (us ++ res)))
            (free_scan max_blocks (a + s * 0x1000) count p m))
        (sym ring.links.0) (free_scan-Extended us [] x t max_blocks m ring low (omega arith) gap)
