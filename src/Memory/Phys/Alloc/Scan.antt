-- ===== src/Memory/Phys/Alloc/Scan.antt =====
-- The search of `alloc_phys_pages` finds what first fit finds.
use mathlib.Core.List.{append_assoc}
use c4os.Common.{
  ℕ, zero, suc, ◌+◌, ◌-◌, ◌*◌, ◌<◌, ◌≡◌, ◌≢◌, refl, arith, inl, inr, Option, none, some, [], ◌∷◌,
  ◌++◌, Ensures, Ensures-mono, Bool-cases, minus_one, length, ltb, ◌==◌, ltb→lt, ==_self, ==_ne,
  subst, sym, false,
}
use c4os.Ring.Links.{behind-ne}
use c4os.Memory.Window.{Machine, window_at, temp_map_page}
use c4os.Memory.Phys.{alloc_scan, take_block, cut_block}
use c4os.Memory.Phys.Blocks.{Blocks, addresses, IsBlock, IsBlockRing, first_fit, keep_block}
use c4os.Memory.Phys.Alloc.{
  at-IsBlock, at_size, at_next, at-Links, at-Distinct, next-IsAligned, prev-IsAligned,
  take_block-fields, take_block-IsBlockRing, cut_block-fields, cut_block-IsBlockRing,
}

abbrev pub SameCount : Machine → Machine → Type 0
SameCount m g =
    (g.free_page_count ≡ m.free_page_count) × (g.phys_memory_mutex ≡ m.phys_memory_mutex)

-- The outcome of the search over `rest`, with the blocks `us` passed over before it.
abbrev pub Scanned : Machine → Blocks → Blocks → Option (ℕ × Blocks) → ℕ × Machine → Type 0
Scanned m us rest none (r, g) = (r ≡ minus_one) × IsBlockRing g (us ++ rest) × SameCount m g
Scanned m us rest (some (a, cs)) (r, g) =
    (r ≡ a) × (r ≢ minus_one) × IsBlockRing g (us ++ cs) × SameCount m g

Scanned-keep :
    (m : Machine) (us rest : Blocks) (b : ℕ × ℕ) (o : Option (ℕ × Blocks)) (r : ℕ × Machine)
    → Scanned m (us ++ b ∷ []) rest o r
    → Scanned m us (b ∷ rest) (keep_block b o) r
unfolding keep_block
Scanned-keep m us rest b none (r, g) h =
    (h.0, subst (IsBlockRing g) (append_assoc us (b ∷ []) rest) h.1, h.2)
Scanned-keep m us rest b (some (a, cs)) (r, g) h =
    (h.0, h.1, subst (IsBlockRing g) (append_assoc us (b ∷ []) cs) h.2, h.3)

module _ (count : ℕ) (m : Machine) (us : Blocks) (a s : ℕ) (vs : Blocks)
    (ring : IsBlockRing m (us ++ (a, s) ∷ vs)) where
  block : IsBlock a s
  block = at-IsBlock m us a s vs ring

  taken : Scanned m us ((a, s) ∷ vs) (some (a, vs)) (a, take_block a (temp_map_page a m))
  taken =
      let b : IsBlock a s = block in
      let f =
        take_block-fields a m b.0 (next-IsAligned m us a s vs ring)
          (prev-IsAligned m us a s vs ring) in
      (refl, omega arith, take_block-IsBlockRing m us a s vs ring, (f.2, f.3))

  cut :
      count < s
      → Scanned m us
          ((a, s) ∷ vs)
          (some (a + (s - count) * 0x1000, (a, s - count) ∷ vs))
          (cut_block count a (temp_map_page a m))
  cut small =
      let b : IsBlock a s = block in
      let f = cut_block-fields m us a s vs ring count small in
      (f.0, rw f.0 (omega arith), cut_block-IsBlockRing m us a s vs ring count small, (f.3, f.4))

pub next-ne :
    (m : Machine) (us : Blocks) (a s b t : ℕ) (vs : Blocks)
    → IsBlockRing m (us ++ (a, s) ∷ (b, t) ∷ vs)
    → (b == m.free_phys_memory_pointer) ≡ false
next-ne m us a s b t vs ring = ==_ne b m.free_phys_memory_pointer (
    behind-ne minus_one m.free_phys_memory_pointer (m.word 0) (m.word 1) (addresses us) a b
      (addresses vs) (at-Links m us a s ((b, t) ∷ vs) ring)
      (at-Distinct m us a s ((b, t) ∷ vs) ring))

pub IsBlockRing-temp :
    (a : ℕ) (m : Machine) (bs : Blocks) → IsBlockRing m bs → IsBlockRing (temp_map_page a m) bs
unfolding temp_map_page
IsBlockRing-temp a m bs r = record {
  links = r.links;
  sizes = r.sizes;
  blocks = r.blocks;
  distinct = r.distinct;
}

pub alloc_scan-Scanned :
    (fuel count : ℕ) (m : Machine) (us : Blocks) (a s : ℕ) (vs : Blocks)
    → IsBlockRing m (us ++ (a, s) ∷ vs)
    → length vs < fuel
    → Ensures
        (Scanned m us ((a, s) ∷ vs) (first_fit count ((a, s) ∷ vs)))
        (alloc_scan fuel count a m)
unfolding alloc_scan first_fit
alloc_scan-Scanned zero count m us a s vs ring enough = absurd (omega arith)
alloc_scan-Scanned (suc fuel) count m us a s [] ring enough =
    rw (window_at a (at-IsBlock m us a s [] ring).0, at_size m us a s [] ring)
      (elim (Bool-cases (s == count)) [
        | inl hit ↦ rw hit (taken count m us a s [] ring)
        | inr miss ↦ rw miss (elim (Bool-cases (ltb count s)) [
          | inl small ↦ rw small (cut count m us a s [] ring (ltb→lt count s small))
          | inr large ↦
              rw (large, at_next m us a s [] ring, ==_self m.free_phys_memory_pointer)
                (refl, IsBlockRing-temp a m (us ++ (a, s) ∷ []) ring, (refl, refl))
        ])
      ])
alloc_scan-Scanned (suc fuel) count m us a s ((b, t) ∷ vs) ring enough =
    rw (window_at a (at-IsBlock m us a s ((b, t) ∷ vs) ring).0, at_size m us a s ((b, t) ∷ vs) ring)
      (elim (Bool-cases (s == count)) [
        | inl hit ↦ rw hit (taken count m us a s ((b, t) ∷ vs) ring)
        | inr miss ↦ rw miss (elim (Bool-cases (ltb count s)) [
          | inl small ↦ rw small (cut count m us a s ((b, t) ∷ vs) ring (ltb→lt count s small))
          | inr large ↦
              rw (large, at_next m us a s ((b, t) ∷ vs) ring, next-ne m us a s b t vs ring)
                (Ensures-mono _ _ (alloc_scan fuel count b (temp_map_page a m))
                  (alloc_scan-Scanned fuel count (temp_map_page a m) (us ++ (a, s) ∷ []) b t vs
                    (IsBlockRing-temp a m _ (
                      subst (IsBlockRing m) (sym (append_assoc us ((a, s) ∷ []) ((b, t) ∷ vs)))
                        ring))
                    (omega arith))
                  (Scanned-keep m us ((b, t) ∷ vs) (a, s) (first_fit count ((b, t) ∷ vs))))
        ])
      ])
