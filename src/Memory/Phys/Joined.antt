-- ===== src/Memory/Phys/Joined.antt =====
-- `free_phys_pages` of src/kernel/memory_manager.c where the pages fill the gap between two free blocks.
use mathlib.Core.List.{append_assoc}
use c4os.Common.{
  ℕ, suc, ◌+◌, ◌*◌, ◌<◌, ◌≤◌, ◌≡◌, refl, arith, [], ◌∷◌, ◌++◌, Ensures, Bool-cases, inl, inr, ◌==◌,
  ==_self, ==_ne, subst, sym, ap, ◌∙◌, false, true, update, add32, u32, minus_one,
}
use c4os.Ring.Links.{Links-back}
use c4os.Memory.Window.{Machine, window_at, temp_map_page}
use c4os.Memory.Phys.{bytes_of, free_scan, free_phys_pages, extend_block, take_block}
use c4os.Memory.Phys.Blocks.{Blocks, addresses, total, IsBlock, IsBlockRing, IsFreeList}
use c4os.Memory.Phys.Alloc.{
  at-Links, at-IsBlock, at_size, at_next, next-IsAligned, prev-IsAligned, take_block-fields,
  take_block-IsBlockRing, resize-IsBlockRing,
}
use c4os.Memory.Phys.Alloc.Scan.{SameCount, next-ne}
use c4os.Memory.Phys.Free.{Extended, Below, free_scan-all}
use c4os.Memory.Phys.Freed.{free_phys_pages-res, few_before}
use c4os.Memory.Phys.Refine.{locked, IsBlockRing-locked}

-- A field that is written twice has the second value.
words_same :
    (w : ℕ → ℕ → ℕ) (a y k n i f : ℕ)
    → update
        (update (update (update w 2 (update (w 2) a k)) 1 (update (w 1) y a)) 0 (update (w 0) a y))
        2
        (update (update (w 2) a k) a n)
        i
        f
      ≡ update
          (update (update w 1 (update (w 1) y a)) 0 (update (w 0) a y))
          2
          (update (w 2) a n)
          i
          f
words_same w a y k n i f = elim (Bool-cases (i == 2)) [
  | inl e ↦ elim (Bool-cases (f == a)) [ inl q ↦ rw (e, q) refl | inr q ↦ rw (e, q) refl ]
  | inr e ↦ rw e (elim (Bool-cases (i == 0)) [
    | inl z ↦ rw z refl
    | inr z ↦ rw z (elim (Bool-cases (i == 1)) [ inl o ↦ rw o refl | inr o ↦ rw o refl ])
  ])
]

module _ (count : ℕ) (m : Machine) (us : Blocks) (a s b t : ℕ) (vs : Blocks)
    (ring : IsBlockRing m (us ++ (a, s) ∷ (b, t) ∷ vs)) (meets : b ≡ a + (s + count) * 0x1000) where
  -- The second block, seen from its place in the ring.
  second : IsBlockRing m ((us ++ (a, s) ∷ []) ++ (b, t) ∷ vs)
  second = subst (IsBlockRing m) (sym (append_assoc us ((a, s) ∷ []) ((b, t) ∷ vs))) ring

  abbrev without : Machine
  without = take_block b (temp_map_page b m)

  without-IsBlockRing : IsBlockRing without (us ++ (a, s) ∷ vs)
  without-IsBlockRing =
      subst (IsBlockRing without) (append_assoc us ((a, s) ∷ []) vs)
        (take_block-IsBlockRing m (us ++ (a, s) ∷ []) b t vs second)

  abbrev joined : Machine
  joined = extend_block (a + s * 0x1000) count a (temp_map_page a m)

  first_IsBlock : IsBlock a s
  first_IsBlock = at-IsBlock m us a s ((b, t) ∷ vs) ring

  second_IsBlock : IsBlock b t
  second_IsBlock = at-IsBlock m (us ++ (a, s) ∷ []) b t vs second

  before_second : m.word 1 b ≡ a
  before_second =
      Links-back minus_one m.free_phys_memory_pointer (m.word 0) (m.word 1) (addresses us) a b
        (addresses vs) (at-Links m us a s ((b, t) ∷ vs) ring)

  -- The memory without the second block, the words that it changes written out.
  abbrev word_without : ℕ → ℕ → ℕ
  word_without =
      update (update m.word 1 (update (m.word 1) (m.word 0 b) a)) 0
        (update (m.word 0) a (m.word 0 b))

  without-fields :
      (without.word ≡ word_without)
      × (without.free_phys_memory_pointer ≡ m.free_phys_memory_pointer)
  without-fields =
      let f =
        take_block-fields b m second_IsBlock.0 (next-IsAligned m (us ++ (a, s) ∷ []) b t vs second)
          (prev-IsAligned m (us ++ (a, s) ∷ []) b t vs second) in
      (rw before_second at f.0, f.1 ∙ ground (arith, next-ne m us a s b t vs ring))

  joined-fields :
      (joined.word ≡ update word_without 2 (update (m.word 2) a (s + count + t)))
      × (joined.free_phys_memory_pointer ≡ m.free_phys_memory_pointer)
      × SameCount m joined
  unfolding extend_block temp_map_page
  joined-fields =
      let k = first_IsBlock in
      let l = second_IsBlock in
      let here : (b == add32 (a + s * 0x1000) (bytes_of count)) ≡ true =
        subst (λ n. (b == n) ≡ true) (omega (arith, meets, k, l)) (==_self b) in
      let grown : u32 (s + count) ≡ s + count = omega (arith, meets, k, l) in
      let all : u32 (s + count + t) ≡ s + count + t = omega (arith, meets, k, l) in
      let apart : (b == a) ≡ false = ==_ne b a (λ e. omega (arith, e, k, meets)) in
      let next_at = next-IsAligned m (us ++ (a, s) ∷ []) b t vs second in
      rw
        (
          window_at a k.0,
          at_next m us a s ((b, t) ∷ vs) ring,
          at_size m us a s ((b, t) ∷ vs) ring,
          here,
          window_at b l.0,
          at_size m (us ++ (a, s) ∷ []) b t vs second,
          apart,
          window_at (m.word 0 b) next_at,
          grown,
          ==_self a,
          all,
        )
        (
          λ j i f. words_same m.word a (m.word 0 b) (s + count) (s + count + t) i f j,
          refl,
          (refl, refl),
        )

  joined-IsBlockRing : IsBlockRing joined (us ++ (a, s + count + t) ∷ vs)
  joined-IsBlockRing =
      let k = first_IsBlock in
      let l = second_IsBlock in
      let w = without-fields in
      resize-IsBlockRing without us a s vs without-IsBlockRing (s + count + t) joined
        (omega (arith, k, l, meets))
        (joined-fields.0 ∙ ap (λ h. update h 2 (update (h 2) a (s + count + t))) (sym w.0))
        (joined-fields.1 ∙ sym w.1)

module _ (count a s b t : ℕ) (vs : Blocks) (meets : b ≡ a + (s + count) * 0x1000) where
  join_here :
      (fuel : ℕ) (m : Machine) (us : Blocks)
      → IsBlockRing m (us ++ (a, s) ∷ (b, t) ∷ vs)
      → Unit {0}
      → Ensures
          (Extended m (us ++ (a, s + count + t) ∷ vs))
          (free_scan (suc fuel) (a + s * 0x1000) count a m)
  unfolding free_scan
  join_here fuel m us ring e =
      let k : IsBlock a s = at-IsBlock m us a s ((b, t) ∷ vs) ring in
      let f = joined-fields count m us a s b t vs ring meets in
      let here : (add32 a (bytes_of s) == a + s * 0x1000) ≡ true =
        subst (λ n. (n == a + s * 0x1000) ≡ true) (omega (arith, k)) (==_self (a + s * 0x1000)) in
      rw (window_at a k.0, at_size m us a s ((b, t) ∷ vs) ring, here)
        (joined-IsBlockRing count m us a s b t vs ring meets, f.1, f.2)

  -- On a sound free list, pages that are freed where they fill the gap between two neighbouring
  -- blocks make one block of the two and the pages; no other block changes. The blocks before the
  -- gap end below it, and the free pages are at most 2 ^ 20 afterwards.
  pub free_phys_pages_joins :
      (us : Blocks) (m : Machine)
      → IsFreeList m (us ++ (a, s) ∷ (b, t) ∷ vs)
      → Below a us
      → total (us ++ (a, s) ∷ (b, t) ∷ vs) + count ≤ 0x10_0000
      → Ensures
          (λ g. IsFreeList g (us ++ (a, s + count + t) ∷ vs))
          (free_phys_pages (a + s * 0x1000) count m)
  free_phys_pages_joins us m free low fits =
      let k : IsBlock b t = second_IsBlock count m us a s b t vs free.ring meets in
      let top : a + (s + count) * 0x1000 < 0x1_0000_0000 = omega (arith, k, meets) in
      let res = (a, s + count + t) ∷ vs in
      free_phys_pages-res count a s ((b, t) ∷ vs) top res (omega arith) us m free low fits (
        free_scan-all count a s ((b, t) ∷ vs) res (λ w. Unit) top join_here us (locked m)
          (IsBlockRing-locked m (us ++ (a, s) ∷ (b, t) ∷ vs) free.ring) low
          (few_before count a s ((b, t) ∷ vs) top us m free) tt)
