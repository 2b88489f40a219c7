-- ===== src/Memory/Phys/Kept.antt =====
-- What `alloc_phys_pages` of src/kernel/memory_manager.c does not write to.
use c4os.Common.{
  zero, suc, ◌<◌, ◌-◌, All-of_append, ◌≡◌, ◌≢◌, refl, arith, some, [], ◌∷◌, ◌++◌, All, Ensures,
  Ensures-mono, ◌&&◌, ℕ, Ensures-bind, ◌>>=◌, Bool-cases, inl, inr, length, minus_one, ltb, ltb→lt,
  ◌==◌, ==_self, subst, sym, ◌∙◌, update, false, true, if◌then◌else◌,
}
use mathlib.Core.List.{append_assoc}
use c4os.Ring.Links.{Links-next_All, Links-prev}
use c4os.Memory.Window.{Machine, memory, window_at, temp_map_page}
use c4os.Memory.Phys.{alloc_scan, take_block, cut_block, alloc_phys_pages, alloc_finish, max_blocks}
use c4os.Memory.Phys.Blocks.{
  Blocks, addresses, addresses-append, IsBlock, IsBlockRing, IsFreeList, length-le-total,
}
use c4os.Memory.Phys.Alloc.{
  at-IsBlock, at_size, at_next, at-Links, next-IsAligned, prev-IsAligned, take_block-fields,
  cut_block-fields,
}
use c4os.Memory.Phys.Alloc.Scan.{next-ne, IsBlockRing-temp}
use c4os.Memory.Phys.Refine.{locked, IsBlockRing-locked}

-- The frame has its words.
abbrev pub Keeps : ℕ → Machine → Machine → Type 0
Keeps f m g = (i : ℕ) → g.word i f ≡ m.word i f

-- No block begins at the frame.
abbrev pub NoBlock : ℕ → Blocks → Type 0
NoBlock f bs = All (λ a. a ≢ f) (addresses bs)

update2-ne : (h : ℕ → ℕ → ℕ) (j k v f i : ℕ) → k ≢ f → update h j (update (h j) k v) i f ≡ h i f
update2-ne h j k v f i ne = elim (Bool-cases (i == j)) [
  | inl e ↦ ground (arith, e, ne)
  | inr e ↦ ground (arith, e, ne)
]

module _ (f count : ℕ) (m : Machine) (us : Blocks) (a s : ℕ) (vs : Blocks)
    (ring : IsBlockRing m (us ++ (a, s) ∷ vs)) (off : NoBlock f (us ++ (a, s) ∷ vs)) where
  at_off : All (λ x. x ≢ f) (addresses us ++ a ∷ addresses vs)
  at_off = rw (addresses-append us ((a, s) ∷ vs)) at off

  next_off : m.word 0 a ≢ f
  next_off =
      Links-next_All minus_one m.free_phys_memory_pointer (m.word 0) (m.word 1) (λ x. x ≢ f)
        (addresses us) a (addresses vs) (at-Links m us a s vs ring) at_off

  prev_off : m.word 1 a ≢ f
  prev_off =
      Links-prev minus_one m.free_phys_memory_pointer (m.word 0) (m.word 1) (λ x. x ≢ f)
        (addresses us) a (addresses vs) (at-Links m us a s vs ring) at_off

  take_block-Keeps : Keeps f m (take_block a (temp_map_page a m))
  take_block-Keeps i =
      let b : IsBlock a s = at-IsBlock m us a s vs ring in
      let w =
        take_block-fields a m b.0 (next-IsAligned m us a s vs ring)
          (prev-IsAligned m us a s vs ring) in
      rw w.0 (
        update2-ne (update m.word 1 (update (m.word 1) (m.word 0 a) (m.word 1 a))) 0 (m.word 1 a)
          (m.word 0 a) f i prev_off
        ∙ update2-ne m.word 1 (m.word 0 a) (m.word 1 a) f i next_off)

  cut_block-Keeps : count < s → Keeps f m (cut_block count a (temp_map_page a m)).1
  cut_block-Keeps small i = rw (cut_block-fields m us a s vs ring count small).1 (
      update2-ne m.word 2 a (s - count) f i
        (All-of_append (λ x. x ≢ f) (addresses us) (a ∷ addresses vs) at_off).1.0)

alloc_scan-Keeps :
    (f fuel count : ℕ) (m : Machine) (us : Blocks) (a s : ℕ) (vs : Blocks)
    → IsBlockRing m (us ++ (a, s) ∷ vs)
    → NoBlock f (us ++ (a, s) ∷ vs)
    → length vs < fuel
    → Ensures (λ r. Keeps f m r.1) (alloc_scan fuel count a m)
unfolding alloc_scan temp_map_page
alloc_scan-Keeps f zero count m us a s vs ring off enough = absurd (omega arith)
alloc_scan-Keeps f (suc fuel) count m us a s [] ring off enough =
    rw (window_at a (at-IsBlock m us a s [] ring).0, at_size m us a s [] ring)
      (elim (Bool-cases (s == count)) [
        | inl hit ↦ rw hit (take_block-Keeps f count m us a s [] ring off)
        | inr miss ↦ rw miss (elim (Bool-cases (ltb count s)) [
          | inl small ↦
              rw small (cut_block-Keeps f count m us a s [] ring off (ltb→lt count s small))
          | inr large ↦
              rw (large, at_next m us a s [] ring, ==_self m.free_phys_memory_pointer) (λ i. refl)
        ])
      ])
alloc_scan-Keeps f (suc fuel) count m us a s ((b, t) ∷ vs) ring off enough =
    rw (window_at a (at-IsBlock m us a s ((b, t) ∷ vs) ring).0, at_size m us a s ((b, t) ∷ vs) ring)
      (elim (Bool-cases (s == count)) [
        | inl hit ↦ rw hit (take_block-Keeps f count m us a s ((b, t) ∷ vs) ring off)
        | inr miss ↦ rw miss (elim (Bool-cases (ltb count s)) [
          | inl small ↦
              rw small
                (cut_block-Keeps f count m us a s ((b, t) ∷ vs) ring off (ltb→lt count s small))
          | inr large ↦
              let same = sym (append_assoc us ((a, s) ∷ []) ((b, t) ∷ vs)) in
              rw (large, at_next m us a s ((b, t) ∷ vs) ring, next-ne m us a s b t vs ring)
                (alloc_scan-Keeps f fuel count (temp_map_page a m) (us ++ (a, s) ∷ []) b t vs
                  (IsBlockRing-temp a m _ (subst (IsBlockRing m) same ring))
                  (subst (NoBlock f) same off) (omega arith))
        ])
      ])

finish-Keeps :
    (f count : ℕ) (m : Machine) (r : ℕ × Machine)
    → Keeps f m r.1
    → Keeps f m (alloc_finish count r).1
unfolding alloc_finish
finish-Keeps f count m (a, g) k i = elim (Bool-cases (a == minus_one)) [
  | inl e ↦ rw e (k i)
  | inr e ↦ rw e (k i)
]

-- The words beside the entry of the window.
pub alloc_phys_pages-Keeps :
    (f count : ℕ) (m : Machine) (bs : Blocks)
    → IsFreeList m bs
    → NoBlock f bs
    → Ensures (λ r. Keeps f m r.1) (alloc_phys_pages count m)
unfolding alloc_phys_pages
alloc_phys_pages-Keeps f count m bs free off = elim (Bool-cases (ltb m.free_page_count count)) [
  | inl short ↦ rw short (λ i. refl)
  | inr enough ↦ rw (enough, free.unlocked) (search_list bs free off)
]
  where
    search_list :
        (bs : Blocks)
        → IsFreeList m bs
        → NoBlock f bs
        → Ensures
            (λ r. Keeps f m r.1)
            ((if m.free_phys_memory_pointer == minus_one
                then some (minus_one, locked m)
                else alloc_scan max_blocks count m.free_phys_memory_pointer (locked m))
              >>= λ found. some (alloc_finish count found))
    search_list [] g off =
        let no_block : (m.free_phys_memory_pointer == minus_one) ≡ true = ground (arith, g.ring) in
        rw no_block (finish-Keeps f count m (minus_one, locked m) (λ i. refl))
    search_list ((a, s) ∷ vs) g off =
        let b : IsBlock a s = g.ring.blocks.0 in
        let p = g.ring.links.0 in
        let some_block : (m.free_phys_memory_pointer == minus_one) ≡ false = ground (arith, b) in
        rw some_block (
          Ensures-bind (λ r. Keeps f m r.1) (λ r. Keeps f m r.1)
            (alloc_scan max_blocks count m.free_phys_memory_pointer (locked m))
            (λ found. some (alloc_finish count found))
            (subst (λ q. Ensures (λ r. Keeps f m r.1) (alloc_scan max_blocks count q (locked m)))
              (sym p)
              (alloc_scan-Keeps f max_blocks count (locked m) [] a s vs
                (IsBlockRing-locked m ((a, s) ∷ vs) g.ring) off
                (omega (arith, length-le-total vs g.ring.blocks.1, g.bounded))))
            (finish-Keeps f count m))

-- The word number `i` of the frame `f` is not the entry of the window.
abbrev pub BesideEntry : ℕ → ℕ → ℕ → Type 0
BesideEntry table i f = (i == 1023 && f == table) ≡ false

memory-word :
    (table i f : ℕ) (m : Machine) → BesideEntry table i f → memory table m i f ≡ m.word i f
unfolding memory
memory-word table i f m beside = rw beside refl

-- On a sound free list `alloc_phys_pages` leaves a word of the memory as it was, if no free block
-- begins at its frame, and if it is not the entry of the window `TEMP_PAGE`, number 1023 of the page
-- table in the frame `table`, which is written for every block that is looked at.
pub alloc_phys_pages-memory :
    (table i f count : ℕ) (m : Machine) (bs : Blocks)
    → IsFreeList m bs
    → NoBlock f bs
    → BesideEntry table i f
    → Ensures (λ r. memory table r.1 i f ≡ memory table m i f) (alloc_phys_pages count m)
alloc_phys_pages-memory table i f count m bs free off beside =
    Ensures-mono (λ r. Keeps f m r.1) (λ r. memory table r.1 i f ≡ memory table m i f)
      (alloc_phys_pages count m) (alloc_phys_pages-Keeps f count m bs free off)
      (λ r k. memory-word table i f r.1 beside ∙ k i ∙ sym (memory-word table i f m beside))
