-- ===== src/Memory/Phys/Refine.antt =====
-- `alloc_phys_pages` refines first fit on the list of free blocks, and the first-fit rule itself.
use c4os.Common.{
  ℕ, ◌+◌, ◌≤◌, ◌<◌, ◌≡◌, ◌≢◌, refl, arith, inl, inr, Option, none, some, [], ◌∷◌, Ensures,
  Ensures-bind, subst, sym, false, ◌>>=◌, if◌then◌else◌, true, sub32, Bool-cases, minus_one, ltb,
  ◌==◌, ==_ne,
}
use c4os.Memory.Window.{Machine}
use c4os.Memory.Phys.{alloc_scan, alloc_phys_pages, alloc_finish, release, max_blocks}
use c4os.Memory.Phys.Blocks.{
  Blocks, total, IsBlock, IsBlockRing, IsFreeList, first_fit, keep_block, length-le-total,
}
use c4os.Memory.Phys.Alloc.Scan.{Scanned, alloc_scan-Scanned}

pub keep_block-some :
    (b : ℕ × ℕ) (o : Option (ℕ × Blocks)) (r : ℕ) (cs : Blocks)
    → keep_block b o ≡ some (r, cs)
    → (ds : Blocks) × (o ≡ some (r, ds)) × (cs ≡ b ∷ ds)
unfolding keep_block
keep_block-some b none r cs e = absurd (cc)
keep_block-some b (some (x, ds)) r cs e = (ds, ground arith, ground arith)

-- The pages handed out are no longer counted.
pub total-first_fit :
    (count : ℕ) (bs : Blocks) (r : ℕ) (cs : Blocks)
    → first_fit count bs ≡ some (r, cs)
    → total cs + count ≡ total bs
unfolding first_fit
total-first_fit count [] r cs e = absurd (cc)
total-first_fit count ((a, s) ∷ bs) r cs e = elim (Bool-cases (s == count)) [
  | inl hit ↦ ground arith
  | inr miss ↦ elim (Bool-cases (ltb count s)) [
    | inl small ↦ ground arith
    | inr large ↦
        let k = keep_block-some (a, s) (first_fit count bs) r cs (rw (miss, large) at e) in
        rw k.2 (omega (arith, total-first_fit count bs r k.0 k.1))
  ]
]

first_fit-nil : (count : ℕ) → first_fit count [] ≡ none
unfolding first_fit
first_fit-nil count = refl

-- Where more pages are asked for than are free, nothing fits.
first_fit-none : (count : ℕ) (bs : Blocks) → total bs < count → first_fit count bs ≡ none
unfolding first_fit keep_block
first_fit-none count [] h = refl
first_fit-none count ((a, s) ∷ bs) h = ground (arith, first_fit-none count bs)

-- What `alloc_phys_pages` returns and leaves, in terms of the outcome of first fit.
abbrev pub AllocatesAs : Blocks → Option (ℕ × Blocks) → ℕ × Machine → Type 0
AllocatesAs bs none (r, g) = (r ≡ minus_one) × IsFreeList g bs
AllocatesAs bs (some (a, cs)) (r, g) = (r ≡ a) × (r ≢ minus_one) × IsFreeList g cs

pub IsBlockRing-release :
    (g : Machine) (n : ℕ) (bs : Blocks)
    → IsBlockRing g bs
    → IsBlockRing (release (record g { free_page_count = n })) bs
unfolding release
IsBlockRing-release g n bs r = record {
  links = r.links;
  sizes = r.sizes;
  blocks = r.blocks;
  distinct = r.distinct;
}

-- The count is brought up to date and the mutex released.
alloc_finish-AllocatesAs :
    (count : ℕ) (m : Machine) (bs : Blocks) (o : Option (ℕ × Blocks)) (r : ℕ × Machine)
    → first_fit count bs ≡ o
    → m.free_page_count ≡ total bs
    → total bs ≤ 0x10_0000
    → Scanned m [] bs o r
    → AllocatesAs bs o (alloc_finish count r)
unfolding alloc_finish
alloc_finish-AllocatesAs count m bs none (r, g) e c b (eq, ring, same) = rw eq (
  refl,
  record {
    ring = IsBlockRing-release g g.free_page_count bs ring;
    counted = omega arith;
    bounded = b;
    unlocked = refl;
  },
)
alloc_finish-AllocatesAs count m bs (some (a, cs)) (r, g) e c b (eq, ne, ring, same) =
    rw (==_ne r minus_one ne) (
      eq,
      ne,
      record {
        ring = IsBlockRing-release g (sub32 g.free_page_count count) cs ring;
        counted = omega (arith, total-first_fit count bs a cs e);
        bounded = omega (arith, total-first_fit count bs a cs e);
        unlocked = refl;
      },
    )

abbrev pub locked : Machine → Machine
locked m = record m { phys_memory_mutex = true }

pub IsBlockRing-locked : (m : Machine) (bs : Blocks) → IsBlockRing m bs → IsBlockRing (locked m) bs
IsBlockRing-locked m bs r = record {
  links = r.links;
  sizes = r.sizes;
  blocks = r.blocks;
  distinct = r.distinct;
}

-- On a sound free list `alloc_phys_pages` returns, with the address that first fit gives and the
-- remaining blocks as the free list, or with -1 and the same free list where nothing fits.
pub alloc_phys_pages-AllocatesAs :
    (count : ℕ) (m : Machine) (bs : Blocks)
    → IsFreeList m bs
    → Ensures (AllocatesAs bs (first_fit count bs)) (alloc_phys_pages count m)
unfolding alloc_phys_pages
alloc_phys_pages-AllocatesAs count m bs free = elim (Bool-cases (ltb m.free_page_count count)) [
  | inl short ↦ rw (short, first_fit-none count bs (ground (arith, free.counted))) (refl, free)
  | inr enough ↦ rw (enough, free.unlocked) (search_list bs free)
]
  where
    search_list :
        (bs : Blocks)
        → IsFreeList m bs
        → Ensures (AllocatesAs bs (first_fit count bs)) (
            (if m.free_phys_memory_pointer == minus_one
              then some (minus_one, locked m)
              else alloc_scan max_blocks count m.free_phys_memory_pointer (locked m))
            >>= λ found. some (alloc_finish count found))
    search_list [] f =
        let no_block : (m.free_phys_memory_pointer == minus_one) ≡ true = ground (arith, f.ring) in
        rw (no_block, first_fit-nil count)
          (alloc_finish-AllocatesAs count (locked m) [] none (minus_one, locked m)
            (first_fit-nil count) f.counted f.bounded
            (refl, IsBlockRing-locked m [] f.ring, (refl, refl)))
    search_list ((a, s) ∷ vs) f =
        let p = f.ring.links.0 in
        let b : IsBlock a s = f.ring.blocks.0 in
        let some_block : (m.free_phys_memory_pointer == minus_one) ≡ false = ground (arith, b) in
        let o = first_fit count ((a, s) ∷ vs) in
        rw some_block (
          Ensures-bind (Scanned (locked m) [] ((a, s) ∷ vs) o) (AllocatesAs ((a, s) ∷ vs) o)
            (alloc_scan max_blocks count m.free_phys_memory_pointer (locked m))
            (λ found. some (alloc_finish count found))
            (subst
              (λ q.
                Ensures (Scanned (locked m) [] ((a, s) ∷ vs) o)
                  (alloc_scan max_blocks count q (locked m)))
              (sym p)
              (alloc_scan-Scanned max_blocks count (locked m) [] a s vs
                (IsBlockRing-locked m ((a, s) ∷ vs) f.ring)
                (omega (arith, length-le-total vs f.ring.blocks.1))))
            (λ r.
              alloc_finish-AllocatesAs count (locked m) ((a, s) ∷ vs) o r refl f.counted f.bounded))
