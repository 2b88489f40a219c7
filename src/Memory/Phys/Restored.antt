-- ===== src/Memory/Phys/Restored.antt =====
-- Pages that src/kernel/memory_manager.c allocates and frees again.
use c4os.Common.{
  ℕ, ◌+◌, ◌-◌, ◌*◌, ◌<◌, ◌≤◌, ◌≡◌, ◌≢◌, refl, arith, inl, inr, Option, none, some, [], ◌∷◌, ◌++◌,
  All, Ensures, Ensures-mono, Bool-cases, ltb, ==_ne, subst, sym, ◌∙◌, ap,
}
use c4os.Memory.Window.{Machine}
use c4os.Memory.Phys.{free_phys_pages, alloc_phys_pages}
use c4os.Memory.Phys.Blocks.{
  Blocks, total, IsBlock, IsBlockRing, IsFreeList, first_fit, keep_block, total-append,
}
use c4os.Memory.Phys.Alloc.{at-IsBlock}
use c4os.Memory.Phys.Free.{Below}
use c4os.Memory.Phys.Refine.{AllocatesAs, alloc_phys_pages-AllocatesAs}
use c4os.Memory.Phys.Freed.{EndsBelow, free_phys_pages-IsFreeList}

-- The blocks stand in the order of their addresses, and no two of them touch.
abbrev pub Rises : Blocks → Type 0
Rises [] = Unit
Rises ((a, s) ∷ bs) = EndsBelow (a + s * 0x1000) bs × Rises bs

-- First fit in a block that is larger than what is asked for.
record Cut (count : ℕ) (bs : Blocks) (r : ℕ) (cs : Blocks) : Type 0 where
  pre : Blocks
  at : ℕ
  size : ℕ
  vs : Blocks
  whole : bs ≡ pre ++ (at, size) ∷ vs
  left : cs ≡ pre ++ (at, size - count) ∷ vs
  address : r ≡ at + (size - count) * 0x1000
  large : count < size

keep_block-inv :
    (b : ℕ × ℕ) (o : Option (ℕ × Blocks)) (r : ℕ) (cs : Blocks)
    → keep_block b o ≡ some (r, cs)
    → (ds : Blocks) × (o ≡ some (r, ds)) × (cs ≡ b ∷ ds)
unfolding keep_block
keep_block-inv b none r cs e = absurd (cc)
keep_block-inv b (some (x, ds)) r cs e = (ds, ground arith, ground arith)

first_fit-Cut :
    (count : ℕ) (bs : Blocks) (r : ℕ) (cs : Blocks)
    → All (λ b. b.1 ≢ count) bs
    → first_fit count bs ≡ some (r, cs)
    → Cut count bs r cs
unfolding first_fit
first_fit-Cut count [] r cs exact e = absurd (cc)
first_fit-Cut count ((a, s) ∷ bs) r cs exact e = elim (Bool-cases (ltb count s)) [
  | inl small ↦ record {
    pre = [];
    at = a;
    size = s;
    vs = bs;
    whole = refl;
    left = ground (arith, exact.0);
    address = ground (arith, exact.0);
    large = ground arith;
  }
  | inr large ↦
      let k =
        keep_block-inv (a, s) (first_fit count bs) r cs (rw (==_ne s count exact.0, large) at e) in
      let c = first_fit-Cut count bs r k.0 exact.1 k.1 in
      record {
        pre = (a, s) ∷ c.pre;
        at = c.at;
        size = c.size;
        vs = c.vs;
        whole = ap (λ l. (a, s) ∷ l) c.whole;
        left = k.2 ∙ ap (λ l. (a, s) ∷ l) c.left;
        address = c.address;
        large = c.large;
      }
]

-- In a list that rises, what stands before a block ends below it, and what stands behind begins
-- above its end.
Rises-split :
    (us : Blocks) (a s : ℕ) (vs : Blocks)
    → Rises (us ++ (a, s) ∷ vs)
    → Below a us × EndsBelow (a + s * 0x1000) vs
Rises-split [] a s vs r = (tt, r.0)
Rises-split ((x, t) ∷ []) a s vs r = ((r.0, tt), r.1.0)
Rises-split ((x, t) ∷ (y, u) ∷ us) a s vs r =
    let (low, e) = Rises-split ((y, u) ∷ us) a s vs r.1 in ((omega (arith, r.0, low.0), low), e)

-- On a free list in the order of the addresses, of which no two blocks touch and none has just the
-- size asked for, freeing the pages that were allocated brings the same free list back.
pub free_phys_pages-alloc_phys_pages :
    (count : ℕ) (m : Machine) (bs : Blocks) (r : ℕ) (cs : Blocks)
    → IsFreeList m bs
    → Rises bs
    → All (λ b. b.1 ≢ count) bs
    → first_fit count bs ≡ some (r, cs)
    → Ensures
        (λ found. Ensures (λ g. IsFreeList g bs) (free_phys_pages found.0 count found.1))
        (alloc_phys_pages count m)
free_phys_pages-alloc_phys_pages count m bs r cs free rises exact fit =
    Ensures-mono _ _ (alloc_phys_pages count m)
      (subst (λ o. Ensures (AllocatesAs bs o) (alloc_phys_pages count m)) fit
        (alloc_phys_pages-AllocatesAs count m bs free))
      (λ found h. freed found h)
  where
    c : Cut count bs r cs
    c = first_fit-Cut count bs r cs exact fit

    freed :
        (found : ℕ × Machine)
        → AllocatesAs bs (some (r, cs)) found
        → Ensures (λ g. IsFreeList g bs) (free_phys_pages found.0 count found.1)
    freed (r', g) h =
        let e : c.size - count + count ≡ c.size = omega (arith, c.large) in
        let rising = Rises-split c.pre c.at c.size c.vs (subst Rises c.whole rises) in
        let k : IsBlock c.at c.size =
          at-IsBlock m c.pre c.at c.size c.vs (subst (IsBlockRing m) c.whole free.ring) in
        let many = total-append c.pre ((c.at, c.size) ∷ c.vs) in
        let fewer = total-append c.pre ((c.at, c.size - count) ∷ c.vs) in
        let bound : total (c.pre ++ (c.at, c.size) ∷ c.vs) ≤ 0x10_0000 =
          subst (λ l. total l ≤ 0x10_0000) c.whole free.bounded in
        let run =
          free_phys_pages-IsFreeList count c.at (c.size - count) c.vs (omega (arith, k, e)) c.pre g
            (subst (IsFreeList g) c.left h.2) rising.0
            (subst (λ n. EndsBelow (c.at + n * 0x1000) c.vs) (sym e) rising.1)
            (omega (arith, many, fewer, e, bound)) in
        subst (λ a. Ensures (λ g2. IsFreeList g2 bs) (free_phys_pages a count g))
          (sym (h.0 ∙ c.address))
          (subst
            (λ l.
              Ensures (λ g2. IsFreeList g2 l)
                (free_phys_pages (c.at + (c.size - count) * 0x1000) count g))
            (ap (λ n. c.pre ++ (c.at, n) ∷ c.vs) e ∙ sym c.whole) run)
