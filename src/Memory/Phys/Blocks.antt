-- ===== src/Memory/Phys/Blocks.antt =====
-- What the free list of src/kernel/memory_manager.c stands for: a list of blocks, each with its
-- address and its size in pages, and the first-fit rule on such lists.
use c4os.Common.{
  false, All, NotIn, refl, ap, sym, ◌∙◌, arith, length, ◌++◌, update, ℕ, ◌+◌, ◌-◌, ◌*◌, ◌%◌, ◌≤◌,
  ◌<◌, ◌≡◌, Option, none, some, List, [], ◌∷◌, ◌==◌, ltb, if◌then◌else◌, minus_one, Distinct,
}
use c4os.Ring.{update_ne}
use c4os.Ring.Links.{Links}
use c4os.Memory.Window.{Machine}

abbrev pub Blocks : Type 0
Blocks = List (ℕ × ℕ)

abbrev pub addresses : Blocks → List ℕ
addresses [] = []
addresses ((a, s) ∷ bs) = a ∷ addresses bs

-- The pages of all blocks.
abbrev pub total : Blocks → ℕ
total [] = 0
total ((a, s) ∷ bs) = s + total bs

-- What the fields `size` say.
abbrev pub Sizes : (ℕ → ℕ) → Blocks → Type 0
Sizes size [] = Unit {0}
Sizes size ((a, s) ∷ bs) = (size a ≡ s) × Sizes size bs

-- A block is of whole pages, not empty, and ends below 4 GB.
abbrev pub IsBlock : ℕ → ℕ → Type 0
IsBlock a s = (a % 0x1000 ≡ 0) × (0 < s) × (a + s * 0x1000 < 0x1_0000_0000)

abbrev pub AreBlocks : Blocks → Type 0
AreBlocks [] = Unit {0}
AreBlocks ((a, s) ∷ bs) = IsBlock a s × AreBlocks bs

-- The ring of the blocks: what the allocator's loops rely on.
pub record IsBlockRing (m : Machine) (bs : Blocks) : Type 0 where
  pub links : Links minus_one m.free_phys_memory_pointer (m.word 0) (m.word 1) (addresses bs)
  pub sizes : Sizes (m.word 2) bs
  pub blocks : AreBlocks bs
  pub distinct : Distinct (addresses bs)

-- The machine's free list is `bs`, and nobody holds its mutex.
pub record IsFreeList (m : Machine) (bs : Blocks) : Type 0 where
  pub ring : IsBlockRing m bs
  pub counted : m.free_page_count ≡ total bs
  pub bounded : total bs ≤ 0x10_0000
  pub unlocked : m.phys_memory_mutex ≡ false

unfoldable pub keep_block : ℕ × ℕ → Option (ℕ × Blocks) → Option (ℕ × Blocks)
keep_block b none = none
keep_block b (some (r, cs)) = some (r, b ∷ cs)

-- First fit: the address of the allocated pages and the blocks that stay free.
unfoldable pub first_fit : ℕ → Blocks → Option (ℕ × Blocks)
unfolding keep_block
first_fit count [] = none
first_fit count ((a, s) ∷ bs) =
    if s == count
    then some (a, bs)
    else (if ltb count s
        then some (a + (s - count) * 0x1000, (a, s - count) ∷ bs)
        else keep_block (a, s) (first_fit count bs))

abbrev pub IsAligned : ℕ → Type 0
IsAligned a = a % 0x1000 ≡ 0

pub addresses-append : (xs ys : Blocks) → addresses (xs ++ ys) ≡ addresses xs ++ addresses ys
addresses-append [] ys = refl
addresses-append ((a, s) ∷ xs) ys = ap (λ l. a ∷ l) (addresses-append xs ys)

pub total-append : (xs ys : Blocks) → total (xs ++ ys) ≡ total xs + total ys
total-append [] ys = omega arith
total-append ((a, s) ∷ xs) ys = omega (arith, total-append xs ys)

pub length-le-total : (bs : Blocks) → AreBlocks bs → length bs ≤ total bs
length-le-total [] h = omega arith
length-le-total ((a, s) ∷ bs) h = omega (arith, length-le-total bs h.1)

pub AreBlocks-IsAligned : (bs : Blocks) → AreBlocks bs → All IsAligned (addresses bs)
AreBlocks-IsAligned [] h = tt
AreBlocks-IsAligned ((a, s) ∷ bs) h = (h.0.0, AreBlocks-IsAligned bs h.1)

pub AreBlocks-of_append : (xs ys : Blocks) → AreBlocks (xs ++ ys) → AreBlocks xs × AreBlocks ys
AreBlocks-of_append [] ys h = (tt, h)
AreBlocks-of_append ((a, s) ∷ xs) ys h = let (p, q) = AreBlocks-of_append xs ys h.1 in ((h.0, p), q)

pub AreBlocks-append : (xs ys : Blocks) → AreBlocks xs → AreBlocks ys → AreBlocks (xs ++ ys)
AreBlocks-append [] ys h k = k
AreBlocks-append ((a, s) ∷ xs) ys h k = (h.0, AreBlocks-append xs ys h.1 k)

module _ (size : ℕ → ℕ) where
  pub Sizes-of_append : (xs ys : Blocks) → Sizes size (xs ++ ys) → Sizes size xs × Sizes size ys
  Sizes-of_append [] ys h = (tt, h)
  Sizes-of_append ((a, s) ∷ xs) ys h = let (p, q) = Sizes-of_append xs ys h.1 in ((h.0, p), q)

  pub Sizes-append : (xs ys : Blocks) → Sizes size xs → Sizes size ys → Sizes size (xs ++ ys)
  Sizes-append [] ys h k = k
  Sizes-append ((a, s) ∷ xs) ys h k = (h.0, Sizes-append xs ys h.1 k)

  -- A size written elsewhere.
  pub Sizes-update :
      (a v : ℕ) (bs : Blocks) → NotIn a (addresses bs) → Sizes size bs → Sizes (update size a v) bs
  Sizes-update a v [] n h = tt
  Sizes-update a v ((b, s) ∷ bs) n h =
      (update_ne size a v b (λ e. n.0 (sym e)) ∙ h.0, Sizes-update a v bs n.1 h.1)
