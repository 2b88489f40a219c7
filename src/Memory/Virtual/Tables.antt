-- ===== src/Memory/Virtual/Tables.antt =====
-- The table of blocks of an address space as a list (src/kernel/memory_manager.c): what entering
-- and removing a block does to it.
use c4os.Common.{
  ℕ, suc, ◌+◌, ◌-◌, ◌≡◌, ◌≤◌, ◌<◌, arith, true, false, Bool, inl, List, [], ◌∷◌, ◌++◌, ltb, leb,
  ◌&&◌, if◌then◌else◌, length, length-append, add32, lt→ltb, le→leb, All, ap, sym, ◌∙◌,
}
use native.Mathlib.Nat.{zero-add}
use c4os.Stdlib.Bytes.{memcpy}
use c4os.Stdlib.Bytes.Copies.{memcpy_lem, memcpy_up_one}
use c4os.Memory.Virtual.{VirtMemoryBlock, AddressSpace, add_block, find_block, remove_block}

-- From the index `lo` on, the table holds the blocks.
abbrev pub Entries : (ℕ → VirtMemoryBlock) → ℕ → List VirtMemoryBlock → Type 0
Entries f lo [] = Unit {0}
Entries f lo (b ∷ bs) = (f lo ≡ b) × Entries f (lo + 1) bs

pub record IsTable (s : AddressSpace) (bs : List VirtMemoryBlock) : Type 0 where
  pub entries : Entries s.block 0 bs
  pub counted : s.block_count ≡ length bs

-- The block holds the address.
abbrev pub covers : ℕ → VirtMemoryBlock → Bool
covers vaddr b = leb b.base vaddr && ltb vaddr (add32 b.base b.length_)

step : (lo i : ℕ) → lo + 1 + i ≡ lo + suc i
step lo i = omega arith

start_at : (lo : ℕ) → lo + 0 ≡ lo
start_at lo = omega arith

Entries-moved :
    (f g : ℕ → VirtMemoryBlock) (lo lo' : ℕ) (bs : List VirtMemoryBlock)
    → ((i : ℕ) → i < length bs → g (lo' + i) ≡ f (lo + i))
    → Entries f lo bs
    → Entries g lo' bs
Entries-moved f g lo lo' [] h e = tt
Entries-moved f g lo lo' (b ∷ bs) h e = (
  rw (start_at lo, start_at lo') at (h 0 (omega arith)) ∙ e.0,
  Entries-moved f g (lo + 1) (lo' + 1) bs
      (λ i p. rw (step lo i, step lo' i) (h (suc i) (omega arith))) e.1,
)

Entries-split :
    (f : ℕ → VirtMemoryBlock) (lo : ℕ) (xs ys : List VirtMemoryBlock)
    → Entries f lo (xs ++ ys)
    → Entries f lo xs × Entries f (lo + length xs) ys
Entries-split f lo [] ys e = (tt, rw (start_at lo) e)
Entries-split f lo (x ∷ xs) ys e =
    let (p, q) = Entries-split f (lo + 1) xs ys e.1 in ((e.0, p), rw (← step lo (length xs)) q)

Entries-append :
    (f : ℕ → VirtMemoryBlock) (lo : ℕ) (xs ys : List VirtMemoryBlock)
    → Entries f lo xs
    → Entries f (lo + length xs) ys
    → Entries f lo (xs ++ ys)
Entries-append f lo [] ys e k = rw (← start_at lo) k
Entries-append f lo (x ∷ xs) ys e k =
    (e.0, Entries-append f (lo + 1) xs ys e.1 (rw (step lo (length xs)) k))

remove_block-block :
    (k : ℕ) (s : AddressSpace) (j : ℕ)
    → (remove_block k s).block j ≡ (
        if leb k j && ltb j (k + (s.block_count - 1 - k))
        then s.block (j - k + (k + 1))
        else s.block j)
unfolding remove_block
remove_block-block k s j =
    memcpy_lem k (k + 1) (s.block_count - 1 - k) s.block j (inl (omega arith))

remove_block-below :
    (k : ℕ) (s : AddressSpace) (j : ℕ) → j < k → (remove_block k s).block j ≡ s.block j
remove_block-below k s j h = remove_block-block k s j ∙ ground arith

remove_block-above :
    (k : ℕ) (s : AddressSpace) (i : ℕ)
    → k + i + 1 < s.block_count
    → (remove_block k s).block (k + i) ≡ s.block (k + 1 + i)
remove_block-above k s i h =
    remove_block-block k s (k + i)
    ∙ rw
        (le→leb k (k + i) (omega arith), lt→ltb (k + i) (k + (s.block_count - 1 - k)) (omega arith))
        (ap s.block (omega arith))

-- Moving the entries behind one of them down, as `free_virt_pages` does, takes that one out.
pub remove_block-IsTable :
    (s : AddressSpace) (xs : List VirtMemoryBlock) (b : VirtMemoryBlock) (ys : List VirtMemoryBlock)
    → IsTable s (xs ++ b ∷ ys)
    → IsTable (remove_block (length xs) s) (xs ++ ys)
unfolding remove_block
remove_block-IsTable s xs b ys t =
    let (before, behind) = Entries-split s.block 0 xs (b ∷ ys) t.entries in
    let n = length-append xs (b ∷ ys) in
    record {
      entries =
          Entries-append _ 0 xs ys
            (Entries-moved s.block _ 0 0 xs
              (λ i p. remove_block-below (length xs) s (0 + i) (omega arith)) before)
            (Entries-moved s.block _ (0 + length xs + 1) (0 + length xs) ys
              (λ i p.
                ap (λ m. (remove_block (length xs) s).block (m + i)) (zero-add (length xs))
                ∙ remove_block-above (length xs) s i (omega (arith, t.counted, n))
                ∙ ap (λ m. s.block (m + 1 + i)) (sym (zero-add (length xs))))
              behind.1);
      counted = omega (arith, t.counted, n, length-append xs ys);
    }

-- The search of `free_virt_pages` stops at the first block that holds the address.
find_block-length :
    (lo vaddr : ℕ) (s : AddressSpace) (xs : List VirtMemoryBlock) (b : VirtMemoryBlock)
    (ys : List VirtMemoryBlock)
    → Entries s.block lo (xs ++ b ∷ ys)
    → All (λ x. covers vaddr x ≡ false) xs
    → covers vaddr b ≡ true
    → find_block (length (xs ++ b ∷ ys)) lo vaddr s ≡ lo + length xs
unfolding find_block
find_block-length lo vaddr s [] b ys e none_before here =
    rw (ap (covers vaddr) e.0 ∙ here) (omega arith)
find_block-length lo vaddr s (x ∷ xs) b ys e none_before here =
    rw (ap (covers vaddr) e.0 ∙ none_before.0)
      (find_block-length (lo + 1) vaddr s xs b ys e.1 none_before.1 here ∙ step lo (length xs))

-- `add_block` at the end of the table appends.
pub add_block-IsTable :
    (s : AddressSpace) (bs : List VirtMemoryBlock) (b : VirtMemoryBlock)
    → IsTable s bs
    → length bs + 1 < 0x1_0000_0000
    → IsTable (add_block (length bs) b s) (bs ++ b ∷ [])
unfolding add_block
add_block-IsTable s bs b t few = record {
  entries =
      Entries-append _ 0 bs (b ∷ [])
        (Entries-moved s.block _ 0 0 bs (λ i p. ground (arith, copied (0 + i))) t.entries)
        (ground (arith), tt);
  counted = omega (arith, t.counted, length-append bs (b ∷ []));
}
  where
    none_left : s.block_count - length bs ≡ 0
    none_left = omega (arith, t.counted)

    copied :
        (j : ℕ)
        → memcpy (length bs + 1) (length bs) (s.block_count - length bs) s.block j ≡ s.block j
    copied j = unfold memcpy in rw none_left

-- In front of another block `add_block` loses those behind: each entry behind the new one is a copy
-- of the block that stood in the new one's place.
pub add_block_smears :
    (s : AddressSpace) (i : ℕ) (b : VirtMemoryBlock) (j : ℕ)
    → i < j
    → j ≤ s.block_count
    → ((add_block i b s).block i ≡ b) × ((add_block i b s).block j ≡ s.block i)
unfolding add_block
add_block_smears s i b j lo hi = (ground arith, ground (arith, smeared))
  where
    place : j ≡ i + 1 + (j - (i + 1))
    place = omega arith

    smeared : memcpy (i + 1) i (s.block_count - i) s.block j ≡ s.block i
    smeared =
        ap (memcpy (i + 1) i (s.block_count - i) s.block) place
        ∙ memcpy_up_one i (s.block_count - i) s.block (j - (i + 1)) (omega arith)
