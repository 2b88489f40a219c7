-- ===== src/Memory/Virtual/Given.antt =====
-- An address that the caller of `alloc_virt_pages` gives (src/kernel/memory_manager.c).
use c4os.Common.{
  ℕ, ◌+◌, ◌≡◌, ◌≢◌, ◌≤◌, ◌<◌, ◌⊎◌, refl, arith, false, Bool-cases, inl, inr, List, [], ◌∷◌, ltb,
  leb, ◌&&◌, length, add32, All, ltb→lt, subst, sym, ==_ne,
}
use c4os.Memory.Phys.{bytes_of}
use c4os.Memory.Virtual.{
  VirtMemoryBlock, AddressSpace, is_blocks_overlapped, given_search, choose_vaddr,
}
use c4os.Memory.Virtual.Tables.{Entries, IsTable}

-- Two ranges of addresses have none in common.
abbrev pub Disjoint : ℕ → ℕ → ℕ → ℕ → Type 0
Disjoint base1 size1 base2 size2 = (base1 + size1 ≤ base2) ⊎ (base2 + size2 ≤ base1)

-- The blocks go downwards: each ends below the one before it, the first below `top`.
abbrev pub Falls : ℕ → List VirtMemoryBlock → Type 0
Falls top [] = Unit {0}
Falls top (b ∷ bs) = (b.base + b.length_ ≤ top) × Falls b.base bs

overlapped-Disjoint :
    (base1 size1 base2 size2 : ℕ)
    → base1 + size1 < 0x1_0000_0000
    → base2 + size2 < 0x1_0000_0000
    → is_blocks_overlapped base1 size1 base2 size2 ≡ false
    → Disjoint base1 size1 base2 size2
unfolding is_blocks_overlapped
overlapped-Disjoint base1 size1 base2 size2 h k e = elim (Bool-cases (leb base2 base1)) [
  | inl le ↦ inr (ground arith)
  | inr gt ↦ inl (ground arith)
]

Falls-below :
    (vaddr size top : ℕ) (bs : List VirtMemoryBlock)
    → top ≤ vaddr
    → Falls top bs
    → All (λ b. Disjoint b.base b.length_ vaddr size) bs
Falls-below vaddr size top [] h f = tt
Falls-below vaddr size top (b ∷ bs) h f =
    (inl (omega (arith, f.0)), Falls-below vaddr size b.base bs (omega (arith, f.0)) f.1)

given_search-Disjoint :
    (lo vaddr count top : ℕ) (s : AddressSpace) (bs : List VirtMemoryBlock)
    → Entries s.block lo bs
    → Falls top bs
    → top < 0x1_0000_0000
    → vaddr + bytes_of count < 0x1_0000_0000
    → (given_search (length bs) lo vaddr count s).0 ≢ 0
    → ((given_search (length bs) lo vaddr count s).0 ≡ vaddr)
      × All (λ b. Disjoint b.base b.length_ vaddr (bytes_of count)) bs
unfolding given_search
given_search-Disjoint lo vaddr count top s [] e f ht hv = λ ne. (refl, tt)
given_search-Disjoint lo vaddr count top s (b ∷ bs) e f ht hv =
    rw e.0 (elim (Bool-cases (is_blocks_overlapped b.base b.length_ vaddr (bytes_of count))) [
      | inl taken ↦ rw taken (λ ne. absurd (ne refl))
      | inr free ↦
          let apart =
            overlapped-Disjoint b.base b.length_ vaddr (bytes_of count) (omega (arith, f.0)) hv
              free in
          rw free (elim (Bool-cases (ltb b.base vaddr)) [
            | inl below ↦ rw below (λ ne. (
              refl,
              (
                apart,
                Falls-below vaddr (bytes_of count) b.base bs
                    (grind (arith, ltb→lt b.base vaddr below)) f.1,
              ),
            ))
            | inr above ↦ rw above (λ ne.
                let (same, all) =
                  given_search-Disjoint (lo + 1) vaddr count b.base s bs e.1 f.1
                    (omega (arith, f.0)) hv ne in
                (same, (apart, all)))
          ])
    ])

-- In an address space that ends below 4 GB, and whose blocks go downwards in the table from its end,
-- an address that the caller gives, not null, with pages that end below 4 GB, is taken only as it
-- is, and only where the pages lie in the address space and meet none of its blocks.
pub choose_vaddr-Disjoint :
    (vaddr count : ℕ) (s : AddressSpace) (bs : List VirtMemoryBlock)
    → IsTable s bs
    → Falls s.end_ bs
    → s.end_ < 0x1_0000_0000
    → vaddr ≢ 0
    → vaddr + bytes_of count < 0x1_0000_0000
    → (choose_vaddr vaddr count s).0 ≢ 0
    → ((choose_vaddr vaddr count s).0 ≡ vaddr)
      × (s.start ≤ vaddr)
      × (vaddr + bytes_of count < s.end_)
      × All (λ b. Disjoint b.base b.length_ vaddr (bytes_of count)) bs
unfolding choose_vaddr
choose_vaddr-Disjoint vaddr count s bs t f he nz hv =
    rw (==_ne vaddr 0 nz)
      (elim (Bool-cases (leb s.start vaddr && ltb (add32 vaddr (bytes_of count)) s.end_)) [
        | inl e ↦ rw e (λ ne.
            let (same, all) =
              subst
                (λ n.
                  (given_search n 0 vaddr count s).0 ≢ 0
                  → ((given_search n 0 vaddr count s).0 ≡ vaddr)
                    × All (λ b. Disjoint b.base b.length_ vaddr (bytes_of count)) bs)
                (sym t.counted) (given_search-Disjoint 0 vaddr count s.end_ s bs t.entries f he hv)
                ne in
            (same, ground arith, ground arith, all))
        | inr e ↦ rw e (λ ne. absurd (ne refl))
      ])
