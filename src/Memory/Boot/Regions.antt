-- ===== src/Memory/Boot/Regions.antt =====
-- The memory that `init_memory_manager` of src/kernel/memory_manager.c finds free.
use c4os.Common.{
  ℕ, ◌+◌, ◌/◌, ◌≡◌, ◌≢◌, ◌<◌, ◌≤◌, refl, arith, true, false, List, [], ◌∷◌, ◌++◌, All, Ensures,
  Ensures-bind, u32, shr, ==_ne,
}
use c4os.Memory.Window.{Machine}
use c4os.Memory.Phys.{free_phys_pages}
use c4os.Memory.Phys.Blocks.{IsBlock, IsFreeList}
use c4os.Memory.Phys.Freed.{free_phys_pages_first}
use c4os.Memory.Boot.{MemoryMapEntry, is_available, free_regions}

-- Areas that are passed over.
abbrev pub Passed : List MemoryMapEntry → Type 0
Passed es = All (λ e. (e.type_ ≢ 0) × (is_available e ≡ false)) es

free_regions-append :
    (es map_ : List MemoryMapEntry) (n : ℕ) (m : Machine)
    → Passed es
    → free_regions (es ++ map_) n m ≡ free_regions map_ n m
unfolding free_regions
free_regions-append [] map_ n m h = refl
free_regions-append (e ∷ es) map_ n m h =
    rw (==_ne e.type_ 0 h.0.0, h.0.1) (free_regions-append es map_ n m h.1)

-- The size of the memory and the free list.
abbrev pub Found : MemoryMapEntry → ℕ × Machine → Type 0
Found e r = (r.0 ≡ 0x10_0000 + e.length_) × IsFreeList r.1 ((e.base, e.length_ / 0x1000) ∷ [])

-- A memory map with one available area from 1 MB on, which begins with a page, has at least a page
-- and ends below 4 GB, between areas that are not available there, then an entry of type 0, and no
-- page free before: the whole pages of the area become the only free block, and the size of the
-- memory is that of the area and of the first megabyte.
pub free_regions-Found :
    (before behind rest : List MemoryMapEntry) (e last : MemoryMapEntry) (m : Machine)
    → Passed before
    → Passed behind
    → e.type_ ≡ 1
    → 0x10_0000 ≤ e.base
    → IsBlock e.base (e.length_ / 0x1000)
    → e.base + e.length_ < 0x1_0000_0000
    → last.type_ ≡ 0
    → IsFreeList m []
    → Ensures (Found e) (free_regions (before ++ e ∷ (behind ++ last ∷ rest)) 0x10_0000 m)
unfolding free_regions
free_regions-Found before behind rest e last m p q t lo k top z free =
    let a : is_available e ≡ true = unfold is_available in ground arith in
    let size : u32 (0x10_0000 + e.length_) ≡ 0x10_0000 + e.length_ = omega arith in
    let base : u32 e.base ≡ e.base = omega arith in
    let pages : u32 (shr e.length_ 12) ≡ e.length_ / 0x1000 = omega arith in
    rw
      (
        free_regions-append before (e ∷ (behind ++ last ∷ rest)) 0x10_0000 m p,
        ==_ne e.type_ 0 (λ n. omega (arith, t, n)),
        a,
        base,
        pages,
      )
      (Ensures-bind (λ g. IsFreeList g ((e.base, e.length_ / 0x1000) ∷ [])) (Found e)
        (free_phys_pages e.base (e.length_ / 0x1000) m)
        (free_regions (behind ++ last ∷ rest) (u32 (0x10_0000 + e.length_)))
        (free_phys_pages_first e.base (e.length_ / 0x1000) m free k)
        (λ g h.
          rw (free_regions-append behind (last ∷ rest) (u32 (0x10_0000 + e.length_)) g q, z)
            (size, h)))
