-- ===== src/Memory/Phys/Same.antt =====
-- The free list of src/kernel/memory_manager.c in a machine whose memory has changed elsewhere.
use c4os.Common.{ℕ, ◌≡◌, List, [], ◌∷◌, All, ◌∙◌, minus_one}
use c4os.Ring.{Linked}
use c4os.Ring.Links.{Links}
use c4os.Memory.Window.{Machine, temp_map_page}
use c4os.Memory.Phys.Blocks.{Blocks, addresses, Sizes, IsFreeList}

-- The allocator's own fields are the same.
pub record SameFields (m g : Machine) : Type 0 where
  pub pointer : g.free_phys_memory_pointer ≡ m.free_phys_memory_pointer
  pub count : g.free_page_count ≡ m.free_page_count
  pub mutex : g.phys_memory_mutex ≡ m.phys_memory_mutex

-- The memory is the same at a frame.
abbrev pub SameAt : Machine → Machine → ℕ → Type 0
SameAt m g a = (i : ℕ) → g.word i a ≡ m.word i a

module _ (m g : Machine) where
  Linked-same :
      (p : ℕ) (xs : List ℕ) (s : ℕ)
      → SameAt m g p
      → All (SameAt m g) xs
      → SameAt m g s
      → Linked (m.word 0) (m.word 1) p xs s
      → Linked (g.word 0) (g.word 1) p xs s
  Linked-same p [] s e h f l = (e 0 ∙ l.0, f 1 ∙ l.1)
  Linked-same p (x ∷ xs) s e h f l = (e 0 ∙ l.0, h.0 1 ∙ l.1, Linked-same x xs s h.0 h.1 f l.2)

  Links-same :
      (xs : List ℕ)
      → SameFields m g
      → All (SameAt m g) xs
      → Links minus_one m.free_phys_memory_pointer (m.word 0) (m.word 1) xs
      → Links minus_one g.free_phys_memory_pointer (g.word 0) (g.word 1) xs
  Links-same [] f h l = f.pointer ∙ l
  Links-same (x ∷ xs) f h l = (f.pointer ∙ l.0, Linked-same x xs x h.0 h.1 h.0 l.1)

  Sizes-same :
      (bs : Blocks) → All (SameAt m g) (addresses bs) → Sizes (m.word 2) bs → Sizes (g.word 2) bs
  Sizes-same [] h z = tt
  Sizes-same ((a, s) ∷ bs) h z = (h.0 2 ∙ z.0, Sizes-same bs h.1 z.1)

  pub IsFreeList-same :
      (bs : Blocks)
      → SameFields m g
      → All (SameAt m g) (addresses bs)
      → IsFreeList m bs
      → IsFreeList g bs
  IsFreeList-same bs f h free = record {
    ring = record {
      links = Links-same (addresses bs) f h free.ring.links;
      sizes = Sizes-same bs h free.ring.sizes;
      blocks = free.ring.blocks;
      distinct = free.ring.distinct;
    };
    counted = f.count ∙ free.counted;
    bounded = free.bounded;
    unlocked = f.mutex ∙ free.unlocked;
  }

-- The window may be moved.
pub IsFreeList-temp :
    (a : ℕ) (m : Machine) (bs : Blocks) → IsFreeList m bs → IsFreeList (temp_map_page a m) bs
unfolding temp_map_page
IsFreeList-temp a m bs free = record {
  ring = record {
    links = free.ring.links;
    sizes = free.ring.sizes;
    blocks = free.ring.blocks;
    distinct = free.ring.distinct;
  };
  counted = free.counted;
  bounded = free.bounded;
  unlocked = free.unlocked;
}
