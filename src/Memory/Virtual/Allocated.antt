-- ===== src/Memory/Virtual/Allocated.antt =====
-- `alloc_virt_pages` of src/kernel/memory_manager.c with pages from the physical allocator.
use c4os.Common.{
  ℕ, ◌+◌, ◌*◌, ◌≡◌, ◌≢◌, ◌<◌, refl, arith, Bool, true, false, List, [], ◌∷◌, ◌==◌, ==_ne, length,
  Bool-cases, inl, inr, ltb, Option, none, some, ◌>>=◌, if◌then◌else◌, Ensures, Ensures-bind,
  Ensures-mono, subst, sym, ap, ◌∙◌, minus_one,
}
use c4os.Stdlib.Mutex.{mutex_release}
use c4os.Memory.Window.{Machine, page_base}
use c4os.Memory.Phys.{alloc_phys_pages}
use c4os.Memory.Phys.Blocks.{Blocks, AreBlocks, IsFreeList, first_fit}
use c4os.Memory.Phys.Refine.{AllocatesAs, alloc_phys_pages-AllocatesAs, keep_block-some}
use c4os.Memory.Phys.Kept.{Keeps, NoBlock, alloc_phys_pages-Keeps}
use c4os.Memory.Paging.{get_page_info, get_page_directory_index, get_page_table_index}
use c4os.Memory.Paging.Lookup.{directory_entry, HasTable, get_page_info_lem}
use c4os.Memory.Paging.Runs.{OwnTables, table_frame, Mapped, map_pages-Mapped}
use c4os.Memory.Virtual.{
  VirtMemoryBlock, vmb_memory, AddressSpace, choose_vaddr, lock_space, unlock,
}
use c4os.Memory.Virtual.Tables.{IsTable}
use c4os.Memory.Virtual.Alloc.{alloc_virt_pages_by, alloc_pages, map_block}
use c4os.Memory.Virtual.Entered.{
  Entered, map_block-Entered, HasPlace, choose_vaddr-HasPlace, locked_space,
}

-- The pages that first fit hands out end below 4 GB.
first_fit-bound :
    (count : ℕ) (bs : Blocks) (r : ℕ) (cs : Blocks)
    → AreBlocks bs
    → first_fit count bs ≡ some (r, cs)
    → r + count * 0x1000 < 0x1_0000_0000
unfolding first_fit
first_fit-bound count [] r cs h e = absurd (cc)
first_fit-bound count ((a, s) ∷ bs) r cs h e = elim (Bool-cases (s == count)) [
  | inl hit ↦ ground (arith, h.0)
  | inr miss ↦ elim (Bool-cases (ltb count s)) [
    | inl small ↦ ground (arith, h.0)
    | inr large ↦
        let k = keep_block-some (a, s) (first_fit count bs) r cs (rw (miss, large) at e) in
        first_fit-bound count bs r k.0 h.1 k.1
  ]
]

pub Ensures-all :
    (P : ℕ × Machine → Type 0) (I : ℕ → Type 0) (Q : ℕ → ℕ × Machine → Type 0)
    (o : Option (ℕ × Machine))
    → Ensures P o
    → ((f : ℕ) → I f → Ensures (Q f) o)
    → Ensures (λ r. P r × ((f : ℕ) → I f → Q f r)) o
Ensures-all P I Q none h g = absurd h
Ensures-all P I Q (some r) h g = (h, g)

-- No free block begins at the directory or at one of its page tables.
pub record AreApart (page_dir : ℕ) (m : Machine) (fs : Blocks) : Type 0 where
  pub directory : NoBlock (page_base page_dir) fs
  pub tables : (v : ℕ) → HasTable page_dir v m → NoBlock (table_frame page_dir v m) fs

-- The page tables are the same in both memories.
module _ (page_dir : ℕ) (m g : Machine) (fs : Blocks) (apart : AreApart page_dir m fs)
    (keeps : (f : ℕ) → NoBlock f fs → Keeps f m g) where
  entry_kept : (v : ℕ) → directory_entry page_dir v g ≡ directory_entry page_dir v m
  entry_kept v = keeps (page_base page_dir) apart.directory (get_page_directory_index v)

  HasTable-kept : (v : ℕ) → HasTable page_dir v m → HasTable page_dir v g
  HasTable-kept v h = record {
    present = rw (entry_kept v) h.present;
    apart = rw (entry_kept v) h.apart;
  }

  HasTable-before : (v : ℕ) → HasTable page_dir v g → HasTable page_dir v m
  HasTable-before v h = record {
    present = rw (← entry_kept v) h.present;
    apart = rw (← entry_kept v) h.apart;
  }

  OwnTables-kept : OwnTables page_dir m → OwnTables page_dir g
  OwnTables-kept own v w hv hw e =
      own v w (HasTable-before v hv) (HasTable-before w hw)
        (ap page_base (sym (entry_kept v)) ∙ e ∙ ap page_base (entry_kept w))

  get_page_info-kept :
      (v : ℕ)
      → HasTable page_dir v m
      → (get_page_info page_dir v g).0 ≡ (get_page_info page_dir v m).0
  get_page_info-kept v h =
      get_page_info_lem page_dir v g (HasTable-kept v h).present
      ∙ rw (entry_kept v)
          (keeps (table_frame page_dir v m) (apart.tables v h) (get_page_table_index v))
      ∙ sym (get_page_info_lem page_dir v m h.present)

  Mapped-kept :
      (vaddr paddr n flags : ℕ) (r : Bool × Machine)
      → Mapped page_dir vaddr paddr n flags g r
      → Mapped page_dir vaddr paddr n flags m r
  Mapped-kept vaddr paddr n flags r h = record {
    done = h.done;
    entered = h.entered;
    others = λ w t lw o. h.others w (HasTable-kept w t) lw o ∙ get_page_info-kept w t;
  }

module _ {K : Type 0}
    (grow : K → Machine → AddressSpace → Option (Bool × K × Machine × AddressSpace))
    (vaddr count flags : ℕ) (k : K) (m : Machine) (bs : List VirtMemoryBlock) where
  -- The pages that were found go the way of given ones.
  abbrev go_on : AddressSpace → ℕ × Machine → Option (ℕ × K × Machine × AddressSpace)
  go_on s x =
      let mapped = map_block grow vmb_memory (length bs) vaddr x.0 count flags k x.1 s in
      if x.0 == minus_one then some (vaddr, k, x.1, s) else mapped

  alloc_virt_pages_by-go_on :
      (s : AddressSpace)
      → s.mutex ≡ false
      → vaddr ≢ 0
      → choose_vaddr vaddr count (locked_space s) ≡ (vaddr, length bs)
      → alloc_virt_pages_by grow vaddr minus_one count flags k m s ≡ (
          (alloc_phys_pages count m >>= go_on (locked_space s)) >>= λ r.
          some (r.0, r.1, r.2, unlock r.3))
  unfolding alloc_virt_pages_by alloc_pages lock_space
  alloc_virt_pages_by-go_on s free nz chosen = rw (free, chosen, ==_ne vaddr 0 nz) refl

  -- What is there once the lock is free.
  abbrev Done : ℕ → AddressSpace → Machine → ℕ × K × Machine × AddressSpace → Type 0
  Done p s before r =
      Entered vmb_memory vaddr p count flags k before s bs
        (r.0, r.1, r.2, record r.3 { mutex = false })

  go_on-Entered :
      (s : AddressSpace) (fs : Blocks) (p : ℕ) (cs : Blocks)
      → IsTable s bs
      → length bs + 1 < 0x1_0000_0000
      → s.block_count ≢ s.block_table_size
      → vaddr + count * 0x1000 < 0x1_0000_0000
      → AreApart s.page_dir m fs
      → ((i : ℕ) → i < count → HasTable s.page_dir (vaddr + i * 0x1000) m)
      → OwnTables s.page_dir m
      → p + count * 0x1000 < 0x1_0000_0000
      → (x : ℕ × Machine) → AllocatesAs fs (some (p, cs)) x
      → ((f : ℕ) → NoBlock f fs → Keeps f m x.1)
      → Ensures (Done p s m) (go_on s x)
  go_on-Entered s fs p cs t few room below apart there own bound x a keeps =
      let g = x.1 in
      let tables : (i : ℕ) → i < count → HasTable s.page_dir (vaddr + i * 0x1000) g =
        λ i q. HasTable-kept s.page_dir m g fs apart keeps (vaddr + i * 0x1000) (there i q) in
      rw (==_ne x.0 minus_one a.1, a.0)
        (Ensures-mono (Done p s g) (Done p s m)
          (map_block grow vmb_memory (length bs) vaddr p count flags k g s)
          (map_block-Entered grow vaddr p count flags k g bs vmb_memory s t few room (
            map_pages-Mapped count s.page_dir vaddr p flags g tables
              (OwnTables-kept s.page_dir m g fs apart keeps own) below bound))
          (λ r e. record {
            address = e.address;
            kept = e.kept;
            mapped =
                Mapped-kept s.page_dir m g fs apart keeps vaddr p count flags (true, r.2) e.mapped;
            table = e.table;
            unlocked = e.unlocked;
            same_space = e.same_space;
          }))

  -- On a sound free list in which first fit finds the pages, where the address has its place below
  -- all blocks of the address space, whose table has room for one more, the directory names a page
  -- table for each page and no table for two entries, and no free block begins at the directory or
  -- at one of its tables: the address is returned, the pages that first fit finds are mapped there
  -- in their order, every other page that has a table is mapped as before, the block stands behind
  -- the others in the table, and the lock is free again.
  pub alloc_virt_pages_by-Allocated :
      (s : AddressSpace) (fs : Blocks) (p : ℕ) (cs : Blocks)
      → HasPlace vaddr count s bs
      → IsFreeList m fs
      → first_fit count fs ≡ some (p, cs)
      → AreApart s.page_dir m fs
      → ((i : ℕ) → i < count → HasTable s.page_dir (vaddr + i * 0x1000) m)
      → OwnTables s.page_dir m
      → Ensures
          (Entered vmb_memory vaddr p count flags k m s bs)
          (alloc_virt_pages_by grow vaddr minus_one count flags k m s)
  unfolding mutex_release
  alloc_virt_pages_by-Allocated s fs p cs h free fit apart there own =
      let s1 = locked_space s in
      let bound = first_fit-bound count fs p cs free.ring.blocks fit in
      let found : Ensures (AllocatesAs fs (some (p, cs))) (alloc_phys_pages count m) =
        subst (λ o. Ensures (AllocatesAs fs o) (alloc_phys_pages count m)) fit
          (alloc_phys_pages-AllocatesAs count m fs free) in
      subst (Ensures (Entered vmb_memory vaddr p count flags k m s bs))
        (sym (
          alloc_virt_pages_by-go_on s h.free h.not_null (choose_vaddr-HasPlace vaddr count s bs h)))
        (Ensures-bind (Done p s1 m) _ (alloc_phys_pages count m >>= go_on s1) _
          (Ensures-bind _ (Done p s1 m) (alloc_phys_pages count m) (go_on s1)
            (Ensures-all (AllocatesAs fs (some (p, cs))) (λ f. NoBlock f fs) (λ f r. Keeps f m r.1)
              (alloc_phys_pages count m) found
              (λ f off. alloc_phys_pages-Keeps f count m fs free off))
            (λ r (a, keeps).
              go_on-Entered s1 fs p cs
                (record { entries = h.table.entries; counted = h.table.counted }) h.few h.room
                (omega (arith, h.until, h.end_)) apart there own bound r a keeps))
          (λ r e. record {
            address = e.address;
            kept = e.kept;
            mapped = e.mapped;
            table = record { entries = e.table.entries; counted = e.table.counted };
            unlocked = refl;
            same_space = e.same_space;
          }))
