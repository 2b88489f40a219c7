-- ===== src/Memory/Virtual/Entered.antt =====
-- `alloc_virt_pages` of src/kernel/memory_manager.c where the caller gives the physical pages, as for the
-- first page of a program.
use c4os.Common.{
  ℕ, suc, ◌+◌, ◌*◌, ◌≡◌, ◌≢◌, ◌≤◌, ◌<◌, refl, arith, Bool, true, false, List, [], ◌∷◌, ◌++◌, ==_ne,
  length, All, ltb, leb, Option, some, ◌>>=◌, Ensures, Ensures-bind, subst, sym, ◌∙◌, add32,
  minus_one, lt→ltb, le→leb,
}
use c4os.Stdlib.Mutex.{mutex_release}
use c4os.Memory.Window.{Machine}
use c4os.Memory.Phys.{bytes_of}
use c4os.Memory.Paging.{map_pages}
use c4os.Memory.Paging.Lookup.{HasTable}
use c4os.Memory.Paging.Runs.{OwnTables, Mapped, map_pages-Mapped}
use c4os.Memory.Virtual.{
  VirtMemoryBlockType, VirtMemoryBlock, vmb_io_memory, AddressSpace, is_blocks_overlapped,
  given_search, choose_vaddr, lock_space, unlock, add_block,
}
use c4os.Memory.Virtual.Tables.{IsTable, Entries, add_block-IsTable}
use c4os.Memory.Virtual.Alloc.{alloc_virt_pages_by, alloc_pages, map_block}

-- An address below all blocks is free, and its place is behind them.
given_search-below :
    (lo vaddr count : ℕ) (s : AddressSpace) (bs : List VirtMemoryBlock)
    → Entries s.block lo bs
    → 0 < bytes_of count
    → All (λ b. vaddr + bytes_of count ≤ b.base) bs
    → All (λ b. b.base < 0x1_0000_0000) bs
    → given_search (length bs) lo vaddr count s ≡ (vaddr, lo + length bs)
unfolding given_search is_blocks_overlapped
given_search-below lo vaddr count s [] e z a w = λ i. (vaddr, end i)
  where
    end : lo ≡ lo + 0
    end = omega arith
given_search-below lo vaddr count s (b ∷ bs) e z a w =
    let meets : ltb b.base (add32 vaddr (bytes_of count)) ≡ false = ground (arith, a.0, w.0) in
    let lower : leb b.base vaddr ≡ false = ground (arith, a.0, z) in
    let before : ltb b.base vaddr ≡ false = ground (arith, a.0) in
    let upper : leb vaddr b.base ≡ true = ground (arith, a.0) in
    rw (e.0, meets, lower, before, upper)
      (given_search-below (lo + 1) vaddr count s bs e.1 z a.1 w.1 ∙ (λ i. (vaddr, place i)))
  where
    place : lo + 1 + length bs ≡ lo + suc (length bs)
    place = omega arith

choose_vaddr-below :
    (vaddr count : ℕ) (s : AddressSpace) (bs : List VirtMemoryBlock)
    → IsTable s bs
    → 0 < bytes_of count
    → All (λ b. vaddr + bytes_of count ≤ b.base) bs
    → All (λ b. b.base < 0x1_0000_0000) bs
    → vaddr ≢ 0
    → s.start ≤ vaddr
    → vaddr + bytes_of count < s.end_
    → s.end_ < 0x1_0000_0000
    → choose_vaddr vaddr count s ≡ (vaddr, length bs)
unfolding choose_vaddr
choose_vaddr-below vaddr count s bs t z a w nz lo hi he =
    let sum : add32 vaddr (bytes_of count) ≡ vaddr + bytes_of count = omega arith in
    rw (==_ne vaddr 0 nz, sum, le→leb s.start vaddr lo, lt→ltb (vaddr + bytes_of count) s.end_ hi)
      (subst (λ n. given_search n 0 vaddr count s ≡ (vaddr, length bs)) (sym t.counted)
        (given_search-below 0 vaddr count s bs t.entries z a w ∙ (λ i. (vaddr, none_before i))))
  where
    none_before : 0 + length bs ≡ length bs
    none_before = omega arith

abbrev pub locked_space : AddressSpace → AddressSpace
locked_space s = record s { mutex = true }

-- The address of `count` pages lies in the address space, whose lock is free, below all of its blocks, and
-- the table has room for one more.
pub record HasPlace (vaddr count : ℕ) (s : AddressSpace) (bs : List VirtMemoryBlock) : Type 0 where
  pub table : IsTable s bs
  pub few : length bs + 1 < 0x1_0000_0000
  pub room : s.block_count ≢ s.block_table_size
  pub free : s.mutex ≡ false
  pub not_null : vaddr ≢ 0
  pub some_pages : 0 < count
  pub from : s.start ≤ vaddr
  pub until : vaddr + count * 0x1000 < s.end_
  pub end_ : s.end_ < 0x1_0000_0000
  pub below : All (λ b. vaddr + count * 0x1000 ≤ b.base) bs
  pub bases : All (λ b. b.base < 0x1_0000_0000) bs

-- Such an address is taken, at the end of the table.
pub choose_vaddr-HasPlace :
    (vaddr count : ℕ) (s : AddressSpace) (bs : List VirtMemoryBlock)
    → HasPlace vaddr count s bs
    → choose_vaddr vaddr count (locked_space s) ≡ (vaddr, length bs)
choose_vaddr-HasPlace vaddr count s bs h =
    let size : bytes_of count ≡ count * 0x1000 = omega (arith, h.until, h.end_) in
    choose_vaddr-below vaddr count (locked_space s) bs
      (record { entries = h.table.entries; counted = h.table.counted })
      (omega (arith, h.some_pages))
      (subst (λ n. All (λ b. vaddr + n ≤ b.base) bs) (sym size) h.below) h.bases h.not_null h.from
      (omega (arith, h.until)) h.end_

-- The pages are mapped, the block stands at the end of the table, and the lock is free.
pub record Entered {K : Type 0} (type_ : VirtMemoryBlockType) (vaddr paddr count flags : ℕ) (k : K)
    (m : Machine) (s : AddressSpace) (bs : List VirtMemoryBlock)
    (r : ℕ × K × Machine × AddressSpace) : Type 0 where
  pub address : r.0 ≡ vaddr
  pub kept : r.1 ≡ k
  pub mapped : Mapped s.page_dir vaddr paddr count flags m (true, r.2)
  pub table :
      IsTable r.3 (bs ++ record { type_ = type_; base = vaddr; length_ = bytes_of count } ∷ [])
  pub unlocked : r.3.mutex ≡ false
  pub same_space : (r.3.page_dir ≡ s.page_dir) × (r.3.start ≡ s.start) × (r.3.end_ ≡ s.end_)

module _ {K : Type 0}
    (grow : K → Machine → AddressSpace → Option (Bool × K × Machine × AddressSpace))
    (vaddr paddr count flags : ℕ) (k : K) (m : Machine) (bs : List VirtMemoryBlock) where
  module _ (type_ : VirtMemoryBlockType) where
    last_block :
        (s : AddressSpace)
        → IsTable s bs
        → length bs + 1 < 0x1_0000_0000
        → (r : Bool × Machine) → Mapped s.page_dir vaddr paddr count flags m r
        → Entered type_ vaddr paddr count flags k m s bs (
          vaddr,
          k,
          r.1,
          record (add_block
              (length bs)
              (record { type_ = type_; base = vaddr; length_ = bytes_of count })
              s) { mutex = false },
        )
    unfolding add_block
    last_block s t few r done =
        let e =
          add_block-IsTable s bs (record { type_ = type_; base = vaddr; length_ = bytes_of count })
            t few in
        record {
          address = refl;
          kept = refl;
          mapped = record { done = refl; entered = done.entered; others = done.others };
          table = record { entries = e.entries; counted = e.counted };
          unlocked = refl;
          same_space = (refl, refl, refl);
        }

    pub map_block-Entered :
        (s : AddressSpace)
        → IsTable s bs
        → length bs + 1 < 0x1_0000_0000
        → s.block_count ≢ s.block_table_size
        → Ensures
            (Mapped s.page_dir vaddr paddr count flags m)
            (map_pages s.page_dir vaddr paddr count flags m)
        → Ensures
            (λ r.
              Entered type_ vaddr paddr count flags k m s bs
                (r.0, r.1, r.2, record r.3 { mutex = false }))
            (map_block grow type_ (length bs) vaddr paddr count flags k m s)
    unfolding map_block
    map_block-Entered s t few room h =
        Ensures-bind (Mapped s.page_dir vaddr paddr count flags m) _
          (map_pages s.page_dir vaddr paddr count flags m) _ h
          (λ r done.
            rw (done.done, ==_ne s.block_count s.block_table_size room) (last_block s t few r done))

  -- The path of the code for given pages and an address that is free.
  alloc_virt_pages_by-map_block :
      (s : AddressSpace)
      → s.mutex ≡ false
      → paddr ≢ minus_one
      → vaddr ≢ 0
      → choose_vaddr vaddr count (locked_space s) ≡ (vaddr, length bs)
      → alloc_virt_pages_by grow vaddr paddr count flags k m s ≡ (
          map_block grow vmb_io_memory (length bs) vaddr paddr count flags k m (locked_space s)
          >>= λ r. some (r.0, r.1, r.2, unlock r.3))
  unfolding alloc_virt_pages_by alloc_pages lock_space
  alloc_virt_pages_by-map_block s free np nz chosen =
      rw (free, chosen, ==_ne vaddr 0 nz, ==_ne paddr minus_one np)
        (rw (==_ne paddr minus_one np) refl)

  -- Where the caller gives an address that has its place below all blocks of the address space, and the
  -- physical pages, and the directory has a page table of its own for each page: the address is returned, all
  -- pages are mapped there, the block stands behind the others in the table, and the lock is free again. The
  -- table does not grow.
  alloc_virt_pages_by-Entered :
      (s : AddressSpace)
      → HasPlace vaddr count s bs
      → paddr ≢ minus_one
      → paddr + count * 0x1000 < 0x1_0000_0000
      → ((i : ℕ) → i < count → HasTable s.page_dir (vaddr + i * 0x1000) m)
      → OwnTables s.page_dir m
      → Ensures
          (Entered vmb_io_memory vaddr paddr count flags k m s bs)
          (alloc_virt_pages_by grow vaddr paddr count flags k m s)
  unfolding mutex_release
  alloc_virt_pages_by-Entered s h np hp there own =
      let s1 = locked_space s in
      subst (Ensures (Entered vmb_io_memory vaddr paddr count flags k m s bs))
        (sym (
          alloc_virt_pages_by-map_block s h.free np h.not_null
            (choose_vaddr-HasPlace vaddr count s bs h)))
        (Ensures-bind _ _ (map_block grow vmb_io_memory (length bs) vaddr paddr count flags k m s1)
          _
          (map_block-Entered vmb_io_memory s1
            (record { entries = h.table.entries; counted = h.table.counted }) h.few h.room
            (map_pages-Mapped count s.page_dir vaddr paddr flags m there own
              (omega (arith, h.until, h.end_)) hp))
          (λ r e. record {
            address = e.address;
            kept = e.kept;
            mapped = e.mapped;
            table = record { entries = e.table.entries; counted = e.table.counted };
            unlocked = refl;
            same_space = e.same_space;
          }))
