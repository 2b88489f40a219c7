-- ===== src/Memory/Virtual.antt =====
-- The virtual memory of src/kernel/memory_manager.c (`alloc_virt_pages`, `free_virt_pages`). A table
-- of blocks is a function of the index: its own page frames are not part of the machine's words.
-- Pointers are 32-bit numbers, and the null pointer is 0.
pub mod Alloc
pub mod Tables
pub mod Given
pub mod Entered
pub mod Allocated
use c4os.Common.{
  ℕ, zero, suc, ◌+◌, ◌-◌, ◌*◌, ◌/◌, ◌%◌, Bool, true, false, not, ◌&&◌, ◌||◌, Option, none, some,
  ◌==◌, ltb, leb, if◌then◌else◌, ◌>>=◌, add32, sub32, u32, minus_one, update, bit_or, shr,
}
use c4os.Stdlib.Bytes.{memcpy}
use c4os.Stdlib.Mutex.{mutex_get, mutex_release}
use c4os.Memory.Window.{Machine, page_base, page_present, page_writable}
use c4os.Memory.Phys.{bytes_of, alloc_phys_pages, free_phys_pages}
use c4os.Memory.Paging.{map_pages, get_page_info}

pub data VirtMemoryBlockType : Type 0 where
  vmb_reserved vmb_memory vmb_io_memory : VirtMemoryBlockType

pub record VirtMemoryBlock : Type 0 where
  pub type_ : VirtMemoryBlockType
  pub base : ℕ
  pub length_ : ℕ

-- `blocks_address` is the pointer `blocks`, and `block` what it points to.
pub record AddressSpace : Type 0 where
  pub page_dir : ℕ
  pub start : ℕ
  pub end_ : ℕ
  pub block_table_size : ℕ
  pub block_count : ℕ
  pub blocks_address : ℕ
  pub block : ℕ → VirtMemoryBlock
  pub mutex : Bool

unfoldable pub is_blocks_overlapped : ℕ → ℕ → ℕ → ℕ → Bool
is_blocks_overlapped base1 size1 base2 size2 =
    (leb base2 base1 && ltb base1 (add32 base2 size2))
    || (leb base1 base2 && ltb base2 (add32 base1 size1))

-- The search from the top: below each block that is in the way. The second size is `count`, in
-- pages. The result is the address and the index.
unfoldable pub top_search : ℕ → ℕ → ℕ → ℕ → AddressSpace → ℕ × ℕ
unfolding is_blocks_overlapped
top_search zero i vaddr count s = (vaddr, i)
top_search (suc n) i vaddr count s =
    let b = s.block i in
    let rest = top_search n (i + 1) (sub32 b.base (bytes_of count)) count s in
    if is_blocks_overlapped b.base b.length_ vaddr count then rest else (vaddr, i)

-- The test of an address that the caller gives: 0 if it is taken.
unfoldable pub given_search : ℕ → ℕ → ℕ → ℕ → AddressSpace → ℕ × ℕ
given_search zero i vaddr count s = (vaddr, i)
given_search (suc n) i vaddr count s =
    let b = s.block i in
    let rest = given_search n (i + 1) vaddr count s in
    if is_blocks_overlapped b.base b.length_ vaddr (bytes_of count)
    then (0, i)
    else (if ltb b.base vaddr then (vaddr, i) else rest)

-- With an address out of range the index is not set, and not used either.
unfoldable pub choose_vaddr : ℕ → ℕ → AddressSpace → ℕ × ℕ
unfolding top_search given_search
choose_vaddr vaddr count s =
    if vaddr == 0
    then top_search s.block_count 0 (add32 (sub32 s.end_ (bytes_of count)) 1) count s
    else (if leb s.start vaddr && ltb (add32 vaddr (bytes_of count)) s.end_
        then given_search s.block_count 0 vaddr count s
        else (0, 0))

-- The blocks from `i` on are copied one place up, and the new block is written.
unfoldable pub add_block : ℕ → VirtMemoryBlock → AddressSpace → AddressSpace
unfolding memcpy
add_block i b s = record s {
  block = update (memcpy (i + 1) i (s.block_count - i) s.block) i b;
  block_count = add32 s.block_count 1;
}

-- The size of the grown table in pages; a block has 12 bytes.
unfoldable pub grown_size : AddressSpace → ℕ
grown_size s = shr (add32 (page_base (add32 (u32 (s.block_table_size * 12)) 0xfff)) 0x1000) 12

abbrev pub unlock : AddressSpace → AddressSpace
unlock s = record s { mutex = mutex_release s.mutex }

unfoldable pub lock_space : AddressSpace → Option AddressSpace
lock_space s = do (_, x) ← mutex_get s.mutex true; some (record s { mutex = x })

-- The index of the block that holds the address, or the number of blocks.
unfoldable pub find_block : ℕ → ℕ → ℕ → AddressSpace → ℕ
find_block zero i vaddr s = i
find_block (suc n) i vaddr s =
    let b = s.block i in
    let rest = find_block n (i + 1) vaddr s in
    if leb b.base vaddr && ltb vaddr (add32 b.base b.length_) then i else rest

-- `block_count--`, and the blocks behind `i` are copied one place down.
unfoldable pub remove_block : ℕ → AddressSpace → AddressSpace
unfolding memcpy
remove_block i s =
    let n = s.block_count - 1 in
    record s { block = memcpy i (i + 1) (n - i) s.block; block_count = n }
