-- ===== src/Memory/Paging/Lookup.antt =====
-- What `map_pages` enters, `get_page_info` finds.
use c4os.Common.{
  ℕ, ◌+◌, ◌*◌, ◌/◌, ◌%◌, ◌≡◌, ◌≢◌, refl, arith, Bool, true, ◌==◌, ==_self, bit_or, or_low_digit,
  Ensures, Ensures-mono, if◌then◌else◌, ◌&&◌, some, ◌∙◌, Bool-cases, inl, inr, ==→eq,
}
use c4os.Memory.Window.{Machine, page_base, temp_map_page, page_base-temp_entry}
use c4os.Memory.Paging.{
  map_pages, get_page_info, find_page_table, set_entry, clear_offset_bits, get_page_directory_index,
  get_page_table_index,
}

-- The entry of the directory for an address.
abbrev pub directory_entry : ℕ → ℕ → Machine → ℕ
directory_entry page_dir vaddr m = m.word (get_page_directory_index vaddr) (page_base page_dir)

-- The directory names a page table for the address, and that table is not the directory itself.
pub record HasTable (page_dir vaddr : ℕ) (m : Machine) : Type 0 where
  pub present : directory_entry page_dir vaddr m % 2 ≡ 1
  pub apart : page_base (directory_entry page_dir vaddr m) ≢ page_base page_dir

pub find_page_table-present :
    (page_dir vaddr : ℕ) (m : Machine)
    → HasTable page_dir vaddr m
    → find_page_table page_dir vaddr m
      ≡ some (some (directory_entry page_dir vaddr m), temp_map_page page_dir m)
unfolding find_page_table
find_page_table-present page_dir vaddr m h = rw (page_base-temp_entry page_dir, h.present)

-- The memory after an entry has been written.
pub set_entry-word :
    (page_table vaddr paddr flags : ℕ) (m : Machine) (i f : ℕ)
    → (set_entry page_table vaddr paddr flags m).word i f ≡ (
        if i == get_page_table_index vaddr && f == page_base page_table
        then bit_or (clear_offset_bits paddr) flags
        else m.word i f)
unfolding set_entry
set_entry-word page_table vaddr paddr flags m i f =
    rw (page_base-temp_entry page_table) (elim (Bool-cases (i == get_page_table_index vaddr)) [
      | inl at ↦ rw (at, ==→eq i (get_page_table_index vaddr) at) refl
      | inr elsewhere ↦ rw elsewhere
    ])

-- What the lookup reads, without the window.
pub get_page_info_lem :
    (page_dir vaddr : ℕ) (m : Machine)
    → directory_entry page_dir vaddr m % 2 ≡ 1
    → (get_page_info page_dir vaddr m).0
      ≡ m.word (get_page_table_index vaddr) (page_base (directory_entry page_dir vaddr m))
unfolding get_page_info
get_page_info_lem page_dir vaddr m present =
    let pde = directory_entry page_dir vaddr m in
    let base : page_base (page_base pde) ≡ page_base pde = omega arith in
    rw (page_base-temp_entry page_dir, present, page_base-temp_entry (page_base pde), base)

-- An entry written to the table that the directory names is the one that the lookup reads.
pub set_entry-get_page_info :
    (page_dir vaddr paddr flags : ℕ) (m : Machine)
    → HasTable page_dir vaddr m
    → (get_page_info page_dir vaddr
        (set_entry (directory_entry page_dir vaddr m) vaddr paddr flags m)).0
      ≡ bit_or (clear_offset_bits paddr) flags
set_entry-get_page_info page_dir vaddr paddr flags m h =
    get_page_info_lem page_dir vaddr g (rw same_entry h.present)
    ∙ (rw same_entry (
        rw
          (
            set_entry-word pde vaddr paddr flags m (get_page_table_index vaddr) (page_base pde),
            ==_self (get_page_table_index vaddr),
            ==_self (page_base pde),
          )
          refl))
  where
    pde : ℕ
    pde = directory_entry page_dir vaddr m

    g : Machine
    g = set_entry pde vaddr paddr flags m

    -- The write to the table leaves the directory as it was.
    same_entry : directory_entry page_dir vaddr g ≡ pde
    same_entry = ground (
      arith,
      set_entry-word pde vaddr paddr flags m (get_page_directory_index vaddr) (page_base page_dir),
      h.apart,
    )

pub HasTable-temp :
    (page_dir vaddr : ℕ) (m : Machine)
    → HasTable page_dir vaddr m
    → HasTable page_dir vaddr (temp_map_page page_dir m)
unfolding temp_map_page
HasTable-temp page_dir vaddr m h = record { present = h.present; apart = h.apart }

-- Where the directory names a page table, mapping one page and looking it up gives the entry that
-- was made of the address and the flags.
map_pages-get_page_info :
    (page_dir vaddr paddr flags : ℕ) (m : Machine)
    → HasTable page_dir vaddr m
    → Ensures
        (λ (ok, g).
          (ok ≡ true)
          × ((get_page_info page_dir vaddr g).0 ≡ bit_or (clear_offset_bits paddr) flags))
        (map_pages page_dir vaddr paddr 1 flags m)
unfolding map_pages
map_pages-get_page_info page_dir vaddr paddr flags m h =
    rw (find_page_table-present page_dir vaddr m h) (
      refl,
      set_entry-get_page_info page_dir vaddr paddr flags (temp_map_page page_dir m)
          (HasTable-temp page_dir vaddr m h),
    )

writable_bit :
    (paddr flags : ℕ) → paddr / 2 % 2 ≡ 1 → bit_or (clear_offset_bits paddr) flags / 2 % 2 ≡ 1
unfolding clear_offset_bits
writable_bit paddr flags w =
    let x = paddr / 16 * 16 + paddr % 4 in
    omega (arith, or_low_digit x flags, or_low_digit (x / 2) (flags / 2))

-- Where the directory names a page table for the address, and that table is not the directory
-- itself, one page whose physical address comes with the bit `PAGE_WRITABLE` set, as an entry read
-- by `get_page_info` does, is mapped, and is writable whatever the flags say: the mask leaves that
-- bit.
pub map_pages_keeps_writable :
    (page_dir vaddr paddr flags : ℕ) (m : Machine)
    → HasTable page_dir vaddr m
    → paddr / 2 % 2 ≡ 1
    → Ensures
        (λ (ok, g). (ok ≡ true) × ((get_page_info page_dir vaddr g).0 / 2 % 2 ≡ 1))
        (map_pages page_dir vaddr paddr 1 flags m)
map_pages_keeps_writable page_dir vaddr paddr flags m h w =
    Ensures-mono
      (λ (r : Bool × Machine).
        (r.0 ≡ true)
        × ((get_page_info page_dir vaddr r.1).0 ≡ bit_or (clear_offset_bits paddr) flags))
      (λ (r : Bool × Machine). (r.0 ≡ true) × ((get_page_info page_dir vaddr r.1).0 / 2 % 2 ≡ 1))
      (map_pages page_dir vaddr paddr 1 flags m)
      (map_pages-get_page_info page_dir vaddr paddr flags m h)
      (λ r k. (k.0, rw k.1 (writable_bit paddr flags w)))
