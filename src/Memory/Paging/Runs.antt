-- ===== src/Memory/Paging/Runs.antt =====
-- `map_pages` of src/kernel/memory_manager.c on runs of pages.
use c4os.Common.{
  ℕ, zero, suc, ◌+◌, ◌*◌, ◌/◌, ◌≡◌, ◌≢◌, ◌≤◌, ◌<◌, ◌⊎◌, refl, arith, Bool, true, ◌==◌, ==_ne, ==→eq,
  bit_or, Ensures, Ensures-mono, if◌then◌else◌, ◌&&◌, ◌∙◌, Bool-cases, inl, inr, sym, subst, ap,
  add32,
}
use c4os.Memory.Window.{Machine, page_base, temp_map_page}
use c4os.Memory.Paging.{
  map_pages, get_page_info, set_entry, clear_offset_bits, get_page_directory_index,
  get_page_table_index,
}
use c4os.Memory.Paging.Lookup.{
  directory_entry, HasTable, find_page_table-present, set_entry-word, get_page_info_lem,
  set_entry-get_page_info, HasTable-temp,
}

-- The frame of the page table for an address.
abbrev pub table_frame : ℕ → ℕ → Machine → ℕ
table_frame page_dir vaddr m = page_base (directory_entry page_dir vaddr m)

-- No page table stands for two entries of the directory.
abbrev pub OwnTables : ℕ → Machine → Type 0
OwnTables page_dir m =
    (v w : ℕ)
    → HasTable page_dir v m
    → HasTable page_dir w m
    → table_frame page_dir v m ≡ table_frame page_dir w m
    → get_page_directory_index v ≡ get_page_directory_index w

same_page :
    (u w : ℕ)
    → u < 0x1_0000_0000
    → w < 0x1_0000_0000
    → get_page_directory_index w ≡ get_page_directory_index u
    → get_page_table_index w ≡ get_page_table_index u
    → u / 0x1000 ≡ w / 0x1000
unfolding get_page_directory_index get_page_table_index
same_page u w lu lw d t = omega (arith, d, t)

-- One round of `map_pages`, where the table is there.
abbrev put : ℕ → ℕ → ℕ → ℕ → Machine → Machine
put page_dir vaddr paddr flags m =
    set_entry (directory_entry page_dir vaddr m) vaddr paddr flags (temp_map_page page_dir m)

module _ (page_dir u paddr flags : ℕ) (m : Machine) (there : HasTable page_dir u m) where
  word_put :
      (i f : ℕ)
      → (put page_dir u paddr flags m).word i f ≡ (
          if i == get_page_table_index u && f == table_frame page_dir u m
          then bit_or (clear_offset_bits paddr) flags
          else m.word i f)
  unfolding temp_map_page
  word_put i f =
      set_entry-word (directory_entry page_dir u m) u paddr flags (temp_map_page page_dir m) i f

  -- The directory is as it was.
  entry_put :
      (w : ℕ)
      → directory_entry page_dir w (put page_dir u paddr flags m) ≡ directory_entry page_dir w m
  entry_put w =
      ground (arith, word_put (get_page_directory_index w) (page_base page_dir), there.apart)

  HasTable-put :
      (w : ℕ) → HasTable page_dir w m → HasTable page_dir w (put page_dir u paddr flags m)
  HasTable-put w h = record {
    present = rw (entry_put w) h.present;
    apart = rw (entry_put w) h.apart;
  }

  HasTable-unput :
      (w : ℕ) → HasTable page_dir w (put page_dir u paddr flags m) → HasTable page_dir w m
  HasTable-unput w h = record {
    present = rw (← entry_put w) h.present;
    apart = rw (← entry_put w) h.apart;
  }

  OwnTables-put : OwnTables page_dir m → OwnTables page_dir (put page_dir u paddr flags m)
  OwnTables-put own v w hv hw e =
      own v w (HasTable-unput v hv) (HasTable-unput w hw)
        (ap page_base (sym (entry_put v)) ∙ e ∙ ap page_base (entry_put w))

  put_found :
      (get_page_info page_dir u (put page_dir u paddr flags m)).0
      ≡ bit_or (clear_offset_bits paddr) flags
  unfolding temp_map_page
  put_found =
      set_entry-get_page_info page_dir u paddr flags (temp_map_page page_dir m)
        (HasTable-temp page_dir u m there)

  -- The lookup of another page finds what it found.
  get_page_info-put :
      (w : ℕ)
      → OwnTables page_dir m
      → HasTable page_dir w m
      → u < 0x1_0000_0000
      → w < 0x1_0000_0000
      → u / 0x1000 ≢ w / 0x1000
      → (get_page_info page_dir w (put page_dir u paddr flags m)).0 ≡ (get_page_info page_dir w m).0
  get_page_info-put w own h lu lw ne =
      get_page_info_lem page_dir w (put page_dir u paddr flags m) (HasTable-put w h).present
      ∙ rw (entry_put w) (word_put (get_page_table_index w) (table_frame page_dir w m) ∙ apart)
      ∙ sym (get_page_info_lem page_dir w m h.present)
    where
      apart :
          (if get_page_table_index w == get_page_table_index u
              && table_frame page_dir w m == table_frame page_dir u m
            then bit_or (clear_offset_bits paddr) flags
            else m.word (get_page_table_index w) (table_frame page_dir w m))
          ≡ m.word (get_page_table_index w) (table_frame page_dir w m)
      apart = elim (Bool-cases (get_page_table_index w == get_page_table_index u)) [
        | inl e ↦
            rw
              (
                e,
                ==_ne (table_frame page_dir w m) (table_frame page_dir u m) (λ q. ne (
                    same_page u w lu lw (own w u h there q)
                      (==→eq (get_page_table_index w) (get_page_table_index u) e))),
              )
              refl
        | inr e ↦ rw e refl
      ]

first_of : (a : ℕ) → a ≡ a + 0 * 0x1000
first_of a = omega arith

next_of : (a i : ℕ) → a + 0x1000 + i * 0x1000 ≡ a + suc i * 0x1000
next_of a i = omega arith

-- What mapping a run of pages leaves.
pub record Mapped (page_dir vaddr paddr n flags : ℕ) (m : Machine) (r : Bool × Machine)
    : Type 0 where
  pub done : r.0 ≡ true
  pub entered :
      (i : ℕ)
      → i < n
      → (get_page_info page_dir (vaddr + i * 0x1000) r.1).0
        ≡ bit_or (clear_offset_bits (paddr + i * 0x1000)) flags
  pub others :
      (w : ℕ)
      → HasTable page_dir w m
      → w < 0x1_0000_0000
      → (w / 0x1000 < vaddr / 0x1000) ⊎ (vaddr / 0x1000 + n ≤ w / 0x1000)
      → (get_page_info page_dir w r.1).0 ≡ (get_page_info page_dir w m).0

-- The first page of a run, and then the others.
Mapped-put :
    (n page_dir vaddr paddr flags : ℕ) (m : Machine)
    → HasTable page_dir vaddr m
    → OwnTables page_dir m
    → vaddr + suc n * 0x1000 < 0x1_0000_0000
    → (r : Bool × Machine)
    → Mapped page_dir (vaddr + 0x1000) (paddr + 0x1000) n flags (put page_dir vaddr paddr flags m) r
    → Mapped page_dir vaddr paddr (suc n) flags m r
Mapped-put n page_dir vaddr paddr flags m h own lv r later = record {
  done = later.done;
  entered = entered;
  others = λ w hw lw o.
      later.others w (HasTable-put page_dir vaddr paddr flags m h w hw) lw (behind w o)
      ∙ get_page_info-put page_dir vaddr paddr flags m h w own hw (omega arith) lw (differ w o);
}
  where
    behind :
        (w : ℕ)
        → (w / 0x1000 < vaddr / 0x1000) ⊎ (vaddr / 0x1000 + suc n ≤ w / 0x1000)
        → (w / 0x1000 < (vaddr + 0x1000) / 0x1000) ⊎ ((vaddr + 0x1000) / 0x1000 + n ≤ w / 0x1000)
    behind w (inl o) = inl (omega (arith, o))
    behind w (inr o) = inr (omega (arith, o))

    differ :
        (w : ℕ)
        → (w / 0x1000 < vaddr / 0x1000) ⊎ (vaddr / 0x1000 + suc n ≤ w / 0x1000)
        → vaddr / 0x1000 ≢ w / 0x1000
    differ w (inl o) e = omega (arith, o, e)
    differ w (inr o) e = omega (arith, o, e)

    entered :
        (i : ℕ)
        → i < suc n
        → (get_page_info page_dir (vaddr + i * 0x1000) r.1).0
          ≡ bit_or (clear_offset_bits (paddr + i * 0x1000)) flags
    entered zero k =
        subst (λ (v, p). (get_page_info page_dir v r.1).0 ≡ bit_or (clear_offset_bits p) flags)
          (λ j. (first_of vaddr j, first_of paddr j))
          (later.others vaddr (HasTable-put page_dir vaddr paddr flags m h vaddr h) (omega arith)
              (inl (omega arith))
            ∙ put_found page_dir vaddr paddr flags m h)
    entered (suc i) k =
        subst (λ (v, p). (get_page_info page_dir v r.1).0 ≡ bit_or (clear_offset_bits p) flags)
          (λ j. (next_of vaddr i j, next_of paddr i j)) (later.entered i (omega arith))

-- Where the directory names a page table for each page of a run below 4 GB, and no table for two
-- entries, all pages of the run are mapped, each to the frame at its place, and what the lookup
-- finds for every other page that has a table is as it was.
pub map_pages-Mapped :
    (n page_dir vaddr paddr flags : ℕ) (m : Machine)
    → ((i : ℕ) → i < n → HasTable page_dir (vaddr + i * 0x1000) m)
    → OwnTables page_dir m
    → vaddr + n * 0x1000 < 0x1_0000_0000
    → paddr + n * 0x1000 < 0x1_0000_0000
    → Ensures (Mapped page_dir vaddr paddr n flags m) (map_pages page_dir vaddr paddr n flags m)
unfolding map_pages
map_pages-Mapped zero page_dir vaddr paddr flags m there own lv lp = record {
  done = refl;
  entered = λ i k. absurd (omega (arith, k));
  others = λ w h l o. refl;
}
map_pages-Mapped (suc n) page_dir vaddr paddr flags m there own lv lp =
    let h : HasTable page_dir vaddr m =
      subst (λ v. HasTable page_dir v m) (omega arith) (there 0 (omega arith)) in
    let g = put page_dir vaddr paddr flags m in
    let v : add32 vaddr 0x1000 ≡ vaddr + 0x1000 = omega arith in
    let p : add32 paddr 0x1000 ≡ paddr + 0x1000 = omega arith in
    rw (find_page_table-present page_dir vaddr m h, v, p)
      (Ensures-mono (Mapped page_dir (vaddr + 0x1000) (paddr + 0x1000) n flags g)
        (Mapped page_dir vaddr paddr (suc n) flags m)
        (map_pages page_dir (vaddr + 0x1000) (paddr + 0x1000) n flags g)
        (map_pages-Mapped n page_dir (vaddr + 0x1000) (paddr + 0x1000) flags g
          (λ i k.
            HasTable-put page_dir vaddr paddr flags m h (vaddr + 0x1000 + i * 0x1000)
              (subst (λ x. HasTable page_dir x m) (omega arith) (there (suc i) (omega arith))))
          (OwnTables-put page_dir vaddr paddr flags m h own) (omega arith) (omega arith))
        (λ r later. Mapped-put n page_dir vaddr paddr flags m h own lv r later))
