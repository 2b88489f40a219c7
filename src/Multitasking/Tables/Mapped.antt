-- ===== src/Multitasking/Tables/Mapped.antt =====
-- Where the addresses of a new process lead (src/kernel/multitasking.c).
use c4os.Common.{
  ℕ, ◌+◌, ◌-◌, ◌*◌, ◌/◌, ◌%◌, ◌≡◌, ◌≢◌, ◌<◌, refl, arith, Bool-cases, inl, inr, ltb, if◌then◌else◌,
  bit_or, bit_or_disjoint, ◌∙◌, ap, ap₂, sym, All, List, [], ◌∷◌,
}
use native.Mathlib.Nat.{zero-add}
use c4os.Memory.Window.{Machine, page_base, window_at, temp_map_page}
use c4os.Memory.Phys.Blocks.{Blocks, addresses, IsFreeList}
use c4os.Memory.Phys.Kept.{NoBlock}
use c4os.Memory.Phys.Same.{SameFields, SameAt, IsFreeList-same}
use c4os.Memory.Paging.{get_page_info, get_page_table_index, get_page_directory_index}
use c4os.Memory.Paging.Lookup.{directory_entry, get_page_info_lem}
use c4os.Multitasking.Tables.{
  fill_entries, fill_first_table, fill_directory, user_mode_pte_settings,
}
use c4os.Multitasking.Tables.Entries.{
  fill_entries-window, fill_entries-SameFields, fill_entries-outside, fill_entries-inside,
}

directory_index : (vaddr : ℕ) → vaddr < 0x40_0000 → get_page_directory_index vaddr ≡ 0
unfolding get_page_directory_index
directory_index vaddr h = omega arith

index : (vaddr : ℕ) → vaddr < 0x40_0000 → get_page_table_index vaddr ≡ vaddr / 0x1000
unfolding get_page_table_index
index vaddr h = omega arith

-- The machine of `init_page_tables` once the directory and the first table are filled, before the last
-- allocation.
abbrev pub filled : ℕ → ℕ → ℕ → ℕ → ℕ → ℕ → Machine → Machine
filled page_dir first_table start tss_table kernel_table last_table m =
    fill_first_table first_table start
      (fill_directory page_dir first_table tss_table kernel_table last_table m)

-- The entry for an address in the lower 4 MB of a new process: the first megabyte is mapped to itself,
-- and the three behind it to the memory of the process, from its start on; each page is present,
-- writable and the user's.
abbrev pub first_pages : ℕ → ℕ → ℕ
first_pages start vaddr =
    if ltb vaddr 0x10_0000
    then vaddr / 0x1000 * 0x1000 + 7
    else (bit_or start user_mode_pte_settings + (vaddr / 0x1000 - 256) * 0x1000) % 0x1_0000_0000

module _ (page_dir first_table : ℕ) (frame_dir : page_dir % 0x1000 ≡ 0)
    (frame_table : first_table % 0x1000 ≡ 0) (apart : first_table ≢ page_dir)
    (below : first_table < 0x1_0000_0000) where
  -- The directory's first entry leads to the first table.
  directory-first :
      (tss_table kernel_table last_table : ℕ) (m : Machine)
      → (fill_directory page_dir first_table tss_table kernel_table last_table m).word 0 page_dir
        ≡ first_table + 7
  unfolding fill_directory
  directory-first tss_table kernel_table last_table m = ground (
    arith,
    window_at page_dir frame_dir,
    bit_or_disjoint 12 (first_table / 0x1000) 7 (omega arith),
  )

  -- The two loops, one after the other.
  loops :
      (start : ℕ) (m : Machine)
      → (fill_first_table first_table start m)
        ≡ fill_entries 768 256
            (bit_or start user_mode_pte_settings)
            (fill_entries 256 0 user_mode_pte_settings (temp_map_page first_table m))
  unfolding fill_first_table
  loops start m = refl

  at_table : (m : Machine) → page_base (temp_map_page first_table m).temp_page_info ≡ first_table
  unfolding temp_map_page
  at_table m = window_at first_table frame_table

  after_first :
      (m : Machine)
      → page_base
          (fill_entries 256 0 user_mode_pte_settings (temp_map_page first_table m)).temp_page_info
        ≡ first_table
  after_first m =
      ap page_base (fill_entries-window 256 0 user_mode_pte_settings (temp_map_page first_table m))
      ∙ at_table m

  -- Both loops write to the first table alone.
  fill_first_table-outside :
      (start : ℕ) (m : Machine) (i f : ℕ)
      → f ≢ first_table
      → (fill_first_table first_table start m).word i f ≡ (temp_map_page first_table m).word i f
  fill_first_table-outside start m i f ne =
      ap (λ x. x.word i f) (loops start m)
      ∙ fill_entries-outside 768 256 (bit_or start user_mode_pte_settings)
          (fill_entries 256 0 user_mode_pte_settings (temp_map_page first_table m)) i f
          (inr (inr (λ e. ne (e ∙ after_first m))))
      ∙ fill_entries-outside 256 0 user_mode_pte_settings (temp_map_page first_table m) i f
          (inr (inr (λ e. ne (e ∙ at_table m))))

  first_table-low :
      (start : ℕ) (m : Machine) (i : ℕ)
      → i < 256
      → (fill_first_table first_table start m).word i first_table ≡ i * 0x1000 + 7
  first_table-low start m i h =
      ap (λ x. x.word i first_table) (loops start m)
      ∙ fill_entries-outside 768 256 (bit_or start user_mode_pte_settings)
          (fill_entries 256 0 user_mode_pte_settings (temp_map_page first_table m)) i first_table
          (inl h)
      ∙ ap (λ f. (fill_entries 256 0 user_mode_pte_settings (temp_map_page first_table m)).word i f)
          (sym (at_table m))
      ∙ ap
          (λ j.
            (fill_entries 256 0 user_mode_pte_settings (temp_map_page first_table m)).word j
              (page_base (temp_map_page first_table m).temp_page_info))
          (sym (zero-add i))
      ∙ fill_entries-inside 256 0 user_mode_pte_settings (temp_map_page first_table m) i h
          (omega arith)
      ∙ omega arith

  first_table-high :
      (start : ℕ) (m : Machine) (k : ℕ)
      → k < 768
      → bit_or start user_mode_pte_settings < 0x1_0000_0000
      → (fill_first_table first_table start m).word (256 + k) first_table
        ≡ (bit_or start user_mode_pte_settings + k * 0x1000) % 0x1_0000_0000
  first_table-high start m k h b =
      ap (λ x. x.word (256 + k) first_table) (loops start m)
      ∙ ap
          (λ f.
            (fill_entries 768 256 (bit_or start user_mode_pte_settings)
                (fill_entries 256 0 user_mode_pte_settings (temp_map_page first_table m))).word
              (256 + k) f)
          (sym (after_first m))
      ∙ fill_entries-inside 768 256 (bit_or start user_mode_pte_settings)
          (fill_entries 256 0 user_mode_pte_settings (temp_map_page first_table m)) k h b

  module _ (start tss_table kernel_table last_table : ℕ) (m : Machine) where
    first_directory_entry :
        (vaddr : ℕ)
        → vaddr < 0x40_0000
        → directory_entry page_dir vaddr
            (filled page_dir first_table start tss_table kernel_table last_table m)
          ≡ first_table + 7
    unfolding temp_map_page
    first_directory_entry vaddr h =
        ap₂
          (λ i f. (filled page_dir first_table start tss_table kernel_table last_table m).word i f)
          (directory_index vaddr h) (omega arith)
        ∙ fill_first_table-outside start
            (fill_directory page_dir first_table tss_table kernel_table last_table m) 0 page_dir
            (λ e. apart (sym e))
        ∙ directory-first tss_table kernel_table last_table m

    -- The directory's entry for the last pages below 2 GB.
    pub filled-tss :
        tss_table % 0x1000 ≡ 0
        → (filled page_dir first_table start tss_table kernel_table last_table m).word 511 page_dir
          ≡ tss_table + 3
    unfolding fill_directory temp_map_page
    filled-tss frame_tss =
        fill_first_table-outside start
          (fill_directory page_dir first_table tss_table kernel_table last_table m) 511 page_dir
          (λ e. apart (sym e))
        ∙ ground (
          arith,
          window_at page_dir frame_dir,
          bit_or_disjoint 12 (tss_table / 0x1000) 3 (omega arith),
        )

    -- All other frames are as before.
    pub filled-outside :
        (i f : ℕ)
        → f ≢ first_table
        → f ≢ page_dir
        → (filled page_dir first_table start tss_table kernel_table last_table m).word i f
          ≡ m.word i f
    unfolding fill_directory temp_map_page
    filled-outside i f nt nd =
        fill_first_table-outside start
          (fill_directory page_dir first_table tss_table kernel_table last_table m) i f nt
        ∙ ground (arith, window_at page_dir frame_dir)

    filled-SameFields :
        SameFields m (filled page_dir first_table start tss_table kernel_table last_table m)
    unfolding fill_first_table fill_directory temp_map_page
    filled-SameFields =
        let m1 = fill_directory page_dir first_table tss_table kernel_table last_table m in
        fill_entries-SameFields 768 256 (bit_or start user_mode_pte_settings) m
          (fill_entries 256 0 user_mode_pte_settings (temp_map_page first_table m1))
          (fill_entries-SameFields 256 0 user_mode_pte_settings m (temp_map_page first_table m1)
            (record { pointer = refl; count = refl; mutex = refl }))

    outside-All :
        (xs : List ℕ)
        → All (λ a. a ≢ first_table) xs
        → All (λ a. a ≢ page_dir) xs
        → All (SameAt m (filled page_dir first_table start tss_table kernel_table last_table m)) xs
    outside-All [] nt nd = tt
    outside-All (x ∷ xs) nt nd = (λ i. filled-outside i x nt.0 nd.0, outside-All xs nt.1 nd.1)

    -- So the free list is the same, if no block begins at the two frames.
    pub filled-IsFreeList :
        (bs : Blocks)
        → IsFreeList m bs
        → NoBlock first_table bs
        → NoBlock page_dir bs
        → IsFreeList (filled page_dir first_table start tss_table kernel_table last_table m) bs
    filled-IsFreeList bs free nt nd =
        IsFreeList-same m (filled page_dir first_table start tss_table kernel_table last_table m) bs
          filled-SameFields (outside-All (addresses bs) nt nd) free

    -- The pages of the lower 4 MB, in a machine that has kept the two tables.
    module _ (g : Machine)
        (kept_dir : (i : ℕ)
          → g.word i page_dir
            ≡ (filled page_dir first_table start tss_table kernel_table last_table m).word i
                page_dir)
        (kept_table : (i : ℕ)
          → g.word i first_table
            ≡ (filled page_dir first_table start tss_table kernel_table last_table m).word i
                first_table) where
      entry : (vaddr : ℕ) → vaddr < 0x40_0000 → directory_entry page_dir vaddr g ≡ first_table + 7
      entry vaddr h =
          ap (λ f. g.word (get_page_directory_index vaddr) f) (omega (arith, frame_dir))
          ∙ kept_dir (get_page_directory_index vaddr)
          ∙ ap
              (λ f.
                (filled page_dir first_table start tss_table kernel_table last_table m).word
                  (get_page_directory_index vaddr) f)
              (omega (arith, frame_dir))
          ∙ first_directory_entry vaddr h

      table_word :
          (vaddr : ℕ)
          → vaddr < 0x40_0000
          → (get_page_info page_dir vaddr g).0
            ≡ (filled page_dir first_table start tss_table kernel_table last_table m).word
                (vaddr / 0x1000)
                first_table
      table_word vaddr h =
          get_page_info_lem page_dir vaddr g (omega (arith, entry vaddr h, frame_table))
          ∙ ap₂ g.word (index vaddr h) (omega (arith, entry vaddr h, frame_table))
          ∙ kept_table (vaddr / 0x1000)

      pub get_page_info-fill_first_table :
          (vaddr : ℕ)
          → vaddr < 0x40_0000
          → bit_or start user_mode_pte_settings < 0x1_0000_0000
          → (get_page_info page_dir vaddr g).0 ≡ first_pages start vaddr
      get_page_info-fill_first_table vaddr h b =
          table_word vaddr h ∙ elim (Bool-cases (ltb vaddr 0x10_0000)) [
            | inl low ↦ rw low (
                first_table-low start
                  (fill_directory page_dir first_table tss_table kernel_table last_table m)
                  (vaddr / 0x1000) (ground arith))
            | inr high ↦ rw high (
                ap
                  (λ i.
                    (filled page_dir first_table start tss_table kernel_table last_table m).word i
                      first_table)
                  (ground arith)
                ∙ first_table-high start
                    (fill_directory page_dir first_table tss_table kernel_table last_table m)
                    (vaddr / 0x1000 - 256) (ground arith) b)
          ]
