-- ===== src/Multitasking/Tables/Made.antt =====
-- The whole of `init_page_tables` of src/kernel/multitasking.c, its pages taken from the free list.
use c4os.Common.{
  ℕ, ◌+◌, ◌-◌, ◌*◌, ◌/◌, ◌%◌, ◌^◌, ◌≡◌, ◌≢◌, ◌<◌, refl, arith, some, ◌∷◌, Ensures, Ensures-bind,
  Ensures-mono, ◌==◌, true, false, ltb, ◌>>=◌, bit_or, bit_or_disjoint, subst, sym, ◌∙◌, ap,
}
use c4os.Memory.Window.{Machine, page_base, window_at, temp_map_page, page_word, set_page_word}
use c4os.Memory.Phys.{alloc_phys_pages}
use c4os.Memory.Phys.Blocks.{Blocks, IsFreeList, first_fit}
use c4os.Memory.Phys.Refine.{AllocatesAs, alloc_phys_pages-AllocatesAs}
use c4os.Memory.Phys.Kept.{Keeps, NoBlock, alloc_phys_pages-Keeps}
use c4os.Memory.Phys.Same.{IsFreeList-temp}
use c4os.Memory.Paging.{get_page_info, get_page_directory_index, get_page_table_index}
use c4os.Memory.Paging.Lookup.{directory_entry, get_page_info_lem}
use c4os.Memory.Virtual.Allocated.{Ensures-all}
use c4os.Multitasking.Tables.{
  user_mode_pte_settings, kernel_pte_settings, init_page_tables, get_kernel_page_table_addr,
  get_last_page_table_addr,
}
use c4os.Multitasking.Tables.Mapped.{
  filled, filled-tss, first_pages, filled-IsFreeList, get_page_info-fill_first_table,
}

-- The last page of the first block is taken.
record Taken (a s : ℕ) (vs : Blocks) (m : Machine) (r : ℕ × Machine) : Type 0 where
  page : r.0 ≡ a + s * 0x1000
  list : IsFreeList r.1 ((a, s) ∷ vs)
  kept : (f : ℕ) → NoBlock f ((a, s) ∷ vs) → Keeps f m r.1

last-first_fit :
    (a s : ℕ) (vs : Blocks)
    → 0 < s
    → first_fit 1 ((a, s + 1) ∷ vs) ≡ some (a + s * 0x1000, (a, s) ∷ vs)
unfolding first_fit
last-first_fit a s vs more =
    let one : (s + 1 == 1) ≡ false = ground (arith, more) in
    let many : ltb 1 (s + 1) ≡ true = ground (arith, more) in
    let rest : s + 1 - 1 ≡ s = omega arith in rw (one, many, rest) refl

alloc_phys_pages-Taken :
    (a s t : ℕ) (vs : Blocks) (m : Machine)
    → 0 < s
    → t ≡ s + 1
    → IsFreeList m ((a, t) ∷ vs)
    → Ensures (Taken a s vs m) (alloc_phys_pages 1 m)
alloc_phys_pages-Taken a s t vs m more e free =
    let list = subst (λ n. IsFreeList m ((a, n) ∷ vs)) e free in
    Ensures-mono _ (Taken a s vs m) (alloc_phys_pages 1 m)
      (Ensures-all (AllocatesAs ((a, s + 1) ∷ vs) (some (a + s * 0x1000, (a, s) ∷ vs)))
        (λ f. NoBlock f ((a, s) ∷ vs)) (λ f r. Keeps f m r.1) (alloc_phys_pages 1 m)
        (subst (λ o. Ensures (AllocatesAs ((a, s + 1) ∷ vs) o) (alloc_phys_pages 1 m))
          (last-first_fit a s vs more) (alloc_phys_pages-AllocatesAs 1 m ((a, s + 1) ∷ vs) list))
        (λ f off. alloc_phys_pages-Keeps f 1 m ((a, s + 1) ∷ vs) list off))
      (λ r (found, kept). record { page = found.0; list = found.2; kept = kept })

-- The entry of the page of the task state segment, through the two tables.
abbrev pub tss_address : ℕ
tss_address = 0x7fff_d000

-- The directory of the new process is at the address; the entry for `vaddr` is the one it should have,
-- and that for the task state segment leads to `tss_page`, present and writable.
abbrev pub IsMade : ℕ → ℕ → ℕ → ℕ → ℕ × Machine → Type 0
IsMade page_dir tss_page start vaddr (d, g) =
    (d ≡ page_dir)
    × ((get_page_info page_dir vaddr g).0 ≡ first_pages start vaddr)
    × ((get_page_info page_dir tss_address g).0 ≡ tss_page + 3)

page_and_flags : (p : ℕ) → p % 0x1000 ≡ 0 → bit_or p kernel_pte_settings ≡ p + 3
page_and_flags p frame =
    let pages : p ≡ p / 0x1000 * 2 ^ 12 = omega (arith, frame) in
    ap (λ q. bit_or q 3) pages
    ∙ bit_or_disjoint 12 (p / 0x1000) 3 (omega arith)
    ∙ omega (arith, frame)

-- What a directory entry and a table entry lead to.
two_levels :
    (page_dir tss_table tss_page : ℕ) (g : Machine)
    → page_dir % 0x1000 ≡ 0
    → tss_table % 0x1000 ≡ 0
    → g.word 511 page_dir ≡ tss_table + 3
    → g.word 1021 tss_table ≡ tss_page + 3
    → (get_page_info page_dir tss_address g).0 ≡ tss_page + 3
unfolding get_page_directory_index get_page_table_index
two_levels page_dir tss_table tss_page g frame_dir frame_tss above below =
    let here : page_base page_dir ≡ page_dir = omega (arith, frame_dir) in
    let entry : directory_entry page_dir tss_address g ≡ tss_table + 3 =
      ap (λ f. g.word 511 f) here ∙ above in
    get_page_info_lem page_dir tss_address g (omega (arith, entry, frame_tss))
    ∙ ap (λ f. g.word 1021 f) (omega (arith, entry, frame_tss))
    ∙ below

module _ (page_dir first_table tss_table kernel_table last_table start vaddr a s : ℕ) (vs : Blocks)
    (m : Machine) where
  -- The fourth page, and its entry, leave the directory and the first table as they are.
  fourth_page :
      IsFreeList m ((a, s + 2) ∷ vs)
      → first_table ≡ a + (s + 4) * 0x1000
      → tss_table ≡ a + (s + 3) * 0x1000
      → page_dir ≡ a + (s + 2) * 0x1000
      → NoBlock first_table vs
      → NoBlock page_dir vs
      → first_table < 0x1_0000_0000
      → bit_or start user_mode_pte_settings < 0x1_0000_0000
      → vaddr < 0x40_0000
      → Ensures (IsMade page_dir (a + (s + 1) * 0x1000) start vaddr) (
          alloc_phys_pages 1 (filled page_dir first_table start tss_table kernel_table last_table m)
          >>= λ (x : ℕ × Machine). some (
            page_dir,
            set_page_word 1021 (bit_or x.0 kernel_pte_settings) (temp_map_page tss_table x.1),
          ))
  unfolding temp_map_page
  fourth_page free et es ed nt nd below fits low =
      let whole = free.ring.blocks.0.0 in
      let frame_dir : page_dir % 0x1000 ≡ 0 = omega (arith, ed, whole) in
      let frame_table : first_table % 0x1000 ≡ 0 = omega (arith, et, whole) in
      let frame_tss : tss_table % 0x1000 ≡ 0 = omega (arith, es, whole) in
      let apart : first_table ≢ page_dir = λ e. omega (arith, e, et, ed) in
      let g = filled page_dir first_table start tss_table kernel_table last_table m in
      Ensures-bind (Taken a (s + 1) vs g) (IsMade page_dir (a + (s + 1) * 0x1000) start vaddr)
        (alloc_phys_pages 1 g) _
        (alloc_phys_pages-Taken a (s + 1) (s + 2) vs g (omega arith) (omega arith) (
          filled-IsFreeList page_dir first_table frame_dir frame_table apart below start tss_table
            kernel_table last_table m ((a, s + 2) ∷ vs) free ((λ e. omega (arith, e, et)), nt)
            ((λ e. omega (arith, e, ed)), nd)))
        (λ x t. (
          refl,
          get_page_info-fill_first_table page_dir first_table frame_dir frame_table apart below
              start tss_table kernel_table last_table m
              (set_page_word 1021 (bit_or x.0 kernel_pte_settings) (temp_map_page tss_table x.1))
              (λ i.
                ground (arith, window_at tss_table frame_tss, es, ed)
                ∙ t.kept page_dir ((λ e. omega (arith, e, ed)), nd) i)
              (λ i.
                ground (arith, window_at tss_table frame_tss, es, et)
                ∙ t.kept first_table ((λ e. omega (arith, e, et)), nt) i)
              vaddr low fits,
          two_levels page_dir tss_table (a + (s + 1) * 0x1000)
              (set_page_word 1021 (bit_or x.0 kernel_pte_settings) (temp_map_page tss_table x.1))
              frame_dir frame_tss
              (ground (arith, window_at tss_table frame_tss, es, ed)
                ∙ t.kept page_dir ((λ e. omega (arith, e, ed)), nd) 511
                ∙ filled-tss page_dir first_table frame_dir frame_table apart below start tss_table
                    kernel_table last_table m frame_tss)
              (ground (arith, window_at tss_table frame_tss)
                ∙ ap (λ p. bit_or p kernel_pte_settings) t.page
                ∙ page_and_flags (a + (s + 1) * 0x1000) (omega (arith, whole))),
        ))

-- On a sound free list whose first block has at least five pages, where no other block begins at its
-- last or its third last page, and with a start below 4 GB: a new process has its directory in the
-- third page from the end of the block, and there the entry of an address below 4 MB maps the first
-- megabyte to itself, and the three behind it to the memory of the process, from its start on, with
-- the flags of a page that is present, writable and the user's, as a number of 32 bits; the page at
-- 0x7fffd000, for the task state segment, is the fourth page from the end of the block, present and
-- writable.
pub init_page_tables-IsMade :
    (kernel_page_dir start vaddr a s : ℕ) (vs : Blocks) (m : Machine)
    → IsFreeList m ((a, s + 5) ∷ vs)
    → NoBlock (a + (s + 4) * 0x1000) vs
    → NoBlock (a + (s + 2) * 0x1000) vs
    → bit_or start user_mode_pte_settings < 0x1_0000_0000
    → vaddr < 0x40_0000
    → Ensures
        (IsMade (a + (s + 2) * 0x1000) (a + (s + 1) * 0x1000) start vaddr)
        (init_page_tables kernel_page_dir start m)
unfolding init_page_tables get_kernel_page_table_addr get_last_page_table_addr
init_page_tables-IsMade kernel_page_dir start vaddr a s vs m free n4 n2 fits low =
    let bound = free.ring.blocks.0 in
    Ensures-bind (Taken a (s + 4) vs m)
      (IsMade (a + (s + 2) * 0x1000) (a + (s + 1) * 0x1000) start vaddr) (alloc_phys_pages 1 m) _
      (alloc_phys_pages-Taken a (s + 4) (s + 5) vs m (omega arith) (omega arith) free)
      (λ r1 t1.
        Ensures-bind (Taken a (s + 3) vs r1.1)
          (IsMade (a + (s + 2) * 0x1000) (a + (s + 1) * 0x1000) start vaddr)
          (alloc_phys_pages 1 r1.1) _
          (alloc_phys_pages-Taken a (s + 3) (s + 4) vs r1.1 (omega arith) (omega arith) t1.list)
          (λ r2 t2.
            let m3 = temp_map_page kernel_page_dir r2.1 in
            let m4 = temp_map_page kernel_page_dir m3 in
            Ensures-bind (Taken a (s + 2) vs m4)
              (IsMade (a + (s + 2) * 0x1000) (a + (s + 1) * 0x1000) start vaddr)
              (alloc_phys_pages 1 m4) _
              (alloc_phys_pages-Taken a (s + 2) (s + 3) vs m4 (omega arith) (omega arith) (
                IsFreeList-temp kernel_page_dir m3 ((a, s + 3) ∷ vs)
                  (IsFreeList-temp kernel_page_dir r2.1 ((a, s + 3) ∷ vs) t2.list)))
              (λ r3 t3.
                Ensures-mono (IsMade r3.0 (a + (s + 1) * 0x1000) start vaddr)
                  (IsMade (a + (s + 2) * 0x1000) (a + (s + 1) * 0x1000) start vaddr) _
                  (fourth_page r3.0 r1.0 r2.0 (page_word 1022 m3) (page_word 1023 m4) start vaddr a
                    s vs r3.1 t3.list t1.page t2.page t3.page
                    (subst (λ f. NoBlock f vs) (sym t1.page) n4)
                    (subst (λ f. NoBlock f vs) (sym t3.page) n2) (omega (arith, t1.page, bound))
                    fits low)
                  (λ r h. subst (λ p. IsMade p (a + (s + 1) * 0x1000) start vaddr r) t3.page h))))
