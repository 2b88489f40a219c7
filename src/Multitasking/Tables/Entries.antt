-- ===== src/Multitasking/Tables/Entries.antt =====
-- The loop over the entries of a page table in `init_page_tables` of src/kernel/multitasking.c.
use c4os.Common.{
  ℕ, zero, suc, ◌+◌, ◌*◌, ◌%◌, ◌≡◌, ◌≢◌, ◌≤◌, ◌<◌, refl, arith, inl, inr, ◌⊎◌, add32, ◌∙◌, ap,
}
use c4os.Memory.Window.{Machine, page_base, page_size, set_page_word}
use c4os.Memory.Phys.Same.{SameFields}
use c4os.Multitasking.Tables.{fill_entries}

-- The window does not move.
pub fill_entries-window :
    (n lo v : ℕ) (m : Machine) → (fill_entries n lo v m).temp_page_info ≡ m.temp_page_info
unfolding fill_entries
fill_entries-window zero lo v m = refl
fill_entries-window (suc n) lo v m =
    fill_entries-window n (lo + 1) (add32 v page_size) (set_page_word lo v m)

-- A word outside of the entries that the loop fills.
pub fill_entries-outside :
    (n lo v : ℕ) (m : Machine) (i f : ℕ)
    → (i < lo) ⊎ (lo + n ≤ i) ⊎ (f ≢ page_base m.temp_page_info)
    → (fill_entries n lo v m).word i f ≡ m.word i f
unfolding fill_entries
fill_entries-outside zero lo v m i f h = refl
fill_entries-outside (suc n) lo v m i f h =
    fill_entries-outside n (lo + 1) (add32 v page_size) (set_page_word lo v m) i f (elim h [
      | inl p ↦ inl (omega arith)
      | inr q ↦ inr (elim q [ inl r ↦ inl (omega arith) | inr ne ↦ inr ne ])
    ])
    ∙ ground arith

-- The entry number `k` of those that the loop fills.
pub fill_entries-inside :
    (n lo v : ℕ) (m : Machine) (k : ℕ)
    → k < n
    → v < 0x1_0000_0000
    → (fill_entries n lo v m).word (lo + k) (page_base m.temp_page_info)
      ≡ (v + k * 0x1000) % 0x1_0000_0000
unfolding fill_entries
fill_entries-inside zero lo v m k h b = elim h [ ]
fill_entries-inside (suc n) lo v m zero h b =
    fill_entries-outside n (lo + 1) (add32 v page_size) (set_page_word lo v m) (lo + 0)
      (page_base m.temp_page_info) (inl (omega arith))
    ∙ ground arith
fill_entries-inside (suc n) lo v m (suc k) h b =
    ap
      (λ i.
        (fill_entries n (lo + 1) (add32 v page_size) (set_page_word lo v m)).word i
          (page_base m.temp_page_info))
      (omega arith)
    ∙ fill_entries-inside n (lo + 1) (add32 v page_size) (set_page_word lo v m) k (omega arith)
        (omega arith)
    ∙ omega arith

-- The free list's own fields stay as they are.
pub fill_entries-SameFields :
    (n lo v : ℕ) (m g : Machine) → SameFields m g → SameFields m (fill_entries n lo v g)
unfolding fill_entries
fill_entries-SameFields zero lo v m g h = h
fill_entries-SameFields (suc n) lo v m g h =
    fill_entries-SameFields n (lo + 1) (add32 v page_size) m (set_page_word lo v g)
      (record { pointer = h.pointer; count = h.count; mutex = h.mutex })
