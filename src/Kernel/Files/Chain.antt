-- ===== src/Kernel/Files/Chain.antt =====
-- `find_file` of src/kernel/kernel.c on a chain of file headers.
use c4os.Common.{
  ℕ, zero, suc, ◌+◌, ◌≡◌, ◌<◌, ◌≢◌, arith, List, [], ◌∷◌, Option, none, some, if◌then◌else◌, u32,
  minus_one, length, Bool-cases, inl, inr, ==_ne,
}
use c4os.Stdlib.Bytes.{strcmp_equal}
use c4os.Kernel.Files.{FileHeader, indicator, data_pointer_loop, get_file_data_pointer, find_file}

abbrev pub last_word : ℕ → List ℕ → ℕ
last_word n [] = n
last_word n (w ∷ ws) = last_word (u32 w) ws

module _ (header_at : ℕ → FileHeader) (word_at : ℕ → ℕ → ℕ) where
  -- From number `i` on the sector holds the words, and then the indicator.
  abbrev pub Words : ℕ → ℕ → List ℕ → Type 0
  Words sector i [] = word_at sector i ≡ indicator
  Words sector i (w ∷ ws) = (word_at sector i ≡ w) × (w ≢ indicator) × Words sector (i + 1) ws

  -- The files of a directory in order: each names the sector of the next, the last none.
  abbrev pub Chain : ℕ → List FileHeader → Type 0
  Chain sector [] = ⊥
  Chain sector (f ∷ []) = (header_at sector ≡ f) × (f.next ≡ indicator)
  Chain sector (f ∷ g ∷ fs) =
      (header_at sector ≡ f) × (f.next ≢ indicator) × Chain (u32 f.next) (g ∷ fs)

  data_pointer_loop-last_word :
      (fuel sector i result : ℕ) (ws : List ℕ)
      → length ws < fuel
      → Words sector i ws
      → data_pointer_loop header_at word_at fuel sector i result ≡ some (last_word result ws)
  unfolding data_pointer_loop
  data_pointer_loop-last_word zero sector i result ws h w = absurd (omega arith)
  data_pointer_loop-last_word (suc fuel) sector i result [] h w = ground (arith, w)
  data_pointer_loop-last_word (suc fuel) sector i result (x ∷ ws) h w =
      rw (w.0, ==_ne x indicator w.1)
        (data_pointer_loop-last_word fuel sector (i + 1) (u32 x) ws (omega arith) w.2)

  -- Of at most 63 sector numbers before the indicator the last is the result, in 32 bits; of none,
  -- the indicator is.
  pub get_file_data_pointer-last_word :
      (sector : ℕ) (ws : List ℕ)
      → length ws < 64
      → Words sector 0 ws
      → get_file_data_pointer header_at word_at sector ≡ some (last_word minus_one ws)
  unfolding get_file_data_pointer
  get_file_data_pointer-last_word sector ws h w =
      data_pointer_loop-last_word 64 sector 0 minus_one ws h w

  -- The first file of the name, by its data.
  unfoldable pub lookup : List ℕ → List FileHeader → Option ℕ
  lookup file_name [] = none
  lookup file_name (f ∷ fs) =
      if strcmp_equal file_name f.name then some (u32 f.data_) else lookup file_name fs

  -- What the caller of `find_file` gets for that.
  unfoldable pub answer : Option ℕ → Option ℕ
  unfolding get_file_data_pointer
  answer none = some minus_one
  answer (some sector) = get_file_data_pointer header_at word_at sector

  -- On a chain of one file or more `find_file` gives what the data of the first file of that name leads to, and
  -- the indicator if no file has the name; as many rounds as there are files are enough.
  pub find_file-lookup :
      (fuel sector : ℕ) (file_name : List ℕ) (fs : List FileHeader)
      → length fs ≡ fuel
      → Chain sector fs
      → find_file header_at word_at fuel sector file_name ≡ answer (lookup file_name fs)
  unfolding find_file lookup answer
  find_file-lookup fuel sector file_name [] h c = absurd c
  find_file-lookup zero sector file_name (f ∷ fs) h c = absurd (omega arith)
  find_file-lookup (suc fuel) sector file_name (f ∷ []) h c =
      rw c.0 (elim (Bool-cases (strcmp_equal file_name f.name)) [
        | inl e ↦ rw e
        | inr e ↦ rw e (ground (arith, c.1))
      ])
  find_file-lookup (suc fuel) sector file_name (f ∷ g ∷ fs) h c =
      rw c.0 (elim (Bool-cases (strcmp_equal file_name f.name)) [
        | inl e ↦ rw e
        | inr e ↦
            rw (e, ==_ne f.next indicator c.1)
              (find_file-lookup fuel (u32 f.next) file_name (g ∷ fs) (omega arith) c.2)
      ])
