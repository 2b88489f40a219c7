-- ===== src/Kernel/Files.antt =====
-- The lookup of a file on the disk (`get_file_data_pointer`, `find_file`, `is_there_exe` of
-- src/kernel/kernel.c, over `get_file_info_by` of src/kernel/listfs.c). `header_at` and `word_at`
-- are what the sectors of the disk hold; the reads are taken to succeed.
pub mod Chain
use c4os.Common.{
  ℕ, zero, suc, ◌+◌, ◌-◌, ◌^◌, Bool, true, false, List, Option, none, some, ◌==◌, if◌then◌else◌,
  u32, ◌>>=◌, minus_one,
}
use c4os.Stdlib.Bytes.{strcmp_equal}

-- The fields of `listfs_file_header` that the kernel reads.
pub record FileHeader : Type 0 where
  pub name : List ℕ
  pub next : ℕ
  pub parent : ℕ
  pub flags : ℕ
  pub data_ : ℕ
  pub size : ℕ

-- `LISTFS_COMMON_INDICATOR` beside a `uint64`
abbrev pub indicator : ℕ
indicator = 2 ^ 64 - 1

module _ (header_at : ℕ → FileHeader) (word_at : ℕ → ℕ → ℕ) where
  unfoldable pub data_pointer_loop : ℕ → ℕ → ℕ → ℕ → Option ℕ
  data_pointer_loop zero sector i result = none
  data_pointer_loop (suc fuel) sector i result =
      let word = word_at sector i in
      let rest = data_pointer_loop fuel sector (i + 1) (u32 word) in
      if word == indicator then some result else rest

  -- A sector has 64 numbers; the loop itself knows no bound.
  unfoldable pub get_file_data_pointer : ℕ → Option ℕ
  unfolding data_pointer_loop
  get_file_data_pointer sector = data_pointer_loop 64 sector 0 minus_one

  -- The recursion goes on for as long as the files do: the fuel is their number.
  unfoldable pub find_file : ℕ → ℕ → List ℕ → Option ℕ
  unfolding get_file_data_pointer
  find_file zero sector file_name = none
  find_file (suc fuel) sector file_name =
      let header = header_at sector in
      let rest = find_file fuel (u32 header.next) file_name in
      if strcmp_equal file_name header.name
      then get_file_data_pointer (u32 header.data_)
      else (if header.next == indicator then some minus_one else rest)

  unfoldable pub is_there_exe : ℕ → ℕ → List ℕ → Option ℕ
  unfolding find_file
  is_there_exe fuel sector file_name = do
    found ← find_file fuel sector file_name
    some (if found == minus_one then 0 else 1)
