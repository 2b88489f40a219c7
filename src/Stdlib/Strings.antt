-- ===== src/Stdlib/Strings.antt =====
-- The string functions of src/lib/stdlib.c that go through `memchr` (`strlen`, `strcpy`, `strncpy`,
-- `strchr`). `scan cells mem value count` is the address that the inline assembly of
-- `memchr` leaves in a memory with these cells.
-- Addresses and sums of them are taken in 32 bits.
pub mod Wraps
use c4os.Common.{ℕ, ◌+◌, ltb, if◌then◌else◌, add32, sub32, minus_one, update}
use c4os.Stdlib.Bytes.{memcpy}

-- The macro `min`
abbrev pub min_of : ℕ → ℕ → ℕ
min_of a b = if ltb b a then b else a

module _ (scan : (ℕ → ℕ) → ℕ → ℕ → ℕ → ℕ) where
  -- The address, or 0.
  unfoldable pub memchr : (ℕ → ℕ) → ℕ → ℕ → ℕ → ℕ
  memchr cells mem value count =
      let result = scan cells mem value count in if ltb result (add32 mem count) then result else 0

  unfoldable pub strlen : (ℕ → ℕ) → ℕ → ℕ
  unfolding memchr
  strlen cells str = sub32 (memchr cells str 0 minus_one) str

  unfoldable pub strcpy : ℕ → ℕ → (ℕ → ℕ) → ℕ → ℕ
  unfolding strlen memcpy
  strcpy dest src cells = memcpy dest src (add32 (strlen cells src) 1) cells

  unfoldable pub strncpy : ℕ → ℕ → ℕ → (ℕ → ℕ) → ℕ → ℕ
  unfolding strlen memcpy
  strncpy dest src max_count cells =
      let len = min_of (sub32 max_count 1) (strlen cells src) in
      update (memcpy dest src len cells) (dest + len) 0

  unfoldable pub strchr : (ℕ → ℕ) → ℕ → ℕ → ℕ
  unfolding strlen memchr
  strchr cells str value = memchr cells str value (strlen cells str)
