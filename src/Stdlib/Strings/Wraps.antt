-- ===== src/Stdlib/Strings/Wraps.antt =====
-- The end of the search in `strlen` of src/lib/stdlib.c wraps round.
use c4os.Common.{ℕ, ◌+◌, ◌-◌, ◌<◌, ◌≤◌, ◌≡◌, arith, ltb, add32, sub32, minus_one, update, false}
use c4os.Stdlib.Bytes.{memcpy}
use c4os.Stdlib.Strings.{memchr, strlen, strncpy}

module _ (scan : (ℕ → ℕ) → ℕ → ℕ → ℕ → ℕ) where
  -- A search from `str` on that ends there or behind finds nothing, since the bound is `str - 1`.
  strlen_wraps :
      (cells : ℕ → ℕ) (str : ℕ)
      → 0 < str
      → str < 0x1_0000_0000
      → str ≤ scan cells str 0 minus_one
      → strlen scan cells str ≡ 0x1_0000_0000 - str
  unfolding strlen memchr
  strlen_wraps cells str pos low found =
      let off : ltb (scan cells str 0 minus_one) (add32 str minus_one) ≡ false = ground arith in
      rw off (omega arith)

  -- Where a search leaves an address at or behind its start, `strncpy` copies `max_count - 1` cells,
  -- whatever the length of the text, if that many fit behind the text in 32 bits, and puts a 0
  -- behind them.
  pub strncpy_copies :
      (dest src max_count : ℕ) (cells : ℕ → ℕ)
      → 0 < src
      → 0 < max_count
      → src + max_count ≤ 0x1_0000_0000
      → src ≤ scan cells src 0 minus_one
      → strncpy scan dest src max_count cells
        ≡ update (memcpy dest src (max_count - 1) cells) (dest + (max_count - 1)) 0
  unfolding strncpy
  strncpy_copies dest src max_count cells pos some_room fits found =
      let n : sub32 max_count 1 ≡ max_count - 1 = omega arith in
      let more : ltb (0x1_0000_0000 - src) (max_count - 1) ≡ false = ground arith in
      rw (n, strlen_wraps cells src pos (omega arith) found, more)
