-- ===== src/Stdlib/Bytes/Copies.antt =====
-- What `memcpy` and `memset_word` of src/lib/stdlib.c leave, cell by cell.
use c4os.Common.{
  ℕ, zero, suc, ◌+◌, ◌-◌, ◌*◌, ◌/◌, ◌≤◌, ◌<◌, ◌≡◌, ◌⊎◌, refl, arith, ltb, leb, ◌&&◌, if◌then◌else◌,
  update,
}
use c4os.Stdlib.Bytes.{memcpy, store_pairs, memset_word}

module _ {A : Type 0} where
  memcpy-outside :
      (dest src len : ℕ) (mem : ℕ → A) (j : ℕ)
      → (j < dest) ⊎ (dest + len ≤ j)
      → memcpy dest src len mem j ≡ mem j
  unfolding memcpy
  memcpy-outside dest src zero mem j h = refl
  memcpy-outside dest src (suc len) mem j h =
      ground (arith, memcpy-outside (dest + 1) (src + 1) len (update mem dest (mem src)) j)

  memcpy-inside :
      (dest src len : ℕ) (mem : ℕ → A) (i : ℕ)
      → (dest ≤ src) ⊎ (src + len ≤ dest)
      → i < len
      → memcpy dest src len mem (dest + i) ≡ mem (src + i)
  unfolding memcpy
  memcpy-inside dest src zero mem i h k = elim k [ ]
  memcpy-inside dest src (suc len) mem zero h k =
      ground
        (arith, memcpy-outside (dest + 1) (src + 1) len (update mem dest (mem src)) (dest + zero))
  memcpy-inside dest src (suc len) mem (suc i) h k =
      ground (arith, memcpy-inside (dest + 1) (src + 1) len (update mem dest (mem src)) i)

  -- A copy to a lower address, or to one behind the source, moves each cell.
  pub memcpy_lem :
      (dest src len : ℕ) (mem : ℕ → A) (j : ℕ)
      → (dest ≤ src) ⊎ (src + len ≤ dest)
      → memcpy dest src len mem j
        ≡ (if leb dest j && ltb j (dest + len) then mem (j - dest + src) else mem j)
  memcpy_lem dest src len mem j h =
      ground (arith, memcpy-outside dest src len mem j, memcpy-inside dest src len mem (j - dest))

  -- A copy by one cell upwards spreads the first cell over all.
  pub memcpy_up_one :
      (src len : ℕ) (mem : ℕ → A) (i : ℕ)
      → i < len
      → memcpy (src + 1) src len mem (src + 1 + i) ≡ mem src
  unfolding memcpy
  memcpy_up_one src zero mem i k = elim k [ ]
  memcpy_up_one src (suc len) mem zero k = ground (
    arith,
    memcpy-outside (src + 1 + 1) (src + 1) len (update mem (src + 1) (mem src)) (src + 1 + zero),
  )
  memcpy_up_one src (suc len) mem (suc i) k =
      ground (arith, memcpy_up_one (src + 1) len (update mem (src + 1) (mem src)) i)

  store_pairs_lem :
      (dest : ℕ) (v : A) (n : ℕ) (mem : ℕ → A) (j : ℕ)
      → store_pairs dest v n mem j ≡ (if leb dest j && ltb j (dest + 2 * n) then v else mem j)
  unfolding store_pairs
  store_pairs_lem dest v zero mem j = ground arith
  store_pairs_lem dest v (suc n) mem j =
      ground (arith, store_pairs_lem (dest + 2) v n (update (update mem dest v) (dest + 1) v) j)

  -- `memset_word` stores an even number of words: one less than `count` where that is odd.
  pub memset_word_lem :
      (dest : ℕ) (v : A) (count : ℕ) (mem : ℕ → A) (j : ℕ)
      → memset_word dest v count mem j
        ≡ (if leb dest j && ltb j (dest + 2 * (count / 2)) then v else mem j)
  unfolding memset_word
  memset_word_lem dest v count mem j = store_pairs_lem dest v (count / 2) mem j
