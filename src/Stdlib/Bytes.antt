-- ===== src/Stdlib/Bytes.antt =====
-- The memory functions of src/lib/stdlib.c (`memcpy`, `memset_word`) and its tests of characters
-- and numbers (`isspace`, `isdigit`, `atoi`, `strcmp`). Memory is a function of the index of a
-- cell; a structure of several bytes that is copied whole is one cell.
pub mod Copies
pub mod Numbers
use c4os.Common.{
  ℕ, zero, suc, ◌+◌, ◌-◌, ◌*◌, ◌/◌, ◌%◌, ◌^◌, Bool, true, false, ◌&&◌, ◌||◌, Option, none, some,
  List, [], ◌∷◌, ◌==◌, leb, ltb, if◌then◌else◌, u32, update, get_or,
}

module _ {ℓ} {A : Type ℓ} where
  -- `while (len--) *d++ = *s++;`
  unfoldable pub memcpy : ℕ → ℕ → ℕ → (ℕ → A) → ℕ → A
  memcpy dest src zero mem = mem
  memcpy dest src (suc len) mem = memcpy (dest + 1) (src + 1) len (update mem dest (mem src))

  -- `rep stosl`: each round stores two words.
  store_pairs : ℕ → A → ℕ → (ℕ → A) → ℕ → A
  store_pairs dest value zero mem = mem
  store_pairs dest value (suc n) mem =
      store_pairs (dest + 2) value n (update (update mem dest value) (dest + 1) value)

  -- The count of 16-bit words is halved: with an odd count the last word is not stored.
  unfoldable pub memset_word : ℕ → A → ℕ → (ℕ → A) → ℕ → A
  unfolding store_pairs
  memset_word dest value count mem = store_pairs dest value (count / 2) mem

unfoldable pub isspace : ℕ → Bool
isspace c = c == 9 || c == 10 || c == 11 || c == 12 || c == 13 || c == b' '

unfoldable pub isdigit : ℕ → Bool
isdigit c = leb b'0' c && leb c b'9'

-- `while (isspace(*s)) s++;`, on the characters before the terminating zero
unfoldable pub skip_spaces : List ℕ → List ℕ
unfolding isspace
skip_spaces [] = []
skip_spaces (c ∷ s) = if isspace c then skip_spaces s else c ∷ s

-- The loop over the digits keeps the negative of the number, as a 32-bit pattern:
-- `n = 10*n - (*s++ - '0')`.
unfoldable pub digits_loop : ℕ → List ℕ → ℕ
unfolding isdigit
digits_loop n [] = n
digits_loop n (c ∷ s) =
    let rest = digits_loop (u32 (10 * n + 2 ^ 32 - (c - b'0'))) s in if isdigit c then rest else n

-- The sign, and what follows it.
unfoldable pub sign : List ℕ → Bool × List ℕ
sign [] = (false, [])
sign (c ∷ s) = if c == b'-' then (true, s) else (if c == b'+' then (false, s) else (false, c ∷ s))

-- The result as a 32-bit pattern.
unfoldable pub atoi : List ℕ → ℕ
unfolding skip_spaces sign digits_loop
atoi s =
    let (neg, rest) = sign (skip_spaces s) in
    let n = digits_loop 0 rest in if neg then n else u32 (2 ^ 32 - n)

-- Whether the result is 0. A text is the list of its characters before the terminating zero.
unfoldable pub strcmp_equal : List ℕ → List ℕ → Bool
strcmp_equal [] [] = true
strcmp_equal [] (d ∷ t) = false
strcmp_equal (c ∷ s) [] = false
strcmp_equal (c ∷ s) (d ∷ t) = if c == d then strcmp_equal s t else false
