-- ===== src/Tty/Format/Digits.antt =====
-- The text that `int_to_str` of src/drivers/tty.c makes of a number reads back as that number.
use native.Mathlib.Nat.{pow-suc, div-add-mod}
use c4os.Common.{
  ℕ, zero, suc, ◌+◌, ◌-◌, ◌*◌, ◌/◌, ◌%◌, ◌^◌, ◌≤◌, ◌<◌, ◌≡◌, ◌≢◌, refl, arith, List, [], ◌∷◌, ◌==◌,
  leb, if◌then◌else◌, get_or, length, Ensures, Ensures-mono, Bool-cases, inl, inr, ap, ◌∙◌, true,
  ==→eq, every_below, every_below_sound, subst,
}
use c4os.Tty.Format.{digits, digits_from, int_to_str}

-- The value of a digit character.
abbrev pub digit : ℕ → ℕ
digit c = if leb c b'9' then c - b'0' else c - b'A' + 10

-- The number that a text stands for, behind a number read before it.
abbrev pub read : ℕ → ℕ → List ℕ → ℕ
read base n [] = n
read base n (c ∷ s) = read base (n * base + digit c) s

digit-digits : (d : ℕ) → d < 16 → digit (get_or digits d 0) ≡ d
digit-digits d h =
    ==→eq (digit (get_or digits d 0)) d
      (every_below_sound 16 (λ x. digit (get_or digits x 0) == x) d table h)
  where
    table : every_below 16 (λ x. digit (get_or digits x 0) == x) ≡ true
    table = unfold every_below in refl

twice_le : (q b : ℕ) → 1 < b → 2 * q ≤ b * q
twice_le q b h = grind arith

-- The quotient is below half of the bound.
quotient-lt : (v base n : ℕ) → 1 < base → v < 2 ^ suc (suc n) → v / base < 2 ^ suc n
quotient-lt v base n b h =
    omega (arith, pow-suc 2 (suc n), div-add-mod v base, twice_le (v / base) base b)

-- One more digit in front.
read-digit :
    (v base : ℕ) (text : List ℕ)
    → 0 < base
    → base ≤ 16
    → read base (v / base) (get_or digits (v % base) 0 ∷ text) ≡ read base v text
read-digit v base text lo hi =
    ap (λ n. read base n text)
      (omega (arith, digit-digits (v % base) (omega arith), div-add-mod v base))

abbrev Reads : ℕ → ℕ → List ℕ → ℕ → List ℕ → Type 0
Reads base v text n r = (read base 0 r ≡ read base v text) × (length r ≤ length text + suc n)

-- The rounds that follow one which leaves a quotient.
later_digits :
    (fuel n v base : ℕ) (text : List ℕ)
    → 1 < base
    → base ≤ 16
    → v < 2 ^ suc n
    → v / base ≢ 0
    → ((k : ℕ)
        → suc k ≤ n
        → v / base < 2 ^ suc k
        → Ensures
            (Reads base (v / base) (get_or digits (v % base) 0 ∷ text) k)
            (digits_from fuel (v / base) base (get_or digits (v % base) 0 ∷ text)))
    → Ensures
        (Reads base v text n)
        (digits_from fuel (v / base) base (get_or digits (v % base) 0 ∷ text))
later_digits fuel zero v base text lo hi b ne ih =
    absurd (ne (omega (arith, div-add-mod v base, twice_le (v / base) base lo)))
later_digits fuel (suc k) v base text lo hi b ne ih =
    Ensures-mono (Reads base (v / base) text' k) (Reads base v text (suc k))
      (digits_from fuel (v / base) base text') (ih k (omega arith) (quotient-lt v base k lo b))
      (λ r h. (h.0 ∙ read-digit v base text (omega arith) hi, below r h.1))
  where
    text' : List ℕ
    text' = get_or digits (v % base) 0 ∷ text

    below : (r : List ℕ) → length r ≤ length text' + suc k → length r ≤ length text + suc (suc k)
    below r h = omega arith

digits_from-read :
    (fuel n v base : ℕ) (text : List ℕ)
    → 1 < base
    → base ≤ 16
    → n < fuel
    → v < 2 ^ suc n
    → Ensures (Reads base v text n) (digits_from fuel v base text)
unfolding digits_from
digits_from-read zero n v base text lo hi f b = absurd (omega arith)
digits_from-read (suc fuel) n v base text lo hi f b = elim (Bool-cases (v / base == 0)) [
  | inl done ↦ rw done (
    subst (λ q. read base q (get_or digits (v % base) 0 ∷ text) ≡ read base v text)
        (==→eq (v / base) 0 done) (read-digit v base text (omega arith) hi),
    omega arith,
  )
  | inr more ↦ rw more (
      later_digits fuel n v base text lo hi b (ground (arith, more)) (λ k f' b'.
        digits_from-read fuel k (v / base) base (get_or digits (v % base) 0 ∷ text) lo hi
          (omega arith) b'))
]

-- For the bases 2 to 16, the text that `int_to_str` makes of a 32-bit number reads back as the
-- number, and has at most 32 digits, which `num_buffer` holds.
pub int_to_str-read :
    (v base : ℕ)
    → 1 < base
    → base ≤ 16
    → v < 2 ^ 32
    → Ensures (λ text. (read base 0 text ≡ v) × (length text ≤ 32)) (int_to_str v base)
unfolding int_to_str
int_to_str-read v base lo hi b = digits_from-read 64 31 v base [] lo hi (omega arith) b
