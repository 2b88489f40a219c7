-- ===== src/Stdlib/Bytes/Numbers.antt =====
-- What `atoi` and `strcmp` of src/lib/stdlib.c compute.
use c4os.Common.{
  ℕ, ◌+◌, ◌-◌, ◌*◌, ◌^◌, ◌≤◌, ◌<◌, ◌≡◌, ◌↔◌, refl, arith, true, false, List, [], ◌∷◌, ◌++◌, u32,
  All,
}
use c4os.Stdlib.Bytes.{isdigit, isspace, digits_loop, sign, skip_spaces, atoi, strcmp_equal}

-- `strcmp` returns 0 on equal texts only.
pub strcmp_equal_iff : (s t : List ℕ) → (strcmp_equal s t ≡ true) ↔ (s ≡ t)
unfolding strcmp_equal
strcmp_equal_iff [] [] = (λ h. refl, λ h. refl)
strcmp_equal_iff [] (d ∷ t) = (λ h. absurd (cc), λ h. absurd (cc))
strcmp_equal_iff (c ∷ s) [] = (λ h. absurd (cc), λ h. absurd (cc))
strcmp_equal_iff (c ∷ s) (d ∷ t) = ground (arith, strcmp_equal_iff s t)

-- The number that a text of digits stands for.
abbrev pub value : ℕ → List ℕ → ℕ
value n [] = n
value n (c ∷ s) = value (10 * n + (c - b'0')) s

abbrev pub IsDigit : ℕ → Type 0
IsDigit c = isdigit c ≡ true

value-ge : (n : ℕ) (s : List ℕ) → n ≤ value n s
value-ge n [] = omega arith
value-ge n (c ∷ s) = omega (arith, value-ge (10 * n + (c - b'0')) s)

-- What follows the digits begins with none.
abbrev pub Stops : List ℕ → Type 0
Stops [] = Unit {0}
Stops (c ∷ s) = isdigit c ≡ false

-- The loop holds the negative of the number read so far.
digits_loop-value :
    (n : ℕ) (s rest : List ℕ)
    → All IsDigit s
    → Stops rest
    → value n s < 2 ^ 32
    → digits_loop (u32 (2 ^ 32 - n)) (s ++ rest) ≡ u32 (2 ^ 32 - value n s)
unfolding digits_loop
digits_loop-value n [] [] h k b = refl
digits_loop-value n [] (c ∷ rest) h k b = rw k
digits_loop-value n (c ∷ s) rest (d, h) k b =
    rw (d, next) (digits_loop-value (10 * n + (c - b'0')) s rest h k b)
  where
    digit_bounds : (b'0' ≤ c) × (c ≤ b'9')
    digit_bounds = unfold isdigit in ground arith

    next : u32 (10 * u32 (2 ^ 32 - n) + 2 ^ 32 - (c - b'0')) ≡ u32 (2 ^ 32 - (10 * n + (c - b'0')))
    next = omega (arith, value-ge (10 * n + (c - b'0')) s, digit_bounds)

skip_spaces-append :
    (sp s : List ℕ) → All (λ c. isspace c ≡ true) sp → skip_spaces (sp ++ s) ≡ skip_spaces s
unfolding skip_spaces
skip_spaces-append [] s h = refl
skip_spaces-append (c ∷ sp) s h = rw h.0 (skip_spaces-append sp s h.1)

-- `atoi` skips spaces and reads the digits of a number below 2 ^ 31, with no sign before them.
atoi-value :
    (sp : List ℕ) (c : ℕ) (s rest : List ℕ)
    → All (λ x. isspace x ≡ true) sp
    → All IsDigit (c ∷ s)
    → Stops rest
    → value 0 (c ∷ s) < 2 ^ 31
    → atoi (sp ++ c ∷ (s ++ rest)) ≡ value 0 (c ∷ s)
unfolding atoi
atoi-value sp c s rest a h k b =
    rw (skip_spaces-append sp (c ∷ (s ++ rest)) a, starts, unsigned)
      (rw (digits_loop-value 0 (c ∷ s) rest h k (omega arith)) (omega arith))
  where
    starts : skip_spaces (c ∷ (s ++ rest)) ≡ c ∷ (s ++ rest)
    starts = unfold skip_spaces isspace isdigit in ground (arith, h.0)

    unsigned : sign (c ∷ (s ++ rest)) ≡ (false, c ∷ (s ++ rest))
    unsigned = unfold sign isdigit in ground (arith, h.0)

-- With a minus sign it reads the negative of the number, as a 32-bit pattern.
pub atoi_minus :
    (sp s rest : List ℕ)
    → All (λ x. isspace x ≡ true) sp
    → All IsDigit s
    → Stops rest
    → value 0 s ≤ 2 ^ 31
    → atoi (sp ++ b'-' ∷ (s ++ rest)) ≡ u32 (2 ^ 32 - value 0 s)
unfolding atoi
atoi_minus sp s rest a h k b =
    rw (skip_spaces-append sp (b'-' ∷ (s ++ rest)) a) (digits_loop-value 0 s rest h k (omega arith))
