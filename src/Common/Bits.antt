-- ===== src/Common/Bits.antt =====
-- `|` of two numbers whose binary digits do not meet is their sum, and `&` with a mask of low
-- digits is a remainder.
use Prim.Native.Nat.{ℕ, zero, suc, ◌+◌, ◌-◌, ◌*◌, ◌/◌, ◌%◌, ◌^◌, ◌≤◌, ◌<◌, min, max}
use Prim.Native.Nat.{bit_and, bit_or, digits, bit_and-bitwise, bit_or-bitwise}
use mathlib.Core.Path.{◌≡◌, refl, ap, sym, subst, ◌∙◌}
use native.Mathlib.Nat.{
  pow-suc, div-div-eq-div-mul, add-mul-mod_self_left, mod-eq_of_lt, mod-lt, div-add-mod,
}
use native.Mathlib.Omega.{arith}

-- The digit recursion needs no more rounds than its first number.
enough_digits :
    (z : ℕ → ℕ) (op : ℕ → ℕ → ℕ) (k a b : ℕ) → a ≤ k → digits z op k a b ≡ digits z op a a b
enough_digits z op k a b h = go k a a b h (omega arith)
  where
    go : (m n x y : ℕ) → x ≤ m → x ≤ n → digits z op m x y ≡ digits z op n x y
    go zero zero x y p q = refl
    go zero (suc n) zero y p q = refl
    go zero (suc n) (suc x) y p q = elim p [ ]
    go (suc m) zero zero y p q = refl
    go (suc m) zero (suc x) y p q = elim q [ ]
    go (suc m) (suc n) zero y p q = refl
    go (suc m) (suc n) (suc x) y p q =
        ap (λ r. r * 2 + op (suc x % 2) (y % 2))
          (go m n (suc x / 2) (y / 2) (omega arith) (omega arith))

pub or_low_digit : (a b : ℕ) → bit_or a b ≡ bit_or (a / 2) (b / 2) * 2 + max (a % 2) (b % 2)
or_low_digit zero b = omega (arith, bit_or-bitwise 0 b, bit_or-bitwise 0 (b / 2))
or_low_digit (suc a) b = omega (
  arith,
  bit_or-bitwise (suc a) b,
  bit_or-bitwise (suc a / 2) (b / 2),
  enough_digits (λ y. y) max a (suc a / 2) (b / 2) (omega arith),
)

and_low_digit : (a b : ℕ) → bit_and a b ≡ bit_and (a / 2) (b / 2) * 2 + min (a % 2) (b % 2)
and_low_digit zero b = omega (arith, bit_and-bitwise 0 b, bit_and-bitwise 0 (b / 2))
and_low_digit (suc a) b = omega (
  arith,
  bit_and-bitwise (suc a) b,
  bit_and-bitwise (suc a / 2) (b / 2),
  enough_digits (λ y. 0) min a (suc a / 2) (b / 2) (omega arith),
)

or_nothing : (k a : ℕ) → a ≤ k → bit_or a 0 ≡ a
or_nothing k zero h = refl
or_nothing zero (suc a) h = elim h [ ]
or_nothing (suc k) (suc a) h =
    omega (arith, or_low_digit (suc a) 0, or_nothing k (suc a / 2) (omega arith))

-- Bits above position `k` and bits below it do not meet.
pub bit_or_disjoint : (k q r : ℕ) → r < 2 ^ k → bit_or (q * 2 ^ k) r ≡ q * 2 ^ k + r
bit_or_disjoint zero q r h = ground (arith, or_nothing q q)
bit_or_disjoint (suc k) q r h = ground (
  arith,
  or_low_digit (q * 2 ^ suc k) r,
  ap (λ (t : ℕ). q * t) (pow-suc 2 k),
  bit_or_disjoint k q (r / 2) (omega (arith, pow-suc 2 k)),
)

and_nothing : (k a : ℕ) → a ≤ k → bit_and a 0 ≡ 0
and_nothing k zero h = refl
and_nothing zero (suc a) h = elim h [ ]
and_nothing (suc k) (suc a) h =
    omega (arith, and_low_digit (suc a) 0, and_nothing k (suc a / 2) (omega arith))

-- A remainder by twice a number, from the lowest digit up.
mod_double : (a p : ℕ) → 1 ≤ p → a % (2 * p) ≡ a / 2 % p * 2 + a % 2
mod_double a p h =
    ap (λ n. n % (2 * p)) parts
    ∙ add-mul-mod_self_left low (2 * p) (a / 2 / p)
    ∙ mod-eq_of_lt (omega (arith, mod-lt (a / 2) {m = p} h))
  where
    low : ℕ
    low = a / 2 % p * 2 + a % 2

    parts : a ≡ low + 2 * p * (a / 2 / p)
    parts = grind (arith, div-add-mod (a / 2) p, div-add-mod a 2)

mask_digit :
    (a p : ℕ) → 1 ≤ p → bit_and (a / 2) (p - 1) ≡ a / 2 % p → bit_and a (2 * p - 1) ≡ a % (2 * p)
mask_digit a p h e =
    and_low_digit a (2 * p - 1)
    ∙ ap (λ m. bit_and (a / 2) m * 2 + min (a % 2) ((2 * p - 1) % 2)) half
    ∙ omega (arith, e, mod_double a p h)
  where
    half : (2 * p - 1) / 2 ≡ p - 1
    half = omega arith

pow_pos : (k : ℕ) → 1 ≤ 2 ^ k
pow_pos zero = omega arith
pow_pos (suc k) = omega (arith, pow-suc 2 k, pow_pos k)

-- `&` with the `k` low bits set.
pub bit_and_mask : (k a : ℕ) → bit_and a (2 ^ k - 1) ≡ a % 2 ^ k
bit_and_mask zero a = ground (arith, and_nothing a a)
bit_and_mask (suc k) a =
    subst (λ m. bit_and a (m - 1) ≡ a % m) (sym double)
      (mask_digit a (2 ^ k) (pow_pos k) (bit_and_mask k (a / 2)))
  where
    double : 2 ^ suc k ≡ 2 * 2 ^ k
    double = omega (arith, pow-suc 2 k)

-- A bit of `|` is the larger of the two bits.
pub bit_or_bit : (k a b : ℕ) → bit_or a b / 2 ^ k % 2 ≡ max (a / 2 ^ k % 2) (b / 2 ^ k % 2)
bit_or_bit zero a b = omega (arith, or_low_digit a b)
bit_or_bit (suc k) a b =
    rw (halved (bit_or a b), halved a, halved b, half) (bit_or_bit k (a / 2) (b / 2))
  where
    halved : (x : ℕ) → x / 2 ^ suc k ≡ x / 2 / 2 ^ k
    halved x = ap (λ m. x / m) (double) ∙ sym (div-div-eq-div-mul x 2 (2 ^ k))
      where
        double : 2 ^ suc k ≡ 2 * 2 ^ k
        double = omega (arith, pow-suc 2 k)

    half : bit_or a b / 2 ≡ bit_or (a / 2) (b / 2)
    half = omega (arith, or_low_digit a b)
