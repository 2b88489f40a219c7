-- ===== src/Tty/Format.antt =====
-- Numbers as text and the formatted output of src/drivers/tty.c (`int_to_str`, `uint32_to_str`,
-- `printf`).
pub mod Digits
pub mod Pieces
use c4os.Common.{
  ℕ, zero, suc, ◌+◌, ◌-◌, ◌/◌, ◌%◌, List, [], ◌∷◌, Option, none, some, ◌==◌, if◌then◌else◌, ◌>>=◌,
  map, get_or,
}
use Prim.Native.Char.{code}
use Prim.Native.String.{String}
use c4os.Tty.{Tty, out_char, out_string}

abbrev pub codes : String → List ℕ
codes String.[] = []
codes (String.◌∷◌ c s) = code c ∷ codes s

-- `digits`
abbrev pub digits : List ℕ
digits = codes "0123456789ABCDEF"

-- `num_buffer` has 65 characters, the last for the terminating zero. It is filled from the end:
-- the list is what stands from `num_buffer[i + 1]` to the zero, and grows at its head.
unfoldable pub digits_from : ℕ → ℕ → ℕ → List ℕ → Option (List ℕ)
digits_from zero value base text = none
digits_from (suc fuel) value base text =
    let text' = get_or digits (value % base) 0 ∷ text in
    let rest = digits_from fuel (value / base) base text' in
    if value / base == 0 then some text' else rest

-- At most 64 digits fit `num_buffer`; the loop is given as many rounds.
unfoldable pub int_to_str : ℕ → ℕ → Option (List ℕ)
unfolding digits_from
int_to_str value base = digits_from 64 value base []

-- `uint32_to_str` is the same function over `uint32`, which `size_t` is on this machine.
unfoldable pub uint32_to_str : ℕ → ℕ → Option (List ℕ)
unfolding digits_from
uint32_to_str value base = digits_from 64 value base []

-- `va_arg(args, size_t)` takes the next argument; beyond the last it is not defined (`none`).
unfoldable pub with_arg : List ℕ → (ℕ → Option Tty) → Option (List ℕ × Tty)
with_arg [] put = none
with_arg (a ∷ args) put = do t ← put a; some (args, t)

unfoldable pub put_number : ℕ → ℕ → Tty → Option Tty
unfolding int_to_str
put_number base arg t = do text ← int_to_str arg base; some (out_string text t)

unfoldable pub put_uint32 : ℕ → ℕ → Tty → Option Tty
unfolding uint32_to_str
put_uint32 base arg t = do text ← uint32_to_str arg base; some (out_string text t)

-- One conversion: the character behind `%`, and the argument that it takes. `text_at` gives the
-- text at an address. An unknown character takes no argument and prints nothing.
module _ (text_at : ℕ → List ℕ) where
  -- The arguments that are left, and the screen.
  unfoldable pub convert : ℕ → List ℕ → Tty → Option (List ℕ × Tty)
  unfolding with_arg put_number put_uint32
  convert c args t =
      if c == b'%'
      then some (args, out_char b'%' t)
      else (if c == b'c'
          then with_arg args (λ a. some (out_char a t))
          else (if c == b's'
              then with_arg args (λ a. some (out_string (text_at a) t))
              else (if c == b'b'
                  then with_arg args (λ a. put_number 2 a t)
                  else (if c == b'o'
                      then with_arg args (λ a. put_number 8 a t)
                      else (if c == b'd'
                          then with_arg args (λ a. put_number 10 a t)
                          else (if c == b'u'
                              then with_arg args (λ a. put_uint32 10 a t)
                              else (if c == b'x'
                                  then with_arg args (λ a. put_number 16 a t)
                                  else some (args, t))))))))

  -- The format up to its terminating zero. A `%` at its very end reads that zero as the conversion
  -- and goes on behind it, which is not defined.
  unfoldable pub printf : List ℕ → List ℕ → Tty → Option Tty
  unfolding convert out_char
  printf [] args t = some t
  printf (c ∷ []) args t = if c == b'%' then none else some (out_char c t)
  printf (c ∷ d ∷ fmt) args t =
      let plain = printf (d ∷ fmt) args (out_char c t) in
      let converted = convert d args t >>= λ r. printf fmt r.0 r.1 in
      if c == b'%' then converted else plain
