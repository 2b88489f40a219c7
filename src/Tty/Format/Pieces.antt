-- ===== src/Tty/Format/Pieces.antt =====
-- What `printf` of src/drivers/tty.c prints, for a format that is given by its parts.
use c4os.Common.{
  ℕ, ◌≡◌, ◌≢◌, refl, Bool, false, List, [], ◌∷◌, ◌++◌, Option, none, some, ◌==◌, if◌then◌else◌,
  ◌>>=◌, ◌∙◌, ap, sym, ==_ne, All,
}
use c4os.Tty.{Tty, out_char, out_string}
use c4os.Tty.Format.{int_to_str, uint32_to_str, with_arg, put_number, put_uint32, convert, printf}

pub data Piece : Type 0 where
  plain : ℕ → Piece
  percent character text_ binary octal decimal unsigned_ hexadecimal : Piece

-- The parts as they are written in a format.
abbrev pub written : List Piece → List ℕ
written [] = []
written (plain c ∷ ps) = c ∷ written ps
written (percent ∷ ps) = b'%' ∷ b'%' ∷ written ps
written (character ∷ ps) = b'%' ∷ b'c' ∷ written ps
written (text_ ∷ ps) = b'%' ∷ b's' ∷ written ps
written (binary ∷ ps) = b'%' ∷ b'b' ∷ written ps
written (octal ∷ ps) = b'%' ∷ b'o' ∷ written ps
written (decimal ∷ ps) = b'%' ∷ b'd' ∷ written ps
written (unsigned_ ∷ ps) = b'%' ∷ b'u' ∷ written ps
written (hexadecimal ∷ ps) = b'%' ∷ b'x' ∷ written ps

-- A plain character is not a percent sign.
abbrev pub IsPiece : Piece → Type 0
IsPiece (plain c) = c ≢ b'%'
IsPiece percent = Unit
IsPiece character = Unit
IsPiece text_ = Unit
IsPiece binary = Unit
IsPiece octal = Unit
IsPiece decimal = Unit
IsPiece unsigned_ = Unit
IsPiece hexadecimal = Unit

pub out_string-append :
    (s u : List ℕ) (t : Tty) → out_string (s ++ u) t ≡ out_string u (out_string s t)
unfolding out_string
out_string-append [] u t = refl
out_string-append (c ∷ s) u t = out_string-append s u (out_char c t)

-- Texts put on the screen one after the other.
abbrev pub out_strings : List (List ℕ) → Tty → Tty
out_strings [] t = t
out_strings (s ∷ ss) t = out_strings ss (out_string s t)

if_false : {A : Type 0} (b : Bool) (x y : A) → b ≡ false → (if b then x else y) ≡ y
if_false b x y e = rw e

module _ (text_at : ℕ → List ℕ) where
  -- The text of the parts, each conversion with its argument; `none` if an argument is missing or a
  -- number does not fit the buffer.
  abbrev pub render : List Piece → List ℕ → Option (List ℕ)
  render [] args = some []
  render (plain c ∷ ps) args = render ps args >>= λ s. some (c ∷ s)
  render (percent ∷ ps) args = render ps args >>= λ s. some (b'%' ∷ s)
  render (character ∷ ps) [] = none
  render (character ∷ ps) (a ∷ args) = render ps args >>= λ s. some (a ∷ s)
  render (text_ ∷ ps) [] = none
  render (text_ ∷ ps) (a ∷ args) = render ps args >>= λ s. some (text_at a ++ s)
  render (binary ∷ ps) [] = none
  render (binary ∷ ps) (a ∷ args) = int_to_str a 2 >>= λ n. render ps args >>= λ s. some (n ++ s)
  render (octal ∷ ps) [] = none
  render (octal ∷ ps) (a ∷ args) = int_to_str a 8 >>= λ n. render ps args >>= λ s. some (n ++ s)
  render (decimal ∷ ps) [] = none
  render (decimal ∷ ps) (a ∷ args) = int_to_str a 10 >>= λ n. render ps args >>= λ s. some (n ++ s)
  render (unsigned_ ∷ ps) [] = none
  render (unsigned_ ∷ ps) (a ∷ args) =
      uint32_to_str a 10 >>= λ n. render ps args >>= λ s. some (n ++ s)
  render (hexadecimal ∷ ps) [] = none
  render (hexadecimal ∷ ps) (a ∷ args) =
      int_to_str a 16 >>= λ n. render ps args >>= λ s. some (n ++ s)

  -- A text, put on the screen.
  abbrev shown : Option (List ℕ) → Tty → Option Tty
  shown o t = o >>= λ s. some (out_string s t)

  pub printf-plain :
      (c : ℕ) (fmt args : List ℕ) (t : Tty)
      → c ≢ b'%'
      → printf text_at (c ∷ fmt) args t ≡ printf text_at fmt args (out_char c t)
  unfolding printf
  printf-plain c [] args t ne = if_false (c == b'%') none (some (out_char c t)) (==_ne c b'%' ne)
  printf-plain c (d ∷ fmt) args t ne =
      if_false (c == b'%') (convert text_at d args t >>= λ r. printf text_at fmt r.0 r.1)
        (printf text_at (d ∷ fmt) args (out_char c t)) (==_ne c b'%' ne)

  shown-cons :
      (c : ℕ) (o : Option (List ℕ)) (t : Tty)
      → shown o (out_char c t) ≡ shown (o >>= λ s. some (c ∷ s)) t
  unfolding out_string
  shown-cons c none t = refl
  shown-cons c (some s) t = refl

  shown-append :
      (n : List ℕ) (o : Option (List ℕ)) (t : Tty)
      → shown o (out_string n t) ≡ shown (o >>= λ s. some (n ++ s)) t
  shown-append n none t = refl
  shown-append n (some s) t = ap (λ x. some x) (sym (out_string-append n s t))

  -- A conversion to a number, and what follows.
  printed_number :
      (o : Option (List ℕ)) (ps : List Piece) (args : List ℕ) (t : Tty)
      → ((u : Tty) → printf text_at (written ps) args u ≡ shown (render ps args) u)
      → (◌>>=◌ {A = List ℕ × Tty}
          ((o >>= λ n. some (out_string n t)) >>= λ u. some (args, u))
          (λ r. printf text_at (written ps) r.0 r.1))
        ≡ shown (o >>= λ n. render ps args >>= λ s. some (n ++ s)) t
  printed_number none ps args t ih = refl
  printed_number (some n) ps args t ih = ih (out_string n t) ∙ shown-append n (render ps args) t

  -- For a format given by its parts, whose plain characters are no percent signs, `printf` puts on the
  -- screen what the parts and the arguments stand for, in their order; it fails where an argument is
  -- missing or a number does not fit its buffer.
  pub printf-render :
      (ps : List Piece) (args : List ℕ) (t : Tty)
      → All IsPiece ps
      → printf text_at (written ps) args t ≡ (render ps args >>= λ s. some (out_string s t))
  unfolding printf convert with_arg put_number put_uint32 out_string
  printf-render [] args t h = refl
  printf-render (plain c ∷ ps) args t h =
      printf-plain c (written ps) args t h.0
      ∙ printf-render ps args (out_char c t) h.1
      ∙ shown-cons c (render ps args) t
  printf-render (percent ∷ ps) args t h =
      printf-render ps args (out_char b'%' t) h.1 ∙ shown-cons b'%' (render ps args) t
  printf-render (character ∷ ps) [] t h = refl
  printf-render (character ∷ ps) (a ∷ args) t h =
      printf-render ps args (out_char a t) h.1 ∙ shown-cons a (render ps args) t
  printf-render (text_ ∷ ps) [] t h = refl
  printf-render (text_ ∷ ps) (a ∷ args) t h =
      printf-render ps args (out_string (text_at a) t) h.1
      ∙ shown-append (text_at a) (render ps args) t
  printf-render (binary ∷ ps) [] t h = refl
  printf-render (binary ∷ ps) (a ∷ args) t h =
      printed_number (int_to_str a 2) ps args t (λ u. printf-render ps args u h.1)
  printf-render (octal ∷ ps) [] t h = refl
  printf-render (octal ∷ ps) (a ∷ args) t h =
      printed_number (int_to_str a 8) ps args t (λ u. printf-render ps args u h.1)
  printf-render (decimal ∷ ps) [] t h = refl
  printf-render (decimal ∷ ps) (a ∷ args) t h =
      printed_number (int_to_str a 10) ps args t (λ u. printf-render ps args u h.1)
  printf-render (unsigned_ ∷ ps) [] t h = refl
  printf-render (unsigned_ ∷ ps) (a ∷ args) t h =
      printed_number (uint32_to_str a 10) ps args t (λ u. printf-render ps args u h.1)
  printf-render (hexadecimal ∷ ps) [] t h = refl
  printf-render (hexadecimal ∷ ps) (a ∷ args) t h =
      printed_number (int_to_str a 16) ps args t (λ u. printf-render ps args u h.1)
