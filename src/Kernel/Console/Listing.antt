-- ===== src/Kernel/Console/Listing.antt =====
-- The list of files that the console of src/kernel/kernel.c shows.
use c4os.Common.{
  ℕ, zero, suc, ◌≡◌, ◌<◌, refl, arith, true, List, [], ◌∷◌, ◌++◌, Option, none, some, ◌>>=◌, length,
  ◌∙◌, ap, All, ◌≢◌, ◌==◌, if◌then◌else◌, u32, Bool-cases, inl, inr, Ensures, ==_ne,
}
use c4os.Tty.{Tty, out_char, out_string}
use c4os.Tty.Format.{codes, printf, int_to_str}
use c4os.Tty.Format.Digits.{int_to_str-read}
use c4os.Tty.Format.Pieces.{printf-plain, Piece, plain, text_, decimal, printf-render, out_strings}
use c4os.Kernel.Files.{FileHeader, indicator}
use c4os.Kernel.Files.Chain.{Chain}
use c4os.Kernel.Console.{
  Disk, line, print, print_text, check_bit_1, show_type, show_parent, show_size, show_file,
  show_files,
}

-- The digits of a number, which always fit.
abbrev pub decimal_text : ℕ → List ℕ
decimal_text v = elim (int_to_str v 10) [ none ↦ [] | some n ↦ n ]

fits :
    (o : Option (List ℕ)) (P : List ℕ → Type 0)
    → Ensures P o
    → o ≡ some (elim o [ none ↦ [] | some n ↦ n ])
fits none P e = absurd e
fits (some n) P e = refl

int_to_str-decimal_text : (v : ℕ) → v < 0x1_0000_0000 → int_to_str v 10 ≡ some (decimal_text v)
int_to_str-decimal_text v h =
    fits (int_to_str v 10) _ (int_to_str-read v 10 (omega arith) (omega arith) (omega arith))

-- The four lines about a file; for a directory the second has no end.
abbrev pub name_line : FileHeader → List ℕ
name_line f = codes "name: " ++ line f.name

abbrev pub type_line : FileHeader → List ℕ
type_line f = if check_bit_1 f.flags then codes " type: directory" else line (codes " type: file")

abbrev pub directory_line : FileHeader → List ℕ
directory_line f =
    if f.parent == indicator
    then line (codes " directory: root")
    else line (codes " directory: not root")

abbrev pub size_line : FileHeader → List ℕ
size_line f = codes " size: " ++ decimal_text (u32 f.size) ++ line (codes " bytes")

abbrev pub file_lines : FileHeader → List (List ℕ)
file_lines f = name_line f ∷ type_line f ∷ directory_line f ∷ size_line f ∷ []

abbrev plains : List ℕ → List Piece → List Piece
plains [] ps = ps
plains (c ∷ s) ps = plain c ∷ plains s ps

print_name :
    (name : List ℕ) (t : Tty)
    → print_text (line (codes "name: %s")) name t
      ≡ some (out_string (codes "name: " ++ line name) t)
print_name name t =
    printf-render (λ a. name) (plains (codes "name: ") (text_ ∷ plain 10 ∷ [])) (0 ∷ []) t
      (omega arith)

print_size :
    (size : ℕ) (t : Tty)
    → size < 0x1_0000_0000
    → print (line (codes " size: %d bytes")) (size ∷ []) t
      ≡ some (out_string (codes " size: " ++ decimal_text size ++ line (codes " bytes")) t)
print_size size t h =
    printf-render (λ a. []) (plains (codes " size: ") (decimal ∷ plains (line (codes " bytes")) []))
      (size ∷ []) t (omega arith)
    ∙ rw (int_to_str-decimal_text size h) refl

print_plain : (s : List ℕ) (t : Tty) → All (λ c. c ≢ b'%') s → print s [] t ≡ some (out_string s t)
unfolding out_string
print_plain [] t h = unfold printf in refl
print_plain (c ∷ s) t h = printf-plain (λ a. []) c s [] t h.0 ∙ print_plain s (out_char c t) h.1

show_type_lem : (f : FileHeader) (t : Tty) → show_type f t ≡ some (out_string (type_line f) t)
unfolding show_type
show_type_lem f t = elim (Bool-cases (check_bit_1 f.flags)) [
  | inl e ↦ rw e (print_plain (codes " type: directory") t (omega arith))
  | inr e ↦ rw e (print_plain (line (codes " type: file")) t (omega arith))
]

show_parent_lem :
    (f : FileHeader) (t : Tty) → show_parent f t ≡ some (out_string (directory_line f) t)
unfolding show_parent
show_parent_lem f t = elim (Bool-cases (f.parent == indicator)) [
  | inl e ↦ rw e (print_plain (line (codes " directory: root")) t (omega arith))
  | inr e ↦ rw e (print_plain (line (codes " directory: not root")) t (omega arith))
]

show_size_lem : (f : FileHeader) (t : Tty) → show_size f t ≡ some (out_string (size_line f) t)
unfolding show_size
show_size_lem f t = print_size (u32 f.size) t (omega arith)

show_file_lem : (f : FileHeader) (t : Tty) → show_file f t ≡ some (out_strings (file_lines f) t)
unfolding show_file
show_file_lem f t =
    let t1 = out_string (name_line f) t in
    let t2 = out_string (type_line f) t1 in
    let t3 = out_string (directory_line f) t2 in
    ap (λ o. o >>= λ u1. show_type f u1 >>= λ u2. show_parent f u2 >>= λ u3. show_size f u3)
      (print_name f.name t)
    ∙ ap (λ o. o >>= λ u2. show_parent f u2 >>= λ u3. show_size f u3) (show_type_lem f t1)
    ∙ ap (λ o. o >>= λ u3. show_size f u3) (show_parent_lem f t2)
    ∙ show_size_lem f t3

-- The lines about all files, with an empty line between two of them.
abbrev pub listing : List FileHeader → List (List ℕ)
listing [] = []
listing (f ∷ []) = file_lines f
listing (f ∷ g ∷ fs) = file_lines f ++ (10 ∷ []) ∷ listing (g ∷ fs)

out_strings-append :
    (a b : List (List ℕ)) (t : Tty) → out_strings (a ++ b) t ≡ out_strings b (out_strings a t)
out_strings-append [] b t = refl
out_strings-append (s ∷ a) b t = out_strings-append a b (out_string s t)

-- On a disk that can be read, the console shows the files of a chain, each with its name, type,
-- place and size in 32 bits, in the order of the chain; as many rounds as there are files are enough.
pub show_files-listing :
    (disk : Disk) (fuel sector : ℕ) (fs : List FileHeader) (t : Tty)
    → ((s : ℕ) → disk.readable s ≡ true)
    → length fs ≡ fuel
    → Chain disk.header_at disk.word_at sector fs
    → show_files disk fuel sector t ≡ some (out_strings (listing fs) t)
unfolding show_files
show_files-listing disk fuel sector [] t r l c = absurd c
show_files-listing disk zero sector (f ∷ fs) t r l c = absurd (omega arith)
show_files-listing disk (suc fuel) sector (f ∷ []) t r l c =
    rw (r sector, c.0, c.1, show_file_lem f t) refl
show_files-listing disk (suc fuel) sector (f ∷ g ∷ fs) t r l c =
    rw (r sector, c.0, show_file_lem f t, ==_ne f.next indicator c.1)
      (ap (λ o. o >>= λ u. show_files disk fuel (u32 f.next) u)
          (print_plain (10 ∷ []) (out_strings (file_lines f) t) (omega arith))
        ∙ show_files-listing disk fuel (u32 f.next) (g ∷ fs)
            (out_string (10 ∷ []) (out_strings (file_lines f) t)) r (omega arith) c.2)
