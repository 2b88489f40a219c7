-- ===== src/Kernel/Console/Processes.antt =====
-- The list of processes that the console of src/kernel/kernel.c shows.
use c4os.Common.{ℕ, suc, ◌≡◌, refl, arith, List, [], ◌∷◌, ◌++◌, some, length}
use c4os.Ring.{Linked}
use c4os.Stdlib.Lists.{Heap}
use c4os.Stdlib.Lists.Rings.{IsRing}
use c4os.Tty.{Tty, out_string}
use c4os.Tty.Format.{codes}
use c4os.Tty.Format.Pieces.{Piece, plain, text_, printf-render, out_strings}
use c4os.Kernel.Console.{line, print_text, process_loop, show_process_list}

-- The line of one process.
abbrev pub process_line : List ℕ → List ℕ
process_line name = codes "  process - " ++ line name

abbrev pub process_lines : (ℕ → List ℕ) → List ℕ → List (List ℕ)
process_lines process_name [] = []
process_lines process_name (x ∷ xs) = process_line (process_name x) ∷ process_lines process_name xs

abbrev process_pieces : List Piece
process_pieces =
    plain b' '
    ∷ plain b' '
    ∷ plain b'p'
    ∷ plain b'r'
    ∷ plain b'o'
    ∷ plain b'c'
    ∷ plain b'e'
    ∷ plain b's'
    ∷ plain b's'
    ∷ plain b' '
    ∷ plain b'-'
    ∷ plain b' '
    ∷ text_
    ∷ plain 10
    ∷ []

print_process :
    (name : List ℕ) (t : Tty)
    → print_text (line (codes "  process - %s")) name t ≡ some (out_string (process_line name) t)
print_process name t = printf-render (λ a. name) process_pieces (0 ∷ []) t (omega arith)

process_loop-lines :
    (process_name : ℕ → List ℕ) (next prev : ℕ → ℕ) (p : ℕ) (xs : List ℕ) (s : ℕ) (t : Tty)
    → Linked next prev p xs s
    → process_loop process_name next (suc (length xs)) p t
      ≡ some (out_strings (process_lines process_name (p ∷ xs)) t)
unfolding process_loop
process_loop-lines process_name next prev p [] s t h = rw (print_process (process_name p) t) refl
process_loop-lines process_name next prev p (x ∷ xs) s t h =
    rw (print_process (process_name p) t, h.0)
      (process_loop-lines process_name next prev x xs s
        (out_string (process_line (process_name p)) t) h.2)

-- On a ring of processes the console shows a line for each of them, once and in the order of the
-- ring.
pub show_process_list-lines :
    (process_name : ℕ → List ℕ) (process_list : ℕ) (items : Heap) (xs : List ℕ) (t : Tty)
    → IsRing items process_list xs
    → show_process_list process_name process_list items t
      ≡ some (out_strings (process_lines process_name xs) t)
unfolding show_process_list process_loop
show_process_list-lines process_name process_list items [] t r = rw r.counted refl
show_process_list-lines process_name process_list items (x ∷ xs) t r =
    rw (r.counted, r.links.0)
      (process_loop-lines process_name items.next items.prev x xs x t r.links.1)
