-- ===== src/Tests/Console.antt =====
-- What src/kernel/kernel.c and `printf` show, at concrete disks and screens.
use c4os.Common.{ℕ, ◌∷◌, [], ◌≡◌, arith, true, some, ◌==◌, if◌then◌else◌, ◌>>=◌, List}
use c4os.Tty.{out_string}
use c4os.Tty.Format.{codes, printf}
use c4os.Tty.Format.Pieces.{Piece, plain, decimal, text_, written, render, printf-render}
use c4os.Kernel.Console.{Disk}
use c4os.Tests.Kernel.{headers, words}
use c4os.Tests.Screen.{small_screen}

-- "%d:%s"
abbrev number_and_name : List Piece
number_and_name = decimal ∷ plain b':' ∷ text_ ∷ []

abbrev ok_text : ℕ → List ℕ
ok_text a = codes "ok"

printf-render_example :
    printf ok_text (written number_and_name) (42 ∷ 9 ∷ []) small_screen
    ≡ (render ok_text number_and_name (42 ∷ 9 ∷ []) >>= λ s. some (out_string s small_screen))
printf-render_example =
    printf-render ok_text number_and_name (42 ∷ 9 ∷ []) small_screen
      (tt, ((λ e. omega arith), (tt, tt)))

abbrev pub two_files : Disk
two_files = record {
  readable = λ s. true;
  header_at = headers;
  word_at = words;
  byte_at = λ s i. 0;
  buffer_word = λ s i. 0;
}

-- Process 10 is "shell", process 20 is "init".
abbrev pub process_names : ℕ → List ℕ
process_names a = if a == 10 then codes "shell" else codes "init"
