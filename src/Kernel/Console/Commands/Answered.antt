-- ===== src/Kernel/Console/Commands/Answered.antt =====
-- What a command of the console of src/kernel/kernel.c shows.
use c4os.Common.{
  ℕ, ◌≡◌, ◌≢◌, refl, arith, true, false, List, [], ◌∷◌, ◌++◌, Option, none, some, ◌>>=◌, length, ap,
  ◌∙◌, sym, Bool-cases, inl, inr,
}
use c4os.Stdlib.Bytes.{strcmp_equal}
use c4os.Stdlib.Bytes.Numbers.{strcmp_equal_iff}
use c4os.Stdlib.Lists.Rings.{IsRing}
use c4os.Tty.{Tty, out_string}
use c4os.Tty.Format.{codes, int_to_str}
use c4os.Tty.Format.Pieces.{Piece, plain, text_, decimal, printf-render, out_strings}
use c4os.Devices.Timer.{Timer, get_tick_count}
use c4os.Kernel.Files.{FileHeader, is_there_exe}
use c4os.Kernel.Files.Chain.{Chain, lookup, answer, find_file-lookup}
use c4os.Kernel.Console.{Disk, line, print_text, cmd_get_ticks}
use c4os.Kernel.Console.Listing.{listing, show_files-listing}
use c4os.Kernel.Console.Processes.{process_lines, show_process_list-lines}
use c4os.Kernel.Console.Commands.{Console, set_tty, command}

-- What the commands speak of: the processes, the files, and the ticks of the timer.
pub record World : Type 0 where
  pub process_name : ℕ → List ℕ
  pub processes : List ℕ
  pub files : List FileHeader
  pub ticks : ℕ

abbrev ticks_line : List ℕ → List ℕ
ticks_line n = 10 ∷ codes "ticks: " ++ line n

abbrev echo_line : List ℕ → List ℕ
echo_line text = codes "You typed: " ++ line text

-- The texts that the console shows for a line. A line that is no command and the name of no file is
-- shown again.
pub data Answers (disk : Disk) (w : World) : List ℕ → List (List ℕ) → Type 0 where
  ps : Answers disk w (codes "ps") (process_lines w.process_name w.processes)
  ls : Answers disk w (codes "ls") (listing w.files)
  ticks :
      (n : List ℕ)
      → int_to_str w.ticks 10 ≡ some n
      → Answers disk w (codes "ticks") (ticks_line n ∷ [])
  unknown :
      (text : List ℕ)
      → text ≢ codes "read"
      → text ≢ codes "ticks"
      → text ≢ codes "ps"
      → text ≢ codes "ls"
      → text ≢ codes "test"
      → lookup disk.header_at disk.word_at text w.files ≡ none
      → Answers disk w text (echo_line text ∷ [])

-- The state holds what the world says.
pub record Knows (disk : Disk) (first_file_sector_number process_list : ℕ) (w : World) (c : Console)
    : Type 0 where
  pub ring : IsRing c.system.tasks.items process_list w.processes
  pub chain : Chain disk.header_at disk.word_at first_file_sector_number w.files
  pub readable : (s : ℕ) → disk.readable s ≡ true
  pub counted : get_tick_count c.timer ≡ w.ticks

differs : (s t : List ℕ) → t ≢ s → strcmp_equal s t ≡ false
differs s t ne = elim (Bool-cases (strcmp_equal s t)) [
  | inl e ↦ absurd (ne (sym ((strcmp_equal_iff s t).0 e)))
  | inr e ↦ e
]

abbrev ticks_pieces : List Piece
ticks_pieces =
    plain 10
    ∷ plain b't'
    ∷ plain b'i'
    ∷ plain b'c'
    ∷ plain b'k'
    ∷ plain b's'
    ∷ plain b':'
    ∷ plain b' '
    ∷ decimal
    ∷ plain 10
    ∷ []

abbrev echo_pieces : List Piece
echo_pieces =
    plain b'Y'
    ∷ plain b'o'
    ∷ plain b'u'
    ∷ plain b' '
    ∷ plain b't'
    ∷ plain b'y'
    ∷ plain b'p'
    ∷ plain b'e'
    ∷ plain b'd'
    ∷ plain b':'
    ∷ plain b' '
    ∷ text_
    ∷ plain 10
    ∷ []

print_echo :
    (text : List ℕ) (t : Tty)
    → print_text (line (codes "You typed: %s")) text t ≡ some (out_string (echo_line text) t)
print_echo text t = printf-render (λ a. text) echo_pieces (0 ∷ []) t (omega arith)

cmd_get_ticks_lem :
    (timer : Timer) (n : List ℕ) (t : Tty)
    → int_to_str (get_tick_count timer) 10 ≡ some n
    → cmd_get_ticks timer t ≡ some (out_string (ticks_line n) t)
unfolding cmd_get_ticks
cmd_get_ticks_lem timer n t e =
    printf-render (λ a. []) ticks_pieces (get_tick_count timer ∷ []) t (omega arith) ∙ rw e refl

module _ (arrivals : ℕ → List (ℕ × ℕ)) (lines fuel : ℕ) (stack : ℕ → ℕ) (disk : Disk)
    (first_file_sector_number : ℕ) (process_list thread_list kernel_page_dir : ℕ)
    (syscall : Console → Option Console) (w : World) where
  -- A round's command, and the loop, in this world.
  abbrev pub answer_to : List ℕ → Console → Option Console
  answer_to =
      command arrivals lines fuel stack disk (length w.files) first_file_sector_number
        w.process_name process_list thread_list kernel_page_dir syscall

  is_there_exe-none :
      (text : List ℕ)
      → Chain disk.header_at disk.word_at first_file_sector_number w.files
      → lookup disk.header_at disk.word_at text w.files ≡ none
      → is_there_exe disk.header_at disk.word_at (length w.files) first_file_sector_number text
        ≡ some 0
  unfolding is_there_exe answer
  is_there_exe-none text c g =
      rw
        (
          find_file-lookup disk.header_at disk.word_at (length w.files) first_file_sector_number
              text w.files refl c,
          g,
        )
        refl

  -- The answer is put on the screen, and nothing else changes.
  pub command-Answers :
      (text : List ℕ) (ss : List (List ℕ)) (c : Console)
      → Knows disk first_file_sector_number process_list w c
      → Answers disk w text ss
      → answer_to text c ≡ some (set_tty c (out_strings ss c.tty))
  unfolding command strcmp_equal
  command-Answers text ss c k ps =
      ap (λ o. o >>= λ t. some (set_tty c t))
        (show_process_list-lines w.process_name process_list c.system.tasks.items w.processes c.tty
          k.ring)
  command-Answers text ss c k ls =
      ap (λ o. o >>= λ t. some (set_tty c t))
        (show_files-listing disk (length w.files) first_file_sector_number w.files c.tty k.readable
          refl k.chain)
  command-Answers text ss c k (ticks n e) =
      ap (λ o. o >>= λ t. some (set_tty c t))
        (cmd_get_ticks_lem c.timer n c.tty (ap (λ x. int_to_str x 10) k.counted ∙ e))
  command-Answers text ss c k (unknown text' a b d e f g) =
      let none_there : is_there_exe disk.header_at disk.word_at (length w.files)
            first_file_sector_number text
          ≡ some 0 =
        is_there_exe-none text k.chain g in
      rw
        (
          differs (codes "read") text a,
          differs (codes "ticks") text b,
          differs (codes "ps") text d,
          differs (codes "ls") text e,
          none_there,
          differs (codes "test") text f,
          print_echo text c.tty,
        )
        refl
