-- ===== src/Kernel/Console/Commands/Session.antt =====
-- What the console of src/kernel/kernel.c answers to the lines that are typed.
use c4os.Common.{ℕ, suc, ◌≡◌, Bool, List, [], Option, length}
use c4os.Tty.{Tty, out_char, out_string}
use c4os.Tty.Format.{codes}
use c4os.Tty.Format.Pieces.{out_strings}
use c4os.Tty.Keys.Queue.{Holds}
use c4os.Tty.Input.Lines.{typed}
use c4os.Tty.Input.Strings.{Types}
use c4os.Kernel.Console.{Disk}
use c4os.Kernel.Console.Commands.{Console, console_loop}
use c4os.Kernel.Console.Commands.Answered.{World, Answers}
use c4os.Kernel.Console.Commands.Reading.{in_order}

-- The keys that wait are lines, and the screen goes from one state to another by the prompt, the echo and the
-- answer of each.
pub data Session (disk : Disk) (w : World)
    : Bool → List ℕ → Tty → ℕ → Bool → List ℕ → Tty → Type 0 where
  over : {s : Bool} {q : List ℕ} {t : Tty} → Session disk w s q t 0 s q t
  and_then :
      {s s' s'' : Bool} {q q' q'' : List ℕ} {t u : Tty} {n : ℕ} (cs : List ℕ) (ss : List (List ℕ))
      → Types s q cs s' q'
      → Answers disk w (in_order (typed 255 cs ([], out_string (codes "Command>") t)).0 []) ss
      → Session disk w s' q'
          (out_strings ss (out_char 10 (typed 255 cs ([], out_string (codes "Command>") t)).1))
          n
          s''
          q''
          u
      → Session disk w s q t (suc n) s'' q'' u

-- Only the screen, and what the keyboard holds, are new.
pub record After (c : Console) (shift : Bool) (q : List ℕ) (t : Tty) (d : Console) : Type 0 where
  pub screen : d.tty ≡ t
  pub shifted : d.input.shift ≡ shift
  pub held : Holds d.input.keyboard q
  pub timer : d.timer ≡ c.timer
  pub system : d.system ≡ c.system

module _ (arrivals : ℕ → List (ℕ × ℕ)) (lines fuel : ℕ) (stack : ℕ → ℕ) (disk : Disk)
    (first_file_sector_number : ℕ) (process_list thread_list kernel_page_dir : ℕ)
    (syscall : Console → Option Console) (w : World) where
  abbrev loop : ℕ → Console → Option Console
  loop =
      console_loop arrivals lines fuel stack disk (length w.files) first_file_sector_number
        w.process_name process_list thread_list kernel_page_dir syscall
