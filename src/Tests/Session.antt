-- ===== src/Tests/Session.antt =====
-- The console of src/kernel/kernel.c with the lines "ps" and "ls" typed ahead.
use c4os.Common.{ℕ, false, List, [], ◌∷◌, ◌==◌, if◌then◌else◌}
use c4os.Tty.{Tty, out_char, out_string}
use c4os.Tty.Format.{codes}
use c4os.Tty.Format.Pieces.{out_strings}
use c4os.Tty.Keys.{Keyboard}
use c4os.Tty.Input.Lines.{typed}
use c4os.Kernel.Console.Listing.{listing}
use c4os.Kernel.Console.Processes.{process_lines}
use c4os.Kernel.Console.Commands.{Console}
use c4os.Kernel.Console.Commands.Answered.{World}
use c4os.Kernel.Console.Commands.Session.{Session}
use c4os.Tests.Console.{process_names}
use c4os.Tests.Kernel.{file_a, file_b}
use c4os.Tests.Processes.{system}
use c4os.Tests.Screen.{small_screen}

abbrev keys : List ℕ
keys = 25 ∷ 31 ∷ 28 ∷ 38 ∷ 31 ∷ 28 ∷ []

abbrev keyboard : Keyboard
keyboard = record {
  key_buffer = λ i.
      if i == 0
      then 25
      else (if i == 1 then 31 else (if i == 3 then 38 else (if i == 4 then 31 else 28)));
  key_buffer_head = 0;
  key_buffer_tail = 6;
  ports = [];
}

abbrev console : Console
console = record {
  tty = small_screen;
  input = record { keyboard = keyboard; shift = false; rounds = 0 };
  timer = record { pit_ticks = 7; ports = [] };
  system = system;
}

abbrev world : World
world = record {
  process_name = process_names;
  processes = 100 ∷ 200 ∷ [];
  files = file_a ∷ file_b ∷ [];
  ticks = 7;
}

-- The screen after the prompt, the keys and Enter, and after the answer.
abbrev answered : List ℕ → List (List ℕ) → Tty → Tty
answered cs ss t =
    out_strings ss (out_char 10 (typed 255 cs ([], out_string (codes "Command>") t)).1)

abbrev at_end : Tty
at_end =
    answered (codes "ls") (listing world.files)
      (answered (codes "ps") (process_lines process_names (100 ∷ 200 ∷ [])) small_screen)
