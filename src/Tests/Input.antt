-- ===== src/Tests/Input.antt =====
-- `in_char` and `in_string` of src/drivers/tty.c on concrete scancodes.
use c4os.Common.{
  ℕ, refl, arith, true, false, List, [], ◌∷◌, ◌==◌, ltb, if◌then◌else◌, Ensures, sub32,
}
use c4os.Tty.{Tty}
use c4os.Tty.Keys.{Keyboard}
use c4os.Tty.Keys.Queue.{Holds}
use c4os.Tty.Input.{Input, shift_after, char_of, in_string}
use c4os.Tty.Input.Keyed.{first_char}
use c4os.Tty.Input.Lines.{typed}
use c4os.Tty.Input.Strings.{Types, enter, char, Typed, in_string-Typed}

-- A shift key, the key A twice, backspace and Enter.
abbrev typed_keys : List ℕ
typed_keys = 42 ∷ 30 ∷ 30 ∷ 14 ∷ 28 ∷ []

abbrev waiting : Keyboard
waiting = record {
  key_buffer = λ i. if i == 2 then 42 else (if ltb i 5 then 30 else (if i == 5 then 14 else 28));
  key_buffer_head = 2;
  key_buffer_tail = 7;
  ports = [];
}

waiting-Holds : Holds waiting typed_keys
waiting-Holds = record {
  head_in = omega arith;
  tail_in = omega arith;
  few = omega arith;
  slots = (refl, (refl, (refl, (refl, (refl, tt)))));
  ends = refl;
  meets = λ e. absurd (omega arith);
  started = λ p. omega arith;
}

abbrev input : Input
input = record { keyboard = waiting; shift = false; rounds = 0 }

abbrev screen : Tty
screen = record {
  tty_width = 4;
  tty_height = 3;
  cursor = 0;
  text_attr = 7;
  tty_buffer = λ i. record { chr = 0x20; attr = 7 };
  tty_io_port = 0x3d4;
  ports = [];
}

typed_keys-Types : Types false typed_keys (b'A' ∷ b'A' ∷ 8 ∷ []) true []
unfolding first_char char_of shift_after
typed_keys-Types =
    char b'A' refl (λ e. omega arith) (λ e. omega arith)
      (char b'A' refl (λ e. omega arith) (λ e. omega arith)
        (char 8 refl (λ e. omega arith) (λ e. omega arith) (enter refl)))

in_string-Typed_example :
    Ensures
      (Typed 256 (λ j. 0) (typed (sub32 256 1) (b'A' ∷ b'A' ∷ 8 ∷ []) ([], screen)) true [])
      (in_string (λ n. []) 4 16 256 (λ j. 0) input screen)
in_string-Typed_example =
    in_string-Typed (λ n. []) 4 16 256 (λ j. 0) input screen typed_keys (b'A' ∷ b'A' ∷ 8 ∷ []) []
      true (λ n. refl) waiting-Holds typed_keys-Types (omega arith) (omega arith) (omega arith)
      (omega arith)
