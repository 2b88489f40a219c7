-- ===== src/Tests/Screen.antt =====
-- The terminal of src/drivers/tty.c at concrete screens.
use c4os.Common.{[], ◌≡◌, ◌≤◌, arith, Ensures, length, ◌+◌}
use c4os.Tty.{Tty, move_cursor}
use c4os.Tty.Screen.{IsScreen, Reports, move_cursor-IsScreen}
use c4os.Tty.Format.{int_to_str}
use c4os.Tty.Format.Digits.{read, int_to_str-read}

abbrev pub small_screen : Tty
small_screen = record {
  tty_width = 4;
  tty_height = 3;
  cursor = 11;
  text_attr = 7;
  tty_buffer = λ i. record { chr = 0x41 + i; attr = 7 };
  tty_io_port = 0x3d4;
  ports = [];
}

small_screen-IsScreen : IsScreen small_screen
small_screen-IsScreen = record {
  wide = omega arith;
  high = omega arith;
  small = omega arith;
  on_screen = omega arith;
}

move_cursor-IsScreen_example :
    IsScreen (move_cursor 12 small_screen) × Reports small_screen (move_cursor 12 small_screen)
move_cursor-IsScreen_example = move_cursor-IsScreen 12 small_screen small_screen-IsScreen

int_to_str-read_example :
    Ensures (λ text. (read 16 0 text ≡ 0xb8000) × (length text ≤ 32)) (int_to_str 0xb8000 16)
int_to_str-read_example = int_to_str-read 0xb8000 16 (omega arith) (omega arith) (omega arith)
