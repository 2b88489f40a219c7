-- ===== src/Tty.antt =====
-- The text screen of src/drivers/tty.c (`move_cursor`, `out_char`, `out_string`, `clear_screen`,
-- `set_text_attr`). The buffer is a function of the index of a character cell, and the writes to
-- I/O ports are kept in order, the latest first.
pub mod Screen
pub mod Format
pub mod Keys
pub mod Scancodes
pub mod Input
pub mod Setup
use c4os.Common.{
  ℕ, ◌+◌, ◌-◌, ◌*◌, ◌/◌, ◌%◌, List, [], ◌∷◌, ◌==◌, leb, if◌then◌else◌, u8, u32, shl, shr, update,
  add32,
}
use c4os.Stdlib.Bytes.{memcpy, memset_word}

pub record TtyChar : Type 0 where
  pub chr : ℕ
  pub attr : ℕ

pub record Tty : Type 0 where
  pub tty_width : ℕ
  pub tty_height : ℕ
  pub cursor : ℕ
  pub text_attr : ℕ
  pub tty_buffer : ℕ → TtyChar
  pub tty_io_port : ℕ
  pub ports : List (ℕ × ℕ)

-- `outportb(port, value)`
abbrev pub outportb : ℕ → ℕ → Tty → Tty
outportb port value t = record t { ports = (port, u8 value) ∷ t.ports }

-- `(text_attr << 8) + ' '`, as the two bytes of a cell
abbrev pub blank : Tty → TtyChar
blank t = record { chr = b' '; attr = t.text_attr }

-- The rows move up by one, and the last is cleared. The copy also reads one row behind the last.
unfoldable pub scroll : Tty → Tty
scroll t =
    let last_row = (t.tty_height - 1) * t.tty_width in
    let copied = memcpy 0 t.tty_width (t.tty_width * t.tty_height) t.tty_buffer in
    record t {
      cursor = last_row;
      tty_buffer = memset_word (t.tty_width * (t.tty_height - 1)) (blank t) t.tty_width copied;
    }

-- `cursor = pos;` and the test whether that is below the last row
unfoldable pub place_cursor : ℕ → Tty → Tty
place_cursor pos t0 =
    let t = record t0 { cursor = pos } in
    if leb (t.tty_width * t.tty_height) t.cursor then scroll t else t

-- The position goes to the registers 0x0E and 0x0F of the video card.
unfoldable pub report_cursor : Tty → Tty
report_cursor t0 =
    let t1 = outportb t0.tty_io_port 0x0e t0 in
    let t2 = outportb (t1.tty_io_port + 1) (shr t1.cursor 8) t1 in
    let t3 = outportb t2.tty_io_port 0x0f t2 in outportb (t3.tty_io_port + 1) (t3.cursor % 0x100) t3

unfoldable pub move_cursor : ℕ → Tty → Tty
unfolding place_cursor report_cursor
move_cursor pos t = report_cursor (place_cursor pos t)

-- The width comes from the BIOS and is not 0.
unfoldable pub out_char : ℕ → Tty → Tty
unfolding move_cursor
out_char chr t =
    if chr == 10
    then move_cursor (u32 ((t.cursor / t.tty_width + 1) * t.tty_width)) t
    else move_cursor (add32 t.cursor 1) (record t {
      tty_buffer = update t.tty_buffer t.cursor (record { chr = u8 chr; attr = t.text_attr });
    })

-- The characters before the terminating zero.
unfoldable pub out_string : List ℕ → Tty → Tty
unfolding out_char
out_string [] t = t
out_string (c ∷ str) t = out_string str (out_char c t)

unfoldable pub clear_screen : Tty → Tty
unfolding move_cursor
clear_screen t =
    move_cursor 0
      (record t { tty_buffer = memset_word 0 (blank t) (t.tty_width * t.tty_height) t.tty_buffer })

unfoldable pub set_text_attr : ℕ → Tty → Tty
set_text_attr attr t = record t { text_attr = u8 attr }
