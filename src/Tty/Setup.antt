-- ===== src/Tty/Setup.antt =====
-- The set-up of the screen (`init_tty` of src/drivers/tty.c).
use c4os.Common.{ℕ, ◌<◌, arith, Option, some, ◌>>=◌, bit_or, List}
use c4os.Memory.Window.{Machine, page_present, page_writable}
use c4os.Memory.Virtual.{AddressSpace}
use c4os.Memory.Virtual.Alloc.{alloc_kernel_pages}
use c4os.Tty.{Tty, TtyChar}
use c4os.Tty.Screen.{IsScreen}

-- The screen over the page of the video memory; `cell` gives the 16-bit words that the BIOS has left.
unfoldable pub new_tty : (ℕ → ℕ) → (ℕ → TtyChar) → List (ℕ × ℕ) → Tty
new_tty cell video ports = record {
  tty_width = cell 0x44a;
  tty_height = 25;
  cursor = 0;
  text_attr = 7;
  tty_buffer = video;
  tty_io_port = cell 0x463;
  ports = ports;
}

-- An allocation is not tested for the null pointer.
unfoldable pub init_tty :
    (ℕ → ℕ)
    → (ℕ → TtyChar)
    → List (ℕ × ℕ)
    → Machine
    → AddressSpace
    → Option (Tty × Machine × AddressSpace)
unfolding alloc_kernel_pages new_tty
init_tty cell video ports m s =
    alloc_kernel_pages 0 0xb_8000 1 (bit_or page_present page_writable) m s >>= λ r.
    some (new_tty cell video ports, r.1, r.2)

-- With a width from 1 to 65535 the screen is sound.
pub new_tty-IsScreen :
    (cell : ℕ → ℕ) (video : ℕ → TtyChar) (ports : List (ℕ × ℕ))
    → 0 < cell 0x44a
    → cell 0x44a < 0x1_0000
    → IsScreen (new_tty cell video ports)
unfolding new_tty
new_tty-IsScreen cell video ports p q = record {
  wide = omega arith;
  high = omega arith;
  small = omega arith;
  on_screen = omega arith;
}
