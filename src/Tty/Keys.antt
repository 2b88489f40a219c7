-- ===== src/Tty/Keys.antt =====
-- The keyboard of src/drivers/tty.c: the buffer of scancodes between the interrupt handler
-- (`keyboard_interrupt`) and its reader (`in_scancode`).
pub mod Queue
use c4os.Common.{
  ℕ, ◌+◌, ◌-◌, ◌%◌, Bool, true, false, List, [], ◌∷◌, ◌==◌, leb, not, if◌then◌else◌, bit_or, u8,
  add32, update,
}

abbrev pub key_buffer_size : ℕ
key_buffer_size = 16

pub record Keyboard : Type 0 where
  pub key_buffer : ℕ → ℕ
  pub key_buffer_head : ℕ
  pub key_buffer_tail : ℕ
  -- the writes to I/O ports, the latest first
  pub ports : List (ℕ × ℕ)

abbrev pub set_head : ℕ → Keyboard → Keyboard
set_head h k = record k { key_buffer_head = h }

-- `key_code` and `status` are what the ports 0x60 and 0x61 give.
unfoldable pub keyboard_interrupt : ℕ → ℕ → Keyboard → Keyboard
keyboard_interrupt key_code status k0 =
    let k1 =
      if leb key_buffer_size k0.key_buffer_tail then record k0 { key_buffer_tail = 0 } else k0 in
    let k2 = record k1 { key_buffer_tail = k1.key_buffer_tail + 1 } in
    record k2 {
      key_buffer = update k2.key_buffer (k2.key_buffer_tail - 1) key_code;
      ports = (0x61, bit_or status 1) ∷ k2.ports;
    }

-- The oldest scancode of the buffer, or 0.
unfoldable pub in_scancode : Keyboard → ℕ × Keyboard
in_scancode k0 =
    if not (k0.key_buffer_head == k0.key_buffer_tail)
    then (let k1 = if leb key_buffer_size k0.key_buffer_head then set_head 0 k0 else k0 in
        (k1.key_buffer k1.key_buffer_head, set_head (k1.key_buffer_head + 1) k1))
    else (0, k0)
