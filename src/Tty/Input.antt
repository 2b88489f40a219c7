-- ===== src/Tty/Input.antt =====
-- What the console reads: `in_char` and `in_string` of src/drivers/tty.c.
pub mod Keyed
pub mod Lines
pub mod Strings
use c4os.Common.{
  ℕ, zero, suc, ◌+◌, ◌-◌, Bool, true, false, ◌||◌, ◌&&◌, List, [], ◌∷◌, Option, none, some, ◌==◌,
  ltb, if◌then◌else◌, ◌>>=◌, bit_and, u8, update, get_elem?, sub32,
}
use c4os.Tty.{Tty, out_char}
use c4os.Tty.Keys.{Keyboard, keyboard_interrupt, in_scancode}
use c4os.Tty.Scancodes.{scancodes, scancodes_shifted}

-- The keyboard, the `static bool shift` of `in_char`, and the number of its rounds so far.
pub record Input : Type 0 where
  pub keyboard : Keyboard
  pub shift : Bool
  pub rounds : ℕ

-- The two shift keys, pressed or released.
unfoldable pub shift_after : Bool → ℕ → Bool
shift_after shift code =
    if code == 0x2a || code == 0x36
    then true
    else (if code == 0xaa || code == 0xb6 then false else shift)

-- The character of a scancode, 0 for a release. The tables end at 108, and an access behind their
-- end is not defined: `none`.
unfoldable pub char_of : Bool → ℕ → Option ℕ
char_of shift code =
    let index = if bit_and code 0x80 == 0 then code else 0 in
    if shift then get_elem? scancodes_shifted index else get_elem? scancodes index

-- The key presses that interrupt, each a scancode and the status of the port 0x61.
unfoldable pub press : List (ℕ × ℕ) → Keyboard → Keyboard
unfolding keyboard_interrupt
press [] k = k
press ((code, status) ∷ keys) k = press keys (keyboard_interrupt code status k)

-- A line that is typed: the caller's buffer, and the screen that echoes it.
pub record Line : Type 0 where
  pub buffer : ℕ → ℕ
  pub position : ℕ
  pub tty : Tty

-- The `switch` of `in_string`.
unfoldable pub edit : ℕ → ℕ → Line → Line
edit buffer_size chr l =
    if chr == 0
    then l
    else (if chr == 8
        then (if ltb 0 l.position
            then record l { position = l.position - 1; tty = out_char 8 l.tty }
            else l)
        else (if chr == 10
            then record l { tty = out_char 10 l.tty }
            else (if ltb l.position (sub32 buffer_size 1)
                then record l {
                  buffer = update l.buffer l.position chr;
                  position = l.position + 1;
                  tty = out_char chr l.tty;
                }
                else l)))

-- `arrivals n` are the key presses that interrupt before the round number `n` reads the buffer.
module _ (arrivals : ℕ → List (ℕ × ℕ)) where
  -- One round of `in_char`.
  unfoldable pub in_char_round : Input → Option (ℕ × Input)
  unfolding press in_scancode char_of shift_after
  in_char_round i =
      let (code, keyboard) = in_scancode (press (arrivals i.rounds) i.keyboard) in
      let shift = shift_after i.shift code in
      char_of shift code >>= λ chr.
      some (chr, record i { keyboard = keyboard; shift = shift; rounds = i.rounds + 1 })

  unfoldable pub in_char : ℕ → Bool → Input → Option (ℕ × Input)
  unfolding in_char_round
  in_char zero wait i = none
  in_char (suc fuel) wait i = in_char_round i >>= λ r.
      let rest = in_char fuel wait r.1 in if wait && (r.0 == 0) then rest else some r

  -- The rounds of `in_string`, each with the same fuel for its `in_char`.
  unfoldable pub in_string_loop : ℕ → ℕ → ℕ → Input → Line → Option (Input × Line)
  unfolding in_char edit
  in_string_loop zero fuel buffer_size i l = none
  in_string_loop (suc lines) fuel buffer_size i l = in_char fuel true i >>= λ r.
      let l' = edit buffer_size r.0 l in
      let rest = in_string_loop lines fuel buffer_size r.1 l' in
      if r.0 == 10 then some (r.1, l') else rest

  -- `buffer[position] = 0` ends the text.
  unfoldable pub in_string : ℕ → ℕ → ℕ → (ℕ → ℕ) → Input → Tty → Option (Input × (ℕ → ℕ) × Tty)
  unfolding in_string_loop
  in_string lines fuel buffer_size buffer i tty =
      in_string_loop lines fuel buffer_size i (record { buffer = buffer; position = 0; tty = tty })
      >>= λ r. some (r.0, update r.1.buffer r.1.position 0, r.1.tty)
