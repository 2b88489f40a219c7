-- ===== src/Tty/Screen.antt =====
-- The cursor stays on the screen, and what a scroll and a character leave on it.
use c4os.Common.{
  ℕ, ◌+◌, ◌-◌, ◌*◌, ◌/◌, ◌%◌, ◌≤◌, ◌<◌, ◌≡◌, zero, suc, refl, arith, ◌∷◌, [], List, ◌==◌, leb, ltb,
  if◌then◌else◌, Bool-cases, inl, inr, true, u8,
}
use native.Mathlib.Nat.{mul-suc}
use c4os.Stdlib.Bytes.{memcpy, memset_word}
use c4os.Stdlib.Bytes.Copies.{memcpy_lem, memset_word_lem}
use c4os.Tty.{
  Tty, TtyChar, scroll, move_cursor, out_char, out_string, blank, place_cursor, report_cursor,
}

-- The screen has rows and columns and stays below 2 ^ 31 cells, and the cursor is on it.
pub record IsScreen (t : Tty) : Type 0 where
  pub wide : 0 < t.tty_width
  pub high : 0 < t.tty_height
  pub small : t.tty_width * t.tty_height < 0x8000_0000
  pub on_screen : t.cursor < t.tty_width * t.tty_height

last_row-lt : (w h : ℕ) → 0 < w → 0 < h → (h - 1) * w < w * h
last_row-lt w h p q = grind arith

place_cursor-IsScreen : (pos : ℕ) (t : Tty) → IsScreen t → IsScreen (place_cursor pos t)
unfolding place_cursor scroll
place_cursor-IsScreen pos t s = elim (Bool-cases (leb (t.tty_width * t.tty_height) pos)) [
  | inl below ↦ rw below (record {
    wide = s.wide;
    high = s.high;
    small = s.small;
    on_screen = last_row-lt t.tty_width t.tty_height s.wide s.high;
  })
  | inr inside ↦
      rw inside (record { wide = s.wide; high = s.high; small = s.small; on_screen = ground arith })
]

place_cursor-ports :
    (pos : ℕ) (t : Tty)
    → ((place_cursor pos t).ports ≡ t.ports) × ((place_cursor pos t).tty_io_port ≡ t.tty_io_port)
unfolding place_cursor scroll
place_cursor-ports pos t = ground arith

-- The ports written on the way to a cursor position, the latest first.
abbrev pub Reports : Tty → Tty → Type 0
Reports t g =
    g.ports
    ≡ (t.tty_io_port + 1, g.cursor % 0x100)
      ∷ (t.tty_io_port, 0x0f)
      ∷ (t.tty_io_port + 1, g.cursor / 0x100 % 0x100)
      ∷ (t.tty_io_port, 0x0e)
      ∷ t.ports

-- Wherever the cursor of a sound screen is sent, it ends on the screen, and four port writes tell
-- the video card the high and the low byte of where that is.
pub move_cursor-IsScreen :
    (pos : ℕ) (t : Tty) → IsScreen t → IsScreen (move_cursor pos t) × Reports t (move_cursor pos t)
unfolding move_cursor report_cursor
move_cursor-IsScreen pos t s = (
  record { wide = p.wide; high = p.high; small = p.small; on_screen = p.on_screen },
  rw ((place_cursor-ports pos t).0, (place_cursor-ports pos t).1, low) refl,
)
  where
    p : IsScreen (place_cursor pos t)
    p = place_cursor-IsScreen pos t s

    low : u8 ((place_cursor pos t).cursor % 0x100) ≡ (place_cursor pos t).cursor % 0x100
    low = omega arith

rows_above : (w h : ℕ) → 0 < h → w * (h - 1) + w ≡ w * h
rows_above w zero p = elim p [ ]
rows_above w (suc h) p = let e : suc h - 1 ≡ h = omega arith in rw e (omega (arith, mul-suc w h))

-- On a screen of even width, a cursor sent below the last row goes to the start of that row, and
-- every row shows what the row below it showed, and the last is blank.
pub move_cursor_scrolls :
    (pos : ℕ) (t : Tty) (j : ℕ)
    → IsScreen t
    → t.tty_width % 2 ≡ 0
    → t.tty_width * t.tty_height ≤ pos
    → j < t.tty_width * t.tty_height
    → ((move_cursor pos t).cursor ≡ (t.tty_height - 1) * t.tty_width)
      × ((move_cursor pos t).tty_buffer j ≡ (
          if ltb j (t.tty_width * (t.tty_height - 1))
          then t.tty_buffer (j + t.tty_width)
          else blank t))
unfolding move_cursor report_cursor place_cursor scroll
move_cursor_scrolls pos t j s even below inside = rw past (refl, cells)
  where
    open t use {tty_width as w, tty_height as h, tty_buffer as buffer}

    past : leb (w * h) pos ≡ true
    past = ground arith

    cells :
        memset_word (w * (h - 1)) (blank t) w (memcpy 0 w (w * h) buffer) j
        ≡ (if ltb j (w * (h - 1)) then buffer (j + w) else blank t)
    cells = ground (
      arith,
      memset_word_lem (w * (h - 1)) (blank t) w (memcpy 0 w (w * h) buffer) j,
      memcpy_lem 0 w (w * h) buffer j,
      rows_above w h s.high,
    )

update-IsScreen : (t : Tty) (b : ℕ → TtyChar) → IsScreen t → IsScreen (record t { tty_buffer = b })
update-IsScreen t b s = record {
  wide = s.wide;
  high = s.high;
  small = s.small;
  on_screen = s.on_screen;
}

out_char-IsScreen : (c : ℕ) (t : Tty) → IsScreen t → IsScreen (out_char c t)
unfolding out_char
out_char-IsScreen c t s = elim (Bool-cases (c == 10)) [
  | inl line ↦ rw line (move_cursor-IsScreen _ t s).0
  | inr other ↦ rw other (move_cursor-IsScreen _ _ (update-IsScreen t _ s)).0
]

-- No text moves the cursor of a sound screen off it.
pub out_string-IsScreen : (str : List ℕ) (t : Tty) → IsScreen t → IsScreen (out_string str t)
unfolding out_string
out_string-IsScreen [] t s = s
out_string-IsScreen (c ∷ str) t s = out_string-IsScreen str (out_char c t) (out_char-IsScreen c t s)
