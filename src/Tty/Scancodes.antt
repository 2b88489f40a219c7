-- ===== src/Tty/Scancodes.antt =====
-- The tables of src/include/scancodes.h: the character of each of the first 109 scancodes, or 0.
use c4os.Common.{ℕ, List, ◌∷◌, ◌++◌, replicate}
use c4os.Tty.Format.{codes}

-- From NUMPAD * to the end: only *, the space, - and + stand for characters.
abbrev tail : List ℕ
tail = b'*' ∷ 0 ∷ b' ' ∷ (replicate 16 0 ++ b'-' ∷ 0 ∷ 0 ∷ 0 ∷ b'+' ∷ replicate 30 0)

abbrev pub scancodes : List ℕ
scancodes =
    0
    ∷ 0
    ∷ (codes "1234567890-="
        ++ 8
          ∷ 9
          ∷ (codes "qwertyuiop[]"
              ++ 10 ∷ 0 ∷ (codes "asdfghjkl;'`" ++ 0 ∷ 92 ∷ (codes "zxcvbnm,./" ++ 0 ∷ tail))))

abbrev pub scancodes_shifted : List ℕ
scancodes_shifted =
    0
    ∷ 0
    ∷ (codes "!@#$%^&*()_+"
        ++ 8
          ∷ 9
          ∷ (codes "QWERTYUIOP{}"
              ++ 10
                ∷ 0
                ∷ (codes "ASDFGHJKL:" ++ 34 ∷ b'~' ∷ 0 ∷ (codes "|ZXCVBNM<>?" ++ 0 ∷ tail))))
