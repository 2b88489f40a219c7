-- ===== src/Tty/Input/Strings.antt =====
-- `in_string` of src/drivers/tty.c on the scancodes that wait in the key buffer.
use c4os.Common.{
  ℕ, zero, suc, ◌+◌, ◌≡◌, ◌≤◌, ◌<◌, ◌≢◌, refl, arith, true, Bool, List, [], ◌∷◌, some, ◌==◌,
  if◌then◌else◌, length, update, Ensures, Ensures-bind, sub32, ap, ◌∙◌, subst, sym, ==_ne,
}
use c4os.Ring.{update_ne}
use c4os.Tty.{Tty, out_char}
use c4os.Tty.Keys.Queue.{Holds}
use c4os.Tty.Input.{Input, Line, edit, in_char, in_string_loop, in_string}
use c4os.Tty.Input.Keyed.{first_char, Returned, in_char-first_char}
use c4os.Tty.Input.Lines.{typed, key, Shows, Shows-update, IsLine, line, edit-IsLine, enter-IsLine}

-- The scancodes that wait stand for the characters and then for Enter.
pub data Types : Bool → List ℕ → List ℕ → Bool → List ℕ → Type 0 where
  enter : {s s' : Bool} {q q' : List ℕ} → first_char s q ≡ some (10, s', q') → Types s q [] s' q'
  char :
      {s s' s'' : Bool} {q q' q'' cs : List ℕ} (c : ℕ)
      → first_char s q ≡ some (c, s', q')
      → c ≢ 0
      → c ≢ 10
      → Types s' q' cs s'' q''
      → Types s q (c ∷ cs) s'' q''

-- The loop has read a line, and is left with these scancodes.
pub record ReadLine (room : ℕ) (buffer : ℕ → ℕ) (s : List ℕ × Tty) (shift : Bool) (q : List ℕ)
    (r : Input × Line) : Type 0 where
  pub is_line : IsLine room buffer (s.0, out_char 10 s.1) r.1
  pub shifted : r.0.shift ≡ shift
  pub held : Holds r.0.keyboard q

module _ (arrivals : ℕ → List (ℕ × ℕ)) (quiet : (n : ℕ) → arrivals n ≡ []) (fuel size : ℕ)
    (enough : 15 < fuel) (buffer : ℕ → ℕ) where
  goes_on :
      (lines : ℕ) (r : ℕ × Input) (c : ℕ) (l : Line)
      → r.0 ≡ c
      → c ≢ 10
      → (if r.0 == 10
          then some (r.1, edit size r.0 l)
          else in_string_loop arrivals lines fuel size r.1 (edit size r.0 l))
        ≡ in_string_loop arrivals lines fuel size r.1 (edit size c l)
  goes_on lines r c l e n = rw (e, ==_ne c 10 n)

  in_string_loop-ReadLine :
      (lines : ℕ) (i : Input) (l : Line) (s : List ℕ × Tty) (shift shift' : Bool) (q cs q' : List ℕ)
      → Types shift q cs shift' q'
      → i.shift ≡ shift
      → Holds i.keyboard q
      → length cs < lines
      → IsLine (sub32 size 1) buffer s l
      → Ensures
          (ReadLine (sub32 size 1) buffer (typed (sub32 size 1) cs s) shift' q')
          (in_string_loop arrivals lines fuel size i l)
  unfolding in_string_loop
  in_string_loop-ReadLine zero i l s shift shift' q cs q' t e h few is = absurd (omega arith)
  in_string_loop-ReadLine (suc lines) i l s shift shift' q [] q' (enter f) e h few is =
      Ensures-bind (Returned 10 shift' q') _ (in_char arrivals fuel true i) _
        (in_char-first_char arrivals quiet fuel i q 10 shift' q' h (omega (arith, h.few))
          (ap (λ b. first_char b q) e ∙ f))
        (λ r got. rw got.char (record {
          is_line = enter-IsLine size (sub32 size 1) buffer s l is;
          shifted = got.shifted;
          held = got.held;
        }))
  in_string_loop-ReadLine (suc lines) i l s shift shift' q (d ∷ cs) q''
        (char {s' = s'} {q' = q'} c f z n t) e h few is =
      Ensures-bind (Returned c s' q') _ (in_char arrivals fuel true i) _
        (in_char-first_char arrivals quiet fuel i q c s' q' h (omega (arith, h.few))
          (ap (λ b. first_char b q) e ∙ f))
        (λ r got.
          subst
            (Ensures (ReadLine (sub32 size 1) buffer (typed (sub32 size 1) (d ∷ cs) s) shift' q''))
            (sym (goes_on lines r c l got.char n))
            (in_string_loop-ReadLine lines r.1 (edit size c l) (key (sub32 size 1) c s) s' shift' q'
              cs q'' t got.shifted got.held (omega arith) (edit-IsLine size buffer c z n s l is)))

-- What `in_string` leaves of a text that is given from its last character, and of the screen.
pub record Typed (size : ℕ) (buffer : ℕ → ℕ) (s : List ℕ × Tty) (shift : Bool) (q : List ℕ)
    (r : Input × (ℕ → ℕ) × Tty) : Type 0 where
  pub shows : Shows r.1 s.0
  pub ended : r.1 (length s.0) ≡ 0
  pub fits : length s.0 + 1 ≤ size
  pub outside : (j : ℕ) → size ≤ j → r.1 j ≡ buffer j
  pub screen : r.2 ≡ out_char 10 s.1
  pub shifted : r.0.shift ≡ shift
  pub held : Holds r.0.keyboard q

finish-Typed :
    (size : ℕ) (buffer : ℕ → ℕ) (s : List ℕ × Tty) (shift : Bool) (q : List ℕ) (r : Input × Line)
    → 1 ≤ size
    → size < 0x1_0000_0000
    → ReadLine (sub32 size 1) buffer s shift q r
    → Typed size buffer s shift q (r.0, update r.1.buffer r.1.position 0, r.1.tty)
finish-Typed size buffer s shift q r lo hi h = record {
  shows = Shows-update r.1.buffer r.1.position 0 s.0 (omega (arith, l.at)) l.shows;
  ended = ground (arith, l.at);
  fits = omega (arith, l.fits);
  outside = λ j p.
      update_ne r.1.buffer r.1.position 0 j (λ e. omega (arith, l.at, l.fits, e))
      ∙ l.outside j (omega arith);
  screen = l.screen;
  shifted = h.shifted;
  held = h.held;
}
  where
    l : IsLine (sub32 size 1) buffer (s.0, out_char 10 s.1) r.1
    l = h.is_line

-- While no key is pressed, `in_string` gets from the scancodes that wait, up to Enter, the text that
-- the keys type, with backspace and with room for one character less than the buffer: it stands in
-- the buffer with a 0 behind it, no cell behind the buffer is written, and the
-- screen has the echo. The scancodes behind Enter are left.
pub in_string-Typed :
    (arrivals : ℕ → List (ℕ × ℕ)) (lines fuel size : ℕ) (buffer : ℕ → ℕ) (i : Input) (tty : Tty)
    (q cs q' : List ℕ) (shift : Bool)
    → ((n : ℕ) → arrivals n ≡ [])
    → Holds i.keyboard q
    → Types i.shift q cs shift q'
    → length cs < lines
    → 15 < fuel
    → 1 ≤ size
    → size < 0x1_0000_0000
    → Ensures
        (Typed size buffer (typed (sub32 size 1) cs ([], tty)) shift q')
        (in_string arrivals lines fuel size buffer i tty)
unfolding in_string
in_string-Typed arrivals lines fuel size buffer i tty q cs q' shift quiet h t few enough lo hi =
    Ensures-bind (ReadLine (sub32 size 1) buffer (typed (sub32 size 1) cs ([], tty)) shift q') _
      (in_string_loop arrivals lines fuel size i (line buffer [] tty)) _
      (in_string_loop-ReadLine arrivals quiet fuel size enough buffer lines i (line buffer [] tty)
        ([], tty) i.shift shift q cs q' t refl h few
        (record {
          at = refl;
          fits = omega arith;
          shows = tt;
          outside = λ j p. refl;
          screen = refl;
        }))
      (λ r done. finish-Typed size buffer (typed (sub32 size 1) cs ([], tty)) shift q' r lo hi done)
