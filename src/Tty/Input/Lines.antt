-- ===== src/Tty/Input/Lines.antt =====
-- `in_string` of src/drivers/tty.c as a line editor.
use c4os.Common.{
  ℕ, ◌+◌, ◌-◌, ◌≡◌, ◌≤◌, ◌≢◌, refl, arith, Bool-cases, inl, inr, List, [], ◌∷◌, ◌==◌, ltb,
  if◌then◌else◌, length, update, sub32, ap, ◌∙◌, subst, sym, lt→ltb, ==_ne,
}
use c4os.Ring.{update_self, update_ne}
use c4os.Tty.{Tty, out_char}
use c4os.Tty.Input.{Line, edit}

-- The text so far from its last character, and the screen: what one key does to them. Backspace
-- takes the last character away, and a full buffer takes no more.
abbrev pub key : ℕ → ℕ → List ℕ × Tty → List ℕ × Tty
key room c (t, tty) =
    if c == 8
    then (elim t [ [] ↦ ([], tty) | d ∷ t' ↦ (t', out_char 8 tty) ])
    else (if ltb (length t) room then (c ∷ t, out_char c tty) else (t, tty))

abbrev pub typed : ℕ → List ℕ → List ℕ × Tty → List ℕ × Tty
typed room [] s = s
typed room (c ∷ cs) s = typed room cs (key room c s)

-- The buffer shows a text that is given from its last character.
abbrev pub Shows : (ℕ → ℕ) → List ℕ → Type 0
Shows buffer [] = Unit {0}
Shows buffer (c ∷ t) = (buffer (length t) ≡ c) × Shows buffer t

pub Shows-update :
    (buffer : ℕ → ℕ) (j v : ℕ) (t : List ℕ)
    → length t ≤ j
    → Shows buffer t
    → Shows (update buffer j v) t
Shows-update buffer j v [] h s = tt
Shows-update buffer j v (c ∷ t) h s =
    (ground (arith, s.0), Shows-update buffer j v t (omega arith) s.1)

-- A line of which the text is known.
pub record IsLine (room : ℕ) (buffer : ℕ → ℕ) (s : List ℕ × Tty) (l : Line) : Type 0 where
  pub at : l.position ≡ length s.0
  pub fits : length s.0 ≤ room
  pub shows : Shows l.buffer s.0
  pub outside : (j : ℕ) → room ≤ j → l.buffer j ≡ buffer j
  pub screen : l.tty ≡ s.1

-- The line that a text, a buffer and a screen make.
abbrev pub line : (ℕ → ℕ) → List ℕ → Tty → Line
line b t tty = record { buffer = b; position = length t; tty = tty }

module _ (room : ℕ) (buffer : ℕ → ℕ) (b : ℕ → ℕ) where
  put-IsLine :
      (c : ℕ) (t : List ℕ) (tty : Tty)
      → IsLine room buffer (t, tty) (line b t tty)
      → IsLine room buffer (if ltb (length t) room then (c ∷ t, out_char c tty) else (t, tty)) (
          if ltb (length t) room
          then record {
            buffer = update b (length t) c;
            position = length t + 1;
            tty = out_char c tty;
          }
          else line b t tty)
  put-IsLine c t tty h = elim (Bool-cases (ltb (length t) room)) [
    | inl e ↦ rw e (record {
      at = omega arith;
      fits = ground arith;
      shows = (update_self b (length t) c, Shows-update b (length t) c t (omega arith) h.shows);
      outside = λ j p. update_ne b (length t) c j (λ q. ground arith) ∙ h.outside j p;
      screen = refl;
    })
    | inr e ↦ rw e h
  ]

  back-IsLine :
      (t : List ℕ) (tty : Tty)
      → IsLine room buffer (t, tty) (line b t tty)
      → IsLine room buffer
          (elim t [ [] ↦ ([], tty) | d ∷ t' ↦ (t', out_char 8 tty) ])
          (if ltb 0 (length t)
            then record { buffer = b; position = length t - 1; tty = out_char 8 tty }
            else line b t tty)
  back-IsLine [] tty h = h
  back-IsLine (d ∷ t) tty h = rw (lt→ltb 0 (length (d ∷ t)) (omega arith)) (record {
    at = omega arith;
    fits = omega (arith, h.fits);
    shows = h.shows.1;
    outside = h.outside;
    screen = refl;
  })

module _ (size : ℕ) (buffer : ℕ → ℕ) (c : ℕ) (z : c ≢ 0) (n : c ≢ 10) where
  edit-line :
      (b : ℕ → ℕ) (t : List ℕ) (tty : Tty)
      → IsLine (sub32 size 1) buffer (t, tty) (line b t tty)
      → IsLine (sub32 size 1) buffer (key (sub32 size 1) c (t, tty)) (edit size c (line b t tty))
  unfolding edit
  edit-line b t tty h =
      rw (==_ne c 0 z, ==_ne c 10 n)
        (elim (Bool-cases (c == 8)) [
          | inl e ↦ rw e (back-IsLine (sub32 size 1) buffer b t tty h)
          | inr e ↦ rw e (put-IsLine (sub32 size 1) buffer b c t tty h)
        ])

  pub edit-IsLine :
      (s : List ℕ × Tty) (l : Line)
      → IsLine (sub32 size 1) buffer s l
      → IsLine (sub32 size 1) buffer (key (sub32 size 1) c s) (edit size c l)
  edit-IsLine (t, tty) l h =
      subst (λ x. IsLine (sub32 size 1) buffer (key (sub32 size 1) c (t, tty)) (edit size c x))
        (sym same) (edit-line l.buffer t tty (subst (IsLine (sub32 size 1) buffer (t, tty)) same h))
    where
      same : l ≡ line l.buffer t tty
      same = λ i. record { buffer = l.buffer; position = h.at i; tty = h.screen i }

pub enter-IsLine :
    (size room : ℕ) (buffer : ℕ → ℕ) (s : List ℕ × Tty) (l : Line)
    → IsLine room buffer s l
    → IsLine room buffer (s.0, out_char 10 s.1) (edit size 10 l)
unfolding edit
enter-IsLine size room buffer s l h = record {
  at = h.at;
  fits = h.fits;
  shows = h.shows;
  outside = h.outside;
  screen = ap (out_char 10) h.screen;
}
