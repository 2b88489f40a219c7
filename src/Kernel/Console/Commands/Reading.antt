-- ===== src/Kernel/Console/Commands/Reading.antt =====
-- The line that the console of src/kernel/kernel.c reads.
use c4os.Common.{
  ℕ, zero, suc, ◌+◌, ◌-◌, ◌≡◌, ◌≤◌, ◌<◌, ◌≢◌, refl, arith, List, [], ◌∷◌, length, All, Ensures,
  Ensures-bind, subst, some, Bool, Bool-cases, inl, inr, ltb, ◌==◌, ==_ne, sub32,
}
use c4os.Tty.{Tty, out_char}
use c4os.Tty.Keys.Queue.{Holds}
use c4os.Tty.Input.{in_string, shift_after}
use c4os.Tty.Input.Keyed.{first_char}
use c4os.Tty.Input.Lines.{key, typed, Shows}
use c4os.Tty.Input.Strings.{Types, enter, char, Typed, in_string-Typed}
use c4os.Kernel.Console.{Disk}
use c4os.Kernel.Console.Commands.{Console, text_of, read_line}

-- A text that is given from its last character, in its order.
abbrev pub in_order : List ℕ → List ℕ → List ℕ
in_order [] behind = behind
in_order (c ∷ t) behind = in_order t (c ∷ behind)

text_of_at :
    (n i : ℕ) (buffer : ℕ → ℕ) (c : ℕ) (t : List ℕ)
    → buffer i ≡ c
    → c ≢ 0
    → text_of n (i + 1) buffer ≡ t
    → text_of (suc n) i buffer ≡ c ∷ t
unfolding text_of
text_of_at n i buffer c t e ne h = rw (e, ==_ne c 0 ne, h) refl

text_of_end : (n i : ℕ) (buffer : ℕ → ℕ) → buffer i ≡ 0 → text_of n i buffer ≡ []
unfolding text_of
text_of_end zero i buffer e = refl
text_of_end (suc n) i buffer e = rw e refl

text_of-in_order :
    (n : ℕ) (buffer : ℕ → ℕ) (s t : List ℕ)
    → Shows buffer s
    → All (λ c. c ≢ 0) s
    → text_of n (length s) buffer ≡ t
    → text_of (length s + n) 0 buffer ≡ in_order s t
text_of-in_order n buffer [] t h a e = subst (λ k. text_of k 0 buffer ≡ t) (omega arith) e
text_of-in_order n buffer (c ∷ s) t h a e =
    subst (λ k. text_of k 0 buffer ≡ in_order s (c ∷ t)) (omega arith)
      (text_of-in_order (suc n) buffer s (c ∷ t) h.1 a.1 (
        text_of_at n (length s) buffer c t h.0 a.0
          (subst (λ k. text_of n k buffer ≡ t) (omega arith) e)))

-- No character that is kept is 0.
key-All :
    (room c : ℕ) (s : List ℕ) (tty : Tty)
    → c ≢ 0
    → All (λ d. d ≢ 0) s
    → All (λ d. d ≢ 0) (key room c (s, tty)).0
key-All room c [] tty ne a = elim (Bool-cases (c == 8)) [
  | inl e ↦ rw e tt
  | inr e ↦ rw e (elim (Bool-cases (ltb 0 room)) [ inl l ↦ rw l (ne, tt) | inr l ↦ rw l tt ])
]
key-All room c (d ∷ s) tty ne a = elim (Bool-cases (c == 8)) [
  | inl e ↦ rw e a.1
  | inr e ↦
      rw e (elim (Bool-cases (ltb (length (d ∷ s)) room)) [ inl l ↦ rw l (ne, a) | inr l ↦ rw l a ])
]

typed-All :
    (room : ℕ) (shift shift' : Bool) (q cs q' : List ℕ) (s : List ℕ × Tty)
    → Types shift q cs shift' q'
    → All (λ d. d ≢ 0) s.0
    → All (λ d. d ≢ 0) (typed room cs s).0
typed-All room shift shift' q [] q' s t a = a
typed-All room shift shift' q (d ∷ cs) q'' s (char {s' = s'} {q' = q'} c f z n t) a =
    typed-All room s' shift' q' cs q'' (key room c s) t (key-All room c s.0 s.1 z a)

first_char-shorter :
    (shift : Bool) (q : List ℕ) (c : ℕ) (shift' : Bool) (q' : List ℕ)
    → first_char shift q ≡ some (c, shift', q')
    → length q' < length q
unfolding first_char
first_char-shorter shift [] c shift' q' h = absurd cc
first_char-shorter shift (code ∷ q) c shift' q' h =
    ground (arith, h, first_char-shorter (shift_after shift code) q c shift' q')

-- A line has fewer characters than the scancodes that type it.
pub length-Types :
    (shift shift' : Bool) (q cs q' : List ℕ)
    → Types shift q cs shift' q'
    → length cs + length q' < length q
length-Types shift shift' q [] q' (enter f) =
    omega (arith, first_char-shorter shift q 10 shift' q' f)
length-Types shift shift' q (d ∷ cs) q'' (char {s' = s'} {q' = q'} c f z n t) =
    omega (arith, first_char-shorter shift q d s' q' f, length-Types s' shift' q' cs q'' t)

-- What a line that is read leaves: its text, the screen with the echo, and the rest as it was.
pub record Read (s : List ℕ × Tty) (shift : Bool) (q : List ℕ) (c : Console) (r : List ℕ × Console)
    : Type 0 where
  pub text : r.0 ≡ in_order s.0 []
  pub screen : r.1.tty ≡ out_char 10 s.1
  pub shifted : r.1.input.shift ≡ shift
  pub held : Holds r.1.input.keyboard q
  pub timer : r.1.timer ≡ c.timer
  pub system : r.1.system ≡ c.system

module _ (arrivals : ℕ → List (ℕ × ℕ)) (lines fuel : ℕ) (stack : ℕ → ℕ) (disk : Disk)
    (files first_file_sector_number : ℕ) (process_name : ℕ → List ℕ)
    (process_list thread_list kernel_page_dir : ℕ) where
  pub read_line-Read :
      (size : ℕ) (c : Console) (shift : Bool) (q cs q' : List ℕ)
      → ((n : ℕ) → arrivals n ≡ [])
      → Holds c.input.keyboard q
      → Types c.input.shift q cs shift q'
      → length cs < lines
      → 15 < fuel
      → 1 ≤ size
      → size < 0x1_0000_0000
      → Ensures (Read (typed (sub32 size 1) cs ([], c.tty)) shift q' c) (
          read_line arrivals lines fuel stack disk files first_file_sector_number process_name
            process_list thread_list kernel_page_dir size c)
  unfolding read_line
  read_line-Read size c shift q cs q' quiet h t few enough lo hi =
      let s = typed (sub32 size 1) cs ([], c.tty) in
      Ensures-bind (Typed size stack s shift q') _
        (in_string arrivals lines fuel size stack c.input c.tty) _
        (in_string-Typed arrivals lines fuel size stack c.input c.tty q cs q' shift quiet h t few
          enough lo hi)
        (λ r done. record {
          text =
              subst (λ n. text_of n 0 r.1 ≡ in_order s.0 []) (omega (arith, done.fits))
                (text_of-in_order (size - length s.0) r.1 s.0 [] done.shows
                  (typed-All (sub32 size 1) c.input.shift shift q cs q' ([], c.tty) t tt)
                  (text_of_end (size - length s.0) (length s.0) r.1 done.ended));
          screen = done.screen;
          shifted = done.shifted;
          held = done.held;
          timer = refl;
          system = refl;
        })
