-- ===== src/Tty/Input/Keyed.antt =====
-- `in_char` of src/drivers/tty.c on the scancodes that wait in the key buffer.
use c4os.Common.{
  ℕ, zero, suc, ◌≡◌, ◌<◌, refl, arith, true, false, Bool, Bool-cases, inl, inr, List, [], ◌∷◌,
  Option, none, some, ◌==◌, if◌then◌else◌, ◌>>=◌, length, Ensures, Ensures-bind, ap, ◌∙◌, subst,
  Option-cases,
}
use c4os.Tty.Keys.Queue.{Holds, in_scancode-Holds}
use c4os.Tty.Input.{Input, shift_after, char_of, press, in_char_round, in_char}

-- What a queue of scancodes stands for: the first character that is not 0, with the state of the
-- shift keys and the scancodes behind it.
unfoldable pub first_char : Bool → List ℕ → Option (ℕ × Bool × List ℕ)
first_char shift [] = none
first_char shift (code ∷ q) =
    let shift' = shift_after shift code in
    let rest = first_char shift' q in
    char_of shift' code >>= λ c. if c == 0 then rest else some (c, shift', q)

first_char-cons :
    (shift : Bool) (code : ℕ) (q : List ℕ) (c : ℕ)
    → char_of (shift_after shift code) code ≡ some c
    → first_char shift (code ∷ q) ≡ (
        if c == 0
        then first_char (shift_after shift code) q
        else some (c, shift_after shift code, q))
unfolding first_char
first_char-cons shift code q c e = rw e

first_char-none :
    (shift : Bool) (code : ℕ) (q : List ℕ)
    → char_of (shift_after shift code) code ≡ none
    → first_char shift (code ∷ q) ≡ none
unfolding first_char
first_char-none shift code q e = rw e

skipped :
    (shift : Bool) (code : ℕ) (q : List ℕ) (c : ℕ)
    → char_of (shift_after shift code) code ≡ some c
    → (c == 0) ≡ true
    → first_char (shift_after shift code) q ≡ first_char shift (code ∷ q)
skipped shift code q c e z = rw (first_char-cons shift code q c e, z)

stopped :
    (shift : Bool) (code : ℕ) (q : List ℕ) (c : ℕ)
    → char_of (shift_after shift code) code ≡ some c
    → (c == 0) ≡ false
    → some (c, shift_after shift code, q) ≡ first_char shift (code ∷ q)
stopped shift code q c e z = rw (first_char-cons shift code q c e, z)

-- The reader returned this character and is left with this state.
pub record Returned (c : ℕ) (shift : Bool) (q : List ℕ) (r : ℕ × Input) : Type 0 where
  pub char : r.0 ≡ c
  pub shifted : r.1.shift ≡ shift
  pub held : Holds r.1.keyboard q

Returned-stop :
    (c c' : ℕ) (shift shift' : Bool) (q q' : List ℕ) (r : ℕ × Input)
    → Returned c shift q r
    → ◌≡◌ {A = Option (ℕ × Bool × List ℕ)} (some (c, shift, q)) (some (c', shift', q'))
    → Returned c' shift' q' r
Returned-stop c c' shift shift' q q' r got e = record {
  char = cc (got.char);
  shifted = cc (got.shifted);
  held = subst (Holds r.1.keyboard) (cc (e)) got.held;
}

module _ (arrivals : ℕ → List (ℕ × ℕ)) (quiet : (n : ℕ) → arrivals n ≡ []) where
  in_char_round-Returned :
      (i : Input) (code : ℕ) (q : List ℕ) (c : ℕ)
      → Holds i.keyboard (code ∷ q)
      → char_of (shift_after i.shift code) code ≡ some c
      → Ensures (Returned c (shift_after i.shift code) q) (in_char_round arrivals i)
  unfolding in_char_round press
  in_char_round-Returned i code q c h e =
      let got = in_scancode-Holds i.keyboard code q h in
      rw (quiet i.rounds, got.0, e) (record { char = refl; shifted = refl; held = got.1 })

  -- While no key is pressed, `in_char(true)` returns the first character that the scancodes in the
  -- buffer stand for, and leaves the scancodes behind it; releases, shift keys and keys without a
  -- character are skipped.
  pub in_char-first_char :
      (fuel : ℕ) (i : Input) (q : List ℕ) (c : ℕ) (shift : Bool) (q' : List ℕ)
      → Holds i.keyboard q
      → length q < fuel
      → first_char i.shift q ≡ some (c, shift, q')
      → Ensures (Returned c shift q') (in_char arrivals fuel true i)
  unfolding in_char first_char
  in_char-first_char zero i q c shift q' h few e = absurd (omega arith)
  in_char-first_char (suc fuel) i [] c shift q' h few e = absurd (ground arith)
  in_char-first_char (suc fuel) i (code ∷ q) c shift q' h few e =
      elim (Option-cases (char_of (shift_after i.shift code) code)) [
        | inl n ↦ absurd (cc (first_char-none i.shift code q n))
        | inr (c0, s) ↦
            Ensures-bind (Returned c0 (shift_after i.shift code) q) (Returned c shift q')
              (in_char_round arrivals i)
              (λ r. if r.0 == 0 then in_char arrivals fuel true r.1 else some r)
              (in_char_round-Returned i code q c0 h s)
              (λ r got. elim (Bool-cases (c0 == 0)) [
                | inl z ↦ rw (ap (λ n. n == 0) got.char ∙ z) (
                    in_char-first_char fuel r.1 q c shift q' got.held (omega arith)
                      (ap (λ b. first_char b q) got.shifted ∙ skipped i.shift code q c0 s z ∙ e))
                | inr nz ↦ rw (ap (λ n. n == 0) got.char ∙ nz) (
                    Returned-stop c0 c (shift_after i.shift code) shift q q' r got
                      (stopped i.shift code q c0 s nz ∙ e))
              ])
      ]
