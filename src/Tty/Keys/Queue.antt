-- ===== src/Tty/Keys/Queue.antt =====
-- The key buffer of src/drivers/tty.c is a queue of at most fifteen scancodes.
use c4os.Common.{
  ℕ, ◌+◌, ◌-◌, ◌%◌, ◌≤◌, ◌<◌, ◌≡◌, ◌≢◌, refl, arith, List, [], ◌∷◌, ◌++◌, length, length-append,
  update, Bool-cases, inl, inr, leb, ==_ne, ==_self, ◌∙◌,
}
use c4os.Tty.Keys.{Keyboard, keyboard_interrupt, in_scancode}

-- From index `h` on, going round at the end, the buffer holds the codes.
abbrev pub Slots : (ℕ → ℕ) → ℕ → List ℕ → Type 0
Slots buffer h [] = Unit {0}
Slots buffer h (c ∷ q) = (buffer (h % 16) ≡ c) × Slots buffer (h + 1) q

-- The unread scancodes, oldest first.
pub record Holds (k : Keyboard) (q : List ℕ) : Type 0 where
  pub head_in : k.key_buffer_head ≤ 16
  pub tail_in : k.key_buffer_tail ≤ 16
  pub few : length q ≤ 15
  pub slots : Slots k.key_buffer k.key_buffer_head q
  pub ends : k.key_buffer_tail % 16 ≡ (k.key_buffer_head + length q) % 16
  pub meets : length q ≡ 0 → k.key_buffer_head ≡ k.key_buffer_tail
  pub started : 0 < length q → 0 < k.key_buffer_tail

-- Only the place in the round counts.
Slots-round :
    (buffer : ℕ → ℕ) (h g : ℕ) (q : List ℕ) → h % 16 ≡ g % 16 → Slots buffer h q → Slots buffer g q
Slots-round buffer h g [] e s = tt
Slots-round buffer h g (c ∷ q) e s =
    (rw (← e) s.0, Slots-round buffer (h + 1) (g + 1) q (omega arith) s.1)

-- A code written behind the others.
Slots-snoc :
    (buffer : ℕ → ℕ) (h i c : ℕ) (q : List ℕ)
    → length q ≤ 15
    → i ≡ (h + length q) % 16
    → Slots buffer h q
    → Slots (update buffer i c) h (q ++ c ∷ [])
Slots-snoc buffer h i c q few e s = go q h few e s
  where
    go :
        (q : List ℕ) (h : ℕ)
        → length q ≤ 15
        → i ≡ (h + length q) % 16
        → Slots buffer h q
        → Slots (update buffer i c) h (q ++ c ∷ [])
    go [] h few e s = (ground arith, tt)
    go (d ∷ q) h few e s = (ground (arith, s.0), go q (h + 1) (omega arith) (omega arith) s.1)

keyboard_interrupt-fields :
    (k : Keyboard) (c status : ℕ)
    → k.key_buffer_tail ≤ 16
    → let g = keyboard_interrupt c status k in
      (g.key_buffer_tail ≡ k.key_buffer_tail % 16 + 1)
      × (g.key_buffer_head ≡ k.key_buffer_head)
      × (g.key_buffer ≡ update k.key_buffer (k.key_buffer_tail % 16) c)
unfolding keyboard_interrupt
keyboard_interrupt-fields k c status h = elim (Bool-cases (leb 16 k.key_buffer_tail)) [
  | inl wraps ↦
      let e : k.key_buffer_tail % 16 ≡ 0 = ground arith in rw (wraps, e) (refl, refl, refl)
  | inr fits ↦
      let e : k.key_buffer_tail % 16 ≡ k.key_buffer_tail = ground arith in
      let back : k.key_buffer_tail + 1 - 1 ≡ k.key_buffer_tail = omega arith in
      rw (fits, e, back) (refl, refl, refl)
]

in_scancode-fields :
    (k : Keyboard)
    → k.key_buffer_head ≤ 16
    → k.key_buffer_head ≢ k.key_buffer_tail
    → let (c, g) = in_scancode k in
      (c ≡ k.key_buffer (k.key_buffer_head % 16))
      × (g.key_buffer_head ≡ k.key_buffer_head % 16 + 1)
      × (g.key_buffer_tail ≡ k.key_buffer_tail)
      × (g.key_buffer ≡ k.key_buffer)
unfolding in_scancode
in_scancode-fields k h ne = rw (==_ne _ _ ne) (elim (Bool-cases (leb 16 k.key_buffer_head)) [
  | inl wraps ↦
      let e : k.key_buffer_head % 16 ≡ 0 = ground arith in rw (wraps, e) (refl, refl, refl, refl)
  | inr fits ↦
      let e : k.key_buffer_head % 16 ≡ k.key_buffer_head = ground arith in
      rw (fits, e) (refl, refl, refl, refl)
])

-- The interrupt handler puts the scancode behind the unread ones, of which there are at most 14.
pub keyboard_interrupt-Holds :
    (k : Keyboard) (q : List ℕ) (key_code status : ℕ)
    → Holds k q
    → length q < 15
    → Holds (keyboard_interrupt key_code status k) (q ++ key_code ∷ [])
keyboard_interrupt-Holds k q c status h few =
    let f = keyboard_interrupt-fields k c status h.tail_in in
    let n = length-append q (c ∷ []) in
    record {
      head_in = omega (arith, f.1, h.head_in);
      tail_in = omega (arith, f.0);
      few = omega (arith, n);
      slots =
          rw (f.1, f.2)
            (Slots-snoc k.key_buffer k.key_buffer_head (k.key_buffer_tail % 16) c q h.few h.ends
              h.slots);
      ends = rw (f.0, f.1, n) (omega (arith, h.ends));
      meets = λ e. absurd (omega (arith, n));
      started = λ p. omega (arith, f.0);
    }

-- The reader gets the oldest unread scancode, which is unread no more.
pub in_scancode-Holds :
    (k : Keyboard) (c : ℕ) (q : List ℕ)
    → Holds k (c ∷ q)
    → ((in_scancode k).0 ≡ c) × Holds (in_scancode k).1 q
in_scancode-Holds k c q h =
    let ne : k.key_buffer_head ≢ k.key_buffer_tail = λ e. omega (arith, h.ends, h.few, e) in
    let f = in_scancode-fields k h.head_in ne in
    let t : 0 < k.key_buffer_tail = h.started (omega arith) in
    (
      f.0 ∙ h.slots.0,
      record {
        head_in = omega (arith, f.1);
        tail_in = omega (arith, f.2, h.tail_in);
        few = omega (arith, h.few);
        slots =
            rw (f.1, f.3)
              (Slots-round k.key_buffer (k.key_buffer_head + 1) (k.key_buffer_head % 16 + 1) q
                (omega arith) h.slots.1);
        ends = rw (f.1, f.2) (omega (arith, h.ends));
        meets = λ e. omega (arith, f.1, f.2, h.ends, h.tail_in, t);
        started = λ p. omega (arith, f.2);
      },
    )

-- With nothing unread the reader gets 0 and changes nothing.
pub in_scancode_empty : (k : Keyboard) → Holds k [] → in_scancode k ≡ (0, k)
unfolding in_scancode
in_scancode_empty k h = rw (h.meets refl, ==_self k.key_buffer_tail)

-- A sixteenth unread scancode, once a first has been read, makes the buffer look empty: the reader
-- gets 0, and all sixteen are lost.
pub keyboard_interrupt_full :
    (k : Keyboard) (q : List ℕ) (key_code status : ℕ)
    → Holds k q
    → length q ≡ 15
    → 0 < k.key_buffer_head
    → (in_scancode (keyboard_interrupt key_code status k)).0 ≡ 0
unfolding in_scancode
keyboard_interrupt_full k q c status h full moved =
    rw meet (rw (==_self (keyboard_interrupt c status k).key_buffer_tail))
  where
    meet :
        (keyboard_interrupt c status k).key_buffer_head
        ≡ (keyboard_interrupt c status k).key_buffer_tail
    meet =
        let f = keyboard_interrupt-fields k c status h.tail_in in
        omega (arith, f.0, f.1, h.ends, h.head_in, h.tail_in)
