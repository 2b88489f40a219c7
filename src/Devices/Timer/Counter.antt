-- ===== src/Devices/Timer/Counter.antt =====
-- The frequency divider, and how long `sleep` of src/kernel/timer.c waits.
use c4os.Common.{
  ℕ, zero, suc, ◌+◌, ◌*◌, ◌/◌, ◌%◌, ◌≤◌, ◌<◌, ◌≡◌, ◌≢◌, arith, none, some, ◌∷◌, ltb, Bool-cases,
  inl, inr, Ensures, Ensures-mono, subst, sym, ==→eq, ==_self, ◌==◌, ltb→lt,
}
use native.Mathlib.Nat.{div-add-mod}
use c4os.Devices.Timer.{Timer, i86_pit_start_counter, control_word, sleep_loop}

-- A frequency that is a multiple of 65536 and not 0 passes the guard and is divided by as 0.
pub i86_pit_start_counter_faults :
    (freq counter mode : ℕ) (t : Timer)
    → freq ≢ 0
    → freq % 0x1_0000 ≡ 0
    → i86_pit_start_counter freq counter mode t ≡ none
unfolding i86_pit_start_counter
i86_pit_start_counter_faults freq counter mode t ne e = ground arith

below_divider : (q freq : ℕ) → 19 ≤ freq → 19 * q ≤ freq * q
below_divider q freq h = grind arith

control_word-lt : (counter mode : ℕ) → control_word counter mode < 0x100
unfolding control_word
control_word-lt counter mode = omega arith

-- From 19 Hz up to 65535 Hz the control word and then the low and the high byte of the divider
-- 1193181 / freq go to the timer, which restarts its ticks at 0.
pub i86_pit_start_counter_lem :
    (freq counter mode : ℕ) (t : Timer)
    → 19 ≤ freq
    → freq < 0x1_0000
    → i86_pit_start_counter freq counter mode t
      ≡ some (record {
        pit_ticks = 0;
        ports =
            (0x40, 1193181 / freq / 0x100)
            ∷ (0x40, 1193181 / freq % 0x100)
            ∷ (0x43, control_word counter mode)
            ∷ t.ports;
      })
unfolding i86_pit_start_counter
i86_pit_start_counter_lem freq counter mode t lo hi = ground (
  arith,
  below_divider (1193181 / freq) freq lo,
  div-add-mod 1193181 freq,
  control_word-lt counter mode,
)

earlier_rounds :
    (ticks_at : ℕ → ℕ) (ticks round r : ℕ)
    → ticks_at round < ticks
    → ((i : ℕ) → round + 1 ≤ i → i < r → ticks_at i < ticks)
    → (i : ℕ) → round ≤ i
    → i < r
    → ticks_at i < ticks
earlier_rounds ticks_at ticks round r early all i p q = elim (Bool-cases (i == round)) [
  | inl e ↦ subst (λ m. ticks_at m < ticks) (sym (==→eq i round e)) early
  | inr ne ↦ all i (ground (arith, ==_self i)) q
]

-- If the tick count has reached the target in some round within the fuel, the loop of `sleep`
-- returns, in the first round in which it has.
pub sleep_loop_lem :
    (fuel : ℕ) (ticks_at : ℕ → ℕ) (ticks round n : ℕ)
    → n < fuel
    → ticks ≤ ticks_at (round + n)
    → Ensures
        (λ r.
          (ticks ≤ ticks_at r)
          × (r ≤ round + n)
          × ((i : ℕ) → round ≤ i → i < r → ticks_at i < ticks))
        (sleep_loop fuel ticks_at ticks round)
unfolding sleep_loop
sleep_loop_lem zero ticks_at ticks round n h e = elim h [ ]
sleep_loop_lem (suc fuel) ticks_at ticks round zero h e =
    elim (Bool-cases (ltb (ticks_at round) ticks)) [
      | inl early ↦ absurd (grind (arith, ltb→lt (ticks_at round) ticks early))
      | inr due ↦ rw due (ground arith, omega arith, λ i p q. absurd (omega arith))
    ]
sleep_loop_lem (suc fuel) ticks_at ticks round (suc n) h e =
    elim (Bool-cases (ltb (ticks_at round) ticks)) [
      | inl early ↦ rw early (
          Ensures-mono
            (λ r.
              (ticks ≤ ticks_at r)
              × (r ≤ round + 1 + n)
              × ((i : ℕ) → round + 1 ≤ i → i < r → ticks_at i < ticks))
            (λ r.
              (ticks ≤ ticks_at r)
              × (r ≤ round + suc n)
              × ((i : ℕ) → round ≤ i → i < r → ticks_at i < ticks))
            (sleep_loop fuel ticks_at ticks (round + 1))
            (sleep_loop_lem fuel ticks_at ticks (round + 1) n (omega arith)
              (subst (λ m. ticks ≤ ticks_at m) step e))
            (λ r (due, bound, all). (
              due,
              omega arith,
              earlier_rounds ticks_at ticks round r (ltb→lt (ticks_at round) ticks early) all,
            )))
      | inr due ↦ rw due (ground arith, omega arith, λ i p q. absurd (omega arith))
    ]
  where
    step : round + suc n ≡ round + 1 + n
    step = omega arith
