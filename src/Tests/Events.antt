-- ===== src/Tests/Events.antt =====
-- Interrupts of src/kernel/interrupts.c in an order, with a read of the keyboard between them.
use c4os.Common.{
  ℕ, ◌+◌, ◌*◌, ◌<◌, ◌≢◌, ℕ, ◌∷◌, [], ◌≡◌, ◌≤◌, ◌++◌, refl, arith, false, Ensures, List,
}
use c4os.Multitasking.{is_suspended, initial_state}
use c4os.Kernel.Interrupts.Events.{
  Event, interrupt, read_key, Output, returns, gives, handle_all, View, tick, Steps, here, next,
  turn, key, take_key,
}
use c4os.Kernel.Interrupts.Simulation.{Shows, AllCome, handle_all-Steps}
use c4os.Kernel.Interrupts.Fairness.{count_ticks, Runs, handle_all-Runs}
use c4os.Kernel.Interrupts.{IntDesc}
use c4os.Kernel.Interrupts.Table.{fill_idt}
use c4os.Kernel.Interrupts.Table.Gates.{IsGate, fill_idt-IsGate}
use c4os.Tests.Tasks.{two_threads, kernel_registers}
use c4os.Tests.Kernel.{idle, no_output}

abbrev view : View
view = record {
  ticks = 7;
  running = 100;
  others = 200 ∷ [];
  saved = two_threads.state;
  asleep = λ x. false;
  unread = [];
  floppy_called = false;
}

idle-Shows : Shows idle view
unfolding is_suspended
idle-Shows = record {
  ticks = refl;
  running = refl;
  ring = (refl, refl, (refl, refl));
  few = omega arith;
  enabled = refl;
  saved = refl;
  asleep = λ x. refl;
  awake = refl;
  space = refl;
  unread = record {
    head_in = omega arith;
    tail_in = omega arith;
    few = omega arith;
    slots = tt;
    ends = refl;
    meets = λ e. refl;
    started = λ p. absurd (omega arith);
  };
  floppy_called = refl;
}

-- A key is pressed, the timer ticks, and the key is read.
abbrev events : List Event
events =
    interrupt 1 30 0 0xa000 kernel_registers
    ∷ interrupt 0 0 0 0xa000 kernel_registers
    ∷ read_key
    ∷ []

abbrev outputs : List Output
outputs = returns kernel_registers ∷ returns (initial_state false 0x400 0x8000 1) ∷ gives 30 ∷ []

abbrev after : View
after = record (tick kernel_registers view) { running = 200; others = 100 ∷ [] }

steps : Steps view events outputs after
steps = next (key 30 0 0xa000 kernel_registers (omega arith)) (
    next (turn 0 0 0xa000 kernel_registers [] 200 [] refl tt refl)
      (next (take_key 30 [] refl) here))

handle_all-Steps_example : Ensures (AllCome outputs after) (handle_all no_output events idle)
handle_all-Steps_example =
    handle_all-Steps no_output idle view after events outputs idle-Shows steps

handle_all-Runs_example :
    (first_ later : List Event) × (events ≡ first_ ++ later)
    × (count_ticks first_ ≤ 1)
    × Ensures (Runs 200) (handle_all no_output first_ idle)
handle_all-Runs_example =
    handle_all-Runs no_output idle view after events outputs [] 200 [] idle-Shows steps refl refl
      (omega arith)

abbrev empty_table : ℕ → IntDesc
empty_table i = record {
  address_0_15 = 0;
  selector = 0;
  reserved = 0;
  type_ = 0;
  address_16_31 = 0;
}

abbrev handlers : ℕ → ℕ
handlers i = 0x8010_0000 + i * 16

fill_idt-IsGate_example :
    ((i : ℕ) → i < 16 → IsGate (handlers i) 0x8e (fill_idt 0x20 handlers empty_table (0x20 + i)))
    × IsGate (handlers 16) 0xee (fill_idt 0x20 handlers empty_table (0x20 + 16))
    × ((i : ℕ)
        → ((j : ℕ) → j < 17 → i ≢ 0x20 + j)
        → fill_idt 0x20 handlers empty_table i ≡ empty_table i)
fill_idt-IsGate_example = fill_idt-IsGate 0x20 handlers empty_table (omega arith)
