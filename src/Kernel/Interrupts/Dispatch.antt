-- ===== src/Kernel/Interrupts/Dispatch.antt =====
-- What an interrupt does to the parts of the kernel (`irq_handler` of src/kernel/interrupts.c).
use c4os.Common.{
  ℕ, ◌≡◌, ◌≢◌, ◌<◌, refl, arith, true, Bool-cases, inl, inr, Ensures, Ensures-bind, some, Option,
  ◌==◌, ==_ne, ==→eq, ◌++◌, ◌∷◌, [], List, length, add32,
}
use c4os.Ring.{Linked}
use c4os.Multitasking.{Registers, switch_task, max_threads}
use c4os.Multitasking.Schedule.{first_ready}
use c4os.Multitasking.Switch.{Switched, switch_task-Switched}
use c4os.Devices.Timer.{inc_pit_ticks}
use c4os.Devices.Floppy.{i86_flpy_irq}
use c4os.Tty.Keys.{keyboard_interrupt}
use c4os.Kernel.Interrupts.{Kernel, irq_handler}

module _ (printf_call : Registers → Kernel → Option (ℕ × Kernel)) where
  -- With multitasking enabled, a ring of fewer than 2 ^ 20 threads beside the current one, and a
  -- thread that may run, the timer interrupt counts a tick and switches to the next such thread of
  -- the ring; it leaves the keyboard and the floppy disk alone.
  pub irq_handler-Switched :
      (key_code status esp : ℕ) (regs : Registers) (k : Kernel) (xs : List ℕ) (r : ℕ)
      → k.tasks.multitasking_enabled ≡ true
      → Linked k.tasks.items.next k.tasks.items.prev k.tasks.current_thread xs
          k.tasks.current_thread
      → length xs < max_threads
      → first_ready k.tasks (xs ++ k.tasks.current_thread ∷ []) ≡ some r
      → Ensures
          (λ (regs', k').
            Switched k.tasks regs r (regs', k'.tasks)
            × (k'.timer.pit_ticks ≡ add32 k.timer.pit_ticks 1)
            × (k'.keyboard ≡ k.keyboard)
            × (k'.floppy ≡ k.floppy))
          (irq_handler printf_call key_code status 0 esp regs k)
  unfolding irq_handler inc_pit_ticks
  irq_handler-Switched key_code status esp regs k xs r on ring few ready =
      Ensures-bind (Switched k.tasks regs r) _ (switch_task regs esp k.tasks) _
        (switch_task-Switched regs esp k.tasks xs r on ring few ready)
        (λ o s. (s, refl, refl, refl))

  -- Any interrupt but the timer's and the system call returns to the registers that it met, without
  -- a tick or a switch; the keyboard changes at its own line only, and so does the floppy disk.
  pub irq_handler_returns :
      (key_code status index esp : ℕ) (regs : Registers) (k : Kernel)
      → index ≢ 0
      → index ≢ 16
      → Ensures
          (λ (regs', k').
            (regs' ≡ regs)
            × (k'.timer ≡ k.timer)
            × (k'.tasks ≡ k.tasks)
            × (index ≢ 1 → k'.keyboard ≡ k.keyboard)
            × (index ≢ 6 → k'.floppy ≡ k.floppy)
            × (index ≡ 1 → k'.keyboard ≡ keyboard_interrupt key_code status k.keyboard)
            × (index ≡ 6 → k'.floppy.irq_received ≡ true))
          (irq_handler printf_call key_code status index esp regs k)
  unfolding irq_handler i86_flpy_irq
  irq_handler_returns key_code status index esp regs k z s =
      rw (==_ne index 0 z, ==_ne index 16 s)
        (elim (Bool-cases (index == 1)) [
          | inl e ↦
              let at = ==→eq index 1 e in
              rw e (
                refl,
                refl,
                refl,
                λ ne. absurd (ne at),
                λ ne. refl,
                λ q. refl,
                λ q. absurd (omega arith),
              )
          | inr e ↦
              let off : index ≢ 1 = λ q. ground arith in
              rw (==_ne index 1 off) (elim (Bool-cases (index == 6)) [
                | inl f ↦
                    let at = ==→eq index 6 f in
                    rw f (
                      refl,
                      refl,
                      refl,
                      λ ne. refl,
                      λ ne. absurd (ne at),
                      λ q. absurd (off q),
                      λ q. refl,
                    )
                | inr f ↦
                    let away : index ≢ 6 = λ q. ground arith in
                    rw (==_ne index 6 away) (
                      refl,
                      refl,
                      refl,
                      λ ne. refl,
                      λ ne. refl,
                      λ q. absurd (off q),
                      λ q. absurd (away q),
                    )
              ])
        ])
