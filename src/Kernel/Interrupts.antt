-- ===== src/Kernel/Interrupts.antt =====
-- The interrupt table and the dispatch of interrupts (`set_int_handler`, `irq_handler` of
-- src/kernel/interrupts.c), over the states of the parts that they reach, and the guard of
-- `syscall_handler` (src/kernel/syscall.c).
pub mod Dispatch
pub mod Events
pub mod Simulation
pub mod Fairness
pub mod Table
use c4os.Common.{ℕ, ◌/◌, ◌%◌, Option, none, some, List, ◌==◌, leb, if◌then◌else◌, ◌>>=◌, shr, u8}
use c4os.Multitasking.{Registers, Tasks, switch_task}
use c4os.Devices.Timer.{Timer, inc_pit_ticks}
use c4os.Devices.Floppy.{Floppy, i86_flpy_irq}
use c4os.Tty.Keys.{Keyboard, keyboard_interrupt}

pub record IntDesc : Type 0 where
  pub address_0_15 : ℕ
  pub selector : ℕ
  pub reserved : ℕ
  pub type_ : ℕ
  pub address_16_31 : ℕ

-- The fields of the descriptor that `set_int_handler` leaves in the table `idt`.
unfoldable pub set_int_handler : ℕ → ℕ → ℕ → (ℕ → IntDesc) → ℕ → IntDesc
set_int_handler index handler type_ idt i =
    if i == index
    then (record {
      address_0_15 = handler % 0x1_0000;
      selector = 8;
      reserved = 0;
      type_ = type_;
      address_16_31 = shr handler 16;
    })
    else idt i

-- The states that the handlers change.
pub record Kernel : Type 0 where
  pub timer : Timer
  pub tasks : Tasks
  pub keyboard : Keyboard
  pub floppy : Floppy

-- `printf`, the only system call, gets the registers as its arguments and gives the value for EAX.
module _ (printf_call : Registers → Kernel → Option (ℕ × Kernel)) where
  unfoldable pub syscall_handler : Registers → Kernel → Option (Registers × Kernel)
  syscall_handler regs k =
      if leb 1 regs.eax
      then some (regs, k)
      else (do (ret, k') ← printf_call regs k; some (record regs { eax = ret }, k'))

  -- `key_code` and `status` are what the keyboard's ports give.
  unfoldable pub irq_handler : ℕ → ℕ → ℕ → ℕ → Registers → Kernel → Option (Registers × Kernel)
  unfolding syscall_handler inc_pit_ticks switch_task keyboard_interrupt i86_flpy_irq
  irq_handler key_code status index esp regs k =
      if index == 0
      then (do
        (regs', tasks) ← switch_task regs esp k.tasks
        some (regs', record k { timer = inc_pit_ticks k.timer; tasks = tasks }))
      else (if index == 1
          then some (regs, record k { keyboard = keyboard_interrupt key_code status k.keyboard })
          else (if index == 6
              then some (regs, record k { floppy = i86_flpy_irq k.floppy })
              else (if index == 16 then syscall_handler regs k else some (regs, k))))
