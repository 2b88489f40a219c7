-- ===== src/Kernel/Interrupts/Table.antt =====
-- The set-up of interrupts (`init_interrupts` of src/kernel/interrupts.c).
pub mod Gates
use c4os.Common.{
  ℕ, zero, suc, ◌+◌, ◌*◌, Bool, true, Option, some, List, ◌∷◌, [], ◌>>=◌, minus_one, bit_or, u8,
}
use c4os.Devices.Ports.{Ports, outportb}
use c4os.Memory.Window.{Machine, page_present, page_writable, page_global}
use c4os.Memory.Virtual.{AddressSpace}
use c4os.Memory.Virtual.Alloc.{alloc_kernel_pages}
use c4os.Kernel.Interrupts.{IntDesc, set_int_handler}

-- `IDTR`, as `lidt` loads it.
pub record Idtr : Type 0 where
  pub limit : ℕ
  pub base : ℕ

pub record Interrupts : Type 0 where
  pub idt_address : ℕ
  pub idt : ℕ → IntDesc
  pub idtr : Idtr
  pub irq_base : ℕ
  pub irq_count : ℕ
  pub ports : Ports
  -- whether `sti` has been executed
  pub enabled : Bool

-- The two controllers are told where their interrupts begin.
unfoldable pub init_controllers : ℕ → Ports → Ports
init_controllers irq_base p =
    let p1 = outportb 0x21 1 (outportb 0x21 4 (outportb 0x21 irq_base (outportb 0x20 0x11 p))) in
    outportb 0xa1 1 (outportb 0xa1 2 (outportb 0xa1 (irq_base + 8) (outportb 0xa0 0x11 p1)))

-- The loop over the first `n` of the 16 lines.
unfoldable pub set_handlers : ℕ → ℕ → (ℕ → ℕ) → (ℕ → IntDesc) → ℕ → IntDesc
unfolding set_int_handler
set_handlers zero irq_base irq_handlers idt = idt
set_handlers (suc n) irq_base irq_handlers idt =
    set_int_handler (u8 (irq_base + n)) (irq_handlers n) 0x8e
      (set_handlers n irq_base irq_handlers idt)

-- The lines, and the interrupt of the system calls.
unfoldable pub fill_idt : ℕ → (ℕ → ℕ) → (ℕ → IntDesc) → ℕ → IntDesc
unfolding set_handlers set_int_handler
fill_idt irq_base irq_handlers idt =
    set_int_handler (u8 (irq_base + 16)) (irq_handlers 16) 0xee
      (set_handlers 16 irq_base irq_handlers idt)

-- `cleared` is the table after `memset`, which is inline assembly; `irq_handlers` are the addresses of the
-- entry code, which is assembly.
unfoldable pub init_interrupts :
    (ℕ → IntDesc)
    → (ℕ → ℕ)
    → Ports
    → Machine
    → AddressSpace
    → Option (Interrupts × Machine × AddressSpace)
unfolding alloc_kernel_pages init_controllers fill_idt
init_interrupts cleared irq_handlers ports m s =
    alloc_kernel_pages 0 minus_one 1 (bit_or (bit_or page_present page_writable) page_global) m s
    >>= λ r. some (
      record {
        idt_address = r.0;
        idt = fill_idt 0x20 irq_handlers cleared;
        idtr = record { limit = 256 * 8; base = r.0 };
        irq_base = 0x20;
        irq_count = 16;
        ports = init_controllers 0x20 ports;
        enabled = true;
      },
      r.1,
      r.2,
    )
