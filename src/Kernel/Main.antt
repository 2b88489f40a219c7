-- ===== src/Kernel/Main.antt =====
-- The whole of `kernel_main` of src/kernel/kernel.c: the parts are set up one after the other, the screen
-- shows what they have found, and the console takes its commands.
use c4os.Common.{ℕ, Bool, Option, some, List, map, ◌>>=◌}
use c4os.Tty.{TtyChar}
use c4os.Tty.Setup.{init_tty}
use c4os.Devices.Floppy.{Floppy}
use c4os.Memory.Boot.{init_memory_manager}
use c4os.Memory.Boot as Boot
use c4os.Multitasking.Create.{init_multitasking}
use c4os.Kernel.Interrupts.{IntDesc}
use c4os.Kernel.Interrupts.Table.{Interrupts, init_interrupts}
use c4os.Kernel.Disks.{init_floppy}
use c4os.Kernel.Console.{Disk}
use c4os.Kernel.Console as Console
use c4os.Kernel.Console.Commands.{console_loop, welcome}
use c4os.Kernel.Console.Commands as Commands

-- What the linker, the BIOS and the entry code give: the addresses of the parts of the kernel, the table of
-- interrupts once it is cleared, the handlers, the words and the screen of the BIOS, and CR3.
pub record Platform : Type 0 where
  pub code : ℕ
  pub data_ : ℕ
  pub end_ : ℕ
  pub kernel_base : ℕ
  pub cleared : ℕ → IntDesc
  pub irq_handlers : ℕ → ℕ
  pub cell : ℕ → ℕ
  pub video : ℕ → TtyChar
  pub kernel_page_dir : ℕ

-- All that the kernel keeps.
pub record State : Type 0 where
  pub console : Commands.Console
  pub floppy : Floppy
  pub interrupts : Interrupts
  pub memory_size : ℕ

-- The two structures for an entry of the memory map have the same layout.
abbrev as_shown : Boot.MemoryMapEntry → Console.MemoryMapEntry
as_shown e = record { base = e.base; length_ = e.length_; type_ = e.type_ }

module _ (platform : Platform) (inportb : ℕ → ℕ → ℕ) (irq_at : ℕ → Bool)
    (fuel process_list thread_list : ℕ) where
  -- The calls before the first line is shown.
  unfoldable pub set_up : List Boot.MemoryMapEntry → State → Option State
  unfolding init_memory_manager init_interrupts init_multitasking init_tty init_floppy
  set_up memory_map st =
      let sys = st.console.system in
      init_memory_manager platform.kernel_page_dir platform.code platform.data_ platform.end_
        platform.kernel_base memory_map sys.machine sys.kernel_address_space
      >>= λ r.
          init_interrupts platform.cleared platform.irq_handlers st.interrupts.ports r.1 r.2
          >>= λ i.
              init_multitasking process_list thread_list platform.kernel_page_dir
                platform.kernel_base (record sys { machine = i.1; kernel_address_space = i.2 })
              >>= λ s.
                  init_tty platform.cell platform.video st.console.tty.ports s.machine
                    s.kernel_address_space
                  >>= λ t. init_floppy inportb irq_at fuel st.floppy >>= λ f. some (record {
                    console = record st.console {
                      tty = t.0;
                      system = record s { machine = t.1; kernel_address_space = t.2 };
                    };
                    floppy = f;
                    interrupts = i.0;
                    memory_size = r.0;
                  })

  module _ (arrivals : ℕ → List (ℕ × ℕ)) (lines rounds files : ℕ) (stack : ℕ → ℕ) (disk : Disk)
      (process_name : ℕ → List ℕ) (syscall : Commands.Console → Option Commands.Console) where
    -- The loop of the console has no end: `n` lines. `memory_map` is the address of the entries.
    unfoldable pub kernel_main : ℕ → ℕ → List Boot.MemoryMapEntry → ℕ → ℕ → State → Option State
    unfolding set_up welcome console_loop
    kernel_main boot_disk_id memory_map entries first_file_sector_number n st =
        set_up entries st >>= λ st1.
        welcome boot_disk_id memory_map (map as_shown entries) platform.kernel_page_dir
          st1.memory_size st1.console
        >>= λ c.
            console_loop arrivals lines rounds stack disk files first_file_sector_number
              process_name process_list thread_list platform.kernel_page_dir syscall n c
            >>= λ c2. some (record st1 { console = c2 })
