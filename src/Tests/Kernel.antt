-- ===== src/Tests/Kernel.antt =====
-- The parts of the kernel, and the lookup of files, at concrete states.
use c4os.Common.{ℕ, ◌≡◌, refl, arith, false, some, Option, ◌==◌, ◌∷◌, [], if◌then◌else◌}
use c4os.Multitasking.{Registers}
use c4os.Kernel.Interrupts.{Kernel}
use c4os.Kernel.Files.{FileHeader, indicator, find_file}
use c4os.Kernel.Files.Chain.{answer, lookup, find_file-lookup}
use c4os.Tests.Tasks.{two_threads}

abbrev pub idle : Kernel
idle = record {
  timer = record { pit_ticks = 7; ports = [] };
  tasks = two_threads;
  keyboard = record { key_buffer = λ i. 0; key_buffer_head = 0; key_buffer_tail = 0; ports = [] };
  floppy = record {
    current_drive = 0;
    irq_received = false;
    dma_buffer = 0x2_0000;
    ports = [];
    reads = 0;
    tests = 0;
  };
}

abbrev pub no_output : Registers → Kernel → Option (ℕ × Kernel)
no_output regs k = some (0, k)

-- "a" in sector 19, then "b" in sector 24.
abbrev pub file_a : FileHeader
file_a = record { name = b'a' ∷ []; next = 24; parent = indicator; flags = 0; data_ = 20; size = 5 }

abbrev pub file_b : FileHeader
file_b = record {
  name = b'b' ∷ [];
  next = indicator;
  parent = indicator;
  flags = 1;
  data_ = 25;
  size = 700;
}

abbrev pub headers : ℕ → FileHeader
headers sector = if sector == 19 then file_a else file_b

-- Each list of sectors names the sector behind it, and ends.
abbrev pub words : ℕ → ℕ → ℕ
words sector i = if i == 0 then 26 else indicator

find_file-lookup_example :
    find_file headers words 2 19 (b'b' ∷ [])
    ≡ answer headers words (lookup headers words (b'b' ∷ []) (file_a ∷ file_b ∷ []))
find_file-lookup_example =
    find_file-lookup headers words 2 19 (b'b' ∷ []) (file_a ∷ file_b ∷ []) refl
      (refl, λ e. omega arith, (refl, refl))
