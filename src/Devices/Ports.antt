-- ===== src/Devices/Ports.antt =====
-- The I/O ports as the drivers see them (`outportb` of src/include/stdlib.h): the writes, the
-- latest first, each a port and a byte.
use c4os.Common.{ℕ, List, ◌∷◌, u8}

abbrev pub Ports : Type 0
Ports = List (ℕ × ℕ)

abbrev pub outportb : ℕ → ℕ → Ports → Ports
outportb port value ports = (port, u8 value) ∷ ports
