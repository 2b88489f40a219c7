-- ===== src/Kernel/Disks.antt =====
-- How src/kernel/kernel.c and src/kernel/listfs.c use the floppy driver: `init_floppy`,
-- `alloc_dma_buffer`, `get_file_info_by`.
use c4os.Common.{ℕ, Bool, Option, some, ◌>>=◌}
use c4os.Devices.Registers.{temp_dma_buffer_addr}
use c4os.Devices.Floppy.{Floppy, flpydsk_set_dma, flpydsk_set_working_drive}
use c4os.Devices.Floppy.Sector.{flpydsk_install, flpydsk_read_sector}

unfoldable pub alloc_dma_buffer : Floppy → ℕ × Floppy
unfolding flpydsk_set_dma
alloc_dma_buffer f = (0x2_0000, flpydsk_set_dma 0x2_0000 f)

module _ (inportb : ℕ → ℕ → ℕ) (irq_at : ℕ → Bool) (fuel : ℕ) where
  unfoldable pub init_floppy : Floppy → Option Floppy
  unfolding flpydsk_install flpydsk_set_working_drive flpydsk_set_dma
  init_floppy f = flpydsk_install inportb irq_at fuel (flpydsk_set_working_drive 0 f) >>= λ f1.
      some (flpydsk_set_dma temp_dma_buffer_addr f1)

  -- The address of the header, or 0.
  unfoldable pub get_file_info_by : ℕ → Floppy → Option (ℕ × Floppy)
  unfolding flpydsk_set_dma flpydsk_read_sector
  get_file_info_by sector_number f =
      flpydsk_read_sector inportb irq_at fuel sector_number (flpydsk_set_dma temp_dma_buffer_addr f)
