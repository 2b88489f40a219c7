-- ===== src/Devices/Floppy/Sector.antt =====
-- Reading a sector, and installing the driver: the last part of src/drivers/floppy.c.
use c4os.Common.{
  ℕ, zero, suc, ◌+◌, Bool, true, false, Option, some, leb, if◌then◌else◌, ◌>>=◌, u8, u32, shl,
  bit_or,
}
use c4os.Devices.Registers.{
  fdc_cmd_read_sect, fdc_cmd_ext_multitrack, fdc_cmd_ext_skip, fdc_cmd_ext_density,
  flpydsk_sector_dtl_512, flpy_sectors_per_track, flpydsk_gap3_length_3_5,
}
use c4os.Devices.Floppy.{
  Floppy, dma_initialize_floppy, flpydsk_write_ccr, flpydsk_control_motor, flpydsk_lba_to_chs,
  flpydsk_send_command, flpydsk_read_data, flpydsk_wait_irq, flpydsk_check_int, flpydsk_drive_data,
  flpydsk_calibrate, flpydsk_reset, flpydsk_seek,
}

module _ (inportb : ℕ → ℕ → ℕ) (irq_at : ℕ → Bool) (fuel : ℕ) where
  -- The status bytes that follow a command are read and dropped.
  unfoldable pub drop_data : ℕ → Floppy → Floppy
  drop_data zero f = f
  drop_data (suc n) f = let (byte, f1) = flpydsk_read_data inportb irq_at fuel f in drop_data n f1

  -- What `dma_initialize_floppy` returns is not looked at.
  unfoldable pub start_dma : Floppy → Option Floppy
  unfolding dma_initialize_floppy
  start_dma f = do
    (accepted, ports) ← dma_initialize_floppy f.dma_buffer 512 f.ports
    some (record f { ports = ports })

  unfoldable pub flpydsk_read_sector_imp : ℕ → ℕ → ℕ → Floppy → Option Floppy
  unfolding start_dma drop_data flpydsk_send_command flpydsk_wait_irq flpydsk_check_int
  flpydsk_read_sector_imp head track sector f = do
    f0 ← start_dma f
    let send = flpydsk_send_command inportb irq_at fuel
    let f1 =
        send
          (bit_or (bit_or (bit_or fdc_cmd_read_sect fdc_cmd_ext_multitrack) fdc_cmd_ext_skip)
            fdc_cmd_ext_density)
          f0
    let f2 = send (bit_or (shl head 2) f1.current_drive) f1
    let f3 = send sector (send head (send track f2))
    let f4 = send flpydsk_sector_dtl_512 f3
    let f5 =
        send
          (if leb flpy_sectors_per_track (sector + 1) then flpy_sectors_per_track else sector + 1)
          f4
    let f6 = send 0xff (send flpydsk_gap3_length_3_5 f5)
    f7 ← flpydsk_wait_irq inportb irq_at fuel f6
    let (result, f8) = flpydsk_check_int inportb irq_at fuel (drop_data 7 f7)
    some f8

  -- What follows a seek that has found the track.
  unfoldable pub read_found : ℕ → ℕ → ℕ → Floppy → Option (ℕ × Floppy)
  unfolding flpydsk_control_motor flpydsk_read_sector_imp flpydsk_reset
  read_found head track sector f1 = do
    f2 ← flpydsk_read_sector_imp head track sector f1
    f3 ← flpydsk_reset inportb irq_at fuel (flpydsk_control_motor false f2)
    some (u32 f3.dma_buffer, f3)

  -- The address of the buffer, or 0.
  unfoldable pub flpydsk_read_sector : ℕ → Floppy → Option (ℕ × Floppy)
  unfolding flpydsk_lba_to_chs flpydsk_control_motor flpydsk_seek read_found
  flpydsk_read_sector lba f0 =
      let (head, track, sector) = flpydsk_lba_to_chs lba in
      let after_seek =
        flpydsk_seek inportb irq_at fuel (u8 track) (u8 head) (flpydsk_control_motor true f0) in
      if leb 4 f0.current_drive
      then some (0, f0)
      else (after_seek >>= λ (found, f1).
          if found then read_found (u8 head) (u8 track) (u8 sector) f1 else some (0, f1))

  unfoldable pub flpydsk_install : Floppy → Option Floppy
  unfolding flpydsk_reset flpydsk_write_ccr flpydsk_drive_data flpydsk_calibrate
  flpydsk_install f0 = do
    f1 ← flpydsk_reset inportb irq_at fuel f0
    let f2 = flpydsk_drive_data inportb irq_at fuel 3 16 240 true (flpydsk_write_ccr 0 f1)
    (result, f3) ← flpydsk_calibrate inportb irq_at fuel f2.current_drive f2
    some f3
