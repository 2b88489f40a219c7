-- ===== src/Devices/Floppy.antt =====
-- The floppy driver of src/drivers/floppy.c. `inportb n port` is the value of the n-th read of a
-- port; `irq_at n` tells if the interrupt handler has run before the n-th test of its flag. `sleep`
-- changes nothing here and is left out. `fuel` bounds the tests of one wait.
pub mod Sector
pub mod Bounds
use c4os.Common.{
  ℕ, zero, suc, ◌+◌, ◌*◌, ◌/◌, ◌%◌, ◌^◌, Bool, true, false, ◌||◌, Option, none, some, ◌==◌, ltb,
  leb, if◌then◌else◌, ◌>>=◌, u8, u32, shl, shr, sub32, bit_and, bit_or,
}
use c4os.Devices.Registers.{
  flpydsk_dor, flpydsk_ctrl, flpydsk_dor_mask_reset, flpydsk_dor_mask_dma,
  flpydsk_dor_mask_drive0_motor, flpydsk_dor_mask_drive1_motor, flpydsk_dor_mask_drive2_motor,
  flpydsk_dor_mask_drive3_motor, flpydsk_msr, flpydsk_msr_mask_datareg, flpydsk_fifo,
  fdc_cmd_check_int, fdc_cmd_specify, fdc_cmd_calibrate, fdc_cmd_seek, fdc_dma_channel,
}
use c4os.Devices.Ports.{Ports, outportb}
use c4os.Devices.Dma.{
  dma_reset, dma_mask_channel, dma_reset_flipflop, dma_set_read, dma_set_address,
  dma_set_external_page_register, dma_set_count, dma_unmask_all,
}

pub record Floppy : Type 0 where
  pub current_drive : ℕ
  pub irq_received : Bool
  pub dma_buffer : ℕ
  pub ports : Ports
  pub reads : ℕ
  pub tests : ℕ

-- What `flpydsk_calibrate` returns: 0, -1 and -2.
pub data Calibration : Type 0 where
  at_zero : Calibration
  not_found : Calibration
  bad_drive : Calibration

-- The test of the buffer: above 16 MB, longer than 64 KB, or across a 64 KB boundary.
unfoldable pub has_buffer_issue : ℕ → ℕ → Bool
has_buffer_issue buffer length =
    let a = u32 buffer in
    let c = sub32 length 1 in
    if shr a 24 == 0
    then (if shr c 16 == 0
        then (if shr (bit_and a 0xffff + c) 16 == 0 then false else true)
        else true)
    else true

unfoldable pub dma_initialize_floppy : ℕ → ℕ → Ports → Option (Bool × Ports)
unfolding has_buffer_issue
dma_initialize_floppy buffer length p0 =
    let a = u32 buffer in
    let c = sub32 length 1 in
    if has_buffer_issue buffer length then some (false, p0) else (do
      p1 ← dma_mask_channel fdc_dma_channel (dma_reset p0)
      p2 ← dma_set_read fdc_dma_channel (dma_reset_flipflop fdc_dma_channel p1)
      let p3 = dma_set_address fdc_dma_channel (a % 0x100) (a / 0x100 % 0x100) p2
      let p4 = dma_set_external_page_register 2 (a / 0x1_0000 % 0x100) p3
      let p5 = dma_set_count fdc_dma_channel (c % 0x100) (c / 0x100 % 0x100) p4
      some (true, dma_unmask_all p5))

unfoldable pub flpydsk_set_dma : ℕ → Floppy → Floppy
flpydsk_set_dma addr f = record f { dma_buffer = addr }

unfoldable pub write_port : ℕ → ℕ → Floppy → Floppy
write_port port value f = record f { ports = outportb port value f.ports }

unfoldable pub flpydsk_write_dor : ℕ → Floppy → Floppy
unfolding write_port
flpydsk_write_dor val f = write_port flpydsk_dor (u8 val) f

unfoldable pub flpydsk_write_ccr : ℕ → Floppy → Floppy
unfolding write_port
flpydsk_write_ccr val f = write_port flpydsk_ctrl (u8 val) f

unfoldable pub i86_flpy_irq : Floppy → Floppy
i86_flpy_irq f = record f { irq_received = true }

unfoldable pub flpydsk_disable_controller : Floppy → Floppy
unfolding flpydsk_write_dor
flpydsk_disable_controller f = flpydsk_write_dor 0 f

unfoldable pub flpydsk_enable_controller : Floppy → Floppy
unfolding flpydsk_write_dor
flpydsk_enable_controller f =
    flpydsk_write_dor (bit_or flpydsk_dor_mask_reset flpydsk_dor_mask_dma) f

-- `sleep(20)` follows.
unfoldable pub flpydsk_control_motor : Bool → Floppy → Floppy
unfolding flpydsk_write_dor
flpydsk_control_motor on f =
    let drive = f.current_drive in
    let motor =
      if drive == 0
      then flpydsk_dor_mask_drive0_motor
      else (if drive == 1
          then flpydsk_dor_mask_drive1_motor
          else (if drive == 2
              then flpydsk_dor_mask_drive2_motor
              else flpydsk_dor_mask_drive3_motor)) in
    if ltb 3 drive
    then f
    else (if on
        then flpydsk_write_dor
            (bit_or (bit_or (bit_or drive motor) flpydsk_dor_mask_reset) flpydsk_dor_mask_dma) f
        else flpydsk_write_dor flpydsk_dor_mask_reset f)

unfoldable pub flpydsk_set_working_drive : ℕ → Floppy → Floppy
flpydsk_set_working_drive drive f = if ltb drive 4 then record f { current_drive = drive } else f

unfoldable pub flpydsk_get_working_drive : Floppy → ℕ
flpydsk_get_working_drive f = f.current_drive

-- The head, the track and the sector of a block that is not negative.
unfoldable pub flpydsk_lba_to_chs : ℕ → ℕ × ℕ × ℕ
flpydsk_lba_to_chs lba = (lba % 36 / 18, lba / 36, lba % 18 + 1)

module _ (inportb : ℕ → ℕ → ℕ) (irq_at : ℕ → Bool) (fuel : ℕ) where
  unfoldable pub read_port : ℕ → Floppy → ℕ × Floppy
  read_port port f = (u8 (inportb f.reads port), record f { reads = f.reads + 1 })

  -- The status is read at most 500 times; then the byte is dropped.
  unfoldable pub send_loop : ℕ → ℕ → Floppy → Floppy
  unfolding read_port write_port
  send_loop zero cmd f = f
  send_loop (suc n) cmd f =
      let (status, f1) = read_port flpydsk_msr f in
      let rest = send_loop n cmd f1 in
      if bit_and status flpydsk_msr_mask_datareg == 0 then rest else write_port flpydsk_fifo cmd f1

  unfoldable pub flpydsk_send_command : ℕ → Floppy → Floppy
  unfolding send_loop
  flpydsk_send_command cmd f = send_loop 500 (u8 cmd) f

  unfoldable pub data_loop : ℕ → Floppy → ℕ × Floppy
  unfolding read_port
  data_loop zero f = (0, f)
  data_loop (suc n) f =
      let (status, f1) = read_port flpydsk_msr f in
      let rest = data_loop n f1 in
      if bit_and status flpydsk_msr_mask_datareg == 0 then rest else read_port flpydsk_fifo f1

  unfoldable pub flpydsk_read_data : Floppy → ℕ × Floppy
  unfolding data_loop
  flpydsk_read_data f = data_loop 500 f

  unfoldable pub wait_loop : ℕ → Floppy → Option Floppy
  unfolding i86_flpy_irq
  wait_loop zero f = none
  wait_loop (suc n) f =
      let f1 = if irq_at f.tests then i86_flpy_irq f else f in
      let f2 = record f1 { tests = f1.tests + 1 } in
      let rest = wait_loop n f2 in
      if f2.irq_received then some (record f2 { irq_received = false }) else rest

  unfoldable pub flpydsk_wait_irq : Floppy → Option Floppy
  unfolding wait_loop
  flpydsk_wait_irq f = wait_loop fuel f

  unfoldable pub flpydsk_check_int : Floppy → (ℕ × ℕ) × Floppy
  unfolding flpydsk_send_command flpydsk_read_data
  flpydsk_check_int f0 =
      let f1 = flpydsk_send_command fdc_cmd_check_int f0 in
      let (st0, f2) = flpydsk_read_data f1 in
      let (cyl, f3) = flpydsk_read_data f2 in ((st0, cyl), f3)

  unfoldable pub flpydsk_drive_data : ℕ → ℕ → ℕ → Bool → Floppy → Floppy
  unfolding flpydsk_send_command
  flpydsk_drive_data stepr loadt unloadt dma f0 =
      let f1 = flpydsk_send_command fdc_cmd_specify f0 in
      let f2 =
        flpydsk_send_command (u8 (bit_or (shl (bit_and stepr 0xf) 4) (bit_and unloadt 0xf))) f1 in
      flpydsk_send_command (u8 (bit_or (shl loadt 1) (if dma then 0 else 1))) f2

  -- One try: the command, the wait and the cylinder that the drive reports.
  unfoldable pub calibrate_try : ℕ → Floppy → Option (ℕ × Floppy)
  unfolding flpydsk_send_command flpydsk_wait_irq flpydsk_check_int
  calibrate_try drive f0 = do
    f1 ← flpydsk_wait_irq (flpydsk_send_command drive (flpydsk_send_command fdc_cmd_calibrate f0))
    let ((st0, cyl), f2) = flpydsk_check_int f1
    some (cyl, f2)

  unfoldable pub calibrate_loop : ℕ → ℕ → Floppy → Option (Calibration × Floppy)
  unfolding calibrate_try flpydsk_control_motor
  calibrate_loop zero drive f = some (not_found, flpydsk_control_motor false f)
  calibrate_loop (suc n) drive f0 = do
    (cyl, f1) ← calibrate_try drive f0
    let rest = calibrate_loop n drive f1
    if cyl == 0 then some (at_zero, flpydsk_control_motor false f1) else rest

  unfoldable pub flpydsk_calibrate : ℕ → Floppy → Option (Calibration × Floppy)
  unfolding calibrate_loop flpydsk_control_motor
  flpydsk_calibrate drive f =
      if leb 4 drive
      then some (bad_drive, f)
      else calibrate_loop 10 drive (flpydsk_control_motor true f)

  unfoldable pub flpydsk_reset : Floppy → Option Floppy
  unfolding flpydsk_disable_controller flpydsk_enable_controller flpydsk_wait_irq flpydsk_check_int
  flpydsk_reset f0 = do
    f1 ← flpydsk_wait_irq (flpydsk_enable_controller (flpydsk_disable_controller f0))
    let (r1, f2) = flpydsk_check_int f1
    let (r2, f3) = flpydsk_check_int f2
    let (r3, f4) = flpydsk_check_int f3
    let (r4, f5) = flpydsk_check_int f4
    some f5

  unfoldable pub seek_try : ℕ → ℕ → Floppy → Option (ℕ × Floppy)
  unfolding flpydsk_send_command flpydsk_wait_irq flpydsk_check_int
  seek_try cyl head f0 = do
    let f1 = flpydsk_send_command fdc_cmd_seek f0
    let f2 = flpydsk_send_command (bit_or (shl head 2) f1.current_drive) f1
    f3 ← flpydsk_wait_irq (flpydsk_send_command cyl f2)
    let ((st0, cyl0), f4) = flpydsk_check_int f3
    some (cyl0, f4)

  -- `true`: the cylinder was found, 0 is returned; `false`: -1.
  unfoldable pub seek_loop : ℕ → ℕ → ℕ → Floppy → Option (Bool × Floppy)
  unfolding seek_try
  seek_loop zero cyl head f = some (false, f)
  seek_loop (suc n) cyl head f0 = do
    (cyl0, f1) ← seek_try cyl head f0
    let rest = seek_loop n cyl head f1
    if cyl0 == cyl then some (true, f1) else rest

  unfoldable pub flpydsk_seek : ℕ → ℕ → Floppy → Option (Bool × Floppy)
  unfolding seek_loop
  flpydsk_seek cyl head f =
      if leb 4 f.current_drive then some (false, f) else seek_loop 10 cyl head f
