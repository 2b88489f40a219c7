-- ===== src/Devices/Registers.antt =====
-- The registers, modes and commands that the drivers use: those of the
-- DMA controllers (src/include/dma.h), then those of the floppy controller (src/drivers/floppy.c) and of
-- the timer (src/include/timer.h, src/kernel/timer.c).
use c4os.Common.{ℕ}

abbrev pub dma0_chan0_addr_reg : ℕ
dma0_chan0_addr_reg = 0

abbrev pub dma0_chan0_count_reg : ℕ
dma0_chan0_count_reg = 1

abbrev pub dma0_chan1_addr_reg : ℕ
dma0_chan1_addr_reg = 2

abbrev pub dma0_chan1_count_reg : ℕ
dma0_chan1_count_reg = 3

abbrev pub dma0_chan2_addr_reg : ℕ
dma0_chan2_addr_reg = 4

abbrev pub dma0_chan2_count_reg : ℕ
dma0_chan2_count_reg = 5

abbrev pub dma0_chan3_addr_reg : ℕ
dma0_chan3_addr_reg = 6

abbrev pub dma0_chan3_count_reg : ℕ
dma0_chan3_count_reg = 7

abbrev pub dma0_chanmask_reg : ℕ
dma0_chanmask_reg = 0x0a

abbrev pub dma0_mode_reg : ℕ
dma0_mode_reg = 0x0b

abbrev pub dma0_clearbyte_flipflop_reg : ℕ
dma0_clearbyte_flipflop_reg = 0x0c

abbrev pub dma0_temp_reg : ℕ
dma0_temp_reg = 0x0d

abbrev pub dma1_chan4_addr_reg : ℕ
dma1_chan4_addr_reg = 0xc0

abbrev pub dma1_chan4_count_reg : ℕ
dma1_chan4_count_reg = 0xc2

abbrev pub dma1_chan5_addr_reg : ℕ
dma1_chan5_addr_reg = 0xc4

abbrev pub dma1_chan5_count_reg : ℕ
dma1_chan5_count_reg = 0xc6

abbrev pub dma1_chan6_addr_reg : ℕ
dma1_chan6_addr_reg = 0xc8

abbrev pub dma1_chan6_count_reg : ℕ
dma1_chan6_count_reg = 0xca

abbrev pub dma1_chan7_addr_reg : ℕ
dma1_chan7_addr_reg = 0xcc

abbrev pub dma1_chan7_count_reg : ℕ
dma1_chan7_count_reg = 0xce

abbrev pub dma_page_chan2_addrbyte2 : ℕ
dma_page_chan2_addrbyte2 = 0x81

abbrev pub dma_page_chan3_addrbyte2 : ℕ
dma_page_chan3_addrbyte2 = 0x82

abbrev pub dma_page_chan1_addrbyte2 : ℕ
dma_page_chan1_addrbyte2 = 0x83

abbrev pub dma_page_chan6_addrbyte2 : ℕ
dma_page_chan6_addrbyte2 = 0x87

abbrev pub dma_page_chan7_addrbyte2 : ℕ
dma_page_chan7_addrbyte2 = 0x88

abbrev pub dma_page_chan5_addrbyte2 : ℕ
dma_page_chan5_addrbyte2 = 0x89

abbrev pub dma1_chanmask_reg : ℕ
dma1_chanmask_reg = 0xd4

abbrev pub dma1_mode_reg : ℕ
dma1_mode_reg = 0xd6

abbrev pub dma1_clearbyte_flipflop_reg : ℕ
dma1_clearbyte_flipflop_reg = 0xd8

abbrev pub dma1_unmask_all_reg : ℕ
dma1_unmask_all_reg = 0xdc

abbrev pub dma_mode_read_transfer : ℕ
dma_mode_read_transfer = 4

abbrev pub dma_mode_write_transfer : ℕ
dma_mode_write_transfer = 8

abbrev pub dma_mode_transfer_single : ℕ
dma_mode_transfer_single = 0x40

abbrev pub flpydsk_dor : ℕ
flpydsk_dor = 0x3f2

abbrev pub flpydsk_msr : ℕ
flpydsk_msr = 0x3f4

abbrev pub flpydsk_fifo : ℕ
flpydsk_fifo = 0x3f5

abbrev pub flpydsk_ctrl : ℕ
flpydsk_ctrl = 0x3f7

abbrev pub fdc_cmd_specify : ℕ
fdc_cmd_specify = 3

abbrev pub fdc_cmd_read_sect : ℕ
fdc_cmd_read_sect = 6

abbrev pub fdc_cmd_calibrate : ℕ
fdc_cmd_calibrate = 7

abbrev pub fdc_cmd_check_int : ℕ
fdc_cmd_check_int = 8

abbrev pub fdc_cmd_seek : ℕ
fdc_cmd_seek = 0xf

abbrev pub fdc_cmd_ext_skip : ℕ
fdc_cmd_ext_skip = 0x20

abbrev pub fdc_cmd_ext_density : ℕ
fdc_cmd_ext_density = 0x40

abbrev pub fdc_cmd_ext_multitrack : ℕ
fdc_cmd_ext_multitrack = 0x80

abbrev pub flpydsk_dor_mask_reset : ℕ
flpydsk_dor_mask_reset = 4

abbrev pub flpydsk_dor_mask_dma : ℕ
flpydsk_dor_mask_dma = 8

abbrev pub flpydsk_dor_mask_drive0_motor : ℕ
flpydsk_dor_mask_drive0_motor = 16

abbrev pub flpydsk_dor_mask_drive1_motor : ℕ
flpydsk_dor_mask_drive1_motor = 32

abbrev pub flpydsk_dor_mask_drive2_motor : ℕ
flpydsk_dor_mask_drive2_motor = 64

abbrev pub flpydsk_dor_mask_drive3_motor : ℕ
flpydsk_dor_mask_drive3_motor = 128

abbrev pub flpydsk_msr_mask_datareg : ℕ
flpydsk_msr_mask_datareg = 128

abbrev pub flpydsk_gap3_length_3_5 : ℕ
flpydsk_gap3_length_3_5 = 27

abbrev pub flpydsk_sector_dtl_512 : ℕ
flpydsk_sector_dtl_512 = 2

abbrev pub flpy_sectors_per_track : ℕ
flpy_sectors_per_track = 18

abbrev pub fdc_dma_channel : ℕ
fdc_dma_channel = 2

abbrev pub temp_dma_buffer_addr : ℕ
temp_dma_buffer_addr = 0x2_0000

abbrev pub i86_pit_ocw_counter_0 : ℕ
i86_pit_ocw_counter_0 = 0

abbrev pub i86_pit_reg_counter0 : ℕ
i86_pit_reg_counter0 = 0x40

abbrev pub i86_pit_ocw_counter_1 : ℕ
i86_pit_ocw_counter_1 = 0x40

abbrev pub i86_pit_reg_counter1 : ℕ
i86_pit_reg_counter1 = 0x41

abbrev pub i86_pit_reg_counter2 : ℕ
i86_pit_reg_counter2 = 0x42

abbrev pub i86_pit_reg_command : ℕ
i86_pit_reg_command = 0x43

abbrev pub i86_pit_ocw_mask_mode : ℕ
i86_pit_ocw_mask_mode = 0xe

abbrev pub i86_pit_ocw_mask_rl : ℕ
i86_pit_ocw_mask_rl = 0x30

abbrev pub i86_pit_ocw_rl_data : ℕ
i86_pit_ocw_rl_data = 0x30

abbrev pub i86_pit_ocw_mask_counter : ℕ
i86_pit_ocw_mask_counter = 0xc0
